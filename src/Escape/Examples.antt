-- ===== src/Escape/Examples.antt =====
-- The escaping of texts that need none, and of one that does not fit.
use juggernaut_server.Base.{
  ℕ, ◌*◌, ◌≤◌, ◌≡◌, ◌≢◌, [], ◌∷◌, ◌++◌, some, All, length, codes, ◌==◌, if◌then◌else◌, arith,
}
use juggernaut_server.Database.{Text}
use juggernaut_server.Escape.{quote, escape_string}
use juggernaut_server.Escape.Room.{IsEscaping, escape_string-room}

-- A quote is written twice, and a zero as a backslash and the digit.
abbrev escape_char : ℕ → Text
escape_char c =
    if c == b'\'' then b'\'' ∷ b'\'' ∷ [] else if c == 0 then b'\\' ∷ b'0' ∷ [] else c ∷ []

abbrev doubling : Text → Text
doubling [] = []
doubling (c ∷ s) = escape_char c ++ doubling s

doubling-bounds :
    (s : Text) → (length s ≤ length (doubling s)) × (length (doubling s) ≤ 2 * length s)
doubling-bounds [] = omega arith
doubling-bounds (c ∷ s) = let h = doubling-bounds s in ground arith

doubling-clean : (s : Text) → All (λ c. c ≢ 0) (doubling s)
doubling-clean [] = tt
doubling-clean (c ∷ s) = let h = doubling-clean s in ground arith

doubling-IsEscaping : IsEscaping doubling
doubling-IsEscaping = record {
  at_least = λ s. (doubling-bounds s).0;
  at_most = λ s. (doubling-bounds s).1;
  clean = doubling-clean;
}

escape_string-room_example :
    escape_string doubling (codes "it's") ≡ some (quote ++ (codes "it''s" ++ quote))
escape_string-room_example =
    escape_string-room doubling (codes "it's") doubling-IsEscaping (omega arith)

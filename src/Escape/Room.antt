-- ===== src/Escape/Room.antt =====
-- Whether the buffer of `escapeBlob` in source/database.cpp has room for the escaped text.
use juggernaut_server.Base.{
  ℕ, ltb, ◌==◌, false, Bool-cases, inl, inr, ltb→lt, ltb→le, suc, if◌then◌else◌, ◌+◌, ◌*◌, ◌^◌, ◌≤◌,
  ◌<◌, ◌≡◌, ◌≢◌, refl, ap, sym, ◌∙◌, [], ◌∷◌, ◌++◌, none, some, All, length, take_all, u32, lt→ltb,
  le→ltb, arith,
}
use juggernaut_server.Database.{Text, until_zero}
use juggernaut_server.Escape.{quote, max_length, quoted, escape_into, escape_blob, escape_string}

-- What MySQL documents of `mysql_real_escape_string`: each character becomes one or two, and none of
-- them is a zero.
pub record IsEscaping (real_escape : Text → Text) : Type 0 where
  pub at_least : (s : Text) → length s ≤ length (real_escape s)
  pub at_most : (s : Text) → length (real_escape s) ≤ 2 * length s
  pub clean : (s : Text) → All (λ c. c ≢ 0) (real_escape s)

until_zero-clean : (text : Text) → All (λ c. c ≢ 0) text → until_zero text ≡ text
unfolding until_zero
until_zero-clean [] all = refl
until_zero-clean (c ∷ cs) (h, all) = ground (arith, until_zero-clean cs all)

length-zero : (s : Text) → length s ≤ 0 → s ≡ []
length-zero [] h = refl
length-zero (c ∷ s) h = absurd (omega arith)

nonzero : (n : ℕ) → (suc n == 0) ≡ false
nonzero n = ground arith

module _ (real_escape : Text → Text) (escaping : IsEscaping real_escape) where
  escape_into-room :
      (room : ℕ) (s : Text)
      → 2 * length s < room
      → escape_into real_escape room s ≡ some (real_escape s)
  unfolding escape_into
  escape_into-room room s h =
      rw (le→ltb room (length (real_escape s) + 1) (omega (arith, h, escaping.at_most s)))
        (ap some (until_zero-clean (real_escape s) (escaping.clean s)))

  escape_into-overrun :
      (room : ℕ) (s : Text) → room ≤ length s → escape_into real_escape room s ≡ none
  unfolding escape_into
  escape_into-overrun room s h =
      rw (lt→ltb room (length (real_escape s) + 1) (omega (arith, h, escaping.at_least s))) refl

  blob-some :
      (s : Text)
      → s ≢ []
      → escape_blob real_escape s (length s)
        ≡ quoted (escape_into real_escape (max_length (length s)) s)
  unfolding escape_blob
  blob-some [] h = absurd (h refl)
  blob-some (c ∷ s) h =
      let n = length (c ∷ s) in
      rw (nonzero (length s)) (
        ap (λ t. quoted (escape_into real_escape (max_length n) t))
          (take_all (c ∷ s) n (omega arith)))

  blob-none : escape_blob real_escape [] 0 ≡ some (quote ++ (real_escape [] ++ quote))
  unfolding escape_blob
  blob-none =
      ap (λ e. some (quote ++ (e ++ quote)))
        (sym (length-zero (real_escape []) (escaping.at_most [])))

  blob-whole :
      (s : Text)
      → length s < 2 ^ 31
      → escape_blob real_escape s (length s) ≡ some (quote ++ (real_escape s ++ quote))
  unfolding max_length quoted
  blob-whole [] small = blob-none
  blob-whole (c ∷ s) small =
      blob-some (c ∷ s) (λ e. absurd (cc))
      ∙ ap quoted (escape_into-room (max_length (length (c ∷ s))) (c ∷ s) (omega arith))

  blob-overrun :
      (s : Text)
      → 2 ^ 31 ≤ length s
      → length s < 2 ^ 32
      → escape_blob real_escape s (length s) ≡ none
  unfolding max_length quoted
  blob-overrun [] long small = absurd (omega arith)
  blob-overrun (c ∷ s) long small =
      blob-some (c ∷ s) (λ e. absurd (cc))
      ∙ ap quoted (escape_into-overrun (max_length (length (c ∷ s))) (c ∷ s) (omega arith))

narrowed : (n : ℕ) → n < 2 ^ 32 → u32 n ≡ n
narrowed n h = omega arith

-- `escapeString` of a text of less than 2 ^ 32 characters quotes what MySQL escapes, whole, if the
-- text has less than 2 ^ 31 characters. From there on the length of the buffer wraps around to no
-- more than the text's, and MySQL writes behind its end.
pub escape_string-room :
    (real_escape : Text → Text) (s : Text)
    → IsEscaping real_escape
    → length s < 2 ^ 32
    → escape_string real_escape s
      ≡ (if ltb (length s) (2 ^ 31) then some (quote ++ (real_escape s ++ quote)) else none)
unfolding escape_string
escape_string-room real_escape s escaping small =
    ap (escape_blob real_escape s) (narrowed (length s) small)
    ∙ elim (Bool-cases (ltb (length s) (2 ^ 31))) [
      | inl short ↦ rw short (blob-whole real_escape escaping s (ltb→lt (length s) (2 ^ 31) short))
      | inr long ↦
          rw long (blob-overrun real_escape escaping s (ltb→le (length s) (2 ^ 31) long) small)
    ]

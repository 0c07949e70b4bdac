-- ===== src/Message/Reading.antt =====
-- The reading operations of a message: they stay inside the array and the received bytes, and they
-- return the bytes at the position.
use native.Mathlib.Nat.{mod-eq_of_lt}
use juggernaut_server.Base.{
  ℕ, ◌+◌, ◌%◌, ◌^◌, ◌≤◌, ◌<◌, ◌≡◌, refl, ap, ◌∙◌, inl, inr, true, false, List, [], some, slice,
  le_value, leb, arith, Bool-cases,
}
use juggernaut_server.Message.{NetworkMessage, max_size, over_end, get, get_chars, get_string}

-- `m'` is `m` after a successful read of `n` bytes, or `m` with the overrun mark.
pub data Read (m m' : NetworkMessage) : Type 0 where
  advanced :
      (n : ℕ)
      → m.position + n ≤ m.len + 8
      → m.position + n < max_size
      → m' ≡ record m { position = m.position + n }
      → Read m m'
  refused : m' ≡ record m { overrun = true } → Read m m'

-- The two ends that `canRead` tests.
within_end :
    (m : NetworkMessage) (n : ℕ)
    → over_end m n ≡ false
    → (m.position + n ≤ m.len + 8) × (m.position + n < max_size)
unfolding over_end
within_end m n h = (ground arith, ground arith)

not-over_end :
    (m : NetworkMessage) (n : ℕ)
    → m.position + n ≤ m.len + 8
    → m.position + n < max_size
    → over_end m n ≡ false
unfolding over_end
not-over_end m n h k = ground arith

-- What is read at the position.
pub get_at :
    (n : ℕ) (m : NetworkMessage)
    → m.position + n ≤ m.len + 8
    → m.position + n < max_size
    → get n m
      ≡ some (le_value (slice m.buffer m.position n), record m { position = m.position + n })
unfolding get
get_at n m h k =
    let fits = not-over_end m n h k in
    let room : leb (m.position + n) max_size ≡ true = ground arith in
    let kept : (m.position + n) % 2 ^ 16 ≡ m.position + n = mod-eq_of_lt (omega arith) in
    rw (fits, room, kept)

pub get_chars_at :
    (n : ℕ) (m : NetworkMessage)
    → m.position + n ≤ m.len + 8
    → m.position + n < max_size
    → get_chars n m ≡ some (slice m.buffer m.position n, record m { position = m.position + n })
unfolding get_chars
get_chars_at n m h k =
    let fits = not-over_end m n h k in
    let room : leb (m.position + n) max_size ≡ true = ground arith in
    let kept : (m.position + n) % 2 ^ 16 ≡ m.position + n = mod-eq_of_lt (omega arith) in
    rw (fits, room, kept)

get_refused :
    (n : ℕ) (m : NetworkMessage)
    → over_end m n ≡ true
    → get n m ≡ some (0, record m { overrun = true })
unfolding get
get_refused n m h = rw h

get_chars_refused :
    (n : ℕ) (m : NetworkMessage)
    → over_end m n ≡ true
    → get_chars n m ≡ some ([], record m { overrun = true })
unfolding get_chars
get_chars_refused n m h = rw h

-- `get<T>` reads inside the array and the received bytes, whatever the message holds.
pub get-Read :
    (n : ℕ) (m : NetworkMessage)
    → (v : ℕ) × (m' : NetworkMessage) × (get n m ≡ some (v, m')) × Read m m'
get-Read n m = elim (Bool-cases (over_end m n)) [
  | inl over ↦ (0, record m { overrun = true }, get_refused n m over, refused refl)
  | inr fits ↦
      let ends = within_end m n fits in
      (
        le_value (slice m.buffer m.position n),
        record m { position = m.position + n },
        get_at n m ends.0 ends.1,
        advanced n ends.0 ends.1 refl,
      )
]

pub get_chars-Read :
    (n : ℕ) (m : NetworkMessage)
    → (s : List ℕ) × (m' : NetworkMessage) × (get_chars n m ≡ some (s, m')) × Read m m'
get_chars-Read n m = elim (Bool-cases (over_end m n)) [
  | inl over ↦ ([], record m { overrun = true }, get_chars_refused n m over, refused refl)
  | inr fits ↦
      let ends = within_end m n fits in
      (
        slice m.buffer m.position n,
        record m { position = m.position + n },
        get_chars_at n m ends.0 ends.1,
        advanced n ends.0 ends.1 refl,
      )
]

-- A text at the position: its length in two bytes, and that many characters.
pub get_string_at :
    (n : ℕ) (m : NetworkMessage)
    → le_value (slice m.buffer m.position 2) ≡ n
    → m.position + (2 + n) ≤ m.len + 8
    → m.position + (2 + n) < max_size
    → get_string 0 m
      ≡ some (slice m.buffer (m.position + 2) n, record m { position = m.position + (2 + n) })
unfolding get_string
get_string_at n m e h k =
    rw (get_at 2 m (omega arith) (omega arith), e)
      (get_chars_at n (record m { position = m.position + 2 }) (omega arith) (omega arith)
        ∙ ap (λ (p : ℕ). some (slice m.buffer (m.position + 2) n, record m { position = p }))
            (omega arith))

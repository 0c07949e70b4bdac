-- ===== src/Streams/RoundTrip.antt =====
-- What a writer stored, a reader reads: `PropWriteStream` followed by `PropStream` of
-- source/fileloader.h, for sequences of properties.
use juggernaut_server.Base.{
  ℕ, zero, suc, ◌-◌, ◌^◌, ◌<◌, ◌≡◌, refl, ap, ◌∙◌, sym, List, [], ◌∷◌, ◌++◌, Option, none, some,
  length, ltb, le_bytes, le_value, le_value-le_bytes, length-le_bytes, length-append, take-append,
  drop-append, append-nil, append_assoc, if◌then◌else◌, arith, le→ltb, Bool, true, false, inl, inr,
  Bool-cases, ltb→le,
}
use juggernaut_server.Streams.{
  PropStream, PropWriteStream, read, read_chars, read_string, write_number, write_raw, write_string,
  from_writer,
}

-- An integer of `n` bytes, a text with its length, and the characters of a text alone.
pub data Property : Type 0 where
  number : ℕ → ℕ → Property
  text : List ℕ → Property
  raw : List ℕ → Property

abbrev pub store : Property → PropWriteStream → PropWriteStream
store (number n v) w = write_number n v w
store (text s) w = write_string s w
store (raw s) w = write_raw s w

abbrev pub store_all : List Property → PropWriteStream → PropWriteStream
store_all [] w = w
store_all (p ∷ ps) w = store_all ps (store p w)

-- Characters that are read one by one.
abbrev add_char : ℕ → Option (List ℕ) × PropStream → Option (List ℕ) × PropStream
add_char c (none, s) = (none, s)
add_char c (some cs, s) = (some (c ∷ cs), s)

abbrev char_and_then :
    Option ℕ × PropStream
    → (PropStream → Option (List ℕ) × PropStream)
    → Option (List ℕ) × PropStream
char_and_then (none, s) rest = (none, s)
char_and_then (some c, s) rest = add_char c (rest s)

abbrev pub read_each : ℕ → PropStream → Option (List ℕ) × PropStream
read_each zero s = (some [], s)
read_each (suc n) s = char_and_then (read 1 s) (read_each n)

-- A reader of the kinds that were stored; of a raw text it knows the length.
abbrev with_value :
    {A : Type 0} → (A → Property) → Option A × PropStream → Option Property × PropStream
with_value f (none, s) = (none, s)
with_value f (some a, s) = (some (f a), s)

abbrev pub load : Property → PropStream → Option Property × PropStream
load (number n v) s = with_value (number n) (read n s)
load (text t) s = with_value text (read_string s)
load (raw t) s = with_value raw (read_each (length t) s)

abbrev add_front :
    Property → Option (List Property) × PropStream → Option (List Property) × PropStream
add_front p (none, s) = (none, s)
add_front p (some ps, s) = (some (p ∷ ps), s)

abbrev and_then :
    Option Property × PropStream
    → (PropStream → Option (List Property) × PropStream)
    → Option (List Property) × PropStream
and_then (none, s) rest = (none, s)
and_then (some p, s) rest = add_front p (rest s)

abbrev pub load_all : List Property → PropStream → Option (List Property) × PropStream
load_all [] s = (some [], s)
load_all (p ∷ ps) s = and_then (load p s) (load_all ps)

-- A text that is too long for its length field is stored as the empty text.
abbrev pub stored : Property → Property
stored (number n v) = number n v
stored (text s) = text (if ltb (2 ^ 16 - 1) (length s) then [] else s)
stored (raw s) = raw s

abbrev pub stored_all : List Property → List Property
stored_all [] = []
stored_all (p ∷ ps) = stored p ∷ stored_all ps

-- Integers of their width.
abbrev pub AreNumbers : List Property → Type 0
AreNumbers [] = Unit
AreNumbers (number n v ∷ ps) = (v < 256 ^ n) × AreNumbers ps
AreNumbers (text s ∷ ps) = AreNumbers ps
AreNumbers (raw s ∷ ps) = AreNumbers ps

abbrev bytes_of : Property → List ℕ
bytes_of (number n v) = le_bytes n v
bytes_of (text s) = if ltb (2 ^ 16 - 1) (length s) then le_bytes 2 0 else le_bytes 2 (length s) ++ s
bytes_of (raw s) = s

abbrev bytes_of_all : List Property → List ℕ
bytes_of_all [] = []
bytes_of_all (p ∷ ps) = bytes_of p ++ bytes_of_all ps

store_bytes : (p : Property) (w : PropWriteStream) → store p w ≡ w ++ bytes_of p
unfolding write_number write_string write_raw
store_bytes (number n v) w = refl
store_bytes (raw s) w = refl
store_bytes (text s) w = with_test (ltb (2 ^ 16 - 1) (length s))
  where
    with_test :
        (b : Bool)
        → (if b then w ++ le_bytes 2 0 else (w ++ le_bytes 2 (length s)) ++ s)
          ≡ w ++ (if b then le_bytes 2 0 else le_bytes 2 (length s) ++ s)
    with_test true = refl
    with_test false = append_assoc w (le_bytes 2 (length s)) s

store_all-bytes : (ps : List Property) (w : PropWriteStream) → store_all ps w ≡ w ++ bytes_of_all ps
store_all-bytes [] w = sym (append-nil w)
store_all-bytes (p ∷ ps) w =
    store_all-bytes ps (store p w)
    ∙ ap (λ u. u ++ bytes_of_all ps) (store_bytes p w)
    ∙ append_assoc w (bytes_of p) (bytes_of_all ps)

-- The three reads at the bytes they expect.
read-append :
    (bs rest : List ℕ) (n : ℕ) → length bs ≡ n → read n (bs ++ rest) ≡ (some (le_value bs), rest)
unfolding read
read-append bs rest n e =
    rw
      (
        le→ltb (length (bs ++ rest)) n (omega (arith, length-append bs rest, e)),
        take-append bs rest n e,
        drop-append bs rest n e,
      )
      refl

read_chars-append :
    (bs rest : List ℕ) (n : ℕ) → length bs ≡ n → read_chars (some n) (bs ++ rest) ≡ (some bs, rest)
unfolding read_chars
read_chars-append bs rest n e =
    rw
      (
        le→ltb (length (bs ++ rest)) n (omega (arith, length-append bs rest, e)),
        take-append bs rest n e,
        drop-append bs rest n e,
      )
      refl

read_each-append : (bs rest : List ℕ) → read_each (length bs) (bs ++ rest) ≡ (some bs, rest)
read_each-append [] rest = refl
read_each-append (b ∷ bs) rest =
    ap (λ r. char_and_then r (read_each (length bs))) (read-append (b ∷ []) (bs ++ rest) 1 refl)
    ∙ ap (add_char (le_value (b ∷ []))) (read_each-append bs rest)
    ∙ ap (λ c. (some (c ∷ bs), rest)) (omega arith)

read_string-append :
    (s rest : List ℕ)
    → length s < 2 ^ 16
    → read_string (le_bytes 2 (length s) ++ (s ++ rest)) ≡ (some s, rest)
unfolding read_string
read_string-append s rest h =
    ap (λ r. read_chars r.0 r.1) (read-append (le_bytes 2 (length s)) (s ++ rest) 2 refl)
    ∙ ap (λ k. read_chars (some k) (s ++ rest)) (le_value-le_bytes 2 (length s) h)
    ∙ read_chars-append s rest (length s) refl

load-text :
    (s rest : List ℕ) → load (text s) (bytes_of (text s) ++ rest) ≡ (some (stored (text s)), rest)
load-text s rest = elim (Bool-cases (ltb (2 ^ 16 - 1) (length s))) [
  | inl long ↦ rw long (ap (with_value text) (read_string-append [] rest (omega arith)))
  | inr short ↦ rw short (
      ap (λ bs. with_value text (read_string bs)) (append_assoc (le_bytes 2 (length s)) s rest)
      ∙ ap (with_value text)
          (read_string-append s rest (omega (arith, ltb→le (2 ^ 16 - 1) (length s) short))))
]

load-bytes :
    (p : Property) (rest : List ℕ)
    → AreNumbers (p ∷ [])
    → load p (bytes_of p ++ rest) ≡ (some (stored p), rest)
load-bytes (number n v) rest (small, _) =
    ap (with_value (number n)) (read-append (le_bytes n v) rest n (length-le_bytes n v))
    ∙ ap (λ k. (some (number n k), rest)) (le_value-le_bytes n v small)
load-bytes (text s) rest _ = load-text s rest
load-bytes (raw s) rest _ = ap (with_value raw) (read_each-append s rest)

first_number : (p : Property) (ps : List Property) → AreNumbers (p ∷ ps) → AreNumbers (p ∷ [])
first_number (number n v) ps (small, _) = (small, tt)
first_number (text s) ps _ = tt
first_number (raw s) ps _ = tt

other_numbers : (p : Property) (ps : List Property) → AreNumbers (p ∷ ps) → AreNumbers ps
other_numbers (number n v) ps (_, fits) = fits
other_numbers (text s) ps fits = fits
other_numbers (raw s) ps fits = fits

load_all-bytes :
    (ps : List Property) (rest : List ℕ)
    → AreNumbers ps
    → load_all ps (bytes_of_all ps ++ rest) ≡ (some (stored_all ps), rest)
load_all-bytes [] rest fits = refl
load_all-bytes (p ∷ ps) rest fits =
    let rest' = bytes_of_all ps ++ rest in
    ap (load_all (p ∷ ps)) (append_assoc (bytes_of p) (bytes_of_all ps) rest)
    ∙ ap (λ r. and_then r (load_all ps)) (load-bytes p rest' (first_number p ps fits))
    ∙ ap (add_front (stored p)) (load_all-bytes ps rest (other_numbers p ps fits))

-- What is stored in an empty writer, in any order, is read back, and nothing is left: integers of
-- their width, texts up to 65535 characters as they are and longer ones as the empty text, and raw
-- characters, which are read one by one, as they are.
pub load_all-store_all :
    (ps : List Property)
    → AreNumbers ps
    → load_all ps (from_writer (store_all ps [])) ≡ (some (stored_all ps), [])
unfolding from_writer
load_all-store_all ps fits =
    ap (load_all ps) (store_all-bytes ps [] ∙ sym (append-nil (bytes_of_all ps)))
    ∙ load_all-bytes ps [] fits

-- ===== src/Xtea/Word.antt =====
-- Words in a buffer: `load_word` and `store_word` are inverse.
use juggernaut_server.Base.{
  ℕ, zero, suc, ◌+◌, ◌*◌, ◌/◌, ◌%◌, ◌^◌, ◌<◌, ◌≡◌, refl, List, [], ◌∷◌, ◌++◌, arith, length, take,
  get_or, Bytes, IsByte, IsWord, bit_or, bit_or_fields, get_or-take,
}
use juggernaut_server.Xtea.{load_word, store_word}

-- The word of four bytes, as arithmetic.
abbrev word_of : ℕ → ℕ → ℕ → ℕ → ℕ
word_of a b c d = a + b * 2 ^ 8 + c * 2 ^ 16 + d * 2 ^ 24

join_fields :
    (a b c d : ℕ)
    → IsByte a
    → IsByte b
    → IsByte c
    → IsByte d
    → bit_or (bit_or (bit_or a (b * 2 ^ 8 % 2 ^ 32)) (c * 2 ^ 16 % 2 ^ 32)) (d * 2 ^ 24 % 2 ^ 32)
      ≡ word_of a b c d
join_fields a b c d ha hb hc hd =
    let e₁ : b * 2 ^ 8 % 2 ^ 32 ≡ b * 2 ^ 8 = omega arith in
    let e₂ : c * 2 ^ 16 % 2 ^ 32 ≡ c * 2 ^ 16 = omega arith in
    let e₃ : d * 2 ^ 24 % 2 ^ 32 ≡ d * 2 ^ 24 = omega arith in
    rw (
      e₁,
      e₂,
      e₃,
      bit_or_fields 8 a b (omega arith),
      bit_or_fields 16 (a + b * 2 ^ 8) c (omega arith),
      bit_or_fields 24 (a + b * 2 ^ 8 + c * 2 ^ 16) d (omega arith),
    )

get_or-IsByte : (d : List ℕ) (i : ℕ) → Bytes d → IsByte (get_or d i 0)
get_or-IsByte [] i h = omega arith
get_or-IsByte (x ∷ d) zero h = h.0
get_or-IsByte (x ∷ d) (suc i) h = get_or-IsByte d i h.1

load_word_sum :
    (d : List ℕ) (j : ℕ)
    → Bytes d
    → load_word d j
      ≡ word_of (get_or d j 0) (get_or d (j + 1) 0) (get_or d (j + 2) 0) (get_or d (j + 3) 0)
unfolding load_word
load_word_sum d j h =
    join_fields _ _ _ _ (get_or-IsByte d j h) (get_or-IsByte d (j + 1) h)
      (get_or-IsByte d (j + 2) h) (get_or-IsByte d (j + 3) h)

pub load_word-IsWord : (d : List ℕ) (j : ℕ) → Bytes d → IsWord (load_word d j)
load_word-IsWord d j h = omega (
  arith,
  load_word_sum d j h,
  get_or-IsByte d j h,
  get_or-IsByte d (j + 1) h,
  get_or-IsByte d (j + 2) h,
  get_or-IsByte d (j + 3) h,
)

pub store_word-Bytes : (w : ℕ) → Bytes (store_word w)
unfolding store_word
store_word-Bytes w = omega arith

pub length-store_word : (w : ℕ) → length (store_word w) ≡ 4
unfolding store_word
length-store_word w = refl

-- What is stored is loaded back, at the front of a buffer and behind another word.
pub load_word-store_word :
    (w : ℕ) (rest : List ℕ) → IsWord w → load_word (store_word w ++ rest) 0 ≡ w
unfolding store_word load_word
load_word-store_word w rest h =
    rw
      (join_fields (w % 2 ^ 8) (w / 2 ^ 8 % 2 ^ 8) (w / 2 ^ 16 % 2 ^ 8) (w / 2 ^ 24 % 2 ^ 8)
        (omega arith) (omega arith) (omega arith) (omega arith))
      (omega arith)

pub load_word-store_word_next :
    (v w : ℕ) (rest : List ℕ) → IsWord w → load_word (store_word v ++ (store_word w ++ rest)) 4 ≡ w
unfolding store_word load_word
load_word-store_word_next v w rest h =
    rw
      (join_fields (w % 2 ^ 8) (w / 2 ^ 8 % 2 ^ 8) (w / 2 ^ 16 % 2 ^ 8) (w / 2 ^ 24 % 2 ^ 8)
        (omega arith) (omega arith) (omega arith) (omega arith))
      (omega arith)

-- What is loaded is stored back.
pub store_word-load_word :
    (d : List ℕ) (j : ℕ)
    → Bytes d
    → store_word (load_word d j)
      ≡ get_or d j 0 ∷ get_or d (j + 1) 0 ∷ get_or d (j + 2) 0 ∷ get_or d (j + 3) 0 ∷ []
store_word-load_word d j h = rw (load_word_sum d j h) (
    bytes_of_word _ _ _ _ (get_or-IsByte d j h) (get_or-IsByte d (j + 1) h)
      (get_or-IsByte d (j + 2) h) (get_or-IsByte d (j + 3) h))
  where
    bytes_of_word :
        (a b c d : ℕ)
        → IsByte a
        → IsByte b
        → IsByte c
        → IsByte d
        → store_word (word_of a b c d) ≡ a ∷ b ∷ c ∷ d ∷ []
    bytes_of_word a b c d ha hb hc hd = unfold store_word in ground arith

pub load_word-take :
    (n : ℕ) (d : List ℕ) (j : ℕ) → j + 3 < n → load_word (take n d) j ≡ load_word d j
unfolding load_word
load_word-take n d j h = rw (
  get_or-take n j d 0 (omega arith),
  get_or-take n (j + 1) d 0 (omega arith),
  get_or-take n (j + 2) d 0 (omega arith),
  get_or-take n (j + 3) d 0 (omega arith),
)

-- ===== src/Sha1/Padding.antt =====
-- The streaming loop of `transformToSHA1` against the standard's description: the message is padded
-- with the byte 0x80, zeros and its length in bits, and each block of 64 bytes is processed in turn.
use native.Mathlib.Nat.{suc-add, zero-add}
use juggernaut_server.Base.{
  u8, shr, ℕ, zero, suc, ◌+◌, ◌-◌, ◌*◌, ◌/◌, ◌%◌, ◌^◌, ◌≤◌, ◌<◌, ◌≡◌, refl, ap, ap₂, sym, ◌∙◌, Bool,
  true, false, List, [], ◌∷◌, ◌++◌, length, replicate, append_assoc, append-nil, length-append,
  length-replicate, ltb, if◌then◌else◌, arith, subst, ltb→lt, ltb→le,
}
use juggernaut_server.Sha1.{
  Registers, Digest, initial_h, start, process_block, feed_all, be_word, fill, make_room, finish,
  hex_string, transform_to_sha1,
}
use juggernaut_server.Sha1.Loop.{blocks, blocks-first, IsFed, feed_all_lem}

-- The number of zeros behind the byte 0x80, and the padded message.
abbrev pub zeros : ℕ → ℕ
zeros n = (119 - n % 64) % 64

-- The bytes of a number, the highest first.
abbrev pub big_endian : ℕ → ℕ → List ℕ
big_endian zero n = []
big_endian (suc k) n = n / 256 ^ k % 256 ∷ big_endian k n

-- The padded message, and its length in bits as the standard has it.
abbrev pub padded : List ℕ → List ℕ
padded input =
    input ++ 0x80 ∷ (replicate (zeros (length input)) 0 ++ big_endian 8 (8 * length input % 2 ^ 64))

pub reference : List ℕ → List ℕ
reference input = hex_string 20 (blocks (length (padded input) / 64) initial_h (padded input))

-- The same with the words of the code.
abbrev bit_length : ℕ → List ℕ
bit_length n = be_word (8 * n / 2 ^ 32 % 2 ^ 32) ++ be_word (8 * n % 2 ^ 32)

abbrev padded_words : List ℕ → List ℕ
padded_words input =
    input ++ 0x80 ∷ (replicate (zeros (length input)) 0 ++ bit_length (length input))

bit_length-big_endian : (n : ℕ) → bit_length n ≡ big_endian 8 (8 * n % 2 ^ 64)
unfolding be_word
bit_length-big_endian n =
    let e0 : u8 (shr (8 * n / 2 ^ 32 % 2 ^ 32) 24) ≡ 8 * n % 2 ^ 64 / 256 ^ 7 % 256 = omega arith in
    let e1 : u8 (shr (8 * n / 2 ^ 32 % 2 ^ 32) 16) ≡ 8 * n % 2 ^ 64 / 256 ^ 6 % 256 = omega arith in
    let e2 : u8 (shr (8 * n / 2 ^ 32 % 2 ^ 32) 8) ≡ 8 * n % 2 ^ 64 / 256 ^ 5 % 256 = omega arith in
    let e3 : u8 (8 * n / 2 ^ 32 % 2 ^ 32) ≡ 8 * n % 2 ^ 64 / 256 ^ 4 % 256 = omega arith in
    let e4 : u8 (shr (8 * n % 2 ^ 32) 24) ≡ 8 * n % 2 ^ 64 / 256 ^ 3 % 256 = omega arith in
    let e5 : u8 (shr (8 * n % 2 ^ 32) 16) ≡ 8 * n % 2 ^ 64 / 256 ^ 2 % 256 = omega arith in
    let e6 : u8 (shr (8 * n % 2 ^ 32) 8) ≡ 8 * n % 2 ^ 64 / 256 ^ 1 % 256 = omega arith in
    let e7 : u8 (8 * n % 2 ^ 32) ≡ 8 * n % 2 ^ 64 / 256 ^ 0 % 256 = omega arith in
    cc (e0, e1, e2, e3, e4, e5, e6, e7)

replicate-add : (a b v : ℕ) → replicate (a + b) v ≡ replicate a v ++ replicate b v
replicate-add zero b v = ap (λ n. replicate n v) (omega arith)
replicate-add (suc a) b v = ap (λ n. replicate n v) (suc-add a b) ∙ ap (◌∷◌ v) (replicate-add a b v)

length-fill : (n : ℕ) (bs : List ℕ) → length bs ≤ n → length (fill n bs) ≡ n
unfolding fill
length-fill n bs h = omega (
  arith,
  h,
  length-append bs (replicate (n - length bs) 0),
  length-replicate {A = ℕ} (n - length bs) 0,
)

fill_zeros :
    (n z : ℕ) (bs rest : List ℕ)
    → length bs + z ≡ n
    → bs ++ (replicate z 0 ++ rest) ≡ fill n bs ++ rest
unfolding fill
fill_zeros n z bs rest h =
    ap (λ k. bs ++ (replicate k 0 ++ rest)) (omega (arith, h))
    ∙ sym (append_assoc bs (replicate (n - length bs) 0) rest)

-- The last block, with room for the length, and the block before it when there is none.
last_block :
    (h : Registers) (z : ℕ) (bs lens : List ℕ)
    → length bs + z ≡ 56
    → length lens ≡ 8
    → blocks 1 h (bs ++ (replicate z 0 ++ lens)) ≡ process_block (fill 56 bs ++ lens) h
unfolding blocks
last_block h z bs lens e e' =
    ap (blocks 1 h) (fill_zeros 56 z bs lens e ∙ sym (append-nil (fill 56 bs ++ lens)))
    ∙ blocks-first 0 h (fill 56 bs ++ lens) []
        (omega (arith, length-append (fill 56 bs) lens, length-fill 56 bs (omega (arith, e)), e'))

full_block :
    (h : Registers) (z : ℕ) (bs rest : List ℕ)
    → length bs + z ≡ 64
    → blocks 2 h (bs ++ (replicate z 0 ++ rest)) ≡ blocks 1 (process_block (fill 64 bs) h) rest
full_block h z bs rest e =
    ap (blocks 2 h) (fill_zeros 64 z bs rest e)
    ∙ blocks-first 1 h (fill 64 bs) rest (length-fill 64 bs (omega (arith, e)))

-- The number of blocks that are left behind the loop, by the block with the byte 0x80.
abbrev left : List ℕ → ℕ
left bs = if ltb 56 (length bs) then 2 else 1

abbrev count_bytes : Digest → List ℕ
count_bytes s = be_word s.length_high ++ be_word s.length_low

last_blocks :
    (s : Digest) (z : ℕ)
    → length s.block ≤ 64
    → z ≡ (120 - length s.block) % 64
    → let s' = make_room s in
      blocks (left s.block) s.h (s.block ++ (replicate z 0 ++ count_bytes s))
      ≡ process_block (fill 56 s'.block ++ count_bytes s') s'.h
unfolding make_room be_word
last_blocks s z room e = with_test (ltb 56 (length s.block)) refl
  where
    roomy : Bool → Digest
    roomy b = if b then record s { h = process_block (fill 64 s.block) s.h; block = [] } else s

    with_test :
        (b : Bool)
        → ltb 56 (length s.block) ≡ b
        → blocks (if b then 2 else 1) s.h (s.block ++ (replicate z 0 ++ count_bytes s))
          ≡ process_block (fill 56 (roomy b).block ++ count_bytes (roomy b)) (roomy b).h
    with_test false short =
        last_block s.h z s.block (count_bytes s)
          (omega (arith, room, e, ltb→le 56 (length s.block) short)) refl
    with_test true full =
        let more : 56 < length s.block = ltb→lt 56 (length s.block) full in
        let z' : z ≡ (64 - length s.block) + 56 = omega (arith, room, e, more) in
        let h' = process_block (fill 64 s.block) s.h in
        ap (λ zs. blocks 2 s.h (s.block ++ (zs ++ count_bytes s)))
          (ap (λ k. replicate k 0) z' ∙ replicate-add (64 - length s.block) 56 0)
        ∙ ap (λ bs. blocks 2 s.h (s.block ++ bs))
            (append_assoc (replicate (64 - length s.block) 0) (replicate 56 0) (count_bytes s))
        ∙ full_block s.h (64 - length s.block) s.block (replicate 56 0 ++ count_bytes s)
            (omega (arith, room))
        ∙ last_block h' 56 [] (count_bytes s) refl refl

finish_lem :
    (m : ℕ) (s : Digest)
    → IsFed m s
    → blocks
        (left (s.block ++ 0x80 ∷ []))
        s.h
        (s.block ++ (0x80 ∷ (replicate (zeros m) 0 ++ bit_length m)))
      ≡ finish s
unfolding finish
finish_lem m s w =
    let bs = s.block ++ 0x80 ∷ [] in
    let one = length-append s.block (0x80 ∷ []) in
    ap (blocks (left bs) s.h)
      (sym (append_assoc s.block (0x80 ∷ []) (replicate (zeros m) 0 ++ bit_length m)))
    ∙ ap₂
        (λ hi lo.
          blocks (left bs) s.h (bs ++ (replicate (zeros m) 0 ++ (be_word hi ++ be_word lo))))
        (sym w.high) (sym w.low)
    ∙ last_blocks (record s { block = bs }) (zeros m) (omega (arith, one, w.room))
        (omega (arith, one, w.room, w.rest))

start-IsFed : IsFed 0 start
start-IsFed = record { room = omega arith; rest = refl; low = refl; high = refl }

-- The length of the padded message.
length-padded :
    (input : List ℕ) → length (padded_words input) ≡ length input + (1 + (zeros (length input) + 8))
unfolding be_word
length-padded input = omega (
  arith,
  length-append input (0x80 ∷ (replicate (zeros (length input)) 0 ++ bit_length (length input))),
  length-append (replicate (zeros (length input)) 0) (bit_length (length input)),
  length-replicate {A = ℕ} (zeros (length input)) 0,
  length_of_count,
)
  where
    length_of_count : length (bit_length (length input)) ≡ 8
    length_of_count = refl

blocks_left :
    (l n m : ℕ) (bs : List ℕ)
    → length bs ≡ m + 1
    → m < 64
    → l ≡ 64 * n + m
    → (l + (1 + (zeros l + 8))) / 64 ≡ n + left bs
blocks_left l n m bs e room whole = ground (arith, e, room, whole)

-- The construction with the words of the code.
transform_to_sha1-words :
    (input : List ℕ)
    → transform_to_sha1 input
      ≡ hex_string 20 (blocks (length (padded_words input) / 64) initial_h (padded_words input))
unfolding transform_to_sha1
transform_to_sha1-words input =
    let (w, n, whole, ahead) = feed_all_lem input 0 start start-IsFed in
    let s = feed_all input start in
    let bs = s.block ++ 0x80 ∷ [] in
    let tail = 0x80 ∷ (replicate (zeros (length input)) 0 ++ bit_length (length input)) in
    let w' = subst (λ k. IsFed k s) (zero-add (length input)) w in
    let count : length (padded_words input) / 64 ≡ n + left bs =
      ap (λ k. k / 64) (length-padded input)
      ∙ blocks_left (length input) n (length s.block) bs (length-append s.block (0x80 ∷ [])) w'.room
          (sym (zero-add (length input)) ∙ whole) in
    ap (hex_string 20) (
      sym (finish_lem (length input) s w')
      ∙ sym (ahead (left bs) tail)
      ∙ ap (λ k. blocks k initial_h (padded_words input)) (sym count))

-- `transformToSHA1` is the standard's construction, for an input of any length: the input with the
-- byte 0x80, zeros and its length in bits modulo 2 ^ 64 is processed block by block from the
-- initial value, and the registers are written in hexadecimal.
pub transform_to_sha1-eq-reference : (input : List ℕ) → transform_to_sha1 input ≡ reference input
unfolding reference
transform_to_sha1-eq-reference input =
    let zeros_of = replicate (zeros (length input)) 0 in
    transform_to_sha1-words input
    ∙ ap
        (λ (count : List ℕ).
          let whole = input ++ 0x80 ∷ (zeros_of ++ count) in
          hex_string 20 (blocks (length whole / 64) initial_h whole))
        (bit_length-big_endian (length input))

-- ===== src/Sha1.antt =====
-- `transformToSHA1` and its helpers of source/tools.cpp. The `messageBlock` is the list of its bytes
-- below `index`, whose length is `index`; the array `H` is a record.
use juggernaut_server.Base.{
  ℕ, zero, suc, ◌+◌, ◌-◌, ◌*◌, ◌/◌, ◌%◌, ◌^◌, bit_and, bit_or, bit_xor, List, [], ◌∷◌, ◌++◌, length,
  replicate, get_or, u8, u32, shl32, shr, add32, ltb, ◌==◌, if◌then◌else◌,
}
pub mod Loop
pub mod Padding
mod Examples

-- `uint32_t H[5]`, and the variables A to E.
pub record Registers : Type 0 where
  pub a : ℕ
  pub b : ℕ
  pub c : ℕ
  pub d : ℕ
  pub e : ℕ

unfoldable pub circular_shift : ℕ → ℕ → ℕ
circular_shift bits value = bit_or (shl32 value bits) (shr value (32 - bits))

-- `W[i]` for `i` below 16, with `count` words left.
unfoldable pub load_words : ℕ → ℕ → List ℕ → List ℕ
load_words zero offset block = []
load_words (suc count) offset block =
    bit_or
      (bit_or (bit_or (shl32 (get_or block offset 0) 24) (shl32 (get_or block (offset + 1) 0) 16))
        (shl32 (get_or block (offset + 2) 0) 8))
      (get_or block (offset + 3) 0)
    ∷ load_words count (offset + 4) block

-- `W[i]` for the `count` indices from `i` on.
unfoldable pub expand : ℕ → ℕ → List ℕ → List ℕ
expand zero i w = w
expand (suc count) i w =
    let x =
      bit_xor (bit_xor (bit_xor (get_or w (i - 3) 0) (get_or w (i - 8) 0)) (get_or w (i - 14) 0))
        (get_or w (i - 16) 0) in
    expand count (suc i) (w ++ circular_shift 1 x ∷ [])

-- `~v` of a word.
abbrev pub not32 : ℕ → ℕ
not32 v = 2 ^ 32 - 1 - v

-- The functions of B, C and D in the four loops.
unfoldable pub choose : Registers → ℕ
choose r = bit_or (bit_and r.b r.c) (bit_and (not32 r.b) r.d)

unfoldable pub parity : Registers → ℕ
parity r = bit_xor (bit_xor r.b r.c) r.d

unfoldable pub majority : Registers → ℕ
majority r = bit_or (bit_or (bit_and r.b r.c) (bit_and r.b r.d)) (bit_and r.c r.d)

-- One loop with the function `f` and the constant `k`, with `count` rounds left from `i` on.
unfoldable pub rounds : (Registers → ℕ) → ℕ → ℕ → ℕ → List ℕ → Registers → Registers
rounds f k zero i w r = r
rounds f k (suc count) i w r =
    let tmp = add32 (add32 (add32 (add32 (circular_shift 5 r.a) (f r)) r.e) (get_or w i 0)) k in
    rounds f k count (suc i) w
      (record { a = tmp; b = r.a; c = circular_shift 30 r.b; d = r.c; e = r.d })

-- `processSHA1MessageBlock`.
unfoldable pub process_block : List ℕ → Registers → Registers
process_block block h =
    let w = expand 64 16 (load_words 16 0 block) in
    let r = rounds parity 0xCA62C1D6 20 60 w (
      rounds majority 0x8F1BBCDC 20 40 w
        (rounds parity 0x6ED9EBA1 20 20 w (rounds choose 0x5A827999 20 0 w h))) in
    record {
      a = add32 h.a r.a;
      b = add32 h.b r.b;
      c = add32 h.c r.c;
      d = add32 h.d r.d;
      e = add32 h.e r.e;
    }

-- The local variables of `transformToSHA1`.
pub record Digest : Type 0 where
  pub h : Registers
  pub block : List ℕ
  pub length_low : ℕ
  pub length_high : ℕ

abbrev pub initial_h : Registers
initial_h = record {
  a = 0x67452301;
  b = 0xEFCDAB89;
  c = 0x98BADCFE;
  d = 0x10325476;
  e = 0xC3D2E1F0;
}

abbrev pub start : Digest
start = record { h = initial_h; block = []; length_low = 0; length_high = 0 }

-- `if (index == 64)`.
unfoldable pub flush : Digest → Digest
flush s = if length s.block == 64 then record s { h = process_block s.block s.h; block = [] } else s

-- The body of `for (char ch : input)`.
unfoldable pub feed : ℕ → Digest → Digest
feed ch s =
    let low = u32 (s.length_low + 8) in
    flush (record {
      h = s.h;
      block = s.block ++ ch ∷ [];
      length_low = low;
      length_high = if low == 0 then u32 (s.length_high + 1) else s.length_high;
    })

unfoldable pub feed_all : List ℕ → Digest → Digest
feed_all [] s = s
feed_all (ch ∷ input) s = feed_all input (feed ch s)

-- The four bytes of a length word, the highest first.
unfoldable pub be_word : ℕ → List ℕ
be_word v = u8 (shr v 24) ∷ u8 (shr v 16) ∷ u8 (shr v 8) ∷ u8 v ∷ []

-- `while (index < n) messageBlock[index++] = 0`.
unfoldable pub fill : ℕ → List ℕ → List ℕ
fill n block = block ++ replicate (n - length block) 0

-- `if (index > 56)`, behind the byte 0x80.
unfoldable pub make_room : Digest → Digest
make_room s =
    if ltb 56 (length s.block)
    then record s { h = process_block (fill 64 s.block) s.h; block = [] }
    else s

-- The end of `transformToSHA1` up to the last block.
unfoldable pub finish : Digest → Registers
finish s =
    let s' = make_room (record s { block = s.block ++ 0x80 ∷ [] }) in
    process_block (fill 56 s'.block ++ (be_word s'.length_high ++ be_word s'.length_low)) s'.h

abbrev pub word_at : Registers → ℕ → ℕ
word_at h i = get_or (h.a ∷ h.b ∷ h.c ∷ h.d ∷ h.e ∷ []) i 0

-- A character of `hexDigits`.
unfoldable pub hex_digit : ℕ → ℕ
hex_digit v = if ltb v 10 then b'0' + v else b'a' + (v - 10)

-- The two characters of each of the first `hash_byte` bytes.
unfoldable pub hex_string : ℕ → Registers → List ℕ
hex_string zero h = []
hex_string (suc hash_byte) h =
    let byte =
      u8 (shr (word_at h (shr hash_byte 2)) (bit_and (3 + 2 ^ 32 - hash_byte) 3 * 2 ^ 3)) in
    hex_string hash_byte h ++ hex_digit (shr byte 4) ∷ hex_digit (bit_and byte 15) ∷ []

unfoldable pub transform_to_sha1 : List ℕ → List ℕ
transform_to_sha1 input = hex_string 20 (finish (feed_all input start))

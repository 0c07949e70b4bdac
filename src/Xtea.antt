-- ===== src/Xtea.antt =====
-- source/xtea.cpp: the XTEA cipher over blocks of eight bytes.
-- A buffer `uint8_t data[n]` is the list of its bytes, a `uint32_t` array the list of its words.
-- The loops over `j` in a round are independent in `j`, and are `zip_with` over the two arrays.
use juggernaut_server.Base.{
  ℕ, zero, suc, ◌+◌, ◌-◌, ◌*◌, ◌/◌, ◌^◌, bit_and, bit_or, bit_xor, Bool, true, false, List, [], ◌∷◌,
  ◌++◌, length, take, drop, get_or, u8, shl32, shr, add32, sub32, ◌==◌, if◌then◌else◌,
}
pub mod Word
pub mod Blocks
pub mod Steps
pub mod RoundTrip
mod Examples

-- `using key = std::array<uint32_t, 4>`.
pub record Key : Type 0 where
  pub k0 : ℕ
  pub k1 : ℕ
  pub k2 : ℕ
  pub k3 : ℕ

-- `k[i]` for an index below four.
unfoldable pub key_at : Key → ℕ → ℕ
key_at k i = get_or (k.k0 ∷ k.k1 ∷ k.k2 ∷ k.k3 ∷ []) i 0

abbrev pub delta : ℕ
delta = 0x9E3779B9

-- `data[j] | data[j+1] << 8u | data[j+2] << 16u | data[j+3] << 24u`.
unfoldable pub load_word : List ℕ → ℕ → ℕ
load_word d j =
    bit_or
      (bit_or (bit_or (get_or d j 0) (shl32 (get_or d (j + 1) 0) 8))
        (shl32 (get_or d (j + 2) 0) 16))
      (shl32 (get_or d (j + 3) 0) 24)

-- The four bytes that are stored for a word, the lowest first.
unfoldable pub store_word : ℕ → List ℕ
store_word w = u8 w ∷ u8 (shr w 8) ∷ u8 (shr w 16) ∷ u8 (shr w 24) ∷ []

-- The arrays `left` and `right` of `n` blocks.
unfoldable pub load_left : ℕ → List ℕ → List ℕ
load_left zero d = []
load_left (suc n) d = load_word d 0 ∷ load_left n (drop 8 d)

unfoldable pub load_right : ℕ → List ℕ → List ℕ
load_right zero d = []
load_right (suc n) d = load_word d 4 ∷ load_right n (drop 8 d)

unfoldable pub store_blocks : List ℕ → List ℕ → List ℕ
store_blocks [] rs = []
store_blocks (l ∷ ls) [] = []
store_blocks (l ∷ ls) (r ∷ rs) = store_word l ++ (store_word r ++ store_blocks ls rs)

abbrev pub zip_with : (ℕ → ℕ → ℕ) → List ℕ → List ℕ → List ℕ
zip_with f [] ys = []
zip_with f (x ∷ xs) [] = []
zip_with f (x ∷ xs) (y ∷ ys) = f x y ∷ zip_with f xs ys

-- `(((v << 4) ^ (v >> 5)) + v) ^ (sum + k[i])`, the term that a half is moved by.
unfoldable pub mix : Key → ℕ → ℕ → ℕ → ℕ
mix k sum i v = bit_xor (add32 (bit_xor (shl32 v 4) (shr v 5)) v) (add32 sum (key_at k i))

-- The key index `sum & 3` and the index `(sum >> 11) & 3`.
unfoldable pub low_index : ℕ → ℕ
low_index sum = bit_and sum 3

unfoldable pub high_index : ℕ → ℕ
high_index sum = bit_and (shr sum 11) 3

-- The loop `for (i = 0; i < 32; ++i)` of the encryption, with `rounds` rounds left.
unfoldable pub encrypt_rounds : Key → ℕ → ℕ → List ℕ → List ℕ → List ℕ × List ℕ
encrypt_rounds k zero sum left right = (left, right)
encrypt_rounds k (suc rounds) sum left right =
    let left' = zip_with (λ l r. add32 l (mix k sum (low_index sum) r)) left right in
    let sum' = add32 sum delta in
    let right' = zip_with (λ r l. add32 r (mix k sum' (high_index sum') l)) right left' in
    encrypt_rounds k rounds sum' left' right'

-- The same loop of the decryption.
unfoldable pub decrypt_rounds : Key → ℕ → ℕ → List ℕ → List ℕ → List ℕ × List ℕ
decrypt_rounds k zero sum left right = (left, right)
decrypt_rounds k (suc rounds) sum left right =
    let right' = zip_with (λ r l. sub32 r (mix k sum (high_index sum) l)) right left in
    let sum' = sub32 sum delta in
    let left' = zip_with (λ l r. sub32 l (mix k sum' (low_index sum') r)) left right' in
    decrypt_rounds k rounds sum' left' right'

-- `XTEA_encrypt<BLOCK_SIZE>` and `XTEA_decrypt<BLOCK_SIZE>` on a buffer of `8 * n` bytes.
unfoldable pub xtea_encrypt : ℕ → Key → List ℕ → List ℕ
xtea_encrypt n k d =
    let (left, right) = encrypt_rounds k 32 0 (load_left n d) (load_right n d) in
    store_blocks left right

unfoldable pub xtea_decrypt : ℕ → Key → List ℕ → List ℕ
xtea_decrypt n k d =
    let (left, right) = decrypt_rounds k 32 (shl32 delta 5) (load_left n d) (load_right n d) in
    store_blocks left right

unfoldable pub cipher : Bool → ℕ → Key → List ℕ → List ℕ
cipher true n k d = xtea_encrypt n k d
cipher false n k d = xtea_decrypt n k d

-- `for (i = 0; i < blocks; i += step)`, with `rounds` steps left, each on the bytes at `input + i`. The
-- counter has 32 bits, so that the code's loop does not end for `blocks` of 2 ^ 32 and more, and this
-- is the loop only for smaller ones.
unfoldable pub each_step : ℕ → ℕ → Bool → Key → List ℕ → List ℕ
each_step zero size enc k d = []
each_step (suc rounds) size enc k d =
    cipher enc size k (take (size * 8) d) ++ each_step rounds size enc k (drop (size * 8) d)

-- `length & ~(step - 1)`, of a size_t.
unfoldable pub whole_steps : ℕ → ℕ → ℕ
whole_steps size len = bit_and len (2 ^ 64 - 1 - (size * 8 - 1))

-- `XTEA<Encrypt, BlockSize>`, with the depth of the template's instantiation as fuel.
unfoldable pub xtea : ℕ → ℕ → Bool → Key → List ℕ → List ℕ
xtea zero size enc k d = d
xtea (suc depth) size enc k d =
    let blocks = whole_steps size (length d) in
    let rest = xtea depth ((size + 1) / 2) enc k (drop blocks d) in
    each_step (blocks / (size * 8)) size enc k (take blocks d)
    ++ (if size == 1 then drop blocks d else rest)

-- `encrypt` and `decrypt`. `initial` is the compile-time constant `InitialBlockSize`, which is
-- 128, 32, 8, 2 or 1 with the target's vector instructions; `initial` instantiations are enough.
unfoldable pub encrypt : ℕ → Key → List ℕ → List ℕ
encrypt initial k d = xtea initial initial true k d

unfoldable pub decrypt : ℕ → Key → List ℕ → List ℕ
decrypt initial k d = xtea initial initial false k d

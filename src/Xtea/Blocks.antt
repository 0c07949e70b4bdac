-- ===== src/Xtea/Blocks.antt =====
-- The cipher of one block, and the buffer routines as that cipher on each block: the arrays of
-- `XTEA_encrypt<BLOCK_SIZE>` and the template recursion of `XTEA` leave no trace in the result.
use juggernaut_server.Base.{
  ℕ, zero, suc, ◌≡◌, refl, ap, sym, ◌∙◌, Bool, true, false, List, [], ◌∷◌, ◌++◌, map, append_assoc,
  drop, add32, sub32, shl32,
}
use juggernaut_server.Xtea.{
  Key, delta, load_word, store_word, load_left, load_right, store_blocks, zip_with, mix, low_index,
  high_index, encrypt_rounds, decrypt_rounds, xtea_encrypt, xtea_decrypt, cipher,
}

-- One round on one block, from the two halves and the sum before the round.
unfoldable pub encrypt_step : Key → ℕ → ℕ × ℕ → ℕ × ℕ
encrypt_step k sum (l, r) =
    let l' = add32 l (mix k sum (low_index sum) r) in
    let sum' = add32 sum delta in (l', add32 r (mix k sum' (high_index sum') l'))

unfoldable pub decrypt_step : Key → ℕ → ℕ × ℕ → ℕ × ℕ
decrypt_step k sum (l, r) =
    let r' = sub32 r (mix k sum (high_index sum) l) in
    let sum' = sub32 sum delta in (sub32 l (mix k sum' (low_index sum') r'), r')

unfoldable pub encrypt_block : Key → ℕ → ℕ → ℕ × ℕ → ℕ × ℕ
encrypt_block k zero sum p = p
encrypt_block k (suc rounds) sum p = encrypt_block k rounds (add32 sum delta) (encrypt_step k sum p)

unfoldable pub decrypt_block : Key → ℕ → ℕ → ℕ × ℕ → ℕ × ℕ
decrypt_block k zero sum p = p
decrypt_block k (suc rounds) sum p = decrypt_block k rounds (sub32 sum delta) (decrypt_step k sum p)

unfoldable pub load_block : List ℕ → ℕ × ℕ
load_block d = (load_word d 0, load_word d 4)

unfoldable pub store_block : ℕ × ℕ → List ℕ
store_block (l, r) = store_word l ++ store_word r

-- The cipher of one block of eight bytes.
unfoldable pub block : Bool → Key → ℕ × ℕ → ℕ × ℕ
block true k p = encrypt_block k 32 0 p
block false k p = decrypt_block k 32 (shl32 delta 5) p

-- The reference: the cipher on each of the first `n` blocks of a buffer.
unfoldable pub each_block : ℕ → Bool → Key → List ℕ → List ℕ
each_block zero enc k d = []
each_block (suc n) enc k d =
    store_block (block enc k (load_block d)) ++ each_block n enc k (drop 8 d)

blocks_of : ℕ → List ℕ → List (ℕ × ℕ)
blocks_of zero d = []
blocks_of (suc n) d = load_block d ∷ blocks_of n (drop 8 d)

abbrev left_of : ℕ × ℕ → ℕ
left_of p = p.0

abbrev right_of : ℕ × ℕ → ℕ
right_of p = p.1

load_left_lem : (n : ℕ) (d : List ℕ) → load_left n d ≡ map left_of (blocks_of n d)
unfolding load_left blocks_of load_block
load_left_lem zero d = refl
load_left_lem (suc n) d = ap (◌∷◌ (load_word d 0)) (load_left_lem n (drop 8 d))

load_right_lem : (n : ℕ) (d : List ℕ) → load_right n d ≡ map right_of (blocks_of n d)
unfolding load_right blocks_of load_block
load_right_lem zero d = refl
load_right_lem (suc n) d = ap (◌∷◌ (load_word d 4)) (load_right_lem n (drop 8 d))

zip_with-map :
    (f : ℕ → ℕ → ℕ) (g h : ℕ × ℕ → ℕ) (ps : List (ℕ × ℕ))
    → zip_with f (map g ps) (map h ps) ≡ map (λ p. f (g p) (h p)) ps
zip_with-map f g h [] = refl
zip_with-map f g h (p ∷ ps) = ap (◌∷◌ (f (g p) (h p))) (zip_with-map f g h ps)

-- The rounds over the two arrays are the rounds of each block.
encrypt_rounds-map :
    (k : Key) (n sum : ℕ) (g h : ℕ × ℕ → ℕ) (ps : List (ℕ × ℕ))
    → encrypt_rounds k n sum (map g ps) (map h ps) ≡ (
      map (λ p. (encrypt_block k n sum (g p, h p)).0) ps,
      map (λ p. (encrypt_block k n sum (g p, h p)).1) ps,
    )
unfolding encrypt_rounds encrypt_block encrypt_step
encrypt_rounds-map k zero sum g h ps = refl
encrypt_rounds-map k (suc n) sum g h ps =
    rw
      (
        zip_with-map (λ l r. add32 l (mix k sum (low_index sum) r)) g h ps,
        zip_with-map (λ r l. add32 r (mix k (add32 sum delta) (high_index (add32 sum delta)) l)) h
            (λ p. add32 (g p) (mix k sum (low_index sum) (h p))) ps,
      )
      (encrypt_rounds-map k n (add32 sum delta) _ _ ps)

decrypt_rounds-map :
    (k : Key) (n sum : ℕ) (g h : ℕ × ℕ → ℕ) (ps : List (ℕ × ℕ))
    → decrypt_rounds k n sum (map g ps) (map h ps) ≡ (
      map (λ p. (decrypt_block k n sum (g p, h p)).0) ps,
      map (λ p. (decrypt_block k n sum (g p, h p)).1) ps,
    )
unfolding decrypt_rounds decrypt_block decrypt_step
decrypt_rounds-map k zero sum g h ps = refl
decrypt_rounds-map k (suc n) sum g h ps =
    rw
      (
        zip_with-map (λ r l. sub32 r (mix k sum (high_index sum) l)) h g ps,
        zip_with-map (λ l r. sub32 l (mix k (sub32 sum delta) (low_index (sub32 sum delta)) r)) g
            (λ p. sub32 (h p) (mix k sum (high_index sum) (g p))) ps,
      )
      (decrypt_rounds-map k n (sub32 sum delta) _ _ ps)

-- The blocks stored one behind the other.
stored : Bool → Key → List (ℕ × ℕ) → List ℕ
stored enc k [] = []
stored enc k (p ∷ ps) = store_block (block enc k p) ++ stored enc k ps

stored-blocks_of :
    (n : ℕ) (enc : Bool) (k : Key) (d : List ℕ)
    → stored enc k (blocks_of n d) ≡ each_block n enc k d
unfolding stored blocks_of each_block
stored-blocks_of zero enc k d = refl
stored-blocks_of (suc n) enc k d =
    ap (◌++◌ (store_block (block enc k (load_block d)))) (stored-blocks_of n enc k (drop 8 d))

store_blocks-map :
    (enc : Bool) (k : Key) (ps : List (ℕ × ℕ))
    → store_blocks (map (λ p. (block enc k p).0) ps) (map (λ p. (block enc k p).1) ps)
      ≡ stored enc k ps
unfolding store_blocks stored store_block
store_blocks-map enc k [] = refl
store_blocks-map enc k (p ∷ ps) =
    ap (λ (t : List ℕ). store_word (block enc k p).0 ++ (store_word (block enc k p).1 ++ t))
      (store_blocks-map enc k ps)
    ∙ sym (
        append_assoc (store_word (block enc k p).0) (store_word (block enc k p).1)
          (stored enc k ps))

xtea_encrypt_lem :
    (n : ℕ) (k : Key) (d : List ℕ) → xtea_encrypt n k d ≡ stored true k (blocks_of n d)
unfolding xtea_encrypt block
xtea_encrypt_lem n k d =
    rw
      (
        load_left_lem n d,
        load_right_lem n d,
        encrypt_rounds-map k 32 0 left_of right_of (blocks_of n d),
      )
      (store_blocks-map true k (blocks_of n d))

xtea_decrypt_lem :
    (n : ℕ) (k : Key) (d : List ℕ) → xtea_decrypt n k d ≡ stored false k (blocks_of n d)
unfolding xtea_decrypt block
xtea_decrypt_lem n k d =
    rw
      (
        load_left_lem n d,
        load_right_lem n d,
        decrypt_rounds-map k 32 (shl32 delta 5) left_of right_of (blocks_of n d),
      )
      (store_blocks-map false k (blocks_of n d))

pub cipher_lem :
    (enc : Bool) (n : ℕ) (k : Key) (d : List ℕ) → cipher enc n k d ≡ each_block n enc k d
unfolding cipher
cipher_lem true n k d = xtea_encrypt_lem n k d ∙ stored-blocks_of n true k d
cipher_lem false n k d = xtea_decrypt_lem n k d ∙ stored-blocks_of n false k d

-- ===== src/Xtea/RoundTrip.antt =====
-- `decrypt` undoes `encrypt`, and both keep the length of the buffer.
use juggernaut_server.Base.{
  ℕ, zero, suc, ◌+◌, ◌*◌, ◌/◌, ◌^◌, ◌≤◌, ◌<◌, ◌≡◌, refl, ap, sym, ◌∙◌, Bool, true, false, List, [],
  ◌∷◌, ◌++◌, append_assoc, arith, length, take, drop, get_or, Bytes, IsWord, IsByte, add32, sub32,
  shl32, sub32-add32, length-append, length-drop, drop-append, take-append-drop, take-add,
  All-append, All-drop,
}
use juggernaut_server.Xtea.{Key, delta, mix, low_index, high_index, store_word, encrypt, decrypt}
use juggernaut_server.Xtea.Word.{
  load_word-IsWord, store_word-Bytes, length-store_word, load_word-store_word,
  load_word-store_word_next, store_word-load_word,
}
use juggernaut_server.Xtea.Blocks.{
  encrypt_step, decrypt_step, encrypt_block, decrypt_block, load_block, store_block, block,
  each_block,
}
use juggernaut_server.Xtea.Steps.{whole_blocks, encrypt-whole_blocks, decrypt-whole_blocks}

abbrev AreWords : ℕ × ℕ → Type 0
AreWords p = IsWord p.0 × IsWord p.1

encrypt_step-AreWords : (k : Key) (sum : ℕ) (p : ℕ × ℕ) → AreWords (encrypt_step k sum p)
unfolding encrypt_step
encrypt_step-AreWords k sum (l, r) = omega arith

decrypt_step-AreWords : (k : Key) (sum : ℕ) (p : ℕ × ℕ) → AreWords (decrypt_step k sum p)
unfolding decrypt_step
decrypt_step-AreWords k sum (l, r) = omega arith

decrypt_step-encrypt_step :
    (k : Key) (sum : ℕ) (p : ℕ × ℕ)
    → IsWord sum
    → AreWords p
    → decrypt_step k (add32 sum delta) (encrypt_step k sum p) ≡ p
unfolding encrypt_step decrypt_step
decrypt_step-encrypt_step k sum (l, r) hs h =
    let left = add32 l (mix k sum (low_index sum) r) in
    let sum' = add32 sum delta in
    rw (
      sub32-add32 r (mix k sum' (high_index sum') left) h.1,
      sub32-add32 sum delta hs,
      sub32-add32 l (mix k sum (low_index sum) r) h.0,
    )

-- The sum after `n` rounds.
sum_after : ℕ → ℕ → ℕ
sum_after zero sum = sum
sum_after (suc n) sum = sum_after n (add32 sum delta)

sum_after-IsWord : (n sum : ℕ) → IsWord sum → IsWord (sum_after n sum)
unfolding sum_after
sum_after-IsWord zero sum h = h
sum_after-IsWord (suc n) sum h = sum_after-IsWord n (add32 sum delta) (omega arith)

sum_after_last : (n sum : ℕ) → sum_after (suc n) sum ≡ add32 (sum_after n sum) delta
unfolding sum_after
sum_after_last zero sum = refl
sum_after_last (suc n) sum = sum_after_last n (add32 sum delta)

-- The last round apart.
encrypt_block_last :
    (k : Key) (n sum : ℕ) (p : ℕ × ℕ)
    → encrypt_block k (suc n) sum p ≡ encrypt_step k (sum_after n sum) (encrypt_block k n sum p)
unfolding encrypt_block sum_after
encrypt_block_last k zero sum p = refl
encrypt_block_last k (suc n) sum p = encrypt_block_last k n (add32 sum delta) (encrypt_step k sum p)

encrypt_block-AreWords :
    (k : Key) (n sum : ℕ) (p : ℕ × ℕ) → AreWords p → AreWords (encrypt_block k n sum p)
unfolding encrypt_block
encrypt_block-AreWords k zero sum p h = h
encrypt_block-AreWords k (suc n) sum p h =
    encrypt_block-AreWords k n (add32 sum delta) (encrypt_step k sum p)
      (encrypt_step-AreWords k sum p)

decrypt_block-AreWords :
    (k : Key) (n sum : ℕ) (p : ℕ × ℕ) → AreWords p → AreWords (decrypt_block k n sum p)
unfolding decrypt_block
decrypt_block-AreWords k zero sum p h = h
decrypt_block-AreWords k (suc n) sum p h =
    decrypt_block-AreWords k n (sub32 sum delta) (decrypt_step k sum p)
      (decrypt_step-AreWords k sum p)

decrypt_block_first :
    (k : Key) (n sum : ℕ) (p : ℕ × ℕ)
    → decrypt_block k (suc n) sum p ≡ decrypt_block k n (sub32 sum delta) (decrypt_step k sum p)
unfolding decrypt_block
decrypt_block_first k n sum p = refl

decrypt_block-encrypt_block :
    (k : Key) (n sum : ℕ) (p : ℕ × ℕ)
    → IsWord sum
    → AreWords p
    → decrypt_block k n (sum_after n sum) (encrypt_block k n sum p) ≡ p
decrypt_block-encrypt_block k zero sum p hs h = unfold decrypt_block encrypt_block in refl
decrypt_block-encrypt_block k (suc n) sum p hs h =
    rw
      (
        encrypt_block_last k n sum p,
        sum_after_last n sum,
        decrypt_block_first k n (add32 (sum_after n sum) delta)
            (encrypt_step k (sum_after n sum) (encrypt_block k n sum p)),
        decrypt_step-encrypt_step k (sum_after n sum) (encrypt_block k n sum p)
            (sum_after-IsWord n sum hs) (encrypt_block-AreWords k n sum p h),
        sub32-add32 (sum_after n sum) delta (sum_after-IsWord n sum hs),
      )
      (decrypt_block-encrypt_block k n sum p hs h)

-- The decryption's first sum is the encryption's last.
final_sum : sum_after 32 0 ≡ shl32 delta 5
unfolding sum_after
final_sum = refl

pub block-block : (k : Key) (p : ℕ × ℕ) → AreWords p → block false k (block true k p) ≡ p
unfolding block
block-block k p h = rw (← final_sum) (decrypt_block-encrypt_block k 32 0 p (omega arith) h)

block-AreWords : (enc : Bool) (k : Key) (p : ℕ × ℕ) → AreWords p → AreWords (block enc k p)
unfolding block
block-AreWords true k p h = encrypt_block-AreWords k 32 0 p h
block-AreWords false k p h = decrypt_block-AreWords k 32 (shl32 delta 5) p h

load_block-AreWords : (d : List ℕ) → Bytes d → AreWords (load_block d)
unfolding load_block
load_block-AreWords d h = (load_word-IsWord d 0 h, load_word-IsWord d 4 h)

length-store_block : (p : ℕ × ℕ) → length (store_block p) ≡ 8
unfolding store_block
length-store_block (l, r) =
    omega
      (arith, length-append (store_word l) (store_word r), length-store_word l, length-store_word r)

store_block-Bytes : (p : ℕ × ℕ) → Bytes (store_block p)
unfolding store_block
store_block-Bytes (l, r) =
    All-append IsByte (store_word l) (store_word r) (store_word-Bytes l) (store_word-Bytes r)

load_block-store_block :
    (p : ℕ × ℕ) (rest : List ℕ) → AreWords p → load_block (store_block p ++ rest) ≡ p
unfolding load_block store_block
load_block-store_block (l, r) rest h = rw (
  append_assoc (store_word l) (store_word r) rest,
  load_word-store_word l (store_word r ++ rest) h.0,
  load_word-store_word_next l r rest h.1,
)

store_block-load_block :
    (d : List ℕ) → 8 ≤ length d → Bytes d → store_block (load_block d) ≡ take 8 d
unfolding load_block store_block
store_block-load_block d long h =
    rw (store_word-load_word d 0 h, store_word-load_word d 4 h) (first_eight d long)
  where
    first_eight :
        (d : List ℕ)
        → 8 ≤ length d
        → get_or d 0 0
            ∷ get_or d 1 0
            ∷ get_or d 2 0
            ∷ get_or d 3 0
            ∷ get_or d 4 0
            ∷ get_or d 5 0
            ∷ get_or d 6 0
            ∷ get_or d 7 0
            ∷ []
          ≡ take 8 d
    first_eight (a ∷ b ∷ c ∷ e ∷ f ∷ g ∷ i ∷ j ∷ d) long = refl
    first_eight _ long = absurd (omega arith)

pub length-each_block :
    (n : ℕ) (enc : Bool) (k : Key) (d : List ℕ) → length (each_block n enc k d) ≡ n * 8
unfolding each_block
length-each_block zero enc k d = refl
length-each_block (suc n) enc k d = omega (
  arith,
  length-append (store_block (block enc k (load_block d))) (each_block n enc k (drop 8 d)),
  length-store_block (block enc k (load_block d)),
  length-each_block n enc k (drop 8 d),
)

pub each_block-Bytes : (n : ℕ) (enc : Bool) (k : Key) (d : List ℕ) → Bytes (each_block n enc k d)
unfolding each_block
each_block-Bytes zero enc k d = tt
each_block-Bytes (suc n) enc k d =
    All-append IsByte (store_block (block enc k (load_block d))) (each_block n enc k (drop 8 d))
      (store_block-Bytes (block enc k (load_block d))) (each_block-Bytes n enc k (drop 8 d))

-- Deciphering the ciphered blocks, with any bytes behind them.
each_block-each_block :
    (n : ℕ) (k : Key) (d rest : List ℕ)
    → n * 8 ≤ length d
    → Bytes d
    → each_block n false k (each_block n true k d ++ rest) ≡ take (n * 8) d
unfolding each_block
each_block-each_block zero k d rest long h = refl
each_block-each_block (suc n) k d rest long h =
    let first = store_block (block true k (load_block d)) in
    let later = each_block n true k (drop 8 d) ++ rest in
    rw
      (
        append_assoc first (each_block n true k (drop 8 d)) rest,
        load_block-store_block (block true k (load_block d)) later
            (block-AreWords true k (load_block d) (load_block-AreWords d h)),
        block-block k (load_block d) (load_block-AreWords d h),
        store_block-load_block d (omega arith) h,
        drop-append first later 8 (length-store_block (block true k (load_block d))),
        each_block-each_block n k (drop 8 d) rest (omega (arith, length-drop 8 d))
            (All-drop IsByte 8 d h),
        suc_times n,
      )
      (take_split n d)
  where
    suc_times : (n : ℕ) → suc n * 8 ≡ 8 + n * 8
    suc_times n = omega arith

    take_split : (n : ℕ) (d : List ℕ) → take 8 d ++ take (n * 8) (drop 8 d) ≡ take (8 + n * 8) d
    take_split n d = sym (take-add 8 (n * 8) d)

pub length-whole_blocks :
    (enc : Bool) (k : Key) (d : List ℕ) → length (whole_blocks enc k d) ≡ length d
unfolding whole_blocks
length-whole_blocks enc k d = omega (
  arith,
  length-append (each_block (length d / 8) enc k d) (drop (length d / 8 * 8) d),
  length-each_block (length d / 8) enc k d,
  length-drop (length d / 8 * 8) d,
)

pub whole_blocks-Bytes :
    (enc : Bool) (k : Key) (d : List ℕ) → Bytes d → Bytes (whole_blocks enc k d)
unfolding whole_blocks
whole_blocks-Bytes enc k d h =
    All-append IsByte (each_block (length d / 8) enc k d) (drop (length d / 8 * 8) d)
      (each_block-Bytes (length d / 8) enc k d) (All-drop IsByte (length d / 8 * 8) d h)

whole_blocks_at :
    (n : ℕ) (k : Key) (d : List ℕ)
    → length d / 8 ≡ n
    → whole_blocks false k d ≡ each_block n false k d ++ drop (n * 8) d
unfolding whole_blocks
whole_blocks_at n k d e = rw e

pub whole_blocks-whole_blocks :
    (k : Key) (d : List ℕ) → Bytes d → whole_blocks false k (whole_blocks true k d) ≡ d
unfolding whole_blocks
whole_blocks-whole_blocks k d h =
    rw (whole_blocks_at (length d / 8) k (whole_blocks true k d) (ap (λ (t : ℕ). t / 8) kept))
      (restored (length d / 8) (omega arith))
  where
    kept : length (whole_blocks true k d) ≡ length d
    kept = length-whole_blocks true k d

    restored :
        (n : ℕ)
        → n * 8 ≤ length d
        → each_block n false k (each_block n true k d ++ drop (n * 8) d)
            ++ drop (n * 8) (each_block n true k d ++ drop (n * 8) d)
          ≡ d
    restored n long =
        rw
          (
            each_block-each_block n k d (drop (n * 8) d) long h,
            drop-append (each_block n true k d) (drop (n * 8) d) (n * 8)
                (length-each_block n true k d),
          )
          (take-append-drop (n * 8) d)

-- `decrypt` undoes `encrypt` with the same key for every buffer of less than 2 ^ 32 bytes,
-- whatever two block sizes the two ends were compiled for: the bytes come back, and the length is
-- kept in between.
pub decrypt-encrypt :
    (i j : ℕ) (k : Key) (d : List ℕ)
    → i ≤ 7
    → j ≤ 7
    → length d < 2 ^ 32
    → Bytes d
    → (length (encrypt (2 ^ i) k d) ≡ length d) × (decrypt (2 ^ j) k (encrypt (2 ^ i) k d) ≡ d)
decrypt-encrypt i j k d hi hj lt h =
    let e = encrypt-whole_blocks i k d hi lt in
    let kept = length-whole_blocks true k d in
    (
      ap length e ∙ kept,
      ap (decrypt (2 ^ j) k) e
          ∙ decrypt-whole_blocks j k (whole_blocks true k d) hj (rw kept lt)
          ∙ whole_blocks-whole_blocks k d h,
    )

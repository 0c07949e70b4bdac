-- ===== src/Xtea/Steps.antt =====
-- The template recursion of `XTEA`: every block size gives the cipher of each whole block, and
-- leaves the bytes behind the last whole block as they are.
use native.Mathlib.Nat.{
  zero-add, zero-mul, suc-add, pow-suc, one-le-pow, mul_assoc, mul-div_cancel, mod-eq_of_lt,
  div-lt_iff_lt-mul, div-mul-le_self,
}
use juggernaut_server.Base.{
  ℕ, zero, suc, ◌+◌, ◌-◌, ◌*◌, ◌/◌, ◌^◌, ◌≤◌, ◌<◌, ◌≡◌, refl, ap, sym, ◌∙◌, bit_and, Bool, true,
  false, List, ◌++◌, append_assoc, arith, length, take, drop, ◌==◌, bit_and_mask, bit_and_shifted,
  drop-drop, drop-take, length-drop,
}
use juggernaut_server.Xtea.{Key, each_step, whole_steps, xtea, encrypt, decrypt}
use juggernaut_server.Xtea.Word.{load_word-take}
use juggernaut_server.Xtea.Blocks.{block, load_block, store_block, each_block, cipher_lem}

each_block-add :
    (m n : ℕ) (enc : Bool) (k : Key) (d : List ℕ)
    → each_block (m + n) enc k d ≡ each_block m enc k d ++ each_block n enc k (drop (m * 8) d)
unfolding each_block
each_block-add zero n enc k d = rw (zero-add n)
each_block-add (suc m) n enc k d =
    rw (suc-add m n, append_assoc)
      (ap (◌++◌ (store_block (block enc k (load_block d))))
        (rw (suc_times m) (each_block-add m n enc k (drop 8 d) ∙ after_first)))
  where
    suc_times : (m : ℕ) → suc m * 8 ≡ 8 + m * 8
    suc_times m = omega arith

    after_first :
        each_block m enc k (drop 8 d) ++ each_block n enc k (drop (m * 8) (drop 8 d))
        ≡ each_block m enc k (drop 8 d) ++ each_block n enc k (drop (8 + m * 8) d)
    after_first = rw (drop-drop (m * 8) 8 d)

each_block-take :
    (n len : ℕ) (enc : Bool) (k : Key) (d : List ℕ)
    → n * 8 ≤ len
    → each_block n enc k (take len d) ≡ each_block n enc k d
unfolding each_block load_block
each_block-take zero len enc k d h = refl
each_block-take (suc n) len enc k d h = rw (
  load_word-take len d 0 (omega arith),
  load_word-take len d 4 (omega arith),
  drop-take 8 len d,
  each_block-take n (len - 8) enc k (drop 8 d) (omega arith),
)

mask_steps :
    (m j len : ℕ)
    → 2 ^ j * 2 ^ m ≡ 2 ^ 64
    → len < 2 ^ 64
    → bit_and len ((2 ^ j - 1) * 2 ^ m) ≡ len / 2 ^ m * 2 ^ m
mask_steps m j len e h =
    bit_and_shifted m len (2 ^ j - 1)
    ∙ ap (λ (t : ℕ). t * 2 ^ m) (bit_and_mask j (len / 2 ^ m) ∙ mod-eq_of_lt fits)
  where
    fits : len / 2 ^ m < 2 ^ j
    fits = (div-lt_iff_lt-mul (one-le-pow m 2 (omega arith))).1 (rw e h)

whole_steps_lem :
    (k len : ℕ) → k ≤ 7 → len < 2 ^ 32 → whole_steps (2 ^ k) len ≡ len / (2 ^ k * 8) * (2 ^ k * 8)
unfolding whole_steps
whole_steps_lem zero len h lt = mask_steps 3 61 len refl (omega (arith, lt))
whole_steps_lem (suc zero) len h lt = mask_steps 4 60 len refl (omega (arith, lt))
whole_steps_lem (suc (suc zero)) len h lt = mask_steps 5 59 len refl (omega (arith, lt))
whole_steps_lem (suc (suc (suc zero))) len h lt = mask_steps 6 58 len refl (omega (arith, lt))
whole_steps_lem (suc (suc (suc (suc zero)))) len h lt = mask_steps 7 57 len refl (omega (arith, lt))
whole_steps_lem (suc (suc (suc (suc (suc zero))))) len h lt =
    mask_steps 8 56 len refl (omega (arith, lt))
whole_steps_lem (suc (suc (suc (suc (suc (suc zero)))))) len h lt =
    mask_steps 9 55 len refl (omega (arith, lt))
whole_steps_lem (suc (suc (suc (suc (suc (suc (suc zero))))))) len h lt =
    mask_steps 10 54 len refl (omega (arith, lt))
whole_steps_lem (suc (suc (suc (suc (suc (suc (suc (suc k)))))))) len h lt = absurd (omega arith)

each_step_lem :
    (rounds size : ℕ) (enc : Bool) (k : Key) (d : List ℕ)
    → each_step rounds size enc k d ≡ each_block (rounds * size) enc k d
unfolding each_step each_block
each_step_lem zero size enc k d = rw (zero-mul size)
each_step_lem (suc rounds) size enc k d =
    rw
      (
        cipher_lem enc size k (take (size * 8) d),
        each_block-take size (size * 8) enc k d (omega arith),
        each_step_lem rounds size enc k (drop (size * 8) d),
      )
      (sym (each_block-add size (rounds * size) enc k d)
        ∙ ap (λ (n : ℕ). each_block n enc k d) (omega arith))

-- The reference: the cipher on each whole block, and the bytes behind them.
unfoldable pub whole_blocks : Bool → Key → List ℕ → List ℕ
whole_blocks enc k d = each_block (length d / 8) enc k d ++ drop (length d / 8 * 8) d

-- What is done up to a block boundary and after it is done on the whole.
join_at :
    (n : ℕ) (enc : Bool) (k : Key) (d : List ℕ)
    → n * 8 ≤ length d
    → each_block n enc k d ++ whole_blocks enc k (drop (n * 8) d) ≡ whole_blocks enc k d
unfolding whole_blocks
join_at n enc k d h = rw (
  length-drop (n * 8) d,
  ← append_assoc,
  ← each_block-add n ((length d - n * 8) / 8) enc k d,
  drop-drop ((length d - n * 8) / 8 * 8) (n * 8) d,
  blocks_sum,
  bytes_sum,
)
  where
    blocks_sum : n + (length d - n * 8) / 8 ≡ length d / 8
    blocks_sum = omega arith

    bytes_sum : n * 8 + (length d - n * 8) / 8 * 8 ≡ length d / 8 * 8
    bytes_sum = omega arith

-- The block size after `k` is halved.
half_size : (k : ℕ) → (2 ^ suc k + 1) / 2 ≡ 2 ^ k
half_size k = omega (arith, pow-suc 2 k)

larger : (k : ℕ) → (2 ^ suc k == 1) ≡ false
larger k = ground (arith, pow-suc 2 k, one-le-pow k 2)

-- The blocks of the first level, as one run of the reference.
first_level :
    (k : ℕ) (enc : Bool) (key : Key) (d : List ℕ)
    → k ≤ 7
    → length d < 2 ^ 32
    → let size = 2 ^ k in
      let n = length d / (size * 8) * size in
      (whole_steps size (length d) ≡ n * 8)
      × (n * 8 ≤ length d)
      × (each_step
            (whole_steps size (length d) / (size * 8))
            size
            enc
            key
            (take (whole_steps size (length d)) d)
          ≡ each_block n enc key d)
first_level k enc key d h lt = (steps, bound, blocks)
  where
    q : ℕ
    q = length d / (2 ^ k * 8)

    whole : whole_steps (2 ^ k) (length d) ≡ q * (2 ^ k * 8)
    whole = whole_steps_lem k (length d) h lt

    regroup : q * (2 ^ k * 8) ≡ q * 2 ^ k * 8
    regroup = sym (mul_assoc q (2 ^ k) 8)

    steps : whole_steps (2 ^ k) (length d) ≡ q * 2 ^ k * 8
    steps = whole ∙ regroup

    bound : q * 2 ^ k * 8 ≤ length d
    bound = rw (← regroup) (div-mul-le_self (length d) (2 ^ k * 8))

    positive : 0 < 2 ^ k * 8
    positive = omega (arith, one-le-pow k 2 (omega arith))

    rounds : whole_steps (2 ^ k) (length d) / (2 ^ k * 8) ≡ q
    rounds = rw whole (mul-div_cancel q positive)

    blocks :
        each_step
          (whole_steps (2 ^ k) (length d) / (2 ^ k * 8))
          (2 ^ k)
          enc
          key
          (take (whole_steps (2 ^ k) (length d)) d)
        ≡ each_block (q * 2 ^ k) enc key d
    blocks =
        rw (rounds, steps)
          (each_step_lem q (2 ^ k) enc key (take (q * 2 ^ k * 8) d)
            ∙ each_block-take (q * 2 ^ k) (q * 2 ^ k * 8) enc key d (omega arith))

xtea_lem :
    (depth k : ℕ) (enc : Bool) (key : Key) (d : List ℕ)
    → k < depth
    → k ≤ 7
    → length d < 2 ^ 32
    → xtea depth (2 ^ k) enc key d ≡ whole_blocks enc key d
unfolding xtea whole_blocks
xtea_lem zero k enc key d below h lt = absurd (omega arith)
xtea_lem (suc depth) zero enc key d below h lt =
    let first = first_level 0 enc key d h lt in
    let all : length d / 8 * 1 ≡ length d / 8 = omega arith in rw (first.2, first.0, all)
xtea_lem (suc depth) (suc k) enc key d below h lt =
    let first = first_level (suc k) enc key d h lt in
    let rest = length-drop (whole_steps (2 ^ suc k) (length d)) d in
    rw
      (
        larger k,
        half_size k,
        xtea_lem depth k enc key (drop (whole_steps (2 ^ suc k) (length d)) d) (omega arith)
            (omega arith) (omega (arith, rest)),
        first.2,
        first.0,
      )
      (join_at (length d / (2 ^ suc k * 8) * 2 ^ suc k) enc key d first.1)

lt-two-pow : (k : ℕ) → k < 2 ^ k
lt-two-pow zero = omega arith
lt-two-pow (suc k) = omega (arith, pow-suc 2 k, lt-two-pow k)

-- For every block size that it is compiled for, and a buffer of less than 2 ^ 32 bytes, `encrypt`
-- is the cipher of each whole block of eight bytes, and leaves the bytes behind them.
pub encrypt-whole_blocks :
    (k : ℕ) (key : Key) (d : List ℕ)
    → k ≤ 7
    → length d < 2 ^ 32
    → encrypt (2 ^ k) key d ≡ whole_blocks true key d
unfolding encrypt
encrypt-whole_blocks k key d h lt = xtea_lem (2 ^ k) k true key d (lt-two-pow k) h lt

pub decrypt-whole_blocks :
    (k : ℕ) (key : Key) (d : List ℕ)
    → k ≤ 7
    → length d < 2 ^ 32
    → decrypt (2 ^ k) key d ≡ whole_blocks false key d
unfolding decrypt
decrypt-whole_blocks k key d h lt = xtea_lem (2 ^ k) k false key d (lt-two-pow k) h lt

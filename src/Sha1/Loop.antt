-- ===== src/Sha1/Loop.antt =====
-- The loop over the input of `transformToSHA1`: it processes the blocks of 64 bytes in turn, and keeps
-- the bytes of the last block and the length in bits.
use native.Mathlib.Nat.{add_assoc}
use juggernaut_server.Base.{
  ℕ, zero, suc, ◌+◌, ◌*◌, ◌/◌, ◌%◌, ◌^◌, ◌≤◌, ◌<◌, ◌≡◌, refl, ap, sym, ◌∙◌, ◌↔◌, Bool, true, false,
  List, [], ◌∷◌, ◌++◌, length, take, drop, append_assoc, length-append, take-append, drop-append,
  u32, ◌==◌, if◌then◌else◌, arith, ==_iff,
}
use juggernaut_server.Sha1.{Registers, Digest, process_block, flush, feed, feed_all}

-- `n` blocks of 64 bytes, one after the other.
unfoldable pub blocks : ℕ → Registers → List ℕ → Registers
blocks zero h bs = h
blocks (suc n) h bs = blocks n (process_block (take 64 bs) h) (drop 64 bs)

-- The state of the loop after `m` bytes, of which the bytes of the block are not processed yet.
pub record IsFed (m : ℕ) (s : Digest) : Type 0 where
  pub room : length s.block < 64
  pub rest : length s.block ≡ m % 64
  pub low : s.length_low ≡ 8 * m % 2 ^ 32
  pub high : s.length_high ≡ 8 * m / 2 ^ 32 % 2 ^ 32

-- What is to come is processed alike from two states, the second of which has `n` blocks less.
abbrev pub Ahead : ℕ → Digest → List ℕ → Digest → Type 0
Ahead n s input s' =
    (m : ℕ) (rest : List ℕ)
    → blocks (n + m) s.h (s.block ++ (input ++ rest)) ≡ blocks m s'.h (s'.block ++ rest)

pub blocks-first :
    (n : ℕ) (h : Registers) (block rest : List ℕ)
    → length block ≡ 64
    → blocks (suc n) h (block ++ rest) ≡ blocks n (process_block block h) rest
unfolding blocks
blocks-first n h block rest e = rw (take-append block rest 64 e, drop-append block rest 64 e) refl

-- The counters after one byte.
count_low : (m low : ℕ) → low ≡ 8 * m % 2 ^ 32 → u32 (low + 8) ≡ 8 * suc m % 2 ^ 32
count_low m low e = omega (arith, e)

count_high :
    (m low high : ℕ)
    → low ≡ 8 * m % 2 ^ 32
    → high ≡ 8 * m / 2 ^ 32 % 2 ^ 32
    → (if u32 (low + 8) == 0 then u32 (high + 1) else high) ≡ 8 * suc m / 2 ^ 32 % 2 ^ 32
count_high m low high e e' = ground (arith, e, e')

-- A block that may be full is processed when it is.
abbrev Flushed : Digest → Digest → Type 0
Flushed s s' =
    (length s'.block < 64)
    × (s'.length_low ≡ s.length_low)
    × (s'.length_high ≡ s.length_high)
    × (n : ℕ) × (length s.block ≡ 64 * n + length s'.block)
    × Ahead n s [] s'

flush_lem : (s : Digest) → length s.block ≤ 64 → Flushed s (flush s)
unfolding flush
flush_lem s room = with_test (length s.block == 64) (==_iff (length s.block) 64)
  where
    with_test :
        (t : Bool)
        → (t ≡ true) ↔ (length s.block ≡ 64)
        → Flushed s (if t then record s { h = process_block s.block s.h; block = [] } else s)
    with_test true full =
        let e : length s.block ≡ 64 = full.0 refl in
        (
          omega arith,
          refl,
          refl,
          1,
          e,
          λ m rest.
              ap (λ k. blocks k s.h (s.block ++ rest)) (omega arith)
              ∙ blocks-first m s.h s.block rest e,
        )
    with_test false full =
        let less : length s.block < 64 = not_full full.1 in
        (
          less,
          refl,
          refl,
          0,
          omega arith,
          λ m rest. ap (λ k. blocks k s.h (s.block ++ rest)) (omega arith),
        )
      where
        not_full : ((length s.block ≡ 64) → false ≡ true) → length s.block < 64
        not_full f = ground (arith, f)

-- What is known behind a sequence of bytes: the state, and how many blocks were processed.
abbrev pub Fed : ℕ → List ℕ → Digest → Digest → Type 0
Fed m input s s' =
    IsFed (m + length input) s'
    × (n : ℕ) × (length s.block + length input ≡ 64 * n + length s'.block)
    × Ahead n s input s'

feed_lem : (m ch : ℕ) (s : Digest) → IsFed m s → Fed m (ch ∷ []) s (feed ch s)
unfolding feed
feed_lem m ch s w =
    let low = u32 (s.length_low + 8) in
    let s' : Digest = record {
      h = s.h;
      block = s.block ++ ch ∷ [];
      length_low = low;
      length_high = if low == 0 then u32 (s.length_high + 1) else s.length_high;
    } in
    let one = length-append s.block (ch ∷ []) in
    let (room, same_low, same_high, n, whole, ahead) = flush_lem s' (omega (arith, one, w.room)) in
    let next : m + 1 ≡ suc m = omega arith in
    (
      record {
        room = room;
        rest = omega (arith, whole, one, w.rest, room);
        low = same_low ∙ count_low m s.length_low w.low ∙ ap (λ k. 8 * k % 2 ^ 32) (sym next);
        high =
            same_high
            ∙ count_high m s.length_low s.length_high w.low w.high
            ∙ ap (λ k. 8 * k / 2 ^ 32 % 2 ^ 32) (sym next);
      },
      n,
      omega (arith, whole, one),
      λ k rest. ap (blocks (n + k) s.h) (sym (append_assoc s.block (ch ∷ []) rest)) ∙ ahead k rest,
    )

Fed-nothing : (m : ℕ) (s : Digest) → IsFed m s → Fed m [] s s
Fed-nothing m s w =
    let same : m + 0 ≡ m = omega arith in
    (rw same w, 0, omega arith, λ k rest. ap (λ j. blocks j s.h (s.block ++ rest)) (omega arith))

pub feed_all_lem :
    (input : List ℕ) (m : ℕ) (s : Digest) → IsFed m s → Fed m input s (feed_all input s)
unfolding feed_all
feed_all_lem [] m s w = Fed-nothing m s w
feed_all_lem (ch ∷ input) m s w =
    let (w', n, whole, ahead) = feed_lem m ch s w in
    let (w'', n', whole', ahead') = feed_all_lem input (m + 1) (feed ch s) w' in
    let next : m + suc (length input) ≡ (m + 1) + length input = omega arith in
    (
      rw next w'',
      n + n',
      omega (arith, whole, whole'),
      λ k rest.
          ap (λ j. blocks j s.h (s.block ++ (ch ∷ input ++ rest))) (add_assoc n n' k)
          ∙ ahead (n' + k) (input ++ rest)
          ∙ ahead' k rest,
    )

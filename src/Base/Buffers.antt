-- ===== src/Base/Buffers.antt =====
-- A `uint8_t` array as the bytes at its indices, with `memcpy`, and integers in memory. The targets
-- of the build are little-endian.
use native.Mathlib.Nat.{pow-succ'}
use Prim.Native.Nat.{ℕ, zero, suc, ◌+◌, ◌-◌, ◌*◌, ◌/◌, ◌%◌, ◌^◌, ◌≤◌, ◌<◌}
use mathlib.Core.Path.{◌≡◌, refl, ap, ap₂, sym, ◌∙◌}
use mathlib.Core.Logic.{◌⊎◌, inl, inr}
use mathlib.Core.Bool.{◌&&◌}
use mathlib.Core.List.{List, [], ◌∷◌, ◌++◌}
use native.Mathlib.Omega.{arith}
use juggernaut_server.Base.Tests.{ltb, leb, if◌then◌else◌}
use juggernaut_server.Base.Lists.{append_parts, length-append, length, get_or}
use juggernaut_server.Base.Words.{Bytes, IsByte}

abbrev pub Memory : Type 0
Memory = ℕ → ℕ

-- The `n` bytes from index `p`.
abbrev pub slice : Memory → ℕ → ℕ → List ℕ
slice m p zero = []
slice m p (suc n) = m p ∷ slice m (suc p) n

-- `memcpy(m + p, bs, n)` for the `n` bytes `bs`.
pub write : Memory → ℕ → List ℕ → Memory
write m p bs i = if leb p i && ltb i (p + length bs) then get_or bs (i - p) 0 else m i

-- The bytes of an `n`-byte integer, and the integer of some bytes.
abbrev pub le_bytes : ℕ → ℕ → List ℕ
le_bytes zero v = []
le_bytes (suc n) v = v % 256 ∷ le_bytes n (v / 256)

abbrev pub le_value : List ℕ → ℕ
le_value [] = 0
le_value (b ∷ bs) = b + 256 * le_value bs

pub length-slice : (m : Memory) (p n : ℕ) → length (slice m p n) ≡ n
length-slice m p zero = refl
length-slice m p (suc n) = ap suc (length-slice m (suc p) n)

pub slice-Bytes : (m : Memory) (p n : ℕ) → ((i : ℕ) → IsByte (m i)) → Bytes (slice m p n)
slice-Bytes m p zero h = tt
slice-Bytes m p (suc n) h = (h p, slice-Bytes m (suc p) n h)

pub slice-add : (m : Memory) (p a b : ℕ) → slice m p (a + b) ≡ slice m p a ++ slice m (p + a) b
slice-add m p zero b =
    let e : 0 + b ≡ b = omega arith in let e' : p + 0 ≡ p = omega arith in rw (e, e')
slice-add m p (suc a) b =
    let e : suc a + b ≡ suc (a + b) = omega arith in
    let e' : p + suc a ≡ suc p + a = omega arith in
    rw (e, e') (ap (◌∷◌ (m p)) (slice-add m (suc p) a b))

-- Equal bytes at every index of the range.
pub slice_ext :
    (m m' : Memory) (p n : ℕ)
    → ((i : ℕ) → p ≤ i → i < p + n → m i ≡ m' i)
    → slice m p n ≡ slice m' p n
slice_ext m m' p zero h = refl
slice_ext m m' p (suc n) h =
    ap₂ ◌∷◌ (h p (omega arith) (omega arith))
      (slice_ext m m' (suc p) n (λ i lo hi. h i (omega arith) (omega arith)))

write_outside :
    (m : Memory) (p : ℕ) (bs : List ℕ) (i : ℕ)
    → (i < p) ⊎ (p + length bs ≤ i)
    → write m p bs i ≡ m i
unfolding write
write_outside m p bs i h = ground arith

write_inside :
    (m : Memory) (p : ℕ) (bs : List ℕ) (i : ℕ)
    → p ≤ i
    → i < p + length bs
    → write m p bs i ≡ get_or bs (i - p) 0
unfolding write
write_inside m p bs i lo hi = ground arith

pub slice-write_disjoint :
    (m : Memory) (p : ℕ) (bs : List ℕ) (q n : ℕ)
    → (q + n ≤ p) ⊎ (p + length bs ≤ q)
    → slice (write m p bs) q n ≡ slice m q n
slice-write_disjoint m p bs q n (inl h) =
    slice_ext (write m p bs) m q n (λ i lo hi. write_outside m p bs i (inl (omega arith)))
slice-write_disjoint m p bs q n (inr h) =
    slice_ext (write m p bs) m q n (λ i lo hi. write_outside m p bs i (inr (omega arith)))

slice_list :
    (m : Memory) (q : ℕ) (bs : List ℕ)
    → ((j : ℕ) → j < length bs → m (q + j) ≡ get_or bs j 0)
    → slice m q (length bs) ≡ bs
slice_list m q [] h = refl
slice_list m q (b ∷ bs) h =
    ap₂ ◌∷◌ (let e : q + 0 ≡ q = omega arith in rw e at (h 0 (omega arith))) (
      slice_list m (suc q) bs
        λ j lt. let e : q + suc j ≡ suc q + j = omega arith in rw e at (h (suc j) (omega arith)))

pub slice-write : (m : Memory) (p : ℕ) (bs : List ℕ) → slice (write m p bs) p (length bs) ≡ bs
slice-write m p bs = slice_list (write m p bs) p bs λ j lt.
    write_inside m p bs (p + j) (omega arith) (omega arith)
    ∙ ap (λ (i : ℕ). get_or bs i 0) (omega arith)

get_or-IsByte : (bs : List ℕ) (i : ℕ) → Bytes bs → IsByte (get_or bs i 0)
get_or-IsByte [] i h = omega arith
get_or-IsByte (x ∷ bs) zero h = h.0
get_or-IsByte (x ∷ bs) (suc i) h = get_or-IsByte bs i h.1

pub write-IsByte :
    (m : Memory) (p : ℕ) (bs : List ℕ)
    → ((i : ℕ) → IsByte (m i))
    → Bytes bs
    → (i : ℕ) → IsByte (write m p bs i)
unfolding write
write-IsByte m p bs hm hb i = ground (arith, hm i, get_or-IsByte bs (i - p) hb)

pub length-le_bytes : (n v : ℕ) → length (le_bytes n v) ≡ n
length-le_bytes zero v = refl
length-le_bytes (suc n) v = ap suc (length-le_bytes n (v / 256))

pub le_bytes-Bytes : (n v : ℕ) → Bytes (le_bytes n v)
le_bytes-Bytes zero v = tt
le_bytes-Bytes (suc n) v = (omega arith, le_bytes-Bytes n (v / 256))

-- A value that fits `n` bytes is read back.
pub le_value-le_bytes : (n v : ℕ) → v < 256 ^ n → le_value (le_bytes n v) ≡ v
le_value-le_bytes zero v h = omega arith
le_value-le_bytes (suc n) v h =
    omega (arith, le_value-le_bytes n (v / 256) (omega (arith, pow-succ' 256 n)))

-- Bytes that stand one behind the other.
pub slice_parts :
    (m : Memory) (p : ℕ) (xs ys : List ℕ)
    → slice m p (length (xs ++ ys)) ≡ xs ++ ys
    → (slice m p (length xs) ≡ xs) × (slice m (p + length xs) (length ys) ≡ ys)
slice_parts m p xs ys h =
    append_parts (slice m p (length xs)) (slice m (p + length xs) (length ys)) xs ys
      (length-slice m p (length xs))
      (sym (slice-add m p (length xs) (length ys)) ∙ (rw (length-append xs ys) at h))

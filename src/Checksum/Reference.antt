-- ===== src/Checksum/Reference.antt =====
-- The checksum is Adler-32 of RFC 1950: the two sums are reduced after each run of 5552 bytes only,
-- and no sum wraps before that.
use native.Mathlib.Nat.{add_comm, mul-le-mul}
use juggernaut_server.Base.{
  ℕ, zero, suc, ◌+◌, ◌*◌, ◌%◌, ◌^◌, ◌≤◌, ◌<◌, ◌≡◌, refl, ap, ap₂, sym, ◌∙◌, List, [], ◌∷◌, ◌++◌,
  length, take, drop, Bytes, IsByte, arith, bit_or_fields, bit_or_comm, length-take, length-drop,
  take-append-drop, All-take, All-drop, le→ltb,
}
use juggernaut_server.Message.{max_size}
use juggernaut_server.Checksum.{adler, run, run_length, loop, adler_checksum}

-- Adler-32 byte by byte, each sum reduced at once.
pub reference : List ℕ → ℕ → ℕ → ℕ × ℕ
reference [] a b = (a, b)
reference (x ∷ d) a b = let a' = (a + x) % adler in reference d a' ((b + a') % adler)

-- The first sum below, the second above.
pub adler32 : List ℕ → ℕ
adler32 d = let (a, b) = reference d 1 0 in b * 65536 + a

-- The sums of a run without a bound.
sums : List ℕ → ℕ → ℕ → ℕ × ℕ
sums [] a b = (a, b)
sums (x ∷ d) a b = sums d (a + x) (b + (a + x))

triangle : ℕ → ℕ
triangle zero = 0
triangle (suc n) = suc n + triangle n

triangle_twice : (n : ℕ) → 2 * triangle n ≡ n * (n + 1)
unfolding triangle
triangle_twice zero = refl
triangle_twice (suc n) = omega (arith, triangle_twice n)

-- While the largest sums stay below 2 ^ 32 a run does not wrap.
run-eq-sums :
    (d : List ℕ) (a b : ℕ)
    → Bytes d
    → a + 255 * length d < 2 ^ 32
    → b + length d * a + 255 * triangle (length d) < 2 ^ 32
    → run d a b ≡ sums d a b
unfolding run sums triangle
run-eq-sums [] a b h ha hb = refl
run-eq-sums (x ∷ d) a b h ha hb =
    let small : x ≤ 255 = omega arith in
    let scaled : length d * x ≤ length d * 255 = mul-le-mul {n₁ = length d} (omega arith) small in
    let e₁ : (a + x) % 2 ^ 32 ≡ a + x = omega arith in
    let e₂ : (b + (a + x)) % 2 ^ 32 ≡ b + (a + x) = omega arith in
    rw (e₁, e₂) (run-eq-sums d (a + x) (b + (a + x)) h.1 (omega arith) (omega arith))

-- Reducing at the end is reducing at each byte.
sums-mod :
    (d : List ℕ) (a b : ℕ)
    → ((sums d a b).0 % adler, (sums d a b).1 % adler) ≡ reference d (a % adler) (b % adler)
unfolding sums reference
sums-mod [] a b = refl
sums-mod (x ∷ d) a b =
    let e₁ : (a % adler + x) % adler ≡ (a + x) % adler = omega arith in
    let e₂ : (b % adler + (a + x) % adler) % adler ≡ (b + (a + x)) % adler = omega arith in
    rw (e₁, e₂) (sums-mod d (a + x) (b + (a + x)))

reference-append :
    (xs ys : List ℕ) (a b : ℕ)
    → reference (xs ++ ys) a b ≡ reference ys (reference xs a b).0 (reference xs a b).1
unfolding reference
reference-append [] ys a b = refl
reference-append (x ∷ xs) ys a b =
    reference-append xs ys ((a + x) % adler) ((b + (a + x) % adler) % adler)

-- A run of at most 5552 bytes, from reduced sums.
run_reduced :
    (d : List ℕ) (a b : ℕ)
    → Bytes d
    → length d ≤ 5552
    → a < adler
    → b < adler
    → ((run d a b).0 % adler, (run d a b).1 % adler) ≡ reference d a b
run_reduced d a b h short ha hb =
    rw (run-eq-sums d a b h (omega arith) second)
      (sums-mod d a b ∙ ap₂ (reference d) (omega arith) (omega arith))
  where
    most : length d * a ≤ 5552 * 65520
    most = mul-le-mul {m₂ = 65520} short (omega arith)

    square : length d * (length d + 1) ≤ 5552 * 5553
    square = mul-le-mul {m₂ = 5553} short (omega arith)

    second : b + length d * a + 255 * triangle (length d) < 2 ^ 32
    second = omega (arith, most, square, triangle_twice (length d))

reference-lt :
    (d : List ℕ) (a b : ℕ)
    → a < adler
    → b < adler
    → ((reference d a b).0 < adler) × ((reference d a b).1 < adler)
unfolding reference
reference-lt [] a b ha hb = (ha, hb)
reference-lt (x ∷ d) a b ha hb =
    reference-lt d ((a + x) % adler) ((b + (a + x) % adler) % adler) (omega arith) (omega arith)

run_length_bounds :
    (n : ℕ) → (run_length (suc n) ≤ 5552) × (run_length (suc n) ≤ suc n) × (1 ≤ run_length (suc n))
unfolding run_length
run_length_bounds n = ground arith

loop-eq-reference :
    (fuel : ℕ) (d : List ℕ) (a b : ℕ)
    → length d ≤ fuel
    → Bytes d
    → a < adler
    → b < adler
    → loop fuel d a b ≡ reference d a b
unfolding loop
loop-eq-reference zero [] a b enough h ha hb = unfold reference in refl
loop-eq-reference zero (x ∷ d) a b enough h ha hb = absurd (omega arith)
loop-eq-reference (suc fuel) [] a b enough h ha hb = unfold reference in refl
loop-eq-reference (suc fuel) (x ∷ d) a b enough h ha hb =
    let whole : List ℕ = x ∷ d in
    let tmp = run_length (length whole) in
    let bounds = run_length_bounds (length d) in
    let first =
      run_reduced (take tmp whole) a b (All-take IsByte tmp whole h)
        (omega (arith, length-take tmp whole, bounds)) ha hb in
    let small = reference-lt (take tmp whole) a b ha hb in
    rw (ap (λ (p : ℕ × ℕ). p.0) first, ap (λ (p : ℕ × ℕ). p.1) first)
      (loop-eq-reference fuel (drop tmp whole) (reference (take tmp whole) a b).0
          (reference (take tmp whole) a b).1 (omega (arith, length-drop tmp whole, bounds))
          (All-drop IsByte tmp whole h) small.0 small.1
        ∙ sym (reference-append (take tmp whole) (drop tmp whole) a b)
        ∙ ap (λ (t : List ℕ). reference t a b) (take-append-drop tmp whole))

-- For bytes no longer than the largest packet, 24590, `adlerChecksum`, which reduces its sums once
-- in 5552 bytes, is Adler-32, and its 32-bit sums do not overflow. For longer data the code
-- returns 0.
pub adler_checksum-eq-adler32 :
    (d : List ℕ) → Bytes d → length d ≤ max_size → adler_checksum d ≡ adler32 d
unfolding adler_checksum adler32
adler_checksum-eq-adler32 d h fits =
    let small = reference-lt d 1 0 (omega arith) (omega arith) in
    let halves = reference d 1 0 in
    let high : halves.1 * 2 ^ 16 % 2 ^ 32 ≡ halves.1 * 2 ^ 16 = omega (arith, small.1) in
    rw
      (
        loop-eq-reference (length d) d 1 0 (omega arith) h (omega arith) (omega arith),
        le→ltb max_size (length d) fits,
        high,
        bit_or_comm (halves.1 * 2 ^ 16) halves.0,
        bit_or_fields 16 halves.0 halves.1 (omega (arith, small.0)),
      )
      (add_comm halves.0 (halves.1 * 65536))

pub adler32-lt : (d : List ℕ) → adler32 d < 2 ^ 32
unfolding adler32
adler32-lt d = omega (arith, reference-lt d 1 0 (omega arith) (omega arith))

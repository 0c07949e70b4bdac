-- ===== src/Base/Texts.antt =====
-- Texts as the lists of their codes, the comparison of two texts, and decimal numbers.
use Prim.Native.Char.{code}
use Prim.Native.String.{String}
use Prim.Native.Nat.{ℕ, zero, suc, ◌+◌, ◌/◌, ◌%◌, ◌≤◌, ◌<◌}
use mathlib.Core.Path.{◌≡◌, refl}
use mathlib.Core.Logic.{◌↔◌}
use mathlib.Core.Bool.{Bool, true, false, ◌&&◌}
use mathlib.Core.List.{List, [], ◌∷◌, ◌++◌}
use native.Mathlib.Omega.{arith}
use juggernaut_server.Base.Tests.{◌==◌, ltb, lt→ltb, le→ltb, if◌then◌else◌}

-- `String` has its own `[]` and `∷`.
abbrev pub codes : String → List ℕ
codes String.[] = []
codes (String.◌∷◌ c s) = code c ∷ codes s

abbrev pub text_eq : List ℕ → List ℕ → Bool
text_eq [] [] = true
text_eq [] (y ∷ ys) = false
text_eq (x ∷ xs) [] = false
text_eq (x ∷ xs) (y ∷ ys) = x == y && text_eq xs ys

pub text_eq_refl : (xs : List ℕ) → text_eq xs xs ≡ true
text_eq_refl [] = refl
text_eq_refl (x ∷ xs) = ground (arith, text_eq_refl xs)

pub text_eq→eq : (xs ys : List ℕ) → text_eq xs ys ≡ true → xs ≡ ys
text_eq→eq [] [] h = refl
text_eq→eq [] (y ∷ ys) h = absurd (cc)
text_eq→eq (x ∷ xs) [] h = absurd (cc)
text_eq→eq (x ∷ xs) (y ∷ ys) h = ground (arith, text_eq→eq xs ys)

pub text_eq_iff : (xs ys : List ℕ) → (text_eq xs ys ≡ true) ↔ (xs ≡ ys)
text_eq_iff xs ys = (text_eq→eq xs ys, λ e. rw e (text_eq_refl ys))

-- The last `count` decimal digits at most, without leading zeros: `%u` with enough of them.
unfoldable pub decimal : ℕ → ℕ → List ℕ
decimal zero n = []
decimal (suc count) n =
    let rest = decimal count (n / 10) in (if ltb n 10 then [] else rest) ++ (48 + n % 10) ∷ []

pub decimal_none : (n : ℕ) → decimal zero n ≡ []
unfolding decimal
decimal_none n = refl

pub decimal_one : (count n : ℕ) → n < 10 → decimal (suc count) n ≡ (48 + n % 10) ∷ []
unfolding decimal
decimal_one count n h = rw (lt→ltb n 10 h) refl

pub decimal_more :
    (count n : ℕ) → 10 ≤ n → decimal (suc count) n ≡ decimal count (n / 10) ++ (48 + n % 10) ∷ []
unfolding decimal
decimal_more count n h = rw (le→ltb n 10 h) refl

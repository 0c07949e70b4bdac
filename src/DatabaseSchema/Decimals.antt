-- ===== src/DatabaseSchema/Decimals.antt =====
-- Decimal numbers of source/databasemanager.cpp, and how to read them.
use juggernaut_server.Base.{
  ℕ, zero, suc, ◌+◌, ◌-◌, ◌*◌, ◌%◌, ◌/◌, ◌≤◌, ◌<◌, ◌≡◌, refl, ap, ◌∙◌, [], ◌∷◌, ◌++◌, Option, some,
  decimal, decimal_one, decimal_more, All, All-append, arith, ltb, ◌==◌, Bool, true, false,
  if◌then◌else◌, Bool-cases, inl, inr, ltb→lt, ltb→le, ◌≢◌,
}
use juggernaut_server.Database.{Text}
use juggernaut_server.DatabaseSchema.{ℤ, pos, negsuc, show_number, IsInt32}

unfoldable digits_value : ℕ → Text → ℕ
digits_value value [] = value
digits_value value (c ∷ s) = digits_value (value * 10 + (c - 48)) s

digits_value-append :
    (value c : ℕ) (s : Text)
    → digits_value value (s ++ c ∷ []) ≡ digits_value value s * 10 + (c - 48)
unfolding digits_value
digits_value-append value c [] = refl
digits_value-append value c (x ∷ s) = digits_value-append (value * 10 + (x - 48)) c s

abbrev limit : ℕ → ℕ
limit zero = 1
limit (suc count) = 10 * limit count

digits_value-decimal : (count n : ℕ) → n < limit count → digits_value 0 (decimal count n) ≡ n
unfolding digits_value decimal
digits_value-decimal zero n h = omega (arith, h)
digits_value-decimal (suc count) n h = elim (Bool-cases (ltb n 10)) [
  | inl small ↦
      ap (digits_value 0) (decimal_one count n (ltb→lt n 10 small))
      ∙ omega (arith, ltb→lt n 10 small)
  | inr big ↦
      ap (digits_value 0) (decimal_more count n (ltb→le n 10 big))
      ∙ digits_value-append 0 (48 + n % 10) (decimal count (n / 10))
      ∙ ap (λ m. m * 10 + (48 + n % 10 - 48))
          (digits_value-decimal count (n / 10) (omega (arith, h)))
      ∙ omega arith
]

-- A reader of the numbers that are shown.
abbrev negated : ℕ → ℤ
negated zero = pos 0
negated (suc n) = negsuc n

unfoldable pub lexical_cast : Text → Option ℤ
unfolding digits_value
lexical_cast [] = some (pos 0)
lexical_cast (c ∷ s) =
    if c == b'-' then some (negated (digits_value 0 s)) else some (pos (digits_value 0 (c ∷ s)))

decimal-digits : (count n : ℕ) → All (λ c. 48 ≤ c) (decimal count n)
unfolding decimal
decimal-digits zero n = tt
decimal-digits (suc count) n =
    All-append (λ c. 48 ≤ c) (if ltb n 10 then [] else decimal count (n / 10)) _
      (higher (ltb n 10) (decimal-digits count (n / 10))) (omega arith, tt)
  where
    higher :
        (b : Bool)
        → All (λ c. 48 ≤ c) (decimal count (n / 10))
        → All (λ c. 48 ≤ c) (if b then [] else decimal count (n / 10))
    higher true h = tt
    higher false h = h

digits-avoid : (x : ℕ) (s : Text) → x < 45 → All (λ c. 48 ≤ c) s → All (λ c. c ≢ x) s
digits-avoid x [] h all = tt
digits-avoid x (c ∷ s) h (digit, all) = ((λ e. omega (arith, h, digit, e)), digits-avoid x s h all)

-- A shown number has no character below the minus sign.
pub show_number-avoids : (x : ℕ) (v : ℤ) → x < 45 → All (λ c. c ≢ x) (show_number v)
unfolding show_number
show_number-avoids x (pos n) h = digits-avoid x (decimal 10 n) h (decimal-digits 10 n)
show_number-avoids x (negsuc n) h =
    ((λ e. omega (arith, h, e)), digits-avoid x (decimal 10 (suc n)) h (decimal-digits 10 (suc n)))

lexical_cast-digits :
    (s : Text) → All (λ c. 48 ≤ c) s → lexical_cast s ≡ some (pos (digits_value 0 s))
unfolding lexical_cast digits_value
lexical_cast-digits [] all = refl
lexical_cast-digits (c ∷ s) (digit, all) = ground (arith, digit)

pub lexical_cast-show_number : (v : ℤ) → IsInt32 v → lexical_cast (show_number v) ≡ some v
unfolding lexical_cast show_number
lexical_cast-show_number (pos n) h =
    lexical_cast-digits (decimal 10 n) (decimal-digits 10 n)
    ∙ ap (λ m. some (pos m)) (digits_value-decimal 10 n (omega (arith, h)))
lexical_cast-show_number (negsuc n) h =
    ap (λ m. some (negated m)) (digits_value-decimal 10 (suc n) (omega (arith, h)))

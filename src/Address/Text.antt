-- ===== src/Address/Text.antt =====
-- The text of an address, against its four octets.
use native.Mathlib.Nat.{pow-succ'}
use juggernaut_server.Base.{
  ℕ, zero, suc, ◌+◌, ◌-◌, ◌*◌, ◌/◌, ◌%◌, ◌^◌, ◌≤◌, ◌<◌, ◌≡◌, refl, ap, ap₂, sym, ◌∙◌, List, [], ◌∷◌,
  ◌++◌, length, bit_and, shr, false, decimal, decimal_none, decimal_one, decimal_more, append-nil,
  bit_and_mask, length-append, append_assoc, inl, inr, Bool-cases, ltb, ltb→lt, ltb→le, ◌==◌,
  if◌then◌else◌, arith,
}
use juggernaut_server.Address.{dot, convert_ip_to_string}

-- A reader of numbers between dots, with the value of the digits so far.
pub read_octets : ℕ → List ℕ → List ℕ
read_octets value [] = value ∷ []
read_octets value (c ∷ cs) =
    if c == b'.' then value ∷ read_octets 0 cs else read_octets (value * 10 + (c - 48)) cs

-- One digit, and the digits before the last.
decimal_short :
    (count n k : ℕ) → length (decimal count (n / 10)) ≤ k → length (decimal (suc count) n) ≤ suc k
decimal_short count n k h = elim (Bool-cases (ltb n 10)) [
  | inl one ↦ omega (arith, ap length (decimal_one count n (ltb→lt n 10 one)))
  | inr more ↦ omega (
    arith,
    h,
    ap length (decimal_more count n (ltb→le n 10 more)),
    length-append (decimal count (n / 10)) ((48 + n % 10) ∷ []),
  )
]

length-decimal : (n : ℕ) → n < 256 → length (decimal 10 n) ≤ 3
length-decimal n h = decimal_short 9 n 2 (
    decimal_short 8 (n / 10) 1
      (omega (arith, ap length (decimal_one 7 (n / 10 / 10) (omega arith)))))

digit-ne-dot : (n : ℕ) → (48 + n % 10 == b'.') ≡ false
digit-ne-dot n = ground arith

read_octets-digit :
    (value n : ℕ) (rest : List ℕ)
    → read_octets value ((48 + n % 10) ∷ rest) ≡ read_octets (value * 10 + n % 10) rest
unfolding read_octets
read_octets-digit value n rest =
    rw (digit-ne-dot n) (ap (λ k. read_octets (value * 10 + k) rest) (omega arith))

read_octets-decimal :
    (count n : ℕ) (rest : List ℕ)
    → n < 10 ^ count
    → read_octets 0 (decimal count n ++ rest) ≡ read_octets n rest
read_octets-decimal zero n rest h =
    ap (λ ds. read_octets 0 (ds ++ rest)) (decimal_none n)
    ∙ ap (λ k. read_octets k rest) (omega arith)
read_octets-decimal (suc count) n rest h = elim (Bool-cases (ltb n 10)) [
  | inl one ↦
      ap (λ ds. read_octets 0 (ds ++ rest)) (decimal_one count n (ltb→lt n 10 one))
      ∙ read_octets-digit 0 n rest
      ∙ ap (λ k. read_octets k rest) (omega (arith, ltb→lt n 10 one))
  | inr more ↦
      ap (λ ds. read_octets 0 (ds ++ rest)) (decimal_more count n (ltb→le n 10 more))
      ∙ ap (read_octets 0) (append_assoc (decimal count (n / 10)) ((48 + n % 10) ∷ []) rest)
      ∙ read_octets-decimal count (n / 10) ((48 + n % 10) ∷ rest)
          (omega (arith, h, pow-succ' 10 count))
      ∙ read_octets-digit (n / 10) n rest
      ∙ ap (λ k. read_octets k rest) (omega arith)
]

read_octets-dot : (n : ℕ) (rest : List ℕ) → read_octets n (b'.' ∷ rest) ≡ n ∷ read_octets 0 rest
unfolding read_octets
read_octets-dot n rest = refl

read_octets-end : (n : ℕ) → n < 10 ^ 10 → read_octets 0 (decimal 10 n) ≡ n ∷ []
unfolding read_octets
read_octets-end n h =
    ap (read_octets 0) (sym (append-nil (decimal 10 n))) ∙ read_octets-decimal 10 n [] h

abbrev dotted : ℕ → ℕ → ℕ → ℕ → List ℕ
dotted a b c d =
    decimal 10 a ++ (dot ++ (decimal 10 b ++ (dot ++ (decimal 10 c ++ (dot ++ decimal 10 d)))))

module _ (a b c d : ℕ) (ha : a < 256) (hb : b < 256) (hc : c < 256) (hd : d < 256) where
  read_octets-dotted : read_octets 0 (dotted a b c d) ≡ a ∷ b ∷ c ∷ d ∷ []
  read_octets-dotted =
      let rest_c = decimal 10 c ++ (dot ++ decimal 10 d) in
      let rest_b = decimal 10 b ++ (dot ++ rest_c) in
      read_octets-decimal 10 a (dot ++ rest_b) (omega arith)
      ∙ read_octets-dot a rest_b
      ∙ ap (◌∷◌ a) (
          read_octets-decimal 10 b (dot ++ rest_c) (omega arith)
          ∙ read_octets-dot b rest_c
          ∙ ap (◌∷◌ b) (
              read_octets-decimal 10 c (dot ++ decimal 10 d) (omega arith)
              ∙ read_octets-dot c (decimal 10 d)
              ∙ ap (◌∷◌ c) (read_octets-end d (omega arith))))

  length-dotted : length (dotted a b c d) + 1 ≤ 17
  length-dotted =
      let rest_c = decimal 10 c ++ (dot ++ decimal 10 d) in
      let rest_b = decimal 10 b ++ (dot ++ rest_c) in
      omega (
        arith,
        length-append (decimal 10 a) (dot ++ rest_b),
        length-append (decimal 10 b) (dot ++ rest_c),
        length-append (decimal 10 c) (dot ++ decimal 10 d),
        length-decimal a ha,
        length-decimal b hb,
        length-decimal c hc,
        length-decimal d hd,
      )

abbrev pub octet : ℕ → ℕ → ℕ
octet ip k = ip / 2 ^ k % 256

ip-dotted :
    (ip : ℕ)
    → ip < 2 ^ 32
    → convert_ip_to_string ip ≡ dotted (octet ip 0) (octet ip 8) (octet ip 16) (octet ip 24)
unfolding convert_ip_to_string
ip-dotted ip h =
    let low : bit_and ip 0xFF ≡ octet ip 0 = bit_and_mask 8 ip ∙ omega arith in
    let high : shr ip 24 ≡ octet ip 24 = omega arith in
    ap₂ (λ a d. dotted a (bit_and (shr ip 8) 0xFF) (bit_and (shr ip 16) 0xFF) d) low high
    ∙ ap₂ (λ b c. dotted (octet ip 0) b c (octet ip 24)) (bit_and_mask 8 (shr ip 8))
        (bit_and_mask 8 (shr ip 16))

-- The text of an address of 32 bits has its four octets, from the lowest to the highest, and with the
-- terminating zero it fits the buffer of 17 characters.
pub convert_ip_to_string-octets :
    (ip : ℕ)
    → ip < 2 ^ 32
    → (read_octets 0 (convert_ip_to_string ip)
        ≡ octet ip 0 ∷ octet ip 8 ∷ octet ip 16 ∷ octet ip 24 ∷ [])
      × (length (convert_ip_to_string ip) + 1 ≤ 17)
convert_ip_to_string-octets ip h =
    let e = ip-dotted ip h in
    let read =
      read_octets-dotted (octet ip 0) (octet ip 8) (octet ip 16) (octet ip 24) (omega arith)
        (omega arith) (omega arith) (omega arith) in
    let short =
      length-dotted (octet ip 0) (octet ip 8) (octet ip 16) (octet ip 24) (omega arith)
        (omega arith) (omega arith) (omega arith) in
    (ap (read_octets 0) e ∙ read, omega (arith, ap length e, short))

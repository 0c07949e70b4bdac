-- ===== src/Login/Digest.antt =====
-- The text of a digest (`transformToSHA1` of source/tools.cpp), as a password that is stored.
use juggernaut_server.Base.{
  ℕ, zero, suc, ◌*◌, ◌≡◌, ◌≢◌, refl, List, length, length-append, All, All-append, arith,
}
use juggernaut_server.Sha1.{
  Registers, hex_digit, hex_string, transform_to_sha1, finish, feed_all, start,
}

hex_digit-ne-zero : (v : ℕ) → hex_digit v ≢ 0
unfolding hex_digit
hex_digit-ne-zero v h = ground arith

hex_string-clean : (n : ℕ) (h : Registers) → All (λ c. c ≢ 0) (hex_string n h)
unfolding hex_string
hex_string-clean zero h = tt
hex_string-clean (suc n) h =
    All-append (λ c. c ≢ 0) (hex_string n h) _ (hex_string-clean n h)
      (hex_digit-ne-zero _, (hex_digit-ne-zero _, tt))

length-hex_string : (n : ℕ) (h : Registers) → length (hex_string n h) ≡ n * 2
unfolding hex_string
length-hex_string zero h = refl
length-hex_string (suc n) h = omega (arith, length-append (hex_string n h) _, length-hex_string n h)

-- A digest has 40 characters, none of them zero.
pub length-transform_to_sha1 : (s : List ℕ) → length (transform_to_sha1 s) ≡ 40
unfolding transform_to_sha1
length-transform_to_sha1 s = length-hex_string 20 (finish (feed_all s start))

pub transform_to_sha1-clean : (s : List ℕ) → All (λ c. c ≢ 0) (transform_to_sha1 s)
unfolding transform_to_sha1
transform_to_sha1-clean s = hex_string-clean 20 (finish (feed_all s start))

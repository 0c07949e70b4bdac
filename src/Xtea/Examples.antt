-- ===== src/Xtea/Examples.antt =====
-- Tests of source/xtea.cpp on a published vector, and the theorems at concrete inputs.
use juggernaut_server.Base.{ℕ, ◌^◌, ◌≡◌, refl, List, [], ◌∷◌, ◌++◌, arith, true}
use juggernaut_server.Xtea.{
  Key, encrypt, decrypt, xtea, each_step, whole_steps, cipher, xtea_encrypt, encrypt_rounds,
  load_left, load_right, load_word, store_blocks, store_word, mix, key_at, low_index, high_index,
}
use juggernaut_server.Xtea.Steps.{whole_blocks, encrypt-whole_blocks}
use juggernaut_server.Xtea.RoundTrip.{decrypt-encrypt}

abbrev counting_key : Key
counting_key = record { k0 = 0x00010203; k1 = 0x04050607; k2 = 0x08090a0b; k3 = 0x0c0d0e0f }

-- "ABCDEFGH" as two words of the lowest byte first.
abbrev letters : List ℕ
letters = 0x44 ∷ 0x43 ∷ 0x42 ∷ 0x41 ∷ 0x48 ∷ 0x47 ∷ 0x46 ∷ 0x45 ∷ []

-- The published XTEA vector: 497df3d0 72612cb5.
encrypt-letters :
    encrypt 1 counting_key letters ≡ 0xd0 ∷ 0xf3 ∷ 0x7d ∷ 0x49 ∷ 0xb5 ∷ 0x2c ∷ 0x61 ∷ 0x72 ∷ []
unfolding encrypt xtea each_step whole_steps cipher xtea_encrypt encrypt_rounds load_left load_right
    load_word store_blocks store_word mix key_at low_index high_index
encrypt-letters = refl

-- Three blocks and a rest of three bytes.
abbrev long_text : List ℕ
long_text = letters ++ (letters ++ (letters ++ (1 ∷ 2 ∷ 3 ∷ [])))

decrypt-encrypt_example :
    decrypt (2 ^ 7) counting_key (encrypt (2 ^ 1) counting_key long_text) ≡ long_text
decrypt-encrypt_example =
    (decrypt-encrypt 1 7 counting_key long_text (omega arith) (omega arith) (omega arith)
      (omega arith)).1

encrypt-whole_blocks_example :
    encrypt (2 ^ 3) counting_key long_text ≡ whole_blocks true counting_key long_text
encrypt-whole_blocks_example =
    encrypt-whole_blocks 3 counting_key long_text (omega arith) (omega arith)

-- ===== src/Checksum/Examples.antt =====
-- Tests of `adlerChecksum`, and the theorem at a concrete input.
use juggernaut_server.Base.{ℕ, ◌≡◌, refl, List, [], ◌∷◌, arith}
use juggernaut_server.Checksum.{adler_checksum, loop, run, run_length}
use juggernaut_server.Checksum.Reference.{adler32, adler_checksum-eq-adler32}

-- "Wikipedia", whose Adler-32 is 0x11E60398.
abbrev wikipedia : List ℕ
wikipedia = b'W' ∷ b'i' ∷ b'k' ∷ b'i' ∷ b'p' ∷ b'e' ∷ b'd' ∷ b'i' ∷ b'a' ∷ []

adler_checksum-wikipedia : adler_checksum wikipedia ≡ 0x11E60398
unfolding adler_checksum loop run run_length
adler_checksum-wikipedia = refl

adler_checksum-eq-adler32_example : adler_checksum wikipedia ≡ adler32 wikipedia
adler_checksum-eq-adler32_example = adler_checksum-eq-adler32 wikipedia (omega arith) (omega arith)

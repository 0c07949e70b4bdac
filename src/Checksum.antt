-- ===== src/Checksum.antt =====
-- `adlerChecksum` of source/tools.cpp. The data and its length are the list of the bytes.
use juggernaut_server.Base.{
  ℕ, zero, suc, ◌*◌, ◌%◌, ◌^◌, bit_or, List, [], ◌∷◌, length, take, drop, add32, shl32, ltb, ◌==◌,
  if◌then◌else◌,
}
use juggernaut_server.Message.{max_size}
pub mod Reference
mod Examples

-- `const uint16_t adler`.
abbrev pub adler : ℕ
adler = 65521

-- `do { a += *data++; b += a; } while (--tmp)` over the bytes of one run, in 32 bits.
unfoldable pub run : List ℕ → ℕ → ℕ → ℕ × ℕ
run [] a b = (a, b)
run (x ∷ data') a b = run data' (add32 a x) (add32 b (add32 a x))

-- `length > 5552 ? 5552 : length`.
unfoldable pub run_length : ℕ → ℕ
run_length n = if ltb 5552 n then 5552 else n

-- `while (length > 0)`: every round takes a byte at least, so the length is enough fuel.
unfoldable pub loop : ℕ → List ℕ → ℕ → ℕ → ℕ × ℕ
loop zero d a b = (a, b)
loop (suc fuel) [] a b = (a, b)
loop (suc fuel) (x ∷ d) a b =
    let tmp = run_length (length (x ∷ d)) in
    let (a', b') = run (take tmp (x ∷ d)) a b in
    loop fuel (drop tmp (x ∷ d)) (a' % adler) (b' % adler)

unfoldable pub adler_checksum : List ℕ → ℕ
adler_checksum d =
    let (a, b) = loop (length d) d 1 0 in
    if ltb max_size (length d) then 0 else bit_or (shl32 b 16) a

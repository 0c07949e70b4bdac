-- ===== src/Streams.antt =====
-- `PropStream` and `PropWriteStream` of source/fileloader.h. A reader is the list of the bytes from
-- its pointer `p` to `end`, a writer the list of the bytes of its buffer. A read's result is the
-- value, or `none` for the answer false, and the reader as the call leaves it.
use juggernaut_server.Base.{
  ℕ, ◌-◌, ◌^◌, Bool, true, false, List, ◌++◌, Option, none, some, length, take, drop, ltb, le_bytes,
  le_value, if◌then◌else◌,
}
pub mod RoundTrip
mod Examples

abbrev pub PropStream : Type 0
PropStream = List ℕ

-- `read<T>` for an integer of `n` bytes.
unfoldable pub read : ℕ → PropStream → Option ℕ × PropStream
read n s = if ltb (length s) n then (none, s) else (some (le_value (take n s)), drop n s)

-- The part of `readString` behind its first test.
unfoldable pub read_chars : Option ℕ → PropStream → Option (List ℕ) × PropStream
read_chars none s = (none, s)
read_chars (some str_len) s =
    if ltb (length s) str_len then (none, s) else (some (take str_len s), drop str_len s)

unfoldable pub read_string : PropStream → Option (List ℕ) × PropStream
unfolding read read_chars
read_string s = let (str_len, s') = read 2 s in read_chars str_len s'

-- `skip`.
unfoldable pub skip : ℕ → PropStream → Bool × PropStream
skip n s = if ltb (length s) n then (false, s) else (true, drop n s)

abbrev pub PropWriteStream : Type 0
PropWriteStream = List ℕ

-- `write<T>` of an integer of `n` bytes, which each `operator>>` on a number calls.
unfoldable pub write_number : ℕ → ℕ → PropWriteStream → PropWriteStream
write_number n v buffer = buffer ++ le_bytes n v

-- `operator>>` on a `String(str)`, and on a `std::string`.
unfoldable pub write_raw : List ℕ → PropWriteStream → PropWriteStream
write_raw str buffer = buffer ++ str

unfoldable pub write_string : List ℕ → PropWriteStream → PropWriteStream
unfolding write_number
write_string str buffer =
    if ltb (2 ^ 16 - 1) (length str)
    then write_number 2 0 buffer
    else write_number 2 (length str) buffer ++ str

-- `operator<<` of a writer: the reader starts at the writer's first byte.
unfoldable pub from_writer : PropWriteStream → PropStream
from_writer buffer = buffer

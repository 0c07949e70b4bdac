-- ===== src/Message.antt =====
-- source/networkmessage.h and source/networkmessage.cpp: the buffer that a packet is read from and
-- written to, and its cursor. The constants are those of source/const.h and of the class.
-- `uint8_t buffer[NETWORKMESSAGE_MAXSIZE]` is a `Memory`; it is not initialised by the constructor,
-- so a fresh message has any bytes. `none` is an access outside the array.
pub mod Writing
pub mod Reading
pub mod Items
pub mod Bounds
mod Examples
use juggernaut_server.Base.{
  ℕ, ◌+◌, ◌-◌, ◌^◌, bit_or, Bool, true, false, not, ◌||◌, List, [], Option, none, some, length,
  replicate, Memory, slice, write, le_bytes, le_value, u16, u32, u64, shl32, ltb, leb, ◌==◌,
  if◌then◌else◌, ◌>>=◌,
}

abbrev pub max_size : ℕ
max_size = 24590

abbrev pub initial_buffer_position : ℕ
initial_buffer_position = 8

abbrev pub header_length : ℕ
header_length = 2

abbrev pub checksum_length : ℕ
checksum_length = 4

abbrev pub xtea_multiple : ℕ
xtea_multiple = 8

-- `NETWORKMESSAGE_MAXSIZE - HEADER_LENGTH - CHECKSUM_LENGTH - XTEA_MULTIPLE`.
abbrev pub max_body_length : ℕ
max_body_length = 24576

-- `MAX_BODY_LENGTH - 10`.
abbrev pub max_protocol_body_length : ℕ
max_protocol_body_length = 24566

-- The members of `NetworkMessageInfo`, and the buffer. The library's `length` is renamed `len` here.
pub record NetworkMessage : Type 0 where
  pub len : ℕ
  pub position : ℕ
  pub overrun : Bool
  pub buffer : Memory

-- `NetworkMessage() = default`, over the bytes that the storage happens to hold.
unfoldable pub fresh : Memory → NetworkMessage
fresh m = record { len = 0; position = initial_buffer_position; overrun = false; buffer = m }

-- `reset`: `info = {}`.
unfoldable pub reset : NetworkMessage → NetworkMessage
reset m = record m { len = 0; position = initial_buffer_position; overrun = false }

-- `memcpy` into and out of the array.
abbrev pub copy_in : Memory → ℕ → List ℕ → Option Memory
copy_in b p bs = if leb (p + length bs) max_size then some (write b p bs) else none

abbrev pub copy_out : Memory → ℕ → ℕ → Option (List ℕ)
copy_out b p n = if leb (p + n) max_size then some (slice b p n) else none

-- `(size + info.position) < MAX_BODY_LENGTH`, in `size_t`.
unfoldable pub can_add : NetworkMessage → ℕ → Bool
can_add m size = ltb (u64 (size + m.position)) max_body_length

-- The refusal of `canRead`. In `int` the right side of the second test may be negative, so the
-- position is moved to the left.
unfoldable pub over_end : NetworkMessage → ℕ → Bool
over_end m size = ltb (m.len + 8) (m.position + size) || leb max_size (size + m.position)

-- `canRead`: the answer, and the message with its overrun mark.
unfoldable pub can_read : NetworkMessage → ℕ → Bool × NetworkMessage
unfolding over_end
can_read m size = if over_end m size then (false, record m { overrun = true }) else (true, m)

-- The body of `getByte` and of `get<T>` for an integer of `n` bytes.
unfoldable pub get : ℕ → NetworkMessage → Option (ℕ × NetworkMessage)
unfolding can_read
get n m =
    let (fits, m') = can_read m n in
    if fits
    then (do
      bs ← copy_out m'.buffer m'.position n
      some (le_value bs, record m' { position = u16 (m'.position + n) }))
    else some (0, m')

unfoldable pub get_byte : NetworkMessage → Option (ℕ × NetworkMessage)
unfolding get
get_byte m = get 1 m

-- `buffer[--info.position]`: the position is a uint16_t, and wraps below zero.
unfoldable pub get_previous_byte : NetworkMessage → Option (ℕ × NetworkMessage)
get_previous_byte m =
    let p = u16 (m.position + 2 ^ 16 - 1) in
    if ltb p max_size then some (m.buffer p, record m { position = p }) else none

-- The part of `getString` behind the choice of the length.
unfoldable pub get_chars : ℕ → NetworkMessage → Option (List ℕ × NetworkMessage)
unfolding can_read
get_chars n m =
    let (fits, m') = can_read m n in
    if fits
    then (do
      bs ← copy_out m'.buffer m'.position n
      some (bs, record m' { position = u16 (m'.position + n) }))
    else some ([], m')

-- `getString(stringLen)`: a zero length is read from the message.
unfoldable pub get_string : ℕ → NetworkMessage → Option (List ℕ × NetworkMessage)
unfolding get get_chars
get_string string_len m =
    if string_len == 0 then (do (n, m') ← get 2 m; get_chars n m') else get_chars string_len m

-- `skipBytes(count)`: the `int16_t` count is its 16-bit pattern, so that -4 is 65532.
unfoldable pub skip_bytes : ℕ → NetworkMessage → NetworkMessage
skip_bytes count m = record m { position = u16 (m.position + count) }

-- Copy bytes to the position, and move the position and the length behind them.
unfoldable pub put : List ℕ → NetworkMessage → Option NetworkMessage
put bs m = do
  b ← copy_in m.buffer m.position bs
  some (record m {
    buffer = b;
    position = u16 (m.position + length bs);
    len = u16 (m.len + length bs);
  })

-- `addByte` and `add<T>` for an integer of `n` bytes.
unfoldable pub add : ℕ → ℕ → NetworkMessage → Option NetworkMessage
unfolding can_add put
add n v m = if can_add m n then put (le_bytes n v) m else some m

unfoldable pub add_byte : ℕ → NetworkMessage → Option NetworkMessage
unfolding add
add_byte v m = add 1 v m

-- `addBytes`.
unfoldable pub add_bytes : List ℕ → NetworkMessage → Option NetworkMessage
unfolding can_add put
add_bytes bs m = if not (can_add m (length bs)) || ltb 8192 (length bs) then some m else put bs m

-- `addString`: nothing is written unless the text and its length fit.
unfoldable pub add_string : List ℕ → NetworkMessage → Option NetworkMessage
unfolding add put can_add
add_string s m =
    if not (can_add m (length s + 2)) || ltb 8192 (length s)
    then some m
    else (do m' ← add 2 (length s) m; put s m')

-- `addPaddingBytes`: the length grows, and the position stays.
unfoldable pub add_padding_bytes : ℕ → NetworkMessage → Option NetworkMessage
unfolding can_add
add_padding_bytes n m =
    if can_add m n
    then (do
      b ← copy_in m.buffer m.position (replicate n 0x33)
      some (record m { buffer = b; len = u16 (m.len + n) }))
    else some m

-- `setLength`.
unfoldable pub set_length : ℕ → NetworkMessage → NetworkMessage
set_length n m = record m { len = u16 n }

-- `buffer[0] | buffer[1] << 8`, as a uint16_t.
unfoldable pub length_header : NetworkMessage → ℕ
length_header m = u16 (bit_or (m.buffer 0) (shl32 (m.buffer 1) 8))

-- `getBodyBuffer`: the position is set, and the body begins behind the header.
unfoldable pub body_buffer : NetworkMessage → NetworkMessage
body_buffer m = record m { position = 2 }

-- `addDouble`. `scaled value precision` stands for the floating-point conversion
-- `static_cast<uint32_t>(value * pow(10, precision) + numeric_limits<int32_t>::max())`.
module _ {Double : Type 0} (scaled : Double → ℕ → ℕ) where
  unfoldable pub add_double : Double → ℕ → NetworkMessage → Option NetworkMessage
  unfolding add_byte
  add_double value precision m = do
    m' ← add_byte precision m
    add 4 (u32 (scaled value precision)) m'

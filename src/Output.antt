-- ===== src/Output.antt =====
-- source/outputmessage.h: a message with room for its headers in front of the body.
pub mod Headers
use juggernaut_server.Base.{
  ℕ, ◌+◌, ◌-◌, Bool, Option, none, some, Memory, le_bytes, u16, leb, if◌then◌else◌, ◌>>=◌,
}
use juggernaut_server.Message.{NetworkMessage, fresh, initial_buffer_position, copy_in, copy_out}
use juggernaut_server.Checksum.{adler_checksum}

-- A `NetworkMessage` and `outputBufferStart`.
pub record OutputMessage : Type 0 where
  pub message : NetworkMessage
  pub open message use *
  pub start : ℕ

-- `OutputMessagePool::getOutputMessage`: a new message in some storage of the pool.
unfoldable pub get_output_message : Memory → OutputMessage
get_output_message storage = record { message = fresh storage; start = initial_buffer_position }

-- `add_header<T>` for an integer of `n` bytes. `none` is the failed assertion.
unfoldable pub add_header : ℕ → ℕ → OutputMessage → Option OutputMessage
add_header n v o =
    if leb n o.start
    then (do
      b ← copy_in o.buffer (o.start - n) (le_bytes n v)
      some (record {
        message = record (o.message) { buffer = b; len = u16 (o.len + n) };
        start = o.start - n;
      }))
    else none

unfoldable pub write_message_length : OutputMessage → Option OutputMessage
write_message_length o = add_header 2 o.len o

-- The first half of `addCryptoHeader`.
unfoldable pub add_checksum_header : OutputMessage → Option OutputMessage
add_checksum_header o = do bs ← copy_out o.buffer o.start o.len; add_header 4 (adler_checksum bs) o

unfoldable pub add_crypto_header : Bool → OutputMessage → Option OutputMessage
unfolding add_checksum_header write_message_length
add_crypto_header add_checksum o = do
  o' ← if add_checksum then add_checksum_header o else some o
  write_message_length o'

-- `append`: there is no test that the appended bytes fit.
unfoldable pub append : NetworkMessage → OutputMessage → Option OutputMessage
append m o = do
  bs ← copy_out m.buffer 8 m.len
  b ← copy_in o.buffer o.position bs
  some (record o {
    message = record (o.message) {
      buffer = b;
      len = u16 (o.len + m.len);
      position = u16 (o.position + m.len);
    };
  })

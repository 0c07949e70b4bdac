-- ===== src/Protocol.antt =====
-- source/protocol.h and source/protocol.cpp: what a protocol does to a message that is sent or
-- received. `initial` is the block size that the cipher is compiled for (see Xtea).
pub mod Frames
mod Examples
use juggernaut_server.Base.{
  ℕ, ◌+◌, ◌-◌, ◌%◌, ◌^◌, Bool, true, false, not, bit_and, List, [], ◌∷◌, Option, none, some, Memory,
  u64, ltb, ◌==◌, if◌then◌else◌, ◌>>=◌,
}
use juggernaut_server.Message.{
  NetworkMessage, max_protocol_body_length, copy_in, copy_out, get, get_byte, set_length,
  add_padding_bytes,
}
use juggernaut_server.Output.{
  OutputMessage, get_output_message, write_message_length, add_crypto_header,
}
use juggernaut_server.Xtea.{Key, encrypt, decrypt}

-- The fields that the message path reads, and the buffer for autosend messages.
pub record Protocol : Type 0 where
  pub key : Key
  pub encryption_enabled : Bool
  pub checksum_enabled : Bool
  pub raw_messages : Bool
  pub output_buffer : Option OutputMessage

-- `Protocol::XTEA_encrypt`: pad to a multiple of eight, and encipher from the output's start.
unfoldable pub xtea_encrypt : ℕ → Key → OutputMessage → Option OutputMessage
xtea_encrypt initial key o = do
  m ← if o.len % 8 == 0 then some (o.message) else add_padding_bytes (8 - o.len % 8) (o.message)
  bs ← copy_out m.buffer o.start m.len
  b ← copy_in m.buffer o.start (encrypt initial key bs)
  some (record o { message = record m { buffer = b } })

-- The encrypted branch of `onSendMessage`.
unfoldable pub encipher : ℕ → Protocol → OutputMessage → Option OutputMessage
unfolding xtea_encrypt
encipher initial p o = do o' ← xtea_encrypt initial p.key o; add_crypto_header p.checksum_enabled o'

unfoldable pub on_send_message : ℕ → Protocol → OutputMessage → Option OutputMessage
unfolding encipher
on_send_message initial p o = if p.raw_messages then some o else (do
  o' ← write_message_length o
  (if p.encryption_enabled then encipher initial p o' else some o'))

-- `Protocol::XTEA_decrypt`. `getLength() - 6` is an `int`: 2 ^ 32 is added for its low bits, and
-- 2 ^ 64 for its conversion to `size_t`.
unfoldable pub xtea_decrypt : ℕ → Key → NetworkMessage → Option (Bool × NetworkMessage)
xtea_decrypt initial key m =
    if not (bit_and (m.len + 2 ^ 32 - 6) 7 == 0) then some (false, m) else (do
      bs ← copy_out m.buffer m.position (u64 (m.len + 2 ^ 64 - 6))
      b ← copy_in m.buffer m.position (decrypt initial key bs)
      (inner_length, m') ← get 2 (record m { buffer = b })
      some (
          if ltb m'.len (inner_length + 8)
          then (false, m')
          else (true, set_length inner_length m')))

-- `onRecvMessage`: whether `parsePacket` is called, and the message that it is called with.
unfoldable pub on_recv_message : ℕ → Protocol → NetworkMessage → Option (Bool × NetworkMessage)
unfolding xtea_decrypt
on_recv_message initial p m =
    if p.encryption_enabled then xtea_decrypt initial p.key m else some (true, m)

-- `getOutputBuffer(size)` for a size that is not negative: the messages that it sends, and the
-- protocol with the message that it returns as its buffer. `storage` is that of a new message.
unfoldable pub get_output_buffer : Memory → ℕ → Protocol → List OutputMessage × Protocol
get_output_buffer storage size p = elim p.output_buffer [
  | none ↦ ([], record p { output_buffer = some (get_output_message storage) })
  | some o ↦
      if ltb max_protocol_body_length (o.len + size)
      then (o ∷ [], record p { output_buffer = some (get_output_message storage) })
      else ([], p)
]

-- `RSA_decrypt`, where `rsa` is the decryption of 128 bytes by `g_RSA`.
module _ (rsa : List ℕ → List ℕ) where
  unfoldable pub rsa_decrypt : NetworkMessage → Option (Bool × NetworkMessage)
  rsa_decrypt m = if not (m.len == m.position + 128) then some (false, m) else (do
    bs ← copy_out m.buffer m.position 128
    b ← copy_in m.buffer m.position (rsa bs)
    (first, m') ← get_byte (record m { buffer = b })
    some (first == 0, m'))

-- The setters.
unfoldable pub enable_xtea_encryption : Protocol → Protocol
enable_xtea_encryption p = record p { encryption_enabled = true }

unfoldable pub set_xtea_key : Key → Protocol → Protocol
set_xtea_key key p = record p { key = key }

unfoldable pub disable_checksum : Protocol → Protocol
disable_checksum p = record p { checksum_enabled = false }

unfoldable pub set_raw_messages : Bool → Protocol → Protocol
set_raw_messages value p = record p { raw_messages = value }

-- ===== src/Connection/Receive.antt =====
-- `Connection::parseHeader` and `Connection::parsePacket`.
use juggernaut_server.Base.{
  ℕ, ◌+◌, ◌-◌, ◌/◌, ◌^◌, max, Bool, true, false, ◌||◌, [], ◌∷◌, Option, none, some, u32, ltb, leb,
  ◌==◌, if◌then◌else◌, ◌>>=◌,
}
use juggernaut_server.Message.{
  NetworkMessage, copy_out, get, skip_bytes, set_length, length_header, body_buffer,
}
use juggernaut_server.Checksum.{adler_checksum}
use juggernaut_server.Protocol.{Protocol, on_recv_message}
use juggernaut_server.Connection.{
  Connection, cancel_read_timer, wait_read_timer, async_read_header, async_read_body, Throws,
  nowhere, at_timer, at_socket, Effect, is_open, after, close, try_io,
}

-- `max<uint32_t>(1, (time(nullptr) - m_timeConnected) + 1)`; the difference may be negative.
unfoldable pub time_passed : ℕ → Connection → ℕ
time_passed now c = max 1 (u32 (now + 2 ^ 32 - u32 c.time_connected + 1))

-- A packet is counted, and after more than two seconds the count begins again.
unfoldable pub count_packet : Connection → Connection
count_packet c = record c { packets_sent = u32 (c.packets_sent + 1) }

unfoldable pub over_rate : ℕ → ℕ → Connection → Bool
unfolding time_passed count_packet
over_rate limit now c = ltb limit ((count_packet c).packets_sent / time_passed now c)

unfoldable pub restart_count : ℕ → Connection → Connection
unfolding time_passed count_packet
restart_count now c =
    if ltb 2 (time_passed now c)
    then record c { time_connected = now; packets_sent = 0 }
    else count_packet c

-- `size == 0 || size >= NETWORKMESSAGE_MAXSIZE - 16`.
unfoldable pub bad_size : ℕ → Bool
bad_size size = size == 0 || leb 24574 size

-- The message is made ready for `size` bytes behind the header.
unfoldable pub begin_body : ℕ → NetworkMessage → NetworkMessage
unfolding set_length body_buffer
begin_body size m = body_buffer (set_length (size + 2) m)

-- The last `try` block of `parseHeader`.
unfoldable pub read_body : Throws → ℕ → Connection → Effect
unfolding try_io begin_body
read_body nowhere size c =
    try_io wait_read_timer (async_read_body size) nowhere
      (record c { message = begin_body size c.message })
read_body at_timer size c = try_io wait_read_timer (async_read_body size) at_timer c
read_body at_socket size c =
    try_io wait_read_timer (async_read_body size) at_socket
      (record c { message = begin_body size c.message })

unfoldable pub header_of_open : ℕ → ℕ → Throws → Connection → Effect
unfolding over_rate restart_count bad_size read_body close
header_of_open limit now throws c =
    let c' = restart_count now c in
    let size = length_header c.message in
    if over_rate limit now c
    then close false (count_packet c)
    else if bad_size size
    then close true c'
    else read_body throws size c'

-- `limit` is `maxPacketsPerSecond`, `now` the time in seconds.
unfoldable pub parse_header : ℕ → ℕ → Throws → Bool → Connection → Effect
unfolding header_of_open
parse_header limit now throws error c = after (cancel_read_timer ∷ []) (
    if error
    then close true c
    else if is_open c
    then header_of_open limit now throws c
    else ([], c))

-- The checksum of the packet in `parsePacket`: the bytes behind the place of a checksum, if any.
unfoldable pub packet_checksum : NetworkMessage → Option ℕ
packet_checksum m =
    if ltb (m.position + 4) m.len
    then (do
      bs ← copy_out m.buffer (m.position + 4) (m.len - (m.position + 4))
      some (adler_checksum bs))
    else some 0

-- Whether the received checksum is that one; if not, the position goes back four bytes.
unfoldable pub check_packet : NetworkMessage → Option (Bool × NetworkMessage)
unfolding packet_checksum
check_packet m = do
  checksum ← packet_checksum m
  (received, m') ← get 4 m
  some (if received == checksum then (true, m') else (false, skip_bytes 65532 m'))

-- What the connection asks of others: `make_protocol` of its service port, with the message after
-- it, and `onRecvFirstMessage`, which may close the connection; both are given by their effects.
pub record Handlers : Type 0 where
  pub make_protocol : Bool → NetworkMessage → Option (Option Protocol × NetworkMessage)
  pub on_recv_first_message : Protocol → Connection → Option Effect
  pub parse_packet : Protocol → Connection → Option Effect

-- Effects one behind the other.
abbrev pub then_do : Effect → (Connection → Option Effect) → Option Effect
then_do (calls, c) f = f c >>= λ e. some (after calls e)

module _ (h : Handlers) (initial : ℕ) where
  unfoldable pub first_message : Protocol → NetworkMessage → Connection → Option Effect
  first_message p m c =
      Handlers.on_recv_first_message h p (record c { message = m; protocol = some p })

  -- The first message, with the protocol that `make_protocol` returned. The answer is false for the
  -- early return.
  unfoldable pub receive_made :
      Option Protocol → NetworkMessage → Connection → Option (Bool × Effect)
  unfolding first_message close
  receive_made none m c = some (false, close true (record c { message = m }))
  receive_made (some p) m c = do e ← first_message p m c; some (true, e)

  -- The first message of a connection, with the protocol that it has or is given; the protocol's
  -- identifier is skipped if it has one.
  unfoldable pub receive_first : Bool → NetworkMessage → Connection → Option (Bool × Effect)
  unfolding receive_made first_message
  receive_first same m c =
      let c' : Connection = record c { received_first = true } in
      elim c.protocol [
        | none ↦ (do (made, m') ← Handlers.make_protocol h same m; receive_made made m' c')
        | some p ↦ (do e ← first_message p (skip_bytes 1 m) c'; some (true, e))
      ]

  unfoldable pub receive_next : NetworkMessage → Connection → Option Effect
  receive_next m c = do
    p ← c.protocol
    (called, m') ← on_recv_message initial p m
    (if called
        then Handlers.parse_packet h p (record c { message = m' })
        else some ([], record c { message = m' }))

  -- The last `try` block of `parsePacket`.
  unfoldable pub read_next : Throws → Effect → Effect
  read_next throws (calls, c) = after calls (try_io wait_read_timer async_read_header throws c)

  unfoldable pub packet_of_open : Throws → Connection → Option Effect
  unfolding receive_first receive_next read_next check_packet
  packet_of_open throws c = do
    (same, m) ← check_packet c.message
    (if c.received_first then (do e ← receive_next m c; some (read_next throws e)) else (do
      (going_on, e) ← receive_first same m c
      some (if going_on then read_next throws e else e)))

  unfoldable pub parse_packet : Throws → Bool → Connection → Option Effect
  unfolding packet_of_open close
  parse_packet throws error c = do
    e ←
        (if error
          then some (close true c)
          else if is_open c
          then packet_of_open throws c
          else some ([], c))
    some (after (cancel_read_timer ∷ []) e)

-- ===== src/Connection.antt =====
-- source/connection.h and source/connection.cpp: a client's connection, its queue of messages to
-- send and the reading of packets. Each handler runs under the connection's lock, so a handler is
-- one function from the connection to the connection, the calls it makes of the socket, the timers
-- and the dispatcher, and `none` for undefined behaviour.
pub mod Receive
pub mod Transport
pub mod EndToEnd
pub mod Reading
pub mod Packets
pub mod Starting
pub mod Writes
pub mod Closing
mod Examples
use juggernaut_server.Base.{
  ℕ, ◌+◌, ◌-◌, ◌/◌, ◌%◌, ◌^◌, max, Bool, true, false, not, ◌||◌, List, [], ◌∷◌, ◌++◌, Option, none,
  some, length, slice, u32, ltb, leb, ◌==◌, if◌then◌else◌, ◌>>=◌,
}
use juggernaut_server.Message.{
  NetworkMessage, max_size, header_length, copy_out, get, skip_bytes, set_length, length_header,
  body_buffer,
}
use juggernaut_server.Output.{OutputMessage}
use juggernaut_server.Output.Headers.{output_bytes}
use juggernaut_server.Checksum.{adler_checksum}
use juggernaut_server.Protocol.{Protocol, on_send_message, on_recv_message}

pub data ConnectionState : Type 0 where
  opened closed : ConnectionState

-- `cancel_throws` is what the platform does when the timers are cancelled.
pub record Connection : Type 0 where
  pub message : NetworkMessage
  pub message_queue : List OutputMessage
  pub protocol : Option Protocol
  pub socket_open : Bool
  pub time_connected : ℕ
  pub packets_sent : ℕ
  pub state : ConnectionState
  pub received_first : Bool
  pub cancel_throws : Bool

-- The calls that a handler makes, in order.
pub data Action : Type 0 where
  release_connection : Action
  add_release_task : Action
  add_connect_task : Action
  cancel_timers : Action
  shutdown_socket : Action
  wait_read_timer : Action
  cancel_read_timer : Action
  wait_write_timer : Action
  cancel_write_timer : Action
  async_read_header : Action
  async_read_body : ℕ → Action
  async_write : List ℕ → Action

-- Where the calls of a `try` block throw: nowhere, at the timer, or at the socket.
pub data Throws : Type 0 where
  nowhere at_timer at_socket : Throws

abbrev pub Effect : Type 0
Effect = List Action × Connection

abbrev pub is_open : Connection → Bool
is_open c = elim c.state [ opened ↦ true | closed ↦ false ]

abbrev pub is_empty {ℓ} : {A : Type ℓ} → List A → Bool
is_empty [] = true
is_empty (x ∷ xs) = false

abbrev pub is_some {ℓ} : {A : Type ℓ} → Option A → Bool
is_some none = false
is_some (some a) = true

-- Calls before the rest of a handler.
abbrev pub after : List Action → Effect → Effect
after calls (rest, c) = (calls ++ rest, c)

-- `closeSocket`: when the cancelling of the timers throws, the socket stays open.
unfoldable pub close_socket : Connection → Effect
close_socket c =
    if c.socket_open
    then (if c.cancel_throws
        then (cancel_timers ∷ [], c)
        else (cancel_timers ∷ shutdown_socket ∷ [], record c { socket_open = false }))
    else ([], c)

-- The part of `close` for a connection that is open.
unfoldable pub close_open : Bool → Connection → Effect
unfolding close_socket
close_open force c =
    let c' : Connection = record c { state = closed } in
    after (if is_some c.protocol then add_release_task ∷ [] else [])
      (if is_empty c.message_queue || force then close_socket c' else ([], c'))

unfoldable pub close : Bool → Connection → Effect
unfolding close_open
close force c = after (release_connection ∷ []) (if is_open c then close_open force c else ([], c))

-- A `try` block that waits on a timer and starts a socket operation; a throw closes the connection.
unfoldable pub try_io : Action → Action → Throws → Connection → Effect
unfolding close
try_io timer io nowhere c = (timer ∷ io ∷ [], c)
try_io timer io at_timer c = close true c
try_io timer io at_socket c = after (timer ∷ []) (close true c)

-- `accept()`.
unfoldable pub accept : Throws → Connection → Effect
accept throws c = try_io wait_read_timer async_read_header throws c

-- `accept(protocol)`, which makes the dispatcher call `onConnect`, and the destructor.
unfoldable pub accept_protocol : Throws → Protocol → Connection → Effect
unfolding accept
accept_protocol throws p c =
    after (add_connect_task ∷ []) (accept throws (record c { protocol = some p }))

unfoldable pub destroy_connection : Connection → Effect
unfolding close_socket
destroy_connection c = close_socket c

-- `internalSend`: a null protocol is dereferenced.
unfoldable pub internal_send : ℕ → Throws → OutputMessage → Connection → Option Effect
internal_send initial throws msg c = do
  p ← c.protocol
  msg' ← on_send_message initial p msg
  some (try_io wait_write_timer (async_write (output_bytes msg')) throws c)

unfoldable pub send : ℕ → Throws → OutputMessage → Connection → Option Effect
unfolding internal_send
send initial throws msg c =
    let c' : Connection = record c { message_queue = c.message_queue ++ msg ∷ [] } in
    if is_open c
    then (if is_empty c.message_queue then internal_send initial throws msg c' else some ([], c'))
    else some ([], c)

-- The end of `onWriteOperation`, with the queue behind the message that was written.
unfoldable pub next_write : ℕ → Throws → List OutputMessage → Connection → Option Effect
unfolding internal_send close_socket
next_write initial throws [] c = some (if is_open c then ([], c) else close_socket c)
next_write initial throws (msg ∷ rest) c = internal_send initial throws msg c

-- `onWriteOperation`: the front of an empty list is not there to pop.
unfoldable pub on_write_operation : ℕ → Throws → Bool → Connection → Option Effect
unfolding next_write close
on_write_operation initial throws error c = elim c.message_queue [
  | [] ↦ none
  | _ ∷ rest ↦ (do
    r ←
        if error
        then some (close true (record c { message_queue = [] }))
        else next_write initial throws rest (record c { message_queue = rest })
    some (after (cancel_write_timer ∷ []) r))
]

-- `handleTimeout`, for a connection that is still there.
unfoldable pub handle_timeout : Bool → Connection → Effect
unfolding close
handle_timeout aborted c = if aborted then ([], c) else close true c

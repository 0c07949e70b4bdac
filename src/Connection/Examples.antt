-- ===== src/Connection/Examples.antt =====
-- The theorems about connections at concrete inputs.
use juggernaut_server.Base.{
  ℕ, ◌+◌, ◌^◌, ◌≡◌, refl, true, false, List, [], ◌∷◌, none, some, Memory, arith,
}
use juggernaut_server.Xtea.{Key}
use juggernaut_server.Message.{NetworkMessage, fresh}
use juggernaut_server.Message.Items.{Item, number, text}
use juggernaut_server.Protocol.{Protocol}
use juggernaut_server.Connection.EndToEnd.{send_items, receive_items, receive_items-send_items}
use juggernaut_server.Base.{take, length, Option}
use juggernaut_server.Message.{length_header}
use juggernaut_server.Protocol.{on_recv_message, on_send_message}
use juggernaut_server.Output.Headers.{output_bytes}
use juggernaut_server.Protocol.Frames.{frame}
use juggernaut_server.Connection.Receive.{bad_size, check_packet}
use juggernaut_server.Connection.Transport.{read_into, receive, Delivers, receive-frame}
use juggernaut_server.Output.{OutputMessage, get_output_message, write_message_length, add_header}
use juggernaut_server.Connection.{
  Connection, opened, cancel_write_timer, wait_write_timer, async_write, try_io, nowhere, Effect,
  after, close, send, on_write_operation,
}
use juggernaut_server.Connection.Starting.{next, Orderly, Reach, here, later, sending, written}
use juggernaut_server.Connection.Writes.{Reach-IsOrderly}

abbrev session_key : Key
session_key = record { k0 = 1; k1 = 2; k2 = 3; k3 = 0xffffffff }

abbrev session : Protocol
session = record {
  key = session_key;
  encryption_enabled = true;
  checksum_enabled = true;
  raw_messages = false;
  output_buffer = none;
}

abbrev storage : Memory
storage = λ i. 0xcd

abbrev login : List Item
login = number 1 4 ∷ text (b'a' ∷ b'@' ∷ b'b' ∷ []) ∷ text (b'p' ∷ b'w' ∷ []) ∷ []

receive_items-send_items_example :
    (wire : List ℕ) × (send_items (2 ^ 1) session storage login ≡ some wire)
    × (receive_items (2 ^ 5) session (fresh storage) login wire ≡ some (true, true, login))
receive_items-send_items_example =
    receive_items-send_items 1 5 session session storage (fresh storage) login (omega arith)
      (omega arith) refl refl refl refl refl (omega arith) (omega arith) (omega arith)

abbrev body : List ℕ
body = 3 ∷ 1 ∷ 4 ∷ []

receive-frame_example :
    let wire = frame true session_key body in
    (bad_size (length_header (read_into (fresh storage) 0 (take 2 wire))) ≡ false)
    × (length_header (read_into (fresh storage) 0 (take 2 wire)) + 2 ≡ length wire)
    × (m₁ : NetworkMessage) × (m₂ : NetworkMessage) × (check_packet (receive wire (fresh storage))
        ≡ some (true, m₁))
    × (on_recv_message (2 ^ 3) session m₁ ≡ some (true, m₂))
    × Delivers m₂ body
receive-frame_example =
    receive-frame 3 session (fresh storage) body (omega arith) refl (omega arith) (omega arith)

abbrev plain : Protocol
plain = record session { encryption_enabled = false; checksum_enabled = false }

-- A connection at rest, and one with one message in its queue.
abbrev first_message : OutputMessage
first_message = get_output_message storage

abbrev resting : Connection
resting = record {
  message = fresh storage;
  message_queue = [];
  protocol = some plain;
  socket_open = true;
  time_connected = 0;
  packets_sent = 0;
  state = opened;
  received_first = true;
  cancel_throws = false;
}

abbrev writing : Connection
writing = record resting { message_queue = first_message ∷ [] }

abbrev queued_two : Connection
queued_two = record resting { message_queue = first_message ∷ first_message ∷ [] }

abbrev close_after : Connection → Effect
close_after c = after (cancel_write_timer ∷ []) (close true (record c { message_queue = [] }))

-- What the first message makes the connection write.
abbrev first_write : Option OutputMessage → List ℕ
first_write none = []
first_write (some o) = output_bytes o

abbrev first_frame : List ℕ
first_frame = first_write (on_send_message 2 plain first_message)

abbrev first_sent : Effect
first_sent = (wait_write_timer ∷ async_write first_frame ∷ [], writing)

-- A first message is sent, which is written, and a second one, and the write of the first one fails.
failing :
    Reach 2 (record { connection = resting; under_way = [] }) (next [] (close_after queued_two))
unfolding send on_write_operation on_send_message write_message_length add_header get_output_message
    try_io
failing =
    later
      (later (later here (sending nowhere first_message first_sent refl))
        (sending nowhere first_message ([], queued_two) refl))
      (written nowhere true first_frame [] (close_after queued_two) refl refl)

Reach-IsOrderly_example : Orderly 2 (next [] (close_after queued_two))
Reach-IsOrderly_example =
    Reach-IsOrderly 2 (record { connection = resting; under_way = [] })
      (next [] (close_after queued_two))
      (record { single = omega arith; queued = tt; busy = λ o e. absurd (cc) }) failing

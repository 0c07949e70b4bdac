-- ===== src/Connection/Starting.antt =====
-- The steps of a connection of source/connection.cpp: `send`, `onWriteOperation`, `handleTimeout`,
-- `close`, `parseHeader` and `parsePacket` in any order, with the writes that they start.
use juggernaut_server.Connection.Receive.{Handlers, parse_header, parse_packet}
use juggernaut_server.Base.{
  ℕ, ◌≤◌, ◌≡◌, refl, ◌⊎◌, inl, inr, Bool, true, false, List, [], ◌∷◌, ◌++◌, Option, none, some,
  ◌>>=◌, subst, some_inj, length, All,
}
use juggernaut_server.Output.{OutputMessage}
use juggernaut_server.Protocol.{Protocol, on_send_message}
use juggernaut_server.Connection.{
  Connection, ConnectionState, opened, closed, wait_write_timer, async_write, Throws, nowhere,
  at_timer, at_socket, Effect, is_empty, close, try_io, internal_send, send, on_write_operation,
  handle_timeout,
}
use juggernaut_server.Output.Headers.{output_bytes}
use juggernaut_server.Connection.Reading.{payloads, AreQuiet, close_quiet}

-- A connection, and what the writes that are under way write.
pub record World : Type 0 where
  pub connection : Connection
  pub under_way : List (List ℕ)

abbrev pub next : List (List ℕ) → Effect → World
next ws (calls, c) = record { connection = c; under_way = ws ++ payloads calls }

-- A handler that ran without a fault.
pub data Step (initial : ℕ) (w : World) : World → Type 0 where
  sending :
      (throws : Throws) (msg : OutputMessage) (e : Effect)
      → send initial throws msg w.connection ≡ some e
      → Step initial w (next w.under_way e)
  written :
      (throws : Throws) (error : Bool) (bs : List ℕ) (ws : List (List ℕ)) (e : Effect)
      → w.under_way ≡ bs ∷ ws
      → on_write_operation initial throws error w.connection ≡ some e
      → Step initial w (next ws e)
  timed_out :
      (aborted : Bool) → Step initial w (next w.under_way (handle_timeout aborted w.connection))
  closing : (force : Bool) → Step initial w (next w.under_way (close force w.connection))
  header_read :
      (limit now : ℕ) (throws : Throws) (error : Bool)
      → Step initial w (next w.under_way (parse_header limit now throws error w.connection))
  packet_read :
      (h : Handlers) (throws : Throws) (error : Bool) (e : Effect)
      → AreQuiet h
      → parse_packet h initial throws error w.connection ≡ some e
      → Step initial w (next w.under_way e)

pub data Reach (initial : ℕ) (w : World) : World → Type 0 where
  here : Reach initial w w
  later : {u v : World} → Reach initial w u → Step initial u v → Reach initial w v

-- The bytes that some protocol makes of a message, and of the first one of a queue.
abbrev pub IsWriteOf : ℕ → OutputMessage → List ℕ → Type 0
IsWriteOf initial msg bs =
    (p : Protocol) × (o : OutputMessage) × (on_send_message initial p msg ≡ some o)
    × (bs ≡ output_bytes o)

abbrev pub IsWriteOfFirst : ℕ → List OutputMessage → List ℕ → Type 0
IsWriteOfFirst initial [] bs = ⊥
IsWriteOfFirst initial (msg ∷ queue) bs = IsWriteOf initial msg bs

-- At most one write is under way; it writes the first message of the queue; and while the connection
-- is open and the queue has a message there is one.
pub record IsOrderly (initial : ℕ) (queue : List OutputMessage) (state : ConnectionState)
    (ws : List (List ℕ)) : Type 0 where
  pub single : length ws ≤ 1
  pub queued : All (IsWriteOfFirst initial queue) ws
  pub busy : state ≡ opened → is_empty queue ≡ false → length ws ≡ 1

abbrev pub Orderly : ℕ → World → Type 0
Orderly initial w = IsOrderly initial (w.connection).message_queue (w.connection).state w.under_way

-- `internalSend` keeps the queue, and starts one write or closes the connection.
abbrev pub Sent : ℕ → OutputMessage → Connection → Effect → Type 0
Sent initial msg c e =
    (e.1.message_queue ≡ c.message_queue)
    × (((bs : List ℕ) × (payloads e.0 ≡ bs ∷ []) × IsWriteOf initial msg bs × (e.1.state ≡ c.state))
        ⊎ ((payloads e.0 ≡ []) × (e.1.state ≡ closed)))

try_io-Sent :
    (initial : ℕ) (msg : OutputMessage) (throws : Throws) (bs : List ℕ) (c : Connection)
    → IsWriteOf initial msg bs
    → Sent initial msg c (try_io wait_write_timer (async_write bs) throws c)
unfolding try_io
try_io-Sent initial msg nowhere bs c w = (refl, inl (bs, refl, w, refl))
try_io-Sent initial msg at_timer bs c w = let q = close_quiet true c in (q.1, inr (q.0, q.2))
try_io-Sent initial msg at_socket bs c w = let q = close_quiet true c in (q.1, inr (q.0, q.2))

pub internal_send-Sent :
    (initial : ℕ) (throws : Throws) (msg : OutputMessage) (c : Connection) (e : Effect)
    → internal_send initial throws msg c ≡ some e
    → Sent initial msg c e
unfolding internal_send
internal_send-Sent initial throws msg c e h = with_protocol c.protocol h
  where
    framed :
        (p : Protocol) (r : Option OutputMessage)
        → on_send_message initial p msg ≡ r
        → (r >>= λ o. some (try_io wait_write_timer (async_write (output_bytes o)) throws c))
          ≡ some e
        → Sent initial msg c e
    framed p none made h = absurd (cc)
    framed p (some o) made h =
        subst (Sent initial msg c) (some_inj h)
          (try_io-Sent initial msg throws (output_bytes o) c (p, o, made, refl))

    with_protocol :
        (o : Option Protocol)
        → (o >>= λ p. on_send_message initial p msg >>= λ msg'.
            some (try_io wait_write_timer (async_write (output_bytes msg')) throws c))
          ≡ some e
        → Sent initial msg c e
    with_protocol none h = absurd (cc)
    with_protocol (some p) h = framed p (on_send_message initial p msg) refl h

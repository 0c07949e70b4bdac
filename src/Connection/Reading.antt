-- ===== src/Connection/Reading.antt =====
-- `parseHeader` of source/connection.cpp, and what the handlers that only read and close keep: the
-- queue of messages and the writes.
use juggernaut_server.Base.{
  ℕ, ◌≡◌, refl, ◌∙◌, ◌⊎◌, inl, inr, Bool, true, false, List, [], ◌∷◌, ◌++◌, some, if◌then◌else◌,
  arith, ap₂, ap,
}
use juggernaut_server.Protocol.{Protocol}
use juggernaut_server.Connection.{
  Connection, closed, Action, release_connection, add_release_task, add_connect_task, cancel_timers,
  shutdown_socket, wait_read_timer, cancel_read_timer, wait_write_timer, cancel_write_timer,
  async_read_header, async_read_body, async_write, Throws, nowhere, at_timer, at_socket, Effect,
  is_open, after, close_socket, close_open, close, try_io,
}
use juggernaut_server.Connection.Receive.{
  Handlers, parse_header, restart_count, count_packet, over_rate, bad_size, begin_body, read_body,
  header_of_open,
}
use juggernaut_server.Message.{length_header}

-- What the writes that a list of calls starts write.
abbrev pub payloads : List Action → List (List ℕ)
payloads [] = []
payloads (async_write bs ∷ calls) = bs ∷ payloads calls
payloads (call ∷ calls) = payloads calls

-- Closing writes nothing, keeps the queue, and leaves the connection closed.
pub close_socket_quiet :
    (c : Connection)
    → (payloads (close_socket c).0 ≡ [])
      × ((close_socket c).1.message_queue ≡ c.message_queue)
      × ((close_socket c).1.state ≡ c.state)
unfolding close_socket
close_socket_quiet c = ground arith

pub close_quiet :
    (force : Bool) (c : Connection)
    → (payloads (close force c).0 ≡ [])
      × ((close force c).1.message_queue ≡ c.message_queue)
      × ((close force c).1.state ≡ closed)
unfolding close close_open close_socket
close_quiet force c = ground arith

payloads-after :
    (calls : List Action) (e : Effect) → payloads (after calls e).0 ≡ payloads calls ++ payloads e.0
payloads-after [] e = refl
payloads-after (async_write bs ∷ calls) e = ap (λ ws. bs ∷ ws) (payloads-after calls e)
payloads-after (release_connection ∷ calls) e = payloads-after calls e
payloads-after (add_release_task ∷ calls) e = payloads-after calls e
payloads-after (add_connect_task ∷ calls) e = payloads-after calls e
payloads-after (cancel_timers ∷ calls) e = payloads-after calls e
payloads-after (shutdown_socket ∷ calls) e = payloads-after calls e
payloads-after (wait_read_timer ∷ calls) e = payloads-after calls e
payloads-after (cancel_read_timer ∷ calls) e = payloads-after calls e
payloads-after (wait_write_timer ∷ calls) e = payloads-after calls e
payloads-after (cancel_write_timer ∷ calls) e = payloads-after calls e
payloads-after (async_read_header ∷ calls) e = payloads-after calls e
payloads-after (async_read_body n ∷ calls) e = payloads-after calls e

-- A handler that starts no write and keeps the queue, and the state if it does not close.
abbrev pub Quiet : Connection → Effect → Type 0
Quiet c e =
    (e.1.message_queue ≡ c.message_queue)
    × (payloads e.0 ≡ [])
    × ((e.1.state ≡ c.state) ⊎ (e.1.state ≡ closed))

-- The handlers of the protocol that a packet comes to: they send later, by a task.
pub record AreQuiet (h : Handlers) : Type 0 where
  pub on_first :
      (p : Protocol) (c : Connection) (e : Effect)
      → Handlers.on_recv_first_message h p c ≡ some e
      → Quiet c e
  pub on_packet :
      (p : Protocol) (c : Connection) (e : Effect)
      → Handlers.parse_packet h p c ≡ some e
      → Quiet c e

pub close-Quiet : (force : Bool) (c : Connection) → Quiet c (close force c)
close-Quiet force c = let q = close_quiet force c in (q.1, q.0, inr q.2)

pub after-Quiet :
    (calls : List Action) (c : Connection) (e : Effect)
    → payloads calls ≡ []
    → Quiet c e
    → Quiet c (after calls e)
after-Quiet calls c e h (kept, silent, state) =
    (kept, payloads-after calls e ∙ ap₂ (λ xs ys. xs ++ ys) h silent, state)

-- An effect behind a connection with the same queue and state.
from-Quiet :
    (c c' : Connection) (e : Effect)
    → c'.message_queue ≡ c.message_queue
    → c'.state ≡ c.state
    → Quiet c' e
    → Quiet c e
from-Quiet c c' e q s (kept, silent, inl same) = (kept ∙ q, silent, inl (same ∙ s))
from-Quiet c c' e q s (kept, silent, inr shut) = (kept ∙ q, silent, inr shut)

-- Two handlers one behind the other.
pub then-Quiet :
    (c : Connection) (calls : List Action) (c' : Connection) (e : Effect)
    → Quiet c (calls, c')
    → Quiet c' e
    → Quiet c (after calls e)
then-Quiet c calls c' e (kept, silent, inl same) quiet =
    after-Quiet calls c e silent (from-Quiet c c' e kept same quiet)
then-Quiet c calls c' e (kept, silent, inr shut) (kept', silent', inl same) =
    after-Quiet calls c e silent (kept' ∙ kept, silent', inr (same ∙ shut))
then-Quiet c calls c' e (kept, silent, inr shut) (kept', silent', inr shut') =
    after-Quiet calls c e silent (kept' ∙ kept, silent', inr shut')

pub read_io-Quiet :
    (io : Action) (throws : Throws) (c : Connection)
    → payloads (wait_read_timer ∷ io ∷ []) ≡ []
    → Quiet c (try_io wait_read_timer io throws c)
unfolding try_io
read_io-Quiet io nowhere c h = (refl, h, inl refl)
read_io-Quiet io at_timer c h = close-Quiet true c
read_io-Quiet io at_socket c h =
    after-Quiet (wait_read_timer ∷ []) c (close true c) refl (close-Quiet true c)

read_body-Quiet : (throws : Throws) (size : ℕ) (c : Connection) → Quiet c (read_body throws size c)
unfolding read_body
read_body-Quiet nowhere size c =
    read_io-Quiet (async_read_body size) nowhere (record c { message = begin_body size c.message })
      refl
read_body-Quiet at_timer size c = read_io-Quiet (async_read_body size) at_timer c refl
read_body-Quiet at_socket size c =
    read_io-Quiet (async_read_body size) at_socket
      (record c { message = begin_body size c.message }) refl

restart_count-same :
    (now : ℕ) (c : Connection)
    → ((restart_count now c).message_queue ≡ c.message_queue)
      × ((restart_count now c).state ≡ c.state)
unfolding restart_count count_packet
restart_count-same now c = ground arith

pub if-Quiet :
    (b : Bool) (c : Connection) (e e' : Effect)
    → Quiet c e
    → Quiet c e'
    → Quiet c (if b then e else e')
if-Quiet true c e e' h h' = h
if-Quiet false c e e' h h' = h'

header_of_open-Quiet :
    (limit now : ℕ) (throws : Throws) (c : Connection) → Quiet c (header_of_open limit now throws c)
unfolding header_of_open count_packet
header_of_open-Quiet limit now throws c =
    let c' = restart_count now c in
    let size = length_header c.message in
    let (queue, state) = restart_count-same now c in
    if-Quiet (over_rate limit now c) c (close false (count_packet c))
      (if bad_size size then close true c' else read_body throws size c')
      (close-Quiet false (count_packet c))
      (if-Quiet (bad_size size) c (close true c') (read_body throws size c')
        (from-Quiet c c' (close true c') queue state (close-Quiet true c'))
        (from-Quiet c c' (read_body throws size c') queue state (read_body-Quiet throws size c')))

pub parse_header-Quiet :
    (limit now : ℕ) (throws : Throws) (error : Bool) (c : Connection)
    → Quiet c (parse_header limit now throws error c)
unfolding parse_header
parse_header-Quiet limit now throws error c =
    let opened_case : Effect = if is_open c then header_of_open limit now throws c else ([], c) in
    after-Quiet (cancel_read_timer ∷ []) c (if error then close true c else opened_case) refl (
      if-Quiet error c (close true c) opened_case (close-Quiet true c) (
        if-Quiet (is_open c) c (header_of_open limit now throws c) ([], c)
          (header_of_open-Quiet limit now throws c) (refl, refl, inl refl)))

-- ===== src/Connection/Writes.antt =====
-- The order of the writes in every interleaving of the handlers of source/connection.cpp, as the
-- network and the dispatcher call them.
use juggernaut_server.Connection.Receive.{parse_header}
use juggernaut_server.Base.{
  ℕ, ◌≤◌, ◌≡◌, refl, inl, inr, Bool, true, false, List, [], ◌∷◌, ◌++◌, Option, none, some,
  if◌then◌else◌, arith, ◌>>=◌, subst, some_inj, append-nil, length, All,
}
use juggernaut_server.Output.{OutputMessage}
use juggernaut_server.Connection.{
  Connection, ConnectionState, closed, cancel_write_timer, Throws, Effect, is_open, is_empty, after,
  close_socket, close, send, next_write, on_write_operation, handle_timeout,
}
use juggernaut_server.Connection.Reading.{
  payloads, Quiet, close_quiet, close_socket_quiet, parse_header-Quiet,
}
use juggernaut_server.Connection.Packets.{parse_packet-Quiet}
use juggernaut_server.Connection.Starting.{
  World, Step, sending, written, timed_out, closing, header_read, packet_read, Reach, here, later,
  IsWriteOf, IsWriteOfFirst, IsOrderly, Orderly, Sent, internal_send-Sent,
}

closed-IsOrderly : (initial : ℕ) (queue : List OutputMessage) → IsOrderly initial queue closed []
closed-IsOrderly initial queue = record {
  single = omega arith;
  queued = tt;
  busy = λ o _. absurd (cc);
}

-- With an empty queue nothing is under way.
empty-IsOrderly : (initial : ℕ) (s : ConnectionState) → IsOrderly initial [] s []
empty-IsOrderly initial s = record { single = omega arith; queued = tt; busy = λ o e. absurd (cc) }

one-IsOrderly :
    (initial : ℕ) (msg : OutputMessage) (queue : List OutputMessage) (s : ConnectionState)
    (bs : List ℕ)
    → IsWriteOf initial msg bs
    → IsOrderly initial (msg ∷ queue) s (bs ∷ [])
one-IsOrderly initial msg queue s bs w = record {
  single = omega arith;
  queued = (w, tt);
  busy = λ _ _. refl;
}

abbrev Fits : ℕ → Effect → Type 0
Fits initial e = IsOrderly initial e.1.message_queue e.1.state (payloads e.0)

-- With no write under way, a queue with a message is in order after `internalSend`.
Sent-IsOrderly :
    (initial : ℕ) (msg : OutputMessage) (queue : List OutputMessage) (c : Connection) (e : Effect)
    → c.message_queue ≡ msg ∷ queue
    → Sent initial msg c e
    → Fits initial e
Sent-IsOrderly initial msg queue c e first (kept, inl (bs, one, w, same)) =
    rw (kept, first, one) (one-IsOrderly initial msg queue e.1.state bs w)
Sent-IsOrderly initial msg queue c e first (kept, inr (none_started, shut)) =
    rw (shut, none_started) (closed-IsOrderly initial e.1.message_queue)

appended :
    (initial : ℕ) (q : List OutputMessage) (msg : OutputMessage) (ws : List (List ℕ))
    → All (IsWriteOfFirst initial q) ws
    → All (IsWriteOfFirst initial (q ++ msg ∷ [])) ws
appended initial [] msg [] h = tt
appended initial [] msg (bs ∷ ws) h = absurd (h.0)
appended initial (x ∷ q) msg ws h = h

empty_append :
    (q : List OutputMessage) (msg : OutputMessage) → is_empty q ≡ true → q ++ msg ∷ [] ≡ msg ∷ []
empty_append [] msg h = refl
empty_append (x ∷ q) msg h = absurd (cc)

idle_nil :
    (initial : ℕ) (q : List OutputMessage) (ws : List (List ℕ))
    → All (IsWriteOfFirst initial q) ws
    → is_empty q ≡ true
    → ws ≡ []
idle_nil initial q [] w e = refl
idle_nil initial [] (bs ∷ ws) w e = absurd (w.0)
idle_nil initial (x ∷ q) (bs ∷ ws) w e = absurd (cc)

send-IsOrderly :
    (initial : ℕ) (throws : Throws) (msg : OutputMessage) (c : Connection) (ws : List (List ℕ))
    (e : Effect)
    → IsOrderly initial c.message_queue c.state ws
    → send initial throws msg c ≡ some e
    → IsOrderly initial e.1.message_queue e.1.state (ws ++ payloads e.0)
unfolding send
send-IsOrderly initial throws msg c ws e w h = go (is_open c) (is_empty c.message_queue) refl refl
  where
    c' : Connection
    c' = record c { message_queue = c.message_queue ++ msg ∷ [] }

    EndsOrderly : Effect → Type 0
    EndsOrderly x = IsOrderly initial x.1.message_queue x.1.state (ws ++ payloads x.0)

    go :
        (o m : Bool)
        → is_open c ≡ o
        → is_empty c.message_queue ≡ m
        → IsOrderly initial e.1.message_queue e.1.state (ws ++ payloads e.0)
    go false m eo em =
        let same : ([], c) ≡ e = some_inj (rw eo at h) in
        subst EndsOrderly same (rw (append-nil ws) w)
    go true true eo em =
        let sent = internal_send-Sent initial throws msg c' e (rw (eo, em) at h) in
        rw (idle_nil initial c.message_queue ws w.queued em)
          (Sent-IsOrderly initial msg [] c' e (empty_append c.message_queue msg em) sent)
    go true false eo em =
        let same : ([], c') ≡ e = some_inj (rw (eo, em) at h) in
        subst EndsOrderly same (
          rw (append-nil ws) (record {
            single = w.single;
            queued = appended initial c.message_queue msg ws w.queued;
            busy = λ o _. w.busy o em;
          }))

-- Closing keeps the order: what is under way stays, and a closed connection owes no write.
close-IsOrderly :
    (initial : ℕ) (force : Bool) (c : Connection) (ws : List (List ℕ))
    → IsOrderly initial c.message_queue c.state ws
    → let e = close force c in IsOrderly initial e.1.message_queue e.1.state (ws ++ payloads e.0)
close-IsOrderly initial force c ws w =
    let q = close_quiet force c in
    rw (q.0, q.1, q.2, append-nil ws)
      (record { single = w.single; queued = w.queued; busy = λ o _. absurd (cc) })

-- The queue's next message once one was written.
next_write-IsOrderly :
    (initial : ℕ) (throws : Throws) (rest : List OutputMessage) (c : Connection) (e : Effect)
    → next_write initial throws rest (record c { message_queue = rest }) ≡ some e
    → Fits initial e
unfolding next_write
next_write-IsOrderly initial throws [] c e h = with_state (is_open c') h
  where
    c' : Connection
    c' = record c { message_queue = [] }

    with_state :
        (o : Bool) → some (if o then ([], c') else close_socket c') ≡ some e → Fits initial e
    with_state true h = subst (Fits initial) (some_inj h) (empty-IsOrderly initial c.state)
    with_state false h =
        let q = close_socket_quiet c' in
        subst (Fits initial) (some_inj h) (rw (q.0, q.1, q.2) (empty-IsOrderly initial c.state))
next_write-IsOrderly initial throws (msg ∷ rest) c e h =
    let c' : Connection = record c { message_queue = msg ∷ rest } in
    Sent-IsOrderly initial msg rest c' e refl (internal_send-Sent initial throws msg c' e h)

-- The completion of the one write that is under way.
written-IsOrderly :
    (initial : ℕ) (throws : Throws) (error : Bool) (c : Connection) (e : Effect)
    → on_write_operation initial throws error c ≡ some e
    → Fits initial e
unfolding on_write_operation
written-IsOrderly initial throws error c e h = with_queue c.message_queue error h
  where
    with_result :
        (r : Option Effect)
        → ((x : Effect) → r ≡ some x → Fits initial x)
        → (r >>= λ x. some (after (cancel_write_timer ∷ []) x)) ≡ some e
        → Fits initial e
    with_result none good h = absurd (cc)
    with_result (some x) good h = subst (Fits initial) (some_inj h) (good x refl)

    closed_fits :
        (x : Effect) → some (close true (record c { message_queue = [] })) ≡ some x → Fits initial x
    closed_fits x h =
        let c' : Connection = record c { message_queue = [] } in
        let q = close_quiet true c' in
        subst (Fits initial) (some_inj h) (rw (q.0, q.1, q.2) (empty-IsOrderly initial closed))

    with_queue :
        (q : List OutputMessage) (error : Bool)
        → elim q [
          | [] ↦ none
          | _ ∷ rest ↦
              ((if error
                  then some (close true (record c { message_queue = [] }))
                  else next_write initial throws rest (record c { message_queue = rest }))
                >>= λ x. some (after (cancel_write_timer ∷ []) x))
        ]
          ≡ some e
        → Fits initial e
    with_queue [] error h = absurd (cc)
    with_queue (x ∷ rest) true h =
        with_result (some (close true (record c { message_queue = [] }))) closed_fits h
    with_queue (x ∷ rest) false h =
        with_result (next_write initial throws rest (record c { message_queue = rest }))
          (next_write-IsOrderly initial throws rest c) h

timeout-IsOrderly :
    (initial : ℕ) (aborted : Bool) (c : Connection) (ws : List (List ℕ))
    → IsOrderly initial c.message_queue c.state ws
    → let e = handle_timeout aborted c in
      IsOrderly initial e.1.message_queue e.1.state (ws ++ payloads e.0)
unfolding handle_timeout
timeout-IsOrderly initial true c ws w = rw (append-nil ws) w
timeout-IsOrderly initial false c ws w = close-IsOrderly initial true c ws w

Quiet-IsOrderly :
    (initial : ℕ) (c : Connection) (e : Effect) (ws : List (List ℕ))
    → IsOrderly initial c.message_queue c.state ws
    → Quiet c e
    → IsOrderly initial e.1.message_queue e.1.state (ws ++ payloads e.0)
Quiet-IsOrderly initial c e ws w (kept, silent, inl same) = rw (kept, silent, same, append-nil ws) w
Quiet-IsOrderly initial c e ws w (kept, silent, inr shut) =
    rw (kept, silent, shut, append-nil ws)
      (record { single = w.single; queued = w.queued; busy = λ o _. absurd (cc) })

last_write : (bs : List ℕ) (ws : List (List ℕ)) → length (bs ∷ ws) ≤ 1 → ws ≡ []
last_write bs [] h = refl
last_write bs (x ∷ ws) h = absurd (omega (arith, h))

Step-IsOrderly :
    (initial : ℕ) (u v : World) → Orderly initial u → Step initial u v → Orderly initial v
Step-IsOrderly initial u v w (sending throws msg e h) =
    send-IsOrderly initial throws msg u.connection u.under_way e w h
Step-IsOrderly initial u v w (written throws error bs ws e one h) =
    let idle : ws ≡ [] = last_write bs ws (rw one at w.single) in
    rw idle (written-IsOrderly initial throws error u.connection e h)
Step-IsOrderly initial u v w (timed_out aborted) =
    timeout-IsOrderly initial aborted u.connection u.under_way w
Step-IsOrderly initial u v w (closing force) =
    close-IsOrderly initial force u.connection u.under_way w
Step-IsOrderly initial u v w (header_read limit now throws error) =
    Quiet-IsOrderly initial u.connection (parse_header limit now throws error u.connection)
      u.under_way w (parse_header-Quiet limit now throws error u.connection)
Step-IsOrderly initial u v w (packet_read h throws error e quiet r) =
    Quiet-IsOrderly initial u.connection e u.under_way w
      (parse_packet-Quiet h initial throws error u.connection quiet e r)

-- From a connection in order, every interleaving of sends, completed writes, timeouts, closes, and
-- headers and packets that are read, that is without a fault leads to a connection in order: at most
-- one write is under way, what it writes is what some protocol makes of the first message of the queue, and
-- while the connection is open and its queue has a message there is a write under way. The handlers of
-- the protocol that the packets come to start no write themselves, and keep the queue.
pub Reach-IsOrderly :
    (initial : ℕ) (u v : World) → Orderly initial u → Reach initial u v → Orderly initial v
Reach-IsOrderly initial u v w here = w
Reach-IsOrderly initial u v w (later {u = x} r s) =
    Step-IsOrderly initial x v (Reach-IsOrderly initial u x w r) s

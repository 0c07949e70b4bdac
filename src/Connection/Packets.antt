-- ===== src/Connection/Packets.antt =====
-- `parsePacket` of source/connection.cpp and the queue of messages.
use juggernaut_server.Base.{
  ℕ, ◌≡◌, refl, inl, Bool, true, false, [], ◌∷◌, Option, none, some, if◌then◌else◌, ◌>>=◌, subst,
  some_inj,
}
use juggernaut_server.Protocol.{Protocol}
use juggernaut_server.Connection.{
  Connection, wait_read_timer, cancel_read_timer, async_read_header, Throws, Effect, is_open, close,
  try_io,
}
use juggernaut_server.Connection.Receive.{
  Handlers, parse_packet, check_packet, first_message, receive_made, receive_first, receive_next,
  read_next, packet_of_open,
}
use juggernaut_server.Protocol.{on_recv_message}
use juggernaut_server.Message.{NetworkMessage, skip_bytes}
use juggernaut_server.Connection.Reading.{
  Quiet, close-Quiet, after-Quiet, then-Quiet, read_io-Quiet, if-Quiet, AreQuiet,
}

-- What may fault and is quiet otherwise.
abbrev IfQuiet : Connection → Option Effect → Type 0
IfQuiet c r = (e : Effect) → r ≡ some e → Quiet c e

some-IfQuiet : (c : Connection) (e : Effect) → Quiet c e → IfQuiet c (some e)
some-IfQuiet c e h e' same = subst (Quiet c) (some_inj same) h

bind-IfQuiet :
    {A : Type 0} (c : Connection) (r : Option A) (f : A → Option Effect)
    → ((a : A) → r ≡ some a → IfQuiet c (f a))
    → IfQuiet c (r >>= f)
bind-IfQuiet c none f h e same = absurd (cc)
bind-IfQuiet c (some a) f h e same = h a refl e same

module _ (h : Handlers) (initial : ℕ) (quiet : AreQuiet h) where
  read_next-Quiet :
      (throws : Throws) (c : Connection) (e : Effect)
      → Quiet c e
      → Quiet c (read_next h initial throws e)
  unfolding read_next
  read_next-Quiet throws c (calls, c') q =
      then-Quiet c calls c' (try_io wait_read_timer async_read_header throws c') q
        (read_io-Quiet async_read_header throws c' refl)

  receive_next-Quiet :
      (m : NetworkMessage) (c : Connection) → IfQuiet c (receive_next h initial m c)
  unfolding receive_next
  receive_next-Quiet m c =
      bind-IfQuiet c c.protocol _
        (λ p _. bind-IfQuiet c (on_recv_message initial p m) _ (λ r _. called p r.0 r.1))
    where
      called :
          (p : Protocol) (b : Bool) (m' : NetworkMessage)
          → IfQuiet c (
              if b
              then Handlers.parse_packet h p (record c { message = m' })
              else some ([], record c { message = m' }))
      called p true m' e same = quiet.on_packet p (record c { message = m' }) e same
      called p false m' e same =
          some-IfQuiet c ([], record c { message = m' }) (refl, refl, inl refl) e same

  -- The first message, with its answer.
  abbrev FirstQuiet : Connection → Option (Bool × Effect) → Type 0
  FirstQuiet c r = (b : Bool) (e : Effect) → r ≡ some (b, e) → Quiet c e

  answered :
      (c : Connection) (r : Option Effect) → IfQuiet c r → FirstQuiet c (r >>= λ e. some (true, e))
  answered c none q b e same = absurd (cc)
  answered c (some e') q b e same =
      subst (λ (x : Bool × Effect). Quiet c x.1) (some_inj same) (q e' refl)

  first_message-IfQuiet :
      (p : Protocol) (m : NetworkMessage) (c : Connection)
      → IfQuiet c (first_message h initial p m c)
  unfolding first_message
  first_message-IfQuiet p m c e same =
      quiet.on_first p (record c { message = m; protocol = some p }) e same

  receive_made-Quiet :
      (made : Option Protocol) (m : NetworkMessage) (c : Connection)
      → FirstQuiet c (receive_made h initial made m c)
  unfolding receive_made
  receive_made-Quiet none m c b e same =
      subst (λ (x : Bool × Effect). Quiet c x.1) (some_inj same)
        (close-Quiet true (record c { message = m }))
  receive_made-Quiet (some p) m c b e same =
      answered c (first_message h initial p m c) (first_message-IfQuiet p m c) b e same

  receive_first-Quiet :
      (same : Bool) (m : NetworkMessage) (c : Connection)
      → FirstQuiet c (receive_first h initial same m c)
  unfolding receive_first
  receive_first-Quiet same m c = with_protocol c.protocol
    where
      c' : Connection
      c' = record c { received_first = true }

      made_Quiet :
          (r : Option (Option Protocol × NetworkMessage))
          → FirstQuiet c (r >>= λ x. receive_made h initial x.0 x.1 c')
      made_Quiet none b e eq = absurd (cc)
      made_Quiet (some (made, m')) b e eq = receive_made-Quiet made m' c' b e eq

      with_protocol :
          (o : Option Protocol)
          → FirstQuiet c (elim o [
            | none ↦ (Handlers.make_protocol h same m >>= λ x. receive_made h initial x.0 x.1 c')
            | some p ↦ (first_message h initial p (skip_bytes 1 m) c' >>= λ e. some (true, e))
          ])
      with_protocol none = made_Quiet (Handlers.make_protocol h same m)
      with_protocol (some p) = answered c _ (first_message-IfQuiet p (skip_bytes 1 m) c')

  packet_of_open-Quiet :
      (throws : Throws) (c : Connection) → IfQuiet c (packet_of_open h initial throws c)
  unfolding packet_of_open
  packet_of_open-Quiet throws c =
      bind-IfQuiet c (check_packet c.message) _ (λ r _. received c.received_first r.0 r.1)
    where
      next_Quiet :
          (r : Option Effect)
          → IfQuiet c r
          → IfQuiet c (r >>= λ e. some (read_next h initial throws e))
      next_Quiet r q =
          bind-IfQuiet c r _ (λ e same. some-IfQuiet c _ (read_next-Quiet throws c e (q e same)))

      first_Quiet :
          (r : Option (Bool × Effect))
          → FirstQuiet c r
          → IfQuiet c (r >>= λ x. some (if x.0 then read_next h initial throws x.1 else x.1))
      first_Quiet r q = bind-IfQuiet c r _ (λ x same.
          some-IfQuiet c _
            (if-Quiet x.0 c _ _ (read_next-Quiet throws c x.1 (q x.0 x.1 same)) (q x.0 x.1 same)))

      received :
          (t same : Bool) (m : NetworkMessage)
          → IfQuiet c (
              if t
              then (receive_next h initial m c >>= λ e. some (read_next h initial throws e))
              else (receive_first h initial same m c >>= λ x.
                  some (if x.0 then read_next h initial throws x.1 else x.1)))
      received true same m = next_Quiet _ (receive_next-Quiet m c)
      received false same m = first_Quiet _ (receive_first-Quiet same m c)

pub parse_packet-Quiet :
    (h : Handlers) (initial : ℕ) (throws : Throws) (error : Bool) (c : Connection)
    → AreQuiet h
    → IfQuiet c (parse_packet h initial throws error c)
unfolding parse_packet
parse_packet-Quiet h initial throws error c quiet = bind-IfQuiet c _ _ (λ e same.
    some-IfQuiet c _
      (after-Quiet (cancel_read_timer ∷ []) c e refl (tested error (is_open c) e same)))
  where
    tested :
        (b o : Bool)
        → IfQuiet c (
            if b
            then some (close true c)
            else if o
            then packet_of_open h initial throws c
            else some ([], c))
    tested true o = some-IfQuiet c (close true c) (close-Quiet true c)
    tested false true = packet_of_open-Quiet h initial quiet throws c
    tested false false = some-IfQuiet c ([], c) (refl, refl, inl refl)

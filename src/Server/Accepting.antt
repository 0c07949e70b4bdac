-- ===== src/Server/Accepting.antt =====
-- What every step of a port in source/server.cpp keeps: see World for the steps.
use juggernaut_server.Base.{
  ℕ, suc, ◌+◌, ◌≡◌, ◌≢◌, refl, ap, sym, subst, Bool, true, false, List, [], ◌∷◌, if◌then◌else◌,
  arith, ◌==◌,
}
use juggernaut_server.Server.{
  Service, ServicePort, Acceptor, missing, listening, shut, create_connection, async_accept,
  connection_accept_protocol, connection_accept, connection_close, port_after, OpenThrows,
  open_nowhere, open_at_bind, open_at_option, open_at_accept, AcceptResult, no_error,
  operation_aborted, other_error, open_port, start_listening, close_port, accept, on_accept,
  on_connection, welcome,
}
use juggernaut_server.Server.World.{
  PortWorld, after_call, after_calls, world_of, next_world, PortStep, answered, answered_late,
  reopened, stopped, PortReach, unmoved, moved, IsServing, Serving,
}

-- A port by its fields.
abbrev port_of : Acceptor → List Service → ℕ → Bool → ServicePort
port_of a services number pending = record {
  acceptor = a;
  services = services;
  server_port = number;
  pending_start = pending;
}

welcomed :
    (a : Acceptor) (svc : Service) (ip : ℕ) (counts : ℕ × (ℕ × ℕ))
    → after_call a (welcome svc ip) counts ≡ counts
unfolding welcome
welcomed a svc ip counts = with_tests a (ip == 0) svc.single_socket
  where
    with_tests :
        (a : Acceptor) (x y : Bool)
        → after_call a
            (if x
              then connection_close
              else (if y then connection_accept_protocol svc else connection_accept))
            counts
          ≡ counts
    with_tests missing true y = refl
    with_tests missing false true = refl
    with_tests missing false false = refl
    with_tests listening true y = refl
    with_tests listening false true = refl
    with_tests listening false false = refl
    with_tests shut true y = refl
    with_tests shut false true = refl
    with_tests shut false false = refl

close_port-Serving :
    (a : Acceptor) (services : List Service) (number : ℕ) (p : Bool) (live old events : ℕ)
    → IsServing (port_of a services number p) live events
    → Serving (next_world live old events (close_port (port_of a services number p)))
unfolding close_port
close_port-Serving missing services number p live old events w = record {
  served = w.served;
  pending = w.pending;
  waiting = w.waiting;
}
close_port-Serving listening services number p live old events w = record {
  served = w.served;
  pending = w.pending;
  waiting = λ h _. absurd (cc);
}
close_port-Serving shut services number p live old events w = record {
  served = w.served;
  pending = w.pending;
  waiting = w.waiting;
}

accept-Serving :
    (a : Acceptor) (services : List Service) (number : ℕ) (p : Bool) (live old events : ℕ)
    → services ≢ []
    → events ≡ (if p then 1 else 0)
    → Serving (next_world live old events (accept (port_of a services number p)))
unfolding accept
accept-Serving missing services number p live old events served pending = record {
  served = served;
  pending = pending;
  waiting = λ h _. absurd (cc);
}
accept-Serving listening services number p live old events served pending = record {
  served = served;
  pending = pending;
  waiting = λ _ _. omega arith;
}
accept-Serving shut services number p live old events served pending = record {
  served = served;
  pending = pending;
  waiting = λ h _. absurd (cc);
}

welcomed-Serving :
    (a : Acceptor) (services : List Service) (number : ℕ) (p : Bool) (svc : Service)
    (ip live old events : ℕ)
    → Serving (next_world live old events (accept (port_of a services number p)))
    → Serving (
        next_world live old events
          (port_after (welcome svc ip ∷ []) (accept (port_of a services number p))))
unfolding accept
welcomed-Serving missing services number p svc ip live old events w =
    subst
      (λ (k : ℕ × (ℕ × ℕ)).
        Serving (world_of (port_of missing services number p) (after_calls missing [] k)))
      (sym (welcomed missing svc ip (live, (old, events)))) w
welcomed-Serving listening services number p svc ip live old events w =
    subst
      (λ (k : ℕ × (ℕ × ℕ)). Serving (
        world_of (port_of listening services number p)
          (after_calls listening (create_connection ∷ async_accept ∷ []) k)))
      (sym (welcomed listening svc ip (live, (old, events)))) w
welcomed-Serving shut services number p svc ip live old events w =
    subst
      (λ (k : ℕ × (ℕ × ℕ)). Serving (
        world_of (port_of shut services number p)
          (after_calls shut (create_connection ∷ async_accept ∷ []) k)))
      (sym (welcomed shut svc ip (live, (old, events)))) w

-- `live` counts the accepts that are left when the answer came from the acceptor that listens now.
on_accept-Serving :
    (result : AcceptResult) (ip : ℕ) (a : Acceptor) (services : List Service) (number : ℕ)
    (p : Bool) (before live old events : ℕ)
    → (result ≡ operation_aborted → live ≡ before)
    → IsServing (port_of a services number p) before events
    → Serving (next_world live old events (on_accept result ip (port_of a services number p)))
unfolding on_accept on_connection close_port
on_accept-Serving no_error ip a [] number p before live old events same w = absurd (w.served refl)
on_accept-Serving no_error ip a (svc ∷ services) number p before live old events same w =
    welcomed-Serving a (svc ∷ services) number p svc ip live old events
      (accept-Serving a (svc ∷ services) number p live old events w.served w.pending)
on_accept-Serving operation_aborted ip a services number p before live old events same w = record {
  served = w.served;
  pending = w.pending;
  waiting = λ h h'. omega (arith, same refl, w.waiting h h');
}
on_accept-Serving other_error ip a services number true before live old events same w = record {
  served = w.served;
  pending = w.pending;
  waiting = λ h h'. absurd (cc);
}
on_accept-Serving other_error ip missing services number false before live old events same w =
    record { served = w.served; pending = ap suc w.pending; waiting = λ h h'. absurd (cc) }
on_accept-Serving other_error ip listening services number false before live old events same w =
    record { served = w.served; pending = ap suc w.pending; waiting = λ h h'. absurd (cc) }
on_accept-Serving other_error ip shut services number false before live old events same w = record {
  served = w.served;
  pending = ap suc w.pending;
  waiting = λ h h'. absurd (cc);
}

start_listening-Serving :
    (throws : OpenThrows) (port : ℕ) (a : Acceptor) (services : List Service) (live old : ℕ)
    → services ≢ []
    → Serving (next_world live old 0 (start_listening throws port (port_of a services port false)))
unfolding start_listening accept
start_listening-Serving open_nowhere port a services live old served = record {
  served = served;
  pending = refl;
  waiting = λ h h'. omega arith;
}
start_listening-Serving open_at_bind port a services live old served = record {
  served = served;
  pending = refl;
  waiting = λ h h'. absurd (cc);
}
start_listening-Serving open_at_option port a services live old served = record {
  served = served;
  pending = refl;
  waiting = λ h h'. absurd (cc);
}
start_listening-Serving open_at_accept port a services live old served = record {
  served = served;
  pending = refl;
  waiting = λ h h'. absurd (cc);
}

-- Opening the port again, with no event left.
open_port-Serving :
    (throws : OpenThrows) (port : ℕ) (a : Acceptor) (services : List Service) (number : ℕ)
    (p : Bool) (live old : ℕ)
    → services ≢ []
    → Serving (next_world live old 0 (open_port throws port (port_of a services number p)))
unfolding open_port close_port
open_port-Serving throws port missing services number p live old served =
    start_listening-Serving throws port missing services live old served
open_port-Serving throws port listening services number p live old served =
    start_listening-Serving throws port shut services 0 (old + live) served
open_port-Serving throws port shut services number p live old served =
    start_listening-Serving throws port shut services live old served

last_event : (p : Bool) (events n : ℕ) → events ≡ (if p then 1 else 0) → events ≡ suc n → n ≡ 0
last_event true events n e e' = omega arith
last_event false events n e e' = omega arith

PortStep-Serving : (u v : PortWorld) → Serving u → PortStep u v → Serving v
PortStep-Serving u v w (answered result ip n e not_aborted) =
    let s = u.port in
    on_accept-Serving result ip s.acceptor s.services s.server_port s.pending_start u.live n u.old
      u.events (λ aborted. absurd (not_aborted aborted)) w
PortStep-Serving u v w (answered_late result ip n e) =
    let s = u.port in
    on_accept-Serving result ip s.acceptor s.services s.server_port s.pending_start u.live u.live n
      u.events (λ _. refl) w
PortStep-Serving u v w (reopened throws port n e) =
    let s = u.port in
    let none_left : n ≡ 0 = last_event s.pending_start u.events n w.pending e in
    subst (λ k. Serving (next_world u.live u.old k (open_port throws port s))) (sym none_left)
      (open_port-Serving throws port s.acceptor s.services s.server_port s.pending_start u.live
        u.old w.served)
PortStep-Serving u v w stopped =
    let s = u.port in
    close_port-Serving s.acceptor s.services s.server_port s.pending_start u.live u.old u.events w

-- From a port that is in order and has a service, every sequence of answered accepts, events that
-- open the port again (whether or not that works) and closings leads to a port in order: an
-- acceptor that listens has an accept under way or the port is pending, and there is one event to
-- open the port if it is pending and none if it is not.
pub PortReach-Serving : (u v : PortWorld) → Serving u → PortReach u v → Serving v
PortReach-Serving u v w unmoved = w
PortReach-Serving u v w (moved {u = x} r s) = PortStep-Serving x v (PortReach-Serving u x w r) s

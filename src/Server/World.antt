-- ===== src/Server/World.antt =====
-- The life of a port in source/server.cpp: accepted connections, errors of the acceptor, the events
-- that open it again and its end, as steps in any order.
use juggernaut_server.Base.{ℕ, suc, ◌+◌, ◌≤◌, ◌≡◌, ◌≢◌, false, List, [], ◌∷◌, if◌then◌else◌}
use juggernaut_server.Server.{
  ServicePort, Acceptor, listening, PortAction, close_acceptor, async_accept, reopen_later,
  PortEffect, OpenThrows, AcceptResult, operation_aborted, open_port, close_port, on_accept,
}

-- A port, the accepts under way on its acceptor, those that an acceptor which was closed still has to
-- answer, and the events of the scheduler that are to open the port again.
pub record PortWorld : Type 0 where
  pub port : ServicePort
  pub live : ℕ
  pub old : ℕ
  pub events : ℕ

-- What the calls of a handler do to these: an accept on a closed acceptor is answered with an error.
abbrev pub after_call : Acceptor → PortAction → ℕ × (ℕ × ℕ) → ℕ × (ℕ × ℕ)
after_call a close_acceptor (live, (old, events)) = (0, (old + live, events))
after_call listening async_accept (live, (old, events)) = (suc live, (old, events))
after_call a async_accept (live, (old, events)) = (live, (suc old, events))
after_call a (reopen_later port) (live, (old, events)) = (live, (old, suc events))
after_call a call counts = counts

abbrev pub after_calls : Acceptor → List PortAction → ℕ × (ℕ × ℕ) → ℕ × (ℕ × ℕ)
after_calls a [] counts = counts
after_calls a (call ∷ calls) counts = after_calls a calls (after_call a call counts)

-- A handler's calls and its port; an accept is a handler's last call, and so is on its last acceptor.
abbrev pub world_of : ServicePort → ℕ × (ℕ × ℕ) → PortWorld
world_of s (live, (old, events)) = record { port = s; live = live; old = old; events = events }

abbrev pub next_world : ℕ → ℕ → ℕ → PortEffect → PortWorld
next_world live old events (calls, s) =
    world_of s (after_calls s.acceptor calls (live, (old, events)))

-- An accept is answered with `operation_aborted` only when its acceptor was closed.
pub data PortStep (w : PortWorld) : PortWorld → Type 0 where
  answered :
      (result : AcceptResult) (remote_ip n : ℕ)
      → w.live ≡ suc n
      → result ≢ operation_aborted
      → PortStep w (next_world n w.old w.events (on_accept result remote_ip w.port))
  answered_late :
      (result : AcceptResult) (remote_ip n : ℕ)
      → w.old ≡ suc n
      → PortStep w (next_world w.live n w.events (on_accept result remote_ip w.port))
  reopened :
      (throws : OpenThrows) (port n : ℕ)
      → w.events ≡ suc n
      → PortStep w (next_world w.live w.old n (open_port throws port w.port))
  stopped : PortStep w (next_world w.live w.old w.events (close_port w.port))

pub data PortReach (w : PortWorld) : PortWorld → Type 0 where
  unmoved : PortReach w w
  moved : {u v : PortWorld} → PortReach w u → PortStep u v → PortReach w v

-- The port has a service; it is marked as pending while one event is to open it, and then only; and
-- its acceptor, while it listens, has an accept under way or the port is pending.
pub record IsServing (s : ServicePort) (live events : ℕ) : Type 0 where
  pub served : s.services ≢ []
  pub pending : events ≡ (if s.pending_start then 1 else 0)
  pub waiting : s.acceptor ≡ listening → s.pending_start ≡ false → 1 ≤ live

abbrev pub Serving : PortWorld → Type 0
Serving w = IsServing w.port w.live w.events

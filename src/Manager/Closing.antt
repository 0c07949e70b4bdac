-- ===== src/Manager/Closing.antt =====
-- What is left open behind `ServiceManager::stop` of source/server.cpp and
-- `ConnectionManager::closeAll` of source/connection.cpp.
use juggernaut_server.Base.{
  ℕ, ◌+◌, ◌≡◌, refl, sym, ap, subst, not, ◌∙◌, Bool, true, false, List, [], ◌∷◌, ◌++◌,
  if◌then◌else◌, ==_iff, arith, All,
}
use juggernaut_server.Server.{
  ServicePort, Acceptor, missing, listening, shut, PortAction, close_acceptor, Acceptors,
  close_port,
}
use juggernaut_server.Scheduler.{contains}
use juggernaut_server.Manager.{
  ServiceManager, post_ports, stop_manager, stop_ports, close_one, close_sockets,
}

-- A set that the connection is in is closed, and no other socket.
pub close_sockets-contains :
    (ids : List ℕ) (sockets : ℕ → Bool) (i : ℕ)
    → close_sockets ids sockets i ≡ (if contains i ids then false else sockets i)
unfolding close_sockets close_one contains
close_sockets-contains [] sockets i = refl
close_sockets-contains (id ∷ ids) sockets i =
    ground (arith, close_sockets-contains ids (close_one id sockets) i, ==_iff i id, ==_iff id i)

-- The ports that listen, and the calls that close one.
abbrev pub listens : Acceptor → ℕ
listens missing = 0
listens listening = 1
listens shut = 0

abbrev pub open_ports : List ServicePort → ℕ
open_ports [] = 0
open_ports (s ∷ ports) = listens s.acceptor + open_ports ports

abbrev pub all_ports : Acceptors → List ServicePort
all_ports [] = []
all_ports ((port, s) ∷ acceptors) = s ∷ all_ports acceptors

abbrev pub closings : List PortAction → ℕ
closings [] = 0
closings (close_acceptor ∷ calls) = 1 + closings calls
closings (c ∷ calls) = closings calls

close_port-listens :
    (a : Acceptor) (s : ServicePort) (calls : List PortAction)
    → s.acceptor ≡ a
    → (closings ((close_port s).0 ++ calls) ≡ listens a + closings calls)
      × (listens (close_port s).1.acceptor ≡ 0)
unfolding close_port
close_port-listens missing s calls e = rw e (omega arith, refl)
close_port-listens listening s calls e = rw e (refl, refl)
close_port-listens shut s calls e = rw e (omega arith, refl)

stop_ports-closes :
    (ports : List ServicePort)
    → (closings (stop_ports ports).0 ≡ open_ports ports) × (open_ports (stop_ports ports).1 ≡ 0)
unfolding stop_ports
stop_ports-closes [] = (refl, refl)
stop_ports-closes (s ∷ ports) =
    omega
      (arith, close_port-listens s.acceptor s (stop_ports ports).0 refl, stop_ports-closes ports)

post_ports-All :
    (throws : ℕ → Bool) (acceptors : Acceptors)
    → All (λ p. throws p.0 ≡ false) acceptors
    → post_ports throws acceptors ≡ all_ports acceptors
unfolding post_ports
post_ports-All throws [] h = refl
post_ports-All throws ((port, s) ∷ acceptors) h = ground (arith, post_ports-All throws acceptors)

-- `stop` of a running manager with no work of its own posted, where no `post` throws, and then the work
-- that it posted: every port that listened is closed once, none listens behind it, the manager has no
-- ports, and the timer of `die` is set. A second `stop` changes nothing.
pub stop_manager-closes :
    (throws : ℕ → Bool) (m : ServiceManager)
    → m.running ≡ true
    → m.posted ≡ []
    → All (λ p. throws p.0 ≡ false) m.acceptors
    → let m' = stop_manager throws m in
      (closings (stop_ports m'.posted).0 ≡ open_ports (all_ports m.acceptors))
      × (open_ports (stop_ports m'.posted).1 ≡ 0)
      × (m'.acceptors ≡ [])
      × (m'.death_timer ≡ true)
      × (stop_manager throws m' ≡ m')
unfolding stop_manager
stop_manager-closes throws m on empty quiet = subst Closed (sym is_stopped) closed
  where
    stopped : ServiceManager
    stopped = record m {
      running = false;
      posted = m.posted ++ post_ports throws m.acceptors;
      acceptors = [];
      death_timer = true;
    }

    is_stopped : stop_manager throws m ≡ stopped
    is_stopped = ap (λ b. if not b then m else stopped) on

    Closed : ServiceManager → Type 0
    Closed m' =
        (closings (stop_ports m'.posted).0 ≡ open_ports (all_ports m.acceptors))
        × (open_ports (stop_ports m'.posted).1 ≡ 0)
        × (m'.acceptors ≡ [])
        × (m'.death_timer ≡ true)
        × (stop_manager throws m' ≡ m')

    all_posted : stopped.posted ≡ all_ports m.acceptors
    all_posted =
        ap (λ ports. ports ++ post_ports throws m.acceptors) empty
        ∙ post_ports-All throws m.acceptors quiet

    closed : Closed stopped
    closed =
        let (calls, none_open) = stop_ports-closes stopped.posted in
        (calls ∙ ap open_ports all_posted, none_open, refl, refl, refl)

-- ===== src/Server/Sharing.antt =====
-- `ServiceManager::add` of source/server.h: which services share a port.
use juggernaut_server.Base.{
  ℕ, ◌≡◌, ◌⊎◌, inl, inr, refl, ap, sym, subst, ◌∙◌, Bool, true, false, ◌||◌, List, [], ◌∷◌, ◌++◌,
  ◌==◌, All, All-append, if◌then◌else◌,
}
use juggernaut_server.Server.{
  Service, ServicePort, Acceptors, OpenThrows, new_port, add_service, any_single_socket,
  first_single_socket, add_to_port, add_at, add_protocol, open_port, close_port, start_listening,
  accept, open_nowhere, open_at_bind, open_at_option, open_at_accept,
}

-- A port has services that wait for the client, or one service that sends first.
abbrev pub IsShared : List Service → Type 0
IsShared services =
    All (λ svc. svc.single_socket ≡ false) services ⊎ ((svc : Service) × (services ≡ svc ∷ []))

abbrev pub AreShared : Acceptors → Type 0
AreShared = All (λ (entry : ℕ × ServicePort). IsShared entry.1.services)

-- A request to `add`, and a sequence of them.
pub record Request : Type 0 where
  pub throws : OpenThrows
  pub port : ℕ
  pub service : Service

abbrev pub add_requests : List Request → Acceptors → Acceptors
add_requests [] ports = ports
add_requests (r ∷ rs) ports = add_requests rs (add_protocol r.throws r.port r.service ports).1

first-IsShared :
    (services : List Service)
    → IsShared services
    → first_single_socket services ≡ false
    → All (λ svc. svc.single_socket ≡ false) services
unfolding first_single_socket
first-IsShared services (inl f) e = f
first-IsShared services (inr (svc, same)) e =
    subst (All (λ svc. svc.single_socket ≡ false)) (sym same)
      (sym (ap first_single_socket same) ∙ e, tt)

any-none :
    (services : List Service)
    → All (λ svc. svc.single_socket ≡ false) services
    → any_single_socket services ≡ false
unfolding any_single_socket
any-none [] f = refl
any-none (x ∷ xs) (e, f) = rw (e, any-none xs f) refl

open_port-services :
    (throws : OpenThrows) (port : ℕ) → (open_port throws port new_port).1.services ≡ []
unfolding open_port close_port start_listening accept
open_port-services open_nowhere port = refl
open_port-services open_at_bind port = refl
open_port-services open_at_option port = refl
open_port-services open_at_accept port = refl

abbrev SharedPort : Bool × ServicePort → Type 0
SharedPort r = IsShared r.1.services

abbrev SharedPorts : Bool × Acceptors → Type 0
SharedPorts r = AreShared r.1

add_to_port-IsShared :
    (svc : Service) (s : ServicePort)
    → IsShared s.services
    → IsShared (add_to_port svc s).1.services
unfolding add_to_port add_service
add_to_port-IsShared svc s w =
    with_tests (first_single_socket s.services) svc.single_socket refl refl
  where
    added :
        (b : Bool)
        → All (λ svc. svc.single_socket ≡ false) (s.services ++ svc ∷ [])
        → SharedPort
            (if b then (false, s) else (true, record s { services = s.services ++ svc ∷ [] }))
    added true f = w
    added false f = inl f

    with_tests :
        (x y : Bool)
        → first_single_socket s.services ≡ x
        → svc.single_socket ≡ y
        → SharedPort (if x || y then (false, s) else add_service svc s)
    with_tests true y e e' = w
    with_tests false true e e' = w
    with_tests false false e e' =
        let waiting = first-IsShared s.services w e in
        added (any_single_socket s.services)
          (All-append (λ svc. svc.single_socket ≡ false) s.services (svc ∷ []) waiting (e', tt))

-- A new port takes its first service.
first_service-IsShared :
    (svc : Service) (s : ServicePort) → s.services ≡ [] → IsShared (add_service svc s).1.services
unfolding add_service any_single_socket
first_service-IsShared svc s e = rw e (inr (svc, refl))

add_at-AreShared :
    (throws : OpenThrows) (port : ℕ) (svc : Service) (ports : Acceptors)
    → AreShared ports
    → AreShared (add_at throws port svc ports).1
unfolding add_at
add_at-AreShared throws port svc [] w = (
  first_service-IsShared svc (open_port throws port new_port).1 (open_port-services throws port),
  tt,
)
add_at-AreShared throws port svc ((p, s) ∷ ports) (w, ws) =
    with_test (p == port) (add_at-AreShared throws port svc ports ws)
  where
    with_test :
        (same : Bool)
        → AreShared (add_at throws port svc ports).1
        → SharedPorts (
            if same
            then ((add_to_port svc s).0, (p, (add_to_port svc s).1) ∷ ports)
            else ((add_at throws port svc ports).0, (p, s) ∷ (add_at throws port svc ports).1))
    with_test true rest = (add_to_port-IsShared svc s w, ws)
    with_test false rest = (w, rest)

add_protocol-AreShared :
    (throws : OpenThrows) (port : ℕ) (svc : Service) (ports : Acceptors)
    → AreShared ports
    → AreShared (add_protocol throws port svc ports).1
unfolding add_protocol
add_protocol-AreShared throws port svc ports w = with_test (port == 0)
  where
    with_test :
        (z : Bool) → SharedPorts (if z then (false, ports) else add_at throws port svc ports)
    with_test true = w
    with_test false = add_at-AreShared throws port svc ports w

-- Whatever services are added to a manager's ports, and whether or not the ports open: if a protocol
-- that sends first is alone on its port before, it is so behind them. A port has services that all
-- wait for the client, or one service.
pub add_requests-AreShared :
    (requests : List Request) (ports : Acceptors)
    → AreShared ports
    → AreShared (add_requests requests ports)
add_requests-AreShared [] ports w = w
add_requests-AreShared (r ∷ rs) ports w =
    add_requests-AreShared rs (add_protocol r.throws r.port r.service ports).1
      (add_protocol-AreShared r.throws r.port r.service ports w)

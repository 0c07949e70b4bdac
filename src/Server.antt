-- ===== src/Server.antt =====
-- source/server.h and source/server.cpp: the ports, the services behind a port, and the manager that
-- gives each service its port. A service is what its protocol's constants say; the sockets and the
-- scheduler appear as the calls that are made of them.
use juggernaut_server.Base.{
  ℕ, Bool, true, false, not, ◌&&◌, ◌||◌, List, [], ◌∷◌, ◌++◌, Option, none, some, ◌==◌,
  if◌then◌else◌, ◌>>=◌,
}
use juggernaut_server.Message.{NetworkMessage, get_byte}
pub mod Selection
pub mod World
pub mod Accepting
pub mod Sharing
mod Examples

-- `server_sends_first`, `use_checksum` and `protocol_identifier` of a protocol.
pub record Service : Type 0 where
  pub single_socket : Bool
  pub checksummed : Bool
  pub protocol_identifier : ℕ

-- A null acceptor, an open one, and a closed one.
pub data Acceptor : Type 0 where
  missing listening shut : Acceptor

pub record ServicePort : Type 0 where
  pub acceptor : Acceptor
  pub services : List Service
  pub server_port : ℕ
  pub pending_start : Bool

-- The calls that a handler makes, in order; `reopen_later` is the scheduler's event of 15 seconds.
pub data PortAction : Type 0 where
  close_acceptor : PortAction
  listen : ℕ → PortAction
  create_connection : PortAction
  async_accept : PortAction
  reopen_later : ℕ → PortAction
  connection_accept_protocol : Service → PortAction
  connection_accept : PortAction
  connection_close : PortAction

abbrev pub PortEffect : Type 0
PortEffect = List PortAction × ServicePort

abbrev pub port_after : List PortAction → PortEffect → PortEffect
port_after calls (rest, s) = (calls ++ rest, s)

-- `ServicePort(io_service)`.
abbrev pub new_port : ServicePort
new_port = record { acceptor = missing; services = []; server_port = 0; pending_start = false }

-- `is_single_socket()` of a port: the first service's.
unfoldable pub first_single_socket : List Service → Bool
first_single_socket [] = false
first_single_socket (svc ∷ services) = svc.single_socket

-- `std::any_of` with the test of `add_service`.
unfoldable pub any_single_socket : List Service → Bool
any_single_socket [] = false
any_single_socket (svc ∷ services) = svc.single_socket || any_single_socket services

unfoldable pub add_service : Service → ServicePort → Bool × ServicePort
unfolding any_single_socket
add_service new_svc s =
    if any_single_socket s.services
    then (false, s)
    else (true, record s { services = s.services ++ new_svc ∷ [] })

unfoldable pub close_port : ServicePort → PortEffect
close_port s = elim s.acceptor [
  | listening ↦ (close_acceptor ∷ [], record s { acceptor = shut })
  | _ ↦ ([], s)
]

unfoldable pub accept : ServicePort → PortEffect
accept s = elim s.acceptor [ missing ↦ ([], s) | _ ↦ (create_connection ∷ async_accept ∷ [], s) ]

-- Where the `try` block of `open` throws.
pub data OpenThrows : Type 0 where
  open_nowhere open_at_bind open_at_option open_at_accept : OpenThrows

-- The `try` block of `open` and its handler.
unfoldable pub start_listening : OpenThrows → ℕ → ServicePort → PortEffect
unfolding accept
start_listening open_nowhere port s =
    port_after (listen port ∷ []) (accept (record s { acceptor = listening }))
start_listening open_at_bind port s = (reopen_later port ∷ [], record s { pending_start = true })
start_listening open_at_option port s =
    (listen port ∷ reopen_later port ∷ [], record s { acceptor = listening; pending_start = true })
start_listening open_at_accept port s = (
  listen port ∷ create_connection ∷ reopen_later port ∷ [],
  record s { acceptor = listening; pending_start = true },
)

unfoldable pub open_port : OpenThrows → ℕ → ServicePort → PortEffect
unfolding close_port start_listening
open_port throws port s =
    let (calls, s') = close_port s in
    port_after calls
      (start_listening throws port (record s' { server_port = port; pending_start = false }))

-- `openAcceptor`, for a port that may be gone.
unfoldable pub open_acceptor :
    OpenThrows → ℕ → Option ServicePort → List PortAction × Option ServicePort
unfolding open_port
open_acceptor throws port none = ([], none)
open_acceptor throws port (some s) = let (calls, s') = open_port throws port s in (calls, some s')

-- The names of the services, with a comma and a space between them.
unfoldable pub further_names : (Service → List ℕ) → List Service → List ℕ
further_names name [] = []
further_names name (svc ∷ services) = b',' ∷ b' ' ∷ (name svc ++ further_names name services)

unfoldable pub get_protocol_names : (Service → List ℕ) → List Service → List ℕ
unfolding further_names
get_protocol_names name [] = []
get_protocol_names name (svc ∷ services) = name svc ++ further_names name services

pub data AcceptResult : Type 0 where
  no_error operation_aborted other_error : AcceptResult

-- What is done with a connection from `remote_ip`, which is 0 when it is not known.
unfoldable pub welcome : Service → ℕ → PortAction
welcome service remote_ip =
    if remote_ip == 0
    then connection_close
    else (if service.single_socket then connection_accept_protocol service else connection_accept)

-- `onAccept` without an error.
unfoldable pub on_connection : List Service → ℕ → ServicePort → PortEffect
unfolding welcome accept
on_connection [] remote_ip s = ([], s)
on_connection (service ∷ services) remote_ip s =
    port_after (welcome service remote_ip ∷ []) (accept s)

unfoldable pub on_accept : AcceptResult → ℕ → ServicePort → PortEffect
unfolding on_connection close_port
on_accept no_error remote_ip s = on_connection s.services remote_ip s
on_accept operation_aborted remote_ip s = ([], s)
on_accept other_error remote_ip s =
    if s.pending_start
    then ([], s)
    else (let (calls, s') = close_port s in
        (calls ++ reopen_later s.server_port ∷ [], record s' { pending_start = true }))

-- The loop of `make_protocol`: the service that makes the protocol.
unfoldable pub find_service : Bool → ℕ → List Service → Option Service
find_service checksummed protocol_id [] = none
find_service checksummed protocol_id (service ∷ services) =
    let rest = find_service checksummed protocol_id services in
    if not (protocol_id == service.protocol_identifier)
    then rest
    else (if checksummed && service.checksummed || not service.checksummed
        then some service
        else rest)

unfoldable pub make_protocol :
    Bool → NetworkMessage → ServicePort → Option (Option Service × NetworkMessage)
unfolding find_service
make_protocol checksummed msg s = do
  (protocol_id, msg') ← get_byte msg
  some (find_service checksummed protocol_id s.services, msg')

-- The manager's map from ports to service ports.
abbrev pub Acceptors : Type 0
Acceptors = List (ℕ × ServicePort)

-- The part of `ServiceManager::add` for the port's entry. The inner answer is that of `add`.
unfoldable pub add_to_port : Service → ServicePort → Bool × ServicePort
unfolding first_single_socket add_service
add_to_port svc s =
    if first_single_socket s.services || svc.single_socket then (false, s) else add_service svc s

unfoldable pub add_at : OpenThrows → ℕ → Service → Acceptors → Bool × Acceptors
unfolding add_to_port open_port
add_at throws port svc [] =
    let (added, s) = add_service svc (open_port throws port new_port).1 in (added, (port, s) ∷ [])
add_at throws port svc ((p, s) ∷ ports) =
    let (added, ports') = add_at throws port svc ports in
    let (added', s') = add_to_port svc s in
    if p == port then (added', (p, s') ∷ ports) else (added, (p, s) ∷ ports')

-- `ServiceManager::add`.
unfoldable pub add_protocol : OpenThrows → ℕ → Service → Acceptors → Bool × Acceptors
unfolding add_at
add_protocol throws port svc ports =
    if port == 0 then (false, ports) else add_at throws port svc ports

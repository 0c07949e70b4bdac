-- ===== src/Connection/Closing.antt =====
-- `close` of source/connection.cpp on a connection that was closed before its queue was written: the
-- state is closed already, so a forced close returns before it reaches the socket.
use juggernaut_server.Base.{◌≡◌, Bool, true, false, []}
use juggernaut_server.Connection.{Connection, ConnectionState, opened, closed}
use juggernaut_server.Connection.Starting.{World}

abbrev is_closed : ConnectionState → Bool
is_closed opened = false
is_closed closed = true

-- What no handler changes once the connection is closed and nothing is being written.
abbrev Idle : Bool → World → Type 0
Idle socket w =
    ((w.connection).state ≡ closed) × (w.under_way ≡ []) × ((w.connection).socket_open ≡ socket)

-- ===== src/Clients/Examples.antt =====
-- The clients of a database whose connection is lost once and whose tables are empty.
use juggernaut_server.Base.{refl, [], ◌∷◌, Memory, some, codes}
use juggernaut_server.Database.{ErrorCodes, result}
use juggernaut_server.DatabaseSchema.{
  pos, table_exists, is_database_setup, optimize_tables, get_database_config,
  register_database_config, get_database_version,
}
use juggernaut_server.Login.Client.{verify, run_login_task}
use juggernaut_server.Clients.{ClientWorld, client_ops}
use juggernaut_server.Clients.Keeping.{After}
use juggernaut_server.Clients.Locking.{HoldsAt, clients_lock}

abbrev client_errors : ErrorCodes
client_errors = record {
  server_lost = 2013;
  server_gone_error = 2006;
  conn_host_error = 2003;
  connection_error = 2002;
}

abbrev empty_tables : ClientWorld
empty_tables = (
  [],
  record {
    replies = 2006 ∷ 0 ∷ 0 ∷ 0 ∷ [];
    results =
        result (record { fields = []; rows = [] })
        ∷ result (record { fields = []; rows = [] })
        ∷ result (record { fields = []; rows = [] })
        ∷ [];
  },
)

abbrev zeros : Memory
zeros _ = 0

clients_lock_example :
    After (HoldsAt 0) (
      run_login_task
        (client_ops client_errors (λ s. s))
        zeros
        (verify (codes "a") (codes "b"))
        empty_tables)
    × After
        (HoldsAt 0)
        (table_exists (client_ops client_errors (λ s. s)) (codes "game") (codes "x") empty_tables)
    × After
        (HoldsAt 0)
        (is_database_setup (client_ops client_errors (λ s. s)) (codes "game") empty_tables)
    × After
        (HoldsAt 0)
        (optimize_tables (client_ops client_errors (λ s. s)) (codes "game") empty_tables)
    × After (HoldsAt 0) (
        get_database_config
          (client_ops client_errors (λ s. s))
          (λ s. some (pos 0))
          (codes "x")
          empty_tables)
    × After (HoldsAt 0) (
        register_database_config
          (client_ops client_errors (λ s. s))
          (λ s. some (pos 0))
          (codes "x")
          (pos 1)
          empty_tables)
    × After (HoldsAt 0) (
        get_database_version
          (client_ops client_errors (λ s. s))
          (λ s. some (pos 0))
          (codes "game")
          empty_tables)
clients_lock_example =
    clients_lock client_errors (λ s. s) (λ s. some (pos 0)) zeros (verify (codes "a") (codes "b"))
      (codes "game") (codes "x") (codes "x") (pos 1) 0 empty_tables refl

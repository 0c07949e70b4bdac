-- ===== src/Clients/Locking.antt =====
-- The database's lock under its clients, source/iologindata.cpp and source/databasemanager.cpp.
use juggernaut_server.Base.{ℕ, ◌≡◌, ap, ◌∙◌, List, ◌++◌, Memory, Option, none, some}
use juggernaut_server.Database.{Text, ErrorCodes, Answers, DbCall, Db, store_query, execute_query}
use juggernaut_server.Database.Locking.{
  depth_after, depth_after-append, then_depth, Ends, execute_query-Ends, store_query-Ends,
}
use juggernaut_server.DatabaseSchema.{
  ℤ, table_exists, is_database_setup, optimize_tables, get_database_config,
  register_database_config, get_database_version,
}
use juggernaut_server.Login.Client.{LoginTask, run_login_task}
use juggernaut_server.Clients.{ClientWorld, logged, client_ops}
use juggernaut_server.Clients.Keeping.{
  After, Keeps, optimize_tables-Keeps, is_database_setup-Keeps, table_exists-Keeps,
  get_database_config-Keeps, register_database_config-Keeps, get_database_version-Keeps,
  run_login_task-Keeps,
}

-- The calls up to now have left the lock at a depth, and sent queries and taken results only under
-- it.
abbrev pub HoldsAt : ℕ → ClientWorld → Type 0
HoldsAt d (calls, answers) = depth_after calls 0 ≡ some d

logged-Keeps :
    {A : Type 0} (d : ℕ) (m : Db A)
    → ((answers : Answers) → Ends d (λ _. d) (m answers))
    → Keeps (HoldsAt d) (logged m)
logged-Keeps {A} d m ends (calls, answers) h = with_result (m answers) (ends answers)
  where
    with_result :
        (r : Option (A × (List DbCall × Answers)))
        → Ends d (λ _. d) r
        → After (HoldsAt d) (elim r as (λ x. Option (A × ClientWorld)) [
          | none ↦ none
          | some (a, (more, answers')) ↦ some (a, (calls ++ more, answers'))
        ])
    with_result none e = tt
    with_result (some (a, (more, answers'))) e =
        depth_after-append calls more 0 ∙ ap (λ o. then_depth o more) h ∙ e

module _ (errors : ErrorCodes) (real_escape : Text → Text) where
  -- Whatever MySQL answers to its calls, a task of the login protocol and each operation of
  -- `DatabaseManager` that returns leaves the lock as deep as it was, and has sent its queries and
  -- taken their results only while it held the lock. The escaping of texts, which the code does on
  -- the connection without the lock, and the reading and freeing of a result that was taken are
  -- not among these calls.
  pub clients_lock :
      (lexical_cast : Text → Option ℤ) (storage : Memory) (task : LoginTask)
      (database table_name config : Text) (value : ℤ) (d : ℕ) (w : ClientWorld)
      → HoldsAt d w
      → After (HoldsAt d) (run_login_task (client_ops errors real_escape) storage task w)
        × After (HoldsAt d) (table_exists (client_ops errors real_escape) database table_name w)
        × After (HoldsAt d) (is_database_setup (client_ops errors real_escape) database w)
        × After (HoldsAt d) (optimize_tables (client_ops errors real_escape) database w)
        × After
            (HoldsAt d)
            (get_database_config (client_ops errors real_escape) lexical_cast config w)
        × After
            (HoldsAt d)
            (register_database_config (client_ops errors real_escape) lexical_cast config value w)
        × After
            (HoldsAt d)
            (get_database_version (client_ops errors real_escape) lexical_cast database w)
  unfolding client_ops
  clients_lock lexical_cast storage task database table_name config value d w h =
      let db = client_ops errors real_escape in
      let stores : (query : Text) → Keeps (HoldsAt d) (db.store_query query) =
        λ query. logged-Keeps d (store_query errors query) (store_query-Ends errors query d) in
      let executes : (query : Text) → Keeps (HoldsAt d) (db.execute_query query) =
        λ query. logged-Keeps d (execute_query errors query) (execute_query-Ends errors query d) in
      (
        run_login_task-Keeps (HoldsAt d) db stores executes storage task w h,
        table_exists-Keeps (HoldsAt d) db stores executes database table_name w h,
        is_database_setup-Keeps (HoldsAt d) db stores executes database w h,
        optimize_tables-Keeps (HoldsAt d) db stores executes database w h,
        get_database_config-Keeps (HoldsAt d) db stores executes lexical_cast config w h,
        register_database_config-Keeps (HoldsAt d) db stores executes lexical_cast config value w h,
        get_database_version-Keeps (HoldsAt d) db stores executes lexical_cast database w h,
      )

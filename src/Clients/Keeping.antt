-- ===== src/Clients/Keeping.antt =====
-- What the operations of source/databasemanager.cpp and source/iologindata.cpp keep: a property of the
-- world that the queries keep.
use juggernaut_server.Base.{Memory, List, [], ◌∷◌, Bool, true, false, Option, none, some, codes}
use juggernaut_server.Sha1.{transform_to_sha1}
use juggernaut_server.Database.{Text, Row, DbResult, next, get_string}
use juggernaut_server.Database.Interface.{DatabaseOps, Action, lift}
use juggernaut_server.DatabaseSchema.{
  ℤ, table_exists, is_database_setup, optimize_row, optimize_rows, optimize_result, optimize_tables,
  config_value, get_database_config, register_database_config, read_version, get_database_version,
  write_query, create_query, first_version_query, select_config, exists_query, tables_query,
  fragmented_query, optimize_query,
}
use juggernaut_server.Login.{
  LoginOpcode, answer, with_result, with_literal, verify_account, check_result, password_query,
  inserted, insert_account, insert_query, unless_e_mail, e_mail_query, unless_name, name_query,
  new_account, login_success, create_account_success,
}
use juggernaut_server.Login.Client.{
  LoginTask, verify, create, LoginCall, respond, respond_to, run_login_task,
}

module _ {W : Type 0} (P : W → Type 0) where
  abbrev pub After : {A : Type 0} → Option (A × W) → Type 0
  After none = Unit {0}
  After (some (a, w)) = P w

  abbrev pub Keeps : {A : Type 0} → Action W A → Type 0
  Keeps m = (w : W) → P w → After (m w)

  then-After :
      {A B : Type 0} (r : Option (A × W)) (f : A → Action W B)
      → After r
      → ((a : A) → Keeps (f a))
      → After (elim r as (λ x. Option (B × W)) [ none ↦ none | some (a, w) ↦ f a w ])
  then-After none f h k = tt
  then-After (some (a, w)) f h k = k a w h

  lift-Keeps : {A : Type 0} (o : Option A) → Keeps (lift o)
  lift-Keeps none w h = tt
  lift-Keeps (some a) w h = h

  quoted-Keeps :
      {A : Type 0} (o : Option Text) (f : Text → Action W A)
      → ((s : Text) → Keeps (f s))
      → (w : W) → P w
      → After (elim (lift o w) as (λ x. Option (A × W)) [ none ↦ none | some (s, w') ↦ f s w' ])
  quoted-Keeps o f k w h = then-After (lift o w) f (lift-Keeps o w h) k

  module _ (db : DatabaseOps W) (stores : (query : Text) → Keeps (db.store_query query))
      (executes : (query : Text) → Keeps (db.execute_query query)) where
    pub table_exists-Keeps : (database name : Text) → Keeps (table_exists db database name)
    unfolding table_exists
    table_exists-Keeps database name w h =
        quoted-Keeps (db.escape_string database) _
          (λ schema. quoted-Keeps (db.escape_string name) _ (λ s v k.
            then-After (db.store_query (exists_query schema s) v) _ (stores _ v k) (λ r u l. l)))
          w h

    pub is_database_setup-Keeps : (database : Text) → Keeps (is_database_setup db database)
    unfolding is_database_setup
    is_database_setup-Keeps database w h =
        quoted-Keeps (db.escape_string database) _
          (λ schema v k.
            then-After (db.store_query (tables_query schema) v) _ (stores _ v k) (λ r u l. l))
          w h

    optimize_row-Keeps :
        (database : Text) (result : DbResult) → Keeps (optimize_row db database result)
    unfolding optimize_row
    optimize_row-Keeps database result w h =
        quoted-Keeps (get_string (codes "TABLE_NAME") result) _
          (λ name v k.
            then-After (db.execute_query (optimize_query name) v) _ (executes _ v k) (λ r u l. l))
          w h

    optimize_rows-Keeps :
        (database : Text) (rows : List Row) (result : DbResult)
        → Keeps (optimize_rows db database rows result)
    unfolding optimize_rows
    optimize_rows-Keeps database [] result w h = optimize_row-Keeps database result w h
    optimize_rows-Keeps database (row ∷ rows) result w h =
        then-After (optimize_row db database result w) _ (optimize_row-Keeps database result w h)
          (λ u. optimize_rows-Keeps database rows (next result))

    optimize_result-Keeps :
        (database : Text) (o : Option DbResult) → Keeps (optimize_result db database o)
    unfolding optimize_result
    optimize_result-Keeps database none w h = h
    optimize_result-Keeps database (some result) w h =
        then-After (optimize_rows db database result.rest result w) _
          (optimize_rows-Keeps database result.rest result w h) (λ u v k. k)

    pub optimize_tables-Keeps : (database : Text) → Keeps (optimize_tables db database)
    unfolding optimize_tables
    optimize_tables-Keeps database w h =
        quoted-Keeps (db.escape_string database) _
          (λ schema v k.
            then-After (db.store_query (fragmented_query schema) v) _ (stores _ v k)
              (λ r. optimize_result-Keeps database r))
          w h

    module _ (lexical_cast : Text → Option ℤ) where
      pub get_database_config-Keeps :
          (config : Text) → Keeps (get_database_config db lexical_cast config)
      unfolding get_database_config
      get_database_config-Keeps config w h =
          quoted-Keeps (db.escape_string config) _
            (λ name v k.
              then-After (db.store_query (select_config name) v) _ (stores _ v k)
                (λ r. lift-Keeps (config_value lexical_cast r)))
            w h

      pub register_database_config-Keeps :
          (config : Text) (value : ℤ)
          → Keeps (register_database_config db lexical_cast config value)
      unfolding register_database_config
      register_database_config-Keeps config value w h =
          then-After (get_database_config db lexical_cast config w) _
            (get_database_config-Keeps config w h)
            (λ old. quoted-Keeps (db.escape_string config) _ (λ name v k.
              then-After (db.execute_query (write_query old name value) v) _ (executes _ v k)
                (λ r u l. l)))

      read_version-Keeps : (exists : Bool) → Keeps (read_version db lexical_cast exists)
      unfolding read_version
      read_version-Keeps false w h =
          then-After (db.execute_query create_query w) _ (executes _ w h) (λ r v k.
            then-After (db.execute_query first_version_query v) _ (executes _ v k) (λ r' u l. l))
      read_version-Keeps true w h =
          then-After (get_database_config db lexical_cast (codes "db_version") w) _
            (get_database_config-Keeps (codes "db_version") w h) (λ version v k. k)

      pub get_database_version-Keeps :
          (database : Text) → Keeps (get_database_version db lexical_cast database)
      unfolding get_database_version
      get_database_version-Keeps database w h =
          then-After (table_exists db database (codes "server_config") w) _
            (table_exists-Keeps database (codes "server_config") w h) read_version-Keeps

    -- The operations of the login protocol.
    answer-Keeps : (o : Option LoginOpcode) → Keeps (answer db o)
    answer-Keeps none w h = tt
    answer-Keeps (some op) w h = h

    with_result-After :
        {A : Type 0} (f : A → Action W LoginOpcode) (r : Option (A × W))
        → After r
        → ((a : A) → Keeps (f a))
        → After (with_result db f r)
    with_result-After f none h k = tt
    with_result-After f (some (a, w)) h k = k a w h

    with_literal-Keeps :
        (f : Text → Action W LoginOpcode) (o : Option Text)
        → ((s : Text) → Keeps (f s))
        → Keeps (with_literal db f o)
    with_literal-Keeps f none k w h = tt
    with_literal-Keeps f (some s) k w h = k s w h

    verify_account-Keeps : (name password : Text) → Keeps (verify_account db name password)
    unfolding verify_account
    verify_account-Keeps name password = with_literal-Keeps _ (db.escape_string name) (λ s w h.
        with_result-After _ (db.store_query (password_query s) w) (stores _ w h)
          (λ result. answer-Keeps (check_result password result)))

    insert_account-Keeps :
        (username e_mail password : Text) → Keeps (insert_account db username e_mail password)
    unfolding insert_account inserted
    insert_account-Keeps username e_mail password =
        with_literal-Keeps _ (db.escape_string username) (λ name.
          with_literal-Keeps _ (db.escape_string (transform_to_sha1 password)) (λ hash.
            with_literal-Keeps _ (db.escape_string e_mail) (λ mail w h.
              with_result-After _ (db.execute_query (insert_query name hash mail) w)
                (executes _ w h) (λ done v k. k))))

    unless_e_mail-Keeps :
        (username e_mail password : Text) (o : Option DbResult)
        → Keeps (unless_e_mail db username e_mail password o)
    unfolding unless_e_mail
    unless_e_mail-Keeps username e_mail password none w h =
        insert_account-Keeps username e_mail password w h
    unless_e_mail-Keeps username e_mail password (some result) w h = h

    unless_name-Keeps :
        (username e_mail password : Text) (o : Option DbResult)
        → Keeps (unless_name db username e_mail password o)
    unfolding unless_name
    unless_name-Keeps username e_mail password none w h =
        with_literal-Keeps _ (db.escape_string e_mail)
          (λ mail w h.
            with_result-After _ (db.store_query (e_mail_query mail) w) (stores _ w h)
              (unless_e_mail-Keeps username e_mail password))
          w h
    unless_name-Keeps username e_mail password (some result) w h = h

    new_account-Keeps :
        (username e_mail password : Text) → Keeps (new_account db username e_mail password)
    unfolding new_account
    new_account-Keeps username e_mail password =
        with_literal-Keeps _ (db.escape_string username) (λ name w h.
          with_result-After _ (db.store_query (name_query name) w) (stores _ w h)
            (unless_name-Keeps username e_mail password))

    respond_to-After :
        (storage : Memory) (good : LoginOpcode) (r : Option (LoginOpcode × W))
        → After r
        → After (respond_to db storage good r)
    unfolding respond_to
    respond_to-After storage good none h = tt
    respond_to-After storage good (some (op, w)) h = with_calls (respond storage good op)
      where
        with_calls :
            (o : Option (List LoginCall))
            → After (elim o as (λ x. Option (List LoginCall × W)) [
              | none ↦ none
              | some calls ↦ some (calls, w)
            ])
        with_calls none = tt
        with_calls (some calls) = h

    pub run_login_task-Keeps :
        (storage : Memory) (task : LoginTask) → Keeps (run_login_task db storage task)
    unfolding run_login_task
    run_login_task-Keeps storage (verify e_mail password) w h =
        respond_to-After storage login_success _ (verify_account-Keeps e_mail password w h)
    run_login_task-Keeps storage (create username e_mail password) w h =
        respond_to-After storage create_account_success _
          (new_account-Keeps username e_mail password w h)

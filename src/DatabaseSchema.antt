-- ===== src/DatabaseSchema.antt =====
-- `DatabaseManager` of source/databasemanager.h and source/databasemanager.cpp, over the operations of
-- a database. `database` is the configured "mysqlDatabase", and `lexical_cast` Boost's to an int32_t.
use juggernaut_server.Base.{
  ℕ, suc, ◌<◌, ◌^◌, Bool, true, false, not, List, [], ◌∷◌, ◌++◌, Option, none, some, codes, decimal,
  if◌then◌else◌,
}
use juggernaut_server.Database.{Text, Row, DbResult, next, get_string, get_number}
use juggernaut_server.Database.Interface.{DatabaseOps, Action, ◌>>=◌, ◌>>◌, pure, lift}
pub mod Optimizing
pub mod Decimals
pub mod Registering
pub mod Settings
pub mod Versions
mod Examples

-- `negsuc n` is -(n + 1).
pub data ℤ : Type 0 where
  pos : ℕ → ℤ
  negsuc : ℕ → ℤ

abbrev pub IsInt32 : ℤ → Type 0
IsInt32 (pos n) = n < 2 ^ 31
IsInt32 (negsuc n) = n < 2 ^ 31

-- `query << value` for an int32_t.
unfoldable pub show_number : ℤ → Text
show_number (pos n) = decimal 10 n
show_number (negsuc n) = b'-' ∷ decimal 10 (suc n)

-- The queries, over quoted texts.
unfoldable pub fragmented_query : Text → Text
fragmented_query schema =
    codes "SELECT `TABLE_NAME` FROM `information_schema`.`TABLES` WHERE `TABLE_SCHEMA` = "
    ++ (schema ++ codes " AND `DATA_FREE` > 0")

unfoldable pub optimize_query : Text → Text
optimize_query table_name = codes "OPTIMIZE TABLE `" ++ (table_name ++ codes "`")

unfoldable pub tables_query : Text → Text
tables_query schema =
    codes "SELECT `TABLE_NAME` FROM `information_schema`.`tables` WHERE `TABLE_SCHEMA` = " ++ schema

unfoldable pub exists_query : Text → Text → Text
unfolding tables_query
exists_query schema table_name =
    tables_query schema ++ (codes " AND `TABLE_NAME` = " ++ (table_name ++ codes " LIMIT 1"))

unfoldable pub create_query : Text
create_query =
    codes "CREATE TABLE `server_config` (`config` VARCHAR(50) NOT NULL, "
    ++ codes "`value` VARCHAR(256) NOT NULL DEFAULT '', UNIQUE(`config`)) ENGINE = InnoDB"

unfoldable pub first_version_query : Text
first_version_query = codes "INSERT INTO `server_config` VALUES ('db_version', 0)"

unfoldable pub select_config : Text → Text
select_config config = codes "SELECT `value` FROM `server_config` WHERE `config` = " ++ config

unfoldable pub insert_config : Text → Text → Text
insert_config config value =
    codes "INSERT INTO `server_config` VALUES ("
    ++ (config ++ (codes ", '" ++ (value ++ codes "')")))

unfoldable pub update_config : Text → Text → Text
update_config config value =
    codes "UPDATE `server_config` SET `value` = '"
    ++ (value ++ (codes "' WHERE `config` = " ++ config))

abbrev pub has_result : {A : Type 0} → Option A → Bool
has_result none = false
has_result (some a) = true

module _ {W : Type 0} (db : DatabaseOps W) (database : Text) where
  abbrev pub quoted : Text → Action W Text
  quoted s = lift (db.escape_string s)

  unfoldable pub table_exists : Text → Action W Bool
  unfolding exists_query
  table_exists table_name = do
    schema ← quoted database
    name ← quoted table_name
    result ← db.store_query (exists_query schema name)
    pure (has_result result)

  unfoldable pub is_database_setup : Action W Bool
  unfolding tables_query
  is_database_setup = do
    schema ← quoted database
    result ← db.store_query (tables_query schema)
    pure (has_result result)

  -- The body of the loop of `optimizeTables`, and the rounds for the rows that are left.
  unfoldable pub optimize_row : DbResult → Action W (Unit {0})
  unfolding optimize_query get_string
  optimize_row result = do
    table_name ← lift (get_string (codes "TABLE_NAME") result)
    done ← db.execute_query (optimize_query table_name)
    pure tt

  unfoldable pub optimize_rows : List Row → DbResult → Action W (Unit {0})
  unfolding optimize_row next
  optimize_rows [] result = optimize_row result
  optimize_rows (row ∷ rest) result =
      let others : Action W (Unit {0}) = optimize_rows rest (next result) in
      optimize_row result >> others

  unfoldable pub optimize_result : Option DbResult → Action W Bool
  unfolding optimize_rows
  optimize_result none = pure false
  optimize_result (some result) = optimize_rows result.rest result >> pure true

  unfoldable pub optimize_tables : Action W Bool
  unfolding fragmented_query optimize_result
  optimize_tables = do
    schema ← quoted database
    result ← db.store_query (fragmented_query schema)
    optimize_result result

-- What `getDatabaseConfig` makes of the result; none is its false.
unfoldable pub config_value : (Text → Option ℤ) → Option DbResult → Option (Option ℤ)
unfolding get_number
config_value lexical_cast none = some none
config_value lexical_cast (some result) =
    elim (get_number (pos 0) lexical_cast (codes "value") result) [
      | none ↦ none
      | some value ↦ some (some value)
    ]

unfoldable pub write_query : Option ℤ → Text → ℤ → Text
unfolding insert_config update_config show_number
write_query none config value = insert_config config (show_number value)
write_query (some old) config value = update_config config (show_number value)

unfoldable pub version_or : Option ℤ → ℤ
version_or none = negsuc 0
version_or (some version) = version

module _ {W : Type 0} (db : DatabaseOps W) (lexical_cast : Text → Option ℤ) where
  unfoldable pub get_database_config : Text → Action W (Option ℤ)
  unfolding select_config config_value
  get_database_config config = do
    name ← lift (db.escape_string config)
    result ← db.store_query (select_config name)
    lift (config_value lexical_cast result)

  unfoldable pub register_database_config : Text → ℤ → Action W (Unit {0})
  unfolding get_database_config write_query
  register_database_config config value = do
    old ← get_database_config config
    name ← lift (db.escape_string config)
    done ← db.execute_query (write_query old name value)
    pure tt

  -- `getDatabaseVersion`, with the answer of `tableExists`.
  unfoldable pub read_version : Bool → Action W ℤ
  unfolding create_query first_version_query get_database_config version_or
  read_version false = do
    created ← db.execute_query create_query
    written ← db.execute_query first_version_query
    pure (pos 0)
  read_version true = do
    version ← get_database_config (codes "db_version")
    pure (version_or version)

  unfoldable pub get_database_version : Text → Action W ℤ
  unfolding table_exists read_version
  get_database_version database = do
    exists ← table_exists db database (codes "server_config")
    read_version exists

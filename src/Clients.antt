-- ===== src/Clients.antt =====
-- The clients of `Database` of source/database.cpp over its model: `IOLoginData` and `DatabaseManager`
-- use a record of operations (Database/Interface), and here the operations are those of Database and
-- Escape. The world is the list of the calls that were made of the lock and of MySQL, with the answers
-- that are left.
use juggernaut_server.Base.{List, ◌++◌, Option, none, some}
use juggernaut_server.Database.{Text, ErrorCodes, Answers, DbCall, Db, store_query, execute_query}
use juggernaut_server.Database.Interface.{DatabaseOps, Action}
use juggernaut_server.Escape.{escape_string}
pub mod Keeping
pub mod Locking
mod Examples

abbrev pub ClientWorld : Type 0
ClientWorld = List DbCall × Answers

abbrev pub logged : {A : Type 0} → Db A → Action ClientWorld A
logged m (calls, answers) = elim (m answers) [
  | none ↦ none
  | some (a, (more, answers')) ↦ some (a, (calls ++ more, answers'))
]

-- `real_escape` is what MySQL writes for a text. `escapeBlob` calls `mysql_real_escape_string` on
-- the connection without the lock, which is not noted among the calls.
unfoldable pub client_ops : ErrorCodes → (Text → Text) → DatabaseOps ClientWorld
client_ops errors real_escape = record {
  store_query = λ query. logged (store_query errors query);
  execute_query = λ query. logged (execute_query errors query);
  escape_string = escape_string real_escape;
}

-- ===== src/Database.antt =====
-- `Database` of source/database.h and source/database.cpp. MySQL is not part of the repository: what
-- it answers to the calls is an argument, the answers to `mysql_real_query` (0 or an error number)
-- and to `mysql_store_result` in their order, and a computation on the database is `none` while an
-- answer that it waits for is missing. Each computation has the list of the calls that it makes.
mod Rows
pub mod Columns
pub mod Locking
pub mod Retrying
pub mod Interface
pub mod Transaction
pub mod Transacting
mod Examples
unfoldable pub use Rows.*
use juggernaut_server.Base.{
  ℕ, ◌+◌, Bool, true, false, not, ◌||◌, List, [], ◌∷◌, ◌++◌, Option, none, some, codes, ◌==◌,
  if◌then◌else◌, ◌≡◌, ap,
}

-- The error numbers of MySQL's headers that mean a lost connection, besides 1053.
pub record ErrorCodes : Type 0 where
  pub server_lost : ℕ
  pub server_gone_error : ℕ
  pub conn_host_error : ℕ
  pub connection_error : ℕ

-- A result, or the error number when there is none.
pub data Stored : Type 0 where
  result : MysqlResult → Stored
  no_result : ℕ → Stored

pub record Answers : Type 0 where
  pub replies : List ℕ
  pub results : List Stored

-- The calls of the lock and of MySQL. Rollback and commit have their answers with them.
pub data DbCall : Type 0 where
  lock unlock sleep store_result free_result : DbCall
  real_query : Text → DbCall
  rollback_call commit_call : Bool → DbCall

abbrev pub Db : Type 0 → Type 0
Db A = Answers → Option (A × (List DbCall × Answers))

abbrev pub calling :
    {A : Type 0}
    → List DbCall
    → Option (A × (List DbCall × Answers))
    → Option (A × (List DbCall × Answers))
calling calls none = none
calling calls (some (a, (more, w))) = some (a, (calls ++ more, w))

infixl 5 ◌>>=◌ ◌>>◌
abbrev pub ◌>>=◌ : {A B : Type 0} → Db A → (A → Db B) → Db B
◌>>=◌ m f w = elim (m w) [ none ↦ none | some (a, (calls, w')) ↦ calling calls (f a w') ]

pub bind_some :
    {A B : Type 0} (m : Db A) (f : A → Db B) (w : Answers) {a : A} {calls : List DbCall}
    {w' : Answers}
    → m w ≡ some (a, (calls, w'))
    → (m >>= f) w ≡ calling calls (f a w')
bind_some {A} {B} m f w h =
    let continued : Option (A × (List DbCall × Answers)) → Option (B × (List DbCall × Answers)) =
      λ r. elim r [ none ↦ none | some (a, (calls, w')) ↦ calling calls (f a w') ] in
    ap continued h

abbrev pub ◌>>◌ : {B : Type 0} → Db (Unit {0}) → Db B → Db B
m >> k = m >>= λ _. k

abbrev pub pure : {A : Type 0} → A → Db A
pure a w = some (a, ([], w))

abbrev pub call : DbCall → Db (Unit {0})
call c w = some (tt, (c ∷ [], w))

-- `mysql_store_result`.
abbrev pub take_result : Db Stored
take_result w = elim w.results [
  | [] ↦ none
  | r ∷ rs ↦ some (r, (store_result ∷ [], record { replies = w.replies; results = rs }))
]

module _ (errors : ErrorCodes) where
  unfoldable pub is_connection_error : ℕ → Bool
  is_connection_error e =
      e == errors.server_lost
      || (e == errors.server_gone_error
          || (e == errors.conn_host_error || (e == 1053 || e == errors.connection_error)))

  -- `while (mysql_real_query(...) != 0)`: whether it ended with the query done.
  unfoldable pub send_loop : Text → List ℕ → List Stored → Option (Bool × (List DbCall × Answers))
  unfolding is_connection_error
  send_loop query [] results = none
  send_loop query (reply ∷ replies) results =
      let again = calling (real_query query ∷ sleep ∷ []) (send_loop query replies results) in
      let answers : Answers = record { replies = replies; results = results } in
      if reply == 0
      then some (true, (real_query query ∷ [], answers))
      else (if is_connection_error reply
          then again
          else some (false, (real_query query ∷ [], answers)))

  unfoldable pub send_query : Text → Db Bool
  unfolding send_loop
  send_query query w = send_loop query w.replies w.results

  abbrev pub free : Stored → Db (Unit {0})
  free (result r) = call free_result
  free (no_result e) = pure tt

  unfoldable pub execute_query : Text → Db Bool
  unfolding send_query
  execute_query query = do
    call lock
    success ← send_query query
    res ← take_result
    call unlock
    free res
    pure success

  -- The loop at `retry`, with as many rounds at most as there are results.
  unfoldable pub store_loop :
      Text → List Stored → List ℕ → Option (Option MysqlResult × (List DbCall × Answers))
  unfolding send_loop
  store_loop query [] replies = none
  store_loop query (stored ∷ results) replies = elim (send_loop query replies (stored ∷ results)) [
    | none ↦ none
    | some (_, (calls, w)) ↦ elim stored [
      | result r ↦
          some (
            some r,
            (calls ++ store_result ∷ [], record { replies = w.replies; results = results }),
          )
      | no_result e ↦
          let again = calling (calls ++ store_result ∷ []) (store_loop query results w.replies) in
          let answers : Answers = record { replies = w.replies; results = results } in
          if is_connection_error e
          then again
          else some (none, (calls ++ store_result ∷ [], answers))
    ]
  ]

  -- The end of `storeQuery`: a result without a row is freed, and is a null pointer.
  unfoldable pub row_or_free : MysqlResult → List Row → Db (Option DbResult)
  unfolding new_result
  row_or_free res [] = call free_result >> pure none
  row_or_free res (row ∷ rows) = pure (some (new_result res))

  unfoldable pub first_row : Option MysqlResult → Db (Option DbResult)
  unfolding row_or_free
  first_row none = pure none
  first_row (some res) = row_or_free res res.rows

  unfoldable pub store_query : Text → Db (Option DbResult)
  unfolding store_loop first_row
  store_query query = do
    call lock
    res ← (λ w. store_loop query w.results w.replies)
    call unlock
    first_row res

  unfoldable pub begin_transaction : Db Bool
  unfolding execute_query
  begin_transaction = do
    begun ← execute_query (codes "BEGIN")
    if begun then (call lock >> pure true) else pure false

-- `rollback` and `commit`, with MySQL's answer.
unfoldable pub rollback : Bool → Db Bool
rollback done = call (rollback_call done) >> call unlock >> pure done

unfoldable pub commit : Bool → Db Bool
commit done = call (commit_call done) >> call unlock >> pure done

-- `connect`: the answers of `mysql_init` and `mysql_real_connect`, and the size of a packet that the
-- server allows, if it says so.
unfoldable pub packet_size : (Text → Option ℕ) → ℕ → Option DbResult → Option ℕ
packet_size lexical_cast size none = some size
packet_size lexical_cast size (some r) = get_number 0 lexical_cast (codes "Value") r

-- A computation that may fault besides.
abbrev pub lift : {A : Type 0} → Option A → Db A
lift none w = none
lift (some a) w = some (a, ([], w))

unfoldable pub connect : ErrorCodes → (Text → Option ℕ) → Bool → Bool → ℕ → Db (Bool × ℕ)
unfolding packet_size store_query
connect errors lexical_cast initialized connected size =
    if not initialized || not connected then pure (false, size) else (do
      r ← store_query errors (codes "SHOW VARIABLES LIKE 'max_allowed_packet'")
      size' ← lift (packet_size lexical_cast size r)
      pure (true, size'))

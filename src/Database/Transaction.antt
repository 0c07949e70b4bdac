-- ===== src/Database/Transaction.antt =====
-- `DBTransaction` of source/database.h.
use juggernaut_server.Base.{Bool, false}
use juggernaut_server.Database.{Db, pure, ◌>>=◌, ErrorCodes, begin_transaction, rollback, commit}

pub data TransactionState : Type 0 where
  no_start start committed : TransactionState

-- `begin`, whose state does not depend on the answer, and `commit`.
unfoldable pub begin : ErrorCodes → Db (Bool × TransactionState)
unfolding begin_transaction
begin errors = do begun ← begin_transaction errors; pure (begun, start)

unfoldable pub commit_transaction : Bool → TransactionState → Db (Bool × TransactionState)
unfolding commit
commit_transaction done start = do answer ← commit done; pure (answer, committed)
commit_transaction done state = pure (false, state)

-- `~DBTransaction`.
unfoldable pub destroy : Bool → TransactionState → Db (Unit {0})
unfolding rollback
destroy done start = do answer ← rollback done; pure tt
destroy done state = pure tt

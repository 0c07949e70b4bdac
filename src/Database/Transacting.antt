-- ===== src/Database/Transacting.antt =====
-- A `DBTransaction` of source/database.h from its beginning to its destruction, and the lock.
use juggernaut_server.Base.{
  ℕ, suc, ◌≡◌, refl, ap, ◌∙◌, subst, append-nil, ◌&&◌, Bool, true, false, List, [], ◌∷◌, ◌++◌, none,
  some, if◌then◌else◌,
}
use juggernaut_server.Database.{
  ErrorCodes, Answers, DbCall, rollback_call, commit_call, unlock, bind_some, Db, ◌>>=◌, pure,
  begin_transaction, rollback, commit,
}
use juggernaut_server.Database.Transaction.{
  TransactionState, start, begin, commit_transaction, destroy,
}
use juggernaut_server.Database.Locking.{
  depth_after, then_depth, depth_after-append, Ends, begin_transaction-Ends,
}

-- The way a transaction ends: it is committed if its work was done, and destroyed.
abbrev pub end_transaction : Bool → Bool → Bool → TransactionState → Db (Unit {0})
end_transaction true committed_answer rollback_answer s = do
  r ← commit_transaction committed_answer s
  destroy rollback_answer r.1
end_transaction false committed_answer rollback_answer s = destroy rollback_answer s

-- A transaction, and its lock from its beginning to its destruction.
abbrev pub transaction : ErrorCodes → Bool → Bool → Bool → Db (Unit {0})
transaction errors worked committed_answer rollback_answer = do
  r ← begin errors
  end_transaction (r.0 && worked) committed_answer rollback_answer r.1

-- The depth behind the transaction's end when it began, and none when it did not.
end_transaction-Ends :
    (d : ℕ) (worked c r : Bool) (w : Answers)
    → Ends (suc d) (λ _. d) (end_transaction worked c r start w)
unfolding commit_transaction destroy rollback commit
end_transaction-Ends d true c r w = refl
end_transaction-Ends d false c r w = refl

begin-state :
    (errors : ErrorCodes) (w w' : Answers) (b : Bool) (calls : List DbCall)
    → begin_transaction errors w ≡ some (b, (calls, w'))
    → begin errors w ≡ some ((b, start), (calls, w'))
unfolding begin
begin-state errors w w' b calls h =
    bind_some (begin_transaction errors) (λ begun. pure (begun, start)) w h
    ∙ (ap (λ cs. some ((b, start), (cs, w'))) (append-nil calls))

calls_of-begin :
    (errors : ErrorCodes) (w w' : Answers) (d : ℕ) (b : Bool) (calls : List DbCall)
    → begin_transaction errors w ≡ some (b, (calls, w'))
    → depth_after calls d ≡ some (if b then suc d else d)
calls_of-begin errors w w' d b calls h =
    subst (Ends d (λ b. if b then suc d else d)) h (begin_transaction-Ends errors d w)

-- A transaction that begins gives the lock back by its destruction, whether or not its work was done
-- and whatever MySQL answers to commit and rollback.
pub transaction-restores :
    (errors : ErrorCodes) (d : ℕ) (w w' : Answers) (calls : List DbCall) (worked c r : Bool)
    → begin_transaction errors w ≡ some (true, (calls, w'))
    → (more : List DbCall) × (transaction errors worked c r w ≡ some (tt, (calls ++ more, w')))
      × (depth_after (calls ++ more) d ≡ some d)
unfolding commit_transaction destroy rollback commit
transaction-restores errors d w w' calls worked c r h = with_work worked
  where
    begun : depth_after calls d ≡ some (suc d)
    begun = calls_of-begin errors w w' d true calls h

    together :
        (more : List DbCall)
        → depth_after more (suc d) ≡ some d
        → depth_after (calls ++ more) d ≡ some d
    together more e = depth_after-append calls more d ∙ ap (λ o. then_depth o more) begun ∙ e

    with_work :
        (worked : Bool)
        → (more : List DbCall) × (transaction errors worked c r w ≡ some (tt, (calls ++ more, w')))
          × (depth_after (calls ++ more) d ≡ some d)
    with_work true =
        let more : List DbCall = commit_call c ∷ unlock ∷ [] in
        (
          more,
          bind_some (begin errors) (λ r'. end_transaction (r'.0 && true) c r r'.1) w
              (begin-state errors w w' true calls h),
          together more refl,
        )
    with_work false =
        let more : List DbCall = rollback_call r ∷ unlock ∷ [] in
        (
          more,
          bind_some (begin errors) (λ r'. end_transaction (r'.0 && false) c r r'.1) w
              (begin-state errors w w' true calls h),
          together more refl,
        )

-- The destruction of a transaction that failed to begin rolls back and unlocks all the same: from a
-- lock that is not held, MySQL is called without the lock and a lock that is not held is unlocked.
failed_begin-unlocks :
    (errors : ErrorCodes) (w w' : Answers) (calls : List DbCall) (worked c r : Bool)
    → begin_transaction errors w ≡ some (false, (calls, w'))
    → (transaction errors worked c r w ≡ some (tt, (calls ++ (rollback_call r ∷ unlock ∷ []), w')))
      × (depth_after (calls ++ (rollback_call r ∷ unlock ∷ [])) 0 ≡ none)
unfolding destroy rollback
failed_begin-unlocks errors w w' calls worked c r h = (
  bind_some (begin errors) (λ r'. end_transaction (r'.0 && worked) c r r'.1) w
      (begin-state errors w w' false calls h),
  depth_after-append calls (rollback_call r ∷ unlock ∷ []) 0
      ∙ ap (λ o. then_depth o (rollback_call r ∷ unlock ∷ []))
          (calls_of-begin errors w w' 0 false calls h),
)

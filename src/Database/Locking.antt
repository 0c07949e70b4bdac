-- ===== src/Database/Locking.antt =====
-- The database's lock in source/database.cpp: every path of a query gives it back, and MySQL is
-- called only while it is held.
use juggernaut_server.Base.{
  ℕ, zero, suc, ◌≡◌, refl, ap, ◌∙◌, Bool, true, false, List, [], ◌∷◌, ◌++◌, Option, none, some,
  codes, ◌==◌, if◌then◌else◌,
}
use juggernaut_server.Database.{
  Text, MysqlResult, ErrorCodes, Stored, result, no_result, Answers, DbCall, lock, unlock, sleep,
  store_result, free_result, real_query, rollback_call, commit_call, Db, calling, ◌>>=◌, ◌>>◌, pure,
  call, take_result, is_connection_error, send_loop, send_query, execute_query, free, store_loop,
  row_or_free, Row, first_row, store_query, begin_transaction, rollback, commit,
}

-- How deep the recursive lock is held after some calls; none for a query that is sent, a result
-- that is taken, a rollback or a commit without it, and for an unlock of a lock that is not held.
-- A result that was taken is the caller's, and freeing it, as reading its rows, needs no lock.
abbrev pub depth_after : List DbCall → ℕ → Option ℕ
depth_after [] d = some d
depth_after (lock ∷ calls) d = depth_after calls (suc d)
depth_after (sleep ∷ calls) d = depth_after calls d
depth_after (free_result ∷ calls) d = depth_after calls d
depth_after (c ∷ calls) zero = none
depth_after (unlock ∷ calls) (suc d) = depth_after calls d
depth_after (c ∷ calls) (suc d) = depth_after calls (suc d)

-- A computation that returns `a` leaves the lock at the depth `P a`.
abbrev pub Ends : {A : Type 0} → ℕ → (A → ℕ) → Option (A × (List DbCall × Answers)) → Type 0
Ends d P none = Unit {0}
Ends d P (some (a, (calls, w))) = depth_after calls d ≡ some (P a)

abbrev pub then_depth : Option ℕ → List DbCall → Option ℕ
then_depth none calls = none
then_depth (some d) calls = depth_after calls d

pub depth_after-append :
    (calls more : List DbCall) (d : ℕ)
    → depth_after (calls ++ more) d ≡ then_depth (depth_after calls d) more
depth_after-append [] more d = refl
depth_after-append (lock ∷ calls) more d = depth_after-append calls more (suc d)
depth_after-append (sleep ∷ calls) more d = depth_after-append calls more d
depth_after-append (free_result ∷ calls) more d = depth_after-append calls more d
depth_after-append (unlock ∷ calls) more zero = refl
depth_after-append (unlock ∷ calls) more (suc d) = depth_after-append calls more d
depth_after-append (store_result ∷ calls) more zero = refl
depth_after-append (store_result ∷ calls) more (suc d) = depth_after-append calls more (suc d)
depth_after-append (real_query q ∷ calls) more zero = refl
depth_after-append (real_query q ∷ calls) more (suc d) = depth_after-append calls more (suc d)
depth_after-append (rollback_call b ∷ calls) more zero = refl
depth_after-append (rollback_call b ∷ calls) more (suc d) = depth_after-append calls more (suc d)
depth_after-append (commit_call b ∷ calls) more zero = refl
depth_after-append (commit_call b ∷ calls) more (suc d) = depth_after-append calls more (suc d)

calling-Ends :
    {A : Type 0} (d e : ℕ) (P : A → ℕ) (calls : List DbCall)
    (r : Option (A × (List DbCall × Answers)))
    → depth_after calls d ≡ some e
    → Ends e P r
    → Ends d P (calling calls r)
calling-Ends d e P calls none h h' = tt
calling-Ends d e P calls (some (a, (more, w))) h h' =
    depth_after-append calls more d ∙ ap (λ o. then_depth o more) h ∙ h'

pub bind-Ends :
    {A B : Type 0} (d : ℕ) (P : A → ℕ) (Q : B → ℕ) (m : Db A) (f : A → Db B) (w : Answers)
    → Ends d P (m w)
    → ((a : A) (w' : Answers) → Ends (P a) Q (f a w'))
    → Ends d Q ((m >>= f) w)
bind-Ends {A} {B} d P Q m f w h k = with_result (m w) h
  where
    with_result :
        (r : Option (A × (List DbCall × Answers)))
        → Ends d P r
        → Ends d Q (elim r [ none ↦ none | some (a, (calls, w')) ↦ calling calls (f a w') ])
    with_result none h = tt
    with_result (some (a, (calls, w'))) h = calling-Ends d (P a) Q calls (f a w') h (k a w')

module _ (errors : ErrorCodes) (query : Text) where
  send_loop-Ends :
      (d : ℕ) (replies : List ℕ) (results : List Stored)
      → Ends (suc d) (λ _. suc d) (send_loop errors query replies results)
  unfolding send_loop
  send_loop-Ends d [] results = tt
  send_loop-Ends d (reply ∷ replies) results =
      with_tests (reply == 0) (is_connection_error errors reply) (send_loop-Ends d replies results)
    where
      answers : Answers
      answers = record { replies = replies; results = results }

      with_tests :
          (done again : Bool)
          → Ends (suc d) (λ _. suc d) (send_loop errors query replies results)
          → Ends
              (suc d)
              (λ (_ : Bool). suc d)
              (if done
                then some (true, (real_query query ∷ [], answers))
                else (if again
                    then calling
                        (real_query query ∷ sleep ∷ [])
                        (send_loop errors query replies results)
                    else some (false, (real_query query ∷ [], answers))))
      with_tests true again h = refl
      with_tests false true h =
          calling-Ends (suc d) (suc d) (λ _. suc d) (real_query query ∷ sleep ∷ [])
            (send_loop errors query replies results) refl h
      with_tests false false h = refl

  take_result-Ends : (d : ℕ) (w : Answers) → Ends (suc d) (λ _. suc d) (take_result w)
  take_result-Ends d w = with_results w.results
    where
      with_results :
          (rs : List Stored)
          → Ends
              (suc d)
              (λ (_ : Stored). suc d)
              (elim rs [
                | [] ↦ none
                | r ∷ rs ↦
                    some (r, (store_result ∷ [], record { replies = w.replies; results = rs }))
              ])
      with_results [] = tt
      with_results (r ∷ rs) = refl

  free-Ends : (d : ℕ) (stored : Stored) (w : Answers) → Ends d (λ _. d) (free errors stored w)
  free-Ends d (result r) w = refl
  free-Ends d (no_result e) w = refl

  pub execute_query-Ends : (d : ℕ) (w : Answers) → Ends d (λ _. d) (execute_query errors query w)
  unfolding execute_query send_query
  execute_query-Ends d w =
      calling-Ends d (suc d) (λ _. d) (lock ∷ []) _ refl
        (bind-Ends (suc d) (λ _. suc d) (λ _. d) (send_query errors query) _ w
          (send_loop-Ends d w.replies w.results)
          (λ success w₁.
            bind-Ends (suc d) (λ _. suc d) (λ _. d) take_result _ w₁ (take_result-Ends d w₁)
              (λ res w₂.
                calling-Ends (suc d) d (λ _. d) (unlock ∷ []) _ refl
                  (bind-Ends d (λ _. d) (λ _. d) (free errors res) (λ _. pure success) w₂
                    (free-Ends d res w₂) (λ _ w₃. refl)))))

  -- One round at `retry`, with what the later rounds do.
  store_round-Ends :
      (d : ℕ) (stored : Stored) (results : List Stored)
      (sent : Option (Bool × (List DbCall × Answers)))
      → Ends (suc d) (λ _. suc d) sent
      → ((replies : List ℕ) → Ends (suc d) (λ _. suc d) (store_loop errors query results replies))
      → Ends
          (suc d)
          (λ (_ : Option MysqlResult). suc d)
          (elim sent [
            | none ↦ none
            | some (_, (calls, w)) ↦ elim stored [
              | result r ↦ some (
                some r,
                (calls ++ store_result ∷ [], record { replies = w.replies; results = results }),
              )
              | no_result e ↦
                  let again =
                    calling
                      (calls ++ store_result ∷ [])
                      (store_loop errors query results w.replies) in
                  let answers : Answers = record { replies = w.replies; results = results } in
                  if is_connection_error errors e
                  then again
                  else some (none, (calls ++ store_result ∷ [], answers))
            ]
          ])
  store_round-Ends d stored results none h rest = tt
  store_round-Ends d (result r) results (some (b, (calls, w))) h rest =
      depth_after-append calls (store_result ∷ []) (suc d)
      ∙ ap (λ o. then_depth o (store_result ∷ [])) h
  store_round-Ends d (no_result e) results (some (b, (calls, w))) h rest =
      with_test (is_connection_error errors e)
    where
      stored_at : depth_after (calls ++ store_result ∷ []) (suc d) ≡ some (suc d)
      stored_at =
          depth_after-append calls (store_result ∷ []) (suc d)
          ∙ ap (λ o. then_depth o (store_result ∷ [])) h

      with_test :
          (t : Bool)
          → Ends
              (suc d)
              (λ (_ : Option MysqlResult). suc d)
              (if t
                then calling
                    (calls ++ store_result ∷ [])
                    (store_loop errors query results w.replies)
                else some (
                  none,
                  (calls ++ store_result ∷ [], record { replies = w.replies; results = results }),
                ))
      with_test true =
          calling-Ends (suc d) (suc d) (λ _. suc d) (calls ++ store_result ∷ [])
            (store_loop errors query results w.replies) stored_at (rest w.replies)
      with_test false = stored_at

  store_loop-Ends :
      (d : ℕ) (results : List Stored) (replies : List ℕ)
      → Ends (suc d) (λ _. suc d) (store_loop errors query results replies)
  unfolding store_loop
  store_loop-Ends d [] replies = tt
  store_loop-Ends d (stored ∷ results) replies =
      store_round-Ends d stored results (send_loop errors query replies (stored ∷ results))
        (send_loop-Ends d replies (stored ∷ results))
        (λ replies'. store_loop-Ends d results replies')

  row_or_free-Ends :
      (d : ℕ) (res : MysqlResult) (rows : List Row) (w : Answers)
      → Ends d (λ _. d) (row_or_free errors res rows w)
  unfolding row_or_free
  row_or_free-Ends d res [] w = refl
  row_or_free-Ends d res (row ∷ rows) w = refl

  first_row-Ends :
      (d : ℕ) (res : Option MysqlResult) (w : Answers) → Ends d (λ _. d) (first_row errors res w)
  unfolding first_row
  first_row-Ends d none w = refl
  first_row-Ends d (some res) w = row_or_free-Ends d res res.rows w

  pub store_query-Ends : (d : ℕ) (w : Answers) → Ends d (λ _. d) (store_query errors query w)
  unfolding store_query
  store_query-Ends d w =
      calling-Ends d (suc d) (λ _. d) (lock ∷ []) _ refl
        (bind-Ends (suc d) (λ _. suc d) (λ _. d) (λ v. store_loop errors query v.results v.replies)
          (λ res. call unlock >> first_row errors res) w (store_loop-Ends d w.results w.replies)
          (λ res w₁.
            calling-Ends (suc d) d (λ _. d) (unlock ∷ []) (first_row errors res w₁) refl
              (first_row-Ends d res w₁)))

module _ (errors : ErrorCodes) where
  pub begin_transaction-Ends :
      (d : ℕ) (w : Answers)
      → Ends d (λ begun. if begun then suc d else d) (begin_transaction errors w)
  unfolding begin_transaction
  begin_transaction-Ends d w =
      bind-Ends d (λ _. d) (λ begun. if begun then suc d else d)
        (execute_query errors (codes "BEGIN"))
        (λ begun. if begun then (call lock >> pure true) else pure false) w
        (execute_query-Ends errors (codes "BEGIN") d w) begun-Ends
    where
      begun-Ends :
          (begun : Bool) (w : Answers)
          → Ends d
              (λ begun. if begun then suc d else d)
              ((if begun then (call lock >> pure true) else pure false) w)
      begun-Ends true w = refl
      begun-Ends false w = refl

-- However MySQL answers, every query and transaction that returns leaves the database's lock as deep
-- as it should be, and calls MySQL only under it: a query gives the lock back, a transaction that
-- began holds it once more and one that failed to begin does not, and rollback and commit give it
-- back whether or not MySQL did them.
database_locks :
    (errors : ErrorCodes) (query : Text) (d : ℕ) (w : Answers) (done : Bool)
    → Ends d (λ _. d) (execute_query errors query w)
      × Ends d (λ _. d) (store_query errors query w)
      × Ends d (λ begun. if begun then suc d else d) (begin_transaction errors w)
      × Ends (suc d) (λ _. d) (rollback done w)
      × Ends (suc d) (λ _. d) (commit done w)
unfolding rollback commit
database_locks errors query d w done = (
  execute_query-Ends errors query d w,
  store_query-Ends errors query d w,
  begin_transaction-Ends errors d w,
  refl,
  refl,
)

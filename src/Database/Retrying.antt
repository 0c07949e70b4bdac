-- ===== src/Database/Retrying.antt =====
-- The retry loop of `Database::executeQuery` in source/database.cpp: a query is sent again while the
-- connection is lost.
use juggernaut_server.Base.{
  ℕ, zero, suc, ◌≡◌, ◌≢◌, refl, ap, ◌∙◌, ◌⊎◌, Bool, true, false, List, [], ◌∷◌, ◌++◌, some, length,
  All, ◌==◌, ==_iff, inl, inr, Bool-cases, if◌then◌else◌,
}
use juggernaut_server.Database.{
  Text, ErrorCodes, Stored, result, no_result, Answers, DbCall, lock, unlock, sleep, store_result,
  free_result, real_query, Db, calling, bind_some, ◌>>=◌, ◌>>◌, pure, call, free, take_result,
  is_connection_error, send_loop, send_query, execute_query,
}

-- The calls of the loop that loses the connection `n` times: each time it sleeps and sends again.
abbrev pub resend : Text → ℕ → List DbCall
resend query zero = real_query query ∷ []
resend query (suc n) = real_query query ∷ sleep ∷ resend query n

-- An answer of a lost connection, and one that ends the loop.
abbrev pub IsLost : ErrorCodes → ℕ → Type 0
IsLost errors reply = (reply ≢ 0) × (is_connection_error errors reply ≡ true)

abbrev pub Settles : ErrorCodes → ℕ → Type 0
Settles errors reply = (reply ≡ 0) ⊎ (is_connection_error errors reply ≡ false)

abbrev pub freed : Stored → List DbCall
freed (result r) = free_result ∷ []
freed (no_result e) = []

nonzero : (n : ℕ) → n ≢ 0 → (n == 0) ≡ false
nonzero n h = elim (Bool-cases (n == 0)) [
  | inl zero_test ↦ absurd (h ((==_iff n 0).0 zero_test))
  | inr other ↦ other
]

module _ (errors : ErrorCodes) (query : Text) where
  settled_round :
      (reply : ℕ) (rest : List ℕ) (results : List Stored)
      → Settles errors reply
      → send_loop errors query (reply ∷ rest) results
        ≡ some (reply == 0, (resend query 0, record { replies = rest; results = results }))
  unfolding send_loop
  settled_round reply rest results end =
      with_tests (reply == 0) (is_connection_error errors reply) (tests end)
    where
      answers : Answers
      answers = record { replies = rest; results = results }

      tests :
          Settles errors reply → ((reply == 0) ≡ true) ⊎ (is_connection_error errors reply ≡ false)
      tests (inl z) = inl ((==_iff reply 0).1 z)
      tests (inr e) = inr e

      with_tests :
          (z again : Bool)
          → (z ≡ true) ⊎ (again ≡ false)
          → (if z
              then some (true, (real_query query ∷ [], answers))
              else (if again
                  then calling (real_query query ∷ sleep ∷ []) (send_loop errors query rest results)
                  else some (false, (real_query query ∷ [], answers))))
            ≡ some (z, (real_query query ∷ [], answers))
      with_tests true again h = refl
      with_tests false false h = refl
      with_tests false true (inl h) = absurd (cc)
      with_tests false true (inr h) = absurd (cc)

  send_loop-Settles :
      (lost : List ℕ) (reply : ℕ) (rest : List ℕ) (results : List Stored)
      → All (IsLost errors) lost
      → Settles errors reply
      → send_loop errors query (lost ++ reply ∷ rest) results
        ≡ some
            (reply == 0, (resend query (length lost), record { replies = rest; results = results }))
  unfolding send_loop
  send_loop-Settles [] reply rest results all end = settled_round reply rest results end
  send_loop-Settles (r ∷ lost) reply rest results (h, all) end =
      rw (nonzero r h.0, h.1)
        (ap (calling (real_query query ∷ sleep ∷ []))
          (send_loop-Settles lost reply rest results all end))

-- `executeQuery` returns as soon as MySQL answers with a success or with an error that is not a lost
-- connection, however often the connection was lost before: it sent the query once more than that,
-- slept between, took the result of the last sending, gave the lock back and freed the result, and
-- its answer is whether the last sending succeeded.
pub execute_query-Settles :
    (errors : ErrorCodes) (query : Text) (lost : List ℕ) (reply : ℕ) (rest : List ℕ)
    (stored : Stored) (results : List Stored)
    → All (IsLost errors) lost
    → Settles errors reply
    → execute_query errors query
        (record { replies = lost ++ reply ∷ rest; results = stored ∷ results })
      ≡ some (
        reply == 0,
        (
          lock ∷ (resend query (length lost) ++ (store_result ∷ unlock ∷ freed stored)),
          record { replies = rest; results = results },
        ),
      )
unfolding execute_query send_query
execute_query-Settles errors query lost reply rest stored results all end =
    ap (calling (lock ∷ [])) (
      bind_some (send_query errors query) after_sending
        (record { replies = lost ++ reply ∷ rest; results = stored ∷ results })
        (send_loop-Settles errors query lost reply rest (stored ∷ results) all end))
    ∙ with_stored stored
  where
    after_sending : Bool → Db Bool
    after_sending success = do res ← take_result; call unlock; free errors res; pure success

    with_stored :
        (stored : Stored)
        → calling (lock ∷ []) (
            calling
              (resend query (length lost))
              (after_sending (reply == 0) (record { replies = rest; results = stored ∷ results })))
          ≡ some (
            reply == 0,
            (
              lock ∷ (resend query (length lost) ++ (store_result ∷ unlock ∷ freed stored)),
              record { replies = rest; results = results },
            ),
          )
    with_stored (result r) = refl
    with_stored (no_result e) = refl

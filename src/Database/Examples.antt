-- ===== src/Database/Examples.antt =====
-- The theorems about the database at concrete answers of MySQL.
use juggernaut_server.Base.{
  ◌≡◌, refl, true, false, List, [], ◌∷◌, ◌++◌, none, some, codes, inl, arith,
}
use juggernaut_server.Database.{
  MysqlResult, ErrorCodes, no_result, Answers, DbCall, lock, unlock, store_result, real_query,
  execute_query, begin_transaction, is_connection_error, send_query, send_loop,
}
use juggernaut_server.Database.Locking.{depth_after}
use juggernaut_server.Database.Retrying.{resend, execute_query-Settles}
use juggernaut_server.Database.Transacting.{transaction, transaction-restores}

abbrev client_errors : ErrorCodes
client_errors = record {
  server_lost = 2013;
  server_gone_error = 2006;
  conn_host_error = 2003;
  connection_error = 2002;
}

abbrev accounts : MysqlResult
accounts = record {
  fields = codes "name" ∷ codes "password" ∷ [];
  rows = (some (codes "god") ∷ none ∷ []) ∷ [];
}

-- The connection is lost twice, and then the query is done.
abbrev twice_lost : Answers
twice_lost = record { replies = 2006 ∷ 2013 ∷ 0 ∷ []; results = no_result 0 ∷ [] }

abbrev refused : Answers
refused = record { replies = 1045 ∷ []; results = no_result 1045 ∷ [] }

execute_query-Settles_example :
    execute_query client_errors (codes "BEGIN") twice_lost
    ≡ some (
      true,
      (
        lock ∷ (resend (codes "BEGIN") 2 ++ (store_result ∷ unlock ∷ [])),
        record { replies = []; results = [] },
      ),
    )
unfolding is_connection_error
execute_query-Settles_example =
    execute_query-Settles client_errors (codes "BEGIN") (2006 ∷ 2013 ∷ []) 0 [] (no_result 0) []
      ((omega arith, refl), ((omega arith, refl), tt)) (inl refl)

begun :
    begin_transaction client_errors twice_lost
    ≡ some (
      true,
      (
        (lock ∷ (resend (codes "BEGIN") 2 ++ (store_result ∷ unlock ∷ []))) ++ (lock ∷ []),
        record { replies = []; results = [] },
      ),
    )
unfolding begin_transaction execute_query send_query send_loop is_connection_error
begun = refl

transaction-restores_example :
    (more : List DbCall) × (transaction client_errors true true true twice_lost
      ≡ some (
        tt,
        (
          ((lock ∷ (resend (codes "BEGIN") 2 ++ (store_result ∷ unlock ∷ []))) ++ (lock ∷ []))
              ++ more,
          record { replies = []; results = [] },
        ),
      ))
    × (depth_after
          (((lock ∷ (resend (codes "BEGIN") 2 ++ (store_result ∷ unlock ∷ []))) ++ (lock ∷ []))
            ++ more)
          0
        ≡ some 0)
transaction-restores_example =
    transaction-restores client_errors 0 twice_lost (record { replies = []; results = [] })
      ((lock ∷ (resend (codes "BEGIN") 2 ++ (store_result ∷ unlock ∷ []))) ++ (lock ∷ [])) true true
      true begun

abbrev refused_calls : List DbCall
refused_calls = lock ∷ real_query (codes "BEGIN") ∷ store_result ∷ unlock ∷ []

not_begun :
    begin_transaction client_errors refused
    ≡ some (false, (refused_calls, record { replies = []; results = [] }))
unfolding begin_transaction execute_query send_query send_loop is_connection_error
not_begun = refl

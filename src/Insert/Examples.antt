-- ===== src/Insert/Examples.antt =====
-- Rows that are sent to a database which records its queries.
use juggernaut_server.Base.{
  ◌≡◌, ◌≢◌, refl, Bool, true, List, [], ◌∷◌, ◌++◌, Option, some, All, codes,
}
use juggernaut_server.Insert.{Text, DbInsert, new_insert, execute}
use juggernaut_server.Insert.Rendering.{concat}
use juggernaut_server.Insert.Progress.{add_rows, Sends}
use juggernaut_server.Insert.Batches.{insert_rows-sent}

abbrev recording : Text → List Text → Option (Bool × List Text)
recording query queries = some (true, queries ++ query ∷ [])

abbrev rows : List Text
rows = codes "1, 'a'" ∷ codes "2, 'b'" ∷ codes "3, 'c'" ∷ []

insert_rows-sent_example :
    (d : DbInsert) × (v : List Text) × (d' : DbInsert) × (v' : List Text) × (add_rows recording 30
        rows
        (new_insert (codes "INSERT INTO `t` VALUES"))
        []
      ≡ some (true, (d, v)))
    × (execute recording 30 d v ≡ some (true, (d', v')))
    × (d'.values ≡ [])
    × (batches : List (List Text)) × (concat batches ≡ rows)
    × Sends recording 30 (codes "INSERT INTO `t` VALUES") batches [] v'
    × All (λ b. b ≢ []) batches
insert_rows-sent_example =
    insert_rows-sent recording 30 (codes "INSERT INTO `t` VALUES") rows []
      (λ q queries. (queries ++ q ∷ [], refl))

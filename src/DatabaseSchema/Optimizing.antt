-- ===== src/DatabaseSchema/Optimizing.antt =====
-- The queries of `DatabaseManager::optimizeTables` of source/databasemanager.cpp.
use juggernaut_server.Base.{
  ◌≡◌, ◌≢◌, refl, ap, ◌∙◌, Bool, true, false, List, [], ◌∷◌, map, Option, none, some, codes, All,
}
use juggernaut_server.Database.{Text, DbResult, next, new_result}
use juggernaut_server.Database.Columns.{get_string-column}
use juggernaut_server.Database.Interface.{DatabaseOps, found, Action, ◌>>=◌, pure, lift}
use juggernaut_server.DatabaseSchema.{
  fragmented_query, optimize_query, optimize_row, optimize_rows, optimize_result, optimize_tables,
}

-- A result with a column of names.
abbrev pub names_result : List Text → DbResult
names_result names =
    new_result
      (record { fields = codes "TABLE_NAME" ∷ []; rows = map (λ (n : Text). some n ∷ []) names })

abbrev pub has_any : List Text → Bool
has_any [] = false
has_any (name ∷ names) = true

abbrev pub AreNames : List Text → Type 0
AreNames names = All (λ name. All (λ c. c ≢ 0) name) names

module _ {W : Type 0} (db : DatabaseOps W) (database : Text) where
  -- Queries one behind the other, whether or not they succeed.
  unfoldable pub run_each : List Text → Action W (Unit {0})
  run_each [] w = some (tt, w)
  run_each (query ∷ queries) w = elim (db.execute_query query w) [
    | none ↦ none
    | some (done, w') ↦ run_each queries w'
  ]

  abbrev run_one : Text → Action W (Unit {0})
  run_one query = db.execute_query query >>= λ done. pure tt

  optimize_row-name :
      (name : Text) (names : List Text) (w : W)
      → All (λ c. c ≢ 0) name
      → optimize_row db database (names_result (name ∷ names)) w ≡ run_one (optimize_query name) w
  unfolding optimize_row
  optimize_row-name name names w clean =
      ap (λ (o : Option Text). (lift o >>= λ n. run_one (optimize_query n)) w)
        (get_string-column (codes "TABLE_NAME") [] [] (some name ∷ [])
          (map (λ (n : Text). some n ∷ []) names) (some name) tt refl clean)

  -- What follows one query.
  abbrev after : (W → Option (Unit {0} × W)) → Option (Bool × W) → Option (Unit {0} × W)
  after k r = elim r [ none ↦ none | some (done, w') ↦ k w' ]

  after_one :
      (k : W → Option (Unit {0} × W)) (r : Option (Bool × W))
      → ◌≡◌ {A = Option (Unit {0} × W)}
          (elim (after (λ w'. some (tt, w')) r) [ none ↦ none | some (u, w') ↦ k w' ])
          (after k r)
  after_one k none = refl
  after_one k (some (done, w')) = refl

  after_eq :
      (k k' : W → Option (Unit {0} × W))
      → ((w : W) → k w ≡ k' w)
      → (r : Option (Bool × W)) → after k r ≡ after k' r
  after_eq k k' same none = refl
  after_eq k k' same (some (done, w')) = same w'

  optimize_rows-names :
      (name : Text) (names : List Text) (w : W)
      → AreNames (name ∷ names)
      → optimize_rows db database
          (map (λ (n : Text). some n ∷ []) names)
          (names_result (name ∷ names))
          w
        ≡ run_each (map optimize_query (name ∷ names)) w
  unfolding optimize_rows run_each next new_result
  optimize_rows-names name [] w (clean, all) =
      optimize_row-name name [] w clean
      ∙ after_eq (λ w'. some (tt, w')) (run_each []) (λ w'. refl)
          (db.execute_query (optimize_query name) w)
  optimize_rows-names name (other ∷ names) w (clean, all) =
      let rest : W → Option (Unit {0} × W) =
        optimize_rows db database (map (λ (n : Text). some n ∷ []) names)
          (names_result (other ∷ names)) in
      ap (λ (o : Option (Unit {0} × W)). elim o [ none ↦ none | some (u, w') ↦ rest w' ])
        (optimize_row-name name (other ∷ names) w clean)
      ∙ after_one rest (db.execute_query (optimize_query name) w)
      ∙ after_eq rest (run_each (map optimize_query (other ∷ names)))
          (λ w'. optimize_rows-names other names w' all) (db.execute_query (optimize_query name) w)

  optimize_tables-result :
      (schema : Text) (o : Option DbResult) (w w' : W)
      → db.escape_string database ≡ some schema
      → db.store_query (fragmented_query schema) w ≡ some (o, w')
      → optimize_tables db database w ≡ optimize_result db database o w'
  unfolding optimize_tables
  optimize_tables-result schema o w w' escapes answers =
      let body : Text → Action W Bool =
        λ (s : Text). db.store_query (fragmented_query s) >>= optimize_result db database in
      ap (λ (s : Option Text). (lift s >>= body) w) escapes
      ∙ ap
          (λ (r : Option (Option DbResult × W)). elim r [
            | none ↦ none
            | some (found_rows, w'') ↦ optimize_result db database found_rows w''
          ])
          answers

  -- When the query for the fragmented tables has rows, and no name in them has a zero, `optimizeTables`
  -- sends one OPTIMIZE TABLE for each row, in their order, whether or not the ones before succeed, and
  -- answers true when they have returned; without a row it answers false and sends nothing.
  pub optimize_tables-each :
      (schema : Text) (names : List Text) (w w' : W)
      → AreNames names
      → db.escape_string database ≡ some schema
      → db.store_query (fragmented_query schema) w
        ≡ some (found (codes "TABLE_NAME") (map (λ (n : Text). some n ∷ []) names), w')
      → optimize_tables db database w ≡ elim (run_each (map optimize_query names) w') [
        | none ↦ none
        | some (u, w'') ↦ some (has_any names, w'')
      ]
  unfolding optimize_result run_each new_result
  optimize_tables-each schema [] w w' clean escapes answers =
      optimize_tables-result schema none w w' escapes answers
  optimize_tables-each schema (name ∷ names) w w' clean escapes answers =
      optimize_tables-result schema (some (names_result (name ∷ names))) w w' escapes answers
      ∙ ap
          (λ (o : Option (Unit {0} × W)). elim o [ none ↦ none | some (u, w'') ↦ some (true, w'') ])
          (optimize_rows-names name names w' clean)

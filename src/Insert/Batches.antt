-- ===== src/Insert/Batches.antt =====
-- The queries that a `DBInsert` of source/database.cpp sends: each row once, in the order of the rows.
use juggernaut_server.Base.{
  ℕ, ◌+◌, ◌≡◌, ◌≢◌, refl, ap, sym, subst, ◌∙◌, Bool, true, false, List, [], ◌∷◌, ◌++◌, Option, none,
  some, All, All-append, length, ltb, if◌then◌else◌,
}
use juggernaut_server.Insert.{
  Text, DbInsert, new_insert, is_empty, add_values, execute, push_row, add_row,
}
use juggernaut_server.Insert.Rendering.{concat, concat-append}
use juggernaut_server.Insert.Progress.{
  add_rows, Sends, Sends-append, execute-Flushed, add_rows-Progress,
}

-- With an answer to each query, nothing fails.
module _ {W : Type 0} (execute_query : Text → W → Option (Bool × W)) (max_packet_size : ℕ)
    (done : (q : Text) (w : W) → (u : W) × (execute_query q w ≡ some (true, u))) where
  execute-done :
      (d : DbInsert) (w : W)
      → (r : DbInsert × W) × (execute execute_query max_packet_size d w ≡ some (true, r))
  unfolding execute
  execute-done d w =
      with_values (is_empty d.values) (execute_query (d.query ++ d.values) w)
        (done (d.query ++ d.values) w)
    where
      kept : Option (Bool × (DbInsert × W))
      kept = some (true, (d, w))

      answered : Option (Bool × W) → Option (Bool × (DbInsert × W))
      answered o = elim o [
        | none ↦ none
        | some (res, w') ↦
            some (res, (record { query = d.query; values = []; len = length d.query }, w'))
      ]

      with_values :
          (empty : Bool) (o : Option (Bool × W))
          → ((u : W) × (o ≡ some (true, u)))
          → (r : DbInsert × W) × ((if empty then kept else answered o) ≡ some (true, r))
      with_values true o e = ((d, w), refl)
      with_values false none (u, e) = absurd (cc)
      with_values false (some (res, w')) (u, e) =
          ((record { query = d.query; values = []; len = length d.query }, w'), cc)

  add_row-done :
      (row : Text) (d : DbInsert) (w : W)
      → (r : DbInsert × W) × (add_row execute_query max_packet_size row d w ≡ some (true, r))
  unfolding add_row push_row
  add_row-done row d w = with_test (ltb max_packet_size d'.len)
    where
      d' : DbInsert
      d' = record d { len = d.len + length row }

      with_test :
          (t : Bool)
          → (r : DbInsert × W) × (push_row execute_query max_packet_size row
                (if t then execute execute_query max_packet_size d' w else some (true, (d', w)))
              ≡ some (true, r))
      with_test true =
          let (s, e) = execute-done d' w in
          (
            (record s.0 { values = add_values row s.0.values }, s.1),
            ap (push_row execute_query max_packet_size row) e,
          )
      with_test false = ((record d' { values = add_values row d'.values }, w), refl)

  add_rows-done :
      (rows : List Text) (d : DbInsert) (w : W)
      → (r : DbInsert × W) × (add_rows execute_query max_packet_size rows d w ≡ some (true, r))
  add_rows-done [] d w = ((d, w), refl)
  add_rows-done (row ∷ rows) d w =
      let (s, e) = add_row-done row d w in
      let (r, e') = add_rows-done rows s.0 s.1 in
      (
        r,
        ap
              (λ (o : Option (Bool × (DbInsert × W))). elim o [
                | none ↦ none
                | some (b, (d', w')) ↦
                    if b
                    then add_rows execute_query max_packet_size rows d' w'
                    else some (false, (d', w'))
              ])
              e
            ∙ e',
      )

-- When the database does every query, all rows are added, and the last `execute` flushes them: the
-- queries that were sent have the rows of some batches that are not empty, and the batches together
-- are the rows, each once and in their order, whatever the size of a packet.
pub insert_rows-sent :
    {W : Type 0} (execute_query : Text → W → Option (Bool × W)) (max_packet_size : ℕ) (query : Text)
    (rows : List Text) (w : W)
    → ((q : Text) (w : W) → (u : W) × (execute_query q w ≡ some (true, u)))
    → (d : DbInsert) × (v : W) × (d' : DbInsert) × (v' : W) × (add_rows execute_query
          max_packet_size rows
          (new_insert query)
          w
        ≡ some (true, (d, v)))
      × (execute execute_query max_packet_size d v ≡ some (true, (d', v')))
      × (d'.values ≡ [])
      × (batches : List (List Text)) × (concat batches ≡ rows)
      × Sends execute_query max_packet_size query batches w v'
      × All (λ b. b ≢ []) batches
unfolding new_insert
insert_rows-sent {W} execute_query max_packet_size query rows w done =
    let ((d, v), added) =
      add_rows-done execute_query max_packet_size done rows (new_insert query) w in
    let ((d', v'), executed) = execute-done execute_query max_packet_size done d v in
    let (bs, p, n, u, same, whole, sends, all) =
      add_rows-Progress execute_query max_packet_size query rows [] (length query) w (d, v) added in
    let (bs', n', u', same', whole', sends', all') =
      execute-Flushed execute_query max_packet_size query p n u (d', v')
        (ap (λ (x : DbInsert × W). execute execute_query max_packet_size x.0 x.1) (sym same)
          ∙ executed) in
    (
      d,
      v,
      d',
      v',
      added,
      executed,
      ap (λ (x : DbInsert × W). x.0.values) same',
      bs ++ bs',
      concat-append bs bs' ∙ ap (λ x. concat bs ++ x) whole' ∙ whole,
      Sends-append execute_query max_packet_size query bs bs' w u v' sends (
          subst (λ x. Sends execute_query max_packet_size query bs' u x)
            (sym (ap (λ (x : DbInsert × W). x.1) same')) sends'),
      All-append (λ b. b ≢ []) bs bs' all all',
    )

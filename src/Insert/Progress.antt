-- ===== src/Insert/Progress.antt =====
-- What each operation of a `DBInsert` of source/database.cpp sends and what it leaves.
use juggernaut_server.Base.{
  ℕ, ◌+◌, ◌≡◌, ◌≢◌, refl, ap, sym, subst, ◌∙◌, Bool, true, false, List, [], ◌∷◌, ◌++◌, Option, none,
  some, All, All-append, length, ltb, append-nil, append_assoc, if◌then◌else◌,
}
use juggernaut_server.Insert.{Text, DbInsert, add_values, execute, push_row, add_row}
use juggernaut_server.Insert.Rendering.{render, concat, add_values-render, concat-append}

module _ {W : Type 0} (execute_query : Text → W → Option (Bool × W)) (max_packet_size : ℕ) where
  -- The insert with each row, until one fails.
  abbrev pub add_rows : List Text → DbInsert → W → Option (Bool × (DbInsert × W))
  add_rows [] d w = some (true, (d, w))
  add_rows (row ∷ rows) d w = elim (add_row execute_query max_packet_size row d w) [
    | none ↦ none
    | some (b, (d', w')) ↦ if b then add_rows rows d' w' else some (false, (d', w'))
  ]

  -- Queries with the rows of the batches, sent one after the other, and each of them done.
  abbrev pub Sends : Text → List (List Text) → W → W → Type 0
  Sends query [] w w' = w ≡ w'
  Sends query (rows ∷ batches) w w' =
      (u : W) × (execute_query (query ++ render rows) w ≡ some (true, u)) × Sends query batches u w'

  pub Sends-append :
      (query : Text) (xs ys : List (List Text)) (w u v : W)
      → Sends query xs w u
      → Sends query ys u v
      → Sends query (xs ++ ys) w v
  Sends-append query [] ys w u v e h = subst (λ x. Sends query ys x v) (sym e) h
  Sends-append query (x ∷ xs) ys w u v (t, e, s) h = (t, e, Sends-append query xs ys t u v s h)

  -- An insert whose values are the rows that are not sent.
  abbrev pub at : Text → List Text → ℕ → DbInsert
  at query pending n = record { query = query; values = render pending; len = n }

  -- What is sent and what is left, for some rows.
  abbrev pub Progress : Text → List Text → W → DbInsert × W → Type 0
  Progress query rows w r =
      (batches : List (List Text)) × (pending : List Text) × (n : ℕ) × (w' : W) × (r
        ≡ (at query pending n, w'))
      × (concat batches ++ pending ≡ rows)
      × Sends query batches w w'
      × All (λ b. b ≢ []) batches

  -- The same with nothing left.
  abbrev pub Flushed : Text → List Text → W → DbInsert × W → Type 0
  Flushed query rows w r =
      (batches : List (List Text)) × (n : ℕ) × (w' : W) × (r ≡ (at query [] n, w'))
      × (concat batches ≡ rows)
      × Sends query batches w w'
      × All (λ b. b ≢ []) batches

  pub execute-Flushed :
      (query : Text) (pending : List Text) (n : ℕ) (w : W) (r : DbInsert × W)
      → execute execute_query max_packet_size (at query pending n) w ≡ some (true, r)
      → Flushed query pending w r
  unfolding execute
  execute-Flushed query [] n w r h = ([], n, w, sym (pair_of h), refl, refl, tt)
    where
      pair_of :
          {x y : DbInsert × W}
          → ◌≡◌ {A = Option (Bool × (DbInsert × W))} (some (true, x)) (some (true, y))
          → x ≡ y
      pair_of h = cc
  execute-Flushed query (row ∷ rows) n w r h =
      with_result (execute_query (query ++ render (row ∷ rows)) w) refl h
    where
      after : Option (Bool × W) → Option (Bool × (DbInsert × W))
      after o = elim o [
        | none ↦ none
        | some (res, w') ↦
            some (res, (record { query = query; values = []; len = length query }, w'))
      ]

      with_result :
          (o : Option (Bool × W))
          → execute_query (query ++ render (row ∷ rows)) w ≡ o
          → after o ≡ some (true, r)
          → Flushed query (row ∷ rows) w r
      with_result none e h = absurd (cc)
      with_result (some (false, u)) e h = absurd (cc)
      with_result (some (true, u)) e h = (
        (row ∷ rows) ∷ [],
        length query,
        u,
        cc,
        append-nil (row ∷ rows),
        (u, e, refl),
        ((λ nothing. absurd (cc)), tt),
      )

  pushed :
      (row : Text) (s r : DbInsert × W)
      → push_row execute_query max_packet_size row (some (true, s)) ≡ some (true, r)
      → r ≡ (record s.0 { values = add_values row s.0.values }, s.1)
  unfolding push_row
  pushed row (d, u) r h = cc

  -- One row: what was pending is sent or kept, and the row is pending.
  pub add_row-Progress :
      (query : Text) (pending : List Text) (row : Text) (n : ℕ) (w : W) (r : DbInsert × W)
      → add_row execute_query max_packet_size row (at query pending n) w ≡ some (true, r)
      → Progress query (pending ++ row ∷ []) w r
  unfolding add_row push_row
  add_row-Progress query pending row n w r h = with_test (ltb max_packet_size (n + length row)) h
    where
      d : DbInsert
      d = at query pending (n + length row)

      sent :
          (o : Option (Bool × (DbInsert × W)))
          → execute execute_query max_packet_size d w ≡ o
          → push_row execute_query max_packet_size row o ≡ some (true, r)
          → Progress query (pending ++ row ∷ []) w r
      sent none e h = absurd (cc)
      sent (some (false, s)) e h = absurd (cc)
      sent (some (true, s)) e h =
          let (batches, n', u, same, whole, sends, all) =
            execute-Flushed query pending (n + length row) w s e in
          (
            batches,
            row ∷ [],
            n',
            u,
            pushed row s r h
                ∙ ap
                    (λ (x : DbInsert × W). (record x.0 { values = add_values row x.0.values }, x.1))
                    same
                ∙ ap (λ v. (record (at query [] n') { values = v }, u)) (add_values-render [] row),
            ap (λ x. x ++ row ∷ []) whole,
            sends,
            all,
          )

      with_test :
          (t : Bool)
          → push_row execute_query max_packet_size row
              (if t then execute execute_query max_packet_size d w else some (true, (d, w)))
            ≡ some (true, r)
          → Progress query (pending ++ row ∷ []) w r
      with_test true h = sent (execute execute_query max_packet_size d w) refl h
      with_test false h = (
        [],
        pending ++ row ∷ [],
        n + length row,
        w,
        pushed row (d, w) r h
            ∙ ap (λ v. (record d { values = v }, w)) (add_values-render pending row),
        refl,
        refl,
        tt,
      )

  pub add_rows-Progress :
      (query : Text) (rows pending : List Text) (n : ℕ) (w : W) (r : DbInsert × W)
      → add_rows rows (at query pending n) w ≡ some (true, r)
      → Progress query (pending ++ rows) w r
  add_rows-Progress query [] pending n w r h =
      ([], pending, n, w, cc, sym (append-nil pending), refl, tt)
  add_rows-Progress query (row ∷ rows) pending n w r h =
      with_row (add_row execute_query max_packet_size row (at query pending n) w) refl h
        (λ p m u. add_rows-Progress query rows p m u r)
    where
      and_rows : Option (Bool × (DbInsert × W)) → Option (Bool × (DbInsert × W))
      and_rows o = elim o [
        | none ↦ none
        | some (b, (d', w')) ↦ if b then add_rows rows d' w' else some (false, (d', w'))
      ]

      with_row :
          (o : Option (Bool × (DbInsert × W)))
          → add_row execute_query max_packet_size row (at query pending n) w ≡ o
          → and_rows o ≡ some (true, r)
          → ((p : List Text) (m : ℕ) (u : W)
              → add_rows rows (at query p m) u ≡ some (true, r)
              → Progress query (p ++ rows) u r)
          → Progress query (pending ++ row ∷ rows) w r
      with_row none e h later = absurd (cc)
      with_row (some (false, s)) e h later = absurd (cc)
      with_row (some (true, s)) e h later =
          let (bs, p, m, u, same, whole, sends, all) = add_row-Progress query pending row n w s e in
          let (bs', p', m', u', same', whole', sends', all') =
            later p m u (ap (λ (x : DbInsert × W). add_rows rows x.0 x.1) (sym same) ∙ h) in
          (
            bs ++ bs',
            p',
            m',
            u',
            same',
            ap (λ x. x ++ p') (concat-append bs bs')
                ∙ append_assoc (concat bs) (concat bs') p'
                ∙ ap (λ x. concat bs ++ x) whole'
                ∙ sym (append_assoc (concat bs) p rows)
                ∙ ap (λ x. x ++ rows) whole
                ∙ append_assoc pending (row ∷ []) rows,
            Sends-append query bs bs' w u u' sends sends',
            All-append (λ b. b ≢ []) bs bs' all all',
          )

-- ===== src/Insert.antt =====
-- `DBInsert` of source/database.h and source/database.cpp, over what `Database::executeQuery` does to
-- the world, and over the size of a packet that the server allows.
use juggernaut_server.Base.{
  ℕ, ◌+◌, Bool, true, false, not, ◌&&◌, List, [], ◌∷◌, ◌++◌, Option, none, some, length, ltb,
  if◌then◌else◌,
}
pub mod Rendering
pub mod Progress
pub mod Batches
mod Examples

abbrev pub Text : Type 0
Text = List ℕ

pub record DbInsert : Type 0 where
  pub query : Text
  pub values : Text
  pub len : ℕ

unfoldable pub new_insert : Text → DbInsert
new_insert query = record { query = query; values = []; len = length query }

abbrev pub is_empty : Text → Bool
is_empty [] = true
is_empty (c ∷ s) = false

-- The row in parentheses, behind a comma if it is not the first.
unfoldable pub add_values : Text → Text → Text
add_values row [] = b'(' ∷ (row ++ b')' ∷ [])
add_values row (c ∷ values) = (c ∷ values) ++ b',' ∷ b'(' ∷ (row ++ b')' ∷ [])

module _ {W : Type 0} (execute_query : Text → W → Option (Bool × W)) (max_packet_size : ℕ) where
  -- `execute`; `none` is a query that does not return.
  unfoldable pub execute : DbInsert → W → Option (Bool × (DbInsert × W))
  execute d w =
      if is_empty d.values
      then some (true, (d, w))
      else elim (execute_query (d.query ++ d.values) w) [
        | none ↦ none
        | some (res, w') ↦
            some (res, (record { query = d.query; values = []; len = length d.query }, w'))
      ]

  -- The part of `addRow` behind the flush.
  unfoldable pub push_row : Text → Option (Bool × (DbInsert × W)) → Option (Bool × (DbInsert × W))
  unfolding add_values
  push_row row none = none
  push_row row (some (false, (d, w))) = some (false, (d, w))
  push_row row (some (true, (d, w))) =
      some (true, (record d { values = add_values row d.values }, w))

  unfoldable pub add_row : Text → DbInsert → W → Option (Bool × (DbInsert × W))
  unfolding execute push_row
  add_row row d w =
      let d' : DbInsert = record d { len = d.len + length row } in
      push_row row (if ltb max_packet_size d'.len then execute d' w else some (true, (d', w)))

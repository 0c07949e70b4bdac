-- ===== src/Database/Columns.antt =====
-- The columns of a result of source/database.cpp by their names.
use juggernaut_server.Base.{
  ℕ, suc, ◌+◌, ◌≡◌, ◌≢◌, refl, ap, ◌∙◌, false, List, [], ◌∷◌, ◌++◌, Option, none, some, All, length,
  get_elem?, text_eq, text_eq_iff, text_eq_refl, inl, inr, Bool-cases, if◌then◌else◌, arith,
}
use juggernaut_server.Database.{
  Text, Row, set_name, find_name, list_fields, fetch_row, new_result, column_at, column, until_zero,
  string_value, get_string,
}

-- The map behind an assignment.
find_name-set_name :
    (name other : Text) (i : ℕ) (names : List (Text × ℕ))
    → find_name other (set_name name i names)
      ≡ (if text_eq name other then some i else find_name other names)
unfolding find_name set_name
find_name-set_name name other i [] = refl
find_name-set_name name other i ((n, j) ∷ names) = ground (
  arith,
  text_eq_iff n name,
  text_eq_iff name other,
  text_eq_iff n other,
  find_name-set_name name other i names,
)

different : (name other : Text) → other ≢ name → text_eq other name ≡ false
different name other h = elim (Bool-cases (text_eq other name)) [
  | inl same ↦ absurd (h ((text_eq_iff other name).0 same))
  | inr e ↦ e
]

-- The columns behind one with another name, and up to one with the name.
find_name-behind :
    (name : Text) (fields : List Text) (i : ℕ) (names : List (Text × ℕ))
    → All (λ f. f ≢ name) fields
    → find_name name (list_fields i fields names) ≡ find_name name names
unfolding list_fields
find_name-behind name [] i names all = refl
find_name-behind name (f ∷ fields) i names (h, all) =
    find_name-behind name fields (suc i) (set_name f i names) all
    ∙ find_name-set_name f name i names
    ∙ ap (λ b. if b then some i else find_name name names) (different name f h)

find_name-field :
    (name : Text) (before behind : List Text) (i : ℕ) (names : List (Text × ℕ))
    → All (λ f. f ≢ name) behind
    → find_name name (list_fields i (before ++ name ∷ behind) names) ≡ some (i + length before)
unfolding list_fields
find_name-field name [] behind i names all =
    find_name-behind name behind (suc i) (set_name name i names) all
    ∙ find_name-set_name name name i names
    ∙ ap (λ b. if b then some i else find_name name names) (text_eq_refl name)
    ∙ ap some (omega arith)
find_name-field name (f ∷ before) behind i names all =
    find_name-field name before behind (suc i) (set_name f i names) all ∙ ap some (omega arith)

pub until_zero-text : (text : Text) → All (λ c. c ≢ 0) text → until_zero text ≡ text
unfolding until_zero
until_zero-text [] all = refl
until_zero-text (c ∷ cs) (h, all) = ground (arith, until_zero-text cs all)

abbrev pub text_or_empty : Option Text → Text
text_or_empty none = []
text_or_empty (some text) = text

string_value-text :
    (value : Option Text)
    → All (λ c. c ≢ 0) (text_or_empty value)
    → string_value value ≡ text_or_empty value
unfolding string_value
string_value-text none clean = refl
string_value-text (some text) clean = until_zero-text text clean

-- The value under the last column with a name.
pub column-new_result :
    (name : Text) (before behind : List Text) (row : Row) (rows : List Row) (value : Option Text)
    → All (λ f. f ≢ name) behind
    → get_elem? row (length before) ≡ some value
    → column name (new_result (record { fields = before ++ name ∷ behind; rows = row ∷ rows }))
      ≡ some value
unfolding column column_at new_result fetch_row
column-new_result name before behind row rows value all e =
    ap (λ o. column_at o (some row)) (find_name-field name before behind 0 [] all)
    ∙ ap (get_elem? row) (omega arith)
    ∙ e

-- `getString` on the first row of a result returns the value under the last column with the name, if
-- the value has no zero, and the empty text for NULL.
pub get_string-column :
    (name : Text) (before behind : List Text) (row : Row) (rows : List Row) (value : Option Text)
    → All (λ f. f ≢ name) behind
    → get_elem? row (length before) ≡ some value
    → All (λ c. c ≢ 0) (text_or_empty value)
    → get_string name (new_result (record { fields = before ++ name ∷ behind; rows = row ∷ rows }))
      ≡ some (text_or_empty value)
unfolding get_string
get_string-column name before behind row rows value all e clean =
    ap (λ (o : Option (Option Text)). elim o [ none ↦ none | some v ↦ some (string_value v) ])
      (column-new_result name before behind row rows value all e)
    ∙ ap some (string_value-text value clean)

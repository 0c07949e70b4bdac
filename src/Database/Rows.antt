-- ===== src/Database/Rows.antt =====
-- `DBResult` of source/database.h and source/database.cpp. A result of MySQL is the names of its
-- columns and its rows; a value is a text, or none for NULL. `boost::lexical_cast` is a parameter.
use juggernaut_server.Base.{
  ℕ, suc, List, [], ◌∷◌, Option, none, some, length, get_elem?, text_eq, ◌==◌, if◌then◌else◌,
}

abbrev pub Text : Type 0
Text = List ℕ

abbrev pub Row : Type 0
Row = List (Option Text)

pub record MysqlResult : Type 0 where
  pub fields : List Text
  pub rows : List Row

-- `m_listNames`, the row that was fetched, and the rows that were not.
pub record DbResult : Type 0 where
  pub list_names : List (Text × ℕ)
  pub row : Option Row
  pub rest : List Row

-- `m_listNames[name] = i`, on a map.
unfoldable pub set_name : Text → ℕ → List (Text × ℕ) → List (Text × ℕ)
set_name name i [] = (name, i) ∷ []
set_name name i ((other, j) ∷ names) =
    let rest = set_name name i names in
    if text_eq other name then (name, i) ∷ names else (other, j) ∷ rest

unfoldable pub find_name : Text → List (Text × ℕ) → Option ℕ
find_name name [] = none
find_name name ((other, j) ∷ names) =
    let rest = find_name name names in if text_eq other name then some j else rest

-- The loop over the fields, from the index `i` on.
unfoldable pub list_fields : ℕ → List Text → List (Text × ℕ) → List (Text × ℕ)
unfolding set_name
list_fields i [] names = names
list_fields i (field ∷ fields) names = list_fields (suc i) fields (set_name field i names)

-- `next` on a result, which is `mysql_fetch_row`.
unfoldable pub fetch_row : List (Text × ℕ) → List Row → DbResult
fetch_row names [] = record { list_names = names; row = none; rest = [] }
fetch_row names (row ∷ rows) = record { list_names = names; row = some row; rest = rows }

unfoldable pub next : DbResult → DbResult
unfolding fetch_row
next r = fetch_row r.list_names r.rest

unfoldable pub new_result : MysqlResult → DbResult
unfolding list_fields fetch_row
new_result res = fetch_row (list_fields 0 res.fields []) res.rows

unfoldable pub has_next : DbResult → Option Row
has_next r = r.row

-- The value of a column. `none` is undefined behaviour: no row, or an index behind the row; the
-- inner option is the missing column or the NULL, for which the getters return their default.
unfoldable pub column_at : Option ℕ → Option Row → Option (Option Text)
column_at none row = some none
column_at (some i) none = none
column_at (some i) (some row) = get_elem? row i

unfoldable pub column : Text → DbResult → Option (Option Text)
unfolding find_name column_at
column s r = column_at (find_name s r.list_names) r.row

-- `std::string(const char*)` ends at the first zero.
unfoldable pub until_zero : Text → Text
until_zero [] = []
until_zero (c ∷ cs) = let rest = until_zero cs in if c == 0 then [] else c ∷ rest

unfoldable pub string_value : Option Text → Text
unfolding until_zero
string_value none = []
string_value (some value) = until_zero value

unfoldable pub get_string : Text → DbResult → Option Text
unfolding column string_value
get_string s r = elim (column s r) [ none ↦ none | some value ↦ some (string_value value) ]

-- The bytes and the size that `getStream` returns; a null pointer is none.
unfoldable pub get_stream : Text → DbResult → Option (Option Text × ℕ)
unfolding column
get_stream s r = elim (column s r) [
  | none ↦ none
  | some none ↦ some (none, 0)
  | some (some value) ↦ some (some value, length value)
]

-- `getNumber<T>`, with the cast that fails as none; `zero_value` is `static_cast<T>(0)`.
module _ {T : Type 0} (zero_value : T) (lexical_cast : Text → Option T) where
  unfoldable pub number_value : Option Text → T
  unfolding until_zero
  number_value none = zero_value
  number_value (some value) = elim (lexical_cast (until_zero value)) [
    | none ↦ zero_value
    | some n ↦ n
  ]

  unfoldable pub get_number : Text → DbResult → Option T
  unfolding column number_value
  get_number s r = elim (column s r) [ none ↦ none | some value ↦ some (number_value value) ]

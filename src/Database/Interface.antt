-- ===== src/Database/Interface.antt =====
-- The operations of `Database` of source/database.h that its clients use, as they change some world.
-- `none` is a query that does not return, or a fault.
use juggernaut_server.Base.{Bool, List, [], ◌∷◌, Option, none, some}
use juggernaut_server.Database.{Text, Row, DbResult, new_result}

pub record DatabaseOps (W : Type 0) : Type 0 where
  pub store_query : Text → W → Option (Option DbResult × W)
  pub execute_query : Text → W → Option (Bool × W)
  pub escape_string : Text → Option Text

-- The result that `storeQuery` makes of the rows of one column.
abbrev pub found : Text → List Row → Option DbResult
found field [] = none
found field (row ∷ rows) = some (new_result (record { fields = field ∷ []; rows = row ∷ rows }))

-- A client's computation on the world.
abbrev pub Action : Type 0 → Type 0 → Type 0
Action W A = W → Option (A × W)

infixl 5 ◌>>=◌ ◌>>◌
abbrev pub ◌>>=◌ : {W A B : Type 0} → Action W A → (A → Action W B) → Action W B
◌>>=◌ m f w = elim (m w) [ none ↦ none | some (a, w') ↦ f a w' ]

abbrev pub ◌>>◌ : {W A B : Type 0} → Action W A → Action W B → Action W B
m >> k = m >>= λ _. k

abbrev pub pure : {W A : Type 0} → A → Action W A
pure a w = some (a, w)

abbrev pub lift : {W A : Type 0} → Option A → Action W A
lift none w = none
lift (some a) w = some (a, w)

-- ===== src/Login/Table.antt =====
-- What the queries of source/iologindata.cpp rely on: a table of accounts, where a query that selects
-- returns the rows that match, in some order, and an insertion stores its row or fails. Texts are
-- compared by the collation of the table, and `literal` is the quoted text.
use juggernaut_server.Base.{
  ◌^◌, ◌<◌, ◌≡◌, refl, ap, Bool, true, false, ◌||◌, List, [], ◌∷◌, ◌++◌, none, some, length, codes,
  if◌then◌else◌, arith,
}
use juggernaut_server.Database.{Text, Row, DbResult}
use juggernaut_server.Database.Interface.{DatabaseOps, found}
use juggernaut_server.Login.{name_query, e_mail_query, password_query, insert_query}

pub record Account : Type 0 where
  pub name : Text
  pub password : Text
  pub e_mail : Text

abbrev pub holds : (Account → Bool) → List Account → Bool
holds p [] = false
holds p (a ∷ xs) = p a || holds p xs

abbrev pub selected : (Account → Bool) → (Account → Text) → List Account → List Row
selected p column [] = []
selected p column (a ∷ xs) =
    let rest = selected p column xs in if p a then (some (column a) ∷ []) ∷ rest else rest

abbrev pub Inserted : Bool → Account → List Account → List Account → Type 0
Inserted false new before after = after ≡ before
Inserted true new before after =
    (front : List Account) × (back : List Account) × (before ≡ front ++ back)
    × (after ≡ front ++ new ∷ back)

module _ {W : Type 0} (db : DatabaseOps W) (same : Text → Text → Bool) (literal : Text → Text)
    (accounts : W → List Account) where
  abbrev pub Selects : Text → Text → (Account → Bool) → (Account → Text) → Type 0
  Selects query field p column =
      (w : W)
      → (w' : W) × (db.store_query query w
          ≡ some (found field (selected p column (accounts w)), w'))
        × (accounts w' ≡ accounts w)

  pub record IsAccountTable : Type 0 where
    pub escapes : (s : Text) → length s < 2 ^ 31 → db.escape_string s ≡ some (literal s)
    pub same_refl : (s : Text) → same s s ≡ true
    pub selects_name :
        (s : Text)
        → Selects (name_query (literal s)) (codes "name") (λ a. same a.name s) (λ a. a.name)
    pub selects_e_mail :
        (s : Text)
        → Selects (e_mail_query (literal s)) (codes "e_mail") (λ a. same a.e_mail s) (λ a. a.e_mail)
    pub selects_password :
        (s : Text)
        → Selects
            (password_query (literal s))
            (codes "password")
            (λ a. same a.name s || same a.e_mail s)
            (λ a. a.password)
    pub inserts :
        (new : Account) (w : W)
        → (b : Bool) × (w' : W) × (db.execute_query
              (insert_query (literal new.name) (literal new.password) (literal new.e_mail))
              w
            ≡ some (b, w'))
          × Inserted b new (accounts w) (accounts w')

pub selected-none :
    (p : Account → Bool) (column : Account → Text) (xs : List Account)
    → holds p xs ≡ false
    → selected p column xs ≡ []
selected-none p column [] h = refl
selected-none p column (a ∷ xs) h = ground (arith, selected-none p column xs)

pub selected-append :
    (p : Account → Bool) (column : Account → Text) (xs ys : List Account)
    → selected p column (xs ++ ys) ≡ selected p column xs ++ selected p column ys
selected-append p column [] ys = refl
selected-append p column (x ∷ xs) ys = ground (arith, selected-append p column xs ys)

pub holds-append :
    (p : Account → Bool) (xs ys : List Account) → holds p (xs ++ ys) ≡ (holds p xs || holds p ys)
holds-append p [] ys = refl
holds-append p (x ∷ xs) ys = ground (arith, holds-append p xs ys)

pub found-none :
    (field : Text) (p : Account → Bool) (column : Account → Text) (xs : List Account)
    → holds p xs ≡ false
    → found field (selected p column xs) ≡ none
found-none field p column xs h = ap (found field) (selected-none p column xs h)

pub found-some :
    (field : Text) (p : Account → Bool) (column : Account → Text) (xs : List Account)
    → holds p xs ≡ true
    → (r : DbResult) × (found field (selected p column xs) ≡ some r)
found-some field p column [] h = absurd (cc)
found-some field p column (a ∷ xs) h =
    with_test (p a) refl (λ none_here. found-some field p column xs (ground (arith, none_here)))
  where
    with_test :
        (t : Bool)
        → p a ≡ t
        → (p a ≡ false → (r : DbResult) × (found field (selected p column xs) ≡ some r))
        → (r : DbResult) × (found field
              (if t then (some (column a) ∷ []) ∷ selected p column xs else selected p column xs)
            ≡ some r)
    with_test true e rest = (_, refl)
    with_test false e rest = rest e

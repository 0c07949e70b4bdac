-- ===== src/Login/Logins.antt =====
-- The logins of `IOLoginData::verifyAccount` of source/iologindata.cpp, over a table of accounts (see
-- Table), and those of an account that `IOLoginData::createAccount` made.
use juggernaut_server.Base.{
  ◌^◌, ◌<◌, ◌≡◌, ◌≢◌, refl, sym, ap, subst, ◌∙◌, Bool, true, false, not, ◌||◌, List, [], ◌∷◌, ◌++◌,
  Option, none, some, length, codes, text_eq, if◌then◌else◌, arith, All,
}
use juggernaut_server.Sha1.{transform_to_sha1}
use juggernaut_server.Database.{Text, Row}
use juggernaut_server.Database.Columns.{get_string-column}
use juggernaut_server.Database.Interface.{DatabaseOps, found}
use juggernaut_server.Login.Digest.{transform_to_sha1-clean}
use juggernaut_server.Login.Table.{Account, holds, selected, IsAccountTable, holds-append}
use juggernaut_server.Login.Accounts.{
  has_name, has_e_mail, Created, name_taken, e_mail_taken, refused, made, registered,
  new_account-Created, literal_of,
}
use juggernaut_server.Login.{
  LoginOpcode, invalid_account_name, invalid_password, login_success, create_account_success,
  check_password, check_result, answer, with_result, verify_account, new_account,
}

-- The account that a login is for: the first one with the text as its name or its e-mail.
abbrev pub matches : (Text → Text → Bool) → Text → Account → Bool
matches same s a = same a.name s || same a.e_mail s

abbrev pub first_match : (Account → Bool) → List Account → Option Account
first_match p [] = none
first_match p (a ∷ xs) = let rest = first_match p xs in if p a then some a else rest

abbrev pub verdict : Text → Option Account → LoginOpcode
verdict attempt none = invalid_account_name
verdict attempt (some a) =
    if not (text_eq (transform_to_sha1 attempt) a.password) then invalid_password else login_success

-- The stored passwords have no zero.
abbrev pub AreClean : List Account → Type 0
AreClean [] = Unit
AreClean (a ∷ xs) = All (λ c. c ≢ 0) a.password × AreClean xs

check_row :
    (attempt stored : Text) (rows : List Row)
    → All (λ c. c ≢ 0) stored
    → check_result attempt (found (codes "password") ((some stored ∷ []) ∷ rows))
      ≡ some (
          if not (text_eq (transform_to_sha1 attempt) stored)
          then invalid_password
          else login_success)
unfolding check_result check_password
check_row attempt stored rows clean =
    ap (check_password attempt) (
      get_string-column (codes "password") [] [] (some stored ∷ []) rows (some stored) tt refl
        clean)

-- What is made of the selected rows.
check_selected :
    (p : Account → Bool) (attempt : Text) (xs : List Account)
    → AreClean xs
    → check_result attempt (found (codes "password") (selected p (λ a. a.password) xs))
      ≡ some (verdict attempt (first_match p xs))
unfolding check_result
check_selected p attempt [] clean = refl
check_selected p attempt (a ∷ xs) clean = with_test (p a) (check_selected p attempt xs clean.1)
  where
    rest : List Row
    rest = selected p (λ a. a.password) xs

    with_test :
        (t : Bool)
        → check_result attempt (found (codes "password") rest)
          ≡ some (verdict attempt (first_match p xs))
        → check_result attempt
            (found (codes "password") (if t then (some a.password ∷ []) ∷ rest else rest))
          ≡ some (verdict attempt (if t then some a else first_match p xs))
    with_test true h = check_row attempt a.password rest clean.0
    with_test false h = h

module _ {W : Type 0} (db : DatabaseOps W) (same : Text → Text → Bool) (literal : Text → Text)
    (accounts : W → List Account) where
  -- Over a table of accounts whose stored passwords have no zero, and for a text of less than 2 ^ 31
  -- characters: a login returns and keeps the accounts. It is judged by the first account that the table lists
  -- with the text as its name or its e-mail, and no other: it succeeds if the digest of the password
  -- is the stored one.
  pub verify_account-first :
      IsAccountTable db same literal accounts
      → (s attempt : Text) (w : W) → length s < 2 ^ 31
      → AreClean (accounts w)
      → (v : W) × (verify_account db s attempt w
          ≡ some (verdict attempt (first_match (matches same s) (accounts w)), v))
        × (accounts v ≡ accounts w)
  unfolding verify_account
  verify_account-first t s attempt w h clean =
      let (v, r, kept) = t.selects_password s w in
      (
        v,
        literal_of db same literal accounts t s _ w h
            ∙ ap (with_result db (λ result. answer db (check_result attempt result))) r
            ∙ ap (λ o. answer db o v) (check_selected (matches same s) attempt (accounts w) clean),
        kept,
      )

holds-or :
    (p q : Account → Bool) (xs : List Account)
    → holds p xs ≡ false
    → holds q xs ≡ false
    → holds (λ a. p a || q a) xs ≡ false
holds-or p q [] h h' = refl
holds-or p q (a ∷ xs) h h' = ground (arith, holds-or p q xs)

first_match-between :
    (p : Account → Bool) (front back : List Account) (a : Account)
    → holds p front ≡ false
    → p a ≡ true
    → first_match p (front ++ a ∷ back) ≡ some a
first_match-between p [] back a h e = rw e refl
first_match-between p (b ∷ front) back a h e = ground (arith, first_match-between p front back a)

AreClean-insert :
    (front back : List Account) (a : Account)
    → AreClean (front ++ back)
    → All (λ c. c ≢ 0) a.password
    → AreClean (front ++ a ∷ back)
AreClean-insert [] back a clean h = (h, clean)
AreClean-insert (b ∷ front) back a clean h = (clean.0, AreClean-insert front back a clean.1 h)

-- The table of a successful creation.
made-between :
    (same : Text → Text → Bool) (new : Account) (before after : List Account) (op : LoginOpcode)
    → Created same new before op after
    → op ≡ create_account_success
    → (front : List Account) × (back : List Account) × (has_name new.name same before ≡ false)
      × (has_e_mail new.e_mail same before ≡ false)
      × (before ≡ front ++ back)
      × (after ≡ front ++ new ∷ back)
made-between same new before after op (name_taken n) e = absurd (cc)
made-between same new before after op (e_mail_taken n m) e = absurd (cc)
made-between same new before after op (refused n m) e = absurd (cc)
made-between same new before after op (made front back n m split) e =
    (front, back, n, m, split, refl)

module _ {W : Type 0} (db : DatabaseOps W) (same : Text → Text → Bool) (literal : Text → Text)
    (accounts : W → List Account) where
  -- The one account that a text is for, when the table did not have the text before.
  new-first :
      IsAccountTable db same literal accounts
      → (s attempt : Text) (new : Account) (front back : List Account) (w : W) → length s < 2 ^ 31
      → AreClean (accounts w)
      → accounts w ≡ front ++ new ∷ back
      → holds (matches same s) (front ++ back) ≡ false
      → matches same s new ≡ true
      → (v : W) × (verify_account db s attempt w ≡ some (verdict attempt (some new), v))
        × (accounts v ≡ accounts w)
  new-first t s attempt new front back w h clean now none_before is_new =
      let (v, r, kept) = verify_account-first db same literal accounts t s attempt w h clean in
      (
        v,
        r
            ∙ ap (λ o. some (verdict attempt o, v))
                (ap (first_match (matches same s)) now
                  ∙ first_match-between (matches same s) front back new
                      (ground (arith, holds-append (matches same s) front back)) is_new),
        kept,
      )

  -- Over a table of accounts whose stored passwords have no zero, and for a name and an e-mail of less
  -- than 2 ^ 31 characters: after an account was created, and if its name was not the e-mail of another account nor its
  -- e-mail the name of one, a login by its name and one by its e-mail succeed with its password, or
  -- another of the same digest, and are told that the password is wrong with any other.
  pub new_account-login :
      IsAccountTable db same literal accounts
      → (username e_mail password attempt : Text) (w w' : W) → length username < 2 ^ 31
      → length e_mail < 2 ^ 31
      → AreClean (accounts w)
      → has_e_mail username same (accounts w) ≡ false
      → has_name e_mail same (accounts w) ≡ false
      → new_account db username e_mail password w ≡ some (create_account_success, w')
      → let answer_to : LoginOpcode =
          if not (text_eq (transform_to_sha1 attempt) (transform_to_sha1 password))
          then invalid_password
          else login_success in
        ((v : W) × (verify_account db username attempt w' ≡ some (answer_to, v))
          × (accounts v ≡ accounts w'))
        × ((v : W) × (verify_account db e_mail attempt w' ≡ some (answer_to, v))
            × (accounts v ≡ accounts w'))
  new_account-login t username e_mail password attempt w w' h h' clean no_mail no_name done =
      with_table (new_account-Created db same literal accounts t username e_mail password w h h')
    where
      new : Account
      new = registered username e_mail password

      with_table :
          ((op : LoginOpcode) × (u : W) × (new_account db username e_mail password w ≡ some (op, u))
            × Created same new (accounts w) op (accounts u))
          → ((v : W) × (verify_account db username attempt w'
                ≡ some (verdict attempt (some new), v))
              × (accounts v ≡ accounts w'))
            × ((v : W) × (verify_account db e_mail attempt w'
                  ≡ some (verdict attempt (some new), v))
                × (accounts v ≡ accounts w'))
      with_table (op, u, r, c) =
          let (front, back, n, m, split, now) =
            made-between same new (accounts w) (accounts u) op c (cc (r, done)) in
          let same_world : u ≡ w' = cc (r, done) in
          let now' : accounts w' ≡ front ++ new ∷ back = ap accounts (sym same_world) ∙ now in
          let clean' = subst AreClean (sym now') (
            AreClean-insert front back new (subst AreClean split clean)
              (transform_to_sha1-clean password)) in
          (
            new-first t username attempt new front back w' h clean' now'
                (subst (λ xs. holds (matches same username) xs ≡ false) split
                  (holds-or (λ a. same a.name username) (λ a. same a.e_mail username) (accounts w) n
                    no_mail))
                (ap (λ b. b || same e_mail username) (t.same_refl username)),
            new-first t e_mail attempt new front back w' h' clean' now'
                (subst (λ xs. holds (matches same e_mail) xs ≡ false) split
                  (holds-or (λ a. same a.name e_mail) (λ a. same a.e_mail e_mail) (accounts w)
                    no_name m))
                (ground (arith, t.same_refl e_mail)),
          )

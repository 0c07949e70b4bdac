-- ===== src/Login/Accounts.antt =====
-- The accounts that `IOLoginData::createAccount` of source/iologindata.cpp makes, and the logins of
-- `IOLoginData::verifyAccount`, over a table of accounts (see Table).
use juggernaut_server.Base.{
  ◌^◌, ◌<◌, ◌≡◌, refl, sym, ap, subst, ◌∙◌, Bool, true, false, List, ◌∷◌, ◌++◌, Option, some,
  length, codes, arith,
}
use juggernaut_server.Sha1.{transform_to_sha1}
use juggernaut_server.Database.{Text, DbResult}
use juggernaut_server.Database.Interface.{DatabaseOps, found}
use juggernaut_server.Login.Digest.{length-transform_to_sha1}
use juggernaut_server.Login.Table.{
  Account, holds, selected, Inserted, IsAccountTable, found-none, found-some,
}
use juggernaut_server.Login.{
  LoginOpcode, username_already_exists, email_already_registered, account_cannot_be_created,
  create_account_success, name_query, e_mail_query, insert_query, with_result, with_literal,
  inserted, insert_account, unless_e_mail, unless_name, new_account,
}

abbrev pub has_name : Text → (Text → Text → Bool) → List Account → Bool
has_name s same xs = holds (λ a. same a.name s) xs

abbrev pub has_e_mail : Text → (Text → Text → Bool) → List Account → Bool
has_e_mail s same xs = holds (λ a. same a.e_mail s) xs

-- What a creation makes of the accounts.
pub data Created (same : Text → Text → Bool) (new : Account) (before : List Account)
    : LoginOpcode → List Account → Type 0 where
  name_taken :
      has_name new.name same before ≡ true → Created same new before username_already_exists before
  e_mail_taken :
      has_name new.name same before ≡ false
      → has_e_mail new.e_mail same before ≡ true
      → Created same new before email_already_registered before
  refused :
      has_name new.name same before ≡ false
      → has_e_mail new.e_mail same before ≡ false
      → Created same new before account_cannot_be_created before
  made :
      (front back : List Account)
      → has_name new.name same before ≡ false
      → has_e_mail new.e_mail same before ≡ false
      → before ≡ front ++ back
      → Created same new before create_account_success (front ++ new ∷ back)

abbrev pub registered : Text → Text → Text → Account
registered username e_mail password = record {
  name = username;
  password = transform_to_sha1 password;
  e_mail = e_mail;
}

module _ {W : Type 0} (db : DatabaseOps W) (same : Text → Text → Bool) (literal : Text → Text)
    (accounts : W → List Account) where
  -- An outcome of a creation, whose table is that of the world that it ends in.
  abbrev pub Creates : Account → List Account → Option (LoginOpcode × W) → Type 0
  Creates new before r =
      (op : LoginOpcode) × (w' : W) × (r ≡ some (op, w')) × Created same new before op (accounts w')

  pub literal_of :
      IsAccountTable db same literal accounts
      → (s : Text) (f : Text → W → Option (LoginOpcode × W)) (w : W) → length s < 2 ^ 31
      → with_literal db f (db.escape_string s) w ≡ f (literal s) w
  literal_of t s f w h = ap (λ o. with_literal db f o w) (t.escapes s h)

  insert-Creates :
      IsAccountTable db same literal accounts
      → (username e_mail password : Text) (before : List Account) (w : W) → length username < 2 ^ 31
      → length e_mail < 2 ^ 31
      → accounts w ≡ before
      → has_name username same before ≡ false
      → has_e_mail e_mail same before ≡ false
      → Creates
          (registered username e_mail password)
          before
          (insert_account db username e_mail password w)
  unfolding insert_account inserted
  insert-Creates t username e_mail password before w h h' e n m = with_answer (t.inserts new w)
    where
      new : Account
      new = registered username e_mail password

      hash : Text
      hash = transform_to_sha1 password

      query : Text
      query = insert_query (literal username) (literal hash) (literal e_mail)

      sends :
          insert_account db username e_mail password w
          ≡ with_result db (inserted db) (db.execute_query query w)
      sends =
          literal_of t username _ w h
          ∙ literal_of t hash _ w (omega (arith, length-transform_to_sha1 password))
          ∙ literal_of t e_mail _ w h'

      with_answer :
          ((b : Bool) × (w' : W) × (db.execute_query query w ≡ some (b, w'))
            × Inserted b new (accounts w) (accounts w'))
          → Creates new before (insert_account db username e_mail password w)
      with_answer (false, w', r, kept) = (
        account_cannot_be_created,
        w',
        sends ∙ ap (with_result db (inserted db)) r,
        subst (Created same new before account_cannot_be_created) (sym (kept ∙ e)) (refused n m),
      )
      with_answer (true, w', r, (front, back, split, now)) = (
        create_account_success,
        w',
        sends ∙ ap (with_result db (inserted db)) r,
        subst (Created same new before create_account_success) (sym now)
            (made front back n m (sym e ∙ split)),
      )

  e_mail-Creates :
      IsAccountTable db same literal accounts
      → (username e_mail password : Text) (before : List Account) (w : W) → length username < 2 ^ 31
      → length e_mail < 2 ^ 31
      → accounts w ≡ before
      → has_name username same before ≡ false
      → Creates (registered username e_mail password) before (
          with_result db
            (unless_e_mail db username e_mail password)
            (db.store_query (e_mail_query (literal e_mail)) w))
  unfolding unless_e_mail
  e_mail-Creates t username e_mail password before w h h' e n =
      with_rows (t.selects_e_mail e_mail w) (holds mails before) refl
    where
      mails : Account → Bool
      mails a = same a.e_mail e_mail

      run : Option (Option DbResult × W) → Option (LoginOpcode × W)
      run = with_result db (unless_e_mail db username e_mail password)

      new : Account
      new = registered username e_mail password

      rows_of : List Account → Option DbResult
      rows_of xs = found (codes "e_mail") (selected mails (λ a. a.e_mail) xs)

      with_rows :
          ((w' : W) × (db.store_query (e_mail_query (literal e_mail)) w
              ≡ some (rows_of (accounts w), w'))
            × (accounts w' ≡ accounts w))
          → (b : Bool) → holds mails before ≡ b
          → Creates new before (run (db.store_query (e_mail_query (literal e_mail)) w))
      with_rows (w', r, kept) false m =
          let sent = ap run (
            r
            ∙ ap (λ o. some (o, w'))
                (ap rows_of e ∙ found-none (codes "e_mail") mails (λ a. a.e_mail) before m)) in
          let (op, v, r', c) =
            insert-Creates t username e_mail password before w' h h' (kept ∙ e) n m in
          (op, v, sent ∙ r', c)
      with_rows (w', r, kept) true m =
          let (row, is_row) = found-some (codes "e_mail") mails (λ a. a.e_mail) before m in
          (
            email_already_registered,
            w',
            ap run (r ∙ ap (λ o. some (o, w')) (ap rows_of e ∙ is_row)),
            subst (Created same new before email_already_registered) (sym (kept ∙ e))
                (e_mail_taken n m),
          )

  -- Over a table of accounts, and for a name and an e-mail of less than 2 ^ 31 characters: a creation
  -- returns, with the accounts as they were and the reason if the name or the e-mail is
  -- taken or the insertion fails, and with the new account added and no other change if it succeeds.
  pub new_account-Created :
      IsAccountTable db same literal accounts
      → (username e_mail password : Text) (w : W) → length username < 2 ^ 31
      → length e_mail < 2 ^ 31
      → (op : LoginOpcode) × (w' : W) × (new_account db username e_mail password w ≡ some (op, w'))
        × Created same (registered username e_mail password) (accounts w) op (accounts w')
  unfolding new_account unless_name
  new_account-Created t username e_mail password w h h' =
      with_rows (t.selects_name username w) (holds names (accounts w)) refl
    where
      names : Account → Bool
      names a = same a.name username

      run : Option (Option DbResult × W) → Option (LoginOpcode × W)
      run = with_result db (unless_name db username e_mail password)

      new : Account
      new = registered username e_mail password

      rows_of : List Account → Option DbResult
      rows_of xs = found (codes "name") (selected names (λ a. a.name) xs)

      first :
          new_account db username e_mail password w
          ≡ run (db.store_query (name_query (literal username)) w)
      first = literal_of t username _ w h

      with_rows :
          ((w' : W) × (db.store_query (name_query (literal username)) w
              ≡ some (rows_of (accounts w), w'))
            × (accounts w' ≡ accounts w))
          → (b : Bool) → holds names (accounts w) ≡ b
          → Creates new (accounts w) (new_account db username e_mail password w)
      with_rows (w', r, kept) false n =
          let sent = ap run (
            r
            ∙ ap (λ o. some (o, w'))
                (found-none (codes "name") names (λ a. a.name) (accounts w) n)) in
          let (op, v, r', c) =
            e_mail-Creates t username e_mail password (accounts w) w' h h' kept n in
          (op, v, first ∙ sent ∙ literal_of t e_mail _ w' h' ∙ r', c)
      with_rows (w', r, kept) true n =
          let (row, is_row) = found-some (codes "name") names (λ a. a.name) (accounts w) n in
          (
            username_already_exists,
            w',
            first ∙ ap run (r ∙ ap (λ o. some (o, w')) is_row),
            subst (Created same new (accounts w) username_already_exists) (sym kept) (name_taken n),
          )

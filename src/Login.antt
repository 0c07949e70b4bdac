-- ===== src/Login.antt =====
-- `IOLoginData` of source/iologindata.cpp, over the operations of a database (Database/Interface).
-- `none` is a query that does not return, or a fault.
use juggernaut_server.Base.{
  ℕ, Bool, true, false, not, List, [], ◌∷◌, ◌++◌, Option, none, some, codes, text_eq, if◌then◌else◌,
}
use juggernaut_server.Sha1.{transform_to_sha1}
use juggernaut_server.Database.{Text, DbResult, get_string}
use juggernaut_server.Database.Interface.{DatabaseOps}
pub mod Digest
pub mod Table
pub mod Accounts
pub mod Logins
pub mod Client
pub mod Answers
pub mod FirstMessage
mod Examples

pub data LoginOpcode : Type 0 where
  invalid_account_name invalid_password login_success do_login create_account : LoginOpcode
  username_already_exists email_already_registered account_cannot_be_created : LoginOpcode
  create_account_success : LoginOpcode

unfoldable pub opcode : LoginOpcode → ℕ
opcode invalid_account_name = 0x01
opcode invalid_password = 0x02
opcode login_success = 0x03
opcode do_login = 0x04
opcode create_account = 0x05
opcode username_already_exists = 0x06
opcode email_already_registered = 0x07
opcode account_cannot_be_created = 0x08
opcode create_account_success = 0x09

-- The queries, over quoted texts.
unfoldable pub password_query : Text → Text
password_query name =
    codes "SELECT `password` FROM `accounts` WHERE name = "
    ++ (name ++ (codes " OR e_mail = " ++ name))

unfoldable pub name_query : Text → Text
name_query name = codes "SELECT `name` FROM `accounts` WHERE `name` = " ++ name

unfoldable pub e_mail_query : Text → Text
e_mail_query e_mail = codes "SELECT `e_mail` FROM `accounts` WHERE `e_mail` = " ++ e_mail

unfoldable pub insert_query : Text → Text → Text → Text
insert_query name password e_mail =
    codes "INSERT INTO `accounts`(`name`, `password`, `e_mail`) VALUES"
    ++ (codes "(" ++ (name ++ (codes ", " ++ (password ++ (codes ", " ++ (e_mail ++ codes ")"))))))

-- The comparison in `IOLoginData::verifyAccount`.
unfoldable pub check_password : Text → Option Text → Option LoginOpcode
check_password password none = none
check_password password (some stored) =
    some (
      if not (text_eq (transform_to_sha1 password) stored) then invalid_password else login_success)

unfoldable pub check_result : Text → Option DbResult → Option LoginOpcode
unfolding check_password
check_result password none = some invalid_account_name
check_result password (some result) = check_password password (get_string (codes "password") result)

module _ {W : Type 0} (db : DatabaseOps W) where
  abbrev pub answer : Option LoginOpcode → W → Option (LoginOpcode × W)
  answer none w = none
  answer (some op) w = some (op, w)

  -- A result, handed to what follows it.
  abbrev pub with_result :
      {A : Type 0} → (A → W → Option (LoginOpcode × W)) → Option (A × W) → Option (LoginOpcode × W)
  with_result next none = none
  with_result next (some (a, w)) = next a w

  abbrev pub with_literal :
      (Text → W → Option (LoginOpcode × W)) → Option Text → W → Option (LoginOpcode × W)
  with_literal next none w = none
  with_literal next (some literal) w = next literal w

  -- `IOLoginData::verifyAccount`.
  unfoldable pub verify_account : Text → Text → W → Option (LoginOpcode × W)
  unfolding check_result password_query
  verify_account account_name password =
      with_literal
        (λ name w.
          with_result (λ result. answer (check_result password result))
            (db.store_query (password_query name) w))
        (db.escape_string account_name)

  unfoldable pub inserted : Bool → W → Option (LoginOpcode × W)
  inserted res w = some (if not res then account_cannot_be_created else create_account_success, w)

  -- `IOLoginData::createAccount`: the insertion, the query for the e-mail and the insertion, and the
  -- whole.
  unfoldable pub insert_account : Text → Text → Text → W → Option (LoginOpcode × W)
  unfolding inserted insert_query
  insert_account username e_mail password =
      with_literal
        (λ name.
          with_literal
            (λ hash.
              with_literal
                (λ mail w. with_result inserted (db.execute_query (insert_query name hash mail) w))
                (db.escape_string e_mail))
            (db.escape_string (transform_to_sha1 password)))
        (db.escape_string username)

  unfoldable pub unless_e_mail : Text → Text → Text → Option DbResult → W → Option (LoginOpcode × W)
  unfolding insert_account
  unless_e_mail username e_mail password (some result) w = some (email_already_registered, w)
  unless_e_mail username e_mail password none w = insert_account username e_mail password w

  unfoldable pub unless_name : Text → Text → Text → Option DbResult → W → Option (LoginOpcode × W)
  unfolding unless_e_mail e_mail_query
  unless_name username e_mail password (some result) w = some (username_already_exists, w)
  unless_name username e_mail password none w =
      with_literal
        (λ mail w.
          with_result (unless_e_mail username e_mail password)
            (db.store_query (e_mail_query mail) w))
        (db.escape_string e_mail) w

  unfoldable pub new_account : Text → Text → Text → W → Option (LoginOpcode × W)
  unfolding unless_name name_query
  new_account username e_mail password =
      with_literal
        (λ name w.
          with_result (unless_name username e_mail password) (db.store_query (name_query name) w))
        (db.escape_string username)

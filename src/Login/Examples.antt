-- ===== src/Login/Examples.antt =====
-- The login protocol over a table of accounts that is a list: the queries are parsed, and a literal
-- is the text behind its length.
use juggernaut_server.Base.{
  ℕ, ◌-◌, ◌≡◌, refl, ap, ap₂, true, false, not, List, [], ◌∷◌, ◌++◌, Option, none, some, length,
  codes, text_eq, text_eq_refl, ◌==◌, if◌then◌else◌, arith, take, drop, get_or, take_all, drop_all,
  take-append, drop-append,
}
use juggernaut_server.Sha1.{transform_to_sha1}
use juggernaut_server.Database.{Text, DbResult}
use juggernaut_server.Database.Interface.{DatabaseOps, found}
use juggernaut_server.Login.{
  LoginOpcode, invalid_password, login_success, create_account_success, name_query, e_mail_query,
  password_query, insert_query, verify_account, new_account, unless_name, unless_e_mail,
  insert_account, inserted,
}
use juggernaut_server.Message.{NetworkMessage}
use juggernaut_server.Message.Items.{items_bytes}
use juggernaut_server.Protocol.{Protocol}
use juggernaut_server.Xtea.{Key}
use juggernaut_server.Login.FirstMessage.{first_items, on_recv_first_message-dispatches}
use juggernaut_server.Login.Client.{
  LoginTask, verify, create, LoginCall, run_login_task, dispatch, on_recv_first_message,
  decrypt_first,
}
use juggernaut_server.Login.Table.{Account, selected, IsAccountTable}
use juggernaut_server.Login.Accounts.{registered, Created}
use juggernaut_server.Login.Logins.{matches, first_match, new_account-login}
use juggernaut_server.Login.Answers.{Answers, run_login_task-Answers}

abbrev literal : Text → Text
literal s = length s ∷ s

-- The text of the first literal, and what is behind it.
unfoldable cut : Text → Text × Text
cut [] = ([], [])
cut (n ∷ s) = (take n s, drop n s)

cut-literal : (s rest : Text) → cut (literal s ++ rest) ≡ (s, rest)
unfolding cut
cut-literal s rest =
    ap₂ (λ a b. (a, b)) (take-append s rest (length s) refl) (drop-append s rest (length s) refl)

cut_last : (s : Text) → cut (literal s) ≡ (s, [])
unfolding cut
cut_last s =
    ap₂ (λ a b. (a, b)) (take_all s (length s) (omega arith)) (drop_all s (length s) (omega arith))

abbrev select : Text → List Account → Option DbResult
select query xs =
    let column = get_or query 8 0 in
    if column == b'n'
    then found (codes "name")
        (selected (λ a. text_eq a.name (cut (drop 45 query)).0) (λ a. a.name) xs)
    else (if column == b'e'
        then found (codes "e_mail")
            (selected (λ a. text_eq a.e_mail (cut (drop 49 query)).0) (λ a. a.e_mail) xs)
        else found (codes "password")
            (selected (matches text_eq (cut (drop 47 query)).0) (λ a. a.password) xs))

abbrev insert_row : Text → List Account → List Account
insert_row query xs =
    let (name, behind) = cut (drop 60 query) in
    let (password, behind') = cut (drop 2 behind) in
    let (e_mail, end) = cut (drop 2 behind') in
    record { name = name; password = password; e_mail = e_mail } ∷ xs

abbrev table : DatabaseOps (List Account)
table = record {
  store_query = λ query xs. some (select query xs, xs);
  execute_query = λ query xs. some (true, insert_row query xs);
  escape_string = λ s. some (literal s);
}

name_length : length (codes "SELECT `name` FROM `accounts` WHERE `name` = ") ≡ 45
name_length = refl

e_mail_length : length (codes "SELECT `e_mail` FROM `accounts` WHERE `e_mail` = ") ≡ 49
e_mail_length = refl

password_length : length (codes "SELECT `password` FROM `accounts` WHERE name = ") ≡ 47
password_length = refl

insert_length : length (codes "INSERT INTO `accounts`(`name`, `password`, `e_mail`) VALUES(") ≡ 60
insert_length = refl

insert-literals :
    (new : Account) (xs : List Account)
    → insert_row (insert_query (literal new.name) (literal new.password) (literal new.e_mail)) xs
      ≡ new ∷ xs
unfolding insert_query
insert-literals new xs =
    rw
      (
        cut-literal new.name (
            codes ", "
            ++ (literal new.password ++ (codes ", " ++ (literal new.e_mail ++ codes ")")))),
        cut-literal new.password (codes ", " ++ (literal new.e_mail ++ codes ")")),
        cut-literal new.e_mail (codes ")"),
      )
      refl

table-IsAccountTable : IsAccountTable table text_eq literal (λ xs. xs)
unfolding name_query e_mail_query password_query insert_query
table-IsAccountTable = record {
  escapes = λ s h. refl;
  same_refl = text_eq_refl;
  selects_name = λ s xs. (
    xs,
    ap
        (λ (c : Text × Text).
          some (found (codes "name") (selected (λ a. text_eq a.name c.0) (λ a. a.name) xs), xs))
        (cut_last s),
    refl,
  );
  selects_e_mail = λ s xs. (
    xs,
    ap
        (λ (c : Text × Text).
          some
            (found (codes "e_mail") (selected (λ a. text_eq a.e_mail c.0) (λ a. a.e_mail) xs), xs))
        (cut_last s),
    refl,
  );
  selects_password = λ s xs. (
    xs,
    ap
        (λ (c : Text × Text).
          some (found (codes "password") (selected (matches text_eq c.0) (λ a. a.password) xs), xs))
        (cut-literal s (codes " OR e_mail = " ++ literal s)),
    refl,
  );
  inserts = λ new xs. (
    true,
    new ∷ xs,
    ap (λ (ys : List Account). some (true, ys)) (insert-literals new xs),
    ([], xs, refl, refl),
  );
}

abbrev alice : Account
alice = record { name = codes "alice"; password = codes "0a"; e_mail = codes "a@x" }

-- A second account, whose name is the e-mail of the first.
abbrev shadow : Account
shadow = record { name = codes "a@x"; password = codes "0b"; e_mail = codes "s@x" }

abbrev new_bob : LoginTask
new_bob = create (codes "bob") (codes "b@x") (codes "pw")

bob-created :
    new_account table (codes "bob") (codes "b@x") (codes "pw") (alice ∷ [])
    ≡ some
        (create_account_success, registered (codes "bob") (codes "b@x") (codes "pw") ∷ alice ∷ [])
unfolding new_account unless_name unless_e_mail insert_account inserted cut name_query e_mail_query
bob-created =
    ap (λ (ys : List Account). some (create_account_success, ys))
      (insert-literals (registered (codes "bob") (codes "b@x") (codes "pw")) (alice ∷ []))

-- The e-mail of the first account finds the second one, which is listed before it.
shadow-found : first_match (matches text_eq (codes "a@x")) (shadow ∷ alice ∷ []) ≡ some shadow
shadow-found = refl

abbrev with_bob : List Account
with_bob = registered (codes "bob") (codes "b@x") (codes "pw") ∷ alice ∷ []

abbrev answer_to_bob : LoginOpcode
answer_to_bob =
    if not (text_eq (transform_to_sha1 (codes "pw")) (transform_to_sha1 (codes "pw")))
    then invalid_password
    else login_success

new_account-login_example :
    ((v : List Account) × (verify_account table (codes "bob") (codes "pw") with_bob
        ≡ some (answer_to_bob, v))
      × (v ≡ with_bob))
    × ((v : List Account) × (verify_account table (codes "b@x") (codes "pw") with_bob
          ≡ some (answer_to_bob, v))
        × (v ≡ with_bob))
new_account-login_example =
    new_account-login table text_eq literal (λ xs. xs) table-IsAccountTable (codes "bob")
      (codes "b@x") (codes "pw") (codes "pw") (alice ∷ []) with_bob (omega arith) (omega arith)
      (omega arith) refl refl bob-created

run_login_task-Answers_example :
    (op : LoginOpcode) × (calls : List LoginCall) × (w' : List Account) × (run_login_task table
        (λ i. 0)
        new_bob
        (alice ∷ [])
      ≡ some (calls, w'))
    × Answers create_account_success op calls
    × Created text_eq (registered (codes "bob") (codes "b@x") (codes "pw")) (alice ∷ []) op w'
run_login_task-Answers_example =
    run_login_task-Answers table (λ i. 0) text_eq literal (λ xs. xs) table-IsAccountTable new_bob
      (alice ∷ []) (omega arith) (omega arith)

-- The first message of a login without RSA.
abbrev words : Key
words = record { k0 = 1; k1 = 2; k2 = 3; k3 = 4 }

abbrev login_bytes : List ℕ
login_bytes = items_bytes (first_items (verify (codes "bob") (codes "pw")) words)

abbrev login_message : NetworkMessage
login_message = record {
  len = 26;
  position = 8;
  overrun = false;
  buffer = λ i. get_or login_bytes (i - 8) 0;
}

abbrev new_client : Protocol
new_client = record {
  key = record { k0 = 0; k1 = 0; k2 = 0; k3 = 0 };
  encryption_enabled = false;
  checksum_enabled = true;
  raw_messages = false;
  output_buffer = none;
}

on_recv_first_message-dispatches_example :
    on_recv_first_message (λ bs. bs) false new_client login_message
    ≡ some (
      dispatch (verify (codes "bob") (codes "pw")) ∷ [],
      record new_client { key = words; encryption_enabled = true },
    )
unfolding decrypt_first
on_recv_first_message-dispatches_example =
    on_recv_first_message-dispatches (λ bs. bs) false new_client login_message login_message
      (verify (codes "bob") (codes "pw")) words (omega arith) (omega arith) refl
      (record { bytes = refl; received = omega arith; in_array = omega arith })

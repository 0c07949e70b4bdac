-- ===== src/Login/Answers.antt =====
-- The answers of `ProtocolLogin::verifyAccount` and `ProtocolLogin::createAccount` of
-- source/protocollogin.cpp.
use juggernaut_server.Base.{
  ◌^◌, ◌<◌, ◌≡◌, refl, ap, ◌∙◌, Bool, List, [], ◌∷◌, Option, none, some, length, ◌==◌,
  if◌then◌else◌, arith, Memory, le_bytes,
}
use juggernaut_server.Database.{Text}
use juggernaut_server.Message.{fresh}
use juggernaut_server.Message.Writing.{add-Outcome}
use juggernaut_server.Output.{OutputMessage, get_output_message}
use juggernaut_server.Protocol.Frames.{body_of}
use juggernaut_server.Database.Interface.{DatabaseOps}
use juggernaut_server.Login.{
  LoginOpcode, invalid_account_name, invalid_password, login_success, do_login, create_account,
  username_already_exists, email_already_registered, account_cannot_be_created,
  create_account_success, opcode,
}
use juggernaut_server.Login.Client.{
  LoginTask, verify, create, LoginCall, send, disconnect, calls_after, send_opcode, respond,
  respond_to, run_login_task,
}
use juggernaut_server.Login.Table.{Account, IsAccountTable}
use juggernaut_server.Login.Accounts.{registered, Created, new_account-Created}
use juggernaut_server.Login.Logins.{AreClean, matches, first_match, verdict, verify_account-first}

le_bytes-opcode : (op : LoginOpcode) → le_bytes 1 (opcode op) ≡ opcode op ∷ []
unfolding opcode
le_bytes-opcode invalid_account_name = refl
le_bytes-opcode invalid_password = refl
le_bytes-opcode login_success = refl
le_bytes-opcode do_login = refl
le_bytes-opcode create_account = refl
le_bytes-opcode username_already_exists = refl
le_bytes-opcode email_already_registered = refl
le_bytes-opcode account_cannot_be_created = refl
le_bytes-opcode create_account_success = refl

-- A client is sent the opcode, and nothing else, and is disconnected unless it is the good one.
abbrev pub Answers : LoginOpcode → LoginOpcode → List LoginCall → Type 0
Answers good op calls =
    (o : OutputMessage) × (calls
      ≡ send o ∷ (if opcode op == opcode good then [] else disconnect ∷ []))
    × (body_of o ≡ opcode op ∷ [])

respond-Answers :
    (storage : Memory) (good op : LoginOpcode)
    → (calls : List LoginCall) × (respond storage good op ≡ some calls) × Answers good op calls
unfolding respond send_opcode calls_after get_output_message fresh
respond-Answers storage good op =
    let (m, r, wrote, writing) =
      add-Outcome 1 (opcode op) (fresh storage) (record { in_step = refl; inside = omega arith })
        (omega arith) in
    let long : m.len ≡ 1 = omega (arith, wrote.longer) in
    let o : OutputMessage = record (get_output_message storage) { message = m } in
    (
      calls_after (opcode op == opcode good) o,
      ap (send_opcode (opcode op == opcode good) (get_output_message storage)) r,
      (o, refl, rw long (wrote.here ∙ le_bytes-opcode op)),
    )

abbrev pub good_of : LoginTask → LoginOpcode
good_of (verify e_mail password) = login_success
good_of (create username e_mail password) = create_account_success

abbrev pub IsShort : LoginTask → Type 0
IsShort (verify e_mail password) = length e_mail < 2 ^ 31
IsShort (create username e_mail password) = (length username < 2 ^ 31) × (length e_mail < 2 ^ 31)

-- What a task answers, and what it makes of the accounts.
abbrev pub Done :
    (Text → Text → Bool) → LoginTask → LoginOpcode → List Account → List Account → Type 0
Done same (verify e_mail password) op before after =
    (op ≡ verdict password (first_match (matches same e_mail) before)) × (after ≡ before)
Done same (create username e_mail password) op before after =
    Created same (registered username e_mail password) before op after

module _ {W : Type 0} (db : DatabaseOps W) (storage : Memory) where
  respond_to-Answers :
      (good op : LoginOpcode) (w : W) (r : Option (LoginOpcode × W))
      → r ≡ some (op, w)
      → (calls : List LoginCall) × (respond_to db storage good r ≡ some (calls, w))
        × Answers good op calls
  unfolding respond_to
  respond_to-Answers good op w r e =
      let (calls, r', answers) = respond-Answers storage good op in
      (
        calls,
        ap (respond_to db storage good) e
            ∙ ap (λ o. elim o [ none ↦ none | some calls ↦ some (calls, w) ]) r',
        answers,
      )

  -- Over a table of accounts whose stored passwords have no zero, and for texts of less than 2 ^ 31
  -- characters: a task of a client ends with one message to it, whose only byte is the opcode of what was found
  -- or done, and with the disconnection behind it unless the login or the creation succeeded. A login
  -- is judged by the first account listed under the text, and keeps the accounts; a creation adds the
  -- account if it succeeds, and keeps them otherwise.
  pub run_login_task-Answers :
      (same : Text → Text → Bool) (literal : Text → Text) (accounts : W → List Account)
      → IsAccountTable db same literal accounts
      → (task : LoginTask) (w : W) → IsShort task
      → AreClean (accounts w)
      → (op : LoginOpcode) × (calls : List LoginCall) × (w' : W) × (run_login_task db storage task w
          ≡ some (calls, w'))
        × Answers (good_of task) op calls
        × Done same task op (accounts w) (accounts w')
  unfolding run_login_task
  run_login_task-Answers same literal accounts t (verify e_mail password) w short clean =
      let (v, r, kept) =
        verify_account-first db same literal accounts t e_mail password w short clean in
      let op = verdict password (first_match (matches same e_mail) (accounts w)) in
      let (calls, r', answers) = respond_to-Answers login_success op v _ r in
      (op, calls, v, r', answers, (refl, kept))
  run_login_task-Answers same literal accounts t (create username e_mail password) w short clean =
      let (op, v, r, created) =
        new_account-Created db same literal accounts t username e_mail password w short.0 short.1 in
      let (calls, r', answers) = respond_to-Answers create_account_success op v _ r in
      (op, calls, v, r', answers, created)

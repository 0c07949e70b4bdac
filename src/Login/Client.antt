-- ===== src/Login/Client.antt =====
-- `ProtocolLogin` of source/protocollogin.h and source/protocollogin.cpp, over the operations of a
-- database and a parameter for the decryption by RSA.
use juggernaut_server.Base.{
  ℕ, Bool, true, not, List, [], ◌∷◌, Option, none, some, ◌==◌, if◌then◌else◌, Memory, ◌>>=◌,
}
use juggernaut_server.Database.{Text}
use juggernaut_server.Message.{NetworkMessage, add, get, get_byte, get_string}
use juggernaut_server.Output.{OutputMessage, get_output_message}
use juggernaut_server.Protocol.{Protocol, rsa_decrypt}
use juggernaut_server.Xtea.{Key}
use juggernaut_server.Database.Interface.{DatabaseOps}
use juggernaut_server.Login.{
  LoginOpcode, do_login, create_account, login_success, create_account_success, opcode,
  verify_account, new_account,
}

-- The calls of the connection that a protocol makes.
pub data LoginCall : Type 0 where
  send : OutputMessage → LoginCall
  disconnect : LoginCall

unfoldable pub calls_after : Bool → OutputMessage → List LoginCall
calls_after good o = send o ∷ (if good then [] else disconnect ∷ [])

unfoldable pub send_opcode : Bool → OutputMessage → Option NetworkMessage → Option (List LoginCall)
unfolding calls_after
send_opcode good output none = none
send_opcode good output (some m) = some (calls_after good (record output { message = m }))

-- The answer to the client: a message with the opcode, and the disconnection unless it is `good`.
unfoldable pub respond : Memory → LoginOpcode → LoginOpcode → Option (List LoginCall)
unfolding opcode send_opcode
respond storage good op =
    let output = get_output_message storage in
    send_opcode (opcode op == opcode good) output (add 1 (opcode op) output.message)

-- `ProtocolLogin::verifyAccount` and `ProtocolLogin::createAccount`, which the dispatcher runs.
pub data LoginTask : Type 0 where
  verify : Text → Text → LoginTask
  create : Text → Text → Text → LoginTask

module _ {W : Type 0} (db : DatabaseOps W) (storage : Memory) where
  unfoldable pub respond_to : LoginOpcode → Option (LoginOpcode × W) → Option (List LoginCall × W)
  unfolding respond
  respond_to good none = none
  respond_to good (some (op, w)) = elim (respond storage good op) [
    | none ↦ none
    | some calls ↦ some (calls, w)
  ]

  unfoldable pub run_login_task : LoginTask → W → Option (List LoginCall × W)
  unfolding respond_to verify_account new_account
  run_login_task (verify e_mail password) w =
      respond_to login_success (verify_account db e_mail password w)
  run_login_task (create username e_mail password) w =
      respond_to create_account_success (new_account db username e_mail password w)

-- What `onRecvFirstMessage` does besides reading the message.
pub data FirstCall : Type 0 where
  refuse : FirstCall
  dispatch : LoginTask → FirstCall

unfoldable pub read_key : NetworkMessage → Option (Key × NetworkMessage)
read_key m = do
  (k0, m₁) ← get 4 m
  (k1, m₂) ← get 4 m₁
  (k2, m₃) ← get 4 m₂
  (k3, m₄) ← get 4 m₃
  some (record { k0 = k0; k1 = k1; k2 = k2; k3 = k3 }, m₄)

unfoldable pub read_login : NetworkMessage → Option (List FirstCall)
read_login m = do
  (e_mail, m₁) ← get_string 0 m
  (password, m₂) ← get_string 0 m₁
  some (dispatch (verify e_mail password) ∷ [])

unfoldable pub read_creation : NetworkMessage → Option (List FirstCall)
read_creation m = do
  (username, m₁) ← get_string 0 m
  (e_mail, m₂) ← get_string 0 m₁
  (password, m₃) ← get_string 0 m₂
  some (dispatch (create username e_mail password) ∷ [])

unfoldable pub read_action : ℕ → NetworkMessage → Option (List FirstCall)
unfolding opcode read_login read_creation
read_action action m =
    if action == opcode do_login
    then read_login m
    else (if action == opcode create_account then read_creation m else some [])

-- The calls, and the protocol with its key.
unfoldable pub read_first : Protocol → NetworkMessage → Option (List FirstCall × Protocol)
unfolding read_key read_action
read_first p m = do
  (action, m₁) ← get_byte m
  (key, m₂) ← read_key m₁
  calls ← read_action action m₂
  some (calls, record p { key = key; encryption_enabled = true })

module _ (rsa : List ℕ → List ℕ) where
  -- Its condition: RSA is configured, and the decryption fails.
  unfoldable pub decrypt_first : Bool → NetworkMessage → Option (Bool × NetworkMessage)
  unfolding rsa_decrypt
  decrypt_first with_rsa m = if with_rsa then rsa_decrypt rsa m else some (true, m)

  unfoldable pub on_recv_first_message :
      Bool → Protocol → NetworkMessage → Option (List FirstCall × Protocol)
  unfolding decrypt_first read_first
  on_recv_first_message with_rsa p m = do
    (decrypted, m') ← decrypt_first with_rsa m
    (if not decrypted then some (refuse ∷ [], p) else read_first p m')

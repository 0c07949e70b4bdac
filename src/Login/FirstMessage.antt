-- ===== src/Login/FirstMessage.antt =====
-- The first message of a client, as `ProtocolLogin::onRecvFirstMessage` of source/protocollogin.cpp
-- reads it.
use juggernaut_server.Base.{
  ℕ, ◌^◌, ◌≤◌, ◌<◌, ◌≡◌, refl, Bool, true, List, [], ◌∷◌, ◌++◌, some, length, arith, le_bytes,
}
use juggernaut_server.Message.{NetworkMessage, get, get_byte, get_string}
use juggernaut_server.Message.Items.{
  Item, number, text, IsSendable, items_bytes, Holds, Holds-append, get-number, get_string-text,
}
use juggernaut_server.Message.Writing.{text_bytes}
use juggernaut_server.Protocol.{Protocol}
use juggernaut_server.Xtea.{Key}
use juggernaut_server.Login.{opcode}
use juggernaut_server.Login.Client.{
  LoginTask, verify, create, dispatch, decrypt_first, read_key, read_login, read_creation,
  read_action, read_first, on_recv_first_message,
}

-- What a client writes: the action, the key of the session, and the texts.
abbrev pub key_items : Key → List Item → List Item
key_items k its = number 4 k.k0 ∷ number 4 k.k1 ∷ number 4 k.k2 ∷ number 4 k.k3 ∷ its

abbrev pub task_items : LoginTask → List Item
task_items (verify e_mail password) = text e_mail ∷ text password ∷ []
task_items (create username e_mail password) = text username ∷ text e_mail ∷ text password ∷ []

abbrev pub action_of : LoginTask → ℕ
action_of (verify e_mail password) = 4
action_of (create username e_mail password) = 5

abbrev pub first_items : LoginTask → Key → List Item
first_items task k = number 1 (action_of task) ∷ key_items k (task_items task)

-- The next integer and the next text, with what is left.
then_number :
    (n v : ℕ) (bs : List ℕ) (m : NetworkMessage)
    → IsSendable (number n v)
    → Holds m (le_bytes n v ++ bs)
    → (m' : NetworkMessage) × (get n m ≡ some (v, m')) × Holds m' bs
then_number n v bs m ok h =
    let parts = Holds-append m (le_bytes n v) bs h in (_, get-number n v m ok parts.0, parts.1)

then_text :
    (s bs : List ℕ) (m : NetworkMessage)
    → length s ≤ 8192
    → Holds m (text_bytes s ++ bs)
    → (m' : NetworkMessage) × (get_string 0 m ≡ some (s, m')) × Holds m' bs
then_text s bs m ok h =
    let parts = Holds-append m (text_bytes s) bs h in (_, get_string-text s m ok parts.0, parts.1)

abbrev IsKey : Key → Type 0
IsKey k = (k.k0 < 2 ^ 32) × (k.k1 < 2 ^ 32) × (k.k2 < 2 ^ 32) × (k.k3 < 2 ^ 32)

read_key-Holds :
    (k : Key) (its : List Item) (m : NetworkMessage)
    → IsKey k
    → Holds m (items_bytes (key_items k its))
    → (m' : NetworkMessage) × (read_key m ≡ some (k, m')) × Holds m' (items_bytes its)
unfolding read_key
read_key-Holds k its m (b0, b1, b2, b3) h =
    let r0 = then_number 4 k.k0 _ m (omega arith, omega arith) h in
    let r1 = then_number 4 k.k1 _ r0.0 (omega arith, omega arith) r0.2 in
    let r2 = then_number 4 k.k2 _ r1.0 (omega arith, omega arith) r1.2 in
    let r3 = then_number 4 k.k3 (items_bytes its) r2.0 (omega arith, omega arith) r2.2 in
    (r3.0, rw (r0.1, r1.1, r2.1, r3.1) refl, r3.2)

abbrev IsTask : LoginTask → Type 0
IsTask (verify e_mail password) = (length e_mail ≤ 8192) × (length password ≤ 8192)
IsTask (create username e_mail password) =
    (length username ≤ 8192) × (length e_mail ≤ 8192) × (length password ≤ 8192)

read_action-Holds :
    (task : LoginTask) (m : NetworkMessage)
    → IsTask task
    → Holds m (items_bytes (task_items task))
    → read_action (action_of task) m ≡ some (dispatch task ∷ [])
unfolding read_action opcode read_login read_creation
read_action-Holds (verify e_mail password) m (a, b) h =
    let r0 = then_text e_mail _ m a h in
    let r1 = then_text password [] r0.0 b r0.2 in rw (r0.1, r1.1) refl
read_action-Holds (create username e_mail password) m (a, b, c) h =
    let r0 = then_text username _ m a h in
    let r1 = then_text e_mail _ r0.0 b r0.2 in
    let r2 = then_text password [] r1.0 c r1.2 in rw (r0.1, r1.1, r2.1) refl

-- A first message with a login or the creation of an account, with 32-bit words of a key and texts of
-- at most 8192 characters, that is received whole and deciphered, or not enciphered when RSA is not
-- configured, gives the dispatcher that task with those texts, and the protocol that key, with its
-- encryption on.
pub on_recv_first_message-dispatches :
    (rsa : List ℕ → List ℕ) (with_rsa : Bool) (p : Protocol) (m m' : NetworkMessage)
    (task : LoginTask) (k : Key)
    → IsKey k
    → IsTask task
    → decrypt_first rsa with_rsa m ≡ some (true, m')
    → Holds m' (items_bytes (first_items task k))
    → on_recv_first_message rsa with_rsa p m
      ≡ some (dispatch task ∷ [], record p { key = k; encryption_enabled = true })
unfolding on_recv_first_message read_first get_byte
on_recv_first_message-dispatches rsa with_rsa p m m' task k is_key is_task plain h =
    let r0 = then_number 1 (action_of task) _ m' (omega arith, action_of-small task) h in
    let r1 = read_key-Holds k (task_items task) r0.0 is_key r0.2 in
    rw (plain, r0.1, r1.1, read_action-Holds task r1.0 is_task r1.2) refl
  where
    action_of-small : (task : LoginTask) → action_of task < 256 ^ 1
    action_of-small (verify e_mail password) = omega arith
    action_of-small (create username e_mail password) = omega arith

-- ===== src/Message/Bounds.antt =====
-- Readers of hostile packets: how far a sequence of reads goes.
use juggernaut_server.Base.{ℕ, ◌+◌, ◌≤◌, ◌<◌, ◌≡◌, true, max, List, [], ◌∷◌, Option, some, ◌>>=◌}
use juggernaut_server.Message.{NetworkMessage, max_size, get, get_string}

-- `getByte` and `get<T>` of some bytes, and `getString` with a length or with zero.
pub data ReadCall : Type 0 where
  number : ℕ → ReadCall
  chars : ℕ → ReadCall

-- The message after a call; the value is dropped.
pub read_call : ReadCall → NetworkMessage → Option NetworkMessage
read_call (number n) m = get n m >>= λ r. some r.1
read_call (chars n) m = get_string n m >>= λ r. some r.1

pub read_calls : List ReadCall → NetworkMessage → Option NetworkMessage
read_calls [] m = some m
read_calls (c ∷ cs) m = read_call c m >>= read_calls cs

-- What reads leave alone, and how far they may move the position.
pub record Kept (m m' : NetworkMessage) : Type 0 where
  pub same_buffer : m'.buffer ≡ m.buffer
  pub same_len : m'.len ≡ m.len
  pub forward : m.position ≤ m'.position
  pub bounded : m'.position ≤ max m.position (m.len + 8)
  pub in_array : m.position < max_size → m'.position < max_size
  pub sticky : m.overrun ≡ true → m'.overrun ≡ true

-- A read that ends with a message that keeps the rest.
abbrev Ends : NetworkMessage → Option NetworkMessage → Type 0
Ends m r = (m' : NetworkMessage) × (r ≡ some m') × Kept m m'

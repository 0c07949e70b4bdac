-- ===== src/Message/Items.antt =====
-- Sequences of writes and reads: a client that writes items with `addByte`, `add<T>`, `addString`
-- and `addBytes`, and one that reads such items with `getByte`, `get<T>` and `getString`.
use juggernaut_server.Base.{
  ℕ, ◌+◌, ◌^◌, ◌≤◌, ◌<◌, ◌≡◌, refl, ap, ◌∙◌, Bool, true, List, [], ◌∷◌, ◌++◌, Option, some, length,
  slice, le_bytes, le_value, le_value-le_bytes, length-le_bytes, ltb, arith, ◌>>=◌, length-append,
  Memory, slice_parts,
}
use juggernaut_server.Message.{
  NetworkMessage, fresh, max_size, max_body_length, add, add_string, get, get_string,
}
use juggernaut_server.Message.Writing.{
  IsWriting, Outcome, text_bytes, text_fits, add-Outcome, add_string-Outcome, Wrote-nothing,
  Wrote-append,
}
use juggernaut_server.Message.Reading.{get_at, get_string_at}

-- An integer of `n` bytes, and a text.
pub data Item : Type 0 where
  number : ℕ → ℕ → Item
  text : List ℕ → Item

pub write_item : Item → NetworkMessage → Option NetworkMessage
write_item (number n v) m = add n v m
write_item (text s) m = add_string s m

pub write_items : List Item → NetworkMessage → Option NetworkMessage
write_items [] m = some m
write_items (it ∷ its) m = write_item it m >>= write_items its

-- A reader asks for the kinds that were written: the value of an item is not looked at.
pub read_item : Item → NetworkMessage → Option (Item × NetworkMessage)
read_item (number n _) m = get n m >>= λ r. some (number n r.0, r.1)
read_item (text _) m = get_string 0 m >>= λ r. some (text r.0, r.1)

pub read_items : List Item → NetworkMessage → Option (List Item × NetworkMessage)
read_items [] m = some ([], m)
read_items (it ∷ its) m = do r ← read_item it m; rs ← read_items its r.1; some (r.0 ∷ rs.0, rs.1)

abbrev pub item_bytes : Item → List ℕ
item_bytes (number n v) = le_bytes n v
item_bytes (text s) = text_bytes s

abbrev pub items_bytes : List Item → List ℕ
items_bytes [] = []
items_bytes (it ∷ its) = item_bytes it ++ items_bytes its

-- The items that the wire can carry: integers of their width, and texts of at most 8192 characters.
abbrev pub IsSendable : Item → Type 0
IsSendable (number n v) = (n ≤ 8) × (v < 256 ^ n)
IsSendable (text s) = length s ≤ 8192

abbrev pub AreSendable : List Item → Type 0
AreSendable [] = Unit
AreSendable (it ∷ its) = IsSendable it × AreSendable its

unfoldable pub item_room : NetworkMessage → Item → Bool
item_room m (number n v) = ltb (m.position + n) max_body_length
item_room m (text s) = text_fits m s

-- On a message that was written up to its end, with its position inside the array, and for an item
-- of less than 2 ^ 62 bytes: a write appends exactly the bytes of the integer, or the length and
-- the characters of the text, when they end before the limit of the body and a text has at most
-- 8192 characters; otherwise the message stays as it was, also for a longer text for which there
-- is room. No access leaves the array.
pub write_item-Outcome :
    (it : Item) (m : NetworkMessage)
    → IsWriting m
    → length (item_bytes it) < 2 ^ 62
    → Outcome m (item_bytes it) (item_room m it) (write_item it m)
unfolding write_item item_room
write_item-Outcome (number n v) m w small = add-Outcome n v m w (omega (arith, length-le_bytes n v))
write_item-Outcome (text s) m w small =
    add_string-Outcome s m w (omega (arith, length-append (le_bytes 2 (length s)) s))

item_room-eq-true :
    (it : Item) (m : NetworkMessage)
    → IsSendable it
    → m.position + length (item_bytes it) < max_body_length
    → item_room m it ≡ true
unfolding item_room
item_room-eq-true (number n v) m h fits = ground (arith, length-le_bytes n v)
item_room-eq-true (text s) m h fits = ground (arith, length-append (le_bytes 2 (length s)) s)

write_item-Wrote :
    (it : Item) (m : NetworkMessage)
    → IsWriting m
    → IsSendable it
    → m.position + length (item_bytes it) < max_body_length
    → Outcome m (item_bytes it) true (write_item it m)
write_item-Wrote it m w h fits =
    rw (item_room-eq-true it m h fits) at (write_item-Outcome it m w (omega arith))

-- Items that fit the body are written one behind the other.
pub write_items-Wrote :
    (its : List Item) (m : NetworkMessage)
    → IsWriting m
    → AreSendable its
    → m.position + length (items_bytes its) < max_body_length
    → Outcome m (items_bytes its) true (write_items its m)
unfolding write_items
write_items-Wrote [] m w h fits = (m, refl, Wrote-nothing m, w)
write_items-Wrote (it ∷ its) m w h fits =
    let both = length-append (item_bytes it) (items_bytes its) in
    let first = write_item-Wrote it m w h.0 (omega (arith, both)) in
    let rest = write_items-Wrote its first.0 first.3 h.1 (omega (arith, both, first.2.moved)) in
    (
      rest.0,
      ap (λ (r : Option NetworkMessage). r >>= write_items its) first.1 ∙ rest.1,
      Wrote-append m first.0 rest.0 (item_bytes it) (items_bytes its) first.2 rest.2,
      rest.3,
    )

-- A message that has the bytes of items at its position, received whole.
pub record Holds (m : NetworkMessage) (bs : List ℕ) : Type 0 where
  pub bytes : slice m.buffer m.position (length bs) ≡ bs
  pub received : m.position + length bs ≤ m.len + 8
  pub in_array : m.position + length bs < max_size

abbrev pub skip : ℕ → NetworkMessage → NetworkMessage
skip n m = record m { position = m.position + n }

pub Holds-append :
    (m : NetworkMessage) (xs ys : List ℕ)
    → Holds m (xs ++ ys)
    → Holds m xs × Holds (skip (length xs) m) ys
Holds-append m xs ys h =
    let both = length-append xs ys in
    let parts = slice_parts m.buffer m.position xs ys h.bytes in
    (
      record {
        bytes = parts.0;
        received = omega (arith, both, h.received);
        in_array = omega (arith, both, h.in_array);
      },
      record {
        bytes = parts.1;
        received = omega (arith, both, h.received);
        in_array = omega (arith, both, h.in_array);
      },
    )

pub get-number :
    (n v : ℕ) (m : NetworkMessage)
    → IsSendable (number n v)
    → Holds m (le_bytes n v)
    → get n m ≡ some (v, skip (length (le_bytes n v)) m)
get-number n v m ok h =
    let size = length-le_bytes n v in
    let value : le_value (slice m.buffer m.position n) ≡ v =
      ap le_value (rw size at h.bytes) ∙ le_value-le_bytes n v ok.1 in
    rw (get_at n m (omega (arith, size, h.received)) (omega (arith, size, h.in_array)), value, size)

pub get_string-text :
    (s : List ℕ) (m : NetworkMessage)
    → IsSendable (text s)
    → Holds m (text_bytes s)
    → get_string 0 m ≡ some (s, skip (length (text_bytes s)) m)
get_string-text s m ok h =
    let both = length-append (le_bytes 2 (length s)) s in
    let parts = Holds-append m (le_bytes 2 (length s)) s h in
    let count : le_value (slice m.buffer m.position 2) ≡ length s =
      ap le_value (parts.0).bytes ∙ le_value-le_bytes 2 (length s) (omega arith) in
    let chars : slice m.buffer (m.position + 2) (length s) ≡ s = (parts.1).bytes in
    rw (
      get_string_at (length s) m count (omega (arith, both, h.received))
          (omega (arith, both, h.in_array)),
      chars,
      both,
    )

read_item-Holds :
    (it : Item) (m : NetworkMessage)
    → IsSendable it
    → Holds m (item_bytes it)
    → read_item it m ≡ some (it, skip (length (item_bytes it)) m)
unfolding read_item
read_item-Holds (number n v) m ok h = rw (get-number n v m ok h) refl
read_item-Holds (text s) m ok h = rw (get_string-text s m ok h) refl

-- A reader of a message that holds the bytes of some items gets those items.
pub read_items-Holds :
    (its : List Item) (m : NetworkMessage)
    → AreSendable its
    → Holds m (items_bytes its)
    → read_items its m ≡ some (its, skip (length (items_bytes its)) m)
unfolding read_items
read_items-Holds [] m ok h = ap (λ (p : ℕ). some ([], record m { position = p })) (omega arith)
read_items-Holds (it ∷ its) m ok h =
    let parts = Holds-append m (item_bytes it) (items_bytes its) h in
    let both = length-append (item_bytes it) (items_bytes its) in
    rw
      (
        read_item-Holds it m ok.0 parts.0,
        read_items-Holds its (skip (length (item_bytes it)) m) ok.1 parts.1,
        both,
      )
      (ap (λ (p : ℕ). some (it ∷ its, record m { position = p })) (omega arith))

-- Items that fit the body and are written to a fresh message are read back by a reader at the start
-- of the body: the same items in their order, with no overrun, and the position behind them.
pub read_items-write_items :
    (its : List Item) (storage : Memory)
    → AreSendable its
    → 8 + length (items_bytes its) < max_body_length
    → (m : NetworkMessage) × (write_items its (fresh storage) ≡ some m)
      × (m.len ≡ length (items_bytes its))
      × (read_items its (record m { position = 8 })
          ≡ some (its, record m { position = 8 + length (items_bytes its) }))
unfolding fresh
read_items-write_items its storage ok fits =
    let start : NetworkMessage = fresh storage in
    let done =
      write_items-Wrote its start (record { in_step = refl; inside = omega arith }) ok fits in
    let length_kept : (done.0).len ≡ length (items_bytes its) = omega (arith, (done.2).longer) in
    (
      done.0,
      done.1,
      length_kept,
      read_items-Holds its (record (done.0) { position = 8 }) ok
          (record {
            bytes = (done.2).here;
            received = omega (arith, length_kept);
            in_array = omega arith;
          }),
    )

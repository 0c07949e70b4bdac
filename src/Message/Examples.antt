-- ===== src/Message/Examples.antt =====
-- The theorems about messages at concrete inputs.
use juggernaut_server.Base.{◌≡◌, false, List, [], ◌∷◌, some, Memory, arith}
use juggernaut_server.Message.{NetworkMessage, fresh}
use juggernaut_server.Message.Items.{
  Item, number, text, write_items, write_item, item_room, read_items, read_items-write_items,
  write_item-Outcome,
}

abbrev storage : Memory
storage = λ i. 0xcd

abbrev login : List Item
login = number 1 4 ∷ number 4 0xdeadbeef ∷ text (b'a' ∷ b'@' ∷ b'b' ∷ []) ∷ text [] ∷ []

read_items-write_items_example :
    (m : NetworkMessage) × (write_items login (fresh storage) ≡ some m)
    × (m.len ≡ 12)
    × (read_items login (record m { position = 8 }) ≡ some (login, record m { position = 20 }))
read_items-write_items_example = read_items-write_items login storage (omega arith) (omega arith)

-- A message with 24567 bytes, to which not one byte can be added.
abbrev full : NetworkMessage
full = record { len = 24567; position = 24575; overrun = false; buffer = storage }

write_item-Outcome_example : write_item (number 1 7) full ≡ some full
unfolding item_room
write_item-Outcome_example =
    write_item-Outcome (number 1 7) full (record { in_step = omega arith; inside = omega arith })
      (omega arith)

-- ===== src/Connection/EndToEnd.antt =====
-- Two connected servers' view of a message: what one writes and sends, the other receives and reads.
use juggernaut_server.Base.{
  ℕ, ◌^◌, ◌≤◌, ◌≡◌, refl, ◌∙◌, Bool, true, false, List, Option, some, length, Memory, slice, arith,
  ◌>>=◌, Bytes,
}
use juggernaut_server.Message.{NetworkMessage, fresh, max_protocol_body_length}
use juggernaut_server.Message.Items.{
  Item, AreSendable, items_bytes, write_items, write_items-Wrote, read_items, read_items-Holds,
  Holds,
}
use juggernaut_server.Output.{get_output_message}
use juggernaut_server.Output.Headers.{output_bytes}
use juggernaut_server.Protocol.{Protocol, on_send_message, on_recv_message}
use juggernaut_server.Protocol.Frames.{frame, IsReady, body_of, on_send_message-frame}
use juggernaut_server.Connection.Receive.{check_packet}
use juggernaut_server.Connection.Transport.{receive, receive-frame}

-- The sender: items are written to a new output message, which the protocol then frames.
pub send_items : ℕ → Protocol → Memory → List Item → Option (List ℕ)
send_items initial p storage its = do
  m ← write_items its (get_output_message storage).message
  o ← on_send_message initial p (record (get_output_message storage) { message = m })
  some (output_bytes o)

-- The receiver: the frame is read into a message, checked, deciphered and parsed.
pub receive_items :
    ℕ → Protocol → NetworkMessage → List Item → List ℕ → Option (Bool × Bool × List Item)
receive_items initial p m its wire = do
  (same, m₁) ← check_packet (receive wire m)
  (called, m₂) ← on_recv_message initial p m₁
  (got, m₃) ← read_items its m₂
  some (same, called, got)

written-IsReady :
    (its : List Item) (storage : Memory)
    → AreSendable its
    → length (items_bytes its) ≤ max_protocol_body_length
    → Bytes (items_bytes its)
    → (m : NetworkMessage) × (write_items its (get_output_message storage).message ≡ some m)
      × IsReady (record (get_output_message storage) { message = m })
      × (body_of (record (get_output_message storage) { message = m }) ≡ items_bytes its)
unfolding get_output_message fresh
written-IsReady its storage ok fits bytes =
    let done =
      write_items-Wrote its (fresh storage) (record { in_step = refl; inside = omega arith }) ok
        (omega arith) in
    let long : (done.0).len ≡ length (items_bytes its) = omega (arith, (done.2).longer) in
    let body : slice (done.0).buffer 8 (done.0).len ≡ items_bytes its = rw long (done.2).here in
    (
      done.0,
      done.1,
      record {
        at_start = refl;
        writing = (done.3).in_step;
        fits = omega (arith, long);
        bytes = rw body bytes;
      },
      body,
    )

-- With encryption and checksums on at both ends, the same key, and raw messages off at the sender:
-- integers of their width and texts of at most 8192 characters that together fit a protocol's body
-- are written, framed and enciphered, and the frame is received, checked, deciphered and read by
-- the other end, whose cipher may be compiled for another block size; the items come out
-- unchanged, and no step faults.
pub receive_items-send_items :
    (i j : ℕ) (p q : Protocol) (storage : Memory) (m : NetworkMessage) (its : List Item)
    → i ≤ 7
    → j ≤ 7
    → p.raw_messages ≡ false
    → p.encryption_enabled ≡ true
    → p.checksum_enabled ≡ true
    → q.encryption_enabled ≡ true
    → q.key ≡ p.key
    → AreSendable its
    → length (items_bytes its) ≤ max_protocol_body_length
    → Bytes (items_bytes its)
    → (wire : List ℕ) × (send_items (2 ^ i) p storage its ≡ some wire)
      × (receive_items (2 ^ j) q m its wire ≡ some (true, true, its))
unfolding send_items receive_items
receive_items-send_items i j p q storage m its hi hj raw on check on' key ok fits bytes =
    let ready = written-IsReady its storage ok fits bytes in
    let sent = on_send_message-frame i p _ hi raw on ready.2 in
    let wire : output_bytes sent.0 ≡ frame true q.key (items_bytes its) =
      sent.2 ∙ rw (check, key, ready.3) in
    let taken = receive-frame j q m (items_bytes its) hj on' fits bytes in
    let holds : Holds taken.3 (items_bytes its) = record {
      bytes = rw (taken.6).at_body (taken.6).bytes;
      received = omega (arith, (taken.6).at_body, (taken.6).long);
      in_array = omega (arith, (taken.6).at_body);
    } in
    (
      output_bytes sent.0,
      rw (ready.1, sent.1),
      rw (wire, taken.4, taken.5, read_items-Holds its taken.3 ok holds),
    )

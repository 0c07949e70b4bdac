-- ===== src/Autosend.antt =====
-- `OutputMessagePool` of source/outputmessage.h and source/outputmessage.cpp: the protocols whose
-- messages are sent by a timer. A protocol is a number, its current buffer a message of the type `M`.
-- Every operation runs in the dispatcher's thread.
use juggernaut_server.Base.{
  ℕ, zero, suc, Bool, true, false, List, [], ◌∷◌, ◌++◌, Option, none, some, ◌==◌, if◌then◌else◌,
}
pub mod Sending
pub mod Scheduling
mod Examples

-- `events` is the number of calls of `sendAll` that the scheduler has.
pub record Pool (M : Type 0) : Type 0 where
  pub buffered_protocols : List ℕ
  pub current_buffer : ℕ → Option M
  pub events : ℕ

abbrev pub no_protocols : List ℕ → Bool
no_protocols [] = true
no_protocols (p ∷ ps) = false

-- `std::find`, the swap with the last element and `pop_back`.
unfoldable pub back_or : ℕ → List ℕ → ℕ
back_or p [] = p
back_or p (q ∷ qs) = back_or q qs

unfoldable pub pop_back : List ℕ → List ℕ
pop_back [] = []
pop_back (p ∷ []) = []
pop_back (p ∷ q ∷ qs) = p ∷ pop_back (q ∷ qs)

-- The list behind a found element, which the last one takes the place of.
unfoldable pub swap_pop : List ℕ → List ℕ
unfolding back_or pop_back
swap_pop [] = []
swap_pop (p ∷ ps) = back_or p ps ∷ pop_back (p ∷ ps)

unfoldable pub remove_first : ℕ → List ℕ → List ℕ
unfolding swap_pop
remove_first p [] = []
remove_first p (q ∷ qs) = let rest = remove_first p qs in if q == p then swap_pop qs else q ∷ rest

module _ {M : Type 0} where
  -- `scheduleSendAll`, while the scheduler runs: `addEvent` refuses nothing.
  unfoldable pub schedule_send_all : Pool M → Pool M
  schedule_send_all s = record s { events = suc s.events }

  unfoldable pub clear_buffer : ℕ → (ℕ → Option M) → ℕ → Option M
  clear_buffer p buffers q = if p == q then none else buffers q

  -- The loop of `sendAll`: the messages that are sent, with their protocols; a message is moved out of
  -- its buffer.
  unfoldable pub send_buffers : List ℕ → (ℕ → Option M) → List (ℕ × M) × (ℕ → Option M)
  unfolding clear_buffer
  send_buffers [] buffers = ([], buffers)
  send_buffers (p ∷ ps) buffers = elim (buffers p) [
    | none ↦ send_buffers ps buffers
    | some msg ↦
        let (sent, buffers') = send_buffers ps (clear_buffer p buffers) in
        ((p, msg) ∷ sent, buffers')
  ]

  -- `sendAll`, when the scheduler's event has come.
  unfoldable pub send_all : Pool M → List (ℕ × M) × Pool M
  unfolding schedule_send_all send_buffers
  send_all s =
      let (sent, buffers) = send_buffers s.buffered_protocols s.current_buffer in
      let s' : Pool M = record s { current_buffer = buffers } in
      (sent, if no_protocols s.buffered_protocols then s' else schedule_send_all s')

  unfoldable pub add_protocol_to_autosend : ℕ → Pool M → Pool M
  unfolding schedule_send_all
  add_protocol_to_autosend p s =
      let s' = if no_protocols s.buffered_protocols then schedule_send_all s else s in
      record s' { buffered_protocols = s.buffered_protocols ++ p ∷ [] }

  unfoldable pub remove_protocol_from_autosend : ℕ → Pool M → Pool M
  unfolding remove_first
  remove_protocol_from_autosend p s = record s {
    buffered_protocols = remove_first p s.buffered_protocols;
  }

-- ===== src/Autosend/Scheduling.antt =====
-- The scheduler's events for `sendAll` of source/outputmessage.cpp.
use juggernaut_server.Base.{
  ℕ, zero, suc, ◌-◌, ◌≤◌, ◌≡◌, refl, ap, ◌∙◌, true, false, List, [], ◌∷◌, Option, inl, inr,
  Bool-cases, arith,
}
use juggernaut_server.Autosend.{
  Pool, no_protocols, swap_pop, remove_first, schedule_send_all, send_all, add_protocol_to_autosend,
  remove_protocol_from_autosend,
}

remove_first-none :
    (p : ℕ) (ps : List ℕ) → no_protocols ps ≡ true → no_protocols (remove_first p ps) ≡ true
unfolding remove_first
remove_first-none p [] h = refl
remove_first-none p (q ∷ qs) h = absurd (cc)

remove_first-some :
    (p : ℕ) (ps : List ℕ) → no_protocols (remove_first p ps) ≡ false → no_protocols ps ≡ false
remove_first-some p ps h = elim (Bool-cases (no_protocols ps)) [
  | inl none_left ↦ absurd (cc (remove_first-none p ps none_left))
  | inr e ↦ e
]

module _ {M : Type 0} where
  -- What happens to a pool: a message is written to a buffer, a protocol is added or removed, and an
  -- event of the scheduler comes.
  pub data PoolStep (s : Pool M) : Pool M → Type 0 where
    buffered : (buffers : ℕ → Option M) → PoolStep s (record s { current_buffer = buffers })
    added : (p : ℕ) → PoolStep s (add_protocol_to_autosend p s)
    removed : (p : ℕ) → PoolStep s (remove_protocol_from_autosend p s)
    fired : (n : ℕ) → s.events ≡ suc n → PoolStep s (send_all (record s { events = n })).1

  pub data PoolReach (s : Pool M) : Pool M → Type 0 where
    unchanged : PoolReach s s
    changed : {t u : Pool M} → PoolReach s t → PoolStep t u → PoolReach s u

  -- While a protocol is in the list an event is scheduled.
  abbrev pub Scheduled : Pool M → Type 0
  Scheduled s = no_protocols s.buffered_protocols ≡ false → 1 ≤ s.events

  PoolStep-Scheduled : {s t : Pool M} → PoolStep s t → Scheduled s → Scheduled t
  unfolding add_protocol_to_autosend remove_protocol_from_autosend send_all schedule_send_all
  PoolStep-Scheduled (buffered buffers) h = h
  PoolStep-Scheduled {s} (added p) h = λ e. ground (arith, h)
  PoolStep-Scheduled {s} (removed p) h = λ e. h (remove_first-some p s.buffered_protocols e)
  PoolStep-Scheduled {s} (fired n e) h = λ e'. ground (arith, h)

  -- In every sequence of buffered messages, added and removed protocols, and events, while a protocol
  -- is in the list an event is scheduled, if it is so at first.
  pub PoolReach-Scheduled : {s t : Pool M} → Scheduled s → PoolReach s t → Scheduled t
  PoolReach-Scheduled h unchanged = h
  PoolReach-Scheduled h (changed r st) = PoolStep-Scheduled st (PoolReach-Scheduled h r)

  -- The event comes `n` times.
  abbrev pub fire : ℕ → Pool M → Pool M
  fire zero s = s
  fire (suc n) s = fire n (send_all (record s { events = s.events - 1 })).1

  fire_one :
      (s : Pool M)
      → no_protocols s.buffered_protocols ≡ false
      → 1 ≤ s.events
      → let t = (send_all (record s { events = s.events - 1 })).1 in
        (t.events ≡ s.events) × (t.buffered_protocols ≡ s.buffered_protocols)
  unfolding send_all schedule_send_all
  fire_one s h h' = ground arith

  fire_keeps :
      (n : ℕ) (s : Pool M)
      → no_protocols s.buffered_protocols ≡ false
      → 1 ≤ s.events
      → ((fire n s).events ≡ s.events) × ((fire n s).buffered_protocols ≡ s.buffered_protocols)
  fire_keeps zero s h h' = (refl, refl)
  fire_keeps (suc n) s h h' =
      let (e, l) = fire_one s h h' in
      let (e', l') =
        fire_keeps n (send_all (record s { events = s.events - 1 })).1 (ap no_protocols l ∙ h)
          (omega (arith, e, h')) in
      (e' ∙ e, l' ∙ l)

  -- A pool with no protocol and no event, to which a protocol is added, removed and another added.
  abbrev pub idle : (ℕ → Option M) → Pool M
  idle buffers = record { buffered_protocols = []; current_buffer = buffers; events = 0 }

  abbrev pub readded : ℕ → ℕ → (ℕ → Option M) → Pool M
  readded p q buffers =
      add_protocol_to_autosend q
        (remove_protocol_from_autosend p (add_protocol_to_autosend p (idle buffers)))

-- A protocol that is added to an idle pool and removed before the event comes leaves its event behind:
-- with the next protocol there are two, and there are two after any number of them, while the protocol
-- stays in the list.
readded-doubles :
    {M : Type 0} (n p q : ℕ) (buffers : ℕ → Option M)
    → ((fire n (readded p q buffers)).events ≡ 2)
      × ((fire n (readded p q buffers)).buffered_protocols ≡ q ∷ [])
unfolding add_protocol_to_autosend remove_protocol_from_autosend schedule_send_all remove_first
    swap_pop
readded-doubles n p q buffers =
    let first : readded p q buffers
        ≡ record { buffered_protocols = q ∷ []; current_buffer = buffers; events = 2 } =
      ground arith in
    let kept =
      fire_keeps n (record { buffered_protocols = q ∷ []; current_buffer = buffers; events = 2 })
        refl (omega arith) in
    rw first kept

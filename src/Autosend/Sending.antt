-- ===== src/Autosend/Sending.antt =====
-- What `sendAll` of source/outputmessage.cpp sends, and which protocol a removal removes.
use juggernaut_server.Base.{
  ℕ, ◌+◌, ◌≡◌, refl, ap, sym, ◌∙◌, Bool, true, false, ◌||◌, List, [], ◌∷◌, Option, none, some, ◌==◌,
  ==_iff, if◌then◌else◌, arith,
}
use juggernaut_server.Autosend.{
  Pool, no_protocols, schedule_send_all, back_or, pop_back, swap_pop, remove_first, clear_buffer,
  send_buffers, send_all,
}

abbrev pub count : ℕ → List ℕ → ℕ
count a [] = 0
count a (x ∷ xs) = (if x == a then 1 else 0) + count a xs

abbrev pub contains : ℕ → List ℕ → Bool
contains a [] = false
contains a (x ∷ xs) = x == a || contains a xs

count-pop_back :
    (a p : ℕ) (ps : List ℕ)
    → count a (pop_back (p ∷ ps)) + count a (back_or p ps ∷ []) ≡ count a (p ∷ ps)
unfolding pop_back back_or
count-pop_back a p [] = omega arith
count-pop_back a p (q ∷ qs) = omega (arith, count-pop_back a q qs)

count-swap_pop : (a : ℕ) (ps : List ℕ) → count a (swap_pop ps) ≡ count a ps
unfolding swap_pop
count-swap_pop a [] = refl
count-swap_pop a (p ∷ ps) = omega (arith, count-pop_back a p ps)

-- A removal takes the protocol out once if it is there, and keeps the others, each as often as it was.
count-remove_first :
    (a p : ℕ) (ps : List ℕ)
    → count a ps
      ≡ count a (remove_first p ps) + (if contains p ps then (if p == a then 1 else 0) else 0)
unfolding remove_first
count-remove_first a p [] = refl
count-remove_first a p (q ∷ qs) =
    ground (arith, count-swap_pop a qs, count-remove_first a p qs, ==_iff q p)

module _ {M : Type 0} where
  -- The messages of one protocol.
  abbrev pub sent_by : ℕ → List (ℕ × M) → List M
  sent_by a [] = []
  sent_by a ((p, msg) ∷ sent) = if p == a then msg ∷ sent_by a sent else sent_by a sent

  abbrev pub as_list : Option M → List M
  as_list none = []
  as_list (some msg) = msg ∷ []

  abbrev Sent : ℕ → List ℕ → (ℕ → Option M) → List (ℕ × M) × (ℕ → Option M) → Type 0
  Sent a ps buffers r =
      (sent_by a r.0 ≡ (if contains a ps then as_list (buffers a) else []))
      × (r.1 a ≡ (if contains a ps then none else buffers a))

  send_buffers-Sent :
      (a : ℕ) (ps : List ℕ) (buffers : ℕ → Option M) → Sent a ps buffers (send_buffers ps buffers)
  unfolding send_buffers clear_buffer
  send_buffers-Sent a [] buffers = (refl, refl)
  send_buffers-Sent a (p ∷ ps) buffers =
      with_buffer (buffers p) refl (send_buffers-Sent a ps buffers)
        (send_buffers-Sent a ps (clear_buffer p buffers))
    where
      one : Option M → List (ℕ × M) × (ℕ → Option M)
      one o = elim o [
        | none ↦ send_buffers ps buffers
        | some msg ↦
            let (sent, buffers') = send_buffers ps (clear_buffer p buffers) in
            ((p, msg) ∷ sent, buffers')
      ]

      with_buffer :
          (o : Option M)
          → buffers p ≡ o
          → Sent a ps buffers (send_buffers ps buffers)
          → Sent a ps (clear_buffer p buffers) (send_buffers ps (clear_buffer p buffers))
          → Sent a (p ∷ ps) buffers (one o)
      with_buffer none e h h' = passed (p == a) (==_iff p a).0 (contains a ps) e h
        where
          passed :
              (t : Bool)
              → (t ≡ true → p ≡ a)
              → (c : Bool) → buffers p ≡ none
              → (sent_by a (send_buffers ps buffers).0 ≡ (if c then as_list (buffers a) else []))
                × ((send_buffers ps buffers).1 a ≡ (if c then none else buffers a))
              → (sent_by a (send_buffers ps buffers).0
                  ≡ (if t || c then as_list (buffers a) else []))
                × ((send_buffers ps buffers).1 a ≡ (if t || c then none else buffers a))
          passed false same c e h = h
          passed true same true e h = h
          passed true same false e (h, h') =
              let empty : buffers a ≡ none = ap buffers (sym (same refl)) ∙ e in
              (h ∙ sym (ap as_list empty), h' ∙ empty)
      with_buffer (some msg) e h h' =
          moved (p == a) (contains a ps) (sent_by a (send_buffers ps (clear_buffer p buffers)).0)
            ((send_buffers ps (clear_buffer p buffers)).1 a)
            (λ same. ap buffers (sym ((==_iff p a).0 same)) ∙ e) h'
        where
          moved :
              (t c : Bool) (rest : List M) (left : Option M)
              → (t ≡ true → buffers a ≡ some msg)
              → (rest ≡ (if c then as_list (if t then none else buffers a) else []))
                × (left ≡ (if c then none else (if t then none else buffers a)))
              → ((if t then msg ∷ rest else rest) ≡ (if t || c then as_list (buffers a) else []))
                × (left ≡ (if t || c then none else buffers a))
          moved false c rest left full h = h
          moved true true rest left full (h, h') =
              (ap (λ r. msg ∷ r) h ∙ sym (ap as_list (full refl)), h')
          moved true false rest left full (h, h') =
              (ap (λ r. msg ∷ r) h ∙ sym (ap as_list (full refl)), h')

-- `sendAll` sends, of each protocol, the message in its buffer once if the protocol is in the list, in
-- one place or several, and nothing otherwise; it empties the buffers of the protocols in the list and
-- no others, and keeps the list.
send_all-sent :
    {M : Type 0} (a : ℕ) (s : Pool M)
    → (sent_by a (send_all s).0
        ≡ (if contains a s.buffered_protocols then as_list (s.current_buffer a) else []))
      × ((send_all s).1.current_buffer a
          ≡ (if contains a s.buffered_protocols then none else s.current_buffer a))
      × ((send_all s).1.buffered_protocols ≡ s.buffered_protocols)
unfolding send_all schedule_send_all
send_all-sent {M} a s =
    with_test (no_protocols s.buffered_protocols)
      (send_buffers-Sent a s.buffered_protocols s.current_buffer)
  where
    finished : Bool → Pool M
    finished t =
        let s' : Pool M = record s {
          current_buffer = (send_buffers s.buffered_protocols s.current_buffer).1;
        } in
        if t then s' else schedule_send_all s'

    with_test :
        (t : Bool)
        → Sent a s.buffered_protocols s.current_buffer
            (send_buffers s.buffered_protocols s.current_buffer)
        → (sent_by a (send_buffers s.buffered_protocols s.current_buffer).0
            ≡ (if contains a s.buffered_protocols then as_list (s.current_buffer a) else []))
          × ((finished t).current_buffer a
              ≡ (if contains a s.buffered_protocols then none else s.current_buffer a))
          × ((finished t).buffered_protocols ≡ s.buffered_protocols)
    with_test true (h, h') = (h, h', refl)
    with_test false (h, h') = (h, h', refl)

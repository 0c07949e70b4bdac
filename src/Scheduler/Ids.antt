-- ===== src/Scheduler/Ids.antt =====
-- The identifiers that `addEvent` of source/scheduler.cpp generates.
use juggernaut_server.Base.{ℕ, zero, suc, ◌+◌, ◌-◌, ◌^◌, ◌≤◌, ◌<◌, ◌≡◌, ◌≢◌, refl, ap, ◌∙◌, arith}
use juggernaut_server.Scheduler.{next_id}

-- The identifier of the last of `n` events.
pub ids : ℕ → ℕ
ids zero = 0
ids (suc n) = next_id (ids n)

next_id-below : (n : ℕ) → n < 2 ^ 32 - 1 → next_id n ≡ n + 1
unfolding next_id
next_id-below n h = ground arith

next_id-last : next_id (2 ^ 32 - 1) ≡ 1
unfolding next_id
next_id-last = refl

-- They count, and begin at 1 again behind the last.
ids-eq : (n : ℕ) → n ≤ 2 ^ 32 - 1 → ids n ≡ n
unfolding ids
ids-eq zero h = refl
ids-eq (suc n) h = ap next_id (ids-eq n (omega arith)) ∙ next_id-below n (omega arith) ∙ omega arith

-- No event has the identifier 0, and of 2 ^ 32 - 1 events no two have the same; the next one has the
-- identifier of the first.
pub ids-distinct :
    (m n : ℕ)
    → m < n
    → n ≤ 2 ^ 32 - 1
    → (ids m ≢ ids n) × (ids n ≢ 0) × (next_id (ids (2 ^ 32 - 1)) ≡ 1)
ids-distinct m n h h' = (
  (λ e. omega (arith, ids-eq m (omega arith), ids-eq n h', e)),
  (λ e. omega (arith, ids-eq n h', e)),
  ap next_id (ids-eq (2 ^ 32 - 1) (omega arith)) ∙ next_id-last,
)

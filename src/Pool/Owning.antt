-- ===== src/Pool/Owning.antt =====
-- The blocks of source/lockfree.h: each is with one owner or in the free list.
use juggernaut_server.Base.{
  ℕ, ◌+◌, ◌≤◌, ◌≡◌, refl, ap, Bool, true, false, List, [], ◌∷◌, Option, none, some, ◌==◌,
  if◌then◌else◌, arith,
}
use juggernaut_server.Pool.{
  BoundedStack, BlockPool, delete_block, take_block, allocate, give_block, deallocate,
}

abbrev pub count : ℕ → List ℕ → ℕ
count p [] = 0
count p (q ∷ qs) = (if p == q then 1 else 0) + count p qs

count-delete_block :
    (p q : ℕ) (qs : List ℕ)
    → 1 ≤ count q qs
    → count p qs ≡ (if p == q then 1 else 0) + count p (delete_block q qs)
unfolding delete_block
count-delete_block p q [] h = absurd (omega (arith, h))
count-delete_block p q (r ∷ qs) h = ground (arith, h, count-delete_block p q qs)

module _ {S : Type 0} (stack : BoundedStack S) (contents : S → List ℕ) where
  -- A stack: what is pushed comes back, and a push that fails changes nothing.
  pub record IsStack : Type 0 where
    pub pops : (s s' : S) (p : ℕ) → stack.pop s ≡ (some p, s') → contents s ≡ p ∷ contents s'
    pub pops_none : (s s' : S) → stack.pop s ≡ (none, s') → contents s' ≡ contents s
    pub pushes :
        (p : ℕ) (s s' : S) → stack.bounded_push p s ≡ (true, s') → contents s' ≡ p ∷ contents s
    pub refuses :
        (p : ℕ) (s s' : S) → stack.bounded_push p s ≡ (false, s') → contents s' ≡ contents s

  -- The pools that follow, with the blocks that were handed out and not returned. `operator new`
  -- returns no block that it has returned and that was not deleted.
  pub data PoolReach (pool : BlockPool S) : List ℕ → BlockPool S → Type 0 where
    here : PoolReach pool [] pool
    allocates :
        {live : List ℕ} {v : BlockPool S}
        → PoolReach pool live v
        → (new_block : ℕ) → count new_block v.heap ≡ 0
        → PoolReach pool ((allocate stack new_block v).0 ∷ live) (allocate stack new_block v).1
    deallocates :
        {live : List ℕ} {v : BlockPool S}
        → PoolReach pool live v
        → (p : ℕ) → 1 ≤ count p live
        → PoolReach pool (delete_block p live) (deallocate stack p v)

  -- Each block of the heap is live or free, once, and there are no others.
  abbrev pub Owned : List ℕ → BlockPool S → Type 0
  Owned live v =
      (p : ℕ)
      → (count p live + count p (contents v.free_list) ≡ count p v.heap) × (count p v.heap ≤ 1)

  module _ (laws : IsStack) where
    take_block-Owned :
        (live : List ℕ) (v : BlockPool S) (new_block : ℕ) (r : Option ℕ × S)
        → stack.pop v.free_list ≡ r
        → count new_block v.heap ≡ 0
        → Owned live v
        → Owned
            ((take_block stack new_block v.heap r).0 ∷ live)
            (take_block stack new_block v.heap r).1
    unfolding take_block
    take_block-Owned live v new_block (none, free) e fresh owned p =
        let same = ap (count p) (laws.pops_none v.free_list free e) in
        let (sum, once) = owned p in ground (arith, same, sum, once, fresh)
    take_block-Owned live v new_block (some q, free) e fresh owned p =
        let same = ap (count p) (laws.pops v.free_list free q e) in
        let (sum, once) = owned p in (omega (arith, same, sum), once)

    give_block-Owned :
        (live : List ℕ) (v : BlockPool S) (q : ℕ) (r : Bool × S)
        → stack.bounded_push q v.free_list ≡ r
        → 1 ≤ count q live
        → Owned live v
        → Owned (delete_block q live) (give_block stack q v.heap r)
    unfolding give_block
    give_block-Owned live v q (true, free) e held owned p =
        let same = ap (count p) (laws.pushes q v.free_list free e) in
        let (sum, once) = owned p in
        (omega (arith, same, sum, count-delete_block p q live held), once)
    give_block-Owned live v q (false, free) e held owned p =
        let same = ap (count p) (laws.refuses q v.free_list free e) in
        let (sum, once) = owned p in
        let in_heap : 1 ≤ count q v.heap = omega (arith, held, (owned q).0) in
        let rest = count-delete_block p q v.heap in_heap in
        (
          omega (arith, same, sum, count-delete_block p q live held, rest),
          omega (arith, once, rest),
        )

    -- From a pool whose blocks are all free, each once: after any sequence of allocations, and of returns
    -- of blocks that were handed out, each block of the heap is either with one owner or in the free list,
    -- exactly once, so that no block that is in use is handed out again, and none is lost.
    pub PoolReach-Owned :
        (pool : BlockPool S)
        → Owned [] pool
        → (live : List ℕ) (v : BlockPool S) → PoolReach pool live v
        → Owned live v
    unfolding allocate deallocate
    PoolReach-Owned pool start _ _ here = start
    PoolReach-Owned pool start _ _ (allocates {live} {v} r new_block fresh) =
        take_block-Owned live v new_block (stack.pop v.free_list) refl fresh
          (PoolReach-Owned pool start live v r)
    PoolReach-Owned pool start _ _ (deallocates {live} {v} r p held) =
        give_block-Owned live v p (stack.bounded_push p v.free_list) refl held
          (PoolReach-Owned pool start live v r)

-- ===== src/Pool/Examples.antt =====
-- A free list of one block: two blocks are allocated, and one is returned and handed out again.
use juggernaut_server.Base.{
  ◌+◌, ◌≤◌, ℕ, ◌≡◌, refl, sym, ap, ◌∙◌, Bool, true, false, List, [], ◌∷◌, Option, none, some, arith,
}
use juggernaut_server.Pool.{
  BoundedStack, BlockPool, delete_block, allocate, deallocate, take_block, give_block,
}
use juggernaut_server.Pool.Owning.{count, IsStack, here, allocates, deallocates, PoolReach-Owned}

abbrev pop_list : List ℕ → Option ℕ × List ℕ
pop_list [] = (none, [])
pop_list (p ∷ s) = (some p, s)

abbrev push_list : ℕ → List ℕ → Bool × List ℕ
push_list p [] = (true, p ∷ [])
push_list p (q ∷ s) = (false, q ∷ s)

abbrev list_stack : BoundedStack (List ℕ)
list_stack = record { pop = pop_list; bounded_push = push_list }

abbrev top_of : List ℕ → Option ℕ × List ℕ → List ℕ
top_of s (none, s') = s
top_of s (some p, s') = p ∷ s'

popped : (s : List ℕ) → s ≡ top_of s (pop_list s)
popped [] = refl
popped (p ∷ s) = refl

popped_none : (s s' : List ℕ) → pop_list s ≡ (none, s') → s' ≡ s
popped_none [] s' e = sym (ap (λ (r : Option ℕ × List ℕ). r.1) e)
popped_none (p ∷ s) s' e = absurd (cc)

pushed : (p : ℕ) (s s' : List ℕ) → push_list p s ≡ (true, s') → s' ≡ p ∷ s
pushed p [] s' e = sym (ap (λ (r : Bool × List ℕ). r.1) e)
pushed p (q ∷ s) s' e = absurd (cc)

refused : (p : ℕ) (s s' : List ℕ) → push_list p s ≡ (false, s') → s' ≡ s
refused p [] s' e = absurd (cc)
refused p (q ∷ s) s' e = sym (ap (λ (r : Bool × List ℕ). r.1) e)

list_stack-IsStack : IsStack list_stack (λ s. s)
list_stack-IsStack = record {
  pops = λ s s' p e. popped s ∙ ap (top_of s) e;
  pops_none = popped_none;
  pushes = pushed;
  refuses = refused;
}

abbrev empty_pool : BlockPool (List ℕ)
empty_pool = record { free_list = []; heap = [] }

PoolReach-Owned_example :
    (count 16 (16 ∷ 32 ∷ []) + count 16 [] ≡ count 16 (32 ∷ 16 ∷ []))
    × (count 16 (32 ∷ 16 ∷ []) ≤ 1)
unfolding allocate deallocate take_block give_block delete_block
PoolReach-Owned_example =
    PoolReach-Owned list_stack (λ s. s) list_stack-IsStack empty_pool (λ p. (refl, omega arith))
      (16 ∷ 32 ∷ []) (record { free_list = []; heap = 32 ∷ 16 ∷ [] })
      (allocates (deallocates (allocates (allocates here 16 refl) 32 refl) 16 (omega arith)) 48
        refl)
      16

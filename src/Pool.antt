-- ===== src/Pool.antt =====
-- The allocator of source/lockfree.h, from which source/outputmessage.cpp takes its messages. Boost's
-- bounded stack is a parameter, and so is the address that `operator new` returns. A block is its
-- address.
use juggernaut_server.Base.{
  ℕ, Bool, true, false, List, [], ◌∷◌, Option, none, some, ◌==◌, if◌then◌else◌,
}
pub mod Owning
mod Examples

pub record BoundedStack (S : Type 0) : Type 0 where
  pub pop : S → Option ℕ × S
  pub bounded_push : ℕ → S → Bool × S

-- `heap` is the blocks of `operator new` that were not deleted.
pub record BlockPool (S : Type 0) : Type 0 where
  pub free_list : S
  pub heap : List ℕ

unfoldable pub delete_block : ℕ → List ℕ → List ℕ
delete_block p [] = []
delete_block p (q ∷ heap) = let rest = delete_block p heap in if p == q then heap else q ∷ rest

module _ {S : Type 0} (stack : BoundedStack S) where
  -- What is done with the answer of `pop`, and of `bounded_push`.
  unfoldable pub take_block : ℕ → List ℕ → Option ℕ × S → ℕ × BlockPool S
  take_block new_block heap (none, free) =
      (new_block, record { free_list = free; heap = new_block ∷ heap })
  take_block new_block heap (some p, free) = (p, record { free_list = free; heap = heap })

  unfoldable pub allocate : ℕ → BlockPool S → ℕ × BlockPool S
  unfolding take_block
  allocate new_block pool = take_block new_block pool.heap (stack.pop pool.free_list)

  unfoldable pub give_block : ℕ → List ℕ → Bool × S → BlockPool S
  unfolding delete_block
  give_block p heap (true, free) = record { free_list = free; heap = heap }
  give_block p heap (false, free) = record { free_list = free; heap = delete_block p heap }

  unfoldable pub deallocate : ℕ → BlockPool S → BlockPool S
  unfolding give_block
  deallocate p pool = give_block p pool.heap (stack.bounded_push p pool.free_list)

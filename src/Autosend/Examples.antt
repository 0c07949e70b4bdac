-- ===== src/Autosend/Examples.antt =====
-- The autosend pool with concrete protocols and messages.
use juggernaut_server.Base.{ℕ, [], ◌∷◌, Option, none, some, ◌==◌, if◌then◌else◌, arith}
use juggernaut_server.Autosend.{Pool, add_protocol_to_autosend, remove_protocol_from_autosend}
use juggernaut_server.Autosend.Scheduling.{
  Scheduled, unchanged, changed, added, removed, PoolReach-Scheduled,
}

abbrev messages : ℕ → Option ℕ
messages p = if p == 2 then some 700 else none

abbrev three : Pool ℕ
three = record { buffered_protocols = 1 ∷ 2 ∷ 3 ∷ []; current_buffer = messages; events = 1 }

PoolReach-Scheduled_example :
    Scheduled (remove_protocol_from_autosend 1 (add_protocol_to_autosend 5 three))
PoolReach-Scheduled_example =
    PoolReach-Scheduled {s = three} (λ e. omega arith)
      (changed (changed unchanged (added 5)) (removed 1))

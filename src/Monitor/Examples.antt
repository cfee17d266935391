-- ===== src/Monitor/Examples.antt =====
-- Runs of the monitor on concrete inputs, and the theorem at such an input.
use skynet_sy.Common.{ℕ, ◌≡◌, ◌≢◌, refl, arith, some, List, [], ◌∷◌, ◌↔◌}
use skynet_sy.Monitor.{Monitor, monitor_check, trigger_all, monitor_check_lem}

-- A worker that got a message for the context 8, seen by a check.
abbrev stuck : Monitor
stuck = record { version = 1; check_version = 0; source = 2; destination = 8 }

stuck_run : (monitor_check (monitor_check stuck).1).0 ≡ some 8
unfolding monitor_check
stuck_run = refl

monitor_check_lem_example :
    ((monitor_check (trigger_all (monitor_check stuck).1 ((0, 0) ∷ []))).0 ≡ some 8)
    ↔ ((◌≡◌ {A = List (ℕ × ℕ)} ((0, 0) ∷ []) []) × (stuck.destination ≡ 8) × (◌≢◌ {A = ℕ} 8 0))
monitor_check_lem_example = monitor_check_lem stuck ((0, 0) ∷ []) 8 (omega arith) (omega arith)

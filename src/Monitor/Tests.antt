-- ===== src/Monitor/Tests.antt =====
-- The monitor of one worker on small inputs.
use skynet_cpp.Prelude.{◌-◌, ◌^◌, ◌≡◌, [], ◌∷◌, none, arith}
use skynet_cpp.Monitor.{CMonitor, check}
use skynet_cpp.Monitor.Watch.{triggers, check-triggers}

abbrev at_work : CMonitor
at_work = record { version = 2 ^ 32 - 1; check_version = 5; source = 1; destination = 9 }

check-triggers_example : (check (triggers ((1, 9) ∷ (0, 0) ∷ []) (check at_work).1)).0 ≡ none
check-triggers_example = check-triggers at_work (1, 9) ((0, 0) ∷ []) (omega arith) (omega arith)

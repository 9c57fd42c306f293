-- ===== src/Monitor.antt =====
-- skynet-src/monitor.cpp: each worker marks the message that it handles, and the monitor thread looks
-- whether a worker is still at the message of its last look. The version is an `int` that wraps.
pub mod Watch
mod Tests
use skynet_cpp.Prelude.{ℕ, ◌+◌, ◌%◌, ◌^◌, ◌==◌, if◌then◌else◌, Option, none, some, List, [], ◌∷◌}

pub record CMonitor : Type 0 where
  pub version : ℕ
  pub check_version : ℕ
  pub source : ℕ
  pub destination : ℕ

unfoldable pub trigger : ℕ → ℕ → CMonitor → CMonitor
trigger source destination m = record m {
  version = (m.version + 1) % 2 ^ 32;
  source = source;
  destination = destination;
}

-- The source and the destination of the message that is reported, with the call of `Endless`, if there
-- is one; and the new state.
unfoldable pub check : CMonitor → Option (ℕ × ℕ) × CMonitor
check m =
    if m.version == m.check_version
    then (if m.destination == 0 then (none, m) else (some (m.source, m.destination), m))
    else (none, record m { check_version = m.version })

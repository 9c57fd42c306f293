-- ===== src/Monitor/Watch.antt =====
-- What the monitor reports: a worker that did nothing between two looks, and no other.
use skynet_cpp.Prelude.{
  ℕ, ◌+◌, ◌%◌, ◌^◌, ◌<◌, ◌≡◌, ◌≢◌, refl, ◌∙◌, none, some, List, [], ◌∷◌, length, arith,
}
use skynet_cpp.Monitor.{CMonitor, trigger, check}

-- what a worker does between two looks: the messages that it begins and ends to handle
abbrev pub triggers : List (ℕ × ℕ) → CMonitor → CMonitor
triggers [] m = m
triggers ((s, d) ∷ ts) m = triggers ts (trigger s d m)

version-triggers :
    (ts : List (ℕ × ℕ)) (m : CMonitor)
    → m.version < 2 ^ 32
    → (triggers ts m).version ≡ (m.version + length ts) % 2 ^ 32
unfolding trigger
version-triggers [] m lt = omega arith
version-triggers ((s, d) ∷ ts) m lt =
    version-triggers ts (trigger s d m) (omega arith) ∙ omega arith

check_version-triggers :
    (ts : List (ℕ × ℕ)) (m : CMonitor) → (triggers ts m).check_version ≡ m.check_version
unfolding trigger
check_version-triggers [] m = refl
check_version-triggers ((s, d) ∷ ts) m = check_version-triggers ts (trigger s d m)

looked :
    (m : CMonitor) → ((check m).1.check_version ≡ m.version) × ((check m).1.version ≡ m.version)
unfolding check
looked m = ground arith

check-moved : (m : CMonitor) → m.version ≢ m.check_version → (check m).0 ≡ none
unfolding check
check-moved m ne = ground arith

-- Between two looks of the monitor, if the worker did something, less than 2 ^ 32 times, the second
-- look reports nothing (the version being one of 32 bits).
pub check-triggers :
    (m : CMonitor) (t : ℕ × ℕ) (ts : List (ℕ × ℕ))
    → m.version < 2 ^ 32
    → length (t ∷ ts) < 2 ^ 32
    → (check (triggers (t ∷ ts) (check m).1)).0 ≡ none
check-triggers m t ts lt few =
    let (seen, same) = looked m in
    let k = (check m).1 in
    let version = version-triggers (t ∷ ts) k (omega (arith, same)) in
    let kept = check_version-triggers (t ∷ ts) k in
    check-moved (triggers (t ∷ ts) k) (λ e. omega (arith, e, version, kept, seen, same))

-- A worker that handles a message, and did nothing between two looks, is reported by the second one
-- with the source and the destination of its message.
check-idle :
    (m : CMonitor) → m.destination ≢ 0 → (check (check m).1).0 ≡ some (m.source, m.destination)
unfolding check
check-idle m busy = ground arith

-- ===== src/Harbor/Service/Remotes.antt =====
-- Closing all connections, and the handshake, in service-src/service_harbor.cpp.
use skynet_cpp.Prelude.{
  ℕ, zero, suc, ◌+◌, ◌%◌, ◌^◌, ◌≤◌, ◌<◌, ◌==◌, if◌then◌else◌, ◌≡◌, ◌≢◌, refl, ap, ◌∙◌, ◌⊎◌, inl,
  inr, true, false, none, List, [], ◌∷◌, ◌++◌, arith, Bool-cases,
}
use skynet_cpp.Prelude.Run.{fault, out_of_bounds}
use skynet_cpp.Harbor.Slave.{Slave, Harbor, Call, socket_close, status_down, close_harbor}
use skynet_cpp.Harbor.Service.{close_from, close_all_remotes, handshake}

-- a slave without a connection, which gets none until the next command
abbrev pub lost : Slave → Slave
lost s = record s { fd = 0; queue = none; status = status_down }

-- the calls that close the sockets of the slaves from `i` on, in order
abbrev pub closes : ℕ → ℕ → (ℕ → Slave) → List Call
closes zero i s = []
closes (suc n) i s =
    (if (s i).fd == 0 then [] else socket_close (s i).fd ∷ []) ++ closes n (i + 1) s

closes-congr :
    (n i : ℕ) (s t : ℕ → Slave) → ((j : ℕ) → i ≤ j → s j ≡ t j) → closes n i s ≡ closes n i t
closes-congr zero i s t h = refl
closes-congr (suc n) i s t h =
    rw (h i (omega arith), closes-congr n (i + 1) s t (λ j le. h j (omega arith))) refl

close_harbor_self : (h : Harbor) (id : ℕ) → (close_harbor h id).1.s id ≡ lost (h.s id)
unfolding close_harbor
close_harbor_self h id = let on : (id == id) ≡ true = ground arith in rw on refl

close_harbor_other : (h : Harbor) (id i : ℕ) → i ≢ id → (close_harbor h id).1.s i ≡ h.s i
unfolding close_harbor
close_harbor_other h id i ne = let off : (i == id) ≡ false = ground arith in rw off refl

close_harbor_call :
    (h : Harbor) (id : ℕ)
    → (close_harbor h id).0 ≡ (if (h.s id).fd == 0 then [] else socket_close (h.s id).fd ∷ [])
unfolding close_harbor
close_harbor_call h id = refl

close_from-suc :
    (n i : ℕ) (h : Harbor)
    → close_from (suc n) i h ≡ (
      (close_harbor h i).0 ++ (close_from n (i + 1) (close_harbor h i).1).0,
      (close_from n (i + 1) (close_harbor h i).1).1,
    )
unfolding close_from
close_from-suc n i h = refl

close_from-zero : (i : ℕ) (h : Harbor) → close_from zero i h ≡ ([], h)
unfolding close_from
close_from-zero i h = refl

close_from-Closed :
    (n i : ℕ) (h : Harbor)
    → ((close_from n i h).0 ≡ closes n i h.s)
      × ((j : ℕ) → i ≤ j → j < i + n → (close_from n i h).1.s j ≡ lost (h.s j))
      × ((j : ℕ) → (j < i) ⊎ (i + n ≤ j) → (close_from n i h).1.s j ≡ h.s j)
close_from-Closed zero i h =
    rw (close_from-zero i h) (refl, (λ j le lt. absurd (omega (arith, le, lt))), λ j o. refl)
close_from-Closed (suc n) i h =
    let k = (close_harbor h i).1 in
    let (calls, inside, outside) = close_from-Closed n (i + 1) k in
    let rest : closes n (i + 1) k.s ≡ closes n (i + 1) h.s =
      closes-congr n (i + 1) k.s h.s (λ j le. close_harbor_other h i j (omega arith)) in
    rw (close_from-suc n i h) (
      rw (calls, rest, close_harbor_call h i) refl,
      (λ j le lt. elim (Bool-cases (j == i)) [
        | inl on ↦
            let same : j ≡ i = ground arith in
            rw (same) (outside i (inl (omega arith)) ∙ close_harbor_self h i)
        | inr off ↦
            let ne : j ≢ i = ground arith in
            inside j (omega arith) (omega arith) ∙ ap lost (close_harbor_other h i j ne)
      ]),
      (λ j o.
          let ne : j ≢ i = ground arith in
          let o' : (j < i + 1) ⊎ (i + 1 + n ≤ j) = ground arith in
          outside j o' ∙ close_harbor_other h i j ne),
    )

-- close_all_remotes closes the sockets of the slaves 1 to 255 that have one, in this order; each of
-- these slaves has no socket and no queue afterwards and is down, with its other fields as before,
-- and all other slaves are as before.
pub close_all_remotes-Closed :
    (h : Harbor)
    → ((close_all_remotes h).0 ≡ closes 255 1 h.s)
      × ((j : ℕ) → 1 ≤ j → j < 256 → (close_all_remotes h).1.s j ≡ lost (h.s j))
      × ((j : ℕ) → (j < 1) ⊎ (256 ≤ j) → (close_all_remotes h).1.s j ≡ h.s j)
close_all_remotes-Closed h = close_from-Closed 255 1 h

-- The text of one byte that is not NUL has no end.
pub handshake-fault :
    (h : Harbor) (id : ℕ) → h.id % 2 ^ 8 ≢ 0 → handshake h id ≡ fault out_of_bounds
unfolding handshake
handshake-fault h id ne =
    let off : (h.id % 2 ^ 8 == 0) ≡ false = ground arith in rw (handshake, off) refl

-- ===== src/Harbor/Queue/Drain.antt =====
-- The loops that empty a queue: they stop, and see every message once, in the order of arrival.
use skynet_cpp.Prelude.{
  ℕ, zero, suc, ◌<◌, ◌≡◌, ap, inl, inr, List, [], ◌∷◌, none, some, length, arith,
}
use skynet_cpp.Harbor.Queue.{Queue, pop, pop_all}
use skynet_cpp.Harbor.Queue.Refine.{IsValid, contents, pop_refines}

module _ {ℓ} {A : Type ℓ} (blank : A) where
  pop_all-none :
      (fuel : ℕ) (q : Queue A) → pop blank q ≡ none → pop_all blank (suc fuel) q ≡ some ([], q)
  unfolding pop_all
  pop_all-none fuel q e = ground arith

  pop_all-some :
      (fuel : ℕ) (q r s : Queue A) (m : A) (ms : List A)
      → pop blank q ≡ some (m, r)
      → pop_all blank fuel r ≡ some (ms, s)
      → pop_all blank (suc fuel) q ≡ some (m ∷ ms, s)
  unfolding pop_all
  pop_all-some fuel q r s m ms e f = ground arith

  -- Popping until NULL, with more rounds than messages, ends, yields all messages of a valid queue
  -- oldest first, and leaves a valid empty queue.
  pub pop_all-contents :
      (fuel : ℕ) (q : Queue A)
      → IsValid q
      → length (contents blank q) < fuel
      → (r : Queue A) × (pop_all blank fuel q ≡ some (contents blank q, r))
        × IsValid r
        × (contents blank r ≡ [])
  pop_all-contents zero q v h = elim h [ ]
  pop_all-contents (suc fuel) q v h = elim (pop_refines blank q v) [
    | inl (e, c) ↦ (q, rw c (pop_all-none fuel q e), v, c)
    | inr (m, r, e, w, c) ↦
        let (s, run, x, gone) = pop_all-contents fuel r w (omega (arith, ap length c)) in
        (s, rw c (pop_all-some fuel q r s m (contents blank r) e run), x, gone)
  ]

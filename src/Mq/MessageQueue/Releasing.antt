-- ===== src/Mq/MessageQueue/Releasing.antt =====
-- `Release` of skynet-src/mq.cpp, whose loop takes the messages by `Pop`, which leaves them in the queue.
use skynet_cpp.Prelude.{
  ℕ, zero, suc, ◌==◌, ◌≡◌, refl, sym, ap, ◌∙◌, inl, inr, true, List, ◌∷◌, arith,
}
use skynet_cpp.Prelude.Run.{Fault, Run, Run-cases, ok, fault, uninitialised_pointer, no_fuel, ◌>>=◌}
use skynet_cpp.Prelude.Run.Ensures.{Ensures, Ensures-fault, Ensures-ok, Ensures-bind}
use skynet_cpp.Mq.MessageQueue.{
  Message, MessageQueue, World, Popped, front, uninitialised, put, pop_queue, pop, drop_all,
  release,
}

pop_queue-front :
    (mq : MessageQueue) (m : Message) (ms : List Message)
    → mq.message_queue ≡ m ∷ ms
    → ((pop_queue mq).0 ≡ front m)
      × ((pop_queue mq).1.message_queue ≡ m ∷ ms)
      × ((pop_queue mq).1.in_global ≡ mq.in_global)
unfolding pop_queue
pop_queue-front mq m ms e = (rw (pop_queue, e) refl, rw (pop_queue, e) e, rw (pop_queue, e) refl)

-- Looking at the front changes the overload fields of the queue alone.
pub pop-front :
    (q : ℕ) (w : World) (m : Message) (ms : List Message)
    → (w.queue q).message_queue ≡ m ∷ ms
    → (w' : World) × (pop q w ≡ (front m, w'))
      × ((w'.queue q).message_queue ≡ m ∷ ms)
      × ((w'.queue q).in_global ≡ (w.queue q).in_global)
      × (w'.global ≡ w.global)
unfolding pop
pop-front q w m ms e =
    let (shown, kept, flag) = pop_queue-front (w.queue q) m ms e in
    let on : (q == q) ≡ true = ground arith in
    (
      record w { queue = put q (pop_queue (w.queue q)).1 w.queue },
      rw shown refl,
      rw on kept,
      rw on flag,
      refl,
    )

abbrev Any : Fault → Type 0
Any e = Unit {0}

anything : {A : Type 0} (r : Run A) → Ensures Any (λ a. r ≡ ok a) r
anything (ok a) = Ensures-ok refl
anything (fault e) = Ensures-fault tt

module _ {S : Type 0} (world : S → World) (with_world : World → S → S) where
  -- The queue holds messages, of which this one is the first.
  abbrev IsFirst : ℕ → Message → S → Type 0
  IsFirst q m s = (ms : List Message) × (((world s).queue q).message_queue ≡ m ∷ ms)

  drop_all-Stops :
      (drop : Message → S → Run S) (fuel q : ℕ) (s : S)
      → Ensures Any (λ r. ⊥) (drop_all world with_world drop fuel q s)
  unfolding drop_all
  drop_all-Stops drop zero q s = Ensures-fault tt
  drop_all-Stops drop (suc fuel) q s =
      stops (λ s'. drop_all-Stops drop fuel q s') (pop q (world s)).0
    where
      stops :
          ((s' : S) → Ensures Any (λ r. ⊥) (drop_all world with_world drop fuel q s'))
          → (popped : Popped)
          → Ensures Any
              (λ r. ⊥)
              (elim popped [
                | front m ↦ drop m (with_world (pop q (world s)).1 s) >>= λ s'.
                    drop_all world with_world drop fuel q s'
                | uninitialised ↦ fault uninitialised_pointer
              ])
      stops again (front m) =
          Ensures-bind (anything (drop m (with_world (pop q (world s)).1 s))) (λ s' h. again s')
      stops again uninitialised = Ensures-fault tt

  module _ (drop : Message → S → Run S) (q : ℕ) (m : Message)
      (seen : (w : World) (s : S) → world (with_world w s) ≡ w)
      (kept : (s s' : S) → IsFirst q m s → drop m s ≡ ok s' → IsFirst q m s') where
    drop_all_round :
        (drop' : Message → S → Run S) (fuel : ℕ) (s : S) (w : World)
        → pop q (world s) ≡ (front m, w)
        → drop_all world with_world drop' (suc fuel) q s
          ≡ (drop' m (with_world w s) >>= λ s'. drop_all world with_world drop' fuel q s')
    unfolding drop_all
    drop_all_round drop' fuel s w e =
        ap
          (λ (r : Popped × World). elim r.0 [
            | front m' ↦
                drop' m' (with_world r.1 s) >>= λ s'. drop_all world with_world drop' fuel q s'
            | uninitialised ↦ fault uninitialised_pointer
          ])
          e

    drop_all_end :
        (drop' : Message → S → Run S) (s : S)
        → drop_all world with_world drop' zero q s ≡ fault no_fuel
    unfolding drop_all
    drop_all_end drop' s = refl

    drop_all-first :
        (fuel : ℕ) (s : S)
        → IsFirst q m s
        → drop_all world with_world drop fuel q s
          ≡ drop_all world with_world (λ other. drop m) fuel q s
    drop_all-first zero s first = drop_all_end drop s ∙ sym (drop_all_end (λ other. drop m) s)
    drop_all-first (suc fuel) s (ms, e) =
        let (w, popped, still, flag, global) = pop-front q (world s) m ms e in
        let next : IsFirst q m (with_world w s) =
          (ms, ap (λ v. (v.queue q).message_queue) (seen w s) ∙ still) in
        rw (drop_all_round drop fuel s w popped, drop_all_round (λ other. drop m) fuel s w popped)
          (elim (Run-cases (drop m (with_world w s))) [
            | inl (s', r) ↦ rw r (drop_all-first fuel s' (kept (with_world w s) s' next r))
            | inr (f, r) ↦ rw r refl
          ])

    -- Release of a queue that is marked for release and holds messages calls drop_func with the
    -- first message in every round, never with another one, and never returns, when the state gives
    -- back the queues that were written and drop_func leaves this message the first of the queue.
    pub release-stuck :
        (fuel : ℕ) (s : S)
        → ((world s).queue q).release_flag ≡ true
        → IsFirst q m s
        → (release world with_world drop fuel q s
            ≡ release world with_world (λ other. drop m) fuel q s)
          × Ensures Any (λ r. ⊥) (release world with_world drop fuel q s)
    unfolding release
    release-stuck fuel s marked first = (
      rw (marked, drop_all-first fuel s first) refl,
      rw marked (Ensures-bind (drop_all-Stops drop fuel q s) (λ s' never. absurd never)),
    )

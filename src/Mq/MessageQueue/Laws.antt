-- ===== src/Mq/MessageQueue/Laws.antt =====
-- The queue of a service and the global queue together: a queue that holds messages is in the global
-- queue or with a worker, and no queue is linked twice.
use native.Mathlib.Decide.{ℕ_discrete}
use skynet_cpp.Prelude.{
  ℕ, zero, suc, ◌+◌, ◌*◌, ◌≤◌, ◌<◌, ◌==◌, ltb, ◌≡◌, ◌≢◌, refl, ◌⊎◌, inl, inr, true, false, List, [],
  ◌∷◌, ◌++◌, length, arith, Bool-cases,
}
use skynet_cpp.Prelude.Run.{Run, ok}
use skynet_cpp.Mq.GlobalQueue.Fifo.{Links, Apart, Apart-snoc, push-Links}
use skynet_cpp.Mq.MessageQueue.{
  Message, MessageQueue, World, put, mq_in_global, front, uninitialised, overload_loop, pop_queue,
  push,
}

-- The global queue links `qs`. A queue with the flag 0 is empty, and is not linked unless its service
-- was released.
pub record IsValid (w : World) (qs : List ℕ) : Type 0 where
  pub links : Links w.global qs
  pub flag_le : (p : ℕ) → (w.queue p).in_global ≤ 1
  pub threshold_pos : (p : ℕ) → 0 < (w.queue p).overload_threshold
  pub unlinked : (p : ℕ) → (w.queue p).in_global ≡ 0 → (w.queue p).release_flag ≡ false → Apart p qs
  pub idle : (p : ℕ) → (w.queue p).in_global ≡ 0 → (w.queue p).message_queue ≡ []

-- A property of all queues, by cases on the one that was written.
pub put-cases :
    (P : ℕ → MessageQueue → Type 0) (q p : ℕ) (mq : MessageQueue) (queue : ℕ → MessageQueue)
    → P q mq
    → ((p : ℕ) → p ≢ q → P p (queue p))
    → P p (put q mq queue p)
put-cases P q p mq queue here there = elim (ℕ_discrete p q) [
  | yes e ↦ let on : (p == q) ≡ true = ground arith in rw (on, e) here
  | no ne ↦ let off : (p == q) ≡ false = ground arith in rw off (there p ne)
]

-- What a push has done: the message stands at the end, the queue is flagged, nothing else changed, and
-- the queue was linked at the end if its flag was 0.
pub record Pushed (w : World) (qs : List ℕ) (q : ℕ) (msg : Message) (out : Run World) : Type 0 where
  pub after : World
  pub linked : List ℕ
  pub result : out ≡ ok after
  pub valid : IsValid after linked
  pub messages : (after.queue q).message_queue ≡ (w.queue q).message_queue ++ msg ∷ []
  pub flagged : (after.queue q).in_global ≡ 1
  pub others : (p : ℕ) → p ≢ q → after.queue p ≡ w.queue p
  pub order :
      (((w.queue q).in_global ≡ 0) × (linked ≡ qs ++ q ∷ []))
      ⊎ (((w.queue q).in_global ≡ 1) × (linked ≡ qs))

module _ (w : World) (qs : List ℕ) (q : ℕ) (msg : Message) (v : IsValid w qs)
    (live : (w.queue q).release_flag ≡ false) where
  grown : MessageQueue
  grown = record (w.queue q) {
    message_queue = (w.queue q).message_queue ++ msg ∷ [];
    in_global = mq_in_global;
  }

  self : (q == q) ≡ true
  self = ground arith

  pushed_others : (mq : MessageQueue) (p : ℕ) → p ≢ q → put q mq w.queue p ≡ w.queue p
  pushed_others mq p ne = let off : (p == q) ≡ false = ground arith in rw off

  push_new : (w.queue q).in_global ≡ 0 → Pushed w qs q msg (push q msg w)
  unfolding push grown
  push_new zero_flag =
      let (g, run, links) = push-Links w.global qs q v.links (v.unlinked q zero_flag live) in
      record {
        after = record { queue = put q grown w.queue; global = g };
        linked = qs ++ q ∷ [];
        result = ground (arith, run, zero_flag);
        valid = record {
          links = links;
          flag_le = λ p.
              put-cases (λ p mq. mq.in_global ≤ 1) q p grown w.queue (omega arith)
                (λ p ne. v.flag_le p);
          threshold_pos = λ p.
              put-cases (λ p mq. 0 < mq.overload_threshold) q p grown w.queue (v.threshold_pos q)
                (λ p ne. v.threshold_pos p);
          unlinked = λ p.
              put-cases
                (λ p mq. mq.in_global ≡ 0 → mq.release_flag ≡ false → Apart p (qs ++ q ∷ [])) q p
                grown w.queue (λ e f. absurd (omega arith))
                (λ p ne e f. Apart-snoc p q qs (v.unlinked p e f) ne);
          idle = λ p.
              put-cases (λ p mq. mq.in_global ≡ 0 → mq.message_queue ≡ []) q p grown w.queue
                (λ e. absurd (omega arith)) (λ p ne. v.idle p);
        };
        messages = rw self;
        flagged = rw self;
        others = pushed_others grown;
        order = inl (zero_flag, refl);
      }

  push_flagged : (w.queue q).in_global ≡ 1 → Pushed w qs q msg (push q msg w)
  unfolding push
  push_flagged one_flag =
      let mq : MessageQueue = record (w.queue q) {
        message_queue = (w.queue q).message_queue ++ msg ∷ [];
      } in
      record {
        after = record w { queue = put q mq w.queue };
        linked = qs;
        result = ground (arith, one_flag);
        valid = record {
          links = record {
            distinct = v.links.distinct;
            head_eq = v.links.head_eq;
            tail_eq = v.links.tail_eq;
            next_eq = v.links.next_eq;
          };
          flag_le = λ p.
              put-cases (λ p mq. mq.in_global ≤ 1) q p mq w.queue (v.flag_le q)
                (λ p ne. v.flag_le p);
          threshold_pos = λ p.
              put-cases (λ p mq. 0 < mq.overload_threshold) q p mq w.queue (v.threshold_pos q)
                (λ p ne. v.threshold_pos p);
          unlinked = λ p.
              put-cases (λ p mq. mq.in_global ≡ 0 → mq.release_flag ≡ false → Apart p qs) q p mq
                w.queue (v.unlinked q) (λ p ne. v.unlinked p);
          idle = λ p.
              put-cases (λ p mq. mq.in_global ≡ 0 → mq.message_queue ≡ []) q p mq w.queue
                (λ e. absurd (omega arith)) (λ p ne. v.idle p);
        };
        messages = rw self;
        flagged = rw self one_flag;
        others = pushed_others mq;
        order = inr (one_flag, refl);
      }

  -- In a valid world a push to the queue of a live service succeeds and keeps the world valid: the
  -- message stands at the end, the queue is flagged, every other queue is unchanged, and the queue
  -- was appended to the global queue if it was not flagged.
  pub push-Pushed : Pushed w qs q msg (push q msg w)
  push-Pushed = elim (ℕ_discrete (w.queue q).in_global 0) [
    | yes z ↦ push_new z
    | no ne ↦ push_flagged (omega (arith, v.flag_le q))
  ]

overload_loop_enough :
    (n size overload threshold : ℕ)
    → 0 < threshold
    → size ≤ threshold + n
    → size ≤ (overload_loop n size overload threshold).1
unfolding overload_loop
overload_loop_enough zero size overload threshold pos le = omega arith
overload_loop_enough (suc n) size overload threshold pos le =
    let ih = overload_loop_enough n size size (threshold * 2) (omega arith) (omega arith) in
    elim (Bool-cases (ltb threshold size)) [
      | inl over ↦ rw over ih
      | inr under ↦ rw under (ground arith)
    ]

-- Pop with a threshold that is not 0: on an empty queue it clears the flag, resets the threshold and
-- returns a pointer without a value; else the pointer shows the oldest message, all messages and the
-- flag stay, and the threshold is not below their number.
pop_queue-cases :
    (mq : MessageQueue)
    → 0 < mq.overload_threshold
    → ((mq.message_queue ≡ [])
        × (pop_queue mq ≡ (uninitialised, record mq { overload_threshold = 1024; in_global = 0 })))
      ⊎ ((m : Message) × (ms : List Message) × (mq.message_queue ≡ m ∷ ms)
          × ((pop_queue mq).0 ≡ front m)
          × ((pop_queue mq).1.message_queue ≡ m ∷ ms)
          × ((pop_queue mq).1.in_global ≡ mq.in_global)
          × (length (m ∷ ms) ≤ (pop_queue mq).1.overload_threshold))
unfolding pop_queue
pop_queue-cases mq pos = conclude mq.message_queue refl
  where
    conclude :
        (l : List Message)
        → mq.message_queue ≡ l
        → ((mq.message_queue ≡ [])
            × (pop_queue mq
                ≡ (uninitialised, record mq { overload_threshold = 1024; in_global = 0 })))
          ⊎ ((m : Message) × (ms : List Message) × (mq.message_queue ≡ m ∷ ms)
              × ((pop_queue mq).0 ≡ front m)
              × ((pop_queue mq).1.message_queue ≡ m ∷ ms)
              × ((pop_queue mq).1.in_global ≡ mq.in_global)
              × (length (m ∷ ms) ≤ (pop_queue mq).1.overload_threshold))
    conclude [] e = inl (e, rw e refl)
    conclude (m ∷ ms) e = inr (
      m,
      ms,
      e,
      rw e refl,
      rw e refl,
      rw e refl,
      rw e (
          overload_loop_enough (length (m ∷ ms)) (length (m ∷ ms)) mq.overload mq.overload_threshold
            pos (omega arith)),
    )

-- ===== src/Mq/MessageQueue/Marking.antt =====
-- `MarkRelease`: the queue of a service that ended comes to the global queue, where a worker finds it.
use native.Mathlib.Decide.{ℕ_discrete}
use skynet_cpp.Prelude.{
  ℕ, ◌≤◌, ◌<◌, ◌≡◌, refl, ◌⊎◌, inl, inr, true, false, List, [], ◌∷◌, ◌++◌, arith,
}
use skynet_cpp.Prelude.Run.{Run, ok}
use skynet_cpp.Mq.GlobalQueue.Fifo.{Apart, Apart-snoc, push-Links}
use skynet_cpp.Mq.MessageQueue.{MessageQueue, World, put, mark_release}
use skynet_cpp.Mq.MessageQueue.Laws.{IsValid, put-cases}

-- What the mark has done: the world is valid, only the mark of `q` changed, and the queue was linked at
-- the end if its flag was 0.
pub record Marked (w : World) (qs : List ℕ) (q : ℕ) (out : Run World) : Type 0 where
  pub after : World
  pub linked : List ℕ
  pub result : out ≡ ok after
  pub valid : IsValid after linked
  pub marked : after.queue ≡ put q (record (w.queue q) { release_flag = true }) w.queue
  pub order :
      (((w.queue q).in_global ≡ 0) × (linked ≡ qs ++ q ∷ []))
      ⊎ (((w.queue q).in_global ≡ 1) × (linked ≡ qs))

module _ (w : World) (qs : List ℕ) (q : ℕ) (v : IsValid w qs)
    (live : (w.queue q).release_flag ≡ false) where
  abbrev dead : MessageQueue
  dead = record (w.queue q) { release_flag = true }

  mark_idle : (w.queue q).in_global ≡ 0 → Marked w qs q (mark_release q w)
  unfolding mark_release
  mark_idle zero_flag =
      let (g, run, links) = push-Links w.global qs q v.links (v.unlinked q zero_flag live) in
      record {
        after = record { queue = put q dead w.queue; global = g };
        linked = qs ++ q ∷ [];
        result = ground (arith, run, zero_flag, live);
        valid = record {
          links = links;
          flag_le = λ p.
              put-cases (λ p mq. mq.in_global ≤ 1) q p dead w.queue (v.flag_le q)
                (λ p ne. v.flag_le p);
          threshold_pos = λ p.
              put-cases (λ p mq. 0 < mq.overload_threshold) q p dead w.queue (v.threshold_pos q)
                (λ p ne. v.threshold_pos p);
          unlinked = λ p.
              put-cases
                (λ p mq. mq.in_global ≡ 0 → mq.release_flag ≡ false → Apart p (qs ++ q ∷ [])) q p
                dead w.queue (λ e f. absurd (cc f))
                (λ p ne e f. Apart-snoc p q qs (v.unlinked p e f) ne);
          idle = λ p.
              put-cases (λ p mq. mq.in_global ≡ 0 → mq.message_queue ≡ []) q p dead w.queue
                (v.idle q) (λ p ne. v.idle p);
        };
        marked = refl;
        order = inl (zero_flag, refl);
      }

  mark_flagged : (w.queue q).in_global ≡ 1 → Marked w qs q (mark_release q w)
  unfolding mark_release
  mark_flagged one_flag = record {
    after = record w { queue = put q dead w.queue };
    linked = qs;
    result = ground (arith, one_flag, live);
    valid = record {
      links = record {
        distinct = v.links.distinct;
        head_eq = v.links.head_eq;
        tail_eq = v.links.tail_eq;
        next_eq = v.links.next_eq;
      };
      flag_le = λ p.
          put-cases (λ p mq. mq.in_global ≤ 1) q p dead w.queue (v.flag_le q) (λ p ne. v.flag_le p);
      threshold_pos = λ p.
          put-cases (λ p mq. 0 < mq.overload_threshold) q p dead w.queue (v.threshold_pos q)
            (λ p ne. v.threshold_pos p);
      unlinked = λ p.
          put-cases (λ p mq. mq.in_global ≡ 0 → mq.release_flag ≡ false → Apart p qs) q p dead
            w.queue (λ e f. absurd (cc f)) (λ p ne. v.unlinked p);
      idle = λ p.
          put-cases (λ p mq. mq.in_global ≡ 0 → mq.message_queue ≡ []) q p dead w.queue (v.idle q)
            (λ p ne. v.idle p);
    };
    marked = refl;
    order = inr (one_flag, refl);
  }

  -- In a valid world, marking the queue of a live service for release passes the assertion and keeps
  -- the world valid: only the mark changes, and the queue was appended to the global queue if it was
  -- not flagged.
  pub mark_release-Marked : Marked w qs q (mark_release q w)
  mark_release-Marked = elim (ℕ_discrete (w.queue q).in_global 0) [
    | yes z ↦ mark_idle z
    | no ne ↦ mark_flagged (omega (arith, v.flag_le q))
  ]

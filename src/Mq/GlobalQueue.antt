-- ===== src/Mq/GlobalQueue.antt =====
-- `GlobalQueue` of skynet-src/mq.cpp: a list of message queues that is linked through their `next_`
-- fields. A `MessageQueue *` is a number; the fields `next_` of all queues are one function.
pub mod Fifo
use skynet_cpp.Prelude.{ℕ, ◌==◌, if◌then◌else◌, Bool, true, false, Option, none, some}
use skynet_cpp.Prelude.Run.{Run, ok, assert, ◌>>=◌, ◌>>◌}

pub record GlobalQueue : Type 0 where
  pub head : Option ℕ
  pub tail : Option ℕ
  pub next : ℕ → Option ℕ

abbrev pub no_queue : Option ℕ → Bool
no_queue none = true
no_queue (some q) = false

abbrev pub same_queue : ℕ → Option ℕ → Bool
same_queue q none = false
same_queue q (some p) = q == p

abbrev pub link : (ℕ → Option ℕ) → ℕ → Option ℕ → ℕ → Option ℕ
link next q to p = if p == q then to else next p

-- `GlobalQueue::Push` behind its assertion
unfoldable pub append : GlobalQueue → ℕ → GlobalQueue
append g queue = elim g.tail [
  | some t ↦ record g { next = link g.next t (some queue); tail = some queue }
  | none ↦ record g { head = some queue; tail = some queue }
]

unfoldable pub push : GlobalQueue → ℕ → Run GlobalQueue
unfolding append
push g queue = assert (no_queue (g.next queue)) >> ok (append g queue)

unfoldable pub pop : GlobalQueue → Run (Option ℕ × GlobalQueue)
pop g = elim g.head [
  | none ↦ ok (none, g)
  | some mq ↦ elim (g.next mq) [
    | none ↦
        assert (same_queue mq g.tail)
        >> ok (some mq, record { head = none; tail = none; next = link g.next mq none })
    | some first ↦ ok (some mq, record g { head = some first; next = link g.next mq none })
  ]
]

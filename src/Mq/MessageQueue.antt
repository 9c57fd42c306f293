-- ===== src/Mq/MessageQueue.antt =====
-- `MessageQueue` of skynet-src/mq.cpp: the messages of one service. The methods run to their end under
-- the lock of the queue. `queue` gives the object of each queue.
pub mod Laws
pub mod Marking
pub mod Releasing
use skynet_cpp.Prelude.{
  ℕ, zero, suc, ◌+◌, ◌*◌, ◌==◌, ltb, if◌then◌else◌, Bool, true, false, not, Option, none, some,
  List, [], ◌∷◌, ◌++◌, length,
}
use skynet_cpp.Prelude.Run.{Run, ok, fault, no_fuel, uninitialised_pointer, assert, ◌>>=◌, ◌>>◌}
use skynet_cpp.Mq.GlobalQueue.{GlobalQueue, no_queue}
use skynet_cpp.Mq.GlobalQueue

abbrev pub mq_in_global : ℕ
mq_in_global = 1

abbrev pub mq_overload : ℕ
mq_overload = 1024

pub record Message : Type 0 where
  pub source : ℕ
  pub session : ℕ
  pub data_bytes : Option (List ℕ)
  pub sz : ℕ

pub record MessageQueue : Type 0 where
  pub handle : ℕ
  pub message_queue : List Message
  pub release_flag : Bool
  pub in_global : ℕ
  pub overload : ℕ
  pub overload_threshold : ℕ

pub record World : Type 0 where
  pub queue : ℕ → MessageQueue
  pub global : GlobalQueue

abbrev pub put : ℕ → MessageQueue → (ℕ → MessageQueue) → ℕ → MessageQueue
put q mq queue p = if p == q then mq else queue p

-- the constructor
unfoldable pub new_message_queue : ℕ → MessageQueue
new_message_queue handle = record {
  handle = handle;
  message_queue = [];
  release_flag = false;
  in_global = mq_in_global;
  overload = 0;
  overload_threshold = mq_overload;
}

unfoldable pub mark_release : ℕ → World → Run World
mark_release q w =
    let mq : MessageQueue = record (w.queue q) { release_flag = true } in
    assert (not (w.queue q).release_flag)
    >> (if mq.in_global == mq_in_global
        then ok (record w { queue = put q mq w.queue })
        else (GlobalQueue.push w.global q >>= λ g.
            ok (record { queue = put q mq w.queue; global = g })))

-- what the pointer that `Pop` returns shows: the front of the queue, or anything
pub data Popped : Type 0 where
  front : Message → Popped
  uninitialised : Popped

-- The loop that doubles the threshold: the new `overload_` and threshold. A round for each message is
-- enough.
unfoldable pub overload_loop : ℕ → ℕ → ℕ → ℕ → ℕ × ℕ
overload_loop zero size overload threshold = (overload, threshold)
overload_loop (suc n) size overload threshold =
    let rest = overload_loop n size size (threshold * 2) in
    if ltb threshold size then rest else (overload, threshold)

unfoldable pub pop_queue : MessageQueue → Popped × MessageQueue
unfolding overload_loop
pop_queue mq = elim mq.message_queue [
  | [] ↦ (uninitialised, record mq { overload_threshold = mq_overload; in_global = 0 })
  | m ∷ ms ↦
      let size = length mq.message_queue in
      let (overload, threshold) = overload_loop size size mq.overload mq.overload_threshold in
      (front m, record mq { overload = overload; overload_threshold = threshold })
]

unfoldable pub pop : ℕ → World → Popped × World
unfolding pop_queue
pop q w = let (m, mq) = pop_queue (w.queue q) in (m, record w { queue = put q mq w.queue })

unfoldable pub push : ℕ → Message → World → Run World
push q msg w =
    let mq : MessageQueue = record (w.queue q) {
      message_queue = (w.queue q).message_queue ++ msg ∷ [];
    } in
    if mq.in_global == 0
    then (GlobalQueue.push w.global q >>= λ g.
        ok (record { queue = put q (record mq { in_global = mq_in_global }) w.queue; global = g }))
    else ok (record w { queue = put q mq w.queue })

-- `Release` in a program whose state `S` holds the queues; `drop` is `drop_func` with its parameter.
module _ {S : Type 0} (world : S → World) (with_world : World → S → S)
    (drop : Message → S → Run S) where
  -- The loop. An empty queue gives a pointer without a value, which is then compared and passed on.
  unfoldable pub drop_all : ℕ → ℕ → S → Run S
  drop_all zero q s = fault no_fuel
  drop_all (suc fuel) q s =
      let (popped, w) = pop q (world s) in
      elim popped [
        | front m ↦ drop m (with_world w s) >>= λ s'. drop_all fuel q s'
        | uninitialised ↦ fault uninitialised_pointer
      ]

  unfoldable pub release : ℕ → ℕ → S → Run S
  release fuel q s =
      let w = world s in
      if (w.queue q).release_flag
      then (drop_all fuel q s >>= λ s'. assert (no_queue ((world s').global.next q)) >> ok s')
      else (GlobalQueue.push w.global q >>= λ g. ok (with_world (record w { global = g }) s))

-- `MessageQueue::Length`
unfoldable pub queue_length : MessageQueue → ℕ
queue_length mq = length mq.message_queue

-- `MessageQueue::Overload`: the mark is read once
unfoldable pub take_overload : MessageQueue → ℕ × MessageQueue
take_overload mq = (mq.overload, record mq { overload = 0 })

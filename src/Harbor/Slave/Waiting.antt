-- ===== src/Harbor/Slave/Waiting.antt =====
-- Messages for a node that is not connected wait in their order, and go out in it.
use Prim.Native.Nat.{bit_and}
use native.Mathlib.Nat.{mod-lt}
use skynet_cpp.Prelude.{
  ℕ, zero, suc, ◌+◌, ◌-◌, ◌/◌, ◌^◌, ◌<◌, ◌==◌, ltb, ◌≡◌, ◌≢◌, refl, ap, ◌∙◌, ◌⊎◌, false, Option,
  none, some, List, [], ◌∷◌, ◌++◌, length, tabulate, arith,
}
use skynet_cpp.Prelude.Bits.{bit_and-mask}
use skynet_cpp.Prelude.Run.{Run, ok, ◌>>=◌}
use skynet_cpp.Harbor.Queue.{Queue, new_queue, push, pop_all}
use skynet_cpp.Harbor.Queue.Refine.{IsValid, contents, count, new_queue-IsValid, push_refines}
use skynet_cpp.Harbor.Queue.Drain.{pop_all-contents}
use skynet_cpp.Harbor.Wire.{to_bigendian}
use skynet_cpp.Harbor.Slave.{
  HarborMsg, no_message, Slave, Harbor, Call, socket_send_buffer, put_slave, send_remote, send_all,
  dispatch_queue, queue_of, remote_message, remote_send_handle, status_handshake, status_down,
}

-- the messages that wait for a slave
abbrev pub waiting : Slave → List HarborMsg
waiting s = elim s.queue [ none ↦ [] | some q ↦ contents no_message q ]

abbrev pub IsSound : Slave → Type 0
IsSound s = elim s.queue [ none ↦ Unit {0} | some q ↦ IsValid q ]

pub queue_of-waiting :
    (s : Slave) → IsSound s → IsValid (queue_of s) × (contents no_message (queue_of s) ≡ waiting s)
unfolding new_queue
queue_of-waiting s v = conclude s.queue refl v
  where
    conclude :
        (o : Option (Queue HarborMsg))
        → s.queue ≡ o
        → IsSound s
        → IsValid (queue_of s) × (contents no_message (queue_of s) ≡ waiting s)
    conclude none e v = rw e (new_queue-IsValid no_message, refl)
    conclude (some q) e v = rw e (rw e at v, refl)

-- What queueing a message has done: 1 is returned and no call made; the message waits behind the others
-- in a valid queue, and no other slave and no other field has changed.
pub record Queued (h : Harbor) (id : ℕ) (m : HarborMsg) (out : Run (ℕ × List Call × Harbor))
    : Type 0 where
  pub after : Slave
  pub result : out ≡ ok (1, [], put_slave id after h)
  pub sound : IsSound after
  pub order : waiting after ≡ waiting (h.s id) ++ m ∷ []
  pub same_fd : after.fd ≡ (h.s id).fd
  pub same_status : after.status ≡ (h.s id).status

-- A message for another node whose connection is not up (no socket, or in the handshake) but not
-- down, with a valid queue or none, is queued: 1 is returned without a call, the message waits
-- behind the others in a valid queue, and no other slave changes.
pub remote_send_handle-Queued :
    (h : Harbor) (source destination type session : ℕ) (msg : List ℕ) (sz : ℕ)
    → destination / 2 ^ 24 ≢ h.id
    → ((h.s (destination / 2 ^ 24)).fd ≡ 0)
      ⊎ ((h.s (destination / 2 ^ 24)).status ≡ status_handshake)
    → (h.s (destination / 2 ^ 24)).status ≢ status_down
    → IsSound (h.s (destination / 2 ^ 24))
    → Queued h
        (destination / 2 ^ 24)
        (remote_message source destination type session msg sz)
        (remote_send_handle h source destination type session msg sz)
unfolding remote_send_handle
remote_send_handle-Queued h source destination type session msg sz other down_or_new not_down v =
    let s = h.s (destination / 2 ^ 24) in
    let m = remote_message source destination type session msg sz in
    let (valid, same) = queue_of-waiting s v in
    let (valid', order) = push_refines no_message (queue_of s) m valid in
    record {
      after = record s { queue = some (push no_message (queue_of s) m) };
      result = ground arith;
      sound = valid';
      order = order ∙ ap (λ xs. xs ++ m ∷ []) same;
      same_fd = refl;
      same_status = refl;
    }

length-tabulate : (n : ℕ) (f : ℕ → HarborMsg) → length (tabulate n f) ≡ n
length-tabulate zero f = refl
length-tabulate (suc n) f = ap suc (length-tabulate n (λ k. f (suc k)))

dispatch_queue-popped :
    (h : Harbor) (id : ℕ) (q r : Queue HarborMsg) (ms : List HarborMsg)
    → (h.s id).fd ≢ 0
    → (h.s id).queue ≡ some q
    → pop_all no_message q.size q ≡ some (ms, r)
    → dispatch_queue h id ≡ (
        send_all (h.s id).fd ms >>= λ calls.
        ok (calls, put_slave id (record (h.s id) { queue = none }) h))
unfolding dispatch_queue
dispatch_queue-popped h id q r ms up e run =
    let on : ((h.s id).fd == 0) ≡ false = ground arith in rw (on, e, run)

-- When the slave has a socket, dispatch_queue sends the messages of its valid queue, all of them and
-- in their order, and drops the queue.
pub dispatch_queue-contents :
    (h : Harbor) (id : ℕ) (q : Queue HarborMsg)
    → (h.s id).fd ≢ 0
    → (h.s id).queue ≡ some q
    → IsValid q
    → dispatch_queue h id ≡ (
        send_all (h.s id).fd (contents no_message q) >>= λ calls.
        ok (calls, put_slave id (record (h.s id) { queue = none }) h))
dispatch_queue-contents h id q up e v =
    let few : length (contents no_message q) < q.size =
      rw (length-tabulate (count q) _) (mod-lt (q.tail + q.size - q.head) v.nonempty) in
    let (r, run, valid, gone) = pop_all-contents no_message q.size q v few in
    dispatch_queue-popped h id q r (contents no_message q) up e run

-- For a message whose length with its header fits in 24 bits, send_remote hands over an empty text
-- together with the full size.
pub send_remote-empty :
    (fd : ℕ) (m : HarborMsg)
    → m.size + 12 < 2 ^ 24
    → send_remote fd m ≡ ok (socket_send_buffer fd [] (m.size + 16) ∷ [])
unfolding send_remote to_bigendian
send_remote-empty fd m small =
    let first : bit_and ((m.size + 12) / 2 ^ 24) 0xff ≡ 0 =
      bit_and-mask 8 ((m.size + 12) / 2 ^ 24) ∙ omega arith in
    let fits : ltb (2 ^ 32 - 1) (m.size + 12) ≡ false = ground arith in
    let sum : m.size + 12 + 4 ≡ m.size + 16 = omega arith in rw (fits, first, sum)

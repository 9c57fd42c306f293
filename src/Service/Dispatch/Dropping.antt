-- ===== src/Service/Dispatch/Dropping.antt =====
-- `Release` of the queue of a service that is gone, with `DropMessage`, in skynet-src/service.cpp.
use Prim.Native.Nat.{bit_and}
use mathlib.Core.Path.{subst}
use skynet_cpp.Prelude.{
  ℕ, ◌==◌, ◌≡◌, refl, sym, ap, ◌∙◌, inl, inr, Bool, true, false, not, if◌then◌else◌, Option, none,
  some, List, [], ◌∷◌, ◌++◌, Bool-cases, arith,
}
use skynet_cpp.Prelude.Run.{Run, ok, assert, ◌>>=◌, ◌>>◌}
use skynet_cpp.Prelude.Run.Ensures.{Ensures, Ensures-ok, Ensures-fault, Ensures-if, Ensures-bind}
use skynet_cpp.Handle.Storage.{lock}
use skynet_cpp.Handle.Slots.{grab}
use skynet_cpp.Handle.Retire.{release}
use skynet_cpp.Mq.GlobalQueue
use skynet_cpp.Mq.MessageQueue.{Message, MessageQueue, World, put, mark_release}
use skynet_cpp.Mq.MessageQueue
use skynet_cpp.Mq.MessageQueue.Releasing.{release-stuck}
use skynet_cpp.Service.Contexts.{
  System, live, touch, delete_context, finish, release_context, grab_context, context_push,
}
use skynet_cpp.Service.Contexts.Deleted.{Any, anything}
use skynet_cpp.Service.Send.{
  minus_one, message_type_mask, tag_allocsession, is_set, sender, message_is_remote, filter_args,
  deliver, service_send, drop_message,
}
use skynet_cpp.Service.Dispatch.{release_queue}

abbrev pub world_of : System → World
world_of x = x.world

abbrev pub with_world : World → System → System
with_world world x = record x { world = world }

module _ (q : ℕ) (m : Message) where
  -- The message is the first of the queue.
  abbrev First : World → Type 0
  First w = (ms : List Message) × ((w.queue q).message_queue ≡ m ∷ ms)

  push-First :
      (p : ℕ) (msg : Message) (w : World) → First w → Ensures Any First (MessageQueue.push p msg w)
  unfolding MessageQueue.push
  push-First p msg w (ms, e) =
      Ensures-if ((w.queue p).in_global == 0)
        (λ idle.
          Ensures-bind (anything (GlobalQueue.push w.global p)) (λ g h. Ensures-ok (grown 1)))
        (λ flagged. Ensures-ok (grown (w.queue p).in_global))
    where
      grown :
          (flag : ℕ)
          → (ns : List Message) × ((put p
                (record (w.queue p) {
                  message_queue = (w.queue p).message_queue ++ msg ∷ [];
                  in_global = flag;
                })
                w.queue
                q).message_queue
              ≡ m ∷ ns)
      grown flag = elim (Bool-cases (q == p)) [
        | inl on ↦
            let same : q ≡ p = ground arith in
            let here : (w.queue p).message_queue ≡ m ∷ ms =
              ap (λ i. (w.queue i).message_queue) (sym same) ∙ e in
            (ms ++ msg ∷ [], rw on (ap (λ l. l ++ msg ∷ []) here))
        | inr off ↦ (ms, rw off e)
      ]

  mark_release-First : (p : ℕ) (w : World) → First w → Ensures Any First (mark_release p w)
  unfolding mark_release
  mark_release-First p w (ms, e) =
      Ensures-bind (anything (assert (not (w.queue p).release_flag))) (λ a h.
        Ensures-if ((w.queue p).in_global == 1) (λ flagged. Ensures-ok marked)
          (λ idle.
            Ensures-bind (anything (GlobalQueue.push w.global p)) (λ g h. Ensures-ok marked)))
    where
      marked :
          (ns : List Message) × ((put p
              (record (w.queue p) { release_flag = true })
              w.queue
              q).message_queue
            ≡ m ∷ ns)
      marked = elim (Bool-cases (q == p)) [
        | inl on ↦
            let same : q ≡ p = ground arith in
            (ms, rw on (ap (λ i. (w.queue i).message_queue) (sym same) ∙ e))
        | inr off ↦ (ms, rw off e)
      ]

  delete_context-First :
      (c : ℕ) (w : System) → First w.world → Ensures Any (λ v. First v.world) (delete_context c w)
  delete_context-First c w h = Ensures-bind (anything (live c w)) (λ a l. Ensures-ok h)

  finish-First :
      (c : ℕ) (w : System) → First w.world → Ensures Any (λ v. First v.world) (finish c w)
  unfolding finish
  finish-First c w h = Ensures-bind (mark_release-First (w.context c).queue w.world h) (λ g k.
      Ensures-bind (delete_context-First c (record w { world = g }) k) (λ v l. Ensures-ok l))

  release_context-First :
      (c : ℕ) (w : System)
      → First w.world
      → Ensures Any (λ r. First r.1.world) (release_context c w)
  unfolding release_context
  release_context-First c w h = Ensures-bind (anything (live c w)) (λ a l.
      Ensures-if (release w.memory c).1
        (λ last.
          Ensures-bind (finish-First c (record w { memory = (release w.memory c).0 }) h)
            (λ v k. Ensures-ok k))
        (λ more. Ensures-ok h))

  grab_context-First :
      (handle : ℕ) (w : System)
      → First w.world
      → Ensures Any (λ r. First r.1.world) (grab_context handle w)
  unfolding grab_context
  grab_context-First handle w h =
      Ensures-bind (anything (lock w.storage >> touch handle w))
        (λ a l. Ensures-bind (anything (grab w.storage w.memory handle)) (λ r k. Ensures-ok h))

  context_push-First :
      (handle : ℕ) (msg : Message) (w : System)
      → First w.world
      → Ensures Any (λ r. First r.1.world) (context_push handle msg w)
  unfolding context_push
  context_push-First handle msg w h =
      Ensures-bind (grab_context-First handle w h) (λ r k. pushed r.0 r.1 k)
    where
      pushed :
          (found : Option ℕ) (w1 : System)
          → First w1.world
          → Ensures Any
              (λ (r : Bool × System). First r.1.world)
              (elim found [
                | none ↦ ok (false, w1)
                | some c ↦ MessageQueue.push (w1.context c).queue msg w1.world >>= λ q.
                    release_context c (record w1 { world = q }) >>= λ (kept, w2).
                    delete_context c w2 >>= λ w3. ok (true, w3)
              ])
      pushed none w1 k = Ensures-ok k
      pushed (some c) w1 k = Ensures-bind (push-First (w1.context c).queue msg w1.world k) (λ g l.
          Ensures-bind (release_context-First c (record w1 { world = g }) l)
            (λ s n. Ensures-bind (delete_context-First c s.1 n) (λ w3 o. Ensures-ok o)))

  -- a state with one of two results
  abbrev either : Bool → ℕ → ℕ → System → ℕ × System
  either b x y w = if b then (x, w) else (y, w)

  either-First : (b : Bool) (x y : ℕ) (w : System) → First w.world → First (either b x y w).1.world
  either-First true x y w h = h
  either-First false x y w h = h

  deliver-First :
      (source destination session : ℕ) (bytes : Option (List ℕ)) (sz : ℕ) (w : System)
      → First w.world
      → Ensures Any (λ r. First r.1.world) (deliver source destination session bytes sz w)
  unfolding deliver
  deliver-First source destination session bytes sz w h =
      Ensures-bind (anything (message_is_remote destination w)) (λ b l.
        Ensures-if b (λ far. Ensures-fault tt)
          (λ near.
            Ensures-bind (context_push-First destination _ w h)
              (λ r k. Ensures-ok (either-First r.0 minus_one session r.1 k))))

  -- without a sender
  filter_args-First :
      (type session : ℕ) (bytes : Option (List ℕ)) (sz : ℕ) (w : System)
      → First w.world
      → Ensures Any (λ r. First r.3.world) (filter_args none type session bytes sz w)
  unfolding filter_args
  filter_args-First type session bytes sz w h =
      Ensures-if (bit_and type tag_allocsession == 0) (λ given. Ensures-ok h)
        (λ fresh. Ensures-bind (anything (assert (session == 0))) (λ a l. Ensures-fault tt))

  abbrev sending : ℕ → System → Run ℕ
  sending source w =
      if source == 0 then (sender none w >>= λ c. ok (w.memory c).handle) else ok source

  service_send-First :
      (source destination type session : ℕ) (bytes : Option (List ℕ)) (sz : ℕ) (w : System)
      → First w.world
      → Ensures Any
          (λ r. First r.1.world)
          (service_send none source destination type session bytes sz w)
  unfolding service_send
  service_send-First source destination type session bytes sz w h =
      Ensures-if (bit_and sz message_type_mask == sz)
        (λ fits. Ensures-bind (filter_args-First type session bytes sz w h) (λ r k.
          Ensures-bind (anything (sending source r.3)) (λ from l.
            Ensures-if (destination == 0)
              (λ nowhere. Ensures-ok (either-First (is_set r.1) minus_one r.0 r.3 k))
              (λ there. deliver-First from destination r.0 r.1 r.2 r.3 k))))
        (λ large. Ensures-ok h)

  drop_message-First :
      (handle : ℕ) (w : System)
      → First w.world
      → Ensures Any (λ v. First v.world) (drop_message handle m w)
  unfolding drop_message
  drop_message-First handle w h = Ensures-bind (anything (assert (not (handle == 0)))) (λ a l.
      Ensures-bind (service_send-First handle m.source 7 0 none 0 w h) (λ r k. Ensures-ok k))

-- The release of a queue that is marked for it and holds messages, with DropMessage for the handle
-- of the service that is gone, calls DropMessage with the first message in every round, never with
-- another one, and never returns.
pub release_queue-stuck :
    (handle fuel q : ℕ) (m : Message) (ms : List Message) (w : System)
    → (w.world.queue q).release_flag ≡ true
    → (w.world.queue q).message_queue ≡ m ∷ ms
    → (release_queue handle fuel q w
        ≡ MessageQueue.release world_of with_world (λ other. drop_message handle m) fuel q w)
      × Ensures Any (λ v. ⊥) (release_queue handle fuel q w)
release_queue-stuck handle fuel q m ms w marked e =
    release-stuck world_of with_world (drop_message handle) q m (λ world x. refl)
      (λ s s' first run.
        let h : Ensures Any (λ v. First q m v.world) (ok s') =
          subst (Ensures Any (λ v. First q m v.world)) run
            (drop_message-First q m handle s first) in
        h.holds)
      fuel w marked (ms, e)

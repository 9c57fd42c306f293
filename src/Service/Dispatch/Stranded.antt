-- ===== src/Service/Dispatch/Stranded.antt =====
-- A worker that takes a queue with messages, in skynet-src/service.cpp, handles none of them.
use skynet_cpp.Prelude.{ℕ, suc, ◌<◌, ltb, ◌≡◌, refl, Bool, true, Option, some, List, ◌∷◌, arith}
use skynet_cpp.Prelude.Run.{ok, ◌>>=◌}
use skynet_cpp.Mq.MessageQueue.{Message, MessageQueue, World, front, put, pop_queue}
use skynet_cpp.Mq.MessageQueue
use skynet_cpp.Mq.MessageQueue.Releasing.{pop-front}
use skynet_cpp.Service.Contexts.{System, grab_context, release_context}
use skynet_cpp.Service.Dispatch.{next_queue, dispatch_loop, dispatch_queue}

module _ (stray : Bool) where
  dispatch_loop-returns :
      (fuel c q n : ℕ) (weight : Option ℕ) (w : System) (m : Message) (world : World)
      → 0 < n
      → MessageQueue.pop q w.world ≡ (front m, world)
      → dispatch_loop stray (suc fuel) c q weight 0 n w ≡ ok (true, record w { world = world })
  unfolding dispatch_loop
  dispatch_loop-returns fuel c q n weight w m world some_round e =
      let inside : ltb 0 n ≡ true = ground arith in rw (dispatch_loop, inside, e) refl

  dispatch_queue-returned :
      (fuel q c : ℕ) (weight : Option ℕ) (w w1 w2 : System)
      → grab_context (w.world.queue q).handle w ≡ ok (some c, w1)
      → dispatch_loop stray 2 c q weight 0 1 w1 ≡ ok (true, w2)
      → dispatch_queue stray fuel q weight w
        ≡ (release_context c w2 >>= λ (kept, w3). next_queue w3)
  unfolding dispatch_queue
  dispatch_queue-returned fuel q c weight w w1 w2 e f = rw (dispatch_queue, e, f) refl

  -- When a worker takes a queue with messages whose service exists, it releases the context and goes
  -- on with the next queue: the queue keeps all its messages and its flag, it was not linked into
  -- the global queue again, and no context has changed otherwise.
  pub dispatch_queue-Stranded :
      (fuel q c : ℕ) (weight : Option ℕ) (w w1 : System) (m : Message) (ms : List Message)
      → grab_context (w.world.queue q).handle w ≡ ok (some c, w1)
      → (w1.world.queue q).message_queue ≡ m ∷ ms
      → (w2 : System) × (dispatch_queue stray fuel q weight w
          ≡ (release_context c w2 >>= λ (kept, w3). next_queue w3))
        × ((w2.world.queue q).message_queue ≡ m ∷ ms)
        × ((w2.world.queue q).in_global ≡ (w1.world.queue q).in_global)
        × (w2.world.global ≡ w1.world.global)
        × (w2.context ≡ w1.context)
  dispatch_queue-Stranded fuel q c weight w w1 m ms found e =
      let (world, popped, kept, flag, global) = pop-front q w1.world m ms e in
      let w2 : System = record w1 { world = world } in
      (
        w2,
        dispatch_queue-returned fuel q c weight w w1 w2 found
            (dispatch_loop-returns 1 c q 1 weight w1 m world (omega arith) popped),
        kept,
        flag,
        global,
        refl,
      )

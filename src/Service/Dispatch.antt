-- ===== src/Service/Dispatch.antt =====
-- The worker's side in skynet-src/service.cpp: handing a message to its service, and the loop over the
-- messages of a queue. `stray` says whether the pointer without a value that `Pop` returns for an empty
-- queue (skynet-src/mq.cpp) is other than null. `callback` is the code of the services: the context, the
-- type, the session, the source, the data and the size, with a result that says if the data is kept.
pub mod Stranded
pub mod Dropping
use Prim.Native.Nat.{bit_and}
use skynet_cpp.Prelude.{
  ℕ, zero, suc, ◌+◌, ◌-◌, ◌*◌, ◌/◌, ◌%◌, ◌^◌, ◌==◌, ltb, if◌then◌else◌, Bool, true, false, not,
  Option, none, some, List, [], ◌∷◌,
}
use skynet_cpp.Prelude.Run.{Run, ok, fault, no_fuel, uninitialised_pointer, assert, ◌>>=◌, ◌>>◌}
use skynet_cpp.Mq.GlobalQueue
use skynet_cpp.Mq.MessageQueue.{
  Message, World, Popped, front, uninitialised, put, queue_length, take_overload,
}
use skynet_cpp.Mq.MessageQueue
use skynet_cpp.Service.Contexts.{System, put_context, live, grab_context, release_context}
use skynet_cpp.Service.Send.{message_type_shift, message_type_mask, drop_message}

-- `GlobalQueue::Pop`
unfoldable pub next_queue : System → Run (Option ℕ × System)
next_queue w = GlobalQueue.pop w.world.global >>= λ (q, g).
    ok (q, record w { world = record w.world { global = g } })

-- `Release` with `DropMessage`
abbrev pub release_queue : ℕ → ℕ → ℕ → System → Run System
release_queue handle fuel q w =
    MessageQueue.release (λ x. x.world) (λ world x. record x { world = world })
      (drop_message handle) fuel q w

module _ (callback : ℕ → ℕ → ℕ → ℕ → Option (List ℕ) → ℕ → System → Run (ℕ × System)) where
  -- `DispatchMessage`, without the log file and the times: the message afterwards, and the new state
  unfoldable pub dispatch_message : ℕ → Message → System → Run (Message × System)
  dispatch_message c msg w =
      let type = msg.sz / 2 ^ message_type_shift in
      let sz = bit_and msg.sz message_type_mask in
      let x = w.context c in
      let counted = put_context c (record x { message_count = (x.message_count + 1) % 2 ^ 32 }) w in
      live c w
      >> assert x.init
      >> (callback c type msg.session msg.source msg.data_bytes sz counted >>= λ (reserve_msg, w').
          ok (if reserve_msg == 0 then (record msg { data_bytes = none }, w') else (msg, w')))

-- `DispatchMessage` of a message that was never written
abbrev pub dispatch_nothing : ℕ → System → Run System
dispatch_nothing c w = live c w >> assert (w.context c).init >> fault uninitialised_pointer

module _ (stray : Bool) where
  -- the pointer that `Pop` returns, as a condition
  abbrev pub is_message : Popped → Bool
  is_message (front m) = true
  is_message uninitialised = stray

  -- The `for` loop, with the rounds left: whether it was left by its `return`. A `weight` below 0 is
  -- `none`.
  unfoldable pub dispatch_loop : ℕ → ℕ → ℕ → Option ℕ → ℕ → ℕ → System → Run (Bool × System)
  dispatch_loop zero c q weight i n w = fault no_fuel
  dispatch_loop (suc fuel) c q weight i n w =
      let (popped, world) = MessageQueue.pop q w.world in
      let (overload, mq) = take_overload (world.queue q) in
      let w1 : System = record w { world = record world { queue = put q mq world.queue } } in
      let rounds : ℕ = elim weight [
        | none ↦ n
        | some k ↦ if i == 0 then queue_length (world.queue q) / 2 ^ k else n
      ] in
      if not (ltb i n)
      then ok (false, w)
      else if is_message popped
      then ok (true, record w { world = world })
      else (live c w
          >> (if (w.context c).has_callback then dispatch_nothing c w1 else ok w1)
          >>= λ w2. dispatch_loop fuel c q weight (i + 1) rounds w2)

  -- the end of `MessageDispatch`
  unfoldable pub hand_over : ℕ → ℕ → System → Run (Option ℕ × System)
  hand_over c q w =
      live c w
      >> assert (q == (w.context c).queue)
      >> (next_queue w >>= λ (next, w1). elim next [
        | none ↦ release_context c w1 >>= λ (kept, w2). ok (some q, w2)
        | some p ↦ GlobalQueue.push w1.world.global q >>= λ g.
            release_context c (record w1 { world = record w1.world { global = g } })
            >>= λ (kept, w2). ok (some p, w2)
      ])

  -- `MessageDispatch` of a queue that is not null. `fuel` is for the loop of `Release`; the loop over the
  -- messages has two rounds, since the queue is empty in each but the last.
  unfoldable pub dispatch_queue : ℕ → ℕ → Option ℕ → System → Run (Option ℕ × System)
  dispatch_queue fuel q weight w =
      let handle = (w.world.queue q).handle in
      grab_context handle w >>= λ (found, w1). elim found [
        | none ↦ release_queue handle fuel q w1 >>= λ w2. next_queue w2
        | some c ↦ dispatch_loop 2 c q weight 0 1 w1 >>= λ (returned, w2).
            if returned
            then (release_context c w2 >>= λ (kept, w3). next_queue w3)
            else hand_over c q w2
      ]

  -- `MessageDispatch`
  unfoldable pub message_dispatch : ℕ → Option ℕ → Option ℕ → System → Run (Option ℕ × System)
  message_dispatch fuel none weight w = next_queue w >>= λ (next, w1). elim next [
    | none ↦ ok (none, w1)
    | some q ↦ dispatch_queue fuel q weight w1
  ]
  message_dispatch fuel (some q) weight w = dispatch_queue fuel q weight w

  -- `Context::DispatchAll`: with a message in the queue the loop has no round.
  unfoldable pub dispatch_all : ℕ → System → Run System
  dispatch_all c w =
      let (popped, world) = MessageQueue.pop (w.context c).queue w.world in
      let w' : System = record w { world = world } in
      if is_message popped then ok w' else dispatch_nothing c w'

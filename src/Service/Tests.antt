-- ===== src/Service/Tests.antt =====
-- Contexts, sessions, sending and dispatching of skynet-src/service.cpp on small inputs.
use skynet_cpp.Prelude.{
  ℕ, ◌==◌, ◌%◌, ◌<◌, ◌≡◌, ◌^◌, refl, if◌then◌else◌, Bool, true, false, Option, List, [], ◌∷◌, none,
  some, arith,
}
use skynet_cpp.Prelude.Run.{Run, ok, fault, deleted_object, ◌>>=◌}
use skynet_cpp.Prelude.Run.Ensures.{Ensures, Ensures-ok}
use skynet_cpp.Handle.Slots.{find, grab}
use skynet_cpp.Handle.Retire.{release}
use skynet_cpp.Mq.MessageQueue.{Message, MessageQueue}
use skynet_cpp.Mq.MessageQueue
use skynet_cpp.Service.Contexts.{System, grab_context, release_context, context_push, new_session}
use skynet_cpp.Service.Contexts.Deleted.{Any, context_push-again}
use skynet_cpp.Service.Send.{minus_one, message_is_remote, service_send, drop_message}
use skynet_cpp.Service.Send.Packing.{new_session-Ensures}
use skynet_cpp.Service.Send.Results.{received, handled, service_send-received}
use skynet_cpp.Service.Dispatch.{next_queue, dispatch_message, dispatch_queue, release_queue}
use skynet_cpp.Service.Dispatch.Dropping.{world_of, with_world, release_queue-stuck}
use skynet_cpp.Service.Dispatch.Stranded.{dispatch_queue-Stranded}
use skynet_cpp.Service.Launch.{new_context}
use skynet_cpp.Service.Launch.Stops.{new_context-Stops}

abbrev ping : Message
ping = record { source = 2; session = 7; data_bytes = some (65 ∷ []); sz = 1 }

-- the context 1 with the handle 1 and the queue 1, which holds a message
abbrev running : System
running = record {
  total = 1;
  monitor_exit = 0;
  remote = none;
  harbor = 0;
  logger = none;
  storage = record {
    locked = false;
    harbor = 0;
    handle_index = 2;
    slot = none ∷ some 1 ∷ none ∷ none ∷ [];
    name_count = 0;
    name = [];
  };
  memory = λ c. record { handle = c; ref = 2 };
  context = λ c. record {
    queue = c;
    has_callback = true;
    init = true;
    endless = false;
    session_id = 0;
    message_count = 0;
    deleted = false;
  };
  world = record {
    queue = λ q. record {
      handle = q;
      message_queue = ping ∷ [];
      release_flag = false;
      in_global = 1;
      overload = 0;
      overload_threshold = 1024;
    };
    global = record { head = none; tail = none; next = λ q. none };
  };
}

new_session-Ensures_example :
    Ensures
      (λ e. e ≡ deleted_object)
      (λ (session, w'). 0 < session × session < 2 ^ 31 × ((w'.context 1).session_id ≡ session))
      (new_session 1 running)
new_session-Ensures_example = new_session-Ensures 1 running

near : message_is_remote 1 running ≡ ok false
unfolding message_is_remote
near = refl

service_send-received_example :
    (msg : Message) × (msg.source ≡ 2)
    × (msg.session ≡ 7)
    × (msg.data_bytes ≡ received 10 1 (some (65 ∷ [])))
    × (service_send (some 1) 2 1 10 7 (some (65 ∷ [])) 1 running ≡ (
        context_push 1 msg running >>= λ (pushed, w').
        ok (if pushed then (minus_one, w') else (7, w'))))
    × ((callback : ℕ → ℕ → ℕ → ℕ → Option (List ℕ) → ℕ → System → Run (ℕ × System)) (c : ℕ)
          (v : System)
        → dispatch_message callback c msg v ≡ handled callback c (10 % 2 ^ 8) msg 1 v)
service_send-received_example =
    service_send-received (some 1) 2 1 10 7 (some (65 ∷ [])) 1 running (omega arith) (omega arith)
      (omega arith) refl near

abbrev state_of : Run (Bool × System) → System
state_of (ok (b, w)) = w
state_of (fault e) = running

pushed_once : context_push 1 ping running ≡ ok (true, state_of (context_push 1 ping running))
unfolding context_push grab_context grab find MessageQueue.push release_context release
pushed_once = refl

context_push-again_example :
    context_push 1 ping (state_of (context_push 1 ping running)) ≡ fault deleted_object
context_push-again_example =
    context_push-again 1 ping ping running (state_of (context_push 1 ping running)) refl pushed_once

abbrev grabbed : System
grabbed = record running {
  memory = λ c. if c == 1 then record { handle = 1; ref = 3 } else record { handle = c; ref = 2 };
}

grabs : grab_context 1 running ≡ ok (some 1, grabbed)
unfolding grab_context grab find
grabs = refl

dispatch_queue-Stranded_example :
    (w2 : System) × (dispatch_queue true 9 1 (some 0) running
      ≡ (release_context 1 w2 >>= λ (kept, w3). next_queue w3))
    × ((w2.world.queue 1).message_queue ≡ ping ∷ [])
    × ((w2.world.queue 1).in_global ≡ 1)
    × (w2.world.global ≡ running.world.global)
    × (w2.context ≡ running.context)
dispatch_queue-Stranded_example =
    dispatch_queue-Stranded true 9 1 1 (some 0) running grabbed ping [] grabs refl

new_context-Stops_example :
    Ensures Any
      (λ r. ⊥)
      (new_context (λ c w. ok (0, w)) 9 true true (97 ∷ []) (98 ∷ []) 3 4 5 running)
new_context-Stops_example =
    new_context-Stops (λ c w. ok (0, w)) (λ c w. Ensures-ok refl) 9 (97 ∷ []) (98 ∷ []) 3 4 5
      running

-- the queues are to be released
abbrev dying : System
dying = record running {
  world = record running.world {
    queue = λ q. record (running.world.queue q) { release_flag = true };
  };
}

release_queue-stuck_example :
    (release_queue 1 5 1 dying
      ≡ MessageQueue.release world_of with_world (λ other. drop_message 1 ping) 5 1 dying)
    × Ensures Any (λ v. ⊥) (release_queue 1 5 1 dying)
release_queue-stuck_example = release_queue-stuck 1 5 1 ping [] dying refl refl

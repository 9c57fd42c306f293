-- ===== src/Service/Launch.antt =====
-- `NewContext` and the constructor of a context in skynet-src/service.cpp. `ctx` and the queues are fresh
-- pointers. Whether the module is found and gives an instance are parameters, and `module_init` is
-- `ModuleInit`, which runs the code of the module.
pub mod Stops
use skynet_cpp.Prelude.{
  ℕ, ◌+◌, ◌*◌, ◌%◌, ◌^◌, ◌==◌, if◌then◌else◌, ◌≡◌, refl, ◌⊎◌, inl, inr, Bool, true, false, not,
  Option, none, some, List, [], ◌∷◌, ◌++◌,
}
use skynet_cpp.Prelude.Run.{Run, Fault, ok, fault, deleted_object, assert, Run-cases, ◌>>=◌, ◌>>◌}
use skynet_cpp.Handle.Storage.{Storage, Context, Memory, update}
use skynet_cpp.Handle.Slots.{register, attach}
use skynet_cpp.Mq.GlobalQueue
use skynet_cpp.Mq.MessageQueue.{World, put, new_message_queue}
use skynet_cpp.Mq.MessageQueue
use skynet_cpp.Service.Contexts.{
  System, ContextFields, put_context, live, delete_context, release_context, retire_handle,
  skynet_error,
}
use skynet_cpp.Service.Dispatch.{release_queue}

-- a queue for a handle, and the context that keeps it
abbrev pub give_queue : ℕ → ℕ → ℕ → System → System
give_queue c q handle w =
    put_context c (record (w.context c) { queue = q })
      (record w {
        world = record w.world { queue = put q (new_message_queue handle) w.world.queue };
        total = (w.total + 1) % 2 ^ 32;
      })

-- the constructor
unfoldable pub construct : ℕ → ℕ → System → Run System
construct c q w = attach w.storage w.memory c >>= λ (handle, s, m).
    let fields : ContextFields = record {
      queue = q;
      has_callback = false;
      init = false;
      endless = false;
      session_id = 0;
      message_count = 0;
      deleted = false;
    } in
    ok (give_queue c q handle (put_context c fields (record w { storage = s; memory = m })))

-- the second `HandleRegister` and the second queue
unfoldable pub register_again : ℕ → ℕ → System → Run System
register_again c q w = register w.storage w.memory c >>= λ (handle, s). ok (
    give_queue c q handle (record w {
      storage = s;
      memory = update w.memory c (record (w.memory c) { handle = handle });
    }))

-- `ctx->init_ = true`
abbrev pub set_init : ℕ → System → Run System
set_init c w = live c w >> ok (put_context c (record (w.context c) { init = true }) w)

-- "LAUNCH " and "FAILED launch "
abbrev pub launch_text : List ℕ
launch_text = 76 ∷ 65 ∷ 85 ∷ 78 ∷ 67 ∷ 72 ∷ 32 ∷ []

abbrev pub failed_text : List ℕ
failed_text = 70 ∷ 65 ∷ 73 ∷ 76 ∷ 69 ∷ 68 ∷ 32 ∷ 108 ∷ 97 ∷ 117 ∷ 110 ∷ 99 ∷ 104 ∷ 32 ∷ []

-- the branch of a successful `ModuleInit`, after `Release` said whether the context was kept
unfoldable pub after_release : ℕ → ℕ → List ℕ → Bool → System → Run (Option ℕ × System)
after_release c q text kept w1 = (if kept then delete_context c w1 else set_init c w1) >>= λ w2.
    GlobalQueue.push w2.world.global q >>= λ g.
    let w3 : System = record w2 { world = record w2.world { global = g } } in
    (if kept
      then (live c w3 >> skynet_error (w3.memory c).handle (launch_text ++ text) w3)
      else ok w3)
    >>= λ w4. ok (some c, w4)

unfoldable pub launched : ℕ → ℕ → List ℕ → System → Run (Option ℕ × System)
launched c q text w = release_context c w >>= λ (kept, w1). after_release c q text kept w1

-- the branch of a failed one
unfoldable pub failed : ℕ → ℕ → ℕ → List ℕ → System → Run (Option ℕ × System)
failed fuel c q name w =
    live c w
    >> (skynet_error (w.memory c).handle (failed_text ++ name) w >>= λ w1.
        let handle = (w1.memory c).handle in
        live c w1
        >> (release_context c w1 >>= λ (kept, w2). retire_handle handle w2 >>= λ (done, w3).
            release_queue handle fuel q w3 >>= λ w4. ok (none, w4)))

pub data Launch : Type 0 where
  thrown : Launch
  returned : Option ℕ → System → Launch

-- `NewContext`
unfoldable pub new_context :
    (ℕ → System → Run (ℕ × System))
    → ℕ
    → Bool
    → Bool
    → List ℕ
    → List ℕ
    → ℕ
    → ℕ
    → ℕ
    → System
    → Run Launch
new_context module_init fuel found created name param c q1 q2 w =
    let start : Run Launch = construct c q1 w >>= λ w1. register_again c q2 w1 >>= λ w2.
    module_init c w2 >>= λ (result, w3).
    (if result == 0 then launched c q2 (name ++ param) w3 else failed fuel c q2 name w3)
    >>= λ (ctx, w4). ok (returned ctx w4) in
    if not found then ok thrown else if not created then ok thrown else start

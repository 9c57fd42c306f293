-- ===== src/Service/Contexts.antt =====
-- The state that skynet-src/service.cpp works on, and the life of a context. A `Context *` is a number.
-- Its fields `handle_` and `ref_` are in the memory of the handle table, the others in `ContextFields`; a
-- context that was deleted stays there with a flag, and its use is a fault. An `int` that is negative is
-- its pattern from 2 ^ 31 on.
pub mod Deleted
use Prim.Native.Nat.{bit_and}
use skynet_cpp.Prelude.{
  ℕ, ◌+◌, ◌-◌, ◌*◌, ◌%◌, ◌^◌, ◌==◌, ltb, leb, if◌then◌else◌, ◌&&◌, ◌||◌, Bool, true, false, not,
  Option, none, some, List, [], ◌∷◌, get_or,
}
use skynet_cpp.Prelude.Run.{Run, ok, fault, null_pointer, deleted_object, assert, ◌>>=◌, ◌>>◌}
use skynet_cpp.Handle.Storage.{Storage, Context, Memory, lock}
use skynet_cpp.Handle.Slots.{hash_of, find, grab}
use skynet_cpp.Handle.Names.{find_name}
use skynet_cpp.Handle.Retire.{release, retire}
use skynet_cpp.Mq.MessageQueue.{Message, MessageQueue, World, mark_release}
use skynet_cpp.Mq.MessageQueue

pub record ContextFields : Type 0 where
  pub queue : ℕ
  pub has_callback : Bool
  pub init : Bool
  pub endless : Bool
  pub session_id : ℕ
  pub message_count : ℕ
  pub deleted : Bool

-- `total` and `monitor_exit` are of `G_NODE`, `remote` and `harbor` the statics of harbor.cpp, and
-- `logger` the static of `SkynetError`, once it has a value.
pub record System : Type 0 where
  pub total : ℕ
  pub monitor_exit : ℕ
  pub remote : Option ℕ
  pub harbor : ℕ
  pub logger : Option ℕ
  pub storage : Storage
  pub memory : Memory
  pub context : ℕ → ContextFields
  pub world : World

abbrev pub put_context : ℕ → ContextFields → System → System
put_context c x w = record w { context = λ d. if d == c then x else w.context d }

-- an access through a `Context *`
abbrev pub live : ℕ → System → Run (Unit {0})
live c w = if (w.context c).deleted then fault deleted_object else ok tt

-- `delete ctx`
abbrev pub delete_context : ℕ → System → Run System
delete_context c w = live c w >> ok (put_context c (record (w.context c) { deleted = true }) w)

-- the end of `Context::Release` when the last reference is gone
unfoldable pub finish : ℕ → System → Run System
finish c w = mark_release (w.context c).queue w.world >>= λ q.
    delete_context c (record w { world = q }) >>= λ w'.
    ok (record w' { total = (w'.total + 2 ^ 32 - 1) % 2 ^ 32 })

-- `Context::Release`
unfoldable pub release_context : ℕ → System → Run (Bool × System)
release_context c w =
    let (m, last) = release w.memory c in
    live c w
    >> (if last
        then (finish c (record w { memory = m }) >>= λ w'. ok (false, w'))
        else ok (true, record w { memory = m }))

-- `Context::Grab` and `Context::Reserve`
unfoldable pub reserve : ℕ → System → Run System
reserve c w =
    live c w
    >> ok (record w {
      memory = λ d.
          if d == c
          then record (w.memory c) { ref = ((w.memory c).ref + 1) % 2 ^ 32 }
          else w.memory d;
      total = (w.total + 2 ^ 32 - 1) % 2 ^ 32;
    })

-- what `HandleGrab` and `HandleRetire` read: `ctx->GetHandle()` of the context in the slot
abbrev pub touch : ℕ → System → Run (Unit {0})
touch handle w = elim (get_or w.storage.slot (hash_of w.storage.slot handle) none) [
  | none ↦ ok tt
  | some c ↦ live c w
]

-- `HandleGrab`
unfoldable pub grab_context : ℕ → System → Run (Option ℕ × System)
grab_context handle w =
    lock w.storage
    >> touch handle w
    >> (grab w.storage w.memory handle >>= λ (found, m). ok (found, record w { memory = m }))

-- `HandleRetire`
unfoldable pub retire_handle : ℕ → System → Run (ℕ × System)
retire_handle handle w =
    lock w.storage
    >> touch handle w
    >> (retire w.storage w.memory handle >>= λ (done, s, m, deleted).
        let w' : System = record w { storage = s; memory = m } in
        elim (find w.storage w.memory handle) [
          | none ↦ ok (done, w')
          | some c ↦ if deleted then (finish c w' >>= λ w''. ok (done, w'')) else ok (done, w')
        ])

-- `ContextPush`: the context is deleted after each push, whatever `Release` says.
unfoldable pub context_push : ℕ → Message → System → Run (Bool × System)
context_push handle msg w = grab_context handle w >>= λ (found, w1). elim found [
  | none ↦ ok (false, w1)
  | some c ↦ MessageQueue.push (w1.context c).queue msg w1.world >>= λ q.
      release_context c (record w1 { world = q }) >>= λ (kept, w2).
      delete_context c w2 >>= λ w3. ok (true, w3)
]

-- `Context::Newsession`: `int` wraps.
unfoldable pub new_session : ℕ → System → Run (ℕ × System)
new_session c w =
    let x = w.context c in
    let session = (x.session_id + 1) % 2 ^ 32 in
    live c w
    >> (if session == 0 || leb (2 ^ 31) session
        then ok (1, put_context c (record x { session_id = 1 }) w)
        else ok (session, put_context c (record x { session_id = session }) w))

-- `Endless`
unfoldable pub mark_endless : ℕ → System → Run System
mark_endless handle w = grab_context handle w >>= λ (found, w1). elim found [
  | none ↦ ok w1
  | some c ↦
      release_context c (put_context c (record (w1.context c) { endless = true }) w1)
      >>= λ (kept, w2). ok w2
]

-- "logger"
abbrev pub logger_name : List ℕ
logger_name = 108 ∷ 111 ∷ 103 ∷ 103 ∷ 101 ∷ 114 ∷ []

-- `SkynetError`: the size is the one of a pointer, and the type is kPtypeText, 0.
unfoldable pub skynet_error : ℕ → List ℕ → System → Run System
skynet_error handle text w =
    let looked : Run ℕ = elim w.logger [
      | none ↦ find_name w.storage logger_name
      | some known ↦ ok known
    ] in
    if handle == 2 ^ 32 - 1
    then ok w
    else (looked >>= λ logger.
        let w' : System = record w { logger = some logger } in
        let pushed =
          context_push logger
            (record { source = handle; session = 0; data_bytes = some text; sz = 8 }) w' in
        if logger == 0 then ok w' else (pushed >>= λ (done, w''). ok w''))

-- `HarborStart`, `HarborInit` and `HarborExit`
unfoldable pub harbor_start : ℕ → System → Run System
harbor_start c w = reserve c w >>= λ w'. ok (record w' { remote = some c })

abbrev pub harbor_init : ℕ → System → System
harbor_init harbor w = record w { harbor = harbor * 2 ^ 24 % 2 ^ 32 }

unfoldable pub harbor_exit : System → Run System
harbor_exit w = elim w.remote [
  | none ↦ ok w
  | some c ↦ release_context c (record w { remote = none }) >>= λ (kept, w'). ok w'
]

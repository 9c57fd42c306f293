-- ===== src/Commands/Names.antt =====
-- A name that a service registers by the commands of skynet-src/command.cpp, and where it is found.
use skynet_cpp.Prelude.{
  ℕ, suc, ◌*◌, ◌≤◌, ◌<◌, ◌==◌, ◌≡◌, ◌≢◌, refl, ap, ◌∙◌, ◌⊎◌, false, Option, List, ◌∷◌, length,
  arith,
}
use skynet_cpp.Prelude.Run.{ok}
use skynet_cpp.Handle.Storage.{Storage, max_slot_size}
use skynet_cpp.Handle.Names.{find_name, name_handle}
use skynet_cpp.Handle.Names.Find.{Absent, find_name-Absent}
use skynet_cpp.Handle.Names.Find
use skynet_cpp.Handle.Names.Insert.{Named, name_handle_new}
use skynet_cpp.Service.Contexts.{System}
use skynet_cpp.Commands.{give_name, cmd_register, cmd_query, to_handle}

module _ (decimal : ℕ → List ℕ) (hex : List ℕ → Option ℕ) where
  cmd_register-dot :
      (refusal : List ℕ) (c : ℕ) (name text : List ℕ) (w : System) (s : Storage)
      → name_handle w.storage (w.memory c).handle (46 ∷ name) ≡ ok (text, s)
      → cmd_register decimal hex refusal c (46 ∷ name) w ≡ ok (text, record w { storage = s })
  unfolding cmd_register give_name
  cmd_register-dot refusal c name text w s e =
      let long : (suc (length name) == 0) ≡ false = ground arith in rw (cmd_register, e, long) refl

  to_handle-dot :
      (c : ℕ) (name : List ℕ) (w : System) (handle : ℕ)
      → find_name w.storage name ≡ ok handle
      → to_handle decimal hex c (46 ∷ name) w ≡ ok (handle, w)
  unfolding to_handle
  to_handle-dot c name w handle e = rw (to_handle, e) refl

  cmd_query-dot :
      (name : List ℕ) (w : System) (handle : ℕ)
      → handle ≢ 0
      → find_name w.storage (46 ∷ name) ≡ ok handle
      → cmd_query decimal hex (46 ∷ name) w ≡ ok (decimal handle, w)
  unfolding cmd_query
  cmd_query-dot name w handle ne e =
      let off : (handle == 0) ≡ false = ground arith in rw (cmd_query, e, off) refl

  longer_differs : (name : List ℕ) → name ≢ 46 ∷ name
  longer_differs name e = omega (arith, ap length e)

  -- When a service whose handle is not 0 registers a name with a dot, on a valid, unlocked table of
  -- names with room that knows it neither with nor without the dot, the name is returned, and QUERY
  -- answers with the handle; but the commands that take a handle or a name (KILL, MONITOR, SIGNAL)
  -- look it up without the dot, and get 0.
  pub cmd_register-Lost :
      (refusal : List ℕ) (c : ℕ) (name : List ℕ) (w : System)
      → Find.IsValid w.storage
      → w.storage.locked ≡ false
      → Absent w.storage (46 ∷ name)
      → Absent w.storage name
      → (w.storage.name_count < length w.storage.name) ⊎ (length w.storage.name * 2 ≤ max_slot_size)
      → (w.memory c).handle ≢ 0
      → (w' : System) × (cmd_register decimal hex refusal c (46 ∷ name) w ≡ ok (46 ∷ name, w'))
        × (cmd_query decimal hex (46 ∷ name) w' ≡ ok (decimal (w.memory c).handle, w'))
        × (to_handle decimal hex c (46 ∷ name) w' ≡ ok (0, w'))
  cmd_register-Lost refusal c name w v open_ absent plain room ne =
      let named : Named w.storage (w.memory c).handle (46 ∷ name) =
        name_handle_new w.storage (w.memory c).handle (46 ∷ name) v open_ absent room in
      let w' : System = record w { storage = named.table } in
      let unknown : find_name named.table name ≡ ok 0 =
        named.others name (longer_differs name) ∙ find_name-Absent w.storage name v open_ plain in
      (
        w',
        cmd_register-dot refusal c name (46 ∷ name) w named.table named.result,
        cmd_query-dot name w' (w.memory c).handle ne named.self,
        to_handle-dot c name w' 0 unknown,
      )

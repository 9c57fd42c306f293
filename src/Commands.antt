-- ===== src/Commands.antt =====
-- skynet-src/command.cpp: the text commands of services. `decimal` is `std::to_string`; `hex` and `integer`
-- are `std::stoul` in base 16 and `std::stoi`, with `none` for the exception that they throw. `signal` is
-- `ModuleSignal`. A `string_view` is a list; what it reads right behind its end is a NUL.
pub mod Names
mod Tests
use skynet_cpp.Prelude.{
  ℕ, zero, suc, ◌+◌, ◌-◌, ◌*◌, ◌/◌, ◌%◌, ◌^◌, ◌==◌, if◌then◌else◌, ◌&&◌, Bool, true, false, Option,
  none, some, List, [], ◌∷◌, ◌++◌, get_or, take, drop, length,
}
use skynet_cpp.Prelude.Run.{
  Run, ok, fault, null_pointer, out_of_bounds, uncaught_exception, ◌>>=◌, ◌>>◌,
}
use skynet_cpp.Handle.Names.{find_name, name_handle}
use skynet_cpp.Mq.MessageQueue.{queue_length}
use skynet_cpp.Service.Contexts.{
  System, ContextFields, put_context, live, grab_context, release_context, skynet_error,
}
use skynet_cpp.Service.Send.{handle_exit}
use skynet_cpp.Service.Launch.{Launch, thrown, returned, new_context}

-- the text that a command returns, and the new state
abbrev pub Reply : Type 0
Reply = Run (List ℕ × System)

abbrev pub same_text : List ℕ → List ℕ → Bool
same_text [] [] = true
same_text [] (y ∷ b) = false
same_text (x ∷ a) [] = false
same_text (x ∷ a) (y ∷ b) = let rest = same_text a b in if x == y then rest else false

-- `find_first_of(' ')`, with `none` for `npos`
abbrev pub find_blank : List ℕ → Option ℕ
find_blank [] = none
find_blank (x ∷ xs) =
    let rest : Option ℕ = elim (find_blank xs) [ none ↦ none | some i ↦ some (i + 1) ] in
    if x == 32 then some 0 else rest

-- `substr(0, pos - 1)`, which is the whole text for a `pos` of 0 and for `npos`
abbrev pub before_blank : List ℕ → List ℕ
before_blank text = elim (find_blank text) [
  | none ↦ text
  | some pos ↦ if pos == 0 then text else take (pos - 1) text
]

-- `substr(pos + 1)`; `npos + 1` is 0
abbrev pub behind_blank : List ℕ → List ℕ
behind_blank text = elim (find_blank text) [ none ↦ text | some pos ↦ drop (pos + 1) text ]

-- a number, or the exception
abbrev pub parsed : Option ℕ → Run ℕ
parsed none = fault uncaught_exception
parsed (some n) = ok n

-- `ID2Hex`: its second store is to an object behind the one string that it is given.
abbrev pub id_to_hex : ℕ → Run (List ℕ)
id_to_hex id = fault out_of_bounds

module _ (decimal : ℕ → List ℕ) (hex : List ℕ → Option ℕ) where
  -- `HandleNamehandle` of the context's own handle
  unfoldable pub give_name : ℕ → List ℕ → System → Reply
  give_name c name w = name_handle w.storage (w.memory c).handle name >>= λ (text, s).
      ok (text, record w { storage = s })

  -- 46 is '.'; `refusal` is the text of the error.
  unfoldable pub cmd_register : List ℕ → ℕ → List ℕ → System → Reply
  cmd_register refusal c param w =
      if length param == 0
      then ok (decimal (w.memory c).handle, w)
      else if get_or param 0 0 == 46
      then give_name c param w
      else (skynet_error (w.memory c).handle refusal w >>= λ w'. ok ([], w'))

  unfoldable pub cmd_query : List ℕ → System → Reply
  cmd_query param w =
      if get_or param 0 0 == 46
      then (find_name w.storage param >>= λ handle.
          ok (if handle == 0 then ([], w) else (decimal handle, w)))
      else ok ([], w)

  -- 58 is ':'. The name is given to the context, whatever the handle in the text.
  unfoldable pub cmd_name : List ℕ → ℕ → List ℕ → System → Reply
  cmd_name refusal c param w =
      let name = before_blank param in
      let handle = behind_blank param in
      let named : Reply =
        if get_or name 0 0 == 46
        then give_name c name w
        else (skynet_error (w.memory c).handle refusal w >>= λ w'. ok ([], w')) in
      if get_or handle 0 0 == 58
      then (parsed (hex (drop 1 handle)) >>= λ id. if id == 0 then ok ([], w) else named)
      else ok ([], w)

  -- `ToHandle`
  unfoldable pub to_handle : ℕ → List ℕ → System → Run (ℕ × System)
  to_handle c param w =
      if get_or param 0 0 == 58
      then (parsed (hex (drop 1 param)) >>= λ handle. ok (handle, w))
      else if get_or param 0 0 == 46
      then (find_name w.storage (drop 1 param) >>= λ handle. ok (handle, w))
      else (skynet_error (w.memory c).handle param w >>= λ w'. ok (0, w'))

  unfoldable pub cmd_exit : ℕ → System → Reply
  cmd_exit c w = handle_exit decimal c 0 w >>= λ w'. ok ([], w')

  unfoldable pub cmd_kill : ℕ → List ℕ → System → Reply
  cmd_kill c param w = to_handle c param w >>= λ (handle, w1).
      if handle == 0 then ok ([], w1) else (handle_exit decimal c handle w1 >>= λ w2. ok ([], w2))

  -- `launch` is `NewContext` for a name and an argument, with its fresh pointers and module.
  unfoldable pub cmd_launch : (List ℕ → List ℕ → System → Run Launch) → ℕ → List ℕ → System → Reply
  cmd_launch launch c param w = launch (before_blank param) (behind_blank param) w >>= λ outcome.
      elim outcome [
        | thrown ↦ fault uncaught_exception
        | returned inst w1 ↦ elim inst [
          | none ↦ ok ([], w1)
          | some d ↦ id_to_hex (w1.memory d).handle >>= λ text. ok (text, w1)
        ]
      ]

  unfoldable pub cmd_monitor : ℕ → List ℕ → System → Reply
  cmd_monitor c param w =
      if get_or param 0 0 == 0
      then ok (if w.monitor_exit == 0 then ([], w) else (decimal w.monitor_exit, w))
      else (to_handle c param w >>= λ (handle, w1). ok ([], record w1 { monitor_exit = handle }))

  -- "mqlen", "endless" and "message"; `times` is the text for "cpu" and "time", if the parameter is one.
  unfoldable pub cmd_stat : (List ℕ → Option (List ℕ)) → ℕ → List ℕ → System → Reply
  cmd_stat times c param w =
      let x = w.context c in
      let timed : Reply = elim (times param) [
        | none ↦ fault null_pointer
        | some text ↦ ok (text, w)
      ] in
      if same_text param (109 ∷ 113 ∷ 108 ∷ 101 ∷ 110 ∷ [])
      then ok (decimal (queue_length (w.world.queue x.queue)), w)
      else if same_text param (101 ∷ 110 ∷ 100 ∷ 108 ∷ 101 ∷ 115 ∷ 115 ∷ [])
      then ok (
          if x.endless
          then (49 ∷ [], put_context c (record x { endless = false }) w)
          else (48 ∷ [], w))
      else if same_text param (109 ∷ 101 ∷ 115 ∷ 115 ∷ 97 ∷ 103 ∷ 101 ∷ [])
      then ok (decimal x.message_count, w)
      else timed

  unfoldable pub cmd_signal :
      (List ℕ → Option ℕ) → (ℕ → ℕ → System → Run System) → ℕ → List ℕ → System → Reply
  cmd_signal integer signal c param w =
      let arg = behind_blank param in
      let number : Run ℕ = if length arg == 0 then ok 0 else parsed (integer arg) in
      to_handle c param w >>= λ (handle, w1).
      let grabbed : Reply = grab_context handle w1 >>= λ (found, w2). elim found [
        | none ↦ ok ([], w2)
        | some d ↦ number >>= λ sig.
            signal d sig w2 >>= λ w3. release_context d w3 >>= λ (kept, w4). ok ([], w4)
      ] in
      if handle == 0 then ok ([], w1) else grabbed

-- ===== src/Service/Send.antt =====
-- Sending a message to a service: `ServiceSend` and `ServiceSendname` of skynet-src/service.cpp and the
-- functions of skynet-src/harbor.cpp that they call. The `Context *` of the sender may be null. A
-- negative result is its pattern below 2 ^ 32. `hex` is `strtoul` in base 16, and `decimal` is
-- `std::to_string`.
pub mod Results
pub mod Packing
use Prim.Native.Nat.{bit_and, bit_or}
use skynet_cpp.Prelude.{
  ℕ, zero, suc, ◌+◌, ◌-◌, ◌*◌, ◌/◌, ◌%◌, ◌^◌, ◌==◌, if◌then◌else◌, ◌&&◌, ◌||◌, Bool, true, false,
  not, Option, none, some, List, [], ◌∷◌, ◌++◌, get_or, take, drop, replicate,
}
use skynet_cpp.Prelude.Run.{
  Run, ok, fault, null_pointer, uninitialised_pointer, assert, ◌>>=◌, ◌>>◌,
}
use skynet_cpp.Handle.Names.{find_name}
use skynet_cpp.Mq.MessageQueue.{Message}
use skynet_cpp.Mq.MessageQueue
use skynet_cpp.Service.Contexts.{
  System, put_context, live, context_push, new_session, skynet_error, retire_handle,
}

abbrev pub message_type_shift : ℕ
message_type_shift = 56

abbrev pub message_type_mask : ℕ
message_type_mask = 2 ^ 56 - 1

abbrev pub tag_dontcopy : ℕ
tag_dontcopy = 0x10000

abbrev pub tag_allocsession : ℕ
tag_allocsession = 0x20000

-- the results -1 and -2
abbrev pub minus_one : ℕ
minus_one = 2 ^ 32 - 1

abbrev pub minus_two : ℕ
minus_two = 2 ^ 32 - 2

-- an access through the sender
abbrev pub sender : Option ℕ → System → Run ℕ
sender none w = fault null_pointer
sender (some c) w = live c w >> ok c

-- `HarborMessageIsRemote`
unfoldable pub message_is_remote : ℕ → System → Run Bool
message_is_remote handle w =
    let h = bit_and handle 0xff000000 in
    assert (not (w.harbor == 2 ^ 32 - 1)) >> ok (not (h == w.harbor) && not (h == 0))

-- the size and the type in one word
abbrev pub pack : ℕ → ℕ → ℕ
pack sz type = bit_or sz (type * 2 ^ message_type_shift % 2 ^ 64)

-- the copy that a receiver gets, with a NUL behind it
abbrev pub copy_data : Bool → ℕ → Option (List ℕ) → Option (List ℕ)
copy_data true sz (some bytes) = some (take sz bytes ++ 0 ∷ [])
copy_data true sz none = none
copy_data false sz bytes = bytes

-- `_FilterArgs`: the session, the data, the size and the new state
unfoldable pub filter_args :
    Option ℕ → ℕ → ℕ → Option (List ℕ) → ℕ → System → Run (ℕ × Option (List ℕ) × ℕ × System)
filter_args ctx type session bytes sz w =
    let copied = copy_data (bit_and type tag_dontcopy == 0) sz bytes in
    let size = pack sz (bit_and type 0xff) in
    if bit_and type tag_allocsession == 0
    then ok (session, copied, size, w)
    else (assert (session == 0)
        >> (sender ctx w >>= λ c. new_session c w >>= λ (fresh, w'). ok (fresh, copied, size, w')))

-- `ServiceSend` behind the sender, for a destination that is not 0
unfoldable pub deliver : ℕ → ℕ → ℕ → Option (List ℕ) → ℕ → System → Run (ℕ × System)
deliver source destination session bytes sz w = message_is_remote destination w >>= λ is_remote.
    let msg : Message = record {
      source = source;
      session = session;
      data_bytes = bytes;
      sz = sz;
    } in
    if is_remote
    then fault null_pointer
    else (context_push destination msg w >>= λ (pushed, w').
        ok (if pushed then (minus_one, w') else (session, w')))

abbrev pub is_set : Option (List ℕ) → Bool
is_set none = false
is_set (some bytes) = true

-- `ServiceSend`; `rmsg` is null
unfoldable pub service_send :
    Option ℕ → ℕ → ℕ → ℕ → ℕ → Option (List ℕ) → ℕ → System → Run (ℕ × System)
service_send ctx source destination type session bytes sz w =
    let send : Run (ℕ × System) =
      filter_args ctx type session bytes sz w >>= λ (number, copied, size, w').
      (if source == 0 then (sender ctx w' >>= λ c. ok (w'.memory c).handle) else ok source)
      >>= λ from.
          if destination == 0
          then ok (if is_set copied then (minus_one, w') else (number, w'))
          else deliver from destination number copied size w' in
    if bit_and sz message_type_mask == sz then send else ok (minus_two, w)

-- `ServiceSendname`, for a name without its NUL. 58 is ':', 46 is '.'; `rmsg` has no value.
unfoldable pub service_sendname :
    (List ℕ → ℕ) → Option ℕ → ℕ → List ℕ → ℕ → ℕ → Option (List ℕ) → ℕ → System → Run (ℕ × System)
service_sendname hex ctx source addr type session bytes sz w =
    let first = get_or addr 0 0 in
    let to_handle : ℕ → ℕ → Run (ℕ × System) =
      λ from des. service_send ctx from des type session bytes sz w in
    let to_local : ℕ → Run (ℕ × System) = λ from. find_name w.storage (drop 1 addr) >>= λ des.
    if des == 0 then ok (minus_one, w) else to_handle from des in
    let to_global : Run (ℕ × System) =
      filter_args ctx type session bytes sz w >>= λ r. fault uninitialised_pointer in
    (if source == 0 then (sender ctx w >>= λ c. ok (w.memory c).handle) else ok source) >>= λ from.
    if first == 58
    then to_handle from (hex (drop 1 addr))
    else if first == 46
    then to_local from
    else if bit_and sz message_type_mask == sz
    then to_global
    else ok (minus_two, w)

-- `DropMessage`, for the handle of the dropped queue; 7 is kPtypeError
unfoldable pub drop_message : ℕ → Message → System → Run System
drop_message handle msg w =
    assert (not (handle == 0))
    >> (service_send none handle msg.source 7 0 none 0 w >>= λ (result, w'). ok w')

-- `Context::Send`
unfoldable pub send : ℕ → Option (List ℕ) → ℕ → ℕ → ℕ → ℕ → System → Run System
send c msg sz source type session w =
    let smsg : Message = record {
      source = source;
      session = session;
      data_bytes = msg;
      sz = pack sz type;
    } in
    live c w
    >> (MessageQueue.push (w.context c).queue smsg w.world >>= λ q. ok (record w { world = q }))

-- `HarborSend`: the bytes of the remote message, its type, and the size of its struct. 4 is kPtypeSystem
-- and 5 kPtypeHarbor.
unfoldable pub harbor_send : List ℕ → ℕ → ℕ → ℕ → System → Run System
harbor_send rmsg type source session w =
    assert (not (type == 4) && not (type == 5) && not (w.harbor == 0)) >> elim w.remote [
      | none ↦ fault null_pointer
      | some c ↦ send c (some rmsg) 48 source 4 session w
    ]

-- "KILL self", and "KILL :" before the handle
abbrev pub kill_text : (ℕ → List ℕ) → ℕ → List ℕ
kill_text decimal handle =
    if handle == 0
    then 75 ∷ 73 ∷ 76 ∷ 76 ∷ 32 ∷ 115 ∷ 101 ∷ 108 ∷ 102 ∷ []
    else 75 ∷ 73 ∷ 76 ∷ 76 ∷ 32 ∷ 58 ∷ decimal handle

-- `HandleExit`; 3 is kPtypeClient
unfoldable pub handle_exit : (ℕ → List ℕ) → ℕ → ℕ → System → Run System
handle_exit decimal c handle w =
    let self = (w.memory c).handle in
    let killed = if handle == 0 then self else handle in
    live c w
    >> (skynet_error self (kill_text decimal handle) w >>= λ w1.
        (if w1.monitor_exit == 0
          then ok w1
          else (service_send (some c) killed w1.monitor_exit 3 0 none 0 w1 >>= λ (result, w2).
              ok w2))
        >>= λ w2. retire_handle killed w2 >>= λ (done, w3). ok w3)

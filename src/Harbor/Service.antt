-- ===== src/Harbor/Service.antt =====
-- The harbor service in service-src/service_harbor.cpp: its state, its start and its end, the commands of
-- the service that knows the other nodes, and the main loop. `accepts` says for which calls `ServiceSend`
-- returns a number that is not negative; `scan` is what `sscanf` reads as two numbers, 0 where it reads
-- none. An `int` that is negative is its pattern from 2 ^ 31 on.
pub mod Remotes
pub mod Sound
pub mod Loop
mod Tests
use skynet_cpp.Prelude.{
  ℕ, zero, suc, ◌+◌, ◌-◌, ◌*◌, ◌/◌, ◌%◌, ◌^◌, ◌==◌, ltb, leb, if◌then◌else◌, ◌&&◌, ◌||◌, Bool, true,
  false, not, Option, none, some, List, [], ◌∷◌, ◌++◌, get_or, take, drop, replicate,
}
use skynet_cpp.Prelude.Run.{Run, ok, fault, out_of_bounds, ◌>>=◌}
use skynet_cpp.Harbor.Slave.{
  Slave, Harbor, Call, service_send, socket_send_buffer, socket_start, service_callback,
  harbor_start, report_error, put_slave, c_string, status_wait, status_handshake, ptype_error,
  dispatch_queue, close_harbor, remote_send_handle,
}
use skynet_cpp.Harbor.Receive.{status_header, remote_max, until_nul, find_slave, push_socket_data}
use skynet_cpp.Harbor.Names.{HashMap, global_name_length, ptype_text, update_name, remote_send_name}

abbrev pub no_slave : Slave
no_slave = record {
  fd = 0;
  queue = none;
  status = status_wait;
  length = 0;
  read = 0;
  size = 0 ∷ 0 ∷ 0 ∷ 0 ∷ [];
  recv_buffer = [];
}

-- `hash_new`
abbrev pub hash_new : HashMap
hash_new i = []

abbrev pub harbor_create : Harbor × HashMap
harbor_create = (record { id = 0; slave = 0; s = λ i. no_slave }, hash_new)

-- `for (i = 1; i < kRemoteMax; i++)`, with the rounds left
unfoldable pub close_from : ℕ → ℕ → Harbor → List Call × Harbor
close_from zero i h = ([], h)
close_from (suc n) i h =
    let (calls, closed) = close_harbor h i in
    let (more, after) = close_from n (i + 1) closed in (calls ++ more, after)

abbrev pub close_all_remotes : Harbor → List Call × Harbor
close_all_remotes h = close_from (remote_max - 1) 1 h

-- `%d` of a number below 1000
abbrev pub decimal : ℕ → List ℕ
decimal n =
    if ltb n 10
    then (48 + n) ∷ []
    else if ltb n 100
    then (48 + n / 10) ∷ (48 + n % 10) ∷ []
    else (48 + n / 100) ∷ (48 + n / 10 % 10) ∷ (48 + n % 10) ∷ []

-- "D " and the number
abbrev pub report_harbor_down : Harbor → ℕ → Call
report_harbor_down h id = service_send 0 h.slave ptype_text 0 (68 ∷ 32 ∷ decimal id)

-- The text is made of an array of one byte.
unfoldable pub handshake : Harbor → ℕ → Run (List Call)
handshake h id = elim (c_string (h.id % 2 ^ 8 ∷ [])) [
  | none ↦ fault out_of_bounds
  | some str ↦ ok (socket_send_buffer (h.s id).fd str 1 ∷ [])
]

-- What arrives: a message of a socket with its type, id, `ud` and buffer; a command; a message for
-- another node with the name or the handle of its destination, its bytes, size and type; or a message of
-- another type.
pub data Incoming : Type 0 where
  socket_message : ℕ → ℕ → ℕ → List ℕ → Incoming
  command : List ℕ → ℕ → Incoming
  remote : List ℕ → ℕ → List ℕ → ℕ → ℕ → Incoming
  other_type : ℕ → Incoming

module _ (scan : List ℕ → ℕ × ℕ) where
  -- the cases 'S' and 'A'
  unfoldable pub connect_command : Bool → Harbor → List ℕ → ℕ → Run (List Call × Harbor)
  connect_command active h msg sz =
      let (fd, id) = scan (until_nul (take (sz - 2) (drop 2 msg))) in
      let opened = put_slave id (record (h.s id) { fd = fd }) h in
      if ltb sz 2
      then fault out_of_bounds
      else if fd == 0 || (id == 0 || leb remote_max id)
      then ok ([], h)
      else if not ((h.s id).fd == 0)
      then ok ([], h)
      else (handshake opened id >>= λ calls.
          if active
          then ok (
            socket_start fd ∷ calls,
            put_slave id (record (h.s id) { fd = fd; status = status_handshake }) opened,
          )
          else (dispatch_queue
                (put_slave id (record (h.s id) { fd = fd; status = status_header }) opened) id
              >>= λ (more, after). ok (socket_start fd ∷ calls ++ more, after)))

  -- 78 is 'N', 83 'S', 65 'A'
  unfoldable pub harbor_command :
      Harbor → HashMap → List ℕ → ℕ → ℕ → Run (List Call × Harbor × HashMap)
  harbor_command h map msg sz source =
      let c = get_or msg 0 0 in
      let s = sz - 2 in
      let name = take s (drop 2 msg) ++ replicate (global_name_length - s) 0 in
      let with_map : Run (List Call × Harbor) → Run (List Call × Harbor × HashMap) =
        λ r. r >>= λ (calls, after). ok (calls, after, map) in
      if c == 78
      then (if s == 0 || leb global_name_length s
          then ok ([], h, map)
          else update_name h map name source)
      else if c == 83
      then with_map (connect_command true h msg sz)
      else if c == 65
      then with_map (connect_command false h msg sz)
      else ok ([], h, map)

module _ (accepts : Call → Bool) (scan : List ℕ → ℕ × ℕ) where
  -- 1 is kSocketTypeData, 3 kSocketTypeClose, 5 kSocketTypeError
  unfoldable pub mainloop : Harbor → HashMap → Incoming → ℕ → ℕ → Run (List Call × Harbor × HashMap)
  mainloop h map (socket_message type id ud buffer) session source =
      let known = find_slave (remote_max - 1) 1 h id in
      let report = if known == 0 then report_error else report_harbor_down h known in
      if type == 1
      then (push_socket_data accepts h id buffer ud >>= λ (calls, after). ok (calls, after, map))
      else if type == 5 || type == 3
      then ok (report ∷ [], h, map)
      else ok ([], h, map)
  mainloop h map (command msg sz) session source = harbor_command scan h map msg sz source
  mainloop h map (remote name handle message sz type) session source =
      if handle == 0
      then (remote_send_name h map source name type session message sz
          >>= λ (result, calls, h', map'). ok (calls, h', map'))
      else (remote_send_handle h source handle type session message sz >>= λ (result, calls, h').
          ok (calls, h', map))
  mainloop h map (other_type type) session source = ok (
    if not (session == 0) && not (type == ptype_error)
        then service_send 0 source ptype_error session [] ∷ []
        else [],
    h,
    map,
  )

-- The result, the calls and the new state. The constructor's state has the slaves of `harbor_create`.
unfoldable pub harbor_init : (List ℕ → ℕ × ℕ) → Harbor → List ℕ → ℕ × List Call × Harbor
harbor_init scan h args =
    let (harbor_id, slave) = scan args in
    let started = record h { id = harbor_id; slave = slave } in
    let (calls, closed) = close_all_remotes started in
    if slave == 0
    then (1, [], h)
    else if harbor_id == 0
    then (0, calls ++ service_callback ∷ harbor_start ∷ [], closed)
    else (0, service_callback ∷ harbor_start ∷ [], started)

-- ===== src/SocketServer/Control.antt =====
-- The handlers of commands in skynet-src/socket_server.cpp, on the slot of the id of the command: the start of
-- sockets, and the switches of their events. What `getaddrinfo` finds and how `connect` goes for each
-- address is an argument of `dial`, the name of a listening socket and the texts of errors of `listen_socket`.
use skynet_cpp.Prelude.{
  ℕ, ◌==◌, if◌then◌else◌, Bool, true, false, not, Option, none, some, List, [], ◌∷◌,
}
use skynet_cpp.Prelude.Run.{Run, ok, fault, uncaught_exception, ◌>>=◌}
use skynet_cpp.SocketServer.{
  tcp, udp, udp_v6, Payload, read_size, udp_address, Data, bytes, reach_limit, binding,
  invalid_socket, socket_closed, enable_read_failed, enable_write_failed, started, transferred,
  Turn, Call, close, set_opt, nonblocking, keepalive, call, ignored, socket_open, socket_err,
  type_invalid, type_plisten, type_listen, type_connected, type_ip_accept, type_bind,
}
use skynet_cpp.SocketServer.Ids.{socket_invalid}
use skynet_cpp.SocketServer.Closing.{
  enable_read, enable_write, report_error, new_fd, halfclose_read,
}

abbrev pub set_type : ℕ → Turn → Turn
set_type ty t = record t { socket = record t.socket { type = ty } }

abbrev pub calls : Call → Turn → Turn
calls c t = record t { kernel = call t.kernel c }

-- A message for a request, whose socket may not be there.
abbrev pub answer : ℕ → ℕ → ℕ → Data → Turn → Turn
answer id opaque ud d t = record t {
  message = record { id = id; opaque = opaque; ud = ud; data_text = d };
}

-- What `getsockname` and `inet_ntop` say of a descriptor: nothing, or the port and the address if it is known.
-- `ListenSocket`
unfoldable pub listen_socket :
    (ℕ → Option (Option (List ℕ) × ℕ)) → List ℕ → ℕ → ℕ → ℕ → Turn → Run (ℕ × Turn)
listen_socket local_name strerror id fd opaque t = new_fd t id fd tcp opaque false >>= λ r.
    let u = r.1 in
    let refused = answer id opaque 0 reach_limit (set_type type_invalid (calls (close fd) u)) in
    let bound = set_type type_plisten u in
    if not r.0 then ok (socket_err, refused) else elim (local_name fd) as (λ n. Run (ℕ × Turn)) [
      | none ↦ ok (socket_err, answer id opaque 0 (bytes strerror) bound)
      | some (none, port) ↦ ok (socket_err, answer id opaque 0 (bytes strerror) bound)
      | some (some host, port) ↦ ok (socket_open, answer id opaque port (bytes host) bound)
    ]

-- `BindSocket`
unfoldable pub bind_socket : ℕ → ℕ → ℕ → Turn → Run (ℕ × Turn)
bind_socket id fd opaque t = new_fd t id fd tcp opaque true >>= λ r.
    if not r.0
    then ok (socket_err, answer id opaque 0 reach_limit r.1)
    else ok
        (socket_open, answer id opaque 0 binding (set_type type_bind (calls (nonblocking fd) r.1)))

-- One address that `getaddrinfo` found: no socket, or a descriptor whose connection is refused, is under way, or
-- stands, with the text of the address.
pub data Candidate : Type 0 where
  no_socket : Candidate
  refused : ℕ → Candidate
  in_progress : ℕ → Candidate
  connected : ℕ → Option (List ℕ) → Candidate

abbrev pub dialled : ℕ → Turn → Turn
dialled fd t = calls (nonblocking fd) (calls (keepalive fd) t)

-- The loop over the addresses: what the first that is not refused is, after the calls.
unfoldable pub dial : List Candidate → Turn → Candidate × Turn
dial [] t = (no_socket, t)
dial (no_socket ∷ cs) t = dial cs t
dial (refused fd ∷ cs) t = dial cs (calls (close fd) (dialled fd t))
dial (in_progress fd ∷ cs) t = (in_progress fd, dialled fd t)
dial (connected fd name ∷ cs) t = (connected fd name, dialled fd t)

-- `ResumeSocket`, once its message is cleared
unfoldable pub resume : ℕ → ℕ → Data → Turn → ℕ × Turn
resume id opaque cleared t =
    let reads = (enable_read t true).1 in
    let ty = t.socket.type in
    let owned = λ (d : Data) (now : ℕ).
      answer id opaque 0 d
        (record reads { socket = record reads.socket { type = now; opaque = opaque } }) in
    if socket_invalid t.socket id
    then (socket_err, answer id opaque 0 invalid_socket t)
    else if halfclose_read t.socket
    then (socket_err, answer id opaque 0 socket_closed t)
    else if (enable_read t true).0
    then (socket_err, answer id opaque 0 enable_read_failed reads)
    else if ty == type_ip_accept
    then (socket_open, owned started type_connected)
    else if ty == type_plisten
    then (socket_open, owned started type_listen)
    else if ty == type_connected
    then (socket_open, owned transferred type_connected)
    else (ignored, answer id opaque 0 cleared reads)

-- `PauseSocket`
unfoldable pub pause_socket : ℕ → Turn → ℕ × Turn
pause_socket id t =
    let quiet = enable_read t false in
    if socket_invalid t.socket id
    then (ignored, t)
    else if quiet.0
    then report_error quiet.1 enable_read_failed
    else (ignored, quiet.1)

-- `TriggerWrite`
unfoldable pub trigger_write : ℕ → Turn → ℕ × Turn
trigger_write id t =
    let writes = enable_write t true in
    if socket_invalid t.socket id
    then (ignored, t)
    else if writes.0
    then report_error writes.1 enable_write_failed
    else (ignored, writes.1)

-- `SetOptSocket`
unfoldable pub set_opt_socket : ℕ → ℕ → ℕ → Turn → ℕ × Turn
set_opt_socket id what value t =
    if socket_invalid t.socket id
    then (ignored, t)
    else (ignored, calls (set_opt t.socket.fd what value) t)

-- `std::get<uint8_t[kUdpAddressSize]>`
abbrev pub get_address : Payload → Run (List ℕ)
get_address (read_size n) = fault uncaught_exception
get_address (udp_address a) = ok a

-- `AddUDPSocket`; `v6` is whether the family is AF_INET6
unfoldable pub add_udp_socket : ℕ → ℕ → Bool → ℕ → Turn → Run (ℕ × Turn)
add_udp_socket id fd v6 opaque t = new_fd t id fd (if v6 then udp_v6 else udp) opaque true >>= λ r.
    let u = r.1 in
    let zeroed : Run (ℕ × Turn) = get_address u.socket.p >>= λ a. ok (
      ignored,
      record u { socket = record u.socket { type = type_connected; p = udp_address (map_zero a) } },
    ) in
    if not r.0 then ok (ignored, set_type type_invalid (calls (close fd) u)) else zeroed
  where
    map_zero : List ℕ → List ℕ
    map_zero [] = []
    map_zero (x ∷ xs) = 0 ∷ map_zero xs

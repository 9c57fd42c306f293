-- ===== src/SocketServer/Ctrl.antt =====
-- The commands that other threads send through the pipe in skynet-src/socket_server.cpp: `SendSocket`,
-- `OpenSocket`, `SetUDPAddress` and `CtrlCmd`, on the slot of the id of the command.
use skynet_cpp.Prelude.{
  ℕ, ◌+◌, ◌-◌, ◌*◌, ◌/◌, ◌%◌, ◌^◌, ◌==◌, leb, min, if◌then◌else◌, Bool, true, false, not, ◌&&◌,
  ◌||◌, Option, none, some, List, [], ◌∷◌, ◌++◌, get_or, take, drop,
}
use skynet_cpp.Prelude.Run.{Run, ok, fault, uninitialised_pointer, no_fuel, assert, ◌>>=◌, ◌>>◌}
use skynet_cpp.SocketServer.{
  Socket, tcp, protocol_code, is_tcp, udp_address, Data, bytes, reach_limit, enable_write_failed,
  protocol_mismatch, Answer, took, Turn, close, log_error, sendto, ignored, socket_open, socket_err,
  socket_exit, socket_warning, type_invalid, type_plisten, type_listen, type_connecting,
  type_connected, type_half_close_write, type_ip_accept, warning_size,
}
use skynet_cpp.SocketServer.Ids.{socket_invalid}
use skynet_cpp.SocketServer.Closing.{enable_write, report_error, new_fd, close_socket}
use skynet_cpp.SocketServer.Sending.{
  range, answers_left, stat_write, udp_socket_address, send_buffer_empty,
}
use skynet_cpp.SocketServer.Control.{
  set_type, calls, answer, listen_socket, bind_socket, Candidate, no_socket, refused, in_progress,
  connected, dial, resume, pause_socket, trigger_write, set_opt_socket, get_address, add_udp_socket,
}

-- `AppendSendbuffer_`, which writes through a pointer that was given no value.
abbrev pub append_sendbuffer : Turn → Run Turn
append_sendbuffer t = fault uninitialised_pointer

-- `sock->wb_size >= WARNING_SIZE && sock->wb_size >= sock->warn_size`, of signed numbers
abbrev pub at_least : ℕ → ℕ → Bool
at_least a b = leb ((b + 2 ^ 63) % 2 ^ 64) ((a + 2 ^ 63) % 2 ^ 64)

abbrev pub overfull : Socket → Bool
overfull s = at_least s.wb_size warning_size && at_least s.wb_size s.warn_size

-- `struct RequestSend`, and whether the priority is PRIORITY_LOW; the priority makes no difference up to where the
-- buffer is appended. The buffer is the address of the `std::string`, or 0.
pub record RequestSend : Type 0 where
  pub id : ℕ
  pub sz : ℕ
  pub object : ℕ
  pub low : Bool

-- A package of the pipe.
pub data Request : Type 0 where
  resume_request : ℕ → ℕ → Request
  pause_request : ℕ → Request
  bind_request : ℕ → ℕ → ℕ → Request
  listen_request : ℕ → ℕ → ℕ → Request
  close_request : ℕ → Bool → Request
  open_request : ℕ → ℕ → List ℕ → ℕ → Request
  exit_request : Request
  write_request : ℕ → Request
  send_request : RequestSend → Request
  send_udp_request : RequestSend → List ℕ → Request
  set_udp_request : ℕ → List ℕ → Request
  set_opt_request : ℕ → ℕ → ℕ → Request
  udp_request : ℕ → ℕ → Bool → ℕ → Request
  unknown_request : Request

-- What a request to send finds: it is dropped, refused with a line in the log, or goes on.
pub data Fate : Type 0 where
  dropped : Fate
  logged : Fate
  goes : Fate

abbrev pub fate : ℕ → Socket → Fate
fate id s =
    if s.type == type_invalid
      || not (s.id == id)
      || s.type == type_half_close_write
      || s.type == type_ip_accept
      || s.closing
    then dropped
    else if s.type == type_plisten || s.type == type_listen
    then logged
    else goes

-- What the kernel takes of a datagram: `none` if it failed, and the answers left.
abbrev pub datagram_taken : List Answer → ℕ → Run (Option ℕ × List Answer)
datagram_taken [] sz = fault no_fuel
datagram_taken (took n ∷ rs) sz = ok (some (min n sz), rs)
datagram_taken (_ ∷ rs) sz = ok (none, rs)

abbrev pub took_all : Option ℕ → ℕ → Bool
took_all none sz = false
took_all (some n) sz = n == sz

-- `udp_address`, or the one of the socket if there is none
abbrev pub target : Option (List ℕ) → Socket → Run (List ℕ)
target none s = get_address s.p
target (some a) s = ok a

-- What becomes of a request to send.
abbrev pub by_fate {ℓ} : {A : Type ℓ} → Fate → A → A → A → A
by_fate dropped a b c = a
by_fate logged a b c = b
by_fate goes a b c = c

-- `DecSendingRef`
unfoldable pub dec_sending_ref : ℕ → Turn → Run Turn
dec_sending_ref id t =
    let s = t.socket in
    let counted : Run Turn =
      assert (not (s.sending % 2 ^ 16 == 0))
      >> ok (record t { socket = record s { sending = s.sending - 1 } }) in
    if s.id == id && is_tcp s.protocol then counted else ok t

-- `SetUDPAddress`; the address has the bytes of the type, the port and the host.
unfoldable pub set_udp_address : ℕ → List ℕ → Turn → Run (ℕ × Turn)
set_udp_address id address t =
    let s = t.socket in
    let size = if protocol_code s.protocol == 1 then 7 else 19 in
    let put : Run (ℕ × Turn) = get_address s.p >>= λ a. ok (
      ignored,
      record t {
        socket = record s {
          p = udp_address (take size address ++ drop size a);
          udpconnecting = (s.udpconnecting + (2 ^ 32 - 1)) % 2 ^ 32;
        };
      },
    ) in
    if socket_invalid s id
    then ok (ignored, t)
    else if not (get_or address 0 0 == protocol_code s.protocol)
    then ok (report_error t protocol_mismatch)
    else put

module _ (null_text : Run Data) (strerror : List ℕ) where
  -- The end of `SendSocket`.
  unfoldable pub warn : Turn → Run (ℕ × Turn)
  warn t =
      let s = t.socket in
      let size = if s.warn_size == 0 then warning_size * 2 else s.warn_size * 2 % 2 ^ 64 in
      let ud = if s.wb_size % 1024 == 0 then s.wb_size / 1024 else s.wb_size / 1024 + 1 in
      let warned : Run (ℕ × Turn) = null_text >>= λ d. ok (
        socket_warning,
        answer s.id s.opaque ud d (record t { socket = record s { warn_size = size } }),
      ) in
      if overfull s then warned else ok (ignored, t)

  -- A buffer that was appended to empty lists.
  unfoldable pub begin_write : Turn → Run (ℕ × Turn)
  begin_write t =
      let (refusal, u) = enable_write t true in
      if refusal then ok (report_error u enable_write_failed) else warn u

  -- `SendSocket` on a datagram for an idle socket.
  unfoldable pub send_datagram : RequestSend → Option (List ℕ) → Turn → Run (ℕ × Turn)
  send_datagram r address t = target address t.socket >>= λ a.
      let to = udp_socket_address t.socket a in
      let given : Run (ℕ × Turn) = datagram_taken t.kernel.answers r.sz >>= λ (n, rs).
      let u = calls (sendto t.socket.fd to.1) (answers_left t rs) in
      let queued : Run (ℕ × Turn) = append_sendbuffer u >>= λ v. begin_write v in
      let sent = record u {
        kernel = record u.kernel { sent = u.kernel.sent ++ range r.object r.sz };
      } in
      if took_all n r.sz then ok (ignored, stat_write sent r.sz) else queued in
      if to.0 == 0 then ok (ignored, calls log_error t) else given

  -- `SendSocket` on a socket that takes data
  unfoldable pub send_open : RequestSend → Option (List ℕ) → Turn → Run (ℕ × Turn)
  send_open r address t =
      let queued : Run (ℕ × Turn) = append_sendbuffer t >>= λ u. warn u in
      let first : Run (ℕ × Turn) = append_sendbuffer t >>= λ u. begin_write u in
      let behind : Run (ℕ × Turn) = target address t.socket >>= λ a. queued in
      if send_buffer_empty t.socket
      then (if is_tcp t.socket.protocol then first else send_datagram r address t)
      else if is_tcp t.socket.protocol
      then queued
      else behind

  -- `SendSocket`
  unfoldable pub send_socket : RequestSend → Option (List ℕ) → Turn → Run (ℕ × Turn)
  send_socket r address t =
      by_fate (fate r.id t.socket) (ok (ignored, t)) (ok (ignored, calls log_error t))
        (send_open r address t)

  -- `OpenSocket` with a descriptor that is connected, or on its way
  unfoldable pub opening : ℕ → ℕ → ℕ → Option (Option (List ℕ)) → Data → Turn → Run (ℕ × Turn)
  opening id fd opaque connection cleared t = new_fd t id fd tcp opaque true >>= λ r.
      let u = r.1 in
      let writes = enable_write u true in
      if not r.0
      then ok (socket_err, answer id opaque 0 reach_limit (set_type type_invalid u))
      else elim connection as (λ c. Run (ℕ × Turn)) [
        | some none ↦ ok (socket_open, answer id opaque 0 cleared (set_type type_connected u))
        | some (some name) ↦
            ok (socket_open, answer id opaque 0 (bytes name) (set_type type_connected u))
        | none ↦
            if writes.0
            then ok (
              socket_err,
              answer id opaque 0 enable_write_failed
                  (set_type type_invalid (calls (close fd) writes.1)),
            )
            else ok (ignored, answer id opaque 0 cleared (set_type type_connecting writes.1))
      ]

  -- `OpenSocket` behind the loop over the addresses, with the one that was not refused.
  unfoldable pub open_with : ℕ → ℕ → Data → Candidate → Turn → Run (ℕ × Turn)
  open_with id opaque cleared no_socket t =
      ok (socket_err, answer id opaque 0 (bytes strerror) (set_type type_invalid t))
  open_with id opaque cleared (refused fd) t =
      ok (socket_err, answer id opaque 0 (bytes strerror) (set_type type_invalid t))
  open_with id opaque cleared (in_progress fd) t = opening id fd opaque none cleared t
  open_with id opaque cleared (connected fd name) t = opening id fd opaque (some name) cleared t

  -- `OpenSocket`, once its message is cleared; `found` is what `getaddrinfo` found, if it found anything.
  unfoldable pub open_found :
      ℕ → ℕ → List ℕ → Data → Option (List Candidate) → Turn → Run (ℕ × Turn)
  open_found id opaque gai_strerror cleared none t =
      ok (socket_err, answer id opaque 0 (bytes gai_strerror) (set_type type_invalid t))
  open_found id opaque gai_strerror cleared (some cs) t =
      open_with id opaque cleared (dial cs t).0 (dial cs t).1

  -- `OpenSocket`
  unfoldable pub open_socket : ℕ → ℕ → List ℕ → Option (List Candidate) → Turn → Run (ℕ × Turn)
  open_socket id opaque gai_strerror found t =
      null_text >>= λ cleared. open_found id opaque gai_strerror cleared found t

  -- A command, with the bytes of its package: its type in the source is 'R', 'S', 'B', 'L', 'K', 'O', 'X', 'W',
  -- 'D' or 'P', 'A', 'C', 'T', 'U', or another one.
  unfoldable pub ctrl_cmd :
      (ℕ → Option (Option (List ℕ) × ℕ))
      → List ℕ
      → (List ℕ → ℕ → Option (List Candidate))
      → Request
      → Turn
      → Run (ℕ × Turn)
  ctrl_cmd local_name gai_strerror resolve (resume_request id opaque) t =
      null_text >>= λ cleared. ok (resume id opaque cleared t)
  ctrl_cmd local_name gai_strerror resolve (pause_request id) t = ok (pause_socket id t)
  ctrl_cmd local_name gai_strerror resolve (bind_request id fd opaque) t =
      bind_socket id fd opaque t
  ctrl_cmd local_name gai_strerror resolve (listen_request id fd opaque) t =
      listen_socket local_name strerror id fd opaque t
  ctrl_cmd local_name gai_strerror resolve (close_request id at_once) t =
      close_socket null_text id at_once t
  ctrl_cmd local_name gai_strerror resolve (open_request id opaque host port) t =
      open_socket id opaque gai_strerror (resolve host port) t
  ctrl_cmd local_name gai_strerror resolve exit_request t =
      null_text >>= λ cleared. ok (socket_exit, answer 0 0 0 cleared t)
  ctrl_cmd local_name gai_strerror resolve (write_request id) t = ok (trigger_write id t)
  ctrl_cmd local_name gai_strerror resolve (send_request r) t =
      send_socket r none t >>= λ sent. dec_sending_ref r.id sent.1 >>= λ u. ok (sent.0, u)
  ctrl_cmd local_name gai_strerror resolve (send_udp_request r address) t =
      send_socket r (some address) t
  ctrl_cmd local_name gai_strerror resolve (set_udp_request id address) t =
      set_udp_address id address t
  ctrl_cmd local_name gai_strerror resolve (set_opt_request id what value) t =
      ok (set_opt_socket id what value t)
  ctrl_cmd local_name gai_strerror resolve (udp_request id fd v6 opaque) t =
      add_udp_socket id fd v6 opaque t
  ctrl_cmd local_name gai_strerror resolve unknown_request t = ok (ignored, calls log_error t)

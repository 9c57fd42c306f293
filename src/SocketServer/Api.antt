-- ===== src/SocketServer/Api.antt =====
-- What other threads call in skynet-src/socket_server.cpp: `Send` and its relatives, which write at once where
-- they can, and the requests that they write to the pipe. Every write to the pipe uses up one answer of the
-- kernel, and so does every write to a socket.
pub mod Direct
pub mod Handover
pub mod Requests
pub mod Opening
use skynet_cpp.Prelude.{
  ℕ, zero, suc, ◌+◌, ◌-◌, ◌*◌, ◌/◌, ◌%◌, ◌^◌, ◌==◌, ltb, leb, min, if◌then◌else◌, Bool, true, false,
  not, ◌&&◌, ◌||◌, Option, none, some, List, [], ◌∷◌, ◌++◌, get_or, take, length,
}
use skynet_cpp.Prelude.Run.{Run, ok, fault, no_fuel, assert, ◌>>=◌, ◌>>◌}
use skynet_cpp.SocketServer.{
  Socket, Text, Protocol, protocol_code, is_tcp, udp_address, Answer, took, interrupted, again,
  write_failed, Kernel, Call, close, nonblocking, log_error, sendto, call, ignored, type_connected,
  put_socket,
}
use skynet_cpp.SocketServer.Ids.{hash_id, socket_invalid, reserve_id}
use skynet_cpp.SocketServer.Closing.{id_tag16, nomore_sending_data}
use skynet_cpp.SocketServer.Sending.{plus64, range, udp_socket_address}
use skynet_cpp.SocketServer.Control.{get_address}
use skynet_cpp.SocketServer.Ctrl.{
  Request, resume_request, pause_request, bind_request, listen_request, close_request, open_request,
  exit_request, write_request, send_request, send_udp_request, set_udp_request, set_opt_request,
  udp_request, unknown_request, RequestSend,
}

-- `class SocketServer`, as other threads see it: the counter of ids, the slots, the bytes of each write to the
-- pipe, the kernel. `past` is what memory holds six whole packages behind a package: `SendRequest` adds the
-- offset 6 to a pointer to packages, so the bytes that it writes are there, not in the package.
pub record Server : Type 0 where
  pub alloc_id : ℕ
  pub slot : ℕ → Socket
  pub pipe : List (List ℕ)
  pub past : Request → List ℕ
  pub kernel : Kernel

-- `SOCKET_BUFFER_MEMORY`, `SOCKET_BUFFER_OBJECT`, `SOCKET_BUFFER_RAWPOINTER`
pub data BufferType : Type 0 where
  memory : BufferType
  object : BufferType
  raw_pointer : BufferType

-- `struct Sendbuffer`
pub record Sendbuffer : Type 0 where
  pub id : ℕ
  pub type : BufferType
  pub buffer : Text
  pub sz : ℕ

abbrev pub user_object : ℕ
user_object = 2 ^ 64 - 1

-- `CloneBuffer`: the buffer and its size
unfoldable pub clone_buffer : BufferType → Text → ℕ → Option Text × ℕ
clone_buffer memory text sz = (some text, sz)
clone_buffer object text sz = (some text, user_object)
clone_buffer raw_pointer text sz = (none, 0)

-- The bytes of a package behind its two bytes of header, as its `sizeof`s give them.
abbrev pub package_size : Request → ℕ
package_size (resume_request id opaque) = 16
package_size (pause_request id) = 16
package_size (bind_request id fd opaque) = 16
package_size (listen_request id fd opaque) = 24
package_size (close_request id at_once) = 16
package_size (open_request id opaque host port) = 24 + length host
package_size exit_request = 0
package_size (write_request id) = 24
package_size (send_request r) = 24
package_size (send_udp_request r a) = 24 + length a
package_size (set_udp_request id a) = 5 + length a
package_size (set_opt_request id what value) = 12
package_size (udp_request id fd v6 opaque) = 24
package_size unknown_request = 0

-- `SendRequest`: it tries until the kernel takes as many bytes as the package has, and asserts that it took them
-- all.
unfoldable pub push_request : List Answer → Server → Request → Run Server
push_request [] s q = fault no_fuel
push_request (took n ∷ rs) s q =
    let done = record s {
      pipe = s.pipe ++ take (package_size q + 2) (s.past q) ∷ [];
      kernel = record s.kernel { answers = rs };
    } in
    assert (min n (package_size q + 2) == package_size q + 2) >> ok done
push_request (interrupted ∷ rs) s q = push_request rs s q
push_request (again ∷ rs) s q = push_request rs (record s { kernel = call s.kernel log_error }) q
push_request (write_failed ∷ rs) s q =
    push_request rs (record s { kernel = call s.kernel log_error }) q

abbrev pub submit : Server → Request → Run Server
submit s q = push_request s.kernel.answers s q

abbrev pub socket_of : Server → ℕ → Socket
socket_of s id = s.slot (hash_id id)

abbrev pub put : Server → ℕ → Socket → Server
put s id k = record s { slot = put_socket s.slot (hash_id id) k }

-- `CanDirectWrite`
abbrev pub can_direct_write : Socket → ℕ → Bool
can_direct_write s id =
    s.id == id && nomore_sending_data s && s.type == type_connected && s.udpconnecting == 0

-- `IncSendingRef`; where 65535 packages are on their way it waits for the thread of the sockets.
unfoldable pub inc_sending_ref : Socket → ℕ → Run Socket
inc_sending_ref s id =
    let counted : Run Socket =
      if s.sending % 2 ^ 16 == 2 ^ 16 - 1
      then fault no_fuel
      else ok (record s { sending = s.sending + 1 }) in
    if not (is_tcp s.protocol)
    then ok s
    else if s.sending / 2 ^ 16 == id_tag16 id
    then counted
    else ok s

-- What a write at once comes to: the bytes that the kernel took, `none` if it failed.
abbrev pub taken_at_once : List Answer → ℕ → Run (Option ℕ × List Answer)
taken_at_once [] sz = fault no_fuel
taken_at_once (took n ∷ rs) sz = ok (some (min n sz), rs)
taken_at_once (_ ∷ rs) sz = ok (none, rs)

-- `if (n < 0) n = 0`
abbrev pub count : Option ℕ → ℕ
count none = 0
count (some n) = n

-- `StatWrite` from another thread
abbrev pub stat_write_of : Socket → ℕ → ℕ → Socket
stat_write_of s n time = record s { written = plus64 s.written n; wtime = time }

abbrev pub object_or_null : Option Text → ℕ
object_or_null none = 0
object_or_null (some text) = text.object

-- The package for the socket thread, high or low.
abbrev pub bundle : Sendbuffer → Bool → RequestSend
bundle b low =
    let (text, sz) = clone_buffer b.type b.buffer b.sz in
    record { id = b.id; sz = sz; object = object_or_null text; low = low }

-- What `Send` leaves when the kernel took n bytes: nothing, or the buffer for the thread of the sockets.
unfoldable pub after_direct : Server → Sendbuffer → ℕ → Run (ℕ × Server)
after_direct s b n =
    let sock = stat_write_of (socket_of s b.id) n s.kernel.time in
    let clone = clone_buffer b.type b.buffer b.sz in
    let kept = record sock { dw_buffer = clone.0; dw_size = clone.1; dw_offset = n % 2 ^ 32 } in
    let handed : Run (ℕ × Server) =
      submit (put s b.id kept) (write_request b.id) >>= λ u. ok (0, u) in
    if n == b.sz then ok (0, put s b.id sock) else handed

-- The kernel took n bytes of the buffer, and has the answers left.
abbrev pub transmitted : Server → Sendbuffer → ℕ → List Answer → Server
transmitted s b n rs = record s {
  kernel = record s.kernel { answers = rs; sent = s.kernel.sent ++ range b.buffer.object n };
}

-- The direct write of `Send`, once the lock is held.
unfoldable pub send_direct : Server → Sendbuffer → Run (ℕ × Server)
send_direct s b =
    let sock = socket_of s b.id in
    let written : Run (ℕ × Server) = taken_at_once s.kernel.answers b.sz >>= λ t.
    after_direct (transmitted s b (count t.0) t.1) b (count t.0) in
    let unset = record s { kernel = call s.kernel log_error } in
    let datagram : Run (ℕ × Server) = get_address sock.p >>= λ a.
    let to = udp_socket_address sock a in
    let called = record s { kernel = call s.kernel (sendto sock.fd to.1) } in
    let sent : Run (ℕ × Server) = taken_at_once s.kernel.answers b.sz >>= λ t.
    after_direct (transmitted called b (count t.0) t.1) b (count t.0) in
    if to.0 == 0 then ok (ignored, unset) else sent in
    if is_tcp sock.protocol then written else datagram

-- The request of a thread that can not write at once.
unfoldable pub send_later : Server → Sendbuffer → Bool → Run (ℕ × Server)
send_later s b low = inc_sending_ref (socket_of s b.id) b.id >>= λ sock.
    submit (put s b.id sock) (send_request (bundle b low)) >>= λ u. ok (0, u)

-- `SocketServer::Send`
unfoldable pub send : Server → Sendbuffer → Run (ℕ × Server)
send s b =
    let sock = socket_of s b.id in
    let direct = send_direct s b in
    let later = send_later s b false in
    if socket_invalid sock b.id || sock.closing
    then ok (ignored, s)
    else if can_direct_write sock b.id && not sock.dw_locked
    then direct
    else later

-- `SocketServer::SendLowpriority`
unfoldable pub send_low_priority : Server → Sendbuffer → Run (ℕ × Server)
send_low_priority s b =
    let later = send_later s b true in
    if socket_invalid (socket_of s b.id) b.id then ok (ignored, s) else later

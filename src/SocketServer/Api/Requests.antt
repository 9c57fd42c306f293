-- ===== src/SocketServer/Api/Requests.antt =====
-- The requests of other threads in skynet-src/socket_server.cpp that start a socket, change it or end it. What
-- `getaddrinfo`, `socket`, `setsockopt`, `bind` and `listen` answer is an argument.
use skynet_cpp.Prelude.{
  ℕ, ◌+◌, ◌%◌, ◌^◌, ◌==◌, leb, if◌then◌else◌, Bool, true, false, not, ◌||◌, ◌&&◌, Option, none,
  some, List, ◌∷◌, ◌++◌, length, get_or, take,
}
use skynet_cpp.Prelude.Run.{Run, ok, ◌>>=◌}
use skynet_cpp.SocketServer.{Kernel, close, nonblocking, log_error, sendto, call, ignored}
use skynet_cpp.SocketServer.Ids.{socket_invalid, reserve_id}
use skynet_cpp.SocketServer.Sending.{range, udp_socket_address}
use skynet_cpp.SocketServer.Ctrl.{
  Request, resume_request, pause_request, bind_request, listen_request, close_request, open_request,
  exit_request, send_udp_request, set_udp_request, set_opt_request, udp_request,
}
use skynet_cpp.SocketServer.Api.{
  Server, Sendbuffer, submit, socket_of, put, can_direct_write, taken_at_once, stat_write_of,
  bundle,
}

-- `SocketServer::Exit`, `Close`, `Shutdown`, `Start`, `Pause` and `Nodelay`; 1 is TCP_NODELAY.
abbrev pub exit : Server → Run Server
exit s = submit s exit_request

abbrev pub close_socket_of : Server → ℕ → Run Server
close_socket_of s id = submit s (close_request id false)

abbrev pub shutdown : Server → ℕ → Run Server
shutdown s id = submit s (close_request id true)

abbrev pub start : Server → ℕ → ℕ → Run Server
start s opaque id = submit s (resume_request id opaque)

abbrev pub pause : Server → ℕ → Run Server
pause s id = submit s (pause_request id)

abbrev pub no_delay : Server → ℕ → Run Server
no_delay s id = submit s (set_opt_request id 1 1)

-- The server after `ReserveId`, with the id; `lost` is how many exchanges fail.
abbrev pub reserve_slot : ℕ → Server → ℕ × Server
reserve_slot lost s =
    let (id, alloc, slot) = reserve_id lost s.alloc_id s.slot in
    (id, record s { alloc_id = alloc; slot = slot })

-- `id < 0`
abbrev pub negative : ℕ → Bool
negative id = leb (2 ^ 31) id

-- A request for a new socket, if there is an id; `refused` is the kernel where there is none.
unfoldable pub with_id : ℕ → Server → (ℕ → Request) → Kernel → Run (ℕ × Server)
with_id lost s request refused =
    let (id, reserved) = reserve_slot lost s in
    let asked : Run (ℕ × Server) = submit reserved (request id) >>= λ u. ok (id, u) in
    if negative id then ok (ignored, record reserved { kernel = refused }) else asked

-- `SocketServer::Connect` with `OpenRequest`; a `RequestOpen` has 24 bytes.
unfoldable pub connect : ℕ → Server → ℕ → List ℕ → ℕ → Run (ℕ × Server)
connect lost s opaque addr port =
    let asked = with_id lost s (λ id. open_request id opaque addr port) s.kernel in
    if leb 256 (length addr + 24)
    then ok (ignored, record s { kernel = call s.kernel log_error })
    else asked

-- `SocketServer::Bind`
unfoldable pub bind : ℕ → Server → ℕ → ℕ → Run (ℕ × Server)
bind lost s opaque fd = with_id lost s (λ id. bind_request id fd opaque) s.kernel

-- What the system says to `DoBind`: whether the family of the address is AF_INET6, if it is found, then the
-- descriptor, and whether it takes the option and the address.
pub record BindAnswers : Type 0 where
  pub family : Option Bool
  pub descriptor : Option ℕ
  pub reuse : Bool
  pub bound : Bool

-- `DoBind`: the descriptor and the family
unfoldable pub do_bind : BindAnswers → Kernel → Option (ℕ × Bool) × Kernel
do_bind a k = elim a.family [
  | none ↦ (none, k)
  | some v6 ↦ elim a.descriptor as (λ d. Option (ℕ × Bool) × Kernel) [
    | none ↦ (none, k)
    | some fd ↦ if a.reuse && a.bound then (some (fd, v6), k) else (none, call k (close fd))
  ]
]

-- `DoListen`
unfoldable pub do_listen : BindAnswers → Bool → Kernel → Option ℕ × Kernel
do_listen a listens k =
    let b = do_bind a k in
    elim b.0 as (λ o. Option ℕ × Kernel) [
      | none ↦ (none, b.1)
      | some (fd, v6) ↦ if listens then (some fd, b.1) else (none, call b.1 (close fd))
    ]

-- `SocketServer::Listen`
unfoldable pub listen : ℕ → BindAnswers → Bool → Server → ℕ → Run (ℕ × Server)
listen lost a listens s opaque =
    let l = do_listen a listens s.kernel in
    let bound = record s { kernel = l.1 } in
    elim l.0 as (λ o. Run (ℕ × Server)) [
      | none ↦ ok (ignored, bound)
      | some fd ↦
          with_id lost bound (λ id. listen_request id fd opaque) (call bound.kernel (close fd))
    ]

-- `SocketServer::UDP`; `named` is whether there is an address or a port, and `plain` is the descriptor of a
-- socket without them.
unfoldable pub udp_socket : ℕ → Bool → BindAnswers → Option ℕ → Server → ℕ → Run (ℕ × Server)
udp_socket lost named a plain s opaque =
    let b = do_bind a s.kernel in
    let go = λ (fd : ℕ) (v6 : Bool) (k : Kernel).
      (let k' = call k (nonblocking fd) in
        with_id lost (record s { kernel = k' }) (λ id. udp_request id fd v6 opaque)
          (call k' (close fd))) in
    let from_name = elim b.0 as (λ o. Run (ℕ × Server)) [
      | none ↦ ok (ignored, record s { kernel = b.1 })
      | some (fd, v6) ↦ go fd v6 b.1
    ] in
    let from_plain = elim plain as (λ o. Run (ℕ × Server)) [
      | none ↦ ok (ignored, s)
      | some fd ↦ go fd false s.kernel
    ] in
    if named then from_name else from_plain

-- The bytes of an address of this type, 0 for a type that is none.
abbrev pub address_size : ℕ → ℕ
address_size ty = if ty == 1 then 7 else if ty == 2 then 19 else 0

-- `SocketServer::UDPSend`; a write at once that fails is left to the thread of the sockets.
unfoldable pub udp_send : Server → List ℕ → Sendbuffer → Run (ℕ × Server)
udp_send s address b =
    let sock = socket_of s b.id in
    let size = address_size (get_or address 0 0) in
    let to = udp_socket_address sock address in
    let later = λ (u : Server).
      submit u (send_udp_request (bundle b false) (take size address)) >>= λ v.
      (let r : Run (ℕ × Server) = ok (0, v) in r) in
    let direct : Run (ℕ × Server) = taken_at_once s.kernel.answers b.sz >>= λ t.
    let called = record s {
      kernel = record (call s.kernel (sendto sock.fd to.1)) { answers = t.1 };
    } in
    let sent = λ (n : ℕ). record called {
      kernel = record called.kernel { sent = s.kernel.sent ++ range b.buffer.object n };
    } in
    elim t.0 as (λ o. Run (ℕ × Server)) [
      | none ↦ later called
      | some n ↦ ok (0, put (sent n) b.id (stat_write_of sock n s.kernel.time))
    ] in
    if socket_invalid sock b.id || size == 0
    then ok (ignored, s)
    else if can_direct_write sock b.id && not sock.dw_locked
    then (if to.0 == 0 then ok (ignored, s) else direct)
    else later s

-- `SocketServer::UDPConnect`, once it has the lock; `found` is the type of the address that `getaddrinfo` found,
-- 0 if it is of another family, with its port and host.
unfoldable pub udp_connect : Option (ℕ × List ℕ) → Server → ℕ → Run (ℕ × Server)
udp_connect found s id =
    let sock = socket_of s id in
    let counted = put s id (record sock { udpconnecting = (sock.udpconnecting + 1) % 2 ^ 32 }) in
    let asked = elim found as (λ f. Run (ℕ × Server)) [
      | none ↦ ok (ignored, counted)
      | some (ty, host) ↦
          if address_size ty == 0
          then ok (ignored, counted)
          else submit counted (set_udp_request id (ty ∷ host)) >>= λ u. ok (0, u)
    ] in
    if socket_invalid sock id then ok (ignored, s) else asked

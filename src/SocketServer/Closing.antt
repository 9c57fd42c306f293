-- ===== src/SocketServer/Closing.antt =====
-- The start and the end of a socket in skynet-src/socket_server.cpp: `NewFd`, the switches of its events, and
-- the ways to close it. `null_text` is what a `std::string` does when it is assigned a null pointer, which the
-- language leaves open, and `strerror` the text of the last error. A lock that another thread holds is waited
-- for, so that these functions run when they have it.
use skynet_cpp.Prelude.{
  ℕ, ◌*◌, ◌/◌, ◌%◌, ◌^◌, ◌==◌, if◌then◌else◌, Bool, true, false, not, ◌&&◌, ◌||◌, Option, none,
  some, List, [], ◌∷◌,
}
use skynet_cpp.Prelude.Run.{Run, ok, assert, ◌>>=◌, ◌>>◌}
use skynet_cpp.SocketServer.{
  Socket, Protocol, WriteBuffer, read_size, Data, bytes, SocketMessage, Kernel, Turn, epoll_mod,
  epoll_add, epoll_del, shutdown_read, shutdown_write, close, call, epoll_ctl, ignored,
  socket_close, socket_err, socket_rst, type_invalid, type_reserve, type_half_close_read,
  type_half_close_write, type_bind, min_read_buffer,
}
use skynet_cpp.SocketServer.Ids.{socket_invalid}

abbrev pub is_empty : List WriteBuffer → Bool
is_empty [] = true
is_empty (b ∷ bs) = false

abbrev pub is_none {ℓ} : {A : Type ℓ} → Option A → Bool
is_none none = true
is_none (some a) = false

abbrev pub same_bool : Bool → Bool → Bool
same_bool true b = b
same_bool false b = not b

-- `ID_TAG16`
abbrev pub id_tag16 : ℕ → ℕ
id_tag16 id = id / 2 ^ 16 % 2 ^ 16

-- The message of a socket, as most handlers fill it.
abbrev pub about : Socket → Data → SocketMessage
about s d = record { id = s.id; opaque = s.opaque; ud = 0; data_text = d }

abbrev pub enable_write : Turn → Bool → Bool × Turn
enable_write t on =
    if same_bool t.socket.writing on
    then (false, t)
    else (let (write_failed, k) = epoll_ctl t.kernel (epoll_mod t.socket.fd t.socket.reading on) in
        (write_failed, record t { kernel = k; socket = record t.socket { writing = on } }))

abbrev pub enable_read : Turn → Bool → Bool × Turn
enable_read t on =
    if same_bool t.socket.reading on
    then (false, t)
    else (let (write_failed, k) = epoll_ctl t.kernel (epoll_mod t.socket.fd on t.socket.writing) in
        (write_failed, record t { kernel = k; socket = record t.socket { reading = on } }))

abbrev pub report_error : Turn → Data → ℕ × Turn
report_error t d = (socket_err, record t { message = about t.socket d })

-- `CheckWriteBufferList`
abbrev pub check_write_buffer_list : List WriteBuffer → Run (Unit {0})
check_write_buffer_list bs = assert (is_empty bs)

abbrev pub opened : Socket → ℕ → ℕ → Protocol → ℕ → Socket
opened s id fd protocol opaque = record s {
  id = id;
  fd = fd;
  reading = true;
  writing = false;
  closing = false;
  sending = id_tag16 id * 2 ^ 16;
  protocol = protocol;
  p = read_size min_read_buffer;
  opaque = opaque;
  wb_size = 0;
  warn_size = 0;
  dw_buffer = none;
  dw_size = 0;
  received = 0;
  rtime = 0;
  written = 0;
  wtime = 0;
}

-- `NewFd` on the slot of the id: `true` if there is a socket.
unfoldable pub new_fd : Turn → ℕ → ℕ → Protocol → ℕ → Bool → Run (Bool × Turn)
new_fd t id fd protocol opaque reading =
    let (write_failed, k) = epoll_ctl t.kernel (epoll_add fd) in
    let fresh = record t { kernel = k; socket = opened t.socket id fd protocol opaque } in
    let (no_read, done) = enable_read fresh reading in
    let checked : Run (Bool × Turn) =
      check_write_buffer_list t.socket.high
      >> check_write_buffer_list t.socket.low
      >> (if no_read
          then ok (false, record done { socket = record done.socket { type = type_invalid } })
          else ok (true, done)) in
    assert (t.socket.type == type_reserve)
    >> (if write_failed
        then ok (false, record t { kernel = k; socket = record t.socket { type = type_invalid } })
        else checked)

abbrev pub closed : Socket → Socket
closed s = record s { high = []; low = []; type = type_invalid; dw_buffer = none }

-- The calls of `ForceClose`.
abbrev pub closing_calls : Kernel → Socket → Kernel
closing_calls k s =
    let k' = call k (epoll_del s.fd) in if s.type == type_bind then k' else call k' (close s.fd)

-- `NomoreSendingData`
abbrev pub nomore_sending_data : Socket → Bool
nomore_sending_data s =
    (is_empty s.high && is_empty s.low && is_none s.dw_buffer && s.sending % 2 ^ 16 == 0)
    || s.type == type_half_close_write

abbrev pub halfclose_read : Socket → Bool
halfclose_read s = s.type == type_half_close_read

module _ (null_text : Run Data) where
  unfoldable pub force_close : Turn → Run Turn
  force_close t = null_text >>= λ d.
      let shut : Run Turn =
        assert (not (t.socket.type == type_reserve))
        >> ok (record {
          kernel = closing_calls t.kernel t.socket;
          socket = closed t.socket;
          message = about t.socket d;
        }) in
      if t.socket.type == type_invalid then ok (record t { message = about t.socket d }) else shut

  unfoldable pub close_write : List ℕ → Turn → Run (ℕ × Turn)
  close_write strerror t =
      let forced : Run (ℕ × Turn) = force_close t >>= λ u. ok (socket_rst, u) in
      let half = record t {
        kernel = call t.kernel (shutdown_write t.socket.fd);
        socket = record t.socket { type = type_half_close_write };
      } in
      if t.socket.closing
      then forced
      else if t.socket.type == type_half_close_read
      then forced
      else if t.socket.type == type_half_close_write
      then ok (socket_rst, t)
      else ok (report_error (enable_write half false).1 (bytes strerror))

  unfoldable pub close_read : Turn → Run Turn
  close_read t =
      let u =
        (enable_read (record t { socket = record t.socket { type = type_half_close_read } })
          false).1 in
      null_text >>= λ d.
      ok (record u {
        kernel = call u.kernel (shutdown_read u.socket.fd);
        message = about u.socket d;
      })

  -- `CloseSocket` on the slot of the id; `at_once` is `request_close.shutdown`.
  unfoldable pub close_socket : ℕ → Bool → Turn → Run (ℕ × Turn)
  close_socket id at_once t =
      let now : Run (ℕ × Turn) =
        force_close t >>= λ u. ok (if halfclose_read t.socket then ignored else socket_close, u) in
      let waiting = record t { socket = record t.socket { closing = true } } in
      let half : Run (ℕ × Turn) = close_read waiting >>= λ u. ok (socket_close, u) in
      if socket_invalid t.socket id
      then ok (ignored, t)
      else if at_once || nomore_sending_data t.socket
      then now
      else if halfclose_read t.socket
      then ok (ignored, waiting)
      else half

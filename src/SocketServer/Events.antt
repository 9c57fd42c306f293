-- ===== src/SocketServer/Events.antt =====
-- The events of a socket in skynet-src/socket_server.cpp: `ForwardMessageTCP`, `ForwardMessageUDP`,
-- `ReportConnect`, and what `Poll` does for a socket that is open. `wild` is what the use of a pointer does that
-- was given no value, which the language leaves open.
use skynet_cpp.Prelude.{
  ℕ, ◌*◌, ◌/◌, ◌%◌, ◌^◌, ◌==◌, ltb, min, if◌then◌else◌, Bool, false, not, ◌&&◌, Option, none, some,
  List,
}
use skynet_cpp.Prelude.Run.{Run, ok, fault, uncaught_exception, ◌>>=◌, ◌>>◌}
use skynet_cpp.SocketServer.{
  protocol_code, is_tcp, Payload, read_size, udp_address, Data, bytes, disable_write_failed, Turn,
  ignored, socket_data, socket_close, socket_open, socket_err, socket_udp, socket_more,
  type_connected, type_half_close_read, type_half_close_write, min_read_buffer,
}
use skynet_cpp.SocketServer.Closing.{
  about, enable_write, report_error, force_close, close_read, nomore_sending_data, halfclose_read,
}
use skynet_cpp.SocketServer.Sending.{plus64, send_buffer}
use skynet_cpp.SocketServer.Control.{set_type, answer}

-- What `read` or `recvfrom` answers: nothing for now, an error, or bytes, with whether the address behind a
-- datagram is of version 4.
pub data Received : Type 0 where
  nothing_yet : Received
  broken : Received
  got : Bool → List ℕ → ℕ → Received

-- `StatRead`
abbrev pub stat_read : Turn → ℕ → Turn
stat_read t n = record t {
  socket = record t.socket { received = plus64 t.socket.received n; rtime = t.kernel.time };
}

-- `std::get<int>`
abbrev pub get_size : Payload → Run ℕ
get_size (read_size n) = ok n
get_size (udp_address a) = fault uncaught_exception

abbrev pub message_of : Turn → ℕ → List ℕ → Turn
message_of t n data_bytes = answer t.socket.id t.socket.opaque n (bytes data_bytes) t

abbrev pub put_size : Turn → ℕ → Turn
put_size t n = record t { socket = record t.socket { p = read_size n } }

-- What `epoll_wait` says of a socket.
pub record Ready : Type 0 where
  pub read : Bool
  pub write : Bool
  pub error : Bool
  pub eof : Bool

module _ (null_text : Run Data) (wild : Run (Unit {0})) (strerror : List ℕ) where
  -- The other side has closed the connection.
  unfoldable pub end_of_file : Turn → Run (ℕ × Turn)
  end_of_file t =
      let last : Run (ℕ × Turn) = force_close null_text t >>= λ u. ok (ignored, u) in
      let shut : Run (ℕ × Turn) = force_close null_text t >>= λ u. ok (socket_close, u) in
      let half : Run (ℕ × Turn) = close_read null_text t >>= λ u. ok (socket_close, u) in
      if t.socket.closing
      then (if nomore_sending_data t.socket then last else ok (ignored, t))
      else if t.socket.type == type_half_close_read
      then ok (ignored, t)
      else if t.socket.type == type_half_close_write
      then shut
      else half

  -- n bytes came for a buffer of sz, and n is not 0.
  unfoldable pub take_in : ℕ → ℕ → List ℕ → Turn → ℕ × Turn
  take_in sz n data_bytes t =
      let u = message_of (stat_read t n) n data_bytes in
      if halfclose_read t.socket
      then (ignored, t)
      else if n == sz
      then (socket_more, put_size u (sz * 2 % 2 ^ 32))
      else if ltb min_read_buffer sz && ltb (n * 2) sz
      then (socket_data, put_size u (sz / 2))
      else (socket_data, u)

  -- What `ForwardMessageTCP` does with the answer of `read` for sz bytes.
  unfoldable pub received_tcp : Received → ℕ → Turn → Run (ℕ × Turn)
  received_tcp nothing_yet sz t = ok (ignored, t)
  received_tcp broken sz t = ok (report_error t (bytes strerror))
  received_tcp (got v4 data_bytes n) sz t =
      let taken : Run (ℕ × Turn) = ok (take_in sz (min n sz) data_bytes t) in
      if min n sz == 0 then end_of_file t else taken

  -- `ForwardMessageTCP`
  unfoldable pub forward_message_tcp : Received → Turn → Run (ℕ × Turn)
  forward_message_tcp received t = get_size t.socket.p >>= λ sz. wild >> received_tcp received sz t

  -- `ForwardMessageUDP`; the pointer is used once the address fits.
  unfoldable pub forward_message_udp : Received → Turn → Run (ℕ × Turn)
  forward_message_udp nothing_yet t = ok (ignored, t)
  forward_message_udp broken t = force_close null_text t >>= λ u.
      ok (socket_err, record u { message = record u.message { data_text = bytes strerror } })
  forward_message_udp (got v4 data_bytes n) t =
      let u = stat_read t n in
      let delivered : Run (ℕ × Turn) = wild >> ok (socket_udp, message_of u n data_bytes) in
      if protocol_code t.socket.protocol == (if v4 then 1 else 2)
      then delivered
      else ok (ignored, u)

  -- The message of a socket that is connected.
  unfoldable pub named : Option (List ℕ) → Turn → Run (ℕ × Turn)
  named (some host) t = ok (socket_open, record t { message = about t.socket (bytes host) })
  named none t = null_text >>= λ d. ok (socket_open, record t { message = about t.socket d })

  -- `ReportConnect`; `error` is what `getsockopt` or the socket says, `peer` the address of the other side.
  unfoldable pub report_connect : Option (List ℕ) → Option (List ℕ) → Turn → Run (ℕ × Turn)
  report_connect (some error) peer t = force_close null_text t >>= λ u.
      ok (socket_err, record u { message = record u.message { data_text = bytes error } })
  report_connect none peer t =
      let u = set_type type_connected t in
      let (refusal, quiet) = enable_write u false in
      let lost : Run (ℕ × Turn) = force_close null_text quiet >>= λ v.
      ok (
        socket_err,
        record v { message = record v.message { data_text = disable_write_failed } },
      ) in
      if nomore_sending_data u.socket
      then (if refusal then lost else named peer quiet)
      else named peer u

  -- What is left of the event of a socket that was read.
  abbrev pub after_read : Ready → ℕ → Option Ready
  after_read ready ret =
      if ready.write && not (ret == socket_close) && not (ret == socket_err)
      then some (record ready { read = false })
      else none

  -- The results of the two ways to read, each with the one that asks to read again.
  unfoldable pub read_event : Ready → Received → Turn → Run (ℕ × Option Ready × Turn)
  read_event ready received t =
      let stream : Run (ℕ × Option Ready × Turn) = forward_message_tcp received t >>= λ r.
      if r.0 == socket_more
      then ok (socket_data, some ready, r.1)
      else ok (r.0, after_read ready r.0, r.1) in
      let datagrams : Run (ℕ × Option Ready × Turn) = forward_message_udp received t >>= λ r.
      if r.0 == socket_udp
      then ok (socket_udp, some ready, r.1)
      else ok (r.0, after_read ready r.0, r.1) in
      if is_tcp t.socket.protocol then stream else datagrams

  -- The default case of `Poll`: the result, -1 where the loop goes on, and the event if it stays.
  unfoldable pub serve_event :
      List ℕ → Ready → Received → List ℕ → Turn → Run (ℕ × Option Ready × Turn)
  serve_event behind ready received error t =
      let reading = read_event ready received t in
      let writing : Run (ℕ × Option Ready × Turn) =
        send_buffer null_text strerror behind t >>= λ r. ok (r.0, none, r.1) in
      let hung_up : Run (ℕ × Option Ready × Turn) = force_close null_text t >>= λ u.
      ok (if halfclose_read t.socket then ignored else socket_close, none, u) in
      if ready.read
      then reading
      else if ready.write
      then writing
      else if ready.error
      then ok (socket_err, none, (report_error t (bytes error)).1)
      else if ready.eof
      then hung_up
      else ok (ignored, none, t)

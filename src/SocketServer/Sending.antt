-- ===== src/SocketServer/Sending.antt =====
-- What the thread of the sockets writes, in skynet-src/socket_server.cpp: `SendListTCP`, `SendListUDP`,
-- `SendBuffer_` and `SendBuffer`, for the two lists of a socket. Every call of `write` or `sendto` uses up one
-- answer of the kernel. `behind` is the memory behind a new `WriteBuffer`.
pub mod Stream
pub mod Writes
pub mod Order
use skynet_cpp.Prelude.{
  ℕ, zero, suc, ◌+◌, ◌-◌, ◌%◌, ◌^◌, ◌==◌, ltb, min, if◌then◌else◌, Bool, true, false, not, ◌&&◌,
  Option, none, some, List, [], ◌∷◌, ◌++◌, get_or, take, drop,
}
use skynet_cpp.Prelude.Run.{Run, ok, fault, null_pointer, no_fuel, assert, ◌>>=◌, ◌>>◌}
use skynet_cpp.SocketServer.{
  Socket, Text, WriteBuffer, Protocol, tcp, udp, udp_v6, unknown, protocol_code, is_tcp, Data,
  disable_write_failed, SocketMessage, Answer, took, interrupted, again, write_failed, Kernel, Turn,
  sendto, call, ignored, socket_err, socket_warning,
}
use skynet_cpp.SocketServer.Closing.{
  is_empty, about, enable_write, report_error, force_close, close_write,
}

-- `+=` and `-=` of an `int64_t`
abbrev pub plus64 : ℕ → ℕ → ℕ
plus64 a b = (a + b) % 2 ^ 64

abbrev pub minus64 : ℕ → ℕ → ℕ
minus64 a b = (a + (2 ^ 64 - b % 2 ^ 64)) % 2 ^ 64

-- an `int` as a 64-bit number
abbrev pub extend : ℕ → ℕ
extend n = if ltb n (2 ^ 31) then n else n + (2 ^ 64 - 2 ^ 32)

-- the addresses of n bytes from p on
abbrev pub range : ℕ → ℕ → List ℕ
range p zero = []
range p (suc n) = p ∷ range (suc p) n

-- Which list of a socket: `PRIORITY_HIGH` or `PRIORITY_LOW`.
pub data Lane : Type 0 where
  high_lane : Lane
  low_lane : Lane

abbrev pub lane : Lane → Socket → List WriteBuffer
lane high_lane s = s.high
lane low_lane s = s.low

abbrev pub put_lane : Lane → List WriteBuffer → Turn → Turn
put_lane high_lane bs t = record t { socket = record t.socket { high = bs } }
put_lane low_lane bs t = record t { socket = record t.socket { low = bs } }

-- `StatWrite`
abbrev pub stat_write : Turn → ℕ → Turn
stat_write t n = record t {
  socket = record t.socket { written = plus64 t.socket.written n; wtime = t.kernel.time };
}

abbrev pub answers_left : Turn → List Answer → Turn
answers_left t rs = record t { kernel = record t.kernel { answers = rs } }

-- The kernel took n bytes of the buffer.
abbrev pub transmit : Turn → WriteBuffer → ℕ → Turn
transmit t b n = record t { kernel = record t.kernel { sent = t.kernel.sent ++ range b.ptr n } }

-- `wb_size -= n`
abbrev pub account : Turn → ℕ → Turn
account t n = record t { socket = record t.socket { wb_size = minus64 t.socket.wb_size n } }

abbrev pub advance : WriteBuffer → ℕ → WriteBuffer
advance b n = record b { ptr = b.ptr + n; sz = b.sz - n }

-- `UDPSocketAddress`: the size of the address, 0 if it does not fit the socket, and its port and host.
abbrev pub udp_parts : Protocol → List ℕ → ℕ × List ℕ
udp_parts tcp a = (0, [])
udp_parts udp a = (16, take 6 (drop 1 a))
udp_parts udp_v6 a = (28, take 18 (drop 1 a))
udp_parts unknown a = (0, [])

abbrev pub udp_socket_address : Socket → List ℕ → ℕ × List ℕ
udp_socket_address s a =
    if get_or a 0 0 == protocol_code s.protocol then udp_parts s.protocol a else (0, [])

-- `ListUncomplete`
abbrev pub list_uncomplete : List WriteBuffer → Bool
list_uncomplete [] = false
list_uncomplete (b ∷ bs) = not (b.ptr == b.buffer.chars)

-- `RaiseUncomplete`
unfoldable pub raise_uncomplete : Turn → List WriteBuffer → Run Turn
raise_uncomplete t [] = fault null_pointer
raise_uncomplete t (b ∷ bs) =
    assert (is_empty t.socket.high)
    >> ok (record t { socket = record t.socket { high = b ∷ []; low = bs } })

-- `DropUDP`, with what the list holds behind the buffer
abbrev pub drop_udp : Lane → Turn → WriteBuffer → List WriteBuffer → Turn
drop_udp l t b bs = put_lane l bs (account t b.sz)

-- `SendBufferEmpty`
abbrev pub send_buffer_empty : Socket → Bool
send_buffer_empty s = is_empty s.high && is_empty s.low

-- The rest of a direct write goes to the front of the high list.
abbrev pub direct_first : List ℕ → Turn → Turn
direct_first behind t = elim t.socket.dw_buffer [
  | none ↦ t
  | some text ↦
      let offset = extend t.socket.dw_offset in
      let left = minus64 t.socket.dw_size offset in
      let b : WriteBuffer = record {
        buffer = text;
        ptr = plus64 text.object offset;
        sz = left;
        behind = behind;
      } in
      record t {
        socket = record t.socket {
          wb_size = plus64 t.socket.wb_size left;
          high = b ∷ t.socket.high;
          dw_buffer = none;
        };
      }
]

-- `warn_size > 0`
abbrev pub positive : ℕ → Bool
positive n = ltb 0 n && ltb n (2 ^ 63)

-- The address behind a buffer does not fit the socket.
abbrev pub unfit : Turn → WriteBuffer → Bool
unfit t b = (udp_socket_address t.socket b.behind).0 == 0

-- the call of `sendto`
abbrev pub datagram : Turn → WriteBuffer → Turn
datagram t b = record t {
  kernel = call t.kernel (sendto t.socket.fd (udp_socket_address t.socket b.behind).1);
}

-- What a list that was not sent to its end returns.
abbrev pub stopped : ℕ → ℕ
stopped ret = if ret == socket_err then socket_err else ignored

module _ (null_text : Run Data) (strerror : List ℕ) where
  -- `SendListTCP` on what the list holds
  unfoldable pub send_list_tcp : Lane → List Answer → Turn → List WriteBuffer → Run (ℕ × Turn)
  send_list_tcp l rs t [] = ok (ignored, put_lane l [] (answers_left t rs))
  send_list_tcp l [] t (b ∷ bs) = fault no_fuel
  send_list_tcp l (interrupted ∷ rs) t (b ∷ bs) = send_list_tcp l rs t (b ∷ bs)
  send_list_tcp l (again ∷ rs) t (b ∷ bs) = ok (ignored, put_lane l (b ∷ bs) (answers_left t rs))
  send_list_tcp l (write_failed ∷ rs) t (b ∷ bs) =
      close_write null_text strerror (put_lane l (b ∷ bs) (answers_left t rs))
  send_list_tcp l (took n ∷ rs) t (b ∷ bs) =
      let size = min n b.sz in
      let u = account (stat_write (transmit t b size) size) size in
      let rest = send_list_tcp l rs u bs in
      if size == b.sz
      then rest
      else ok (ignored, put_lane l (advance b size ∷ bs) (answers_left u rs))

  -- `SendListUDP` on what the list holds; a buffer whose address does not fit uses no answer.
  unfoldable pub send_list_udp : Lane → List Answer → Turn → List WriteBuffer → Run (ℕ × Turn)
  send_list_udp l rs t [] = ok (ignored, put_lane l [] (answers_left t rs))
  send_list_udp l [] t (b ∷ bs) =
      if unfit t b then ok (ignored, drop_udp l (answers_left t []) b bs) else fault no_fuel
  send_list_udp l (took n ∷ rs) t (b ∷ bs) =
      let u = account (stat_write (transmit (datagram t b) b (min n b.sz)) b.sz) b.sz in
      let rest = send_list_udp l rs u bs in
      if unfit t b then ok (ignored, drop_udp l (answers_left t (took n ∷ rs)) b bs) else rest
  send_list_udp l (write_failed ∷ rs) t (b ∷ bs) =
      if unfit t b
      then ok (ignored, drop_udp l (answers_left t (write_failed ∷ rs)) b bs)
      else ok (ignored, drop_udp l (answers_left (datagram t b) rs) b bs)
  send_list_udp l (interrupted ∷ rs) t (b ∷ bs) =
      if unfit t b
      then ok (ignored, drop_udp l (answers_left t (interrupted ∷ rs)) b bs)
      else ok (ignored, put_lane l (b ∷ bs) (answers_left (datagram t b) rs))
  send_list_udp l (again ∷ rs) t (b ∷ bs) =
      if unfit t b
      then ok (ignored, drop_udp l (answers_left t (again ∷ rs)) b bs)
      else ok (ignored, put_lane l (b ∷ bs) (answers_left (datagram t b) rs))

  -- `SendList`
  unfoldable pub send_list : Lane → Turn → Run (ℕ × Turn)
  send_list l t =
      if is_tcp t.socket.protocol
      then send_list_tcp l t.kernel.answers t (lane l t.socket)
      else send_list_udp l t.kernel.answers t (lane l t.socket)

  -- Step 4 of `SendBuffer_`.
  unfoldable pub drained : Turn → Run (ℕ × Turn)
  drained t =
      let closed_now : Run (ℕ × Turn) = force_close null_text t >>= λ u. ok (ignored, u) in
      let quiet = enable_write t false in
      let s = quiet.1.socket in
      let warned : Run (ℕ × Turn) = null_text >>= λ d. ok (
        socket_warning,
        record quiet.1 { socket = record s { warn_size = 0 }; message = about s d },
      ) in
      assert (send_buffer_empty t.socket && t.socket.wb_size == 0)
      >> (if t.socket.closing
          then closed_now
          else if quiet.0
          then ok (report_error quiet.1 disable_write_failed)
          else if positive s.warn_size
          then warned
          else ok (ignored, quiet.1))

  -- Steps 3 and 4.
  unfoldable pub after_low : ℕ → Turn → Run (ℕ × Turn)
  after_low ret t =
      let raised : Run (ℕ × Turn) = raise_uncomplete t t.socket.low >>= λ u. ok (ignored, u) in
      if not (ret == ignored)
      then ok (stopped ret, t)
      else if list_uncomplete t.socket.low
      then raised
      else if is_empty t.socket.low
      then drained t
      else ok (ignored, t)

  -- Steps 2 to 4.
  unfoldable pub after_high : ℕ → Turn → Run (ℕ × Turn)
  after_high ret t =
      let low_sent : Run (ℕ × Turn) = send_list low_lane t >>= λ r. after_low r.0 r.1 in
      if not (ret == ignored)
      then ok (stopped ret, t)
      else if not (is_empty t.socket.high)
      then ok (ignored, t)
      else if is_empty t.socket.low
      then drained t
      else low_sent

  -- `SendBuffer_`
  unfoldable pub send_lists : Turn → Run (ℕ × Turn)
  send_lists t =
      assert (not (list_uncomplete t.socket.low))
      >> (send_list high_lane t >>= λ r. after_high r.0 r.1)

  -- `SendBuffer`
  unfoldable pub send_buffer : List ℕ → Turn → Run (ℕ × Turn)
  send_buffer behind t =
      let sent = send_lists (direct_first behind t) in
      if t.socket.dw_locked then ok (ignored, t) else sent

-- ===== src/Harbor/Slave.antt =====
-- The connections to the other nodes in service-src/service_harbor.cpp: messages for a node whose
-- connection does not stand yet wait in a queue, and go out when it does. Calls of other components are
-- a list, in order. A C string without a NUL in its array is a read out of bounds.
pub mod Waiting
use Prim.Native.Nat.{bit_and, bit_or}
use skynet_cpp.Prelude.{
  ℕ, ◌+◌, ◌-◌, ◌*◌, ◌/◌, ◌%◌, ◌^◌, ◌==◌, ltb, if◌then◌else◌, ◌||◌, Bool, true, false, not, Option,
  none, some, List, [], ◌∷◌, ◌++◌, take,
}
use skynet_cpp.Prelude.Run.{Run, ok, fault, out_of_bounds, no_fuel, assert, ◌>>=◌, ◌>>◌}
use skynet_cpp.Harbor.Queue.{Queue, new_queue, push, pop_all}
use skynet_cpp.Harbor.Wire.{Header, header_cookie_length, to_bigendian, header_to_message}

abbrev pub status_wait : ℕ
status_wait = 0

abbrev pub status_handshake : ℕ
status_handshake = 1

abbrev pub status_down : ℕ
status_down = 4

abbrev pub ptype_error : ℕ
ptype_error = 7

abbrev pub ptype_tag_dontcopy : ℕ
ptype_tag_dontcopy = 0x10000

pub record HarborMsg : Type 0 where
  pub header : Header
  pub buffer : List ℕ
  pub size : ℕ

-- a value-initialised element of the vector of a queue
abbrev pub no_message : HarborMsg
no_message = record {
  header = record { source = 0; destination = 0; session = 0 };
  buffer = [];
  size = 0;
}

pub record Slave : Type 0 where
  pub fd : ℕ
  pub queue : Option (Queue HarborMsg)
  pub status : ℕ
  pub length : ℕ
  pub read : ℕ
  pub size : List ℕ
  pub recv_buffer : List ℕ

-- `slave` is the handle of the service that knows the other nodes.
pub record Harbor : Type 0 where
  pub id : ℕ
  pub slave : ℕ
  pub s : ℕ → Slave

-- `ServiceSend` with its source, destination, type, session and bytes; `SocketSendBuffer` with the
-- socket, the text of the buffer and its `sz`; `SocketClose`; `SocketStart`; `SkynetError`;
-- `ServiceCallback`; `HarborStart`
pub data Call : Type 0 where
  service_send : ℕ → ℕ → ℕ → ℕ → List ℕ → Call
  socket_send_buffer : ℕ → List ℕ → ℕ → Call
  socket_close : ℕ → Call
  socket_start : ℕ → Call
  report_error : Call
  service_callback : Call
  harbor_start : Call

abbrev pub put_slave : ℕ → Slave → Harbor → Harbor
put_slave id x h = record h { s = λ i. if i == id then x else h.s i }

-- `std::string(const char *)` over an array
abbrev pub c_string : List ℕ → Option (List ℕ)
c_string [] = none
c_string (b ∷ bs) =
    let rest : Option (List ℕ) = elim (c_string bs) [ none ↦ none | some t ↦ some (b ∷ t) ] in
    if b == 0 then some [] else rest

unfoldable pub send_remote : ℕ → HarborMsg → Run (List Call)
send_remote fd m =
    let sz_header = m.size + header_cookie_length in
    let sendbuf = to_bigendian sz_header ++ take m.size m.buffer ++ header_to_message m.header in
    if ltb (2 ^ 32 - 1) sz_header then ok (report_error ∷ []) else elim (c_string sendbuf) [
      | none ↦ fault out_of_bounds
      | some str ↦ ok (socket_send_buffer fd str (sz_header + 4) ∷ [])
    ]

-- the loop over the popped messages
unfoldable pub send_all : ℕ → List HarborMsg → Run (List Call)
send_all fd [] = ok []
send_all fd (m ∷ ms) = send_remote fd m >>= λ calls. send_all fd ms >>= λ more. ok (calls ++ more)

-- The queue is emptied before the messages are sent; no call of `send_remote` reads it.
unfoldable pub dispatch_queue : Harbor → ℕ → Run (List Call × Harbor)
dispatch_queue h id =
    let s = h.s id in
    assert (not (s.fd == 0)) >> elim s.queue [
      | none ↦ ok ([], h)
      | some queue ↦ elim (pop_all no_message queue.size queue) [
        | none ↦ fault no_fuel
        | some (ms, rest) ↦
            send_all s.fd ms >>= λ calls. ok (calls, put_slave id (record s { queue = none }) h)
      ]
    ]

unfoldable pub close_harbor : Harbor → ℕ → List Call × Harbor
close_harbor h id =
    let s = h.s id in
    (
      if s.fd == 0 then [] else socket_close s.fd ∷ [],
      put_slave id (record s { fd = 0; queue = none; status = status_down }) h,
    )

-- the queue of a slave, or a new one
abbrev pub queue_of : Slave → Queue HarborMsg
queue_of s = elim s.queue [ none ↦ new_queue no_message | some q ↦ q ]

-- the message with the type in the high bits of its destination
abbrev pub remote_message : ℕ → ℕ → ℕ → ℕ → List ℕ → ℕ → HarborMsg
remote_message source destination type session msg sz = record {
  header = record {
    source = source;
    destination = bit_or (type * 2 ^ 24 % 2 ^ 32) (bit_and destination 0xffffff);
    session = session;
  };
  buffer = msg;
  size = sz;
}

-- The result, the calls and the new state.
unfoldable pub remote_send_handle :
    Harbor → ℕ → ℕ → ℕ → ℕ → List ℕ → ℕ → Run (ℕ × List Call × Harbor)
remote_send_handle h source destination type session msg sz =
    let harbor_id = destination / 2 ^ 24 in
    let s = h.s harbor_id in
    let m = remote_message source destination type session msg sz in
    if harbor_id == h.id
    then ok
        (1, service_send source destination (bit_or type ptype_tag_dontcopy) session msg ∷ [], h)
    else if s.fd == 0 || s.status == status_handshake
    then (if s.status == status_down
        then ok (0, service_send destination source ptype_error session [] ∷ [], h)
        else ok (
          1,
          [],
          put_slave harbor_id (record s { queue = some (push no_message (queue_of s) m) }) h,
        ))
    else (send_remote s.fd m >>= λ calls. ok (0, calls, h))

-- ===== src/SocketServer/Api/Handover.antt =====
-- `Send` and then `SendBuffer` of skynet-src/socket_server.cpp: the buffer leaves behind what was sent before,
-- in its order.
use mathlib.Core.Path.{subst}
use skynet_cpp.Prelude.{
  ℕ, ◌≤◌, min, true, ◌≡◌, refl, ap, ap₂, ◌∙◌, ◌⊎◌, inl, inr, Option, none, some, List, [], ◌∷◌,
  ◌++◌, append-nil, arith,
}
use skynet_cpp.Prelude.Run.{Run, ok}
use skynet_cpp.Prelude.Run.Ensures.{Ensures}
use skynet_cpp.SocketServer.{
  Socket, Answer, took, interrupted, again, write_failed, Kernel, Turn, Data, SocketMessage,
  type_connected,
}
use skynet_cpp.SocketServer.Ctrl.{write_request}
use skynet_cpp.SocketServer.Sending.{range, send_buffer}
use skynet_cpp.SocketServer.Sending.Stream.{pending, settled}
use skynet_cpp.SocketServer.Sending.Writes.{NullText}
use skynet_cpp.SocketServer.Sending.Order.{Kept, direct, IsDirect, send_buffer-Kept}
use skynet_cpp.SocketServer.Api.{
  Server, Sendbuffer, socket_of, can_direct_write, taken_at_once, count, transmitted, send_direct,
  send,
}
use skynet_cpp.SocketServer.Api.Direct.{
  stray, delivers, WritesAtOnce, idle-Idle, Quiet, Handed, after_direct-Handed,
}

taken_at_once_lem :
    (a : Answer) (rs : List Answer) (sz : ℕ)
    → (o : Option ℕ) × (taken_at_once (a ∷ rs) sz ≡ ok (o, rs)) × (count o ≤ sz)
taken_at_once_lem (took n) rs sz = (some (min n sz), refl, omega arith)
taken_at_once_lem interrupted rs sz = (none, refl, omega arith)
taken_at_once_lem again rs sz = (none, refl, omega arith)
taken_at_once_lem write_failed rs sz = (none, refl, omega arith)

connected_lem : (k : Socket) (id : ℕ) → can_direct_write k id ≡ true → k.type ≡ type_connected
connected_lem k id h = ground (arith, h)

quiet_lem :
    (s : Server) (b : Sendbuffer)
    → WritesAtOnce s b
    → (socket_of s b.id).wb_size ≡ 0
    → Quiet (socket_of s b.id)
quiet_lem s b w e =
    let k = socket_of s b.id in
    let connected = connected_lem k b.id w.idle in
    record {
      idle = idle-Idle k b.id w.idle;
      counted = e;
      valid = ground (arith, connected);
      opened = ground (arith, connected);
      stream = w.stream;
      free = w.free;
    }

pub send-Handed :
    (s : Server) (b : Sendbuffer) (a : Answer) (rs : List Answer)
    → WritesAtOnce s b
    → (socket_of s b.id).wb_size ≡ 0
    → s.kernel.answers ≡ a ∷ rs
    → delivers rs 26 ≡ true
    → Handed s b (s.kernel.sent ++ range b.buffer.object b.sz) (send s b)
unfolding send send_direct
send-Handed s b a rs w e answers d =
    let (o, taken, few) = taken_at_once_lem a rs b.sz in
    let h =
      after_direct-Handed (transmitted s b (count o) rs) b (count o) s.kernel.sent refl few
        w.in_memory w.size w.place (quiet_lem s b w e) d in
    record {
      after = h.after;
      returns = rw (w.valid, w.stays, w.idle, w.free, w.stream, answers, taken) h.returns;
      outcome = h.outcome;
    }

module _ (null_text : Run Data) (strerror behind : List ℕ) where
  -- The thread of the sockets on what `Send` left.
  rest-Kept :
      (k : Kernel) (socket : Socket) (m : SocketMessage) (stream : List ℕ)
      → k.sent ++ direct socket ≡ stream
      → IsDirect socket
      → Quiet (record socket { dw_buffer = none })
      → 1 ≤ settled k.answers
      → Ensures (NullText null_text) (Kept stream) (
          send_buffer null_text strerror behind
            (record { kernel = k; socket = socket; message = m }))
  rest-Kept k socket m stream e d q h =
      let t : Turn = record { kernel = k; socket = socket; message = m } in
      let no_high : socket.high ≡ [] = q.idle.no_high in
      let no_low : socket.low ≡ [] = q.idle.no_low in
      subst (λ x. Ensures (NullText null_text) (Kept x) (send_buffer null_text strerror behind t))
        (ap₂ (λ x y. k.sent ++ (direct socket ++ (pending x ++ pending y))) no_high no_low
          ∙ ap (λ x. k.sent ++ x) (append-nil (direct socket))
          ∙ e)
        (send_buffer-Kept null_text strerror behind t q.free
          (record {
            order = refl;
            size = rw (no_high, no_low) q.counted;
            small = rw (no_high, no_low) (omega arith);
            valid = q.valid;
            opened = q.opened;
            stream_socket = q.stream;
          })
          (rw no_low tt) d (rw (no_high, no_low) h))

  -- What becomes of a buffer that was given to `Send`: the kernel has it, or a request was written, and the
  -- next run of `SendBuffer` on the socket, with these answers of the kernel, goes on behind it.
  pub record Continues (s : Server) (b : Sendbuffer) (sent : List ℕ) (answers : List Answer)
      (m : SocketMessage) : Type 0 where
    pub after : Server
    pub returns : send s b ≡ ok (0, after)
    pub outcome :
        (after.kernel.sent ≡ sent)
        ⊎ ((after.pipe ≡ s.pipe ++ stray s (write_request b.id) ∷ [])
            × Ensures (NullText null_text) (Kept sent) (
                send_buffer null_text strerror behind (record {
                  kernel = record after.kernel { answers = answers };
                  socket = socket_of after b.id;
                  message = m;
                })))

  -- Send of a buffer in memory, of less than 2 ^ 31 bytes at an address that fits in 63 bits, to a
  -- valid, idle TCP socket that is not closing, whose lock is free and whose count of waiting bytes
  -- is 0, returns 0 when the kernel answers its write somehow and takes the write to the pipe.
  -- Either the kernel has all bytes, behind those sent before; or bytes from behind the request's
  -- package are in the pipe, and the next SendBuffer on the socket, on one answer at least, goes on
  -- in order with what is left, or closes the socket with a start of it sent, or stops at the text
  -- of a null pointer.
  pub send-Continues :
      (s : Server) (b : Sendbuffer) (a : Answer) (rs answers : List Answer) (m : SocketMessage)
      → WritesAtOnce s b
      → (socket_of s b.id).wb_size ≡ 0
      → s.kernel.answers ≡ a ∷ rs
      → delivers rs 26 ≡ true
      → 1 ≤ settled answers
      → Continues s b (s.kernel.sent ++ range b.buffer.object b.sz) answers m
  send-Continues s b a rs answers m w e first d enough =
      let h = send-Handed s b a rs w e first d in
      record {
        after = h.after;
        returns = h.returns;
        outcome = elim h.outcome [
          | inl all ↦ inl all
          | inr (queued, bytes, ready, quiet) ↦ inr (
            queued,
            rest-Kept (record h.after.kernel { answers = answers }) (socket_of h.after b.id) m
                (s.kernel.sent ++ range b.buffer.object b.sz) bytes ready quiet enough,
          )
        ];
      }

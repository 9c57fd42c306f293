-- ===== src/SocketServer/Sending/Writes.antt =====
-- What `SendListTCP`, `CloseWrite` and `ForceClose` of skynet-src/socket_server.cpp do to the socket of a stream.
use skynet_cpp.Prelude.{
  ℕ, ◌+◌, ◌≤◌, ◌==◌, min, Bool, true, false, not, ◌≡◌, refl, ◌∙◌, ◌⊎◌, inl, inr, List, [], ◌∷◌,
  ◌++◌, length, Bool-cases, arith,
}
use skynet_cpp.Prelude.Run.{Run, Fault, ok, fault, Run-cases, ◌>>=◌}
use skynet_cpp.Prelude.Run.Ensures.{
  Ensures, Ensures-ok, Ensures-fault, Ensures-if, Ensures-bind, Ensures-map,
}
use skynet_cpp.SocketServer.{
  Socket, WriteBuffer, Data, Answer, took, interrupted, again, write_failed, Kernel, Turn, call,
  shutdown_write, ignored, socket_rst, type_bind, type_half_close_read, type_half_close_write,
}
use skynet_cpp.SocketServer.Closing.{
  same_bool, closing_calls, enable_write, force_close, close_write,
}
use skynet_cpp.SocketServer.Sending.{
  Lane, high_lane, low_lane, put_lane, answers_left, advance, send_list_tcp,
}
use skynet_cpp.SocketServer.Sending.Stream.{
  pending, settled, IsWhole, IsWholeTail, IsWhole-tail, Flows, Shut, OtherLane, after_write,
  Flows-write, Flows-tail, Flows-message,
}

-- A stream under changes that concern neither its lists nor what was sent.
abbrev pub Untouched : Turn → Turn → Type 0
Untouched t u =
    (u.socket.low ≡ t.socket.low)
    × (u.socket.high ≡ t.socket.high)
    × (u.kernel.answers ≡ t.kernel.answers)

pub enable_write-Flows :
    (stream : List ℕ) (t : Turn) (on : Bool)
    → Flows stream t
    → Flows stream (enable_write t on).1 × Untouched t (enable_write t on).1
enable_write-Flows stream t on f = elim (Bool-cases (same_bool t.socket.writing on)) [
  | inl same ↦ rw same (f, (refl, refl, refl))
  | inr other ↦ rw other (
    record {
      order = f.order;
      size = f.size;
      small = f.small;
      valid = f.valid;
      opened = f.opened;
      stream_socket = f.stream_socket;
    },
    (refl, refl, refl),
  )
]

-- What `SendListTCP` leaves of the low list: whole buffers, but for the first if it was sent in part.
abbrev pub LowFine : Lane → Bool → List WriteBuffer → Type 0
LowFine high_lane quiet bs = IsWhole bs
LowFine low_lane true bs = IsWholeTail bs
LowFine low_lane false bs = IsWhole bs

pub LowFine-loud :
    (quiet : Bool) (bs : List WriteBuffer)
    → not quiet ≡ true
    → LowFine low_lane quiet bs
    → IsWhole bs
LowFine-loud true bs e h = absurd (ground (arith, e))
LowFine-loud false bs e h = h

pub LowFine-quiet :
    (quiet : Bool) (bs : List WriteBuffer)
    → not quiet ≡ false
    → LowFine low_lane quiet bs
    → IsWholeTail bs
LowFine-quiet true bs e h = h
LowFine-quiet false bs e h = absurd (ground (arith, e))

LowFine-whole : (l : Lane) (quiet : Bool) (bs : List WriteBuffer) → IsWhole bs → LowFine l quiet bs
LowFine-whole high_lane quiet bs h = h
LowFine-whole low_lane true bs h = IsWhole-tail bs h
LowFine-whole low_lane false bs h = h

-- A list was sent as far as the kernel took it, with the answers for k more buffers left.
pub record Goes (l : Lane) (k : ℕ) (stream : List ℕ) (r : ℕ × Turn) : Type 0 where
  pub flows : Flows stream r.1
  pub low_fine : LowFine l (r.0 == ignored) r.1.socket.low
  pub other_lane : OtherLane l k r.1.socket
  pub fuel : k ≤ settled r.1.kernel.answers

Flows-answers :
    (l : Lane) (stream : List ℕ) (t : Turn) (bs : List WriteBuffer) (rs : List Answer)
    → Flows stream (put_lane l bs t)
    → Flows stream (put_lane l bs (answers_left t rs))
Flows-answers high_lane stream t bs rs f = record {
  order = f.order;
  size = f.size;
  small = f.small;
  valid = f.valid;
  opened = f.opened;
  stream_socket = f.stream_socket;
}
Flows-answers low_lane stream t bs rs f = record {
  order = f.order;
  size = f.size;
  small = f.small;
  valid = f.valid;
  opened = f.opened;
  stream_socket = f.stream_socket;
}

-- A list that was sent as far as the kernel took it, without an error.
goes :
    (l : Lane) (k : ℕ) (stream : List ℕ) (t : Turn) (bs : List WriteBuffer) (rs : List Answer)
    → Flows stream (put_lane l bs t)
    → LowFine l true (put_lane l bs t).socket.low
    → OtherLane l k t.socket
    → k ≤ settled rs
    → Goes l k stream (ignored, put_lane l bs (answers_left t rs))
goes high_lane k stream t bs rs f w d h = record {
  flows = Flows-answers high_lane stream t bs rs f;
  low_fine = w;
  other_lane = d;
  fuel = h;
}
goes low_lane k stream t bs rs f w d h = record {
  flows = Flows-answers low_lane stream t bs rs f;
  low_fine = w;
  other_lane = d;
  fuel = h;
}

-- The same with an error, by which only other parts of the state changed.
error-Goes :
    (l : Lane) (k : ℕ) (stream : List ℕ) (t : Turn) (bs : List WriteBuffer) (rs : List Answer)
    (r : ℕ × Turn)
    → Flows stream r.1
    → Untouched (put_lane l bs (answers_left t rs)) r.1
    → IsWhole (put_lane l bs t).socket.low
    → OtherLane l k t.socket
    → k ≤ settled rs
    → Goes l k stream r
error-Goes high_lane k stream t bs rs r f u w d h = record {
  flows = f;
  low_fine = LowFine-whole high_lane (r.0 == ignored) r.1.socket.low (rw u.0 w);
  other_lane = rw u.0 d;
  fuel = rw u.2 h;
}
error-Goes low_lane k stream t bs rs r f u w d h = record {
  flows = f;
  low_fine = LowFine-whole low_lane (r.0 == ignored) r.1.socket.low (rw u.0 w);
  other_lane = u.1 ∙ d;
  fuel = rw u.2 h;
}

-- What a write of n bytes of the first buffer leaves of the conditions.
OtherLane-write :
    (l : Lane) (k : ℕ) (t : Turn) (b : WriteBuffer) (n : ℕ)
    → OtherLane l k t.socket
    → OtherLane l k (after_write l t b n).socket
OtherLane-write high_lane k t b n d = d
OtherLane-write low_lane k t b n d = d

IsWhole-write :
    (l : Lane) (t : Turn) (b : WriteBuffer) (bs : List WriteBuffer) (n : ℕ)
    → IsWhole (put_lane l (b ∷ bs) t).socket.low
    → IsWhole (put_lane l bs (after_write l t b n)).socket.low
IsWhole-write high_lane t b bs n w = w
IsWhole-write low_lane t b bs n w = w.1

LowFine-write :
    (l : Lane) (t : Turn) (b c : WriteBuffer) (bs : List WriteBuffer) (n : ℕ)
    → IsWhole (put_lane l (b ∷ bs) t).socket.low
    → LowFine l true (put_lane l (c ∷ bs) (after_write l t b n)).socket.low
LowFine-write high_lane t b c bs n w = w
LowFine-write low_lane t b c bs n w = w.1

closing_calls-sent : (k : Kernel) (s : Socket) → (closing_calls k s).sent ≡ k.sent
closing_calls-sent k s = elim (Bool-cases (s.type == type_bind)) [
  | inl bound ↦ rw bound refl
  | inr other ↦ rw other refl
]

-- The only way to stop: the text of a null pointer.
abbrev pub NullText : Run Data → Fault → Type 0
NullText null_text e = null_text ≡ fault e

module _ (null_text : Run Data) where
  pub force_close-Shut :
      (stream : List ℕ) (t : Turn)
      → Flows stream t
      → Ensures (NullText null_text) (Shut stream) (force_close null_text t)
  unfolding force_close
  force_close-Shut stream t f = elim (Run-cases null_text) [
    | inl (d, e) ↦
        rw (e, f.valid, f.opened)
          (Ensures-ok (record {
            invalid = refl;
            no_high = refl;
            no_low = refl;
            lost = pending t.socket.high ++ pending t.socket.low;
            start = rw (closing_calls-sent t.kernel t.socket) f.order;
          }))
    | inr (x, e) ↦ rw e (Ensures-fault refl)
  ]

  forced :
      (stream : List ℕ) (t : Turn)
      → Flows stream t
      → Ensures
          (NullText null_text)
          (λ (r : ℕ × Turn). (r.0 ≡ socket_rst) × Shut stream r.1)
          (force_close null_text t >>= λ u. ok (socket_rst, u))
  forced stream t f = Ensures-bind (force_close-Shut stream t f) (λ u h. Ensures-ok (refl, h))

-- A failed write leaves the lists, or closes the socket.
abbrev Refused : List ℕ → Turn → ℕ × Turn → Type 0
Refused stream t r =
    ((r.0 ≡ socket_rst) × Shut stream r.1)
    ⊎ (((r.0 == ignored) ≡ false) × Flows stream r.1 × Untouched t r.1)

module _ (null_text : Run Data) (strerror : List ℕ) where
  close_write-Refused :
      (stream : List ℕ) (t : Turn)
      → Flows stream t
      → Ensures (NullText null_text) (Refused stream t) (close_write null_text strerror t)
  unfolding close_write
  close_write-Refused stream t f =
      let shut = Ensures-map (λ r h. inl h) (forced null_text stream t f) in
      Ensures-if t.socket.closing (λ e. shut)
        (λ e.
          Ensures-if (t.socket.type == type_half_close_read) (λ e. shut)
            (λ e.
              Ensures-if (t.socket.type == type_half_close_write)
                (λ e. Ensures-ok (inr (refl, f, (refl, refl, refl))))
                (λ e. Ensures-ok (
                  let half = record t {
                    kernel = call t.kernel (shutdown_write t.socket.fd);
                    socket = record t.socket { type = type_half_close_write };
                  } in
                  let (g, same) = enable_write-Flows stream half false (record {
                    order = f.order;
                    size = f.size;
                    small = f.small;
                    valid = refl;
                    opened = refl;
                    stream_socket = f.stream_socket;
                  }) in
                  inr (refl, Flows-message stream (enable_write half false).1 _ g, same)))))

  pub send_list_tcp-Goes :
      (l : Lane) (rs : List Answer) (t : Turn) (bs : List WriteBuffer) (k : ℕ) (stream : List ℕ)
      → Flows stream (put_lane l bs t)
      → IsWhole (put_lane l bs t).socket.low
      → OtherLane l k t.socket
      → length bs + k ≤ settled rs
      → Ensures
          (NullText null_text)
          (λ r. Goes l k stream r ⊎ ((r.0 ≡ socket_rst) × Shut stream r.1))
          (send_list_tcp null_text strerror l rs t bs)
  unfolding send_list_tcp
  send_list_tcp-Goes l rs t [] k stream f w d h =
      Ensures-ok (inl (goes l k stream t [] rs f (LowFine-whole l true _ w) d (omega (arith, h))))
  send_list_tcp-Goes l [] t (b ∷ bs) k stream f w d h = absurd (omega arith)
  send_list_tcp-Goes l (interrupted ∷ rs) t (b ∷ bs) k stream f w d h =
      send_list_tcp-Goes l rs t (b ∷ bs) k stream f w d h
  send_list_tcp-Goes l (again ∷ rs) t (b ∷ bs) k stream f w d h =
      Ensures-ok
        (inl (goes l k stream t (b ∷ bs) rs f (LowFine-whole l true _ w) d (omega (arith, h))))
  send_list_tcp-Goes l (write_failed ∷ rs) t (b ∷ bs) k stream f w d h =
      let u = put_lane l (b ∷ bs) (answers_left t rs) in
      Ensures-map
        (λ r c. elim c [
          | inl shut ↦ inr shut
          | inr (e, g, same) ↦
              inl (error-Goes l k stream t (b ∷ bs) rs r g same w d (omega (arith, h)))
        ])
        (close_write-Refused stream u (Flows-answers l stream t (b ∷ bs) rs f))
  send_list_tcp-Goes l (took n ∷ rs) t (b ∷ bs) k stream f w d h =
      let size = min n b.sz in
      let u = after_write l t b size in
      let g = Flows-write l k stream t b bs size (omega arith) d f in
      let d' = OtherLane-write l k t b size d in
      Ensures-if (size == b.sz)
        (λ e.
          send_list_tcp-Goes l rs u bs k stream
            (Flows-tail l stream u (advance b size) bs (ground (arith, e)) g)
            (IsWhole-write l t b bs size w) d' (omega (arith, h)))
        (λ e. Ensures-ok (
          inl (
            goes l k stream u (advance b size ∷ bs) rs g
              (LowFine-write l t b (advance b size) bs size w) d' (omega (arith, h)))))

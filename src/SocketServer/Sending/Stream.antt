-- ===== src/SocketServer/Sending/Stream.antt =====
-- The bytes of a socket in skynet-src/socket_server.cpp: those the kernel took and those that wait, in their
-- order, and the count of those that wait.
use skynet_cpp.Prelude.{
  ℕ, zero, suc, ◌+◌, ◌-◌, ◌^◌, ◌≤◌, ◌<◌, ◌==◌, true, false, ◌≡◌, sym, ap, ap₂, ◌∙◌, List, [], ◌∷◌,
  ◌++◌, append-nil, append_assoc, length, arith,
}
use skynet_cpp.SocketServer.{
  Socket, SocketMessage, WriteBuffer, Answer, interrupted, Turn, is_tcp, type_invalid, type_reserve,
}
use skynet_cpp.SocketServer.Sending.{
  plus64, minus64, range, Lane, high_lane, low_lane, put_lane, stat_write, transmit, account,
  advance,
}

-- The bytes that wait in a list, and their number.
abbrev pub total : List WriteBuffer → ℕ
total [] = 0
total (b ∷ bs) = b.sz + total bs

abbrev pub pending : List WriteBuffer → List ℕ
pending [] = []
pending (b ∷ bs) = range b.ptr b.sz ++ pending bs

-- The answers that end a call of `write`.
abbrev pub settled : List Answer → ℕ
settled [] = 0
settled (interrupted ∷ rs) = settled rs
settled (_ ∷ rs) = suc (settled rs)

-- Nothing of a buffer was sent yet; and so for those behind the first.
abbrev pub IsWhole : List WriteBuffer → Type 0
IsWhole [] = Unit {0}
IsWhole (b ∷ bs) = (b.ptr ≡ b.buffer.chars) × IsWhole bs

abbrev pub IsWholeTail : List WriteBuffer → Type 0
IsWholeTail [] = Unit {0}
IsWholeTail (b ∷ bs) = IsWhole bs

pub IsWhole-tail : (bs : List WriteBuffer) → IsWhole bs → IsWholeTail bs
IsWhole-tail [] h = tt
IsWhole-tail (b ∷ bs) h = h.1

-- A socket of a stream: what was sent and what waits is the stream, and what waits is counted.
pub record Flows (stream : List ℕ) (t : Turn) : Type 0 where
  pub order : t.kernel.sent ++ (pending t.socket.high ++ pending t.socket.low) ≡ stream
  pub size : t.socket.wb_size ≡ total t.socket.high + total t.socket.low
  pub small : total t.socket.high + total t.socket.low < 2 ^ 63
  pub valid : (t.socket.type == type_invalid) ≡ false
  pub opened : (t.socket.type == type_reserve) ≡ false
  pub stream_socket : is_tcp t.socket.protocol ≡ true

-- A socket that was closed: what was sent is the start of the stream.
pub record Shut (stream : List ℕ) (t : Turn) : Type 0 where
  pub invalid : t.socket.type ≡ type_invalid
  pub no_high : t.socket.high ≡ []
  pub no_low : t.socket.low ≡ []
  pub lost : List ℕ
  pub start : t.kernel.sent ++ lost ≡ stream

pub range-split : (n k p : ℕ) → n ≤ k → range p n ++ range (p + n) (k - n) ≡ range p k
range-split zero k p h = ap₂ range (omega arith) (omega arith)
range-split (suc n) zero p h = absurd (omega arith)
range-split (suc n) (suc k) p h =
    ap (λ r. p ∷ r)
      (ap₂ (λ x y. range (suc p) n ++ range x y) (omega arith) (omega arith)
        ∙ range-split n k (suc p) (omega arith))

pub minus64_lem : (a b : ℕ) → b ≤ a → a < 2 ^ 63 → minus64 a b ≡ a - b
minus64_lem a b l h = omega arith

pub plus64_lem : (a b : ℕ) → a + b < 2 ^ 63 → plus64 a b ≡ a + b
plus64_lem a b h = omega arith

-- A part of the first buffer moves from what waits to what was sent.
moved :
    (sent rest : List ℕ) (b : WriteBuffer) (bs : List WriteBuffer) (n : ℕ)
    → n ≤ b.sz
    → (sent ++ range b.ptr n) ++ (pending (advance b n ∷ bs) ++ rest)
      ≡ sent ++ (pending (b ∷ bs) ++ rest)
moved sent rest b bs n h = simp (append_assoc, sym (range-split n b.sz b.ptr h))

-- `write` took n bytes of the first buffer.
abbrev pub after_write : Lane → Turn → WriteBuffer → ℕ → Turn
after_write l t b n = account (stat_write (transmit t b n) n) n

-- Where the low list is sent, the high one is empty; where the high list is sent, the low one has at most k
-- buffers.
abbrev pub OtherLane : Lane → ℕ → Socket → Type 0
OtherLane high_lane k s = length s.low ≤ k
OtherLane low_lane k s = s.high ≡ []

pub Flows-write :
    (l : Lane) (k : ℕ) (stream : List ℕ) (t : Turn) (b : WriteBuffer) (bs : List WriteBuffer)
    (n : ℕ)
    → n ≤ b.sz
    → OtherLane l k t.socket
    → Flows stream (put_lane l (b ∷ bs) t)
    → Flows stream (put_lane l (advance b n ∷ bs) (after_write l t b n))
Flows-write high_lane k stream t b bs n h done f = record {
  order = moved t.kernel.sent (pending t.socket.low) b bs n h ∙ f.order;
  size =
      minus64_lem t.socket.wb_size n (omega (arith, f.size)) (omega (arith, f.size, f.small))
      ∙ omega (arith, f.size);
  small = omega (arith, f.small);
  valid = f.valid;
  opened = f.opened;
  stream_socket = f.stream_socket;
}
Flows-write low_lane k stream t b bs n h done f =
    let before : t.kernel.sent ++ (pending t.socket.high ++ pending (b ∷ bs)) ≡ stream = f.order in
    let counted : t.socket.wb_size ≡ total t.socket.high + total (b ∷ bs) = f.size in
    let bound : total t.socket.high + total (b ∷ bs) < 2 ^ 63 = f.small in
    record {
      order = rw done (
          ap (λ x. (t.kernel.sent ++ range b.ptr n) ++ x) (sym (append-nil _))
          ∙ moved t.kernel.sent [] b bs n h
          ∙ (rw append-nil (rw done at before)));
      size =
          minus64_lem t.socket.wb_size n (omega (arith, counted)) (omega (arith, counted, bound))
          ∙ omega (arith, counted);
      small = omega (arith, bound);
      valid = f.valid;
      opened = f.opened;
      stream_socket = f.stream_socket;
    }

-- A buffer that was sent to its end is taken off.
pub Flows-tail :
    (l : Lane) (stream : List ℕ) (t : Turn) (b : WriteBuffer) (bs : List WriteBuffer)
    → b.sz ≡ 0
    → Flows stream (put_lane l (b ∷ bs) t)
    → Flows stream (put_lane l bs t)
Flows-tail high_lane stream t b bs e f = record {
  order = rw e at f.order;
  size = omega (arith, e, f.size);
  small = omega (arith, e, f.small);
  valid = f.valid;
  opened = f.opened;
  stream_socket = f.stream_socket;
}
Flows-tail low_lane stream t b bs e f = record {
  order = rw e at f.order;
  size = omega (arith, e, f.size);
  small = omega (arith, e, f.small);
  valid = f.valid;
  opened = f.opened;
  stream_socket = f.stream_socket;
}

-- The message of the socket is no part of its stream.
pub Flows-message :
    (stream : List ℕ) (t : Turn) (m : SocketMessage)
    → Flows stream t
    → Flows stream (record t { message = m })
Flows-message stream t m f = record {
  order = f.order;
  size = f.size;
  small = f.small;
  valid = f.valid;
  opened = f.opened;
  stream_socket = f.stream_socket;
}

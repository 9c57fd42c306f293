-- ===== src/SocketServer/Sending/Order.antt =====
-- The bytes of a socket leave in their order: `SendBuffer_` and `SendBuffer` of skynet-src/socket_server.cpp on
-- the socket of a stream.
use skynet_cpp.Prelude.{
  ℕ, suc, ◌+◌, ◌-◌, ◌^◌, ◌≤◌, ◌<◌, ◌==◌, Bool, true, false, not, ◌&&◌, ◌≡◌, refl, ap, ◌∙◌, ◌⊎◌, inl,
  inr, none, some, List, [], ◌∷◌, ◌++◌, append-nil, append_assoc, length, Option-cases, arith,
}
use skynet_cpp.Prelude.Run.{Run, Fault, Run-cases, assert}
use skynet_cpp.Prelude.Run.Ensures.{Ensures, Ensures-ok, Ensures-fault, Ensures-if, Ensures-bind}
use skynet_cpp.SocketServer.{
  Socket, Text, WriteBuffer, Data, disable_write_failed, Turn, is_tcp, ignored, socket_rst,
}
use skynet_cpp.SocketServer.Closing.{about, is_empty, enable_write}
use skynet_cpp.SocketServer.Sending.{
  extend, send_buffer_empty, positive, range, high_lane, low_lane, list_uncomplete,
  raise_uncomplete, send_list, drained, after_low, after_high, direct_first, send_lists,
  send_buffer,
}
use skynet_cpp.SocketServer.Sending.Stream.{
  total, pending, settled, IsWhole, IsWholeTail, Flows, Shut, Flows-message, plus64_lem,
  minus64_lem,
}
use skynet_cpp.SocketServer.Sending.Writes.{
  enable_write-Flows, LowFine-loud, LowFine-quiet, Goes, NullText, force_close-Shut,
  send_list_tcp-Goes,
}

-- The socket goes on, its bytes in order, and no buffer of the low list was begun; or it was closed.
abbrev pub Kept : List ℕ → ℕ × Turn → Type 0
Kept stream r = (Flows stream r.1 × IsWhole r.1.socket.low) ⊎ Shut stream r.1

head-IsWhole : (bs : List WriteBuffer) → list_uncomplete bs ≡ false → IsWholeTail bs → IsWhole bs
head-IsWhole [] e w = tt
head-IsWhole (b ∷ bs) e w = (ground (arith, e), w)

whole_complete : (bs : List WriteBuffer) → IsWhole bs → not (list_uncomplete bs) ≡ true
whole_complete [] w = refl
whole_complete (b ∷ bs) w = ground (arith, w.0)

pub empty_lem : (bs : List WriteBuffer) → is_empty bs ≡ true → bs ≡ []
empty_lem [] e = refl
empty_lem (b ∷ bs) e = absurd (ground (arith, e))

assert_holds : {F : Fault → Type 0} (b : Bool) → b ≡ true → Ensures F (λ u. Unit {0}) (assert b)
assert_holds b e = rw e (Ensures-ok tt)

raise-Flows :
    {F : Fault → Type 0} (stream : List ℕ) (t : Turn) (bs : List WriteBuffer)
    → Flows stream t
    → t.socket.high ≡ []
    → t.socket.low ≡ bs
    → list_uncomplete bs ≡ true
    → IsWholeTail bs
    → Ensures F (λ u. Flows stream u × IsWhole u.socket.low) (raise_uncomplete t bs)
unfolding raise_uncomplete
raise-Flows stream t [] f eh el u w = absurd (ground (arith, u))
raise-Flows stream t (b ∷ bs) f eh el u w =
    let order : t.kernel.sent ++ pending (b ∷ bs) ≡ stream = rw (eh, el) at f.order in
    let counted : t.socket.wb_size ≡ 0 + total (b ∷ bs) = rw (eh, el) at f.size in
    let bound : 0 + total (b ∷ bs) < 2 ^ 63 = rw (eh, el) at f.small in
    Ensures-bind (assert_holds (is_empty t.socket.high) (rw eh refl)) (λ u h. Ensures-ok (
      record {
        order =
            ap (λ x. t.kernel.sent ++ x) (ap (λ x. x ++ pending bs) (append-nil (range b.ptr b.sz)))
            ∙ order;
        size = omega (arith, counted);
        small = omega (arith, bound);
        valid = f.valid;
        opened = f.opened;
        stream_socket = f.stream_socket;
      },
      w,
    ))

module _ (null_text : Run Data) (strerror : List ℕ) where
  NullText-Ensures : Ensures (NullText null_text) (λ d. Unit {0}) null_text
  NullText-Ensures = elim (Run-cases null_text) [
    | inl (d, e) ↦ rw e (Ensures-ok tt)
    | inr (x, e) ↦ rw e (Ensures-fault refl)
  ]

  drained-Kept :
      (stream : List ℕ) (t : Turn)
      → Flows stream t
      → t.socket.high ≡ []
      → t.socket.low ≡ []
      → Ensures (NullText null_text) (Kept stream) (drained null_text strerror t)
  unfolding drained
  drained-Kept stream t f eh el =
      let counted : t.socket.wb_size ≡ 0 + 0 = rw (eh, el) at f.size in
      let (g, same) = enable_write-Flows stream t false f in
      let whole : IsWhole (enable_write t false).1.socket.low = rw (same.0, el) tt in
      Ensures-bind
        (assert_holds (send_buffer_empty t.socket && t.socket.wb_size == 0)
          (rw (eh, el, counted) refl))
        (λ u h.
          Ensures-if t.socket.closing
            (λ e.
              Ensures-bind (force_close-Shut null_text stream t f)
                (λ v shut. Ensures-ok (inr shut)))
            (λ e.
              Ensures-if (enable_write t false).0
                (λ e'. Ensures-ok (
                  inl (
                    Flows-message stream (enable_write t false).1
                        (about (enable_write t false).1.socket disable_write_failed) g,
                    whole,
                  )))
                (λ e'.
                  Ensures-if (positive (enable_write t false).1.socket.warn_size)
                    (λ e''. Ensures-bind NullText-Ensures (λ d h'. Ensures-ok (
                      inl (
                        record {
                          order = g.order;
                          size = g.size;
                          small = g.small;
                          valid = g.valid;
                          opened = g.opened;
                          stream_socket = g.stream_socket;
                        },
                        whole,
                      ))))
                    (λ e''. Ensures-ok (inl (g, whole))))))

  after_low-Kept :
      (stream : List ℕ) (r : ℕ × Turn)
      → Goes low_lane 0 stream r ⊎ ((r.0 ≡ socket_rst) × Shut stream r.1)
      → Ensures (NullText null_text) (Kept stream) (after_low null_text strerror r.0 r.1)
  unfolding after_low
  after_low-Kept stream r (inr (e, shut)) = rw e (Ensures-ok (inr shut))
  after_low-Kept stream r (inl g) =
      Ensures-if (not (r.0 == ignored))
        (λ e. Ensures-ok (inl (g.flows, LowFine-loud (r.0 == ignored) r.1.socket.low e g.low_fine)))
        (λ e.
          Ensures-if (list_uncomplete r.1.socket.low)
            (λ u.
              Ensures-bind
                (raise-Flows stream r.1 r.1.socket.low g.flows g.other_lane refl u
                  (LowFine-quiet (r.0 == ignored) r.1.socket.low e g.low_fine))
                (λ v h. Ensures-ok (inl h)))
            (λ u.
              Ensures-if (is_empty r.1.socket.low)
                (λ no_low.
                  drained-Kept stream r.1 g.flows g.other_lane (empty_lem r.1.socket.low no_low))
                (λ left. Ensures-ok (
                  inl (
                    g.flows,
                    head-IsWhole r.1.socket.low u
                        (LowFine-quiet (r.0 == ignored) r.1.socket.low e g.low_fine),
                  )))))

  after_high-Kept :
      (stream : List ℕ) (k : ℕ) (r : ℕ × Turn)
      → Goes high_lane k stream r ⊎ ((r.0 ≡ socket_rst) × Shut stream r.1)
      → Ensures (NullText null_text) (Kept stream) (after_high null_text strerror r.0 r.1)
  unfolding after_high send_list
  after_high-Kept stream k r (inr (e, shut)) = rw e (Ensures-ok (inr shut))
  after_high-Kept stream k r (inl g) =
      let whole : IsWhole r.1.socket.low = g.low_fine in
      let t = r.1 in
      Ensures-if (not (r.0 == ignored)) (λ e. Ensures-ok (inl (g.flows, whole)))
        (λ e.
          Ensures-if (not (is_empty t.socket.high)) (λ left. Ensures-ok (inl (g.flows, whole)))
            (λ no_high.
              let eh = empty_lem t.socket.high (ground (arith, no_high)) in
              Ensures-if (is_empty t.socket.low)
                (λ no_low. drained-Kept stream t g.flows eh (empty_lem t.socket.low no_low))
                (λ left.
                  Ensures-bind
                    (Ensures-if (is_tcp t.socket.protocol)
                      (λ stream_socket.
                        send_list_tcp-Goes null_text strerror low_lane t.kernel.answers t
                          t.socket.low 0 stream g.flows whole eh
                          (omega (arith, g.fuel, g.other_lane)))
                      (λ other. absurd (ground (arith, other, g.flows.stream_socket))))
                    (after_low-Kept stream))))

  -- The whole of the two lists, for a socket of a stream with an answer of the kernel for every buffer.
  pub send_lists-Kept :
      (stream : List ℕ) (t : Turn)
      → Flows stream t
      → IsWhole t.socket.low
      → length t.socket.high + length t.socket.low ≤ settled t.kernel.answers
      → Ensures (NullText null_text) (Kept stream) (send_lists null_text strerror t)
  unfolding send_lists send_list
  send_lists-Kept stream t f w h =
      Ensures-bind
        (assert_holds (not (list_uncomplete t.socket.low)) (whole_complete t.socket.low w))
        (λ u h'.
          Ensures-bind
            (Ensures-if (is_tcp t.socket.protocol)
              (λ stream_socket.
                send_list_tcp-Goes null_text strerror high_lane t.kernel.answers t t.socket.high
                  (length t.socket.low) stream f w (omega arith) h)
              (λ other. absurd (ground (arith, other, f.stream_socket))))
            (after_high-Kept stream (length t.socket.low)))

-- The bytes of a direct write that wait: those behind the `std::string` object, not its characters.
abbrev pub direct : Socket → List ℕ
direct s = elim s.dw_buffer [
  | none ↦ []
  | some text ↦ range (text.object + s.dw_offset) (s.dw_size - s.dw_offset)
]

-- A direct write that can be put in front of the high list.
pub record IsDirect (s : Socket) : Type 0 where
  pub near : s.dw_offset < 2 ^ 31
  pub inside : s.dw_offset ≤ s.dw_size
  pub size : s.dw_size + (total s.high + total s.low) < 2 ^ 63
  pub place : (text : Text) → s.dw_buffer ≡ some text → text.object + s.dw_offset < 2 ^ 63

extend_lem : (n : ℕ) → n < 2 ^ 31 → extend n ≡ n
extend_lem n h = ground arith

direct_first-Flows :
    (behind : List ℕ) (t : Turn)
    → Flows (t.kernel.sent ++ (pending t.socket.high ++ pending t.socket.low)) t
    → IsDirect t.socket
    → Flows
        (t.kernel.sent ++ (direct t.socket ++ (pending t.socket.high ++ pending t.socket.low)))
        (direct_first behind t)
      × ((direct_first behind t).socket.low ≡ t.socket.low)
      × ((direct_first behind t).kernel.answers ≡ t.kernel.answers)
      × (length (direct_first behind t).socket.high ≤ suc (length t.socket.high))
direct_first-Flows behind t f d = elim (Option-cases t.socket.dw_buffer) [
  | inl e ↦ rw e (
    record {
      order = f.order;
      size = f.size;
      small = f.small;
      valid = f.valid;
      opened = f.opened;
      stream_socket = f.stream_socket;
    },
    refl,
    refl,
    omega arith,
  )
  | inr (text, e) ↦
      let ext = extend_lem t.socket.dw_offset d.near in
      let left = minus64_lem t.socket.dw_size t.socket.dw_offset d.inside (omega (arith, d.size)) in
      let place = plus64_lem text.object t.socket.dw_offset (d.place text e) in
      let sum =
        plus64_lem t.socket.wb_size (t.socket.dw_size - t.socket.dw_offset)
          (omega (arith, d.size, f.size)) in
      rw (e, ext, left, place, sum)
        (
          record {
            order =
                ap (λ x. t.kernel.sent ++ x)
                  (append_assoc
                    (range (text.object + t.socket.dw_offset)
                      (t.socket.dw_size - t.socket.dw_offset))
                    (pending t.socket.high) (pending t.socket.low));
            size = omega (arith, f.size);
            small = omega (arith, d.size);
            valid = f.valid;
            opened = f.opened;
            stream_socket = f.stream_socket;
          },
          refl,
          refl,
          omega arith,
        )
]

-- SendBuffer on an open TCP socket whose lock is free, whose count of waiting bytes is right, whose
-- low buffers are not begun, whose direct write fits, with an answer of the kernel for every buffer:
-- it stops at the text of a null pointer alone, so no assertion fails. Otherwise the bytes that were
-- sent and those that wait are, in order, those sent before, the direct write, the high list and the
-- low list, and the count of waiting bytes is right and no low buffer is begun; or the socket is
-- closed and empty, and a start of these bytes was sent.
pub send_buffer-Kept :
    (null_text : Run Data) (strerror behind : List ℕ) (t : Turn)
    → t.socket.dw_locked ≡ false
    → Flows (t.kernel.sent ++ (pending t.socket.high ++ pending t.socket.low)) t
    → IsWhole t.socket.low
    → IsDirect t.socket
    → suc (length t.socket.high + length t.socket.low) ≤ settled t.kernel.answers
    → Ensures
        (NullText null_text)
        (Kept
          (t.kernel.sent ++ (direct t.socket ++ (pending t.socket.high ++ pending t.socket.low))))
        (send_buffer null_text strerror behind t)
unfolding send_buffer
send_buffer-Kept null_text strerror behind t e f w d h =
    let (g, low, answers, high) = direct_first-Flows behind t f d in
    Ensures-if t.socket.dw_locked (λ locked. absurd (ground (arith, e, locked)))
      (λ free.
        send_lists-Kept null_text strerror _ (direct_first behind t) g (rw low w)
          (omega (arith, ap length low, ap settled answers, high, h)))

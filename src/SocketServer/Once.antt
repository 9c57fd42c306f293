-- ===== src/SocketServer/Once.antt =====
-- How often the close of a socket can be told in skynet-src/socket_server.cpp: what the parts of its handlers
-- return and do to the type of the socket.
pub mod Writing
pub mod Requests
pub mod Commands
pub mod Events
pub mod Steps
use mathlib.Core.Path.{subst}
use skynet_cpp.Prelude.{
  ℕ, zero, suc, ◌+◌, ◌-◌, ◌%◌, ◌^◌, ◌≤◌, ◌<◌, ◌==◌, min, if◌then◌else◌, Bool, true, false, not,
  ◌&&◌, ◌||◌, ◌≡◌, refl, sym, ap, ◌∙◌, ◌⊎◌, inl, inr, List, [], ◌∷◌, Bool-cases, arith,
}
use skynet_cpp.Prelude.Run.{Run, Fault, ok, fault, Run-cases, assert, ◌>>=◌, ◌>>◌}
use skynet_cpp.Prelude.Run.Ensures.{
  Ensures, Ensures-ok, Ensures-fault, Ensures-if, Ensures-bind, Ensures-map,
}
use skynet_cpp.SocketServer.{
  Socket, WriteBuffer, Data, bytes, Answer, took, interrupted, again, write_failed, Turn, is_tcp,
  call, shutdown_write, ignored, socket_close, socket_err, socket_rst, type_invalid, type_reserve,
  type_half_close_read, type_half_close_write,
}
use skynet_cpp.SocketServer.Closing.{
  same_bool, enable_write, enable_read, new_fd, force_close, close_write, close_read,
}
use skynet_cpp.SocketServer.Sending.{
  Lane, high_lane, low_lane, put_lane, answers_left, send_list_tcp, send_list_udp, send_list, lane,
  unfit, drop_udp, datagram, transmit, account, advance, stat_write, list_uncomplete,
  raise_uncomplete, drained, after_low, after_high, send_lists, direct_first, send_buffer,
}

abbrev pub Any : Fault → Type 0
Any e = Unit {0}

-- 1 if the close of a socket of this type may still be told
abbrev pub can_close : ℕ → ℕ
can_close ty = if ty == type_invalid || ty == type_half_close_read then 0 else 1

-- 1 if it was told
abbrev pub told : ℕ → ℕ
told ret = if ret == socket_close then 1 else 0

-- A handler tells no more than the type of its socket allows.
abbrev pub Within : ℕ → ℕ × Turn → Type 0
Within ty r = told r.0 + can_close r.1.socket.type ≤ can_close ty

pub type-enable_write : (t : Turn) (on : Bool) → (enable_write t on).1.socket.type ≡ t.socket.type
type-enable_write t on = elim (Bool-cases (same_bool t.socket.writing on)) [
  | inl same ↦ rw same refl
  | inr other ↦ rw other refl
]

pub type-enable_read : (t : Turn) (on : Bool) → (enable_read t on).1.socket.type ≡ t.socket.type
type-enable_read t on = elim (Bool-cases (same_bool t.socket.reading on)) [
  | inl same ↦ rw same refl
  | inr other ↦ rw other refl
]

pub all_outcomes : {A : Type 0} (m : Run A) → Ensures Any (λ a. Unit {0}) m
all_outcomes (ok a) = Ensures-ok tt
all_outcomes (fault e) = Ensures-fault tt

pub type-put_lane :
    (l : Lane) (bs : List WriteBuffer) (t : Turn) → (put_lane l bs t).socket.type ≡ t.socket.type
type-put_lane high_lane bs t = refl
type-put_lane low_lane bs t = refl

module _ (null_text : Run Data) where
  pub force_close-Invalid :
      (t : Turn) → Ensures Any (λ u. u.socket.type ≡ type_invalid) (force_close null_text t)
  unfolding force_close
  force_close-Invalid t = Ensures-bind (all_outcomes null_text) (λ d h.
      Ensures-if (t.socket.type == type_invalid) (λ e. Ensures-ok (ground (arith, e)))
        (λ e.
          Ensures-bind (all_outcomes (assert (not (t.socket.type == type_reserve))))
            (λ u h'. Ensures-ok refl)))

  pub close_read-HalfClosed :
      (t : Turn) → Ensures Any (λ u. u.socket.type ≡ type_half_close_read) (close_read null_text t)
  unfolding close_read
  close_read-HalfClosed t = Ensures-bind (all_outcomes null_text) (λ d h. Ensures-ok (
      type-enable_read (record t { socket = record t.socket { type = type_half_close_read } })
        false))

  pub close_forced :
      (ty ret : ℕ) (t : Turn)
      → told ret ≤ can_close ty
      → Ensures Any (Within ty) (force_close null_text t >>= λ u. ok (ret, u))
  close_forced ty ret t h =
      Ensures-bind (force_close-Invalid t) (λ u e. Ensures-ok (rw e (omega (arith, h))))

-- A list was sent without an error, or what is left of the socket is within bounds.
abbrev pub SentWithin : ℕ → ℕ × Turn → Type 0
SentWithin ty r =
    ((r.0 ≡ ignored) × (r.1.socket.type ≡ ty)) ⊎ (((r.0 == ignored) ≡ false) × Within ty r)

dropped-Within :
    (l : Lane) (t : Turn) (b : WriteBuffer) (bs : List WriteBuffer)
    → Ensures Any (SentWithin t.socket.type) (ok (ignored, drop_udp l t b bs))
dropped-Within l t b bs = Ensures-ok (inl (refl, type-put_lane l bs (account t b.sz)))

module _ (null_text : Run Data) (strerror : List ℕ) where
  close_write-Within :
      (t : Turn)
      → (t.socket.type == type_invalid) ≡ false
      → Ensures Any (SentWithin t.socket.type) (close_write null_text strerror t)
  unfolding close_write
  close_write-Within t valid =
      let ty = t.socket.type in
      let shut : Ensures Any (SentWithin ty) (force_close null_text t >>= λ u. ok (socket_rst, u)) =
        Ensures-bind (force_close-Invalid null_text t)
          (λ u e. Ensures-ok (inr (refl, rw e (omega arith)))) in
      Ensures-if t.socket.closing (λ e. shut)
        (λ e.
          Ensures-if (ty == type_half_close_read) (λ e'. shut)
            (λ open_now.
              Ensures-if (ty == type_half_close_write) (λ e'. Ensures-ok (inr (refl, omega arith)))
                (λ e'. Ensures-ok (
                  inr (
                    refl,
                    rw
                        (
                          type-enable_write
                              (record t {
                                kernel = call t.kernel (shutdown_write t.socket.fd);
                                socket = record t.socket { type = type_half_close_write };
                              })
                              false,
                          valid,
                          open_now,
                        )
                        (omega arith),
                  )))))

  send_list_tcp-Within :
      (l : Lane) (rs : List Answer) (t : Turn) (bs : List WriteBuffer)
      → (t.socket.type == type_invalid) ≡ false
      → Ensures Any (SentWithin t.socket.type) (send_list_tcp null_text strerror l rs t bs)
  unfolding send_list_tcp
  send_list_tcp-Within l rs t [] v = Ensures-ok (inl (refl, type-put_lane l [] (answers_left t rs)))
  send_list_tcp-Within l [] t (b ∷ bs) v = Ensures-fault tt
  send_list_tcp-Within l (interrupted ∷ rs) t (b ∷ bs) v = send_list_tcp-Within l rs t (b ∷ bs) v
  send_list_tcp-Within l (again ∷ rs) t (b ∷ bs) v =
      Ensures-ok (inl (refl, type-put_lane l (b ∷ bs) (answers_left t rs)))
  send_list_tcp-Within l (write_failed ∷ rs) t (b ∷ bs) v =
      let u = put_lane l (b ∷ bs) (answers_left t rs) in
      let same = type-put_lane l (b ∷ bs) (answers_left t rs) in
      Ensures-map (λ r h. subst (λ ty. SentWithin ty r) same h) (close_write-Within u (rw same v))
  send_list_tcp-Within l (took n ∷ rs) t (b ∷ bs) v =
      let size = min n b.sz in
      let u = account (stat_write (transmit t b size) size) size in
      Ensures-if (size == b.sz) (λ e. send_list_tcp-Within l rs u bs v)
        (λ e. Ensures-ok (inl (refl, type-put_lane l (advance b size ∷ bs) (answers_left u rs))))

  send_list_udp-Within :
      (l : Lane) (rs : List Answer) (t : Turn) (bs : List WriteBuffer)
      → Ensures Any (SentWithin t.socket.type) (send_list_udp null_text strerror l rs t bs)
  unfolding send_list_udp
  send_list_udp-Within l rs t [] = Ensures-ok (inl (refl, type-put_lane l [] (answers_left t rs)))
  send_list_udp-Within l [] t (b ∷ bs) =
      Ensures-if (unfit t b) (λ e. dropped-Within l (answers_left t []) b bs)
        (λ e. Ensures-fault tt)
  send_list_udp-Within l (took n ∷ rs) t (b ∷ bs) =
      Ensures-if (unfit t b) (λ e. dropped-Within l (answers_left t (took n ∷ rs)) b bs)
        (λ e.
          send_list_udp-Within l rs
            (account (stat_write (transmit (datagram t b) b (min n b.sz)) b.sz) b.sz) bs)
  send_list_udp-Within l (write_failed ∷ rs) t (b ∷ bs) =
      Ensures-if (unfit t b) (λ e. dropped-Within l (answers_left t (write_failed ∷ rs)) b bs)
        (λ e. dropped-Within l (answers_left (datagram t b) rs) b bs)
  send_list_udp-Within l (interrupted ∷ rs) t (b ∷ bs) =
      Ensures-if (unfit t b) (λ e. dropped-Within l (answers_left t (interrupted ∷ rs)) b bs)
        (λ e. Ensures-ok (inl (refl, type-put_lane l (b ∷ bs) (answers_left (datagram t b) rs))))
  send_list_udp-Within l (again ∷ rs) t (b ∷ bs) =
      Ensures-if (unfit t b) (λ e. dropped-Within l (answers_left t (again ∷ rs)) b bs)
        (λ e. Ensures-ok (inl (refl, type-put_lane l (b ∷ bs) (answers_left (datagram t b) rs))))

  pub send_list-Within :
      (l : Lane) (t : Turn)
      → (t.socket.type == type_invalid) ≡ false
      → Ensures Any (SentWithin t.socket.type) (send_list null_text strerror l t)
  unfolding send_list
  send_list-Within l t v =
      Ensures-if (is_tcp t.socket.protocol)
        (λ e. send_list_tcp-Within l t.kernel.answers t (lane l t.socket) v)
        (λ e. send_list_udp-Within l t.kernel.answers t (lane l t.socket))

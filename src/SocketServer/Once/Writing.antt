-- ===== src/SocketServer/Once/Writing.antt =====
-- `SendBuffer` of skynet-src/socket_server.cpp never tells the close of a socket.
use mathlib.Core.Path.{subst}
use skynet_cpp.Prelude.{
  ℕ, ◌==◌, false, not, ◌&&◌, ◌≡◌, refl, inl, inr, List, [], ◌∷◌, Option-cases, arith,
}
use skynet_cpp.Prelude.Run.{Run, assert}
use skynet_cpp.Prelude.Run.Ensures.{Ensures, Ensures-ok, Ensures-fault, Ensures-if, Ensures-bind}
use skynet_cpp.SocketServer.{WriteBuffer, Data, Turn, ignored, type_invalid}
use skynet_cpp.SocketServer.Closing.{is_empty, enable_write}
use skynet_cpp.SocketServer.Sending.{
  high_lane, low_lane, positive, send_buffer_empty, list_uncomplete, raise_uncomplete, drained,
  send_list, stopped, after_low, after_high, send_lists, direct_first, send_buffer,
}
use skynet_cpp.SocketServer.Once.{
  Any, all_outcomes, told, Within, SentWithin, type-enable_write, close_forced, send_list-Within,
}

-- A result that does not tell the close, for a socket whose type is the same.
pub Within-same : (ty : ℕ) (r : ℕ × Turn) → told r.0 ≡ 0 → r.1.socket.type ≡ ty → Within ty r
Within-same ty r e same = rw (e, same) (omega arith)

told-stopped : (ret : ℕ) → told (stopped ret) ≡ 0
told-stopped ret = ground arith

raise-Within :
    (t : Turn) (bs : List WriteBuffer)
    → Ensures Any (λ u. u.socket.type ≡ t.socket.type) (raise_uncomplete t bs)
unfolding raise_uncomplete
raise-Within t [] = Ensures-fault tt
raise-Within t (b ∷ bs) =
    Ensures-bind (all_outcomes (assert (is_empty t.socket.high))) (λ u h. Ensures-ok refl)

type-direct_first :
    (behind : List ℕ) (t : Turn) → (direct_first behind t).socket.type ≡ t.socket.type
type-direct_first behind t = elim (Option-cases t.socket.dw_buffer) [
  | inl e ↦ rw e refl
  | inr (text, e) ↦ rw e refl
]

module _ (null_text : Run Data) (strerror : List ℕ) where
  drained-Within : (t : Turn) → Ensures Any (Within t.socket.type) (drained null_text strerror t)
  unfolding drained
  drained-Within t =
      let same = type-enable_write t false in
      Ensures-bind (all_outcomes (assert (send_buffer_empty t.socket && t.socket.wb_size == 0)))
        (λ u h.
          Ensures-if t.socket.closing
            (λ e. close_forced null_text t.socket.type ignored t (omega arith))
            (λ e.
              Ensures-if (enable_write t false).0 (λ e'. Ensures-ok (rw same (omega arith)))
                (λ e'.
                  Ensures-if (positive (enable_write t false).1.socket.warn_size)
                    (λ e''.
                      Ensures-bind (all_outcomes null_text)
                        (λ d h'. Ensures-ok (rw same (omega arith))))
                    (λ e''. Ensures-ok (rw same (omega arith))))))

  stopped-Within : (ty : ℕ) (r : ℕ × Turn) → Within ty r → Within ty (stopped r.0, r.1)
  stopped-Within ty r w = rw (told-stopped r.0) (omega (arith, w))

  same_type :
      (ty : ℕ) (r : ℕ × Turn)
      → SentWithin ty r
      → not (r.0 == ignored) ≡ false
      → r.1.socket.type ≡ ty
  same_type ty r (inl h) e = h.1
  same_type ty r (inr h) e = absurd (ground (arith, h.0, e))

  bounded : (ty : ℕ) (r : ℕ × Turn) → SentWithin ty r → Within ty r
  bounded ty r (inl h) = Within-same ty r (rw (h.0) refl) h.1
  bounded ty r (inr h) = h.1

  after_low-Within :
      (ty : ℕ) (r : ℕ × Turn)
      → SentWithin ty r
      → Ensures Any (Within ty) (after_low null_text strerror r.0 r.1)
  unfolding after_low
  after_low-Within ty r h =
      let t = r.1 in
      Ensures-if (not (r.0 == ignored)) (λ e. Ensures-ok (stopped-Within ty r (bounded ty r h)))
        (λ e.
          let same = same_type ty r h e in
          Ensures-if (list_uncomplete t.socket.low)
            (λ u.
              Ensures-bind (raise-Within t t.socket.low)
                (λ v s. Ensures-ok (rw (s, same) (omega arith))))
            (λ u.
              Ensures-if (is_empty t.socket.low)
                (λ no_low.
                  subst (λ x. Ensures Any (Within x) (drained null_text strerror t)) same
                    (drained-Within t))
                (λ left. Ensures-ok (rw same (omega arith)))))

  after_high-Within :
      (ty : ℕ) (r : ℕ × Turn)
      → (ty == type_invalid) ≡ false
      → SentWithin ty r
      → Ensures Any (Within ty) (after_high null_text strerror r.0 r.1)
  unfolding after_high
  after_high-Within ty r v h =
      let t = r.1 in
      Ensures-if (not (r.0 == ignored)) (λ e. Ensures-ok (stopped-Within ty r (bounded ty r h)))
        (λ e.
          let same = same_type ty r h e in
          Ensures-if (not (is_empty t.socket.high)) (λ left. Ensures-ok (rw same (omega arith)))
            (λ no_high.
              Ensures-if (is_empty t.socket.low)
                (λ no_low.
                  subst (λ x. Ensures Any (Within x) (drained null_text strerror t)) same
                    (drained-Within t))
                (λ left.
                  Ensures-bind
                    (subst
                      (λ x. Ensures Any (SentWithin x) (send_list null_text strerror low_lane t))
                      same (send_list-Within null_text strerror low_lane t (rw same v)))
                    (after_low-Within ty))))

  send_lists-Within :
      (t : Turn)
      → (t.socket.type == type_invalid) ≡ false
      → Ensures Any (Within t.socket.type) (send_lists null_text strerror t)
  unfolding send_lists
  send_lists-Within t v =
      Ensures-bind (all_outcomes (assert (not (list_uncomplete t.socket.low)))) (λ u h.
        Ensures-bind (send_list-Within null_text strerror high_lane t v)
          (λ r s. after_high-Within t.socket.type r v s))

  pub send_buffer-Within :
      (behind : List ℕ) (t : Turn)
      → (t.socket.type == type_invalid) ≡ false
      → Ensures Any (Within t.socket.type) (send_buffer null_text strerror behind t)
  unfolding send_buffer
  send_buffer-Within behind t v =
      let same = type-direct_first behind t in
      Ensures-if t.socket.dw_locked (λ e. Ensures-ok (omega arith))
        (λ e.
          subst
            (λ x. Ensures Any (Within x) (send_lists null_text strerror (direct_first behind t)))
            same (send_lists-Within (direct_first behind t) (rw same v)))

-- ===== src/Harbor/Receive/Slaves.antt =====
-- The states of a connection in `push_socket_data`, and its loop.
use mathlib.Core.Path.{subst}
use native.Mathlib.Decide.{ℕ_discrete}
use skynet_cpp.Prelude.{
  ℕ, zero, suc, ◌+◌, ◌-◌, ◌^◌, ◌<◌, ◌==◌, ltb, ◌≡◌, ◌≢◌, refl, sym, ap, ◌∙◌, inl, inr, Bool, false,
  Option, none, some, List, [], ◌∷◌, ◌++◌, get_or, take, arith, Bool-cases, Option-cases,
}
use skynet_cpp.Prelude.Run.Ensures.{
  Ensures, Ensures-ok, Ensures-fault, Ensures-bind, Ensures-if, Ensures-map,
}
use skynet_cpp.Prelude.Run.{ok, fault, out_of_bounds, ◌>>=◌}
use skynet_cpp.Harbor.Slave.{
  HarborMsg, no_message, Slave, Harbor, Call, report_error, socket_send_buffer, c_string, put_slave,
  status_handshake, send_remote, send_all, dispatch_queue, close_harbor,
}
use skynet_cpp.Harbor.Slave.Waiting.{dispatch_queue-contents}
use skynet_cpp.Harbor.Wire.{header_cookie_length, to_bigendian, header_to_message}
use skynet_cpp.Harbor.Queue.Refine.{contents}
use skynet_cpp.Harbor.Receive.{
  status_header, status_content, remote_max, shake_hands, round, receive, find_slave,
  push_socket_data,
}
use skynet_cpp.Harbor.Receive.Bounds.{
  OutOfBounds, Continues, bytes_at-Ensures, Continues-from, put_other, put_self,
  close_harbor-Continues, read_content-Continues, read_header-Continues, IsReading,
}

dispatch_queue-none :
    (h : Harbor) (id : ℕ)
    → (h.s id).fd ≢ 0
    → (h.s id).queue ≡ none
    → dispatch_queue h id ≡ ok ([], h)
unfolding dispatch_queue
dispatch_queue-none h id up e = let off : ((h.s id).fd == 0) ≡ false = ground arith in rw (off, e)

pub send_remote-Ensures :
    (fd : ℕ) (m : HarborMsg) → Ensures OutOfBounds (λ calls. Unit {0}) (send_remote fd m)
unfolding send_remote
send_remote-Ensures fd m =
    Ensures-if (ltb (2 ^ 32 - 1) (m.size + header_cookie_length)) (λ large. Ensures-ok tt)
      (λ fits. with_text (
        c_string (
          to_bigendian (m.size + header_cookie_length)
          ++ take m.size m.buffer
          ++ header_to_message m.header)))
  where
    with_text :
        (text : Option (List ℕ))
        → Ensures OutOfBounds
            (λ calls. Unit {0})
            (elim text [
              | none ↦ fault out_of_bounds
              | some str ↦ ok (socket_send_buffer fd str (m.size + header_cookie_length + 4) ∷ [])
            ])
    with_text none = Ensures-fault refl
    with_text (some str) = Ensures-ok tt

pub send_all-Ensures :
    (fd : ℕ) (ms : List HarborMsg) → Ensures OutOfBounds (λ calls. Unit {0}) (send_all fd ms)
unfolding send_all
send_all-Ensures fd [] = Ensures-ok tt
send_all-Ensures fd (m ∷ ms) =
    Ensures-bind (send_remote-Ensures fd m)
      (λ calls u. Ensures-bind (send_all-Ensures fd ms) (λ more u. Ensures-ok tt))

-- the state behind a handshake
abbrev Ready : Harbor → ℕ → List Call × Harbor → Type 0
Ready h id (calls, k) =
    IsReading (k.s id) × ((k.s id).status ≡ status_header) × ((i : ℕ) → i ≢ id → k.s i ≡ h.s i)

dispatch_queue-Ready :
    (h : Harbor) (id : ℕ)
    → IsReading (h.s id)
    → (h.s id).status ≡ status_header
    → (h.s id).fd ≢ 0
    → Ensures OutOfBounds (Ready h id) (dispatch_queue h id)
dispatch_queue-Ready h id r head up = elim (Option-cases (h.s id).queue) [
  | inl e ↦
      subst (Ensures OutOfBounds (Ready h id)) (sym (dispatch_queue-none h id up e))
        (Ensures-ok (r, head, λ i ne. refl))
  | inr (q, e) ↦
      subst (Ensures OutOfBounds (Ready h id))
        (sym (dispatch_queue-contents h id q up e (rw e at r.sound)))
        (Ensures-bind (send_all-Ensures (h.s id).fd (contents no_message q)) (λ calls u.
          let sent : Slave = record (h.s id) { queue = none } in
          let same = put_self h id sent in
          Ensures-ok (
            subst IsReading (sym same) (record {
              four = r.four;
              in_header = r.in_header;
              in_content = r.in_content;
              sound = tt;
            }),
            ap (λ x. x.status) same ∙ head,
            put_other h id sent,
          )))
]

module _ (accepts : Call → Bool) where
  shake_hands-Continues :
      (h : Harbor) (id : ℕ) (buffer : List ℕ) (pos size : ℕ)
      → IsReading (h.s id)
      → (h.s id).status ≡ status_handshake
      → (h.s id).fd ≢ 0
      → Ensures OutOfBounds (Continues h id size) (shake_hands accepts h id buffer pos size)
  unfolding shake_hands
  shake_hands-Continues h id buffer pos size r new up =
      let s = h.s id in
      let shaken : Slave = record s { status = status_header } in
      let k = put_slave id shaken h in
      let same = put_self h id shaken in
      let reading : IsReading (k.s id) = subst IsReading (sym same) (record {
        four = r.four;
        in_header = λ e. r.in_header (inl new);
        in_content = λ e. absurd (omega arith);
        sound = r.sound;
      }) in
      Ensures-bind (bytes_at-Ensures buffer pos 1) (λ remote_id len.
        Ensures-if (get_or remote_id 0 0 == id)
          (λ hit.
            Ensures-bind
              (dispatch_queue-Ready k id reading (ap (λ x. x.status) same)
                (λ e. up (sym (ap (λ x. x.fd) same) ∙ e)))
              (λ (calls, h') (reading', head', others').
                let off : (i : ℕ) → i ≢ id → h'.s i ≡ h.s i =
                  λ i ne. others' i ne ∙ put_other h id shaken i ne in
                Ensures-if (size == 0) (λ z. Ensures-fault refl)
                  (λ some_bytes.
                    Ensures-if (size == 1)
                      (λ one.
                        Ensures-ok
                          (reading', off, λ p n e. (let z : 0 ≡ n = cc e in ground arith, head')))
                      (λ more.
                        Ensures-bind
                          (read_header-Continues accepts h' id buffer (pos + 1) (size - 1) reading'
                            head')
                          (λ (more_calls, h'', next) c. Ensures-ok (
                            Continues-from h h' id (size - 1) size off (omega arith)
                              (calls ++ more_calls, h'', next) c))))))
          (λ miss. Ensures-ok (
            close_harbor-Continues h h id size (report_error ∷ (close_harbor h id).0) (λ i ne. refl)
              r.four)))

  round-Continues :
      (h : Harbor) (id : ℕ) (buffer : List ℕ) (pos size : ℕ)
      → IsReading (h.s id)
      → ((h.s id).status ≡ status_handshake → (h.s id).fd ≢ 0)
      → Ensures OutOfBounds (Continues h id size) (round accepts h id buffer pos size)
  unfolding round
  round-Continues h id buffer pos size r up =
      Ensures-if ((h.s id).status == status_handshake)
        (λ new.
          let e : (h.s id).status ≡ status_handshake = ground arith in
          shake_hands-Continues h id buffer pos size r e (up e))
        (λ old.
          Ensures-if ((h.s id).status == status_header)
            (λ head. read_header-Continues accepts h id buffer pos size r (ground arith))
            (λ other.
              Ensures-if ((h.s id).status == status_content)
                (λ content. read_content-Continues accepts h id buffer pos size r (ground arith))
                (λ idle. Ensures-ok (r, (λ i ne. refl), λ p n e. absurd (cc e)))))

  -- what the whole loop leaves
  abbrev pub Leaves : Harbor → ℕ → List Call × Harbor → Type 0
  Leaves h id (calls, after) = IsReading (after.s id) × ((i : ℕ) → i ≢ id → after.s i ≡ h.s i)

  receive-Leaves :
      (fuel : ℕ) (h : Harbor) (id : ℕ) (buffer : List ℕ) (pos size : ℕ)
      → size < fuel
      → IsReading (h.s id)
      → ((h.s id).status ≡ status_handshake → (h.s id).fd ≢ 0)
      → Ensures OutOfBounds (Leaves h id) (receive accepts fuel h id buffer pos size)
  unfolding receive
  receive-Leaves zero h id buffer pos size enough r up = absurd (omega arith)
  receive-Leaves (suc fuel) h id buffer pos size enough r up =
      Ensures-bind (round-Continues h id buffer pos size r up) (λ (calls, h', next) c.
        continue calls h' next c
          (λ p n lt r' up'. receive-Leaves fuel h' id buffer p n (omega arith) r' up'))
    where
      continue :
          (calls : List Call) (h' : Harbor) (next : Option (ℕ × ℕ))
          → Continues h id size (calls, h', next)
          → ((p n : ℕ)
              → n < size
              → IsReading (h'.s id)
              → ((h'.s id).status ≡ status_handshake → (h'.s id).fd ≢ 0)
              → Ensures OutOfBounds (Leaves h' id) (receive accepts fuel h' id buffer p n))
          → Ensures OutOfBounds (Leaves h id) (elim next [
            | none ↦ ok (calls, h')
            | some (p, n) ↦
                receive accepts fuel h' id buffer p n >>= λ (more, h''). ok (calls ++ more, h'')
          ])
      continue calls h' none (r', others, ongoing) ih = Ensures-ok (r', others)
      continue calls h' (some (p, n)) (r', others, ongoing) ih =
          let (lt, head) = ongoing p n refl in
          Ensures-bind (ih p n lt r' (λ e. absurd (omega (arith, head, e))))
            (λ (more, h'') (r'', others'). Ensures-ok (r'', λ i ne. others' i ne ∙ others i ne))

find_slave-found :
    (n i : ℕ) (h : Harbor) (fd : ℕ) → find_slave n i h fd ≢ 0 → (h.s (find_slave n i h fd)).fd ≡ fd
unfolding find_slave
find_slave-found zero i h fd ne = absurd (ne refl)
find_slave-found (suc n) i h fd ne = elim (Bool-cases ((h.s i).fd == fd)) [
  | inl here ↦ rw here (ground arith)
  | inr other ↦ rw other (find_slave-found n (i + 1) h fd (rw other at ne))
]

-- For a socket that is not 0, and slaves that are in order (four bytes of a length, fewer than four
-- read before and in a header, and no more than the length of the message in the content),
-- push_socket_data leaves all slaves in order, or stops at a bad access: its loop ends, no assertion
-- fails, and no byte is written past the four of a length.
pub push_socket_data-IsReading :
    (accepts : Call → Bool) (h : Harbor) (fd : ℕ) (buffer : List ℕ) (ud : ℕ)
    → fd ≢ 0
    → ((i : ℕ) → IsReading (h.s i))
    → Ensures OutOfBounds
        (λ (calls, after). (i : ℕ) → IsReading (after.s i))
        (push_socket_data accepts h fd buffer ud)
unfolding push_socket_data
push_socket_data-IsReading accepts h fd buffer ud some_fd r =
    let id = find_slave (remote_max - 1) 1 h fd in
    Ensures-if (id == 0) (λ none_found. Ensures-ok r)
      (λ one.
        let there = find_slave-found (remote_max - 1) 1 h fd (ground arith) in
        Ensures-map
          (λ (calls, after) (here, others) i. elim (ℕ_discrete i id) [
            | yes e ↦ subst (λ j. IsReading (after.s j)) (sym e) here
            | no ne ↦ subst IsReading (sym (others i ne)) (r i)
          ])
          (receive-Leaves accepts (ud + 2) h id buffer 0 ud (omega arith) (r id)
            (λ e z. some_fd (sym there ∙ z))))

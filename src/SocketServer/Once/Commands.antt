-- ===== src/SocketServer/Once/Commands.antt =====
-- Every command of `CtrlCmd` in skynet-src/socket_server.cpp tells the close of its socket at most as often as
-- its type allows.
use mathlib.Core.Path.{subst}
use skynet_cpp.Prelude.{
  ℕ, ◌==◌, ◌%◌, ◌^◌, Bool, true, false, not, ◌&&◌, ◌||◌, ◌≡◌, refl, inl, inr, Option, none, some,
  List, [], ◌∷◌, get_or, Bool-cases, arith,
}
use skynet_cpp.Prelude.Run.{Run, assert}
use skynet_cpp.Prelude.Run.Ensures.{Ensures, Ensures-ok, Ensures-fault, Ensures-if, Ensures-bind}
use skynet_cpp.SocketServer.{
  Socket, tcp, protocol_code, Data, Turn, is_tcp, type_invalid, type_half_close_read,
}
use skynet_cpp.SocketServer.Ids.{socket_invalid}
use skynet_cpp.SocketServer.Closing.{
  enable_write, nomore_sending_data, halfclose_read, close_socket,
}
use skynet_cpp.SocketServer.Sending.{udp_socket_address, send_buffer_empty}
use skynet_cpp.SocketServer.Control.{
  Candidate, no_socket, refused, in_progress, connected, dial, get_address,
}
use skynet_cpp.SocketServer.Ctrl.{
  Request, resume_request, pause_request, bind_request, listen_request, close_request, open_request,
  exit_request, write_request, send_request, send_udp_request, set_udp_request, set_opt_request,
  udp_request, unknown_request, RequestSend, Fate, dropped, logged, goes, fate, by_fate, target,
  datagram_taken, took_all, send_datagram, send_open, send_socket, dec_sending_ref, set_udp_address,
  opening, open_with, open_found, open_socket, ctrl_cmd,
}
use skynet_cpp.SocketServer.Once.{
  Any, all_outcomes, can_close, force_close-Invalid, close_read-HalfClosed,
}
use skynet_cpp.SocketServer.Once.Requests.{
  Tells, tells, fresh, gone, like, new_fd-Reserve, listen_socket-Tells, bind_socket-Tells,
  add_udp_socket-Tells, pause_socket-Tells, trigger_write-Tells, set_opt_socket-Tells, resume-Tells,
}

socket-dial : (cs : List Candidate) (t : Turn) → (dial cs t).1.socket ≡ t.socket
unfolding dial
socket-dial [] t = refl
socket-dial (no_socket ∷ cs) t = socket-dial cs t
socket-dial (refused fd ∷ cs) t = socket-dial cs _
socket-dial (in_progress fd ∷ cs) t = refl
socket-dial (connected fd name ∷ cs) t = refl

-- A socket that was open and is open for reading no more, or gone.
pub closed_once :
    {ty : ℕ} {r : ℕ × Turn}
    → (ty == type_invalid) ≡ false
    → (ty == type_half_close_read) ≡ false
    → can_close r.1.socket.type ≡ 0
    → Tells ty r
closed_once {ty} {r} v h e = tells (rw e (ground (arith, v, h)))

valid_lem : (s : Socket) (id : ℕ) → socket_invalid s id ≡ false → (s.type == type_invalid) ≡ false
valid_lem s id e = ground (arith, e)

by_fate-Ensures :
    {P : ℕ × Turn → Type 0} (f : Fate) {a b c : Run (ℕ × Turn)}
    → Ensures Any P a
    → Ensures Any P b
    → Ensures Any P c
    → Ensures Any P (by_fate f a b c)
by_fate-Ensures dropped h k l = h
by_fate-Ensures logged h k l = k
by_fate-Ensures goes h k l = l

dec_sending_ref-type :
    (id : ℕ) (t : Turn) → Ensures Any (λ u. u.socket.type ≡ t.socket.type) (dec_sending_ref id t)
unfolding dec_sending_ref
dec_sending_ref-type id t =
    Ensures-if (t.socket.id == id && is_tcp t.socket.protocol)
      (λ e.
        Ensures-bind (all_outcomes (assert (not (t.socket.sending % 2 ^ 16 == 0))))
          (λ u h. Ensures-ok refl))
      (λ e. Ensures-ok refl)

set_udp_address-Tells :
    (id : ℕ) (address : List ℕ) (t : Turn)
    → Ensures Any (Tells t.socket.type) (set_udp_address id address t)
unfolding set_udp_address
set_udp_address-Tells id address t =
    Ensures-if (socket_invalid t.socket id) (λ e. Ensures-ok (like refl refl))
      (λ e.
        Ensures-if (not (get_or address 0 0 == protocol_code t.socket.protocol))
          (λ e'. Ensures-ok (like refl refl))
          (λ e'.
            Ensures-bind (all_outcomes (get_address t.socket.p))
              (λ a h. Ensures-ok (like refl refl))))

module _ (null_text : Run Data) where
  close_socket-Tells :
      (id : ℕ) (at_once : Bool) (t : Turn)
      → Ensures Any (Tells t.socket.type) (close_socket null_text id at_once t)
  unfolding close_socket
  close_socket-Tells id at_once t =
      Ensures-if (socket_invalid t.socket id) (λ e. Ensures-ok (like refl refl))
        (λ e.
          let v = valid_lem t.socket id e in
          Ensures-if (at_once || nomore_sending_data t.socket)
            (λ now. elim (Bool-cases (halfclose_read t.socket)) [
              | inl half ↦
                  rw half (
                    Ensures-bind (force_close-Invalid null_text t)
                      (λ u h. Ensures-ok (gone refl h)))
              | inr open_now ↦ rw open_now (
                  Ensures-bind (force_close-Invalid null_text t)
                    (λ u h. Ensures-ok (closed_once v open_now (rw h refl))))
            ])
            (λ later.
              Ensures-if (halfclose_read t.socket) (λ half. Ensures-ok (like refl refl))
                (λ open_now.
                  Ensures-bind (close_read-HalfClosed null_text _)
                    (λ u h. Ensures-ok (closed_once v open_now (rw h refl))))))

module _ (null_text : Run Data) (strerror : List ℕ) where
  send_datagram-Tells :
      (r : RequestSend) (address : Option (List ℕ)) (t : Turn)
      → Ensures Any (Tells t.socket.type) (send_datagram null_text strerror r address t)
  unfolding send_datagram
  send_datagram-Tells r address t = Ensures-bind (all_outcomes (target address t.socket)) (λ a h.
      Ensures-if ((udp_socket_address t.socket a).0 == 0) (λ e. Ensures-ok (like refl refl))
        (λ e. Ensures-bind (all_outcomes (datagram_taken t.kernel.answers r.sz)) (λ n h'.
          Ensures-if (took_all n.0 r.sz) (λ e'. Ensures-ok (like refl refl))
            (λ e'. Ensures-fault tt))))

  send_open-Tells :
      (r : RequestSend) (address : Option (List ℕ)) (t : Turn)
      → Ensures Any (Tells t.socket.type) (send_open null_text strerror r address t)
  unfolding send_open
  send_open-Tells r address t =
      Ensures-if (send_buffer_empty t.socket)
        (λ idle.
          Ensures-if (is_tcp t.socket.protocol) (λ e. Ensures-fault tt)
            (λ e. send_datagram-Tells r address t))
        (λ busy.
          Ensures-if (is_tcp t.socket.protocol) (λ e. Ensures-fault tt)
            (λ e. Ensures-bind (all_outcomes (target address t.socket)) (λ a h. Ensures-fault tt)))

  send_socket-Tells :
      (r : RequestSend) (address : Option (List ℕ)) (t : Turn)
      → Ensures Any (Tells t.socket.type) (send_socket null_text strerror r address t)
  unfolding send_socket
  send_socket-Tells r address t =
      by_fate-Ensures (fate r.id t.socket) (Ensures-ok (like refl refl))
        (Ensures-ok (like refl refl)) (send_open-Tells r address t)

  opening-Tells :
      (id fd opaque : ℕ) (c : Option (Option (List ℕ))) (d : Data) (t : Turn)
      → Ensures Any (Tells t.socket.type) (opening null_text strerror id fd opaque c d t)
  unfolding opening
  opening-Tells id fd opaque none d t =
      Ensures-bind (new_fd-Reserve t id fd tcp opaque true) (λ r h.
        Ensures-if (not r.0) (λ e. Ensures-ok (fresh h refl))
          (λ e.
            Ensures-if (enable_write r.1 true).0 (λ e'. Ensures-ok (fresh h refl))
              (λ e'. Ensures-ok (fresh h refl))))
  opening-Tells id fd opaque (some none) d t =
      Ensures-bind (new_fd-Reserve t id fd tcp opaque true) (λ r h.
        Ensures-if (not r.0) (λ e. Ensures-ok (fresh h refl)) (λ e. Ensures-ok (fresh h refl)))
  opening-Tells id fd opaque (some (some name)) d t =
      Ensures-bind (new_fd-Reserve t id fd tcp opaque true) (λ r h.
        Ensures-if (not r.0) (λ e. Ensures-ok (fresh h refl)) (λ e. Ensures-ok (fresh h refl)))

  open_with-Tells :
      (id opaque : ℕ) (d : Data) (c : Candidate) (t : Turn)
      → Ensures Any (Tells t.socket.type) (open_with null_text strerror id opaque d c t)
  unfolding open_with
  open_with-Tells id opaque d no_socket t = Ensures-ok (gone refl refl)
  open_with-Tells id opaque d (refused fd) t = Ensures-ok (gone refl refl)
  open_with-Tells id opaque d (in_progress fd) t = opening-Tells id fd opaque none d t
  open_with-Tells id opaque d (connected fd name) t = opening-Tells id fd opaque (some name) d t

  open_found-Tells :
      (id opaque : ℕ) (gai : List ℕ) (d : Data) (found : Option (List Candidate)) (t : Turn)
      → Ensures Any (Tells t.socket.type) (open_found null_text strerror id opaque gai d found t)
  unfolding open_found
  open_found-Tells id opaque gai d none t = Ensures-ok (gone refl refl)
  open_found-Tells id opaque gai d (some cs) t =
      subst
        (λ s.
          Ensures Any (Tells s.type)
            (open_with null_text strerror id opaque d (dial cs t).0 (dial cs t).1))
        (socket-dial cs t) (open_with-Tells id opaque d (dial cs t).0 (dial cs t).1)

  pub ctrl_cmd-Tells :
      (local_name : ℕ → Option (Option (List ℕ) × ℕ)) (gai : List ℕ)
      (resolve : List ℕ → ℕ → Option (List Candidate)) (q : Request) (t : Turn)
      → Ensures Any (Tells t.socket.type) (ctrl_cmd null_text strerror local_name gai resolve q t)
  unfolding ctrl_cmd open_socket
  ctrl_cmd-Tells local_name gai resolve (resume_request id opaque) t =
      Ensures-bind (all_outcomes null_text) (λ d h. Ensures-ok (resume-Tells id opaque d t))
  ctrl_cmd-Tells local_name gai resolve (pause_request id) t = Ensures-ok (pause_socket-Tells id t)
  ctrl_cmd-Tells local_name gai resolve (bind_request id fd opaque) t =
      bind_socket-Tells id fd opaque t
  ctrl_cmd-Tells local_name gai resolve (listen_request id fd opaque) t =
      listen_socket-Tells local_name strerror id fd opaque t
  ctrl_cmd-Tells local_name gai resolve (close_request id at_once) t =
      close_socket-Tells null_text id at_once t
  ctrl_cmd-Tells local_name gai resolve (open_request id opaque host port) t =
      Ensures-bind (all_outcomes null_text)
        (λ d h. open_found-Tells id opaque gai d (resolve host port) t)
  ctrl_cmd-Tells local_name gai resolve exit_request t =
      Ensures-bind (all_outcomes null_text) (λ d h. Ensures-ok (like refl refl))
  ctrl_cmd-Tells local_name gai resolve (write_request id) t = Ensures-ok (trigger_write-Tells id t)
  ctrl_cmd-Tells local_name gai resolve (send_request r) t =
      Ensures-bind (send_socket-Tells r none t) (λ sent h.
        Ensures-bind (dec_sending_ref-type r.id sent.1)
          (λ u same. Ensures-ok (tells (rw same h.bound))))
  ctrl_cmd-Tells local_name gai resolve (send_udp_request r address) t =
      send_socket-Tells r (some address) t
  ctrl_cmd-Tells local_name gai resolve (set_udp_request id address) t =
      set_udp_address-Tells id address t
  ctrl_cmd-Tells local_name gai resolve (set_opt_request id what value) t =
      Ensures-ok (set_opt_socket-Tells id what value t)
  ctrl_cmd-Tells local_name gai resolve (udp_request id fd v6 opaque) t =
      add_udp_socket-Tells id fd v6 opaque t
  ctrl_cmd-Tells local_name gai resolve unknown_request t = Ensures-ok (like refl refl)

-- ===== src/SocketServer/Once/Events.antt =====
-- Every event of a socket in skynet-src/socket_server.cpp tells its close at most as often as its type allows.
use skynet_cpp.Prelude.{
  ℕ, ◌==◌, ltb, ◌*◌, min, if◌then◌else◌, false, ◌&&◌, ◌≡◌, refl, inl, inr, Option, none, some, List,
  Bool-cases, arith,
}
use skynet_cpp.Prelude.Run.{Run}
use skynet_cpp.Prelude.Run.Ensures.{Ensures, Ensures-ok, Ensures-if, Ensures-bind}
use skynet_cpp.SocketServer.{
  Data, Turn, is_tcp, protocol_code, socket_udp, socket_more, type_invalid, type_connected,
  type_connecting, type_half_close_read, type_half_close_write, min_read_buffer,
}
use skynet_cpp.SocketServer.Closing.{enable_write, nomore_sending_data, halfclose_read}
use skynet_cpp.SocketServer.Control.{set_type}
use skynet_cpp.SocketServer.Events.{
  Received, nothing_yet, broken, got, get_size, Ready, end_of_file, take_in, received_tcp,
  forward_message_tcp, forward_message_udp, named, report_connect, read_event, serve_event,
}
use skynet_cpp.SocketServer.Once.{
  Any, all_outcomes, can_close, force_close-Invalid, close_read-HalfClosed,
}
use skynet_cpp.SocketServer.Once.Writing.{send_buffer-Within}
use skynet_cpp.SocketServer.Once.Requests.{Tells, tells, gone, like, if-Tells}
use skynet_cpp.SocketServer.Once.Commands.{closed_once}

-- The result and the state of an event, without what is left of it.
abbrev pub TellsEvent : ℕ → ℕ × Option Ready × Turn → Type 0
TellsEvent ty r = Tells ty (r.0, r.2)

module _ (null_text : Run Data) (wild : Run (Unit {0})) (strerror : List ℕ) where
  end_of_file-Tells :
      (t : Turn)
      → (t.socket.type == type_invalid) ≡ false
      → Ensures Any (Tells t.socket.type) (end_of_file null_text wild strerror t)
  unfolding end_of_file
  end_of_file-Tells t v =
      Ensures-if t.socket.closing
        (λ e.
          Ensures-if (nomore_sending_data t.socket)
            (λ e'. Ensures-bind (force_close-Invalid null_text t) (λ u h. Ensures-ok (gone refl h)))
            (λ e'. Ensures-ok (like refl refl)))
        (λ e.
          Ensures-if (t.socket.type == type_half_close_read) (λ e'. Ensures-ok (like refl refl))
            (λ open_now.
              Ensures-if (t.socket.type == type_half_close_write)
                (λ e'.
                  Ensures-bind (force_close-Invalid null_text t)
                    (λ u h. Ensures-ok (closed_once v open_now (rw h refl))))
                (λ e'.
                  Ensures-bind (close_read-HalfClosed null_text t)
                    (λ u h. Ensures-ok (closed_once v open_now (rw h refl))))))

  take_in-Tells :
      (sz n : ℕ) (bytes_in : List ℕ) (t : Turn)
      → Tells t.socket.type (take_in null_text wild strerror sz n bytes_in t)
  unfolding take_in
  take_in-Tells sz n bytes_in t =
      if-Tells (halfclose_read t.socket) (λ e. like refl refl)
        (λ e.
          if-Tells (n == sz) (λ e'. like refl refl)
            (λ e'.
              if-Tells (ltb min_read_buffer sz && ltb (n * 2) sz) (λ e''. like refl refl)
                (λ e''. like refl refl)))

  received_tcp-Tells :
      (a : Received) (sz : ℕ) (t : Turn)
      → (t.socket.type == type_invalid) ≡ false
      → Ensures Any (Tells t.socket.type) (received_tcp null_text wild strerror a sz t)
  unfolding received_tcp
  received_tcp-Tells nothing_yet sz t v = Ensures-ok (like refl refl)
  received_tcp-Tells broken sz t v = Ensures-ok (like refl refl)
  received_tcp-Tells (got v4 bytes_in n) sz t v =
      Ensures-if (min n sz == 0) (λ e. end_of_file-Tells t v)
        (λ e. Ensures-ok (take_in-Tells sz (min n sz) bytes_in t))

  forward_message_tcp-Tells :
      (a : Received) (t : Turn)
      → (t.socket.type == type_invalid) ≡ false
      → Ensures Any (Tells t.socket.type) (forward_message_tcp null_text wild strerror a t)
  unfolding forward_message_tcp
  forward_message_tcp-Tells a t v =
      Ensures-bind (all_outcomes (get_size t.socket.p))
        (λ sz h. Ensures-bind (all_outcomes wild) (λ u h'. received_tcp-Tells a sz t v))

  forward_message_udp-Tells :
      (a : Received) (t : Turn)
      → Ensures Any (Tells t.socket.type) (forward_message_udp null_text wild strerror a t)
  unfolding forward_message_udp
  forward_message_udp-Tells nothing_yet t = Ensures-ok (like refl refl)
  forward_message_udp-Tells broken t =
      Ensures-bind (force_close-Invalid null_text t) (λ u h. Ensures-ok (gone refl h))
  forward_message_udp-Tells (got v4 bytes_in n) t =
      Ensures-if (protocol_code t.socket.protocol == (if v4 then 1 else 2))
        (λ e. Ensures-bind (all_outcomes wild) (λ u h. Ensures-ok (like refl refl)))
        (λ e. Ensures-ok (like refl refl))

  named-Tells :
      (ty : ℕ) (peer : Option (List ℕ)) (t : Turn)
      → can_close ty ≡ 1
      → Ensures Any (Tells ty) (named null_text wild strerror peer t)
  unfolding named
  named-Tells ty (some host) t e = Ensures-ok (tells (rw e (ground arith)))
  named-Tells ty none t e =
      Ensures-bind (all_outcomes null_text) (λ d h. Ensures-ok (tells (rw e (ground arith))))

  pub report_connect-Tells :
      (error peer : Option (List ℕ)) (t : Turn)
      → t.socket.type ≡ type_connecting
      → Ensures Any (Tells t.socket.type) (report_connect null_text wild strerror error peer t)
  unfolding report_connect
  report_connect-Tells (some error) peer t c =
      Ensures-bind (force_close-Invalid null_text t) (λ u h. Ensures-ok (gone refl h))
  report_connect-Tells none peer t c =
      let open_now : can_close t.socket.type ≡ 1 = rw c refl in
      let u = set_type type_connected t in
      Ensures-if (nomore_sending_data u.socket)
        (λ e.
          Ensures-if (enable_write u false).0
            (λ e'.
              Ensures-bind (force_close-Invalid null_text (enable_write u false).1)
                (λ v h. Ensures-ok (gone refl h)))
            (λ e'. named-Tells t.socket.type peer (enable_write u false).1 open_now))
        (λ e. named-Tells t.socket.type peer u open_now)

  read_event-Tells :
      (ready : Ready) (a : Received) (t : Turn)
      → (t.socket.type == type_invalid) ≡ false
      → Ensures Any (TellsEvent t.socket.type) (read_event null_text wild strerror ready a t)
  unfolding read_event
  read_event-Tells ready a t v =
      Ensures-if (is_tcp t.socket.protocol)
        (λ e. Ensures-bind (forward_message_tcp-Tells a t v) (λ r h.
          Ensures-if (r.0 == socket_more) (λ e'. Ensures-ok (tells (omega (arith, h.bound))))
            (λ e'. Ensures-ok h)))
        (λ e. Ensures-bind (forward_message_udp-Tells a t) (λ r h.
          Ensures-if (r.0 == socket_udp) (λ e'. Ensures-ok (tells (omega (arith, h.bound))))
            (λ e'. Ensures-ok h)))

  pub serve_event-Tells :
      (behind : List ℕ) (ready : Ready) (a : Received) (error : List ℕ) (t : Turn)
      → (t.socket.type == type_invalid) ≡ false
      → Ensures Any
          (TellsEvent t.socket.type)
          (serve_event null_text wild strerror behind ready a error t)
  unfolding serve_event
  serve_event-Tells behind ready a error t v =
      Ensures-if ready.read (λ e. read_event-Tells ready a t v)
        (λ e.
          Ensures-if ready.write
            (λ e'.
              Ensures-bind (send_buffer-Within null_text strerror behind t v)
                (λ r h. Ensures-ok (tells h)))
            (λ e'.
              Ensures-if ready.error (λ f. Ensures-ok (like refl refl))
                (λ f.
                  Ensures-if ready.eof
                    (λ g. elim (Bool-cases (halfclose_read t.socket)) [
                      | inl half ↦ rw half (
                          Ensures-bind (force_close-Invalid null_text t)
                            (λ u h. Ensures-ok (gone refl h)))
                      | inr open_now ↦ rw open_now (
                          Ensures-bind (force_close-Invalid null_text t)
                            (λ u h. Ensures-ok (closed_once v open_now (rw h refl))))
                    ])
                    (λ g. Ensures-ok (like refl refl)))))

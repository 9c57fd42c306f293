-- ===== src/SocketServer/Once/Requests.antt =====
-- The handlers that start a socket or switch its events, in skynet-src/socket_server.cpp, tell the close of the
-- socket at most as often as its type allows.
use skynet_cpp.Prelude.{
  ℕ, ◌==◌, if◌then◌else◌, Bool, true, false, not, ◌≡◌, refl, inl, inr, Option, none, some, List,
  Bool-cases, arith,
}
use skynet_cpp.Prelude.Run.{Run, ok}
use skynet_cpp.Prelude.Run.Ensures.{
  Ensures, Ensures-ok, Ensures-fault, Ensures-if, Ensures-bind, Ensures-map,
}
use skynet_cpp.SocketServer.{
  Socket, Protocol, tcp, udp, udp_v6, Data, bytes, socket_err, Turn, socket_open, type_invalid,
  type_reserve, type_plisten, type_connected, type_ip_accept,
}
use skynet_cpp.SocketServer.Ids.{socket_invalid}
use skynet_cpp.SocketServer.Closing.{enable_read, enable_write, new_fd, halfclose_read}
use skynet_cpp.SocketServer.Control.{
  listen_socket, bind_socket, resume, pause_socket, trigger_write, set_opt_socket, get_address,
  add_udp_socket, answer, set_type,
}
use skynet_cpp.SocketServer.Once.{
  Any, all_outcomes, can_close, told, Within, type-enable_write, type-enable_read,
}
use skynet_cpp.SocketServer.Once.Writing.{Within-same}

-- `Within`, by which its two arguments can be told.
pub record Tells (ty : ℕ) (r : ℕ × Turn) : Type 0 where
  pub bound : Within ty r

pub tells : {ty : ℕ} {r : ℕ × Turn} → Within ty r → Tells ty r
tells h = record { bound = h }

-- A socket that starts may be closed once, whatever it becomes.
pub fresh : {ty : ℕ} {r : ℕ × Turn} → ty ≡ type_reserve → told r.0 ≡ 0 → Tells ty r
fresh {ty} {r} h e = tells (rw (e, h) (ground arith))

pub gone : {ty : ℕ} {r : ℕ × Turn} → told r.0 ≡ 0 → r.1.socket.type ≡ type_invalid → Tells ty r
gone {ty} {r} e h = tells (rw (e, h) (omega arith))

-- A socket that keeps its type.
pub like : {ty : ℕ} {r : ℕ × Turn} → told r.0 ≡ 0 → r.1.socket.type ≡ ty → Tells ty r
like {ty} {r} e h = tells (Within-same ty r e h)

pub if-Tells :
    {ty : ℕ} (b : Bool) {r s : ℕ × Turn}
    → (b ≡ true → Tells ty r)
    → (b ≡ false → Tells ty s)
    → Tells ty (if b then r else s)
if-Tells true h k = h refl
if-Tells false h k = k refl

reserve_lem : (s : Socket) → (s.type == type_reserve) ≡ true → s.type ≡ type_reserve
reserve_lem s e = ground (arith, e)

new_fd_outcomes :
    (t : Turn) (id fd : ℕ) (p : Protocol) (opaque : ℕ) (reading : Bool)
    → Ensures Any (λ r. Unit {0}) (new_fd t id fd p opaque reading)
new_fd_outcomes t id fd p opaque reading = all_outcomes (new_fd t id fd p opaque reading)

pub new_fd-Reserve :
    (t : Turn) (id fd : ℕ) (p : Protocol) (opaque : ℕ) (reading : Bool)
    → Ensures Any (λ r. t.socket.type ≡ type_reserve) (new_fd t id fd p opaque reading)
unfolding new_fd
new_fd-Reserve t id fd p opaque reading = elim (Bool-cases (t.socket.type == type_reserve)) [
  | inl e ↦ Ensures-map (λ r h. reserve_lem t.socket e) (new_fd_outcomes t id fd p opaque reading)
  | inr e ↦ rw e (Ensures-fault tt)
]

module _ (local_name : ℕ → Option (Option (List ℕ) × ℕ)) (strerror : List ℕ) where
  pub listen_socket-Tells :
      (id fd opaque : ℕ) (t : Turn)
      → Ensures Any (Tells t.socket.type) (listen_socket local_name strerror id fd opaque t)
  unfolding listen_socket
  listen_socket-Tells id fd opaque t =
      Ensures-bind (new_fd-Reserve t id fd tcp opaque false) (λ r h.
        Ensures-if (not r.0) (λ e. Ensures-ok (fresh h refl))
          (λ e.
            elim (local_name fd)
              as (λ n. Ensures Any (Tells t.socket.type) (elim n as (λ n. Run (ℕ × Turn)) [
                | none ↦
                    ok (socket_err, answer id opaque 0 (bytes strerror) (set_type type_plisten r.1))
                | some (none, port) ↦
                    ok (socket_err, answer id opaque 0 (bytes strerror) (set_type type_plisten r.1))
                | some (some host, port) ↦
                    ok (socket_open, answer id opaque port (bytes host) (set_type type_plisten r.1))
              ])) [
                | none ↦ Ensures-ok (fresh h refl)
                | some (none, port) ↦ Ensures-ok (fresh h refl)
                | some (some host, port) ↦ Ensures-ok (fresh h refl)
              ]))

pub bind_socket-Tells :
    (id fd opaque : ℕ) (t : Turn) → Ensures Any (Tells t.socket.type) (bind_socket id fd opaque t)
unfolding bind_socket
bind_socket-Tells id fd opaque t =
    Ensures-bind (new_fd-Reserve t id fd tcp opaque true) (λ r h.
      Ensures-if (not r.0) (λ e. Ensures-ok (fresh h refl)) (λ e. Ensures-ok (fresh h refl)))

pub add_udp_socket-Tells :
    (id fd : ℕ) (v6 : Bool) (opaque : ℕ) (t : Turn)
    → Ensures Any (Tells t.socket.type) (add_udp_socket id fd v6 opaque t)
unfolding add_udp_socket
add_udp_socket-Tells id fd v6 opaque t =
    Ensures-bind (new_fd-Reserve t id fd (if v6 then udp_v6 else udp) opaque true) (λ r h.
      Ensures-if (not r.0) (λ e. Ensures-ok (fresh h refl))
        (λ e.
          Ensures-bind (all_outcomes (get_address r.1.socket.p))
            (λ a h'. Ensures-ok (fresh h refl))))

pub pause_socket-Tells : (id : ℕ) (t : Turn) → Tells t.socket.type (pause_socket id t)
unfolding pause_socket
pause_socket-Tells id t =
    let same = type-enable_read t false in
    if-Tells (socket_invalid t.socket id) (λ e. tells (omega arith))
      (λ e. if-Tells (enable_read t false).0 (λ e'. like refl same) (λ e'. like refl same))

pub trigger_write-Tells : (id : ℕ) (t : Turn) → Tells t.socket.type (trigger_write id t)
unfolding trigger_write
trigger_write-Tells id t =
    let same = type-enable_write t true in
    if-Tells (socket_invalid t.socket id) (λ e. tells (omega arith))
      (λ e. if-Tells (enable_write t true).0 (λ e'. like refl same) (λ e'. like refl same))

pub set_opt_socket-Tells :
    (id what value : ℕ) (t : Turn) → Tells t.socket.type (set_opt_socket id what value t)
unfolding set_opt_socket
set_opt_socket-Tells id what value t =
    if-Tells (socket_invalid t.socket id) (λ e. tells (omega arith)) (λ e. tells (omega arith))

-- A type of a socket that is open may be closed once.
opened_once :
    {ty : ℕ} (k : ℕ) {r : ℕ × Turn} → told r.0 ≡ 0 → can_close k ≡ 1 → (ty == k) ≡ true → Tells ty r
opened_once {ty} k {r} e h same =
    let here : ty ≡ k = ground (arith, same) in tells (rw (e, here, h) (ground arith))

pub resume-Tells :
    (id opaque : ℕ) (d : Data) (t : Turn) → Tells t.socket.type (resume id opaque d t)
unfolding resume
resume-Tells id opaque d t =
    let same = type-enable_read t true in
    let ty = t.socket.type in
    if-Tells (socket_invalid t.socket id) (λ e. tells (omega arith))
      (λ e.
        if-Tells (halfclose_read t.socket) (λ e'. tells (omega arith))
          (λ e'.
            if-Tells (enable_read t true).0 (λ f. like refl same)
              (λ f. if-Tells (ty == type_ip_accept) (opened_once type_ip_accept refl refl) (λ a.
                if-Tells (ty == type_plisten) (opened_once type_plisten refl refl) (λ b.
                  if-Tells (ty == type_connected) (opened_once type_connected refl refl)
                    (λ c. like refl same))))))

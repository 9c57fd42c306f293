-- ===== src/SocketServer/Once/Steps.antt =====
-- The life of a slot between two calls of `ReserveId` in skynet-src/socket_server.cpp: commands and events in
-- any order. Between two of them other threads and the kernel may change everything but the type of the socket.
use skynet_cpp.Prelude.{ℕ, ◌+◌, ◌≤◌, ◌==◌, false, ◌≡◌, ap, Option, List, arith}
use skynet_cpp.Prelude.Run.{Run, ok}
use skynet_cpp.Prelude.Run.Ensures.{Ensures}
use skynet_cpp.SocketServer.{Data, Turn, type_invalid, type_connecting, type_listen}
use skynet_cpp.SocketServer.Control.{Candidate}
use skynet_cpp.SocketServer.Ctrl.{Request, ctrl_cmd}
use skynet_cpp.SocketServer.Events.{Received, Ready, report_connect, serve_event}
use skynet_cpp.SocketServer.Once.{Any, can_close, told}
use skynet_cpp.SocketServer.Once.Commands.{ctrl_cmd-Tells}
use skynet_cpp.SocketServer.Once.Events.{TellsEvent, report_connect-Tells, serve_event-Tells}

can_close_small : (ty : ℕ) → can_close ty ≤ 1
can_close_small ty = ground arith

result : {A : Type 0} {P : A → Type 0} (m : Run A) (a : A) → Ensures Any P m → m ≡ ok a → P a
result {P} m a h e = (rw e at h).holds

module _ (null_text : Run Data) (wild : Run (Unit {0})) (strerror : List ℕ) where
  -- What `Poll` does for one socket, with what it returns: a command of the pipe, an event of a socket that is
  -- open, or the end of a connection attempt.
  pub data Step (t : Turn) : ℕ → Turn → Type 0 where
    by_command :
        (local_name : ℕ → Option (Option (List ℕ) × ℕ)) (gai : List ℕ)
        (resolve : List ℕ → ℕ → Option (List Candidate)) (q : Request) (ret : ℕ) (u : Turn)
        → ctrl_cmd null_text strerror local_name gai resolve q t ≡ ok (ret, u)
        → Step t ret u
    by_event :
        (behind : List ℕ) (ready : Ready) (a : Received) (error : List ℕ) (ret : ℕ)
        (left : Option Ready) (u : Turn)
        → (t.socket.type == type_invalid) ≡ false
        → (t.socket.type == type_connecting) ≡ false
        → (t.socket.type == type_listen) ≡ false
        → serve_event null_text wild strerror behind ready a error t ≡ ok (ret, left, u)
        → Step t ret u
    by_connection :
        (error peer : Option (List ℕ)) (ret : ℕ) (u : Turn)
        → t.socket.type ≡ type_connecting
        → report_connect null_text wild strerror error peer t ≡ ok (ret, u)
        → Step t ret u

  -- Any number of steps, with how often the close of the socket was told.
  pub data Steps : Turn → ℕ → Turn → Type 0 where
    stay : (t : Turn) → Steps t 0 t
    go :
        (t t' u v : Turn) (ret n : ℕ)
        → t'.socket.type ≡ t.socket.type
        → Step t' ret u
        → Steps u n v
        → Steps t (told ret + n) v

  Step-told :
      (t : Turn) (ret : ℕ) (u : Turn)
      → Step t ret u
      → told ret + can_close u.socket.type ≤ can_close t.socket.type
  Step-told t ret u (by_command local_name gai resolve q _ _ e) =
      (result (ctrl_cmd null_text strerror local_name gai resolve q t) (ret, u)
        (ctrl_cmd-Tells null_text strerror local_name gai resolve q t) e).bound
  Step-told t ret u (by_event behind ready a error _ left _ v c l e) =
      (result {P = TellsEvent t.socket.type}
        (serve_event null_text wild strerror behind ready a error t) (ret, left, u)
        (serve_event-Tells null_text wild strerror behind ready a error t v) e).bound
  Step-told t ret u (by_connection error peer _ _ c e) =
      (result (report_connect null_text wild strerror error peer t) (ret, u)
        (report_connect-Tells null_text wild strerror error peer t c) e).bound

  Steps-told :
      (t : Turn) (n : ℕ) (u : Turn)
      → Steps t n u
      → n + can_close u.socket.type ≤ can_close t.socket.type
  Steps-told t n u (stay _) = omega arith
  Steps-told t n v (go _ t' u _ ret m same s more) =
      omega (arith, Step-told t' ret u s, Steps-told u m v more, ap can_close same)

  -- From one ReserveId of a slot to the next, in any order of commands, of events of the open socket
  -- and of the end of a connection attempt, between which everything but the type of the socket may
  -- change, the close of the socket is told at most once, whatever a null text and a pointer without
  -- a value do.
  pub told_once : (t : Turn) (n : ℕ) (u : Turn) → Steps t n u → n ≤ 1
  told_once t n u s = omega (arith, Steps-told t n u s, can_close_small t.socket.type)

-- ===== src/SocketServer/Api/Opening.antt =====
-- `Bind` of skynet-src/socket_server.cpp and `BindSocket`, the command that it asks for: the id that `Bind`
-- returns is good for the command.
use mathlib.Core.Path.{subst}
use skynet_cpp.Prelude.{
  ℕ, ◌^◌, ◌<◌, leb, Bool, true, false, not, ◌≡◌, refl, sym, ap, ◌∙◌, [], ◌∷◌, ◌++◌, arith,
}
use skynet_cpp.Prelude.Run.{Run, ok}
use skynet_cpp.SocketServer.{
  Socket, tcp, Kernel, Turn, SocketMessage, socket_open, type_invalid, type_bind, binding, call,
  nonblocking, epoll_add, refusals_left, put_socket, max_socket,
}
use skynet_cpp.SocketServer.Ids.{hash_id, reserved, reserve_id}
use skynet_cpp.SocketServer.Ids.Bounds.{reserve_id_free}
use skynet_cpp.SocketServer.Closing.{opened, new_fd}
use skynet_cpp.SocketServer.Control.{answer, set_type, calls, bind_socket}
use skynet_cpp.SocketServer.Ctrl.{bind_request}
use skynet_cpp.SocketServer.Api.{Server, socket_of}
use skynet_cpp.SocketServer.Api.Direct.{stray, delivers, push_request-Pushed, put_self}
use skynet_cpp.SocketServer.Api.Requests.{with_id, bind}

-- A slot that can be given out: nothing waits on it.
pub record IsFree (k : Socket) : Type 0 where
  pub invalid : k.type ≡ type_invalid
  pub no_high : k.high ≡ []
  pub no_low : k.low ≡ []

-- The socket that the command makes of the slot.
pub record IsBound (id fd opaque : ℕ) (r : Run (ℕ × Turn)) : Type 0 where
  pub after : Turn
  pub returns : r ≡ ok (socket_open, after)
  pub type : after.socket.type ≡ type_bind
  pub named : (after.socket.id ≡ id) × (after.socket.fd ≡ fd) × (after.socket.opaque ≡ opaque)
  pub told : (after.message.id ≡ id) × (after.message.opaque ≡ opaque)

-- `Bind` returns an id whose slot was free, and the command with it opens the socket of this slot.
pub record Opens (s : Server) (opaque fd : ℕ) (k : Kernel) (m : SocketMessage) : Type 0 where
  pub id : ℕ
  pub after : Server
  pub returns : bind 0 s opaque fd ≡ ok (id, after)
  pub small : id < 2 ^ 31
  pub queued : after.pipe ≡ s.pipe ++ stray s (bind_request id fd opaque) ∷ []
  pub others : after.slot ≡ put_socket s.slot (hash_id id) (socket_of after id)
  pub opened :
      IsBound id fd opaque
        (bind_socket id fd opaque (record { kernel = k; socket = socket_of after id; message = m }))

bind_socket-IsBound :
    (id fd opaque : ℕ) (k : Kernel) (free : Socket) (m : SocketMessage)
    → k.refusals ≡ []
    → IsFree free
    → IsBound id fd opaque
        (bind_socket id fd opaque (record { kernel = k; socket = reserved free id; message = m }))
unfolding bind_socket new_fd
bind_socket-IsBound id fd opaque k free m e f = record {
  after = answer id opaque 0 binding (
      set_type type_bind (
        calls (nonblocking fd) (record {
          kernel = call (record k { refusals = refusals_left k.refusals }) (epoll_add fd);
          socket = opened (reserved free id) id fd tcp opaque;
          message = m;
        })));
  returns = rw (e, f.no_high, f.no_low) refl;
  type = refl;
  named = (refl, refl, refl);
  told = (refl, refl);
}

not-true : (b : Bool) → not b ≡ true → b ≡ false
not-true true h = absurd (ground (arith, h))
not-true false h = refl

-- When a slot is free, nothing waits on any free slot, the counter is below 2 ^ 31, no exchange
-- fails and the kernel takes the write to the pipe, Bind returns an id below 2 ^ 31, changes its
-- slot alone, and writes bytes from behind the package of its request. The command BindSocket with
-- this id, run on the slots that Bind left, when no call of epoll_ctl fails, passes the assertions
-- of NewFd, returns kSocketOpen, and makes of the slot a bound socket with this id, the descriptor
-- and the service that were given, which the message names.
pub bind-Opens :
    (s : Server) (opaque fd x : ℕ) (k : Kernel) (m : SocketMessage)
    → s.alloc_id < 2 ^ 31
    → x < max_socket
    → (s.slot x).type ≡ type_invalid
    → ((i : ℕ) → (s.slot i).type ≡ type_invalid → IsFree (s.slot i))
    → delivers s.kernel.answers 18 ≡ true
    → k.refusals ≡ []
    → Opens s opaque fd k m
unfolding bind with_id
bind-Opens s opaque fd x k m small range free all d e =
    let r = reserve_id_free s.alloc_id x s.slot small range free in
    let (id, alloc, slot) = reserve_id 0 s.alloc_id s.slot in
    let asked = record s { alloc_id = alloc; slot = slot } in
    let p = push_request-Pushed s.kernel.answers asked (bind_request id fd opaque) d in
    let there : not (leb (2 ^ 31) id) ≡ true = ground (arith, r.small) in
    let found : socket_of p.after id ≡ reserved (s.slot (hash_id id)) id =
      ap (λ f. f (hash_id id)) (p.slots ∙ r.slots)
      ∙ put_self s.slot (hash_id id) (reserved (s.slot (hash_id id)) id) in
    record {
      id = id;
      after = p.after;
      returns = rw (not-true (leb (2 ^ 31) id) there, p.returns) refl;
      small = r.small;
      queued = p.queued;
      others = p.slots ∙ r.slots ∙ ap (put_socket s.slot (hash_id id)) (sym found);
      opened =
          subst
            (λ k'.
              IsBound id fd opaque
                (bind_socket id fd opaque (record { kernel = k; socket = k'; message = m })))
            (sym found)
            (bind_socket-IsBound id fd opaque k (s.slot (hash_id id)) m e
              (all (hash_id id) r.free));
    }

-- ===== src/SocketServer/Api/Direct.antt =====
-- `Send` of skynet-src/socket_server.cpp on an idle socket of a stream: what it does not write at once the
-- slot keeps, as the thread of the sockets needs it to go on.
use mathlib.Core.Path.{subst}
use skynet_cpp.Prelude.{
  ℕ, ◌+◌, ◌-◌, ◌%◌, ◌^◌, ◌≤◌, ◌<◌, ◌==◌, leb, min, take, Bool, true, false, ◌&&◌, ◌≡◌, refl, sym,
  ap, ap₂, ◌∙◌, ◌⊎◌, inl, inr, Option, none, some, List, [], ◌∷◌, ◌++◌, append_assoc, Bool-cases,
  arith,
}
use skynet_cpp.Prelude.Run.{Run, ok}
use skynet_cpp.SocketServer.{
  Socket, Answer, took, interrupted, again, write_failed, is_tcp, call, log_error, put_socket,
  type_connected, type_invalid, type_reserve,
}
use skynet_cpp.SocketServer.Ids.{hash_id, socket_invalid}
use skynet_cpp.SocketServer.Closing.{is_empty, is_none, nomore_sending_data}
use skynet_cpp.SocketServer.Ctrl.{Request, write_request}
use skynet_cpp.SocketServer.Sending.{range}
use skynet_cpp.SocketServer.Sending.Stream.{range-split}
use skynet_cpp.SocketServer.Sending.Order.{empty_lem, direct, IsDirect}
use skynet_cpp.SocketServer.Api.{
  Server, memory, Sendbuffer, clone_buffer, package_size, push_request, socket_of, put,
  can_direct_write, stat_write_of, after_direct,
}

-- The kernel takes this many bytes, all of them, at one of the attempts.
abbrev pub delivers : List Answer → ℕ → Bool
delivers [] size = false
delivers (took n ∷ rs) size = leb size n
delivers (_ ∷ rs) size = delivers rs size

-- What a request leaves in the pipe: bytes from behind its package.
abbrev pub stray : Server → Request → List ℕ
stray s q = take (package_size q + 2) (s.past q)

-- The request was written, and nothing else has changed that other threads see.
pub record Pushed (s : Server) (q : Request) (r : Run Server) : Type 0 where
  pub after : Server
  pub returns : r ≡ ok after
  pub slots : after.slot ≡ s.slot
  pub queued : after.pipe ≡ s.pipe ++ stray s q ∷ []
  pub sent : after.kernel.sent ≡ s.kernel.sent

logged-Pushed :
    (s : Server) (q : Request) (r : Run Server)
    → Pushed (record s { kernel = call s.kernel log_error }) q r
    → Pushed s q r
logged-Pushed s q r h = record {
  after = h.after;
  returns = h.returns;
  slots = h.slots;
  queued = h.queued;
  sent = h.sent;
}

pub push_request-Pushed :
    (rs : List Answer) (s : Server) (q : Request)
    → delivers rs (package_size q + 2) ≡ true
    → Pushed s q (push_request rs s q)
unfolding push_request
push_request-Pushed [] s q h = absurd (ground (arith, h))
push_request-Pushed (took n ∷ rs) s q h = record {
  after = record s { pipe = s.pipe ++ stray s q ∷ []; kernel = record s.kernel { answers = rs } };
  returns =
      let whole : (min n (package_size q + 2) == package_size q + 2) ≡ true = ground (arith, h) in
      rw whole refl;
  slots = refl;
  queued = refl;
  sent = refl;
}
push_request-Pushed (interrupted ∷ rs) s q h = push_request-Pushed rs s q h
push_request-Pushed (again ∷ rs) s q h =
    logged-Pushed s q _ (push_request-Pushed rs (record s { kernel = call s.kernel log_error }) q h)
push_request-Pushed (write_failed ∷ rs) s q h =
    logged-Pushed s q _ (push_request-Pushed rs (record s { kernel = call s.kernel log_error }) q h)

pub put_self : (slot : ℕ → Socket) (i : ℕ) (k : Socket) → put_socket slot i k i ≡ k
put_self slot i k = ground arith

-- The conditions of a write at once, of a buffer in memory to a stream.
pub record WritesAtOnce (s : Server) (b : Sendbuffer) : Type 0 where
  pub in_memory : b.type ≡ memory
  pub size : b.sz < 2 ^ 31
  pub place : b.buffer.object + b.sz < 2 ^ 63
  pub valid : socket_invalid (socket_of s b.id) b.id ≡ false
  pub stays : (socket_of s b.id).closing ≡ false
  pub idle : can_direct_write (socket_of s b.id) b.id ≡ true
  pub free : (socket_of s b.id).dw_locked ≡ false
  pub stream : is_tcp (socket_of s b.id).protocol ≡ true

-- Nothing waits on a socket that can be written at once.
pub record Idle (k : Socket) : Type 0 where
  pub no_high : k.high ≡ []
  pub no_low : k.low ≡ []
  pub no_direct : k.dw_buffer ≡ none

no_buffers : {A : Type 0} (o : Option A) → is_none o ≡ true → o ≡ none
no_buffers none h = refl
no_buffers (some a) h = absurd (ground (arith, h))

pub idle-Idle : (k : Socket) (id : ℕ) → can_direct_write k id ≡ true → Idle k
idle-Idle k id h =
    let nothing : nomore_sending_data k ≡ true = ground (arith, h) in
    let connected : k.type ≡ type_connected = ground (arith, h) in
    let empty : (is_empty k.high && is_empty k.low && is_none k.dw_buffer) ≡ true =
      ground (arith, nothing, connected) in
    record {
      no_high = empty_lem k.high (ground (arith, empty));
      no_low = empty_lem k.low (ground (arith, empty));
      no_direct = no_buffers k.dw_buffer (ground (arith, empty));
    }

-- The socket of a stream on which nothing waits.
pub record Quiet (k : Socket) : Type 0 where
  pub idle : Idle k
  pub counted : k.wb_size ≡ 0
  pub valid : (k.type == type_invalid) ≡ false
  pub opened : (k.type == type_reserve) ≡ false
  pub stream : is_tcp k.protocol ≡ true
  pub free : k.dw_locked ≡ false

-- The kernel took all, or the rest stands behind what was sent, and a request was written.
pub record Handed (s : Server) (b : Sendbuffer) (sent : List ℕ) (r : Run (ℕ × Server))
    : Type 0 where
  pub after : Server
  pub returns : r ≡ ok (0, after)
  pub outcome :
      (after.kernel.sent ≡ sent)
      ⊎ ((after.pipe ≡ s.pipe ++ stray s (write_request b.id) ∷ [])
          × (after.kernel.sent ++ direct (socket_of after b.id) ≡ sent)
          × IsDirect (socket_of after b.id)
          × Quiet (record (socket_of after b.id) { dw_buffer = none }))

-- The rest of the buffer, as the thread of the sockets finds it.
abbrev kept : Server → Sendbuffer → ℕ → Socket
kept s b n = record (stat_write_of (socket_of s b.id) n s.kernel.time) {
  dw_buffer = some b.buffer;
  dw_size = b.sz;
  dw_offset = n % 2 ^ 32;
}

range-append :
    (n k p : ℕ)
    → n ≤ k
    → k < 2 ^ 31
    → range p n ++ range (p + n % 2 ^ 32) (k - n % 2 ^ 32) ≡ range p k
range-append n k p h small =
    ap (λ x. range p n ++ range (p + x) (k - x)) (omega arith) ∙ range-split n k p h

kept-IsDirect :
    (s : Server) (b : Sendbuffer) (n : ℕ)
    → n ≤ b.sz
    → b.sz < 2 ^ 31
    → b.buffer.object + b.sz < 2 ^ 63
    → Idle (socket_of s b.id)
    → IsDirect (kept s b n)
kept-IsDirect s b n h small place idle = record {
  near = omega arith;
  inside = omega arith;
  size = rw (idle.no_high, idle.no_low) (omega arith);
  place = λ text e. ground (arith, e, place, small, h);
}

pub after_direct-Handed :
    (s : Server) (b : Sendbuffer) (n : ℕ) (before : List ℕ)
    → s.kernel.sent ≡ before ++ range b.buffer.object n
    → n ≤ b.sz
    → b.type ≡ memory
    → b.sz < 2 ^ 31
    → b.buffer.object + b.sz < 2 ^ 63
    → Quiet (socket_of s b.id)
    → delivers s.kernel.answers 26 ≡ true
    → Handed s b (before ++ range b.buffer.object b.sz) (after_direct s b n)
unfolding after_direct clone_buffer
after_direct-Handed s b n before sent h mem small place q d = elim (Bool-cases (n == b.sz)) [
  | inl all ↦ record {
    after = put s b.id (stat_write_of (socket_of s b.id) n s.kernel.time);
    returns = rw all refl;
    outcome = inl (sent ∙ ap (λ x. before ++ range b.buffer.object x) (ground (arith, all)));
  }
  | inr part ↦
      let p =
        push_request-Pushed s.kernel.answers (put s b.id (kept s b n)) (write_request b.id) d in
      let found : socket_of p.after b.id ≡ kept s b n =
        ap (λ f. f (hash_id b.id)) p.slots ∙ put_self s.slot (hash_id b.id) (kept s b n) in
      record {
        after = p.after;
        returns = rw (mem, part, p.returns) refl;
        outcome = inr (
          p.queued,
          ap₂ (λ x y. x ++ direct y) (p.sent ∙ sent) found
              ∙ append_assoc before (range b.buffer.object n)
                  (range (b.buffer.object + n % 2 ^ 32) (b.sz - n % 2 ^ 32))
              ∙ ap (λ x. before ++ x) (range-append n b.sz b.buffer.object h small),
          rw found (kept-IsDirect s b n h small place q.idle),
          subst (λ k. Quiet (record k { dw_buffer = none })) (sym found)
              (record {
                idle = record {
                  no_high = q.idle.no_high;
                  no_low = q.idle.no_low;
                  no_direct = refl;
                };
                counted = q.counted;
                valid = q.valid;
                opened = q.opened;
                stream = q.stream;
                free = q.free;
              }),
        );
      }
]

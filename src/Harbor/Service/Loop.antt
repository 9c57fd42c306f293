-- ===== src/Harbor/Service/Loop.antt =====
-- The main loop of service-src/service_harbor.cpp keeps its state in order, and stops at a bad access alone.
use native.Mathlib.Decide.{ℕ_discrete}
use skynet_cpp.Prelude.{
  ℕ, ◌-◌, ◌/◌, ◌%◌, ◌^◌, ◌==◌, ltb, leb, ◌≢◌, refl, inl, inr, ◌||◌, not, Bool, true, false, Option,
  none, some, List, ◌++◌, Option-cases, get_or, take, drop, replicate,
}
use skynet_cpp.Prelude.Run.{Run, ok, ◌>>=◌}
use skynet_cpp.Prelude.Run.Ensures.{Ensures, Ensures-ok, Ensures-fault, Ensures-if, Ensures-bind}
use skynet_cpp.Harbor.Queue.{Queue, push}
use skynet_cpp.Harbor.Queue.Refine.{IsValid, push_refines}
use skynet_cpp.Harbor.Slave.{HarborMsg, no_message, Harbor, Call, put_slave, status_down}
use skynet_cpp.Harbor.Receive.{push_socket_data, until_nul, remote_max}
use skynet_cpp.Harbor.Receive.Bounds.{OutOfBounds}
use skynet_cpp.Harbor.Receive.Slaves.{send_all-Ensures, push_socket_data-IsReading}
use skynet_cpp.Harbor.Names.{
  HashMap, node_of, push_all, send_resolved, popped, dispatch_name_queue, update_name,
  remote_send_name,
}
use skynet_cpp.Harbor.Names.Resolve.{
  popped-contents, push_all-contents, address_all, send_resolved-addressed, update_name-idle,
  update_name-waited,
}
use skynet_cpp.Harbor.Names.Query.{
  HasSound, named_queue, named_queue-waiting, named_message, remote_send_name-unknown,
  remote_send_name-known,
}
use skynet_cpp.Harbor.Service.{
  Incoming, socket_message, command, remote, other_type, connect_command, harbor_command, mainloop,
}
use skynet_cpp.Harbor.Service.Remotes.{handshake-fault}
use skynet_cpp.Harbor.Service.Sound.{
  QueueSound, MapSound, SlavesReading, change_node-Sound, node_of-Sound, queue-IsReading,
  put_slave-Reading, remote_send_handle-Reading,
}

popped-Ensures : (q : Queue HarborMsg) → IsValid q → Ensures OutOfBounds (λ ms. Unit {0}) (popped q)
popped-Ensures q v = rw (popped-contents q v) (Ensures-ok tt)

send_resolved-Ensures :
    (handle fd : ℕ) (ms : List HarborMsg)
    → Ensures OutOfBounds (λ calls. Unit {0}) (send_resolved handle fd ms)
send_resolved-Ensures handle fd ms =
    rw (send_resolved-addressed handle fd ms) (send_all-Ensures fd (address_all handle ms))

hand_on-Ensures :
    (queue : Queue HarborMsg) (o : Option (Queue HarborMsg))
    → IsValid queue
    → QueueSound o
    → Ensures OutOfBounds IsValid (elim o as (λ x. Run (Queue HarborMsg)) [
      | none ↦ ok queue
      | some q ↦ popped queue >>= λ ms. ok (push_all q ms)
    ])
hand_on-Ensures queue none v o = Ensures-ok v
hand_on-Ensures queue (some q) v o =
    Ensures-bind (popped-Ensures queue v) (λ ms h. Ensures-ok (push_all-contents q ms o).0)

dispatch_name_queue-Reading :
    (h : Harbor) (handle : ℕ) (queue : Queue HarborMsg)
    → SlavesReading h
    → IsValid queue
    → Ensures OutOfBounds (λ r. SlavesReading r.1) (dispatch_name_queue h handle queue)
unfolding dispatch_name_queue
dispatch_name_queue-Reading h handle queue v q =
    let id = handle / 2 ^ 24 in
    let s = h.s id in
    Ensures-if (s.fd == 0)
      (λ down.
        Ensures-if (s.status == status_down) (λ lost. Ensures-ok v)
          (λ waits. Ensures-bind (hand_on-Ensures queue s.queue q (v id).sound) (λ q' valid.
            Ensures-if (id == h.slave / 2 ^ 24)
              (λ own. Ensures-bind (popped-Ensures q' valid) (λ ms got. Ensures-ok (
                put_slave-Reading h id (record s { queue = none }) v
                  (queue-IsReading s none (v id) tt))))
              (λ other. Ensures-ok (
                put_slave-Reading h id (record s { queue = some q' }) v
                  (queue-IsReading s (some q') (v id) valid))))))
      (λ up. Ensures-bind (popped-Ensures queue q) (λ ms got.
        Ensures-bind (send_resolved-Ensures handle s.fd ms) (λ calls sent. Ensures-ok v)))

-- what a step of the service keeps
abbrev pub Kept : List Call × Harbor × HashMap → Type 0
Kept (calls, h, map) = SlavesReading h × MapSound map

update_name-Kept :
    (h : Harbor) (map : HashMap) (name : List ℕ) (handle : ℕ)
    → SlavesReading h
    → MapSound map
    → Ensures OutOfBounds Kept (update_name h map name handle)
update_name-Kept h map name handle v w =
    let (node, known) = node_of-Sound map name w in
    let after = change_node-Sound (node_of map name).1 name handle none known tt in
    elim (Option-cases (node_of map name).0.queue) [
      | inl e ↦ rw (update_name-idle h map name handle e) (Ensures-ok (v, after))
      | inr (q, e) ↦
          let valid : IsValid q = rw (HasSound, e) at node in
          rw (update_name-waited h map name handle q e) (
            Ensures-bind (dispatch_name_queue-Reading h handle q v valid)
              (λ r kept. Ensures-ok (kept, after)))
    ]

remote_send_name-Kept :
    (h : Harbor) (map : HashMap) (source : ℕ) (name : List ℕ) (type session : ℕ) (msg : List ℕ)
    (sz : ℕ)
    → SlavesReading h
    → MapSound map
    → Ensures OutOfBounds
        (λ r. SlavesReading r.2 × MapSound r.3)
        (remote_send_name h map source name type session msg sz)
remote_send_name-Kept h map source name type session msg sz v w =
    let (node, known) = node_of-Sound map name w in
    elim (ℕ_discrete (node_of map name).0.value 0) [
      | yes e ↦
          let m = named_message source type session msg sz in
          let (valid, same) = named_queue-waiting (node_of map name).0 node in
          let (valid', order) =
            push_refines no_message (named_queue (node_of map name).0) m valid in
          rw (remote_send_name-unknown h map source name type session msg sz e) (
            Ensures-ok (
              v,
              change_node-Sound (node_of map name).1 name 0
                  (some (push no_message (named_queue (node_of map name).0) m)) known valid',
            ))
      | no ne ↦ rw (remote_send_name-known h map source name type session msg sz ne) (
          Ensures-bind
            (remote_send_handle-Reading h source (node_of map name).0.value type session msg sz v)
            (λ r kept. Ensures-ok (kept, known)))
    ]

-- With a harbor whose own id has a low byte that is not 0, a new connection stops at the handshake.
connect_command-Kept :
    (scan : List ℕ → ℕ × ℕ) (active : Bool) (h : Harbor) (msg : List ℕ) (sz : ℕ)
    → h.id % 2 ^ 8 ≢ 0
    → SlavesReading h
    → Ensures OutOfBounds (λ r. SlavesReading r.1) (connect_command scan active h msg sz)
unfolding connect_command
connect_command-Kept scan active h msg sz own v =
    let (fd, id) = scan (until_nul (take (sz - 2) (drop 2 msg))) in
    let stop = handshake-fault (put_slave id (record (h.s id) { fd = fd }) h) id own in
    Ensures-if (ltb sz 2) (λ short. Ensures-fault refl)
      (λ long.
        Ensures-if ((fd == 0) || ((id == 0) || leb remote_max id)) (λ bad. Ensures-ok v)
          (λ good.
            Ensures-if (not ((h.s id).fd == 0)) (λ taken. Ensures-ok v)
              (λ free. rw stop (Ensures-fault refl))))

with_map-Kept :
    (map : HashMap) (m : Run (List Call × Harbor))
    → MapSound map
    → Ensures OutOfBounds (λ r. SlavesReading r.1) m
    → Ensures OutOfBounds Kept (m >>= λ (calls, after). ok (calls, after, map))
with_map-Kept map m w h = Ensures-bind h (λ r kept. Ensures-ok (kept, w))

harbor_command-Kept :
    (scan : List ℕ → ℕ × ℕ) (h : Harbor) (map : HashMap) (msg : List ℕ) (sz source : ℕ)
    → h.id % 2 ^ 8 ≢ 0
    → SlavesReading h
    → MapSound map
    → Ensures OutOfBounds Kept (harbor_command scan h map msg sz source)
unfolding harbor_command
harbor_command-Kept scan h map msg sz source own v w =
    Ensures-if (get_or msg 0 0 == 78)
      (λ name.
        Ensures-if ((sz - 2 == 0) || leb 16 (sz - 2)) (λ bad. Ensures-ok (v, w))
          (λ good.
            update_name-Kept h map (take (sz - 2) (drop 2 msg) ++ replicate (16 - (sz - 2)) 0)
              source v w))
      (λ other.
        Ensures-if (get_or msg 0 0 == 83)
          (λ active.
            with_map-Kept map (connect_command scan true h msg sz) w
              (connect_command-Kept scan true h msg sz own v))
          (λ other.
            Ensures-if (get_or msg 0 0 == 65)
              (λ passive.
                with_map-Kept map (connect_command scan false h msg sz) w
                  (connect_command-Kept scan false h msg sz own v))
              (λ other. Ensures-ok (v, w))))

-- a message of a socket comes from one
abbrev pub IsSocket : Incoming → Type 0
IsSocket (socket_message type id ud buffer) = id ≢ 0
IsSocket (command msg sz) = Unit {0}
IsSocket (remote name handle message sz type) = Unit {0}
IsSocket (other_type type) = Unit {0}

-- Whatever arrives, from a socket that is not 0 where it comes from one, a harbor whose own id has a
-- low byte that is not 0, whose slaves are in order, and whose names have valid queues of waiting
-- messages or none, is so afterwards, or stops at a bad access: no loop goes on for ever, and no
-- assertion fails.
pub mainloop-Kept :
    (accepts : Call → Bool) (scan : List ℕ → ℕ × ℕ) (h : Harbor) (map : HashMap)
    (incoming : Incoming) (session source : ℕ)
    → IsSocket incoming
    → h.id % 2 ^ 8 ≢ 0
    → SlavesReading h
    → MapSound map
    → Ensures OutOfBounds Kept (mainloop accepts scan h map incoming session source)
unfolding mainloop
mainloop-Kept accepts scan h map (socket_message type id ud buffer) session source from own v w =
    Ensures-if (type == 1)
      (λ received.
        with_map-Kept map (push_socket_data accepts h id buffer ud) w
          (push_socket_data-IsReading accepts h id buffer ud from v))
      (λ other.
        Ensures-if ((type == 5) || (type == 3)) (λ down. Ensures-ok (v, w))
          (λ quiet. Ensures-ok (v, w)))
mainloop-Kept accepts scan h map (command msg sz) session source from own v w =
    harbor_command-Kept scan h map msg sz source own v w
mainloop-Kept accepts scan h map (remote name handle message sz type) session source from own v w =
    Ensures-if (handle == 0)
      (λ named.
        Ensures-bind (remote_send_name-Kept h map source name type session message sz v w)
          (λ r kept. Ensures-ok kept))
      (λ known.
        Ensures-bind (remote_send_handle-Reading h source handle type session message sz v)
          (λ r kept. Ensures-ok (kept, w)))
mainloop-Kept accepts scan h map (other_type type) session source from own v w = Ensures-ok (v, w)

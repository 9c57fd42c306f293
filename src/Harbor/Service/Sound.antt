-- ===== src/Harbor/Service/Sound.antt =====
-- The state of the service in service-src/service_harbor.cpp stays in order, whatever arrives: the names and
-- the messages out.
use native.Mathlib.Decide.{ℕ_discrete}
use mathlib.Core.Path.{subst}
use skynet_cpp.Prelude.{
  ℕ, ◌/◌, ◌%◌, ◌^◌, ◌==◌, ◌≡◌, sym, inl, inr, ◌||◌, Option, none, some, List, [], ◌∷◌, Bool-cases,
  Option-cases,
}
use skynet_cpp.Prelude.Run.Ensures.{Ensures, Ensures-ok, Ensures-if, Ensures-bind}
use skynet_cpp.Harbor.Queue.{Queue, push}
use skynet_cpp.Harbor.Queue.Refine.{IsValid, push_refines}
use skynet_cpp.Harbor.Slave.{
  HarborMsg, no_message, Slave, Harbor, put_slave, queue_of, remote_message, remote_send_handle,
  status_handshake, status_down,
}
use skynet_cpp.Harbor.Slave.Waiting.{queue_of-waiting}
use skynet_cpp.Harbor.Receive.Bounds.{IsReading, OutOfBounds, put_self, put_other}
use skynet_cpp.Harbor.Receive.Slaves.{send_remote-Ensures}
use skynet_cpp.Harbor.Names.{
  KeyValue, HashMap, hash_of_name, hash_size, is_key, search_bucket, hash_search, put_bucket,
  fresh_node, hash_insert, change_bucket, change_node, node_of,
}
use skynet_cpp.Harbor.Names.Lookup.{node_of-new, node_of-known}
use skynet_cpp.Harbor.Names.Query.{HasSound}

-- a queue, if there is one, is valid
abbrev pub QueueSound : Option (Queue HarborMsg) → Type 0
QueueSound o = elim o [ none ↦ Unit {0} | some q ↦ IsValid q ]

abbrev pub NodesSound : List KeyValue → Type 0
NodesSound [] = Unit {0}
NodesSound (node ∷ nodes) = HasSound node × NodesSound nodes

-- every node of the map has a valid queue or none
abbrev pub MapSound : HashMap → Type 0
MapSound map = (i : ℕ) → NodesSound (map i)

abbrev pub SlavesReading : Harbor → Type 0
SlavesReading h = (i : ℕ) → IsReading (h.s i)

search_bucket-Sound :
    (nodes : List KeyValue) (name : List ℕ) (node : KeyValue)
    → NodesSound nodes
    → search_bucket nodes name ≡ some node
    → HasSound node
unfolding search_bucket
search_bucket-Sound [] name node v e = absurd (cc e)
search_bucket-Sound (x ∷ nodes) name node (here, there) e = elim (Bool-cases (is_key name x)) [
  | inl hit ↦
      let same : some x ≡ some node = rw hit at e in
      let at_node : x ≡ node = cc same in subst HasSound at_node here
  | inr miss ↦ search_bucket-Sound nodes name node there (rw miss at e)
]

change_bucket-Sound :
    (nodes : List KeyValue) (name : List ℕ) (value : ℕ) (queue : Option (Queue HarborMsg))
    → NodesSound nodes
    → QueueSound queue
    → NodesSound (change_bucket nodes name value queue)
unfolding change_bucket
change_bucket-Sound [] name value queue v q = tt
change_bucket-Sound (x ∷ nodes) name value queue (here, there) q =
    elim (Bool-cases (is_key name x)) [
      | inl hit ↦ rw hit (q, there)
      | inr miss ↦ rw miss (here, change_bucket-Sound nodes name value queue there q)
    ]

put_bucket-Sound :
    (map : HashMap) (i : ℕ) (nodes : List KeyValue)
    → MapSound map
    → NodesSound nodes
    → MapSound (put_bucket i nodes map)
put_bucket-Sound map i nodes v n j = elim (Bool-cases (j == i)) [
  | inl on ↦ rw on n
  | inr off ↦ rw off (v j)
]

pub change_node-Sound :
    (map : HashMap) (name : List ℕ) (value : ℕ) (queue : Option (Queue HarborMsg))
    → MapSound map
    → QueueSound queue
    → MapSound (change_node map name value queue)
unfolding change_node
change_node-Sound map name value queue v q =
    let i = hash_of_name name % hash_size in
    put_bucket-Sound map i (change_bucket (map i) name value queue) v
      (change_bucket-Sound (map i) name value queue (v i) q)

hash_insert-Sound : (map : HashMap) (name : List ℕ) → MapSound map → MapSound (hash_insert map name)
unfolding hash_insert
hash_insert-Sound map name v =
    let i = hash_of_name name % hash_size in
    put_bucket-Sound map i (fresh_node name ∷ map i) v (tt, v i)

hash_search-Sound :
    (map : HashMap) (name : List ℕ) (node : KeyValue)
    → MapSound map
    → hash_search map name ≡ some node
    → HasSound node
unfolding hash_search
hash_search-Sound map name node v e =
    search_bucket-Sound (map (hash_of_name name % hash_size)) name node (v _) e

pub node_of-Sound :
    (map : HashMap) (name : List ℕ)
    → MapSound map
    → HasSound (node_of map name).0 × MapSound (node_of map name).1
node_of-Sound map name v = elim (Option-cases (hash_search map name)) [
  | inl e ↦ rw (node_of-new map name e) (tt, hash_insert-Sound map name v)
  | inr (node, e) ↦ rw (node_of-known map name node e) (hash_search-Sound map name node v e, v)
]

-- A slave with another queue is as far in its messages as before.
pub queue-IsReading :
    (s : Slave) (queue : Option (Queue HarborMsg))
    → IsReading s
    → QueueSound queue
    → IsReading (record s { queue = queue })
queue-IsReading s queue r q = record {
  four = r.four;
  in_header = r.in_header;
  in_content = r.in_content;
  sound = q;
}

pub put_slave-Reading :
    (h : Harbor) (id : ℕ) (x : Slave)
    → SlavesReading h
    → IsReading x
    → SlavesReading (put_slave id x h)
put_slave-Reading h id x v r i = elim (ℕ_discrete i id) [
  | yes e ↦
      subst (λ j. IsReading ((put_slave id x h).s j)) (sym e)
        (subst IsReading (sym (put_self h id x)) r)
  | no ne ↦ subst IsReading (sym (put_other h id x i ne)) (v i)
]

pub remote_send_handle-Reading :
    (h : Harbor) (source destination type session : ℕ) (msg : List ℕ) (sz : ℕ)
    → SlavesReading h
    → Ensures OutOfBounds
        (λ r. SlavesReading r.2)
        (remote_send_handle h source destination type session msg sz)
unfolding remote_send_handle
remote_send_handle-Reading h source destination type session msg sz v =
    let id = destination / 2 ^ 24 in
    let s = h.s id in
    let m = remote_message source destination type session msg sz in
    Ensures-if (id == h.id) (λ local. Ensures-ok v)
      (λ away.
        Ensures-if ((s.fd == 0) || (s.status == status_handshake))
          (λ waits.
            Ensures-if (s.status == status_down) (λ down. Ensures-ok v)
              (λ up.
                let (valid, same) = queue_of-waiting s (v id).sound in
                let (valid', order) = push_refines no_message (queue_of s) m valid in
                Ensures-ok (
                  put_slave-Reading h id
                    (record s { queue = some (push no_message (queue_of s) m) }) v
                    (queue-IsReading s (some (push no_message (queue_of s) m)) (v id) valid'))))
          (λ stands. Ensures-bind (send_remote-Ensures s.fd m) (λ calls sent. Ensures-ok v)))

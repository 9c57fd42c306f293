-- ===== src/Harbor/Names/Query.antt =====
-- A message for a name in service-src/service_harbor.cpp whose handle is not known waits, and the handle
-- is asked for.
use skynet_cpp.Prelude.{
  ℕ, ◌*◌, ◌%◌, ◌^◌, ◌==◌, inl, inr, ◌≡◌, ◌≢◌, refl, ap, ◌∙◌, true, false, none, some, List, [], ◌∷◌,
  ◌++◌, arith, Option-cases,
}
use skynet_cpp.Prelude.Run.{ok, ◌>>=◌}
use skynet_cpp.Harbor.Queue.{Queue, new_queue, push}
use skynet_cpp.Harbor.Queue.Refine.{IsValid, contents, push_refines, new_queue-IsValid}
use skynet_cpp.Harbor.Slave.{HarborMsg, no_message, Harbor, service_send, remote_send_handle}
use skynet_cpp.Harbor.Names.{
  KeyValue, HashMap, ptype_text, change_node, node_of, query_text, remote_send_name,
}
use skynet_cpp.Harbor.Names.Resolve.{Known, change_node-Known}

-- the messages that wait for a name
abbrev pub waiting_for : KeyValue → List HarborMsg
waiting_for node = elim node.queue [ none ↦ [] | some q ↦ contents no_message q ]

abbrev pub HasSound : KeyValue → Type 0
HasSound node = elim node.queue [ none ↦ Unit {0} | some q ↦ IsValid q ]

pub named_queue : KeyValue → Queue HarborMsg
named_queue node = elim node.queue [ none ↦ new_queue no_message | some q ↦ q ]

pub named_queue-waiting :
    (node : KeyValue)
    → HasSound node
    → IsValid (named_queue node) × (contents no_message (named_queue node) ≡ waiting_for node)
unfolding new_queue named_queue
named_queue-waiting node v = elim (Option-cases node.queue) [
  | inl e ↦ rw e (new_queue-IsValid no_message, refl)
  | inr (q, e) ↦ rw e (rw e at v, refl)
]

-- the message that waits: its destination has the type alone
abbrev pub named_message : ℕ → ℕ → ℕ → List ℕ → ℕ → HarborMsg
named_message source type session msg sz = record {
  header = record { source = source; destination = type * 2 ^ 24 % 2 ^ 32; session = session };
  buffer = msg;
  size = sz;
}

pub remote_send_name-unknown :
    (h : Harbor) (map : HashMap) (source : ℕ) (name : List ℕ) (type session : ℕ) (msg : List ℕ)
    (sz : ℕ)
    → (node_of map name).0.value ≡ 0
    → remote_send_name h map source name type session msg sz
      ≡ ok (
        1,
        service_send 0 h.slave ptype_text 0 (query_text name) ∷ [],
        h,
        change_node (node_of map name).1 name 0 (
            some (
              push no_message
                (named_queue (node_of map name).0)
                (named_message source type session msg sz))),
      )
unfolding remote_send_name named_queue
remote_send_name-unknown h map source name type session msg sz e =
    let on : ((node_of map name).0.value == 0) ≡ true = ground arith in
    rw (remote_send_name, on) refl

pub remote_send_name-known :
    (h : Harbor) (map : HashMap) (source : ℕ) (name : List ℕ) (type session : ℕ) (msg : List ℕ)
    (sz : ℕ)
    → (node_of map name).0.value ≢ 0
    → remote_send_name h map source name type session msg sz ≡ (
        remote_send_handle h source (node_of map name).0.value type session msg sz
        >>= λ (result, calls, h'). ok (result, calls, h', (node_of map name).1))
unfolding remote_send_name
remote_send_name-known h map source name type session msg sz e =
    let off : ((node_of map name).0.value == 0) ≡ false = ground arith in
    rw (remote_send_name, off) refl

-- A message for a name without a handle, whose waiting messages are a valid queue or none, is kept:
-- 1 is returned, the only call asks for the name, the message stands behind the others that wait for
-- the name in a valid queue, and every other name stays as it was.
pub remote_send_name-Known :
    (h : Harbor) (map : HashMap) (source : ℕ) (name : List ℕ) (type session : ℕ) (msg : List ℕ)
    (sz : ℕ)
    → (node_of map name).0.value ≡ 0
    → HasSound (node_of map name).0
    → (after : HashMap) × (q : Queue HarborMsg) × Known map after name 0 (some q)
      × (remote_send_name h map source name type session msg sz
          ≡ ok (1, service_send 0 h.slave ptype_text 0 (query_text name) ∷ [], h, after))
      × IsValid q
      × (contents no_message q
          ≡ waiting_for (node_of map name).0 ++ named_message source type session msg sz ∷ [])
remote_send_name-Known h map source name type session msg sz unknown sound =
    let node = (node_of map name).0 in
    let m = named_message source type session msg sz in
    let (valid, same) = named_queue-waiting node sound in
    let (valid', order) = push_refines no_message (named_queue node) m valid in
    let q = push no_message (named_queue node) m in
    (
      change_node (node_of map name).1 name 0 (some q),
      q,
      change_node-Known map name 0 (some q),
      remote_send_name-unknown h map source name type session msg sz unknown,
      valid',
      order ∙ ap (λ xs. xs ++ m ∷ []) same,
    )

-- ===== src/Harbor/Names.antt =====
-- The global names in service-src/service_harbor.cpp: a hash map from names of 16 bytes to handles, with
-- the messages that wait for a name whose handle is not known. The map is the list of nodes of each
-- bucket, newest first; a change through a pointer to a node is a change of the first node of its key.
pub mod Lookup
pub mod Query
pub mod Resolve
use Prim.Native.Nat.{bit_and, bit_or, bit_xor}
use skynet_cpp.Prelude.{
  ℕ, zero, suc, ◌+◌, ◌-◌, ◌*◌, ◌/◌, ◌%◌, ◌^◌, ◌==◌, ltb, if◌then◌else◌, ◌&&◌, Bool, true, false,
  Option, none, some, List, [], ◌∷◌, ◌++◌, get_or, take,
}
use skynet_cpp.Prelude.Run.{Run, ok, fault, no_fuel, ◌>>=◌}
use skynet_cpp.Harbor.Queue.{Queue, new_queue, push, pop_all}
use skynet_cpp.Harbor.Wire.{Header}
use skynet_cpp.Harbor.Slave.{
  HarborMsg, no_message, Slave, Harbor, Call, service_send, report_error, put_slave, status_down,
  ptype_tag_dontcopy, send_remote, remote_send_handle,
}
use skynet_cpp.Harbor.Receive.{until_nul}

abbrev pub global_name_length : ℕ
global_name_length = 16

abbrev pub hash_size : ℕ
hash_size = 4098

abbrev pub ptype_text : ℕ
ptype_text = 0

pub record KeyValue : Type 0 where
  pub key : List ℕ
  pub hash : ℕ
  pub value : ℕ
  pub queue : Option (Queue HarborMsg)

-- `struct hashmap`
abbrev pub HashMap : Type 0
HashMap = ℕ → List KeyValue

-- the word of four bytes at an offset, on a little-endian machine
abbrev pub word_at : List ℕ → ℕ → ℕ
word_at name o =
    get_or name o 0
    + get_or name (o + 1) 0 * 2 ^ 8
    + get_or name (o + 2) 0 * 2 ^ 16
    + get_or name (o + 3) 0 * 2 ^ 24

-- `ptr[0] ^ ptr[1] ^ ptr[2] ^ ptr[3]`
unfoldable pub hash_of_name : List ℕ → ℕ
hash_of_name name =
    bit_xor (bit_xor (bit_xor (word_at name 0) (word_at name 4)) (word_at name 8)) (word_at name 12)

-- `strncmp(a, b, n) == 0`; a list stands for an array of at least `n` bytes
abbrev pub same_name : ℕ → List ℕ → List ℕ → Bool
same_name zero a b = true
same_name (suc n) [] [] = true
same_name (suc n) [] (y ∷ b) = y == 0
same_name (suc n) (x ∷ a) [] = x == 0
same_name (suc n) (x ∷ a) (y ∷ b) =
    let rest = same_name n a b in if x == y then (if x == 0 then true else rest) else false

abbrev pub is_key : List ℕ → KeyValue → Bool
is_key name node = node.hash == hash_of_name name && same_name global_name_length node.key name

unfoldable pub search_bucket : List KeyValue → List ℕ → Option KeyValue
search_bucket [] name = none
search_bucket (node ∷ nodes) name =
    let rest = search_bucket nodes name in if is_key name node then some node else rest

unfoldable pub hash_search : HashMap → List ℕ → Option KeyValue
hash_search map name = search_bucket (map (hash_of_name name % hash_size)) name

abbrev pub put_bucket : ℕ → List KeyValue → HashMap → HashMap
put_bucket i nodes map j = if j == i then nodes else map j

abbrev pub fresh_node : List ℕ → KeyValue
fresh_node name = record {
  key = take global_name_length name;
  hash = hash_of_name name;
  value = 0;
  queue = none;
}

-- the new map; the node that is returned is `fresh_node name`
unfoldable pub hash_insert : HashMap → List ℕ → HashMap
hash_insert map name =
    let i = hash_of_name name % hash_size in put_bucket i (fresh_node name ∷ map i) map

-- writing the fields of the node that `hash_search` finds
unfoldable pub change_bucket : List KeyValue → List ℕ → ℕ → Option (Queue HarborMsg) → List KeyValue
change_bucket [] name value queue = []
change_bucket (node ∷ nodes) name value queue =
    let rest = change_bucket nodes name value queue in
    if is_key name node then record node { value = value; queue = queue } ∷ nodes else node ∷ rest

unfoldable pub change_node : HashMap → List ℕ → ℕ → Option (Queue HarborMsg) → HashMap
change_node map name value queue =
    let i = hash_of_name name % hash_size in
    put_bucket i (change_bucket (map i) name value queue) map

-- `hash_search`, and `hash_insert` if that finds nothing
unfoldable pub node_of : HashMap → List ℕ → KeyValue × HashMap
node_of map name = elim (hash_search map name) [
  | none ↦ (fresh_node name, hash_insert map name)
  | some node ↦ (node, map)
]

-- pushing the popped messages onto the queue of a slave
abbrev pub push_all : Queue HarborMsg → List HarborMsg → Queue HarborMsg
push_all q [] = q
push_all q (m ∷ ms) = push_all (push no_message q m) ms

-- the calls that deliver popped messages on the node itself
abbrev pub deliver_all : ℕ → List HarborMsg → List Call
deliver_all handle [] = []
deliver_all handle (m ∷ ms) =
    service_send m.header.source handle (bit_or (m.header.destination / 2 ^ 24) ptype_tag_dontcopy)
      m.header.session (take m.size m.buffer)
    ∷ deliver_all handle ms

-- `m->header.destination |= (handle & kHandleMask)`
abbrev pub resolve : ℕ → HarborMsg → HarborMsg
resolve handle m = record m {
  header = record m.header { destination = bit_or m.header.destination (bit_and handle 0xffffff) };
}

unfoldable pub send_resolved : ℕ → ℕ → List HarborMsg → Run (List Call)
send_resolved handle fd [] = ok []
send_resolved handle fd (m ∷ ms) = send_remote fd (resolve handle m) >>= λ calls.
    send_resolved handle fd ms >>= λ more. ok (calls ++ more)

abbrev pub popped : Queue HarborMsg → Run (List HarborMsg)
popped q = elim (pop_all no_message q.size q) [ none ↦ fault no_fuel | some (ms, rest) ↦ ok ms ]

-- The node has the handle `handle` and the queue `queue`, which its caller drops afterwards.
unfoldable pub dispatch_name_queue : Harbor → ℕ → Queue HarborMsg → Run (List Call × Harbor)
dispatch_name_queue h handle queue =
    let harbor_id = handle / 2 ^ 24 in
    let s = h.s harbor_id in
    let hand_on : Run (Queue HarborMsg) = elim s.queue [
      | none ↦ ok queue
      | some q ↦ popped queue >>= λ ms. ok (push_all q ms)
    ] in
    if s.fd == 0
    then (if s.status == status_down
        then ok (report_error ∷ [], h)
        else (hand_on >>= λ q.
            if harbor_id == h.slave / 2 ^ 24
            then (popped q >>= λ ms.
                ok (deliver_all handle ms, put_slave harbor_id (record s { queue = none }) h))
            else ok ([], put_slave harbor_id (record s { queue = some q }) h)))
    else (popped queue >>= λ ms. send_resolved handle s.fd ms >>= λ calls. ok (calls, h))

unfoldable pub update_name : Harbor → HashMap → List ℕ → ℕ → Run (List Call × Harbor × HashMap)
update_name h map name handle =
    let (node, known) = node_of map name in
    let done = change_node known name handle none in
    elim node.queue [
      | none ↦ ok ([], h, done)
      | some queue ↦ dispatch_name_queue h handle queue >>= λ (calls, h'). ok (calls, h', done)
    ]

-- "Q " and the name, up to its first NUL
abbrev pub query_text : List ℕ → List ℕ
query_text name = 81 ∷ 32 ∷ until_nul (take global_name_length name)

-- The result, the calls and the new state.
unfoldable pub remote_send_name :
    Harbor → HashMap → ℕ → List ℕ → ℕ → ℕ → List ℕ → ℕ → Run (ℕ × List Call × Harbor × HashMap)
remote_send_name h map source name type session msg sz =
    let (node, known) = node_of map name in
    let m : HarborMsg = record {
      header = record { source = source; destination = type * 2 ^ 24 % 2 ^ 32; session = session };
      buffer = msg;
      size = sz;
    } in
    let queue : Queue HarborMsg = elim node.queue [ none ↦ new_queue no_message | some q ↦ q ] in
    if node.value == 0
    then ok (
      1,
      service_send 0 h.slave ptype_text 0 (query_text name) ∷ [],
      h,
      change_node known name 0 (some (push no_message queue m)),
    )
    else (remote_send_handle h source node.value type session msg sz >>= λ (result, calls, h').
        ok (result, calls, h', known))

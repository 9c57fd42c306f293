-- ===== src/Harbor/Names/Resolve.antt =====
-- Messages for a name wait in service-src/service_harbor.cpp until the handle of the name is known.
use Prim.Native.Nat.{bit_and, bit_or}
use native.Mathlib.Nat.{mod-lt}
use skynet_cpp.Prelude.{
  ℕ, zero, suc, ◌+◌, ◌-◌, ◌/◌, ◌%◌, ◌^◌, map, ◌<◌, ◌==◌, inl, inr, ◌≡◌, ◌≢◌, refl, sym, ap, ◌∙◌,
  true, false, Option, none, some, List, [], ◌∷◌, ◌++◌, append_assoc, append-nil, length, tabulate,
  arith, Option-cases,
}
use skynet_cpp.Prelude.Bits.{bit_and-mask}
use skynet_cpp.Prelude.Run.{Run, ok, ◌>>=◌}
use skynet_cpp.Harbor.Queue.{Queue, push}
use skynet_cpp.Harbor.Queue.Refine.{IsValid, contents, count, push_refines}
use skynet_cpp.Harbor.Queue.Drain.{pop_all-contents}
use skynet_cpp.Harbor.Slave.{
  HarborMsg, no_message, Slave, Harbor, Call, put_slave, status_down, send_all,
}
use skynet_cpp.Harbor.Slave.Waiting.{waiting, IsSound}
use skynet_cpp.Harbor.Names.{
  KeyValue, HashMap, global_name_length, same_name, hash_search, change_node, node_of, push_all,
  send_resolved, popped, dispatch_name_queue, update_name,
}
use skynet_cpp.Harbor.Names.Lookup.{change_node-Lookup}

length-tabulate : (n : ℕ) (f : ℕ → HarborMsg) → length (tabulate n f) ≡ n
length-tabulate zero f = refl
length-tabulate (suc n) f = ap suc (length-tabulate n (λ k. f (suc k)))

-- Emptying a valid queue yields all its messages.
pub popped-contents : (q : Queue HarborMsg) → IsValid q → popped q ≡ ok (contents no_message q)
popped-contents q v =
    let few : length (contents no_message q) < q.size =
      rw (length-tabulate (count q) _) (mod-lt (q.tail + q.size - q.head) v.nonempty) in
    let (r, run, valid, gone) = pop_all-contents no_message q.size q v few in rw (popped, run) refl

pub push_all-contents :
    (q : Queue HarborMsg) (ms : List HarborMsg)
    → IsValid q
    → IsValid (push_all q ms) × (contents no_message (push_all q ms) ≡ contents no_message q ++ ms)
push_all-contents q [] v = (v, sym (append-nil (contents no_message q)))
push_all-contents q (m ∷ ms) v =
    let (valid, order) = push_refines no_message q m v in
    let (valid', order') = push_all-contents (push no_message q m) ms valid in
    (valid', order' ∙ ap (λ xs. xs ++ ms) order ∙ append_assoc (contents no_message q) (m ∷ []) ms)

dispatch_name_queue-connected :
    (h : Harbor) (handle : ℕ) (q : Queue HarborMsg) (ms : List HarborMsg)
    → (h.s (handle / 2 ^ 24)).fd ≢ 0
    → popped q ≡ ok ms
    → dispatch_name_queue h handle q
      ≡ (send_resolved handle (h.s (handle / 2 ^ 24)).fd ms >>= λ calls. ok (calls, h))
unfolding dispatch_name_queue
dispatch_name_queue-connected h handle q ms up e =
    let on : ((h.s (handle / 2 ^ 24)).fd == 0) ≡ false = ground arith in rw (on, e) refl

-- the queue that the slave has afterwards
dispatch_name_queue-new :
    (h : Harbor) (handle : ℕ) (q : Queue HarborMsg)
    → (h.s (handle / 2 ^ 24)).fd ≡ 0
    → (h.s (handle / 2 ^ 24)).status ≢ status_down
    → handle / 2 ^ 24 ≢ h.slave / 2 ^ 24
    → (h.s (handle / 2 ^ 24)).queue ≡ none
    → dispatch_name_queue h handle q
      ≡ ok ([], put_slave (handle / 2 ^ 24) (record (h.s (handle / 2 ^ 24)) { queue = some q }) h)
unfolding dispatch_name_queue
dispatch_name_queue-new h handle q down waits other e =
    let off : ((h.s (handle / 2 ^ 24)).fd == 0) ≡ true = ground arith in
    let up : ((h.s (handle / 2 ^ 24)).status == status_down) ≡ false = ground arith in
    let away : (handle / 2 ^ 24 == h.slave / 2 ^ 24) ≡ false = ground arith in
    rw (off, up, e, away) refl

dispatch_name_queue-more :
    (h : Harbor) (handle : ℕ) (q q0 : Queue HarborMsg) (ms : List HarborMsg)
    → (h.s (handle / 2 ^ 24)).fd ≡ 0
    → (h.s (handle / 2 ^ 24)).status ≢ status_down
    → handle / 2 ^ 24 ≢ h.slave / 2 ^ 24
    → (h.s (handle / 2 ^ 24)).queue ≡ some q0
    → popped q ≡ ok ms
    → dispatch_name_queue h handle q
      ≡ ok (
        [],
        put_slave
            (handle / 2 ^ 24)
            (record (h.s (handle / 2 ^ 24)) { queue = some (push_all q0 ms) })
            h,
      )
unfolding dispatch_name_queue
dispatch_name_queue-more h handle q q0 ms down waits other e f =
    let off : ((h.s (handle / 2 ^ 24)).fd == 0) ≡ true = ground arith in
    let up : ((h.s (handle / 2 ^ 24)).status == status_down) ≡ false = ground arith in
    let away : (handle / 2 ^ 24 == h.slave / 2 ^ 24) ≡ false = ground arith in
    rw (off, up, e, f, away) refl

pub update_name-idle :
    (h : Harbor) (map : HashMap) (name : List ℕ) (handle : ℕ)
    → (node_of map name).0.queue ≡ none
    → update_name h map name handle ≡ ok ([], h, change_node (node_of map name).1 name handle none)
unfolding update_name
update_name-idle h map name handle e = rw (update_name, e) refl

pub update_name-waited :
    (h : Harbor) (map : HashMap) (name : List ℕ) (handle : ℕ) (q : Queue HarborMsg)
    → (node_of map name).0.queue ≡ some q
    → update_name h map name handle ≡ (
        dispatch_name_queue h handle q >>= λ (calls, h').
        ok (calls, h', change_node (node_of map name).1 name handle none))
unfolding update_name
update_name-waited h map name handle q e = rw (update_name, e) refl

-- What the map knows after a change: the name has the handle and the queue, and every other name what it
-- had.
pub record Known (map after : HashMap) (name : List ℕ) (value : ℕ)
    (queue : Option (Queue HarborMsg)) : Type 0 where
  pub node : KeyValue
  pub found : hash_search after name ≡ some node
  pub same_value : node.value ≡ value
  pub same_queue : node.queue ≡ queue
  pub others :
      (other : List ℕ)
      → same_name global_name_length name other ≡ false
      → hash_search after other ≡ hash_search map other

pub change_node-Known :
    (map : HashMap) (name : List ℕ) (value : ℕ) (queue : Option (Queue HarborMsg))
    → Known map (change_node (node_of map name).1 name value queue) name value queue
change_node-Known map name value queue =
    let (found, others) = change_node-Lookup map name value queue in
    record {
      node = record (node_of map name).0 { value = value; queue = queue };
      found = found;
      same_value = refl;
      same_queue = refl;
      others = others;
    }

abbrev with_map : HashMap → Run (List Call × Harbor) → Run (List Call × Harbor × HashMap)
with_map after r = r >>= λ (calls, h'). ok (calls, h', after)

-- the message with the low 24 bits of the handle in its destination
abbrev pub addressed : ℕ → HarborMsg → HarborMsg
addressed handle m = record m {
  header = record m.header { destination = bit_or m.header.destination (handle % 2 ^ 24) };
}

abbrev pub address_all : ℕ → List HarborMsg → List HarborMsg
address_all handle ms = map (addressed handle) ms

pub send_resolved-addressed :
    (handle fd : ℕ) (ms : List HarborMsg)
    → send_resolved handle fd ms ≡ send_all fd (address_all handle ms)
unfolding send_resolved send_all
send_resolved-addressed handle fd [] = refl
send_resolved-addressed handle fd (m ∷ ms) =
    let low : bit_and handle 0xffffff ≡ handle % 2 ^ 24 = bit_and-mask 24 handle in
    rw (send_resolved-addressed handle fd ms, low) refl

-- When messages wait for a name in a valid queue and the node of its new handle is connected,
-- update_name sends all of them in their order, each with the handle put into its destination, and
-- the map knows the handle of the name and no waiting messages, while all other names stay as they
-- were.
pub update_name-Known :
    (h : Harbor) (map : HashMap) (name : List ℕ) (handle : ℕ) (q : Queue HarborMsg)
    → (node_of map name).0.queue ≡ some q
    → IsValid q
    → (h.s (handle / 2 ^ 24)).fd ≢ 0
    → (after : HashMap) × Known map after name handle none
      × (update_name h map name handle ≡ (
          send_all (h.s (handle / 2 ^ 24)).fd (address_all handle (contents no_message q))
          >>= λ calls. ok (calls, h, after)))
update_name-Known h map name handle q e v up =
    let after = change_node (node_of map name).1 name handle none in
    let sent =
      dispatch_name_queue-connected h handle q (contents no_message q) up (popped-contents q v) in
    (
      after,
      change_node-Known map name handle none,
      update_name-waited h map name handle q e
          ∙ ap (with_map after) sent
          ∙ bind_twice (send_resolved handle (h.s (handle / 2 ^ 24)).fd (contents no_message q)) h
              after
          ∙ ap (λ r. r >>= λ calls. ok (calls, h, after))
              (send_resolved-addressed handle (h.s (handle / 2 ^ 24)).fd (contents no_message q)),
    )
  where
    bind_twice :
        (r : Run (List Call)) (h : Harbor) (after : HashMap)
        → with_map after (r >>= λ calls. ok (calls, h)) ≡ (r >>= λ calls. ok (calls, h, after))
    bind_twice (Run.ok a) h after = refl
    bind_twice (Run.fault e) h after = refl

-- When messages wait for a name in a valid queue and the node of its new handle is neither connected
-- nor lost nor this one, its slave having a valid queue or none, update_name makes no call, and the
-- messages stand behind those of the slave, as they were: the handle is not put into their
-- destinations. The map knows the handle of the name.
pub update_name-unresolved :
    (h : Harbor) (map : HashMap) (name : List ℕ) (handle : ℕ) (q : Queue HarborMsg)
    → (node_of map name).0.queue ≡ some q
    → IsValid q
    → IsSound (h.s (handle / 2 ^ 24))
    → (h.s (handle / 2 ^ 24)).fd ≡ 0
    → (h.s (handle / 2 ^ 24)).status ≢ status_down
    → handle / 2 ^ 24 ≢ h.slave / 2 ^ 24
    → (x : Slave) × (after : HashMap) × Known map after name handle none
      × (update_name h map name handle ≡ ok ([], put_slave (handle / 2 ^ 24) x h, after))
      × IsSound x
      × (waiting x ≡ waiting (h.s (handle / 2 ^ 24)) ++ contents no_message q)
update_name-unresolved h map name handle q e v sound down waits other =
    let s = h.s (handle / 2 ^ 24) in
    let after = change_node (node_of map name).1 name handle none in
    let step = update_name-waited h map name handle q e in
    elim (Option-cases s.queue) [
      | inl empty ↦
          let moved = dispatch_name_queue-new h handle q down waits other empty in
          (
            record s { queue = some q },
            after,
            change_node-Known map name handle none,
            step ∙ ap (with_map after) moved,
            v,
            rw empty refl,
          )
      | inr (q0, some_queue) ↦
          let moved =
            dispatch_name_queue-more h handle q q0 (contents no_message q) down waits other
              some_queue (popped-contents q v) in
          let valid : IsValid q0 = rw some_queue at sound in
          let (valid', order) = push_all-contents q0 (contents no_message q) valid in
          (
            record s { queue = some (push_all q0 (contents no_message q)) },
            after,
            change_node-Known map name handle none,
            step ∙ ap (with_map after) moved,
            valid',
            rw some_queue order,
          )
    ]

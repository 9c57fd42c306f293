-- ===== src/Harbor/Service/Tests.antt =====
-- What arrives at the service of service-src/service_harbor.cpp, on small inputs.
use skynet_cpp.Prelude.{ℕ, ◌≡◌, ◌≤◌, ◌<◌, ◌⊎◌, ◌++◌, refl, true, List, [], ◌∷◌, none, some, arith}
use skynet_cpp.Prelude.Run.{ok, ◌>>=◌}
use skynet_cpp.Prelude.Run.Ensures.{Ensures}
use skynet_cpp.Harbor.Queue.{Queue}
use skynet_cpp.Harbor.Queue.Refine.{IsValid, contents}
use skynet_cpp.Harbor.Slave.{
  Slave, Harbor, HarborMsg, no_message, service_send, send_all, put_slave,
}
use skynet_cpp.Harbor.Slave.Waiting.{waiting, IsSound}
use skynet_cpp.Harbor.Receive.{push_socket_data}
use skynet_cpp.Harbor.Receive.Bounds.{IsReading, OutOfBounds}
use skynet_cpp.Harbor.Receive.Slaves.{push_socket_data-IsReading}
use skynet_cpp.Harbor.Names.{
  HashMap, ptype_text, fresh_node, hash_of_name, search_bucket, hash_search, node_of, update_name,
  remote_send_name, query_text,
}
use skynet_cpp.Harbor.Names.Resolve.{Known, address_all, update_name-Known, update_name-unresolved}
use skynet_cpp.Harbor.Names.Query.{waiting_for, named_message, remote_send_name-Known}
use skynet_cpp.Harbor.Service.Loop.{Kept, mainloop-Kept}
use skynet_cpp.Harbor.Service.{close_all_remotes, mainloop, remote, hash_new}
use skynet_cpp.Harbor.Service.Remotes.{closes, lost, close_all_remotes-Closed}

-- every slave has the socket `fd` and waits for a header
abbrev peers : ℕ → Harbor
peers fd = record {
  id = 1;
  slave = 0x01000009;
  s = λ i. record {
    fd = fd;
    queue = none;
    status = 2;
    length = 0;
    read = 1;
    size = 0 ∷ 0 ∷ 0 ∷ 0 ∷ [];
    recv_buffer = [];
  };
}

peers-IsReading : (i : ℕ) → IsReading ((peers 9).s i)
peers-IsReading i = record {
  four = refl;
  in_header = λ h. omega arith;
  in_content = λ h. absurd (omega (arith, h));
  sound = tt;
}

push_socket_data-IsReading_example :
    Ensures OutOfBounds
      (λ (calls, after). (i : ℕ) → IsReading (after.s i))
      (push_socket_data (λ c. true) (peers 9) 9 (0 ∷ 0 ∷ 1 ∷ 7 ∷ []) 4)
push_socket_data-IsReading_example =
    push_socket_data-IsReading (λ c. true) (peers 9) 9 (0 ∷ 0 ∷ 1 ∷ 7 ∷ []) 4 (omega arith)
      peers-IsReading

abbrev name_example : List ℕ
name_example = 65 ∷ 66 ∷ 0 ∷ []

abbrev one_waiting : Queue HarborMsg
one_waiting = record { size = 2; head = 0; tail = 1; cells = no_message ∷ no_message ∷ [] }

one_waiting-IsValid : IsValid one_waiting
one_waiting-IsValid = record {
  nonempty = omega arith;
  allocated = refl;
  head_in = omega arith;
  tail_in = omega arith;
}

-- a message waits for the name
abbrev asked : HashMap
asked i = record (fresh_node name_example) { queue = some one_waiting } ∷ []

asked_waiting : (node_of asked name_example).0.queue ≡ some one_waiting
unfolding node_of hash_search search_bucket hash_of_name
asked_waiting = refl

update_name-Known_example :
    (after : HashMap) × Known asked after name_example 0x02000005 none
    × (update_name (peers 9) asked name_example 0x02000005 ≡ (
        send_all 9 (address_all 0x02000005 (contents no_message one_waiting)) >>= λ calls.
        ok (calls, peers 9, after)))
update_name-Known_example =
    update_name-Known (peers 9) asked name_example 0x02000005 one_waiting asked_waiting
      one_waiting-IsValid (omega arith)

update_name-unresolved_example :
    (x : Slave) × (after : HashMap) × Known asked after name_example 0x02000005 none
    × (update_name (peers 0) asked name_example 0x02000005
        ≡ ok ([], put_slave 2 x (peers 0), after))
    × IsSound x
    × (waiting x ≡ waiting ((peers 0).s 2) ++ contents no_message one_waiting)
update_name-unresolved_example =
    update_name-unresolved (peers 0) asked name_example 0x02000005 one_waiting asked_waiting
      one_waiting-IsValid tt refl (omega arith) (omega arith)

new_name : (node_of hash_new name_example).0 ≡ fresh_node name_example
unfolding node_of hash_search search_bucket hash_of_name
new_name = refl

new_name_value : (node_of hash_new name_example).0.value ≡ 0
new_name_value = rw new_name refl

remote_send_name-Known_example :
    (after : HashMap) × (q : Queue HarborMsg) × Known hash_new after name_example 0 (some q)
    × (remote_send_name (peers 9) hash_new 0x01000005 name_example 0 9 (65 ∷ []) 1
        ≡ ok (
          1,
          service_send 0 0x01000009 ptype_text 0 (query_text name_example) ∷ [],
          peers 9,
          after,
        ))
    × IsValid q
    × (contents no_message q
        ≡ waiting_for (node_of hash_new name_example).0
          ++ named_message 0x01000005 0 9 (65 ∷ []) 1 ∷ [])
remote_send_name-Known_example =
    remote_send_name-Known (peers 9) hash_new 0x01000005 name_example 0 9 (65 ∷ []) 1 new_name_value
      (rw new_name tt)

mainloop-Kept_example : Ensures OutOfBounds Kept (
    mainloop
      (λ c. true)
      (λ text. (9, 2))
      (peers 9)
      hash_new
      (remote name_example 0 (65 ∷ []) 1 10)
      7
      0x01000005)
mainloop-Kept_example =
    mainloop-Kept (λ c. true) (λ text. (9, 2)) (peers 9) hash_new
      (remote name_example 0 (65 ∷ []) 1 10) 7 0x01000005 tt (omega arith) peers-IsReading (λ i. tt)

close_all_remotes-Closed_example :
    ((close_all_remotes (peers 9)).0 ≡ closes 255 1 (peers 9).s)
    × ((j : ℕ) → 1 ≤ j → j < 256 → (close_all_remotes (peers 9)).1.s j ≡ lost ((peers 9).s j))
    × ((j : ℕ) → (j < 1) ⊎ (256 ≤ j) → (close_all_remotes (peers 9)).1.s j ≡ (peers 9).s j)
close_all_remotes-Closed_example = close_all_remotes-Closed (peers 9)

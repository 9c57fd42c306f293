-- ===== src/Harbor/Tests.antt =====
-- The queue and the wire format of service-src/service_harbor.cpp on small inputs.
use skynet_cpp.Prelude.{ℕ, ◌≡◌, refl, [], ◌∷◌, ◌++◌, ◌⊎◌, inl, none, some, arith}
use skynet_cpp.Prelude.Run.{ok, ◌>>=◌}
use skynet_cpp.Harbor.Slave.{
  Harbor, HarborMsg, no_message, socket_send_buffer, put_slave, send_remote, send_all,
  dispatch_queue, remote_message, remote_send_handle,
}
use skynet_cpp.Harbor.Slave.Waiting.{
  Queued, remote_send_handle-Queued, dispatch_queue-contents, send_remote-empty,
}
use skynet_cpp.Harbor.Queue.{Queue, push, pop}
use skynet_cpp.Harbor.Queue.Refine.{IsValid, contents, push_refines, pop_refines}
use skynet_cpp.Harbor.Wire.{
  Header, header_to_message, message_to_header, message_to_header-header_to_message,
}

-- 7, then 8, round the end of the cells; the next push doubles the queue
abbrev wrapped : Queue ℕ
wrapped = record { size = 3; head = 2; tail = 1; cells = 8 ∷ 0 ∷ 7 ∷ [] }

wrapped-IsValid : IsValid wrapped
wrapped-IsValid = record {
  nonempty = omega arith;
  allocated = refl;
  head_in = omega arith;
  tail_in = omega arith;
}

push-wrapped :
    push 0 wrapped 9 ≡ record { size = 6; head = 0; tail = 3; cells = 7 ∷ 8 ∷ 9 ∷ 0 ∷ 0 ∷ 0 ∷ [] }
unfolding push
push-wrapped = refl

abbrev header_example : Header
header_example = record { source = 0x01000002; destination = 0x02000003; session = 7 }

header_to_message_bytes :
    header_to_message header_example ≡ 1 ∷ 0 ∷ 0 ∷ 2 ∷ 2 ∷ 0 ∷ 0 ∷ 3 ∷ 0 ∷ 0 ∷ 0 ∷ 7 ∷ []
unfolding header_to_message
header_to_message_bytes = refl

push_refines_example :
    IsValid (push 0 wrapped 9) × (contents 0 (push 0 wrapped 9) ≡ contents 0 wrapped ++ 9 ∷ [])
push_refines_example = push_refines 0 wrapped 9 wrapped-IsValid

pop_refines_example :
    ((pop 0 wrapped ≡ none) × (contents 0 wrapped ≡ []))
    ⊎ ((m : ℕ) × (r : Queue ℕ) × (pop 0 wrapped ≡ some (m, r))
        × IsValid r
        × (contents 0 wrapped ≡ m ∷ contents 0 r))
pop_refines_example = pop_refines 0 wrapped wrapped-IsValid

message_to_header-header_to_message_example :
    message_to_header (header_to_message header_example ++ 5 ∷ []) ≡ header_example
message_to_header-header_to_message_example =
    message_to_header-header_to_message header_example (5 ∷ []) (omega arith) (omega arith)
      (omega arith)

abbrev two_messages : Queue HarborMsg
two_messages = record {
  size = 4;
  head = 0;
  tail = 2;
  cells = no_message ∷ no_message ∷ no_message ∷ no_message ∷ [];
}

two_messages-IsValid : IsValid two_messages
two_messages-IsValid = record {
  nonempty = omega arith;
  allocated = refl;
  head_in = omega arith;
  tail_in = omega arith;
}

-- two messages wait for each slave, which has the socket `fd`
abbrev harbor_example : ℕ → Harbor
harbor_example fd = record {
  id = 1;
  slave = 0x01000009;
  s = λ i. record {
    fd = fd;
    queue = some two_messages;
    status = 0;
    length = 0;
    read = 0;
    size = 0 ∷ 0 ∷ 0 ∷ 0 ∷ [];
    recv_buffer = [];
  };
}

remote_send_handle-Queued_example :
    Queued
      (harbor_example 0)
      2
      (remote_message 0x01000005 0x02000006 0 9 (65 ∷ []) 1)
      (remote_send_handle (harbor_example 0) 0x01000005 0x02000006 0 9 (65 ∷ []) 1)
remote_send_handle-Queued_example =
    remote_send_handle-Queued (harbor_example 0) 0x01000005 0x02000006 0 9 (65 ∷ []) 1 (omega arith)
      (inl refl) (omega arith) two_messages-IsValid

dispatch_queue-contents_example : dispatch_queue (harbor_example 8) 2 ≡ (
    send_all 8 (contents no_message two_messages) >>= λ calls.
    ok (calls, put_slave 2 (record ((harbor_example 8).s 2) { queue = none }) (harbor_example 8)))
dispatch_queue-contents_example =
    dispatch_queue-contents (harbor_example 8) 2 two_messages (omega arith) refl
      two_messages-IsValid

send_remote-empty_example :
    send_remote 8 (remote_message 0x01000005 0x02000006 0 9 (65 ∷ []) 1)
    ≡ ok (socket_send_buffer 8 [] 17 ∷ [])
send_remote-empty_example =
    send_remote-empty 8 (remote_message 0x01000005 0x02000006 0 9 (65 ∷ []) 1) (omega arith)

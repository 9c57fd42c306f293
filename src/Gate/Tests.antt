-- ===== src/Gate/Tests.antt =====
-- The buffers and the message loop of service-src/service_gate.cpp on small inputs.
use skynet_cpp.Prelude.{ℕ, ◌≡◌, refl, inl, inr, List, [], ◌∷◌, arith}
use skynet_cpp.Prelude.Run.{ok}
use skynet_cpp.Gate.Databuffer.{
  Databuffer, Message, MessagePool, databuffer_push, databuffer_read, databuffer_clear, take_node,
  chain,
}
use skynet_cpp.Gate.Databuffer.Reading.{IsValid}
use skynet_cpp.Gate.Databuffer.Nodes.{Whole}
use skynet_cpp.Gate.Dispatch.{Connection, Gate, dispatch_message}
use skynet_cpp.Gate.Dispatch.Cut.{Cut, wait_header, header, body}
use skynet_cpp.Gate.Dispatch.Delivery.{IsOpen, Delivers}
use skynet_cpp.Gate.Dispatch.Loop.{dispatch_message-Delivers}
use skynet_cpp.Gate.Dispatch.Stream.{feed, feed-encode_all}

abbrev no_nodes : MessagePool
no_nodes = record { blocks = 0; freelist = [] }

abbrev empty : Databuffer
empty = record { header = 0; offset = 0; size = 0; messages = [] }

empty-IsValid : IsValid empty
empty-IsValid = record { sized = tt; offset_in = omega arith; counted = refl }

-- two blocks, one byte of the first read
abbrev partly : Databuffer
partly = record {
  header = 0;
  offset = 1;
  size = 4;
  messages =
      record { node = 0; buffer = 5 ∷ 6 ∷ 7 ∷ []; size = 3 }
      ∷ record { node = 1; buffer = 8 ∷ 9 ∷ []; size = 2 }
      ∷ [];
}

partly-IsValid : IsValid partly
partly-IsValid = record { sized = (refl, (refl, tt)); offset_in = omega arith; counted = refl }

no_nodes-Whole : Whole [] no_nodes []
no_nodes-Whole a = ground arith

-- one block of the pool, its first node in use
abbrev one_block : MessagePool
one_block = (databuffer_push empty no_nodes (1 ∷ 2 ∷ []) 2).1

abbrev two_bytes : Databuffer
two_bytes = (databuffer_push empty no_nodes (1 ∷ 2 ∷ []) 2).0

abbrev drained : Databuffer
drained = record { header = 0; offset = 0; size = 0; messages = [] }

read_two_bytes :
    databuffer_read two_bytes one_block 2
    ≡ ok (1 ∷ 2 ∷ [], drained, record one_block { freelist = 0 ∷ one_block.freelist })
unfolding databuffer_read databuffer_push
read_two_bytes = refl

abbrev gate_example : Gate
gate_example = record { watchdog = 0; broker = 0; client_tag = 3; header_size = 2; mp = no_nodes }

abbrev connection_example : Connection
connection_example = record { id = 5; agent = 11; client = 12; buffer = empty }

connection_example-IsOpen : IsOpen gate_example connection_example
connection_example-IsOpen = record {
  id_pos = omega arith;
  id_int = omega arith;
  routed = inr (omega arith);
}

-- one frame and the first byte of the next header
received-Cut : Cut 2 0 (0 ∷ 1 ∷ 7 ∷ 0 ∷ []) ((7 ∷ []) ∷ []) 0 (0 ∷ [])
unfolding skynet_cpp.Gate.Databuffer.header_value
received-Cut =
    header 0 (0 ∷ 1 ∷ 7 ∷ 0 ∷ []) ((7 ∷ []) ∷ []) 0 (0 ∷ []) refl (omega arith) (omega arith) (
      body 1 (7 ∷ 0 ∷ []) [] 0 (0 ∷ []) (omega arith) (omega arith)
        (wait_header 0 (0 ∷ []) refl (omega arith)))

dispatch_message-Delivers_example :
    Delivers gate_example connection_example
      ((7 ∷ []) ∷ [])
      0
      (0 ∷ [])
      (dispatch_message gate_example connection_example 5 (0 ∷ 1 ∷ 7 ∷ 0 ∷ []) 4)
dispatch_message-Delivers_example =
    dispatch_message-Delivers gate_example connection_example 5 (0 ∷ 1 ∷ 7 ∷ 0 ∷ []) received-Cut
      connection_example-IsOpen empty-IsValid (inl refl) (omega arith)

abbrev frames_example : List (List ℕ)
frames_example = (7 ∷ []) ∷ (8 ∷ 9 ∷ []) ∷ []

-- the stream of the two frames, cut in a header and in a body
abbrev chunks_example : List (List ℕ)
chunks_example = (0 ∷ []) ∷ (1 ∷ 7 ∷ 0 ∷ []) ∷ [] ∷ (2 ∷ 8 ∷ []) ∷ (9 ∷ []) ∷ []

feed-encode_all_example :
    Delivers gate_example connection_example frames_example 0 []
      (feed gate_example connection_example 5 chunks_example)
feed-encode_all_example =
    feed-encode_all frames_example chunks_example gate_example connection_example 5
      (
        (omega arith, omega arith, (omega arith, tt)),
        ((omega arith, omega arith, (omega arith, (omega arith, tt))), tt),
      )
      refl connection_example-IsOpen empty-IsValid refl refl refl

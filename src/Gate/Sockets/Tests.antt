-- ===== src/Gate/Sockets/Tests.antt =====
-- The connections of the gate in service-src/service_gate.cpp on small inputs.
use skynet_cpp.Prelude.{
  ℕ, ◌≡◌, ◌⊎◌, refl, none, [], ◌∷◌, get_or, replicate, get_or-replicate, ap, arith,
}
use skynet_cpp.Prelude.Run.{Fault, ok, fault, assertion}
use skynet_cpp.Gate.Dispatch.{socket_close, report_error}
use skynet_cpp.Gate.Hashid.{Hashid, free_node, hashid_insert, find_free}
use skynet_cpp.Gate.Hashid.Chains.{Chain, IsValid, Inserted, hashid_insert-cases}
use skynet_cpp.Gate.Sockets.{Table, no_connection, gate_create, dispatch_socket_message}
use skynet_cpp.Gate.Sockets.Unknown.{HasIds, dispatch_socket_message-Unknown}

-- two free nodes and four buckets
abbrev two_nodes : Hashid
two_nodes = record {
  hashmod = 3;
  cap = 2;
  count = 0;
  id = replicate 2 free_node;
  hash = replicate 4 none;
}

no_chains : (h : ℕ) → Chain two_nodes (get_or two_nodes.hash h none) []
no_chains h =
    let empty : get_or two_nodes.hash h none ≡ none = get_or-replicate 4 h none in rw empty tt

all_free : (k : ℕ) → (get_or two_nodes.id k free_node).next ≡ none
all_free k = ap (λ n. n.next) (get_or-replicate 2 k free_node)

two_nodes-IsValid : IsValid two_nodes (λ h. [])
two_nodes-IsValid = record {
  log_size = 2;
  mask = refl;
  nodes = refl;
  buckets = refl;
  chains = no_chains;
  free = λ k e. all_free k;
}

hashid_insert-cases_example :
    ((find_free 2 0 two_nodes 7 ≡ ok none) × (hashid_insert two_nodes 7 ≡ fault assertion))
    ⊎ Inserted two_nodes (λ h. []) 7 (hashid_insert two_nodes 7)
hashid_insert-cases_example =
    hashid_insert-cases two_nodes (λ h. []) 7 two_nodes-IsValid (omega arith) (omega arith)

abbrev listening : Table
listening = record gate_create {
  listen_id = 4;
  max_connection = 2;
  hash = two_nodes;
  conn = no_connection ∷ [];
}

listening-HasIds : HasIds listening
listening-HasIds = record { ks = λ h. []; valid = two_nodes-IsValid; short = λ h. omega arith }

dispatch_socket_message-Unknown_example :
    (dispatch_socket_message (λ i. []) (λ i. []) listening 1 6 9 (7 ∷ [])
      ≡ ok (report_error ∷ socket_close 6 ∷ [], listening))
    × (dispatch_socket_message (λ i. []) (λ i. []) listening 2 6 9 (7 ∷ [])
        ≡ ok (report_error ∷ socket_close 6 ∷ [], listening))
    × ((e : Fault) × (dispatch_socket_message (λ i. []) (λ i. []) listening 4 4 9 (7 ∷ [])
          ≡ fault e))
dispatch_socket_message-Unknown_example =
    dispatch_socket_message-Unknown (λ i. []) (λ i. []) listening 6 9 (7 ∷ []) listening-HasIds
      (omega arith) refl (omega arith) (omega arith) (omega arith)

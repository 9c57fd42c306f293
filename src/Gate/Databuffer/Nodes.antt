-- ===== src/Gate/Databuffer/Nodes.antt =====
-- The nodes of a message pool: each is on the free list or in one buffer, and there once.
use skynet_cpp.Prelude.{
  ℕ, zero, suc, ◌+◌, ◌-◌, ◌*◌, ◌==◌, ltb, leb, if◌then◌else◌, ◌≡◌, refl, ap, List, [], ◌∷◌, ◌++◌,
  inl, inr, arith,
}
use skynet_cpp.Prelude.Run.{ok, Run-cases}
use skynet_cpp.Gate.Databuffer.{
  Message, Databuffer, MessagePool, ReadResult, message_pool, return_message, read_messages,
  databuffer_read, databuffer_push, databuffer_clear, return_all, chain, take_node,
}

abbrev pub places : ℕ → List ℕ → ℕ
places a [] = 0
places a (x ∷ xs) = (if x == a then 1 else 0) + places a xs

abbrev pub nodes : List Message → List ℕ
nodes [] = []
nodes (m ∷ ms) = m.node ∷ nodes ms

-- whether a node belongs to the first `blocks` blocks
abbrev pub in_blocks : ℕ → ℕ → ℕ
in_blocks a blocks = if ltb a (blocks * message_pool) then 1 else 0

-- Every node of the pool is free, in the buffer with these messages, or among `others` (the nodes of
-- the gate's other connections), and exactly once; no other node is anywhere.
abbrev pub Whole : List ℕ → MessagePool → List Message → Type 0
Whole others mp ms =
    (a : ℕ) → places a mp.freelist + places a (nodes ms) + places a others ≡ in_blocks a mp.blocks

places-append :
    (a : ℕ) (here there : List ℕ) → places a (here ++ there) ≡ places a here + places a there
places-append a [] there = omega arith
places-append a (x ∷ here) there = omega (arith, places-append a here there)

nodes-append : (ms ns : List Message) → nodes (ms ++ ns) ≡ nodes ms ++ nodes ns
nodes-append [] ns = refl
nodes-append (m ∷ ms) ns = ap (λ r. m.node ∷ r) (nodes-append ms ns)

places-chain :
    (a first n : ℕ)
    → places a (chain first n) ≡ (if leb first a then (if ltb a (first + n) then 1 else 0) else 0)
unfolding chain
places-chain a first zero = ground arith
places-chain a first (suc n) = ground (arith, places-chain a (first + 1) n)

-- the nodes of a new block: its first one and the chain of the others
places-block :
    (a first n : ℕ)
    → places a (chain (first + 1) n)
        + (if first == a then 1 else 0)
        + (if ltb a first then 1 else 0)
      ≡ (if ltb a (first + suc n) then 1 else 0)
places-block a first n = ground (arith, places-chain a (first + 1) n)

-- taking a node from the pool, whichever branch is taken
places-take_node :
    (a : ℕ) (free : List ℕ) (blocks : ℕ)
    → let (node, pool) = take_node free blocks in
      places a pool.freelist + (if node == a then 1 else 0) + in_blocks a blocks
      ≡ places a free + in_blocks a pool.blocks
unfolding take_node
places-take_node a (node ∷ rest) blocks = omega arith
places-take_node a [] blocks =
    let e : (blocks + 1) * message_pool ≡ blocks * message_pool + suc 1022 = omega arith in
    rw e (omega (arith, places-block a (blocks * message_pool) 1022))

-- A push keeps every node of the pool in one place, also when it allocates a block of 1023 nodes.
pub databuffer_push-Whole :
    (others : List ℕ) (db : Databuffer) (mp : MessagePool) (bytes : List ℕ) (sz : ℕ)
    → Whole others mp db.messages
    → let (d, p) = databuffer_push db mp bytes sz in Whole others p d.messages
unfolding databuffer_push
databuffer_push-Whole others db mp bytes sz w a = omega (
  arith,
  w a,
  places-take_node a mp.freelist mp.blocks,
  ap (places a) (
      nodes-append db.messages
        (record { node = (take_node mp.freelist mp.blocks).0; buffer = bytes; size = sz } ∷ [])),
  places-append a (nodes db.messages) ((take_node mp.freelist mp.blocks).0 ∷ []),
)

read_messages-places :
    (a : ℕ) (ms : List Message) (mp : MessagePool) (offset sz : ℕ) (r : ReadResult)
    → read_messages ms mp offset sz ≡ ok r
    → (places a r.pool.freelist + places a (nodes r.messages)
        ≡ places a mp.freelist + places a (nodes ms))
      × (r.pool.blocks ≡ mp.blocks)
unfolding read_messages return_message
read_messages-places a [] mp offset sz r e = ground arith
read_messages-places a (m ∷ ms) mp offset sz r e =
    elim (Run-cases (read_messages ms (return_message m mp) 0 (sz - (m.size - offset)))) [
      | inl (s, f) ↦
          ground (
            arith,
            f,
            read_messages-places a ms (return_message m mp) 0 (sz - (m.size - offset)) s f,
          )
      | inr (x, f) ↦ ground (arith, f)
    ]

-- A read that succeeds keeps every node of the pool in one place: on the free list, in the buffer,
-- or in another connection's.
databuffer_read-Whole :
    (others : List ℕ) (db d : Databuffer) (mp p : MessagePool) (sz : ℕ) (bytes : List ℕ)
    → databuffer_read db mp sz ≡ ok (bytes, d, p)
    → Whole others mp db.messages
    → Whole others p d.messages
unfolding databuffer_read
databuffer_read-Whole others db d mp p sz bytes e w a =
    elim (Run-cases (read_messages db.messages mp db.offset sz)) [
      | inl (r, f) ↦ ground (arith, f, w a, read_messages-places a db.messages mp db.offset sz r f)
      | inr (x, f) ↦ ground (arith, f)
    ]

return_all-places :
    (a : ℕ) (ms : List Message) (mp : MessagePool)
    → (places a (return_all ms mp).freelist ≡ places a mp.freelist + places a (nodes ms))
      × ((return_all ms mp).blocks ≡ mp.blocks)
unfolding return_all
return_all-places a [] mp = (omega arith, refl)
return_all-places a (m ∷ ms) mp =
    let (c, b) = return_all-places a ms (record mp { freelist = m.node ∷ mp.freelist }) in
    (omega arith, b)

-- Clearing a buffer returns all of its nodes to the pool, each once, and leaves the buffer without
-- blocks.
databuffer_clear-Whole :
    (others : List ℕ) (db : Databuffer) (mp : MessagePool)
    → Whole others mp db.messages
    → let (d, p) = databuffer_clear db mp in Whole others p d.messages × (d.messages ≡ [])
unfolding databuffer_clear
databuffer_clear-Whole others db mp w =
    ((λ a. let (c, b) = return_all-places a db.messages mp in rw b (omega (arith, w a))), refl)

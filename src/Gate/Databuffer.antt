-- ===== src/Gate/Databuffer.antt =====
-- service-src/databuffer.h: the bytes that a connection received and did not consume yet, as a list of
-- the blocks in which they came, over a pool of list nodes. A `struct message` is its node (its
-- address), its bytes and its size; the linked list from `head` to `tail` is a list. A block of the
-- pool is its number, and the node `i` of the block `b` is `1023 * b + i`.
pub mod Reading
pub mod Nodes
use Prim.Native.Nat.{bit_or}
use skynet_cpp.Prelude.{
  ℕ, zero, suc, ◌+◌, ◌-◌, ◌*◌, ◌^◌, ◌==◌, ltb, leb, if◌then◌else◌, ◌||◌, List, [], ◌∷◌, ◌++◌,
  get_or, take, drop,
}
use skynet_cpp.Prelude.Run.{
  Run, ok, fault, null_pointer, out_of_bounds, uninitialised_value, assert, ◌>>=◌, ◌>>◌, assertion,
}

pub record Message : Type 0 where
  pub node : ℕ
  pub buffer : List ℕ
  pub size : ℕ

-- `header` is the pattern of an `int` below 2 ^ 32.
pub record Databuffer : Type 0 where
  pub header : ℕ
  pub offset : ℕ
  pub size : ℕ
  pub messages : List Message

-- the number of blocks, and the nodes of the free list
pub record MessagePool : Type 0 where
  pub blocks : ℕ
  pub freelist : List ℕ

abbrev pub message_pool : ℕ
message_pool = 1023

-- the value of an `int` expression `-1`
abbrev pub minus_one : ℕ
minus_one = 2 ^ 32 - 1

unfoldable pub messagepool_free : MessagePool → MessagePool
messagepool_free pool = record { blocks = 0; freelist = [] }

-- `_return_message` of the head: its node goes to the front of the free list.
unfoldable pub return_message : Message → MessagePool → MessagePool
return_message m mp = record mp { freelist = m.node ∷ mp.freelist }

-- what `databuffer_read` leaves of the list, the offset and the pool, behind the bytes it copied
pub record ReadResult : Type 0 where
  pub bytes : List ℕ
  pub messages : List Message
  pub offset : ℕ
  pub pool : MessagePool

-- the loop of `databuffer_read`; a null `head` is dereferenced
unfoldable pub read_messages : List Message → MessagePool → ℕ → ℕ → Run ReadResult
unfolding return_message
read_messages [] mp offset sz = fault null_pointer
read_messages (m ∷ ms) mp offset sz =
    let bsz = m.size - offset in
    let next = read_messages ms (return_message m mp) 0 (sz - bsz) in
    let more = next >>= λ r. ok (record r { bytes = take bsz (drop offset m.buffer) ++ r.bytes }) in
    if ltb sz bsz
    then ok (record {
      bytes = take sz (drop offset m.buffer);
      messages = m ∷ ms;
      offset = offset + sz;
      pool = mp;
    })
    else if bsz == sz
    then ok (record {
      bytes = take sz (drop offset m.buffer);
      messages = ms;
      offset = 0;
      pool = return_message m mp;
    })
    else more

unfoldable pub databuffer_read :
    Databuffer → MessagePool → ℕ → Run (List ℕ × Databuffer × MessagePool)
unfolding read_messages
databuffer_read db mp sz = do
  assert (leb sz db.size)
  r ← read_messages db.messages mp db.offset sz
  ok (r.bytes, record db { offset = r.offset; size = db.size - sz; messages = r.messages }, r.pool)

-- `n` nodes from `first` on, linked in order
unfoldable pub chain : ℕ → ℕ → List ℕ
chain first zero = []
chain first (suc n) = first ∷ chain (first + 1) n

-- the node that `databuffer_push` takes, from the free list or as the first of a new block
unfoldable pub take_node : List ℕ → ℕ → ℕ × MessagePool
take_node (node ∷ rest) blocks = (node, record { blocks = blocks; freelist = rest })
take_node [] blocks = (
  blocks * message_pool,
  record { blocks = blocks + 1; freelist = chain (blocks * message_pool + 1) (message_pool - 1) },
)

unfoldable pub databuffer_push : Databuffer → MessagePool → List ℕ → ℕ → Databuffer × MessagePool
unfolding take_node
databuffer_push db mp bytes sz =
    let (node, pool) = take_node mp.freelist mp.blocks in
    (
      record db {
        size = db.size + sz;
        messages = db.messages ++ record { node = node; buffer = bytes; size = sz } ∷ [];
      },
      pool,
    )

-- the big-endian length of 2 or 4 bytes
unfoldable pub header_value : ℕ → List ℕ → ℕ
header_value header_size plen =
    if header_size == 2
    then bit_or (get_or plen 0 0 * 2 ^ 8) (get_or plen 1 0)
    else bit_or
        (bit_or (bit_or (get_or plen 0 0 * 2 ^ 24) (get_or plen 1 0 * 2 ^ 16))
          (get_or plen 2 0 * 2 ^ 8))
        (get_or plen 3 0)

-- The bytes of `plen`, which has four: `databuffer_read` fills as many as `header_size`, two or four are used.
abbrev pub check_plen : ℕ → Run (Unit {0})
check_plen header_size =
    if ltb 4 header_size
    then fault out_of_bounds
    else if header_size == 2 || header_size == 4
    then ok tt
    else fault uninitialised_value

-- The end of `databuffer_readheader`: `int` comparison of the size with the header.
unfoldable pub header_result : Databuffer → ℕ
header_result db =
    if leb (2 ^ 31) db.header
    then db.header
    else if ltb db.size db.header
    then minus_one
    else db.header

unfoldable pub databuffer_readheader :
    Databuffer → MessagePool → ℕ → Run (ℕ × Databuffer × MessagePool)
unfolding databuffer_read header_value header_result
databuffer_readheader db mp header_size =
    if db.header == 0
    then (if ltb db.size header_size then ok (minus_one, db, mp) else do
      (plen, rest, pool) ← databuffer_read db mp header_size
      check_plen header_size
      let full = record rest { header = header_value header_size plen }
      ok (header_result full, full, pool))
    else ok (header_result db, db, mp)

unfoldable pub databuffer_reset : Databuffer → Databuffer
databuffer_reset db = record db { header = 0 }

-- the loop of `databuffer_clear`
unfoldable pub return_all : List Message → MessagePool → MessagePool
unfolding return_message
return_all [] mp = mp
return_all (m ∷ ms) mp = return_all ms (return_message m mp)

unfoldable pub databuffer_clear : Databuffer → MessagePool → Databuffer × MessagePool
unfolding return_all
databuffer_clear db mp =
    (record { header = 0; offset = 0; size = 0; messages = [] }, return_all db.messages mp)

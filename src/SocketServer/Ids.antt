-- ===== src/SocketServer/Ids.antt =====
-- The ids of sockets: `SocketInvalid` and `ReserveId` of skynet-src/socket_server.cpp. The slot of an id is its
-- low 16 bits.
pub mod Bounds
use skynet_cpp.Prelude.{ℕ, zero, suc, ◌+◌, ◌%◌, ◌^◌, ◌-◌, ◌==◌, ltb, if◌then◌else◌, Bool, not, ◌||◌}
use Prim.Native.Nat.{bit_and}
use skynet_cpp.SocketServer.{
  Socket, unknown, max_socket, type_invalid, type_reserve, ignored, put_socket,
}

-- `HASH_ID`
abbrev pub hash_id : ℕ → ℕ
hash_id id = id % max_socket

-- `SocketInvalid`
abbrev pub socket_invalid : Socket → ℕ → Bool
socket_invalid s id = not (s.id == id) || s.type == type_invalid

-- The counter and the id after one round.
unfoldable pub next_id : ℕ → ℕ × ℕ
next_id alloc =
    let added = (alloc + 1) % 2 ^ 32 in
    if ltb added (2 ^ 31)
    then (added, added)
    else (bit_and added (2 ^ 31 - 1), bit_and added (2 ^ 31 - 1))

abbrev pub reserved : Socket → ℕ → Socket
reserved s id = record s {
  type = type_reserve;
  id = id;
  protocol = unknown;
  udpconnecting = 0;
  fd = ignored;
}

-- The loop with the rounds left; `lost` is how many of the exchanges to come fail, in which case the round does
-- not count.
unfoldable pub reserve_loop : ℕ → ℕ → ℕ → (ℕ → Socket) → ℕ × ℕ × (ℕ → Socket)
reserve_loop lost zero alloc slot = (ignored, alloc, slot)
reserve_loop zero (suc n) alloc slot =
    let (counter, id) = next_id alloc in
    let rest = reserve_loop zero n counter slot in
    if (slot (hash_id id)).type == type_invalid
    then (id, counter, put_socket slot (hash_id id) (reserved (slot (hash_id id)) id))
    else rest
reserve_loop (suc lost) (suc n) alloc slot =
    let (counter, id) = next_id alloc in
    let rest = reserve_loop (suc lost) n counter slot in
    let retry = reserve_loop lost (suc n) counter slot in
    if (slot (hash_id id)).type == type_invalid then retry else rest

-- The id, or -1, with the counter and the slots afterwards.
abbrev pub reserve_id : ℕ → ℕ → (ℕ → Socket) → ℕ × ℕ × (ℕ → Socket)
reserve_id lost alloc slot = reserve_loop lost max_socket alloc slot

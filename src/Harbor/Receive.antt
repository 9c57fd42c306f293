-- ===== src/Harbor/Receive.antt =====
-- What arrives from another node, in service-src/service_harbor.cpp: `push_socket_data` with the states
-- of a connection. `buffer` is the `std::string` of the socket message, with a NUL behind it, `pos` the
-- place of the source's pointer `buffer` in it, and `size` what is left of `ud`. `accepts` says for
-- which calls `ServiceSend` (skynet-src/service.cpp) returns a number that is not negative.
pub mod Bounds
pub mod Slaves
use Prim.Native.Nat.{bit_and, bit_or}
use skynet_cpp.Prelude.{
  ℕ, zero, suc, ◌+◌, ◌-◌, ◌*◌, ◌/◌, ◌%◌, ◌^◌, ◌==◌, ltb, leb, if◌then◌else◌, ◌||◌, Bool, true,
  false, not, Option, none, some, List, [], ◌∷◌, ◌++◌, get_or, take, drop, length,
}
use skynet_cpp.Prelude.Run.{Run, ok, fault, out_of_bounds, no_fuel, assert, ◌>>=◌, ◌>>◌}
use skynet_cpp.Harbor.Wire.{Header, header_cookie_length, message_to_header}
use skynet_cpp.Harbor.Slave.{
  Slave, Harbor, Call, service_send, report_error, put_slave, status_handshake, ptype_error,
  ptype_tag_dontcopy, dispatch_queue, close_harbor,
}

abbrev pub status_header : ℕ
status_header = 2

abbrev pub status_content : ℕ
status_content = 3

abbrev pub remote_max : ℕ
remote_max = 256

-- `n` bytes of a `std::string` from `pos` on, by a `memcpy`; the NUL behind it may be read
abbrev pub bytes_at : List ℕ → ℕ → ℕ → Run (List ℕ)
bytes_at text pos n =
    if leb (pos + n) (length text + 1)
    then ok (take n (drop pos (text ++ 0 ∷ [])))
    else fault out_of_bounds

abbrev pub until_nul : List ℕ → List ℕ
until_nul [] = []
until_nul (b ∷ bs) = let rest = until_nul bs in if b == 0 then [] else b ∷ rest

-- `std::string((char *)buffer)` at `pos` of a `std::string`
abbrev pub text_at : List ℕ → ℕ → Run (List ℕ)
text_at text pos =
    if leb pos (length text) then ok (until_nul (drop pos text)) else fault out_of_bounds

-- writing into the array `size` from `read` on
abbrev pub fill : List ℕ → ℕ → List ℕ → List ℕ
fill old at_ new = take at_ old ++ new ++ drop (at_ + length new) old

-- the next round, if bytes are left
abbrev pub next_round : ℕ → ℕ → Option (ℕ × ℕ)
next_round pos size = if size == 0 then none else some (pos, size)

-- what the loop does next: `stop`, or the next round with the rest of the buffer
abbrev pub Round : Type 0
Round = Run (List Call × Harbor × Option (ℕ × ℕ))

-- `for (i = 1; i < kRemoteMax; i++)`, with the rounds left: the slave with a socket, or 0
unfoldable pub find_slave : ℕ → ℕ → Harbor → ℕ → ℕ
find_slave zero i h fd = 0
find_slave (suc n) i h fd =
    let rest = find_slave n (i + 1) h fd in if (h.s i).fd == fd then i else rest

module _ (accepts : Call → Bool) where
  -- `forward_local_messsage`; `msg` is the data of a `std::string`
  unfoldable pub forward_local : Harbor → List ℕ → ℕ → Run (List Call)
  forward_local h msg sz = do
    assert_length sz
    cookie ← bytes_at msg (sz - header_cookie_length) header_cookie_length
    let header = message_to_header cookie
    let type = header.destination / 2 ^ 24
    let destination = bit_or (bit_and header.destination 0xffffff) (h.id * 2 ^ 24 % 2 ^ 32)
    let body = take (sz - header_cookie_length) (msg ++ 0 ∷ [])
    let sent =
        service_send header.source destination (bit_or type ptype_tag_dontcopy) header.session body
    let report =
        if type == ptype_error
        then report_error ∷ []
        else service_send destination header.source ptype_error header.session []
          ∷ report_error
          ∷ []
    ok (if accepts sent then sent ∷ [] else sent ∷ report)
    where
      -- a pointer before the start of the text
      assert_length : ℕ → Run (Unit {0})
      assert_length sz = if ltb sz header_cookie_length then fault out_of_bounds else ok tt

  -- In this state `read` is at most `length` (see Bounds), so `need` is not below 0.
  unfoldable pub read_content : Harbor → ℕ → List ℕ → ℕ → ℕ → Round
  read_content h id buffer pos size =
      let s = h.s id in
      let need = s.length - s.read in
      text_at buffer pos >>= λ text.
      if ltb size need
      then ok (
        [],
        put_slave id (record s { recv_buffer = s.recv_buffer ++ text; read = s.read + size }) h,
        none,
      )
      else (forward_local h (s.recv_buffer ++ text) s.length >>= λ calls. ok (
        calls,
        put_slave id (record s { length = 0; read = 0; recv_buffer = []; status = status_header })
            h,
        next_round (pos + need) (size - need),
      ))

  -- A `need` below 0 would be the size of a `memcpy`.
  unfoldable pub read_header : Harbor → ℕ → List ℕ → ℕ → ℕ → Round
  read_header h id buffer pos size =
      let s = h.s id in
      let need = 4 - s.read in
      if ltb 4 s.read
      then fault out_of_bounds
      else if ltb size need
      then (bytes_at buffer pos size >>= λ new. ok (
        [],
        put_slave id (record s { size = fill s.size s.read new; read = s.read + size }) h,
        none,
      ))
      else (bytes_at buffer pos need >>= λ new.
          let word = fill s.size s.read new in
          let full : Slave = record s { size = word } in
          let (calls, closed) = close_harbor (put_slave id full h) id in
          let length =
            bit_or (bit_or (get_or word 1 0 * 2 ^ 16) (get_or word 2 0 * 2 ^ 8))
              (get_or word 3 0) in
          let next =
            put_slave id (record full { length = length; read = 0; status = status_content }) h in
          let content = read_content next id buffer (pos + need) (size - need) in
          if get_or word 0 0 == 0
          then (if size - need == 0 then ok ([], next, none) else content)
          else ok (report_error ∷ calls, closed, none))

  -- With an `ud` of 0, `--size` is -1, and the `memcpy` of the next state runs away.
  unfoldable pub shake_hands : Harbor → ℕ → List ℕ → ℕ → ℕ → Round
  shake_hands h id buffer pos size =
      let s = h.s id in
      let (closing, closed) = close_harbor h id in
      bytes_at buffer pos 1 >>= λ remote_id.
      if get_or remote_id 0 0 == id
      then (dispatch_queue (put_slave id (record s { status = status_header }) h) id
          >>= λ (calls, h').
              let rest = read_header h' id buffer (pos + 1) (size - 1) in
              if size == 0
              then fault out_of_bounds
              else if size == 1
              then ok (calls, h', some (pos + 1, 0))
              else (rest >>= λ (more, h'', next). ok (calls ++ more, h'', next)))
      else ok (report_error ∷ closing, closed, none)

  -- the `switch`
  unfoldable pub round : Harbor → ℕ → List ℕ → ℕ → ℕ → Round
  round h id buffer pos size =
      if (h.s id).status == status_handshake
      then shake_hands h id buffer pos size
      else if (h.s id).status == status_header
      then read_header h id buffer pos size
      else if (h.s id).status == status_content
      then read_content h id buffer pos size
      else ok ([], h, none)

  -- the `for (;;)`, with the rounds left
  unfoldable pub receive : ℕ → Harbor → ℕ → List ℕ → ℕ → ℕ → Run (List Call × Harbor)
  receive zero h id buffer pos size = fault no_fuel
  receive (suc fuel) h id buffer pos size = round h id buffer pos size >>= λ (calls, h', next).
      elim next [
        | none ↦ ok (calls, h')
        | some (p, n) ↦ receive fuel h' id buffer p n >>= λ (more, h''). ok (calls ++ more, h'')
      ]

  -- Each round but the last two consumes a byte.
  unfoldable pub push_socket_data : Harbor → ℕ → List ℕ → ℕ → Run (List Call × Harbor)
  push_socket_data h fd buffer ud =
      let id = find_slave (remote_max - 1) 1 h fd in
      if id == 0 then ok (report_error ∷ [], h) else receive (ud + 2) h id buffer 0 ud

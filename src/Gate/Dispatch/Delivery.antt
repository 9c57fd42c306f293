-- ===== src/Gate/Dispatch/Delivery.antt =====
-- The rounds of the loop of `dispatch_message`: reading a header, waiting, delivering a frame.
use Prim.Native.Nat.{bit_or}
use skynet_cpp.Prelude.{
  ℕ, suc, ◌^◌, ◌≤◌, ◌<◌, ◌==◌, ltb, leb, if◌then◌else◌, ◌≡◌, ◌≢◌, ◌∙◌, ◌⊎◌, inl, inr, refl, List,
  [], ◌∷◌, ◌++◌, map, true, false, take, drop, arith,
}
use skynet_cpp.Prelude.Run.{ok, ◌>>=◌}
use skynet_cpp.Gate.Databuffer.{
  Databuffer, MessagePool, databuffer_read, databuffer_readheader, header_result, header_value,
  minus_one, check_plen, databuffer_reset,
}
use skynet_cpp.Gate.Databuffer.Reading.{IsValid, contents, databuffer_read_lem}
use skynet_cpp.Gate.Dispatch.{
  ptype_tag_dontcopy, Effect, service_send, Connection, Gate, Outcome, forward, dispatch_loop,
}

-- The call that delivers a frame: to the broker, if there is one, else to the agent.
abbrev pub message_for : Gate → Connection → List ℕ → Effect
message_for gate c frame =
    let tag = bit_or gate.client_tag ptype_tag_dontcopy in
    if gate.broker == 0
    then service_send c.client c.agent tag c.id frame
    else service_send 0 gate.broker tag c.id frame

-- The connection has a socket, and there is a broker or an agent to deliver to.
pub record IsOpen (gate : Gate) (c : Connection) : Type 0 where
  pub id_pos : 0 < c.id
  pub id_int : c.id < 2 ^ 31
  pub routed : (gate.broker ≢ 0) ⊎ (c.agent ≢ 0)

-- `out` delivers `frames`, and leaves a valid buffer in the header state `h` with the bytes `rest`;
-- nothing else changes but the pool.
pub record Delivers (gate : Gate) (c : Connection) (frames : List (List ℕ)) (h : ℕ) (rest : List ℕ)
    (out : Outcome) : Type 0 where
  pub left : Databuffer
  pub pool : MessagePool
  pub result :
      out
      ≡ ok (map (message_for gate c) frames, record gate { mp = pool }, record c { buffer = left })
  pub valid : IsValid left
  pub state : left.header ≡ h
  pub bytes : contents left ≡ rest

pub forward-Delivers :
    (gate : Gate) (c : Connection) (size : ℕ)
    → IsOpen gate c
    → IsValid c.buffer
    → 0 < size
    → size ≤ c.buffer.size
    → Delivers gate c
        (take size (contents c.buffer) ∷ [])
        c.buffer.header
        (drop size (contents c.buffer))
        (forward gate c size)
unfolding forward
forward-Delivers gate c size open_ v pos fits =
    let (d, p, run, valid, rest, same) = databuffer_read_lem c.buffer gate.mp size v pos fits in
    record {
      left = d;
      pool = p;
      result = ground (arith, run);
      valid = valid;
      state = same;
      bytes = rest;
    }

-- `databuffer_readheader` in a state where a header was read
readheader_again :
    (db : Databuffer) (mp : MessagePool) (hs : ℕ)
    → 0 < db.header
    → databuffer_readheader db mp hs ≡ ok (header_result db, db, mp)
unfolding databuffer_readheader
readheader_again db mp hs h = ground arith

header_result_short :
    (db : Databuffer) → db.size < db.header → db.header < 2 ^ 24 → header_result db ≡ minus_one
unfolding header_result
header_result_short db h k = ground arith

header_result_full :
    (db : Databuffer) → db.header ≤ db.size → db.header < 2 ^ 24 → header_result db ≡ db.header
unfolding header_result
header_result_full db h k = ground arith

-- One round of the loop where the header of a frame was read.
module _ (fuel : ℕ) (gate : Gate) (c : Connection) (id : ℕ) (pos : 0 < c.buffer.header)
    (small : c.buffer.header < 2 ^ 24) where
  pub round_short :
      c.buffer.size < c.buffer.header → dispatch_loop (suc fuel) gate c id ≡ ok ([], gate, c)
  unfolding dispatch_loop
  round_short h =
      rw (
        readheader_again c.buffer gate.mp gate.header_size pos,
        header_result_short c.buffer h small,
      )

  pub round_full :
      (es : List Effect) (g : Gate) (k : Connection)
      → c.buffer.header ≤ c.buffer.size
      → forward gate c c.buffer.header ≡ ok (es, g, k)
      → dispatch_loop (suc fuel) gate c id ≡ (
          dispatch_loop fuel g (record k { buffer = databuffer_reset k.buffer }) id
          >>= λ (more, g', k'). ok (es ++ more, g', k'))
  unfolding dispatch_loop
  round_full es g k h e =
      let neg : leb (2 ^ 31) c.buffer.header ≡ false = ground arith in
      let nonzero : (c.buffer.header == 0) ≡ false = ground arith in
      let fits : leb 0x1000000 c.buffer.header ≡ false = ground arith in
      rw (
        readheader_again c.buffer gate.mp gate.header_size pos,
        header_result_full c.buffer h small,
        neg,
        nonzero,
        fits,
        e,
      )

-- The header styles 'S' and 'L'
abbrev pub HasStyle : ℕ → Type 0
HasStyle size = (size ≡ 2) ⊎ (size ≡ 4)

check_plen-ok : (size : ℕ) → HasStyle size → check_plen size ≡ ok tt
check_plen-ok size (inl e) = rw e refl
check_plen-ok size (inr e) = rw e refl

-- One round of the loop where no header was read yet.
module _ (fuel : ℕ) (gate : Gate) (c : Connection) (id : ℕ) (none_yet : c.buffer.header ≡ 0) where
  pub round_wait :
      c.buffer.size < gate.header_size → dispatch_loop (suc fuel) gate c id ≡ ok ([], gate, c)
  unfolding dispatch_loop databuffer_readheader
  round_wait h =
      let zero_header : (c.buffer.header == 0) ≡ true = ground arith in
      let short : ltb c.buffer.size gate.header_size ≡ true = ground arith in
      rw (zero_header, short)

  module _ (plen : List ℕ) (d : Databuffer) (p : MessagePool) (styled : HasStyle gate.header_size)
      (room : gate.header_size ≤ c.buffer.size)
      (run : databuffer_read c.buffer gate.mp gate.header_size ≡ ok (plen, d, p)) where
    abbrev pub full : Databuffer
    full = record d { header = header_value gate.header_size plen }

    header_read :
        databuffer_readheader c.buffer gate.mp gate.header_size ≡ ok (header_result full, full, p)
    unfolding databuffer_readheader
    header_read =
        let zero_header : (c.buffer.header == 0) ≡ true = ground arith in
        let long : ltb c.buffer.size gate.header_size ≡ false = ground arith in
        rw (zero_header, long, run, check_plen-ok gate.header_size styled)

    pub round_empty :
        header_value gate.header_size plen ≡ 0
        → dispatch_loop (suc fuel) gate c id
          ≡ dispatch_loop fuel (record gate { mp = p }) (record c { buffer = full }) id
    unfolding dispatch_loop
    round_empty e =
        let r : header_result full ≡ 0 = header_result_full full (omega arith) (omega arith) ∙ e in
        rw (header_read, r)

    pub round_header :
        0 < header_value gate.header_size plen
        → dispatch_loop (suc fuel) gate c id
          ≡ dispatch_loop (suc fuel) (record gate { mp = p }) (record c { buffer = full }) id
    unfolding dispatch_loop
    round_header pos = rw (header_read, readheader_again full p gate.header_size pos)

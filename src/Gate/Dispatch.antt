-- ===== src/Gate/Dispatch.antt =====
-- `_forward` and `dispatch_message` of service-src/service_gate.cpp: the bytes of a connection are cut
-- into messages by their length headers, and each message goes to the broker or to the agent. The
-- calls of other components are the list of effects, in order.
pub mod Cut
pub mod Delivery
pub mod Loop
pub mod Bytes
pub mod Stream
use Prim.Native.Nat.{bit_or}
use skynet_cpp.Prelude.{ℕ, zero, suc, ◌+◌, ◌^◌, ◌==◌, leb, if◌then◌else◌, ◌||◌, List, [], ◌∷◌, ◌++◌}
use skynet_cpp.Prelude.Run.{Run, ok, fault, out_of_bounds, no_fuel, ◌>>=◌}
use skynet_cpp.Gate.Databuffer.{
  Databuffer, MessagePool, databuffer_push, databuffer_read, databuffer_readheader,
  databuffer_clear, databuffer_reset,
}

abbrev pub ptype_tag_dontcopy : ℕ
ptype_tag_dontcopy = 0x10000

-- `ServiceSend` with its source, destination, type, session and bytes; `SocketClose`; `SkynetError`;
-- `SocketStart`; `ServiceCallback`
pub data Effect : Type 0 where
  service_send : ℕ → ℕ → ℕ → ℕ → List ℕ → Effect
  socket_close : ℕ → Effect
  report_error : Effect
  socket_start : ℕ → Effect
  service_callback : Effect

-- The fields of `Connection` that these functions use; `id` is the pattern of an `int`.
pub record Connection : Type 0 where
  pub id : ℕ
  pub agent : ℕ
  pub client : ℕ
  pub buffer : Databuffer

pub record Gate : Type 0 where
  pub watchdog : ℕ
  pub broker : ℕ
  pub client_tag : ℕ
  pub header_size : ℕ
  pub mp : MessagePool

abbrev pub Outcome : Type 0
Outcome = Run (List Effect × Gate × Connection)

-- reading `size` bytes into `temp`, and the `ServiceSend` of them
unfoldable pub send_bytes : Gate → Connection → ℕ → ℕ → ℕ → Outcome
send_bytes gate c size source destination = do
  (temp, d, p) ← databuffer_read c.buffer gate.mp size
  let tag = bit_or gate.client_tag ptype_tag_dontcopy
  ok (
    service_send source destination tag c.id temp ∷ [],
    record gate { mp = p },
    record c { buffer = d },
  )

-- For the watchdog the text "<id> data " and `size` bytes are written into an array of `size` bytes,
-- past its end.
unfoldable pub forward : Gate → Connection → ℕ → Outcome
unfolding send_bytes
forward gate c size =
    if c.id == 0 || leb (2 ^ 31) c.id
    then ok ([], gate, c)
    else if gate.broker == 0
    then (if c.agent == 0
        then (if gate.watchdog == 0 then ok ([], gate, c) else fault out_of_bounds)
        else send_bytes gate c size c.client c.agent)
    else send_bytes gate c size 0 gate.broker

-- the branch for a header of 16M or more
unfoldable pub too_long : Gate → Connection → ℕ → Outcome
too_long gate c id =
    let (d, p) = databuffer_clear c.buffer gate.mp in
    ok (socket_close id ∷ report_error ∷ [], record gate { mp = p }, record c { buffer = d })

-- the loop of `dispatch_message`
unfoldable pub dispatch_loop : ℕ → Gate → Connection → ℕ → Outcome
unfolding forward too_long
dispatch_loop zero gate c id = fault no_fuel
dispatch_loop (suc fuel) gate c id = do
  (size, d, p) ← databuffer_readheader c.buffer gate.mp gate.header_size
  let g : Gate = record gate { mp = p }
  let k : Connection = record c { buffer = d }
  let again : Outcome = dispatch_loop fuel g k id
  let send : Outcome = (forward g k size) >>= λ (es, g', k').
      dispatch_loop fuel g' (record k' { buffer = databuffer_reset k'.buffer }) id
      >>= λ (more, g'', k''). ok (es ++ more, g'', k'')
  if leb (2 ^ 31) size
      then ok ([], g, k)
      else if size == 0
      then again
      else if leb 0x1000000 size
      then too_long g k id
      else send

-- The fuel is one more than the bytes that the buffer holds.
unfoldable pub dispatch_message : Gate → Connection → ℕ → List ℕ → ℕ → Outcome
unfolding dispatch_loop
dispatch_message gate c id bytes sz =
    let (d, p) = databuffer_push c.buffer gate.mp bytes sz in
    dispatch_loop (suc d.size) (record gate { mp = p }) (record c { buffer = d }) id

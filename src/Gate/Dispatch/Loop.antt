-- ===== src/Gate/Dispatch/Loop.antt =====
-- `dispatch_message` delivers exactly the frames of the stream that has come so far.
use mathlib.Core.Path.{subst}
use native.Mathlib.Decide.{ℕ_discrete}
use skynet_cpp.Prelude.{
  ℕ, zero, suc, ◌^◌, ◌≤◌, ◌<◌, ◌≡◌, refl, sym, inl, inr, ap, ap₂, ◌∙◌, List, ◌∷◌, ◌++◌, map, length,
  take, drop, length-drop, arith,
}
use skynet_cpp.Prelude.Run.{ok, ◌>>=◌}
use skynet_cpp.Gate.Databuffer.{databuffer_push, header_value, databuffer_reset}
use skynet_cpp.Gate.Databuffer.Reading.{IsValid, contents, databuffer_read_lem, databuffer_push_lem}
use skynet_cpp.Gate.Dispatch.{Connection, Gate, dispatch_loop, dispatch_message}
use skynet_cpp.Gate.Dispatch.Cut.{Cut, wait_header, header, wait_body, body}
use skynet_cpp.Gate.Dispatch.Delivery.{
  message_for, IsOpen, HasStyle, Delivers, forward-Delivers, round_short, round_full, round_wait,
  full, round_empty, round_header,
}

positive_style : (size : ℕ) → HasStyle size → 0 < size
positive_style size (inl e) = omega arith
positive_style size (inr e) = omega arith

-- The loop, for a stream whose frames are given: it delivers them in order, and stops.
dispatch_loop-Delivers :
    (size : ℕ) {h : ℕ} {bs : List ℕ} {fs : List (List ℕ)} {h' : ℕ} {rest : List ℕ}
    → Cut size h bs fs h' rest
    → (fuel : ℕ) (gate : Gate) (c : Connection) (id : ℕ) → IsOpen gate c
    → IsValid c.buffer
    → c.buffer.header ≡ h
    → contents c.buffer ≡ bs
    → gate.header_size ≡ size
    → HasStyle size
    → h < 2 ^ 24
    → length bs < fuel
    → Delivers gate c fs h' rest (dispatch_loop fuel gate c id)
unfolding databuffer_reset
dispatch_loop-Delivers size cut zero gate c id o v eh eb es style small enough =
    absurd (omega arith)
dispatch_loop-Delivers size (wait_header h bs z short) (suc fuel) gate c id o v eh eb es style small
      enough =
    record {
      left = c.buffer;
      pool = gate.mp;
      result = round_wait fuel gate c id (eh ∙ z) (omega (arith, v.counted, ap length eb));
      valid = v;
      state = eh;
      bytes = eb;
    }
dispatch_loop-Delivers size (header h bs fs h' rest z room fits cut) (suc fuel) gate c id o v eh eb
      es style small enough =
    let styled : HasStyle gate.header_size = subst HasStyle (sym es) style in
    let (d, p, run, vd, after, same) =
      databuffer_read_lem c.buffer gate.mp gate.header_size v
        (positive_style gate.header_size styled) (omega (arith, v.counted, ap length eb)) in
    let there : gate.header_size ≤ c.buffer.size = omega (arith, v.counted, ap length eb) in
    let value : header_value gate.header_size (take gate.header_size (contents c.buffer))
        ≡ header_value size (take size bs) =
      rw (es, eb) in
    let g : Gate = record gate { mp = p } in
    let k : Connection = record c {
      buffer =
          full fuel gate c id (eh ∙ z) (take gate.header_size (contents c.buffer)) d p styled there
            run;
    } in
    let vk : IsValid k.buffer = record {
      sized = vd.sized;
      offset_in = vd.offset_in;
      counted = vd.counted;
    } in
    let ok_ : IsOpen g k = record { id_pos = o.id_pos; id_int = o.id_int; routed = o.routed } in
    let bytes : contents k.buffer ≡ drop size bs = after ∙ ap₂ drop es eb in
    elim (ℕ_discrete (header_value gate.header_size (take gate.header_size (contents c.buffer)))
      0) [
        | yes e ↦
            let ih =
              dispatch_loop-Delivers size {h = header_value size (take size bs)} {bs = drop size bs}
                cut fuel g k id ok_ vk value bytes es style fits
                (omega (arith, length-drop size bs)) in
            record {
              left = ih.left;
              pool = ih.pool;
              result = round_empty fuel gate c id (eh ∙ z) _ d p styled there run e ∙ ih.result;
              valid = ih.valid;
              state = ih.state;
              bytes = ih.bytes;
            }
        | no e ↦
            let ih =
              dispatch_loop-Delivers size {h = header_value size (take size bs)} {bs = drop size bs}
                cut (suc fuel) g k id ok_ vk value bytes es style fits
                (omega (arith, length-drop size bs)) in
            record {
              left = ih.left;
              pool = ih.pool;
              result =
                  round_header fuel gate c id (eh ∙ z) _ d p styled there run (omega arith)
                  ∙ ih.result;
              valid = ih.valid;
              state = ih.state;
              bytes = ih.bytes;
            }
      ]
dispatch_loop-Delivers size (wait_body h bs z short) (suc fuel) gate c id o v eh eb es style small
      enough =
    record {
      left = c.buffer;
      pool = gate.mp;
      result =
          round_short fuel gate c id (omega arith) (omega arith)
            (omega (arith, v.counted, ap length eb));
      valid = v;
      state = eh;
      bytes = eb;
    }
dispatch_loop-Delivers size (body h bs fs h' rest z room cut) (suc fuel) gate c id o v eh eb es
      style small enough =
    let there : c.buffer.header ≤ c.buffer.size = omega (arith, v.counted, ap length eb) in
    let fw = forward-Delivers gate c c.buffer.header o v (omega arith) there in
    let g : Gate = record gate { mp = fw.pool } in
    let k : Connection = record c { buffer = record (fw.left) { header = 0 } } in
    let vk : IsValid k.buffer = record {
      sized = fw.valid.sized;
      offset_in = fw.valid.offset_in;
      counted = fw.valid.counted;
    } in
    let ok_ : IsOpen g k = record { id_pos = o.id_pos; id_int = o.id_int; routed = o.routed } in
    let ih =
      dispatch_loop-Delivers size {h = 0} {bs = drop h bs} cut fuel g k id ok_ vk refl
        (fw.bytes ∙ ap₂ drop eh eb) es style (omega arith) (omega (arith, length-drop h bs)) in
    let positive : 0 < c.buffer.header = omega arith in
    let bounded : c.buffer.header < 2 ^ 24 = omega arith in
    let here : (dispatch_loop fuel g k id >>= λ (more, g', k').
    ok (message_for gate c (take c.buffer.header (contents c.buffer)) ∷ more, g', k'))
        ≡ ok (
          message_for gate c (take c.buffer.header (contents c.buffer))
              ∷ map (message_for gate c) fs,
          record gate { mp = ih.pool },
          record c { buffer = ih.left },
        ) =
      rw (ih.result) in
    record {
      left = ih.left;
      pool = ih.pool;
      result =
          round_full fuel gate c id positive bounded _ _ _ there fw.result
          ∙ here
          ∙ ap
              (λ f. ok (
                message_for gate c f ∷ map (message_for gate c) fs,
                record gate { mp = ih.pool },
                record c { buffer = ih.left },
              ))
              (ap₂ take eh eb);
      valid = ih.valid;
      state = ih.state;
      bytes = ih.bytes;
    }

-- One call of dispatch_message, on an open connection with a valid buffer and a pending header below
-- 2 ^ 24, with a header of two or four bytes and no frame of 16M or more, sends the frames that the
-- held and the new bytes make up, in order, keeps the rest, and changes nothing else but the pool.
pub dispatch_message-Delivers :
    (gate : Gate) (c : Connection) (id : ℕ) (bytes : List ℕ) {fs : List (List ℕ)} {h' : ℕ}
    {rest : List ℕ}
    → Cut gate.header_size c.buffer.header (contents c.buffer ++ bytes) fs h' rest
    → IsOpen gate c
    → IsValid c.buffer
    → HasStyle gate.header_size
    → c.buffer.header < 2 ^ 24
    → Delivers gate c fs h' rest (dispatch_message gate c id bytes (length bytes))
unfolding dispatch_message
dispatch_message-Delivers gate c id bytes cut o v style small =
    let pushed = databuffer_push c.buffer gate.mp bytes (length bytes) in
    let (vd, eb, eh) = databuffer_push_lem c.buffer gate.mp bytes v in
    let g : Gate = record gate { mp = pushed.1 } in
    let k : Connection = record c { buffer = pushed.0 } in
    let done =
      dispatch_loop-Delivers gate.header_size cut (suc pushed.0.size) g k id
        (record { id_pos = o.id_pos; id_int = o.id_int; routed = o.routed }) vd eh eb refl style
        small (omega (arith, vd.counted, ap length eb)) in
    record {
      left = done.left;
      pool = done.pool;
      result = done.result;
      valid = done.valid;
      state = done.state;
      bytes = done.bytes;
    }

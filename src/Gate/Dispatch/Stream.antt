-- ===== src/Gate/Dispatch/Stream.antt =====
-- The messages of a connection do not depend on the pieces in which its stream is received, for the
-- header style 'S' (two bytes).
use mathlib.Core.Path.{subst₂, subst₃}
use skynet_cpp.Prelude.{
  ℕ, ◌-◌, ◌/◌, ◌%◌, ◌^◌, ◌<◌, ◌≡◌, refl, ap, ◌∙◌, inl, List, [], ◌∷◌, ◌++◌, map, length, take, drop,
  length-append, arith, append_assoc, append-nil, take-append, drop-append, take_all, drop_all,
}
use skynet_cpp.Prelude.Run.{ok, ◌>>=◌}
use skynet_cpp.Gate.Databuffer.{header_value}
use skynet_cpp.Gate.Databuffer.Reading.{IsValid, contents}
use skynet_cpp.Gate.Dispatch.{Connection, Gate, Outcome, dispatch_message}
use skynet_cpp.Gate.Dispatch.Cut.{
  Cut, wait_header, header, body, Cut-append, Cut-unique, Cut-settled,
}
use skynet_cpp.Gate.Dispatch.Delivery.{message_for, IsOpen, Delivers}
use skynet_cpp.Gate.Dispatch.Loop.{dispatch_message-Delivers}
use skynet_cpp.Gate.Dispatch.Bytes.{
  AllBytes, AllBytes-append, AllBytes-left, AllBytes-right, header_value-two, reading,
}

abbrev pub joined_chunks : List (List ℕ) → List ℕ
joined_chunks [] = []
joined_chunks (c ∷ cs) = c ++ joined_chunks cs

-- calls of `dispatch_message` for one connection, one after another
pub feed : Gate → Connection → ℕ → List (List ℕ) → Outcome
feed gate c id [] = ok ([], gate, c)
feed gate c id (bytes ∷ chunks) = dispatch_message gate c id bytes (length bytes) >>= λ (es, g, k).
    feed g k id chunks >>= λ (more, g', k'). ok (es ++ more, g', k')

record Fed (gate : Gate) (c : Connection) (id : ℕ) (chunks : List (List ℕ)) : Type 0 where
  frames : List (List ℕ)
  state : ℕ
  rest : List ℕ
  cut : Cut 2 c.buffer.header (contents c.buffer ++ joined_chunks chunks) frames state rest
  delivers : Delivers gate c frames state rest (feed gate c id chunks)

map-append :
    (gate : Gate) (c : Connection) (fs gs : List (List ℕ))
    → map (message_for gate c) (fs ++ gs)
      ≡ map (message_for gate c) fs ++ map (message_for gate c) gs
map-append gate c [] gs = refl
map-append gate c (f ∷ fs) gs = ap (λ r. message_for gate c f ∷ r) (map-append gate c fs gs)

-- Feeding `chunks` delivers the frames of the bytes held and all the chunks, joined.
feed-Fed :
    (chunks : List (List ℕ)) (gate : Gate) (c : Connection) (id : ℕ)
    → IsOpen gate c
    → IsValid c.buffer
    → gate.header_size ≡ 2
    → c.buffer.header < 2 ^ 24
    → Cut 2 c.buffer.header (contents c.buffer) [] c.buffer.header (contents c.buffer)
    → AllBytes (contents c.buffer)
    → AllBytes (joined_chunks chunks)
    → Fed gate c id chunks
unfolding feed
feed-Fed [] gate c id o v two small settled held bytes = record {
  frames = [];
  state = c.buffer.header;
  rest = contents c.buffer;
  cut = rw append-nil settled;
  delivers = record {
    left = c.buffer;
    pool = gate.mp;
    result = refl;
    valid = v;
    state = refl;
    bytes = refl;
  };
}
feed-Fed (b ∷ chunks) gate c id o v two small settled held bytes =
    let r =
      reading c.buffer.header (contents c.buffer ++ b) small (
        AllBytes-append (contents c.buffer) b held
          (AllBytes-left b (joined_chunks chunks) bytes)) in
    let d =
      dispatch_message-Delivers gate c id b {fs = r.frames} {h' = r.state} {rest = r.rest}
        (rw two r.cut) o v (inl two) small in
    let g : Gate = record gate { mp = d.pool } in
    let k : Connection = record c { buffer = d.left } in
    let fed =
      feed-Fed chunks g k id (record { id_pos = o.id_pos; id_int = o.id_int; routed = o.routed })
        d.valid two (rw d.state r.state_lt) (rw (d.state, d.bytes) (Cut-settled 2 r.cut))
        (rw d.bytes r.rest_bytes) (AllBytes-right b (joined_chunks chunks) bytes) in
    let next : Cut 2 r.state (r.rest ++ joined_chunks chunks) fed.frames fed.state fed.rest =
      subst₂ (λ h bs. Cut 2 h (bs ++ joined_chunks chunks) fed.frames fed.state fed.rest) d.state
        d.bytes fed.cut in
    record {
      frames = r.frames ++ fed.frames;
      state = fed.state;
      rest = fed.rest;
      cut = rw (← append_assoc) (Cut-append 2 r.cut (joined_chunks chunks) next);
      delivers = record {
        left = fed.delivers.left;
        pool = fed.delivers.pool;
        result = rw (d.result, fed.delivers.result, map-append);
        valid = fed.delivers.valid;
        state = fed.delivers.state;
        bytes = fed.delivers.bytes;
      };
    }

-- a frame behind its two-byte length
abbrev pub encode : List ℕ → List ℕ
encode f = (length f / 256) ∷ (length f % 256) ∷ f

abbrev pub encode_all : List (List ℕ) → List ℕ
encode_all [] = []
encode_all (f ∷ fs) = encode f ++ encode_all fs

-- frames that a peer can send: not empty, shorter than 64K, of bytes
abbrev pub Sendable : List (List ℕ) → Type 0
Sendable [] = Unit {0}
Sendable (f ∷ fs) = ((0 < length f) × (length f < 2 ^ 16) × AllBytes f) × Sendable fs

encode_all-AllBytes : (fs : List (List ℕ)) → Sendable fs → AllBytes (encode_all fs)
encode_all-AllBytes [] h = tt
encode_all-AllBytes (f ∷ fs) h = (
  omega arith,
  (omega arith, AllBytes-append f (encode_all fs) h.0.2 (encode_all-AllBytes fs h.1)),
)

encode_all-Cut : (fs : List (List ℕ)) → Sendable fs → Cut 2 0 (encode_all fs) fs 0 []
encode_all-Cut [] h = wait_header 0 [] refl (omega arith)
encode_all-Cut (f ∷ fs) h =
    let value : header_value 2 (take 2 (encode_all (f ∷ fs))) ≡ length f =
      header_value-two (length f / 256) (length f % 256) [] (omega arith) ∙ omega arith in
    let e : length f - length f ≡ 0 = omega arith in
    let first : take (length f) (f ++ encode_all fs) ≡ f =
      rw (take-append (length f) f (encode_all fs), e, append-nil)
        (take_all (length f) f (omega arith)) in
    let others : drop (length f) (f ++ encode_all fs) ≡ encode_all fs =
      rw (drop-append (length f) f (encode_all fs), e, drop_all (length f) f (omega arith)) in
    let read : Cut 2 (length f) (f ++ encode_all fs) (take (length f) (f ++ encode_all fs) ∷ fs) 0
        [] =
      body (length f) (f ++ encode_all fs) fs 0 [] h.0.0
        (omega (arith, length-append f (encode_all fs))) (rw others (encode_all-Cut fs h.1)) in
    header 0 (encode_all (f ∷ fs)) (f ∷ fs) 0 [] refl (omega arith)
      (rw value (omega (arith, h.0.1))) (rw value (rw first at read))

-- However the stream of non-empty frames below 64K with two-byte length headers is split into chunks
-- (empty ones too), each given to a call of dispatch_message, an open connection that starts with an
-- empty valid buffer and no pending header sends exactly these frames, in order, and ends with an
-- empty valid buffer.
pub feed-encode_all :
    (fs chunks : List (List ℕ)) (gate : Gate) (c : Connection) (id : ℕ)
    → Sendable fs
    → joined_chunks chunks ≡ encode_all fs
    → IsOpen gate c
    → IsValid c.buffer
    → gate.header_size ≡ 2
    → c.buffer.header ≡ 0
    → contents c.buffer ≡ []
    → Delivers gate c fs 0 [] (feed gate c id chunks)
feed-encode_all fs chunks gate c id sendable whole o v two eh eb =
    let settled : Cut 2 c.buffer.header (contents c.buffer) [] c.buffer.header (contents c.buffer) =
      wait_header c.buffer.header (contents c.buffer) eh (rw eb (omega arith)) in
    let fed =
      feed-Fed chunks gate c id o v two (rw eh (omega arith)) settled (rw eb tt)
        (rw whole (encode_all-AllBytes fs sendable)) in
    let joined : Cut 2 0 (encode_all fs) fed.frames fed.state fed.rest =
      subst₂ (λ h bs. Cut 2 h bs fed.frames fed.state fed.rest) eh
        (ap (λ bs. bs ++ joined_chunks chunks) eb ∙ whole) fed.cut in
    let (ef, es, er) = Cut-unique 2 (omega arith) joined (encode_all-Cut fs sendable) in
    subst₃ (λ a b r. Delivers gate c a b r (feed gate c id chunks)) ef es er fed.delivers

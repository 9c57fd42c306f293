-- ===== src/Gate/Dispatch/Bytes.antt =====
-- Every stream of bytes can be cut into frames, for the header style 'S' (two bytes).
use native.Mathlib.Decide.{ℕ_discrete, dec_lt}
use skynet_cpp.Prelude.{
  ℕ, zero, suc, ◌+◌, ◌*◌, ◌^◌, ◌≤◌, ◌<◌, ◌≡◌, List, [], ◌∷◌, ◌++◌, length, take, drop, length-drop,
  arith,
}
use skynet_cpp.Prelude.Bits.{bit_or-shifted}
use skynet_cpp.Gate.Databuffer.{header_value}
use skynet_cpp.Gate.Dispatch.Cut.{Cut, wait_header, header, wait_body, body}

-- every number of the list is a byte
abbrev pub AllBytes : List ℕ → Type 0
AllBytes [] = Unit {0}
AllBytes (b ∷ bs) = (b < 256) × AllBytes bs

AllBytes-drop : (n : ℕ) (bs : List ℕ) → AllBytes bs → AllBytes (drop n bs)
AllBytes-drop zero bs h = h
AllBytes-drop (suc n) [] h = h
AllBytes-drop (suc n) (b ∷ bs) h = AllBytes-drop n bs h.1

pub AllBytes-append : (xs ys : List ℕ) → AllBytes xs → AllBytes ys → AllBytes (xs ++ ys)
AllBytes-append [] ys h k = k
AllBytes-append (x ∷ xs) ys h k = (h.0, AllBytes-append xs ys h.1 k)

pub AllBytes-left : (xs ys : List ℕ) → AllBytes (xs ++ ys) → AllBytes xs
AllBytes-left [] ys h = tt
AllBytes-left (x ∷ xs) ys h = (h.0, AllBytes-left xs ys h.1)

pub AllBytes-right : (xs ys : List ℕ) → AllBytes (xs ++ ys) → AllBytes ys
AllBytes-right [] ys h = h
AllBytes-right (x ∷ xs) ys h = AllBytes-right xs ys h.1

pub header_value-two :
    (a b : ℕ) (bs : List ℕ) → b < 256 → header_value 2 (a ∷ b ∷ bs) ≡ a * 2 ^ 8 + b
unfolding header_value
header_value-two a b bs h = bit_or-shifted 8 a b h

header_value-lt :
    (bs : List ℕ) → AllBytes bs → 2 ≤ length bs → header_value 2 (take 2 bs) < 0x1000000
header_value-lt [] h k = absurd (omega arith)
header_value-lt (a ∷ []) h k = absurd (omega arith)
header_value-lt (a ∷ b ∷ bs) h k = omega (arith, header_value-two a b [] h.1.0, h.0, h.1.0)

-- what the stream of bytes holds when it is read from the header state `h`
pub record Reading (h : ℕ) (bs : List ℕ) : Type 0 where
  pub frames : List (List ℕ)
  pub state : ℕ
  pub rest : List ℕ
  pub cut : Cut 2 h bs frames state rest
  pub state_lt : state < 2 ^ 24
  pub rest_bytes : AllBytes rest

-- Every stream of bytes has a reading.
Reading-within : (n h : ℕ) (bs : List ℕ) → length bs < n → h < 2 ^ 24 → AllBytes bs → Reading h bs
Reading-within zero h bs k small bytes = elim k [ ]
Reading-within (suc n) h bs k small bytes = elim (ℕ_discrete h 0) [
  | yes z ↦ elim (dec_lt (length bs) 2) [
    | yes short ↦ record {
      frames = [];
      state = h;
      rest = bs;
      cut = wait_header h bs z short;
      state_lt = small;
      rest_bytes = bytes;
    }
    | no long ↦
        let fits = header_value-lt bs bytes (omega arith) in
        let r =
          Reading-within n (header_value 2 (take 2 bs)) (drop 2 bs)
            (omega (arith, length-drop 2 bs)) fits (AllBytes-drop 2 bs bytes) in
        record {
          frames = r.frames;
          state = r.state;
          rest = r.rest;
          cut = header h bs r.frames r.state r.rest z (omega arith) fits r.cut;
          state_lt = r.state_lt;
          rest_bytes = r.rest_bytes;
        }
  ]
  | no z ↦ elim (dec_lt (length bs) h) [
    | yes short ↦ record {
      frames = [];
      state = h;
      rest = bs;
      cut = wait_body h bs (omega arith) short;
      state_lt = small;
      rest_bytes = bytes;
    }
    | no long ↦
        let r =
          Reading-within n 0 (drop h bs) (omega (arith, length-drop h bs)) (omega arith)
            (AllBytes-drop h bs bytes) in
        record {
          frames = take h bs ∷ r.frames;
          state = r.state;
          rest = r.rest;
          cut = body h bs r.frames r.state r.rest (omega arith) (omega arith) r.cut;
          state_lt = r.state_lt;
          rest_bytes = r.rest_bytes;
        }
  ]
]

pub reading : (h : ℕ) (bs : List ℕ) → h < 2 ^ 24 → AllBytes bs → Reading h bs
reading h bs = Reading-within (suc (length bs)) h bs (omega arith)

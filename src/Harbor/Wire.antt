-- ===== src/Harbor/Wire.antt =====
-- The wire format of service-src/service_harbor.cpp: big-endian words and the 12 bytes of
-- `struct remote_message_header` that stand behind a message. A byte string is a list of numbers;
-- `|` and `&` are the bit operations, and `n >> k` is `n / 2 ^ k`.
use Prim.Native.Nat.{bit_and, bit_or}
use skynet_cpp.Prelude.{ℕ, ◌+◌, ◌*◌, ◌/◌, ◌^◌, ◌<◌, ◌≡◌, ◌∙◌, List, [], ◌∷◌, ◌++◌, get_or, arith}
use skynet_cpp.Prelude.Bits.{bit_and-mask, bit_or-shifted}

pub record Header : Type 0 where
  pub source : ℕ
  pub destination : ℕ
  pub session : ℕ

abbrev pub header_cookie_length : ℕ
header_cookie_length = 12

unfoldable pub to_bigendian : ℕ → List ℕ
to_bigendian n =
    bit_and (n / 2 ^ 24) 0xff
    ∷ bit_and (n / 2 ^ 16) 0xff
    ∷ bit_and (n / 2 ^ 8) 0xff
    ∷ bit_and n 0xff
    ∷ []

unfoldable pub header_to_message : Header → List ℕ
unfolding to_bigendian
header_to_message h = to_bigendian h.source ++ to_bigendian h.destination ++ to_bigendian h.session

-- The word at a byte offset: the union gives the four bytes in the order in which they stand.
unfoldable pub from_bigendian : List ℕ → ℕ → ℕ
from_bigendian bytes o =
    bit_or
      (bit_or (bit_or (get_or bytes o 0 * 2 ^ 24) (get_or bytes (o + 1) 0 * 2 ^ 16))
        (get_or bytes (o + 2) 0 * 2 ^ 8))
      (get_or bytes (o + 3) 0)

unfoldable pub message_to_header : List ℕ → Header
unfolding from_bigendian
message_to_header bytes = record {
  source = from_bigendian bytes 0;
  destination = from_bigendian bytes 4;
  session = from_bigendian bytes 8;
}

join_bytes :
    (a b c d : ℕ)
    → a < 256
    → b < 256
    → c < 256
    → d < 256
    → bit_or (bit_or (bit_or (a * 2 ^ 24) (b * 2 ^ 16)) (c * 2 ^ 8)) d
      ≡ a * 2 ^ 24 + b * 2 ^ 16 + c * 2 ^ 8 + d
join_bytes a b c d ha hb hc hd =
    let e₁ = bit_or-shifted 24 a (b * 2 ^ 16) (omega arith) in
    let f₁ : a * 2 ^ 24 + b * 2 ^ 16 ≡ (a * 2 ^ 8 + b) * 2 ^ 16 = omega arith in
    let e₂ = bit_or-shifted 16 (a * 2 ^ 8 + b) (c * 2 ^ 8) (omega arith) in
    let f₂ : (a * 2 ^ 8 + b) * 2 ^ 16 + c * 2 ^ 8 ≡ ((a * 2 ^ 8 + b) * 2 ^ 8 + c) * 2 ^ 8 =
      omega arith in
    let e₃ = bit_or-shifted 8 ((a * 2 ^ 8 + b) * 2 ^ 8 + c) d (omega arith) in
    rw (e₁, f₁, e₂, f₂, e₃) (omega arith)

-- Reading back the four bytes of a 32-bit number.
pub from-to_bigendian :
    (n : ℕ) (rest : List ℕ) → n < 2 ^ 32 → from_bigendian (to_bigendian n ++ rest) 0 ≡ n
unfolding from_bigendian to_bigendian
from-to_bigendian n rest h =
    rw
      (
        bit_and-mask 8 (n / 2 ^ 24),
        bit_and-mask 8 (n / 2 ^ 16),
        bit_and-mask 8 (n / 2 ^ 8),
        bit_and-mask 8 n,
      )
      (join_bytes _ _ _ _ (omega arith) (omega arith) (omega arith) (omega arith) ∙ omega arith)

-- A remote message header of 32-bit fields is read back unchanged from the 12 bytes that were
-- written, whatever follows them.
pub message_to_header-header_to_message :
    (h : Header) (rest : List ℕ)
    → h.source < 2 ^ 32
    → h.destination < 2 ^ 32
    → h.session < 2 ^ 32
    → message_to_header (header_to_message h ++ rest) ≡ h
unfolding message_to_header header_to_message
message_to_header-header_to_message h rest hs hd hn = λ i. record {
  source = from-to_bigendian h.source [] hs i;
  destination = from-to_bigendian h.destination [] hd i;
  session = from-to_bigendian h.session [] hn i;
}

-- ===== src/Service/Send/Packing.antt =====
-- The type and the size of a message share one word in skynet-src/service.cpp, and a session is a
-- positive `int`.
use Prim.Native.Nat.{bit_and}
use native.Mathlib.Nat.{mod-lt, mod-eq_of_lt}
use skynet_cpp.Prelude.{
  ℕ, ◌+◌, ◌*◌, ◌/◌, ◌%◌, ◌^◌, ◌<◌, ◌==◌, leb, ◌≡◌, refl, ◌∙◌, ◌||◌, true, arith, inl, inr,
  Bool-cases,
}
use skynet_cpp.Prelude.Bits.{bit_and-mask, bit_or-shifted'}
use skynet_cpp.Prelude.Run.{deleted_object}
use skynet_cpp.Prelude.Run.Ensures.{Ensures, Ensures-ok, Ensures-fault}
use skynet_cpp.Service.Contexts.{System, new_session}
use skynet_cpp.Service.Send.{pack, message_type_mask, message_type_shift}

-- Newsession returns a session from 1 to 2 ^ 31 - 1, which is what the context keeps; nothing stops
-- it but a deleted context.
pub new_session-Ensures :
    (c : ℕ) (w : System)
    → Ensures
        (λ e. e ≡ deleted_object)
        (λ (session, w'). 0 < session × session < 2 ^ 31 × ((w'.context c).session_id ≡ session))
        (new_session c w)
unfolding new_session
new_session-Ensures c w =
    let on : (c == c) ≡ true = ground arith in
    let next = ((w.context c).session_id + 1) % 2 ^ 32 in
    let below : next < 2 ^ 32 = mod-lt ((w.context c).session_id + 1) (omega arith) in
    elim (Bool-cases (w.context c).deleted) [
      | inl gone ↦ rw (new_session, gone) (Ensures-fault refl)
      | inr here ↦ elim (Bool-cases ((next == 0) || leb (2 ^ 31) next)) [
        | inl low ↦
            rw (new_session, here, low) (Ensures-ok (rw on (omega arith, omega arith, refl)))
        | inr high ↦
            let positive : 0 < next × next < 2 ^ 31 = ground (arith, high) in
            rw (new_session, here, high) (Ensures-ok (rw on (positive.0, positive.1, refl)))
      ]
    ]

-- The type and the size are read back from the word.
pub unpack-pack :
    (sz type : ℕ)
    → sz < 2 ^ message_type_shift
    → type < 2 ^ 8
    → (bit_and (pack sz type) message_type_mask ≡ sz)
      × (pack sz type / 2 ^ message_type_shift ≡ type)
unpack-pack sz type small byte =
    let fits : type * 2 ^ 56 % 2 ^ 64 ≡ type * 2 ^ 56 = mod-eq_of_lt (omega arith) in
    let sum : pack sz type ≡ sz + type * 2 ^ 56 = rw fits (bit_or-shifted' 56 sz type small) in
    rw sum (bit_and-mask 56 (sz + type * 2 ^ 56) ∙ omega arith, omega arith)

-- ===== src/SocketServer/Ids/Bounds.antt =====
-- What `ReserveId` of skynet-src/socket_server.cpp returns, and that it finds a free slot.
use skynet_cpp.Prelude.{
  ℕ, zero, suc, ◌+◌, ◌-◌, ◌%◌, ◌^◌, ◌<◌, ◌==◌, ltb, false, ◌≡◌, refl, ap, ◌⊎◌, inl, inr, Bool-cases,
  arith,
}
use skynet_cpp.Prelude.Bits.{bit_and-mask}
use skynet_cpp.SocketServer.{Socket, max_socket, type_invalid, ignored, put_socket}
use skynet_cpp.SocketServer.Ids.{hash_id, next_id, reserved, reserve_loop, reserve_id}

next_id_lem :
    (alloc : ℕ)
    → alloc < 2 ^ 31
    → (n : ℕ) × (next_id alloc ≡ (n, n))
      × (n < 2 ^ 31)
      × (n % max_socket ≡ (alloc + 1) % max_socket)
unfolding next_id
next_id_lem alloc h = elim (Bool-cases (ltb ((alloc + 1) % 2 ^ 32) (2 ^ 31))) [
  | inl below ↦ ((alloc + 1) % 2 ^ 32, rw below refl, ground arith, omega arith)
  | inr above ↦
      let masked = bit_and-mask 31 ((alloc + 1) % 2 ^ 32) in
      ((alloc + 1) % 2 ^ 32 % 2 ^ 31, rw (above, masked) refl, omega arith, ground arith)
]

-- An id was given: its slot was free, and is the only one that changed.
pub record Reserves (slot : ℕ → Socket) (r : ℕ × ℕ × (ℕ → Socket)) : Type 0 where
  pub small : r.0 < 2 ^ 31
  pub counted : r.1 ≡ r.0
  pub free : (slot (hash_id r.0)).type ≡ type_invalid
  pub slots : r.2 ≡ put_socket slot (hash_id r.0) (reserved (slot (hash_id r.0)) r.0)

taken :
    {slot : ℕ → Socket} (n : ℕ)
    → n < 2 ^ 31
    → (slot (hash_id n)).type ≡ type_invalid
    → Reserves slot (n, n, put_socket slot (hash_id n) (reserved (slot (hash_id n)) n))
taken n small free = record { small = small; counted = refl; free = free; slots = refl }

-- one round without a failed exchange
one_round :
    (n alloc : ℕ) (slot : ℕ → Socket)
    → alloc < 2 ^ 31
    → Reserves slot (reserve_loop 0 (suc n) alloc slot)
      ⊎ ((next : ℕ) × (next < 2 ^ 31)
          × (next % max_socket ≡ (alloc + 1) % max_socket)
          × (((slot (hash_id next)).type == type_invalid) ≡ false)
          × (reserve_loop 0 (suc n) alloc slot ≡ reserve_loop 0 n next slot))
unfolding reserve_loop
one_round n alloc slot h =
    let (next, e, small, turn) = next_id_lem alloc h in
    elim (Bool-cases ((slot (hash_id next)).type == type_invalid)) [
      | inl free ↦ inl (rw (e, free) (taken next small (ground arith)))
      | inr used ↦ inr (next, small, turn, used, rw (e, used) refl)
    ]

loop-cases :
    (lost n alloc : ℕ) (slot : ℕ → Socket)
    → alloc < 2 ^ 31
    → Reserves slot (reserve_loop lost n alloc slot)
      ⊎ (((reserve_loop lost n alloc slot).0 ≡ ignored)
          × ((reserve_loop lost n alloc slot).2 ≡ slot))
unfolding reserve_loop
loop-cases zero zero alloc slot h = inr (refl, refl)
loop-cases (suc lost) zero alloc slot h = inr (refl, refl)
loop-cases zero (suc n) alloc slot h = elim (one_round n alloc slot h) [
  | inl done ↦ inl done
  | inr (next, small, turn, used, e) ↦ rw e (loop-cases zero n next slot small)
]
loop-cases (suc lost) (suc n) alloc slot h =
    let (next, e, small, turn) = next_id_lem alloc h in
    elim (Bool-cases ((slot (hash_id next)).type == type_invalid)) [
      | inl free ↦ rw (e, free) (loop-cases lost (suc n) next slot small)
      | inr used ↦ rw (e, used) (loop-cases (suc lost) n next slot small)
    ]

loop_free :
    (n d x alloc : ℕ) (slot : ℕ → Socket)
    → alloc < 2 ^ 31
    → (slot x).type ≡ type_invalid
    → d < n
    → (alloc + 1 + d) % max_socket ≡ x
    → Reserves slot (reserve_loop 0 n alloc slot)
loop_free zero d x alloc slot h free l e = absurd (omega arith)
loop_free (suc n) zero x alloc slot h free l e = elim (one_round n alloc slot h) [
  | inl done ↦ done
  | inr (next, small, turn, used, eq) ↦
      let here : hash_id next ≡ x = omega (arith, turn, e) in
      absurd (ground (arith, used, free, here, ap (λ i. (slot i).type) here))
]
loop_free (suc n) (suc d) x alloc slot h free l e = elim (one_round n alloc slot h) [
  | inl done ↦ done
  | inr (next, small, turn, used, eq) ↦
      rw eq (loop_free n d x next slot small free (omega arith) (omega (arith, turn, e)))
]

reserve_id-cases :
    (lost alloc : ℕ) (slot : ℕ → Socket)
    → alloc < 2 ^ 31
    → Reserves slot (reserve_id lost alloc slot)
      ⊎ (((reserve_id lost alloc slot).0 ≡ ignored) × ((reserve_id lost alloc slot).2 ≡ slot))
reserve_id-cases lost alloc slot h = loop-cases lost max_socket alloc slot h

-- If a slot is free, the counter is below 2 ^ 31 and no exchange fails, ReserveId returns an id
-- below 2 ^ 31 whose slot was free and is reserved for it, and no other slot has changed.
pub reserve_id_free :
    (alloc x : ℕ) (slot : ℕ → Socket)
    → alloc < 2 ^ 31
    → x < max_socket
    → (slot x).type ≡ type_invalid
    → Reserves slot (reserve_id 0 alloc slot)
reserve_id_free alloc x slot h small free =
    loop_free max_socket ((x + max_socket - (alloc + 1) % max_socket) % max_socket) x alloc slot h
      free (omega arith) (omega arith)

-- ===== src/Handle/Slots/Register.antt =====
-- `HandleRegister` on a valid table: a free slot in reach gives the context a handle of its own; a full
-- table is never grown.
use Prim.Native.Nat.{bit_or}
use native.Mathlib.Decide.{ℕ_discrete}
use skynet_cpp.Prelude.{
  ℕ, zero, suc, ◌+◌, ◌-◌, ◌*◌, ◌^◌, ◌≤◌, ◌<◌, ◌==◌, ◌≡◌, ◌≢◌, refl, sym, ap, ap₂, ◌∙◌, ◌⊎◌, inl,
  inr, true, false, Option, none, some, List, length, get_or, replicate, arith, Option-cases,
  Bool-cases,
}
use skynet_cpp.Prelude.Bits.{bit_or-shifted'}
use skynet_cpp.Prelude.Run.{Run, ok, fault, assertion}
use skynet_cpp.Handle.Storage.{Storage, Memory, update}
use skynet_cpp.Handle.Slots.{
  is_null, hash_of, wrap, find, probe, move_slots, register_loop, register, attach,
}
use skynet_cpp.Handle.Slots.Lookup.{
  IsValid, size_pos, hash_of-lt, IsNew, write_slot, find-write_slot_self, find-write_slot_ne,
  write_slot-IsValid,
}

is_null→none : (o : Option ℕ) → is_null o ≡ true → o ≡ none
is_null→none none h = refl
is_null→none (some c) h = cc

wrap_bounds : (h : ℕ) → 0 < h → (0 < wrap h) × (wrap h < 2 ^ 24)
unfolding wrap
wrap_bounds h pos = ground arith

wrap_small : (h : ℕ) → h < 2 ^ 24 → wrap h ≡ h
unfolding wrap
wrap_small h lt = ground arith

-- what the probing loop finds: a handle of 24 bits, not 0, whose slot is free
probe-found :
    (n : ℕ) (slot : List (Option ℕ)) (h g hash : ℕ)
    → 0 < h
    → probe n slot h ≡ some (g, hash)
    → (hash ≡ hash_of slot g) × (get_or slot (hash_of slot g) none ≡ none) × (0 < g) × (g < 2 ^ 24)
unfolding probe
probe-found zero slot h g hash pos e = cc
probe-found (suc n) slot h g hash pos e =
    let (low, high) = wrap_bounds h pos in
    elim (Bool-cases (is_null (get_or slot (hash_of slot (wrap h)) none))) [
      | inl free ↦
          let here : wrap h ≡ g = cc (rw free at e) in
          let there : hash_of slot (wrap h) ≡ hash = cc (rw free at e) in
          rw (← here) (sym there, is_null→none _ free, low, high)
      | inr taken ↦ probe-found n slot (wrap h + 1) g hash (omega arith) (rw taken at e)
    ]

-- the loop comes to a free slot, if one is in the slots of the next `n` handles and none of these
-- is past the 24 bits
probe-reaches :
    (n r : ℕ) (slot : List (Option ℕ)) (h : ℕ)
    → r < n
    → h + n ≤ 2 ^ 24
    → get_or slot (hash_of slot (h + r)) none ≡ none
    → probe n slot h ≢ none
unfolding probe
probe-reaches zero r slot h lt room free e = absurd (omega arith)
probe-reaches (suc n) r slot h lt room free e =
    let same = wrap_small h (omega arith) in
    elim (Bool-cases (is_null (get_or slot (hash_of slot (wrap h)) none))) [
      | inl found ↦ cc (rw found at e)
      | inr taken ↦ elim (ℕ_discrete r 0) [
        | yes z ↦
            let start : h + r ≡ wrap h = omega arith in
            let hit : is_null (get_or slot (hash_of slot (wrap h)) none) ≡ true =
              rw (rw start at free) in
            cc
        | no nz ↦
            let shift : h + r ≡ wrap h + 1 + (r - 1) = omega arith in
            probe-reaches n (r - 1) slot (wrap h + 1) (omega arith) (omega arith) (rw shift at free)
              (rw taken at e)
      ]
    ]

-- What a registration that succeeds has done: the context has a handle `h` that is not 0 within its
-- harbor, the new table is valid and unlocked, `h` names the context, and no other handle changed.
pub record Attached (s : Storage) (m : Memory) (ctx : ℕ) (out : Run (ℕ × Storage × Memory))
    : Type 0 where
  pub index : ℕ
  pub table : Storage
  pub index_pos : 0 < index
  pub index_lt : index < 2 ^ 24
  pub result :
      out
      ≡ ok (index + s.harbor, table, update m ctx (record { handle = index + s.harbor; ref = 2 }))
  pub valid : IsValid table (update m ctx (record { handle = index + s.harbor; ref = 2 }))
  pub unlocked : table.locked ≡ s.locked
  pub named :
      find table (update m ctx (record { handle = index + s.harbor; ref = 2 })) (index + s.harbor)
      ≡ some ctx
  pub others :
      (g : ℕ)
      → g ≢ index + s.harbor
      → find table (update m ctx (record { handle = index + s.harbor; ref = 2 })) g ≡ find s m g

-- The assertion of the growing loop fails at the first context that it meets.
move_slots-fault :
    (n i j c : ℕ) (m : Memory) (slot fresh : List (Option ℕ))
    → ((k d : ℕ) → get_or slot k none ≡ some d → hash_of slot (m d).handle ≡ k)
    → i ≤ j
    → j < i + n
    → get_or slot j none ≡ some c
    → move_slots n i m slot fresh ≡ fault assertion
unfolding move_slots
move_slots-fault zero i j c m slot fresh placed lo hi e = absurd (omega arith)
move_slots-fault (suc n) i j c m slot fresh placed lo hi e =
    elim (Option-cases (get_or slot i none)) [
      | inl z ↦
          let ne : i ≢ j = λ p. cc (sym z ∙ ap (λ k. get_or slot k none) p ∙ e) in
          let rest =
            move_slots-fault n (i + 1) j c m slot fresh placed (omega arith) (omega arith) e in
          ground (arith, z, rest)
      | inr (d, z) ↦
          let home = placed i d z in
          let busy : is_null (get_or slot (hash_of slot (m d).handle) none) ≡ false =
            rw (home, z) in
          ground (arith, z, busy)
    ]

module _ (fuel : ℕ) (s : Storage) (m : Memory) (ctx : ℕ) where
  register_loop-found :
      (g hash : ℕ)
      → probe (length s.slot) s.slot s.handle_index ≡ some (g, hash)
      → register_loop (suc fuel) s m ctx ≡ ok (bit_or g s.harbor, write_slot s hash ctx (g + 1))
  unfolding register_loop
  register_loop-found g hash e = ground arith

  register_loop-fault :
      probe (length s.slot) s.slot s.handle_index ≡ none
      → move_slots (length s.slot) 0 m s.slot (replicate (length s.slot * 2) none) ≡ fault assertion
      → register_loop (suc fuel) s m ctx ≡ fault assertion
  unfolding register_loop
  register_loop-fault e f = ground arith

-- the memory while the registration runs
abbrev starting : Memory → ℕ → Memory
starting m ctx = update m ctx (record { handle = 0; ref = 2 })

module _ (s : Storage) (m : Memory) (ctx : ℕ) (open_ : s.locked ≡ false) where
  attach-ok :
      (h : ℕ) (t : Storage)
      → register_loop 26 s (starting m ctx) ctx ≡ ok (h, t)
      → attach s m ctx ≡ ok (h, t, update m ctx (record { handle = h; ref = 2 }))
  unfolding attach register
  attach-ok h t e = ground arith

  attach-fault :
      register_loop 26 s (starting m ctx) ctx ≡ fault assertion → attach s m ctx ≡ fault assertion
  unfolding attach register
  attach-fault e = ground arith

-- The first slot that the probing loop looks at is taken, if the loop finds none.
probe-none :
    (n : ℕ) (slot : List (Option ℕ)) (h : ℕ)
    → 0 < n
    → probe n slot h ≡ none
    → (c : ℕ) × (get_or slot (hash_of slot (wrap h)) none ≡ some c)
unfolding probe
probe-none zero slot h pos e = absurd (omega arith)
probe-none (suc n) slot h pos e = elim (Option-cases (get_or slot (hash_of slot (wrap h)) none)) [
  | inl z ↦ absurd (ground (arith, z))
  | inr found ↦ found
]

module _ {s : Storage} {m : Memory} (v : IsValid s m) (ctx : ℕ) (open_ : s.locked ≡ false)
    (new : IsNew s ctx) where
  pub attach-found :
      (g hash : ℕ)
      → probe (length s.slot) s.slot s.handle_index ≡ some (g, hash)
      → Attached s m ctx (attach s m ctx)
  attach-found g hash e =
      let (home, free, pos, lt) =
        probe-found (length s.slot) s.slot s.handle_index g hash v.index_pos e in
      let joined : bit_or g s.harbor ≡ g + s.harbor =
        rw v.harbor_eq (bit_or-shifted' 24 g v.node lt) in
      record {
        index = g;
        table = write_slot s (hash_of s.slot g) ctx (g + 1);
        index_pos = pos;
        index_lt = lt;
        result =
            attach-ok s m ctx open_ (g + s.harbor) (write_slot s (hash_of s.slot g) ctx (g + 1)) (
              register_loop-found 25 s (starting m ctx) ctx g hash e
              ∙ ap₂ (λ h i. ok (h, write_slot s i ctx (g + 1))) joined home);
        valid = write_slot-IsValid v ctx g (g + 1) 2 new free (omega arith) (omega arith);
        unlocked = refl;
        named = find-write_slot_self v ctx g (g + 1) 2 new free;
        others = find-write_slot_ne v ctx g (g + 1) 2 new free;
      }

  attach-not_found :
      probe (length s.slot) s.slot s.handle_index ≡ none → attach s m ctx ≡ fault assertion
  attach-not_found e =
      let (c, taken) = probe-none (length s.slot) s.slot s.handle_index (size_pos v) e in
      attach-fault s m ctx open_ (
        register_loop-fault 25 s (starting m ctx) ctx e (
          move_slots-fault (length s.slot) 0 (hash_of s.slot (wrap s.handle_index)) c
            (starting m ctx) s.slot (replicate (length s.slot * 2) none) placed (omega arith)
            (omega (arith, hash_of-lt v (wrap s.handle_index))) taken))
    where
      placed :
          (k d : ℕ)
          → get_or s.slot k none ≡ some d
          → hash_of s.slot (update m ctx (record { handle = 0; ref = 2 }) d).handle ≡ k
      placed k d z =
          let ne : d ≢ ctx = λ p. new k (z ∙ ap some p) in
          let off : (d == ctx) ≡ false = ground arith in rw off (v.placed k d z)

  -- On a valid, unlocked table, the registration of a context without a slot either fails an
  -- assertion, or gives it a handle of 24 bits within the harbor, not 0 there, that names the
  -- context and leaves every other handle as it was, on a table that is valid and unlocked.
  pub attach-cases : (attach s m ctx ≡ fault assertion) ⊎ Attached s m ctx (attach s m ctx)
  attach-cases = elim (Option-cases (probe (length s.slot) s.slot s.handle_index)) [
    | inl e ↦ inl (attach-not_found e)
    | inr ((g, hash), e) ↦ inr (attach-found g hash e)
  ]

  -- On a valid, unlocked table, if one of the slots of as many next handles as there are slots is
  -- free, and these handles fit in 24 bits, the registration of a context without a slot succeeds.
  attach-succeeds :
      (r : ℕ)
      → r < length s.slot
      → get_or s.slot (hash_of s.slot (s.handle_index + r)) none ≡ none
      → s.handle_index + length s.slot ≤ 2 ^ 24
      → Attached s m ctx (attach s m ctx)
  attach-succeeds r lt free room =
      elim (Option-cases (probe (length s.slot) s.slot s.handle_index)) [
        | inl e ↦ absurd (probe-reaches (length s.slot) r s.slot s.handle_index lt room free e)
        | inr ((g, hash), e) ↦ attach-found g hash e
      ]

  -- On a full, valid and unlocked table the registration of a context without a slot fails an
  -- assertion: the table never grows.
  pub attach-full :
      ((i : ℕ) → i < length s.slot → get_or s.slot i none ≢ none) → attach s m ctx ≡ fault assertion
  attach-full full = elim (Option-cases (probe (length s.slot) s.slot s.handle_index)) [
    | inl e ↦ attach-not_found e
    | inr ((g, hash), e) ↦
        let (home, free, pos, lt) =
          probe-found (length s.slot) s.slot s.handle_index g hash v.index_pos e in
        absurd (full (hash_of s.slot g) (hash_of-lt v g) free)
  ]

-- ===== src/Handle/Slots.antt =====
-- `HandleRegister`, `HandleRetire` (its part on the slots; the names are in Names) and `HandleGrab`.
pub mod Lookup
pub mod Register
use Prim.Native.Nat.{bit_and, bit_or}
use skynet_cpp.Prelude.{
  ℕ, zero, suc, ◌+◌, ◌-◌, ◌*◌, ◌%◌, ◌^◌, ◌==◌, ltb, leb, if◌then◌else◌, Bool, true, false, Option,
  none, some, List, [], ◌∷◌, length, get_or, set, replicate,
}
use skynet_cpp.Prelude.Run.{Run, ok, fault, assert, no_fuel, assertion, ◌>>=◌, ◌>>◌}
use skynet_cpp.Handle.Storage.{Storage, Context, Memory, update, lock, handle_mask}

abbrev pub is_null : Option ℕ → Bool
is_null none = true
is_null (some c) = false

-- the slot of a handle
abbrev pub hash_of : List (Option ℕ) → ℕ → ℕ
hash_of slot handle = bit_and handle (length slot - 1)

-- `if (handle > kHandleMask) handle = 1;`: 0 is reserved
unfoldable pub wrap : ℕ → ℕ
wrap handle = if ltb handle_mask handle then 1 else handle

-- The `for` loop of `HandleRegister`, with the rounds left: the handle and its free slot, if one is
-- found.
unfoldable pub probe : ℕ → List (Option ℕ) → ℕ → Option (ℕ × ℕ)
probe zero slot handle = none
probe (suc n) slot handle =
    let rest = probe n slot (wrap handle + 1) in
    if is_null (get_or slot (hash_of slot (wrap handle)) none)
    then some (wrap handle, hash_of slot (wrap handle))
    else rest

-- The loop that fills the doubled table. It masks with the old size, and asserts that the slot of the
-- old table is free.
unfoldable pub move_slots :
    ℕ → ℕ → Memory → List (Option ℕ) → List (Option ℕ) → Run (List (Option ℕ))
move_slots zero i m slot fresh = ok fresh
move_slots (suc n) i m slot fresh = elim (get_or slot i none) [
  | none ↦ move_slots n (i + 1) m slot fresh
  | some c ↦
      assert (is_null (get_or slot (hash_of slot (m c).handle) none))
      >> move_slots n (i + 1) m slot (set fresh (hash_of slot (m c).handle) (some c))
]

-- The `while (true)` of `HandleRegister`. The returned handle is not yet in the context.
unfoldable pub register_loop : ℕ → Storage → Memory → ℕ → Run (ℕ × Storage)
unfolding probe move_slots
register_loop zero s m ctx = fault no_fuel
register_loop (suc fuel) s m ctx = elim (probe (length s.slot) s.slot s.handle_index) [
  | some (handle, hash) ↦ ok (
    bit_or handle s.harbor,
    record s { slot = set s.slot hash (some ctx); handle_index = handle + 1 },
  )
  | none ↦
      assert (leb (length s.slot * 2 - 1) handle_mask)
      >> (move_slots (length s.slot) 0 m s.slot (replicate (length s.slot * 2) none) >>= λ fresh.
          register_loop fuel (record s { slot = fresh }) m ctx)
]

-- Each round that does not return doubles the table, up to 2 ^ 24 slots: 26 rounds are enough.
unfoldable pub register : Storage → Memory → ℕ → Run (ℕ × Storage)
unfolding register_loop
register s m ctx = lock s >> register_loop 26 s m ctx

-- `Context::Context`: `handle_ = 0` and `handle_ = HandleRegister(*this)`, with the `ref_` of 2
unfoldable pub attach : Storage → Memory → ℕ → Run (ℕ × Storage × Memory)
unfolding register
attach s m ctx = do
  let fresh = update m ctx (record { handle = 0; ref = 2 })
  (handle, t) ← register s fresh ctx
  ok (handle, t, update m ctx (record { handle = handle; ref = 2 }))

-- `ctx && ctx->GetHandle() == handle`
abbrev pub match_handle : Memory → ℕ → Option ℕ → Option ℕ
match_handle m handle none = none
match_handle m handle (some c) = if (m c).handle == handle then some c else none

-- the context that a handle names
unfoldable pub find : Storage → Memory → ℕ → Option ℕ
find s m handle = match_handle m handle (get_or s.slot (hash_of s.slot handle) none)

-- `HandleGrab`
unfoldable pub grab : Storage → Memory → ℕ → Run (Option ℕ × Memory)
unfolding find
grab s m handle = lock s >> elim (find s m handle) [
  | none ↦ ok (none, m)
  | some c ↦ ok (some c, update m c (record (m c) { ref = ((m c).ref + 1) % 2 ^ 32 }))
]

-- ===== src/Handle/Slots/Lookup.antt =====
-- The slots as a map from handles to contexts: the invariant, and writing a slot.
use Prim.Native.Nat.{bit_and}
use native.Mathlib.Decide.{ℕ_discrete}
use native.Mathlib.Nat.{pow-suc, one-le-pow, mod-lt, add-mul-mod_self_right}
use skynet_cpp.Prelude.{
  ℕ, zero, suc, ◌+◌, ◌-◌, ◌*◌, ◌%◌, ◌^◌, ◌≤◌, ◌<◌, ◌==◌, ◌≡◌, ◌≢◌, refl, sym, ap, ◌∙◌, true, false,
  Option, none, some, length, get_or, set, length-set, get_or-set_self, get_or-set_ne, arith,
}
use skynet_cpp.Prelude.Bits.{bit_and-mask}
use skynet_cpp.Handle.Storage.{Storage, Context, Memory, update}
use skynet_cpp.Handle.Slots.{hash_of, match_handle, find}

-- The table has 2 ^ k slots, at most 2 ^ 24; each context stands in the slot of its handle; the harbor
-- is in the high 8 bits, and the next handle to try within the 24 bits or just past them.
pub record IsValid (s : Storage) (m : Memory) : Type 0 where
  pub log_size : ℕ
  pub size : length s.slot ≡ 2 ^ log_size
  pub size_le : log_size ≤ 24
  pub placed : (i c : ℕ) → get_or s.slot i none ≡ some c → hash_of s.slot (m c).handle ≡ i
  pub node : ℕ
  pub harbor_eq : s.harbor ≡ node * 2 ^ 24
  pub index_pos : 0 < s.handle_index
  pub index_le : s.handle_index ≤ 2 ^ 24

pow-add : (j k : ℕ) → 2 ^ (j + k) ≡ 2 ^ j * 2 ^ k
pow-add j zero = let e : j + 0 ≡ j = omega arith in rw e (omega arith)
pow-add j (suc k) =
    let e : j + suc k ≡ suc (j + k) = omega arith in
    rw (e, pow-suc 2 (j + k), pow-suc 2 k, pow-add j k) (omega arith)

module _ {s : Storage} {m : Memory} (v : IsValid s m) where
  pub size_pos : 0 < length s.slot
  size_pos = rw v.size (one-le-pow v.log_size 2 (omega arith))

  -- the slot of a handle is its remainder by the size
  pub hash_of-eq-mod : (h : ℕ) → hash_of s.slot h ≡ h % length s.slot
  hash_of-eq-mod h = rw v.size (bit_and-mask v.log_size h)

  pub hash_of-lt : (h : ℕ) → hash_of s.slot h < length s.slot
  hash_of-lt h = rw (hash_of-eq-mod h) (mod-lt h size_pos)

  -- the harbor does not move a handle to another slot
  pub hash_of-harbor : (h : ℕ) → hash_of s.slot (h + s.harbor) ≡ hash_of s.slot h
  hash_of-harbor h =
      hash_of-eq-mod (h + s.harbor)
      ∙ ap (λ n. (h + n) % length s.slot) multiple
      ∙ add-mul-mod_self_right h (v.node * 2 ^ (24 - v.log_size)) (length s.slot)
      ∙ sym (hash_of-eq-mod h)
    where
      parts : 2 ^ 24 ≡ 2 ^ (24 - v.log_size) * 2 ^ v.log_size
      parts =
          let e : 24 ≡ 24 - v.log_size + v.log_size = omega (arith, v.size_le) in
          ap (λ k. 2 ^ k) e ∙ pow-add (24 - v.log_size) v.log_size

      multiple : s.harbor ≡ v.node * 2 ^ (24 - v.log_size) * length s.slot
      multiple = omega (
        arith,
        v.harbor_eq,
        ap (λ (t : ℕ). v.node * t) parts,
        ap (λ (t : ℕ). v.node * 2 ^ (24 - v.log_size) * t) v.size,
      )

-- the state after a context was written into a slot, under a new handle
abbrev pub write_slot : Storage → ℕ → ℕ → ℕ → Storage
write_slot s hash ctx index = record s { slot = set s.slot hash (some ctx); handle_index = index }

-- the context has no slot yet
abbrev pub IsNew : Storage → ℕ → Type 0
IsNew s ctx = (i : ℕ) → get_or s.slot i none ≢ some ctx

match_handle_other :
    (m : Memory) (ctx : ℕ) (x : Context) (h : ℕ) (o : Option ℕ)
    → o ≢ some ctx
    → match_handle (update m ctx x) h o ≡ match_handle m h o
match_handle_other m ctx x h none ne = refl
match_handle_other m ctx x h (some c) ne =
    let other : c ≢ ctx = λ e. ne (ap some e) in
    let off : (c == ctx) ≡ false = ground arith in rw off

module _ {s : Storage} {m : Memory} (v : IsValid s m) (ctx h index ref : ℕ) (new : IsNew s ctx)
    (free : get_or s.slot (hash_of s.slot h) none ≡ none) where
  abbrev after : Storage
  after = write_slot s (hash_of s.slot h) ctx index

  abbrev memory : Memory
  memory = update m ctx (record { handle = h + s.harbor; ref = ref })

  hash_of-after : (g : ℕ) → hash_of after.slot g ≡ hash_of s.slot g
  hash_of-after g = ap (λ n. bit_and g (n - 1)) (length-set s.slot (hash_of s.slot h) (some ctx))

  at_hash : get_or after.slot (hash_of s.slot h) none ≡ some ctx
  at_hash = get_or-set_self s.slot (hash_of s.slot h) (some ctx) none (hash_of-lt v h)

  self : (ctx == ctx) ≡ true
  self = ground arith

  pub find-write_slot_self : find after memory (h + s.harbor) ≡ some ctx
  unfolding find
  find-write_slot_self =
      let hit : (h + s.harbor == h + s.harbor) ≡ true = ground arith in
      rw (hash_of-after (h + s.harbor), hash_of-harbor v h, at_hash, self, hit)

  pub find-write_slot_ne : (g : ℕ) → g ≢ h + s.harbor → find after memory g ≡ find s m g
  unfolding find
  find-write_slot_ne g ne = elim (ℕ_discrete (hash_of s.slot h) (hash_of s.slot g)) [
    | yes e ↦
        let miss : (h + s.harbor == g) ≡ false = ground arith in
        rw (hash_of-after g, ← e, at_hash, self, miss, free)
    | no other ↦
        rw
          (
            hash_of-after g,
            get_or-set_ne s.slot (hash_of s.slot h) (hash_of s.slot g) (some ctx) none other,
          )
          (match_handle_other m ctx _ g (get_or s.slot (hash_of s.slot g) none)
            (new (hash_of s.slot g)))
  ]

  placed_after :
      (i c : ℕ) → get_or after.slot i none ≡ some c → hash_of after.slot (memory c).handle ≡ i
  placed_after i c e = elim (ℕ_discrete (hash_of s.slot h) i) [
    | yes here ↦
        let same : ctx ≡ c = cc (sym at_hash ∙ ap (λ j. get_or after.slot j none) here ∙ e) in
        rw (← same, self, hash_of-after (h + s.harbor), hash_of-harbor v h) here
    | no other ↦
        let old : get_or s.slot i none ≡ some c =
          sym (get_or-set_ne s.slot (hash_of s.slot h) i (some ctx) none other) ∙ e in
        let ne : c ≢ ctx = λ p. new i (old ∙ ap some p) in
        let off : (c == ctx) ≡ false = ground arith in
        rw (off, hash_of-after (m c).handle) (v.placed i c old)
  ]

  pub write_slot-IsValid : 0 < index → index ≤ 2 ^ 24 → IsValid after memory
  write_slot-IsValid pos le = record {
    log_size = v.log_size;
    size = length-set s.slot (hash_of s.slot h) (some ctx) ∙ v.size;
    size_le = v.size_le;
    placed = placed_after;
    node = v.node;
    harbor_eq = v.harbor_eq;
    index_pos = pos;
    index_le = le;
  }

-- ===== src/Handle/Retire/Laws.antt =====
-- Retiring a handle: its context and its names go, and nothing else changes.
use Prim.Native.Nat.{bit_and}
use native.Mathlib.Decide.{ℕ_discrete}
use skynet_cpp.Prelude.{
  ℕ, ◌-◌, ◌==◌, ◌≡◌, ◌≢◌, refl, sym, ap, ◌∙◌, inl, inr, Bool, true, false, Option, none, some, List,
  length, get_or, set, length-set, get_or-set_self, get_or-set_ne, arith, Option-cases,
}
use skynet_cpp.Prelude.Run.{Run, ok}
use skynet_cpp.Handle.Storage.{Storage, Memory}
use skynet_cpp.Handle.Slots.{hash_of, match_handle, find}
use skynet_cpp.Handle.Slots.Lookup.{hash_of-lt}
use skynet_cpp.Handle.Slots.Lookup
use skynet_cpp.Handle.Names.{find_name}
use skynet_cpp.Handle.Names.Find.{name_at, Sorted, Holds, Absent, find_name-Holds, find_name-Absent}
use skynet_cpp.Handle.Names.Find
use skynet_cpp.Handle.Retire.Names
use skynet_cpp.Handle.Retire.{release, without, retire}

-- a change of a reference count does not change what a handle names
match_handle-release :
    (m : Memory) (c h : ℕ) (o : Option ℕ) → match_handle (release m c).0 h o ≡ match_handle m h o
unfolding release
match_handle-release m c h none = refl
match_handle-release m c h (some d) = elim (ℕ_discrete d c) [
  | yes e ↦ let on : (d == c) ≡ true = ground arith in rw on (rw e)
  | no ne ↦ let off : (d == c) ≡ false = ground arith in rw off
]

release_handle : (m : Memory) (c d : ℕ) → ((release m c).0 d).handle ≡ (m d).handle
unfolding release
release_handle m c d = elim (ℕ_discrete d c) [
  | yes e ↦ let on : (d == c) ≡ true = ground arith in rw on (rw e)
  | no ne ↦ let off : (d == c) ≡ false = ground arith in rw off
]

find_slot :
    (s : Storage) (m : Memory) (h c : ℕ)
    → find s m h ≡ some c
    → (get_or s.slot (hash_of s.slot h) none ≡ some c) × ((m c).handle ≡ h)
unfolding find
find_slot s m h c e = elim (Option-cases (get_or s.slot (hash_of s.slot h) none)) [
  | inl z ↦ absurd (cc (sym (rw z at e)))
  | inr (d, z) ↦ ground (arith, z)
]

module _ (s : Storage) (m : Memory) (h : ℕ) (v : Lookup.IsValid s m) where
  hash_of-without : (g : ℕ) → hash_of (without s h).slot g ≡ hash_of s.slot g
  unfolding without
  hash_of-without g = ap (λ n. bit_and g (n - 1)) (length-set s.slot (hash_of s.slot h) none)

  find-without_self : (c : ℕ) → find (without s h) (release m c).0 h ≡ none
  unfolding find without
  find-without_self c =
      rw (hash_of-without h, get_or-set_self s.slot (hash_of s.slot h) none none (hash_of-lt v h))

  find-without_ne :
      (c g : ℕ) → find s m h ≡ some c → g ≢ h → find (without s h) (release m c).0 g ≡ find s m g
  unfolding find without
  find-without_ne c g found ne =
      let (there, named) = find_slot s m h c found in
      elim (ℕ_discrete (hash_of s.slot h) (hash_of s.slot g)) [
        | yes e ↦
            let miss : ((m c).handle == g) ≡ false = ground arith in
            rw (
              hash_of-without g,
              ← e,
              get_or-set_self s.slot (hash_of s.slot h) none none (hash_of-lt v h),
              there,
              miss,
            )
        | no other ↦
            rw
              (
                hash_of-without g,
                get_or-set_ne s.slot (hash_of s.slot h) (hash_of s.slot g) none none other,
              )
              (match_handle-release m c g (get_or s.slot (hash_of s.slot g) none))
      ]

  without-IsValid : (c : ℕ) → find s m h ≡ some c → Lookup.IsValid (without s h) (release m c).0
  unfolding without
  without-IsValid c found = record {
    log_size = v.log_size;
    size = length-set s.slot (hash_of s.slot h) none ∙ v.size;
    size_le = v.size_le;
    placed = placed;
    node = v.node;
    harbor_eq = v.harbor_eq;
    index_pos = v.index_pos;
    index_le = v.index_le;
  }
    where
      placed :
          (i d : ℕ)
          → get_or (set s.slot (hash_of s.slot h) none) i none ≡ some d
          → hash_of (set s.slot (hash_of s.slot h) none) ((release m c).0 d).handle ≡ i
      placed i d e = elim (ℕ_discrete (hash_of s.slot h) i) [
        | yes here ↦
            let hole : get_or (set s.slot (hash_of s.slot h) none) i none ≡ none =
              ap (λ k. get_or (set s.slot (hash_of s.slot h) none) k none) (sym here)
              ∙ get_or-set_self s.slot (hash_of s.slot h) none none (hash_of-lt v h) in
            absurd (cc (sym hole ∙ e))
        | no other ↦
            let old : get_or s.slot i none ≡ some d =
              sym (get_or-set_ne s.slot (hash_of s.slot h) i none none other) ∙ e in
            let same : ((release m c).0 d).handle ≡ (m d).handle = release_handle m c d in
            ap (λ k. bit_and k (length (set s.slot (hash_of s.slot h) none) - 1)) same
            ∙ ap (λ n. bit_and (m d).handle (n - 1)) (length-set s.slot (hash_of s.slot h) none)
            ∙ v.placed i d old
      ]

-- What retiring the handle `h` of the context `c` has done: 1 is returned, `c` lost one reference and
-- is deleted if that was the last; the storage is valid, `h` names nothing, every other handle names
-- what it named; a name of `h` is not found any more, a name of another handle still is, and no name
-- is new.
pub record Retired (s : Storage) (m : Memory) (h c : ℕ) (out : Run (ℕ × Storage × Memory × Bool))
    : Type 0 where
  pub table : Storage
  pub result : out ≡ ok (1, table, (release m c).0, (m c).ref == 1)
  pub unlocked : table.locked ≡ false
  pub valid_slots : Lookup.IsValid table (release m c).0
  pub valid_names : Find.IsValid table
  pub gone : find table (release m c).0 h ≡ none
  pub others : (g : ℕ) → g ≢ h → find table (release m c).0 g ≡ find s m g
  pub dropped : (name : List ℕ) → Holds s name h → find_name table name ≡ ok 0
  pub kept : (name : List ℕ) (g : ℕ) → g ≢ h → Holds s name g → find_name table name ≡ ok g
  pub none_new : (name : List ℕ) → Absent s name → find_name table name ≡ ok 0

retire-ok :
    (s : Storage) (m : Memory) (h c : ℕ)
    → s.locked ≡ false
    → find s m h ≡ some c
    → retire s m h ≡ ok (1, without s h, (release m c).0, (m c).ref == 1)
unfolding retire release
retire-ok s m h c open_ found = ground arith

-- Retiring the handle of a context in a valid, unlocked storage returns 1 and drops one reference;
-- the storage stays valid, the handle and its names are gone, every other handle and name answers as
-- before.
pub retire_found :
    (s : Storage) (m : Memory) (h c : ℕ)
    → Lookup.IsValid s m
    → Find.IsValid s
    → s.locked ≡ false
    → find s m h ≡ some c
    → Retired s m h c (retire s m h)
retire_found s m h c v w open_ found =
    let open' : (without s h).locked ≡ false = (unfold without in open_) in
    let w' = Names.without-IsValid s h w in
    record {
      table = without s h;
      result = retire-ok s m h c open_ found;
      unlocked = open';
      valid_slots = without-IsValid s m h v c found;
      valid_names = w';
      gone = find-without_self s m h v c;
      others = λ g ne. find-without_ne s m h v c g found ne;
      dropped = λ name held.
          find_name-Absent (without s h) name w' open' (Names.without-dropped s h w name held);
      kept = λ name g ne held.
          find_name-Holds (without s h) name w' open' g (Names.without-kept s h w name g ne held);
      none_new = λ name absent.
          find_name-Absent (without s h) name w' open' (Names.without-Absent s h w name absent);
    }

-- Retiring a handle that names no context returns 0 and changes nothing.
pub retire_unknown :
    (s : Storage) (m : Memory) (h : ℕ)
    → s.locked ≡ false
    → find s m h ≡ none
    → retire s m h ≡ ok (0, s, m, false)
unfolding retire
retire_unknown s m h open_ e = ground arith

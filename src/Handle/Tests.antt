-- ===== src/Handle/Tests.antt =====
-- The table of skynet-src/handle.cpp on small inputs.
use skynet_cpp.Prelude.{
  ℕ, zero, suc, ◌<◌, ◌≡◌, ◌≢◌, refl, ap, ◌⊎◌, inr, false, Option, none, some, [], ◌∷◌, get_or,
  arith,
}
use skynet_cpp.Prelude.Run.{ok, fault, assertion, deadlock}
use skynet_cpp.Handle.Text.{str_lt}
use skynet_cpp.Handle.Storage.{Storage, Memory}
use skynet_cpp.Handle.Slots.{attach, find, hash_of}
use skynet_cpp.Handle.Slots.Lookup.{IsNew}
use skynet_cpp.Handle.Slots.Lookup
use skynet_cpp.Handle.Slots.Register.{Attached, attach-cases, attach-full}
use skynet_cpp.Handle.Names.{find_name, name_handle, compact}
use skynet_cpp.Handle.Names.Find.{Sorted, Holds, Absent, find_name_lem, name_at}
use skynet_cpp.Handle.Names.Find
use skynet_cpp.Handle.Names.Insert.{Named, name_handle_new, name_handle_again}
use skynet_cpp.Handle.Retire.{retire}
use skynet_cpp.Handle.Retire.Laws.{Retired, retire_found}

-- the context `c` has the handle `c`, with two references
abbrev contexts : Memory
contexts c = record { handle = c; ref = 2 }

-- four slots; the contexts 1 and 2 in two of them, with the names "a" and "c"
abbrev small : Storage
small = record {
  locked = false;
  harbor = 0;
  handle_index = 3;
  slot = none ∷ some 1 ∷ some 2 ∷ none ∷ [];
  name_count = 2;
  name = record { name = 97 ∷ []; handle = 1 } ∷ record { name = 99 ∷ []; handle = 2 } ∷ [];
}

small_placed :
    (i c : ℕ) → get_or small.slot i none ≡ some c → hash_of small.slot (contexts c).handle ≡ i
small_placed zero c e = cc
small_placed (suc zero) c e = let p : 1 ≡ c = cc in rw (← p) refl
small_placed (suc (suc zero)) c e = let p : 2 ≡ c = cc in rw (← p) refl
small_placed (suc (suc (suc zero))) c e = cc
small_placed (suc (suc (suc (suc i)))) c e = cc

small-IsValid_slots : Lookup.IsValid small contexts
small-IsValid_slots = record {
  log_size = 2;
  size = refl;
  size_le = omega arith;
  placed = small_placed;
  node = 0;
  harbor_eq = refl;
  index_pos = omega arith;
  index_le = omega arith;
}

small-Sorted : Sorted 2 small.name
unfolding str_lt
small-Sorted i j lt hi =
    let first : i ≡ 0 = omega arith in let second : j ≡ 1 = omega arith in rw (first, second) refl

small-IsValid_names : Find.IsValid small
small-IsValid_names = record { room = omega arith; nonempty = omega arith; sorted = small-Sorted }

abbrev value : Option ℕ → ℕ
value none = 0
value (some c) = c

small-IsNew : IsNew small 7
small-IsNew zero e = cc
small-IsNew (suc zero) e = omega (arith, ap value e)
small-IsNew (suc (suc zero)) e = omega (arith, ap value e)
small-IsNew (suc (suc (suc zero))) e = cc
small-IsNew (suc (suc (suc (suc i)))) e = cc

attach-cases_example :
    (attach small contexts 7 ≡ fault assertion)
    ⊎ Attached small contexts 7 (attach small contexts 7)
attach-cases_example = attach-cases small-IsValid_slots 7 refl small-IsNew

-- the slot of the next handle, 3, is free
-- one slot, and it is taken
abbrev full : Storage
full = record small { slot = some 1 ∷ []; handle_index = 2 }

full_placed :
    (i c : ℕ) → get_or full.slot i none ≡ some c → hash_of full.slot (contexts c).handle ≡ i
full_placed zero c e = let p : 1 ≡ c = cc in rw (← p) refl
full_placed (suc i) c e = cc

full-IsValid : Lookup.IsValid full contexts
full-IsValid = record {
  log_size = 0;
  size = refl;
  size_le = omega arith;
  placed = full_placed;
  node = 0;
  harbor_eq = refl;
  index_pos = omega arith;
  index_le = omega arith;
}

full-IsNew : IsNew full 7
full-IsNew zero e = omega (arith, ap value e)
full-IsNew (suc i) e = cc

full_taken : (i : ℕ) → i < 1 → get_or full.slot i none ≢ none
full_taken zero lt e = cc
full_taken (suc i) lt e = omega arith

attach-full_example : attach full contexts 7 ≡ fault assertion
attach-full_example = attach-full full-IsValid 7 refl full-IsNew full_taken

find-small : find small contexts 1 ≡ some 1
unfolding find
find-small = refl

retire_found_example : Retired small contexts 1 1 (retire small contexts 1)
retire_found_example =
    retire_found small contexts 1 1 small-IsValid_slots small-IsValid_names refl find-small

compact-small :
    (compact 2 1 0 0 small.name).0
    ≡ record { name = 99 ∷ []; handle = 2 } ∷ record { name = 99 ∷ []; handle = 2 } ∷ []
unfolding compact
compact-small = refl

find_name_lem_example :
    ((h : ℕ) × (find_name small (99 ∷ []) ≡ ok h) × Holds small (99 ∷ []) h)
    ⊎ ((find_name small (99 ∷ []) ≡ ok 0) × Absent small (99 ∷ []))
find_name_lem_example = find_name_lem small (99 ∷ []) small-IsValid_names refl

small-Absent : Absent small (98 ∷ [])
small-Absent zero lt e = omega (arith, ap (λ t. get_or t 0 0) e)
small-Absent (suc zero) lt e = omega (arith, ap (λ t. get_or t 0 0) e)
small-Absent (suc (suc i)) lt e = omega arith

-- the vector of names is full and has to grow
name_handle_new_example : Named small 2 (98 ∷ [])
name_handle_new_example =
    name_handle_new small 2 (98 ∷ []) small-IsValid_names refl small-Absent (inr (omega arith))

name_handle_again_example :
    (t : Storage) × (name_handle small 2 (97 ∷ []) ≡ ok ([], t))
    × (find_name t (99 ∷ []) ≡ fault deadlock)
    × (name_handle t 2 (99 ∷ []) ≡ fault deadlock)
name_handle_again_example =
    name_handle_again small 2 1 (97 ∷ []) (99 ∷ []) small-IsValid_names refl
      (0, omega arith, refl, refl)

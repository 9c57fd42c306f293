-- ===== src/Handle/Retire/Names.antt =====
-- The names after a handle was retired: its own are gone, those of other handles stay.
use skynet_cpp.Prelude.{ℕ, ◌<◌, ◌≡◌, ◌≢◌, sym, ap, ap₂, ◌∙◌, List, get_or, arith}
use skynet_cpp.Handle.Text.{str_lt}
use skynet_cpp.Handle.Storage.{Storage, blank}
use skynet_cpp.Handle.Names.{compact}
use skynet_cpp.Handle.Names.Find.{
  name_at, Sorted, Holds, Absent, find_name-Holds, find_name-Absent, Sorted-unique,
}
use skynet_cpp.Handle.Names.Find
use skynet_cpp.Handle.Names.Retire.{Compacted, compact-Compacted}
use skynet_cpp.Handle.Retire.{without}

module _ (s : Storage) (h : ℕ) (v : Find.IsValid s) where
  done : Compacted s.name_count h 0 0 s.name (compact s.name_count h 0 0 s.name)
  done = compact-Compacted s.name_count h 0 0 s.name (omega arith) (omega (arith, v.room))

  pub without-IsValid : Find.IsValid (without s h)
  unfolding without
  without-IsValid = record {
    room = omega (arith, done.upper, done.size, v.room);
    nonempty = omega (arith, done.size, v.nonempty);
    sorted = λ i j lt hi.
        let (from_i, to_i, entry_i, ne_i) = done.comes i (omega arith) (omega arith) in
        let (from_j, to_j, entry_j, ne_j) = done.comes j (omega arith) hi in
        ap₂ (λ x y. str_lt x.name y.name) entry_i entry_j
        ∙ v.sorted (done.origin i) (done.origin j) (done.ordered i j (omega arith) lt hi)
            (omega arith);
  }

  -- each entry that is left was there, with another handle
  left :
      (a : ℕ)
      → a < (without s h).name_count
      → (k : ℕ) × (k < s.name_count)
        × (get_or (without s h).name a blank ≡ get_or s.name k blank)
        × ((get_or s.name k blank).handle ≢ h)
  unfolding without
  left a lt =
      let (from, to, entry, ne) = done.comes a (omega arith) lt in
      (done.origin a, omega arith, entry, ne)

  pub without-Absent : (name : List ℕ) → Absent s name → Absent (without s h) name
  without-Absent name absent a lt e =
      let (k, to, entry, ne) = left a lt in absent k to (sym (ap (λ x. x.name) entry) ∙ e)

  pub without-dropped : (name : List ℕ) → Holds s name h → Absent (without s h) name
  without-dropped name (i, lt, same, owner) a hi e =
      let (k, to, entry, ne) = left a hi in
      let there : k ≡ i =
        Sorted-unique s.name_count s.name k i v.sorted to lt
          (sym (ap (λ x. x.name) entry) ∙ e ∙ sym same) in
      ne (ap (λ j. (get_or s.name j blank).handle) there ∙ owner)

  pub without-kept : (name : List ℕ) (g : ℕ) → g ≢ h → Holds s name g → Holds (without s h) name g
  unfolding without
  without-kept name g other (i, lt, same, owner) =
      let (a, lo, hi, from) =
        done.complete i (omega arith) (omega arith) (λ e. other (sym owner ∙ e)) in
      let (k, to, entry, ne) = done.comes a lo hi in
      let back : get_or (compact s.name_count h 0 0 s.name).0 a blank ≡ get_or s.name i blank =
        entry ∙ ap (λ j. get_or s.name j blank) from in
      (a, hi, ap (λ x. x.name) back ∙ same, ap (λ x. x.handle) back ∙ owner)

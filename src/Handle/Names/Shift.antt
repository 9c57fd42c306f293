-- ===== src/Handle/Names/Shift.antt =====
-- Inserting into the vector of names: what moves, and what the names are afterwards.
use skynet_cpp.Prelude.{
  ℕ, zero, suc, ◌+◌, ◌-◌, ◌≤◌, ◌<◌, ◌==◌, ltb, leb, if◌then◌else◌, ◌≡◌, ◌≢◌, refl, sym, ap, ◌∙◌,
  inl, inr, true, false, ◌&&◌, List, length, get_or, set, length-set, get_or-set_self,
  get_or-set_ne, arith, Bool-cases,
}
use native.Mathlib.Decide.{ℕ_discrete}
use skynet_cpp.Handle.Storage.{Storage, HandleName, blank}
use skynet_cpp.Handle.Names.{missing, shift_names, insert_at}
use skynet_cpp.Handle.Names.Find.{IsValid, name_at, Sorted, Answers, Holds, Absent}

length-shift_names :
    (n b : ℕ) (names : List HandleName) → length (shift_names n b names) ≡ length names
unfolding shift_names
length-shift_names zero b names = refl
length-shift_names (suc n) b names = length-shift_names n b _ ∙ length-set names (b + suc n) _

-- The loop moves the entries from `b` to `b + n - 1` one place up.
shift_names-get_or :
    (n b : ℕ) (names : List HandleName) (k : ℕ)
    → b + n < length names
    → get_or (shift_names n b names) k blank
      ≡ (if ltb b k && leb k (b + n) then get_or names (k - 1) blank else get_or names k blank)
unfolding shift_names
shift_names-get_or zero b names k room = ground arith
shift_names-get_or (suc n) b names k room = ground (
  arith,
  length-set names (b + suc n) (get_or names (b + n) blank),
  shift_names-get_or n b (set names (b + suc n) (get_or names (b + n) blank)) k,
  top,
  get_or-set_ne names (b + suc n) (k - 1) (get_or names (b + n) blank) blank,
  get_or-set_ne names (b + suc n) k (get_or names (b + n) blank) blank,
)
  where
    top :
        k ≡ b + suc n
        → get_or (set names (b + suc n) (get_or names (b + n) blank)) k blank
          ≡ get_or names (k - 1) blank
    top e =
        let down : k - 1 ≡ b + n = omega arith in
        rw (e, get_or-set_self names (b + suc n) (get_or names (b + n) blank) blank room, ← e, down)

-- what stands at each place after the insertion
inserted :
    (s : Storage) (name : List ℕ) (handle b : ℕ) (names : List HandleName) (k : ℕ)
    → s.name_count < length names
    → b ≤ s.name_count
    → get_or (insert_at s name handle b names).name k blank ≡ (
        if k == b
        then record { name = name; handle = handle }
        else if ltb b k && leb k s.name_count
        then get_or names (k - 1) blank
        else get_or names k blank)
unfolding insert_at
inserted s name handle b names k room le =
    let count : b + (s.name_count - b) ≡ s.name_count = omega arith in
    elim (ℕ_discrete k b) [
      | yes e ↦
          let hit : (k == b) ≡ true = ground arith in
          rw (hit, e)
            (get_or-set_self (shift_names (s.name_count - b) b names) b
              (record { name = name; handle = handle }) blank
              (omega (arith, length-shift_names (s.name_count - b) b names)))
      | no ne ↦
          let miss : (k == b) ≡ false = ground arith in
          rw miss (
            get_or-set_ne (shift_names (s.name_count - b) b names) b k _ blank (omega arith)
            ∙ rw count at (shift_names-get_or (s.name_count - b) b names k (omega arith)))
    ]

-- The insertion of a name at its place, into a vector with room that holds the old entries.
module _ (s : Storage) (name : List ℕ) (handle b : ℕ) (names : List HandleName) (v : IsValid s)
    (room : s.name_count < length names)
    (same : (k : ℕ) → k < s.name_count → get_or names k blank ≡ get_or s.name k blank)
    (answer : Answers s.name_count s.name name (missing b)) where
  abbrev entry : ℕ → HandleName
  entry k = get_or (insert_at s name handle b names).name k blank

  entry_before : (k : ℕ) → k < b → entry k ≡ get_or s.name k blank
  entry_before k h =
      let le = answer.0 in inserted s name handle b names k room answer.0 ∙ ground (arith, same k)

  entry_here : (k : ℕ) → k ≡ b → entry k ≡ record { name = name; handle = handle }
  entry_here k h = inserted s name handle b names k room answer.0 ∙ ground arith

  entry_after : (k : ℕ) → b < k → k < s.name_count + 1 → entry k ≡ get_or s.name (k - 1) blank
  entry_after k h lt = inserted s name handle b names k room answer.0 ∙ ground (arith, same (k - 1))

  name_before :
      (k : ℕ) → k < b → name_at (insert_at s name handle b names).name k ≡ name_at s.name k
  name_before k h = ap (λ e. e.name) (entry_before k h)

  name_here : (k : ℕ) → k ≡ b → name_at (insert_at s name handle b names).name k ≡ name
  name_here k h = ap (λ e. e.name) (entry_here k h)

  name_after :
      (k : ℕ)
      → b < k
      → k < s.name_count + 1
      → name_at (insert_at s name handle b names).name k ≡ name_at s.name (k - 1)
  name_after k h lt = ap (λ e. e.name) (entry_after k h lt)

  Sorted-after : Sorted (s.name_count + 1) (insert_at s name handle b names).name
  Sorted-after i j lt hj = elim (ℕ_discrete i b) [
    | yes ib ↦
        rw (name_here i ib, name_after j (omega arith) hj)
          (answer.2 (j - 1) (omega arith) (omega arith))
    | no ib ↦ elim (ℕ_discrete j b) [
      | yes jb ↦ rw (name_here j jb, name_before i (omega arith)) (answer.1 i (omega arith))
      | no jb ↦ elim (Bool-cases (ltb j b)) [
        | inl left ↦
            rw (name_before i (ground arith), name_before j (ground arith))
              (v.sorted i j lt (ground (arith, answer.0)))
        | inr right ↦ elim (Bool-cases (ltb i b)) [
          | inl low ↦
              rw (name_before i (ground arith), name_after j (ground arith) hj)
                (v.sorted i (j - 1) (ground arith) (omega arith))
          | inr high ↦
              rw (name_after i (ground arith) (omega arith), name_after j (ground arith) hj)
                (v.sorted (i - 1) (j - 1) (ground arith) (omega arith))
        ]
      ]
    ]
  ]

  pub insert_at-IsValid : IsValid (insert_at s name handle b names)
  unfolding insert_at
  insert_at-IsValid = record { room = grown; nonempty = filled; sorted = Sorted-after }
    where
      filled : 0 < length (insert_at s name handle b names).name
      filled =
          unfold insert_at in
          omega (
            arith,
            length-set (shift_names (s.name_count - b) b names) b
                (record { name = name; handle = handle }),
            length-shift_names (s.name_count - b) b names,
          )

      grown :
          (insert_at s name handle b names).name_count
          ≤ length (insert_at s name handle b names).name
      grown =
          unfold insert_at in
          omega (
            arith,
            length-set (shift_names (s.name_count - b) b names) b
                (record { name = name; handle = handle }),
            length-shift_names (s.name_count - b) b names,
          )

  pub Holds-insert_at_self : Holds (insert_at s name handle b names) name handle
  Holds-insert_at_self = (
    b,
    unfold insert_at in omega (arith, answer.0),
    name_here b refl,
    ap (λ e. e.handle) (entry_here b refl),
  )

  pub Holds-insert_at :
      (other : List ℕ) (h : ℕ) → Holds s other h → Holds (insert_at s name handle b names) other h
  Holds-insert_at other h (i, lt, e, f) = elim (Bool-cases (ltb i b)) [
    | inl low ↦ (
      i,
      unfold insert_at in omega arith,
      name_before i (ground arith) ∙ e,
      ap (λ x. x.handle) (entry_before i (ground arith)) ∙ f,
    )
    | inr high ↦
        let down : i + 1 - 1 ≡ i = omega arith in
        (
          i + 1,
          unfold insert_at in omega arith,
          name_after (i + 1) (ground arith) (omega arith) ∙ ap (name_at s.name) down ∙ e,
          ap (λ x. x.handle) (entry_after (i + 1) (ground arith) (omega arith))
              ∙ ap (λ k. (get_or s.name k blank).handle) down
              ∙ f,
        )
  ]

  pub Absent-insert_at :
      (other : List ℕ)
      → other ≢ name
      → Absent s other
      → Absent (insert_at s name handle b names) other
  unfolding insert_at
  Absent-insert_at other ne absent i lt e = elim (ℕ_discrete i b) [
    | yes here ↦ ne (sym e ∙ name_here i here)
    | no away ↦ elim (Bool-cases (ltb i b)) [
      | inl low ↦ absent i (ground (arith, answer.0)) (sym (name_before i (ground arith)) ∙ e)
      | inr high ↦ absent (i - 1) (ground (arith)) (sym (name_after i (ground arith) lt) ∙ e)
    ]
  ]

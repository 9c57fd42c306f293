-- ===== src/Handle/Names/Find.antt =====
-- Binary search in sorted names: it ends, and finds a name exactly if it is there.
use skynet_cpp.Prelude.{
  ℕ, zero, suc, ◌+◌, ◌-◌, ◌/◌, ◌≤◌, ◌<◌, ltb, ◌≡◌, ◌≢◌, refl, sym, ap, ◌∙◌, ◌⊎◌, inl, inr, true,
  false, List, length, get_or, arith, Bool-cases,
}
use native.Mathlib.Decide.{ℕ_discrete}
use skynet_cpp.Prelude.Run.{ok}
use skynet_cpp.Handle.Text.{str_eq, str_lt, str_eq→eq, str_lt_irrefl, str_lt_trans, str_lt_total}
use skynet_cpp.Handle.Storage.{Storage, HandleName, blank}
use skynet_cpp.Handle.Names.{Place, found, missing, binary_search, place_of, find_name, handle_at}

abbrev pub name_at : List HandleName → ℕ → List ℕ
name_at names i = (get_or names i blank).name

-- The first `n` names are in strict order.
abbrev pub Sorted : ℕ → List HandleName → Type 0
Sorted n names = (i j : ℕ) → i < j → j < n → str_lt (name_at names i) (name_at names j) ≡ true

-- The vector holds the names and is not empty, and the names are sorted.
pub record IsValid (s : Storage) : Type 0 where
  pub room : s.name_count ≤ length s.name
  pub nonempty : 0 < length s.name
  pub sorted : Sorted s.name_count s.name

-- what a search for `name` among the first `n` names has to answer
abbrev pub Answers : ℕ → List HandleName → List ℕ → Place → Type 0
Answers n names name (found m) = (m < n) × (name_at names m ≡ name)
Answers n names name (missing b) =
    (b ≤ n)
    × ((i : ℕ) → i < b → str_lt (name_at names i) name ≡ true)
    × ((i : ℕ) → b ≤ i → i < n → str_lt name (name_at names i) ≡ true)

module _ (n : ℕ) (names : List HandleName) (name : List ℕ) (sorted : Sorted n names) where
  below :
      (mid : ℕ)
      → mid < n
      → str_lt (name_at names mid) name ≡ true
      → (i : ℕ) → i < mid + 1
      → str_lt (name_at names i) name ≡ true
  below mid lt less i h = elim (Bool-cases (ltb i mid)) [
    | inl before ↦
        str_lt_trans (name_at names i) (name_at names mid) name (sorted i mid (ground arith) lt)
          less
    | inr same ↦ let e : i ≡ mid = ground arith in rw e less
  ]

  above :
      (mid : ℕ)
      → str_lt name (name_at names mid) ≡ true
      → (i : ℕ) → mid ≤ i
      → i < n
      → str_lt name (name_at names i) ≡ true
  above mid more i h lt = elim (Bool-cases (ltb mid i)) [
    | inl after ↦
        str_lt_trans name (name_at names mid) (name_at names i) more
          (sorted mid i (ground arith) lt)
    | inr same ↦ let e : i ≡ mid = ground arith in rw e more
  ]

  binary_search-Answers :
      (fuel begin stop : ℕ)
      → stop < begin + fuel
      → begin ≤ stop
      → stop ≤ n
      → ((i : ℕ) → i < begin → str_lt (name_at names i) name ≡ true)
      → ((i : ℕ) → stop ≤ i → i < n → str_lt name (name_at names i) ≡ true)
      → (place : Place) × (binary_search fuel names name begin stop ≡ ok place)
        × Answers n names name place
  unfolding binary_search
  binary_search-Answers zero begin stop enough le le_n low high = absurd (omega arith)
  binary_search-Answers (suc fuel) begin stop enough le le_n low high =
      elim (Bool-cases (ltb begin stop)) [
        | inr done ↦
            (missing begin, rw done, (ground arith, low, (λ i a b. high i (ground arith) b)))
        | inl more ↦ elim (Bool-cases (str_eq (name_at names ((begin + stop - 1) / 2)) name)) [
          | inl hit ↦ (
            found ((begin + stop - 1) / 2),
            rw (more, hit),
            (ground arith, str_eq→eq (name_at names ((begin + stop - 1) / 2)) name hit),
          )
          | inr miss ↦ elim (Bool-cases (str_lt (name_at names ((begin + stop - 1) / 2)) name)) [
            | inl less ↦
                let (place, run, answer) =
                  binary_search-Answers fuel ((begin + stop - 1) / 2 + 1) stop (ground arith)
                    (ground arith) le_n (below ((begin + stop - 1) / 2) (ground arith) less) high in
                (place, rw (more, miss, less) run, answer)
            | inr not_less ↦
                let greater =
                  str_lt_total (name_at names ((begin + stop - 1) / 2)) name miss not_less in
                let (place, run, answer) =
                  binary_search-Answers fuel begin ((begin + stop - 1) / 2) (ground arith)
                    (ground arith) (ground arith) low (above ((begin + stop - 1) / 2) greater) in
                (place, rw (more, miss, not_less) run, answer)
          ]
        ]
      ]

-- The search of the names of a valid storage ends with the right answer.
pub place_of-Answers :
    (s : Storage) (name : List ℕ)
    → IsValid s
    → (place : Place) × (place_of s name ≡ ok place) × Answers s.name_count s.name name place
unfolding place_of
place_of-Answers s name v =
    binary_search-Answers s.name_count s.name name v.sorted (suc s.name_count) 0 s.name_count
      (omega arith) (omega arith) (omega arith) (λ i h. absurd (omega arith))
      (λ i a b. absurd (omega arith))

-- a name with its handle is in the table
abbrev pub Holds : Storage → List ℕ → ℕ → Type 0
Holds s name h =
    (i : ℕ) × (i < s.name_count) × (name_at s.name i ≡ name) × ((get_or s.name i blank).handle ≡ h)

abbrev pub Absent : Storage → List ℕ → Type 0
Absent s name = (i : ℕ) → i < s.name_count → name_at s.name i ≢ name

pub missing_absent :
    (n : ℕ) (names : List HandleName) (name : List ℕ) (b : ℕ)
    → Answers n names name (missing b)
    → (i : ℕ) → i < n
    → name_at names i ≢ name
missing_absent n names name b (le, low, high) i lt e = elim (Bool-cases (ltb i b)) [
  | inl before ↦ cc (sym (rw e at (low i (ground arith))) ∙ str_lt_irrefl name)
  | inr after ↦ cc (sym (rw e at (high i (ground arith) lt)) ∙ str_lt_irrefl name)
]

pub find_name-ok :
    (s : Storage) (name : List ℕ) (place : Place)
    → s.locked ≡ false
    → place_of s name ≡ ok place
    → find_name s name ≡ ok (handle_at s place)
unfolding find_name
find_name-ok s name place open_ e = ground arith

-- On a valid, unlocked storage HandleFindname ends, with the handle of an entry that has the name,
-- or with 0 if there is none.
pub find_name_lem :
    (s : Storage) (name : List ℕ)
    → IsValid s
    → s.locked ≡ false
    → ((h : ℕ) × (find_name s name ≡ ok h) × Holds s name h)
      ⊎ ((find_name s name ≡ ok 0) × Absent s name)
find_name_lem s name v open_ =
    let (place, run, answer) = place_of-Answers s name v in conclude place run answer
  where
    conclude :
        (place : Place)
        → place_of s name ≡ ok place
        → Answers s.name_count s.name name place
        → ((h : ℕ) × (find_name s name ≡ ok h) × Holds s name h)
          ⊎ ((find_name s name ≡ ok 0) × Absent s name)
    conclude (found m) run (lt, same) = inl (
      (get_or s.name m blank).handle,
      find_name-ok s name (found m) open_ run,
      (m, lt, same, refl),
    )
    conclude (missing b) run answer = inr (
      find_name-ok s name (missing b) open_ run,
      missing_absent s.name_count s.name name b answer,
    )

-- In sorted names a name stands at one place.
pub Sorted-unique :
    (n : ℕ) (names : List HandleName) (i j : ℕ)
    → Sorted n names
    → i < n
    → j < n
    → name_at names i ≡ name_at names j
    → i ≡ j
Sorted-unique n names i j sorted hi hj e = elim (ℕ_discrete i j) [
  | yes p ↦ p
  | no p ↦ elim (Bool-cases (ltb i j)) [
    | inl before ↦
        cc (sym (rw e at (sorted i j (ground arith) hj)) ∙ str_lt_irrefl (name_at names j))
    | inr after ↦
        cc (sym (rw e at (sorted j i (ground arith) hi)) ∙ str_lt_irrefl (name_at names j))
  ]
]

module _ (s : Storage) (name : List ℕ) (v : IsValid s) (open_ : s.locked ≡ false) where
  pub find_name-Holds : (h : ℕ) → Holds s name h → find_name s name ≡ ok h
  find_name-Holds h (i, lt, e, f) = elim (find_name_lem s name v open_) [
    | inl (g, run, (j, lt', e', f')) ↦
        let same = Sorted-unique s.name_count s.name j i v.sorted lt' lt (e' ∙ sym e) in
        run ∙ ap ok (sym f' ∙ ap (λ k. (get_or s.name k blank).handle) same ∙ f)
    | inr (run, absent) ↦ absurd (absent i lt e)
  ]

  pub find_name-Absent : Absent s name → find_name s name ≡ ok 0
  find_name-Absent absent = elim (find_name_lem s name v open_) [
    | inl (g, run, (j, lt, e, f)) ↦ absurd (absent j lt e)
    | inr (run, gone) ↦ run
  ]

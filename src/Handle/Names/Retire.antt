-- ===== src/Handle/Names/Retire.antt =====
-- The compacting loop of `HandleRetire`: it removes the names of a handle and keeps the others in order.
use skynet_cpp.Prelude.{
  ℕ, zero, suc, ◌+◌, ◌≤◌, ◌<◌, ◌==◌, if◌then◌else◌, ◌≡◌, ◌≢◌, refl, sym, ap, ◌∙◌, inl, inr, List,
  [], length, get_or, set, length-set, get_or-set_self, get_or-set_ne, arith, Bool-cases,
}
use native.Mathlib.Decide.{ℕ_discrete}
use skynet_cpp.Handle.Storage.{HandleName, blank}
use skynet_cpp.Handle.Names.{compact}

-- What the loop has done with the entries from `i` to `i + n - 1`, writing from `j` on: `origin` says
-- from where the entry at each place came.
pub record Compacted (n handle i j : ℕ) (names : List HandleName) (out : List HandleName × ℕ)
    : Type 0 where
  pub size : length out.0 ≡ length names
  pub lower : j ≤ out.1
  pub upper : out.1 ≤ j + n
  pub origin : ℕ → ℕ
  pub comes :
      (a : ℕ)
      → j ≤ a
      → a < out.1
      → (i ≤ origin a)
        × (origin a < i + n)
        × (get_or out.0 a blank ≡ get_or names (origin a) blank)
        × ((get_or names (origin a) blank).handle ≢ handle)
  pub ordered : (a b : ℕ) → j ≤ a → a < b → b < out.1 → origin a < origin b
  pub complete :
      (k : ℕ)
      → i ≤ k
      → k < i + n
      → (get_or names k blank).handle ≢ handle
      → (a : ℕ) × (j ≤ a) × (a < out.1) × (origin a ≡ k)
  pub before : (a : ℕ) → a < j → get_or out.0 a blank ≡ get_or names a blank

module _ (n handle i j : ℕ) (names names' : List HandleName) (out : List HandleName × ℕ)
    (le : j ≤ i) (same_length : length names' ≡ length names) where
  -- the entry at `i` has the handle, and only it was changed
  skip_entry :
      ((k : ℕ) → k ≢ i → get_or names' k blank ≡ get_or names k blank)
      → (get_or names i blank).handle ≡ handle
      → Compacted n handle (i + 1) j names' out
      → Compacted (suc n) handle i j names out
  skip_entry agree gone c = record {
    size = c.size ∙ same_length;
    lower = c.lower;
    upper = omega (arith, c.upper);
    origin = c.origin;
    comes = λ a lo hi.
        let (from, to, entry, ne) = c.comes a lo hi in
        let there = agree (c.origin a) (omega arith) in
        (omega arith, omega arith, entry ∙ there, (λ e. ne (ap (λ x. x.handle) there ∙ e)));
    ordered = c.ordered;
    complete = λ k lo hi ne.
        let other : k ≢ i = λ e. ne (ap (λ m. (get_or names m blank).handle) e ∙ gone) in
        let there = agree k other in
        c.complete k (omega arith) (omega arith) (λ e. ne (sym (ap (λ x. x.handle) there) ∙ e));
    before = λ a lt. c.before a lt ∙ agree a (omega arith);
  }

  -- the entry at `i` has another handle, and was copied to `j`
  keep_entry :
      ((k : ℕ) → k ≢ j → get_or names' k blank ≡ get_or names k blank)
      → get_or names' j blank ≡ get_or names i blank
      → (get_or names i blank).handle ≢ handle
      → Compacted n handle (i + 1) (j + 1) names' out
      → Compacted (suc n) handle i j names out
  keep_entry agree copied stays c = record {
    size = c.size ∙ same_length;
    lower = omega (arith, c.lower);
    upper = omega (arith, c.upper);
    origin = from;
    comes = λ a lo hi. elim (ℕ_discrete a j) [
      | yes e ↦
          let entry : get_or out.0 a blank ≡ get_or names (from a) blank =
            rw (at_j a e, e) (c.before j (omega arith) ∙ copied) in
          (omega (arith, at_j a e), omega (arith, at_j a e), entry, rw (at_j a e) stays)
      | no ne ↦
          let (lo', hi', entry, other) = c.comes a (omega arith) hi in
          let there = agree (c.origin a) (omega arith) in
          (
            omega (arith, past_j a ne),
            omega (arith, past_j a ne),
            rw (past_j a ne) (entry ∙ there),
            rw (past_j a ne) (λ e. other (ap (λ x. x.handle) there ∙ e)),
          )
    ];
    ordered = λ a b lo lt hi. elim (ℕ_discrete a j) [
      | yes e ↦
          let (lo', rest) = low_of b (omega arith) hi in
          omega (arith, at_j a e, past_j b (omega arith))
      | no ne ↦
          omega (arith, past_j a ne, past_j b (omega arith), c.ordered a b (omega arith) lt hi)
    ];
    complete = λ k lo hi ne. elim (ℕ_discrete k i) [
      | yes e ↦ (j, omega arith, omega (arith, c.lower), at_j j refl ∙ sym e)
      | no other ↦
          let there = agree k (omega arith) in
          let (a, lo', hi', e) =
            c.complete k (omega arith) (omega arith)
              (λ h. ne (sym (ap (λ x. x.handle) there) ∙ h)) in
          (a, omega arith, hi', past_j a (omega arith) ∙ e)
    ];
    before = λ a lt. c.before a (omega arith) ∙ agree a (omega arith);
  }
    where
      from : ℕ → ℕ
      from a = if a == j then i else c.origin a

      at_j : (a : ℕ) → a ≡ j → from a ≡ i
      at_j a e = ground arith

      past_j : (a : ℕ) → a ≢ j → from a ≡ c.origin a
      past_j a ne = ground arith

      low_of : (b : ℕ) → j + 1 ≤ b → b < out.1 → (i + 1 ≤ c.origin b) × Unit {0}
      low_of b lo hi = ((c.comes b lo hi).0, tt)

-- On names within the vector, and writing no further than it reads, the compacting loop of
-- HandleRetire keeps exactly the entries of other handles, each once and in order.
pub compact-Compacted :
    (n handle i j : ℕ) (names : List HandleName)
    → j ≤ i
    → i + n ≤ length names
    → Compacted n handle i j names (compact n handle i j names)
unfolding compact
compact-Compacted zero handle i j names le room = record {
  size = refl;
  lower = omega arith;
  upper = omega arith;
  origin = λ a. a;
  comes = λ a lo hi. absurd (omega arith);
  ordered = λ a b lo lt hi. absurd (omega arith);
  complete = λ k lo hi ne. absurd (omega arith);
  before = λ a lt. refl;
}
compact-Compacted (suc n) handle i j names le room =
    elim (Bool-cases ((get_or names i blank).handle == handle)) [
      | inl gone ↦ rw gone (
          skip_entry n handle i j names _ _ le (length-set names i _)
            (λ k ne. get_or-set_ne names i k _ blank (λ e. ne (sym e))) (ground arith)
            (compact-Compacted n handle (i + 1) j
              (set names i (record (get_or names i blank) { name = [] })) (omega arith)
              (omega (arith, length-set names i (record (get_or names i blank) { name = [] })))))
      | inr stays ↦ rw stays (elim (Bool-cases (i == j)) [
        | inl same ↦
            let e : i ≡ j = ground arith in
            rw same (
              keep_entry n handle i j names names _ le refl (λ k ne. refl) (rw e) (ground arith)
                (compact-Compacted n handle (i + 1) (j + 1) names (omega arith) (omega arith)))
        | inr apart ↦ rw apart (
            keep_entry n handle i j names (set names j (get_or names i blank)) _ le
              (length-set names j (get_or names i blank))
              (λ k ne. get_or-set_ne names j k (get_or names i blank) blank (λ e. ne (sym e)))
              (get_or-set_self names j (get_or names i blank) blank (omega arith)) (ground arith)
              (compact-Compacted n handle (i + 1) (j + 1) (set names j (get_or names i blank))
                (omega arith) (omega (arith, length-set names j (get_or names i blank)))))
      ])
    ]

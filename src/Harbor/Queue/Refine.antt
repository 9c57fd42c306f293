-- ===== src/Harbor/Queue/Refine.antt =====
-- The circular buffer holds a list of messages, oldest first: `push` appends, `pop` takes the head.
use Prim.Native.Nat.add
use native.Mathlib.Nat.{mod-lt, mod-eq_of_lt, mod-add-mod, add-zero, add_comm}
use native.Mathlib.Decide.{ℕ_discrete}
use skynet_cpp.Prelude.{
  ℕ, zero, suc, ◌+◌, ◌-◌, ◌*◌, ◌%◌, ◌≤◌, ◌<◌, ◌==◌, ◌≡◌, ◌≢◌, refl, ap, ap₂, ◌∙◌, ◌⊎◌, inl, inr,
  List, [], ◌∷◌, ◌++◌, none, some, true, false, length, get_or, set, replicate, length-set,
  length-replicate, get_or-set_self, get_or-set_ne, arith, tabulate, tabulate_snoc, tabulate_congr,
  mod_turn, Bool-cases, ==_iff,
}
use skynet_cpp.Harbor.Queue.{
  Queue, default_queue_size, new_queue, copy_cells, expand, store, push, pop,
}

pub record IsValid {ℓ} {A : Type ℓ} (q : Queue A) : Type ℓ where
  pub nonempty : 0 < q.size
  pub allocated : length q.cells ≡ q.size
  pub head_in : q.head < q.size
  pub tail_in : q.tail < q.size

-- how many messages the queue holds
abbrev pub count {ℓ} : {A : Type ℓ} → Queue A → ℕ
count q = (q.tail + q.size - q.head) % q.size

count_turn {ℓ} :
    {A : Type ℓ} (q : Queue A)
    → IsValid q
    → ((q.head ≤ q.tail) × (count q + q.head ≡ q.tail))
      ⊎ ((q.tail < q.head) × (count q + q.head ≡ q.tail + q.size))
count_turn q v = elim (mod_turn (q.tail + q.size - q.head) q.size (omega arith)) [
  | inl (p, e) ↦ inr (omega arith, omega arith)
  | inr (p, e) ↦ inl (omega arith, omega arith)
]

module _ {ℓ} {A : Type ℓ} (blank : A) where
  -- the message `k` places behind the head
  abbrev pub message_at : Queue A → ℕ → A
  message_at q k = get_or q.cells ((q.head + k) % q.size) blank

  abbrev pub contents : Queue A → List A
  contents q = tabulate (count q) (message_at q)

  pub new_queue-IsValid : IsValid (new_queue blank)
  unfolding new_queue
  new_queue-IsValid = record {
    nonempty = omega arith;
    allocated = length-replicate default_queue_size blank;
    head_in = omega arith;
    tail_in = omega arith;
  }

  -- Writing at the tail of a queue that is not full appends a message.
  store-IsValid : (q : Queue A) (m : A) → IsValid q → IsValid (store blank q m)
  unfolding store
  store-IsValid q m v = record {
    nonempty = v.nonempty;
    allocated = length-set q.cells q.tail m ∙ v.allocated;
    head_in = v.head_in;
    tail_in = mod-lt (q.tail + 1) v.nonempty;
  }

  store-contents :
      (q : Queue A) (m : A)
      → IsValid q
      → (q.tail + 1) % q.size ≢ q.head
      → contents (store blank q m) ≡ contents q ++ m ∷ []
  unfolding store
  store-contents q m v room = rw grown (
      tabulate_snoc (count q) (message_at (store blank q m))
      ∙ ap₂ (λ xs x. xs ++ x ∷ []) (tabulate_congr (count q) _ _ kept) last)
    where
      turn_tail :
          ((q.tail + 1 < q.size) × ((q.tail + 1) % q.size ≡ q.tail + 1))
          ⊎ ((q.size ≤ q.tail + 1) × ((q.tail + 1) % q.size ≡ q.tail + 1 - q.size))
      turn_tail = mod_turn (q.tail + 1) q.size (omega arith)

      grown : count (store blank q m) ≡ suc (count q)
      grown =
          omega
            (arith, count_turn q v, count_turn (store blank q m) (store-IsValid q m v), turn_tail)

      at_tail : (q.head + count q) % q.size ≡ q.tail
      at_tail = omega (
        arith,
        count_turn q v,
        mod_turn (q.head + count q) q.size
            (omega (arith, mod-lt (q.tail + q.size - q.head) v.nonempty)),
      )

      last : get_or (set q.cells q.tail m) ((q.head + count q) % q.size) blank ≡ m
      last = rw at_tail (get_or-set_self q.cells q.tail m blank (omega arith))

      kept :
          (k : ℕ)
          → k < count q
          → get_or (set q.cells q.tail m) ((q.head + k) % q.size) blank ≡ message_at q k
      kept k h = get_or-set_ne q.cells q.tail ((q.head + k) % q.size) m blank (
          omega
            (arith, count_turn q v, mod_turn (q.head + k) q.size (omega (arith, count_turn q v))))

  -- What the copying loop leaves at an index that it has passed, and at one that it reaches.
  copy_cells_before :
      (n i : ℕ) (q : Queue A) (fresh : List A) (j : ℕ)
      → j < i
      → get_or (copy_cells blank n i q fresh) j blank ≡ get_or fresh j blank
  unfolding copy_cells
  copy_cells_before zero i q fresh j h = refl
  copy_cells_before (suc n) i q fresh j h =
      copy_cells_before n (i + 1) q _ j (omega arith)
      ∙ get_or-set_ne fresh i j _ blank (omega arith)

  copy_cells_inside :
      (n i : ℕ) (q : Queue A) (fresh : List A) (j : ℕ)
      → i + n ≤ length fresh
      → i ≤ j
      → j < i + n
      → get_or (copy_cells blank n i q fresh) j blank ≡ get_or q.cells ((j + q.head) % q.size) blank
  unfolding copy_cells
  copy_cells_inside zero i q fresh j room lo hi = absurd (omega arith)
  copy_cells_inside (suc n) i q fresh j room lo hi = elim (ℕ_discrete i j) [
    | yes e ↦
        copy_cells_before n (i + 1) q _ j (omega arith)
        ∙ rw e (get_or-set_self fresh j _ blank (omega arith))
    | no ne ↦
        copy_cells_inside n (i + 1) q (set fresh i _) j
          (omega (arith, length-set fresh i (get_or q.cells ((i + q.head) % q.size) blank)))
          (omega arith) (omega arith)
  ]

  length-copy_cells :
      (n i : ℕ) (q : Queue A) (fresh : List A)
      → length (copy_cells blank n i q fresh) ≡ length fresh
  unfolding copy_cells
  length-copy_cells zero i q fresh = refl
  length-copy_cells (suc n) i q fresh = length-copy_cells n (i + 1) q _ ∙ length-set fresh i _

  expand-IsValid : (q : Queue A) → IsValid q → IsValid (expand blank q)
  unfolding expand
  expand-IsValid q v = record {
    nonempty = omega arith;
    allocated =
        length-copy_cells (q.size - 1) 0 q (replicate (q.size * 2) blank)
        ∙ length-replicate (q.size * 2) blank;
    head_in = omega arith;
    tail_in = omega arith;
  }

  -- Doubling a full queue keeps its messages in order and makes room.
  expand-contents :
      (q : Queue A)
      → IsValid q
      → (q.tail + 1) % q.size ≡ q.head
      → contents (expand blank q) ≡ contents q
  unfolding expand
  expand-contents q v full = rw (wide, narrow) (tabulate_congr (q.size - 1) _ _ kept)
    where
      wide : (q.size - 1 + q.size * 2 - 0) % (q.size * 2) ≡ q.size - 1
      wide = omega (arith, mod_turn (q.size - 1 + q.size * 2 - 0) (q.size * 2) (omega arith))

      narrow : count q ≡ q.size - 1
      narrow = omega (arith, count_turn q v, mod_turn (q.tail + 1) q.size (omega arith))

      kept :
          (k : ℕ)
          → k < q.size - 1
          → get_or
              (copy_cells blank (q.size - 1) 0 q (replicate (q.size * 2) blank))
              ((0 + k) % (q.size * 2))
              blank
            ≡ message_at q k
      kept k h =
          let here : (0 + k) % (q.size * 2) ≡ k = rw add.zero (mod-eq_of_lt (omega arith)) in
          rw (
            here,
            copy_cells_inside (q.size - 1) 0 q (replicate (q.size * 2) blank) k
                (omega (arith, length-replicate (q.size * 2) blank)) (omega arith) (omega arith),
            add_comm k q.head,
          )

  expand_room :
      (q : Queue A)
      → IsValid q
      → ((expand blank q).tail + 1) % (expand blank q).size ≢ (expand blank q).head
  unfolding expand
  expand_room q v = omega (arith, mod_turn (q.size - 1 + 1) (q.size * 2) (omega arith))

  -- push_queue_msg keeps a valid queue valid and appends the message to its contents, also when the
  -- buffer has to double.
  pub push_refines :
      (q : Queue A) (m : A)
      → IsValid q
      → IsValid (push blank q m) × (contents (push blank q m) ≡ contents q ++ m ∷ [])
  unfolding push
  push_refines q m v = elim (Bool-cases ((q.tail + 1) % q.size == q.head)) [
    | inl full ↦ rw full (
      store-IsValid _ m (expand-IsValid q v),
      store-contents _ m (expand-IsValid q v) (expand_room q v)
          ∙ ap (λ xs. xs ++ m ∷ []) (expand-contents q v (ground arith)),
    )
    | inr room ↦ rw room (store-IsValid q m v, store-contents q m v (ground arith))
  ]

  -- pop_queue returns NULL exactly for an empty queue, else its oldest message, and leaves a valid
  -- queue with the rest.
  pub pop_refines :
      (q : Queue A)
      → IsValid q
      → ((pop blank q ≡ none) × (contents q ≡ []))
        ⊎ ((m : A) × (r : Queue A) × (pop blank q ≡ some (m, r))
            × IsValid r
            × (contents q ≡ m ∷ contents r))
  unfolding pop
  pop_refines q v = elim (Bool-cases (q.head == q.tail)) [
    | inl e ↦ inl (rw e, rw (empty e))
    | inr e ↦ inr (
      get_or q.cells q.head blank,
      record q { head = (q.head + 1) % q.size },
      rw e,
      rest,
      rw (shrunk e) (ap₂ ◌∷◌ (first e) (tabulate_congr (count_of_rest) _ _ (moved e))),
    )
  ]
    where
      rest : IsValid (record q { head = (q.head + 1) % q.size })
      rest = record {
        nonempty = v.nonempty;
        allocated = v.allocated;
        head_in = mod-lt (q.head + 1) v.nonempty;
        tail_in = v.tail_in;
      }

      count_of_rest : ℕ
      count_of_rest = (q.tail + q.size - (q.head + 1) % q.size) % q.size

      turn_head :
          ((q.head + 1 < q.size) × ((q.head + 1) % q.size ≡ q.head + 1))
          ⊎ ((q.size ≤ q.head + 1) × ((q.head + 1) % q.size ≡ q.head + 1 - q.size))
      turn_head = mod_turn (q.head + 1) q.size (omega arith)

      empty : (q.head == q.tail) ≡ true → count q ≡ 0
      empty e = omega (arith, count_turn q v, (==_iff q.head q.tail).0 e)

      shrunk : (q.head == q.tail) ≡ false → count q ≡ suc count_of_rest
      shrunk e =
          let ne : q.head ≢ q.tail = ground arith in
          omega (
            arith,
            count_turn q v,
            count_turn (record q { head = (q.head + 1) % q.size }) rest,
            turn_head,
          )

      first : (q.head == q.tail) ≡ false → message_at q 0 ≡ get_or q.cells q.head blank
      first e = rw (add-zero, mod-eq_of_lt v.head_in)

      moved :
          (q.head == q.tail) ≡ false
          → (k : ℕ) → k < count_of_rest
          → message_at q (suc k) ≡ get_or q.cells (((q.head + 1) % q.size + k) % q.size) blank
      moved e k h = rw mod-add-mod (
          ap (λ i. get_or q.cells (i % q.size) blank)
            (let s : q.head + suc k ≡ q.head + 1 + k = omega arith in s))

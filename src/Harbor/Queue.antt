-- ===== src/Harbor/Queue.antt =====
-- `struct harbor_msg_queue` of service-src/service_harbor.cpp: a circular buffer that doubles when
-- only its reserved cell is free. The element type is a parameter, `blank` is the value that
-- `std::vector::resize` fills with, and `pop_queue` returns the element that its pointer shows.
-- `int` arithmetic on the size is exact below 2 ^ 30 cells.
pub mod Refine
pub mod Drain
use skynet_cpp.Prelude.{
  ℕ, zero, suc, ◌+◌, ◌-◌, ◌*◌, ◌%◌, ◌==◌, if◌then◌else◌, List, [], ◌∷◌, Option, none, some, length,
  get_or, set, replicate,
}

pub record Queue {ℓ} (A : Type ℓ) : Type ℓ where
  pub size : ℕ
  pub head : ℕ
  pub tail : ℕ
  pub cells : List A

abbrev pub default_queue_size : ℕ
default_queue_size = 1024

module _ {ℓ} {A : Type ℓ} (blank : A) where
  unfoldable pub new_queue : Queue A
  new_queue = record {
    size = default_queue_size;
    head = 0;
    tail = 0;
    cells = replicate default_queue_size blank;
  }

  -- the loop that copies into the new buffer, with the rounds that are left
  copy_cells : ℕ → ℕ → Queue A → List A → List A
  copy_cells zero i q fresh = fresh
  copy_cells (suc n) i q fresh =
      copy_cells n (i + 1) q (set fresh i (get_or q.cells ((i + q.head) % q.size) blank))

  expand : Queue A → Queue A
  expand q = record {
    size = q.size * 2;
    head = 0;
    tail = q.size - 1;
    cells = copy_cells (q.size - 1) 0 q (replicate (q.size * 2) blank);
  }

  -- `*slot = *m` and the move of the tail
  store : Queue A → A → Queue A
  store q m = record q { cells = set q.cells q.tail m; tail = (q.tail + 1) % q.size }

  unfoldable pub push : Queue A → A → Queue A
  unfolding expand store copy_cells
  push q m = store (if (q.tail + 1) % q.size == q.head then expand q else q) m

  unfoldable pub pop : Queue A → Option (A × Queue A)
  pop q =
      if q.head == q.tail
      then none
      else some (get_or q.cells q.head blank, record q { head = (q.head + 1) % q.size })

  -- `while ((m = pop_queue(queue)) != NULL)`, the loop of `release_queue`, `dispatch_queue` and
  -- `dispatch_name_queue`: the messages in the order in which they are popped, and the queue that is
  -- left. `none` means that the fuel ran out.
  unfoldable pub pop_all : ℕ → Queue A → Option (List A × Queue A)
  pop_all zero q = none
  pop_all (suc fuel) q = elim (pop q) [
    | none ↦ some ([], q)
    | some (m, r) ↦ elim (pop_all fuel r) [ none ↦ none | some (ms, e) ↦ some (m ∷ ms, e) ]
  ]

-- ===== src/Timer/Update.antt =====
-- `Update`: within a block of 256 ticks it dispatches what is due and keeps the wheel valid; at the end
-- of a block it moves a list of the next level, and stops there if the list is not empty.
use skynet_cpp.Prelude.{
  ℕ, zero, suc, ◌+◌, ◌/◌, ◌%◌, ◌^◌, ◌<◌, ◌==◌, ◌≡◌, ◌≢◌, refl, ap, ◌∙◌, ◌⊎◌, inl, inr, true, false,
  List, [], ◌∷◌, ◌++◌, arith, Bool-cases,
}
use skynet_cpp.Prelude.Bits.{bit_and-mask}
use skynet_cpp.Prelude.Run.{Run, Run-cases, ok, fault, deadlock, ◌>>=◌}
use skynet_cpp.Service.Contexts.{System, context_push}
use skynet_cpp.Timer.{
  TimerNode, Timer, put_near, put_level, shift_loop, timer_shift, timeout_message, dispatch_list,
  execute, update, add_node, add_nodes, move_list,
}
use skynet_cpp.Timer.Place.{All, IsNear, IsFar, IsValid}

All-map :
    (P Q : TimerNode → Type 0) (ns : List TimerNode)
    → ((n : TimerNode) → P n → Q n)
    → All P ns
    → All Q ns
All-map P Q [] f a = tt
All-map P Q (n ∷ ns) f (p, a) = (f n p, All-map P Q ns f a)

All-append :
    (P : TimerNode → Type 0) (ns ms : List TimerNode) → All P ns → All P ms → All P (ns ++ ms)
All-append P [] ms a b = b
All-append P (n ∷ ns) ms (p, a) b = (p, All-append P ns ms a b)

-- Within a block the next tick is in the same block of every level.
IsFar-next :
    (time i j : ℕ) (n : TimerNode)
    → (time + 1) % 2 ^ 8 ≢ 0
    → IsFar time i j n
    → IsFar (time + 1) i j n
IsFar-next time zero j n inside (le, e, lt, same) =
    (le, e, omega arith, (λ h. omega (arith, same h)))
IsFar-next time (suc zero) j n inside (le, e, lt, same) =
    (le, e, omega arith, (λ h. omega (arith, same h)))
IsFar-next time (suc (suc zero)) j n inside (le, e, lt, same) =
    (le, e, omega arith, (λ h. omega (arith, same h)))
IsFar-next time (suc (suc (suc zero))) j n inside (le, e, lt, same) =
    (le, e, omega arith, (λ h. omega (arith, same h)))
IsFar-next time (suc (suc (suc (suc i)))) j n inside (le, e, lt, same) = absurd (omega arith)

-- the lists of the tick that ends and of the next one
abbrev pub fired : Timer → List TimerNode
fired t = t.near (t.time % 2 ^ 8) ++ t.near ((t.time + 1) % 2 ^ 8)

-- the wheel without them, one tick later
abbrev pub ticked : Timer → Timer
ticked t = record (put_near ((t.time + 1) % 2 ^ 8) [] (put_near (t.time % 2 ^ 8) [] t)) {
  locked = false;
  time = t.time + 1;
}

abbrev busy : Timer → Timer
busy t = record (put_near (t.time % 2 ^ 8) [] t) { locked = true }

timer_shift-inside :
    (t : Timer)
    → t.time + 1 < 2 ^ 32
    → (t.time + 1) % 2 ^ 8 ≢ 0
    → timer_shift t ≡ ok (record t { time = t.time + 1 })
unfolding timer_shift shift_loop
timer_shift-inside t lt inside =
    let e : (t.time + 1) % 2 ^ 32 ≡ t.time + 1 = omega arith in
    let mask = bit_and-mask 8 (t.time + 1) in ground (arith, e, mask)

execute-mod :
    (t : Timer) (w : System)
    → execute t w ≡ (
        dispatch_list (t.near (t.time % 2 ^ 8)) w >>= λ w'. ok (put_near (t.time % 2 ^ 8) [] t, w'))
unfolding execute
execute-mod t w = rw (bit_and-mask 8 t.time) refl

dispatch_list-append :
    (ns ms : List TimerNode) (w : System)
    → dispatch_list (ns ++ ms) w ≡ (dispatch_list ns w >>= λ w'. dispatch_list ms w')
unfolding dispatch_list
dispatch_list-append [] ms w = refl
dispatch_list-append (n ∷ ns) ms w =
    elim (Run-cases (context_push n.handle (timeout_message n) w)) [
      | inl (r, e) ↦ rw e (dispatch_list-append ns ms r.1)
      | inr (f, e) ↦ rw e refl
    ]

-- `Update` with a free lock: the list of the present tick, the shift, and the list of the tick after it
update-dispatches :
    (t : Timer) (w : System)
    → t.locked ≡ false
    → update t w ≡ (
        dispatch_list (t.near (t.time % 2 ^ 8)) w >>= λ w1. timer_shift (busy t) >>= λ v.
        dispatch_list (v.near (v.time % 2 ^ 8)) w1 >>= λ w2.
        ok (record (put_near (v.time % 2 ^ 8) [] v) { locked = false }, w2))
unfolding update
update-dispatches t w open_ =
    rw (open_, execute-mod (record t { locked = true }) w)
      (elim (Run-cases (dispatch_list (t.near (t.time % 2 ^ 8)) w)) [
        | inr (f, e) ↦ rw e refl
        | inl (w1, e) ↦ rw e (elim (Run-cases (timer_shift (busy t))) [
          | inr (f, e2) ↦ rw e2 refl
          | inl (v, e2) ↦
              rw (e2, execute-mod v w1)
                (elim (Run-cases (dispatch_list (v.near (v.time % 2 ^ 8)) w1)) [
                  | inr (f, e3) ↦ rw e3 refl
                  | inl (w2, e3) ↦ rw e3 refl
                ])
        ])
      ])

abbrev at_end : Timer → System → Run (Timer × System)
at_end t w = ok (t, w)

-- a list and then another one, as one list
two_lists :
    (ns ms : List TimerNode) (w : System) (t : Timer)
    → (dispatch_list ns w >>= λ w1. dispatch_list ms w1 >>= λ w2. at_end t w2)
      ≡ (dispatch_list (ns ++ ms) w >>= λ w2. at_end t w2)
two_lists ns ms w t =
    rw (dispatch_list-append ns ms w)
      (elim (Run-cases (dispatch_list ns w)) [ inl (w1, e) ↦ rw e refl | inr (f, e) ↦ rw e refl ])

update-inside :
    (t : Timer) (w : System)
    → t.locked ≡ false
    → t.time + 1 < 2 ^ 32
    → (t.time + 1) % 2 ^ 8 ≢ 0
    → update t w ≡ (dispatch_list (fired t) w >>= λ w'. ok (ticked t, w'))
update-inside t w open_ lt inside =
    let other : ((t.time + 1) % 2 ^ 8 == t.time % 2 ^ 8) ≡ false = ground arith in
    update-dispatches t w open_
    ∙ rw (timer_shift-inside (busy t) lt inside, other)
        (two_lists (t.near (t.time % 2 ^ 8)) (t.near ((t.time + 1) % 2 ^ 8)) w (ticked t))

ticked-IsValid : (t : Timer) → IsValid t → (t.time + 1) % 2 ^ 8 ≢ 0 → IsValid (ticked t)
ticked-IsValid t v inside = record {
  near_in = λ j. elim (Bool-cases (j == (t.time + 1) % 2 ^ 8)) [
    | inl e ↦ rw e tt
    | inr e ↦ rw e (elim (Bool-cases (j == t.time % 2 ^ 8)) [
      | inl f ↦ rw f tt
      | inr f ↦ rw f (
          All-map (IsNear t.time j) (IsNear (t.time + 1) j) (t.near j)
            (λ n near. (near.0, omega (arith, near.1), ground (arith, near.0, near.1, near.2)))
            (v.near_in j))
    ])
  ];
  far_in = λ i j.
      All-map (IsFar t.time i j) (IsFar (t.time + 1) i j) (t.levels i j)
        (λ n far. IsFar-next t.time i j n inside far) (v.far_in i j);
}

-- With a free lock and before the time wraps, Update of a valid wheel within a block of 256 ticks
-- dispatches the nodes of this tick and of the next one, in order, all of which expire at one of
-- these, stops only where dispatching them stops, and leaves a valid wheel at the next tick.
pub update-within :
    (t : Timer) (w : System)
    → IsValid t
    → t.locked ≡ false
    → t.time + 1 < 2 ^ 32
    → (t.time + 1) % 2 ^ 8 ≢ 0
    → (update t w ≡ (dispatch_list (fired t) w >>= λ w'. ok (ticked t, w')))
      × All (λ n. (n.expire ≡ t.time) ⊎ (n.expire ≡ t.time + 1)) (fired t)
      × IsValid (ticked t)
update-within t w v open_ lt inside = (
  update-inside t w open_ lt inside,
  All-append _ (t.near (t.time % 2 ^ 8)) (t.near ((t.time + 1) % 2 ^ 8))
      (All-map _ _ (t.near (t.time % 2 ^ 8)) (λ n near. inl (omega (arith, near.0, near.1)))
        (v.near_in (t.time % 2 ^ 8)))
      (All-map _ _ (t.near ((t.time + 1) % 2 ^ 8)) (λ n near. inr (omega (arith, near.0, near.1)))
        (v.near_in ((t.time + 1) % 2 ^ 8))),
  ticked-IsValid t v inside,
)

add_nodes-locked :
    (n : TimerNode) (ns : List TimerNode) (t : Timer)
    → t.locked ≡ true
    → add_nodes (n ∷ ns) t ≡ fault deadlock
unfolding add_nodes add_node
add_nodes-locked n ns t e = rw e

move_list-locked :
    (i j : ℕ) (n : TimerNode) (ns : List TimerNode) (t : Timer)
    → t.locked ≡ true
    → t.levels i j ≡ n ∷ ns
    → move_list i j t ≡ fault deadlock
unfolding move_list
move_list-locked i j n ns t e f =
    ap (λ nodes. add_nodes nodes (put_level i j [] t)) f
    ∙ add_nodes-locked n ns (put_level i j [] t) e

timer_shift-block :
    (t : Timer)
    → t.time + 1 < 2 ^ 32
    → (t.time + 1) % 2 ^ 8 ≡ 0
    → (t.time + 1) / 2 ^ 8 % 2 ^ 6 ≢ 0
    → timer_shift t ≡ move_list 0 ((t.time + 1) / 2 ^ 8 % 2 ^ 6) (record t { time = t.time + 1 })
unfolding timer_shift shift_loop
timer_shift-block t lt edge some_index =
    let e : (t.time + 1) % 2 ^ 32 ≡ t.time + 1 = omega arith in
    let index_off : ((t.time + 1) / 2 ^ 8 % 2 ^ 6 == 0) ≡ false = ground arith in
    let nonzero : (t.time + 1 == 0) ≡ false = ground arith in
    rw (
      e,
      nonzero,
      bit_and-mask 8 (t.time + 1),
      edge,
      bit_and-mask 6 ((t.time + 1) / 2 ^ 8),
      index_off,
    )

-- With a free lock and before the time wraps, at the end of a block of 256 ticks that is no end of a
-- block of 2 ^ 14, if the list of the first level for the next block holds a node, Update never
-- returns: if it does not stop dispatching the list of the present tick, it waits for the lock that
-- it holds, which AddNode takes again.
pub update-block :
    (t : Timer) (w : System) (n : TimerNode) (ns : List TimerNode)
    → t.locked ≡ false
    → t.time + 1 < 2 ^ 32
    → (t.time + 1) % 2 ^ 8 ≡ 0
    → (t.time + 1) / 2 ^ 8 % 2 ^ 6 ≢ 0
    → t.levels 0 ((t.time + 1) / 2 ^ 8 % 2 ^ 6) ≡ n ∷ ns
    → update t w ≡ (dispatch_list (t.near (t.time % 2 ^ 8)) w >>= λ w'. fault deadlock)
update-block t w n ns open_ lt edge some_index waits =
    let stops : timer_shift (busy t) ≡ fault deadlock =
      timer_shift-block (busy t) lt edge some_index
      ∙ move_list-locked 0 ((t.time + 1) / 2 ^ 8 % 2 ^ 6) n ns
          (record (busy t) { time = t.time + 1 }) refl waits in
    update-dispatches t w open_ ∙ rw stops refl

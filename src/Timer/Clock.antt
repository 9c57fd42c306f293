-- ===== src/Timer/Clock.antt =====
-- The clock of skynet-src/timer.cpp, which drives the wheel.
-- `cp` is what the system's clock says, in hundredths of a second.
use Prim.Native.Nat.{bit_and, bit_or}
use native.Mathlib.Nat.{mod-lt, mod-eq_of_lt}
use skynet_cpp.Prelude.{
  ℕ, zero, suc, ◌+◌, ◌-◌, ◌*◌, ◌/◌, ◌%◌, ◌^◌, ◌<◌, ◌==◌, ltb, if◌then◌else◌, ◌≡◌, refl, ap, ◌∙◌,
  inl, inr, true, List, [], ◌∷◌, arith, Bool-cases,
}
use skynet_cpp.Prelude.Run.{Run, ok, ◌>>=◌}
use skynet_cpp.Prelude.Run.Ensures.{
  Ensures, Ensures-ok, Ensures-fault, Ensures-if, Ensures-bind, Ensures-map,
}
use skynet_cpp.Service.Contexts.{System}
use skynet_cpp.Service.Contexts.Deleted.{Any, anything}
use skynet_cpp.Timer.{
  TimerNode, Timer, put_level, time_near, time_near_mask, link_node, add_node, add_nodes, move_list,
  shift_loop, timer_shift, dispatch_list, execute, update,
}

-- the fields `current_` and `current_point_`, with the wheel
pub record Clock : Type 0 where
  pub timer : Timer
  pub current : ℕ
  pub current_point : ℕ

-- the `for` loop of `Updatetime`, with the rounds left
unfoldable pub updates : ℕ → Timer → System → Run (Timer × System)
updates zero t w = ok (t, w)
updates (suc n) t w = update t w >>= λ (u, w'). updates n u w'

unfoldable pub update_time : ℕ → Clock → System → Run (Clock × System)
update_time cp k w =
    let diff = (cp - k.current_point) % 2 ^ 32 in
    if ltb cp k.current_point
    then ok (record k { current_point = cp }, w)
    else if cp == k.current_point
    then ok (k, w)
    else (updates diff k.timer w >>= λ (t, w').
        ok (record { timer = t; current = (k.current + diff) % 2 ^ 64; current_point = cp }, w'))

link_node_time : (node : TimerNode) (t : Timer) → (link_node node t).time ≡ t.time
unfolding link_node
link_node_time node t =
    elim (Bool-cases (bit_or node.expire time_near_mask == bit_or t.time time_near_mask)) [
      | inl near ↦ rw (link_node, near) refl
      | inr far ↦ rw (link_node, far) refl
    ]

add_node_time :
    (node : TimerNode) (t : Timer) → Ensures Any (λ u. u.time ≡ t.time) (add_node node t)
unfolding add_node
add_node_time node t =
    Ensures-if t.locked (λ locked. Ensures-fault tt) (λ free. Ensures-ok (link_node_time node t))

add_nodes_time :
    (nodes : List TimerNode) (t : Timer) → Ensures Any (λ u. u.time ≡ t.time) (add_nodes nodes t)
unfolding add_nodes
add_nodes_time [] t = Ensures-ok refl
add_nodes_time (node ∷ nodes) t =
    Ensures-bind (add_node_time node t) (λ u e. Ensures-map (λ v f. f ∙ e) (add_nodes_time nodes u))

move_list_time :
    (level idx : ℕ) (t : Timer) → Ensures Any (λ u. u.time ≡ t.time) (move_list level idx t)
unfolding move_list
move_list_time level idx t = add_nodes_time (t.levels level idx) (put_level level idx [] t)

shift_loop_time :
    (n i mask time : ℕ) (t : Timer)
    → Ensures Any (λ u. u.time ≡ t.time) (shift_loop n i mask time t)
unfolding shift_loop
shift_loop_time zero i mask time t = Ensures-fault tt
shift_loop_time (suc n) i mask time t =
    Ensures-if (bit_and t.time (mask - 1) == 0)
      (λ turn.
        Ensures-if (bit_and time 63 == 0)
          (λ again. shift_loop_time n (i + 1) (mask * 2 ^ 6) (time / 2 ^ 6) t)
          (λ here. move_list_time i (bit_and time 63) t))
      (λ inside. Ensures-ok refl)

timer_shift_time : (t : Timer) → Ensures Any (λ u. u.time ≡ (t.time + 1) % 2 ^ 32) (timer_shift t)
unfolding timer_shift
timer_shift_time t =
    let u : Timer = record t { time = (t.time + 1) % 2 ^ 32 } in
    Ensures-if (u.time == 0) (λ wrapped. move_list_time 3 0 u)
      (λ on. shift_loop_time 4 0 time_near (u.time / time_near) u)

execute_time : (t : Timer) (w : System) → Ensures Any (λ r. r.0.time ≡ t.time) (execute t w)
unfolding execute
execute_time t w =
    Ensures-bind (anything (dispatch_list (t.near (bit_and t.time time_near_mask)) w))
      (λ w' h. Ensures-ok refl)

update_time_one :
    (t : Timer) (w : System) → Ensures Any (λ r. r.0.time ≡ (t.time + 1) % 2 ^ 32) (update t w)
unfolding update
update_time_one t w =
    Ensures-if t.locked (λ locked. Ensures-fault tt)
      (λ free. Ensures-bind (execute_time (record t { locked = true }) w) (λ r e.
        Ensures-bind (timer_shift_time r.0) (λ v f.
          Ensures-bind (execute_time v r.1)
            (λ s g. Ensures-ok (g ∙ f ∙ ap (λ x. (x + 1) % 2 ^ 32) e)))))

updates_time :
    (n : ℕ) (t : Timer) (w : System)
    → t.time < 2 ^ 32
    → Ensures Any (λ r. r.0.time ≡ (t.time + n) % 2 ^ 32) (updates n t w)
unfolding updates
updates_time zero t w lt = Ensures-ok (omega (arith, lt))
updates_time (suc n) t w lt = Ensures-bind (update_time_one t w) (λ r e.
    Ensures-map (λ s f. omega (arith, e, f))
      (updates_time n r.0 r.1 (rw e (mod-lt (t.time + 1) (omega arith)))))

-- Updatetime takes the time of the system's clock as its point in all cases. If that did not go back, and by
-- less than 2 ^ 32 forward, the clock and the wheel of 32 bits both move on by the difference, if nothing
-- stops; if it went back, they stay.
update_time-moves :
    (cp : ℕ) (k : Clock) (w : System)
    → k.timer.time < 2 ^ 32
    → cp - k.current_point < 2 ^ 32
    → k.current + cp < 2 ^ 64
    → Ensures Any
        (λ r.
          (r.0.current_point ≡ cp)
          × (r.0.current ≡ k.current + (cp - k.current_point))
          × (r.0.timer.time ≡ (k.timer.time + (cp - k.current_point)) % 2 ^ 32))
        (update_time cp k w)
unfolding update_time
update_time-moves cp k w lt near room =
    let diff : (cp - k.current_point) % 2 ^ 32 ≡ cp - k.current_point = mod-eq_of_lt near in
    Ensures-if (ltb cp k.current_point)
      (λ back.
        let none_passed : cp - k.current_point ≡ 0 = ground arith in
        Ensures-ok (refl, rw none_passed (omega arith), rw none_passed (omega (arith, lt))))
      (λ forth.
        Ensures-if (cp == k.current_point)
          (λ same.
            let equal : k.current_point ≡ cp = ground arith in
            let none_passed : cp - k.current_point ≡ 0 = ground arith in
            Ensures-ok (equal, rw none_passed (omega arith), rw none_passed (omega (arith, lt))))
          (λ later.
            Ensures-bind (updates_time ((cp - k.current_point) % 2 ^ 32) k.timer w lt) (λ r e.
              Ensures-ok (
                refl,
                rw diff (mod-eq_of_lt (omega arith)),
                e ∙ ap (λ d. (k.timer.time + d) % 2 ^ 32) diff,
              ))))

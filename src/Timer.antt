-- ===== src/Timer.antt =====
-- The timer wheel of skynet-src/timer.cpp. A `LinkList` is the list of its nodes; the arrays `near_`
-- and `t_` are functions of the indices, which the code keeps in range by masks. `time` counts
-- hundredths of a second in 32 bits. `locked` is the spin lock, which cannot be taken twice.
pub mod Place
pub mod Update
pub mod Clock
mod Tests
use Prim.Native.Nat.{bit_and, bit_or}
use skynet_cpp.Prelude.{
  ℕ, zero, suc, ◌+◌, ◌-◌, ◌*◌, ◌/◌, ◌%◌, ◌^◌, ◌==◌, if◌then◌else◌, ◌&&◌, Bool, true, false, none,
  List, [], ◌∷◌, ◌++◌,
}
use skynet_cpp.Prelude.Run.{Run, ok, fault, deadlock, no_fuel, ◌>>=◌}
use skynet_cpp.Mq.MessageQueue.{Message}
use skynet_cpp.Service.Contexts.{System, context_push}

abbrev pub time_near : ℕ
time_near = 2 ^ 8

abbrev pub time_level_shift : ℕ
time_level_shift = 6

abbrev pub time_near_mask : ℕ
time_near_mask = time_near - 1

abbrev pub time_level_mask : ℕ
time_level_mask = 2 ^ time_level_shift - 1

pub record TimerNode : Type 0 where
  pub expire : ℕ
  pub handle : ℕ
  pub session : ℕ

pub record Timer : Type 0 where
  pub near : ℕ → List TimerNode
  pub levels : ℕ → ℕ → List TimerNode
  pub locked : Bool
  pub time : ℕ

-- writing a list of one of the two arrays
abbrev pub put_near : ℕ → List TimerNode → Timer → Timer
put_near idx nodes t = record t { near = λ j. if j == idx then nodes else t.near j }

abbrev pub put_level : ℕ → ℕ → List TimerNode → Timer → Timer
put_level i idx nodes t = record t {
  levels = λ l j. if l == i && j == idx then nodes else t.levels l j;
}

-- the `for` loop of `AddNode`, with the rounds left
unfoldable pub level_loop : ℕ → ℕ → ℕ → ℕ → ℕ → ℕ
level_loop zero i mask expire current = i
level_loop (suc n) i mask expire current =
    let rest = level_loop n (i + 1) (mask * 2 ^ time_level_shift) expire current in
    if bit_or expire (mask - 1) == bit_or current (mask - 1) then i else rest

-- the body of `AddNode`, between the lock and the unlock
unfoldable pub link_node : TimerNode → Timer → Timer
link_node node t =
    let near_index = bit_and node.expire time_near_mask in
    let i = level_loop 3 0 (time_near * 2 ^ time_level_shift) node.expire t.time in
    let index = bit_and (node.expire / 2 ^ (8 + i * time_level_shift)) time_level_mask in
    if bit_or node.expire time_near_mask == bit_or t.time time_near_mask
    then put_near near_index (t.near near_index ++ node ∷ []) t
    else put_level i index (t.levels i index ++ node ∷ []) t

unfoldable pub add_node : TimerNode → Timer → Run Timer
add_node node t = if t.locked then fault deadlock else ok (link_node node t)

unfoldable pub add_nodes : List TimerNode → Timer → Run Timer
add_nodes [] t = ok t
add_nodes (node ∷ nodes) t = add_node node t >>= λ u. add_nodes nodes u

unfoldable pub move_list : ℕ → ℕ → Timer → Run Timer
move_list level idx t = add_nodes (t.levels level idx) (put_level level idx [] t)

-- The `while` loop of `TimerShift`. Four levels are enough, since the new time is not 0.
unfoldable pub shift_loop : ℕ → ℕ → ℕ → ℕ → Timer → Run Timer
shift_loop zero i mask time t = fault no_fuel
shift_loop (suc n) i mask time t =
    let idx = bit_and time time_level_mask in
    let rest = shift_loop n (i + 1) (mask * 2 ^ time_level_shift) (time / 2 ^ time_level_shift) t in
    if bit_and t.time (mask - 1) == 0 then (if idx == 0 then rest else move_list i idx t) else ok t

unfoldable pub timer_shift : Timer → Run Timer
timer_shift t =
    let u : Timer = record t { time = (t.time + 1) % 2 ^ 32 } in
    if u.time == 0 then move_list 3 0 u else shift_loop 4 0 time_near (u.time / time_near) u

-- The message of a node; the type is kPtypeResponse, 1, in the high byte of the size
abbrev pub timeout_message : TimerNode → Message
timeout_message node = record {
  source = 0;
  session = node.session;
  data_bytes = none;
  sz = 1 * 2 ^ 56;
}

-- `DispatchList`
unfoldable pub dispatch_list : List TimerNode → System → Run System
dispatch_list [] w = ok w
dispatch_list (node ∷ nodes) w =
    context_push node.handle (timeout_message node) w >>= λ (pushed, w'). dispatch_list nodes w'

-- `Execute`. The lock is free while the nodes are dispatched; no node is added then, so the loop runs once at most.
unfoldable pub execute : Timer → System → Run (Timer × System)
execute t w =
    let idx = bit_and t.time time_near_mask in
    dispatch_list (t.near idx) w >>= λ w'. ok (put_near idx [] t, w')

unfoldable pub update : Timer → System → Run (Timer × System)
update t w =
    if t.locked
    then fault deadlock
    else (execute (record t { locked = true }) w >>= λ (u, w1).
        timer_shift u >>= λ v. execute v w1 >>= λ (x, w2). ok (record x { locked = false }, w2))

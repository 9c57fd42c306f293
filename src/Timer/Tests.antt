-- ===== src/Timer/Tests.antt =====
-- The timer wheel on small inputs.
use skynet_cpp.Prelude.{◌+◌, ◌≡◌, refl, ◌⊎◌, true, false, none, some, [], ◌∷◌, arith}
use skynet_cpp.Prelude.Run.{ok, fault, deadlock, ◌>>=◌}
use skynet_cpp.Service.Contexts.{System}
use skynet_cpp.Timer.{TimerNode, Timer, add_node, dispatch_list, update}
use skynet_cpp.Timer.Place.{All, IsValid, placed, add_node-placed}
use skynet_cpp.Timer.Update.{fired, ticked, update-within, update-block}

abbrev empty_wheel : Timer
empty_wheel = record { near = λ j. []; levels = λ i j. []; locked = false; time = 254 }

empty_wheel-IsValid : IsValid empty_wheel
empty_wheel-IsValid = record { near_in = λ j. tt; far_in = λ i j. tt }

abbrev soon : TimerNode
soon = record { expire = 255; handle = 1; session = 2 }

abbrev later : TimerNode
later = record { expire = 300; handle = 1; session = 3 }

-- one node near and one in the first level
abbrev wheel : Timer
wheel = placed later (placed soon empty_wheel)

wheel-lists : (wheel.near 255 ≡ soon ∷ []) × (wheel.levels 0 1 ≡ later ∷ [])
wheel-lists = (refl, refl)

add_node-placed_example :
    (add_node soon empty_wheel ≡ ok (placed soon empty_wheel)) × IsValid (placed soon empty_wheel)
add_node-placed_example = add_node-placed soon empty_wheel empty_wheel-IsValid refl (omega arith)

wheel-IsValid : IsValid wheel
wheel-IsValid =
    (add_node-placed later (placed soon empty_wheel)
      (add_node-placed soon empty_wheel empty_wheel-IsValid refl (omega arith)).1 refl
      (omega arith)).1

-- a system with the service 1, whose queue is empty
abbrev running : System
running = record {
  total = 1;
  monitor_exit = 0;
  remote = none;
  harbor = 0;
  logger = none;
  storage = record {
    locked = false;
    harbor = 0;
    handle_index = 2;
    slot = none ∷ some 1 ∷ none ∷ none ∷ [];
    name_count = 0;
    name = [];
  };
  memory = λ c. record { handle = c; ref = 2 };
  context = λ c. record {
    queue = c;
    has_callback = true;
    init = true;
    endless = false;
    session_id = 0;
    message_count = 0;
    deleted = false;
  };
  world = record {
    queue = λ q. record {
      handle = q;
      message_queue = [];
      release_flag = false;
      in_global = 1;
      overload = 0;
      overload_threshold = 1024;
    };
    global = record { head = none; tail = none; next = λ q. none };
  };
}

update-within_example :
    (update wheel running ≡ (dispatch_list (fired wheel) running >>= λ w'. ok (ticked wheel, w')))
    × All (λ n. (n.expire ≡ wheel.time) ⊎ (n.expire ≡ wheel.time + 1)) (fired wheel)
    × IsValid (ticked wheel)
update-within_example = update-within wheel running wheel-IsValid refl (omega arith) (omega arith)

fired-wheel : fired wheel ≡ soon ∷ []
fired-wheel = refl

update-block_example :
    update (ticked wheel) running
    ≡ (dispatch_list ((ticked wheel).near 255) running >>= λ w'. fault deadlock)
update-block_example =
    update-block (ticked wheel) running later [] refl (omega arith) refl (omega arith) refl

-- ===== src/Commands/Tests.antt =====
-- The text commands of skynet-src/command.cpp on small inputs.
use skynet_cpp.Prelude.{◌≡◌, refl, inl, none, some, [], ◌∷◌, false, true, arith}
use skynet_cpp.Prelude.Run.{ok}
use skynet_cpp.Handle.Storage.{Storage, blank}
use skynet_cpp.Handle.Names.Find
use skynet_cpp.Service.Contexts.{System}
use skynet_cpp.Commands.{cmd_register, cmd_query, to_handle, before_blank}
use skynet_cpp.Commands.Names.{cmd_register-Lost}

-- no names, and room for two
abbrev nameless : Storage
nameless = record {
  locked = false;
  harbor = 0;
  handle_index = 2;
  slot = none ∷ some 1 ∷ [];
  name_count = 0;
  name = blank ∷ blank ∷ [];
}

nameless-IsValid : Find.IsValid nameless
nameless-IsValid = record {
  sorted = λ i j lt hi. absurd (omega (arith, hi));
  nonempty = omega arith;
  room = omega arith;
}

-- every context has the handle 5
abbrev alone : System
alone = record {
  total = 1;
  monitor_exit = 0;
  remote = none;
  harbor = 0;
  logger = none;
  storage = nameless;
  memory = λ c. record { handle = 5; ref = 2 };
  context = λ c. record {
    queue = c;
    has_callback = true;
    init = true;
    endless = false;
    session_id = 0;
    message_count = 0;
    deleted = false;
  };
  world = record {
    queue = λ q. record {
      handle = q;
      message_queue = [];
      release_flag = false;
      in_global = 1;
      overload = 0;
      overload_threshold = 1024;
    };
    global = record { head = none; tail = none; next = λ q. none };
  };
}

-- ".x"
cmd_register-Lost_example :
    (w' : System) × (cmd_register (λ n. n ∷ []) (λ t. none) [] 1 (46 ∷ 120 ∷ []) alone
      ≡ ok (46 ∷ 120 ∷ [], w'))
    × (cmd_query (λ n. n ∷ []) (λ t. none) (46 ∷ 120 ∷ []) w' ≡ ok (5 ∷ [], w'))
    × (to_handle (λ n. n ∷ []) (λ t. none) 1 (46 ∷ 120 ∷ []) w' ≡ ok (0, w'))
cmd_register-Lost_example =
    cmd_register-Lost (λ n. n ∷ []) (λ t. none) [] 1 (120 ∷ []) alone nameless-IsValid refl
      (λ i lt. absurd (omega (arith, lt))) (λ i lt. absurd (omega (arith, lt))) (inl (omega arith))
      (omega arith)

-- "ab :1"
ab_loses_b : before_blank (97 ∷ 98 ∷ 32 ∷ 58 ∷ 49 ∷ []) ≡ 97 ∷ []
ab_loses_b = refl

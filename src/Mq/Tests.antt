-- ===== src/Mq/Tests.antt =====
-- The queues of skynet-src/mq.cpp on small inputs.
use skynet_cpp.Prelude.{refl, ◌==◌, [], ◌∷◌, none, some, true, false, arith}
use skynet_cpp.Mq.GlobalQueue.{GlobalQueue}
use skynet_cpp.Mq.GlobalQueue.Fifo.{Links}
use skynet_cpp.Mq.MessageQueue.{Message, MessageQueue, World, push}
use skynet_cpp.Mq.MessageQueue.{mark_release}
use skynet_cpp.Mq.MessageQueue.Marking.{Marked, mark_release-Marked}
use skynet_cpp.Mq.MessageQueue.Laws.{IsValid, Pushed, push-Pushed}

-- the queues 3 and 5
abbrev linked : GlobalQueue
linked = record {
  head = some 3;
  tail = some 5;
  next = λ p. elim (p == 3) [ true ↦ some 5 | false ↦ none ];
}

linked-Links : Links linked (3 ∷ 5 ∷ [])
linked-Links = record {
  distinct = ((omega arith, tt), (tt, tt));
  head_eq = refl;
  tail_eq = refl;
  next_eq = λ p. ground arith;
}

abbrev ping : Message
ping = record { source = 1; session = 2; data_bytes = none; sz = 0 }

-- an idle queue, of which no message waits
abbrev idle_queue : MessageQueue
idle_queue = record {
  handle = 1;
  message_queue = [];
  release_flag = false;
  in_global = 0;
  overload = 0;
  overload_threshold = 1024;
}

abbrev quiet : World
quiet = record {
  queue = λ p. idle_queue;
  global = record { head = none; tail = none; next = λ p. none };
}

quiet-IsValid : IsValid quiet []
quiet-IsValid = record {
  links = record { distinct = tt; head_eq = refl; tail_eq = refl; next_eq = λ p. refl };
  flag_le = λ p. omega arith;
  threshold_pos = λ p. omega arith;
  unlinked = λ p e f. tt;
  idle = λ p e. refl;
}

push-Pushed_example : Pushed quiet [] 7 ping (push 7 ping quiet)
push-Pushed_example = push-Pushed quiet [] 7 ping quiet-IsValid refl

mark_release-Marked_example : Marked quiet [] 7 (mark_release 7 quiet)
mark_release-Marked_example = mark_release-Marked quiet [] 7 quiet-IsValid refl

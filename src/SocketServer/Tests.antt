-- ===== src/SocketServer/Tests.antt =====
-- The socket server of skynet-src/socket_server.cpp at concrete inputs.
use skynet_cpp.Prelude.{
  ℕ, ◌-◌, ◌^◌, ◌≤◌, true, false, ◌≡◌, refl, none, some, List, [], ◌∷◌, ◌++◌, arith,
}
use skynet_cpp.Prelude.Run.{Run, ok}
use skynet_cpp.Prelude.Run.Ensures.{Ensures}
use skynet_cpp.SocketServer.{
  Socket, Text, tcp, unknown, read_size, Data, bytes, SocketMessage, Answer, took, interrupted,
  Kernel, Turn, socket_close, type_invalid, type_connected,
}
use skynet_cpp.SocketServer.Ids.{next_id, reserve_loop, reserve_id}
use skynet_cpp.SocketServer.Ids.Bounds.{Reserves, reserve_id_free}
use skynet_cpp.SocketServer.Closing.{force_close, close_socket}
use skynet_cpp.SocketServer.Sending.{
  send_list_tcp, send_list, after_low, after_high, send_lists, raise_uncomplete, send_buffer, range,
}
use skynet_cpp.SocketServer.Sending.Stream.{pending}
use skynet_cpp.SocketServer.Sending.Writes.{NullText}
use skynet_cpp.SocketServer.Sending.Order.{Kept, send_buffer-Kept}
use skynet_cpp.SocketServer.Ctrl.{close_request, ctrl_cmd}
use skynet_cpp.SocketServer.Once.Steps.{stay, go, by_command, told_once}
use skynet_cpp.SocketServer.Api.{Server, memory, Sendbuffer}
use skynet_cpp.SocketServer.Api.Handover.{Continues, send-Continues}
use skynet_cpp.SocketServer.Api.Opening.{Opens, bind-Opens}

abbrev blank : Socket
blank = record {
  opaque = 0;
  high = [];
  low = [];
  wb_size = 0;
  warn_size = 0;
  received = 0;
  rtime = 0;
  written = 0;
  wtime = 0;
  sending = 0;
  fd = 0;
  id = 0;
  type = type_invalid;
  protocol = unknown;
  reading = false;
  writing = false;
  closing = false;
  udpconnecting = 0;
  p = read_size 64;
  dw_locked = false;
  dw_offset = 0;
  dw_buffer = none;
  dw_size = 0;
}

-- Socket 7, connected.
abbrev connected_7 : Socket
connected_7 = record blank { id = 7; fd = 3; type = type_connected; protocol = tcp }

abbrev text : Text
text = record { object = 1000; chars = 2000 }

abbrev quiet_kernel : List Answer → Kernel
quiet_kernel rs = record { answers = rs; refusals = []; sent = []; calls = []; time = 9 }

abbrev no_message : SocketMessage
no_message = record { id = 0; opaque = 0; ud = 0; data_text = bytes [] }

-- A text that is assigned a null pointer and comes out empty.
abbrev empty_text : Run Data
empty_text = ok (bytes [])

-- Two buffers wait, and the last two bytes of a write from another thread.
abbrev busy : Turn
busy = record {
  kernel = quiet_kernel (took 2 ∷ interrupted ∷ took 9 ∷ took 1 ∷ []);
  socket = record connected_7 {
    high = record { buffer = text; ptr = 500; sz = 3; behind = [] } ∷ [];
    low = record { buffer = text; ptr = 2000; sz = 2; behind = [] } ∷ [];
    wb_size = 5;
    writing = true;
    dw_buffer = some text;
    dw_offset = 4;
    dw_size = 6;
  };
  message = no_message;
}

-- The bytes of the direct write, the high buffer, and a part of the low one, which then is the high list.
abbrev busy_after : Run (ℕ × Turn) → List ℕ × List ℕ × ℕ
busy_after (ok (ret, t)) =
    (t.kernel.sent, pending t.socket.high ++ pending t.socket.low, t.socket.wb_size)
busy_after _ = ([], [], 0)

busy_runs :
    busy_after (send_buffer empty_text [] [] busy)
    ≡ (1004 ∷ 1005 ∷ 500 ∷ 501 ∷ 502 ∷ 2000 ∷ [], 2001 ∷ [], 1)
unfolding send_buffer send_lists send_list send_list_tcp after_high after_low raise_uncomplete
busy_runs = refl

send_buffer-Kept_example :
    Ensures
      (NullText empty_text)
      (Kept (1004 ∷ 1005 ∷ 500 ∷ 501 ∷ 502 ∷ 2000 ∷ 2001 ∷ []))
      (send_buffer empty_text [] [] busy)
send_buffer-Kept_example =
    send_buffer-Kept empty_text [] [] busy refl
      (record {
        order = refl;
        size = refl;
        small = omega arith;
        valid = refl;
        opened = refl;
        stream_socket = refl;
      })
      (refl, tt)
      (record {
        near = omega arith;
        inside = omega arith;
        size = omega arith;
        place = λ t e. ground (arith, e);
      })
      (omega arith)

reserve_id_free_example : Reserves (λ i. blank) (reserve_id 0 5 (λ i. blank))
reserve_id_free_example = reserve_id_free 5 9 (λ i. blank) (omega arith) (omega arith) refl

-- Behind the last id comes id 0.
id_wraps : (reserve_id 0 (2 ^ 31 - 1) (λ i. blank)).0 ≡ 0
unfolding reserve_loop next_id
id_wraps = refl

abbrev idle : Turn
idle = record { kernel = quiet_kernel []; socket = connected_7; message = no_message }

abbrev turn_of : Run (ℕ × Turn) → Turn
turn_of (ok (ret, t)) = t
turn_of _ = idle

-- The command that closes socket 7 at once.
shut_down : Run (ℕ × Turn)
shut_down = ctrl_cmd empty_text [] (λ fd. none) [] (λ host port. none) (close_request 7 true) idle

shut_down-told : shut_down ≡ ok (socket_close, turn_of shut_down)
unfolding shut_down ctrl_cmd close_socket force_close
shut_down-told = refl

told_once_example : 1 ≤ 1
unfolding shut_down
told_once_example = told_once empty_text (ok tt) [] idle 1 (turn_of shut_down) (
    go idle idle (turn_of shut_down) (turn_of shut_down) socket_close 0 refl
      (by_command (λ fd. none) [] (λ host port. none) (close_request 7 true) socket_close
        (turn_of shut_down) shut_down-told)
      (stay (turn_of shut_down)))

abbrev server : Server
server = record {
  alloc_id = 7;
  slot = λ i. connected_7;
  pipe = [];
  past = λ q. [];
  kernel = quiet_kernel (took 4 ∷ interrupted ∷ took 26 ∷ []);
}

abbrev six_bytes : Sendbuffer
six_bytes = record { id = 7; type = memory; buffer = text; sz = 6 }

send-Continues_example :
    Continues empty_text [] [] server six_bytes ([] ++ range 1000 6) (took 2 ∷ []) no_message
send-Continues_example =
    send-Continues empty_text [] [] server six_bytes (took 4) (interrupted ∷ took 26 ∷ [])
      (took 2 ∷ []) no_message
      (record {
        in_memory = refl;
        size = omega arith;
        place = omega arith;
        valid = refl;
        stays = refl;
        idle = refl;
        free = refl;
        stream = refl;
      })
      refl refl refl (omega arith)

abbrev fresh_server : Server
fresh_server = record {
  alloc_id = 7;
  slot = λ i. blank;
  pipe = [];
  past = λ q. [];
  kernel = quiet_kernel (interrupted ∷ took 18 ∷ []);
}

bind-Opens_example : Opens fresh_server 12 5 (quiet_kernel []) no_message
bind-Opens_example =
    bind-Opens fresh_server 12 5 3 (quiet_kernel []) no_message (omega arith) (omega arith) refl
      (λ i e. record { invalid = refl; no_high = refl; no_low = refl }) refl refl

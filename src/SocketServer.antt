-- ===== src/SocketServer.antt =====
-- The socket server of skynet-src/socket_server.cpp: its data, as in skynet-src/include/socket_server.h. An
-- address in memory is a number, and a buffer is the addresses of a `std::string` and of its characters. What
-- the kernel answers is a script, and the calls are kept in their order. An `int` that is negative is its
-- pattern from 2 ^ 31 on.
pub mod Ids
pub mod Closing
pub mod Sending
pub mod Control
pub mod Ctrl
pub mod Events
pub mod Api
pub mod Once
mod Tests
use skynet_cpp.Prelude.{
  ℕ, zero, suc, ◌+◌, ◌-◌, ◌%◌, ◌^◌, ◌*◌, ◌==◌, ltb, if◌then◌else◌, Bool, true, false, not, ◌||◌,
  ◌&&◌, Option, none, some, List, [], ◌∷◌, ◌++◌,
}

abbrev pub ignored : ℕ
ignored = 2 ^ 32 - 1

abbrev pub socket_close : ℕ
socket_close = 1

abbrev pub socket_open : ℕ
socket_open = 2

abbrev pub socket_err : ℕ
socket_err = 4

abbrev pub socket_exit : ℕ
socket_exit = 5

abbrev pub socket_data : ℕ
socket_data = 0

abbrev pub socket_udp : ℕ
socket_udp = 6

abbrev pub socket_more : ℕ
socket_more = 9

abbrev pub socket_warning : ℕ
socket_warning = 7

abbrev pub socket_rst : ℕ
socket_rst = 8

abbrev pub max_socket : ℕ
max_socket = 2 ^ 16

abbrev pub warning_size : ℕ
warning_size = 1024 * 1024

abbrev pub min_read_buffer : ℕ
min_read_buffer = 64

-- `kSocketType...`
abbrev pub type_invalid : ℕ
type_invalid = 0

abbrev pub type_reserve : ℕ
type_reserve = 1

abbrev pub type_plisten : ℕ
type_plisten = 2

abbrev pub type_listen : ℕ
type_listen = 3

abbrev pub type_connecting : ℕ
type_connecting = 4

abbrev pub type_connected : ℕ
type_connected = 5

abbrev pub type_half_close_read : ℕ
type_half_close_read = 6

abbrev pub type_half_close_write : ℕ
type_half_close_write = 7

abbrev pub type_ip_accept : ℕ
type_ip_accept = 8

abbrev pub type_bind : ℕ
type_bind = 9

pub data Protocol : Type 0 where
  tcp : Protocol
  udp : Protocol
  udp_v6 : Protocol
  unknown : Protocol

-- the number of an `enum class Protocol : uint8_t`
abbrev pub protocol_code : Protocol → ℕ
protocol_code tcp = 0
protocol_code udp = 1
protocol_code udp_v6 = 2
protocol_code unknown = 3

abbrev pub is_tcp : Protocol → Bool
is_tcp p = protocol_code p == 0

-- The addresses of a `std::string` and of its characters, as `c_str()` gives them.
pub record Text : Type 0 where
  pub object : ℕ
  pub chars : ℕ

-- `struct WriteBuffer`; `behind` is the memory that a cast to `WriteBufferUDP` reads as the address.
pub record WriteBuffer : Type 0 where
  pub buffer : Text
  pub ptr : ℕ
  pub sz : ℕ
  pub behind : List ℕ

-- `std::variant<int, uint8_t[kUdpAddressSize]>`
pub data Payload : Type 0 where
  read_size : ℕ → Payload
  udp_address : List ℕ → Payload

-- `struct Socket`; a list of buffers is its nodes from the head to the tail.
pub record Socket : Type 0 where
  pub opaque : ℕ
  pub high : List WriteBuffer
  pub low : List WriteBuffer
  pub wb_size : ℕ
  pub warn_size : ℕ
  pub received : ℕ
  pub rtime : ℕ
  pub written : ℕ
  pub wtime : ℕ
  pub sending : ℕ
  pub fd : ℕ
  pub id : ℕ
  pub type : ℕ
  pub protocol : Protocol
  pub reading : Bool
  pub writing : Bool
  pub closing : Bool
  pub udpconnecting : ℕ
  pub p : Payload
  pub dw_locked : Bool
  pub dw_offset : ℕ
  pub dw_buffer : Option Text
  pub dw_size : ℕ

-- The text of a message: bytes, or a literal of the source.
pub data Data : Type 0 where
  bytes : List ℕ → Data
  reach_limit : Data
  binding : Data
  listening : Data
  invalid_socket : Data
  socket_closed : Data
  enable_read_failed : Data
  enable_write_failed : Data
  disable_write_failed : Data
  protocol_mismatch : Data
  started : Data
  transferred : Data

-- `struct SocketMessage`
pub record SocketMessage : Type 0 where
  pub id : ℕ
  pub opaque : ℕ
  pub ud : ℕ
  pub data_text : Data

-- What `write` or `sendto` answers: `took n` is n bytes, or all where fewer were asked for.
pub data Answer : Type 0 where
  took : ℕ → Answer
  interrupted : Answer
  again : Answer
  write_failed : Answer

pub data Call : Type 0 where
  epoll_mod : ℕ → Bool → Bool → Call
  epoll_add : ℕ → Call
  epoll_del : ℕ → Call
  shutdown_read : ℕ → Call
  shutdown_write : ℕ → Call
  close : ℕ → Call
  sendto : ℕ → List ℕ → Call
  set_opt : ℕ → ℕ → ℕ → Call
  nonblocking : ℕ → Call
  keepalive : ℕ → Call
  log_error : Call

-- The kernel as the server sees it: the answers to come of `write` and `sendto`, those of `epoll_ctl` (`true`
-- is a failure, and behind the end of the list no call fails), the addresses of the bytes it took, in their
-- order, the other calls, and the time.
pub record Kernel : Type 0 where
  pub answers : List Answer
  pub refusals : List Bool
  pub sent : List ℕ
  pub calls : List Call
  pub time : ℕ

-- What a function of the server works on: the kernel, one socket, and the message for the caller of `Poll`.
pub record Turn : Type 0 where
  pub kernel : Kernel
  pub socket : Socket
  pub message : SocketMessage

abbrev pub call : Kernel → Call → Kernel
call k c = record k { calls = k.calls ++ c ∷ [] }

-- the next answer of `epoll_ctl`
abbrev pub epoll_refused : List Bool → Bool
epoll_refused [] = false
epoll_refused (b ∷ bs) = b

abbrev pub refusals_left : List Bool → List Bool
refusals_left [] = []
refusals_left (b ∷ bs) = bs

abbrev pub epoll_ctl : Kernel → Call → Bool × Kernel
epoll_ctl k c =
    (epoll_refused k.refusals, call (record k { refusals = refusals_left k.refusals }) c)

abbrev pub put_socket : (ℕ → Socket) → ℕ → Socket → ℕ → Socket
put_socket slot i s j = if j == i then s else slot j

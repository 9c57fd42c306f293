-- ===== src/Gate/Sockets.antt =====
-- The gate of service-src/service_gate.cpp over the table of its connections: the messages of sockets, the
-- commands and the start. `number` and `hex` are `strtol` and `strtoul`, `query_name` is `SkynetQueryname`,
-- `closed` and `opened` the texts that `vsnprintf` makes, and `listen` is what `SocketListen` returns. An
-- `int` that is negative is its pattern from 2 ^ 31 on.
pub mod Unknown
mod Tests
use skynet_cpp.Prelude.{
  ℕ, zero, suc, ◌+◌, ◌-◌, ◌^◌, ◌==◌, ltb, leb, if◌then◌else◌, ◌&&◌, ◌||◌, Bool, true, false, not,
  Option, none, some, List, [], ◌∷◌, ◌++◌, get_or, set, take, drop, length,
}
use skynet_cpp.Prelude.Run.{Run, ok, fault, out_of_bounds, assert, ◌>>=◌, ◌>>◌}
use skynet_cpp.Gate.Databuffer.{Databuffer, MessagePool, databuffer_clear}
use skynet_cpp.Gate.Dispatch.{
  Effect, service_send, socket_close, socket_start, service_callback, report_error, Connection,
  Gate, dispatch_message,
}
use skynet_cpp.Gate.Hashid.{
  Hashid, minus_one, hashid_init, hashid_clear, hashid_lookup, hashid_remove, hashid_insert,
  hashid_full,
}

-- `struct Gate`; `conn` is the array that was allocated
pub record Table : Type 0 where
  pub gate : Gate
  pub listen_id : ℕ
  pub max_connection : ℕ
  pub hash : Hashid
  pub conn : List Connection

abbrev pub no_connection : Connection
no_connection = record {
  id = 0;
  agent = 0;
  client = 0;
  buffer = record { header = 0; offset = 0; size = 0; messages = [] };
}

-- `id >= 0` of an `int`
abbrev pub nonnegative : ℕ → Bool
nonnegative id = ltb id (2 ^ 31)

-- `gate->conn[id]`
abbrev pub connection_at : Table → ℕ → Run Connection
connection_at t id =
    if ltb id (length t.conn) then ok (get_or t.conn id no_connection) else fault out_of_bounds

-- `_report`
abbrev pub report : Table → List ℕ → List Effect
report t text = if t.gate.watchdog == 0 then [] else service_send 0 t.gate.watchdog 0 0 text ∷ []

module _ (closed : ℕ → List ℕ) (opened : ℕ → List ℕ) where
  -- 1 is kSocketTypeData, 2 kSocketTypeConnect, 3 kSocketTypeClose, 4 kSocketTypeAccept, 5 kSocketTypeError
  -- and 7 kSocketTypeWarning. The name of the remote side, which only goes into a text, is left out.
  unfoldable pub dispatch_data : Table → ℕ → ℕ → List ℕ → Run (List Effect × Table)
  dispatch_data t id ud buffer = hashid_lookup t.hash id >>= λ place.
      let found : Run (List Effect × Table) = connection_at t place >>= λ c.
      dispatch_message t.gate c id buffer ud >>= λ (effects, g, c').
      ok (effects, record t { gate = g; conn = set t.conn place c' }) in
      if nonnegative place then found else ok (report_error ∷ socket_close id ∷ [], t)

  unfoldable pub dispatch_connect : Table → ℕ → Run (List Effect × Table)
  dispatch_connect t id = hashid_lookup t.hash id >>= λ place.
      ok (if nonnegative place then ([], t) else (report_error ∷ socket_close id ∷ [], t))

  unfoldable pub dispatch_close : Table → ℕ → Run (List Effect × Table)
  dispatch_close t id = hashid_remove t.hash id >>= λ (place, hash).
      let removed : Table = record t { hash = hash } in
      let found : Run (List Effect × Table) = connection_at removed place >>= λ c.
      let (d, p) = databuffer_clear c.buffer t.gate.mp in
      ok (
        report removed (closed id),
        record removed {
          gate = record t.gate { mp = p };
          conn = set t.conn place (record no_connection { id = minus_one });
        },
      ) in
      if nonnegative place then found else ok ([], removed)

  unfoldable pub dispatch_accept : Table → ℕ → ℕ → Run (List Effect × Table)
  dispatch_accept t id ud =
      let enter : Run (List Effect × Table) = hashid_insert t.hash ud >>= λ (place, hash).
      connection_at t place >>= λ c. ok (
        report t (opened ud) ++ report_error ∷ [],
        record t { hash = hash; conn = set t.conn place (record c { id = ud }) },
      ) in
      assert (t.listen_id == id)
      >> (if hashid_full t.hash then ok (socket_close ud ∷ [], t) else enter)

  unfoldable pub dispatch_socket_message : Table → ℕ → ℕ → ℕ → List ℕ → Run (List Effect × Table)
  dispatch_socket_message t type id ud buffer =
      if type == 1
      then dispatch_data t id ud buffer
      else if type == 2
      then (if id == t.listen_id then ok ([], t) else dispatch_connect t id)
      else if type == 3 || type == 5
      then dispatch_close t id
      else if type == 4
      then dispatch_accept t id ud
      else if type == 7
      then ok (report_error ∷ [], t)
      else ok ([], t)

-- `memcmp` of `n` bytes with a word and its NUL
abbrev pub same_bytes : ℕ → List ℕ → List ℕ → Bool
same_bytes zero a b = true
same_bytes (suc n) [] b = false
same_bytes (suc n) (x ∷ a) [] = x == 0
same_bytes (suc n) (x ∷ a) (y ∷ b) = let rest = same_bytes n a b in if x == y then rest else false

-- up to the first blank, and behind it if there is one: `strsep`
abbrev pub strsep : List ℕ → List ℕ × Option (List ℕ)
strsep [] = ([], none)
strsep (x ∷ xs) =
    let (word, rest) = strsep xs in if x == 32 then ([], some xs) else (x ∷ word, rest)

-- `_parm`: what follows the blanks behind the command
abbrev pub skip_blanks : List ℕ → List ℕ
skip_blanks [] = []
skip_blanks (x ∷ xs) = let rest = skip_blanks xs in if x == 32 then rest else x ∷ xs

-- `_forward_agent`
unfoldable pub forward_agent : Table → ℕ → ℕ → ℕ → Run Table
forward_agent t fd agent client = hashid_lookup t.hash fd >>= λ id.
    let found : Run Table = connection_at t id >>= λ c.
    ok (record t { conn = set t.conn id (record c { agent = agent; client = client }) }) in
    if nonnegative id then found else ok t

-- a command that only looks at a connection
abbrev pub if_known : Table → ℕ → Effect → Run (List Effect × Table)
if_known t uid effect =
    hashid_lookup t.hash uid >>= λ id. ok (if nonnegative id then (effect ∷ [], t) else ([], t))

module _ (number : List ℕ → ℕ) (hex : List ℕ → ℕ) (query_name : List ℕ → ℕ) where
  -- the arguments of the command "forward"
  unfoldable pub forward_command : Table → List ℕ → Run (List Effect × Table)
  forward_command t args =
      let (idstr, first) = strsep args in
      elim first [
        | none ↦ ok ([], t)
        | some rest ↦
            let (agent, second) = strsep rest in
            elim second [
              | none ↦ ok ([], t)
              | some client ↦
                  forward_agent t (number idstr) (hex (drop 1 agent)) (hex (drop 1 client))
                  >>= λ t'. ok ([], t')
            ]
      ]

  -- `_ctrl`: "kick", "forward", "broker", "start" and "close"; the command is compared up to its first
  -- blank alone, so a part of a word is taken for it.
  unfoldable pub ctrl : Table → List ℕ → Run (List Effect × Table)
  ctrl t msg =
      let (word, rest) = strsep msg in
      let i = length word in
      let args = skip_blanks (drop i msg) in
      if length msg == 0
      then ok ([], t)
      else if same_bytes i msg (107 ∷ 105 ∷ 99 ∷ 107 ∷ [])
      then if_known t (number args) (socket_close (number args))
      else if same_bytes i msg (102 ∷ 111 ∷ 114 ∷ 119 ∷ 97 ∷ 114 ∷ 100 ∷ [])
      then forward_command t args
      else if same_bytes i msg (98 ∷ 114 ∷ 111 ∷ 107 ∷ 101 ∷ 114 ∷ [])
      then ok ([], record t { gate = record t.gate { broker = query_name args } })
      else if same_bytes i msg (115 ∷ 116 ∷ 97 ∷ 114 ∷ 116 ∷ [])
      then if_known t (number args) (socket_start (number args))
      else if same_bytes i msg (99 ∷ 108 ∷ 111 ∷ 115 ∷ 101 ∷ [])
      then ok (
          if nonnegative t.listen_id
          then (socket_close t.listen_id ∷ [], record t { listen_id = minus_one })
          else ([], t))
      else ok (report_error ∷ [], t)

-- the loop of `gate_init` over the connections, with the rounds left
unfoldable pub clear_ids : ℕ → ℕ → List Connection → Run (List Connection)
clear_ids zero i conn = ok conn
clear_ids (suc n) i conn =
    let rest =
      clear_ids n (i + 1) (set conn i (record (get_or conn i no_connection) { id = minus_one })) in
    if ltb i (length conn) then rest else fault out_of_bounds

-- `start_listen`, whose port is what `strtol` reads behind the last ':'
unfoldable pub start_listen : ℕ → ℕ → Table → ℕ × List Effect × Table
start_listen port listen t =
    let listening = record t { listen_id = listen } in
    if port == 0 || not (nonnegative port)
    then (1, report_error ∷ [], t)
    else if nonnegative listen
    then (0, socket_start listen ∷ [], listening)
    else (1, [], listening)

-- What `sscanf` reads: the number of items, the header style, the watchdog, the client tag and the maximum.
-- `watchdog_handle` is `SkynetQueryname` of the watchdog. 33 is '!', 83 'S', 76 'L', and 3 kPtypeClient.
unfoldable pub gate_init :
    ℕ → ℕ → List ℕ → ℕ → ℕ → ℕ → ℕ → ℕ → Table → Run (ℕ × List Effect × Table)
gate_init n header watchdog client_tag max watchdog_handle port listen t =
    let quiet = get_or watchdog 0 0 == 33 in
    let handle : ℕ = if quiet then 0 else watchdog_handle in
    let refused : Run (ℕ × List Effect × Table) = ok (1, report_error ∷ [], t) in
    let watched : Table = record t { gate = record t.gate { watchdog = handle } } in
    let start : Run (ℕ × List Effect × Table) = clear_ids max 0 (no_connection ∷ []) >>= λ conn.
    let ready : Table = record watched {
      hash = hashid_init t.hash max;
      conn = conn;
      max_connection = max;
      gate = record watched.gate {
        client_tag = if client_tag == 0 then 3 else client_tag;
        header_size = if header == 83 then 2 else 4;
      };
    } in
    let (result, effects, after) = start_listen port listen ready in
    ok (result, service_callback ∷ effects, after) in
    if ltb n 4 || not (nonnegative n)
    then refused
    else if max == 0 || not (nonnegative max)
    then refused
    else if not (header == 83) && not (header == 76)
    then refused
    else if not quiet && watchdog_handle == 0
    then ok (1, report_error ∷ [], watched)
    else start

-- `gate_create`: value-initialised, but for `listen_id`
abbrev pub gate_create : Table
gate_create = record {
  gate = record {
    watchdog = 0;
    broker = 0;
    client_tag = 0;
    header_size = 0;
    mp = record { blocks = 0; freelist = [] };
  };
  listen_id = minus_one;
  max_connection = 0;
  hash = record { hashmod = 0; cap = 0; count = 0; id = []; hash = [] };
  conn = [];
}

-- the loop of `gate_release`
unfoldable pub release_loop : ℕ → ℕ → Table → Run (List Effect)
release_loop zero i t = ok []
release_loop (suc n) i t = connection_at t i >>= λ c. release_loop n (i + 1) t >>= λ more.
    ok (if nonnegative c.id then socket_close c.id ∷ more else more)

unfoldable pub gate_release : Table → Run (List Effect)
gate_release t = release_loop t.max_connection 0 t >>= λ effects.
    ok (if nonnegative t.listen_id then effects ++ socket_close t.listen_id ∷ [] else effects)

-- `gate_cb`: 0 is kPtypeText, 3 kPtypeClient and 6 kPtypeSocket. `as_socket` reads the bytes as a
-- `SkynetSocketMessage`: its type, id, `ud` and buffer. A message of a client falls through to this case.
unfoldable pub gate_cb :
    (List ℕ → ℕ)
    → (List ℕ → ℕ)
    → (List ℕ → ℕ)
    → (ℕ → List ℕ)
    → (ℕ → List ℕ)
    → (List ℕ → ℕ × ℕ × ℕ × List ℕ)
    → Table
    → ℕ
    → List ℕ
    → Run (List Effect × Table)
gate_cb number hex query_name closed opened as_socket t type msg =
    let (kind, id, ud, buffer) = as_socket msg in
    let socket = dispatch_socket_message closed opened t kind id ud buffer in
    if type == 0
    then ctrl number hex query_name t msg
    else if type == 3
    then (if leb (length msg) 4 then ok (report_error ∷ [], t) else socket)
    else if type == 6
    then socket
    else ok ([], t)

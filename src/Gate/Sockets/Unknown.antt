-- ===== src/Gate/Sockets/Unknown.antt =====
-- The gate of service-src/service_gate.cpp knows no connection, since its table of ids finds none.
use skynet_cpp.Prelude.{
  ℕ, zero, suc, ◌+◌, ◌^◌, ◌≤◌, ◌<◌, ◌==◌, ltb, ◌≡◌, ◌≢◌, refl, ◌∙◌, ◌⊎◌, inl, inr, ◌&&◌, ◌||◌, true,
  false, not, List, [], ◌∷◌, get_or, set, length, length-set, arith, Bool-cases,
}
use skynet_cpp.Prelude.Run.{Fault, ok, fault, out_of_bounds}
use skynet_cpp.Gate.Dispatch.{socket_close, report_error, Connection}
use skynet_cpp.Gate.Hashid.{Hashid, minus_one, bucket, hashid_lookup, hashid_insert, hashid_full}
use skynet_cpp.Gate.Hashid.Chains.{IsValid, hashid_lookup_lem, hashid_insert-any}
use skynet_cpp.Gate.Sockets.{
  Table, no_connection, dispatch_data, dispatch_connect, dispatch_accept, dispatch_socket_message,
  clear_ids, gate_init,
}

-- a table of ids whose chains are no longer than its capacity
pub record HasIds (t : Table) : Type 0 where
  pub ks : ℕ → List ℕ
  pub valid : IsValid t.hash ks
  pub short : (h : ℕ) → length (ks h) ≤ t.hash.cap

module _ (closed : ℕ → List ℕ) (opened : ℕ → List ℕ) where
  dispatch_data-unknown :
      (t : Table) (id ud : ℕ) (buffer : List ℕ)
      → hashid_lookup t.hash id ≡ ok minus_one
      → dispatch_data closed opened t id ud buffer ≡ ok (report_error ∷ socket_close id ∷ [], t)
  unfolding dispatch_data
  dispatch_data-unknown t id ud buffer e = rw (dispatch_data, e) refl

  dispatch_connect-unknown :
      (t : Table) (id : ℕ)
      → hashid_lookup t.hash id ≡ ok minus_one
      → dispatch_connect closed opened t id ≡ ok (report_error ∷ socket_close id ∷ [], t)
  unfolding dispatch_connect
  dispatch_connect-unknown t id e = rw (dispatch_connect, e) refl

  dispatch_accept-unknown :
      (t : Table) (id ud : ℕ)
      → t.listen_id ≡ id
      → hashid_full t.hash ≡ false
      → length t.conn < 2 ^ 31
      → ((f : Fault) × (hashid_insert t.hash ud ≡ fault f))
        ⊎ ((hash : Hashid) × (hashid_insert t.hash ud ≡ ok (minus_one, hash)))
      → (e : Fault) × (dispatch_accept closed opened t id ud ≡ fault e)
  unfolding dispatch_accept
  dispatch_accept-unknown t id ud listening room small (inl (f, e)) =
      let here : (t.listen_id == id) ≡ true = ground arith in
      (f, rw (dispatch_accept, here, room, e) refl)
  dispatch_accept-unknown t id ud listening room small (inr (hash, e)) =
      let here : (t.listen_id == id) ≡ true = ground arith in
      let outside : ltb minus_one (length t.conn) ≡ false = ground arith in
      (out_of_bounds, rw (dispatch_accept, here, room, e, outside) refl)

  message-data :
      (t : Table) (id ud : ℕ) (buffer : List ℕ)
      → dispatch_socket_message closed opened t 1 id ud buffer
        ≡ dispatch_data closed opened t id ud buffer
  unfolding dispatch_socket_message
  message-data t id ud buffer = refl

  message-connect :
      (t : Table) (id ud : ℕ) (buffer : List ℕ)
      → id ≢ t.listen_id
      → dispatch_socket_message closed opened t 2 id ud buffer ≡ dispatch_connect closed opened t id
  unfolding dispatch_socket_message
  message-connect t id ud buffer ne =
      let off : (id == t.listen_id) ≡ false = ground arith in rw (off) refl

  message-accept :
      (t : Table) (id ud : ℕ) (buffer : List ℕ)
      → dispatch_socket_message closed opened t 4 id ud buffer
        ≡ dispatch_accept closed opened t id ud
  unfolding dispatch_socket_message
  message-accept t id ud buffer = refl

  -- On a table of ids whose chains are in order and no longer than its capacity, which is not 0,
  -- that is not full, and with fewer than 2 ^ 31 connections, the gate drops the data of every
  -- socket other than the one it listens on, closes it, then and when it connects, and changes
  -- nothing; and it stops when a socket, not -1, is accepted.
  pub dispatch_socket_message-Unknown :
      (t : Table) (id ud : ℕ) (buffer : List ℕ)
      → HasIds t
      → 0 < t.hash.cap
      → hashid_full t.hash ≡ false
      → length t.conn < 2 ^ 31
      → id ≢ t.listen_id
      → ud ≢ minus_one
      → (dispatch_socket_message closed opened t 1 id ud buffer
          ≡ ok (report_error ∷ socket_close id ∷ [], t))
        × (dispatch_socket_message closed opened t 2 id ud buffer
            ≡ ok (report_error ∷ socket_close id ∷ [], t))
        × ((e : Fault) × (dispatch_socket_message closed opened t 4 t.listen_id ud buffer
              ≡ fault e))
  dispatch_socket_message-Unknown t id ud buffer ids pos room small ne named =
      let nothing = hashid_lookup_lem t.hash ids.ks id ids.valid (ids.short (bucket t.hash id)) in
      let (e, stops) =
        dispatch_accept-unknown t t.listen_id ud refl room small
          (hashid_insert-any t.hash ids.ks ud ids.valid pos named) in
      (
        message-data t id ud buffer ∙ dispatch_data-unknown t id ud buffer nothing,
        message-connect t id ud buffer ne ∙ dispatch_connect-unknown t id nothing,
        (e, message-accept t t.listen_id ud buffer ∙ stops),
      )

clear_ids-outside :
    (n i : ℕ) (conn : List Connection)
    → length conn < i + n
    → i ≤ length conn
    → clear_ids n i conn ≡ fault out_of_bounds
unfolding clear_ids
clear_ids-outside zero i conn more le = absurd (omega (arith, more, le))
clear_ids-outside (suc n) i conn more le = elim (Bool-cases (ltb i (length conn))) [
  | inl on ↦
      let lt : i < length conn = ground arith in
      rw on (
        clear_ids-outside n (i + 1)
          (set conn i (record (get_or conn i no_connection) { id = minus_one }))
          (omega (
            arith,
            length-set conn i (record (get_or conn i no_connection) { id = minus_one }),
            more,
          ))
          (omega (
            arith,
            length-set conn i (record (get_or conn i no_connection) { id = minus_one }),
            lt,
          )))
  | inr off ↦ rw off refl
]

-- With four items read or more, a known header style, a watchdog that is found or switched off, and
-- a maximum of two connections or more, gate_init writes past the array of connections, which has
-- one.
gate_init-fault :
    (n header : ℕ) (watchdog : List ℕ) (client_tag max handle port listen : ℕ) (t : Table)
    → 4 ≤ n
    → n < 2 ^ 31
    → 2 ≤ max
    → max < 2 ^ 31
    → (header ≡ 83) ⊎ (header ≡ 76)
    → (get_or watchdog 0 0 ≡ 33) ⊎ (handle ≢ 0)
    → gate_init n header watchdog client_tag max handle port listen t ≡ fault out_of_bounds
unfolding gate_init
gate_init-fault n header watchdog client_tag max handle port listen t items items_int many int style
      watched =
    let stops = clear_ids-outside max 0 (no_connection ∷ []) (omega arith) (omega arith) in
    let enough : (ltb n 4 || not (ltb n (2 ^ 31))) ≡ false = ground arith in
    let some_max : ((max == 0) || not (ltb max (2 ^ 31))) ≡ false = ground arith in
    let known : (not (header == 83) && not (header == 76)) ≡ false = ground arith in
    let found : (not (get_or watchdog 0 0 == 33) && (handle == 0)) ≡ false = ground arith in
    rw (gate_init, enough, some_max, known, found, stops) refl

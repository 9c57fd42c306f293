-- ===== src/Harbor/Receive/Bounds.antt =====
-- The loop of `push_socket_data` ends, and never writes past the four bytes of `size`.
use Prim.Native.Nat.{bit_or}
use mathlib.Core.Path.{subst}
use skynet_cpp.Prelude.{
  ℕ, ◌+◌, ◌-◌, ◌*◌, ◌^◌, ◌≤◌, ◌<◌, ◌==◌, ltb, leb, ◌≡◌, ◌≢◌, refl, sym, ap, ◌∙◌, ◌⊎◌, inl, inr,
  Bool, true, false, Option, none, some, List, [], ◌∷◌, ◌++◌, get_or, take, drop, length,
  length-append, length-take, length-drop, arith, Bool-cases,
}
use skynet_cpp.Prelude.Run.Ensures.{
  Ensures, Ensures-ok, Ensures-fault, Ensures-bind, Ensures-if, Ensures-map,
}
use skynet_cpp.Prelude.Run.{Fault, out_of_bounds}
use skynet_cpp.Harbor.Slave.{
  Slave, Harbor, Call, report_error, put_slave, status_handshake, status_down, close_harbor,
}
use skynet_cpp.Harbor.Slave.Waiting.{IsSound}
use skynet_cpp.Harbor.Receive.{
  status_header, status_content, bytes_at, text_at, forward_local, read_content, fill, next_round,
  read_header,
}

-- `size` has four bytes. `read` counts bytes of `size` before and in the header state, and bytes of the
-- message of `length` bytes in the content state, where at least one is missing.
pub record IsReading (s : Slave) : Type 0 where
  pub four : length s.size ≡ 4
  pub in_header : s.status ≡ status_handshake ⊎ s.status ≡ status_header → s.read < 4
  pub in_content :
      s.status ≡ status_content → s.read ≤ s.length × (0 < s.length → s.read < s.length)
  pub sound : IsSound s

-- A part of the loop stops at a bad access only.
abbrev pub OutOfBounds : Fault → Type 0
OutOfBounds e = e ≡ out_of_bounds

-- What a part of the loop leaves: the slave is in order, no other slave changed, and if there is a next
-- round, it has fewer bytes and starts in the header state.
abbrev pub Continues : Harbor → ℕ → ℕ → List Call × Harbor × Option (ℕ × ℕ) → Type 0
Continues h id size (calls, after, next) =
    IsReading (after.s id)
    × ((i : ℕ) → i ≢ id → after.s i ≡ h.s i)
    × ((p n : ℕ) → next ≡ some (p, n) → n < size × ((after.s id).status ≡ status_header))

pub bytes_at-Ensures :
    (text : List ℕ) (pos n : ℕ) → Ensures OutOfBounds (λ bs. length bs ≡ n) (bytes_at text pos n)
bytes_at-Ensures text pos n =
    Ensures-if (leb (pos + n) (length text + 1))
      (λ le.
        let room : pos + n ≤ length text + 1 = ground arith in
        Ensures-ok (
          omega (
            arith,
            length-take n (drop pos (text ++ 0 ∷ [])),
            length-drop pos (text ++ 0 ∷ []),
            length-append text (0 ∷ []),
            room,
          )))
      (λ gt. Ensures-fault refl)

text_at-Ensures :
    (text : List ℕ) (pos : ℕ) → Ensures OutOfBounds (λ bs. Unit {0}) (text_at text pos)
text_at-Ensures text pos =
    Ensures-if (leb pos (length text)) (λ le. Ensures-ok tt) (λ gt. Ensures-fault refl)

-- The new state of one slave is all that has to be looked at.
put-Continues :
    (h k : Harbor) (id size : ℕ) (x : Slave) (calls : List Call) (next : Option (ℕ × ℕ))
    → ((i : ℕ) → i ≢ id → k.s i ≡ h.s i)
    → IsReading x
    → ((p n : ℕ) → next ≡ some (p, n) → n < size × (x.status ≡ status_header))
    → Continues h id size (calls, put_slave id x k, next)
put-Continues h k id size x calls next same reading ongoing =
    let on : (id == id) ≡ true = ground arith in
    rw on
      (reading, (λ i ne. let off : (i == id) ≡ false = ground arith in rw off (same i ne)), ongoing)

no_next :
    (size : ℕ) (x : Slave) (p n : ℕ)
    → ◌≡◌ {A = Option (ℕ × ℕ)} none (some (p, n))
    → n < size × (x.status ≡ status_header)
no_next size x p n e = absurd (cc e)

-- what is left of the buffer behind the bytes that a state needed
left-lt : (pos size before p n : ℕ) → size < before → next_round pos size ≡ some (p, n) → n < before
left-lt pos size before p n fewer e = elim (Bool-cases (size == 0)) [
  | inl all ↦ absurd (cc (rw all at e))
  | inr more ↦ let same : size ≡ n = cc (rw more at e) in omega arith
]

length-fill :
    (old new : List ℕ) (k : ℕ) → k + length new ≤ length old → length (fill old k new) ≡ length old
length-fill old new k room = total
  where
    total : length (take k old ++ new ++ drop (k + length new) old) ≡ length old
    total = omega (
      arith,
      length-append (take k old ++ new) (drop (k + length new) old),
      length-append (take k old) new,
      length-take k old,
      length-drop (k + length new) old,
    )

-- A part that goes on from a state `k`, in which only this slave is changed.
pub Continues-from :
    (h k : Harbor) (id fewer size : ℕ)
    → ((i : ℕ) → i ≢ id → k.s i ≡ h.s i)
    → fewer ≤ size
    → (out : List Call × Harbor × Option (ℕ × ℕ)) → Continues k id fewer out
    → Continues h id size out
Continues-from h k id fewer size same le (calls, after, next) (reading, others, ongoing) = (
  reading,
  (λ i ne. others i ne ∙ same i ne),
  (λ p n e. let (lt, head) = ongoing p n e in (omega arith, head)),
)

pub put_other : (h : Harbor) (id : ℕ) (x : Slave) (i : ℕ) → i ≢ id → (put_slave id x h).s i ≡ h.s i
put_other h id x i ne = let off : (i == id) ≡ false = ground arith in rw off

pub put_self : (h : Harbor) (id : ℕ) (x : Slave) → (put_slave id x h).s id ≡ x
put_self h id x = let on : (id == id) ≡ true = ground arith in rw on

pub close_harbor-Continues :
    (h k : Harbor) (id size : ℕ) (calls : List Call)
    → ((i : ℕ) → i ≢ id → k.s i ≡ h.s i)
    → length (k.s id).size ≡ 4
    → Continues h id size (calls, (close_harbor k id).1, none)
unfolding close_harbor
close_harbor-Continues h k id size calls same four =
    let closed : Slave = record (k.s id) { fd = 0; queue = none; status = status_down } in
    put-Continues h k id size closed calls none same
      (record {
        four = four;
        in_header = λ e. absurd (ground (arith, e));
        in_content = λ e. absurd (ground (arith, e));
        sound = tt;
      })
      (no_next size closed)

module _ (accepts : Call → Bool) where
  -- a message that is forwarded has room for its header
  forward_local-Ensures :
      (h : Harbor) (msg : List ℕ) (sz : ℕ)
      → Ensures OutOfBounds (λ calls. 12 ≤ sz) (forward_local accepts h msg sz)
  unfolding forward_local
  forward_local-Ensures h msg sz = elim (Bool-cases (ltb sz 12)) [
    | inl short ↦ rw short (Ensures-fault refl)
    | inr long ↦ rw long (
        Ensures-bind (bytes_at-Ensures msg (sz - 12) 12) (λ cookie same. Ensures-ok (ground arith)))
  ]

  pub read_content-Continues :
      (h : Harbor) (id : ℕ) (buffer : List ℕ) (pos size : ℕ)
      → IsReading (h.s id)
      → (h.s id).status ≡ status_content
      → Ensures OutOfBounds (Continues h id size) (read_content accepts h id buffer pos size)
  unfolding read_content
  read_content-Continues h id buffer pos size r content =
      let s = h.s id in
      let (le, lt) = r.in_content content in
      Ensures-bind (text_at-Ensures buffer pos) (λ text u.
        let partly : Slave = record s {
          recv_buffer = s.recv_buffer ++ text;
          read = s.read + size;
        } in
        let done : Slave = record s {
          length = 0;
          read = 0;
          recv_buffer = [];
          status = status_header;
        } in
        Ensures-if (ltb size (s.length - s.read))
          (λ short. Ensures-ok (
            put-Continues h h id size partly [] none (λ i ne. refl)
              (record {
                four = r.four;
                in_header = λ e. ground (arith, content, e);
                in_content = λ e. (ground arith, λ pos. ground arith);
                sound = r.sound;
              })
              (no_next size partly)))
          (λ enough.
            Ensures-bind (forward_local-Ensures h (s.recv_buffer ++ text) s.length) (λ calls room.
              Ensures-ok (
                put-Continues h h id size done calls _ (λ i ne. refl)
                  (record {
                    four = r.four;
                    in_header = λ e. omega arith;
                    in_content = λ e. absurd (ground arith);
                    sound = r.sound;
                  })
                  (λ p n e. (
                    left-lt (pos + (s.length - s.read)) (size - (s.length - s.read)) size p n
                        (ground (arith, lt, room, enough)) e,
                    refl,
                  ))))))

  pub read_header-Continues :
      (h : Harbor) (id : ℕ) (buffer : List ℕ) (pos size : ℕ)
      → IsReading (h.s id)
      → (h.s id).status ≡ status_header
      → Ensures OutOfBounds (Continues h id size) (read_header accepts h id buffer pos size)
  unfolding read_header
  read_header-Continues h id buffer pos size r head =
      let s = h.s id in
      let room = r.in_header (inr head) in
      Ensures-if (ltb 4 s.read) (λ gt. absurd (ground arith))
        (λ le.
          Ensures-if (ltb size (4 - s.read))
            (λ short. Ensures-bind (bytes_at-Ensures buffer pos size) (λ new len.
              let partly : Slave = record s {
                size = fill s.size s.read new;
                read = s.read + size;
              } in
              Ensures-ok (
                put-Continues h h id size partly [] none (λ i ne. refl)
                  (record {
                    four =
                        length-fill s.size new s.read (ground (arith, len, r.four, short)) ∙ r.four;
                    in_header = λ e. ground arith;
                    in_content = λ e. absurd (omega (arith, head, e));
                    sound = r.sound;
                  })
                  (no_next size partly))))
            (λ enough. Ensures-bind (bytes_at-Ensures buffer pos (4 - s.read)) (λ new len.
              let word = fill s.size s.read new in
              let four : length word ≡ 4 =
                length-fill s.size new s.read (omega (arith, len, r.four, room)) ∙ r.four in
              let opened : Slave = record s {
                size = word;
                length =
                    bit_or (bit_or (get_or word 1 0 * 2 ^ 16) (get_or word 2 0 * 2 ^ 8))
                      (get_or word 3 0);
                read = 0;
                status = status_content;
              } in
              let reading : IsReading opened = record {
                four = four;
                in_header = λ e. omega arith;
                in_content = λ e. (omega arith, λ pos. pos);
                sound = r.sound;
              } in
              let next = put_slave id opened h in
              Ensures-if (get_or word 0 0 == 0)
                (λ small.
                  Ensures-if (size - (4 - s.read) == 0)
                    (λ all. Ensures-ok (
                      put-Continues h h id size opened [] none (λ i ne. refl) reading
                        (no_next size opened)))
                    (λ more.
                      let same = put_self h id opened in
                      Ensures-map
                        (Continues-from h next id (size - (4 - s.read)) size (put_other h id opened)
                          (omega arith))
                        (read_content-Continues next id buffer (pos + (4 - s.read))
                          (size - (4 - s.read)) (subst IsReading (sym same) reading)
                          (ap (λ x. x.status) same))))
                (λ large. Ensures-ok (
                  close_harbor-Continues h (put_slave id (record s { size = word }) h) id size
                    (report_error ∷ (close_harbor (put_slave id (record s { size = word }) h) id).0)
                    (put_other h id (record s { size = word }))
                    (ap (λ x. length x.size) (put_self h id (record s { size = word })) ∙ four))))))

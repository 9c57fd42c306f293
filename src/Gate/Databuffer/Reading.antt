-- ===== src/Gate/Databuffer/Reading.antt =====
-- What a `databuffer` holds is a byte string: a push appends to it, and a read takes from its front.
use skynet_cpp.Prelude.{
  ℕ, ◌+◌, ◌-◌, ◌≤◌, ◌<◌, ◌==◌, ltb, leb, ◌≡◌, refl, sym, ap, ◌∙◌, inl, inr, List, [], ◌∷◌, ◌++◌,
  true, length, take, drop, length-append, length-drop, take-append, drop-append, drop-drop,
  take_all, drop_all, append-nil, append_assoc, arith, Bool-cases,
}
use skynet_cpp.Prelude.Run.{ok}
use skynet_cpp.Gate.Databuffer.{
  Message, Databuffer, MessagePool, ReadResult, return_message, read_messages, databuffer_read,
  databuffer_push, take_node,
}

abbrev pub joined : List Message → List ℕ
joined [] = []
joined (m ∷ ms) = m.buffer ++ joined ms

abbrev pub head_size : List Message → ℕ
head_size [] = 0
head_size (m ∷ ms) = m.size

-- every block is as long as it says
abbrev pub Sized : List Message → Type 0
Sized [] = Unit {0}
Sized (m ∷ ms) = (m.size ≡ length m.buffer) × Sized ms

-- the bytes that are still to be read
abbrev pub contents : Databuffer → List ℕ
contents db = drop db.offset (joined db.messages)

pub record IsValid (db : Databuffer) : Type 0 where
  pub sized : Sized db.messages
  pub offset_in : db.offset ≤ head_size db.messages
  pub counted : db.size ≡ length (contents db)

-- what a read of `sz` bytes at `offset` has to give
record Reads (ms : List Message) (offset sz : ℕ) (r : ReadResult) : Type 0 where
  bytes : r.bytes ≡ take sz (drop offset (joined ms))
  rest : drop r.offset (joined r.messages) ≡ drop sz (drop offset (joined ms))
  sized : Sized r.messages
  offset_in : r.offset ≤ head_size r.messages

-- the unread part of the first block, in front of the other blocks
drop-block :
    (b rest : List ℕ) (offset : ℕ)
    → offset ≤ length b
    → drop offset (b ++ rest) ≡ drop offset b ++ rest
drop-block b rest offset h =
    let e : offset - length b ≡ 0 = omega arith in rw (drop-append offset b rest, e)

module _ (m : Message) (ms : List Message) (mp : MessagePool) (offset sz : ℕ)
    (sized : m.size ≡ length m.buffer) (offset_in : offset ≤ m.size) where
  length-unread : length (drop offset m.buffer) ≡ m.size - offset
  length-unread = omega (arith, length-drop offset m.buffer)

  split : drop offset (joined (m ∷ ms)) ≡ drop offset m.buffer ++ joined ms
  split = drop-block m.buffer (joined ms) offset (omega arith)

  take_within :
      sz ≤ m.size - offset
      → take sz (drop offset (joined (m ∷ ms))) ≡ take sz (drop offset m.buffer)
  take_within h =
      let e : sz - length (drop offset m.buffer) ≡ 0 = omega (arith, length-unread) in
      rw (split, take-append sz (drop offset m.buffer) (joined ms), e, append-nil)

  drop_within :
      sz ≤ m.size - offset
      → drop sz (drop offset (joined (m ∷ ms))) ≡ drop sz (drop offset m.buffer) ++ joined ms
  drop_within h =
      let e : sz - length (drop offset m.buffer) ≡ 0 = omega (arith, length-unread) in
      rw (split, drop-append sz (drop offset m.buffer) (joined ms), e)

  take_past :
      m.size - offset ≤ sz
      → take sz (drop offset (joined (m ∷ ms)))
        ≡ take (m.size - offset) (drop offset m.buffer) ++ take (sz - (m.size - offset)) (joined ms)
  take_past h = rw (
    split,
    take-append sz (drop offset m.buffer) (joined ms),
    take_all sz (drop offset m.buffer) (omega (arith, length-unread)),
    take_all (m.size - offset) (drop offset m.buffer) (omega (arith, length-unread)),
    length-unread,
  )

  drop_past :
      m.size - offset ≤ sz
      → drop sz (drop offset (joined (m ∷ ms))) ≡ drop (sz - (m.size - offset)) (joined ms)
  drop_past h = rw (
    split,
    drop-append sz (drop offset m.buffer) (joined ms),
    drop_all sz (drop offset m.buffer) (omega (arith, length-unread)),
    length-unread,
  )

read_messages-Reads :
    (ms : List Message) (mp : MessagePool) (offset sz : ℕ)
    → Sized ms
    → offset ≤ head_size ms
    → 0 < sz
    → sz ≤ length (drop offset (joined ms))
    → (r : ReadResult) × (read_messages ms mp offset sz ≡ ok r) × Reads ms offset sz r
unfolding read_messages
read_messages-Reads [] mp offset sz sized off pos fits =
    let e : offset ≡ 0 = omega arith in
    absurd (omega (arith, ap (λ k. length (drop {A = ℕ} k [])) e))
read_messages-Reads (m ∷ ms) mp offset sz sized off pos fits =
    elim (Bool-cases (ltb sz (m.size - offset))) [
      | inl within ↦ (
        record {
          bytes = take sz (drop offset m.buffer);
          messages = m ∷ ms;
          offset = offset + sz;
          pool = mp;
        },
        rw within,
        record {
          bytes = sym (take_within m ms mp offset sz sized.0 off (ground arith));
          rest =
              drop-block m.buffer (joined ms) (offset + sz) (ground arith)
              ∙ ap (λ d. d ++ joined ms) (sym (drop-drop sz offset m.buffer))
              ∙ sym (drop_within m ms mp offset sz sized.0 off (ground arith));
          sized = sized;
          offset_in = ground arith;
        },
      )
      | inr beyond ↦ elim (Bool-cases (m.size - offset == sz)) [
        | inl exact ↦ (
          record {
            bytes = take sz (drop offset m.buffer);
            messages = ms;
            offset = 0;
            pool = return_message m mp;
          },
          rw (beyond, exact),
          record {
            bytes = sym (take_within m ms mp offset sz sized.0 off (ground arith));
            rest = sym (
                drop_past m ms mp offset sz sized.0 off (ground arith)
                ∙ ap (λ k. drop k (joined ms))
                    (let e : sz - (m.size - offset) ≡ 0 = ground arith in e));
            sized = sized.1;
            offset_in = omega arith;
          },
        )
        | inr short ↦
            let past : m.size - offset < sz = ground arith in
            let (r, run, reads) =
              read_messages-Reads ms (return_message m mp) 0 (sz - (m.size - offset)) sized.1
                (omega arith) (omega arith)
                (omega (
                  arith,
                  ap length (split m ms mp offset sz sized.0 off),
                  length-append (drop offset m.buffer) (joined ms),
                  length-unread m ms mp offset sz sized.0 off,
                )) in
            (
              record r { bytes = take (m.size - offset) (drop offset m.buffer) ++ r.bytes },
              rw (beyond, short, run),
              record {
                bytes =
                    ap (λ b. take (m.size - offset) (drop offset m.buffer) ++ b) reads.bytes
                    ∙ sym (take_past m ms mp offset sz sized.0 off (omega arith));
                rest = reads.rest ∙ sym (drop_past m ms mp offset sz sized.0 off (omega arith));
                sized = reads.sized;
                offset_in = reads.offset_in;
              },
            )
      ]
    ]

-- Reading at least one and at most all bytes of a valid buffer gives the first bytes of its
-- contents, leaves the others, and keeps the header and the validity.
pub databuffer_read_lem :
    (db : Databuffer) (mp : MessagePool) (sz : ℕ)
    → IsValid db
    → 0 < sz
    → sz ≤ db.size
    → (d : Databuffer) × (p : MessagePool) × (databuffer_read db mp sz
        ≡ ok (take sz (contents db), d, p))
      × IsValid d
      × (contents d ≡ drop sz (contents db))
      × (d.header ≡ db.header)
unfolding databuffer_read
databuffer_read_lem db mp sz v pos fits =
    let (r, run, reads) =
      read_messages-Reads db.messages mp db.offset sz v.sized v.offset_in pos
        (omega (arith, v.counted)) in
    let enough : leb sz db.size ≡ true = ground arith in
    (
      record db { offset = r.offset; size = db.size - sz; messages = r.messages },
      r.pool,
      rw (enough, run, reads.bytes),
      record {
        sized = reads.sized;
        offset_in = reads.offset_in;
        counted = omega (arith, ap length reads.rest, length-drop sz (contents db), v.counted);
      },
      reads.rest,
      refl,
    )

joined-append : (ms ns : List Message) → joined (ms ++ ns) ≡ joined ms ++ joined ns
joined-append [] ns = refl
joined-append (m ∷ ms) ns = rw (joined-append ms ns, append_assoc)

Sized-append : (ms ns : List Message) → Sized ms → Sized ns → Sized (ms ++ ns)
Sized-append [] ns h k = k
Sized-append (m ∷ ms) ns h k = (h.0, Sized-append ms ns h.1 k)

joined_room : (ms : List Message) → Sized ms → head_size ms ≤ length (joined ms)
joined_room [] h = omega arith
joined_room (m ∷ ms) h = omega (arith, length-append m.buffer (joined ms))

head_size-append : (ms ns : List Message) → head_size ms ≤ head_size (ms ++ ns)
head_size-append [] ns = omega arith
head_size-append (m ∷ ms) ns = omega arith

-- A push of bytes onto a valid buffer appends them to its contents, and keeps the header and the
-- validity.
pub databuffer_push_lem :
    (db : Databuffer) (mp : MessagePool) (bytes : List ℕ)
    → IsValid db
    → let (d, p) = databuffer_push db mp bytes (length bytes) in
      IsValid d × (contents d ≡ contents db ++ bytes) × (d.header ≡ db.header)
unfolding databuffer_push
databuffer_push_lem db mp bytes v = (
  record {
    sized = Sized-append db.messages _ v.sized (refl, tt);
    offset_in = omega (arith, v.offset_in, head_size-append db.messages (block ∷ []));
    counted = omega (arith, v.counted, ap length appended, length-append (contents db) bytes);
  },
  appended,
  refl,
)
  where
    block : Message
    block = record {
      node = (take_node mp.freelist mp.blocks).0;
      buffer = bytes;
      size = length bytes;
    }

    appended : drop db.offset (joined (db.messages ++ block ∷ [])) ≡ contents db ++ bytes
    appended =
        rw (joined-append db.messages (block ∷ []), append-nil)
          (drop-block (joined db.messages) bytes db.offset
            (omega (arith, v.offset_in, joined_room db.messages v.sized)))

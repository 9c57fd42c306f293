-- ===== src/Handle/Retire.antt =====
-- `HandleRetire` and `HandleRetireall` of skynet-src/handle.cpp, with `Context::Release` of
-- skynet-src/service.cpp as far as it is a count: the flag of the result says that the last reference
-- went, and the context was deleted.
pub mod Laws
pub mod Names
use skynet_cpp.Prelude.{
  ℕ, zero, suc, ◌+◌, ◌-◌, ◌%◌, ◌^◌, ◌==◌, if◌then◌else◌, Bool, true, false, Option, none, some,
  List, length, get_or, set,
}
use skynet_cpp.Prelude.Run.{Run, ok, fault, no_fuel, ◌>>=◌, ◌>>◌}
use skynet_cpp.Handle.Storage.{Storage, Context, Memory, update, lock}
use skynet_cpp.Handle.Slots.{hash_of, find}
use skynet_cpp.Handle.Names.{compact}

-- `Context::Release`: `ref_` is an `int` that wraps, and 1 before the decrement means deletion
unfoldable pub release : Memory → ℕ → Memory × Bool
release m c =
    (update m c (record (m c) { ref = ((m c).ref + 2 ^ 32 - 1) % 2 ^ 32 }), (m c).ref == 1)

-- the table without the context of the handle and without the names of the handle
unfoldable pub without : Storage → ℕ → Storage
without s handle =
    let (names, count) = compact s.name_count handle 0 0 s.name in
    record s { slot = set s.slot (hash_of s.slot handle) none; name = names; name_count = count }

unfoldable pub retire : Storage → Memory → ℕ → Run (ℕ × Storage × Memory × Bool)
retire s m handle = lock s >> elim (find s m handle) [
  | none ↦ ok (0, s, m, false)
  | some c ↦ let (m', deleted) = release m c in ok (1, without s handle, m', deleted)
]

-- One `for` loop of `HandleRetireall`, with the rounds left: the number of contexts that it met.
unfoldable pub retire_round : ℕ → ℕ → ℕ → Storage → Memory → Run (ℕ × Storage × Memory)
retire_round zero i met s m = ok (met, s, m)
retire_round (suc n) i met s m = lock s >> elim (get_or s.slot i none) [
  | none ↦ retire_round n (i + 1) met s m
  | some c ↦ elim ((m c).handle == 0) [
    | true ↦ retire_round n (i + 1) (met + 1) s m
    | false ↦ retire s m (m c).handle >>= λ (done, s', m', deleted).
        retire_round n (i + 1) (met + 1) s' m'
  ]
]

-- the `while (true)` around it
unfoldable pub retire_all : ℕ → Storage → Memory → Run (Storage × Memory)
retire_all zero s m = fault no_fuel
retire_all (suc fuel) s m = retire_round (length s.slot) 0 0 s m >>= λ (met, s', m').
    elim (met == 0) [ true ↦ ok (s', m') | false ↦ retire_all fuel s' m' ]

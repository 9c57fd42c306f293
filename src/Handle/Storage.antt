-- ===== src/Handle/Storage.antt =====
-- The state of skynet-src/handle.cpp. A `Context *` is a number (0 is not special: a null slot is
-- `none`), and the memory gives for each context the fields that handle.cpp reads. The functions run to
-- their end on one thread; `locked` says that the write lock was left held, and then every function
-- that takes the lock spins for ever.
use Prim.Native.Nat.{bit_and}
use skynet_cpp.Prelude.{
  ℕ, ◌*◌, ◌^◌, ◌==◌, if◌then◌else◌, Bool, false, Option, none, List, [], replicate,
}
use skynet_cpp.Prelude.Run.{Run, ok, fault, deadlock}

abbrev pub handle_mask : ℕ
handle_mask = 0xffffff

abbrev pub handle_remote_shift : ℕ
handle_remote_shift = 24

abbrev pub default_slot_size : ℕ
default_slot_size = 4

abbrev pub max_slot_size : ℕ
max_slot_size = 0x40000000

pub record HandleName : Type 0 where
  pub name : List ℕ
  pub handle : ℕ

-- a value-initialised element of `std::vector<HandleName>`
abbrev pub blank : HandleName
blank = record { name = []; handle = 0 }

pub record Storage : Type 0 where
  pub locked : Bool
  pub harbor : ℕ
  pub handle_index : ℕ
  pub slot : List (Option ℕ)
  pub name_count : ℕ
  pub name : List HandleName

-- `handle_` and `ref_` of a `Context`
pub record Context : Type 0 where
  pub handle : ℕ
  pub ref : ℕ

abbrev pub Memory : Type 0
Memory = ℕ → Context

abbrev pub update : Memory → ℕ → Context → Memory
update m c x d = if d == c then x else m d

-- `rwlock_wlock` and `rwlock_rlock`
abbrev pub lock : Storage → Run (Unit {0})
lock s = if s.locked then fault deadlock else ok tt

-- `HandleInit`
unfoldable pub init : ℕ → Storage
init harbor = record {
  locked = false;
  harbor = bit_and harbor 0xff * 2 ^ handle_remote_shift;
  handle_index = 1;
  slot = replicate default_slot_size none;
  name_count = 0;
  name = replicate 2 blank;
}

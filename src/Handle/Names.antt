-- ===== src/Handle/Names.antt =====
-- The names of services: `HandleFindname` and `HandleNamehandle` with their binary search, and the
-- part of `HandleRetire` that removes names. `end` of the source is -1 for no names; here it is one
-- more, so that `begin <= end` is `begin < stop`.
pub mod Find
pub mod Shift
pub mod Insert
pub mod Retire
use skynet_cpp.Prelude.{
  ℕ, zero, suc, ◌+◌, ◌-◌, ◌*◌, ◌/◌, ◌==◌, ltb, leb, if◌then◌else◌, Bool, true, false, Option, none,
  some, List, [], ◌∷◌, ◌++◌, length, get_or, set, replicate,
}
use skynet_cpp.Prelude.Run.{Run, ok, fault, assert, no_fuel, ◌>>=◌, ◌>>◌}
use skynet_cpp.Handle.Text.{str_eq, str_lt}
use skynet_cpp.Handle.Storage.{Storage, HandleName, blank, lock, max_slot_size}

-- where the search stopped: at a name that is equal, or with the place for a new one
pub data Place : Type 0 where
  found : ℕ → Place
  missing : ℕ → Place

-- the loop of both functions
unfoldable pub binary_search : ℕ → List HandleName → List ℕ → ℕ → ℕ → Run Place
binary_search zero names name begin stop = fault no_fuel
binary_search (suc fuel) names name begin stop =
    let mid = (begin + stop - 1) / 2 in
    let entry = get_or names mid blank in
    let right = binary_search fuel names name (mid + 1) stop in
    let left = binary_search fuel names name begin mid in
    if ltb begin stop
    then (if str_eq entry.name name
        then ok (found mid)
        else if str_lt entry.name name
        then right
        else left)
    else ok (missing begin)

-- A search of `n` names takes at most `n` rounds and a last one.
unfoldable pub place_of : Storage → List ℕ → Run Place
unfolding binary_search
place_of s name = binary_search (suc s.name_count) s.name name 0 s.name_count

abbrev pub handle_at : Storage → Place → ℕ
handle_at s (found i) = (get_or s.name i blank).handle
handle_at s (missing i) = 0

unfoldable pub find_name : Storage → List ℕ → Run ℕ
find_name s name = do lock s; place ← place_of s name; ok (handle_at s place)

-- `for (i = name_count; i > begin; i--) name[i] = name[i - 1]`, with the rounds left
unfoldable pub shift_names : ℕ → ℕ → List HandleName → List HandleName
shift_names zero begin names = names
shift_names (suc n) begin names =
    shift_names n begin (set names (begin + suc n) (get_or names (begin + n) blank))

-- the check of the capacity: the vector that the name is written into
unfoldable pub reserve_name : Storage → Run (List HandleName)
reserve_name s =
    if leb (length s.name) s.name_count
    then assert (leb (length s.name * 2) max_slot_size)
      >> ok (s.name ++ replicate (length s.name) blank)
    else ok s.name

unfoldable pub insert_at : Storage → List ℕ → ℕ → ℕ → List HandleName → Storage
insert_at s name handle begin names = record s {
  name =
      set (shift_names (s.name_count - begin) begin names) begin
        (record { name = name; handle = handle });
  name_count = s.name_count + 1;
}

-- The returned text is empty if the name exists; that path returns without the unlock.
unfoldable pub name_handle : Storage → ℕ → List ℕ → Run (List ℕ × Storage)
name_handle s handle name = do
  lock s
  place ← place_of s name
  elim place [
    | found i ↦ ok ([], record s { locked = true })
    | missing begin ↦ reserve_name s >>= λ names. ok (name, insert_at s name handle begin names)
  ]

-- The loop of `HandleRetire` over the names, with the rounds left: what it leaves in the vector, and
-- the new number of names.
unfoldable pub compact : ℕ → ℕ → ℕ → ℕ → List HandleName → List HandleName × ℕ
compact zero handle i j names = (names, j)
compact (suc n) handle i j names =
    let entry = get_or names i blank in
    let removed = compact n handle (i + 1) j (set names i (record entry { name = [] })) in
    let kept = compact n handle (i + 1) (j + 1) (if i == j then names else set names j entry) in
    if entry.handle == handle then removed else kept

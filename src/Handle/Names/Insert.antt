-- ===== src/Handle/Names/Insert.antt =====
-- `HandleNamehandle`: a new name is inserted in its place; a name that exists leaves the lock held.
use skynet_cpp.Prelude.{
  ℕ, ◌*◌, ◌≤◌, ◌<◌, leb, ◌≡◌, ◌≢◌, refl, sym, ◌∙◌, ◌⊎◌, inl, inr, true, false, List, [], ◌++◌,
  length, get_or, replicate, length-append, length-replicate, get_or-append_left, arith, Bool-cases,
}
use skynet_cpp.Prelude.Run.{ok, fault, deadlock}
use skynet_cpp.Handle.Storage.{Storage, HandleName, blank, max_slot_size}
use skynet_cpp.Handle.Names.{
  Place, found, missing, place_of, find_name, reserve_name, insert_at, name_handle,
}
use skynet_cpp.Handle.Names.Find.{
  IsValid, Answers, place_of-Answers, Holds, Absent, missing_absent, find_name_lem, find_name-Holds,
  find_name-Absent,
}
use skynet_cpp.Handle.Names.Shift.{
  insert_at-IsValid, Holds-insert_at_self, Holds-insert_at, Absent-insert_at,
}

-- The vector that the name is written into: with room for one more, and with the old names.
reserve_name_lem :
    (s : Storage)
    → IsValid s
    → (s.name_count < length s.name) ⊎ (length s.name * 2 ≤ max_slot_size)
    → (names : List HandleName) × (reserve_name s ≡ ok names)
      × (s.name_count < length names)
      × ((k : ℕ) → k < s.name_count → get_or names k blank ≡ get_or s.name k blank)
unfolding reserve_name
reserve_name_lem s v fits = elim (Bool-cases (leb (length s.name) s.name_count)) [
  | inl full ↦
      let small : leb (length s.name * 2) max_slot_size ≡ true = ground (arith, fits) in
      (
        s.name ++ replicate (length s.name) blank,
        rw (full, small),
        omega (
          arith,
          v.room,
          v.nonempty,
          length-append s.name (replicate (length s.name) blank),
          length-replicate (length s.name) blank,
        ),
        λ k lt.
            get_or-append_left s.name (replicate (length s.name) blank) k blank
              (omega (arith, v.room)),
      )
  | inr room ↦ (s.name, rw room, ground arith, (λ k lt. refl))
]

name_handle-missing :
    (s : Storage) (handle b : ℕ) (name : List ℕ) (names : List HandleName)
    → s.locked ≡ false
    → place_of s name ≡ ok (missing b)
    → reserve_name s ≡ ok names
    → name_handle s handle name ≡ ok (name, insert_at s name handle b names)
unfolding name_handle
name_handle-missing s handle b name names open_ e f = ground arith

name_handle-found :
    (s : Storage) (handle m : ℕ) (name : List ℕ)
    → s.locked ≡ false
    → place_of s name ≡ ok (found m)
    → name_handle s handle name ≡ ok ([], record s { locked = true })
unfolding name_handle
name_handle-found s handle m name open_ e = ground arith

-- A name that is not in the table is added: the call returns it, the table stays valid and unlocked,
-- the name is found with its handle, and every other name is found as before. Room is needed, in the
-- vector or by doubling it within the limit.
pub record Named (s : Storage) (handle : ℕ) (name : List ℕ) : Type 0 where
  pub table : Storage
  pub result : name_handle s handle name ≡ ok (name, table)
  pub valid : IsValid table
  pub unlocked : table.locked ≡ false
  pub self : find_name table name ≡ ok handle
  pub others : (other : List ℕ) → other ≢ name → find_name table other ≡ find_name s other

-- Giving a name that is absent from a valid, unlocked storage whose vector has room or may be
-- doubled returns the name, and leaves a valid, unlocked storage: the name is found with its handle,
-- every other name is found as before.
pub name_handle_new :
    (s : Storage) (handle : ℕ) (name : List ℕ)
    → IsValid s
    → s.locked ≡ false
    → Absent s name
    → (s.name_count < length s.name) ⊎ (length s.name * 2 ≤ max_slot_size)
    → Named s handle name
name_handle_new s handle name v open_ absent fits =
    let (place, run, answer) = place_of-Answers s name v in
    let (names, grown, room, same) = reserve_name_lem s v fits in
    conclude names grown room same place run answer
  where
    conclude :
        (names : List HandleName)
        → reserve_name s ≡ ok names
        → s.name_count < length names
        → ((k : ℕ) → k < s.name_count → get_or names k blank ≡ get_or s.name k blank)
        → (place : Place) → place_of s name ≡ ok place
        → Answers s.name_count s.name name place
        → Named s handle name
    conclude names grown room same (found m) run (lt, e) = absurd (absent m lt e)
    conclude names grown room same (missing b) run answer =
        let t = insert_at s name handle b names in
        let valid = insert_at-IsValid s name handle b names v room same answer in
        let free : t.locked ≡ false = unfold insert_at in open_ in
        record {
          table = insert_at s name handle b names;
          result = name_handle-missing s handle b name names open_ run grown;
          valid = valid;
          unlocked = free;
          self =
              find_name-Holds t name valid free handle
                (Holds-insert_at_self s name handle b names v room same answer);
          others = λ other ne. elim (find_name_lem s other v open_) [
            | inl (h, found_, holds) ↦
                find_name-Holds t other valid free h
                  (Holds-insert_at s name handle b names v room same answer other h holds)
                ∙ sym found_
            | inr (gone, none_) ↦
                find_name-Absent t other valid free
                  (Absent-insert_at s name handle b names v room same answer other ne none_)
                ∙ sym gone
          ];
        }

-- On a valid, unlocked storage, HandleNamehandle of a name that exists returns the empty text with
-- the lock held; a later call to find or to give a name never returns.
pub name_handle_again :
    (s : Storage) (handle h : ℕ) (name other : List ℕ)
    → IsValid s
    → s.locked ≡ false
    → Holds s name h
    → (t : Storage) × (name_handle s handle name ≡ ok ([], t))
      × (find_name t other ≡ fault deadlock)
      × (name_handle t handle other ≡ fault deadlock)
unfolding find_name name_handle
name_handle_again s handle h name other v open_ (i, lt, e, f) =
    let (place, run, answer) = place_of-Answers s name v in conclude place run answer
  where
    conclude :
        (place : Place)
        → place_of s name ≡ ok place
        → Answers s.name_count s.name name place
        → (t : Storage) × (name_handle s handle name ≡ ok ([], t))
          × (find_name t other ≡ fault deadlock)
          × (name_handle t handle other ≡ fault deadlock)
    conclude (found m) run answer =
        (record s { locked = true }, name_handle-found s handle m name open_ run, refl, refl)
    conclude (missing b) run answer =
        absurd (missing_absent s.name_count s.name name b answer i lt e)

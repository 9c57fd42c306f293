-- ===== src/Gate/Hashid.antt =====
-- service-src/hashid.h: the table of the connections of the gate. A `hashid_node *` is the place of the
-- node in the vector `id`. An `int` is its pattern below 2 ^ 32; the capacity is one that is not negative.
pub mod Chains
use Prim.Native.Nat.{bit_and}
use skynet_cpp.Prelude.{
  ℕ, zero, suc, ◌+◌, ◌-◌, ◌*◌, ◌%◌, ◌^◌, ◌==◌, ltb, leb, if◌then◌else◌, Bool, true, false, Option,
  none, some, List, [], ◌∷◌, ◌++◌, get_or, set, take, length, replicate,
}
use skynet_cpp.Prelude.Run.{
  Run, ok, fault, no_fuel, out_of_bounds, signed_overflow, assert, ◌>>=◌, ◌>>◌,
}

abbrev pub minus_one : ℕ
minus_one = 2 ^ 32 - 1

pub record HashidNode : Type 0 where
  pub id : ℕ
  pub next : Option ℕ

pub record Hashid : Type 0 where
  pub hashmod : ℕ
  pub cap : ℕ
  pub count : ℕ
  pub id : List HashidNode
  pub hash : List (Option ℕ)

abbrev pub free_node : HashidNode
free_node = record { id = minus_one; next = none }

-- a node of the vector
abbrev pub node_at : Hashid → ℕ → HashidNode
node_at hi k = get_or hi.id k free_node

-- `while (hashcap < max) hashcap *= 2`, with the rounds left
unfoldable pub hashcap_for : ℕ → ℕ → ℕ → ℕ
hashcap_for zero hashcap max = hashcap
hashcap_for (suc n) hashcap max =
    let rest = hashcap_for n (hashcap * 2) max in if ltb hashcap max then rest else hashcap

-- `std::vector::resize`
abbrev pub resize {ℓ} : {A : Type ℓ} → ℕ → A → List A → List A
resize n a xs = take n xs ++ replicate (n - length xs) a

-- Every node of `id` is overwritten.
unfoldable pub hashid_init : Hashid → ℕ → Hashid
hashid_init hi max =
    let hashcap = hashcap_for 28 16 max in
    record {
      hashmod = hashcap - 1;
      cap = max;
      count = 0;
      id = replicate max free_node;
      hash = resize hashcap none hi.hash;
    }

abbrev pub hashid_clear : Hashid → Hashid
hashid_clear hi = record { hashmod = 1; cap = 0; count = 0; id = []; hash = [] }

abbrev pub bucket : Hashid → ℕ → ℕ
bucket hi id = bit_and id hi.hashmod

-- The loop of `hashid_lookup`: the comparison with the id is commented out.
unfoldable pub lookup_loop : ℕ → Hashid → Option ℕ → Run ℕ
lookup_loop zero hi c = fault no_fuel
lookup_loop (suc fuel) hi none = ok minus_one
lookup_loop (suc fuel) hi (some k) = lookup_loop fuel hi (node_at hi k).next

-- A chain has at most `cap` nodes.
unfoldable pub hashid_lookup : Hashid → ℕ → Run ℕ
hashid_lookup hi id = lookup_loop (hi.cap + 1) hi (get_or hi.hash (bucket hi id) none)

-- `_clear`
abbrev pub clear_node : Hashid → ℕ → Hashid
clear_node hi k = record hi { id = set hi.id k free_node; count = (hi.count + 2 ^ 32 - 1) % 2 ^ 32 }

-- the loop over the nodes behind `c`
unfoldable pub remove_loop : ℕ → Hashid → ℕ → ℕ → Run Hashid
remove_loop zero hi id c = fault no_fuel
remove_loop (suc fuel) hi id c = elim (node_at hi c).next [
  | none ↦ ok hi
  | some t ↦
      let rest = remove_loop fuel hi id t in
      let linked = record hi {
        id = set hi.id c (record (node_at hi c) { next = (node_at hi t).next });
      } in
      if (node_at hi t).id == id then ok (clear_node linked t) else rest
]

-- The result is -1 in all cases.
unfoldable pub hashid_remove : Hashid → ℕ → Run (ℕ × Hashid)
hashid_remove hi id =
    let h = bucket hi id in
    elim (get_or hi.hash h none) [
      | none ↦ ok (minus_one, hi)
      | some c ↦
          let linked = record hi { hash = set hi.hash h (node_at hi c).next } in
          let later : Run (ℕ × Hashid) =
            remove_loop (hi.cap + 1) hi id c >>= λ hi'. ok (minus_one, hi') in
          if (node_at hi c).id == id then ok (minus_one, clear_node linked c) else later
    ]

-- `(i + id) % hi->cap` as an index. The sum is an `int`: the remainder of a negative sum is negative or 0.
unfoldable pub index_of : ℕ → ℕ → ℕ → Run ℕ
index_of i id cap =
    let sum = i + id in
    if ltb id (2 ^ 31)
    then (if ltb sum (2 ^ 31) then ok (sum % cap) else fault signed_overflow)
    else if leb (2 ^ 32) sum
    then ok ((sum - 2 ^ 32) % cap)
    else if (2 ^ 32 - sum) % cap == 0
    then ok 0
    else fault out_of_bounds

-- the `for` loop of `hashid_insert`, with the rounds left: the free node
unfoldable pub find_free : ℕ → ℕ → Hashid → ℕ → Run (Option ℕ)
find_free zero i hi id = ok none
find_free (suc n) i hi id =
    let rest = find_free n (i + 1) hi id in
    index_of i id hi.cap >>= λ index.
    if (node_at hi index).id == minus_one then ok (some index) else rest

abbrev pub is_none : Option ℕ → Bool
is_none none = true
is_none (some k) = false

-- the node that `hashid_insert` writes, in front of the chain
abbrev pub link_node : Hashid → ℕ → ℕ → Hashid
link_node hi id c =
    let h = bucket hi id in
    let first = get_or hi.hash h none in
    let next = if is_none first then (node_at hi c).next else first in
    record hi {
      count = (hi.count + 1) % 2 ^ 32;
      id = set hi.id c (record { id = id; next = next });
      hash = set hi.hash h (some c);
    }

unfoldable pub hashid_insert : Hashid → ℕ → Run (ℕ × Hashid)
hashid_insert hi id = find_free hi.cap 0 hi id >>= λ found. elim found [
  | none ↦ assert false >> ok (minus_one, hi)
  | some c ↦ assert (is_none (node_at hi c).next) >> ok (minus_one, link_node hi id c)
]

abbrev pub hashid_full : Hashid → Bool
hashid_full hi = hi.count == hi.cap

-- ===== src/Gate/Hashid/Chains.antt =====
-- The chains of the table in service-src/hashid.h: an insertion puts one node in front of one chain.
use mathlib.Core.Path.{subst}
use native.Mathlib.Nat.{mod-lt, one-le-pow}
use native.Mathlib.Decide.{ℕ_discrete}
use skynet_cpp.Prelude.{
  ℕ, zero, suc, ◌+◌, ◌-◌, ◌%◌, ◌^◌, ◌≤◌, ◌<◌, ◌==◌, ltb, leb, if◌then◌else◌, ◌≡◌, ◌≢◌, refl, sym,
  ap, ◌∙◌, ◌⊎◌, inl, inr, true, false, Option, none, some, List, [], ◌∷◌, get_or, set, length,
  get_or-set_self, get_or-set_ne, length-set, arith, Bool-cases,
}
use skynet_cpp.Prelude.Bits.{bit_and-mask}
use skynet_cpp.Prelude.Run.{Fault, Run, Run-cases, ok, fault, assertion}
use skynet_cpp.Prelude.Run.Ensures.{Ensures, Ensures-ok, Ensures-fault, Ensures-if, Ensures-bind}
use skynet_cpp.Gate.Hashid.{
  Hashid, HashidNode, minus_one, free_node, node_at, bucket, lookup_loop, hashid_lookup, index_of,
  find_free, is_none, link_node, hashid_insert,
}

-- the nodes that hang on a pointer, in order; each is in use and within the vector
abbrev pub Chain : Hashid → Option ℕ → List ℕ → Type 0
Chain hi none [] = Unit {0}
Chain hi none (j ∷ ks) = ⊥
Chain hi (some k) [] = ⊥
Chain hi (some k) (j ∷ ks) =
    (k ≡ j) × (k < hi.cap) × ((node_at hi k).id ≢ minus_one) × Chain hi (node_at hi k).next ks

-- Each bucket has its chain, and a free node has no successor.
pub record IsValid (hi : Hashid) (ks : ℕ → List ℕ) : Type 0 where
  pub log_size : ℕ
  pub mask : hi.hashmod ≡ 2 ^ log_size - 1
  pub nodes : length hi.id ≡ hi.cap
  pub buckets : length hi.hash ≡ 2 ^ log_size
  pub chains : (h : ℕ) → Chain hi (get_or hi.hash h none) (ks h)
  pub free : (k : ℕ) → (node_at hi k).id ≡ minus_one → (node_at hi k).next ≡ none

abbrev Any : Fault → Type 0
Any e = Unit {0}

-- An index that is computed at all lies within the vector.
index_of-lt : (i id cap : ℕ) → 0 < cap → Ensures Any (λ k. k < cap) (index_of i id cap)
unfolding index_of
index_of-lt i id cap pos =
    Ensures-if (ltb id (2 ^ 31))
      (λ small.
        Ensures-if (ltb (i + id) (2 ^ 31)) (λ fits. Ensures-ok (mod-lt (i + id) pos))
          (λ over. Ensures-fault tt))
      (λ negative.
        Ensures-if (leb (2 ^ 32) (i + id)) (λ back. Ensures-ok (mod-lt (i + id - 2 ^ 32) pos))
          (λ below.
            Ensures-if ((2 ^ 32 - (i + id)) % cap == 0) (λ first. Ensures-ok pos)
              (λ outside. Ensures-fault tt)))

index_of-small : (i id cap : ℕ) → i + id < 2 ^ 31 → index_of i id cap ≡ ok ((i + id) % cap)
unfolding index_of
index_of-small i id cap small =
    let positive : ltb id (2 ^ 31) ≡ true = ground arith in
    let fits : ltb (i + id) (2 ^ 31) ≡ true = ground arith in rw (positive, fits) refl

-- What the search returns, if it does: nothing, or a free node of the vector.
abbrev IsFreeNode : Hashid → Option ℕ → Type 0
IsFreeNode hi none = Unit {0}
IsFreeNode hi (some c) = c < hi.cap × ((node_at hi c).id ≡ minus_one)

find_free-free :
    (n i : ℕ) (hi : Hashid) (id : ℕ)
    → 0 < hi.cap
    → Ensures Any (λ o. IsFreeNode hi o) (find_free n i hi id)
unfolding find_free
find_free-free zero i hi id pos = Ensures-ok tt
find_free-free (suc n) i hi id pos = Ensures-bind (index_of-lt i id hi.cap pos) (λ k below.
    Ensures-if ((node_at hi k).id == minus_one) (λ on. Ensures-ok (below, ground (arith, on)))
      (λ off. find_free-free n (i + 1) hi id pos))

-- The search of an id that is not negative, with room below 2 ^ 31, stays within the vector.
find_free-runs :
    (n i : ℕ) (hi : Hashid) (id : ℕ)
    → i + n + id < 2 ^ 31
    → (o : Option ℕ) × (find_free n i hi id ≡ ok o)
unfolding find_free
find_free-runs zero i hi id small = (none, refl)
find_free-runs (suc n) i hi id small =
    let index = (i + id) % hi.cap in
    let here = index_of-small i id hi.cap (omega arith) in
    let (o, e) = find_free-runs n (i + 1) hi id (omega arith) in
    elim (Bool-cases ((node_at hi index).id == minus_one)) [
      | inl on ↦ (some index, rw (here, on) refl)
      | inr off ↦ (o, rw (here, off) e)
    ]

-- A chain does not see a write to a free node.
Chain-write :
    (hi : Hashid) (c : ℕ) (x : HashidNode) (hash : List (Option ℕ)) (count : ℕ)
    → c < length hi.id
    → (node_at hi c).id ≡ minus_one
    → (o : Option ℕ) (ks : List ℕ) → Chain hi o ks
    → Chain (record hi { id = set hi.id c x; hash = hash; count = count }) o ks
Chain-write hi c x hash count lt unused none [] v = tt
Chain-write hi c x hash count lt unused none (j ∷ ks) v = v
Chain-write hi c x hash count lt unused (some k) [] v = v
Chain-write hi c x hash count lt unused (some k) (j ∷ ks) (e, below, used, rest) =
    let ne : k ≢ c = λ same. used (ap (λ i. (node_at hi i).id) same ∙ unused) in
    let kept : get_or (set hi.id c x) k free_node ≡ node_at hi k =
      get_or-set_ne hi.id c k x free_node (λ e. ne (sym e)) in
    (
      e,
      below,
      rw kept used,
      rw kept (Chain-write hi c x hash count lt unused (node_at hi k).next ks rest),
    )

-- the chains after an insertion
abbrev pub longer : (ℕ → List ℕ) → ℕ → ℕ → ℕ → List ℕ
longer ks b c h = if h == b then c ∷ ks h else ks h

bucket-lt : (hi : Hashid) (ks : ℕ → List ℕ) (id : ℕ) → IsValid hi ks → bucket hi id < length hi.hash
bucket-lt hi ks id v =
    rw (v.mask, v.buckets, bit_and-mask v.log_size id)
      (mod-lt id (one-le-pow v.log_size 2 (omega arith)))

-- the node in front, whatever the chain
link_node-first :
    (hi : Hashid) (c : ℕ) (o : Option ℕ)
    → (node_at hi c).next ≡ none
    → (if is_none o then (node_at hi c).next else o) ≡ o
link_node-first hi c none e = e
link_node-first hi c (some k) e = refl

module _ (hi : Hashid) (ks : ℕ → List ℕ) (id c : ℕ) (v : IsValid hi ks) (named : id ≢ minus_one)
    (inside : c < hi.cap) (unused : (node_at hi c).id ≡ minus_one) where
  abbrev linked : Hashid
  linked = link_node hi id c

  room : c < length hi.id
  room = rw v.nodes inside

  written : node_at linked c ≡ record { id = id; next = get_or hi.hash (bucket hi id) none }
  written =
      get_or-set_self hi.id c
        (record {
          id = id;
          next =
              if is_none (get_or hi.hash (bucket hi id) none)
              then (node_at hi c).next
              else get_or hi.hash (bucket hi id) none;
        })
        free_node room
      ∙ ap (λ o. record { id = id; next = o })
          (link_node-first hi c (get_or hi.hash (bucket hi id) none) (v.free c unused))

  -- what hung on a pointer before hangs on it still
  linked-kept : (o : Option ℕ) (ms : List ℕ) → Chain hi o ms → Chain linked o ms
  linked-kept o ms h =
      let first = get_or hi.hash (bucket hi id) none in
      Chain-write hi c
        (record { id = id; next = if is_none first then (node_at hi c).next else first })
        (set hi.hash (bucket hi id) (some c)) ((hi.count + 1) % 2 ^ 32) room unused o ms h

  linked_cap : c < linked.cap
  linked_cap = inside

  linked_node_other : (k : ℕ) → k ≢ c → node_at linked k ≡ node_at hi k
  linked_node_other k ne = get_or-set_ne hi.id c k _ free_node (λ e. ne (sym e))

  front-Chain :
      (ms : List ℕ)
      → Chain hi (get_or hi.hash (bucket hi id) none) ms
      → Chain linked (some c) (c ∷ ms)
  front-Chain ms h = (
    refl,
    linked_cap,
    (λ e. named (sym (ap (λ n. n.id) written) ∙ e)),
    rw written (linked-kept (get_or hi.hash (bucket hi id) none) ms h),
  )

  linked_hash_self : get_or linked.hash (bucket hi id) none ≡ some c
  linked_hash_self = get_or-set_self hi.hash (bucket hi id) (some c) none (bucket-lt hi ks id v)

  linked_hash_other : (h : ℕ) → h ≢ bucket hi id → get_or linked.hash h none ≡ get_or hi.hash h none
  linked_hash_other h ne = get_or-set_ne hi.hash (bucket hi id) h (some c) none (λ e. ne (sym e))

  linked-Chain : (h : ℕ) → Chain linked (get_or linked.hash h none) (longer ks (bucket hi id) c h)
  linked-Chain h = elim (ℕ_discrete h (bucket hi id)) [
    | yes e ↦
        let on : (h == bucket hi id) ≡ true = ground arith in
        let hung : Chain hi (get_or hi.hash (bucket hi id) none) (ks h) =
          subst (λ j. Chain hi (get_or hi.hash j none) (ks h)) e (v.chains h) in
        let first : get_or linked.hash h none ≡ some c =
          ap (λ j. get_or linked.hash j none) e ∙ linked_hash_self in
        rw (on, first) (front-Chain (ks h) hung)
    | no ne ↦
        let off : (h == bucket hi id) ≡ false = ground arith in
        rw (off, linked_hash_other h ne) (linked-kept (get_or hi.hash h none) (ks h) (v.chains h))
  ]

  linked-free : (k : ℕ) → (node_at linked k).id ≡ minus_one → (node_at linked k).next ≡ none
  linked-free k e = elim (ℕ_discrete k c) [
    | yes same ↦ absurd (named (sym (ap (λ n. n.id) written) ∙ (rw same at e)))
    | no ne ↦
        let kept = linked_node_other k ne in
        ap (λ n. n.next) kept ∙ v.free k (sym (ap (λ n. n.id) kept) ∙ e)
  ]

  linked-IsValid : IsValid linked (longer ks (bucket hi id) c)
  linked-IsValid = record {
    log_size = v.log_size;
    mask = v.mask;
    nodes = length-set hi.id c _ ∙ v.nodes;
    buckets = length-set hi.hash (bucket hi id) (some c) ∙ v.buckets;
    chains = linked-Chain;
    free = linked-free;
  }

hashid_insert-none :
    (hi : Hashid) (id : ℕ)
    → find_free hi.cap 0 hi id ≡ ok none
    → hashid_insert hi id ≡ fault assertion
unfolding hashid_insert
hashid_insert-none hi id e = rw (hashid_insert, e) refl

hashid_insert-some :
    (hi : Hashid) (id c : ℕ)
    → find_free hi.cap 0 hi id ≡ ok (some c)
    → (node_at hi c).next ≡ none
    → hashid_insert hi id ≡ ok (minus_one, link_node hi id c)
unfolding hashid_insert
hashid_insert-some hi id c e f = rw (hashid_insert, e, f) refl

-- What an insertion has done: it returned -1 for the free node that it took, which hangs in front of the
-- chain of its bucket and has the id; all other chains are as before.
pub record Inserted (hi : Hashid) (ks : ℕ → List ℕ) (id : ℕ) (out : Run (ℕ × Hashid)) : Type 0 where
  pub place : ℕ
  pub after : Hashid
  pub result : out ≡ ok (minus_one, after)
  pub valid : IsValid after (longer ks (bucket hi id) place)
  pub was_free : (node_at hi place).id ≡ minus_one
  pub same_id : (node_at after place).id ≡ id

hashid_insert-found :
    (hi : Hashid) (ks : ℕ → List ℕ) (id : ℕ) (o : Option ℕ)
    → IsValid hi ks
    → id ≢ minus_one
    → find_free hi.cap 0 hi id ≡ ok o
    → IsFreeNode hi o
    → ((o ≡ none) × (hashid_insert hi id ≡ fault assertion))
      ⊎ Inserted hi ks id (hashid_insert hi id)
hashid_insert-found hi ks id none v named e h = inl (refl, hashid_insert-none hi id e)
hashid_insert-found hi ks id (some c) v named e (inside, unused) = inr (record {
  place = c;
  after = link_node hi id c;
  result = hashid_insert-some hi id c e (v.free c unused);
  valid = linked-IsValid hi ks id c v named inside unused;
  was_free = unused;
  same_id = ap (λ n. n.id) (written hi ks id c v named inside unused);
})

find_free-IsFreeNode :
    (hi : Hashid) (id : ℕ) (o : Option ℕ)
    → 0 < hi.cap
    → find_free hi.cap 0 hi id ≡ ok o
    → IsFreeNode hi o
find_free-IsFreeNode hi id o pos e =
    (subst (Ensures Any (λ p. IsFreeNode hi p)) e (find_free-free hi.cap 0 hi id pos)).holds

-- On a valid table with a capacity, hashid_insert of an id whose sum with the capacity is below 2 ^
-- 31, so that it is not negative, either fails its assertion, since its search meets no free node,
-- or puts the id into a free node in front of the chain of its bucket, keeps the table valid and all
-- other chains, and returns -1, not the place of the node.
pub hashid_insert-cases :
    (hi : Hashid) (ks : ℕ → List ℕ) (id : ℕ)
    → IsValid hi ks
    → 0 < hi.cap
    → id + hi.cap < 2 ^ 31
    → ((find_free hi.cap 0 hi id ≡ ok none) × (hashid_insert hi id ≡ fault assertion))
      ⊎ Inserted hi ks id (hashid_insert hi id)
hashid_insert-cases hi ks id v pos small =
    let (o, e) = find_free-runs hi.cap 0 hi id (omega arith) in
    let named : id ≢ minus_one = λ same. omega (arith, same) in
    elim (hashid_insert-found hi ks id o v named e (find_free-IsFreeNode hi id o pos e)) [
      | inl (nothing, stops) ↦ inl (e ∙ ap (λ p. ok p) nothing, stops)
      | inr done ↦ inr done
    ]

hashid_insert-fault :
    (hi : Hashid) (id : ℕ) (f : Fault)
    → find_free hi.cap 0 hi id ≡ fault f
    → hashid_insert hi id ≡ fault f
unfolding hashid_insert
hashid_insert-fault hi id f e = rw (hashid_insert, e) refl

-- An insertion of any id but -1 stops, or returns -1.
pub hashid_insert-any :
    (hi : Hashid) (ks : ℕ → List ℕ) (id : ℕ)
    → IsValid hi ks
    → 0 < hi.cap
    → id ≢ minus_one
    → ((f : Fault) × (hashid_insert hi id ≡ fault f))
      ⊎ ((after : Hashid) × (hashid_insert hi id ≡ ok (minus_one, after)))
hashid_insert-any hi ks id v pos named = elim (Run-cases (find_free hi.cap 0 hi id)) [
  | inr (f, e) ↦ inl (f, hashid_insert-fault hi id f e)
  | inl (o, e) ↦
      elim (hashid_insert-found hi ks id o v named e (find_free-IsFreeNode hi id o pos e)) [
        | inl (nothing, stops) ↦ inl (assertion, stops)
        | inr done ↦ inr (done.after, done.result)
      ]
]

lookup_loop-Chain :
    (fuel : ℕ) (hi : Hashid) (o : Option ℕ) (ms : List ℕ)
    → Chain hi o ms
    → length ms < fuel
    → lookup_loop fuel hi o ≡ ok minus_one
unfolding lookup_loop
lookup_loop-Chain zero hi o ms h lt = absurd (omega (arith, lt))
lookup_loop-Chain (suc fuel) hi none ms h lt = refl
lookup_loop-Chain (suc fuel) hi (some k) [] h lt = absurd h
lookup_loop-Chain (suc fuel) hi (some k) (j ∷ ms) (e, below, used, rest) lt =
    lookup_loop-Chain fuel hi (node_at hi k).next ms rest (omega arith)

-- A lookup ends, and finds nothing, whatever the chain holds.
pub hashid_lookup_lem :
    (hi : Hashid) (ks : ℕ → List ℕ) (id : ℕ)
    → IsValid hi ks
    → length (ks (bucket hi id)) ≤ hi.cap
    → hashid_lookup hi id ≡ ok minus_one
unfolding hashid_lookup
hashid_lookup_lem hi ks id v few =
    lookup_loop-Chain (hi.cap + 1) hi (get_or hi.hash (bucket hi id) none) (ks (bucket hi id))
      (v.chains (bucket hi id)) (omega arith)

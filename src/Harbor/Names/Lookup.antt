-- ===== src/Harbor/Names/Lookup.antt =====
-- The map of global names in service-src/service_harbor.cpp: a change of the handle of a name is seen by
-- lookups of that name and by no others.
use skynet_cpp.Prelude.{
  ℕ, zero, suc, ◌%◌, ◌==◌, if◌then◌else◌, ◌≡◌, refl, sym, ap, ◌∙◌, inl, inr, ◌&&◌, Bool, true,
  false, Option, none, some, List, [], ◌∷◌, take, arith, Bool-cases, Option-cases,
}
use skynet_cpp.Harbor.Queue.{Queue}
use skynet_cpp.Harbor.Slave.{HarborMsg}
use skynet_cpp.Harbor.Names.{
  KeyValue, HashMap, global_name_length, hash_size, hash_of_name, same_name, is_key, search_bucket,
  hash_search, fresh_node, hash_insert, change_bucket, change_node, node_of,
}

same_name_refl : (n : ℕ) (a : List ℕ) → same_name n a a ≡ true
same_name_refl zero a = refl
same_name_refl (suc n) [] = refl
same_name_refl (suc n) (x ∷ a) = let rest = same_name_refl n a in ground arith

-- Two names that a third one matches match each other.
same_name-euclid :
    (n : ℕ) (k a b : List ℕ)
    → same_name n k a ≡ true
    → same_name n k b ≡ true
    → same_name n a b ≡ true
same_name-euclid zero k a b p q = refl
same_name-euclid (suc n) [] [] b p q = q
same_name-euclid (suc n) [] (x ∷ a) [] p q = p
same_name-euclid (suc n) [] (x ∷ a) (y ∷ b) p q = ground arith
same_name-euclid (suc n) (z ∷ k) [] [] p q = refl
same_name-euclid (suc n) (z ∷ k) [] (y ∷ b) p q = ground arith
same_name-euclid (suc n) (z ∷ k) (x ∷ a) [] p q = ground arith
same_name-euclid (suc n) (z ∷ k) (x ∷ a) (y ∷ b) p q =
    let rest : same_name n k a ≡ true → same_name n k b ≡ true → same_name n a b ≡ true =
      same_name-euclid n k a b in
    ground arith

same_name-take : (n : ℕ) (a b : List ℕ) → same_name n (take n a) b ≡ same_name n a b
same_name-take zero a b = refl
same_name-take (suc n) [] b = refl
same_name-take (suc n) (x ∷ a) [] = refl
same_name-take (suc n) (x ∷ a) (y ∷ b) = rw (same_name-take n a b) refl

search_bucket-hit :
    (node : KeyValue) (nodes : List KeyValue) (name : List ℕ)
    → is_key name node ≡ true
    → search_bucket (node ∷ nodes) name ≡ some node
unfolding search_bucket
search_bucket-hit node nodes name e = rw e refl

search_bucket-miss :
    (node : KeyValue) (nodes : List KeyValue) (name : List ℕ)
    → is_key name node ≡ false
    → search_bucket (node ∷ nodes) name ≡ search_bucket nodes name
unfolding search_bucket
search_bucket-miss node nodes name e = rw e refl

change_bucket-hit :
    (node : KeyValue) (nodes : List KeyValue) (name : List ℕ) (value : ℕ)
    (queue : Option (Queue HarborMsg))
    → is_key name node ≡ true
    → change_bucket (node ∷ nodes) name value queue
      ≡ record node { value = value; queue = queue } ∷ nodes
unfolding change_bucket
change_bucket-hit node nodes name value queue e = rw e refl

change_bucket-miss :
    (node : KeyValue) (nodes : List KeyValue) (name : List ℕ) (value : ℕ)
    (queue : Option (Queue HarborMsg))
    → is_key name node ≡ false
    → change_bucket (node ∷ nodes) name value queue ≡ node ∷ change_bucket nodes name value queue
unfolding change_bucket
change_bucket-miss node nodes name value queue e = rw e refl

search_bucket-nil : (name : List ℕ) (node : KeyValue) → search_bucket [] name ≡ some node → ⊥
unfolding search_bucket
search_bucket-nil name node e = cc e

change_bucket-nil :
    (name other : List ℕ) (value : ℕ) (queue : Option (Queue HarborMsg))
    → search_bucket (change_bucket [] name value queue) other ≡ search_bucket [] other
unfolding change_bucket
change_bucket-nil name other value queue = refl

search_bucket-congr :
    (x : KeyValue) (other : List ℕ) (nodes changed : List KeyValue)
    → search_bucket changed other ≡ search_bucket nodes other
    → search_bucket (x ∷ changed) other ≡ search_bucket (x ∷ nodes) other
unfolding search_bucket
search_bucket-congr x other nodes changed e = ap (λ o. if is_key other x then some x else o) e

-- The change is seen by a search of the same name.
search_bucket-changed :
    (nodes : List KeyValue) (name : List ℕ) (value : ℕ) (queue : Option (Queue HarborMsg))
    (node : KeyValue)
    → search_bucket nodes name ≡ some node
    → search_bucket (change_bucket nodes name value queue) name
      ≡ some (record node { value = value; queue = queue })
search_bucket-changed [] name value queue node e = absurd (search_bucket-nil name node e)
search_bucket-changed (x ∷ nodes) name value queue node e = elim (Bool-cases (is_key name x)) [
  | inl hit ↦
      let same : some x ≡ some node = sym (search_bucket-hit x nodes name hit) ∙ e in
      rw (change_bucket-hit x nodes name value queue hit) (
        search_bucket-hit (record x { value = value; queue = queue }) nodes name hit
        ∙ ap
            (λ o. elim o [
              | none ↦ none
              | some k ↦ some (record k { value = value; queue = queue })
            ])
            same)
  | inr miss ↦ rw (change_bucket-miss x nodes name value queue miss) (
      search_bucket-miss x (change_bucket nodes name value queue) name miss
      ∙ search_bucket-changed nodes name value queue node
          (sym (search_bucket-miss x nodes name miss) ∙ e))
]

-- A node of one name is no node of a name that differs.
is_key-other :
    (name other : List ℕ) (node : KeyValue)
    → same_name global_name_length name other ≡ false
    → is_key name node ≡ true
    → is_key other node ≡ false
is_key-other name other node differ e = elim (Bool-cases (is_key other node)) [
  | inr apart ↦ apart
  | inl both ↦
      let p : same_name global_name_length node.key name ≡ true =
        right (node.hash == hash_of_name name) _ e in
      let q : same_name global_name_length node.key other ≡ true =
        right (node.hash == hash_of_name other) _ both in
      absurd (
        clash (same_name global_name_length name other)
          (same_name-euclid global_name_length node.key name other p q) differ)
]
  where
    right : (a b : Bool) → (a && b) ≡ true → b ≡ true
    right true b e = e
    right false b e = absurd (cc e)

    clash : (b : Bool) → b ≡ true → b ≡ false → ⊥
    clash b p q = cc (p, q)

search_bucket-other :
    (nodes : List KeyValue) (name other : List ℕ) (value : ℕ) (queue : Option (Queue HarborMsg))
    → same_name global_name_length name other ≡ false
    → search_bucket (change_bucket nodes name value queue) other ≡ search_bucket nodes other
search_bucket-other [] name other value queue differ = change_bucket-nil name other value queue
search_bucket-other (x ∷ nodes) name other value queue differ = elim (Bool-cases (is_key name x)) [
  | inl hit ↦
      let off = is_key-other name other x differ hit in
      rw (change_bucket-hit x nodes name value queue hit) (
        search_bucket-miss (record x { value = value; queue = queue }) nodes other off
        ∙ sym (search_bucket-miss x nodes other off))
  | inr miss ↦ rw (change_bucket-miss x nodes name value queue miss) (
      search_bucket-congr x other nodes (change_bucket nodes name value queue)
        (search_bucket-other nodes name other value queue differ))
]

-- In the map the changed bucket is the one of the name.
hash_search-changed :
    (map : HashMap) (name : List ℕ) (value : ℕ) (queue : Option (Queue HarborMsg)) (node : KeyValue)
    → hash_search map name ≡ some node
    → hash_search (change_node map name value queue) name
      ≡ some (record node { value = value; queue = queue })
unfolding hash_search change_node
hash_search-changed map name value queue node e =
    let i = hash_of_name name % hash_size in
    let on : (i == i) ≡ true = ground arith in
    rw on (search_bucket-changed (map i) name value queue node e)

hash_search-other :
    (map : HashMap) (name other : List ℕ) (value : ℕ) (queue : Option (Queue HarborMsg))
    → same_name global_name_length name other ≡ false
    → hash_search (change_node map name value queue) other ≡ hash_search map other
unfolding hash_search change_node
hash_search-other map name other value queue differ =
    let i = hash_of_name name % hash_size in
    let j = hash_of_name other % hash_size in
    elim (Bool-cases (j == i)) [
      | inl on ↦
          let same : j ≡ i = ground arith in
          rw (on, same) (search_bucket-other (map i) name other value queue differ)
      | inr off ↦ rw off refl
    ]

fresh_node-is_key : (name : List ℕ) → is_key name (fresh_node name) ≡ true
fresh_node-is_key name =
    let on : (hash_of_name name == hash_of_name name) ≡ true = ground arith in
    rw (on, same_name-take global_name_length name name) (same_name_refl global_name_length name)

hash_search-inserted :
    (map : HashMap) (name : List ℕ)
    → hash_search (hash_insert map name) name ≡ some (fresh_node name)
unfolding hash_search hash_insert
hash_search-inserted map name =
    let i = hash_of_name name % hash_size in
    let on : (i == i) ≡ true = ground arith in
    rw on (search_bucket-hit (fresh_node name) (map i) name (fresh_node-is_key name))

hash_search-inserted_other :
    (map : HashMap) (name other : List ℕ)
    → same_name global_name_length name other ≡ false
    → hash_search (hash_insert map name) other ≡ hash_search map other
unfolding hash_search hash_insert
hash_search-inserted_other map name other differ =
    let i = hash_of_name name % hash_size in
    let j = hash_of_name other % hash_size in
    elim (Bool-cases (j == i)) [
      | inl on ↦
          let same : j ≡ i = ground arith in
          rw (on, same)
            (search_bucket-miss (fresh_node name) (map i) other
              (is_key-other name other (fresh_node name) differ (fresh_node-is_key name)))
      | inr off ↦ rw off refl
    ]

pub node_of-new :
    (map : HashMap) (name : List ℕ)
    → hash_search map name ≡ none
    → node_of map name ≡ (fresh_node name, hash_insert map name)
unfolding node_of
node_of-new map name e = rw (node_of, e) refl

pub node_of-known :
    (map : HashMap) (name : List ℕ) (node : KeyValue)
    → hash_search map name ≡ some node
    → node_of map name ≡ (node, map)
unfolding node_of
node_of-known map name node e = rw (node_of, e) refl

-- Finding or making the node of a name leaves it in the map, and all other names as they were.
node_of-found :
    (map : HashMap) (name : List ℕ)
    → hash_search (node_of map name).1 name ≡ some (node_of map name).0
node_of-found map name = elim (Option-cases (hash_search map name)) [
  | inl e ↦ rw (node_of-new map name e) (hash_search-inserted map name)
  | inr (node, e) ↦ rw (node_of-known map name node e) e
]

node_of-other :
    (map : HashMap) (name other : List ℕ)
    → same_name global_name_length name other ≡ false
    → hash_search (node_of map name).1 other ≡ hash_search map other
node_of-other map name other differ = elim (Option-cases (hash_search map name)) [
  | inl e ↦ rw (node_of-new map name e) (hash_search-inserted_other map name other differ)
  | inr (node, e) ↦ rw (node_of-known map name node e) refl
]

-- A write to the node that was found or made.
pub change_node-Lookup :
    (map : HashMap) (name : List ℕ) (value : ℕ) (queue : Option (Queue HarborMsg))
    → (hash_search (change_node (node_of map name).1 name value queue) name
        ≡ some (record (node_of map name).0 { value = value; queue = queue }))
      × ((other : List ℕ)
          → same_name global_name_length name other ≡ false
          → hash_search (change_node (node_of map name).1 name value queue) other
            ≡ hash_search map other)
change_node-Lookup map name value queue = (
  hash_search-changed (node_of map name).1 name value queue (node_of map name).0
      (node_of-found map name),
  (λ other differ.
      hash_search-other (node_of map name).1 name other value queue differ
      ∙ node_of-other map name other differ),
)

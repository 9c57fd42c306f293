-- ===== src/Timer/Place.antt =====
-- Where `AddNode` puts a node, in terms of quotients: the invariant of the wheel.
use Prim.Native.Nat.{bit_or}
use native.Mathlib.Nat.{one-le-pow, mul-div_cancel}
use skynet_cpp.Prelude.{
  ℕ, ◌+◌, ◌-◌, ◌*◌, ◌/◌, ◌%◌, ◌^◌, ◌≤◌, ◌<◌, ◌==◌, if◌then◌else◌, ◌&&◌, ◌≡◌, ◌≢◌, refl, sym, ap,
  ◌∙◌, inl, inr, false, List, [], ◌∷◌, ◌++◌, arith, Bool-cases,
}
use skynet_cpp.Prelude.Bits.{bit_and-mask, bit_or-mask}
use skynet_cpp.Prelude.Run.{ok}
use skynet_cpp.Timer.{
  TimerNode, Timer, put_near, put_level, time_near, time_level_shift, level_loop, link_node,
  add_node,
}

mul_cancel : (q r p : ℕ) → 0 < p → q * p ≡ r * p → q ≡ r
mul_cancel q r p pos e = sym (mul-div_cancel q pos) ∙ ap (λ n. n / p) e ∙ mul-div_cancel r pos

same_sum : (q r p c : ℕ) → 0 < p → (q * p + c == r * p + c) ≡ (q == r)
same_sum q r p c pos = elim (Bool-cases (q == r)) [
  | inl e ↦ let same : q ≡ r = ground arith in rw same (ground arith)
  | inr e ↦ elim (Bool-cases (q * p + c == r * p + c)) [
    | inl f ↦ let same = mul_cancel q r p pos (ground arith) in ground arith
    | inr f ↦ f ∙ sym e
  ]
]

-- the source's test that two times agree above the low `k` bits
same_block : (k x y : ℕ) → (bit_or x (2 ^ k - 1) == bit_or y (2 ^ k - 1)) ≡ (x / 2 ^ k == y / 2 ^ k)
same_block k x y =
    rw (bit_or-mask k x, bit_or-mask k y)
      (same_sum (x / 2 ^ k) (y / 2 ^ k) (2 ^ k) (2 ^ k - 1) (one-le-pow k 2 (omega arith)))

-- the level of a node that is not near
abbrev pub level_of : ℕ → ℕ → ℕ
level_of expire current =
    if expire / 2 ^ 14 == current / 2 ^ 14
    then 0
    else if expire / 2 ^ 20 == current / 2 ^ 20
    then 1
    else if expire / 2 ^ 26 == current / 2 ^ 26
    then 2
    else 3

level_loop-level_of :
    (e c : ℕ) → level_loop 3 0 (time_near * 2 ^ time_level_shift) e c ≡ level_of e c
unfolding level_loop
level_loop-level_of e c = ground (arith, same_block 14 e c, same_block 20 e c, same_block 26 e c)

-- the wheel with one more node, in terms of quotients and remainders
abbrev pub placed : TimerNode → Timer → Timer
placed node t =
    if node.expire / 2 ^ 8 == t.time / 2 ^ 8
    then put_near (node.expire % 2 ^ 8) (t.near (node.expire % 2 ^ 8) ++ node ∷ []) t
    else (let i = level_of node.expire t.time in
        let j = node.expire / 2 ^ (8 + i * 6) % 2 ^ 6 in
        put_level i j (t.levels i j ++ node ∷ []) t)

link_node-placed : (node : TimerNode) (t : Timer) → link_node node t ≡ placed node t
unfolding link_node
link_node-placed node t = rw (
  same_block 8 node.expire t.time,
  bit_and-mask 8 node.expire,
  level_loop-level_of node.expire t.time,
  bit_and-mask 6 (node.expire / 2 ^ (8 + level_of node.expire t.time * 6)),
)

abbrev pub All : (TimerNode → Type 0) → List TimerNode → Type 0
All P [] = Unit {0}
All P (n ∷ ns) = P n × All P ns

All-snoc :
    (P : TimerNode → Type 0) (ns : List TimerNode) (n : TimerNode)
    → All P ns
    → P n
    → All P (ns ++ n ∷ [])
All-snoc P [] n a p = (p, tt)
All-snoc P (m ∷ ns) n (q, a) p = (q, All-snoc P ns n a p)

-- A node in the near list `j` expires within the 256 ticks of the present block, at the tick `j`.
abbrev pub IsNear : ℕ → ℕ → TimerNode → Type 0
IsNear time j node =
    (node.expire % 2 ^ 8 ≡ j) × (node.expire / 2 ^ 8 ≡ time / 2 ^ 8) × (time ≤ node.expire)

-- A node in the list `j` of the level `i` expires in a later block of 2 ^ (8 + 6 i) ticks, which is the
-- `j`-th of the present block of the next level.
abbrev pub IsFar : ℕ → ℕ → ℕ → TimerNode → Type 0
IsFar time i j node =
    (i ≤ 3)
    × (node.expire / 2 ^ (8 + i * 6) % 2 ^ 6 ≡ j)
    × (time / 2 ^ (8 + i * 6) < node.expire / 2 ^ (8 + i * 6))
    × (i < 3 → node.expire / 2 ^ (14 + i * 6) ≡ time / 2 ^ (14 + i * 6))

pub record IsValid (t : Timer) : Type 0 where
  pub near_in : (j : ℕ) → All (IsNear t.time j) (t.near j)
  pub far_in : (i j : ℕ) → All (IsFar t.time i j) (t.levels i j)

level_of-IsFar :
    (node : TimerNode) (time : ℕ)
    → time ≤ node.expire
    → node.expire / 2 ^ 8 ≢ time / 2 ^ 8
    → IsFar time
        (level_of node.expire time)
        (node.expire / 2 ^ (8 + level_of node.expire time * 6) % 2 ^ 6)
        node
level_of-IsFar node time le ne = elim (Bool-cases (node.expire / 2 ^ 14 == time / 2 ^ 14)) [
  | inl a ↦ rw a (omega arith, refl, omega arith, (λ h. ground arith))
  | inr a ↦ rw a (elim (Bool-cases (node.expire / 2 ^ 20 == time / 2 ^ 20)) [
    | inl b ↦ rw b (omega arith, refl, ground arith, (λ h. ground arith))
    | inr b ↦ rw b (elim (Bool-cases (node.expire / 2 ^ 26 == time / 2 ^ 26)) [
      | inl c ↦ rw c (omega arith, refl, ground arith, (λ h. ground arith))
      | inr c ↦ rw c (omega arith, refl, ground arith, (λ h. absurd (omega arith)))
    ])
  ])
]

put_near-IsValid :
    (t : Timer) (k : ℕ) (nodes : List TimerNode)
    → IsValid t
    → All (IsNear t.time k) nodes
    → IsValid (put_near k nodes t)
put_near-IsValid t k nodes v a = record {
  near_in = λ j. elim (Bool-cases (j == k)) [
    | inl e ↦ let same : j ≡ k = ground arith in rw (e, same) a
    | inr e ↦ rw e (v.near_in j)
  ];
  far_in = v.far_in;
}

put_level-IsValid :
    (t : Timer) (l k : ℕ) (nodes : List TimerNode)
    → IsValid t
    → All (IsFar t.time l k) nodes
    → IsValid (put_level l k nodes t)
put_level-IsValid t l k nodes v a = record {
  near_in = v.near_in;
  far_in = λ i j. elim (Bool-cases (i == l && j == k)) [
    | inl e ↦ let same : (i ≡ l) × (j ≡ k) = ground arith in rw (e, same.0, same.1) a
    | inr e ↦ rw e (v.far_in i j)
  ];
}

placed-IsValid :
    (node : TimerNode) (t : Timer) → IsValid t → t.time ≤ node.expire → IsValid (placed node t)
placed-IsValid node t v le = elim (Bool-cases (node.expire / 2 ^ 8 == t.time / 2 ^ 8)) [
  | inl e ↦ rw e (
      put_near-IsValid t (node.expire % 2 ^ 8) _ v (
        All-snoc _ (t.near (node.expire % 2 ^ 8)) node (v.near_in (node.expire % 2 ^ 8))
          (refl, ground arith, le)))
  | inr e ↦
      let i = level_of node.expire t.time in
      let j = node.expire / 2 ^ (8 + i * 6) % 2 ^ 6 in
      rw e (
        put_level-IsValid t i j _ v (
          All-snoc _ (t.levels i j) node (v.far_in i j)
            (level_of-IsFar node t.time le (ground arith))))
]

-- AddNode of a node that is not late, on a free lock, succeeds and keeps the wheel valid: one list
-- changes, at whose end the node stands, the near list of its tick or the list of its block in the
-- first level whose block it shares, told by quotients and remainders instead of masks.
pub add_node-placed :
    (node : TimerNode) (t : Timer)
    → IsValid t
    → t.locked ≡ false
    → t.time ≤ node.expire
    → (add_node node t ≡ ok (placed node t)) × IsValid (placed node t)
unfolding add_node
add_node-placed node t v open_ le =
    (ground (arith, open_, link_node-placed node t), placed-IsValid node t v le)

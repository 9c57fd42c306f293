-- ===== src/Prelude/Bits.antt =====
-- `&` with a mask of low ones is `%`, and `|` of parts that do not overlap is `+`.
use Prim.Native.Nat.{
  ℕ, zero, suc, ◌+◌, ◌-◌, ◌*◌, ◌/◌, ◌%◌, ◌^◌, ◌≤◌, ◌<◌, min, max, bit_and, bit_or, digits,
  bit_and-bitwise, bit_or-bitwise,
}
use mathlib.Core.Path.{◌≡◌, refl, sym, ap, ◌∙◌}
use native.Mathlib.Nat.{
  pow-suc, one-le-pow, mod-lt, div-div-eq-div-mul, div-add-mod', mul-add-mod_self_right,
  mod-eq_of_lt,
}
use native.Mathlib.Omega.{arith}

-- The digits of the first number bound the rounds: more fuel than that makes no difference. For any
-- operation on digits that has no carry.
module _ (rest : ℕ → ℕ) (digit : ℕ → ℕ → ℕ) where
  digits_enough : (x y f g : ℕ) → x ≤ f → x ≤ g → digits rest digit f x y ≡ digits rest digit g x y
  digits_enough zero y zero zero lf lg = refl
  digits_enough zero y zero (suc g) lf lg = refl
  digits_enough zero y (suc f) zero lf lg = refl
  digits_enough zero y (suc f) (suc g) lf lg = refl
  digits_enough (suc x) y zero g lf lg = absurd (omega arith)
  digits_enough (suc x) y (suc f) zero lf lg = absurd (omega arith)
  digits_enough (suc x) y (suc f) (suc g) lf lg =
      let ih = digits_enough (suc x / 2) (y / 2) f g (omega arith) (omega arith) in
      omega (arith, ih)

-- the law of the lowest digit, for `&` and for `|`
bit_and_low : (x y : ℕ) → bit_and x y ≡ bit_and (x / 2) (y / 2) * 2 + min (x % 2) (y % 2)
bit_and_low zero y =
    let here = bit_and-bitwise 0 y in
    let there = bit_and-bitwise 0 (y / 2) in omega (arith, here, there)
bit_and_low (suc x) y =
    let whole = bit_and-bitwise (suc x) y in
    let halves = bit_and-bitwise (suc x / 2) (y / 2) in
    let same =
      digits_enough (λ y. zero) min (suc x / 2) (y / 2) x (suc x / 2) (omega arith) (omega arith) in
    omega (arith, whole, halves, same)

bit_or_low : (x y : ℕ) → bit_or x y ≡ bit_or (x / 2) (y / 2) * 2 + max (x % 2) (y % 2)
bit_or_low zero y =
    let here = bit_or-bitwise 0 y in
    let there = bit_or-bitwise 0 (y / 2) in omega (arith, here, there)
bit_or_low (suc x) y =
    let whole = bit_or-bitwise (suc x) y in
    let halves = bit_or-bitwise (suc x / 2) (y / 2) in
    let same =
      digits_enough (λ y. y) max (suc x / 2) (y / 2) x (suc x / 2) (omega arith) (omega arith) in
    omega (arith, whole, halves, same)

-- 0 on the right, by halving a number below a bound
zero_right : (bound x : ℕ) → x < bound → (bit_and x 0 ≡ 0) × (bit_or x 0 ≡ x)
zero_right zero x lt = absurd (omega arith)
zero_right (suc bound) zero lt = (refl, refl)
zero_right (suc bound) (suc x) lt =
    let (l, r) = zero_right bound (suc x / 2) (omega arith) in
    (omega (arith, bit_and_low (suc x) 0, l), omega (arith, bit_or_low (suc x) 0, r))

pub bit_and-zero : (x : ℕ) → bit_and x 0 ≡ 0
bit_and-zero x = (zero_right (suc x) x (omega arith)).0

pub bit_or-zero : (x : ℕ) → bit_or x 0 ≡ x
bit_or-zero x = (zero_right (suc x) x (omega arith)).1

pub mod_of_parts : (q m r x : ℕ) → r < m → x ≡ q * m + r → x % m ≡ r
mod_of_parts q m r x lt e = rw (e, mul-add-mod_self_right) (mod-eq_of_lt lt)

-- the remainder by a number twice as large
mod_twice : (p x : ℕ) → 0 < p → x % (2 * p) ≡ (x / 2 % p) * 2 + x % 2
mod_twice p x pos =
    let halves = ap (λ (t : ℕ). 2 * t) (div-add-mod' (x / 2) p) in
    mod_of_parts (x / 2 / p) (2 * p) ((x / 2 % p) * 2 + x % 2) x (omega (arith, mod-lt (x / 2) pos))
      (omega (arith, halves))

-- `x & (2^k - 1)`
pub bit_and-mask : (k x : ℕ) → bit_and x (2 ^ k - 1) ≡ x % 2 ^ k
bit_and-mask zero x = omega (arith, bit_and-zero x)
bit_and-mask (suc k) x =
    let pos = one-le-pow k 2 (omega arith) in
    let twice : 2 ^ suc k ≡ 2 * 2 ^ k = omega (arith, pow-suc 2 k) in
    let mask : (2 ^ suc k - 1) / 2 ≡ 2 ^ k - 1 = omega (arith, twice, pos) in
    omega (
      arith,
      twice,
      pos,
      bit_and_low x (2 ^ suc k - 1),
      ap (λ m. bit_and (x / 2) m) mask,
      bit_and-mask k (x / 2),
      ap (λ m. x % m) twice,
      mod_twice (2 ^ k) x pos,
    )

bit_or_comm_below : (bound x y : ℕ) → x < bound → bit_or x y ≡ bit_or y x
bit_or_comm_below zero x y lt = absurd (omega arith)
bit_or_comm_below (suc bound) zero y lt = bit_or-bitwise 0 y ∙ sym (bit_or-zero y)
bit_or_comm_below (suc bound) (suc x) y lt =
    let halves = bit_or_comm_below bound (suc x / 2) (y / 2) (omega arith) in
    omega (arith, bit_or_low (suc x) y, bit_or_low y (suc x), halves)

pub bit_or_comm : (x y : ℕ) → bit_or x y ≡ bit_or y x
bit_or_comm x y = bit_or_comm_below (suc x) x y (omega arith)

-- `(a << k) | b` for a `b` of `k` bits
pub bit_or-shifted : (k a b : ℕ) → b < 2 ^ k → bit_or (a * 2 ^ k) b ≡ a * 2 ^ k + b
bit_or-shifted zero a b h =
    let e : b ≡ 0 = omega arith in
    let f : a * 2 ^ 0 + 0 ≡ a = omega arith in
    let g : a * 2 ^ 0 ≡ a = omega arith in rw (e, f, g) (bit_or-zero a)
bit_or-shifted (suc k) a b h =
    let half : a * 2 ^ suc k / 2 ≡ a * 2 ^ k = omega (arith, ap (λ (t : ℕ). a * t) (pow-suc 2 k)) in
    omega (
      arith,
      bit_or_low (a * 2 ^ suc k) b,
      ap (λ m. bit_or m (b / 2)) half,
      bit_or-shifted k a (b / 2) (omega (arith, pow-suc 2 k)),
      ap (λ (t : ℕ). a * t) (pow-suc 2 k),
    )

-- `a | (b << k)` for an `a` of `k` bits
pub bit_or-shifted' : (k a b : ℕ) → a < 2 ^ k → bit_or a (b * 2 ^ k) ≡ a + b * 2 ^ k
bit_or-shifted' k a b h = omega (arith, bit_or_comm a (b * 2 ^ k), bit_or-shifted k b a h)

-- `x | (2^k - 1)`
pub bit_or-mask : (k x : ℕ) → bit_or x (2 ^ k - 1) ≡ x / 2 ^ k * 2 ^ k + (2 ^ k - 1)
bit_or-mask zero x = omega (arith, bit_or-zero x)
bit_or-mask (suc k) x =
    let pos = one-le-pow k 2 (omega arith) in
    let twice : 2 ^ suc k ≡ 2 * 2 ^ k = omega (arith, pow-suc 2 k) in
    let mask : (2 ^ suc k - 1) / 2 ≡ 2 ^ k - 1 = omega (arith, twice, pos) in
    let quotient : x / 2 ^ suc k ≡ x / 2 / 2 ^ k =
      ap (λ m. x / m) twice ∙ sym (div-div-eq-div-mul x 2 (2 ^ k)) in
    let low = bit_or_low x (2 ^ suc k - 1) in
    let halves = ap (λ m. bit_or (x / 2) m) mask in
    let ih = bit_or-mask k (x / 2) in
    let product = ap (λ (t : ℕ). x / 2 / 2 ^ k * t) twice in
    let whole = ap (λ (q : ℕ). q * 2 ^ suc k) quotient in
    omega (arith, twice, pos, low, halves, ih, product, whole)

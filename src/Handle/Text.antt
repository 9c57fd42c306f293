-- ===== src/Handle/Text.antt =====
-- `operator==` and `operator<` of `std::string`, by the byte values.
use skynet_cpp.Prelude.{
  ℕ, ◌==◌, ltb, ◌≡◌, refl, Bool, true, false, ◌&&◌, ◌||◌, List, [], ◌∷◌, arith,
}

unfoldable pub str_eq : List ℕ → List ℕ → Bool
str_eq [] [] = true
str_eq [] (b ∷ bs) = false
str_eq (a ∷ s) [] = false
str_eq (a ∷ s) (b ∷ bs) = a == b && str_eq s bs

unfoldable pub str_lt : List ℕ → List ℕ → Bool
str_lt [] [] = false
str_lt [] (b ∷ bs) = true
str_lt (a ∷ s) [] = false
str_lt (a ∷ s) (b ∷ bs) = ltb a b || (a == b && str_lt s bs)

pub str_eq→eq : (s t : List ℕ) → str_eq s t ≡ true → s ≡ t
unfolding str_eq
str_eq→eq [] [] h = refl
str_eq→eq [] (b ∷ bs) h = ground arith
str_eq→eq (a ∷ s) [] h = ground arith
str_eq→eq (a ∷ s) (b ∷ bs) h = ground (arith, str_eq→eq s bs)

pub str_eq_refl : (s : List ℕ) → str_eq s s ≡ true
unfolding str_eq
str_eq_refl [] = refl
str_eq_refl (a ∷ s) = ground (arith, str_eq_refl s)

pub str_lt_irrefl : (s : List ℕ) → str_lt s s ≡ false
unfolding str_lt
str_lt_irrefl [] = refl
str_lt_irrefl (a ∷ s) = ground (arith, str_lt_irrefl s)

pub str_lt_trans : (s t u : List ℕ) → str_lt s t ≡ true → str_lt t u ≡ true → str_lt s u ≡ true
unfolding str_lt
str_lt_trans [] [] u h k = ground arith
str_lt_trans [] (b ∷ bs) [] h k = ground arith
str_lt_trans [] (b ∷ bs) (c ∷ u) h k = refl
str_lt_trans (a ∷ s) [] u h k = ground arith
str_lt_trans (a ∷ s) (b ∷ bs) [] h k = ground arith
str_lt_trans (a ∷ s) (b ∷ bs) (c ∷ u) h k = ground (arith, str_lt_trans s bs u)

-- Two strings that are neither equal nor in order are in the other order.
pub str_lt_total : (s t : List ℕ) → str_eq s t ≡ false → str_lt s t ≡ false → str_lt t s ≡ true
unfolding str_lt str_eq
str_lt_total [] [] h k = ground arith
str_lt_total [] (b ∷ bs) h k = ground arith
str_lt_total (a ∷ s) [] h k = refl
str_lt_total (a ∷ s) (b ∷ bs) h k = ground (arith, str_lt_total s bs)

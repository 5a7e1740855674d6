-- ===== src/Xsk/Pool/Sums.antt =====
-- Sums over lists, by which the buffers of ebpf-xdp/xsk are weighed.
use hack.Base.{
  ℕ, List, ◌≡◌, take, ◌++◌, ◌∷◌, ◌≤◌, ◌<◌, suc, set, length, ◌+◌, [], zero, drop, arith, get_or,
  refl, ap,
}

-- the sum over the first `n` elements
abbrev pub sum_first {ℓ} : {A : Type ℓ} → (A → ℕ) → ℕ → List A → ℕ
sum_first f zero xs = 0
sum_first f (suc n) [] = 0
sum_first f (suc n) (x ∷ xs) = f x + sum_first f n xs

module _ {A : Type 0} (f : A → ℕ) where
  pub sum_first-suc :
      (n : ℕ) (xs : List A) (d : A)
      → n < length xs
      → sum_first f (n + 1) xs ≡ sum_first f n xs + f (get_or xs n d)
  sum_first-suc n [] d h = absurd (omega arith)
  sum_first-suc zero (x ∷ xs) d h = ground arith
  sum_first-suc (suc n) (x ∷ xs) d h = ground (arith, sum_first-suc n xs d (omega arith))

  -- A write behind the first `n` elements does not show in them.
  pub sum_first-set :
      (n i : ℕ) (xs : List A) (v : A) → n ≤ i → sum_first f n (set xs i v) ≡ sum_first f n xs
  sum_first-set zero i xs v h = refl
  sum_first-set (suc n) i [] v h = refl
  sum_first-set (suc n) zero (x ∷ xs) v h = absurd (omega arith)
  sum_first-set (suc n) (suc i) (x ∷ xs) v h =
      ap (λ (k : ℕ). f x + k) (sum_first-set n i xs v (omega arith))

abbrev pub one {ℓ} : {A : Type ℓ} → A → ℕ
one _ = 1

pub sum_first-one : (n : ℕ) (xs : List ℕ) → n ≤ length xs → sum_first one n xs ≡ n
sum_first-one zero xs h = refl
sum_first-one (suc n) [] h = absurd (omega arith)
sum_first-one (suc n) (x ∷ xs) h = omega (arith, sum_first-one n xs (omega arith))

abbrev pub sum_all {ℓ} : {A : Type ℓ} → (A → ℕ) → List A → ℕ
sum_all f [] = 0
sum_all f (x ∷ xs) = f x + sum_all f xs

module _ {A : Type 0} (f : A → ℕ) where
  pub sum_all-append : (xs ys : List A) → sum_all f (xs ++ ys) ≡ sum_all f xs + sum_all f ys
  sum_all-append [] ys = omega arith
  sum_all-append (x ∷ xs) ys = omega (arith, sum_all-append xs ys)

  pub sum_all-take :
      (n : ℕ) (xs : List A) → sum_all f (take n xs) + sum_all f (drop n xs) ≡ sum_all f xs
  sum_all-take zero xs = omega arith
  sum_all-take (suc n) [] = omega arith
  sum_all-take (suc n) (x ∷ xs) = omega (arith, sum_all-take n xs)

  pub sum_all-set :
      (i : ℕ) (xs : List A) (v d : A)
      → i < length xs
      → sum_all f (set xs i v) + f (get_or xs i d) ≡ sum_all f xs + f v
  sum_all-set i [] v d h = absurd (omega arith)
  sum_all-set zero (x ∷ xs) v d h = omega arith
  sum_all-set (suc i) (x ∷ xs) v d h = omega (arith, sum_all-set i xs v d (omega arith))

pub sum_all-one : (xs : List ℕ) → sum_all one xs ≡ length xs
sum_all-one [] = refl
sum_all-one (x ∷ xs) = omega (arith, sum_all-one xs)

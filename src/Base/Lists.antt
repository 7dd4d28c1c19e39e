-- ===== src/Base/Lists.antt =====
-- Lists of native numbers: length, membership, multiplicity, and a pigeonhole bound.
use Prim.Native.Nat.{ℕ, zero, suc, ◌+◌, ◌≤◌, ◌<◌}
use mathlib.Core.Path.{◌≡◌, refl}
use mathlib.Core.Bool.{Bool, false, ◌||◌}
use mathlib.Core.List.{List, [], ◌∷◌, ◌++◌}
use native.Mathlib.Omega.{arith}
use everyday_coding.Base.Tests.{◌==◌, if◌then◌else◌}

module _ {ℓ} {A : Type ℓ} where
  abbrev pub length : List A → ℕ
  length [] = 0
  length (x ∷ xs) = suc (length xs)

  pub length-append : (xs ys : List A) → length (xs ++ ys) ≡ length xs + length ys
  length-append [] ys = omega arith
  length-append (x ∷ xs) ys = omega (arith, length-append xs ys)

abbrev pub has : ℕ → List ℕ → Bool
has a [] = false
has a (x ∷ xs) = (a == x) || has a xs

pub has-append : (a : ℕ) (xs ys : List ℕ) → has a (xs ++ ys) ≡ (has a xs || has a ys)
has-append a [] ys = refl
has-append a (x ∷ xs) ys = ground (arith, has-append a xs ys)

abbrev pub count : ℕ → List ℕ → ℕ
count a [] = 0
count a (x ∷ xs) = (if a == x then 1 else 0) + count a xs

module _ (a : ℕ) where
  pub count-append : (front back : List ℕ) → count a (front ++ back) ≡ count a front + count a back
  count-append [] back = omega arith
  count-append (x ∷ front) back = ground (arith, count-append front back)

-- f 0 + … + f (n - 1)
abbrev pub sum_below : (ℕ → ℕ) → ℕ → ℕ
sum_below f zero = 0
sum_below f (suc n) = sum_below f n + f n

abbrev pub AllBelow : ℕ → List ℕ → Type 0
AllBelow n [] = Unit {0}
AllBelow n (x ∷ xs) = (x < n) × AllBelow n xs

sum_below-zero : (n : ℕ) → sum_below (λ a. 0) n ≡ 0
sum_below-zero zero = refl
sum_below-zero (suc n) = omega (arith, sum_below-zero n)

sum_below-bump_ge :
    (f : ℕ → ℕ) (x n : ℕ)
    → n ≤ x
    → sum_below (λ a. (if a == x then 1 else 0) + f a) n ≡ sum_below f n
sum_below-bump_ge f x zero h = refl
sum_below-bump_ge f x (suc n) h = ground (arith, sum_below-bump_ge f x n)

sum_below-bump :
    (f : ℕ → ℕ) (x n : ℕ)
    → x < n
    → sum_below (λ a. (if a == x then 1 else 0) + f a) n ≡ suc (sum_below f n)
sum_below-bump f x zero h = absurd (omega arith)
sum_below-bump f x (suc n) h = ground (arith, sum_below-bump f x n, sum_below-bump_ge f x n)

-- Every element of a list below `n` is counted once among the numbers below `n`.
pub length-eq-sum :
    (n : ℕ) (xs : List ℕ) → AllBelow n xs → length xs ≡ sum_below (λ a. count a xs) n
length-eq-sum n [] h = omega (arith, sum_below-zero n)
length-eq-sum n (x ∷ xs) h =
    omega (arith, length-eq-sum n xs h.1, sum_below-bump (λ a. count a xs) x n h.0)

pub sum_below-le : (f : ℕ → ℕ) (n : ℕ) → ((a : ℕ) → f a ≤ 1) → sum_below f n ≤ n
sum_below-le f zero h = omega arith
sum_below-le f (suc n) h = omega (arith, h n, sum_below-le f n h)

-- A list with no repetition that misses some number below `n` is shorter than `n`.
pub sum_below-lt : (f : ℕ → ℕ) (i n : ℕ) → i < n → f i ≡ 0 → ((a : ℕ) → f a ≤ 1) → sum_below f n < n
sum_below-lt f i zero h z le = absurd (omega arith)
sum_below-lt f i (suc n) h z le = grind (arith, sum_below-lt f i n, sum_below-le f n, le n)

pub length-lt_of_missing :
    (n i : ℕ) (xs : List ℕ)
    → AllBelow n xs
    → i < n
    → count i xs ≡ 0
    → ((a : ℕ) → count a xs ≤ 1)
    → length xs < n
length-lt_of_missing n i xs all lt z le =
    omega (arith, length-eq-sum n xs all, sum_below-lt (λ a. count a xs) i n lt z le)

-- ===== src/Sorting.antt =====
-- `Array<T>` of CPlusPlusThings/practical_exercises/array_template.cpp: its constructor, its
-- subscript and its two versions of Sort. The elements are a function from indices, `less` is the
-- operator `<` of T, and what strcmp returns is an argument.
pub mod Scan
pub mod Rearranged
pub mod Descending
pub mod Printed
mod Tests
use everyday_coding.Base.{
  ℕ, zero, suc, ◌+◌, ◌-◌, Bool, Option, none, some, List, [], ◌∷◌, ltb, ◌==◌, if◌then◌else◌, update,
  ◌>>=◌,
}
use everyday_coding.Base.Int.{ℤ, pos, negsuc, ltb_ℤ}

-- MAXSIZE
abbrev pub max_size : ℕ
max_size = 5

-- The index that the subscript operator refers to, or `none` where it ends the program. The test
-- lets the index MAXSIZE through.
abbrev pub subscript : ℤ → Option ℕ
subscript (negsuc _) = none
subscript (pos i) = if ltb max_size i then none else some i

module _ {ℓ} {A : Type ℓ} where
  -- the loop of the constructor, with the rounds that are left; `nought` is 0 as a T
  pub fill_with : (nought : A) → ℕ → ℕ → (ℕ → A) → ℕ → A
  fill_with nought zero i array = array
  fill_with nought (suc k) i array = fill_with nought k (i + 1) (update array i nought)

  unfoldable pub new_array : (nought : A) → (ℕ → A) → ℕ → A
  unfolding fill_with
  new_array nought garbage = fill_with nought max_size 0 garbage

  -- t = array[i]; array[i] = array[p]; array[p] = t;
  abbrev pub swap : (ℕ → A) → ℕ → ℕ → ℕ → A
  swap array i p = update (update array i (array p)) p (array i)

  module _ (less : A → A → Bool) where
    -- The inner loop of Sort: the index of a largest element, with the rounds that are left.
    pub find_largest : (ℕ → A) → ℕ → (p j : ℕ) → ℕ
    find_largest array zero p j = p
    find_largest array (suc k) p j =
        find_largest array k (if less (array p) (array j) then j else p) (j + 1)

    -- the outer loop, with the rounds that are left
    pub sort_from : ℕ → ℕ → (ℕ → A) → ℕ → A
    unfolding find_largest
    sort_from zero i array = array
    sort_from (suc k) i array =
        sort_from k (i + 1) (swap array i (find_largest array (max_size - (i + 1)) i (i + 1)))

    unfoldable pub sort : (ℕ → A) → ℕ → A
    unfolding sort_from
    sort array = sort_from max_size 0 array

  -- Array<char *>::Sort
  abbrev pub sort_strings : (strcmp : A → A → ℤ) → (ℕ → A) → ℕ → A
  sort_strings strcmp = sort λ a b. ltb_ℤ (strcmp a b) (pos 0)

  -- array[i] = x
  abbrev pub set_at : (ℕ → A) → ℤ → A → Option (ℕ → A)
  set_at array i x = do j ← subscript i; some (update array j x)

  -- A loop of main that prints, with the rounds that are left.
  pub print_from : (ℕ → A) → ℕ → ℕ → Option (List A)
  print_from array zero i = some []
  print_from array (suc k) i = do
    j ← subscript (pos i)
    later ← print_from array k (i + 1)
    some (array j ∷ later)

  -- main with one of its arrays: five assignments, Sort, and what is printed.
  pub print_sorted :
      (sorted : (ℕ → A) → ℕ → A) (nought : A) (garbage : ℕ → A) (v w x y z : A) → Option (List A)
  unfolding new_array print_from
  print_sorted sorted nought garbage v w x y z = do
    a1 ← set_at (new_array nought garbage) (pos 0) v
    a2 ← set_at a1 (pos 1) w
    a3 ← set_at a2 (pos 2) x
    a4 ← set_at a3 (pos 3) y
    a5 ← set_at a4 (pos 4) z
    print_from (sorted a5) 5 0

-- main, with its strings: the numbers and the strings that it prints
pub main {ℓ} :
    {A : Type ℓ} (strcmp : A → A → ℤ) (null : A) (garbage : ℕ → A) (numbers : ℕ → ℤ) (v w x y z : A)
    → Option (List ℤ × List A)
unfolding print_sorted
main strcmp null garbage numbers v w x y z = do
  ints ← print_sorted (sort ltb_ℤ) (pos 0) numbers (pos 1) (pos 23) (pos 6) (pos 3) (pos 9)
  strings ← print_sorted (sort_strings strcmp) null garbage v w x y z
  some (ints, strings)

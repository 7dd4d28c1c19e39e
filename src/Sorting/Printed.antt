-- ===== src/Sorting/Printed.antt =====
-- What array_template.cpp prints.
use everyday_coding.Base.{ℕ, ◌≡◌, refl, some, [], ◌∷◌, update}
use everyday_coding.Base.Int.{ℤ, pos, ltb_ℤ}
use everyday_coding.Sorting.{
  max_size, fill_with, new_array, sort, sort_strings, print_from, print_sorted, main,
}
use everyday_coding.Sorting.Rearranged.{Rearranged}
use everyday_coding.Sorting.Descending.{Descending, IsStrcmp, sort_strings-Descending}

-- main prints the numbers in descending order, and the strings in descending order of strcmp.
pub main-Descending {ℓ} :
    {A : Type ℓ} (strcmp : A → A → ℤ)
    → IsStrcmp strcmp
    → (null : A) (garbage : ℕ → A) (numbers : ℕ → ℤ) (v w x y z : A)
    → let given =
        update (update (update (update (update (new_array null garbage) 0 v) 1 w) 2 x) 3 y) 4 z in
      (a : ℕ → A) × (main strcmp null garbage numbers v w x y z
        ≡ some (pos 23 ∷ pos 9 ∷ pos 6 ∷ pos 3 ∷ pos 1 ∷ [], a 0 ∷ a 1 ∷ a 2 ∷ a 3 ∷ a 4 ∷ []))
      × Descending (λ p q. ltb_ℤ (strcmp p q) (pos 0)) max_size a
      × Rearranged max_size given a
unfolding main print_sorted print_from new_array fill_with sort
main-Descending strcmp law null garbage numbers v w x y z =
    let given =
      update (update (update (update (update (new_array null garbage) 0 v) 1 w) 2 x) 3 y) 4 z in
    let (down, same) = sort_strings-Descending strcmp law given in
    (sort_strings strcmp given, refl, down, same)

-- ===== src/Sorting/Tests.antt =====
-- Sort of array_template.cpp on the numbers of its main function.
use everyday_coding.Base.{ℕ, zero, suc, ◌≡◌, refl, arith, ltb}
use everyday_coding.Base.Int.{ℤ, pos, ◌-ℤ◌, ltb_ℤ}
use everyday_coding.Sorting.{max_size, sort, sort_strings}
use everyday_coding.Sorting.Rearranged.{Rearranged}
use everyday_coding.Sorting.Scan.{IsOrder}
use everyday_coding.Sorting.Descending.{
  Descending, IsStrcmp, sort-Descending, sort_strings-Descending,
}

-- 1, 23, 6, 3, 9
abbrev numbers : ℕ → ℕ
numbers zero = 1
numbers (suc zero) = 23
numbers (suc (suc zero)) = 6
numbers (suc (suc (suc zero))) = 3
numbers _ = 9

numbers_sorted :
    (sort ltb numbers 0 ≡ 23)
    × (sort ltb numbers 1 ≡ 9)
    × (sort ltb numbers 2 ≡ 6)
    × (sort ltb numbers 4 ≡ 1)
unfolding sort
numbers_sorted = (refl, refl, refl, refl)

ltb-IsOrder : IsOrder ltb
ltb-IsOrder = record { asym = λ a b h. ground arith; trans = λ a b c h k. ground arith }

sort-Descending_example :
    Descending ltb max_size (sort ltb numbers) × Rearranged max_size numbers (sort ltb numbers)
sort-Descending_example = sort-Descending ltb-IsOrder numbers

-- Strings of one letter.
abbrev letter_strcmp : ℕ → ℕ → ℤ
letter_strcmp a b = pos a -ℤ pos b

letter_strcmp-IsStrcmp : IsStrcmp letter_strcmp
unfolding ◌-ℤ◌
letter_strcmp-IsStrcmp = record {
  opposite = λ a b h. ground arith;
  chain = λ a b c h k. ground arith;
}

sort_strings-Descending_example :
    Descending
      (λ x y. ltb_ℤ (letter_strcmp x y) (pos 0))
      max_size
      (sort_strings letter_strcmp numbers)
    × Rearranged max_size numbers (sort_strings letter_strcmp numbers)
sort_strings-Descending_example =
    sort_strings-Descending letter_strcmp letter_strcmp-IsStrcmp numbers

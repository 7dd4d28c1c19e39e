-- ===== src/Salary/Tests.antt =====
-- The table of bracket_overloading.cpp with names that are numbers.
use everyday_coding.Base.{
  ◌<◌, List, [], ◌∷◌, length, ℕ, ◌≤◌, ◌≡◌, ◌⊎◌, refl, none, some, ◌==◌, if◌then◌else◌,
}
use everyday_coding.Base.Int.{ℤ, pos}
use everyday_coding.Salary.{display, SalaryManage, salary_manage, assign}
use everyday_coding.Salary.Found.{view}
use everyday_coding.Salary.Lines.{put_lines}
use everyday_coding.Salary.Shown.{assign_all, assign_all-display}

abbrev compare_names : ℕ → ℕ → ℤ
compare_names a b = if a == b then pos 0 else pos 1

abbrev two_places : SalaryManage ℕ ℕ
two_places = salary_manage (λ _. record { salary = 77; name = 3 }) 2

assign_twice :
    (elim (assign compare_names 0 two_places 5 2000) [
      | none ↦ none
      | some s ↦ elim (assign compare_names 0 s 5 3000) [
        | none ↦ none
        | some s' ↦ view compare_names s' 5
      ]
    ])
    ≡ some 3000
unfolding assign view
assign_twice = refl

-- Two names, the first of them twice, on two places.
abbrev entries : List (ℕ × ℕ)
entries = (5, 2000) ∷ (8, 1000) ∷ (5, 3000) ∷ []

assign_all-display_example :
    let lines = put_lines compare_names [] entries in
    ((s : SalaryManage ℕ ℕ) × (assign_all compare_names 0
          (salary_manage (λ _. record { salary = 77; name = 3 }) 2)
          entries
        ≡ some s)
      × (display s ≡ lines)
      × (length lines ≤ 2))
    ⊎ (assign_all compare_names 0 (salary_manage (λ _. record { salary = 77; name = 3 }) 2) entries
        ≡ none)
      × (2 < length lines)
assign_all-display_example =
    assign_all-display compare_names 0 (λ _. record { salary = 77; name = 3 }) 2 entries

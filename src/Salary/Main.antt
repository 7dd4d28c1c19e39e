-- ===== src/Salary/Main.antt =====
-- What bracket_overloading.cpp prints.
use everyday_coding.Base.{
  ℕ, ◌≡◌, ◌≢◌, refl, inl, inr, true, false, some, [], ◌∷◌, arith, Bool-cases,
}
use everyday_coding.Base.Int.{ℤ}
use everyday_coding.Salary.{Person, is_zero, find_person, subscript, assign, lines_from, main}
use everyday_coding.Salary.Found.{IsStrcmp}

module _ {ℓ} {Name : Type ℓ} {strcmp : Name → Name → ℤ} (law : IsStrcmp strcmp) where
  own : (a : Name) → is_zero (strcmp a a) ≡ true
  own a = (law.same a a).1 refl

  other : (a b : Name) → a ≢ b → is_zero (strcmp a b) ≡ false
  other a b ne = elim (Bool-cases (is_zero (strcmp a b))) [
    | inl e ↦ absurd (ne ((law.same a b).0 e))
    | inr differ ↦ differ
  ]

  -- For three different names main prints each with its salary, and then, from display, again.
  pub main-lines :
      {Money : Type ℓ} (nought : Money) (garbage : ℕ → Person Name Money) (a b c : Name)
      (x y z : Money)
      → a ≢ b
      → a ≢ c
      → b ≢ c
      → main strcmp nought garbage a b c x y z
        ≡ some ((a, x) ∷ (b, y) ∷ (c, z) ∷ (a, x) ∷ (b, y) ∷ (c, z) ∷ [])
  unfolding main assign subscript find_person lines_from
  main-lines nought garbage a b c x y z ab ac bc =
      ground (arith, other a b ab, other a c ac, other b c bc, own a, own b, own c)

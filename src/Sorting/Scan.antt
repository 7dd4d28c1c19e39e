-- ===== src/Sorting/Scan.antt =====
-- The inner loop of Sort in array_template.cpp.
use everyday_coding.Base.{
  ℕ, zero, suc, ◌+◌, ◌≤◌, ◌<◌, ◌≡◌, Bool, true, false, arith, Bool-cases, inl, inr, eq-cases,
}
use everyday_coding.Sorting.{find_largest}

-- `less` is the strict part of a total preorder.
pub record IsOrder {ℓ} {A : Type ℓ} (less : A → A → Bool) : Type ℓ where
  pub asym : (a b : A) → less a b ≡ true → less b a ≡ false
  pub trans : (a b c : A) → less a b ≡ false → less b c ≡ false → less a c ≡ false

module _ {ℓ} {A : Type ℓ} {less : A → A → Bool} (o : IsOrder less) where
  pub irrefl : (a : A) → less a a ≡ false
  irrefl a = elim (Bool-cases (less a a)) [ inl e ↦ o.asym a a e | inr e ↦ e ]

  -- The loop ends at an index of the part that it has passed, where no element of it is larger.
  pub find_largest_lem :
      (a : ℕ → A) (i k p j : ℕ)
      → i ≤ p
      → p < j
      → ((q : ℕ) → i ≤ q → q < j → less (a p) (a q) ≡ false)
      → let r = find_largest less a k p j in
        (i ≤ r) × (r < j + k) × ((q : ℕ) → i ≤ q → q < j + k → less (a r) (a q) ≡ false)
  unfolding find_largest
  find_largest_lem a i zero p j low high largest =
      (low, omega arith, λ q ge lt. largest q ge (omega arith))
  find_largest_lem a i (suc k) p j low high largest = elim (Bool-cases (less (a p) (a j))) [
    | inl more ↦
        let (l, h, all) = find_largest_lem a i k j (j + 1) (omega arith) (omega arith) λ q ge lt.
          elim (eq-cases q j) [
            | inl e ↦ rw e (irrefl (a j))
            | inr ne ↦
                o.trans (a j) (a p) (a q) (o.asym (a p) (a j) more) (largest q ge (ground arith))
          ] in
        rw more (l, omega (arith, h), λ q ge lt. all q ge (omega arith))
    | inr less_or_equal ↦
        let (l, h, all) = find_largest_lem a i k p (j + 1) low (omega arith) λ q ge lt.
          elim (eq-cases q j) [
            | inl e ↦ rw e less_or_equal
            | inr ne ↦ largest q ge (ground arith)
          ] in
        rw less_or_equal (l, omega (arith, h), λ q ge lt. all q ge (omega arith))
  ]

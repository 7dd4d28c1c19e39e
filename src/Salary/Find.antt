-- ===== src/Salary/Find.antt =====
-- The loop of the subscript operator of bracket_overloading.cpp.

use native.Mathlib.Numerals.{add-one}
use everyday_coding.Base.{
  ℕ, zero, suc, ◌+◌, ◌≤◌, ◌<◌, ◌≡◌, refl, inl, inr, true, false, arith, ltb, if◌then◌else◌,
  Bool-cases,
}
use everyday_coding.Base.Int.{ℤ}
use everyday_coding.Salary.{Person, is_zero, find_person}

module _ {ℓ} {Name Money : Type ℓ} (strcmp : Name → Name → ℤ) where
  pub find_person-bounds :
      (f : ℕ → Person Name Money) (q : Name) (k i : ℕ)
      → let r = find_person strcmp f q k i in
        (i ≤ r) × (r ≤ i + k) × (r < i + k → is_zero (strcmp (f r).name q) ≡ true)
  unfolding find_person
  find_person-bounds f q zero i = (omega arith, omega arith, λ lt. absurd (omega arith))
  find_person-bounds f q (suc k) i = elim (Bool-cases (is_zero (strcmp (f i).name q))) [
    | inl hit ↦ rw hit (omega arith, omega arith, λ lt. hit)
    | inr miss ↦
        let (low, high, there) = find_person-bounds f q k (i + 1) in
        rw miss (omega (arith, low), omega (arith, high), λ lt. there (omega arith))
  ]

  -- It depends on the names alone.
  pub find_person-frame :
      (f g : ℕ → Person Name Money) (q : Name) (k i : ℕ)
      → ((j : ℕ) → j < i + k → (g j).name ≡ (f j).name)
      → find_person strcmp g q k i ≡ find_person strcmp f q k i
  unfolding find_person
  find_person-frame f g q zero i same = refl
  find_person-frame f g q (suc k) i same =
      rw (same i (omega arith), find_person-frame f g q k (i + 1) λ j lt. same j (omega arith))

  -- One more person at the end.
  pub find_person-snoc :
      (f : ℕ → Person Name Money) (q : Name) (k i e : ℕ)
      → i + k ≡ e
      → let r = find_person strcmp f q k i in
        find_person strcmp f q (suc k) i
        ≡ (if ltb r e then r else (if is_zero (strcmp (f e).name q) then e else suc e))
  unfolding find_person
  find_person-snoc f q zero i e end =
      let e' : e ≡ i = omega arith in
      let at_end : ltb i i ≡ false = ground arith in rw (e', at_end, add-one) refl
  find_person-snoc f q (suc k) i e end =
      let ih = find_person-snoc f q k (i + 1) e (omega arith) in
      let inside : ltb i e ≡ true = ground arith in
      elim (Bool-cases (is_zero (strcmp (f i).name q))) [
        | inl hit ↦ rw (hit, inside) refl
        | inr miss ↦ rw miss ih
      ]

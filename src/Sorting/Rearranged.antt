-- ===== src/Sorting/Rearranged.antt =====
-- Arrays with the same elements in another order, for the Sort of array_template.cpp.
use everyday_coding.Base.{
  ℕ, ◌<◌, ◌≡◌, refl, ap, ◌∙◌, arith, ◌==◌, if◌then◌else◌, Bool-cases, inl, inr,
}
use everyday_coding.Sorting.{swap}

-- The first `n` elements of `b` are those of `a`, each at the place that `to` gives.
pub record Rearranged {ℓ} {A : Type ℓ} (n : ℕ) (a b : ℕ → A) : Type ℓ where
  pub to : ℕ → ℕ
  pub from : ℕ → ℕ
  pub to_lt : (k : ℕ) → k < n → to k < n
  pub from_lt : (k : ℕ) → k < n → from k < n
  pub from-to : (k : ℕ) → k < n → from (to k) ≡ k
  pub to-from : (k : ℕ) → k < n → to (from k) ≡ k
  pub same : (k : ℕ) → k < n → b k ≡ a (to k)

-- the exchange of two places
abbrev pub exchange : ℕ → ℕ → ℕ → ℕ
exchange i p k = if k == p then i else (if k == i then p else k)

pub swap-exchange {ℓ} : {A : Type ℓ} (a : ℕ → A) (i p k : ℕ) → swap a i p k ≡ a (exchange i p k)
swap-exchange a i p k = elim (Bool-cases (k == p)) [
  | inl e ↦ rw e refl
  | inr ne ↦ elim (Bool-cases (k == i)) [ inl e ↦ rw (ne, e) refl | inr ne' ↦ rw (ne, ne') refl ]
]

module _ {ℓ} {A : Type ℓ} {n : ℕ} where
  pub Rearranged-refl : (a : ℕ → A) → Rearranged n a a
  Rearranged-refl a = record {
    to = λ k. k;
    from = λ k. k;
    to_lt = λ k lt. lt;
    from_lt = λ k lt. lt;
    from-to = λ k lt. refl;
    to-from = λ k lt. refl;
    same = λ k lt. refl;
  }

  pub Rearranged-trans : {a b c : ℕ → A} → Rearranged n a b → Rearranged n b c → Rearranged n a c
  Rearranged-trans r s = record {
    to = λ k. r.to (s.to k);
    from = λ k. s.from (r.from k);
    to_lt = λ k lt. r.to_lt (s.to k) (s.to_lt k lt);
    from_lt = λ k lt. s.from_lt (r.from k) (r.from_lt k lt);
    from-to = λ k lt. ap s.from (r.from-to (s.to k) (s.to_lt k lt)) ∙ s.from-to k lt;
    to-from = λ k lt. ap r.to (s.to-from (r.from k) (r.from_lt k lt)) ∙ r.to-from k lt;
    same = λ k lt. s.same k lt ∙ r.same (s.to k) (s.to_lt k lt);
  }

  pub swap-Rearranged : (a : ℕ → A) (i p : ℕ) → i < n → p < n → Rearranged n a (swap a i p)
  swap-Rearranged a i p hi hp = record {
    to = exchange i p;
    from = exchange i p;
    to_lt = λ k lt. ground arith;
    from_lt = λ k lt. ground arith;
    from-to = λ k lt. ground arith;
    to-from = λ k lt. ground arith;
    same = λ k lt. swap-exchange a i p k;
  }

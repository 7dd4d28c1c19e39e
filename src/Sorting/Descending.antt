-- ===== src/Sorting/Descending.antt =====
-- Sort of array_template.cpp as a whole.
use everyday_coding.Base.{
  ℕ, zero, suc, ◌+◌, ◌-◌, ◌≤◌, ◌<◌, ◌≡◌, refl, Bool, true, false, arith, inl, inr, lt-cases,
}
use everyday_coding.Base.Int.{ℤ, pos, ltb_ℤ}
use everyday_coding.Sorting.{max_size, find_largest, swap, sort_from, sort, sort_strings}
use everyday_coding.Sorting.Rearranged.{
  Rearranged, Rearranged-refl, Rearranged-trans, swap-Rearranged, exchange, swap-exchange,
}
use everyday_coding.Sorting.Scan.{IsOrder, irrefl, find_largest_lem}

-- No element is less than one behind it.
abbrev pub Descending {ℓ} : {A : Type ℓ} → (A → A → Bool) → ℕ → (ℕ → A) → Type 0
Descending less n a = (q r : ℕ) → q ≤ r → r < n → less (a q) (a r) ≡ false

module _ {ℓ} {A : Type ℓ} {less : A → A → Bool} (o : IsOrder less) where
  -- The first `i` elements are at their place: none is less than one behind it.
  abbrev Placed : ℕ → (ℕ → A) → Type 0
  Placed i a = (q r : ℕ) → q < i → q ≤ r → r < max_size → less (a q) (a r) ≡ false

  round-Placed :
      (i : ℕ) (a : ℕ → A)
      → i < max_size
      → Placed i a
      → let p = find_largest less a (max_size - (i + 1)) i (i + 1) in
        (p < max_size) × Placed (i + 1) (swap a i p)
  round-Placed i a lt placed =
      let p = find_largest less a (max_size - (i + 1)) i (i + 1) in
      let (low, high, largest) =
        find_largest_lem o a i (max_size - (i + 1)) i (i + 1) (omega arith) (omega arith)
          λ q ge below. let e : q ≡ i = omega arith in rw e (irrefl o (a i)) in
      let to = exchange i p in
      (
        omega (arith, high),
        λ q r below le in_range.
            rw (swap-exchange a i p q, swap-exchange a i p r)
              (elim (lt-cases q i) [
                | inl early ↦
                    let stays : to q ≡ q = ground (arith, low) in
                    rw stays (placed q (to r) early (ground (arith, low)) (ground (arith, high)))
                | inr now ↦
                    let here : q ≡ i = omega arith in
                    let best : to q ≡ p = ground arith in
                    rw best (largest (to r) (ground (arith, low)) (ground (arith, high)))
              ]),
      )

  sort_from_lem :
      (k i : ℕ) (a : ℕ → A)
      → i + k ≡ max_size
      → Placed i a
      → let b = sort_from less k i a in Placed max_size b × Rearranged max_size a b
  unfolding sort_from
  sort_from_lem zero i a e placed = (λ q r below. placed q r (omega arith), Rearranged-refl a)
  sort_from_lem (suc k) i a e placed =
      let p = find_largest less a (max_size - (i + 1)) i (i + 1) in
      let (in_range, next) = round-Placed i a (omega arith) placed in
      let (done, rest) = sort_from_lem k (i + 1) (swap a i p) (omega arith) next in
      (done, Rearranged-trans (swap-Rearranged a i p (omega arith) in_range) rest)

  -- For an order whose `<` is the strict part of a total preorder, Sort leaves the elements in
  -- descending order, and they are the elements that were there, each once.
  pub sort-Descending :
      (a : ℕ → A) → Descending less max_size (sort less a) × Rearranged max_size a (sort less a)
  unfolding sort
  sort-Descending a =
      let (placed, same) = sort_from_lem max_size 0 a refl (λ q r below. absurd (omega arith)) in
      (λ q r le lt. placed q r (omega arith) le lt, same)

-- What the C standard says of strcmp: its sign orders the strings totally.
pub record IsStrcmp {ℓ} {A : Type ℓ} (strcmp : A → A → ℤ) : Type ℓ where
  pub opposite : (a b : A) → ltb_ℤ (strcmp a b) (pos 0) ≡ true → ltb_ℤ (strcmp b a) (pos 0) ≡ false
  pub chain :
      (a b c : A)
      → ltb_ℤ (strcmp a b) (pos 0) ≡ false
      → ltb_ℤ (strcmp b c) (pos 0) ≡ false
      → ltb_ℤ (strcmp a c) (pos 0) ≡ false

-- The Sort of strings leaves them in descending order of strcmp, and they are the strings that were
-- there, each once.
pub sort_strings-Descending {ℓ} :
    {A : Type ℓ} (strcmp : A → A → ℤ)
    → IsStrcmp strcmp
    → (a : ℕ → A)
    → Descending (λ x y. ltb_ℤ (strcmp x y) (pos 0)) max_size (sort_strings strcmp a)
      × Rearranged max_size a (sort_strings strcmp a)
sort_strings-Descending strcmp s = sort-Descending (record { asym = s.opposite; trans = s.chain })

-- ===== src/Lookup/Erase.antt =====
-- The two ways to erase an element.
use everyday_coding.Base.{
  ℕ, suc, ◌≡◌, inl, inr, refl, ap, Bool-cases, Option, none, some, List, [], ◌∷◌, ◌++◌, ◌==◌,
  if◌then◌else◌, length, arith,
}
use everyday_coding.CString.{Str, same_bytes}
use everyday_coding.Lookup.{
  Pair, By, by_key, by_value, step_by, Addresses, find, erase, erase_at, erase_by, drop_at,
}
use everyday_coding.Lookup.Insert.{IsApart, rows, in_order}

-- The map without the element that find has found.
abbrev pub without_addr : Addresses → List Pair
without_addr a = if a.addr_found == a.addr then rows a else in_order a

pub erase_at-find :
    (a : Addresses)
    → IsApart a
    → erase_at (find a.addr_found (in_order a)) (in_order a) ≡ without_addr a
unfolding find erase
erase_at-find a apart = let h = apart.set in let g = apart.found in ground arith

module _ (text : ℕ → Str) (drop_key drop_value : Str) where
  -- Which test an element passes; the key is tested first.
  abbrev pub test_of : Pair → Option By
  test_of x =
      if same_bytes (text x.first) drop_key
      then some by_key
      else if same_bytes (text x.second) drop_value
      then some by_value
      else none

  abbrev pub AllPass : List Pair → Type 0
  AllPass [] = Unit {0}
  AllPass (x ∷ mp) = (test_of x ≡ none) × AllPass mp

  -- What the loop that erases does to a map: nothing, if no element passes a test, and else it takes
  -- out the first one that does.
  pub data DropsFirst (before : List Pair) : Option (By × ℕ) → List Pair → Type 0 where
    drops_none : AllPass before → DropsFirst before none before
    drops :
        (front : List Pair) (x : Pair) (back : List Pair) (by : By)
        → before ≡ front ++ x ∷ back
        → AllPass front
        → test_of x ≡ some by
        → DropsFirst before (some (by, length front)) (front ++ back)

  drops_later :
      (x : Pair) (mp left : List Pair) (by : By) (i : ℕ)
      → test_of x ≡ none
      → DropsFirst mp (some (by, i)) left
      → DropsFirst (x ∷ mp) (some (by, suc i)) (x ∷ left)
  drops_later x mp _ by _ fails (drops front y back _ e all passes) =
      drops (x ∷ front) y back by (ap (λ m. x ∷ m) e) (fails, all) passes

  drops_none_later :
      (x : Pair) (mp left : List Pair)
      → test_of x ≡ none
      → DropsFirst mp none left
      → DropsFirst (x ∷ mp) none (x ∷ left)
  drops_none_later x _ _ fails (drops_none all) = drops_none (fails, all)

  step_lem :
      (x : Pair) (mp : List Pair) (d : Option (By × ℕ))
      → test_of x ≡ none
      → DropsFirst mp d (erase_by d mp)
      → DropsFirst (x ∷ mp) (step_by d) (erase_by (step_by d) (x ∷ mp))
  unfolding erase
  step_lem x mp none fails d = drops_none_later x mp mp fails d
  step_lem x mp (some (by, i)) fails d = drops_later x mp (erase i mp) by i fails d

  pub drop_at-DropsFirst :
      (mp : List Pair)
      → DropsFirst mp
          (drop_at text drop_key drop_value mp)
          (erase_by (drop_at text drop_key drop_value mp) mp)
  unfolding drop_at erase
  drop_at-DropsFirst [] = drops_none tt
  drop_at-DropsFirst (x ∷ mp) = elim (Bool-cases (same_bytes (text x.first) drop_key)) [
    | inl e ↦ rw e (drops [] x mp by_key refl tt (rw e refl))
    | inr n ↦ elim (Bool-cases (same_bytes (text x.second) drop_value)) [
      | inl e ↦ rw (n, e) (drops [] x mp by_value refl tt (rw (n, e) refl))
      | inr m ↦
          rw (n, m)
            (step_lem x mp (drop_at text drop_key drop_value mp) (rw (n, m) refl)
              (drop_at-DropsFirst mp))
    ]
  ]

-- ===== src/Ctrl/Order.antt =====
-- The order of the timers in a list, by cycle, and the walk of tmrReset to the place of a new one.
use everyday_coding.Base.{
  ℕ, zero, suc, ◌<◌, ◌≡◌, refl, true, some, List, [], ◌∷◌, ◌++◌, arith, if◌then◌else◌, length, has,
  Bool-cases, inl, inr,
}
use everyday_coding.Base.Int.{ℤ, ltb_ℤ, ◌≤ℤ◌}
use everyday_coding.Ctrl.Memory.{Mem}
use everyday_coding.Ctrl.Chain.{Seg, Chain, nil-Seg, Chain-uncons, Chain-nil_inv, cons-Seg}
use everyday_coding.Ctrl.{find_place}

-- Every timer of the list has at least the cycle `c`.
abbrev pub AllFrom : Mem → ℤ → List ℕ → Type 0
AllFrom m c [] = Unit {0}
AllFrom m c (x ∷ xs) = (c ≤ℤ (m x).cycle) × AllFrom m c xs

abbrev pub IsSorted : Mem → List ℕ → Type 0
IsSorted m [] = Unit {0}
IsSorted m (x ∷ xs) = AllFrom m (m x).cycle xs × IsSorted m xs

abbrev pub SameCycles : List ℕ → Mem → Mem → Type 0
SameCycles xs m g = (a : ℕ) → has a xs ≡ true → (g a).cycle ≡ (m a).cycle

pub AllFrom-frame :
    (m g : Mem) (c : ℤ) (xs : List ℕ) → SameCycles xs m g → AllFrom m c xs → AllFrom g c xs
AllFrom-frame m g c [] same all = tt
AllFrom-frame m g c (x ∷ xs) same all =
    (ground (arith, same x), AllFrom-frame m g c xs (λ a h. same a (ground arith)) all.1)

pub IsSorted-frame : (m g : Mem) (xs : List ℕ) → SameCycles xs m g → IsSorted m xs → IsSorted g xs
IsSorted-frame m g [] same s = tt
IsSorted-frame m g (x ∷ xs) same s =
    let tail = λ (a : ℕ) (h : has a xs ≡ true). same a (ground arith) in
    let e : (g x).cycle ≡ (m x).cycle = same x (ground arith) in
    (rw e (AllFrom-frame m g (m x).cycle xs tail s.0), IsSorted-frame m g xs tail s.1)

pub AllFrom-mono : (m : Mem) (c d : ℤ) (xs : List ℕ) → d ≤ℤ c → AllFrom m c xs → AllFrom m d xs
AllFrom-mono m c d [] le all = tt
AllFrom-mono m c d (x ∷ xs) le all = (omega arith, AllFrom-mono m c d xs le all.1)

-- The timers that a timer of cycle `c` is put behind, and those that it is put before.
pub smaller : Mem → ℤ → List ℕ → List ℕ
smaller m c [] = []
smaller m c (x ∷ xs) = if ltb_ℤ (m x).cycle c then x ∷ smaller m c xs else []

pub not_smaller : Mem → ℤ → List ℕ → List ℕ
not_smaller m c [] = []
not_smaller m c (x ∷ xs) = if ltb_ℤ (m x).cycle c then not_smaller m c xs else x ∷ xs

pub smaller-append : (m : Mem) (c : ℤ) (xs : List ℕ) → smaller m c xs ++ not_smaller m c xs ≡ xs
unfolding smaller not_smaller
smaller-append m c [] = refl
smaller-append m c (x ∷ xs) = ground (arith, smaller-append m c xs)

-- With fuel for more nodes than the list has, the walk of tmrReset ends between the nodes at the
-- front whose cycle is smaller and the rest of the list.
pub find_place-splits :
    (m : Mem) (c : ℤ) (k q p : ℕ) (xs : List ℕ)
    → Chain m q p xs
    → length xs < k
    → (before : ℕ) × (behind : ℕ) × (find_place k m c q p ≡ some (before, behind))
      × Seg m q p (smaller m c xs) before behind
      × Chain m before behind (not_smaller m c xs)
unfolding find_place smaller not_smaller
find_place-splits m c zero q p xs ch fuel = absurd (omega arith)
find_place-splits m c (suc k) q p [] ch fuel =
    let e = Chain-nil_inv m q p ch in (q, p, ground arith, nil-Seg m q p, ch)
find_place-splits m c (suc k) q p (x ∷ xs) ch fuel =
    let (e, ne, back, rest) = Chain-uncons m q p x xs ch in
    let (b, b', found, s, c') = find_place-splits m c k x (m x).next xs rest (omega arith) in
    elim (Bool-cases (ltb_ℤ (m x).cycle c)) [
      | inl less ↦ (
        b,
        b',
        ground (arith, e, ne, less, found),
        rw less (rw e (cons-Seg m q x (smaller m c xs) b b' ne back s)),
        rw less c',
      )
      | inr more ↦ (q, p, ground (arith, e, ne, more), rw more (nil-Seg m q p), rw more ch)
    ]

module _ (m : Mem) (p : ℕ) where
  -- The list with the timer `p` at its place.
  unfoldable pub placed : List ℕ → List ℕ
  placed xs = smaller m (m p).cycle xs ++ p ∷ not_smaller m (m p).cycle xs

  AllFrom-placed :
      (d : ℤ) (xs : List ℕ) → d ≤ℤ (m p).cycle → AllFrom m d xs → AllFrom m d (placed xs)
  unfolding smaller not_smaller placed
  AllFrom-placed d [] le all = (le, tt)
  AllFrom-placed d (x ∷ xs) le all = ground (arith, AllFrom-placed d xs le all.1)

  -- The new list is in order again.
  pub placed-IsSorted : (xs : List ℕ) → IsSorted m xs → IsSorted m (placed xs)
  unfolding smaller not_smaller placed
  placed-IsSorted [] s = (tt, tt)
  placed-IsSorted (x ∷ xs) s = elim (Bool-cases (ltb_ℤ (m x).cycle (m p).cycle)) [
    | inl less ↦
        let all : AllFrom m (m x).cycle (placed xs) =
          AllFrom-placed (m x).cycle xs (ground arith) s.0 in
        rw less (all, placed-IsSorted xs s.1)
    | inr more ↦
        let le : (m p).cycle ≤ℤ (m x).cycle = ground arith in
        rw more ((le, AllFrom-mono m (m x).cycle (m p).cycle xs le s.0), s)
  ]

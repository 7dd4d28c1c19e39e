-- ===== src/Ctrl/Placed.antt =====
-- The list with a new timer at its place, in ttimer/tdengine_old.c: which timers it holds.
use everyday_coding.Base.{
  ℕ, suc, ◌≡◌, ap, false, ◌||◌, List, [], ◌∷◌, ◌++◌, arith, ◌==◌, length, length-append, has,
  has-append,
}
use everyday_coding.Base.Int.{ℤ}
use everyday_coding.Ctrl.Memory.{Mem}
use everyday_coding.Ctrl.Chain.{Distinct}
use everyday_coding.Ctrl.Order.{smaller, not_smaller, smaller-append, placed}

Distinct-insert :
    (p : ℕ) (xs ys : List ℕ)
    → has p (xs ++ ys) ≡ false
    → Distinct (xs ++ ys)
    → Distinct (xs ++ p ∷ ys)
Distinct-insert p [] ys out d = (out, d)
Distinct-insert p (x ∷ xs) ys out d = (
  ground (arith, has-append x xs ys, has-append x xs (p ∷ ys)),
  Distinct-insert p xs ys (ground arith) d.1,
)

-- The list with `p` at its place holds `p` and what it held before.
module _ (m : Mem) (p : ℕ) (xs : List ℕ) where
  pub has-placed : (q : ℕ) → has q (placed m p xs) ≡ (q == p || has q xs)
  unfolding placed
  has-placed q =
      let c = (m p).cycle in
      ground (
        arith,
        has-append q (smaller m c xs) (p ∷ not_smaller m c xs),
        has-append q (smaller m c xs) (not_smaller m c xs),
        ap (has q) (smaller-append m c xs),
      )

  pub length-placed : length (placed m p xs) ≡ suc (length xs)
  unfolding placed
  length-placed =
      let c = (m p).cycle in
      omega (
        arith,
        length-append (smaller m c xs) (p ∷ not_smaller m c xs),
        length-append (smaller m c xs) (not_smaller m c xs),
        ap length (smaller-append m c xs),
      )

  pub placed-Distinct : has p xs ≡ false → Distinct xs → Distinct (placed m p xs)
  unfolding placed
  placed-Distinct out d =
      let c = (m p).cycle in
      let e = smaller-append m c xs in
      Distinct-insert p (smaller m c xs) (not_smaller m c xs) (rw e out) (rw e d)

  pub placed_at :
      (c : ℤ) → (m p).cycle ≡ c → placed m p xs ≡ smaller m c xs ++ p ∷ not_smaller m c xs
  unfolding placed
  placed_at c e = rw e

-- ===== src/Ctrl/Decrement.antt =====
-- Within tmrProcessList of ttimer/tdengine_old.c: `cycle--` on every timer of a list.
use mathlib.Core.Path.{subst}
use everyday_coding.Base.{
  ℕ, zero, suc, ◌-◌, ◌<◌, ◌≡◌, refl, true, false, some, List, [], ◌∷◌, arith, ◌==◌, if◌then◌else◌,
  length, has,
}
use everyday_coding.Base.Int.{pos, pos_part}
use everyday_coding.Ctrl.Memory.{TmrObj, Mem, set_cycle, dec_short}
use everyday_coding.Ctrl.Chain.{Distinct, Chain, Chain-frame, Chain-uncons, Chain-nil_inv}
use everyday_coding.Ctrl.Order.{AllFrom, IsSorted}
use everyday_coding.Ctrl.{decrement}

-- A timer whose cycle is one less.
abbrev pub stepped : TmrObj → TmrObj
stepped o = record o { cycle = dec_short o.cycle }

-- With enough fuel the loop takes one from the cycle of each timer of the list, and does no more.
pub decrement_lem :
    (k : ℕ) (m : Mem) (q p : ℕ) (xs : List ℕ)
    → Chain m q p xs
    → Distinct xs
    → length xs < k
    → (g : Mem) × (decrement k m p ≡ some g)
      × ((a : ℕ) → g a ≡ (if has a xs then stepped (m a) else m a))
unfolding decrement
decrement_lem zero m q p xs ch d fuel = absurd (omega arith)
decrement_lem (suc k) m q p [] ch d fuel =
    let e = Chain-nil_inv m q p ch in (m, rw e refl, λ a. refl)
decrement_lem (suc k) m q p (x ∷ xs) ch d fuel =
    let (e, ne, _, rest) = Chain-uncons m q p x xs ch in
    let m' = set_cycle m x (dec_short (m x).cycle) in
    let same : (m' x).next ≡ (m x).next = ground arith in
    let off : (x == 0) ≡ false = ground arith in
    let rest' = Chain-frame m m' x (m x).next xs (λ a h. ground arith) rest in
    let (g, done, all) = decrement_lem k m' x (m x).next xs rest' d.1 (omega arith) in
    (g, rw (e, off, same, done) refl, λ a. ground (arith, all a))

-- Where the first cycle is positive, taking one from each keeps the order.
AllFrom-stepped :
    (m g : Mem) (n : ℕ) (xs : List ℕ)
    → ((a : ℕ) → has a xs ≡ true → (g a).cycle ≡ dec_short (m a).cycle)
    → AllFrom m (pos (suc n)) xs
    → AllFrom g (pos n) xs
AllFrom-stepped m g n [] step all = tt
AllFrom-stepped m g n (x ∷ xs) step all =
    (ground (arith, step x), AllFrom-stepped m g n xs (λ a h. step a (ground arith)) all.1)

pub IsSorted-stepped :
    (m g : Mem) (xs : List ℕ)
    → ((a : ℕ) → has a xs ≡ true → (g a).cycle ≡ dec_short (m a).cycle)
    → AllFrom m (pos 1) xs
    → IsSorted m xs
    → IsSorted g xs
IsSorted-stepped m g [] step low s = tt
IsSorted-stepped m g (x ∷ xs) step low s =
    let n = pos_part (m x).cycle - 1 in
    let before : (m x).cycle ≡ pos (suc n) = ground (arith, low.0) in
    let after : (g x).cycle ≡ pos n = ground (arith, step x, before) in
    let tail = λ (a : ℕ) (h : has a xs ≡ true). step a (ground arith) in
    (
      rw after (AllFrom-stepped m g n xs tail (subst (λ c. AllFrom m c xs) before s.0)),
      IsSorted-stepped m g xs tail low.1 s.1,
    )

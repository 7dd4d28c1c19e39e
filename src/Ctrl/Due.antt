-- ===== src/Ctrl/Due.antt =====
-- When a timer of ttimer/tdengine_old.c runs out: its list and its cycle as one count of periods.
use native.Mathlib.Nat.{mod-eq_of_lt, mod-eq-sub-mod, mod-add-mod, add-mod-mod, div-add-mod, mod-lt}
use everyday_coding.Base.{
  ℕ, ◌+◌, ◌-◌, ◌*◌, ◌/◌, ◌%◌, ◌^◌, ◌<◌, ◌≡◌, ◌↔◌, refl, ap, ◌∙◌, inl, inr, true, not, ◌&&◌, List,
  [], ◌∷◌, arith, ltb, ◌==◌, if◌then◌else◌, has, lt-cases, eq-cases,
}
use everyday_coding.Base.Int.{ℤ, pos, pos_part, ◌≤ℤ◌, to_short_small}
use everyday_coding.Ctrl.Memory.{Mem}
use everyday_coding.Ctrl.Order.{AllFrom, IsSorted}
use everyday_coding.Ctrl.Reset.{IsArmed}
use everyday_coding.Ctrl.Waiting.{is_waiting, due_now, waiting}
use everyday_coding.Ctrl.{Ctrl}

-- How many steps round a ring of `n` lead from `a` to `i`.
pub steps : (n a i : ℕ) → ℕ
steps n a i = (i + n - a) % n

steps_eq : (n a i : ℕ) → a < n → i < n → steps n a i ≡ (if ltb i a then i + n - a else i - a)
unfolding steps
steps_eq n a i ha hi = elim (lt-cases i a) [
  | inl lt ↦ ground (arith, mod-eq_of_lt {n = i + n - a} {m = n} (omega arith))
  | inr le ↦ ground (
    arith,
    mod-eq-sub-mod {n = i + n - a} {m = n} (omega arith),
    mod-eq_of_lt {n = i + n - a - n} {m = n} (omega arith),
  )
]

next_mod : (n t : ℕ) → 0 < n → (t + 1) % n ≡ (if ltb (t % n + 1) n then t % n + 1 else 0)
next_mod n t h =
    let shift : (t + 1) % n ≡ (t % n + 1) % n = rw mod-add-mod in
    let small = mod-lt t h in
    elim (lt-cases (t % n + 1) n) [
      | inl lt ↦ ground (arith, shift, mod-eq_of_lt lt)
      | inr ge ↦ ground (
        arith,
        shift,
        mod-eq-sub-mod {n = t % n + 1} {m = n} ge,
        mod-eq_of_lt {n = t % n + 1 - n} {m = n} (omega arith),
      )
    ]

-- One period later every list but the current one is a step nearer, and that one is `n - 1` away.
pub steps-next :
    (n t i : ℕ)
    → i < n
    → steps n ((t + 1) % n) i + 1 ≡ (if i == t % n then n else steps n (t % n) i)
steps-next n t i hi =
    let some_list : 0 < n = omega arith in
    let small = mod-lt t some_list in
    let small' = mod-lt (t + 1) some_list in
    ground (
      arith,
      next_mod n t some_list,
      steps_eq n (t % n) i small hi,
      steps_eq n ((t + 1) % n) i small' hi,
    )

pub steps-zero : (n a i : ℕ) → a < n → i < n → (steps n a i ≡ 0) ↔ (i ≡ a)
steps-zero n a i ha hi = ground (arith, steps_eq n a i ha hi)

-- The list that tmrReset chooses is as many steps away as the period says.
pub steps-index : (n t k : ℕ) → 0 < n → steps n (t % n) ((k + t) % n) ≡ k % n
steps-index n t k h =
    let a = mod-lt t h in
    let b = mod-lt k h in
    let shift : (k + t) % n ≡ (k % n + t % n) % n = rw (mod-add-mod, add-mod-mod) in
    let c = mod-lt (k + t) h in
    elim (lt-cases (k % n + t % n) n) [
      | inl lt ↦ ground (arith, steps_eq n (t % n) ((k + t) % n) a c, shift, mod-eq_of_lt lt)
      | inr ge ↦ ground (
        arith,
        steps_eq n (t % n) ((k + t) % n) a c,
        shift,
        mod-eq-sub-mod {n = k % n + t % n} {m = n} ge,
        mod-eq_of_lt {n = k % n + t % n - n} {m = n} (omega arith),
      )
    ]

-- The value of `periodsFromStart` at which the timer runs out.
unfoldable pub due : Ctrl → ℕ → ℕ
due c p =
    c.periods_from_start
    + steps c.num_of_periods (c.periods_from_start % c.num_of_periods) (c.mem p).index
    + c.num_of_periods * pos_part (c.mem p).cycle

-- A timer that is set to run out after `k` periods is due `k` periods from now, if the cycle fits
-- in a `short` and the count of periods does not wrap.
pub due_of_set :
    {c c' : Ctrl} {content : ℕ → List ℕ} {fp param1 p : ℕ} (k : ℕ)
    → IsArmed c c' content fp (pos k) param1 p
    → k / c.num_of_periods < 2 ^ 15
    → k + c.periods_from_start < 2 ^ 32
    → due c' p ≡ c.periods_from_start + k
unfolding due
due_of_set {c} {c'} {p} k s fits small =
    let n = c.num_of_periods in
    let t = c.periods_from_start in
    let some_list : 0 < n = rw (← s.periods) s.inv.lists.periods in
    let place : (c'.mem p).index ≡ (k + t) % n = s.place.0 ∙ ap (λ j. j % n) (omega arith) in
    let round : (c'.mem p).cycle ≡ pos (k / n) = s.place.1 ∙ to_short_small (k / n) fits in
    rw (s.periods, s.now, place, round)
      (omega (arith, steps-index n t k some_list, div-add-mod k n))

AllFrom-mem :
    (m : Mem) (c : ℤ) (xs : List ℕ) (q : ℕ) → AllFrom m c xs → has q xs ≡ true → c ≤ℤ (m q).cycle
AllFrom-mem m c [] q all h = cc
AllFrom-mem m c (x ∷ xs) q all h = elim (eq-cases q x) [
  | inl e ↦ rw e all.0
  | inr ne ↦ AllFrom-mem m c xs q all.1 (ground arith)
]

-- In a list in order, the timers at the front are exactly those whose cycle is used up.
pub has-due_now :
    (m : Mem) (xs : List ℕ) (q : ℕ)
    → IsSorted m xs
    → (has q (due_now m xs) ≡ (has q xs && not (is_waiting (m q))))
      × (has q (waiting m xs) ≡ (has q xs && is_waiting (m q)))
unfolding due_now waiting
has-due_now m [] q s = (refl, refl)
has-due_now m (x ∷ xs) q s =
    let all = AllFrom-mem m (m x).cycle xs q s.0 in
    let rest = has-due_now m xs q s.1 in ground (arith, all, rest)

-- ===== src/Ctrl/Expiry.antt =====
-- A call of tmrProcessList in ttimer/tdengine_old.c, timer by timer.
use native.Mathlib.Nat.{mod-lt}
use everyday_coding.Base.{
  ℕ, zero, suc, ◌+◌, ◌%◌, ◌^◌, ◌<◌, ◌≡◌, ◌≢◌, ◌⊎◌, inl, inr, refl, true, false, some, List, arith,
  has, Bool-cases, eq-cases,
}
use everyday_coding.Base.Int.{ℤ, pos, negsuc, pos_part, ltb_ℤ}
use everyday_coding.Ctrl.Invariant.{Inv}
use everyday_coding.Ctrl.Waiting.{Processed, is_waiting, due_now, waiting, calls}
use everyday_coding.Ctrl.Process.{process-Processed}
use everyday_coding.Ctrl.Due.{steps, steps-next, steps-zero, due, has-due_now}
use everyday_coding.Ctrl.{Ctrl, live, tmr_process_list}

-- The timer `p` was due, has run and is no longer in use.
pub record HasFired (c c' : Ctrl) (fired : List ℕ) (p : ℕ) : Type 0 where
  pub is_due : due c p ≡ c.periods_from_start
  pub called : has p fired ≡ true
  pub gone : live c'.mem p ≡ false

-- The timer `p` is due later, has not run and is still in use, with its callback and its time.
pub record WaitsOn (c c' : Ctrl) (fired : List ℕ) (p : ℕ) : Type 0 where
  pub is_later : c.periods_from_start < due c p
  pub not_called : has p fired ≡ false
  pub in_use : live c'.mem p ≡ true
  pub same_time : due c' p ≡ due c p
  pub same_call : ((c'.mem p).fp ≡ (c.mem p).fp) × ((c'.mem p).param1 ≡ (c.mem p).param1)

positive : (z : ℤ) → ltb_ℤ (pos 0) z ≡ true → (n : ℕ) × (z ≡ pos (suc n))
positive (pos zero) h = absurd (ground arith)
positive (pos (suc n)) h = (n, refl)
positive (negsuc n) h = absurd (ground arith)

module _ {c c₁ : Ctrl} {content : ℕ → List ℕ} (v : Inv c content)
    (d : Processed c content
      (c.periods_from_start % c.num_of_periods)
      (content (c.periods_from_start % c.num_of_periods))
      c₁)
    (small : c.periods_from_start + 1 < 2 ^ 32) (p : ℕ) (h : live c.mem p ≡ true) where
  abbrev i : ℕ
  i = c.periods_from_start % c.num_of_periods

  abbrev c' : Ctrl
  c' = record c₁ { periods_from_start = (c.periods_from_start + 1) % 2 ^ 32 }

  abbrev fired : List ℕ
  fired = due_now c.mem (content i)

  index-lt : (c.mem p).index < c.num_of_periods
  index-lt = v.lists.indexed p h

  i-lt : i < c.num_of_periods
  i-lt = mod-lt c.periods_from_start v.lists.periods

  tick : (c.periods_from_start + 1) % 2 ^ 32 ≡ c.periods_from_start + 1
  tick = omega arith

  -- A timer whose list and cycle are due is in no list any more.
  not_live : (c.mem p).index ≡ i → is_waiting (c.mem p) ≡ false → ¬ (live c₁.mem p ≡ true)
  not_live e w l =
      let j = (c₁.mem p).index in
      let lt = d.inv.lists.indexed p l in
      let now = d.inv.lists.member j lt p in
      let before = v.lists.member j (rw (← d.periods) lt) p in
      let parts = has-due_now c.mem (content i) p (v.lists.sorted i i-lt) in
      ground (arith, now, before, parts, l, w, e, h)

  HasFired-of_due : (c.mem p).index ≡ i → is_waiting (c.mem p) ≡ false → HasFired c c' fired p
  unfolding due
  HasFired-of_due e w =
      let at = v.lists.member i i-lt p in
      let parts = has-due_now c.mem (content i) p (v.lists.sorted i i-lt) in
      let zero = (steps-zero c.num_of_periods i (c.mem p).index i-lt index-lt).1 e in
      let cycle : pos_part (c.mem p).cycle ≡ 0 = ground arith in
      record {
        is_due = rw (zero, cycle) (omega arith);
        called = ground (arith, at, parts, h);
        gone = elim (Bool-cases (live c₁.mem p)) [
          | inl l ↦ absurd (not_live e w l)
          | inr none ↦ none
        ];
      }

  WaitsOn-of_waiting : (c.mem p).index ≡ i → is_waiting (c.mem p) ≡ true → WaitsOn c c' fired p
  unfolding due
  WaitsOn-of_waiting e w =
      let at = v.lists.member i i-lt p in
      let parts = has-due_now c.mem (content i) p (v.lists.sorted i i-lt) in
      let stays : has p (waiting c.mem (content i)) ≡ true = ground (arith, at, parts, h) in
      let t = d.kept p stays in
      let (n, cycle) = positive (c.mem p).cycle w in
      let periods = v.lists.periods in
      let cycle' : (c₁.mem p).cycle ≡ pos n = ground (arith, t, cycle) in
      let index' : (c₁.mem p).index ≡ i = ground (arith, t, e) in
      let zero = (steps-zero c.num_of_periods i (c.mem p).index i-lt index-lt).1 e in
      let far : steps c.num_of_periods ((c.periods_from_start + 1) % c.num_of_periods) i + 1
          ≡ c.num_of_periods =
        ground (arith, steps-next c.num_of_periods c.periods_from_start i i-lt) in
      record {
        is_later = rw (zero, cycle) (omega arith);
        not_called = ground (arith, parts);
        in_use = ground (arith, t, h);
        same_time = rw (tick, d.periods, index', cycle', zero, cycle) (omega (arith, far));
        same_call = ground (arith, t);
      }

  WaitsOn-of_other : (c.mem p).index ≢ i → WaitsOn c c' fired p
  unfolding due
  WaitsOn-of_other ne =
      let at = v.lists.member i i-lt p in
      let parts = has-due_now c.mem (content i) p (v.lists.sorted i i-lt) in
      let t = d.others p (ground (arith, at, h)) in
      let zero = steps-zero c.num_of_periods i (c.mem p).index i-lt index-lt in
      let near = steps-next c.num_of_periods c.periods_from_start (c.mem p).index index-lt in
      let (cycle, _, index, _, _) = t in
      record {
        is_later = ground (arith, zero);
        not_called = ground (arith, at, parts, h);
        in_use = ground (arith, t, h);
        same_time = rw (tick, d.periods, index, cycle) (ground (arith, near));
        same_call = ground (arith, t);
      }

-- On a controller whose invariant holds and whose count of periods does not wrap, a call of
-- tmrProcessList returns, keeps the invariant, counts one period, makes the callbacks of the timers
-- `fired` in order, and every timer in use has either run, being due now, or waits on, being due
-- later.
pub process_fires_due :
    {c : Ctrl} {content : ℕ → List ℕ}
    → Inv c content
    → c.periods_from_start + 1 < 2 ^ 32
    → (c' : Ctrl) × (content' : ℕ → List ℕ) × (fired : List ℕ) × (tmr_process_list c
        ≡ some (c', calls c.mem fired))
      × Inv c' content'
      × (c'.periods_from_start ≡ c.periods_from_start + 1)
      × ((p : ℕ) → live c.mem p ≡ true → HasFired c c' fired p ⊎ WaitsOn c c' fired p)
process_fires_due {c} {content} v small =
    let (c₁, done, d) = process-Processed v in
    let i = c.periods_from_start % c.num_of_periods in
    (
      record c₁ { periods_from_start = (c.periods_from_start + 1) % 2 ^ 32 },
      _,
      due_now c.mem (content i),
      done,
      record { lists = d.inv.lists; owned = d.inv.owned; total = d.inv.total },
      omega arith,
      λ p h. elim (eq-cases (c.mem p).index i) [
        | inl e ↦ elim (Bool-cases (is_waiting (c.mem p))) [
          | inl w ↦ inr (WaitsOn-of_waiting v d small p h e w)
          | inr w ↦ inl (HasFired-of_due v d small p h e w)
        ]
        | inr ne ↦ inr (WaitsOn-of_other v d small p h (ground arith))
      ],
    )

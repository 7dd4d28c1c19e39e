-- ===== src/Ctrl/OnTime.antt =====
-- ttimer/tdengine_old.c from tmrReset to the callback, over the calls of tmrProcessList between them.
use everyday_coding.Base.{
  ℕ, zero, suc, ◌+◌, ◌/◌, ◌%◌, ◌≤◌, ◌^◌, ◌<◌, ◌≡◌, ◌≢◌, ◌⊎◌, inl, inr, refl, ap, ◌∙◌, true, false,
  Option, none, some, List, arith, has, Bool-cases,
}
use everyday_coding.Base.Int.{pos, pos_part, to_short_large}
use everyday_coding.Ctrl.Invariant.{Inv}
use everyday_coding.Ctrl.Waiting.{calls}
use everyday_coding.Ctrl.Due.{due, due_of_set, steps-index}
use everyday_coding.Ctrl.Expiry.{process_fires_due}
use everyday_coding.Ctrl.Reset.{IsArmed, reset-live, reset-fresh}
use everyday_coding.Ctrl.{Ctrl, live, tmr_process_list, reset}

-- `k` calls of tmrProcessList, with no other call between them.
unfoldable pub run : ℕ → Ctrl → Option Ctrl
run zero c = some c
run (suc k) c = elim (tmr_process_list c) [ none ↦ none | some (c', fired) ↦ run k c' ]

-- The call of tmrProcessList on `c` makes the callback of the timer `p` and frees the timer.
pub record Runs (c : Ctrl) (p fp param1 : ℕ) : Type 0 where
  pub after : Ctrl
  pub fired : List ℕ
  pub done : tmr_process_list c ≡ some (after, calls c.mem fired)
  pub called : has p fired ≡ true
  pub callback : ((c.mem p).fp ≡ fp) × ((c.mem p).param1 ≡ param1)
  pub gone : live after.mem p ≡ false

-- On a controller whose invariant holds, a timer in use that is due in `k` periods is still in use
-- after the next `k` calls of tmrProcessList and runs in the one after them, if the count of periods
-- does not wrap meanwhile.
due-Runs :
    (k : ℕ) {c : Ctrl} {content : ℕ → List ℕ} (p : ℕ)
    → Inv c content
    → live c.mem p ≡ true
    → due c p ≡ c.periods_from_start + k
    → c.periods_from_start + k + 1 < 2 ^ 32
    → (c' : Ctrl) × (run k c ≡ some c')
      × (live c'.mem p ≡ true)
      × Runs c' p (c.mem p).fp (c.mem p).param1
unfolding run
due-Runs zero {c} p v h e small =
    let (c', _, fired, done, _, _, all) = process_fires_due v (omega arith) in
    elim (all p h) [
      | inl f ↦ (
        c,
        refl,
        h,
        record {
          after = c';
          fired = fired;
          done = done;
          called = f.called;
          callback = (refl, refl);
          gone = f.gone;
        },
      )
      | inr w ↦ absurd (omega (arith, w.is_later, e))
    ]
due-Runs (suc k) {c} p v h e small =
    let (c', content', fired, done, v', now, all) = process_fires_due v (omega arith) in
    elim (all p h) [
      | inl f ↦ absurd (omega (arith, f.is_due, e))
      | inr w ↦
          let (c'', ran, l, r) =
            due-Runs k p v' w.in_use (omega (arith, w.same_time, e, now)) (omega (arith, now)) in
          (
            c'',
            rw (done, run) ran,
            l,
            record {
              after = r.after;
              fired = r.fired;
              done = r.done;
              called = r.called;
              callback = (r.callback.0 ∙ w.same_call.0, r.callback.1 ∙ w.same_call.1);
              gone = r.gone;
            },
          )
    ]

-- A timer that tmrReset has set for `k` periods, with a cycle that fits in a `short`, waits through
-- `k` calls of tmrProcessList and runs in the one after them, with the callback and the parameter
-- that the caller gave.
pub set-Runs :
    (k : ℕ) {c c' : Ctrl} {content : ℕ → List ℕ} {fp param1 p : ℕ}
    → IsArmed c c' content fp (pos k) param1 p
    → k / c.num_of_periods < 2 ^ 15
    → c.periods_from_start + k + 1 < 2 ^ 32
    → (c'' : Ctrl) × (run k c' ≡ some c'') × (live c''.mem p ≡ true) × Runs c'' p fp param1
set-Runs k {c} {c'} {fp} {param1} {p} s fits small =
    let e = due_of_set k s fits (omega arith) in
    let (c'', ran, l, r) =
      due-Runs k p s.inv s.in_use (omega (arith, e, s.now)) (omega (arith, s.now)) in
    (
      c'',
      ran,
      l,
      record {
        after = r.after;
        fired = r.fired;
        done = r.done;
        called = r.called;
        callback = (r.callback.0 ∙ s.callback.0, r.callback.1 ∙ s.callback.1);
        gone = r.gone;
      },
    )

-- On a controller whose invariant holds, tmrReset for a timer in use or with a free block returns the
-- id of a timer that is in use; `mseconds / resolution` calls of tmrProcessList after it return, and
-- the next one runs the timer, with the callback and the parameter that the caller gave. The count
-- of periods must not wrap meanwhile, and the cycle must fit in a `short`.
pub reset-Runs :
    {c : Ctrl} {content : ℕ → List ℕ} (fp mseconds param1 id : ℕ)
    → Inv c content
    → (live c.mem id ≡ true) ⊎ (c.pool.num_of_free ≢ 0)
    → mseconds / c.resolution / c.num_of_periods < 2 ^ 15
    → c.periods_from_start + mseconds / c.resolution + 1 < 2 ^ 32
    → (c' : Ctrl) × (p : ℕ) × (c'' : Ctrl) × (reset fp (pos mseconds) param1 c id ≡ some (c', p))
      × (live c'.mem p ≡ true)
      × (run (mseconds / c.resolution) c' ≡ some c'')
      × Runs c'' p fp param1
reset-Runs {c} fp mseconds param1 id v can fits small = elim (Bool-cases (live c.mem id)) [
  | inl used ↦
      let (c', _, done, s) = reset-live v fp (pos mseconds) param1 id used in
      let (c'', ran, _, r) = set-Runs (mseconds / c.resolution) s fits small in
      (c', id, c'', done, s.in_use, ran, r)
  | inr unused ↦
      let (c', _, p, done, _, s) =
        reset-fresh v fp (pos mseconds) param1 id unused (ground arith) in
      let (c'', ran, _, r) = set-Runs (mseconds / c.resolution) s fits small in
      (c', p, c'', done, s.in_use, ran, r)
]

-- A timer that tmrReset has set for `k` periods, where the cycle `k / num_of_periods` is too large for
-- a `short` but fits in 16 bits, is due `k % num_of_periods` periods later instead of `k`, if the sum
-- of `k` and the count of periods does not wrap.
pub set_early :
    (k : ℕ) {c c' : Ctrl} {content : ℕ → List ℕ} {fp param1 p : ℕ}
    → IsArmed c c' content fp (pos k) param1 p
    → 2 ^ 15 ≤ k / c.num_of_periods
    → k / c.num_of_periods < 2 ^ 16
    → k + c.periods_from_start < 2 ^ 32
    → due c' p ≡ c.periods_from_start + k % c.num_of_periods
unfolding due
set_early k {c} {c'} {p} s over fits small =
    let n = c.num_of_periods in
    let t = c.periods_from_start in
    let some_list : 0 < n = rw (← s.periods) s.inv.lists.periods in
    let place : (c'.mem p).index ≡ (k + t) % n = s.place.0 ∙ ap (λ j. j % n) (omega arith) in
    let round : pos_part (c'.mem p).cycle ≡ 0 =
      ap pos_part s.place.1 ∙ to_short_large (k / n) over fits in
    rw (s.periods, s.now, place, round) (omega (arith, steps-index n t k some_list))

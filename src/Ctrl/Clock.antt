-- ===== src/Ctrl/Clock.antt =====
-- timerLoopFunc of ttimer/tdengine_old.c over the controllers of `tmrCtrl`.
use everyday_coding.Base.{
  ℕ, zero, suc, ◌≢◌, ◌+◌, ◌%◌, ◌^◌, ◌≡◌, ◌⊎◌, inl, inr, refl, true, false, Option, none, some, List,
  [], ◌∷◌, ◌++◌, arith, leb, ◌==◌, Bool-cases, length,
}
use mathlib.Core.List.{append-nil}
use everyday_coding.Ctrl.Invariant.{Inv}
use everyday_coding.Ctrl.Waiting.{calls, due_now}
use everyday_coding.Ctrl.Process.{process-Processed}
use everyday_coding.Ctrl.Ticks.{tick, timer_loop}
use everyday_coding.Ctrl.{Ctrl, Fired, tmr_process_list}

-- A controller is not in use, or its invariant holds for some content of its lists.
abbrev pub IsSound : Ctrl → Type 0
IsSound c = (c.signature ≡ 0) ⊎ ((content : ℕ → List ℕ) × Inv c content)

abbrev pub AllSound : List Ctrl → Type 0
AllSound [] = Unit {0}
AllSound (c ∷ cs) = IsSound c × AllSound cs

-- A tick of a sound controller returns a sound controller.
pub tick-Inv :
    {content : ℕ → List ℕ} (c : Ctrl)
    → Inv c content
    → (c' : Ctrl) × (fired : List Fired) × (content' : ℕ → List ℕ) × (tick c ≡ some (c', fired))
      × Inv c' content'
unfolding tick
tick-Inv {content} c v = elim (Bool-cases (c.signature == 0)) [
  | inl off ↦ (c, [], content, rw off refl, v)
  | inr on ↦ elim (Bool-cases (leb c.max_ticks (c.ticks + 1))) [
    | inr more ↦ (
      record c { ticks = c.ticks + 1 },
      [],
      content,
      rw (tick, on, more) refl,
      record { lists = v.lists; owned = v.owned; total = v.total },
    )
    | inl full ↦
        let v' : Inv (record c { ticks = c.ticks + 1 }) content = record {
          lists = v.lists;
          owned = v.owned;
          total = v.total;
        } in
        let (c', done, d) = process-Processed v' in
        (
          record c' { periods_from_start = (c.periods_from_start + 1) % 2 ^ 32; ticks = 0 },
          calls c.mem (due_now c.mem (content (c.periods_from_start % c.num_of_periods))),
          _,
          rw (tick, on, full, done) refl,
          record { lists = d.inv.lists; owned = d.inv.owned; total = d.inv.total },
        )
  ]
]

tick-IsSound :
    (c : Ctrl)
    → IsSound c
    → (c' : Ctrl) × (fired : List Fired) × (tick c ≡ some (c', fired)) × IsSound c'
unfolding tick
tick-IsSound c (inl off) = (c, [], rw off refl, inl off)
tick-IsSound c (inr (content, v)) =
    let (c', fired, content', done, v') = tick-Inv c v in (c', fired, done, inr (content', v'))

-- On controllers that are each not in use or have their invariant, timerLoopFunc returns as many
-- controllers, each of which is not in use or has its invariant.
pub timer_loop-AllSound :
    (cs : List Ctrl)
    → AllSound cs
    → (cs' : List Ctrl) × (fired : List Fired) × (timer_loop cs ≡ some (cs', fired))
      × AllSound cs'
      × (length cs' ≡ length cs)
unfolding timer_loop
timer_loop-AllSound [] s = ([], [], refl, tt, refl)
timer_loop-AllSound (c ∷ cs) s =
    let (c', f, done, sound) = tick-IsSound c s.0 in
    let (cs', f', done', sound', len) = timer_loop-AllSound cs s.1 in
    (c' ∷ cs', f ++ f', rw (timer_loop, done, done') refl, (sound, sound'), omega (arith, len))

-- `k` calls of timerLoopFunc on one controller, with the callbacks that they make
pub run_ticks : ℕ → Ctrl → Option (Ctrl × List Fired)
run_ticks zero c = some (c, [])
run_ticks (suc k) c = elim (tick c) [
  | none ↦ none
  | some (c', fired) ↦ elim (run_ticks k c') [
    | none ↦ none
    | some (c'', fired') ↦ some (c'', fired ++ fired')
  ]
]

-- For a controller in use whose invariant holds and whose counter is k + 1 below `max_ticks`, k + 1
-- ticks do what one call of tmrProcessList does, and set the counter back to 0.
pub run_ticks-once :
    (k : ℕ) {content : ℕ → List ℕ} (c : Ctrl)
    → Inv c content
    → c.signature ≢ 0
    → c.ticks + suc k ≡ c.max_ticks
    → (c' : Ctrl) × (fired : List Fired) × (tmr_process_list (record c { ticks = c.max_ticks })
        ≡ some (c', fired))
      × (run_ticks (suc k) c ≡ some (record c' { ticks = 0 }, fired))
unfolding run_ticks tick
run_ticks-once zero {content} c v on count =
    let v' : Inv (record c { ticks = c.max_ticks }) content = record {
      lists = v.lists;
      owned = v.owned;
      total = v.total;
    } in
    let on' : (c.signature == 0) ≡ false = ground arith in
    let last : c.ticks + 1 ≡ c.max_ticks = omega arith in
    let full : leb c.max_ticks c.max_ticks ≡ true = ground arith in
    let fired = calls c.mem (due_now c.mem (content (c.periods_from_start % c.num_of_periods))) in
    let (c', done, _) = process-Processed v' in
    let none_after : fired ++ [] ≡ fired = append-nil fired in
    (
      record c' { periods_from_start = (c.periods_from_start + 1) % 2 ^ 32 },
      fired,
      done,
      rw (run_ticks, tick, on', last, full, done, none_after) refl,
    )
run_ticks-once (suc k) {content} c v on count =
    let v' : Inv (record c { ticks = c.ticks + 1 }) content = record {
      lists = v.lists;
      owned = v.owned;
      total = v.total;
    } in
    let on' : (c.signature == 0) ≡ false = ground arith in
    let more : leb c.max_ticks (c.ticks + 1) ≡ false = ground arith in
    let (c', fired, done, ran) =
      run_ticks-once k (record c { ticks = c.ticks + 1 }) v' on (omega (arith, count)) in
    (c', fired, done, rw (run_ticks, tick, on', more, ran) refl)

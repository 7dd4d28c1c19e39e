-- ===== src/Ctrl/Alarm.antt =====
-- The program of ttimer/tdengine_old.c as a whole: tmrModuleInit, the thread of processAlarmSignal,
-- and the calls of the other threads between its ticks.
use mathlib.Core.Path.{subst}
use everyday_coding.Base.{
  ℕ, ◌+◌, ◌^◌, ◌<◌, ◌≡◌, ◌≢◌, inl, inr, refl, sym, ap, ◌∙◌, Bool, true, false, Option, none, some,
  List, [], ◌∷◌, ◌++◌, map, length,
}
use everyday_coding.Base.Int.{ℤ, pos}
use everyday_coding.Ctrl.Reset.{reset-Inv}
use everyday_coding.Ctrl.Start.{World, Started, started, failed, fault, tmr_init, init-IsNew}
use everyday_coding.Ctrl.Reach.{Provides}
use everyday_coding.Ctrl.Clock.{IsSound, AllSound, timer_loop-AllSound}
use everyday_coding.Ctrl.{Ctrl, Fired, tmr_reset}
use everyday_coding.Ctrl.Ticks.{timer_loop}

-- memset(tmrCtrl, 0, sizeof(tmrCtrl)) on one controller. What its null pointers led to stays in the
-- record, but without a signature nothing uses it.
abbrev pub cleared : Ctrl → Ctrl
cleared c = record c {
  signature = 0;
  resolution = 0;
  num_of_periods = 0;
  periods_from_start = 0;
  max_num_of_tmrs = pos 0;
  num_of_tmrs = 0;
  ticks = 0;
  max_ticks = 0;
}

-- tmrModuleInit: `tmrCtrl` after it, and whether the thread of processAlarmSignal runs, which is
-- what pthread_create answers.
unfoldable pub tmr_module_init : List Ctrl → (created : Bool) → List Ctrl × Bool
tmr_module_init tmr_ctrl created = (map cleared tmr_ctrl, created)

-- the calls that come before those of the later rounds
abbrev pub ran_before :
    List Fired → Option (List Ctrl × List Fired) → Option (List Ctrl × List Fired)
ran_before fired none = none
ran_before fired (some (cs, fired')) = some (cs, fired ++ fired')

-- what a call of timerLoopFunc is followed by
abbrev pub after_loop :
    Option (List Ctrl × List Fired)
    → (List Ctrl → Option (List Ctrl × List Fired))
    → Option (List Ctrl × List Fired)
after_loop none later = none
after_loop (some (cs, fired)) later = ran_before fired (later cs)

-- Rounds of the loop of processAlarmSignal, by what sigwait answers in each: `true` for 0.
pub process_alarm_signal : List Bool → List Ctrl → Option (List Ctrl × List Fired)
process_alarm_signal [] cs = some (cs, [])
process_alarm_signal (false ∷ answers) cs = process_alarm_signal answers cs
process_alarm_signal (true ∷ answers) cs = after_loop (timer_loop cs) (process_alarm_signal answers)

-- The states of `tmrCtrl` while the program runs. tmrInit takes the first controller, and is called
-- when that is not in use: a second call would clear it while the blocks of the first pool are still
-- allocated. The thread passes over the controller until tmrInit writes its signature, with which it
-- ends. What tmrInit returns is what tmrReset is called with.
pub data Running : List Ctrl → Type 0 where
  loaded : (before : List Ctrl) → Running (tmr_module_init before true).0
  initialised :
      {c c' : Ctrl} {cs : List Ctrl} (w : World) (m : ℕ) (resolution longest : ℤ)
      → Running (c ∷ cs)
      → c.signature ≡ 0
      → Provides w
      → m + 10 < 2 ^ 25
      → tmr_init w (pos m) resolution longest ≡ started c'
      → Running (c' ∷ cs)
  set :
      {c c' : Ctrl} {cs : List Ctrl} (fp : ℕ) (mseconds : ℤ) (param1 id id' : ℕ)
      → Running (c ∷ cs)
      → c.signature ≢ 0
      → tmr_reset fp mseconds param1 (some c) (some id) ≡ some (some c', some id')
      → Running (c' ∷ cs)
  woken :
      {cs cs' : List Ctrl} (answers : List Bool) (fired : List Fired)
      → Running cs
      → process_alarm_signal answers cs ≡ some (cs', fired)
      → Running cs'

cleared-AllSound : (cs : List Ctrl) → AllSound (map cleared cs)
cleared-AllSound [] = tt
cleared-AllSound (c ∷ cs) = (inl refl, cleared-AllSound cs)

after_loop-some :
    {cs' cs'' : List Ctrl} (f : List Fired) {f' : List Fired}
    (later : List Ctrl → Option (List Ctrl × List Fired)) (r : Option (List Ctrl × List Fired))
    → r ≡ some (cs', f)
    → later cs' ≡ some (cs'', f')
    → after_loop r later ≡ some (cs'', f ++ f')
after_loop-some f later r e e' = ap (λ x. after_loop x later) e ∙ ap (ran_before f) e'

alarm-AllSound :
    (answers : List Bool) (cs : List Ctrl)
    → AllSound cs
    → (cs' : List Ctrl) × (fired : List Fired) × (process_alarm_signal answers cs
        ≡ some (cs', fired))
      × AllSound cs'
      × (length cs' ≡ length cs)
unfolding process_alarm_signal
alarm-AllSound [] cs s = (cs, [], refl, s, refl)
alarm-AllSound (false ∷ answers) cs s = alarm-AllSound answers cs s
alarm-AllSound (true ∷ answers) cs s =
    let (cs', f, done, s', len) = timer_loop-AllSound cs s in
    let (cs'', f', done', s'', len') = alarm-AllSound answers cs' s' in
    (
      cs'',
      f ++ f',
      after_loop-some f (process_alarm_signal answers) (timer_loop cs) done done',
      s'',
      len' ∙ len,
    )

started_or : Ctrl → Started → Ctrl
started_or d (started c) = c
started_or d failed = d
started_or d fault = d

set_or : Ctrl → Option (Option Ctrl × Option ℕ) → Ctrl
set_or d (some (some c, id)) = c
set_or d (some (none, id)) = d
set_or d none = d

alarm_or : List Ctrl → Option (List Ctrl × List Fired) → List Ctrl
alarm_or d (some (cs, fired)) = cs
alarm_or d none = d

set-IsSound :
    (c c' : Ctrl) (fp : ℕ) (mseconds : ℤ) (param1 id id' : ℕ)
    → IsSound c
    → c.signature ≢ 0
    → tmr_reset fp mseconds param1 (some c) (some id) ≡ some (some c', some id')
    → IsSound c'
unfolding tmr_reset set_or
set-IsSound c c' fp mseconds param1 id id' (inl off) on made = absurd (on off)
set-IsSound c c' fp mseconds param1 id id' (inr (content, v)) on made =
    let (d, id'', content', done, v') = reset-Inv v fp mseconds param1 id in
    let whole : tmr_reset fp mseconds param1 (some c) (some id) ≡ some (some d, some id'') =
      rw (tmr_reset, done) refl in
    subst IsSound (ap (set_or c) (sym whole ∙ made)) (inr (content', v'))

Running-AllSound : (cs : List Ctrl) → Running cs → AllSound cs
unfolding tmr_module_init started_or alarm_or
Running-AllSound cs (loaded before) = cleared-AllSound before
Running-AllSound cs
      (initialised {c = b} {c' = c} {cs = rest} w m resolution longest r fresh g few made) =
    let (d, done, n) =
      init-IsNew w m resolution longest few g.pool_p g.pool_at g.free_list_at g.lists_at g.quiet in
    (
      subst IsSound (ap (started_or c) (sym done ∙ made)) (inr (_, n.inv)),
      (Running-AllSound (b ∷ rest) r).1,
    )
Running-AllSound cs (set {c = b} {c' = c} {cs = rest} fp mseconds param1 id id' r on made) =
    let s = Running-AllSound (b ∷ rest) r in
    (set-IsSound b c fp mseconds param1 id id' s.0 on made, s.1)
Running-AllSound cs (woken {cs = before} answers fired r made) =
    let (after, f, done, s, len) = alarm-AllSound answers before (Running-AllSound before r) in
    subst AllSound (ap (alarm_or cs) (sym done ∙ made)) s

-- While the program runs, which begins with tmrModuleInit, and whatever calls of tmrReset come after a
-- call of tmrInit on a controller that is not in use (for a number of timers from 0 to 2 ^ 25 - 11,
-- with successful mallocs of blocks that do not look like timers in use), each controller is not in
-- use or has its invariant, and the thread of processAlarmSignal goes on: whatever sigwait answers
-- in any number of rounds, they return.
pub Running-goes_on :
    (cs : List Ctrl)
    → Running cs
    → AllSound cs
      × ((answers : List Bool)
          → (cs' : List Ctrl) × (fired : List Fired) × (process_alarm_signal answers cs
              ≡ some (cs', fired))
            × (length cs' ≡ length cs))
Running-goes_on cs r =
    let s = Running-AllSound cs r in
    (s, λ answers. let (cs', f, done, _, len) = alarm-AllSound answers cs s in (cs', f, done, len))

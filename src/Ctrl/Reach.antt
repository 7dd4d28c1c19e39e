-- ===== src/Ctrl/Reach.antt =====
-- The states of a controller of ttimer/tdengine_old.c: what tmrInit, any number of calls of tmrReset
-- and any number of ticks lead to, in any order.
use mathlib.Core.Path.{subst}
use everyday_coding.Base.{
  ℕ, ◌+◌, ◌^◌, ◌<◌, ◌≡◌, ◌≢◌, refl, sym, ap, ◌∙◌, false, Option, none, some, List,
}
use everyday_coding.Base.Int.{ℤ, pos}
use everyday_coding.Ctrl.Invariant.{Inv}
use everyday_coding.Ctrl.Reset.{reset-Inv}
use everyday_coding.Ctrl.Start.{World, Started, started, failed, fault, tmr_init, init-IsNew}
use everyday_coding.Ctrl.Clock.{tick-Inv}
use everyday_coding.Ctrl.{Ctrl, Fired, live, tmr_reset}
use everyday_coding.Ctrl.Ticks.{tick}

-- The calls of malloc succeed, and the blocks, which are not cleared, do not look like timers.
pub record Provides (w : World) : Type 0 where
  pub pool_p : w.pool_p ≢ 0
  pub pool_at : w.pool_at ≢ 0
  pub free_list_at : w.free_list_at ≢ 0
  pub lists_at : w.lists_at ≢ 0
  pub quiet : (q : ℕ) → live w.blocks q ≡ false

pub data Reachable : Ctrl → Type 0 where
  new :
      {c : Ctrl} (w : World) (m : ℕ) (resolution longest : ℤ)
      → Provides w
      → m + 10 < 2 ^ 25
      → tmr_init w (pos m) resolution longest ≡ started c
      → Reachable c
  set :
      {c c' : Ctrl} (fp : ℕ) (mseconds : ℤ) (param1 id id' : ℕ)
      → Reachable c
      → tmr_reset fp mseconds param1 (some c) (some id) ≡ some (some c', some id')
      → Reachable c'
  ticked :
      {c c' : Ctrl} (fired : List Fired) → Reachable c → tick c ≡ some (c', fired) → Reachable c'

of_started : Ctrl → Started → Ctrl
of_started d (started c) = c
of_started d failed = d
of_started d fault = d

of_set : Ctrl → Option (Option Ctrl × Option ℕ) → Ctrl
of_set d (some (some c, id)) = c
of_set d (some (none, id)) = d
of_set d none = d

of_ticked : Ctrl → Option (Ctrl × List Fired) → Ctrl
of_ticked d (some (c, fired)) = c
of_ticked d none = d

abbrev Sound : Ctrl → Type 0
Sound c = (content : ℕ → List ℕ) × Inv c content

Reachable-Sound : (c : Ctrl) → Reachable c → Sound c
unfolding tmr_reset of_started of_set of_ticked
Reachable-Sound c (new w m resolution longest g few made) =
    let (d, done, n) =
      init-IsNew w m resolution longest few g.pool_p g.pool_at g.free_list_at g.lists_at g.quiet in
    subst Sound (ap (of_started c) (sym done ∙ made)) (_, n.inv)
Reachable-Sound c (set {c = b} fp mseconds param1 id id' r made) =
    let (content, v) = Reachable-Sound b r in
    let (d, id'', content', done, v') = reset-Inv v fp mseconds param1 id in
    let whole : tmr_reset fp mseconds param1 (some b) (some id) ≡ some (some d, some id'') =
      rw (tmr_reset, done) refl in
    subst Sound (ap (of_set c) (sym whole ∙ made)) (content', v')
Reachable-Sound c (ticked {c = b} fired r made) =
    let (content, v) = Reachable-Sound b r in
    let (d, fired', content', done, v') = tick-Inv b v in
    subst Sound (ap (of_ticked c) (sym done ∙ made)) (content', v')

-- In every state that calls of tmrReset and ticks lead to from a controller that tmrInit returned, for
-- a number of timers from 0 to 2 ^ 25 - 11, where every malloc succeeded and no address of the pool's
-- blocks, which are not cleared, looked like a timer in use: the invariant holds, every call of
-- tmrReset returns, and so does a tick.
pub Reachable-Inv :
    (c : Ctrl)
    → Reachable c
    → ((content : ℕ → List ℕ) × Inv c content)
      × ((fp : ℕ) (mseconds : ℤ) (param1 id : ℕ)
          → (c' : Ctrl) × (id' : ℕ) × (tmr_reset fp mseconds param1 (some c) (some id)
              ≡ some (some c', some id')))
      × ((c' : Ctrl) × (fired : List Fired) × (tick c ≡ some (c', fired)))
unfolding tmr_reset
Reachable-Inv c r =
    let s = Reachable-Sound c r in
    let v : Inv c s.0 = s.1 in
    (
      s,
      (λ fp mseconds param1 id.
          let (c', id', _, done, _) = reset-Inv v fp mseconds param1 id in
          (c', id', rw (tmr_reset, done) refl)),
      (let (c', fired, _, done, _) = tick-Inv c v in (c', fired, done)),
    )

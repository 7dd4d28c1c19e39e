-- ===== src/Ctrl/Tests.antt =====
-- The theorems on the timer controller of ttimer/tdengine_old.c at concrete controllers.
use everyday_coding.Base.{
  ℕ, Bool, ◌+◌, ◌≡◌, ◌⊎◌, inl, inr, ◌≢◌, refl, true, false, some, List, [], ◌∷◌, arith, length,
}
use everyday_coding.Base.Int.{ℤ, pos, quot_ℤ}
use everyday_coding.Pool.{mem_pool_malloc}
use everyday_coding.Ctrl.Invariant.{Inv}
use everyday_coding.Ctrl.Start.{started, fault, tmr_init, IsNew, init-IsNew, init-fault}
use everyday_coding.Ctrl.Reset.{IsArmed, reset_lem}
use everyday_coding.Ctrl.Waiting.{calls}
use everyday_coding.Ctrl.Alarm.{
  cleared, tmr_module_init, process_alarm_signal, Running, loaded, initialised, set,
  Running-goes_on,
}
use everyday_coding.Ctrl.Clock.{AllSound, run_ticks, run_ticks-once}
use everyday_coding.Ctrl.Due.{due}
use everyday_coding.Ctrl.Expiry.{HasFired, WaitsOn, process_fires_due}
use everyday_coding.Ctrl.OnTime.{run, Runs, reset-Runs, set_early}
use everyday_coding.Ctrl.Reach.{Reachable-Inv}
use everyday_coding.Ctrl.Samples.{
  outside, no_timer, new_ctrl, new_ctrl-Inv, set_ctrl, set_case, full_ctrl, early_case,
  set_ctrl-Reachable, provides, tmr_init_test, tmr_reset_test,
}
use everyday_coding.Ctrl.{Ctrl, live, reset, tmr_reset, tmr_process_list, Fired}
use everyday_coding.Ctrl.Ticks.{tick}

init-IsNew_example :
    (c : Ctrl) × (tmr_init outside (pos 5) (pos 100) (pos 1000) ≡ started c) × IsNew outside c
init-IsNew_example =
    init-IsNew outside 5 (pos 100) (pos 1000) (omega arith) (omega arith) (omega arith)
      (omega arith) (omega arith) no_timer

init-fault_example : tmr_init (record outside { pool_p = 0 }) (pos 5) (pos 100) (pos 1000) ≡ fault
init-fault_example = init-fault (record outside { pool_p = 0 }) 5 (pos 100) (pos 1000) (inl refl)

reset-Runs_example :
    (c' : Ctrl) × (p : ℕ) × (c'' : Ctrl) × (reset 7 (pos 5000) 3 new_ctrl 0 ≡ some (c', p))
    × (live c'.mem p ≡ true)
    × (run 50 c' ≡ some c'')
    × Runs c'' p 7 3
reset-Runs_example =
    reset-Runs 7 5000 3 0 new_ctrl-Inv (inr (omega arith)) (omega arith) (omega arith)

process_fires_due_example :
    (c' : Ctrl) × (content' : ℕ → List ℕ) × (fired : List ℕ) × (tmr_process_list set_ctrl
      ≡ some (c', calls set_ctrl.mem fired))
    × Inv c' content'
    × (c'.periods_from_start ≡ set_ctrl.periods_from_start + 1)
    × ((p : ℕ)
        → live set_ctrl.mem p ≡ true
        → HasFired set_ctrl c' fired p ⊎ WaitsOn set_ctrl c' fired p)
process_fires_due_example = process_fires_due set_case.1.inv (omega (arith, set_case.1.now))

-- No free block.
no_block : reset 7 (pos 5000) 3 full_ctrl 0 ≡ some (full_ctrl, 0)
unfolding reset mem_pool_malloc
no_block = refl

reset_lem_example :
    (live set_ctrl.mem 16384 ≡ true)
      × ((c' : Ctrl) × (content' : ℕ → List ℕ) × (reset 9 (pos 700) 4 set_ctrl 16384
            ≡ some (c', 16384))
          × IsArmed set_ctrl c' content' 9 (quot_ℤ (pos 700) set_ctrl.resolution) 4 16384)
    ⊎ (live set_ctrl.mem 16384 ≡ false)
      × (set_ctrl.pool.num_of_free ≢ 0)
      × ((c' : Ctrl) × (content' : ℕ → List ℕ) × (p : ℕ) × (reset 9 (pos 700) 4 set_ctrl 16384
            ≡ some (c', p))
          × (live set_ctrl.mem p ≡ false)
          × IsArmed set_ctrl c' content' 9 (quot_ℤ (pos 700) set_ctrl.resolution) 4 p)
    ⊎ (live set_ctrl.mem 16384 ≡ false)
      × (set_ctrl.pool.num_of_free ≡ 0)
      × (reset 9 (pos 700) 4 set_ctrl 16384 ≡ some (set_ctrl, 0))
reset_lem_example = reset_lem set_case.1.inv 9 (pos 700) 4 16384

set_early_example : due early_case.0 early_case.2 ≡ 0
set_early_example = set_early 327690 early_case.3 (omega arith) (omega arith) (omega arith)

-- tmrModuleInit on two controllers, and the start of `test`.
loaded_set : Running (set_ctrl ∷ cleared full_ctrl ∷ [])
unfolding tmr_module_init
loaded_set =
    set 7 (pos 5000) 3 0 16384
      (initialised outside 5 (pos 100) (pos 1000) (loaded (full_ctrl ∷ full_ctrl ∷ [])) refl
        provides (omega arith) tmr_init_test)
      (omega arith) tmr_reset_test

Running-goes_on_example :
    AllSound (set_ctrl ∷ cleared full_ctrl ∷ [])
    × ((answers : List Bool)
        → (cs' : List Ctrl) × (fired : List Fired) × (process_alarm_signal answers
              (set_ctrl ∷ cleared full_ctrl ∷ [])
            ≡ some (cs', fired))
          × (length cs' ≡ 2))
Running-goes_on_example = Running-goes_on (set_ctrl ∷ cleared full_ctrl ∷ []) loaded_set

at_17 : Inv (record new_ctrl { ticks = 17 }) (λ _. [])
at_17 = let v = new_ctrl-Inv in record { lists = v.lists; owned = v.owned; total = v.total }

run_ticks-once_example :
    (c' : Ctrl) × (fired : List Fired) × (tmr_process_list (record new_ctrl { ticks = 20 })
      ≡ some (c', fired))
    × (run_ticks 3 (record new_ctrl { ticks = 17 }) ≡ some (record c' { ticks = 0 }, fired))
run_ticks-once_example =
    run_ticks-once 2 (record new_ctrl { ticks = 17 }) at_17 (omega arith) (omega arith)

Reachable-Inv_example :
    ((content : ℕ → List ℕ) × Inv set_ctrl content)
    × ((fp : ℕ) (mseconds : ℤ) (param1 id : ℕ)
        → (c' : Ctrl) × (id' : ℕ) × (tmr_reset fp mseconds param1 (some set_ctrl) (some id)
            ≡ some (some c', some id')))
    × ((c' : Ctrl) × (fired : List Fired) × (tick set_ctrl ≡ some (c', fired)))
Reachable-Inv_example = Reachable-Inv set_ctrl set_ctrl-Reachable

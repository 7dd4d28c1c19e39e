-- ===== src/Ctrl/Ticks.antt =====
-- timerLoopFunc of ttimer/tdengine_old.c.
use everyday_coding.Base.{◌+◌, Option, none, some, List, [], ◌∷◌, ◌++◌, leb, ◌==◌, if◌then◌else◌}
use everyday_coding.Ctrl.{Ctrl, Fired, tmr_process_list}

-- One controller of the loop in timerLoopFunc.
unfoldable pub tick : Ctrl → Option (Ctrl × List Fired)
unfolding tmr_process_list
tick c =
    if c.signature == 0
    then some (c, [])
    else (if leb c.max_ticks (c.ticks + 1)
        then elim (tmr_process_list (record c { ticks = c.ticks + 1 })) [
          | none ↦ none
          | some (c', fired) ↦ some (record c' { ticks = 0 }, fired)
        ]
        else some (record c { ticks = c.ticks + 1 }, []))

-- timerLoopFunc over the controllers of `tmrCtrl`
unfoldable pub timer_loop : List Ctrl → Option (List Ctrl × List Fired)
unfolding tick
timer_loop [] = some ([], [])
timer_loop (c ∷ cs) = elim (tick c) [
  | none ↦ none
  | some (c', fired) ↦ elim (timer_loop cs) [
    | none ↦ none
    | some (cs', fired') ↦ some (c' ∷ cs', fired ++ fired')
  ]
]

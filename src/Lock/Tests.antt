-- ===== src/Lock/Tests.antt =====
-- The lock of ttimer/timer.c when thread 5 holds it.
use everyday_coding.Base.{ℕ, ◌≡◌, refl, true, false, some, arith, update}
use everyday_coding.Lock.{
  LockState, Steps, start, next, locked, try_lock, unlock_timer_list, mutual_exclusion,
}

abbrev held_lock : LockState
held_lock = record { locked_by = 5; inside = update (λ _. false) 5 true }

held_lock-Steps : Steps held_lock
unfolding try_lock
held_lock-Steps = next start (locked 5 (omega arith) refl refl)

mutual_exclusion_example :
    (unlock_timer_list 5 5 ≡ some 0) × ((b : ℕ) → held_lock.inside b ≡ true → b ≡ 5)
mutual_exclusion_example = mutual_exclusion held_lock held_lock-Steps 5 refl

-- ===== src/Map/Entries.antt =====
-- What addTimer of ttimer/timer.c leaves of every timer.
use everyday_coding.Base.{ℕ, ◌≡◌, ◌≢◌, arith}
use everyday_coding.Entry.{Store}
use everyday_coding.Map.{TimerMap, add_timer}
use everyday_coding.Map.Took.{SameWheel}

pub add_timer_at :
    (m : TimerMap) (s : Store) (p q : ℕ)
    → let (m', s') = add_timer m s p in
      (m'.size ≡ m.size)
      × ((s'.timers q).id ≡ (s.timers q).id)
      × (s'.freed q ≡ s.freed q)
      × (q ≢ p
          → SameWheel (s.timers q) (s'.timers q)
            × ((s'.timers q).ref_count ≡ (s.timers q).ref_count))
unfolding add_timer
add_timer_at m s p q = ground arith

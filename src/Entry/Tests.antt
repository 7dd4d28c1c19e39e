-- ===== src/Entry/Tests.antt =====
-- getNextTimerId of ttimer/timer.c after the largest id.
use everyday_coding.Base.{ℕ, ◌^◌, ◌<◌, ◌≡◌, ◌≢◌, some, arith}
use everyday_coding.Entry.{get_next_timer_id, get_next_timer_id_lem}

get_next_timer_id_lem_example :
    (id : ℕ) × (get_next_timer_id 2 18446744073709551615 ≡ some id)
    × (0 < id)
    × (id < 2 ^ 64)
    × (id ≢ 18446744073709551615)
get_next_timer_id_lem_example = get_next_timer_id_lem 18446744073709551615 (omega arith)

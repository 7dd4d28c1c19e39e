-- ===== src/Timers/Held.antt =====
-- The states of the timers of ttimer/timer.c that its calls lead to.
use everyday_coding.Timers.{Reach}
use everyday_coding.Timers.Counted.{Counted}

-- ===== src/Timers/Tests.antt =====
-- A timer of ttimer/timer.c that is added to the map and to a wheel, taken off the wheel again and
-- given back by its creator.
use everyday_coding.Base.{ℕ, false}
use everyday_coding.Entry.{Timer}
use everyday_coding.Wheel.{initial_wheel}
use everyday_coding.Timers.{State, after_add, after_arm, after_stop, after_release}
use everyday_coding.Timers.Counted.{Counted}

abbrev timer : ℕ → Timer
timer id = record {
  id = id;
  ctrl = 0;
  mnext = 0;
  prev = 0;
  next = 0;
  slot = 0;
  wheel = 3;
  state = 0;
  ref_count = 1;
  expire_at = 0;
  fp = 0;
  param = 0;
}

-- Every timer has one reference, of its creator.
abbrev start : State
start = record {
  map = record { size = 2; count = 0; slots = λ _. record { locked_by = 0; timers = 0 } };
  wheels = initial_wheel;
  store = record { timers = timer; freed = λ _. false };
  held = λ _. 1;
  used = λ _. false;
}

abbrev in_map : State
in_map = after_add start 10

abbrev in_both : State
in_both = after_arm in_map 10 25000 1500

abbrev off_wheel : State
off_wheel = after_stop in_both 10

-- The creator gives its reference back, and the map holds the last one.
abbrev let_go : State
let_go = after_release off_wheel 10

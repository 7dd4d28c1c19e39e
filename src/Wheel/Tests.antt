-- ===== src/Wheel/Tests.antt =====
-- The wheels of ttimer/timer.c with a delay of 25 seconds.
use everyday_coding.Base.{ℕ, ◌+◌, ◌*◌, ◌%◌, ◌≤◌, ◌<◌, ◌≡◌, ◌⊎◌, refl, List, true, ◌∷◌, false, arith}
use everyday_coding.Entry.{Timer, Store}
use everyday_coding.Wheel.{
  TimeWheel, initial_wheel, wheel_count, choose_wheel, slot_of, add_to_wheel, remove_from_wheel,
}
use everyday_coding.Wheel.Slots.{slot_of_lem}
use everyday_coding.Wheel.Contents.{in_wheel, in_slot, put_at, Wheels}
use everyday_coding.Wheel.Add.{IsIdle, add_to_wheel-Wheels}
use everyday_coding.Wheel.Remove.{TakenOut, remove_from_wheel-Wheels}
use everyday_coding.Wheel.Reach.{Reachable, started, added, Reachable-Wheels}

abbrev second_wheel : TimeWheel
second_wheel = record {
  next_scan_at = 1000;
  resolution = 1000;
  size = 1024;
  index = 1010;
  slots = λ _. 0;
}

slot_of_lem_example :
    (steps : ℕ) × (slot_of second_wheel 26500 ≡ (1010 + steps + 1) % 1024)
    × (slot_of second_wheel 26500 < 1024)
    × (26500 ≤ 1000 + 1000 * steps)
    × ((26500 ≤ 1000) × (steps ≡ 0) ⊎ (1000 + 1000 * steps < 26500 + 1000))
slot_of_lem_example =
    slot_of_lem second_wheel 26500 (omega arith) (omega arith) (omega arith) (omega arith)
      (omega arith)

abbrev timer : ℕ → Timer
timer id = record {
  id = id;
  ctrl = 0;
  mnext = 0;
  prev = 0;
  next = 0;
  slot = 0;
  wheel = 3;
  state = 0;
  ref_count = 1;
  expire_at = 0;
  fp = 0;
  param = 0;
}

abbrev store : Store
store = record { timers = timer; freed = λ _. false }

no_timer : (q : ℕ) → in_wheel store q ≡ false
no_timer q = ground arith

-- addToWheel of two timers, which come into one slot.
abbrev one : (ℕ → TimeWheel) × Store
one = add_to_wheel initial_wheel store 10 25000 1500

abbrev two : (ℕ → TimeWheel) × Store
two = add_to_wheel one.0 one.1 20 25000 1500

ten-IsIdle : IsIdle store 10
ten-IsIdle = record { ne_null = omega arith; alive = refl; idle = omega arith; few = omega arith }

twenty-IsIdle : IsIdle one.1 20
unfolding add_to_wheel initial_wheel
twenty-IsIdle = record {
  ne_null = omega arith;
  alive = refl;
  idle = omega arith;
  few = omega arith;
}

alive_10 : two.1.freed 10 ≡ false
unfolding add_to_wheel initial_wheel
alive_10 = refl

one_added : Reachable one.0 one.1
one_added = added 10 25000 1500 (started no_timer) ten-IsIdle

two_added : Reachable two.0 two.1
two_added = added 20 25000 1500 one_added twenty-IsIdle

abbrev one_held : (content : ℕ → ℕ → List ℕ) × Wheels one.0 one.1 content
one_held = Reachable-Wheels one.0 one.1 one_added

add_to_wheel-Wheels_example :
    let w = choose_wheel wheel_count 0 one.0 25000 in
    let k = slot_of (one.0 w) (1500 + 25000) in
    Wheels two.0 two.1 (put_at one_held.0 w k (20 ∷ one_held.0 w k))
    × (w < wheel_count)
    × (k < (one.0 w).size)
    × (in_slot two.1 w k 20 ≡ true)
    × ((two.1.timers 20).expire_at ≡ 1500 + 25000)
    × ((two.1.timers 20).ref_count ≡ (one.1.timers 20).ref_count + 1)
add_to_wheel-Wheels_example = add_to_wheel-Wheels one_held.1 20 25000 1500 twenty-IsIdle

abbrev two_held : (content : ℕ → ℕ → List ℕ) × Wheels two.0 two.1 content
two_held = Reachable-Wheels two.0 two.1 two_added

-- The timer that was added first stands behind the other.
remove_from_wheel-Wheels_example :
    (wheel_count ≤ (two.1.timers 10).wheel)
      × (remove_from_wheel two.0 two.1 10 ≡ (false, two.0, two.1))
    ⊎ ((two.1.timers 10).wheel < wheel_count)
      × (let (ok, ws', s') = remove_from_wheel two.0 two.1 10 in
          (ok ≡ true)
          × TakenOut two.0 two.1 two_held.0 10
              (two.1.timers 10).wheel
              (two.1.timers 10).slot
              ws'
              s')
remove_from_wheel-Wheels_example = remove_from_wheel-Wheels two_held.1 10 (omega arith) alive_10

-- ===== src/Map.antt =====
-- The hash map of timers of ttimer/timer.c: `timer_list_t`, `timer_map_t`, addTimer, findTimer and
-- removeTimer. A bucket is a list of timers linked by `mnext`. Each call is one
-- step, which leaves the lock of the bucket as it was: findTimer and removeTimer hold it from their
-- first access to their last, and addTimer, which writes to the timer before it takes the lock, is
-- modelled with nothing in between. The lock itself is in Lock. The walks are given fuel, and `none` is a walk without any.
pub mod Links
pub mod Contents
pub mod Find
pub mod Took
pub mod Remove
pub mod Fuel
pub mod Entries
pub mod Cut
mod Tests
use everyday_coding.Base.{ℕ, zero, suc, ◌%◌, Option, none, some, ◌==◌, if◌then◌else◌, update}
use everyday_coding.Entry.{Timer, Store, write, timer_add_ref, timer_dec_ref}

pub record TimerList : Type 0 where
  pub locked_by : ℕ
  pub timers : ℕ

pub record TimerMap : Type 0 where
  pub size : ℕ
  pub count : ℕ
  pub slots : ℕ → TimerList

-- tListLen(wheels), which as a wheel means that the timer is in none
abbrev pub no_wheel : ℕ
no_wheel = 3

abbrev pub set_head : TimerMap → (idx head : ℕ) → TimerMap
set_head m idx head = record m {
  slots = update m.slots idx (record (m.slots idx) { timers = head });
}

unfoldable pub add_timer : TimerMap → Store → ℕ → TimerMap × Store
add_timer m s p =
    let s1 = timer_add_ref s p in
    let s2 = write s1 p (record (s1.timers p) { wheel = no_wheel }) in
    let idx = (s2.timers p).id % m.size in
    let s3 = write s2 p (record (s2.timers p) { mnext = (m.slots idx).timers }) in
    (set_head m idx p, s3)

-- the walk of findTimer
pub find_loop : ℕ → (ℕ → Timer) → (id p : ℕ) → Option ℕ
find_loop zero mem id p = none
find_loop (suc k) mem id p =
    let rest = find_loop k mem id (mem p).mnext in
    if p == 0 then some 0 else (if (mem p).id == id then some p else rest)

-- findTimer: the timer or NULL, and the store after it
pub find_timer : ℕ → TimerMap → Store → (id : ℕ) → Option (ℕ × Store)
unfolding find_loop
find_timer k m s id =
    if id == 0 then some (0, s) else elim (find_loop k s.timers id (m.slots (id % m.size)).timers) [
      | none ↦ none
      | some p ↦ some (p, (if p == 0 then s else timer_add_ref s p))
    ]

-- the walk of removeTimer: the node before the timer, and the timer or NULL
pub remove_loop : ℕ → (ℕ → Timer) → (id prev p : ℕ) → Option (ℕ × ℕ)
remove_loop zero mem id prev p = none
remove_loop (suc k) mem id prev p =
    let rest = remove_loop k mem id p (mem p).mnext in
    if p == 0 then some (prev, 0) else (if (mem p).id == id then some (prev, p) else rest)

-- what removeTimer does with the timer `p` that it has found
pub take_off : TimerMap → Store → (idx prev p : ℕ) → TimerMap × Store
take_off m s idx prev p =
    if prev == 0
    then (set_head m idx (s.timers p).mnext, timer_dec_ref s p)
    else (m, timer_dec_ref (write s prev (record (s.timers prev) { mnext = (s.timers p).mnext })) p)

pub remove_timer : ℕ → TimerMap → Store → (id : ℕ) → Option (TimerMap × Store)
unfolding remove_loop
remove_timer k m s id = elim (remove_loop k s.timers id 0 (m.slots (id % m.size)).timers) [
  | none ↦ none
  | some (prev, p) ↦ some (if p == 0 then (m, s) else take_off m s (id % m.size) prev p)
]

-- ===== src/Timers.antt =====
-- ttimer/timer.c as a whole: the timers, their map and the wheels, and the references that others
-- hold. addTimer is called once for a new timer, and addToWheel for a timer of the map; any timer can
-- be removed from its wheel or, by its id, from the map; and callers give back the references that
-- they have. Each call is a step, and ends before the next one begins: addToWheel writes to the timer
-- before it takes the mutex, and is not safe against a removeFromWheel of that timer meanwhile.
pub mod Frames
pub mod Counted
pub mod Mapped
pub mod Wheeled
pub mod Held
mod Tests
use everyday_coding.Base.{
  ℕ, ◌+◌, ◌-◌, ◌^◌, ◌≤◌, ◌<◌, ◌≡◌, ◌≢◌, Bool, true, false, some, ◌==◌, if◌then◌else◌, update,
}
use everyday_coding.Entry.{Store, timer_dec_ref}
use everyday_coding.Map.{TimerMap, no_wheel, add_timer, find_timer, remove_timer}
use everyday_coding.Wheel.{TimeWheel, initial_wheel, add_to_wheel, remove_from_wheel}
use everyday_coding.Wheel.Contents.{in_wheel}

-- `held` counts the references that are not those of the map and the wheels, and `used` tells which
-- timers have been added to the map at some time.
pub record State : Type 0 where
  pub map : TimerMap
  pub wheels : ℕ → TimeWheel
  pub store : Store
  pub held : ℕ → ℕ
  pub used : ℕ → Bool

-- The map and the wheels are empty, and nothing has been freed.
pub record IsStart (t : State) : Type 0 where
  pub size : 0 < t.map.size
  pub no_timers : (i : ℕ) → (t.map.slots i).timers ≡ 0
  pub no_wheels : t.wheels ≡ initial_wheel
  pub none_in_wheel : (q : ℕ) → in_wheel t.store q ≡ false
  pub none_freed : (q : ℕ) → t.store.freed q ≡ false
  pub counts : (q : ℕ) → (t.store.timers q).ref_count ≡ t.held q
  pub bytes : (q : ℕ) → (t.store.timers q).ref_count < 2 ^ 8
  pub none_used : (q : ℕ) → t.used q ≡ false

-- The timer is neither NULL nor freed, and has room for a reference.
pub record IsGood (s : Store) (p : ℕ) : Type 0 where
  pub ne_null : p ≢ 0
  pub alive : s.freed p ≡ false
  pub few : (s.timers p).ref_count < 255

abbrev pub after_add : State → ℕ → State
after_add t p =
    let (map, store) = add_timer t.map t.store p in
    record t { map = map; store = store; used = update t.used p true }

-- What findTimer has found, if it is not NULL, is held by the caller.
abbrev pub after_find : State → ℕ → Store → State
after_find t p store = record t {
  store = store;
  held = if p == 0 then t.held else update t.held p (t.held p + 1);
}

abbrev pub after_arm : State → (p delay now : ℕ) → State
after_arm t p delay now =
    let (wheels, store) = add_to_wheel t.wheels t.store p delay now in
    record t { wheels = wheels; store = store }

abbrev pub after_stop : State → ℕ → State
after_stop t p =
    let (_, wheels, store) = remove_from_wheel t.wheels t.store p in
    record t { wheels = wheels; store = store }

abbrev pub after_release : State → ℕ → State
after_release t p = record t {
  store = timer_dec_ref t.store p;
  held = update t.held p (t.held p - 1);
}

pub data Reach : State → Type 0 where
  started : {t : State} → IsStart t → Reach t
  added :
      {t : State} (p : ℕ) → Reach t → IsGood t.store p → t.used p ≡ false → Reach (after_add t p)
  found :
      {t : State} (fuel id p : ℕ) (store : Store)
      → Reach t
      → find_timer fuel t.map t.store id ≡ some (p, store)
      → (t.store.timers p).ref_count < 255
      → Reach (after_find t p store)
  removed :
      {t : State} (fuel id : ℕ) (map : TimerMap) (store : Store)
      → Reach t
      → remove_timer fuel t.map t.store id ≡ some (map, store)
      → Reach (record t { map = map; store = store })
  armed :
      {t : State} (p delay now : ℕ)
      → Reach t
      → IsGood t.store p
      → t.used p ≡ true
      → no_wheel ≤ (t.store.timers p).wheel
      → Reach (after_arm t p delay now)
  stopped : {t : State} (p : ℕ) → Reach t → p ≢ 0 → t.store.freed p ≡ false → Reach (after_stop t p)
  released : {t : State} (p : ℕ) → Reach t → p ≢ 0 → 0 < t.held p → Reach (after_release t p)

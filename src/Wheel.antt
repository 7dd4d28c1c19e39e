-- ===== src/Wheel.antt =====
-- The time wheels of ttimer/timer.c: `time_wheel_t`, `wheels`, addToWheel and removeFromWheel. Each
-- call is one step, modelled with nothing in between: both look at the timer, and addToWheel writes to
-- it, before they take the mutex of the wheel (Wheel/Interrupted has its two parts). The slots are
-- doubly linked lists; the time of the call is an argument. Numbers of 32 and 16 bits wrap as in the
-- source.
pub mod Slots
pub mod Contents
pub mod Add
pub mod Unlink
pub mod Entries
pub mod Remove
pub mod Reach
pub mod Linked
pub mod Interrupted
mod Tests
use everyday_coding.Base.{
  ℕ, zero, suc, ◌+◌, ◌-◌, ◌*◌, ◌/◌, ◌%◌, ◌^◌, Bool, true, false, ltb, ◌==◌, if◌then◌else◌, update,
}
use everyday_coding.Entry.{Timer, Store, write, timer_add_ref, timer_dec_ref}

pub record TimeWheel : Type 0 where
  pub next_scan_at : ℕ
  pub resolution : ℕ
  pub size : ℕ
  pub index : ℕ
  pub slots : ℕ → ℕ

-- tListLen(wheels)
abbrev pub wheel_count : ℕ
wheel_count = 3

-- The resolutions and the sizes of `wheels`, before any timer is added; MSECONDS_PER_TICK is 5.
unfoldable pub initial_wheel : ℕ → TimeWheel
initial_wheel i = record {
  next_scan_at = 0;
  resolution = if i == 0 then 5 else (if i == 1 then 1000 else 60000);
  size = if i == 0 then 4096 else 1024;
  index = 0;
  slots = λ _. 0;
}

-- the loop of addToWheel over the wheels from `i` on, with the rounds that are left
pub choose_wheel : ℕ → ℕ → (ℕ → TimeWheel) → (delay : ℕ) → ℕ
choose_wheel zero i ws delay = wheel_count - 1
choose_wheel (suc k) i ws delay =
    let rest = choose_wheel k (i + 1) ws delay in
    if ltb delay ((ws i).resolution * (ws i).size % 2 ^ 32) then i else rest

-- `idx` of addToWheel
pub steps_to : TimeWheel → (expire_at : ℕ) → ℕ
steps_to w expire_at =
    if ltb w.next_scan_at expire_at
    then ((expire_at - w.next_scan_at) % 2 ^ 32 + w.resolution + (2 ^ 32 - 1))
      % 2 ^ 32
      / w.resolution
    else 0

pub slot_of : TimeWheel → (expire_at : ℕ) → ℕ
unfolding steps_to
slot_of w expire_at = (w.index + steps_to w expire_at + 1) % 2 ^ 32 % w.size % 2 ^ 16

abbrev pub set_slot : (ℕ → TimeWheel) → (w slot p : ℕ) → ℕ → TimeWheel
set_slot ws w slot p = update ws w (record (ws w) { slots = update (ws w).slots slot p })

-- the writes of addToWheel once the wheel `w`, the slot and the time are known
pub put_in_slot : (ℕ → TimeWheel) → Store → (p w slot expire_at : ℕ) → (ℕ → TimeWheel) × Store
put_in_slot ws s p w slot expire_at =
    let head = (ws w).slots slot in
    let s1 = write s p (record (s.timers p) {
      ref_count = ((s.timers p).ref_count + 1) % 2 ^ 8;
      wheel = w;
      prev = 0;
      expire_at = expire_at;
      slot = slot;
      next = head;
    }) in
    (
      set_slot ws w slot p,
      (if head == 0 then s1 else write s1 head (record (s1.timers head) { prev = p })),
    )

unfoldable pub add_to_wheel : (ℕ → TimeWheel) → Store → (p delay now : ℕ) → (ℕ → TimeWheel) × Store
unfolding put_in_slot slot_of choose_wheel
add_to_wheel ws s p delay now =
    let w = choose_wheel wheel_count 0 ws delay in
    put_in_slot ws s p w (slot_of (ws w) (now + delay)) (now + delay)

-- the writes of removeFromWheel that unlink the timer
pub unlink_timer : Store → ℕ → Store
unlink_timer s p =
    let t = s.timers p in
    let s1 =
      if t.prev == 0 then s else write s t.prev (record (s.timers t.prev) { next = t.next }) in
    let t1 = s1.timers p in
    (if t1.next == 0 then s1 else write s1 t1.next (record (s1.timers t1.next) { prev = t1.prev }))

pub remove_from_wheel : (ℕ → TimeWheel) → Store → ℕ → Bool × (ℕ → TimeWheel) × Store
unfolding unlink_timer
remove_from_wheel ws s p =
    let s1 = unlink_timer s p in
    let t = s1.timers p in
    let ws1 = if (ws t.wheel).slots t.slot == p then set_slot ws t.wheel t.slot t.next else ws in
    let s2 = write s1 p (record t { wheel = wheel_count; next = 0; prev = 0 }) in
    if ltb (s.timers p).wheel wheel_count then (true, ws1, timer_dec_ref s2 p) else (false, ws, s)

-- ===== src/Wheel/Slots.antt =====
-- addToWheel of ttimer/timer.c: the wheel and the slot that it chooses.
use native.Mathlib.Nat.{div-add-mod, div-le_self, mod-lt}
use everyday_coding.Base.{
  ℕ, ◌+◌, ◌-◌, ◌*◌, ◌/◌, ◌%◌, ◌^◌, ◌≤◌, ◌<◌, ◌≡◌, ◌⊎◌, refl, inl, inr, true, false, arith, ltb,
  lt-cases,
}
use everyday_coding.Wheel.{TimeWheel, initial_wheel, choose_wheel, steps_to, slot_of}

-- On wheels with the resolutions and sizes of the source, addToWheel takes the first wheel whose span
-- is longer than the delay: 20480 ms, 1024 s, or else the last one.
choose_wheel_lem :
    (ws : ℕ → TimeWheel) (delay : ℕ)
    → ((i : ℕ)
        → ((ws i).resolution ≡ (initial_wheel i).resolution)
          × ((ws i).size ≡ (initial_wheel i).size))
    → (choose_wheel 3 0 ws delay ≡ 0) × (delay < 20480)
      ⊎ (choose_wheel 3 0 ws delay ≡ 1) × (20480 ≤ delay) × (delay < 1024000)
      ⊎ (choose_wheel 3 0 ws delay ≡ 2) × (1024000 ≤ delay)
unfolding choose_wheel initial_wheel
choose_wheel_lem ws delay same =
    let (r0, z0) = same 0 in
    let (r1, z1) = same 1 in let (r2, z2) = same 2 in rw (r0, z0, r1, z1, r2, z2) (ground arith)

-- The slot some steps behind the index, if nothing wraps.
slot_at :
    (w : TimeWheel) (steps : ℕ)
    → 0 < w.size
    → w.size < 2 ^ 16
    → w.index + steps + 1 < 2 ^ 32
    → let slot = (w.index + steps + 1) % 2 ^ 32 % w.size % 2 ^ 16 in
      (slot ≡ (w.index + steps + 1) % w.size) × (slot < w.size)
slot_at w steps some_slot small fits =
    let plain : (w.index + steps + 1) % 2 ^ 32 ≡ w.index + steps + 1 = omega arith in
    let low = mod-lt (w.index + steps + 1) some_slot in
    rw plain (omega (arith, low), omega (arith, low))

-- The slot that addToWheel chooses is one of the wheel, and stands one place more behind the index
-- than the least number of steps, each of a resolution from the next scan on, that reaches the time
-- at which the timer runs out, counted round the wheel; if the wheel has between 1 and 2 ^ 16 - 1
-- slots, its index is one of them, its resolution is not 0, and that time is less than 2 ^ 32 - r - n
-- after the next scan, with the resolution r and n slots.
pub slot_of_lem :
    (w : TimeWheel) (expire_at : ℕ)
    → 0 < w.resolution
    → 0 < w.size
    → w.size < 2 ^ 16
    → w.index < w.size
    → expire_at + w.resolution + w.size < w.next_scan_at + 2 ^ 32
    → (steps : ℕ) × (slot_of w expire_at ≡ (w.index + steps + 1) % w.size)
      × (slot_of w expire_at < w.size)
      × (expire_at ≤ w.next_scan_at + w.resolution * steps)
      × ((expire_at ≤ w.next_scan_at) × (steps ≡ 0)
          ⊎ (w.next_scan_at + w.resolution * steps < expire_at + w.resolution))
unfolding slot_of steps_to
slot_of_lem w expire_at some_res some_slot small inside fits =
    let slot = λ (steps : ℕ). slot_at w steps some_slot small in
    elim (lt-cases w.next_scan_at expire_at) [
      | inl later ↦
          let n = expire_at - w.next_scan_at + w.resolution - 1 in
          let wrap : ((expire_at - w.next_scan_at) % 2 ^ 32 + w.resolution + (2 ^ 32 - 1)) % 2 ^ 32
              ≡ n =
            omega arith in
          let on : ltb w.next_scan_at expire_at ≡ true = ground arith in
          let parts = div-add-mod n w.resolution in
          let low = mod-lt n some_res in
          let below = div-le_self n w.resolution in
          let (at, in_range) = slot (n / w.resolution) (omega (arith, below)) in
          rw (on, wrap)
            (
              n / w.resolution,
              at,
              in_range,
              omega (arith, parts, low),
              inr (omega (arith, parts, low)),
            )
      | inr now ↦
          let off : ltb w.next_scan_at expire_at ≡ false = ground arith in
          let (at, in_range) = slot 0 (omega arith) in
          rw off (0, at, in_range, omega arith, inl (now, refl))
    ]

-- ===== src/Wheel/Interrupted.antt =====
-- addToWheel of ttimer/timer.c in the two parts before and under the mutex, and what a removeFromWheel
-- of the same timer in between leads to.
use mathlib.Core.Path.{fun_ext}
use everyday_coding.Base.{
  ℕ, ◌+◌, ◌%◌, ◌^◌, ◌<◌, ◌≡◌, refl, ap, ◌∙◌, inl, inr, true, arith, ◌==◌, if◌then◌else◌, Bool-cases,
}
use everyday_coding.Entry.{Timer, Store, write}
use everyday_coding.Wheel.Unlink.{unlink_at, removes, removed_here}
use everyday_coding.Wheel.{
  TimeWheel, wheel_count, choose_wheel, slot_of, set_slot, put_in_slot, add_to_wheel,
  remove_from_wheel,
}

-- Before the mutex is taken.
prepare_timer : Store → (p w expire_at : ℕ) → Store
prepare_timer s p w expire_at = write s p (record (s.timers p) {
  ref_count = ((s.timers p).ref_count + 1) % 2 ^ 8;
  wheel = w;
  prev = 0;
  expire_at = expire_at;
})

-- Under the mutex of the wheel `w`, which has been read before.
link_timer : (ℕ → TimeWheel) → Store → (p w : ℕ) → (ℕ → TimeWheel) × Store
link_timer ws s p w =
    let slot = slot_of (ws w) (s.timers p).expire_at in
    let head = (ws w).slots slot in
    let s1 = write s p (record (s.timers p) { slot = slot; next = head }) in
    (
      set_slot ws w slot p,
      (if head == 0 then s1 else write s1 head (record (s1.timers head) { prev = p })),
    )

write-write : (s : Store) (p : ℕ) (a b : Timer) → write (write s p a) p b ≡ write s p b
write-write s p a b =
    ap (λ ts. record s { timers = ts })
      (fun_ext λ q. elim (Bool-cases (q == p)) [ inl e ↦ rw e refl | inr e ↦ rw e refl ])

-- One part after the other is addToWheel.
link_timer-prepare_timer :
    (ws : ℕ → TimeWheel) (s : Store) (p delay now : ℕ)
    → let w = choose_wheel wheel_count 0 ws delay in
      link_timer ws (prepare_timer s p w (now + delay)) p w ≡ add_to_wheel ws s p delay now
unfolding link_timer prepare_timer add_to_wheel put_in_slot
link_timer-prepare_timer ws s p delay now =
    let w = choose_wheel wheel_count 0 ws delay in
    let here : (p == p) ≡ true = ground arith in
    let t = record (s.timers p) {
      ref_count = ((s.timers p).ref_count + 1) % 2 ^ 8;
      wheel = w;
      prev = 0;
      expire_at = now + delay;
    } in
    let slot = slot_of (ws w) (now + delay) in
    let head = (ws w).slots slot in
    let same = write-write s p t (record t { slot = slot; next = head }) in
    rw here (
      ap
        (λ s1. (
          set_slot ws w slot p,
          (if head == 0 then s1 else write s1 head (record (s1.timers head) { prev = p })),
        ))
        same)

link_at :
    (ws : ℕ → TimeWheel) (s : Store) (p w : ℕ)
    → let (ws', s') = link_timer ws s p w in
      ((slot : ℕ) × (ws' w).slots slot ≡ p)
      × ((s'.timers p).wheel ≡ (s.timers p).wheel)
      × ((s'.timers p).ref_count ≡ (s.timers p).ref_count)
unfolding link_timer
link_at ws s p w =
    let slot = slot_of (ws w) (s.timers p).expire_at in
    let wheel : (w == w) ≡ true = ground arith in
    let here : (slot == slot) ≡ true = ground arith in
    let own : (p == p) ≡ true = ground arith in
    ((slot, rw (wheel, here) refl), ground arith, ground arith)

prepared :
    (s : Store) (p w expire_at : ℕ)
    → (((prepare_timer s p w expire_at).timers p).wheel ≡ w)
      × (((prepare_timer s p w expire_at).timers p).ref_count
          ≡ ((s.timers p).ref_count + 1) % 2 ^ 8)
unfolding prepare_timer
prepared s p w expire_at = let own : (p == p) ≡ true = ground arith in rw own (refl, refl)

-- If another thread calls removeFromWheel of the timer between the two parts, that succeeds, and in
-- the end the timer is the first of a slot though it counts as in no wheel, and it has as many
-- references as before, none of them for the wheel.
interrupted :
    (ws : ℕ → TimeWheel) (s : Store) (p w expire_at : ℕ)
    → w < wheel_count
    → (s.timers p).ref_count < 2 ^ 8
    → let (ok, ws1, s1) = remove_from_wheel ws (prepare_timer s p w expire_at) p in
      let (ws2, s2) = link_timer ws1 s1 p w in
      (ok ≡ true)
      × ((slot : ℕ) × (ws2 w).slots slot ≡ p)
      × ((s2.timers p).wheel ≡ wheel_count)
      × ((s2.timers p).ref_count ≡ (s.timers p).ref_count)
interrupted ws s p w expire_at lt few =
    let s0 = prepare_timer s p w expire_at in
    let (at, count) = prepared s p w expire_at in
    let in_wheel : (s0.timers p).wheel < 3 = omega (arith, at) in
    let (ok, ws1, s1) = remove_from_wheel ws s0 p in
    let (first, wheel, refs) = link_at ws1 s1 p w in
    let (_, _, same, _) = unlink_at s0 p p in
    let (out, back, _) = removed_here ws s0 p in_wheel in
    (removes ws s0 p in_wheel, first, wheel ∙ out, omega (arith, refs, back, same, count))

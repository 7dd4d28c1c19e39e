-- ===== src/Wheel/Linked.antt =====
-- removeFromWheel of ttimer/timer.c on a timer that addToWheel has just put at the head of a slot.

use everyday_coding.Base.{
  ℕ, ◌+◌, ◌%◌, ◌^◌, ◌<◌, ◌≡◌, ◌≢◌, refl, ◌∙◌, inl, inr, Bool, true, arith, ltb, ◌==◌, if◌then◌else◌,
  eq-cases,
}
use everyday_coding.Entry.{Store}
use everyday_coding.Wheel.Add.{choose_wheel-lt}
use everyday_coding.Wheel.{
  TimeWheel, wheel_count, choose_wheel, slot_of, put_in_slot, add_to_wheel, unlink_timer,
  remove_from_wheel,
}

module _ (ws : ℕ → TimeWheel) (s : Store) (p w slot e : ℕ) (ne : p ≢ 0) where
  abbrev head : ℕ
  head = (ws w).slots slot

  -- What the memory holds after the timer is put in front of `head`.
  put_here :
      head ≢ p
      → let (_, s1) = put_in_slot ws s p w slot e in
        ((s1.timers p).next ≡ head)
        × ((s1.timers p).prev ≡ 0)
        × ((s1.timers p).wheel ≡ w)
        × ((s1.timers p).slot ≡ slot)
        × ((s1.timers p).ref_count ≡ ((s.timers p).ref_count + 1) % 2 ^ 8)
  unfolding put_in_slot
  put_here other = ground arith

  put_there :
      (q : ℕ)
      → q ≢ p
      → q ≢ 0
      → let (_, s1) = put_in_slot ws s p w slot e in
        ((s1.timers q).next ≡ (s.timers q).next)
        × ((s1.timers q).prev ≡ (if q == head then p else (s.timers q).prev))
  unfolding put_in_slot
  put_there q apart some_q = ground arith

-- What removeFromWheel does to the memory where the timer is at the head of its slot.
unlink_head :
    (s : Store) (p : ℕ)
    → (s.timers p).prev ≡ 0
    → (q : ℕ)
    → (((unlink_timer s p).timers q).next ≡ (s.timers q).next)
      × (((unlink_timer s p).timers q).prev ≡ (
          if (s.timers p).next == 0
          then (s.timers q).prev
          else (if q == (s.timers p).next then 0 else (s.timers q).prev)))
      × (((unlink_timer s p).timers q).ref_count ≡ (s.timers q).ref_count)
      × (((unlink_timer s p).timers q).wheel ≡ (s.timers q).wheel)
      × (((unlink_timer s p).timers q).slot ≡ (s.timers q).slot)
unfolding unlink_timer
unlink_head s p e q = rw e (ground arith)

-- removeFromWheel on a timer that is in a wheel, as a whole.
remove_from_wheel_at :
    (ws : ℕ → TimeWheel) (s : Store) (p : ℕ)
    → (s.timers p).wheel < 3
    → let s1 = unlink_timer s p in
      let (ok, ws2, s2) = remove_from_wheel ws s p in
      let t = s1.timers p in
      (ok ≡ true)
      × ((j k : ℕ)
          → (ws2 j).slots k ≡ (
              if (ws t.wheel).slots t.slot == p
              then (if j == t.wheel
                  then (if k == t.slot then t.next else (ws j).slots k)
                  else (ws j).slots k)
              else (ws j).slots k))
      × ((q : ℕ)
          → q ≢ p
          → ((s2.timers q).next ≡ (s1.timers q).next) × ((s2.timers q).prev ≡ (s1.timers q).prev))
      × ((s2.timers p).wheel ≡ 3)
      × ((s2.timers p).ref_count ≡ (t.ref_count + 255) % 2 ^ 8)
unfolding remove_from_wheel
remove_from_wheel_at ws s p lt =
    let on : ltb (s.timers p).wheel 3 ≡ true = ground arith in
    rw on (refl, (λ j k. ground arith), (λ q ne. ground arith), ground arith, ground arith)

-- What is left of adding a timer to a wheel and removing it: nothing but its own fields.
pub record Undone (ws : ℕ → TimeWheel) (s : Store) (p : ℕ) (ok : Bool) (ws' : ℕ → TimeWheel)
    (s' : Store) : Type 0 where
  pub removed : ok ≡ true
  pub same_slots : (j k : ℕ) → (ws' j).slots k ≡ (ws j).slots k
  pub same_links :
      (q : ℕ)
      → q ≢ p
      → q ≢ 0
      → ((s'.timers q).next ≡ (s.timers q).next) × ((s'.timers q).prev ≡ (s.timers q).prev)
  pub in_no_wheel : (s'.timers p).wheel ≡ wheel_count
  pub same_references : (s'.timers p).ref_count ≡ (s.timers p).ref_count

set_slot_at :
    (ws : ℕ → TimeWheel) (s : Store) (p w slot e j k : ℕ)
    → let (ws1, _) = put_in_slot ws s p w slot e in
      (ws1 j).slots k
      ≡ (if j == w then (if k == slot then p else (ws j).slots k) else (ws j).slots k)
unfolding put_in_slot
set_slot_at ws s p w slot e j k = ground arith

put-Undone :
    (ws : ℕ → TimeWheel) (s : Store) (p w slot e : ℕ)
    → p ≢ 0
    → w < 3
    → (ws w).slots slot ≢ p
    → (s.timers ((ws w).slots slot)).prev ≡ 0
    → (s.timers p).ref_count < 255
    → let (ws1, s1) = put_in_slot ws s p w slot e in
      let (ok, ws2, s2) = remove_from_wheel ws1 s1 p in Undone ws s p ok ws2 s2
put-Undone ws s p w slot e ne lt other first few =
    let z = put_in_slot ws s p w slot e in
    let (next, prev, wheel, at, refs) = put_here ws s p w slot e ne other in
    let u = unlink_head z.1 p prev in
    let own = u p in
    let (ok, slots, links, none, refs') = remove_from_wheel_at z.0 z.1 p (omega (arith, wheel)) in
    let set = λ (j k : ℕ). set_slot_at ws s p w slot e j k in
    let here : (z.0 w).slots slot ≡ p = ground (arith, set w slot) in
    let back : (j k : ℕ)
        → (if p == p
            then (if j == w
                then (if k == slot then (ws w).slots slot else (z.0 j).slots k)
                else (z.0 j).slots k)
            else (z.0 j).slots k)
          ≡ (ws j).slots k =
      λ j k. elim (eq-cases j w) [
        | inl ej ↦ elim (eq-cases k slot) [
          | inl ek ↦
              let same : (ws j).slots k ≡ (ws w).slots slot = rw (ej, ek) refl in
              ground (arith, same)
          | inr nk ↦ ground (arith, set j k)
        ]
        | inr nj ↦ ground (arith, set j k)
      ] in
    record {
      removed = ok;
      same_slots = λ j k. slots j k ∙ rw (own.3 ∙ wheel, own.4 ∙ at, own.0 ∙ next, here) (back j k);
      same_links = λ q apart some_q.
          ground (arith, links q apart, u q, put_there ws s p w slot e ne q apart some_q, next);
      in_no_wheel = none;
      same_references = ground (arith, refs', own, refs);
    }

-- removeFromWheel takes out a timer that addToWheel has just put into a wheel, if the timer is not
-- NULL, has fewer than 255 references and does not already stand at the head of that slot, and the
-- node that does has no node before it: the slots of all wheels, the links of all other timers and
-- the reference count of the timer are what they were, and the timer is in no wheel.
pub remove_from_wheel-add_to_wheel :
    (ws : ℕ → TimeWheel) (s : Store) (p delay now : ℕ)
    → p ≢ 0
    → (s.timers p).ref_count < 255
    → let w = choose_wheel wheel_count 0 ws delay in
      let head = (ws w).slots (slot_of (ws w) (now + delay)) in
      head ≢ p
      → (s.timers head).prev ≡ 0
      → let (ws1, s1) = add_to_wheel ws s p delay now in
        let (ok, ws2, s2) = remove_from_wheel ws1 s1 p in Undone ws s p ok ws2 s2
unfolding add_to_wheel
remove_from_wheel-add_to_wheel ws s p delay now ne few other first =
    let w = choose_wheel wheel_count 0 ws delay in
    put-Undone ws s p w (slot_of (ws w) (now + delay)) (now + delay) ne
      (choose_wheel-lt 3 0 ws delay (omega arith)) other first few

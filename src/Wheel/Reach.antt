-- ===== src/Wheel/Reach.antt =====
-- The states of the time wheels of ttimer/timer.c that calls of addToWheel and removeFromWheel, and
-- of timerAddRef and timerDecRef in between, lead to.
use everyday_coding.Base.{
  ℕ, ◌+◌, ◌-◌, ◌%◌, ◌^◌, ◌<◌, ◌≡◌, ◌≢◌, inl, inr, refl, false, List, [], arith, ◌==◌,
}
use everyday_coding.Ctrl.Chain.{Chain-nil, Chain-frame}
use everyday_coding.Entry.{Store, write, timer_add_ref, timer_dec_ref}
use everyday_coding.Wheel.{TimeWheel, initial_wheel, add_to_wheel, remove_from_wheel}
use everyday_coding.Wheel.Contents.{links, in_wheel, Wheels}
use everyday_coding.Wheel.Add.{IsIdle, add_to_wheel-Wheels}
use everyday_coding.Wheel.Remove.{remove_from_wheel-Wheels}

pub data Reachable : (ℕ → TimeWheel) → Store → Type 0 where
  started : {s : Store} → ((q : ℕ) → in_wheel s q ≡ false) → Reachable initial_wheel s
  added :
      {ws : ℕ → TimeWheel} {s : Store} (p delay now : ℕ)
      → Reachable ws s
      → IsIdle s p
      → Reachable (add_to_wheel ws s p delay now).0 (add_to_wheel ws s p delay now).1
  removed :
      {ws : ℕ → TimeWheel} {s : Store} (p : ℕ)
      → Reachable ws s
      → p ≢ 0
      → s.freed p ≡ false
      → Reachable (remove_from_wheel ws s p).1 (remove_from_wheel ws s p).2
  referenced :
      {ws : ℕ → TimeWheel} {s : Store} (p : ℕ)
      → Reachable ws s
      → (s.timers p).ref_count < 255
      → Reachable ws (timer_add_ref s p)
  released :
      {ws : ℕ → TimeWheel} {s : Store} (p : ℕ)
      → Reachable ws s
      → 1 < (s.timers p).ref_count
      → (s.timers p).ref_count < 2 ^ 8
      → Reachable ws (timer_dec_ref s p)

-- Another reference count that is not 0 changes nothing for the wheels.
counted-Wheels :
    {ws : ℕ → TimeWheel} {s : Store} {content : ℕ → ℕ → List ℕ}
    → Wheels ws s content
    → (p n : ℕ) → 0 < n
    → n < 2 ^ 8
    → Wheels ws (write s p (record (s.timers p) { ref_count = n })) content
counted-Wheels {ws} {s} {content} v p n some_ref few =
    let s' = write s p (record (s.timers p) { ref_count = n }) in
    record {
      sizes = v.sizes;
      chain = λ w k lt lti.
          Chain-frame (links s.timers) (links s'.timers) 0 ((ws w).slots k) (content w k)
            (λ a h. ground arith) (v.chain w k lt lti);
      distinct = v.distinct;
      member = λ w k lt lti q. ground (arith, v.member w k lt lti q);
      indexed = λ q h. ground (arith, v.indexed q);
      held = λ q h. ground (arith, v.held q);
    }

timer_dec_ref-plain :
    (s : Store) (p : ℕ)
    → 1 < (s.timers p).ref_count
    → (s.timers p).ref_count < 2 ^ 8
    → timer_dec_ref s p ≡ write s p (record (s.timers p) { ref_count = (s.timers p).ref_count - 1 })
timer_dec_ref-plain s p more few =
    let n : ((s.timers p).ref_count + 255) % 256 ≡ (s.timers p).ref_count - 1 = omega arith in
    let off : ((s.timers p).ref_count - 1 == 0) ≡ false = ground arith in rw (n, off) refl

pub initial-Wheels :
    (s : Store) → ((q : ℕ) → in_wheel s q ≡ false) → Wheels initial_wheel s (λ w k. [])
unfolding initial_wheel
initial-Wheels s none = record {
  sizes = λ w lt. ground arith;
  chain = λ w k lt lti. Chain-nil (links s.timers) 0 0 refl;
  distinct = λ w k lt lti. tt;
  member = λ w k lt lti q. ground (arith, none q);
  indexed = λ q h. absurd (ground (arith, none q));
  held = λ q h. absurd (ground (arith, none q));
}

-- In every state that calls of addToWheel, with timers that are in no wheel and have fewer than 255
-- references, and of removeFromWheel, with any timers, lead to from empty wheels, while others take
-- references to timers (up to 255) and give back references that are not the last, the invariant
-- holds: each slot is a doubly linked list of distinct timers, which are the timers that carry the
-- numbers of the wheel and the slot, none of them is freed and each has a reference.
pub Reachable-Wheels :
    (ws : ℕ → TimeWheel) (s : Store)
    → Reachable ws s
    → (content : ℕ → ℕ → List ℕ) × Wheels ws s content
Reachable-Wheels _ _ (started {s} none) = (λ w k. [], initial-Wheels s none)
Reachable-Wheels _ _ (added {ws} {s} p delay now r idle) =
    let (content, v) = Reachable-Wheels ws s r in (_, (add_to_wheel-Wheels v p delay now idle).0)
Reachable-Wheels _ _ (removed {ws} {s} p r ne alive) =
    let (content, v) = Reachable-Wheels ws s r in
    elim (remove_from_wheel-Wheels v p ne alive) [
      | inl (out, same) ↦ (content, rw same v)
      | inr (lt, (ok, taken)) ↦ (_, taken.wheels)
    ]
Reachable-Wheels _ _ (referenced {ws} {s} p r few) =
    let (content, v) = Reachable-Wheels ws s r in
    let n : ((s.timers p).ref_count + 1) % 2 ^ 8 ≡ (s.timers p).ref_count + 1 = omega arith in
    (content, rw n (counted-Wheels v p ((s.timers p).ref_count + 1) (omega arith) (omega arith)))
Reachable-Wheels _ _ (released {ws} {s} p r more few) =
    let (content, v) = Reachable-Wheels ws s r in
    (
      content,
      rw (timer_dec_ref-plain s p more few)
          (counted-Wheels v p ((s.timers p).ref_count - 1) (omega arith) (omega arith)),
    )

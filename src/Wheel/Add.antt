-- ===== src/Wheel/Add.antt =====
-- addToWheel of ttimer/timer.c on wheels whose invariant holds.
use everyday_coding.Base.{
  ℕ, zero, suc, ◌+◌, ◌%◌, ◌^◌, ◌≤◌, ◌<◌, ◌≡◌, ◌≢◌, ◌∙◌, true, false, List, [], ◌∷◌, arith,
  if◌then◌else◌, has,
}
use everyday_coding.Ctrl.Chain.{
  Chain, Chain-frame, Distinct, Chain-nil, Chain-cons, Chain-nil_inv, Chain-uncons,
}
use everyday_coding.Ctrl.Relink.{Chain-head}
use everyday_coding.Entry.{Store}
use everyday_coding.Wheel.{TimeWheel, wheel_count, choose_wheel, slot_of, put_in_slot, add_to_wheel}
use everyday_coding.Wheel.Contents.{
  links, in_slot, is_at, put_at, Wheels, SlotChange, SlotChange-Wheels,
}

pub choose_wheel-lt :
    (k i : ℕ) (ws : ℕ → TimeWheel) (delay : ℕ) → i + k ≤ 3 → choose_wheel k i ws delay < 3
unfolding choose_wheel
choose_wheel-lt zero i ws delay le = omega arith
choose_wheel-lt (suc k) i ws delay le = ground (arith, choose_wheel-lt k (i + 1) ws delay)

slot_of-lt : (w : TimeWheel) (e : ℕ) → 0 < w.size → w.size < 2 ^ 16 → slot_of w e < w.size
unfolding slot_of
slot_of-lt w e some_slot small = omega arith

-- The timer that addToWheel is called with: it is not NULL, not freed, in no wheel, and has a
-- reference and room for another.
pub record IsIdle (s : Store) (p : ℕ) : Type 0 where
  pub ne_null : p ≢ 0
  pub alive : s.freed p ≡ false
  pub idle : 3 ≤ (s.timers p).wheel
  pub few : (s.timers p).ref_count < 255

module _ (ws : ℕ → TimeWheel) (s : Store) (p w k e : ℕ) where
  -- What the writes of addToWheel change.
  put_here :
      p ≢ (ws w).slots k
      → let (_, s1) = put_in_slot ws s p w k e in
        ((s1.timers p).next ≡ (ws w).slots k)
        × ((s1.timers p).prev ≡ 0)
        × ((s1.timers p).wheel ≡ w)
        × ((s1.timers p).slot ≡ k)
        × ((s1.timers p).ref_count ≡ ((s.timers p).ref_count + 1) % 2 ^ 8)
        × (s1.freed p ≡ s.freed p)
        × ((s1.timers p).expire_at ≡ e)
  unfolding put_in_slot
  put_here other = ground arith

  put_there :
      (q : ℕ)
      → q ≢ p
      → let (_, s1) = put_in_slot ws s p w k e in
        ((s1.timers q).next ≡ (s.timers q).next)
        × (q ≢ (ws w).slots k → (s1.timers q).prev ≡ (s.timers q).prev)
        × ((s1.timers q).wheel ≡ (s.timers q).wheel)
        × ((s1.timers q).slot ≡ (s.timers q).slot)
        × ((s1.timers q).ref_count ≡ (s.timers q).ref_count)
        × (s1.freed q ≡ s.freed q)
  unfolding put_in_slot
  put_there q apart = ground arith

  put_slots :
      (j i : ℕ)
      → let (ws1, _) = put_in_slot ws s p w k e in
        ((ws1 j).size ≡ (ws j).size)
        × ((ws1 j).slots i ≡ (if is_at w k j i then p else (ws j).slots i))
  unfolding put_in_slot
  put_slots j i = ground arith

  -- The node that was first has the timer before it.
  put_head :
      (ws w).slots k ≢ 0
      → p ≢ (ws w).slots k
      → let (_, s1) = put_in_slot ws s p w k e in (s1.timers ((ws w).slots k)).prev ≡ p
  unfolding put_in_slot
  put_head some_head other = ground arith

  put-Chain :
      (xs : List ℕ)
      → p ≢ 0
      → has p xs ≡ false
      → Distinct xs
      → Chain (links s.timers) 0 ((ws w).slots k) xs
      → let (_, s1) = put_in_slot ws s p w k e in Chain (links s1.timers) 0 p (p ∷ xs)
  put-Chain [] ne out d c =
      let z = put_in_slot ws s p w k e in
      let none : (ws w).slots k ≡ 0 = Chain-nil_inv (links s.timers) 0 ((ws w).slots k) c in
      let here = put_here (omega (arith, none)) in
      Chain-cons (links z.1.timers) 0 p [] ne here.1
        (Chain-nil (links z.1.timers) p (z.1.timers p).next (here.0 ∙ none))
  put-Chain (x ∷ xs) ne out d c =
      let z = put_in_slot ws s p w k e in
      let (first, some_x, back, rest) = Chain-uncons (links s.timers) 0 ((ws w).slots k) x xs c in
      let apart : x ≢ p = ground (arith, out) in
      let here = put_here (ground (arith, first)) in
      let there = put_there x apart in
      let prev = put_head (omega (arith, first)) (ground (arith, first)) in
      let rest' =
        Chain-frame (links s.timers) (links z.1.timers) x (s.timers x).next xs
          (λ a h. ground (arith, put_there a, d.0, out)) rest in
      Chain-cons (links z.1.timers) 0 p (x ∷ xs) ne here.1 (
        rw (here.0, first)
          (Chain-cons (links z.1.timers) p x xs some_x (rw first at prev) (rw there.0 rest')))

module _ {ws : ℕ → TimeWheel} {s : Store} {content : ℕ → ℕ → List ℕ} (v : Wheels ws s content)
    (p w k e : ℕ) (idle : IsIdle s p) (lt : w < 3) (inside : k < (ws w).size) where
  -- A timer in no wheel is not at the head of the slot.
  not_head : p ≢ (ws w).slots k
  not_head same =
      let first =
        Chain-head (links s.timers) 0 ((ws w).slots k) (content w k) (v.chain w k lt inside) in
      absurd (ground (arith, first, idle.ne_null, idle.idle, v.member w k lt inside p))

  put-SlotChange :
      let (ws1, s1) = put_in_slot ws s p w k e in SlotChange ws ws1 s s1 w k p (p ∷ content w k)
  put-SlotChange =
      let z = put_in_slot ws s p w k e in
      let out : has p (content w k) ≡ false = ground (arith, v.member w k lt inside p, idle.idle) in
      let here = put_here ws s p w k e not_head in
      let there = λ (q : ℕ). put_there ws s p w k e q in
      let first =
        Chain-head (links s.timers) 0 ((ws w).slots k) (content w k) (v.chain w k lt inside) in
      let size = λ (j : ℕ). (put_slots ws s p w k e j 0).0 in
      record {
        in_range = inside;
        same_size = size;
        heads = λ j i. (put_slots ws s p w k e j i).1;
        new_chain =
            put-Chain ws s p w k e (content w k) idle.ne_null out (v.distinct w k lt inside)
              (v.chain w k lt inside);
        new_distinct = (out, v.distinct w k lt inside);
        new_member =
            λ q. ground (arith, here, there q, idle.ne_null, idle.alive, v.member w k lt inside q);
        elsewhere = λ j i other q. ground (arith, here, there q, idle.idle);
        new_indexed = λ q h. ground (arith, here, there q);
        new_held = λ q h. ground (arith, here, there q, v.held q, idle.few);
        frame =
            λ j i other q h. ground (arith, there q, idle.idle, first, v.member w k lt inside q);
      }

-- On wheels whose invariant holds, addToWheel puts a timer that is in no wheel, not NULL, not freed
-- and has fewer than 255 references in front of the slot that it chooses, which is one of the wheel;
-- it takes a reference, the other slots hold what they held, and the invariant holds again.
pub add_to_wheel-Wheels :
    {ws : ℕ → TimeWheel} {s : Store} {content : ℕ → ℕ → List ℕ}
    → Wheels ws s content
    → (p delay now : ℕ) → IsIdle s p
    → let w = choose_wheel wheel_count 0 ws delay in
      let k = slot_of (ws w) (now + delay) in
      let (ws1, s1) = add_to_wheel ws s p delay now in
      Wheels ws1 s1 (put_at content w k (p ∷ content w k))
      × (w < wheel_count)
      × (k < (ws w).size)
      × (in_slot s1 w k p ≡ true)
      × ((s1.timers p).expire_at ≡ now + delay)
      × ((s1.timers p).ref_count ≡ (s.timers p).ref_count + 1)
unfolding add_to_wheel
add_to_wheel-Wheels {ws} {s} {content} v p delay now idle =
    let w = choose_wheel wheel_count 0 ws delay in
    let k = slot_of (ws w) (now + delay) in
    let lt = choose_wheel-lt 3 0 ws delay (omega arith) in
    let (some_slot, small) = v.sizes w lt in
    let inside = slot_of-lt (ws w) (now + delay) some_slot small in
    let here = put_here ws s p w k (now + delay) (not_head v p w k (now + delay) idle lt inside) in
    (
      SlotChange-Wheels v (put-SlotChange v p w k (now + delay) idle lt inside),
      lt,
      inside,
      ground (arith, here, idle.ne_null, idle.alive),
      here.6,
      ground (arith, here, idle.few),
    )

-- ===== src/Wheel/Remove.antt =====
-- removeFromWheel of ttimer/timer.c on wheels whose invariant holds.
use mathlib.Core.Path.{subst}
use everyday_coding.Base.{
  ℕ, ◌+◌, ◌≤◌, ◌<◌, ◌≡◌, ◌≢◌, ◌⊎◌, ◌↔◌, refl, sym, inl, inr, true, false, List, ◌∷◌, ◌++◌, arith,
  ltb, ◌==◌, if◌then◌else◌, has, lt-cases,
}
use everyday_coding.Ctrl.Chain.{Distinct, Chain, Chain-frame}
use everyday_coding.Ctrl.Relink.{take_out, take_out-Chain}
use everyday_coding.Ctrl.Unlink.{without, split_at, has-removed, Distinct-remove}
use everyday_coding.Entry.{Store}
use everyday_coding.Wheel.{TimeWheel, wheel_count, unlink_timer, remove_from_wheel}
use everyday_coding.Wheel.Contents.{links, in_wheel, put_at, Wheels, SlotChange, SlotChange-Wheels}
use everyday_coding.Wheel.Unlink.{
  unlink-take_out, unlink_at, removes, removed_slots, removed_there, removed_here, first_or_later,
  next_head,
}

-- What removeFromWheel leaves where it takes the timer `p` out of the slot `k` of wheel `w`.
pub record TakenOut (ws : ℕ → TimeWheel) (s : Store) (content : ℕ → ℕ → List ℕ) (p w k : ℕ)
    (ws' : ℕ → TimeWheel) (s' : Store) : Type 0 where
  pub stood : has p (content w k) ≡ true
  pub wheels : Wheels ws' s' (put_at content w k (without p (content w k)))
  pub in_none : (s'.timers p).wheel ≡ wheel_count
  pub references : (s'.timers p).ref_count + 1 ≡ (s.timers p).ref_count
  pub given_back : (s'.freed p ≡ true) ↔ ((s.timers p).ref_count ≡ 1)

module _ {ws : ℕ → TimeWheel} {s : Store} {content : ℕ → ℕ → List ℕ} (v : Wheels ws s content)
    (p : ℕ) (h : in_wheel s p ≡ true) where
  abbrev wheel : ℕ
  wheel = (s.timers p).wheel

  abbrev slot : ℕ
  slot = (s.timers p).slot

  abbrev first : ℕ
  first = (ws wheel).slots slot

  wheel-lt : wheel < 3
  wheel-lt = ground (arith, h)

  inside : slot < (ws wheel).size
  inside = v.indexed p h

  stands : has p (content wheel slot) ≡ true
  stands = ground (arith, v.member wheel slot wheel-lt inside p, h)

  remove-SlotChange :
      (xs ys : List ℕ)
      → content wheel slot ≡ xs ++ p ∷ ys
      → let (_, ws', s') = remove_from_wheel ws s p in
        SlotChange ws ws' s s' wheel slot (take_out (links s.timers) first p).1 (xs ++ ys)
  remove-SlotChange xs ys e =
      let z = remove_from_wheel ws s p in
      let m = links s.timers in
      let g = take_out m first p in
      let d = subst Distinct e (v.distinct wheel slot wheel-lt inside) in
      let (d', out) = Distinct-remove p xs ys d in
      let c = subst (Chain m 0 first) e (v.chain wheel slot wheel-lt inside) in
      let (ch, r) = take_out-Chain m first p xs ys d c in
      let place = first_or_later m first p xs ys d c in
      let was = λ (q : ℕ). has-removed p q xs ys (content wheel slot) e in
      let at = λ (q : ℕ). unlink_at s p q in
      let same = λ (q : ℕ). unlink-take_out s p first q in
      let here = removed_here ws s p wheel-lt in
      let there = λ (q : ℕ). removed_there ws s p wheel-lt q in
      let next : ((unlink_timer s p).timers p).next ≡ (s.timers p).next =
        ground (arith, same p, r.outside p out) in
      let new_head : (if first == p then ((unlink_timer s p).timers p).next else first) ≡ g.1 =
        rw next (next_head m first p place) in
      let slots = λ (j i : ℕ). removed_slots ws s p wheel-lt j i in
      record {
        in_range = inside;
        same_size = λ j. (slots j 0).0;
        heads = λ j i. ground (arith, slots j i, at p, new_head);
        new_chain =
            Chain-frame g.0 (links z.2.timers) 0 g.1 (xs ++ ys)
              (λ a i. ground (arith, there a, same a, out)) ch;
        new_distinct = d';
        new_member = λ q.
            ground (arith, here, there q, at q, was q, out, v.member wheel slot wheel-lt inside q);
        elsewhere = λ j i other q. ground (arith, here, there q, at q);
        new_indexed = λ q i. ground (arith, here, there q, at q);
        new_held = λ q i. ground (arith, here, there q, at q, v.held q);
        frame = λ j i other q l. ground (
          arith,
          there q,
          at q,
          same q,
          r.outside q,
          was q,
          v.member wheel slot wheel-lt inside q,
        );
      }

  remove-TakenOut :
      let (_, ws', s') = remove_from_wheel ws s p in TakenOut ws s content p wheel slot ws' s'
  remove-TakenOut =
      let (xs, ys, e, w) = split_at p (content wheel slot) stands in
      let (_, ws', s') = remove_from_wheel ws s p in
      let moved = SlotChange-Wheels v (remove-SlotChange xs ys e) in
      let here = removed_here ws s p wheel-lt in
      let at = unlink_at s p p in
      record {
        stood = stands;
        wheels = subst (λ zs. Wheels ws' s' (put_at content wheel slot zs)) (sym w) moved;
        in_none = here.0;
        references = ground (arith, here, at, v.held p);
        given_back = ground (arith, here, at, v.held p);
      }

remove_idle :
    (ws : ℕ → TimeWheel) (s : Store) (p : ℕ)
    → wheel_count ≤ (s.timers p).wheel
    → remove_from_wheel ws s p ≡ (false, ws, s)
unfolding remove_from_wheel
remove_idle ws s p out = let off : ltb (s.timers p).wheel 3 ≡ false = ground arith in rw off refl

-- On wheels whose invariant holds, removeFromWheel of a timer that is not NULL and not freed returns
-- false and changes nothing if the timer is in no wheel. Else it returns true, and takes the timer
-- out of the slot in which it stands, at whatever place: the others stay there in their order, the
-- other slots hold what they held, the timer is in no wheel and has lost a reference, with the
-- last of which it is freed, and the invariant holds again.
pub remove_from_wheel-Wheels :
    {ws : ℕ → TimeWheel} {s : Store} {content : ℕ → ℕ → List ℕ}
    → Wheels ws s content
    → (p : ℕ) → p ≢ 0
    → s.freed p ≡ false
    → (wheel_count ≤ (s.timers p).wheel) × (remove_from_wheel ws s p ≡ (false, ws, s))
      ⊎ ((s.timers p).wheel < wheel_count)
        × (let (ok, ws', s') = remove_from_wheel ws s p in
            (ok ≡ true) × TakenOut ws s content p (s.timers p).wheel (s.timers p).slot ws' s')
remove_from_wheel-Wheels {ws} {s} v p ne alive = elim (lt-cases (s.timers p).wheel 3) [
  | inl lt ↦
      let h : in_wheel s p ≡ true = ground arith in
      inr (lt, (removes ws s p lt, remove-TakenOut v p h))
  | inr out ↦ inl (out, remove_idle ws s p out)
]

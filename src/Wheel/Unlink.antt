-- ===== src/Wheel/Unlink.antt =====
-- The writes of removeFromWheel of ttimer/timer.c.

use everyday_coding.Base.{
  ℕ, ◌+◌, ◌%◌, ◌^◌, ◌<◌, ◌≡◌, ◌≢◌, ◌⊎◌, refl, inl, inr, Bool, true, List, [], ◌∷◌, ◌++◌, arith, ltb,
  ◌==◌, if◌then◌else◌, has-append, ◌||◌,
}
use everyday_coding.Ctrl.Memory.{Mem, link_prev, link_next}
use everyday_coding.Ctrl.Chain.{Distinct, Chain, Chain-uncons, Chain-split, Seg-last}
use everyday_coding.Ctrl.Relink.{take_out}
use everyday_coding.Entry.{Store}
use everyday_coding.Wheel.{TimeWheel, unlink_timer, remove_from_wheel}
use everyday_coding.Wheel.Contents.{links, is_at}

module _ (s : Store) (p : ℕ) where
  -- unlink_timer makes the pointer writes that take_out makes.
  pub unlink-take_out :
      (head q : ℕ)
      → let (g, _) = take_out (links s.timers) head p in
        (((unlink_timer s p).timers q).next ≡ (g q).next)
        × (((unlink_timer s p).timers q).prev ≡ (g q).prev)
  unfolding unlink_timer link_next link_prev
  unlink-take_out head q = ground arith

  pub unlink_at :
      (q : ℕ)
      → let s1 = unlink_timer s p in
        ((s1.timers q).wheel ≡ (s.timers q).wheel)
        × ((s1.timers q).slot ≡ (s.timers q).slot)
        × ((s1.timers q).ref_count ≡ (s.timers q).ref_count)
        × (s1.freed q ≡ s.freed q)
  unfolding unlink_timer
  unlink_at q = ground arith

-- A node of a list is the first one exactly if there is none before it.
pub first_or_later :
    (m : Mem) (head p : ℕ) (xs ys : List ℕ)
    → Distinct (xs ++ p ∷ ys)
    → Chain m 0 head (xs ++ p ∷ ys)
    → (head ≡ p) × ((m p).prev ≡ 0) ⊎ (head ≢ p) × ((m p).prev ≢ 0)
first_or_later m head p [] ys d c =
    let (e, _, back, _) = Chain-uncons m 0 head p ys c in inl (e, back)
first_or_later m head p (x ∷ xs) ys d c =
    let (q', p', seg, c') = Chain-split m 0 head (x ∷ xs) (p ∷ ys) c in
    let (_, _, back, _) = Chain-uncons m q' p' p ys c' in
    let (_, some_node) = Seg-last m 0 head x xs q' p' seg in
    let (first, _, _, _) = Chain-uncons m 0 head x (xs ++ p ∷ ys) c in
    inr (ground (arith, first, d.0, has-append x xs (p ∷ ys)), ground (arith, back, some_node))

pub next_head :
    (m : Mem) (head p : ℕ)
    → (head ≡ p) × ((m p).prev ≡ 0) ⊎ (head ≢ p) × ((m p).prev ≢ 0)
    → (if head == p then (m p).next else head) ≡ (take_out m head p).1
unfolding link_next
next_head m head p place = ground arith

-- removeFromWheel after the pointer writes, on a timer that is in a wheel.
module _ (ws : ℕ → TimeWheel) (s : Store) (p : ℕ) (lt : (s.timers p).wheel < 3) where
  abbrev pub unlinked : Store
  unlinked = unlink_timer s p

  abbrev pub result : Bool × (ℕ → TimeWheel) × Store
  result = remove_from_wheel ws s p

  on : ltb (s.timers p).wheel 3 ≡ true
  on = ground arith

  pub removes : result.0 ≡ true
  unfolding remove_from_wheel
  removes = rw on refl

  pub removed_slots :
      (j i : ℕ)
      → let t = unlinked.timers p in
        ((result.1 j).size ≡ (ws j).size)
        × ((result.1 j).slots i ≡ (
            if is_at t.wheel t.slot j i
            then (if (ws t.wheel).slots t.slot == p then t.next else (ws t.wheel).slots t.slot)
            else (ws j).slots i))
  unfolding remove_from_wheel
  removed_slots j i = rw on (ground arith)

  pub removed_there :
      (q : ℕ)
      → q ≢ p
      → (result.2.timers q ≡ unlinked.timers q) × (result.2.freed q ≡ unlinked.freed q)
  unfolding remove_from_wheel
  removed_there q ne = rw on (ground arith)

  pub removed_here :
      let n = ((unlinked.timers p).ref_count + 255) % 2 ^ 8 in
      ((result.2.timers p).wheel ≡ 3)
      × ((result.2.timers p).ref_count ≡ n)
      × (result.2.freed p ≡ (n == 0 || unlinked.freed p))
  unfolding remove_from_wheel
  removed_here = rw on (ground arith)

-- ===== src/Wheel/Contents.antt =====
-- What the time wheels of ttimer/timer.c hold: each slot is a doubly linked list of timers.
use everyday_coding.Base.{
  ℕ, ◌^◌, ◌<◌, ◌≡◌, ◌⊎◌, inl, inr, sym, ◌∙◌, Bool, true, false, not, ◌&&◌, List, arith, ltb, ◌==◌,
  if◌then◌else◌, has, Bool-cases,
}
use everyday_coding.Ctrl.Memory.{Mem, zero_obj}
use everyday_coding.Ctrl.Chain.{Distinct, Chain, Chain-frame}
use everyday_coding.Entry.{Timer, Store}
use everyday_coding.Wheel.{TimeWheel}

-- The pointers of the timers, to which the lemmas on doubly linked lists apply.
abbrev pub links : (ℕ → Timer) → Mem
links ts q = record zero_obj { prev = (ts q).prev; next = (ts q).next }

-- The address holds a timer that has not been freed and is in a wheel.
abbrev pub in_wheel : Store → ℕ → Bool
in_wheel s q = not (q == 0) && (not (s.freed q) && ltb (s.timers q).wheel 3)

-- It stands in slot `k` of wheel `w`.
abbrev pub in_slot : Store → (w k q : ℕ) → Bool
in_slot s w k q = in_wheel s q && ((s.timers q).wheel == w && (s.timers q).slot == k)

abbrev pub is_at : (w k j i : ℕ) → Bool
is_at w k j i = j == w && i == k

-- The contents of the slots, with those of one slot replaced.
abbrev pub put_at : (ℕ → ℕ → List ℕ) → (w k : ℕ) → List ℕ → ℕ → ℕ → List ℕ
put_at content w k xs j i = if is_at w k j i then xs else content j i

-- Each slot is a doubly linked list of distinct timers, and they are the timers in a wheel that
-- carry its numbers; each of them has a reference.
pub record Wheels (ws : ℕ → TimeWheel) (s : Store) (content : ℕ → ℕ → List ℕ) : Type 0 where
  pub sizes : (w : ℕ) → w < 3 → (0 < (ws w).size) × ((ws w).size < 2 ^ 16)
  pub chain :
      (w k : ℕ) → w < 3 → k < (ws w).size → Chain (links s.timers) 0 ((ws w).slots k) (content w k)
  pub distinct : (w k : ℕ) → w < 3 → k < (ws w).size → Distinct (content w k)
  pub member : (w k : ℕ) → w < 3 → k < (ws w).size → (q : ℕ) → has q (content w k) ≡ in_slot s w k q
  pub indexed : (q : ℕ) → in_wheel s q ≡ true → (s.timers q).slot < (ws (s.timers q).wheel).size
  pub held :
      (q : ℕ)
      → in_wheel s q ≡ true
      → (0 < (s.timers q).ref_count) × ((s.timers q).ref_count < 2 ^ 8)

-- An operation on slot `k` of wheel `w` alone, which holds `xs` from `head` on after it.
pub record SlotChange (ws ws' : ℕ → TimeWheel) (s s' : Store) (w k head : ℕ) (xs : List ℕ)
    : Type 0 where
  pub in_range : k < (ws w).size
  pub same_size : (j : ℕ) → (ws' j).size ≡ (ws j).size
  pub heads : (j i : ℕ) → (ws' j).slots i ≡ (if is_at w k j i then head else (ws j).slots i)
  pub new_chain : Chain (links s'.timers) 0 head xs
  pub new_distinct : Distinct xs
  pub new_member : (q : ℕ) → has q xs ≡ in_slot s' w k q
  pub elsewhere : (j i : ℕ) → is_at w k j i ≡ false → (q : ℕ) → in_slot s' j i q ≡ in_slot s j i q
  pub new_indexed :
      (q : ℕ)
      → in_wheel s' q ≡ true
      → (in_wheel s q ≡ true)
          × ((s'.timers q).wheel ≡ (s.timers q).wheel)
          × ((s'.timers q).slot ≡ (s.timers q).slot)
        ⊎ ((s'.timers q).wheel ≡ w) × ((s'.timers q).slot ≡ k)
  pub new_held :
      (q : ℕ)
      → in_wheel s' q ≡ true
      → (0 < (s'.timers q).ref_count) × ((s'.timers q).ref_count < 2 ^ 8)
  pub frame :
      (j i : ℕ)
      → is_at w k j i ≡ false
      → (q : ℕ) → in_slot s j i q ≡ true
      → ((s'.timers q).prev ≡ (s.timers q).prev) × ((s'.timers q).next ≡ (s.timers q).next)

module _ {ws ws' : ℕ → TimeWheel} {s s' : Store} {w k head : ℕ} {xs : List ℕ}
    {content : ℕ → ℕ → List ℕ} (v : Wheels ws s content)
    (ch : SlotChange ws ws' s s' w k head xs) where
  pub SlotChange-Wheels : Wheels ws' s' (put_at content w k xs)
  SlotChange-Wheels = record {
    sizes = λ j lt. rw (ch.same_size j) (v.sizes j lt);
    chain = λ j i lt lti. elim (Bool-cases (is_at w k j i)) [
      | inl e ↦ rw (ch.heads j i, e) ch.new_chain
      | inr ne ↦
          let lti' : i < (ws j).size = rw (ch.same_size j) at lti in
          rw (ch.heads j i, ne)
            (Chain-frame (links s.timers) (links s'.timers) 0 ((ws j).slots i) (content j i)
              (λ a h. ch.frame j i ne a (ground (arith, v.member j i lt lti' a)))
              (v.chain j i lt lti'))
    ];
    distinct = λ j i lt lti. elim (Bool-cases (is_at w k j i)) [
      | inl e ↦ rw e ch.new_distinct
      | inr ne ↦ rw ne (v.distinct j i lt (rw (ch.same_size j) at lti))
    ];
    member = λ j i lt lti q. elim (Bool-cases (is_at w k j i)) [
      | inl e ↦
          let ej : j ≡ w = ground arith in
          let ei : i ≡ k = ground arith in rw (e, ej, ei) (ch.new_member q)
      | inr ne ↦
          rw ne (v.member j i lt (rw (ch.same_size j) at lti) q ∙ sym (ch.elsewhere j i ne q))
    ];
    indexed = λ q h. elim (ch.new_indexed q h) [
      | inl (was, e, e') ↦ rw (ch.same_size (s'.timers q).wheel, e, e') (v.indexed q was)
      | inr (e, e') ↦ rw (ch.same_size (s'.timers q).wheel, e, e') ch.in_range
    ];
    held = ch.new_held;
  }

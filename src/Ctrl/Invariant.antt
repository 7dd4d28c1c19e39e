-- ===== src/Ctrl/Invariant.antt =====
-- The invariant of a timer controller of ttimer/tdengine_old.c. `content i` is the list of the
-- timers that stand in `tmrList[i]`; a timer is in use exactly if its `timerId` is its address.
use everyday_coding.Base.{
  ℕ, ◌+◌, ◌<◌, ◌≡◌, ◌≢◌, ◌⊎◌, Bool, true, false, ◌&&◌, List, arith, ◌==◌, update, length, has, inl,
  inr, sym, ◌∙◌, test-cases,
}
use everyday_coding.Pool.Owned.{Owned}
use everyday_coding.Ctrl.Memory.{Mem}
use everyday_coding.Ctrl.Chain.{Distinct, Chain, Chain-frame}
use everyday_coding.Ctrl.Order.{IsSorted, IsSorted-frame}
use everyday_coding.Ctrl.{Ctrl, TmrList, live}

-- the timer is in use and stands in list `i`
abbrev pub in_list : Mem → ℕ → ℕ → Bool
in_list m i q = live m q && (m q).index == i

-- The lists: each is a doubly linked list of distinct timers in the order of their cycles, counted,
-- and holds the timers that are in use and carry its index.
pub record Lists (n : ℕ) (m : Mem) (lists : ℕ → TmrList) (content : ℕ → List ℕ) : Type 0 where
  pub periods : 0 < n
  pub chain : (i : ℕ) → i < n → Chain m 0 (lists i).head (content i)
  pub counts : (i : ℕ) → i < n → (lists i).count ≡ length (content i)
  pub distinct : (i : ℕ) → i < n → Distinct (content i)
  pub member : (i : ℕ) → i < n → (q : ℕ) → has q (content i) ≡ in_list m i q
  pub indexed : (q : ℕ) → live m q ≡ true → (m q).index < n
  pub sorted : (i : ℕ) → i < n → IsSorted m (content i)

-- What holds between calls: the blocks in use are the timers, and `num_of_tmrs` counts them.
pub record Inv (c : Ctrl) (content : ℕ → List ℕ) : Type 0 where
  pub lists : Lists c.num_of_periods c.mem c.tmr_list content
  pub owned : Owned c.pool (live c.mem)
  pub total : c.num_of_tmrs + c.pool.num_of_free ≡ c.pool.num_of_block

-- What holds within a call, while the block `p` is in no list and not free.
pub record Loose (c : Ctrl) (content : ℕ → List ℕ) (p : ℕ) : Type 0 where
  pub lists : Lists c.num_of_periods c.mem c.tmr_list content
  pub owned : Owned c.pool (update (live c.mem) p true)
  pub total : c.num_of_tmrs + 1 + c.pool.num_of_free ≡ c.pool.num_of_block
  pub ne_null : p ≢ 0
  pub unused : live c.mem p ≡ false

-- A change of list `i` alone.
pub record Change (n : ℕ) (m g : Mem) (i : ℕ) (l : TmrList) (xs : List ℕ) : Type 0 where
  pub in_range : i < n
  pub chain : Chain g 0 l.head xs
  pub counts : l.count ≡ length xs
  pub distinct : Distinct xs
  pub member : (q : ℕ) → has q xs ≡ in_list g i q
  pub sorted : IsSorted g xs
  pub elsewhere : (j : ℕ) → (i == j) ≡ false → (q : ℕ) → in_list g j q ≡ in_list m j q
  pub indexed :
      (q : ℕ)
      → live g q ≡ true
      → (live m q ≡ true) × ((g q).index ≡ (m q).index) ⊎ ((g q).index ≡ i)
  pub frame :
      (j : ℕ)
      → (i == j) ≡ false
      → (q : ℕ) → in_list m j q ≡ true
      → ((g q).prev ≡ (m q).prev) × ((g q).next ≡ (m q).next) × ((g q).cycle ≡ (m q).cycle)

module _ {n : ℕ} {m g : Mem} {lists : ℕ → TmrList} {content : ℕ → List ℕ} {i : ℕ} {l : TmrList}
    {xs : List ℕ} (s : Lists n m lists content) (ch : Change n m g i l xs) where
  pub Change-Lists : Lists n g (update lists i l) (update content i xs)
  Change-Lists = record {
    periods = s.periods;
    chain = λ j lt. elim (test-cases j i) [
      | inl e ↦ rw e ch.chain
      | inr ne ↦ rw ne (
          Chain-frame m g 0 (lists j).head (content j)
            (λ a h. let (p, q, _) = kept j lt ne a h in (p, q)) (s.chain j lt))
    ];
    counts = λ j lt. ground (arith, s.counts j lt, ch.counts);
    distinct = λ j lt. elim (test-cases j i) [
      | inl e ↦ rw e ch.distinct
      | inr ne ↦ rw ne (s.distinct j lt)
    ];
    member = λ j lt q. elim (test-cases j i) [
      | inl e ↦ rw e (ground (arith, ch.member q))
      | inr ne ↦ rw ne (s.member j lt q ∙ sym (ch.elsewhere j (ground arith) q))
    ];
    indexed = λ q h. ground (arith, ch.indexed q h, s.indexed q, ch.in_range);
    sorted = λ j lt. elim (test-cases j i) [
      | inl e ↦ rw e ch.sorted
      | inr ne ↦ rw ne (
          IsSorted-frame m g (content j) (λ a h. let (_, _, c) = kept j lt ne a h in c)
            (s.sorted j lt))
    ];
  }
    where
      kept :
          (j : ℕ)
          → j < n
          → (j == i) ≡ false
          → (q : ℕ) → has q (content j) ≡ true
          → ((g q).prev ≡ (m q).prev) × ((g q).next ≡ (m q).next) × ((g q).cycle ≡ (m q).cycle)
      kept j lt ne q h = ch.frame j (ground arith) q (ground (arith, s.member j lt q))

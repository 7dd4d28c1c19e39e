-- ===== src/Ctrl/Free.antt =====
-- Within tmrProcessList of ttimer/tdengine_old.c: the head of a list expires, and its block goes
-- back to the pool.
use mathlib.Core.Path.{fun_ext, subst, subst₂, ap₂}
use everyday_coding.Base.{
  ℕ, ◌<◌, ◌≡◌, ◌≢◌, refl, sym, ap, ◌∙◌, true, false, List, ◌∷◌, arith, update, has,
}
use everyday_coding.Pool.{release}
use everyday_coding.Pool.Owned.{Owned, release-GivenBack}
use everyday_coding.Ctrl.Memory.{Mem, zero_obj, link_next-null}
use everyday_coding.Ctrl.Chain.{Chain, Chain-frame, Chain-uncons}
use everyday_coding.Ctrl.Relink.{SameTimer}
use everyday_coding.Ctrl.Order.{IsSorted-frame}
use everyday_coding.Ctrl.Unlink.{without, without_head, unlink-Loose, unlink_others}
use everyday_coding.Ctrl.Invariant.{Inv, Loose}
use everyday_coding.Ctrl.{Ctrl, live, unlink, expire}

-- A block that is in no list goes back to the pool, and the lists stay as they are.
module _ {c : Ctrl} {content : ℕ → List ℕ} {p : ℕ} (l : Loose c content p) where
  free-Inv :
      let (pool, mem) = release zero_obj c.pool p c.mem in
      Inv (record c { pool = pool; mem = mem }) content
  free-Inv =
      let z = release zero_obj c.pool p c.mem in
      let held : update (live c.mem) p true p ≡ true = ground arith in
      let b = release-GivenBack zero_obj l.owned c.mem p held in
      let ls = l.lists in
      let kept = λ (q : ℕ). ap (λ (f : Mem). f q) b.cleared in
      let used : update (update (live c.mem) p true) p false ≡ live z.1 =
        fun_ext λ q. ground (arith, kept q, l.unused, l.ne_null) in
      record {
        lists = record {
          periods = ls.periods;
          chain = λ i lt.
              Chain-frame c.mem z.1 0 (c.tmr_list i).head (content i)
                (λ a h. ground (arith, kept a, ls.member i lt p, l.unused)) (ls.chain i lt);
          counts = ls.counts;
          distinct = ls.distinct;
          member = λ i lt q. ground (arith, kept q, ls.member i lt q, l.unused, l.ne_null);
          indexed = λ q h. ground (arith, kept q, ls.indexed q, l.ne_null);
          sorted = λ i lt.
              IsSorted-frame c.mem z.1 (content i)
                (λ a h. ground (arith, kept a, ls.member i lt p, l.unused)) (ls.sorted i lt);
        };
        owned = subst (Owned z.0) used b.owned;
        total = omega (arith, l.total, b.free, b.blocks);
      }

  free_others : (q : ℕ) → q ≢ p → (release zero_obj c.pool p c.mem).1 q ≡ c.mem q
  free_others q ne =
      let held : update (live c.mem) p true p ≡ true = ground arith in
      let b = release-GivenBack zero_obj l.owned c.mem p held in
      ground (arith, ap (λ (f : Mem). f q) b.cleared)

module _ {c : Ctrl} {content : ℕ → List ℕ} (v : Inv c content) (i x : ℕ) (xs : List ℕ)
    (lt : i < c.num_of_periods) (e : content i ≡ x ∷ xs) where
  node :
      ((c.tmr_list i).head ≡ x) × (x ≢ 0) × ((c.mem x).prev ≡ 0) × Chain c.mem x (c.mem x).next xs
  node =
      let whole = subst (Chain c.mem 0 (c.tmr_list i).head) e (v.lists.chain i lt) in
      Chain-uncons c.mem 0 (c.tmr_list i).head x xs whole

  pub head-live : (live c.mem x ≡ true) × ((c.mem x).index ≡ i)
  head-live = ground (arith, v.lists.member i lt x, ap (has x) e)

  -- Expiring the head is taking it out, and giving its block back.
  expire_eq : expire c i x ≡ (
      let (pool, mem) = release zero_obj (unlink c x).pool x (unlink c x).mem in
      record (unlink c x) { pool = pool; mem = mem })
  unfolding expire unlink
  expire_eq = let (_, _, back, _) = node in rw (head-live.1, back, link_next-null, back) refl

  -- The head leaves its list, its block is free, and the invariant holds.
  pub expire-Inv : Inv (expire c i x) (update content i xs)
  expire-Inv =
      let l = unlink-Loose v x head-live.0 in
      let left : without x (content (c.mem x).index) ≡ xs =
        ap (λ j. without x (content j)) head-live.1 ∙ ap (without x) e ∙ without_head x xs in
      let lists : update content (c.mem x).index (without x (content (c.mem x).index))
          ≡ update content i xs =
        ap₂ (update content) head-live.1 left in
      subst₂ Inv (sym expire_eq) lists (free-Inv l)

  pub expire_others : (q : ℕ) → q ≢ x → SameTimer (c.mem q) ((expire c i x).mem q)
  expire_others q ne =
      let l = unlink-Loose v x head-live.0 in
      rw (expire_eq, free_others l q ne) (unlink_others c x q ne)

  pub expire_place :
      ((expire c i x).num_of_periods ≡ c.num_of_periods)
      × ((expire c i x).periods_from_start ≡ c.periods_from_start)
  unfolding expire
  expire_place = (refl, refl)

  -- The list of the controller has the timer at its head.
  pub head-eq : ((c.tmr_list i).head ≡ x) × (x ≢ 0)
  head-eq = (node.0, node.1)

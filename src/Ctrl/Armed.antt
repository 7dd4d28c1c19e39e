-- ===== src/Ctrl/Armed.antt =====
-- The second half of tmrReset of ttimer/tdengine_old.c.
use mathlib.Core.Path.{fun_ext, subst}
use everyday_coding.Base.{ℕ, ◌+◌, ◌<◌, ◌≡◌, refl, sym, true, false, some, List, arith, update, has}
use everyday_coding.Base.Int.{ℤ}
use everyday_coding.Pool.Owned.{Owned}
use everyday_coding.Ctrl.Memory.{Mem}
use everyday_coding.Ctrl.Chain.{Distinct, Chain, Chain-frame}
use everyday_coding.Ctrl.Relink.{Relinked, SameTimer, insert_at-Chain}
use everyday_coding.Ctrl.Order.{
  IsSorted-frame, smaller, not_smaller, find_place-splits, placed, placed-IsSorted,
}
use everyday_coding.Ctrl.Placed.{has-placed, length-placed, placed-Distinct, placed_at}
use everyday_coding.Ctrl.Invariant.{Inv, Loose, Change, Change-Lists}
use everyday_coding.Ctrl.{Ctrl, live, armed, cycle_of, index_of, insert_at, arm}

module _ {c : Ctrl} {content : ℕ → List ℕ} {p : ℕ} (l : Loose c content p) (fp : ℕ) (period : ℤ)
    (param1 : ℕ) where
  abbrev written : Mem
  written = update c.mem p (armed c fp period param1 p)

  abbrev index : ℕ
  index = index_of c period

  abbrev list : List ℕ
  list = content index

  index-lt : index < c.num_of_periods
  index-lt = let periods = l.lists.periods in omega arith

  out : has p list ≡ false
  out = ground (arith, l.lists.member index index-lt p, l.unused)

  -- Linking the written timer into its list is a change of that list alone.
  arm-Change :
      (g : Mem) (head : ℕ)
      → Chain g 0 head (placed written p list)
      → Relinked (placed written p list) written g
      → Change c.num_of_periods c.mem g index
          (record { head = head; count = (c.tmr_list index).count + 1 })
          (placed written p list)
  arm-Change g head ch r =
      let ls = l.lists in
      let sorted =
        IsSorted-frame c.mem written list (λ a h. ground (arith, out)) (ls.sorted index index-lt) in
      record {
        in_range = index-lt;
        chain = ch;
        counts = omega (arith, ls.counts index index-lt, length-placed written p list);
        distinct = placed-Distinct written p list out (ls.distinct index index-lt);
        member = λ q. ground (
          arith,
          r.timers q,
          has-placed written p list q,
          ls.member index index-lt q,
          l.ne_null,
          l.unused,
        );
        sorted =
            IsSorted-frame written g (placed written p list) (λ a h. (r.timers a).0)
              (placed-IsSorted written p list sorted);
        elsewhere = λ j ne q. ground (arith, r.timers q, l.unused);
        indexed = λ q h. ground (arith, r.timers q, l.unused);
        frame = λ j ne q h. ground (
          arith,
          r.timers q,
          r.outside q,
          has-placed written p list q,
          ls.member index index-lt q,
          l.unused,
        );
      }

  -- Arming a block that is in no list succeeds: the block becomes a timer at its place.
  pub arm-Inv :
      (c' : Ctrl) × (arm c fp period param1 p ≡ some c')
      × Inv c' (update content index (placed written p list))
      × (c'.num_of_periods ≡ c.num_of_periods)
      × (c'.periods_from_start ≡ c.periods_from_start)
      × ((q : ℕ) → SameTimer (written q) (c'.mem q))
  unfolding arm
  arm-Inv =
      let ls = l.lists in
      let old = c.tmr_list index in
      let ch =
        Chain-frame c.mem written 0 old.head list (λ a h. ground (arith, out))
          (ls.chain index index-lt) in
      let cy = cycle_of c period in
      let (before, behind, found, s, rest) =
        find_place-splits written cy (old.count + 1) 0 old.head list ch
          (omega (arith, ls.counts index index-lt)) in
      let here : (written p).cycle ≡ cy = ground arith in
      let pe = placed_at written p list cy here in
      let d = placed-Distinct written p list out (ls.distinct index index-lt) in
      let z = insert_at written old.head p before behind in
      let (whole', re') =
        insert_at-Chain written old.head p before behind (smaller written cy list)
          (not_smaller written cy list) (subst Distinct pe d) l.ne_null s rest in
      let whole = subst (Chain z.0 0 z.1) (sym pe) whole' in
      let re = subst (λ (t : List ℕ). Relinked t written z.0) (sym pe) re' in
      let lists' = Change-Lists ls (arm-Change z.0 z.1 whole re) in
      let used : update (live c.mem) p true ≡ live z.0 =
        fun_ext λ q. ground (arith, re.timers q, l.ne_null) in
      (
        record c {
          mem = z.0;
          tmr_list = update c.tmr_list index (record { head = z.1; count = old.count + 1 });
          num_of_tmrs = c.num_of_tmrs + 1;
        },
        rw (found, arm) refl,
        record { lists = lists'; owned = subst (Owned c.pool) used l.owned; total = l.total },
        refl,
        refl,
        re.timers,
      )

-- ===== src/Ctrl/Unlink.antt =====
-- Within tmrReset of ttimer/tdengine_old.c: a timer that is taken out of its list, or a block that
-- the pool gives, is a block in no list.
use mathlib.Core.Path.{fun_ext, subst}
use everyday_coding.Base.{
  ℕ, ◌-◌, ◌<◌, ◌≡◌, ◌≢◌, inl, inr, refl, sym, ap, true, false, ◌||◌, List, [], ◌∷◌, ◌++◌, arith,
  ◌==◌, if◌then◌else◌, update, length, length-append, has, has-append, test-cases,
}
use everyday_coding.Base.Int.{ℤ}
use everyday_coding.Pool.{Pool}
use everyday_coding.Pool.Owned.{Owned, Taken, room}
use everyday_coding.Ctrl.Memory.{Mem, zero_obj, set_timer_id, link_next}
use everyday_coding.Ctrl.Chain.{Distinct, Chain, Chain-frame}
use everyday_coding.Ctrl.Relink.{
  Relinked, SameTimer, link_next_at, link_prev_at, take_out, take_out-Chain,
}
use everyday_coding.Ctrl.Order.{AllFrom, IsSorted, IsSorted-frame}
use everyday_coding.Ctrl.Invariant.{Lists, Inv, Loose, Change, Change-Lists}
use everyday_coding.Ctrl.{Ctrl, TmrList, live, unlink}

-- The list less the first occurrence of `p`.
pub without : ℕ → List ℕ → List ℕ
without p [] = []
without p (x ∷ xs) = if p == x then xs else x ∷ without p xs

pub without_head : (x : ℕ) (xs : List ℕ) → without x (x ∷ xs) ≡ xs
unfolding without
without_head x xs = ground arith

pub split_at :
    (p : ℕ) (zs : List ℕ)
    → has p zs ≡ true
    → (xs : List ℕ) × (ys : List ℕ) × (zs ≡ xs ++ p ∷ ys) × (without p zs ≡ xs ++ ys)
unfolding without
split_at p [] h = absurd (ground arith)
split_at p (x ∷ zs) h = elim (test-cases p x) [
  | inl e ↦ let q : p ≡ x = ground arith in ([], zs, ap (λ a. a ∷ zs) (sym q), rw e)
  | inr ne ↦
      let (xs, ys, e, w) = split_at p zs (ground arith) in
      (x ∷ xs, ys, ap (λ l. x ∷ l) e, rw (ne, w))
]

module _ (p : ℕ) where
  pub has-removed :
      (q : ℕ) (xs ys zs : List ℕ) → zs ≡ xs ++ p ∷ ys → has q zs ≡ (q == p || has q (xs ++ ys))
  has-removed q xs ys zs e =
      ground (arith, has-append q xs ys, has-append q xs (p ∷ ys), ap (has q) e)

  pub Distinct-remove :
      (xs ys : List ℕ) → Distinct (xs ++ p ∷ ys) → Distinct (xs ++ ys) × (has p (xs ++ ys) ≡ false)
  Distinct-remove [] ys d = (d.1, d.0)
  Distinct-remove (x ∷ xs) ys d =
      let (d', out) = Distinct-remove xs ys d.1 in
      (
        (ground (arith, has-append x xs ys, has-append x xs (p ∷ ys)), d'),
        ground (arith, out, has-append x xs (p ∷ ys)),
      )

  AllFrom-remove :
      (m : Mem) (c : ℤ) (xs ys : List ℕ) → AllFrom m c (xs ++ p ∷ ys) → AllFrom m c (xs ++ ys)
  AllFrom-remove m c [] ys a = a.1
  AllFrom-remove m c (x ∷ xs) ys a = (a.0, AllFrom-remove m c xs ys a.1)

  IsSorted-remove : (m : Mem) (xs ys : List ℕ) → IsSorted m (xs ++ p ∷ ys) → IsSorted m (xs ++ ys)
  IsSorted-remove m [] ys s = s.1
  IsSorted-remove m (x ∷ xs) ys s =
      (AllFrom-remove m (m x).cycle xs ys s.0, IsSorted-remove m xs ys s.1)

module _ {c : Ctrl} {content : ℕ → List ℕ} (v : Inv c content) (p : ℕ)
    (h : live c.mem p ≡ true) where
  abbrev index : ℕ
  index = (c.mem p).index

  ls : Lists c.num_of_periods c.mem c.tmr_list content
  ls = v.lists

  index-lt : index < c.num_of_periods
  index-lt = ls.indexed p h

  -- The timer stands in the list of its index.
  held : has p (content index) ≡ true
  held = ground (arith, ls.member index index-lt p, h)

  -- Taking the timer out changes its list alone.
  unlink-Change :
      (g : Mem) (head : ℕ) (xs ys : List ℕ)
      → content index ≡ xs ++ p ∷ ys
      → Chain g 0 head (xs ++ ys)
      → Relinked (xs ++ ys) c.mem g
      → Change c.num_of_periods c.mem
          (set_timer_id g p 0)
          index
          (record { head = head; count = (c.tmr_list index).count - 1 })
          (xs ++ ys)
  unlink-Change g head xs ys e ch r =
      let d = subst Distinct e (ls.distinct index index-lt) in
      let (d', out) = Distinct-remove p xs ys d in
      let g' = set_timer_id g p 0 in
      let was = λ (q : ℕ). has-removed p q xs ys (content index) e in
      record {
        in_range = index-lt;
        chain = Chain-frame g g' 0 head (xs ++ ys) (λ a i. ground arith) ch;
        counts = omega (
          arith,
          ls.counts index index-lt,
          ap length e,
          length-append xs (p ∷ ys),
          length-append xs ys,
        );
        distinct = d';
        member = λ q. ground (arith, r.timers q, out, was q, ls.member index index-lt q, h);
        sorted =
            IsSorted-frame c.mem g' (xs ++ ys) (λ a i. ground (arith, r.timers a))
              (IsSorted-remove p c.mem xs ys (subst (IsSorted c.mem) e (ls.sorted index index-lt)));
        elsewhere = λ j ne q. ground (arith, r.timers q);
        indexed = λ q l. ground (arith, r.timers q);
        frame =
            λ j ne q l. ground (arith, r.timers q, r.outside q, was q, ls.member index index-lt q);
      }

  pub unlink-Loose : Loose (unlink c p) (update content index (without p (content index))) p
  unfolding unlink
  unlink-Loose =
      let (xs, ys, e, w) = split_at p (content index) held in
      let old = c.tmr_list index in
      let d = subst Distinct e (ls.distinct index index-lt) in
      let z = take_out c.mem old.head p in
      let whole = subst (Chain c.mem 0 old.head) e (ls.chain index index-lt) in
      let (ch, r) = take_out-Chain c.mem old.head p xs ys d whole in
      let g = set_timer_id z.0 p 0 in
      let l : TmrList = record { head = z.1; count = old.count - 1 } in
      let lists' = Change-Lists ls (unlink-Change z.0 z.1 xs ys e ch r) in
      let used : live c.mem ≡ update (live g) p true = fun_ext λ q. ground (arith, r.timers q, h) in
      record {
        lists =
            subst
              (λ t. Lists c.num_of_periods g (update c.tmr_list index l) (update content index t))
              (sym w) lists';
        owned = subst (Owned c.pool) used v.owned;
        total = omega (arith, v.total, room v.owned p h);
        ne_null = ground (arith, h);
        unused = ground arith;
      }

-- A block that the pool gives is in no list, and the lists stay as they are.
module _ {c : Ctrl} {content : ℕ → List ℕ} (v : Inv c content) where
  pub malloc-Loose :
      (at : ℕ) (pool : Pool) (mem : Mem)
      → Taken zero_obj c.pool (live c.mem) c.mem at pool mem
      → Loose (record c { pool = pool; mem = mem }) content at
  malloc-Loose at pool mem t =
      let ls = v.lists in
      let kept = λ (q : ℕ). ap (λ (f : Mem). f q) t.cleared in
      let used : update (live c.mem) at true ≡ update (live mem) at true =
        fun_ext λ q. ground (arith, kept q) in
      record {
        lists = record {
          periods = ls.periods;
          chain = λ i lt.
              Chain-frame c.mem mem 0 (c.tmr_list i).head (content i)
                (λ a h. ground (arith, kept a, ls.member i lt at, t.fresh)) (ls.chain i lt);
          counts = ls.counts;
          distinct = ls.distinct;
          member = λ i lt q. ground (arith, kept q, ls.member i lt q, t.fresh, t.mapped);
          indexed = λ q h. ground (arith, kept q, ls.indexed q, t.mapped);
          sorted = λ i lt.
              IsSorted-frame c.mem mem (content i)
                (λ a h. ground (arith, kept a, ls.member i lt at, t.fresh)) (ls.sorted i lt);
        };
        owned = subst (Owned pool) used t.owned;
        total = omega (arith, v.total, t.free, t.blocks);
        ne_null = t.mapped;
        unused = ground (arith, kept at, t.mapped);
      }

pub unlink_others : (c : Ctrl) (p q : ℕ) → q ≢ p → SameTimer (c.mem q) ((unlink c p).mem q)
unfolding unlink
unlink_others c p q ne =
    let l = c.tmr_list (c.mem p).index in
    let z = link_next (c.mem p).prev (c.mem p).next l.head c.mem in
    ground (
      arith,
      link_next_at (c.mem p).prev (c.mem p).next l.head c.mem q,
      link_prev_at (z.0 p).next (z.0 p).prev z.0 q,
    )

pub unlink_place :
    (c : Ctrl) (p : ℕ)
    → ((unlink c p).num_of_periods ≡ c.num_of_periods)
      × ((unlink c p).periods_from_start ≡ c.periods_from_start)
unfolding unlink
unlink_place c p = (refl, refl)

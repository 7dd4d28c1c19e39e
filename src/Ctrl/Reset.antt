-- ===== src/Ctrl/Reset.antt =====
-- tmrReset of ttimer/tdengine_old.c: each of its three ways.
use everyday_coding.Base.{
  Bool-cases, inl, eq-cases, ℕ, ◌≡◌, ◌≢◌, ◌⊎◌, inr, refl, ap, ◌∙◌, true, false, some, List, arith,
  ◌==◌,
}
use everyday_coding.Base.Int.{ℤ, quot_ℤ}
use everyday_coding.Pool.{mem_pool_malloc}
use everyday_coding.Pool.Owned.{malloc-Taken, malloc-empty}
use everyday_coding.Ctrl.Memory.{Mem, zero_obj}
use everyday_coding.Ctrl.Relink.{SameTimer}
use everyday_coding.Ctrl.Unlink.{unlink-Loose, malloc-Loose, unlink_others, unlink_place}
use everyday_coding.Ctrl.Invariant.{Inv}
use everyday_coding.Ctrl.{Ctrl, live, cycle_of, index_of, reset}
use everyday_coding.Ctrl.Armed.{arm-Inv}

-- What a call of tmrReset has set up when it returns: the invariant holds, the timer `p` is in use
-- with what the caller asked for, and every other timer is as it was.
pub record IsArmed (c c' : Ctrl) (content : ℕ → List ℕ) (fp : ℕ) (period : ℤ) (param1 p : ℕ)
    : Type 0 where
  pub inv : Inv c' content
  pub in_use : live c'.mem p ≡ true
  pub callback : ((c'.mem p).fp ≡ fp) × ((c'.mem p).param1 ≡ param1)
  pub place : ((c'.mem p).index ≡ index_of c period) × ((c'.mem p).cycle ≡ cycle_of c period)
  pub others : (q : ℕ) → q ≢ p → SameTimer (c.mem q) (c'.mem q)
  pub periods : c'.num_of_periods ≡ c.num_of_periods
  pub now : c'.periods_from_start ≡ c.periods_from_start

module _ {c : Ctrl} {content : ℕ → List ℕ} (v : Inv c content) (fp : ℕ) (mseconds : ℤ)
    (param1 id : ℕ) where
  abbrev period : ℤ
  period = quot_ℤ mseconds c.resolution

  -- A timer in use is set again under the same id.
  pub reset-live :
      live c.mem id ≡ true
      → (c' : Ctrl) × (content' : ℕ → List ℕ) × (reset fp mseconds param1 c id ≡ some (c', id))
        × IsArmed c c' content' fp period param1 id
  unfolding reset
  reset-live h =
      let l = unlink-Loose v id h in
      let (c', done, inv, n, now, kept) = arm-Inv l fp period param1 in
      (
        c',
        _,
        rw (h, done) refl,
        record {
          inv = inv;
          in_use = ground (arith, kept id, h);
          callback = ground (arith, kept id);
          place = ground (arith, kept id, unlink_place c id);
          others = λ q ne. ground (arith, kept q, unlink_others c id q);
          periods = n ∙ (unlink_place c id).0;
          now = now ∙ (unlink_place c id).1;
        },
      )

  -- With a free block a timer that was not in use is set.
  pub reset-fresh :
      live c.mem id ≡ false
      → c.pool.num_of_free ≢ 0
      → (c' : Ctrl) × (content' : ℕ → List ℕ) × (p : ℕ) × (reset fp mseconds param1 c id
          ≡ some (c', p))
        × (live c.mem p ≡ false)
        × IsArmed c c' content' fp period param1 p
  unfolding reset
  reset-fresh h ne =
      let z = mem_pool_malloc zero_obj c.pool c.mem in
      let t = malloc-Taken zero_obj v.owned c.mem ne in
      let l = malloc-Loose v z.0 z.1 z.2 t in
      let (c', done, inv, n, now, kept) = arm-Inv l fp period param1 in
      let mapped : (z.0 == 0) ≡ false = ground (arith, t.mapped) in
      (
        c',
        _,
        z.0,
        rw (h, mapped, done) refl,
        t.fresh,
        record {
          inv = inv;
          in_use = ground (arith, kept z.0, t.mapped);
          callback = ground (arith, kept z.0);
          place = ground (arith, kept z.0);
          others = λ q other. ground (arith, kept q, ap (λ (f : Mem). f q) t.cleared);
          periods = n;
          now = now;
        },
      )

  reset-empty :
      live c.mem id ≡ false → c.pool.num_of_free ≡ 0 → reset fp mseconds param1 c id ≡ some (c, 0)
  unfolding reset
  reset-empty h e = rw (h, malloc-empty zero_obj v.owned c.mem e) refl

  -- On a controller whose invariant holds, tmrReset with the id of a timer in use sets that timer
  -- again under the same id. With another id it sets a timer that was not in use and writes its id,
  -- if there is a free block; and if there is none, it writes NULL to the id and leaves the
  -- controller as it was. A timer that it sets stands in the list and has the cycle, callback and
  -- parameter of the call, every other timer keeps what it had, and the invariant holds again.
  pub reset_lem :
      (live c.mem id ≡ true)
        × ((c' : Ctrl) × (content' : ℕ → List ℕ) × (reset fp mseconds param1 c id ≡ some (c', id))
            × IsArmed c c' content' fp period param1 id)
      ⊎ (live c.mem id ≡ false)
        × (c.pool.num_of_free ≢ 0)
        × ((c' : Ctrl) × (content' : ℕ → List ℕ) × (p : ℕ) × (reset fp mseconds param1 c id
              ≡ some (c', p))
            × (live c.mem p ≡ false)
            × IsArmed c c' content' fp period param1 p)
      ⊎ (live c.mem id ≡ false)
        × (c.pool.num_of_free ≡ 0)
        × (reset fp mseconds param1 c id ≡ some (c, 0))
  reset_lem = elim (Bool-cases (live c.mem id)) [
    | inl used ↦ inl (used, reset-live used)
    | inr unused ↦ elim (eq-cases c.pool.num_of_free 0) [
      | inl e ↦ inr (inr (unused, e, reset-empty unused e))
      | inr ne ↦
          let free : c.pool.num_of_free ≢ 0 = ground arith in
          inr (inl (unused, free, reset-fresh unused free))
    ]
  ]

  -- tmrReset returns on each of the three ways, with a sound controller.
  pub reset-Inv :
      (c' : Ctrl) × (id' : ℕ) × (content' : ℕ → List ℕ) × (reset fp mseconds param1 c id
        ≡ some (c', id'))
      × Inv c' content'
  reset-Inv = elim reset_lem [
    | inl (_, (c', content', done, s)) ↦ (c', id, content', done, s.inv)
    | inr (inl (_, _, (c', content', p, done, _, s))) ↦ (c', p, content', done, s.inv)
    | inr (inr (_, _, done)) ↦ (c, 0, content, done, v)
  ]

-- ===== src/Map/Took.antt =====
-- What removeTimer of ttimer/timer.c does with one timer.
use everyday_coding.Base.{
  ℕ, ◌+◌, ◌^◌, ◌<◌, ◌≡◌, ◌≢◌, ◌↔◌, refl, true, false, arith, ◌==◌, if◌then◌else◌, update,
  Bool-cases, inl, inr,
}
use everyday_coding.Entry.{Timer, Store, write, timer_dec_ref}
use everyday_coding.Map.{TimerMap, take_off}

-- Nothing that belongs to the wheels changed.
abbrev pub SameWheel : Timer → Timer → Type 0
SameWheel t t' = (t'.prev ≡ t.prev) × (t'.next ≡ t.next) × (t'.wheel ≡ t.wheel) × (t'.slot ≡ t.slot)

-- What removeTimer does with the timer `p` behind the timer `b`, or at the head where `b` is NULL.
pub record Took (m : TimerMap) (s : Store) (idx b p : ℕ) (m' : TimerMap) (s' : Store) : Type 0 where
  pub same_size : m'.size ≡ m.size
  pub other_heads : (j : ℕ) → (j == idx) ≡ false → (m'.slots j).timers ≡ (m.slots j).timers
  pub head : (m'.slots idx).timers ≡ (if b == 0 then (s.timers p).mnext else (m.slots idx).timers)
  pub links :
      (q : ℕ)
      → q ≢ 0
      → (s'.timers q).mnext ≡ (if q == b then (s.timers p).mnext else (s.timers q).mnext)
  pub ids : (q : ℕ) → (s'.timers q).id ≡ (s.timers q).id
  pub wheels : (q : ℕ) → SameWheel (s.timers q) (s'.timers q)
  pub others :
      (q : ℕ)
      → (q == p) ≡ false
      → ((s'.timers q).ref_count ≡ (s.timers q).ref_count) × (s'.freed q ≡ s.freed q)
  pub given_back :
      0 < (s.timers p).ref_count
      → (s.timers p).ref_count < 2 ^ 8
      → (s.freed p ≡ false)
      → ((s'.timers p).ref_count + 1 ≡ (s.timers p).ref_count)
        × ((s'.freed p ≡ true) ↔ ((s.timers p).ref_count ≡ 1))

pub dec_ref_at :
    (s : Store) (p q : ℕ)
    → let s' = timer_dec_ref s p in
      ((s'.timers q).mnext ≡ (s.timers q).mnext)
      × ((s'.timers q).id ≡ (s.timers q).id)
      × SameWheel (s.timers q) (s'.timers q)
      × ((q == p) ≡ false
          → ((s'.timers q).ref_count ≡ (s.timers q).ref_count) × (s'.freed q ≡ s.freed q))
dec_ref_at s p q = ground arith

pub dec_ref_here :
    (s : Store) (p : ℕ)
    → 0 < (s.timers p).ref_count
    → (s.timers p).ref_count < 2 ^ 8
    → (s.freed p ≡ false)
    → let s' = timer_dec_ref s p in
      ((s'.timers p).ref_count + 1 ≡ (s.timers p).ref_count)
      × ((s'.freed p ≡ true) ↔ ((s.timers p).ref_count ≡ 1))
dec_ref_here s p some_ref few alive = ground arith

pub one_write :
    (s : Store) (b next q : ℕ)
    → (if q == b then next else (s.timers q).mnext)
      ≡ (update s.timers b (record (s.timers b) { mnext = next }) q).mnext
one_write s b next q = ground arith

pub take_off-Took :
    (m : TimerMap) (s : Store) (idx b p : ℕ)
    → let (m', s') = take_off m s idx b p in Took m s idx b p m' s'
unfolding take_off
take_off-Took m s idx b p = elim (Bool-cases (b == 0)) [
  | inl e ↦ rw e (record {
    same_size = refl;
    other_heads = λ j ne. ground arith;
    head = ground arith;
    links = λ q ne. ground (arith, dec_ref_at s p q);
    ids = λ q. (dec_ref_at s p q).1;
    wheels = λ q. (dec_ref_at s p q).2;
    others = λ q ne. (dec_ref_at s p q).3 ne;
    given_back = dec_ref_here s p;
  })
  | inr ne ↦
      let s1 = write s b (record (s.timers b) { mnext = (s.timers p).mnext }) in
      rw ne (record {
        same_size = refl;
        other_heads = λ j ne. refl;
        head = rw ne refl;
        links = λ q ne. ground (arith, dec_ref_at s1 p q);
        ids = λ q. ground (arith, dec_ref_at s1 p q);
        wheels = λ q. ground (arith, dec_ref_at s1 p q);
        others = λ q other. ground (arith, dec_ref_at s1 p q);
        given_back = λ a b c. ground (arith, dec_ref_here s1 p);
      })
]

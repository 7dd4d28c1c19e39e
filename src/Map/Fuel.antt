-- ===== src/Map/Fuel.antt =====
-- The walks of ttimer/timer.c return the same with any fuel with which they return.
use everyday_coding.Base.{
  ℕ, zero, suc, ◌%◌, ◌≡◌, refl, Option, none, some, arith, ◌==◌, if◌then◌else◌, Bool-cases, inl,
  inr,
}
use everyday_coding.Entry.{Timer, Store, timer_add_ref}
use everyday_coding.Map.{TimerMap, find_loop, find_timer, remove_loop, take_off, remove_timer}

module _ (mem : ℕ → Timer) (id : ℕ) where
  find_loop-same :
      (k j p r r' : ℕ) → find_loop k mem id p ≡ some r → find_loop j mem id p ≡ some r' → r ≡ r'
  unfolding find_loop
  find_loop-same zero j p r r' e e' = cc
  find_loop-same (suc k) zero p r r' e e' = cc
  find_loop-same (suc k) (suc j) p r r' e e' = ground (arith, find_loop-same k j (mem p).mnext r r')

  remove_loop-same :
      (k j b p : ℕ) (r r' : ℕ × ℕ)
      → remove_loop k mem id b p ≡ some r
      → remove_loop j mem id b p ≡ some r'
      → r ≡ r'
  unfolding remove_loop
  remove_loop-same zero j b p r r' e e' = cc
  remove_loop-same (suc k) zero b p r r' e e' = cc
  remove_loop-same (suc k) (suc j) b p r r' e e' =
      ground (arith, remove_loop-same k j p (mem p).mnext r r')

-- Results that are made of the same walk are the same.
walk-same :
    {A B : Type 0} (f : A → B) (o o' : Option A) (b b' : B)
    → ((a a' : A) → o ≡ some a → o' ≡ some a' → a ≡ a')
    → elim o [ none ↦ none | some a ↦ some (f a) ] ≡ some b
    → elim o' [ none ↦ none | some a ↦ some (f a) ] ≡ some b'
    → b ≡ b'
walk-same f none o' b b' same e e' = cc
walk-same f (some a) none b b' same e e' = cc
walk-same f (some a) (some a') b b' same e e' = let eq = same a a' refl refl in cc

pub find_timer-same :
    (k j : ℕ) (m : TimerMap) (s : Store) (id : ℕ) (r r' : ℕ × Store)
    → find_timer k m s id ≡ some r
    → find_timer j m s id ≡ some r'
    → r ≡ r'
unfolding find_timer
find_timer-same k j m s id r r' e e' = elim (Bool-cases (id == 0)) [
  | inl zero_id ↦
      let a = rw (find_timer, zero_id) at e in let b = rw (find_timer, zero_id) at e' in cc
  | inr other ↦
      let head = (m.slots (id % m.size)).timers in
      walk-same (λ p. (p, (if p == 0 then s else timer_add_ref s p))) (find_loop k s.timers id head)
        (find_loop j s.timers id head) r r' (find_loop-same s.timers id k j head)
        (rw (find_timer, other) at e) (rw (find_timer, other) at e')
]

pub find_timer-zero : (k : ℕ) (m : TimerMap) (s : Store) → find_timer k m s 0 ≡ some (0, s)
unfolding find_timer
find_timer-zero k m s = refl

pub remove_timer-same :
    (k j : ℕ) (m : TimerMap) (s : Store) (id : ℕ) (r r' : TimerMap × Store)
    → remove_timer k m s id ≡ some r
    → remove_timer j m s id ≡ some r'
    → r ≡ r'
unfolding remove_timer
remove_timer-same k j m s id r r' e e' =
    let head = (m.slots (id % m.size)).timers in
    walk-same (λ (w : ℕ × ℕ). if w.1 == 0 then (m, s) else take_off m s (id % m.size) w.0 w.1)
      (remove_loop k s.timers id 0 head) (remove_loop j s.timers id 0 head) r r'
      (remove_loop-same s.timers id k j 0 head) e e'

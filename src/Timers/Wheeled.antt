-- ===== src/Timers/Wheeled.antt =====
-- addToWheel and removeFromWheel keep the references counted.

use everyday_coding.Base.{ℕ, ◌≤◌, ◌<◌, ◌≡◌, ◌≢◌, refl, true, false, List, arith, inl, inr}
use everyday_coding.Entry.{Store}
use everyday_coding.Map.{no_wheel}
use everyday_coding.Wheel.{TimeWheel, add_to_wheel, remove_from_wheel, wheel_count}
use everyday_coding.Wheel.Contents.{in_wheel}
use everyday_coding.Wheel.Add.{add_to_wheel-Wheels}
use everyday_coding.Wheel.Remove.{TakenOut, remove_from_wheel-Wheels}
use everyday_coding.Wheel.Entries.{SameEntry, SameHolders, add_to_wheel_at, remove_from_wheel_at}
use everyday_coding.Timers.{State, IsGood, after_arm, after_stop}
use everyday_coding.Timers.Frames.{Buckets-frame}
use everyday_coding.Timers.Counted.{listed, Counted, is_listed}

module _ {t : State} {buckets : ℕ → List ℕ} {slots : ℕ → ℕ → List ℕ}
    (v : Counted t buckets slots) where
  same_listed :
      (s' : Store) {q : ℕ}
      → (s'.timers q).id ≡ (t.store.timers q).id
      → listed t.map s' buckets q ≡ listed t.map t.store buckets q
  same_listed s' e = rw e refl

  pub arm-Counted :
      (p delay now : ℕ)
      → IsGood t.store p
      → t.used p ≡ true
      → no_wheel ≤ (t.store.timers p).wheel
      → (slots' : ℕ → ℕ → List ℕ) × Counted (after_arm t p delay now) buckets slots'
  arm-Counted p delay now good known idle =
      let z = add_to_wheel t.wheels t.store p delay now in
      let (wheels', w_lt, k_lt, placed, _, ref) =
        add_to_wheel-Wheels v.wheels p delay now
          (record { ne_null = good.ne_null; alive = good.alive; idle = idle; few = good.few }) in
      let at = λ (q : ℕ). add_to_wheel_at t.wheels t.store p q delay now in
      let now_in : in_wheel z.1 p ≡ true = ground (arith, placed) in
      let was_out : in_wheel t.store p ≡ false = ground (arith, idle) in
      let others : (q : ℕ) → q ≢ p → in_wheel z.1 q ≡ in_wheel t.store q =
        λ q ne. ground (arith, (at q).2 ne) in
      (
        _,
        record {
          map =
              Buckets-frame v.map (λ q. (at q).0)
                (λ i q lt h. ground (arith, at q, ref, v.map.held i lt q, good.few));
          wheels = wheels';
          counted = λ q ne alive. ground (
            arith,
            at q,
            ref,
            now_in,
            was_out,
            others q,
            same_listed z.1 (at q).0.1,
            v.counted q ne,
          );
          gone = λ q h. ground (arith, v.gone q, at q);
          kept = λ q known alive. ground (arith, v.kept q, at q, ref);
          byte = λ q. ground (arith, v.byte q, at q, ref, good.few);
          unknown = λ q h. ground (arith, v.unknown q, known, others q, same_listed z.1 (at q).0.1);
        },
      )

  -- removeFromWheel of a timer in a wheel
  taken-Counted :
      (p : ℕ) (ws' : ℕ → TimeWheel) (s' : Store)
      → p ≢ 0
      → t.store.freed p ≡ false
      → (t.store.timers p).wheel < wheel_count
      → TakenOut t.wheels t.store slots p (t.store.timers p).wheel (t.store.timers p).slot ws' s'
      → ((q : ℕ) → SameEntry (t.store.timers q) (s'.timers q) × (q ≢ p → SameHolders t.store s' q))
      → (slots' : ℕ → ℕ → List ℕ) × Counted (record t { wheels = ws'; store = s' }) buckets slots'
  taken-Counted p ws' s' ne alive lt r at =
      let was_in : in_wheel t.store p ≡ true = ground arith in
      let now_out : in_wheel s' p ≡ false = ground (arith, r.in_none) in
      let others : (q : ℕ) → q ≢ p → in_wheel s' q ≡ in_wheel t.store q =
        λ q apart. ground (arith, (at q).1 apart) in
      let count = v.counted p ne alive in
      (
        _,
        record {
          map =
              Buckets-frame v.map (λ q. (at q).0)
                (λ i q lt h. ground (
                  arith,
                  at q,
                  r.references,
                  r.given_back,
                  count,
                  was_in,
                  is_listed v.map i q lt h,
                  v.map.held i lt q,
                ));
          wheels = r.wheels;
          counted = λ q some_q alive'. ground (
            arith,
            at q,
            r.references,
            now_out,
            was_in,
            alive,
            others q,
            same_listed s' (at q).0.1,
            v.counted q some_q,
          );
          gone = λ q h. ground (arith, v.gone q, at q, r.given_back, count, was_in);
          kept = λ q known alive'.
              ground (arith, v.kept q, at q, r.references, r.given_back, count, was_in);
          byte = λ q. ground (arith, v.byte q, at q, r.references);
          unknown =
              λ q h. ground (arith, v.unknown q, now_out, others q, same_listed s' (at q).0.1);
        },
      )

  pub stop-Counted :
      (p : ℕ)
      → p ≢ 0
      → t.store.freed p ≡ false
      → (slots' : ℕ → ℕ → List ℕ) × Counted (after_stop t p) buckets slots'
  stop-Counted p ne alive = elim (remove_from_wheel-Wheels v.wheels p ne alive) [
    | inl (_, kept) ↦ (slots, rw kept v)
    | inr (lt, (_, r)) ↦
        let z = remove_from_wheel t.wheels t.store p in
        taken-Counted p z.1 z.2 ne alive lt r (λ q. remove_from_wheel_at t.wheels t.store p q)
  ]

-- ===== src/Timers/Counted.antt =====
-- The reference count of a timer is the number of those that hold it.
use mathlib.Core.Path.{subst}
use everyday_coding.Base.{
  ℕ, ◌+◌, ◌%◌, ◌^◌, ◌<◌, ◌≡◌, ◌≢◌, refl, sym, ap, Bool, true, false, List, ◌∷◌, arith, ◌==◌, update,
  has, Bool-cases, test-cases, ◌||◌, inl, inr,
}
use everyday_coding.Entry.{Store, timer_add_ref, timer_dec_ref}
use everyday_coding.Map.{TimerMap, add_timer}
use everyday_coding.Map.Took.{dec_ref_at, dec_ref_here}
use everyday_coding.Map.Contents.{Buckets}
use everyday_coding.Map.Find.{add_timer-Buckets}
use everyday_coding.Map.Entries.{add_timer_at}
use everyday_coding.Wheel.Contents.{in_wheel, Wheels}
use everyday_coding.Timers.{State, IsGood, after_add, after_release}
use everyday_coding.Timers.Frames.{Buckets-frame, Wheels-frame}

abbrev pub bit : Bool → ℕ
bit true = 1
bit false = 0

-- The timer stands in the bucket of its id.
abbrev pub listed : TimerMap → Store → (ℕ → List ℕ) → ℕ → Bool
listed m s buckets q = has q (buckets ((s.timers q).id % m.size))

-- The map and the wheels are sound, and the reference count of every timer that has not been freed
-- is the number of those that hold it: the map, a wheel, and others. Nobody holds a freed timer, and
-- one that has been added to the map is freed when nobody holds it any more.
pub record Counted (t : State) (buckets : ℕ → List ℕ) (slots : ℕ → ℕ → List ℕ) : Type 0 where
  pub map : Buckets t.map t.store buckets
  pub wheels : Wheels t.wheels t.store slots
  pub counted :
      (q : ℕ)
      → q ≢ 0
      → t.store.freed q ≡ false
      → (t.store.timers q).ref_count
        ≡ bit (listed t.map t.store buckets q) + bit (in_wheel t.store q) + t.held q
  pub gone : (q : ℕ) → t.store.freed q ≡ true → t.held q ≡ 0
  pub kept : (q : ℕ) → t.used q ≡ true → t.store.freed q ≡ false → 0 < (t.store.timers q).ref_count
  pub byte : (q : ℕ) → (t.store.timers q).ref_count < 2 ^ 8
  pub unknown :
      (q : ℕ)
      → t.used q ≡ false
      → (listed t.map t.store buckets q ≡ false) × (in_wheel t.store q ≡ false)

-- A timer stands in no other bucket than that of its id.
pub is_listed :
    {m : TimerMap} {s : Store} {buckets : ℕ → List ℕ}
    → Buckets m s buckets
    → (i p : ℕ) → i < m.size
    → has p (buckets i) ≡ true
    → listed m s buckets p ≡ true
is_listed {buckets = buckets} v i p lt there =
    subst (λ j. has p (buckets j) ≡ true) (sym (v.belongs i lt p there)) there

not_listed :
    {m : TimerMap} {s : Store} {buckets : ℕ → List ℕ}
    → Buckets m s buckets
    → (p : ℕ) → listed m s buckets p ≡ false
    → (i : ℕ) → i < m.size
    → has p (buckets i) ≡ false
not_listed {buckets = buckets} v p out i lt = elim (Bool-cases (has p (buckets i))) [
  | inl there ↦ absurd (ground (arith, is_listed v i p lt there, out))
  | inr none ↦ none
]

module _ {t : State} {buckets : ℕ → List ℕ} {slots : ℕ → ℕ → List ℕ} (v : Counted t buckets slots)
    (p : ℕ) where
  -- With the timer in front of its bucket.
  now_listed :
      (m' : TimerMap) (s' : Store) (q : ℕ)
      → m'.size ≡ t.map.size
      → (s'.timers q).id ≡ (t.store.timers q).id
      → let i = (t.store.timers p).id % t.map.size in
        listed m' s' (update buckets i (p ∷ buckets i)) q
        ≡ (q == p || listed t.map t.store buckets q)
  now_listed m' s' q size id =
      let i = (t.store.timers p).id % t.map.size in
      let j = (t.store.timers q).id % t.map.size in
      rw (size, id)
        (elim (test-cases j i) [
          | inl e ↦ let same : j ≡ i = ground arith in rw (e, same) refl
          | inr ne ↦ rw ne (elim (Bool-cases (q == p)) [
            | inl e ↦
                let same : q ≡ p = ground arith in
                let eq : j ≡ i = ap (λ a. (t.store.timers a).id % t.map.size) same in
                absurd (ground (arith, eq, ne))
            | inr other ↦ rw other refl
          ])
        ])

  pub add-Counted :
      IsGood t.store p
      → t.used p ≡ false
      → let i = (t.store.timers p).id % t.map.size in
        Counted (after_add t p) (update buckets i (p ∷ buckets i)) slots
  add-Counted good fresh =
      let z = add_timer t.map t.store p in
      let (out, idle) = v.unknown p fresh in
      let (map', ref, wheel) =
        add_timer-Buckets v.map p good.ne_null (not_listed v.map p out) good.alive good.few in
      let at = λ (q : ℕ). add_timer_at t.map t.store p q in
      let i = (t.store.timers p).id % t.map.size in
      let now = λ (q : ℕ). now_listed z.0 z.1 q (at q).0 (at q).1 in
      let still : (q : ℕ) → in_wheel z.1 q ≡ in_wheel t.store q =
        λ q. ground (arith, at q, wheel, idle) in
      record {
        map = map';
        wheels =
            Wheels-frame v.wheels still (λ q h. ground (arith, at q, idle, h))
              (λ q h. ground (arith, at q, idle, h, v.wheels.held q));
        counted = λ q ne alive. ground (arith, at q, ref, still q, now q, v.counted q, out, idle);
        gone = λ q h. ground (arith, at q, v.gone q);
        kept = λ q known alive. ground (arith, at q, ref, v.kept q);
        byte = λ q. ground (arith, at q, ref, v.byte q, good.few);
        unknown = λ q h. ground (arith, still q, now q, v.unknown q);
      }

  -- Another reference for the timer.
  pub add_ref-Counted :
      IsGood t.store p
      → Counted
          (record t { store = timer_add_ref t.store p; held = update t.held p (t.held p + 1) })
          buckets
          slots
  add_ref-Counted good =
      let s' = timer_add_ref t.store p in
      record {
        map =
            Buckets-frame v.map (λ q. ground arith)
              (λ i q lt h. ground (arith, v.map.held i lt q, good.few));
        wheels =
            Wheels-frame v.wheels (λ q. ground arith) (λ q h. ground arith)
              (λ q h. ground (arith, v.wheels.held q, good.few));
        counted = λ q ne alive. ground (arith, v.counted q, good.few);
        gone = λ q h. ground (arith, v.gone q, good.alive);
        kept = λ q known alive. ground (arith, v.kept q, good.few);
        byte = λ q. ground (arith, v.byte q, good.few);
        unknown = λ q h. ground (arith, v.unknown q);
      }

  pub release-Counted : p ≢ 0 → 0 < t.held p → Counted (after_release t p) buckets slots
  release-Counted ne some_held =
      let s' = timer_dec_ref t.store p in
      let alive : t.store.freed p ≡ false = ground (arith, v.gone p) in
      let count = v.counted p ne alive in
      let at = λ (q : ℕ). dec_ref_at t.store p q in
      let here = dec_ref_here t.store p (omega (arith, count)) (v.byte p) alive in
      record {
        map =
            Buckets-frame v.map (λ q. ground (arith, at q))
              (λ i q lt h.
                ground (arith, at q, here, count, is_listed v.map i q lt h, v.map.held i lt q));
        wheels =
            Wheels-frame v.wheels (λ q. ground (arith, at q, here, count)) (λ q h. (at q).2)
              (λ q h. ground (arith, at q, here, count, h, v.wheels.held q));
        counted = λ q ne alive. ground (arith, at q, here, count, v.counted q ne);
        gone = λ q h. ground (arith, at q, here, count, v.gone q);
        kept = λ q known alive. ground (arith, at q, here, count, v.kept q);
        byte = λ q. ground (arith, v.byte q, here, at q);
        unknown = λ q h. ground (arith, at q, here, count, v.unknown q);
      }

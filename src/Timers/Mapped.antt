-- ===== src/Timers/Mapped.antt =====
-- findTimer and removeTimer keep the references counted.

use everyday_coding.Base.{
  ℕ, ◌+◌, ◌%◌, ◌<◌, ◌≡◌, ◌≢◌, ◌⊎◌, sym, ap, ◌∙◌, true, false, some, List, arith, ◌==◌,
  if◌then◌else◌, has, length, Bool-cases, inl, inr,
}
use everyday_coding.Entry.{Store, timer_add_ref}
use everyday_coding.Map.{TimerMap, find_timer, remove_timer}
use everyday_coding.Map.Contents.{Buckets}
use everyday_coding.Map.Find.{find_timer_lem}
use everyday_coding.Map.Remove.{Removed, remove_timer-Buckets}
use everyday_coding.Map.Fuel.{find_timer-same, remove_timer-same}
use everyday_coding.Wheel.Contents.{in_wheel}
use everyday_coding.Timers.{State, IsGood, after_find}
use everyday_coding.Timers.Frames.{Wheels-frame}
use everyday_coding.Map.Contents.{nodes, bucket-lt}
use everyday_coding.Map.Fuel.{find_timer-zero}
use everyday_coding.Timers.Counted.{listed, Counted, add_ref-Counted}

module _ {t : State} {buckets : ℕ → List ℕ} {slots : ℕ → ℕ → List ℕ}
    (v : Counted t buckets slots) where
  abbrev fuel_for : ℕ → ℕ
  fuel_for id = length (buckets (id % t.map.size)) + 1

  -- A timer of the map is neither NULL nor freed.
  listed-IsGood :
      (p : ℕ)
      → has p (buckets ((t.store.timers p).id % t.map.size)) ≡ true
      → (t.store.timers p).ref_count < 255
      → IsGood t.store p
  listed-IsGood p h few =
      let id = (t.store.timers p).id in
      record {
        ne_null = ground (arith, h, nodes v.map id);
        alive = (v.map.held (id % t.map.size) (bucket-lt v.map id) p h).0;
        few = few;
      }

  found-Counted :
      (p : ℕ) (store : Store)
      → (p ≡ 0) × (store ≡ t.store) ⊎ IsGood t.store p × (store ≡ timer_add_ref t.store p)
      → Counted (after_find t p store) buckets slots
  found-Counted p store (inl (e, e')) = rw (e, e') v
  found-Counted p store (inr (good, e)) =
      let some_timer : (p == 0) ≡ false = ground (arith, good.ne_null) in
      rw (e, some_timer) (add_ref-Counted v p good)

  pub find-Counted :
      (fuel id p : ℕ) (store : Store)
      → find_timer fuel t.map t.store id ≡ some (p, store)
      → (t.store.timers p).ref_count < 255
      → Counted (after_find t p store) buckets slots
  find-Counted fuel id p store e few = elim (Bool-cases (id == 0)) [
    | inl zero_id ↦
        let none : find_timer fuel t.map t.store id ≡ some (0, t.store) =
          let same : id ≡ 0 = ground arith in rw same (find_timer-zero fuel t.map t.store) in
        found-Counted p store (inl (ground (arith, e, none), ground (arith, e, none)))
    | inr some_id ↦
        let (p', s', done, r) =
          find_timer_lem v.map (fuel_for id) id (ground arith) (omega arith) in
        let same = find_timer-same fuel (fuel_for id) t.map t.store id (p, store) (p', s') e done in
        let ep : p ≡ p' = ap (λ (r : ℕ × Store). r.0) same in
        let es : store ≡ s' = ap (λ (r : ℕ × Store). r.1) same in
        found-Counted p store (elim r [
          | inl (none, kept, _) ↦ inl (ep ∙ none, es ∙ kept)
          | inr (there, own, taken) ↦
              let h : has p (buckets ((t.store.timers p).id % t.map.size)) ≡ true =
                rw (ep, own) there in
              inr (listed-IsGood p h few, es ∙ taken ∙ ap (timer_add_ref t.store) (sym ep))
        ])
  ]

  Removed-Counted :
      (id p : ℕ) (m' : TimerMap) (s' : Store) (buckets' : ℕ → List ℕ)
      → Buckets m' s' buckets'
      → Removed t.map t.store buckets id p m' s' buckets'
      → Counted (record t { map = m'; store = s' }) buckets' slots
  Removed-Counted id p m' s' buckets' map' r =
      let lt = λ (q : ℕ). bucket-lt v.map (t.store.timers q).id in
      let at = λ (q : ℕ). r.other_timers q in
      let same = λ (q : ℕ). r.same_timers q in
      let now : (q : ℕ)
          → listed m' s' buckets' q ≡ (if q == p then false else listed t.map t.store buckets q) =
        λ q.
          rw (r.same_size, (r.same_timers q).0)
            (r.contents ((t.store.timers q).id % t.map.size) q (lt q)) in
      let there : listed t.map t.store buckets p ≡ true = rw r.own_id r.stood in
      let some_p : p ≢ 0 = ground (arith, r.stood, nodes v.map id) in
      let alive = (v.map.held (id % t.map.size) (bucket-lt v.map id) p r.stood).0 in
      let count = v.counted p some_p alive in
      let still : (q : ℕ) → in_wheel s' q ≡ in_wheel t.store q =
        λ q. ground (arith, at q, (same q).1, r.references, r.given_back, count, there, alive) in
      record {
        map = map';
        wheels =
            Wheels-frame v.wheels still (λ q h. (same q).1)
              (λ q h. ground (
                arith,
                h,
                v.wheels.held q,
                still q,
                at q,
                (same q).1,
                r.references,
                r.given_back,
                count,
                there,
                alive,
              ));
        counted = λ q ne alive'.
            ground (
              arith,
              now q,
              still q,
              v.counted q ne,
              at q,
              r.references,
              r.given_back,
              there,
              alive,
            );
        gone = λ q h. ground (arith, v.gone q, at q, r.references, r.given_back, count, there);
        kept = λ q known alive'.
            ground (arith, v.kept q, at q, r.references, r.given_back, count, there, alive);
        byte = λ q. ground (arith, v.byte q, at q, r.references);
        unknown = λ q h. ground (arith, now q, still q, v.unknown q);
      }

  pub remove-Counted :
      (fuel id : ℕ) (map : TimerMap) (store : Store)
      → remove_timer fuel t.map t.store id ≡ some (map, store)
      → (buckets' : ℕ → List ℕ) × Counted (record t { map = map; store = store }) buckets' slots
  remove-Counted fuel id map store e =
      let (p, m', s', buckets', done, map', r) =
        remove_timer-Buckets v.map (fuel_for id) id (omega arith) in
      let same =
        remove_timer-same fuel (fuel_for id) t.map t.store id (map, store) (m', s') e done in
      let em : map ≡ m' = ap (λ (r : TimerMap × Store). r.0) same in
      let es : store ≡ s' = ap (λ (r : TimerMap × Store). r.1) same in
      elim r [
        | inl (_, same_map, same_store, _) ↦ (buckets, rw (em ∙ same_map, es ∙ same_store) v)
        | inr gone ↦ (buckets', rw (em, es) (Removed-Counted id p m' s' buckets' map' gone))
      ]

-- ===== src/Map/Remove.antt =====
-- removeTimer of ttimer/timer.c.

use everyday_coding.Base.{
  ℕ, ◌+◌, ◌%◌, ◌<◌, ◌≡◌, ◌≢◌, ◌⊎◌, ◌↔◌, refl, ◌∙◌, true, false, some, List, ◌∷◌, arith, ◌==◌,
  if◌then◌else◌, length, has, update, Bool-cases, test-cases, inl, inr,
}
use everyday_coding.Ctrl.Chain.{Distinct}
use everyday_coding.Entry.{Store}
use everyday_coding.Map.{TimerMap, remove_timer, take_off}
use everyday_coding.Map.Links.{Links-frame, Links-ne, first_with}
use everyday_coding.Map.Cut.{
  before, without, remove_loop_lem, first_with-has, has-without, without-Links, without-Distinct,
  before-has,
}
use everyday_coding.Map.Contents.{
  Buckets, Put, Put-Buckets, bucket, bucket-lt, nodes, absent, elsewhere,
}
use everyday_coding.Map.Took.{SameWheel, one_write, take_off-Took}

-- What removeTimer leaves where it takes the timer `p` with the id off its bucket.
pub record Removed (m : TimerMap) (s : Store) (content : ℕ → List ℕ) (id p : ℕ) (m' : TimerMap)
    (s' : Store) (content' : ℕ → List ℕ) : Type 0 where
  pub own_id : (s.timers p).id ≡ id
  pub stood : has p (content (id % m.size)) ≡ true
  pub contents :
      (i q : ℕ) → i < m.size → has q (content' i) ≡ (if q == p then false else has q (content i))
  pub references : (s'.timers p).ref_count + 1 ≡ (s.timers p).ref_count
  pub given_back : (s'.freed p ≡ true) ↔ ((s.timers p).ref_count ≡ 1)
  pub same_size : m'.size ≡ m.size
  pub same_timers :
      (q : ℕ) → ((s'.timers q).id ≡ (s.timers q).id) × SameWheel (s.timers q) (s'.timers q)
  pub other_timers :
      (q : ℕ)
      → q ≢ p
      → ((s'.timers q).ref_count ≡ (s.timers q).ref_count) × (s'.freed q ≡ s.freed q)

module _ {m : TimerMap} {s : Store} {content : ℕ → List ℕ} (v : Buckets m s content) where
  taken :
      (id : ℕ)
      → let xs = content (bucket v id) in
        let p = first_with s.timers id xs in
        let z = take_off m s (bucket v id) (before s.timers id 0 xs) p in
        (p == 0) ≡ false → Put m z.0 s z.1 content (bucket v id) (without s.timers id xs)
  taken id hit =
      let i = bucket v id in
      let lt = bucket-lt v id in
      let xs = content i in
      let p = first_with s.timers id xs in
      let b = before s.timers id 0 xs in
      let t = take_off-Took m s i b p in
      let at = λ (q : ℕ). has-without s.timers id xs q (v.distinct i lt) (nodes v id) in
      let (h, e) = first_with-has s.timers id xs (ground arith) in
      let d : Distinct (0 ∷ xs) = (nodes v id, v.distinct i lt) in
      let cut = without-Links s.timers id 0 (m.slots i).timers xs d (v.links i lt) (ground arith) in
      let z = take_off m s i b p in
      let mem = update s.timers b (record (s.timers b) { mnext = (s.timers p).mnext }) in
      let rest : (q : ℕ)
          → has q (without s.timers id xs) ≡ true
          → (has q xs ≡ true) × ((q == p) ≡ false) × (q ≢ 0) =
        λ q h. ground (arith, at q, nodes v id) in
      let node = before-has s.timers id 0 xs in
      record {
        in_range = lt;
        same_size = t.same_size;
        other_heads = t.other_heads;
        new_links = rw t.head (
            Links-frame mem z.1.timers (if b == 0 then (s.timers p).mnext else (m.slots i).timers)
              (without s.timers id xs)
              (λ q h. t.links q (rest q h).2 ∙ one_write s b (s.timers p).mnext q) cut);
        new_distinct = without-Distinct s.timers id xs (v.distinct i lt) (nodes v id);
        new_ids = λ q h. rw (t.ids q) (v.belongs i lt q (rest q h).0);
        new_held = λ q h. ground (arith, t.others q, rest q h, v.held i lt q);
        frame = λ j in_range other q h'.
            let ne : q ≢ 0 =
              ground
                (arith, Links-ne s.timers (m.slots j).timers (content j) (v.links j in_range)) in
            let apart : has q xs ≡ false = elsewhere v id j in_range other q h' in
            let not_p : (q == p) ≡ false = ground (arith, h) in
            let not_b : (q == b) ≡ false = ground (arith, node) in
            (t.links q ne ∙ rw not_b refl, t.ids q, (t.others q not_p).0, (t.others q not_p).1);
      }

  only_one :
      (id : ℕ)
      → let xs = content (bucket v id) in
        let p = first_with s.timers id xs in
        (p == 0) ≡ false
        → (i q : ℕ) → i < m.size
        → has q (update content (bucket v id) (without s.timers id xs) i)
          ≡ (if q == p then false else has q (content i))
  only_one id hit i q lt =
      let xs = content (bucket v id) in
      let p = first_with s.timers id xs in
      let (h, _) = first_with-has s.timers id xs (ground arith) in
      elim (test-cases i (bucket v id)) [
        | inl e ↦
            let same : i ≡ bucket v id = ground arith in
            rw (e, same)
              (has-without s.timers id xs q (v.distinct (bucket v id) (bucket-lt v id))
                (nodes v id))
        | inr other ↦ rw other (elim (Bool-cases (q == p)) [
          | inl e ↦ elim (Bool-cases (has q (content i))) [
            | inl there ↦ let out = elsewhere v id i lt other q there in absurd (ground (arith, h))
            | inr out ↦ rw (e, out) refl
          ]
          | inr ne ↦ rw ne refl
        ])
      ]

  -- On a map whose invariant holds, removeTimer with fuel for the bucket returns, and the invariant
  -- holds again. Where no timer of the map has the id nothing changes; else a timer with the id
  -- leaves its bucket and gives its reference back, which frees it exactly if that was the last one,
  -- and every other timer keeps its references and every timer its place in the wheels.
  pub remove_timer-Buckets :
      (k id : ℕ)
      → length (content (id % m.size)) < k
      → (p : ℕ) × (m' : TimerMap) × (s' : Store) × (content' : ℕ → List ℕ) × (remove_timer k m s id
          ≡ some (m', s'))
        × Buckets m' s' content'
        × ((p ≡ 0)
              × (m' ≡ m)
              × (s' ≡ s)
              × ((i q : ℕ) → i < m.size → has q (content i) ≡ true → (s.timers q).id ≢ id)
            ⊎ Removed m s content id p m' s' content')
  unfolding remove_timer
  remove_timer-Buckets k id fuel =
      let i = bucket v id in
      let lt = bucket-lt v id in
      let xs = content i in
      let walk = remove_loop_lem k s.timers id 0 (m.slots i).timers xs (v.links i lt) fuel in
      let p = first_with s.timers id xs in
      let b = before s.timers id 0 xs in
      elim (Bool-cases (p == 0)) [
        | inl none ↦
            let nobody : p ≡ 0 = ground arith in
            (
              0,
              m,
              s,
              content,
              rw (remove_timer, walk, nobody) refl,
              v,
              inl (refl, refl, refl, absent v id nobody),
            )
        | inr hit ↦
            let (h, e) = first_with-has s.timers id xs (ground arith) in
            let z = take_off m s i b p in
            let (free, some_ref, few) = v.held i lt p h in
            let took = take_off-Took m s i b p in
            let back = took.given_back some_ref few free in
            (
              p,
              z.0,
              z.1,
              update content i (without s.timers id xs),
              rw (remove_timer, walk, hit) refl,
              Put-Buckets v (taken id hit),
              inr (record {
                own_id = e;
                stood = h;
                contents = only_one id hit;
                references = back.0;
                given_back = back.1;
                same_size = took.same_size;
                same_timers = λ q. (took.ids q, took.wheels q);
                other_timers = λ q ne. took.others q (ground arith);
              }),
            )
      ]

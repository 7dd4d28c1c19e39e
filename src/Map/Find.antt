-- ===== src/Map/Find.antt =====
-- addTimer and findTimer of ttimer/timer.c.
use mathlib.Core.Path.{fun_ext}
use everyday_coding.Base.{
  ℕ, suc, false, ◌+◌, ◌%◌, ◌^◌, ◌<◌, ◌≡◌, ◌≢◌, ◌⊎◌, refl, ap, true, false, some, List, ◌∷◌, arith,
  ◌==◌, length, has, update, Bool-cases, inl, inr,
}
use everyday_coding.Entry.{Timer, Store, write, timer_add_ref}
use everyday_coding.Map.{TimerMap, no_wheel, set_head, add_timer, find_timer, find_loop}
use everyday_coding.Map.Links.{Links-frame, first_with, find_loop_lem}
use everyday_coding.Map.Cut.{first_with-has}
use everyday_coding.Map.Contents.{Buckets, Put-Buckets, bucket, bucket-lt, absent}

-- The writes of addTimer to the timer, in one.
added : TimerMap → Store → ℕ → Timer
added m s p = record (s.timers p) {
  ref_count = ((s.timers p).ref_count + 1) % 2 ^ 8;
  wheel = no_wheel;
  mnext = (m.slots ((s.timers p).id % m.size)).timers;
}

add_timer_lem :
    (m : TimerMap) (s : Store) (p : ℕ)
    → add_timer m s p ≡ (set_head m ((s.timers p).id % m.size) p, write s p (added m s p))
unfolding add_timer added
add_timer_lem m s p =
    let here : (p == p) ≡ true = ground arith in
    rw here (
      ap (λ f. (set_head m ((s.timers p).id % m.size) p, record s { timers = f }))
        (fun_ext λ q. elim (Bool-cases (q == p)) [ inl e ↦ rw e refl | inr ne ↦ rw ne refl ]))

module _ {m : TimerMap} {s : Store} {content : ℕ → List ℕ} (v : Buckets m s content) where
  -- On a map whose invariant holds, addTimer puts a timer that is in no bucket, not NULL, not freed and
  -- has fewer than 255 references in front of its bucket, with one more reference and in no wheel,
  -- and the invariant holds again.
  pub add_timer-Buckets :
      (p : ℕ)
      → p ≢ 0
      → ((i : ℕ) → i < m.size → has p (content i) ≡ false)
      → s.freed p ≡ false
      → (s.timers p).ref_count < 255
      → let (m', s') = add_timer m s p in
        let i = (s.timers p).id % m.size in
        Buckets m' s' (update content i (p ∷ content i))
        × ((s'.timers p).ref_count ≡ (s.timers p).ref_count + 1)
        × ((s'.timers p).wheel ≡ no_wheel)
  unfolding added
  add_timer-Buckets p ne out alive few =
      let i = bucket v (s.timers p).id in
      let here : (p == p) ≡ true = ground arith in
      let here' : (i == i) ≡ true = ground arith in
      let lt = bucket-lt v (s.timers p).id in
      rw (add_timer_lem m s p) (
        Put-Buckets v (record {
          in_range = lt;
          same_size = refl;
          other_heads = λ j other. ground arith;
          new_links =
              rw (here, here')
                (
                  refl,
                  ne,
                  Links-frame s.timers (update s.timers p (added m s p)) (m.slots i).timers
                      (content i) (λ q h. ground (arith, out i lt)) (v.links i lt),
                );
          new_distinct = (out i lt, v.distinct i lt);
          new_ids = λ q h. ground (arith, v.belongs i lt q);
          new_held = λ q h. ground (arith, v.held i lt q);
          frame = λ j in_range other q h. ground (arith, out j in_range);
        }),
        ground arith,
        ground arith,
      )

  -- On a map whose invariant holds, findTimer with an id that is not 0 and fuel for the bucket returns
  -- NULL where no timer of the map has the id, and else a timer of the map with the id, on which it
  -- calls timerAddRef; it changes nothing else.
  pub find_timer_lem :
      (k id : ℕ)
      → 0 < id
      → length (content (id % m.size)) < k
      → (p : ℕ) × (s' : Store) × (find_timer k m s id ≡ some (p, s'))
        × ((p ≡ 0)
              × (s' ≡ s)
              × ((i q : ℕ) → i < m.size → has q (content i) ≡ true → (s.timers q).id ≢ id)
            ⊎ (has p (content (id % m.size)) ≡ true)
              × ((s.timers p).id ≡ id)
              × (s' ≡ timer_add_ref s p))
  unfolding find_timer
  find_timer_lem k id some_id fuel =
      let i = bucket v id in
      let lt = bucket-lt v id in
      let xs = content i in
      let walk = find_loop_lem k s.timers id (m.slots i).timers xs (v.links i lt) fuel in
      let no_null : (id == 0) ≡ false = ground arith in
      let p = first_with s.timers id xs in
      elim (Bool-cases (p == 0)) [
        | inl none ↦
            let nobody : p ≡ 0 = ground arith in
            (
              0,
              s,
              rw (find_timer, no_null, walk, nobody) refl,
              inl (refl, refl, absent v id nobody),
            )
        | inr hit ↦
            let (h, e) = first_with-has s.timers id xs (ground arith) in
            (p, timer_add_ref s p, rw (find_timer, no_null, walk, hit) refl, inr (h, e, refl))
      ]

find_head :
    (k : ℕ) (m : TimerMap) (s : Store) (p id : ℕ)
    → p ≢ 0
    → 0 < id
    → (m.slots (id % m.size)).timers ≡ p
    → (s.timers p).id ≡ id
    → find_timer (suc k) m s id ≡ some (p, timer_add_ref s p)
unfolding find_timer find_loop
find_head k m s p id ne some_id head own =
    let some_timer : (p == 0) ≡ false = ground arith in
    let not_zero : (id == 0) ≡ false = ground arith in
    let found : ((s.timers p).id == id) ≡ true = ground arith in
    rw (find_timer, not_zero, head, some_timer, found, some_timer) refl

added_head :
    (m : TimerMap) (s : Store) (p : ℕ)
    → let (m', s') = add_timer m s p in
      ((m'.slots ((s.timers p).id % m'.size)).timers ≡ p) × ((s'.timers p).id ≡ (s.timers p).id)
unfolding added
added_head m s p = rw (add_timer_lem m s p) (ground arith, ground arith)

-- findTimer with the id of a timer that addTimer has just added, which is not 0, returns that timer,
-- with one more reference, whatever the map was before, if there is fuel for one timer and the timer
-- is not NULL.
find_timer-add_timer :
    (k : ℕ) (m : TimerMap) (s : Store) (p : ℕ)
    → p ≢ 0
    → 0 < (s.timers p).id
    → let (m', s') = add_timer m s p in
      find_timer (suc k) m' s' (s.timers p).id ≡ some (p, timer_add_ref s' p)
find_timer-add_timer k m s p ne some_id =
    let (m', s') = add_timer m s p in
    let (head, own) = added_head m s p in find_head k m' s' p (s.timers p).id ne some_id head own

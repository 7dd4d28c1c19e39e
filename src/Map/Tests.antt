-- ===== src/Map/Tests.antt =====
-- The hash map of ttimer/timer.c with two buckets and one timer.
use everyday_coding.Base.{
  ℕ, ◌%◌, ◌<◌, ◌≡◌, ◌≢◌, ◌⊎◌, refl, true, false, some, List, [], ◌∷◌, arith, update, has,
}
use everyday_coding.Entry.{Timer, Store, timer_add_ref}
use everyday_coding.Map.{TimerMap, no_wheel, add_timer, find_timer, remove_timer}
use everyday_coding.Map.Contents.{Buckets}
use everyday_coding.Map.Find.{add_timer-Buckets, find_timer_lem}
use everyday_coding.Map.Remove.{Removed, remove_timer-Buckets}

abbrev timer : ℕ → Timer
timer id = record {
  id = id;
  ctrl = 0;
  mnext = 0;
  prev = 0;
  next = 0;
  slot = 0;
  wheel = 0;
  state = 0;
  ref_count = 1;
  expire_at = 0;
  fp = 0;
  param = 0;
}

abbrev store : Store
store = record { timers = timer; freed = λ _. false }

abbrev empty : TimerMap
empty = record { size = 2; count = 0; slots = λ _. record { locked_by = 0; timers = 0 } }

empty-Buckets : Buckets empty store (λ _. [])
empty-Buckets = record {
  size = omega arith;
  links = λ i lt. refl;
  distinct = λ i lt. tt;
  belongs = λ i lt q h. cc;
  held = λ i lt q h. cc;
}

add_timer-Buckets_example :
    let (m', s') = add_timer empty store 10 in
    Buckets m' s' (update (λ _. []) 0 (10 ∷ []))
    × ((s'.timers 10).ref_count ≡ 2)
    × ((s'.timers 10).wheel ≡ no_wheel)
add_timer-Buckets_example =
    add_timer-Buckets empty-Buckets 10 (omega arith) (λ i lt. refl) refl (omega arith)

abbrev one_map : TimerMap
one_map = (add_timer empty store 10).0

abbrev one_store : Store
one_store = (add_timer empty store 10).1

abbrev one_content : ℕ → List ℕ
one_content = update (λ _. []) 0 (10 ∷ [])

one_map-Buckets : Buckets one_map one_store one_content
one_map-Buckets =
    (add_timer-Buckets empty-Buckets 10 (omega arith) (λ i lt. refl) refl (omega arith)).0

find_timer_lem_example :
    (p : ℕ) × (s' : Store) × (find_timer 2 one_map one_store 10 ≡ some (p, s'))
    × ((p ≡ 0)
          × (s' ≡ one_store)
          × ((i q : ℕ)
              → i < one_map.size
              → has q (one_content i) ≡ true
              → (one_store.timers q).id ≢ 10)
        ⊎ (has p (one_content (10 % one_map.size)) ≡ true)
          × ((one_store.timers p).id ≡ 10)
          × (s' ≡ timer_add_ref one_store p))
unfolding add_timer
find_timer_lem_example = find_timer_lem one_map-Buckets 2 10 (omega arith) (omega arith)

remove_timer-Buckets_example :
    (p : ℕ) × (m' : TimerMap) × (s' : Store) × (content' : ℕ → List ℕ) × (remove_timer 2 one_map
        one_store 10
      ≡ some (m', s'))
    × Buckets m' s' content'
    × ((p ≡ 0)
          × (m' ≡ one_map)
          × (s' ≡ one_store)
          × ((i q : ℕ)
              → i < one_map.size
              → has q (one_content i) ≡ true
              → (one_store.timers q).id ≢ 10)
        ⊎ Removed one_map one_store one_content 10 p m' s' content')
unfolding add_timer
remove_timer-Buckets_example = remove_timer-Buckets one_map-Buckets 2 10 (omega arith)

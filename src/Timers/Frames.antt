-- ===== src/Timers/Frames.antt =====
-- What the calls on the map leave of the wheels, and the calls on the wheels of the map.
use everyday_coding.Base.{ℕ, ◌^◌, ◌<◌, ◌≡◌, true, false, List, arith, has}
use everyday_coding.Ctrl.Chain.{Chain-frame}
use everyday_coding.Entry.{Store}
use everyday_coding.Map.{TimerMap}
use everyday_coding.Map.Links.{Links-frame}
use everyday_coding.Map.Took.{SameWheel}
use everyday_coding.Map.Contents.{Buckets}
use everyday_coding.Wheel.{TimeWheel}
use everyday_coding.Wheel.Entries.{SameEntry}
use everyday_coding.Wheel.Contents.{links, in_wheel, Wheels}

pub Buckets-frame :
    {m : TimerMap} {s s' : Store} {content : ℕ → List ℕ}
    → Buckets m s content
    → ((q : ℕ) → SameEntry (s.timers q) (s'.timers q))
    → ((i q : ℕ)
        → i < m.size
        → has q (content i) ≡ true
        → (s'.freed q ≡ false) × (0 < (s'.timers q).ref_count) × ((s'.timers q).ref_count < 2 ^ 8))
    → Buckets m s' content
Buckets-frame {m} {s} {s'} {content} v same held = record {
  size = v.size;
  links = λ i lt.
      Links-frame s.timers s'.timers (m.slots i).timers (content i) (λ q h. (same q).0)
        (v.links i lt);
  distinct = v.distinct;
  belongs = λ i lt q h. rw ((same q).1) (v.belongs i lt q h);
  held = λ i lt q h. held i q lt h;
}

pub Wheels-frame :
    {ws : ℕ → TimeWheel} {s s' : Store} {content : ℕ → ℕ → List ℕ}
    → Wheels ws s content
    → ((q : ℕ) → in_wheel s' q ≡ in_wheel s q)
    → ((q : ℕ) → in_wheel s q ≡ true → SameWheel (s.timers q) (s'.timers q))
    → ((q : ℕ)
        → in_wheel s q ≡ true
        → (0 < (s'.timers q).ref_count) × ((s'.timers q).ref_count < 2 ^ 8))
    → Wheels ws s' content
Wheels-frame {ws} {s} {s'} {content} v still same held = record {
  sizes = v.sizes;
  chain = λ w k lt lti.
      Chain-frame (links s.timers) (links s'.timers) 0 ((ws w).slots k) (content w k)
        (λ a h. ground (arith, same a, v.member w k lt lti a)) (v.chain w k lt lti);
  distinct = v.distinct;
  member = λ w k lt lti q. ground (arith, v.member w k lt lti q, still q, same q);
  indexed = λ q h. ground (arith, v.indexed q, still q, same q);
  held = λ q h. ground (arith, held q, still q);
}

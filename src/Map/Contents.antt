-- ===== src/Map/Contents.antt =====
-- The invariant of the hash map of ttimer/timer.c, and operations on one bucket.
use mathlib.Core.Path.{subst}
use everyday_coding.Base.{
  ℕ, ◌%◌, ◌^◌, ◌<◌, ◌≡◌, ◌≢◌, sym, ap, ◌∙◌, true, false, List, arith, ◌==◌, has, update, Bool-cases,
  test-cases, inl, inr,
}
use everyday_coding.Ctrl.Chain.{Distinct}
use everyday_coding.Entry.{Store}
use everyday_coding.Map.{TimerMap}
use everyday_coding.Map.Links.{Links, Links-frame, Links-ne, first_with}
use everyday_coding.Map.Cut.{first_with-none}

-- Bucket `i` is a list of distinct timers that belong there by their id, none of them freed and
-- each with a reference.
pub record Buckets (m : TimerMap) (s : Store) (content : ℕ → List ℕ) : Type 0 where
  pub size : 0 < m.size
  pub links : (i : ℕ) → i < m.size → Links s.timers (m.slots i).timers (content i)
  pub distinct : (i : ℕ) → i < m.size → Distinct (content i)
  pub belongs :
      (i : ℕ) → i < m.size → (q : ℕ) → has q (content i) ≡ true → (s.timers q).id % m.size ≡ i
  pub held :
      (i : ℕ)
      → i < m.size
      → (q : ℕ) → has q (content i) ≡ true
      → (s.freed q ≡ false) × (0 < (s.timers q).ref_count) × ((s.timers q).ref_count < 2 ^ 8)

-- An operation on bucket `i` alone, which holds `xs` after it.
pub record Put (m m' : TimerMap) (s s' : Store) (content : ℕ → List ℕ) (i : ℕ) (xs : List ℕ)
    : Type 0 where
  pub in_range : i < m.size
  pub same_size : m'.size ≡ m.size
  pub other_heads : (j : ℕ) → (j == i) ≡ false → (m'.slots j).timers ≡ (m.slots j).timers
  pub new_links : Links s'.timers (m'.slots i).timers xs
  pub new_distinct : Distinct xs
  pub new_ids : (q : ℕ) → has q xs ≡ true → (s'.timers q).id % m.size ≡ i
  pub new_held :
      (q : ℕ)
      → has q xs ≡ true
      → (s'.freed q ≡ false) × (0 < (s'.timers q).ref_count) × ((s'.timers q).ref_count < 2 ^ 8)
  pub frame :
      (j : ℕ)
      → j < m.size
      → (j == i) ≡ false
      → (q : ℕ) → has q (content j) ≡ true
      → ((s'.timers q).mnext ≡ (s.timers q).mnext)
        × ((s'.timers q).id ≡ (s.timers q).id)
        × ((s'.timers q).ref_count ≡ (s.timers q).ref_count)
        × (s'.freed q ≡ s.freed q)

pub Put-Buckets :
    {m m' : TimerMap} {s s' : Store} {content : ℕ → List ℕ} {i : ℕ} {xs : List ℕ}
    → Buckets m s content
    → Put m m' s s' content i xs
    → Buckets m' s' (update content i xs)
Put-Buckets {m} {m'} {s} {s'} {content} {i} v c =
    let size' = c.same_size in
    record {
      size = omega (arith, v.size);
      links = λ j lt. elim (test-cases j i) [
        | inl e ↦ let e' : j ≡ i = ground arith in rw (e, e') c.new_links
        | inr ne ↦
            rw (ne, c.other_heads j ne)
              (Links-frame s.timers s'.timers (m.slots j).timers (content j)
                (λ q h. (c.frame j (omega arith) ne q h).0) (v.links j (omega arith)))
      ];
      distinct = λ j lt. elim (test-cases j i) [
        | inl e ↦ rw e c.new_distinct
        | inr ne ↦ rw ne (v.distinct j (omega arith))
      ];
      belongs = λ j lt q h. elim (test-cases j i) [
        | inl e ↦ let e' : j ≡ i = ground arith in rw (size', e') (c.new_ids q (rw e at h))
        | inr ne ↦
            let h' : has q (content j) ≡ true = rw ne at h in
            rw (size', (c.frame j (omega arith) ne q h').1) (v.belongs j (omega arith) q h')
      ];
      held = λ j lt q h. elim (test-cases j i) [
        | inl e ↦ c.new_held q (rw e at h)
        | inr ne ↦
            let h' : has q (content j) ≡ true = rw ne at h in
            ground (arith, c.frame j (omega arith) ne q h', v.held j (omega arith) q h')
      ];
    }

module _ {m : TimerMap} {s : Store} {content : ℕ → List ℕ} (v : Buckets m s content) where
  abbrev pub bucket : ℕ → ℕ
  bucket id = id % m.size

  pub bucket-lt : (id : ℕ) → bucket id < m.size
  bucket-lt id = let some_bucket = v.size in omega arith

  pub nodes : (id : ℕ) → has 0 (content (bucket id)) ≡ false
  nodes id =
      Links-ne s.timers (m.slots (bucket id)).timers (content (bucket id))
        (v.links (bucket id) (bucket-lt id))

  pub absent :
      (id : ℕ)
      → first_with s.timers id (content (bucket id)) ≡ 0
      → (i q : ℕ) → i < m.size
      → has q (content i) ≡ true
      → (s.timers q).id ≢ id
  absent id none i q lt h e =
      let here = sym (v.belongs i lt q h) ∙ ap (λ t. t % m.size) e in
      first_with-none s.timers id (content (bucket id)) (nodes id) none q
        (subst (λ t. has q (content t) ≡ true) here h) e

  -- A timer stands in one bucket only.
  pub elsewhere :
      (id j : ℕ)
      → j < m.size
      → (j == bucket id) ≡ false
      → (q : ℕ) → has q (content j) ≡ true
      → has q (content (bucket id)) ≡ false
  elsewhere id j lt other q h = elim (Bool-cases (has q (content (bucket id)))) [
    | inl here ↦
        let one = v.belongs j lt q h in
        let two = v.belongs (bucket id) (bucket-lt id) q here in
        absurd (ground (arith, sym one ∙ two))
    | inr out ↦ out
  ]

-- ===== src/Wheel/Entries.antt =====
-- What addToWheel and removeFromWheel of ttimer/timer.c leave of every timer.
use everyday_coding.Base.{ℕ, ◌+◌, ◌≡◌, ◌≢◌, refl, ◌∙◌, ◌==◌, arith, ltb, Bool-cases, inl, inr}
use everyday_coding.Entry.{Timer, Store, write, timer_dec_ref}
use everyday_coding.Wheel.{
  TimeWheel, wheel_count, choose_wheel, slot_of, put_in_slot, add_to_wheel, unlink_timer,
  remove_from_wheel,
}
use everyday_coding.Wheel.Unlink.{unlink_at}

-- Nothing that belongs to the map changed.
abbrev pub SameEntry : Timer → Timer → Type 0
SameEntry t t' = (t'.mnext ≡ t.mnext) × (t'.id ≡ t.id)

-- A timer that a call is not about keeps its references and its wheel.
abbrev pub SameHolders : Store → Store → ℕ → Type 0
SameHolders s s' q =
    ((s'.timers q).ref_count ≡ (s.timers q).ref_count)
    × (s'.freed q ≡ s.freed q)
    × ((s'.timers q).wheel ≡ (s.timers q).wheel)

-- the writes of removeFromWheel behind the unlinking
finish_at :
    (s : Store) (p q : ℕ)
    → let s' =
        timer_dec_ref
          (write s p (record (s.timers p) { wheel = wheel_count; next = 0; prev = 0 }))
          p in
      SameEntry (s.timers q) (s'.timers q) × (q ≢ p → SameHolders s s' q)
finish_at s p q = elim (Bool-cases (q == p)) [
  | inl here ↦ ((ground arith, ground arith), λ ne. absurd (ground arith))
  | inr other ↦ ((ground arith, ground arith), λ ne. (ground arith, ground arith, ground arith))
]

module _ (ws : ℕ → TimeWheel) (s : Store) (p q : ℕ) where
  put_at_lem :
      (w k e : ℕ)
      → let (_, s') = put_in_slot ws s p w k e in
        SameEntry (s.timers q) (s'.timers q)
        × (s'.freed q ≡ s.freed q)
        × (q ≢ p → SameHolders s s' q)
  unfolding put_in_slot
  put_at_lem w k e = ground arith

  pub add_to_wheel_at :
      (delay now : ℕ)
      → let (_, s') = add_to_wheel ws s p delay now in
        SameEntry (s.timers q) (s'.timers q)
        × (s'.freed q ≡ s.freed q)
        × (q ≢ p → SameHolders s s' q)
  unfolding add_to_wheel
  add_to_wheel_at delay now =
      let w = choose_wheel wheel_count 0 ws delay in
      put_at_lem w (slot_of (ws w) (now + delay)) (now + delay)

  unlink-SameEntry : SameEntry (s.timers q) ((unlink_timer s p).timers q)
  unfolding unlink_timer
  unlink-SameEntry = ground arith

  pub remove_from_wheel_at :
      let (_, _, s') = remove_from_wheel ws s p in
      SameEntry (s.timers q) (s'.timers q) × (q ≢ p → SameHolders s s' q)
  unfolding remove_from_wheel
  remove_from_wheel_at = elim (Bool-cases (ltb (s.timers p).wheel 3)) [
    | inl on ↦
        let (links, id) = unlink-SameEntry in
        let (wheel, _, refs, freed) = unlink_at s p q in
        let ((links', id'), others) = finish_at (unlink_timer s p) p q in
        rw on (
          (links' ∙ links, id' ∙ id),
          λ ne.
              let (refs', freed', wheel') = others ne in
              (refs' ∙ refs, freed' ∙ freed, wheel' ∙ wheel),
        )
    | inr off ↦ rw off ((refl, refl), λ ne. (refl, refl, refl))
  ]

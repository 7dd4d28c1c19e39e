-- ===== src/Lock.antt =====
-- lockTimerList and unlockTimerList of ttimer/timer.c: a spin lock over compare-and-swap, as steps
-- of threads that interleave in any order.
mod Tests
use everyday_coding.Base.{
  ℕ, ◌≡◌, ◌≢◌, refl, Bool, true, false, Option, none, some, arith, ◌==◌, if◌then◌else◌, update,
}

-- Who holds `lockedBy`, and which threads are between lockTimerList and unlockTimerList.
pub record LockState : Type 0 where
  pub locked_by : ℕ
  pub inside : ℕ → Bool

-- One round of the loop of lockTimerList: `lockedBy` after it, and whether the loop ends.
unfoldable pub try_lock : (locked_by tid : ℕ) → ℕ × Bool
try_lock locked_by tid = if locked_by == 0 then (tid, true) else (locked_by, false)

-- unlockTimerList: `lockedBy` after it, or `none` where its assertion fails.
unfoldable pub unlock_timer_list : (locked_by tid : ℕ) → Option ℕ
unlock_timer_list locked_by tid = if locked_by == tid then some 0 else none

-- A round that locks, a round that does not, and an unlock. The id of a thread is not 0.
pub data Step : LockState → LockState → Type 0 where
  locked :
      {s : LockState} {l : ℕ} (tid : ℕ)
      → tid ≢ 0
      → s.inside tid ≡ false
      → try_lock s.locked_by tid ≡ (l, true)
      → Step s (record { locked_by = l; inside = update s.inside tid true })
  spun :
      {s : LockState} {l : ℕ} (tid : ℕ)
      → tid ≢ 0
      → s.inside tid ≡ false
      → try_lock s.locked_by tid ≡ (l, false)
      → Step s (record s { locked_by = l })
  unlocked :
      {s : LockState} {l : ℕ} (tid : ℕ)
      → s.inside tid ≡ true
      → unlock_timer_list s.locked_by tid ≡ some l
      → Step s (record { locked_by = l; inside = update s.inside tid false })

abbrev pub free_lock : LockState
free_lock = record { locked_by = 0; inside = λ _. false }

pub data Steps : LockState → Type 0 where
  start : Steps free_lock
  next : {s s' : LockState} → Steps s → Step s s' → Steps s'

record Held (s : LockState) : Type 0 where
  holder : (t : ℕ) → s.inside t ≡ true → (t ≢ 0) × (s.locked_by ≡ t)

Step-Held : (s s' : LockState) → Held s → Step s s' → Held s'
unfolding try_lock unlock_timer_list
Step-Held s s' h (locked {l = l} tid ne out e) = record {
  holder = λ t i. ground (arith, h.holder t);
}
Step-Held s s' h (spun {l = l} tid ne out e) = record { holder = λ t i. ground (arith, h.holder t) }
Step-Held s s' h (unlocked {l = l} tid into e) = record {
  holder = λ t i. ground (arith, h.holder t, h.holder tid);
}

Steps-Held : (s : LockState) → Steps s → Held s
Steps-Held s start = record { holder = λ t i. cc }
Steps-Held s (next {s = r} before step) = Step-Held r s (Steps-Held r before) step

-- In every state that the steps of any threads lead to from a free lock, at most one thread is between
-- lockTimerList and unlockTimerList, and the assertion of unlockTimerList holds for that thread.
pub mutual_exclusion :
    (s : LockState)
    → Steps s
    → (a : ℕ) → s.inside a ≡ true
    → (unlock_timer_list s.locked_by a ≡ some 0) × ((b : ℕ) → s.inside b ≡ true → b ≡ a)
unfolding unlock_timer_list
mutual_exclusion s r a i =
    let h = Steps-Held s r in
    (ground (arith, h.holder a), λ b j. ground (arith, h.holder a, h.holder b))

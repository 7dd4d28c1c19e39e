-- ===== src/Entry.antt =====
-- `tmr_obj_t` of ttimer/timer.c with its reference count: timerAddRef, timerDecRef and
-- getNextTimerId. An address is a number and NULL is 0. The unions and the reserved fields are left
-- out, and a time is a number of milliseconds from the epoch on.
mod Tests
use everyday_coding.Base.{
  ℕ, zero, suc, ◌+◌, ◌-◌, ◌%◌, ◌^◌, ◌≤◌, ◌<◌, ◌≡◌, ◌≢◌, refl, Bool, true, false, Option, none, some,
  arith, ◌==◌, if◌then◌else◌, update, Bool-cases, inl, inr,
}

pub record Timer : Type 0 where
  pub id : ℕ
  pub ctrl : ℕ
  pub mnext : ℕ
  pub prev : ℕ
  pub next : ℕ
  pub slot : ℕ
  pub wheel : ℕ
  pub state : ℕ
  pub ref_count : ℕ
  pub expire_at : ℕ
  pub fp : ℕ
  pub param : ℕ

-- The memory of the timers, and which of them have been given to `free`.
pub record Store : Type 0 where
  pub timers : ℕ → Timer
  pub freed : ℕ → Bool

-- a write to the timer `p`
abbrev pub write : Store → ℕ → Timer → Store
write s p t = record s { timers = update s.timers p t }

abbrev pub timer_add_ref : Store → ℕ → Store
timer_add_ref s p =
    write s p (record (s.timers p) { ref_count = ((s.timers p).ref_count + 1) % 2 ^ 8 })

abbrev pub timer_dec_ref : Store → ℕ → Store
timer_dec_ref s p =
    let n = ((s.timers p).ref_count + (2 ^ 8 - 1)) % 2 ^ 8 in
    let s' = write s p (record (s.timers p) { ref_count = n }) in
    if n == 0 then record s' { freed = update s'.freed p true } else s'

-- getNextTimerId from the value of `nextTimerId`: the id, which is its new value
pub get_next_timer_id : ℕ → ℕ → Option ℕ
get_next_timer_id zero last = none
get_next_timer_id (suc k) last =
    let id = (last + 1) % 2 ^ 64 in
    let rest = get_next_timer_id k id in if id == 0 then rest else some id

-- From a value of `nextTimerId` that fits in 64 bits getNextTimerId returns after at most two rounds
-- an id that is not 0, fits in 64 bits and differs from that value.
pub get_next_timer_id_lem :
    (last : ℕ)
    → last < 2 ^ 64
    → (id : ℕ) × (get_next_timer_id 2 last ≡ some id) × (0 < id) × (id < 2 ^ 64) × (id ≢ last)
unfolding get_next_timer_id
get_next_timer_id_lem last lt = elim (Bool-cases ((last + 1) % 2 ^ 64 == 0)) [
  | inl wrapped ↦ (1, ground arith, omega arith, omega arith, ground arith)
  | inr plain ↦ ((last + 1) % 2 ^ 64, ground arith, ground arith, omega arith, ground arith)
]

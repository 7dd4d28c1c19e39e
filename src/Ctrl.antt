-- ===== src/Ctrl.antt =====
-- The timer controller of ttimer/tdengine_old.c: `tmr_list_t`, `tmr_ctrl_t`, tmrReset and
-- tmrProcessList. A timer is a block of the pool of the controller,
-- and its `prev` and `next` are addresses. Both calls change the controller and its timers under the
-- mutex of the controller alone, so each is one step. A callback that runs under that mutex cannot call into the same controller, so
-- the calls that are made are a result of the step. `num_of_tmrs` and `count` are taken down only
-- where they count a timer.
pub mod Memory
pub mod Chain
pub mod Relink
pub mod Order
pub mod Invariant
pub mod Placed
pub mod Unlink
pub mod Armed
pub mod Reset
pub mod Free
pub mod Decrement
pub mod Waiting
pub mod Process
pub mod Due
pub mod Expiry
pub mod OnTime
pub mod Alarm
pub mod Start
pub mod Ticks
pub mod Clock
pub mod Reach
mod Tests
mod Samples
use everyday_coding.Base.{
  ℕ, zero, suc, ◌+◌, ◌-◌, ◌*◌, ◌/◌, ◌%◌, ◌^◌, Bool, true, false, ◌||◌, ◌&&◌, Option, none, some,
  List, [], ◌∷◌, ◌++◌, ltb, leb, ◌==◌, if◌then◌else◌, update,
}
use everyday_coding.Base.Int.{ℤ, pos, negsuc, ◌+ℤ◌, ltb_ℤ, quot_ℤ, to_u32, to_short}
use everyday_coding.Pool.{
  Pool, Init, ready, null, use_after_free, mem_pool_init, mem_pool_malloc, release,
}
use Memory.{
  TmrObj, zero_obj, Mem, set_next, set_prev, set_timer_id, set_cycle, link_next, link_prev,
  dec_short,
}

-- `tmr_list_t`
pub record TmrList : Type 0 where
  pub head : ℕ
  pub count : ℕ

-- `tmr_ctrl_t`, with the address at which it stands and the memory behind its pool. The label and
-- the mutex are left out.
pub record Ctrl : Type 0 where
  pub address : ℕ
  pub signature : ℕ
  pub resolution : ℕ
  pub num_of_periods : ℕ
  pub periods_from_start : ℕ
  pub tmr_list : ℕ → TmrList
  pub pool : Pool
  pub max_num_of_tmrs : ℤ
  pub num_of_tmrs : ℕ
  pub ticks : ℕ
  pub max_ticks : ℕ
  pub mem : Mem

-- A call `fp(param1, header)` that tmrProcessList makes.
pub record Fired : Type 0 where
  pub fp : ℕ
  pub param1 : ℕ
  pub timer : ℕ

-- The first half of tmrReset on a timer that is armed: take it out of its list.
pub unlink : Ctrl → ℕ → Ctrl
unlink c p =
    let index = (c.mem p).index in
    let list = c.tmr_list index in
    let (mem, head) = link_next (c.mem p).prev (c.mem p).next list.head c.mem in
    let mem' = link_prev (mem p).next (mem p).prev mem in
    record c {
      mem = set_timer_id mem' p 0;
      tmr_list = update c.tmr_list index (record { head = head; count = list.count - 1 });
      num_of_tmrs = c.num_of_tmrs - 1;
    }

-- The walk to the place of a timer: past every timer whose cycle is smaller. It ends with the
-- nodes before and behind the place, and with `none` where the fuel runs out.
pub find_place : ℕ → Mem → ℤ → (before behind : ℕ) → Option (ℕ × ℕ)
find_place zero mem cycle before behind = none
find_place (suc k) mem cycle before behind =
    let rest = find_place k mem cycle behind (mem behind).next in
    if behind == 0
    then some (before, behind)
    else (if ltb_ℤ (mem behind).cycle cycle then rest else some (before, behind))

-- period / numOfPeriods, kept in a `short`
abbrev pub cycle_of : Ctrl → ℤ → ℤ
cycle_of c period = to_short (quot_ℤ period c.num_of_periods)

-- (period + periodsFromStart) % numOfPeriods, computed in `unsigned int`
abbrev pub index_of : Ctrl → ℤ → ℕ
index_of c period = (to_u32 period + c.periods_from_start) % 2 ^ 32 % c.num_of_periods

-- What tmrReset writes into the timer before it links it.
abbrev pub armed : Ctrl → (fp : ℕ) → (period : ℤ) → (param1 p : ℕ) → TmrObj
armed c fp period param1 p = record (c.mem p) {
  cycle = cycle_of c period;
  param1 = param1;
  fp = fp;
  timer_id = p;
  ctrl = c.address;
  index = index_of c period;
}

-- Linking the node `p` between `before` and `behind`.
abbrev pub insert_at : Mem → (head p before behind : ℕ) → Mem × ℕ
insert_at mem head p before behind =
    link_next before p head (link_prev behind p (set_prev (set_next mem p behind) p before))

-- The second half of tmrReset: arm the timer `p` and put it into its list, in the order of cycles.
pub arm : Ctrl → (fp : ℕ) → (period : ℤ) → (param1 p : ℕ) → Option Ctrl
arm c fp period param1 p =
    let mem = update c.mem p (armed c fp period param1 p) in
    let index = index_of c period in
    let list = c.tmr_list index in
    elim (find_place (list.count + 1) mem (cycle_of c period) 0 list.head) [
      | none ↦ none
      | some (before, behind) ↦
          let (mem', head) = insert_at mem list.head p before behind in
          some (record c {
            mem = mem';
            tmr_list = update c.tmr_list index (record { head = head; count = list.count + 1 });
            num_of_tmrs = c.num_of_tmrs + 1;
          })
    ]

-- `pObj && pObj->timerId == *pTmrId`, which is also what it means that a timer is armed
abbrev pub live : Mem → ℕ → Bool
live mem p = if p == 0 then false else (mem p).timer_id == p

-- tmrReset on a handle and a `pTmrId` that are not NULL. It returns the controller and what it
-- writes to `*pTmrId`.
pub reset : (fp : ℕ) → (mseconds : ℤ) → (param1 : ℕ) → Ctrl → (id : ℕ) → Option (Ctrl × ℕ)
unfolding unlink arm
reset fp mseconds param1 c id =
    let period = quot_ℤ mseconds c.resolution in
    if live c.mem id
    then elim (arm (unlink c id) fp period param1 id) [ none ↦ none | some c' ↦ some (c', id) ]
    else let (p, pool, mem) = mem_pool_malloc zero_obj c.pool c.mem in
      (if p == 0
        then some (record c { pool = pool; mem = mem }, 0)
        else elim (arm (record c { pool = pool; mem = mem }) fp period param1 p) [
          | none ↦ none
          | some c' ↦ some (c', p)
        ])

-- tmrReset. A handle or a `pTmrId` that is NULL is `none`; nothing is done then.
pub tmr_reset :
    (fp : ℕ)
    → (mseconds : ℤ) → (param1 : ℕ) → Option Ctrl
    → Option ℕ
    → Option (Option Ctrl × Option ℕ)
unfolding reset
tmr_reset fp mseconds param1 (some c) (some id) = elim (reset fp mseconds param1 c id) [
  | none ↦ none
  | some (c', id') ↦ some (some c', some id')
]
tmr_reset fp mseconds param1 handle slot = some (handle, slot)

-- The inner loop of tmrProcessList: `cycle--` on every timer from `p` on.
pub decrement : ℕ → Mem → ℕ → Option Mem
decrement zero mem p = none
decrement (suc k) mem p =
    let mem' = set_cycle mem p (dec_short (mem p).cycle) in
    let rest = decrement k mem' (mem' p).next in if p == 0 then some mem else rest

-- tmrProcessList on a timer that is due: unlink the head, mark it and give its block back.
pub expire : Ctrl → (index header : ℕ) → Ctrl
expire c index header =
    let list = c.tmr_list index in
    let next = (c.mem header).next in
    let mem = set_timer_id (link_prev next 0 c.mem) header 0 in
    let (pool, mem') = release zero_obj c.pool header mem in
    record c {
      num_of_tmrs = c.num_of_tmrs - 1;
      tmr_list = update c.tmr_list index (record { head = next; count = list.count - 1 });
      pool = pool;
      mem = mem';
    }

-- The call that the timer makes, if it has a callback.
abbrev pub fires : TmrObj → ℕ → List Fired
fires o p = if o.fp == 0 then [] else record { fp = o.fp; param1 = o.param1; timer = p } ∷ []

pub process_loop : ℕ → (index : ℕ) → Ctrl → Option (Ctrl × List Fired)
process_loop zero index c = none
process_loop (suc k) index c =
    let header = (c.tmr_list index).head in
    let rest = process_loop k index (expire c index header) in
    if header == 0
    then some (c, [])
    else (if ltb_ℤ (pos 0) (c.mem header).cycle
        then elim (decrement (suc k) c.mem header) [
          | none ↦ none
          | some mem ↦ some (record c { mem = mem }, [])
        ]
        else elim rest [
          | none ↦ none
          | some (c', fired) ↦ some (c', fires (c.mem header) header ++ fired)
        ])

-- tmrProcessList: the controller after it, and the callbacks that it ran, in order.
pub tmr_process_list : Ctrl → Option (Ctrl × List Fired)
unfolding process_loop expire decrement
tmr_process_list c =
    let index = c.periods_from_start % c.num_of_periods in
    elim (process_loop ((c.tmr_list index).count + 1) index c) [
      | none ↦ none
      | some (c', fired) ↦
          some (record c' { periods_from_start = (c'.periods_from_start + 1) % 2 ^ 32 }, fired)
    ]

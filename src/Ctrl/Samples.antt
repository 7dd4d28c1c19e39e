-- ===== src/Ctrl/Samples.antt =====
-- Concrete controllers of ttimer/tdengine_old.c: the one that tmrInit makes for five timers, a
-- resolution of 100 ms and periods of up to a second, as in `test`, that one with a timer of five
-- seconds, and one without a free block.
use mathlib.Core.Path.{subst}
use everyday_coding.Base.{
  ℕ, ◌≡◌, refl, sym, ap, ◌∙◌, false, Option, none, some, List, [], arith, update,
}
use everyday_coding.Base.Int.{pos, quot_ℤ, ◌+ℤ◌}
use everyday_coding.Pool.{mem_pool_init, mem_pool_malloc, fill}
use everyday_coding.Ctrl.Memory.{zero_obj}
use everyday_coding.Ctrl.Invariant.{Inv}
use everyday_coding.Ctrl.Start.{
  clear_lists, World, Started, started, failed, fault, tmr_init, init-IsNew,
}
use everyday_coding.Ctrl.Reset.{IsArmed, reset-fresh}
use everyday_coding.Ctrl.Due.{due, due_of_set}
use everyday_coding.Ctrl.Reach.{Provides, Reachable, new, set}
use everyday_coding.Ctrl.{Ctrl, live, reset, tmr_reset, arm, find_place}

-- What tmrInit may find: a memory of zeros, and three blocks of memory.
abbrev pub outside : World
outside = record {
  address = 4096;
  pool_p = 8192;
  pool_at = 16384;
  free_list_at = 32768;
  free_list = λ _. 0;
  blocks = λ _. zero_obj;
  lists_at = 65536;
  lists = λ _. record { head = 7; count = 7 };
  rand = 1804289383;
}

pub no_timer : (q : ℕ) → live outside.blocks q ≡ false
no_timer q = ground arith

-- the controller that tmrInit makes
abbrev pub new_ctrl : Ctrl
new_ctrl = record {
  address = 4096;
  signature = 4096;
  resolution = 100;
  num_of_periods = 10;
  periods_from_start = 0;
  tmr_list = clear_lists 10 0 (λ _. record { head = 7; count = 7 });
  pool = record {
    num_of_free = 15;
    first = 0;
    num_of_block = 15;
    block_size = 64;
    free_list = fill 15 0 (λ _. 0);
    free_list_at = 32768;
    pool = 16384;
  };
  max_num_of_tmrs = pos 5;
  num_of_tmrs = 0;
  ticks = 90214469;
  max_ticks = 20;
  mem = λ _. zero_obj;
}

pub tmr_init_test : tmr_init outside (pos 5) (pos 100) (pos 1000) ≡ started new_ctrl
unfolding tmr_init mem_pool_init quot_ℤ ◌+ℤ◌ fill
tmr_init_test = refl

of_started : Started → Ctrl
of_started (started c) = c
of_started failed = new_ctrl
of_started fault = new_ctrl

pub new_ctrl-Inv : Inv new_ctrl (λ _. [])
unfolding of_started
new_ctrl-Inv =
    let (c, made, fresh) =
      init-IsNew outside 5 (pos 100) (pos 1000) (omega arith) (omega arith) (omega arith)
        (omega arith) (omega arith) no_timer in
    subst (λ d. Inv d (λ _. [])) (ap of_started (sym made ∙ tmr_init_test)) fresh.inv

after : Option (Ctrl × ℕ) → Ctrl
after (some (c, _)) = c
after none = new_ctrl

id_after : Option (Ctrl × ℕ) → ℕ
id_after (some (_, id)) = id
id_after none = 0

-- that controller after tmrReset with five seconds
abbrev pub set_ctrl : Ctrl
unfolding after
set_ctrl = after (reset 7 (pos 5000) 3 new_ctrl 0)

reset_test : id_after (reset 7 (pos 5000) 3 new_ctrl 0) ≡ 16384
unfolding reset arm mem_pool_malloc find_place fill clear_lists quot_ℤ id_after
reset_test = refl

-- It holds the timer, in list 0 and with cycle 5.
pub set_case : (content : ℕ → List ℕ) × IsArmed new_ctrl set_ctrl content 7 (pos 50) 3 16384
unfolding after id_after set_ctrl quot_ℤ
set_case =
    let (c', content, p, done, _, s) =
      reset-fresh new_ctrl-Inv 7 (pos 5000) 3 0 refl (omega arith) in
    let s' = subst (λ d. IsArmed new_ctrl d content 7 (pos 50) 3 p) (sym (ap after done)) s in
    (
      content,
      subst (IsArmed new_ctrl set_ctrl content 7 (pos 50) 3) (sym (ap id_after done) ∙ reset_test)
          s',
    )

abbrev pub set_content : ℕ → List ℕ
set_content = set_case.0

pub set_due : due set_ctrl 16384 ≡ 50
set_due = due_of_set 50 set_case.1 (omega arith) (omega arith)

-- A controller with a single block, which is a timer in use.
abbrev pub full_ctrl : Ctrl
full_ctrl = record new_ctrl {
  num_of_periods = 1;
  tmr_list = λ _. record { head = 16384; count = 1 };
  pool = record {
    num_of_free = 0;
    first = 0;
    num_of_block = 1;
    block_size = 64;
    free_list = λ _. 0;
    free_list_at = 32768;
    pool = 16384;
  };
  num_of_tmrs = 1;
  mem = update (λ _. zero_obj) 16384 (record zero_obj { timer_id = 16384; fp = 7 });
}

-- a timer of 32769 seconds
pub early_case :
    (c' : Ctrl) × (content : ℕ → List ℕ) × (p : ℕ) × IsArmed new_ctrl c' content 7 (pos 327690) 3 p
unfolding quot_ℤ
early_case =
    let (c', content, p, _, _, s) =
      reset-fresh new_ctrl-Inv 7 (pos 32769000) 3 0 refl (omega arith) in
    (c', content, p, s)

pub provides : Provides outside
provides = record {
  pool_p = omega arith;
  pool_at = omega arith;
  free_list_at = omega arith;
  lists_at = omega arith;
  quiet = no_timer;
}

pub tmr_reset_test :
    tmr_reset 7 (pos 5000) 3 (some new_ctrl) (some 0) ≡ some (some set_ctrl, some 16384)
unfolding tmr_reset reset arm mem_pool_malloc find_place fill clear_lists quot_ℤ set_ctrl after
tmr_reset_test = refl

pub set_ctrl-Reachable : Reachable set_ctrl
set_ctrl-Reachable =
    set 7 (pos 5000) 3 0 16384
      (new outside 5 (pos 100) (pos 1000) provides (omega arith) tmr_init_test) tmr_reset_test

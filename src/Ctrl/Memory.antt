-- ===== src/Ctrl/Memory.antt =====
-- `tmr_obj_t`, the memory that holds the timers, and the writes that tmrReset and tmrProcessList
-- make to it.
use everyday_coding.Base.{ℕ, zero, suc, ◌≡◌, ◌≢◌, refl, false, arith, ◌==◌, if◌then◌else◌, update}
use everyday_coding.Base.Int.{ℤ, pos, negsuc}

pub record TmrObj : Type 0 where
  pub param1 : ℕ
  pub fp : ℕ
  pub timer_id : ℕ
  pub cycle : ℤ
  pub prev : ℕ
  pub next : ℕ
  pub index : ℕ
  pub ctrl : ℕ

-- a block after `memset`
abbrev pub zero_obj : TmrObj
zero_obj = record {
  param1 = 0;
  fp = 0;
  timer_id = 0;
  cycle = pos 0;
  prev = 0;
  next = 0;
  index = 0;
  ctrl = 0;
}

abbrev pub Mem : Type 0
Mem = ℕ → TmrObj

abbrev pub set_next : Mem → ℕ → ℕ → Mem
set_next mem p q = update mem p (record (mem p) { next = q })

abbrev pub set_prev : Mem → ℕ → ℕ → Mem
set_prev mem p q = update mem p (record (mem p) { prev = q })

abbrev pub set_timer_id : Mem → ℕ → ℕ → Mem
set_timer_id mem p id = update mem p (record (mem p) { timer_id = id })

abbrev pub set_cycle : Mem → ℕ → ℤ → Mem
set_cycle mem p c = update mem p (record (mem p) { cycle = c })

-- if (p) p->next = q; else head = q;
unfoldable pub link_next : (p q head : ℕ) → Mem → Mem × ℕ
link_next p q head mem = if p == 0 then (mem, q) else (set_next mem p q, head)

-- if (p) p->prev = q;
unfoldable pub link_prev : (p q : ℕ) → Mem → Mem
link_prev p q mem = if p == 0 then mem else set_prev mem p q

pub link_next-null : (q head : ℕ) (mem : Mem) → link_next 0 q head mem ≡ (mem, q)
unfolding link_next
link_next-null q head mem = refl

pub link_next-node :
    (p q head : ℕ) (mem : Mem) → p ≢ 0 → link_next p q head mem ≡ (set_next mem p q, head)
unfolding link_next
link_next-node p q head mem ne = let off : (p == 0) ≡ false = ground arith in rw off

pub link_prev-null : (q : ℕ) (mem : Mem) → link_prev 0 q mem ≡ mem
unfolding link_prev
link_prev-null q mem = refl

pub link_prev-node : (p q : ℕ) (mem : Mem) → p ≢ 0 → link_prev p q mem ≡ set_prev mem p q
unfolding link_prev
link_prev-node p q mem ne = let off : (p == 0) ≡ false = ground arith in rw off

-- `cycle--` on a `short`
abbrev pub dec_short : ℤ → ℤ
dec_short (pos zero) = negsuc 0
dec_short (pos (suc n)) = pos n
dec_short (negsuc n) = if n == 32767 then pos 32767 else negsuc (suc n)

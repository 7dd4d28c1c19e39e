-- ===== src/Ctrl/Start.antt =====
-- tmrInit of ttimer/tdengine_old.c.
use mathlib.Core.Path.{fun_ext, subst}
use everyday_coding.Base.{
  ℕ, zero, suc, ◌+◌, ◌/◌, ◌^◌, ◌≤◌, ◌<◌, ◌≡◌, ◌≢◌, refl, sym, inl, inr, false, true, ◌⊎◌, ◌||◌,
  Bool-cases, ◌&&◌, none, some, [], arith, ltb, leb, ◌==◌, if◌then◌else◌, update,
}
use everyday_coding.Base.Int.{ℤ, pos, negsuc, ◌+ℤ◌, quot_ℤ, +ℤ-pos}
use everyday_coding.Pool.{null, ready, use_after_free, mem_pool_init, mem_pool_cleanup}
use everyday_coding.Pool.Owned.{Owned}
use everyday_coding.Pool.Setup.{init-Owned}
use everyday_coding.Ctrl.Memory.{Mem}
use everyday_coding.Ctrl.Chain.{Chain-nil}
use everyday_coding.Ctrl.Invariant.{Inv}
use everyday_coding.Ctrl.{Ctrl, TmrList, live}

-- sizeof(tmr_obj_t) where a pointer has 8 bytes
abbrev pub tmr_obj_size : ℕ
tmr_obj_size = 64

-- MSECONDS_PER_TICK
abbrev pub mseconds_per_tick : ℕ
mseconds_per_tick = 5

-- if (x < low) x = low;
abbrev pub at_least : ℕ → ℤ → ℕ
at_least low (pos n) = if ltb n low then low else n
at_least low (negsuc _) = low

-- for (i = …; i < …; i++) { tmrList[i].head = NULL; tmrList[i].count = 0; }, with the rounds left
unfoldable pub clear_lists : ℕ → ℕ → (ℕ → TmrList) → ℕ → TmrList
clear_lists zero i f = f
clear_lists (suc k) i f = clear_lists k (i + 1) (update f i (record { head = 0; count = 0 }))

-- What tmrInit finds outside: the controller's address, what the calls of malloc return, what the
-- memory they return holds, and the value of rand().
pub record World : Type 0 where
  pub address : ℕ
  pub pool_p : ℕ
  pub pool_at : ℕ
  pub free_list_at : ℕ
  pub free_list : ℕ → ℕ
  pub blocks : Mem
  pub lists_at : ℕ
  pub lists : ℕ → TmrList
  pub rand : ℕ

-- What tmrInit returns: NULL, the controller, or an access through NULL or to freed memory.
pub data Started : Type 0 where
  failed : Started
  started : Ctrl → Started
  fault : Started

unfoldable pub tmr_init : World → (max_num_of_tmrs resolution longest : ℤ) → Started
unfolding clear_lists
tmr_init w max_num_of_tmrs resolution longest =
    elim (mem_pool_init w.pool_p w.pool_at w.free_list_at w.free_list (max_num_of_tmrs +ℤ pos 10)
      (pos tmr_obj_size)) [
        | null ↦ elim (mem_pool_cleanup none) [ none ↦ fault | some _ ↦ failed ]
        | use_after_free ↦ fault
        | ready p ↦
            let resolution' = at_least mseconds_per_tick resolution in
            let max_ticks = resolution' / mseconds_per_tick in
            let periods = at_least 10 (quot_ℤ longest resolution') in
            if w.lists_at == 0
            then fault
            else started (record {
              address = w.address;
              signature = w.address;
              resolution = resolution';
              num_of_periods = periods;
              periods_from_start = 0;
              tmr_list = clear_lists periods 0 w.lists;
              pool = p;
              max_num_of_tmrs = max_num_of_tmrs;
              num_of_tmrs = 0;
              ticks = w.rand / max_ticks;
              max_ticks = max_ticks;
              mem = w.blocks;
            })
      ]

clear_lists_lem :
    (k i : ℕ) (f : ℕ → TmrList) (j : ℕ)
    → clear_lists k i f j
      ≡ (if leb i j && ltb j (i + k) then record { head = 0; count = 0 } else f j)
unfolding clear_lists
clear_lists_lem zero i f j = ground arith
clear_lists_lem (suc k) i f j =
    ground (arith, clear_lists_lem k (i + 1) (update f i (record { head = 0; count = 0 })) j)

at_least-le : (low : ℕ) (z : ℤ) → low ≤ at_least low z
at_least-le low (pos n) = ground arith
at_least-le low (negsuc _) = omega arith

-- What a new controller is.
pub record IsNew (w : World) (c : Ctrl) : Type 0 where
  pub inv : Inv c (λ _. [])
  pub now : c.periods_from_start ≡ 0
  pub periods : 10 ≤ c.num_of_periods
  pub resolution : mseconds_per_tick ≤ c.resolution
  pub ticks : 0 < c.max_ticks
  pub no_timer : c.num_of_tmrs ≡ 0
  pub address : c.signature ≡ w.address

-- For fewer than 2 ^ 25 - 10 timers, where every malloc succeeds and no block of the pool, which is
-- not cleared, looks like a timer in use, tmrInit returns a controller whose invariant holds with
-- no timer in use, with at least ten lists, a resolution of at least one tick and its signature.
pub init-IsNew :
    (w : World) (m : ℕ) (resolution longest : ℤ)
    → m + 10 < 2 ^ 25
    → w.pool_p ≢ 0
    → w.pool_at ≢ 0
    → w.free_list_at ≢ 0
    → w.lists_at ≢ 0
    → ((q : ℕ) → live w.blocks q ≡ false)
    → (c : Ctrl) × (tmr_init w (pos m) resolution longest ≡ started c) × IsNew w c
unfolding tmr_init
init-IsNew w m resolution longest few hp ha hf hl quiet =
    let (p, made, owned, free, blocks, _, _) =
      init-Owned w.pool_p w.pool_at w.free_list_at w.free_list (m + 10) tmr_obj_size (omega arith)
        (omega arith) (omega arith) hp ha hf in
    let lists : (w.lists_at == 0) ≡ false = ground arith in
    let quiet' : (λ (_ : ℕ). false) ≡ live w.blocks = fun_ext λ q. sym (quiet q) in
    let low : mseconds_per_tick ≤ at_least mseconds_per_tick resolution =
      at_least-le 5 resolution in
    let resolution' = at_least mseconds_per_tick resolution in
    let periods = at_least 10 (quot_ℤ longest resolution') in
    let many : 10 ≤ periods = at_least-le 10 (quot_ℤ longest resolution') in
    let cleared = λ (i : ℕ). clear_lists_lem periods 0 w.lists i in
    (
      record {
        address = w.address;
        signature = w.address;
        resolution = resolution';
        num_of_periods = periods;
        periods_from_start = 0;
        tmr_list = clear_lists periods 0 w.lists;
        pool = p;
        max_num_of_tmrs = pos m;
        num_of_tmrs = 0;
        ticks = w.rand / (resolution' / mseconds_per_tick);
        max_ticks = resolution' / mseconds_per_tick;
        mem = w.blocks;
      },
      rw (tmr_init, +ℤ-pos m 10, made, lists) refl,
      record {
        inv = record {
          lists = record {
            periods = omega arith;
            chain = λ i lt.
                Chain-nil w.blocks 0 (clear_lists periods 0 w.lists i).head
                  (ground (arith, cleared i));
            counts = λ i lt. ground (arith, cleared i);
            distinct = λ i lt. tt;
            member = λ i lt q. ground (arith, quiet q);
            indexed = λ q h. absurd (ground (arith, quiet q));
            sorted = λ i lt. tt;
          };
          owned = subst (Owned p) quiet' owned;
          total = omega (arith, free, blocks);
        };
        now = refl;
        periods = many;
        resolution = low;
        ticks = omega arith;
        no_timer = refl;
        address = refl;
      },
    )

-- Where any of the four calls of malloc fails tmrInit does not return NULL: it reads through NULL,
-- in memPoolCleanup or at the lists, or goes on with a struct that memPoolInit has freed.
pub init-fault :
    (w : World) (m : ℕ) (resolution longest : ℤ)
    → (w.pool_p ≡ 0) ⊎ ((w.pool_at ≡ 0) ⊎ ((w.free_list_at ≡ 0) ⊎ (w.lists_at ≡ 0)))
    → tmr_init w (pos m) resolution longest ≡ fault
unfolding tmr_init mem_pool_cleanup mem_pool_init
init-fault w m resolution longest e =
    let many : leb (m + 10) 1 ≡ false = ground arith in
    elim (Bool-cases (w.pool_p == 0)) [
      | inl first ↦ rw (tmr_init, mem_pool_init, +ℤ-pos m 10, many, first) refl
      | inr one ↦ elim (Bool-cases (w.pool_at == 0 || w.free_list_at == 0)) [
        | inl second ↦ rw (tmr_init, mem_pool_init, +ℤ-pos m 10, many, one, second) refl
        | inr three ↦
            let last : (w.lists_at == 0) ≡ true = ground (arith, e, one, three) in
            rw (tmr_init, mem_pool_init, +ℤ-pos m 10, many, one, three, last) refl
      ]
    ]

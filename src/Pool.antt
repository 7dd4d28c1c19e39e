-- ===== src/Pool.antt =====
-- The block pool of ttimer/tdengine_old.c: `pool_t`, memPoolInit, memPoolMalloc, memPoolFree and
-- memPoolCleanup. An address is a number and NULL is 0; the memory behind the pool is a function
-- from the address of a block to what the block holds, and `memset` writes the zero block there.
-- Each call holds the mutex of the pool from its first access to its last, so it is one step.
pub mod Window
pub mod Owned
pub mod Address
pub mod Setup
mod Tests
use everyday_coding.Base.{
  ℕ, zero, suc, ◌+◌, ◌-◌, ◌*◌, ◌%◌, Bool, true, false, ◌||◌, ◌&&◌, Option, none, some, List, [],
  ◌∷◌, ◌++◌, leb, ◌==◌, if◌then◌else◌, update,
}
use everyday_coding.Base.Int.{ℤ, pos, negsuc, ◌-ℤ◌, ltb_ℤ, quot_ℤ, rem_ℤ, to_int}

-- `free_list` is what the array `freeList` holds, `free_list_at` and `pool` are the addresses of
-- the two allocations.
pub record Pool : Type 0 where
  pub num_of_free : ℕ
  pub first : ℕ
  pub num_of_block : ℕ
  pub block_size : ℕ
  pub free_list : ℕ → ℕ
  pub free_list_at : ℕ
  pub pool : ℕ

-- The address of block `i`.
abbrev pub block_at : Pool → ℕ → ℕ
block_at p i = p.pool + p.block_size * i

-- What memPoolInit returns: NULL, a pool, or an access to the freed `pool_p`.
pub data Init : Type 0 where
  null : Init
  ready : Pool → Init
  use_after_free : Init

-- for (i = …; i < …; i++) freeList[i] = i, with the rounds that are left
unfoldable pub fill : ℕ → ℕ → (ℕ → ℕ) → ℕ → ℕ
fill zero i f = f
fill (suc k) i f = fill k (i + 1) (update f i i)

-- `pool_p`, `at` and `list_at` are what the three calls of malloc return, and `garbage` is what
-- the array holds before it is filled. The branch for a failed second or third call does not
-- return: it goes on with the struct that it has freed.
unfoldable pub mem_pool_init : (pool_p at list_at : ℕ) → (garbage : ℕ → ℕ) → ℤ → ℤ → Init
unfolding fill
mem_pool_init pool_p at list_at garbage (negsuc _) block_size = null
mem_pool_init pool_p at list_at garbage (pos n) (negsuc _) = null
mem_pool_init pool_p at list_at garbage (pos n) (pos size) =
    if leb n 1 || leb size 1
    then null
    else (if pool_p == 0
        then null
        else (if at == 0 || list_at == 0
            then use_after_free
            else ready (record {
              num_of_free = n;
              first = 0;
              num_of_block = n;
              block_size = size;
              free_list = fill n 0 garbage;
              free_list_at = list_at;
              pool = at;
            })))

-- memPoolCleanup: the addresses that it gives to `free`, or `none` where it reads the mutex through
-- a NULL handle.
unfoldable pub mem_pool_cleanup : Option Pool → Option (List ℕ)
mem_pool_cleanup none = none
mem_pool_cleanup (some p) = some (
    (if p.pool == 0 then [] else p.pool ∷ [])
    ++ (if p.free_list_at == 0 then [] else p.free_list_at ∷ []))

module _ {ℓ} {A : Type ℓ} (zero_block : A) where
  -- memPoolMalloc: the address, the pool after it and the memory after it
  unfoldable pub mem_pool_malloc : Pool → (ℕ → A) → ℕ × Pool × (ℕ → A)
  mem_pool_malloc p mem =
      if leb p.num_of_free 0
      then (0, p, mem)
      else let at = block_at p (p.free_list p.first) in
        (
          at,
          record p { first = (p.first + 1) % p.num_of_block; num_of_free = p.num_of_free - 1 },
          (if at == 0 then mem else update mem at zero_block),
        )

  -- The branch of memPoolFree that takes a block back, at its index.
  abbrev pub put_back : Pool → ℕ → ℕ → (ℕ → A) → Pool × (ℕ → A)
  put_back p index at mem = (
    record p {
      free_list = update p.free_list ((p.first + p.num_of_free) % p.num_of_block) index;
      num_of_free = p.num_of_free + 1;
    },
    update mem at zero_block,
  )

  -- the test `index < 0 || index >= numOfBlock`
  abbrev pub put_back_checked : Pool → ℤ → ℕ → (ℕ → A) → Pool × (ℕ → A)
  put_back_checked p (negsuc _) at mem = (p, mem)
  put_back_checked p (pos index) at mem =
      if leb p.num_of_block index then (p, mem) else put_back p index at mem

  -- memPoolFree on a handle that is not NULL. Both casts to `int` keep the low 32 bits.
  pub release : Pool → ℕ → (ℕ → A) → Pool × (ℕ → A)
  release p at mem =
      if at == 0 then (p, mem) else elim (rem_ℤ (to_int (pos at -ℤ pos p.pool)) p.block_size) [
        | pos zero ↦ put_back_checked p (to_int (quot_ℤ (pos at -ℤ pos p.pool) p.block_size)) at mem
        | _ ↦ (p, mem)
      ]

  abbrev pub mem_pool_free : Option Pool → ℕ → (ℕ → A) → Option Pool × (ℕ → A)
  mem_pool_free none at mem = (none, mem)
  mem_pool_free (some p) at mem = let (p', mem') = release p at mem in (some p', mem')

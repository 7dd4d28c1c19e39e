-- ===== src/Pool/Setup.antt =====
-- memPoolInit: the pool that it returns, and its three ways to fail.
use native.Mathlib.Nat.{mod-eq_of_lt}
use everyday_coding.Base.{
  ℕ, zero, suc, ◌+◌, ◌*◌, ◌^◌, ◌≤◌, ◌<◌, ◌≡◌, ◌≢◌, refl, false, ◌&&◌, arith, ltb, leb,
  if◌then◌else◌, update, count,
}
use everyday_coding.Base.Int.{pos}
use everyday_coding.Pool.{Pool, ready, fill, mem_pool_init}
use everyday_coding.Pool.Window.{window}
use everyday_coding.Pool.Owned.{Owned}

fill_lem :
    (k i : ℕ) (f : ℕ → ℕ) (j : ℕ) → fill k i f j ≡ (if leb i j && ltb j (i + k) then j else f j)
unfolding fill
fill_lem zero i f j = ground arith
fill_lem (suc k) i f j = ground (arith, fill_lem k (i + 1) (update f i i) j)

-- The entries of a ring that holds its own indices.
count-window :
    (f : ℕ → ℕ) (n a h k : ℕ)
    → ((j : ℕ) → j < n → f j ≡ j)
    → h + k ≤ n
    → count a (window f n h k) ≡ (if leb h a && ltb a (h + k) then 1 else 0)
count-window f n a h zero same le = ground arith
count-window f n a h (suc k) same le =
    ground (arith, mod-eq_of_lt {n = h} {m = n}, same h, count-window f n a (suc h) k same)

module _ (pool_p at list_at : ℕ) (garbage : ℕ → ℕ) where
  -- Where both arguments are above 1, the blocks take less than 2 ^ 31 bytes and all three calls of
  -- malloc succeed, memPoolInit returns a pool of that many blocks of that size, all of them free and
  -- none held.
  pub init-Owned :
      (n size : ℕ)
      → 1 < n
      → 1 < size
      → size * n < 2 ^ 31
      → pool_p ≢ 0
      → at ≢ 0
      → list_at ≢ 0
      → (p : Pool) × (mem_pool_init pool_p at list_at garbage (pos n) (pos size) ≡ ready p)
        × Owned p (λ _. false)
        × (p.num_of_free ≡ n)
        × (p.num_of_block ≡ n)
        × (p.block_size ≡ size)
        × (p.pool ≡ at)
  unfolding mem_pool_init
  init-Owned n size hn hs fits hp ha hl = (
    record {
      num_of_free = n;
      first = 0;
      num_of_block = n;
      block_size = size;
      free_list = fill n 0 garbage;
      free_list_at = list_at;
      pool = at;
    },
    ground arith,
    record {
      sized = record {
        blocks = omega arith;
        size = omega arith;
        mapped = omega arith;
        fits = fits;
      };
      in_ring = omega arith;
      once = λ a. ground (
        arith,
        count-window (fill n 0 garbage) n a 0 n (λ j lt. ground (arith, fill_lem n 0 garbage j)),
      );
      held = λ q h. cc;
    },
    refl,
    refl,
    refl,
    refl,
  )

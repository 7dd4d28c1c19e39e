-- ===== src/Pool/Address.antt =====
-- The address arithmetic of memPoolFree: which addresses it takes for blocks.
use native.Mathlib.Nat.{mul-div_cancel_left, mul-mod_right, div-le_self, div-add-mod}
use everyday_coding.Base.{
  ℕ, suc, ◌+◌, ◌-◌, ◌≢◌, ◌*◌, ◌/◌, ◌%◌, ◌^◌, ◌≤◌, ◌<◌, ◌≡◌, inl, inr, lt-cases, eq-cases, ap, ◌∙◌,
  arith,
}
use everyday_coding.Base.Int.{
  pos, negsuc, ◌-ℤ◌, quot_ℤ, rem_ℤ, to_int_small, to_int_negative, -ℤ-pos, -ℤ-negsuc,
}
use everyday_coding.Pool.{Pool, block_at, put_back, release}

module _ (p : Pool) where
  open p use {num_of_block, block_size, pool}

  -- The pool is not empty, stands at a mapped address and is smaller than 2 ^ 31 bytes.
  pub record IsSized : Type 0 where
    pub blocks : 0 < num_of_block
    pub size : 0 < block_size
    pub mapped : 0 < pool
    pub fits : block_size * num_of_block < 2 ^ 31

  -- The address is that of a block of the pool.
  abbrev pub IsBlock : ℕ → Type 0
  IsBlock q = (i : ℕ) × (i < num_of_block) × (q ≡ block_at p i)

module _ {p : Pool} (s : IsSized p) where
  offset : (i : ℕ) → i < p.num_of_block → p.block_size * i < 2 ^ 31
  offset i lt = let fits = s.fits in let size = s.size in grind arith

  le-offset : (i : ℕ) → i ≤ p.block_size * i
  le-offset i = let size = s.size in grind arith

  pub block_at-inj : (i j : ℕ) → block_at p i ≡ block_at p j → i ≡ j
  block_at-inj i j e =
      let products : p.block_size * i ≡ p.block_size * j = omega arith in
      rw (← mul-div_cancel_left i s.size, products, mul-div_cancel_left j s.size)

  -- how far block `i` is from the start of the pool
  offset-block : (i : ℕ) → pos (block_at p i) -ℤ pos p.pool ≡ pos (p.block_size * i)
  offset-block i = -ℤ-pos (block_at p i) p.pool (omega arith) ∙ ap pos (omega arith)

module _ {ℓ} {A : Type ℓ} (zero_block : A) {p : Pool} (s : IsSized p) where
  pub release-block :
      (i : ℕ) (mem : ℕ → A)
      → i < p.num_of_block
      → release zero_block p (block_at p i) mem ≡ put_back zero_block p i (block_at p i) mem
  unfolding release
  release-block i mem lt =
      let near = offset s i lt in
      let i_near : i < 2 ^ 31 = omega (arith, near, le-offset s i) in
      ground (
        arith,
        s.mapped,
        offset-block s i,
        to_int_small (p.block_size * i) near,
        mul-mod_right p.block_size i,
        mul-div_cancel_left i s.size,
        to_int_small i i_near,
      )

  -- An address before the pool, in it but at no block, or behind it.
  release-before :
      (at : ℕ) (mem : ℕ → A)
      → at < p.pool
      → p.pool - at < 2 ^ 31
      → release zero_block p at mem ≡ (p, mem)
  unfolding release
  release-before at mem lt near =
      let d = p.pool - at - 1 in
      let cast = to_int_negative d (omega arith) in
      let index = suc d / p.block_size - 1 in
      let small : index < 2 ^ 31 = omega (arith, div-le_self (suc d) p.block_size) in
      let cast' = to_int_negative index small in
      rw (-ℤ-negsuc at p.pool lt, cast)
        (elim (eq-cases (suc d % p.block_size) 0) [
          | inl even ↦
              let q : quot_ℤ (negsuc d) p.block_size ≡ negsuc index =
                ground (arith, div-add-mod (suc d) p.block_size) in
              let r : rem_ℤ (negsuc d) p.block_size ≡ pos 0 = ground arith in
              rw r (rw (-ℤ-negsuc at p.pool lt, q, cast') (ground arith))
          | inr odd ↦
              let r : rem_ℤ (negsuc d) p.block_size ≡ negsuc (suc d % p.block_size - 1) =
                ground arith in
              rw r (ground arith)
        ])

  release-unaligned :
      (at : ℕ) (mem : ℕ → A)
      → p.pool ≤ at
      → at - p.pool < 2 ^ 31
      → (at - p.pool) % p.block_size ≢ 0
      → release zero_block p at mem ≡ (p, mem)
  unfolding release
  release-unaligned at mem le near odd =
      ground (arith, -ℤ-pos at p.pool le, to_int_small (at - p.pool) near)

  release-behind :
      (at : ℕ) (mem : ℕ → A)
      → p.pool ≤ at
      → at - p.pool < 2 ^ 31
      → p.num_of_block ≤ (at - p.pool) / p.block_size
      → release zero_block p at mem ≡ (p, mem)
  unfolding release
  release-behind at mem le near out = ground (
    arith,
    -ℤ-pos at p.pool le,
    to_int_small (at - p.pool) near,
    to_int_small ((at - p.pool) / p.block_size)
        (omega (arith, div-le_self (at - p.pool) p.block_size)),
  )

  -- On a pool of less than 2 ^ 31 bytes, memPoolFree changes nothing at an address less than 2 ^ 31
  -- bytes from the start of the pool that is not the address of a block.
  pub release-foreign :
      (at : ℕ) (mem : ℕ → A)
      → p.pool < at + 2 ^ 31
      → at < p.pool + 2 ^ 31
      → ¬ IsBlock p at
      → release zero_block p at mem ≡ (p, mem)
  release-foreign at mem lo hi foreign = elim (lt-cases at p.pool) [
    | inl before ↦ release-before at mem before (omega arith)
    | inr le ↦ elim (eq-cases ((at - p.pool) % p.block_size) 0) [
      | inr odd ↦ release-unaligned at mem le (omega arith) (ground arith)
      | inl even ↦ elim (lt-cases ((at - p.pool) / p.block_size) p.num_of_block) [
        | inr out ↦ release-behind at mem le (omega arith) out
        | inl in_pool ↦ absurd (
            foreign (
              (at - p.pool) / p.block_size,
              in_pool,
              omega (arith, div-add-mod (at - p.pool) p.block_size),
            ))
      ]
    ]
  ]

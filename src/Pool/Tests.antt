-- ===== src/Pool/Tests.antt =====
-- The theorems on the pool of ttimer/tdengine_old.c at a pool of two blocks of 8 bytes.
use mathlib.Core.Path.{subst}
use everyday_coding.Base.{ℕ, ◌≡◌, refl, sym, ap, ◌∙◌, true, false, arith, update}
use everyday_coding.Base.Int.{pos}
use everyday_coding.Pool.{
  Pool, Init, null, ready, use_after_free, fill, mem_pool_init, mem_pool_malloc, release,
}
use everyday_coding.Pool.Address.{IsBlock, release-foreign}
use everyday_coding.Pool.Owned.{Owned, Taken, GivenBack, malloc-Taken, release-GivenBack}
use everyday_coding.Pool.Setup.{init-Owned}

abbrev two_blocks : Pool
two_blocks = record {
  num_of_free = 2;
  first = 0;
  num_of_block = 2;
  block_size = 8;
  free_list = fill 2 0 (λ _. 9);
  free_list_at = 2000;
  pool = 1000;
}

of_ready : Init → Pool
of_ready (ready p) = p
of_ready null = two_blocks
of_ready use_after_free = two_blocks

made : mem_pool_init 50 1000 2000 (λ _. 9) (pos 2) (pos 8) ≡ ready two_blocks
unfolding mem_pool_init
made = refl

two_blocks-Owned : Owned two_blocks (λ _. false)
unfolding of_ready
two_blocks-Owned =
    let (p, done, o, _, _, _, _) =
      init-Owned 50 1000 2000 (λ _. 9) 2 8 (omega arith) (omega arith) (omega arith) (omega arith)
        (omega arith) (omega arith) in
    subst (λ q. Owned q (λ _. false)) (ap of_ready (sym done ∙ made)) o

abbrev zero_cell : ℕ
zero_cell = 0

malloc-Taken_example :
    let (at, p, mem) = mem_pool_malloc zero_cell two_blocks (λ _. 5) in
    Taken zero_cell two_blocks (λ _. false) (λ _. 5) at p mem
malloc-Taken_example = malloc-Taken zero_cell two_blocks-Owned (λ _. 5) (omega arith)

-- the pool after its first block has been handed out
abbrev one_block : Pool
one_block = record two_blocks { first = 1; num_of_free = 1 }

one_block-Owned : Owned one_block (update (λ _. false) 1000 true)
unfolding mem_pool_malloc fill
one_block-Owned = (malloc-Taken zero_cell two_blocks-Owned (λ _. 5) (omega arith)).owned

release-GivenBack_example :
    let (p, mem) = release zero_cell one_block 1000 (λ _. 5) in
    GivenBack zero_cell one_block (update (λ _. false) 1000 true) (λ _. 5) 1000 p mem
release-GivenBack_example = release-GivenBack zero_cell one_block-Owned (λ _. 5) 1000 refl

between : ¬ IsBlock two_blocks 1004
between b = let (i, _, e) = b in omega (arith, e)

release-foreign_example : release zero_cell two_blocks 1004 (λ _. 5) ≡ (two_blocks, λ _. 5)
release-foreign_example =
    release-foreign zero_cell two_blocks-Owned.sized 1004 (λ _. 5) (omega arith) (omega arith)
      between

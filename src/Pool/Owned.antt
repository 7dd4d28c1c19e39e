-- ===== src/Pool/Owned.antt =====
-- Who has which block. The set of blocks that clients hold, `live`, is a Boolean on addresses.
use everyday_coding.Base.{
  ℕ, ◌+◌, ◌%◌, ◌≤◌, ◌<◌, ◌≡◌, ◌≢◌, refl, ap, Bool, true, false, List, [], ◌∷◌, ◌++◌, arith, ltb,
  leb, ◌==◌, if◌then◌else◌, update, count, count-append, AllBelow, inl, inr, eq-cases,
  length-lt_of_missing,
}
use native.Mathlib.Numerals.{add-one}
use everyday_coding.Pool.{Pool, block_at, mem_pool_malloc, release}
use everyday_coding.Pool.Window.{window, contents, length-window, window-pop, window-snoc}
use everyday_coding.Pool.Address.{IsSized, IsBlock, block_at-inj, release-block}

-- Block `a` is in the queue of free blocks once, or a client holds it, and not both.
pub record Owned (p : Pool) (live : ℕ → Bool) : Type 0 where
  pub sized : IsSized p
  pub in_ring : p.first < p.num_of_block
  pub once :
      (a : ℕ)
      → count a (contents p)
        ≡ (if ltb a p.num_of_block then (if live (block_at p a) then 0 else 1) else 0)
  pub held : (q : ℕ) → live q ≡ true → IsBlock p q

AllBelow-of_count : (n : ℕ) (xs : List ℕ) → ((a : ℕ) → n ≤ a → count a xs ≡ 0) → AllBelow n xs
AllBelow-of_count n [] none = tt
AllBelow-of_count n (x ∷ xs) none =
    (ground (arith, none x), AllBelow-of_count n xs λ a le. omega (arith, none a le))

module _ {p : Pool} {live : ℕ → Bool} (o : Owned p live) where
  below : AllBelow p.num_of_block (contents p)
  below = AllBelow-of_count p.num_of_block (contents p) λ a le. ground (arith, o.once a)

  -- While a client holds a block there is room for it in the queue.
  pub room : (q : ℕ) → live q ≡ true → p.num_of_free < p.num_of_block
  room q h =
      let (i, lt, e) = o.held q h in
      omega (
        arith,
        length-window p.free_list p.num_of_block p.first p.num_of_free,
        length-lt_of_missing p.num_of_block i (contents p) below lt (ground (arith, o.once i))
            λ a. ground (arith, o.once a),
      )

-- What memPoolMalloc gives: the oldest free block, filled with zeros. Nobody held it before, and
-- the caller holds it now; no other block and no other part of the memory changes.
pub record Taken {ℓ} {A : Type ℓ} (zero_block : A) (p : Pool) (live : ℕ → Bool) (mem : ℕ → A)
    (at : ℕ) (p' : Pool) (mem' : ℕ → A) : Type ℓ where
  pub mapped : at ≢ 0
  pub fresh : live at ≡ false
  pub index : ℕ
  pub oldest : contents p ≡ index ∷ contents p'
  pub address : at ≡ block_at p index
  pub cleared : mem' ≡ update mem at zero_block
  pub blocks : p'.num_of_block ≡ p.num_of_block
  pub free : p'.num_of_free + 1 ≡ p.num_of_free
  pub owned : Owned p' (update live at true)

-- What memPoolFree does with a held block: it clears it and puts it behind the free ones.
pub record GivenBack {ℓ} {A : Type ℓ} (zero_block : A) (p : Pool) (live : ℕ → Bool) (mem : ℕ → A)
    (at : ℕ) (p' : Pool) (mem' : ℕ → A) : Type ℓ where
  pub index : ℕ
  pub address : at ≡ block_at p index
  pub last : contents p' ≡ contents p ++ index ∷ []
  pub cleared : mem' ≡ update mem at zero_block
  pub blocks : p'.num_of_block ≡ p.num_of_block
  pub free : p'.num_of_free ≡ p.num_of_free + 1
  pub owned : Owned p' (update live at false)

-- Taking block `i` from the front of the queue and giving it to a client keeps `once`.
once_taken :
    {p : Pool} {live : ℕ → Bool} (o : Owned p live) (i : ℕ) (rest : List ℕ)
    → contents p ≡ i ∷ rest
    → (a : ℕ)
    → count a rest ≡ (
        if ltb a p.num_of_block
        then (if update live (block_at p i) true (block_at p a) then 0 else 1)
        else 0)
once_taken {p} o i rest e a =
    ground (arith, o.once a, o.once i, ap (count a) e, ap (count i) e, block_at-inj o.sized a i)

once_given :
    {p : Pool} {live : ℕ → Bool} (o : Owned p live) (i : ℕ) (all : List ℕ)
    → i < p.num_of_block
    → live (block_at p i) ≡ true
    → all ≡ contents p ++ i ∷ []
    → (a : ℕ)
    → count a all ≡ (
        if ltb a p.num_of_block
        then (if update live (block_at p i) false (block_at p a) then 0 else 1)
        else 0)
once_given {p} o i all lt h e a = ground (
  arith,
  o.once a,
  o.once i,
  ap (count a) e,
  count-append a (contents p) (i ∷ []),
  block_at-inj o.sized a i,
)

-- The first free block is a block that nobody holds.
front :
    {p : Pool} {live : ℕ → Bool} (o : Owned p live) (i : ℕ) (rest : List ℕ)
    → contents p ≡ i ∷ rest
    → (i < p.num_of_block) × (live (block_at p i) ≡ false)
front {p} o i rest e = ground (arith, o.once i, ap (count i) e)

module _ {ℓ} {A : Type ℓ} (zero_block : A) {p : Pool} {live : ℕ → Bool} (o : Owned p live)
    (mem : ℕ → A) where
  pub malloc-empty : p.num_of_free ≡ 0 → mem_pool_malloc zero_block p mem ≡ (0, p, mem)
  unfolding mem_pool_malloc
  malloc-empty e = rw e

  -- On a pool whose blocks are each free or held, and with a free block, memPoolMalloc takes the oldest
  -- free block: nobody held it, it is not NULL, it is filled with zeros, no other memory changes, and
  -- each block is free or held again.
  pub malloc-Taken :
      p.num_of_free ≢ 0
      → let (at, p', mem') = mem_pool_malloc zero_block p mem in
        Taken zero_block p live mem at p' mem'
  unfolding mem_pool_malloc
  malloc-Taken ne =
      let i = p.free_list p.first in
      let got = window-pop p.free_list p.num_of_block p.first p.num_of_free o.in_ring ne in
      let some_free : leb p.num_of_free 0 ≡ false = ground arith in
      let not_null : (block_at p i == 0) ≡ false = ground (arith, o.sized.mapped) in
      let (in_pool, unheld) = front o i _ got in
      rw (some_free, not_null)
        (record {
          mapped = omega (arith, o.sized.mapped);
          fresh = unheld;
          index = i;
          oldest = got;
          address = refl;
          cleared = refl;
          blocks = refl;
          free = omega arith;
          owned = record {
            sized = ground (arith, o.sized);
            in_ring = let blocks = o.sized.blocks in omega arith;
            once = once_taken o i _ got;
            held = λ q h. elim (eq-cases q (block_at p i)) [
              | inl e ↦ (i, in_pool, e)
              | inr other ↦ o.held q (ground arith)
            ];
          };
        })

  -- On a pool whose blocks are each free or held, memPoolFree on a held block puts it behind the free
  -- ones and fills it with zeros; no other memory changes, and each block is free or held again.
  pub release-GivenBack :
      (q : ℕ)
      → live q ≡ true
      → let (p', mem') = release zero_block p q mem in GivenBack zero_block p live mem q p' mem'
  release-GivenBack q h =
      let (i, lt, e) = o.held q h in
      let body = release-block zero_block o.sized i mem lt in
      let is_room = room o q h in
      let snoc =
        window-snoc p.free_list p.num_of_block i p.first p.num_of_free
          ((p.first + p.num_of_free) % p.num_of_block) is_room refl in
      let grown : window (update p.free_list ((p.first + p.num_of_free) % p.num_of_block) i)
            p.num_of_block p.first (p.num_of_free + 1)
          ≡ contents p ++ i ∷ [] =
        rw add-one snoc in
      rw (e, body)
        (record {
          index = i;
          address = refl;
          last = grown;
          cleared = refl;
          blocks = refl;
          free = refl;
          owned = record {
            sized = ground (arith, o.sized);
            in_ring = o.in_ring;
            once = once_given o i _ lt (rw e at h) grown;
            held = λ r h'. o.held r (ground arith);
          };
        })

-- ===== src/Ctrl/Chain.antt =====
-- Doubly linked lists in the memory of the timers, and what the two linking writes of
-- ttimer/tdengine_old.c do to them.
use everyday_coding.Base.{
  ℕ, ◌≡◌, ◌≢◌, refl, true, false, List, [], ◌∷◌, ◌++◌, arith, has, has-append,
}
use everyday_coding.Ctrl.Memory.{
  Mem, set_next, set_prev, link_next, link_prev, link_next-null, link_next-node, link_prev-node,
}

-- No node stands twice in the list.
abbrev pub Distinct : List ℕ → Type 0
Distinct [] = Unit {0}
Distinct (x ∷ xs) = (has x xs ≡ false) × Distinct xs

-- From `p`, behind the node `q`, the nodes `xs` follow one another by `next` and `prev`, up to the
-- node `q'` with `p'` behind it.
pub Seg : Mem → (q p : ℕ) → List ℕ → (q' p' : ℕ) → Type 0
Seg m q p [] q' p' = (p ≡ p') × (q ≡ q')
Seg m q p (x ∷ xs) q' p' = (p ≡ x) × (x ≢ 0) × ((m x).prev ≡ q) × Seg m x (m x).next xs q' p'

-- The same up to NULL.
pub Chain : Mem → (q p : ℕ) → List ℕ → Type 0
Chain m q p [] = p ≡ 0
Chain m q p (x ∷ xs) = (p ≡ x) × (x ≢ 0) × ((m x).prev ≡ q) × Chain m x (m x).next xs

pub nil-Seg : (m : Mem) (q p : ℕ) → Seg m q p [] q p
unfolding Seg
nil-Seg m q p = (refl, refl)

pub Seg-nil : (m : Mem) (q p q' p' : ℕ) → Seg m q p [] q' p' → (p ≡ p') × (q ≡ q')
unfolding Seg
Seg-nil m q p q' p' s = s

pub Chain-nil : (m : Mem) (q p : ℕ) → p ≡ 0 → Chain m q p []
unfolding Chain
Chain-nil m q p e = e

pub Chain-nil_inv : (m : Mem) (q p : ℕ) → Chain m q p [] → p ≡ 0
unfolding Chain
Chain-nil_inv m q p c = c

module _ (m : Mem) (q p x : ℕ) (xs : List ℕ) where
  pub Chain-uncons :
      Chain m q p (x ∷ xs) → (p ≡ x) × (x ≢ 0) × ((m x).prev ≡ q) × Chain m x (m x).next xs
  unfolding Chain
  Chain-uncons c = c

pub Chain-cons :
    (m : Mem) (q x : ℕ) (xs : List ℕ)
    → x ≢ 0
    → (m x).prev ≡ q
    → Chain m x (m x).next xs
    → Chain m q x (x ∷ xs)
unfolding Chain
Chain-cons m q x xs ne back rest = (refl, ne, back, rest)

pub cons-Seg :
    (m : Mem) (q x : ℕ) (xs : List ℕ) (q' p' : ℕ)
    → x ≢ 0
    → (m x).prev ≡ q
    → Seg m x (m x).next xs q' p'
    → Seg m q x (x ∷ xs) q' p'
unfolding Seg
cons-Seg m q x xs q' p' ne back rest = (refl, ne, back, rest)

-- Two memories agree on the pointers of the nodes in `xs`.
abbrev pub SameLinks : List ℕ → Mem → Mem → Type 0
SameLinks xs m g = (a : ℕ) → has a xs ≡ true → ((g a).prev ≡ (m a).prev) × ((g a).next ≡ (m a).next)

pub Chain-frame :
    (m g : Mem) (q p : ℕ) (xs : List ℕ) → SameLinks xs m g → Chain m q p xs → Chain g q p xs
unfolding Chain
Chain-frame m g q p [] same c = c
Chain-frame m g q p (x ∷ xs) same c =
    let rest = Chain-frame m g x (m x).next xs (λ a h. same a (ground arith)) c.3 in
    ground (arith, same x, rest)

pub Seg-frame :
    (m g : Mem) (q p : ℕ) (xs : List ℕ) (q' p' : ℕ)
    → SameLinks xs m g
    → Seg m q p xs q' p'
    → Seg g q p xs q' p'
unfolding Seg
Seg-frame m g q p [] q' p' same c = c
Seg-frame m g q p (x ∷ xs) q' p' same c =
    let rest = Seg-frame m g x (m x).next xs q' p' (λ a h. same a (ground arith)) c.3 in
    ground (arith, same x, rest)

module _ (m : Mem) where
  pub Seg-Chain :
      (q p : ℕ) (xs : List ℕ) (q' p' : ℕ) (ys : List ℕ)
      → Seg m q p xs q' p'
      → Chain m q' p' ys
      → Chain m q p (xs ++ ys)
  unfolding Seg Chain
  Seg-Chain q p [] q' p' ys s c = rw (s.0, s.1) c
  Seg-Chain q p (x ∷ xs) q' p' ys s c = (s.0, s.1, s.2, Seg-Chain x (m x).next xs q' p' ys s.3 c)

  pub Chain-split :
      (q p : ℕ) (xs ys : List ℕ)
      → Chain m q p (xs ++ ys)
      → (q' : ℕ) × (p' : ℕ) × Seg m q p xs q' p' × Chain m q' p' ys
  unfolding Seg Chain
  Chain-split q p [] ys c = (q, p, (refl, refl), c)
  Chain-split q p (x ∷ xs) ys c =
      let (q', p', s, c') = Chain-split x (m x).next xs ys c.3 in (q', p', (c.0, c.1, c.2, s), c')

  -- The last node of a segment is one of its nodes.
  pub Seg-last :
      (q p x : ℕ) (xs : List ℕ) (q' p' : ℕ)
      → Seg m q p (x ∷ xs) q' p'
      → (has q' (x ∷ xs) ≡ true) × (q' ≢ 0)
  unfolding Seg
  Seg-last q p x [] q' p' s = ground arith
  Seg-last q p x (y ∷ ys) q' p' s = ground (arith, Seg-last x (m x).next y ys q' p' s.3)

  -- A write of the last `next` pointer redirects the segment.
  set_next-Seg :
      (q p x : ℕ) (xs : List ℕ) (q' p' r : ℕ)
      → Distinct (x ∷ xs)
      → Seg m q p (x ∷ xs) q' p'
      → Seg (set_next m q' r) q p (x ∷ xs) q' r
  unfolding Seg
  set_next-Seg q p x [] q' p' r d s = ground arith
  set_next-Seg q p x (y ∷ ys) q' p' r d s =
      ground (
        arith,
        Seg-last x (m x).next y ys q' p' s.3,
        set_next-Seg x (m x).next y ys q' p' r d.1 s.3,
      )

  -- if (q') q'->next = r; else head = r;
  pub link_next-Seg :
      (p : ℕ) (xs : List ℕ) (q' p' r : ℕ)
      → Distinct xs
      → Seg m 0 p xs q' p'
      → let (g, head) = link_next q' r p m in Seg g 0 head xs q' r
  link_next-Seg p [] q' p' r d s =
      let (e, e') = Seg-nil m 0 p q' p' s in rw (← e', link_next-null r p m) (nil-Seg m 0 r)
  link_next-Seg p (x ∷ xs) q' p' r d s =
      let there = (Seg-last 0 p x xs q' p' s).1 in
      rw (link_next-node q' r p m there) (set_next-Seg 0 p x xs q' p' r d s)

  -- if (p) p->prev = r;
  pub link_prev-Chain :
      (q p : ℕ) (xs : List ℕ) (r : ℕ)
      → Distinct xs
      → Chain m q p xs
      → Chain (link_prev p r m) r p xs
  link_prev-Chain q p [] r d c = Chain-nil (link_prev p r m) r p (Chain-nil_inv m q p c)
  link_prev-Chain q p (x ∷ xs) r d c =
      let (e, ne, back, rest) = Chain-uncons m q p x xs c in
      let rest' = Chain-frame m (set_prev m x r) x (m x).next xs (λ a h. ground arith) rest in
      let same : (set_prev m x r x).next ≡ (m x).next = ground arith in
      let new : (set_prev m x r x).prev ≡ r = ground arith in
      rw (e, link_prev-node x r m ne) (Chain-cons (set_prev m x r) r x xs ne new (rw same rest'))

pub Distinct-append :
    (xs ys : List ℕ)
    → Distinct (xs ++ ys)
    → Distinct xs × Distinct ys × ((a : ℕ) → has a xs ≡ true → has a ys ≡ false)
Distinct-append [] ys d = (tt, d, λ a h. cc)
Distinct-append (x ∷ xs) ys d =
    let (dx, dy, apart) = Distinct-append xs ys d.1 in
    (
      (ground (arith, has-append x xs ys), dx),
      dy,
      λ a h. ground (arith, apart a, has-append x xs ys),
    )

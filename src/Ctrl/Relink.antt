-- ===== src/Ctrl/Relink.antt =====
-- The two list operations of ttimer/tdengine_old.c as a whole: tmrReset takes a node out of a list
-- and links it between two nodes of a list.
use everyday_coding.Base.{
  ℕ, ◌≡◌, ◌≢◌, ◌⊎◌, true, false, List, [], ◌∷◌, ◌++◌, arith, has, has-append, inl, inr,
}
use everyday_coding.Ctrl.Memory.{TmrObj, Mem, set_next, set_prev, link_next, link_prev}
use everyday_coding.Ctrl.Chain.{
  Distinct, Seg, Chain, Chain-frame, Seg-frame, Seg-Chain, Chain-split, Chain-uncons, Chain-cons,
  Seg-last, link_next-Seg, link_prev-Chain, Distinct-append, Seg-nil, Chain-nil_inv,
}
use everyday_coding.Ctrl.{insert_at}

-- Nothing but the pointers of a timer changed.
abbrev pub SameTimer : TmrObj → TmrObj → Type 0
SameTimer o o' =
    (o'.cycle ≡ o.cycle)
    × (o'.timer_id ≡ o.timer_id)
    × (o'.index ≡ o.index)
    × (o'.fp ≡ o.fp)
    × (o'.param1 ≡ o.param1)

-- The node in front of the chain, if there is one, and the node behind a segment.
Seg-before :
    (m : Mem) (p : ℕ) (xs : List ℕ) (q' p' : ℕ) → Seg m 0 p xs q' p' → (q' ≡ 0) ⊎ (has q' xs ≡ true)
Seg-before m p [] q' p' s = inl (ground (arith, Seg-nil m 0 p q' p' s))
Seg-before m p (x ∷ xs) q' p' s = inr (Seg-last m 0 p x xs q' p' s).0

pub Chain-head : (m : Mem) (q p : ℕ) (xs : List ℕ) → Chain m q p xs → (p ≡ 0) ⊎ (has p xs ≡ true)
Chain-head m q p [] c = inl (Chain-nil_inv m q p c)
Chain-head m q p (x ∷ xs) c = inr (ground (arith, Chain-uncons m q p x xs c))

-- The writes of link_next and link_prev, at one node or none.
pub link_next_at :
    (p q head : ℕ) (m : Mem) (a : ℕ)
    → let (g, _) = link_next p q head m in
      SameTimer (m a) (g a)
      × ((g a).prev ≡ (m a).prev)
      × ((a ≢ p) ⊎ (p ≡ 0) → (g a).next ≡ (m a).next)
unfolding link_next
link_next_at p q head m a = ground arith

pub link_prev_at :
    (p q : ℕ) (m : Mem) (a : ℕ)
    → let g = link_prev p q m in
      SameTimer (m a) (g a)
      × ((g a).next ≡ (m a).next)
      × ((a ≢ p) ⊎ (p ≡ 0) → (g a).prev ≡ (m a).prev)
unfolding link_prev
link_prev_at p q m a = ground arith

-- What an operation on the list of the nodes `touched` does to the memory.
pub record Relinked (touched : List ℕ) (m g : Mem) : Type 0 where
  pub timers : (a : ℕ) → SameTimer (m a) (g a)
  pub outside :
      (a : ℕ) → has a touched ≡ false → ((g a).prev ≡ (m a).prev) × ((g a).next ≡ (m a).next)

-- The writes of tmrReset that take the node `p` out of its list.
abbrev pub take_out : Mem → (head p : ℕ) → Mem × ℕ
take_out m head p =
    let (m1, head') = link_next (m p).prev (m p).next head m in
    (link_prev (m1 p).next (m1 p).prev m1, head')

module _ (m : Mem) (head p : ℕ) (xs ys : List ℕ) (d : Distinct (xs ++ p ∷ ys)) where
  take_out_at :
      (q' : ℕ)
      → (m p).prev ≡ q'
      → p ≢ 0
      → Seg m 0 head xs q' p
      → Chain m p (m p).next ys
      → let (g, head') = take_out m head p in Chain g 0 head' (xs ++ ys) × Relinked (xs ++ ys) m g
  take_out_at q' back ne s rest =
      let n = (m p).next in
      let (dx, dy, apart) = Distinct-append xs (p ∷ ys) d in
      let before = Seg-before m head xs q' p s in
      let after = Chain-head m p n ys rest in
      let z = link_next q' n head m in
      let at1 = λ (a : ℕ). link_next_at q' n head m a in
      let at2 = λ (a : ℕ). link_prev_at n q' z.0 a in
      let rest1 = Chain-frame m z.0 p n ys (λ a h. ground (arith, at1 a, apart q', before)) rest in
      let rest2 = link_prev-Chain z.0 p n ys q' dy.1 rest1 in
      let s1 = link_next-Seg m head xs q' p n dx s in
      let s2 =
        Seg-frame z.0 (link_prev n q' z.0) 0 z.1 xs q' n
          (λ a h. ground (arith, at2 a, apart a h, after)) s1 in
      let same_next : (z.0 p).next ≡ n = ground (arith, at1 p, before, apart p) in
      let same_prev : (z.0 p).prev ≡ q' = ground (arith, at1 p, back) in
      rw (back, same_next, same_prev)
        (
          Seg-Chain (link_prev n q' z.0) 0 z.1 xs q' n ys s2 rest2,
          record {
            timers = λ a. ground (arith, at1 a, at2 a);
            outside = λ a h. ground (arith, at1 a, at2 a, before, after, has-append a xs ys);
          },
        )

  -- In a list of distinct nodes, the writes of tmrReset that take the node `p` out of it leave a
  -- doubly linked list of the other nodes in their order, change nothing but pointers, and those
  -- only in nodes of that list.
  pub take_out-Chain :
      Chain m 0 head (xs ++ p ∷ ys)
      → let (g, head') = take_out m head p in Chain g 0 head' (xs ++ ys) × Relinked (xs ++ ys) m g
  take_out-Chain c =
      let (q', p', s, c') = Chain-split m 0 head xs (p ∷ ys) c in
      let (e, ne, back, rest) = Chain-uncons m q' p' p ys c' in
      take_out_at q' back ne (rw e at s) rest

module _ (m : Mem) (head p before behind : ℕ) (xs ys : List ℕ) (d : Distinct (xs ++ p ∷ ys))
    (ne : p ≢ 0) where
  -- The writes of tmrReset that link the node `p`, which is not NULL and not in the list, between two
  -- neighbours `before` and `behind` of a list of distinct nodes, either of which may be NULL, make a
  -- doubly linked list with `p` at that place, change nothing but pointers, and those only in nodes
  -- of the new list.
  pub insert_at-Chain :
      Seg m 0 head xs before behind
      → Chain m before behind ys
      → let (g, head') = insert_at m head p before behind in
        Chain g 0 head' (xs ++ p ∷ ys) × Relinked (xs ++ p ∷ ys) m g
  insert_at-Chain s c =
      let (dx, dy, apart) = Distinct-append xs (p ∷ ys) d in
      let front = Seg-before m head xs before behind s in
      let back = Chain-head m before behind ys c in
      let m2 = set_prev (set_next m p behind) p before in
      let m3 = link_prev behind p m2 in
      let z = link_next before p head m3 in
      let at3 = λ (a : ℕ). link_prev_at behind p m2 a in
      let at4 = λ (a : ℕ). link_next_at before p head m3 a in
      let s2 = Seg-frame m m2 0 head xs before behind (λ a h. ground (arith, apart a h)) s in
      let s3 =
        Seg-frame m2 m3 0 head xs before behind (λ a h. ground (arith, at3 a, apart a h, back))
          s2 in
      let s4 = link_next-Seg m3 head xs before behind p dx s3 in
      let c2 = Chain-frame m m2 before behind ys (λ a h. ground arith) c in
      let c3 = link_prev-Chain m2 before behind ys p dy.1 c2 in
      let c4 =
        Chain-frame m3 z.0 p behind ys (λ a h. ground (arith, at4 a, apart before, front)) c3 in
      let p_next : (z.0 p).next ≡ behind = ground (arith, at3 p, at4 p, front, apart before) in
      let p_prev : (z.0 p).prev ≡ before = ground (arith, at3 p, at4 p, back) in
      (
        Seg-Chain z.0 0 z.1 xs before p (p ∷ ys) s4
            (Chain-cons z.0 before p ys ne p_prev (rw p_next c4)),
        record {
          timers = λ a. ground (arith, at3 a, at4 a);
          outside = λ a h. ground (arith, at3 a, at4 a, front, back, has-append a xs (p ∷ ys));
        },
      )

-- ===== src/Pool/Window.antt =====
-- The free blocks of the pool as a queue: the `num_of_free` entries of the ring `freeList` from
-- `first` on.
use native.Mathlib.Nat.{mod-add-mod, mod-mod, mod-eq_of_lt, mod-eq-sub-mod}
use everyday_coding.Base.{
  ℕ, zero, suc, ◌+◌, ◌-◌, ◌%◌, ◌<◌, ◌≡◌, ◌≢◌, refl, ap, ◌∙◌, List, [], ◌∷◌, ◌++◌, arith, inl, inr,
  length, update, lt-cases,
}
use everyday_coding.Pool.{Pool}

module _ (f : ℕ → ℕ) (n : ℕ) where
  -- the `k` entries from index `h` on, round the end of the array
  abbrev pub window : ℕ → ℕ → List ℕ
  window h zero = []
  window h (suc k) = f (h % n) ∷ window (suc h) k

  pub length-window : (h k : ℕ) → length (window h k) ≡ k
  length-window h zero = refl
  length-window h (suc k) = ap suc (length-window (suc h) k)

mod-suc : (n h h' : ℕ) → h % n ≡ h' % n → suc h % n ≡ suc h' % n
mod-suc n h h' e =
    let a : suc h % n ≡ (h % n + 1) % n = rw mod-add-mod (ap (λ k. k % n) (omega arith)) in
    let b : suc h' % n ≡ (h' % n + 1) % n = rw mod-add-mod (ap (λ k. k % n) (omega arith)) in
    rw (a, b, e)

-- Only the index modulo the size of the array matters.
pub window-mod : (f : ℕ → ℕ) (n h h' k : ℕ) → h % n ≡ h' % n → window f n h k ≡ window f n h' k
window-mod f n h h' zero e = refl
window-mod f n h h' (suc k) e = rw (e, window-mod f n (suc h) (suc h') k (mod-suc n h h' e))

-- Fewer than `n` steps round the ring do not come back.
add-mod-ne : (n h j : ℕ) → 0 < j → j < n → (h + j) % n ≢ h % n
add-mod-ne n h j p q = λ e. elim (lt-cases (h % n + j) n) [
  | inl lt ↦ omega (arith, shift, mod-eq_of_lt lt)
  | inr ge ↦ omega (
    arith,
    shift,
    mod-eq-sub-mod {n = h % n + j} {m = n} ge,
    mod-eq_of_lt {n = h % n + j - n} {m = n} (omega arith),
  )
]
  where
    shift : (h + j) % n ≡ (h % n + j) % n
    shift = rw mod-add-mod

-- Writing just behind the window extends it by that entry.
pub window-snoc :
    (f : ℕ → ℕ) (n x h k i : ℕ)
    → k < n
    → i ≡ (h + k) % n
    → window (update f i x) n h (suc k) ≡ window f n h k ++ x ∷ []
window-snoc f n x h zero i lt e =
    let here : i ≡ h % n = e ∙ ap (λ j. j % n) (omega arith) in ground arith
window-snoc f n x h (suc k) i lt e =
    let there : i ≢ h % n = rw e (add-mod-ne n h (suc k) (omega arith) lt) in
    let back : i ≡ (suc h + k) % n = e ∙ ap (λ j. j % n) (omega arith) in
    rw (window-snoc f n x (suc h) k i (omega arith) back) (ground arith)

window_of_ne_zero :
    (f : ℕ → ℕ) (n h k : ℕ) → k ≢ 0 → window f n h k ≡ f (h % n) ∷ window f n (suc h) (k - 1)
window_of_ne_zero f n h zero ne = absurd (ne refl)
window_of_ne_zero f n h (suc k) ne = ap (λ j. window f n h (suc j)) (omega arith)

-- The first entry, and the window that begins behind it, at the index that the code computes.
pub window-pop :
    (f : ℕ → ℕ) (n h k : ℕ)
    → h < n
    → k ≢ 0
    → window f n h k ≡ f h ∷ window f n ((h + 1) % n) (k - 1)
window-pop f n h k lt ne =
    let wrapped : suc h % n ≡ (h + 1) % n % n = rw mod-mod (ap (λ j. j % n) (omega arith)) in
    rw (window_of_ne_zero f n h k ne, window-mod f n (suc h) ((h + 1) % n) (k - 1) wrapped)
      (ap (λ j. f j ∷ window f n ((h + 1) % n) (k - 1)) (mod-eq_of_lt lt))

abbrev pub contents : Pool → List ℕ
contents p = window p.free_list p.num_of_block p.first p.num_of_free

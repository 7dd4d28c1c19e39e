-- ===== src/Map/Cut.antt =====
-- removeTimer of ttimer/timer.c: its walk, and the bucket without the timer that it finds.
use mathlib.Core.Path.{subst}
use everyday_coding.Base.{
  sym, ◌∙◌, ℕ, zero, suc, ◌<◌, ◌≡◌, ◌≢◌, refl, true, false, some, List, [], ◌∷◌, arith, ◌==◌,
  if◌then◌else◌, length, has, update, Bool-cases, inl, inr,
}
use everyday_coding.Ctrl.Chain.{Distinct}
use everyday_coding.Entry.{Timer}
use everyday_coding.Map.{remove_loop}
use everyday_coding.Map.Links.{Links, Links-frame, first_with}

-- The timer before the first one with the id, and the list without that one.
unfoldable pub before : (ℕ → Timer) → (id prev : ℕ) → List ℕ → ℕ
before mem id prev [] = prev
before mem id prev (x ∷ xs) = if (mem x).id == id then prev else before mem id x xs

unfoldable pub without : (ℕ → Timer) → (id : ℕ) → List ℕ → List ℕ
without mem id [] = []
without mem id (x ∷ xs) = if (mem x).id == id then xs else x ∷ without mem id xs

pub remove_loop_lem :
    (k : ℕ) (mem : ℕ → Timer) (id prev head : ℕ) (xs : List ℕ)
    → Links mem head xs
    → length xs < k
    → remove_loop k mem id prev head ≡ some (before mem id prev xs, first_with mem id xs)
unfolding remove_loop before first_with
remove_loop_lem zero mem id prev head xs l fuel = absurd (omega arith)
remove_loop_lem (suc k) mem id prev head [] l fuel = ground arith
remove_loop_lem (suc k) mem id prev head (x ∷ xs) l fuel =
    let (e, ne, rest) = l in
    let ih = remove_loop_lem k mem id x (mem x).mnext xs rest (omega arith) in
    let there : (x == 0) ≡ false = ground arith in
    elim (Bool-cases ((mem x).id == id)) [
      | inl hit ↦ rw (e, there, hit) refl
      | inr miss ↦ rw (e, there, miss, ih) refl
    ]

-- The first timer with the id is in the list, unless it is NULL.
pub first_with-has :
    (mem : ℕ → Timer) (id : ℕ) (xs : List ℕ)
    → first_with mem id xs ≢ 0
    → (has (first_with mem id xs) xs ≡ true) × ((mem (first_with mem id xs)).id ≡ id)
unfolding first_with
first_with-has mem id [] ne = absurd (ne refl)
first_with-has mem id (x ∷ xs) ne = elim (Bool-cases ((mem x).id == id)) [
  | inl hit ↦ rw hit (ground arith, ground arith)
  | inr miss ↦
      let ne' : first_with mem id xs ≢ 0 = ground arith in
      let (h, e) = first_with-has mem id xs ne' in
      let step : first_with mem id (x ∷ xs) ≡ first_with mem id xs = rw miss refl in
      let later : has (first_with mem id xs) (x ∷ xs) ≡ true = ground (arith, h) in
      subst (λ f. (has f (x ∷ xs) ≡ true) × ((mem f).id ≡ id)) (sym step) (later, e)
]

-- The node before it is the one in front of the list, or in it.
pub before-has :
    (mem : ℕ → Timer) (id prev : ℕ) (xs : List ℕ) → has (before mem id prev xs) (prev ∷ xs) ≡ true
unfolding before
before-has mem id prev [] = ground arith
before-has mem id prev (x ∷ xs) = ground (arith, before-has mem id x xs)

-- A list without the first timer with the id holds the others.
pub has-without :
    (mem : ℕ → Timer) (id : ℕ) (xs : List ℕ) (q : ℕ)
    → Distinct xs
    → has 0 xs ≡ false
    → has q (without mem id xs) ≡ (if q == first_with mem id xs then false else has q xs)
unfolding without first_with
has-without mem id [] q d nz = ground arith
has-without mem id (x ∷ xs) q d nz = elim (Bool-cases ((mem x).id == id)) [
  | inl hit ↦ rw hit (ground (arith, d.0))
  | inr miss ↦
      let ih = has-without mem id xs q d.1 (ground arith) in
      let hd = first_with-has mem id xs in rw miss (ground (arith, ih, hd, d.0))
]

-- One write takes the timer out of a bucket: to the node before it, or to the head.
pub without-Links :
    (mem : ℕ → Timer) (id prev head : ℕ) (xs : List ℕ)
    → Distinct (prev ∷ xs)
    → Links mem head xs
    → let hit = first_with mem id xs in
      let b = before mem id prev xs in
      hit ≢ 0
      → Links
          (update mem b (record (mem b) { mnext = (mem hit).mnext }))
          (if b == prev then (mem hit).mnext else head)
          (without mem id xs)
unfolding first_with before without
without-Links mem id prev head [] d l ne = absurd (ne refl)
without-Links mem id prev head (x ∷ xs) d l ne =
    let (e, nz, rest) = l in
    elim (Bool-cases ((mem x).id == id)) [
      | inl hit ↦
          let same : (prev == prev) ≡ true = ground arith in
          rw (hit, same)
            (Links-frame mem (update mem prev (record (mem prev) { mnext = (mem x).mnext }))
              (mem x).mnext xs (λ q h. ground (arith, d.0)) rest)
      | inr miss ↦
          let ne' : first_with mem id xs ≢ 0 = ground arith in
          let ih = without-Links mem id x (mem x).mnext xs d.1 rest ne' in
          let at = before-has mem id x xs in
          let far : (before mem id x xs == prev) ≡ false = ground (arith, at, d.0) in
          let b = before mem id x xs in
          let link : (update mem b (record (mem b) { mnext = (mem (first_with mem id xs)).mnext })
                x).mnext
              ≡ (if b == x then (mem (first_with mem id xs)).mnext else (mem x).mnext) =
            ground arith in
          rw (miss, far) (e, nz, rw link ih)
    ]

pub without-Distinct :
    (mem : ℕ → Timer) (id : ℕ) (xs : List ℕ)
    → Distinct xs
    → has 0 xs ≡ false
    → Distinct (without mem id xs)
unfolding without
without-Distinct mem id [] d nz = tt
without-Distinct mem id (x ∷ xs) d nz = elim (Bool-cases ((mem x).id == id)) [
  | inl hit ↦ rw hit d.1
  | inr miss ↦ rw miss (
    ground (arith, has-without mem id xs x d.1, d.0),
    without-Distinct mem id xs d.1 (ground arith),
  )
]

-- Where no timer is found, none of the list has the id.
pub first_with-none :
    (mem : ℕ → Timer) (id : ℕ) (xs : List ℕ)
    → has 0 xs ≡ false
    → first_with mem id xs ≡ 0
    → (q : ℕ) → has q xs ≡ true
    → (mem q).id ≢ id
unfolding first_with
first_with-none mem id (x ∷ xs) nz none q h = elim (Bool-cases ((mem x).id == id)) [
  | inl hit ↦ let first : first_with mem id (x ∷ xs) ≡ x = rw hit refl in ground (arith, first)
  | inr miss ↦
      let step : first_with mem id (x ∷ xs) ≡ first_with mem id xs = rw miss refl in
      let ih = first_with-none mem id xs (ground arith) (sym step ∙ none) q in ground (arith, ih)
]
first_with-none mem id [] nz none q h = cc

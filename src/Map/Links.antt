-- ===== src/Map/Links.antt =====
-- Buckets of ttimer/timer.c as lists, and the walk of findTimer.
use everyday_coding.Base.{
  ℕ, zero, suc, ◌<◌, ◌≡◌, ◌≢◌, refl, true, false, some, List, [], ◌∷◌, arith, ◌==◌, if◌then◌else◌,
  length, has, Bool-cases, inl, inr,
}
use everyday_coding.Entry.{Timer}
use everyday_coding.Map.{find_loop}

-- The bucket with the given head holds the timers `xs`, in order.
abbrev pub Links : (ℕ → Timer) → (head : ℕ) → List ℕ → Type 0
Links mem head [] = head ≡ 0
Links mem head (x ∷ xs) = (head ≡ x) × (x ≢ 0) × Links mem (mem x).mnext xs

pub Links-frame :
    (mem mem' : ℕ → Timer) (head : ℕ) (xs : List ℕ)
    → ((q : ℕ) → has q xs ≡ true → (mem' q).mnext ≡ (mem q).mnext)
    → Links mem head xs
    → Links mem' head xs
Links-frame mem mem' head [] same l = l
Links-frame mem mem' head (x ∷ xs) same l =
    let (e, ne, rest) = l in
    let kept : (mem' x).mnext ≡ (mem x).mnext = same x (ground arith) in
    (e, ne, rw kept (Links-frame mem mem' (mem x).mnext xs (λ q h. same q (ground arith)) rest))

pub Links-ne : (mem : ℕ → Timer) (head : ℕ) (xs : List ℕ) → Links mem head xs → has 0 xs ≡ false
Links-ne mem head [] l = refl
Links-ne mem head (x ∷ xs) l =
    let (e, ne, rest) = l in ground (arith, Links-ne mem (mem x).mnext xs rest)

-- The first timer of the list with the id, or NULL.
unfoldable pub first_with : (ℕ → Timer) → (id : ℕ) → List ℕ → ℕ
first_with mem id [] = 0
first_with mem id (x ∷ xs) = if (mem x).id == id then x else first_with mem id xs

pub find_loop_lem :
    (k : ℕ) (mem : ℕ → Timer) (id head : ℕ) (xs : List ℕ)
    → Links mem head xs
    → length xs < k
    → find_loop k mem id head ≡ some (first_with mem id xs)
unfolding find_loop first_with
find_loop_lem zero mem id head xs l fuel = absurd (omega arith)
find_loop_lem (suc k) mem id head [] l fuel = ground arith
find_loop_lem (suc k) mem id head (x ∷ xs) l fuel =
    let (e, ne, rest) = l in
    let ih = find_loop_lem k mem id (mem x).mnext xs rest (omega arith) in
    let there : (x == 0) ≡ false = ground arith in
    elim (Bool-cases ((mem x).id == id)) [
      | inl hit ↦ rw (e, there, hit) refl
      | inr miss ↦ rw (e, there, miss, ih) refl
    ]

-- ===== src/CString/Laws.antt =====
-- Lemmas on C strings.
use everyday_coding.Base.{
  ℕ, zero, suc, ◌-◌, ◌≤◌, ◌≡◌, refl, ap, false, [], ◌∷◌, ◌++◌, ◌==◌, has, length, arith,
}
use everyday_coding.CString.{Str, up_to_nul, line_bytes, fgets, take}

pub up_to_nul-append : (s rest : Str) → has 0 s ≡ false → up_to_nul (s ++ 0 ∷ rest) ≡ s
up_to_nul-append [] rest clean = refl
up_to_nul-append (c ∷ s) rest clean =
    let not_nul : (c == 0) ≡ false = ground (arith, clean) in
    let clean' : has 0 s ≡ false = ground (arith, clean) in
    rw (not_nul, up_to_nul-append s rest clean') refl

length-up_to_nul : (s : Str) → length (up_to_nul s) ≤ length s
length-up_to_nul [] = omega arith
length-up_to_nul (c ∷ s) = ground (arith, length-up_to_nul s)

length-line_bytes : (n : ℕ) (s : Str) → length (line_bytes n s) ≤ n
length-line_bytes zero s = omega arith
length-line_bytes (suc n) [] = omega arith
length-line_bytes (suc n) (c ∷ s) = ground (arith, length-line_bytes n s)

-- fgets leaves a place for the NUL.
pub length-fgets : (size : ℕ) (s : Str) → length (fgets [] size s) ≤ size - 1
length-fgets size [] = omega arith
length-fgets size (c ∷ s) =
    let taken = line_bytes (size - 1) (c ∷ s) in
    omega (arith, length-up_to_nul taken, length-line_bytes (size - 1) (c ∷ s))

has-up_to_nul : (s : Str) → has 0 (up_to_nul s) ≡ false
has-up_to_nul [] = refl
has-up_to_nul (c ∷ s) = ground (arith, has-up_to_nul s)

pub has-fgets : (n : ℕ) (s : Str) → has 0 (fgets [] n s) ≡ false
has-fgets n [] = refl
has-fgets n (c ∷ s) = has-up_to_nul (line_bytes (n - 1) (c ∷ s))

pub take-take : (xs ys : Str) (m : ℕ) → length xs ≤ m → take (length xs) (take m (xs ++ ys)) ≡ xs
take-take [] ys m le = refl
take-take (x ∷ xs) ys zero le = absurd (omega arith)
take-take (x ∷ xs) ys (suc m) le = ap (λ s. x ∷ s) (take-take xs ys m (omega arith))

pub take-all : (xs : Str) (m : ℕ) → length xs ≤ m → take m xs ≡ xs
take-all [] zero le = refl
take-all [] (suc m) le = refl
take-all (x ∷ xs) zero le = absurd (omega arith)
take-all (x ∷ xs) (suc m) le = ap (λ s. x ∷ s) (take-all xs m (omega arith))

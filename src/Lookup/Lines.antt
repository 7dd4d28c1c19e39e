-- ===== src/Lookup/Lines.antt =====
-- The lines that getline reads.
use everyday_coding.Base.{
  ℕ, zero, suc, ◌≤◌, ◌≡◌, refl, true, false, [], ◌∷◌, ◌++◌, ◌==◌, has, length, arith,
}
use everyday_coding.CString.{Str, up_to_nul}
use everyday_coding.Lookup.{line_taken, getline}

-- A line that has been typed: without its end, NUL bytes, and more than 19 bytes.
pub record IsLine (line : Str) : Type 0 where
  pub short : length line ≤ 19
  pub whole : has b'\n' line ≡ false
  pub clean : has 0 line ≡ false

line_taken-line :
    (line rest : Str) (n : ℕ)
    → length line ≤ n
    → has b'\n' line ≡ false
    → line_taken n (line ++ b'\n' ∷ rest) ≡ (line, record { good = true; rest = rest })
line_taken-line [] rest zero short whole = refl
line_taken-line [] rest (suc n) short whole = refl
line_taken-line (c ∷ line) rest zero short whole = absurd (omega arith)
line_taken-line (c ∷ line) rest (suc n) short whole =
    let other : (c == b'\n') ≡ false = ground (arith, whole) in
    let whole' : has b'\n' line ≡ false = ground (arith, whole) in
    rw (other, line_taken-line line rest n (omega arith) whole') refl

up_to_nul-clean : (s : Str) → has 0 s ≡ false → up_to_nul s ≡ s
up_to_nul-clean [] clean = refl
up_to_nul-clean (c ∷ s) clean =
    let other : (c == 0) ≡ false = ground (arith, clean) in
    let clean' : has 0 s ≡ false = ground (arith, clean) in
    rw (other, up_to_nul-clean s clean') refl

pub getline-line :
    (line rest : Str)
    → IsLine line
    → getline (record { good = true; rest = line ++ b'\n' ∷ rest })
      ≡ (line, record { good = true; rest = rest })
unfolding getline
getline-line line rest is =
    rw (getline, line_taken-line line rest 19 is.short is.whole, up_to_nul-clean line is.clean) refl

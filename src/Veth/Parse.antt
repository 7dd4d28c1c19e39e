-- ===== src/Veth/Parse.antt =====
-- What deal_eth0_ifindex reads in a line of `ip link`.
use mathlib.Core.Path.{subst}
use mathlib.Core.List.{append-nil, append_assoc}
use everyday_coding.Base.{
  ℕ, suc, zero, ◌+◌, ◌-◌, ◌≤◌, ◌<◌, ◌≡◌, refl, ap, ◌∙◌, Bool, true, false, Option, none, some, [],
  ◌∷◌, ◌++◌, arith, ◌==◌, if◌then◌else◌, leb, has, length, length-append, Bool-cases, inl, inr,
}
use everyday_coding.Base.Int.{ℤ}
use everyday_coding.CString.{Str, bytes, is_digit, atoi, take}
use everyday_coding.Veth.{scan, deal_eth0_ifindex}

-- the digits of a string
abbrev pub digits : Str → Str
digits [] = []
digits (c ∷ s) = let rest = digits s in if is_digit c then c ∷ rest else rest

-- After the colon nothing is taken.
scan_ended : (s : Str) (start : Bool) (val : Str) → scan s start true val ≡ some val
unfolding scan
scan_ended [] start val = refl
scan_ended (c ∷ s) true val = elim (Bool-cases (c == b'@')) [
  | inl at ↦ rw (at, scan_ended s true val) refl
  | inr other ↦ elim (Bool-cases (c == b':')) [
    | inl colon ↦ rw (other, colon, scan_ended s true val) refl
    | inr more ↦ rw (other, more, scan_ended s true val) refl
  ]
]
scan_ended (c ∷ s) false val = elim (Bool-cases (c == b'@')) [
  | inl at ↦ rw (at, scan_ended s true val) refl
  | inr other ↦ elim (Bool-cases (c == b':')) [
    | inl colon ↦ rw (other, colon, scan_ended s false val) refl
    | inr more ↦ rw (other, more, scan_ended s false val) refl
  ]
]

-- Before it every digit is taken.
scan_step :
    (c : ℕ) (s val : Str)
    → (c == b':') ≡ false
    → leb 8 (length val) ≡ false
    → scan (c ∷ s) true false val ≡ scan s true false (if is_digit c then val ++ c ∷ [] else val)
unfolding scan
scan_step c s val colon room = elim (Bool-cases (c == b'@')) [
  | inl at ↦ let nodigit : is_digit c ≡ false = ground arith in rw (at, nodigit) refl
  | inr other ↦ elim (Bool-cases (is_digit c)) [
    | inl digit ↦ rw (other, colon, digit, room) refl
    | inr nodigit ↦ rw (other, colon, nodigit) refl
  ]
]

scan-digits :
    (mid rest : Str) (m : ℕ) (val : Str)
    → has b':' mid ≡ false
    → length mid < m
    → length val + length (digits mid) ≤ 7
    → scan (take m (mid ++ b':' ∷ rest)) true false val ≡ some (val ++ digits mid)
unfolding scan
scan-digits [] rest (suc m) val clean lt fits =
    rw (scan_ended (take m rest) true val, append-nil val) refl
scan-digits (c ∷ mid) rest (suc m) val clean lt fits =
    let other : (c == b':') ≡ false = ground (arith, clean) in
    let clean' : has b':' mid ≡ false = ground (arith, clean) in
    let room : leb 8 (length val) ≡ false = ground arith in
    scan_step c (take m (mid ++ b':' ∷ rest)) val other room ∙ elim (Bool-cases (is_digit c)) [
      | inl digit ↦
          let fits' : length val + suc (length (digits mid)) ≤ 7 =
            subst (λ b. length val + length (if b then c ∷ digits mid else digits mid) ≤ 7) digit
              fits in
          rw digit (
            scan-digits mid rest m (val ++ c ∷ []) clean' (omega arith)
              (omega (arith, length-append val (c ∷ [])))
            ∙ ap some (append_assoc val (c ∷ []) (digits mid)))
      | inr nodigit ↦
          let fits' : length val + length (digits mid) ≤ 7 =
            subst (λ b. length val + length (if b then c ∷ digits mid else digits mid) ≤ 7) nodigit
              fits in
          rw nodigit (scan-digits mid rest m val clean' (omega arith) fits')
    ]
scan-digits mid rest zero val clean lt fits = absurd (omega arith)

finish : Option Str → Option ℤ
finish none = none
finish (some val) = if leb 8 (length val) then none else some (atoi val)

-- In a line with "eth0", "@", some bytes that are no colons, and a colon, given with a length that
-- reaches behind that colon, the function reads the number that the digits between "@" and the
-- colon make, if there are at most 7, whatever the uninitialised variable holds and whatever
-- follows the colon.
pub deal_eth0_ifindex-digits :
    (start : Bool) (mid rest : Str) (len : ℕ)
    → has b':' mid ≡ false
    → 5 + length mid < len
    → length (digits mid) ≤ 7
    → deal_eth0_ifindex start (bytes "eth0" ++ b'@' ∷ mid ++ b':' ∷ rest) len
      ≡ some (atoi (digits mid))
unfolding deal_eth0_ifindex scan finish
deal_eth0_ifindex-digits start mid rest len clean lt fits =
    let e : len ≡ suc (suc (suc (suc (suc (len - 5))))) = omega arith in
    let room : leb 8 (length (digits mid)) ≡ false = ground arith in
    let run = scan-digits mid rest (len - 5) [] clean (omega arith) (omega arith) in
    rw e (ap finish run ∙ rw room refl)

-- ===== src/Salary/Lines.antt =====
-- The lines that display of bracket_overloading.cpp prints, and an assignment as a change of them.
use native.Mathlib.Numerals.{add-one}
use everyday_coding.Base.{
  ℕ, zero, suc, ◌+◌, ◌≤◌, ◌<◌, ◌≡◌, refl, sym, ap, ◌∙◌, inl, inr, true, false, List, [], ◌∷◌, ◌++◌,
  length, arith, ◌==◌, if◌then◌else◌, update, Bool-cases,
}
use everyday_coding.Base.Int.{ℤ}
use everyday_coding.Salary.{Person, is_zero, find_person, lines_from}
use everyday_coding.Salary.Find.{find_person-bounds}

module _ {ℓ} {Name Money : Type ℓ} where
  lines_from-frame :
      (f g : ℕ → Person Name Money) (k i : ℕ)
      → ((j : ℕ) → i ≤ j → j < i + k → g j ≡ f j)
      → lines_from g k i ≡ lines_from f k i
  unfolding lines_from
  lines_from-frame f g zero i same = refl
  lines_from-frame f g (suc k) i same =
      rw
        (
          same i (omega arith) (omega arith),
          lines_from-frame f g k (i + 1) (λ j le lt. same j (omega arith) (omega arith)),
        )
        refl

  lines_from-snoc :
      (f : ℕ → Person Name Money) (k i e : ℕ)
      → i + k ≡ e
      → lines_from f (suc k) i ≡ lines_from f k i ++ (((f e).name, (f e).salary) ∷ [])
  unfolding lines_from
  lines_from-snoc f zero i e end = let e' : e ≡ i = omega arith in rw e' refl
  lines_from-snoc f (suc k) i e end =
      ap (λ xs. ((f i).name, (f i).salary) ∷ xs) (lines_from-snoc f k (i + 1) e (omega arith))

  -- A person who is added behind the `n` others and gets a salary.
  pub extended-lines :
      (f : ℕ → Person Name Money) (name : Name) (nought money : Money) (n : ℕ)
      → let f' = update f n (record { salary = nought; name = name }) in
        lines_from (update f' n (record (f' n) { salary = money })) (n + 1) 0
        ≡ lines_from f n 0 ++ ((name, money) ∷ [])
  extended-lines f name nought money n =
      let f' = update f n (record { salary = nought; name = name }) in
      let g = update f' n (record (f' n) { salary = money }) in
      let here : (n == n) ≡ true = ground arith in
      let others : lines_from g n 0 ≡ lines_from f n 0 =
        lines_from-frame f g n 0
          λ j le lt. let off : (j == n) ≡ false = ground arith in rw off refl in
      let last : ◌≡◌ {A = Name × Money} ((g n).name, (g n).salary) (name, money) = rw here refl in
      rw add-one (lines_from-snoc g n 0 n (omega arith) ∙ rw (others, last) refl)

  pub length-lines_from : (f : ℕ → Person Name Money) (k i : ℕ) → length (lines_from f k i) ≡ k
  unfolding lines_from
  length-lines_from f zero i = refl
  length-lines_from f (suc k) i = ap suc (length-lines_from f k (i + 1))

module _ {ℓ} {Name Money : Type ℓ} (strcmp : Name → Name → ℤ) where
  -- The lines after the assignment of a salary: a name that is there keeps its line, and a new one
  -- comes last.
  pub put_line : List (Name × Money) → Name → Money → List (Name × Money)
  put_line [] name money = (name, money) ∷ []
  put_line (x ∷ xs) name money =
      if is_zero (strcmp x.0 name) then (x.0, money) ∷ xs else x ∷ put_line xs name money

  pub put_line-grows :
      (xs : List (Name × Money)) (name : Name) (money : Money)
      → length xs ≤ length (put_line xs name money)
  unfolding put_line
  put_line-grows [] name money = omega arith
  put_line-grows (x ∷ xs) name money = ground (arith, put_line-grows xs name money)

  -- The name stands at `r`.
  pub put_line-old :
      (f : ℕ → Person Name Money) (name : Name) (money : Money) (k i r : ℕ)
      → find_person strcmp f name k i ≡ r
      → r < i + k
      → put_line (lines_from f k i) name money
        ≡ lines_from (update f r (record (f r) { salary = money })) k i
  unfolding put_line lines_from find_person
  put_line-old f name money zero i r e lt = absurd (omega arith)
  put_line-old f name money (suc k) i r e lt =
      let g = update f r (record (f r) { salary = money }) in
      elim (Bool-cases (is_zero (strcmp (f i).name name))) [
        | inl hit ↦
            let at : i ≡ r = rw hit at e in
            let here : (i == r) ≡ true = ground arith in
            let tail : lines_from g k (i + 1) ≡ lines_from f k (i + 1) =
              lines_from-frame f g k (i + 1)
                (λ j le lt. let off : (j == r) ≡ false = ground arith in rw off refl) in
            rw (hit, here, tail, sym at) refl
        | inr miss ↦
            let rest : find_person strcmp f name k (i + 1) ≡ r = rw miss at e in
            let (low, _, _) = find_person-bounds strcmp f name k (i + 1) in
            let off : (i == r) ≡ false = ground (arith, low, rest) in
            rw (miss, off)
              (ap (λ xs. ((f i).name, (f i).salary) ∷ xs)
                (put_line-old f name money k (i + 1) r rest (omega arith)))
      ]

  pub put_line-new :
      (f : ℕ → Person Name Money) (name : Name) (money : Money) (k i : ℕ)
      → i + k ≤ find_person strcmp f name k i
      → put_line (lines_from f k i) name money ≡ lines_from f k i ++ ((name, money) ∷ [])
  unfolding put_line lines_from find_person
  put_line-new f name money zero i le = refl
  put_line-new f name money (suc k) i le = elim (Bool-cases (is_zero (strcmp (f i).name name))) [
    | inl hit ↦ let le' : i + suc k ≤ i = rw hit at le in absurd (omega arith)
    | inr miss ↦
        let le' : i + suc k ≤ find_person strcmp f name k (i + 1) = rw miss at le in
        rw miss (
          ap (λ xs. ((f i).name, (f i).salary) ∷ xs)
            (put_line-new f name money k (i + 1) (omega arith)))
  ]

  -- The lines after assignments one after the other.
  abbrev pub put_lines : List (Name × Money) → List (Name × Money) → List (Name × Money)
  put_lines lines [] = lines
  put_lines lines (e ∷ later) = put_lines (put_line lines e.0 e.1) later

  pub put_lines-grows :
      (lines entries : List (Name × Money)) → length lines ≤ length (put_lines lines entries)
  put_lines-grows lines [] = omega arith
  put_lines-grows lines (e ∷ later) =
      omega (arith, put_line-grows lines e.0 e.1, put_lines-grows (put_line lines e.0 e.1) later)

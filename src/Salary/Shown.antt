-- ===== src/Salary/Shown.antt =====
-- What display of bracket_overloading.cpp prints after assignments.

use everyday_coding.Base.{
  ℕ, ◌+◌, ◌≤◌, ◌<◌, ◌≡◌, ◌⊎◌, refl, sym, ap, ◌∙◌, inl, inr, Option, none, some, List, [], ◌∷◌,
  length, length-append, arith, ltb, leb, update, Bool-cases,
}
use everyday_coding.Base.Int.{ℤ}
use everyday_coding.Salary.{
  Person, SalaryManage, salary_manage, find_person, subscript, assign, lines_from, display,
}
use everyday_coding.Salary.Lines.{
  extended-lines, length-lines_from, put_line, put_line-old, put_line-new, put_lines,
  put_lines-grows,
}

module _ {ℓ} {Name Money : Type ℓ} (strcmp : Name → Name → ℤ) where
  module _ (nought : Money) where
    -- One assignment changes the lines of display by one line.
    assign-display :
        (s : SalaryManage Name Money) (name : Name) (money : Money)
        → s.n ≤ s.max
        → let lines = put_line strcmp (display s) name money in
          ((s' : SalaryManage Name Money) × (assign strcmp nought s name money ≡ some s')
            × (display s' ≡ lines)
            × (s'.n ≤ s'.max)
            × (s'.max ≡ s.max))
          ⊎ (assign strcmp nought s name money ≡ none) × (s.max < length lines)
    unfolding assign subscript
    assign-display s name money le =
        let i = find_person strcmp s.employ name s.n 0 in
        elim (Bool-cases (ltb i s.n)) [
          | inl lt ↦
              let s' = record s {
                employ = update s.employ i (record (s.employ i) { salary = money });
              } in
              inl (
                s',
                rw (assign, subscript, lt) refl,
                sym (put_line-old strcmp s.employ name money s.n 0 i refl (ground arith)),
                le,
                refl,
              )
          | inr ge ↦
              let grown = put_line-new strcmp s.employ name money s.n 0 (ground arith) in
              elim (Bool-cases (leb s.max s.n)) [
                | inl full ↦
                    let size = length-append (lines_from s.employ s.n 0) ((name, money) ∷ []) in
                    inr (
                      rw (assign, subscript, ge, full) refl,
                      rw grown (ground (arith, size, length-lines_from s.employ s.n 0)),
                    )
                | inr free ↦
                    let f = update s.employ s.n (record { salary = nought; name = name }) in
                    let g = update f s.n (record (f s.n) { salary = money }) in
                    inl (
                      record s { employ = g; n = s.n + 1 },
                      rw (assign, subscript, ge, free) refl,
                      extended-lines s.employ name nought money s.n ∙ sym grown,
                      ground arith,
                      refl,
                    )
              ]
        ]

    -- Assignments, one after the other.
    pub assign_all :
        SalaryManage Name Money → List (Name × Money) → Option (SalaryManage Name Money)
    assign_all s [] = some s
    assign_all s (e ∷ later) = elim (assign strcmp nought s e.0 e.1) [
      | none ↦ none
      | some s' ↦ assign_all s' later
    ]

    assign_all-lines :
        (s : SalaryManage Name Money) (entries : List (Name × Money))
        → s.n ≤ s.max
        → let lines = put_lines strcmp (display s) entries in
          ((s' : SalaryManage Name Money) × (assign_all s entries ≡ some s')
            × (display s' ≡ lines)
            × (length lines ≤ s.max))
          ⊎ (assign_all s entries ≡ none) × (s.max < length lines)
    unfolding assign_all
    assign_all-lines s [] le = inl (s, refl, refl, omega (arith, length-lines_from s.employ s.n 0))
    assign_all-lines s (e ∷ later) le = elim (assign-display s e.0 e.1 le) [
      | inl (s', done, shown, le', same) ↦
          let lines = ap (λ xs. put_lines strcmp xs later) shown in
          elim (assign_all-lines s' later le') [
            | inl (t, run, out, few) ↦ inl (
              t,
              rw (assign_all, done) run,
              out ∙ lines,
              omega (arith, few, same, ap length lines),
            )
            | inr (failed, many) ↦
                inr (rw (assign_all, done) failed, omega (arith, many, same, ap length lines))
          ]
      | inr (failed, many) ↦ inr (
        rw (assign_all, failed) refl,
        omega (arith, many, put_lines-grows strcmp (put_line strcmp (display s) e.0 e.1) later),
      )
    ]

    -- On a new table with `max` places assignments one after the other succeed if and only if they
    -- are for at most `max` names, and else write behind the array; and then display prints one line
    -- for each of the names, in the order in which they came first, with the salary that came last.
    pub assign_all-display :
        (garbage : ℕ → Person Name Money) (max : ℕ) (entries : List (Name × Money))
        → let lines = put_lines strcmp [] entries in
          ((s : SalaryManage Name Money) × (assign_all (salary_manage garbage max) entries ≡ some s)
            × (display s ≡ lines)
            × (length lines ≤ max))
          ⊎ (assign_all (salary_manage garbage max) entries ≡ none) × (max < length lines)
    unfolding lines_from
    assign_all-display garbage max entries =
        assign_all-lines (salary_manage garbage max) entries (omega arith)

-- ===== src/Salary/Table.antt =====
-- `SalaryManage` of bracket_overloading.cpp as a map from names to salaries.

use everyday_coding.Base.{
  ℕ, ◌≤◌, ◌≡◌, ◌⊎◌, refl, sym, ap, ◌∙◌, inl, inr, true, false, none, some, arith, ltb, leb, ◌==◌,
  if◌then◌else◌, update, Bool-cases, eq-cases,
}
use everyday_coding.Base.Int.{ℤ}
use everyday_coding.Salary.Find.{find_person-frame}
use everyday_coding.Salary.{SalaryManage, is_zero, find_person, subscript, assign}
use everyday_coding.Salary.Found.{IsStrcmp, view, Found, old-Found, extended, new-Found}

module _ {ℓ} {Name Money : Type ℓ} (strcmp : Name → Name → ℤ) where
  module _ (law : IsStrcmp strcmp) (nought : Money) (s : SalaryManage Name Money)
      (name : Name) where
    -- A write to the salary that an access refers to.
    paid-views :
        (money m : Money) (i : ℕ) (s' : SalaryManage Name Money)
        → Found strcmp s name m i s'
        → (q : Name)
        → let s'' = record s' {
          employ = update s'.employ i (record (s'.employ i) { salary = money });
        } in
          view strcmp s'' q ≡ (if is_zero (strcmp name q) then some money else view strcmp s q)
    unfolding view
    paid-views money m i s' f q =
        let g = update s'.employ i (record (s'.employ i) { salary = money }) in
        let r = find_person strcmp s'.employ q s'.n 0 in
        let names : find_person strcmp g q s'.n 0 ≡ r =
          find_person-frame strcmp s'.employ g q s'.n 0 λ j lt. same_name j in
        elim (Bool-cases (r == i)) [
          | inl at ↦
              let at' : r ≡ i = ground arith in
              let here : (i == i) ≡ true = ground arith in
              let inside : ltb i s'.n ≡ true = ground (arith, f.inside) in
              rw (view, names, at', inside, here, f.only q at') refl
          | inr off ↦
              let apart : is_zero (strcmp name q) ≡ false = not_same off in
              let old = f.views q in rw (view, names, off, apart) (old ∙ rw apart refl)
        ]
      where
        same_name :
            (j : ℕ)
            → (update s'.employ i (record (s'.employ i) { salary = money }) j).name
              ≡ (s'.employ j).name
        same_name j = elim (eq-cases j i) [
          | inl e ↦ let here : (i == i) ≡ true = ground arith in rw (e, here) refl
          | inr ne ↦ rw ne refl
        ]

        not_same :
            (find_person strcmp s'.employ q s'.n 0 == i) ≡ false → is_zero (strcmp name q) ≡ false
        not_same off = elim (Bool-cases (is_zero (strcmp name q))) [
          | inl e ↦
              let at : find_person strcmp s'.employ q s'.n 0 ≡ i =
                ap (λ x. find_person strcmp s'.employ x s'.n 0) (sym ((law.same name q).0 e))
                ∙ f.index_at in
              absurd (ground (arith, off, at))
          | inr ne ↦ ne
        ]

    -- Where strcmp returns 0 on equal names alone, `s[name] = money` on a table of which the name
    -- is not there and which is full writes behind the array. In every other case it succeeds, and
    -- the table is the same map but for the salary of the name, with at most `max` people if there
    -- were.
    pub assign-view :
        (money : Money)
        → (assign strcmp nought s name money ≡ none) × (view strcmp s name ≡ none) × (s.max ≤ s.n)
          ⊎ ((s' : SalaryManage Name Money) × (assign strcmp nought s name money ≡ some s')
              × ((q : Name)
                  → view strcmp s' q
                    ≡ (if is_zero (strcmp name q) then some money else view strcmp s q))
              × (s.n ≤ s.max → s'.n ≤ s'.max))
    unfolding assign subscript view
    assign-view money =
        let i = find_person strcmp s.employ name s.n 0 in
        elim (Bool-cases (ltb i s.n)) [
          | inl lt ↦
              let f = old-Found strcmp law nought s name (ground arith) in
              inr (
                record s { employ = update s.employ i (record (s.employ i) { salary = money }) },
                rw (assign, subscript, lt) refl,
                paid-views money (s.employ i).salary i s f,
                λ le. le,
              )
          | inr ge ↦ elim (Bool-cases (leb s.max s.n)) [
            | inl full ↦ inl (rw (assign, subscript, ge, full) refl, rw ge refl, ground arith)
            | inr free ↦
                let next = extended strcmp law nought s name in
                let f = new-Found strcmp law nought s name (ground arith) in
                inr (
                  record next {
                    employ = update next.employ s.n (record (next.employ s.n) { salary = money });
                  },
                  rw (assign, subscript, ge, free) refl,
                  paid-views money nought s.n next f,
                  λ le. ground arith,
                )
          ]
        ]

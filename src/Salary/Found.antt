-- ===== src/Salary/Found.antt =====
-- The subscript operator of bracket_overloading.cpp: the index of a name, old or new.
use mathlib.Core.Path.{subst}
use native.Mathlib.Numerals.{add-one}
use everyday_coding.Base.{
  ℕ, ◌+◌, ◌≤◌, ◌<◌, ◌≡◌, ◌↔◌, refl, sym, ◌∙◌, inl, inr, true, false, Option, none, some, arith, ltb,
  ◌==◌, if◌then◌else◌, update, Bool-cases,
}
use everyday_coding.Base.Int.{ℤ}
use everyday_coding.Salary.Find.{find_person-bounds, find_person-frame, find_person-snoc}
use everyday_coding.Salary.{SalaryManage, is_zero, find_person}

-- What the C standard says of strcmp where it returns 0.
pub record IsStrcmp {ℓ} {Name : Type ℓ} (strcmp : Name → Name → ℤ) : Type ℓ where
  pub same : (a b : Name) → (is_zero (strcmp a b) ≡ true) ↔ (a ≡ b)

module _ {ℓ} {Name Money : Type ℓ} (strcmp : Name → Name → ℤ) where
  -- the salary of a name, if the table has it
  unfoldable pub view : SalaryManage Name Money → Name → Option Money
  view s q =
      let i = find_person strcmp s.employ q s.n 0 in
      if ltb i s.n then some (s.employ i).salary else none

  -- What an access by the name `name` leaves: the index of its person, with the salary `m`.
  pub record Found (s : SalaryManage Name Money) (name : Name) (m : Money) (i : ℕ)
      (s' : SalaryManage Name Money) : Type ℓ where
    pub inside : i < s'.n
    pub salary_at : (s'.employ i).salary ≡ m
    pub index_at : find_person strcmp s'.employ name s'.n 0 ≡ i
    pub same_max : s'.max ≡ s.max
    pub views : (q : Name) → view s' q ≡ (if is_zero (strcmp name q) then some m else view s q)
    pub only :
        (q : Name) → find_person strcmp s'.employ q s'.n 0 ≡ i → is_zero (strcmp name q) ≡ true

  module _ (law : IsStrcmp strcmp) (nought : Money) (s : SalaryManage Name Money)
      (name : Name) where
    pub old-Found :
        find_person strcmp s.employ name s.n 0 < s.n
        → let i = find_person strcmp s.employ name s.n 0 in Found s name (s.employ i).salary i s
    unfolding view
    old-Found lt =
        let i = find_person strcmp s.employ name s.n 0 in
        let (_, _, hit) = find_person-bounds strcmp s.employ name s.n 0 in
        let mine : (s.employ i).name ≡ name =
          (law.same (s.employ i).name name).0 (hit (omega arith)) in
        record {
          inside = lt;
          salary_at = refl;
          index_at = refl;
          same_max = refl;
          views = λ q. elim (Bool-cases (is_zero (strcmp name q))) [
            | inl e ↦
                let e' : q ≡ name = sym ((law.same name q).0 e) in
                let on : ltb i s.n ≡ true = ground arith in rw (e, e', view, on) refl
            | inr ne ↦ rw ne refl
          ];
          only = λ q at.
              let (_, _, there) = find_person-bounds strcmp s.employ q s.n 0 in
              let found : is_zero (strcmp (s.employ i).name q) ≡ true =
                subst (λ j. is_zero (strcmp (s.employ j).name q) ≡ true) at
                  (there (omega (arith, at))) in
              subst (λ x. is_zero (strcmp x q) ≡ true) mine found;
        }

    -- the table with a new person at the end
    abbrev pub extended : SalaryManage Name Money
    extended = record s {
      employ = update s.employ s.n (record { salary = nought; name = name });
      n = s.n + 1;
    }

    find-extended :
        (q : Name)
        → let r = find_person strcmp s.employ q s.n 0 in
          find_person strcmp extended.employ q extended.n 0
          ≡ (if ltb r s.n then r else (if is_zero (strcmp name q) then s.n else s.n + 1))
    find-extended q =
        let here : (s.n == s.n) ≡ true = ground arith in
        let old =
          find_person-frame strcmp s.employ extended.employ q s.n 0
            (λ j lt. let off : (j == s.n) ≡ false = ground arith in rw off refl) in
        let snoc = find_person-snoc strcmp extended.employ q s.n 0 s.n (omega arith) in
        rw add-one (snoc ∙ rw (old, here) refl)

    module _ (end : s.n ≤ find_person strcmp s.employ name s.n 0) where
      absent : ltb (find_person strcmp s.employ name s.n 0) s.n ≡ false
      absent = ground arith

      -- A name that the table has is not the new one.
      other :
          (q : Name)
          → ltb (find_person strcmp s.employ q s.n 0) s.n ≡ true
          → is_zero (strcmp name q) ≡ false
      other q lt = elim (Bool-cases (is_zero (strcmp name q))) [
        | inl e ↦
            let e' : q ≡ name = sym ((law.same name q).0 e) in
            let no : false ≡ true = sym absent ∙ rw (← e') lt in cc
        | inr ne ↦ ne
      ]

      new-views :
          (q : Name) → view extended q ≡ (if is_zero (strcmp name q) then some nought else view s q)
      unfolding view
      new-views q =
          let r = find_person strcmp s.employ q s.n 0 in
          elim (Bool-cases (ltb r s.n)) [
            | inl lt ↦
                let inside : ltb r (s.n + 1) ≡ true = ground arith in
                let off : (r == s.n) ≡ false = ground arith in
                rw (view, find-extended q, lt, inside, off, other q lt) refl
            | inr ge ↦ elim (Bool-cases (is_zero (strcmp name q))) [
              | inl e ↦
                  let here : (s.n == s.n) ≡ true = ground arith in
                  let inside : ltb s.n (s.n + 1) ≡ true = ground arith in
                  rw (view, find-extended q, ge, e, inside, here) refl
              | inr ne ↦
                  let outside : ltb (s.n + 1) (s.n + 1) ≡ false = ground arith in
                  rw (view, find-extended q, ge, ne, outside) refl
            ]
          ]

      pub new-Found : Found s name nought s.n extended
      new-Found =
          let own : is_zero (strcmp name name) ≡ true = (law.same name name).1 refl in
          let here : (s.n == s.n) ≡ true = ground arith in
          record {
            inside = omega arith;
            salary_at = rw here refl;
            index_at = find-extended name ∙ rw (absent, own) refl;
            same_max = refl;
            views = new-views;
            only = λ q at. elim (Bool-cases (is_zero (strcmp name q))) [
              | inl e ↦ e
              | inr ne ↦
                  let k = sym at ∙ find-extended q in
                  let t = rw ne at k in absurd (ground (arith, t))
            ];
          }

-- ===== src/Salary.antt =====
-- `SalaryManage` of CPlusPlusThings/practical_exercises/bracket_overloading.cpp: a table of people
-- that its subscript operator searches and extends. A name is what strcmp compares, and the numbers
-- of type double are left open: `nought` is 0.
pub mod Find
pub mod Found
pub mod Table
pub mod Lines
pub mod Shown
pub mod Main
mod Tests
use everyday_coding.Base.{
  ℕ, zero, suc, ◌+◌, Bool, true, false, Option, none, some, List, [], ◌∷◌, ltb, leb, ◌==◌,
  if◌then◌else◌, update, ◌>>=◌,
}
use everyday_coding.Base.Int.{ℤ, pos, negsuc}

-- x == 0
abbrev pub is_zero : ℤ → Bool
is_zero (pos zero) = true
is_zero _ = false

pub record Person {ℓ} (Name Money : Type ℓ) : Type ℓ where
  pub salary : Money
  pub name : Name

-- `employ` is what the array of `max` people holds.
pub record SalaryManage {ℓ} (Name Money : Type ℓ) : Type ℓ where
  pub employ : ℕ → Person Name Money
  pub max : ℕ
  pub n : ℕ

-- the constructor, with what the new array holds
abbrev pub salary_manage {ℓ} :
    {Name Money : Type ℓ} → (ℕ → Person Name Money) → ℕ → SalaryManage Name Money
salary_manage garbage max = record { employ = garbage; max = max; n = 0 }

-- The loop of display, with the people that are left: a line is a name and a salary.
pub lines_from {ℓ} : {Name Money : Type ℓ} → (ℕ → Person Name Money) → ℕ → ℕ → List (Name × Money)
lines_from employ zero i = []
lines_from employ (suc k) i = ((employ i).name, (employ i).salary) ∷ lines_from employ k (i + 1)

abbrev pub display {ℓ} : {Name Money : Type ℓ} → SalaryManage Name Money → List (Name × Money)
display s = lines_from s.employ s.n 0

module _ {ℓ} {Name Money : Type ℓ} (strcmp : Name → Name → ℤ) where
  -- The loop of the subscript operator, with the people that are left: the index of the person with
  -- the name, or the end.
  pub find_person : (ℕ → Person Name Money) → Name → ℕ → ℕ → ℕ
  find_person employ name zero i = i
  find_person employ name (suc k) i =
      if is_zero (strcmp (employ i).name name) then i else find_person employ name k (i + 1)

  -- The subscript operator: the index of the person whose salary it refers to. It does not look
  -- at `max`; `none` is a write behind the array.
  pub subscript :
      (nought : Money) → SalaryManage Name Money → Name → Option (ℕ × SalaryManage Name Money)
  unfolding find_person
  subscript nought s name =
      let i = find_person s.employ name s.n 0 in
      if ltb i s.n
      then some (i, s)
      else (if leb s.max s.n
          then none
          else some (
            s.n,
            record s {
              employ = update s.employ s.n (record { salary = nought; name = name });
              n = s.n + 1;
            },
          ))

  -- s[name] = money
  unfoldable pub assign :
      (nought : Money) → SalaryManage Name Money → Name → Money → Option (SalaryManage Name Money)
  unfolding subscript
  assign nought s name money = elim (subscript nought s name) [
    | none ↦ none
    | some (i, s') ↦
        some (record s' { employ = update s'.employ i (record (s'.employ i) { salary = money }) })
  ]

  -- main, with its names and salaries: the lines that it prints.
  unfoldable pub main :
      (nought : Money) (garbage : ℕ → Person Name Money) (a b c : Name) (x y z : Money)
      → Option (List (Name × Money))
  unfolding assign subscript
  main nought garbage a b c x y z = do
    s1 ← assign nought (salary_manage garbage 3) a x
    s2 ← assign nought s1 b y
    s3 ← assign nought s2 c z
    (i, s4) ← subscript nought s3 a
    (j, s5) ← subscript nought s4 b
    (k, s6) ← subscript nought s5 c
    let first : Name × Money = (a, (s4.employ i).salary)
    let second : Name × Money = (b, (s5.employ j).salary)
    let third : Name × Money = (c, (s6.employ k).salary)
    some (first ∷ second ∷ third ∷ display s6)

-- ===== src/Ctrl/Waiting.antt =====
-- A list of tmrProcessList in ttimer/tdengine_old.c: the timers that are due, and those that wait.
use mathlib.Core.Path.{fun_ext}
use everyday_coding.Base.{
  ℕ, ◌≡◌, refl, sym, ap, ◌∙◌, inl, inr, Bool, true, false, List, [], ◌∷◌, ◌++◌, arith, ◌==◌,
  if◌then◌else◌, update, has, Bool-cases,
}
use everyday_coding.Base.Int.{pos, ltb_ℤ}
use everyday_coding.Ctrl.Memory.{TmrObj, Mem}
use everyday_coding.Ctrl.Relink.{SameTimer}
use everyday_coding.Ctrl.Decrement.{stepped}
use everyday_coding.Ctrl.Invariant.{Inv}
use everyday_coding.Ctrl.{Ctrl, Fired, fires}

abbrev pub is_waiting : TmrObj → Bool
is_waiting o = ltb_ℤ (pos 0) o.cycle

-- The timers at the front of a list whose cycle is used up, and those from the first other one on.
unfoldable pub due_now : Mem → List ℕ → List ℕ
due_now m [] = []
due_now m (x ∷ xs) = if is_waiting (m x) then [] else x ∷ due_now m xs

unfoldable pub waiting : Mem → List ℕ → List ℕ
waiting m [] = []
waiting m (x ∷ xs) = if is_waiting (m x) then x ∷ xs else waiting m xs

-- The callbacks of some timers, in order.
unfoldable pub calls : Mem → List ℕ → List Fired
calls m [] = []
calls m (x ∷ xs) = fires (m x) x ++ calls m xs

-- What tmrProcessList has done to the list `i`, which held `zs`.
pub record Processed (c : Ctrl) (content : ℕ → List ℕ) (i : ℕ) (zs : List ℕ) (c' : Ctrl)
    : Type 0 where
  pub inv : Inv c' (update content i (waiting c.mem zs))
  pub kept : (q : ℕ) → has q (waiting c.mem zs) ≡ true → SameTimer (stepped (c.mem q)) (c'.mem q)
  pub others : (q : ℕ) → has q zs ≡ false → SameTimer (c.mem q) (c'.mem q)
  pub periods : c'.num_of_periods ≡ c.num_of_periods
  pub now : c'.periods_from_start ≡ c.periods_from_start

pub update_same {ℓ} : {A : Type ℓ} (f : ℕ → A) (i : ℕ) → update f i (f i) ≡ f
update_same f i = fun_ext λ j. elim (Bool-cases (j == i)) [
  | inl e ↦ let q : j ≡ i = ground arith in let t : (i == i) ≡ true = ground arith in rw (q, t)
  | inr ne ↦ rw ne
]

pub update_twice {ℓ} :
    {A : Type ℓ} (f : ℕ → A) (i : ℕ) (a b : A) → update (update f i a) i b ≡ update f i b
update_twice f i a b = fun_ext λ j. elim (Bool-cases (j == i)) [ inl e ↦ rw e | inr ne ↦ rw ne ]

-- The timers of a list whose memory did not change are the same ones.
module _ (m g : Mem) where
  pub same_due :
      (xs : List ℕ)
      → ((q : ℕ) → has q xs ≡ true → SameTimer (m q) (g q))
      → (due_now g xs ≡ due_now m xs)
        × (waiting g xs ≡ waiting m xs)
        × (calls g (due_now g xs) ≡ calls m (due_now m xs))
  unfolding due_now waiting calls
  same_due [] same = (refl, refl, refl)
  same_due (x ∷ xs) same =
      let (d, w, f) = same_due xs (λ q h. same q (ground arith)) in
      let (cy, _, _, fp, param) = same x (ground arith) in
      elim (Bool-cases (is_waiting (m x))) [
        | inl e ↦ rw (cy, e) (refl, refl, refl)
        | inr e ↦
            rw (cy, e, d, w)
              (refl, refl, rw (fp, param) (ap (λ l. fires (m x) x ++ l) (ap (calls g) (sym d) ∙ f)))
      ]

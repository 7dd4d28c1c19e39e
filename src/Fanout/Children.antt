-- ===== src/Fanout/Children.antt =====
-- The processes of packet_mmap.c.
use everyday_coding.Base.{
  ℕ, zero, suc, ◌+◌, ◌≤◌, ◌<◌, ◌≡◌, ◌⊎◌, inl, inr, refl, some, [], ◌∷◌, arith, eq-cases,
}
use everyday_coding.Base.Int.{pos}
use everyday_coding.CString.{Str}
use everyday_coding.Fanout.{
  Process, Answers, exit_failure, fanout_thread, Fork, child, parent, failed, Ending, in_child,
  finished, fanout_type, fork_all, main,
}

-- The calls of fork from `i` to `j - 1` return to the parent.
abbrev pub Parents : (ℕ → Fork) → ℕ → ℕ → Type 0
Parents fork i j = (n : ℕ) → i ≤ n → n < j → fork n ≡ parent

-- The process leaves the loop in round `j`: as a child, which runs fanout_thread, or because fork
-- fails, and then main ends with status 1 without waiting for the `j` children.
abbrev pub LeavesIn : Answers → (ℕ → Fork) → Process → ℕ → Ending → Type 0
LeavesIn a fork s j r =
    ((fork j ≡ child) × (r ≡ in_child j (fanout_thread a s)))
    ⊎ ((fork j ≡ failed) × (r ≡ finished exit_failure j 0))

-- The loop runs through, and main waits four times; or it is left in some round.
abbrev pub Ends : Answers → (ℕ → Fork) → Process → (left i : ℕ) → Ending → Type 0
Ends a fork s left i r =
    (Parents fork i (i + left) × (r ≡ finished (pos 0) (i + left) 4))
    ⊎ ((j : ℕ) × (i ≤ j) × (j < i + left) × Parents fork i j × LeavesIn a fork s j r)

Fork-cases : (f : Fork) → (f ≡ child) ⊎ ((f ≡ parent) ⊎ (f ≡ failed))
Fork-cases child = inl refl
Fork-cases parent = inr (inl refl)
Fork-cases failed = inr (inr refl)

module _ (a : Answers) (fork : ℕ → Fork) (s : Process) where
  none_before : (i : ℕ) → Parents fork i i
  none_before i n ge lt = absurd (omega arith)

  one_before : (i j : ℕ) → fork i ≡ parent → Parents fork (i + 1) j → Parents fork i j
  one_before i j now later n ge lt = elim (eq-cases n i) [
    | inl e ↦ rw e now
    | inr ne ↦ later n (ground (arith, ne)) lt
  ]

  fork_all-Ends : (left i : ℕ) → Ends a fork s left i (fork_all a fork s left i)
  unfolding fork_all
  fork_all-Ends zero i = let e : i + 0 ≡ i = omega arith in rw e (inl (none_before i, refl))
  fork_all-Ends (suc left) i = elim (Fork-cases (fork i)) [
    | inl now ↦ rw now (inr (i, omega arith, omega arith, none_before i, inl (now, refl)))
    | inr (inr now) ↦ rw now (inr (i, omega arith, omega arith, none_before i, inr (now, refl)))
    | inr (inl now) ↦
        let e : i + suc left ≡ i + 1 + left = omega arith in
        rw (now, e)
          (elim (fork_all-Ends left (i + 1)) [
            | inl (all, r) ↦ inl (one_before i (i + 1 + left) now all, r)
            | inr (j, ge, lt, before, r) ↦
                inr (j, omega (arith, ge), lt, one_before i j now before, r)
          ])
  ]

  -- With two arguments of which the second is "hash" or "lb", main forks four times and waits four times
  -- and ends with status 0; or a fork makes it the child, which runs fanout_thread and ends with it;
  -- or a fork fails, and it ends with status 1 without waiting for the children that there are.
  pub main-Ends :
      (program interface argument : Str) (type : ℕ)
      → fanout_type argument ≡ some type
      → Ends a fork s 4 0 (main a fork s (program ∷ interface ∷ argument ∷ []))
  unfolding main
  main-Ends program interface argument type e = rw e (fork_all-Ends 4 0)

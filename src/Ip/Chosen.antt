-- ===== src/Ip/Chosen.antt =====
-- Which address obtain_container_ip returns, when what a command prints does not depend on what ran
-- before it.

use everyday_coding.Base.{
  ℕ, ◌≡◌, refl, ap, ◌∙◌, Bool, false, not, ◌&&◌, Option, none, some, List, [], ◌∷◌, if◌then◌else◌,
  Bool-cases, inl, inr,
}
use everyday_coding.Base.Int.{ℤ}
use everyday_coding.CString.{Str, is_empty, fgets, cut_line}
use everyday_coding.Os.{
  Os, Kernel, net, Action, pure, close_stream, ◌>>◌, answer_stream, ◌>>=◌, malloc,
}
use everyday_coding.Netns.{enter_ns}
use everyday_coding.Ip.{
  is_valid_ip, commands, after_popen, try_commands, after_netns, obtain_container_ip,
}

-- Running a command gives its output, whatever happened before; `none` is a failure of popen.
pub record IsStable (k : Kernel) (prints : Str → Option Str) : Type 0 where
  pub runs : (s : Os) (command : Str) → k.popen_answer s command ≡ prints command

-- the first line of an output, as far as it fits in the buffer
abbrev pub first_line : Option Str → Str
first_line none = []
first_line (some output) = cut_line (fgets [] 16 output)

module _ (inet_pton : Str → ℤ) (prints : Str → Option Str) where
  -- The command prints a line that is an address and not one of 127.
  abbrev pub accepted : Option Str → Bool
  accepted none = false
  accepted (some output) =
      not (is_empty (fgets [] 16 output)) && is_valid_ip inet_pton (cut_line (fgets [] 16 output))

  -- The first accepted line, and else the line of the last command.
  abbrev pub chosen : Str → List Str → Str
  chosen last [] = last
  chosen last (c ∷ cs) =
      let rest = chosen (first_line (prints c)) cs in
      if accepted (prints c) then first_line (prints c) else rest

  module _ (k : Kernel) (next : Str → Action Str) (rest : Str → Str)
      (same : (b : Str) (t : Os) → (next b t).0 ≡ rest b) where
    by_line :
        (b : Str) (t : Os)
        → ((if is_empty b
              then close_stream >> next []
              else (if is_valid_ip inet_pton (cut_line b)
                  then close_stream >> pure (cut_line b)
                  else close_stream >> next (cut_line b)))
            t).0
          ≡ (if not (is_empty b) && is_valid_ip inet_pton (cut_line b)
              then cut_line b
              else rest (cut_line b))
    by_line [] t = same [] (close_stream t).1
    by_line (x ∷ b) t = elim (Bool-cases (is_valid_ip inet_pton (cut_line (x ∷ b)))) [
      | inl valid ↦ rw valid refl
      | inr other ↦ rw other (same (cut_line (x ∷ b)) (close_stream t).1)
    ]

    by_output :
        (o : Option Str) (s : Os)
        → ((answer_stream o >>= after_popen inet_pton k next) s).0
          ≡ (if accepted o then first_line o else rest (first_line o))
    by_output none s = same [] (answer_stream none s).1
    by_output (some output) s = by_line (fgets [] 16 output) (answer_stream (some output) s).1

  module _ (k : Kernel) (law : IsStable k prints) where
    try_lem :
        (cs : List Str) (buffer : Str) (s : Os)
        → (try_commands inet_pton k cs buffer s).0 ≡ chosen buffer cs
    unfolding try_commands
    try_lem [] buffer s = refl
    try_lem (c ∷ cs) buffer s =
        ap (λ o. ((answer_stream o >>= after_popen inet_pton k (try_commands inet_pton k cs)) s).0)
          (law.runs s c)
        ∙ by_output k (try_commands inet_pton k cs) (λ b. chosen b cs) (try_lem cs) (prints c) s

    by_netns :
        (cur : ℕ) (s : Os)
        → (after_netns inet_pton k (some cur) s).0
          ≡ (let ip = chosen [] commands in if is_empty ip then none else some ip)
    by_netns cur s =
        ap (λ ip. if is_empty ip then none else some ip) (try_lem commands [] (malloc s).1)

    -- When the switch to the network namespace succeeds, and what a command prints does not depend on
    -- what ran before it, obtain_container_ip looks at the first line that each of the three
    -- commands prints, cut to its first 15 bytes. It returns the first of these that inet_pton takes
    -- for an address and that is not one of 127; without one it returns that of the third command,
    -- and NULL only if that is empty.
    pub obtain_container_ip-chosen :
        (netns : Str) (s s' : Os) (cur : ℕ)
        → enter_ns k net netns s ≡ (some cur, s')
        → (obtain_container_ip inet_pton k netns s).0
          ≡ (let ip = chosen [] commands in if is_empty ip then none else some ip)
    unfolding obtain_container_ip
    obtain_container_ip-chosen netns s s' cur e =
        ap (λ p. (after_netns inet_pton k p.0 p.1).0) e ∙ by_netns cur s'

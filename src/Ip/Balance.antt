-- ===== src/Ip/Balance.antt =====
-- What obtain_container_ip leaves open.
use everyday_coding.Base.{
  ℕ, suc, ◌≡◌, refl, Option, none, some, List, [], ◌∷◌, if◌then◌else◌, Bool-cases, inl, inr, arith,
}
use everyday_coding.Base.Int.{ℤ}
use everyday_coding.CString.{Str, is_empty, fgets, cut_line}
use everyday_coding.Os.{
  Os, Kernel, Action, net, answer_stream, ◌>>=◌, ◌>>◌, close_stream, pure, malloc,
}
use everyday_coding.Os.Laws.{IsFresh}
use everyday_coding.Netns.{enter_ns}
use everyday_coding.Netns.Even.{
  IsEven, IsEven-trans, IsEven-of_counts, IsBalanced, restored_lem, refused_lem,
}
use everyday_coding.Ip.{
  is_valid_ip, commands, after_popen, try_commands, after_netns, obtain_container_ip,
}

-- The end of a stream that was open besides those of `s`.
closing : (s t : Os) → IsEven (record s { streams = suc s.streams }) t → IsEven s (close_stream t).1
closing s t e = record {
  quiet = record {
    fds_kept = e.quiet.fds_kept;
    refers_kept = e.quiet.refers_kept;
    net_kept = e.quiet.net_kept;
    mnt_kept = e.quiet.mnt_kept;
  };
  streams_kept = omega (arith, e.streams_kept);
  dirs_kept = e.dirs_kept;
}

module _ (inet_pton : Str → ℤ) (k : Kernel) where
  module _ (next : Str → Action Str) (even : (b : Str) (t : Os) → IsEven t (next b t).1) where
    line_by :
        (b : Str) (s t : Os)
        → IsEven (record s { streams = suc s.streams }) t
        → IsEven s
            ((if is_empty b
                then close_stream >> next []
                else (if is_valid_ip inet_pton (cut_line b)
                    then close_stream >> pure (cut_line b)
                    else close_stream >> next (cut_line b)))
              t).1
    line_by [] s t e = IsEven-trans (closing s t e) (even [] _)
    line_by (x ∷ b) s t e = elim (Bool-cases (is_valid_ip inet_pton (cut_line (x ∷ b)))) [
      | inl valid ↦ rw valid (closing s t e)
      | inr other ↦ rw other (IsEven-trans (closing s t e) (even (cut_line (x ∷ b)) _))
    ]

    output_by :
        (o : Option Str) (s : Os)
        → IsEven s ((answer_stream o >>= after_popen inet_pton k next) s).1
    output_by none s = IsEven-trans (IsEven-of_counts refl refl) (even [] _)
    output_by (some output) s = line_by (fgets [] 16 output) s _ (IsEven-of_counts refl refl)

  try_commands-IsEven :
      (cs : List Str) (buffer : Str) (s : Os) → IsEven s (try_commands inet_pton k cs buffer s).1
  unfolding try_commands
  try_commands-IsEven [] buffer s = IsEven-of_counts refl refl
  try_commands-IsEven (c ∷ cs) buffer s =
      output_by (try_commands inet_pton k cs) (try_commands-IsEven cs) (k.popen_answer s c) s

  module _ (law : IsFresh k) (netns : Str) (s : Os) where
    netns_by :
        (p : Option ℕ × Os)
        → enter_ns k net netns s ≡ p
        → IsBalanced s (after_netns inet_pton k p.0 p.1).1
    netns_by (none, s') e = refused_lem k law net netns s s' e
    netns_by (some cur, s') e =
        let (b, t) = try_commands inet_pton k commands [] (malloc s').1 in
        restored_lem k law net netns s cur s' e t (
          IsEven-trans (IsEven-of_counts refl refl) (try_commands-IsEven commands [] (malloc s').1))

    -- Where open returns a descriptor that is not open, obtain_container_ip leaves the descriptors, and
    -- as many streams, as it found, whichever calls fail.
    pub obtain_container_ip-IsBalanced : IsBalanced s (obtain_container_ip inet_pton k netns s).1
    unfolding obtain_container_ip
    obtain_container_ip-IsBalanced = netns_by (enter_ns k net netns s) refl

-- ===== src/Netns/Even.antt =====
-- Descriptors, streams and directories before and after a part of a program that switches namespaces.
use mathlib.Core.Path.{subst}
use everyday_coding.Base.{ℕ, ◌≡◌, refl, ◌∙◌, none, some}
use everyday_coding.CString.{Str}
use everyday_coding.Os.{Os, Kernel, Kind}
use everyday_coding.Os.Laws.{IsFresh}
use everyday_coding.Netns.{enter_ns, restore_ns}
use everyday_coding.Netns.Switch.{HasEntered, enter_ns-HasEntered}
use everyday_coding.Netns.Restore.{IsQuiet, IsQuiet-trans, restore_ns-enter_ns}

-- As many streams and directories are open as before, and descriptors and namespaces are the same.
pub record IsEven (s t : Os) : Type 0 where
  pub quiet : IsQuiet s t
  pub streams_kept : t.streams ≡ s.streams
  pub dirs_kept : t.dirs ≡ s.dirs

pub IsEven-trans : {s t u : Os} → IsEven s t → IsEven t u → IsEven s u
IsEven-trans p q = record {
  quiet = IsQuiet-trans p.quiet q.quiet;
  streams_kept = q.streams_kept ∙ p.streams_kept;
  dirs_kept = q.dirs_kept ∙ p.dirs_kept;
}

pub IsEven-of_counts :
    {s : Os} {streams dirs blocks calls : ℕ}
    → streams ≡ s.streams
    → dirs ≡ s.dirs
    → IsEven s (record s { streams = streams; dirs = dirs; blocks = blocks; calls = calls })
IsEven-of_counts e f = record {
  quiet = record { fds_kept = refl; refers_kept = refl; net_kept = refl; mnt_kept = refl };
  streams_kept = e;
  dirs_kept = f;
}

-- The same descriptors, and as many streams and directories, are open as before.
pub record IsBalanced (s t : Os) : Type 0 where
  pub fds_kept : t.fds ≡ s.fds
  pub streams_kept : t.streams ≡ s.streams
  pub dirs_kept : t.dirs ≡ s.dirs

pub IsBalanced-IsEven : {s t u : Os} → IsBalanced s t → IsEven t u → IsBalanced s u
IsBalanced-IsEven p q = record {
  fds_kept = q.quiet.fds_kept ∙ p.fds_kept;
  streams_kept = q.streams_kept ∙ p.streams_kept;
  dirs_kept = q.dirs_kept ∙ p.dirs_kept;
}

module _ (k : Kernel) (law : IsFresh k) where
  -- There and back with calls between the switches that leave things even.
  pub restored_lem :
      (kind : Kind) (ns : Str) (s : Os) (cur : ℕ) (s' : Os)
      → enter_ns k kind ns s ≡ (some cur, s')
      → (s'' : Os) → IsEven s' s''
      → IsBalanced s (restore_ns k kind cur s'').1
  restored_lem kind ns s cur s' e s'' even =
      let (there, back, new) =
        subst (HasEntered kind ns s) e (enter_ns-HasEntered k law kind ns s) in
      let r = restore_ns-enter_ns k law kind ns s cur s' e s'' even.quiet in
      record {
        fds_kept = r.open_fds;
        streams_kept = r.streams_kept ∙ even.streams_kept ∙ there.streams_kept;
        dirs_kept = r.dirs_kept ∙ even.dirs_kept ∙ there.dirs_kept;
      }

  pub refused_lem :
      (kind : Kind) (ns : Str) (s s' : Os) → enter_ns k kind ns s ≡ (none, s') → IsBalanced s s'
  refused_lem kind ns s s' e =
      let h = subst (HasEntered kind ns s) e (enter_ns-HasEntered k law kind ns s) in
      record { fds_kept = h.open_fds; streams_kept = h.streams_kept; dirs_kept = h.dirs_kept }

-- ===== src/Veth/Balance.antt =====
-- What obtain_container_veth leaves of descriptors, streams and directories.

use everyday_coding.Base.{
  ℕ, suc, ◌-◌, ◌≡◌, inl, inr, refl, ap, ◌∙◌, Bool, Option, none, some, List, [], ◌∷◌, ◌++◌, arith,
  leb, length, Bool-cases,
}
use everyday_coding.Base.Int.{ℤ}
use everyday_coding.CString.{Str, bytes, is_empty, starts_with_dot}
use everyday_coding.Os.{Os, Kernel, net, answer_stream, answer_opendir, ◌>>=◌, malloc}
use everyday_coding.Os.Laws.{IsFresh}
use everyday_coding.Netns.{enter_ns}
use everyday_coding.Netns.Even.{
  IsEven, IsEven-trans, IsEven-of_counts, IsBalanced, restored_lem, refused_lem,
}
use everyday_coding.Veth.{
  same_ℤ, read_iflink_or_ifindex_file, after_fopen, search, find_nic, after_opendir, after_search,
  after_popen, after_command, after_netns, obtain_veth_with_netns,
}

pop : (n : ℕ) → suc n - 1 ≡ n
pop n = omega arith

-- a result that is not undefined behaviour, with a state
abbrev pub Defined : {A : Type 0} → (A → Os → Type 0) → Option A × Os → Type 0
Defined P (none, t) = Unit {0}
Defined P (some a, t) = P a t

module _ (k : Kernel) (garbage : Str) where
  read_by : (o : Option Str) (s : Os) → IsEven s ((answer_stream o >>= after_fopen k garbage) s).1
  read_by none s = IsEven-of_counts refl refl
  read_by (some text) s = IsEven-of_counts (pop s.streams) refl

  pub read-IsEven :
      (path : Str) (s : Os) → IsEven s (read_iflink_or_ifindex_file k garbage path s).1
  unfolding read_iflink_or_ifindex_file
  read-IsEven path s = read_by (k.fopen_answer s path) s

  search-IsEven :
      (iflink : ℤ) (entries : List Str) (s : Os) → IsEven s (search k garbage iflink entries s).1
  unfolding search
  search-IsEven iflink [] s = IsEven-of_counts refl refl
  search-IsEven iflink (d ∷ ds) s = elim (Bool-cases (starts_with_dot d)) [
    | inl dot ↦ rw dot (search-IsEven iflink ds s)
    | inr plain ↦ elim (Bool-cases (leb 233 (length d))) [
      | inl long ↦ rw (plain, long) (IsEven-of_counts refl refl)
      | inr short ↦
          let path = bytes "/sys/class/net/" ++ d ++ bytes "/ifindex" in
          let (v, t) = read_iflink_or_ifindex_file k garbage path s in
          elim (Bool-cases (same_ℤ iflink v)) [
            | inl same ↦ rw (plain, short, same) (read-IsEven path s)
            | inr differ ↦
                rw (plain, short, differ)
                  (IsEven-trans (read-IsEven path s) (search-IsEven iflink ds t))
          ]
    ]
  ]

  closed_by :
      (r : Option Str) {s t : Os}
      → IsEven (record s { dirs = suc s.dirs }) t
      → Defined (λ _. IsEven s) (after_search k garbage r t)
  closed_by none e = tt
  closed_by (some nic) {s} e = record {
    quiet = record {
      fds_kept = e.quiet.fds_kept;
      refers_kept = e.quiet.refers_kept;
      net_kept = e.quiet.net_kept;
      mnt_kept = e.quiet.mnt_kept;
    };
    streams_kept = e.streams_kept;
    dirs_kept = ap (λ n. n - 1) e.dirs_kept ∙ pop s.dirs;
  }

  found_by :
      (iflink : ℤ) (o : Option (List Str)) (s : Os)
      → Defined (λ _. IsEven s) ((answer_opendir o >>= after_opendir k garbage iflink) s)
  found_by iflink none s = IsEven-of_counts refl refl
  found_by iflink (some entries) s =
      let t = (malloc (answer_opendir (some entries) s).1).1 in
      closed_by (search k garbage iflink entries t).0
        (IsEven-trans (IsEven-of_counts refl refl) (search-IsEven iflink entries t))

  pub find_nic-IsEven :
      (iflink : ℤ) (s : Os) → Defined (λ _. IsEven s) (find_nic k garbage iflink s)
  unfolding find_nic
  find_nic-IsEven iflink s = found_by iflink (k.opendir_answer s (bytes "/sys/class/net")) s

module _ (k : Kernel) (law : IsFresh k) (garbage : Str) (start : Bool) where
  command_by :
      (o : Option Str) (s : Os) → IsEven s ((answer_stream o >>= after_popen k garbage start) s).1
  command_by none s = IsEven-of_counts refl refl
  command_by (some output) s = IsEven-of_counts (pop s.streams) refl

  module _ (netns : Str) (s : Os) where
    settle_by :
        (cur : ℕ) (s' : Os)
        → enter_ns k net netns s ≡ (some cur, s')
        → (r : Option ℤ) (s'' : Os) → IsEven s' s''
        → Defined (λ _. IsBalanced s) (after_command k garbage start cur r s'')
    settle_by cur s' e none s'' even = tt
    settle_by cur s' e (some r) s'' even = restored_lem k law net netns s cur s' e s'' even

    show_by :
        (p : Option ℕ × Os)
        → enter_ns k net netns s ≡ p
        → Defined (λ _. IsBalanced s) (after_netns k garbage start p.0 p.1)
    show_by (none, s') e = refused_lem k law net netns s s' e
    show_by (some cur, s') e =
        let u = (malloc s').1 in
        let run =
          (answer_stream
                (k.popen_answer u (bytes "ip link show eth0 | grep eth0 | awk '{print $2}'"))
              >>= after_popen k garbage start)
            u in
        settle_by cur s' e run.0 run.1 (IsEven-trans (IsEven-of_counts refl refl) (command_by _ u))

  pub obtain_veth-IsBalanced :
      (netns : Option Str) (s : Os)
      → Defined (λ _. IsBalanced s) (obtain_veth_with_netns k garbage start netns s)
  unfolding obtain_veth_with_netns
  obtain_veth-IsBalanced none s = record { fds_kept = refl; streams_kept = refl; dirs_kept = refl }
  obtain_veth-IsBalanced (some netns) s = elim (Bool-cases (is_empty netns)) [
    | inl empty ↦ rw empty (record { fds_kept = refl; streams_kept = refl; dirs_kept = refl })
    | inr given ↦ rw given (show_by netns s (enter_ns k net netns s) refl)
  ]

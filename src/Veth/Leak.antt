-- ===== src/Veth/Leak.antt =====
-- What obtain_container_veth leaves open when it returns.
use mathlib.Core.Path.{subst}
use everyday_coding.Base.{
  ℕ, ◌≡◌, ◌⊎◌, inl, inr, refl, ap, ◌∙◌, Bool, false, Option, none, some, ◌∷◌, if◌then◌else◌,
  Bool-cases,
}
use everyday_coding.Base.Int.{ℤ, pos, negsuc, ltb_ℤ}
use everyday_coding.CString.{Str, bytes}
use everyday_coding.Os.{Os, Kernel, mnt, names, pure, ◌>>◌}
use everyday_coding.Os.Laws.{IsFresh}
use everyday_coding.Netns.{enter_ns, restore_mntns}
use everyday_coding.Netns.Switch.{HasEntered, enter_ns-HasEntered}
use everyday_coding.Veth.{
  same_ℤ, read_iflink_or_ifindex_file, find_nic, obtain_veth_with_netns, after_iflink, after_mntns,
  after_veth, obtain_container_veth,
}
use everyday_coding.Netns.Even.{IsEven, IsBalanced, IsBalanced-IsEven, restored_lem, refused_lem}
use everyday_coding.Veth.Balance.{Defined, read-IsEven, find_nic-IsEven, obtain_veth-IsBalanced}

IsBalanced-trans : {s t u : Os} → IsBalanced s t → IsBalanced t u → IsBalanced s u
IsBalanced-trans p q = record {
  fds_kept = q.fds_kept ∙ p.fds_kept;
  streams_kept = q.streams_kept ∙ p.streams_kept;
  dirs_kept = q.dirs_kept ∙ p.dirs_kept;
}

-- What obtain_container_veth leaves. `some none` is a NULL that it returns.
abbrev pub Leaves : Os → Option (Option Str) × Os → Type 0
Leaves s (none, t) = Unit {0}
Leaves s (some (some nic), t) = IsBalanced s t
Leaves s (some none, t) =
    IsBalanced s t ⊎ ((cur : ℕ) × IsBalanced (record s { fds = cur ∷ s.fds }) t)

Leaves-IsEven :
    {s t : Os} (p : Option (Option Str) × Os)
    → IsBalanced s t
    → Defined (λ _. IsEven t) p
    → Leaves s p
Leaves-IsEven (none, u) b e = tt
Leaves-IsEven (some none, u) b e = inl (IsBalanced-IsEven b e)
Leaves-IsEven (some (some nic), u) b e = IsBalanced-IsEven b e

module _ (k : Kernel) (law : IsFresh k) (garbage : Str) (start : Bool) (mntns : Str) where
  module _ (s s1 : Os) (so_far : IsBalanced s s1) where
    iflink_by :
        (cur : ℕ) (s2 : Os)
        → enter_ns k mnt mntns s1 ≡ (some cur, s2)
        → (v : ℤ) (s3 : Os) → IsEven s2 s3
        → Leaves s (after_iflink k garbage start cur v s3)
    iflink_by cur s2 e v s3 even = elim (Bool-cases (ltb_ℤ (pos 0) v)) [
      | inl more ↦
          let b = restored_lem k law mnt mntns s1 cur s2 e s3 even in
          rw more (
            Leaves-IsEven (find_nic k garbage v _) (IsBalanced-trans so_far b)
              (find_nic-IsEven k garbage v _))
      | inr not_more ↦
          let (there, back, new) =
            subst (HasEntered mnt mntns s1) e (enter_ns-HasEntered k law mnt mntns s1) in
          rw not_more (
            inr (
              cur,
              record {
                fds_kept = even.quiet.fds_kept ∙ there.open_fds ∙ ap (λ l. cur ∷ l) so_far.fds_kept;
                streams_kept = even.streams_kept ∙ there.streams_kept ∙ so_far.streams_kept;
                dirs_kept = even.dirs_kept ∙ there.dirs_kept ∙ so_far.dirs_kept;
              },
            ))
    ]

    mntns_by :
        (p : Option ℕ × Os)
        → enter_ns k mnt mntns s1 ≡ p
        → Leaves s (after_mntns k garbage start p.0 p.1)
    mntns_by (none, s2) e = inl (IsBalanced-trans so_far (refused_lem k law mnt mntns s1 s2 e))
    mntns_by (some cur, s2) e =
        let path = bytes "/sys/class/net/eth0/iflink" in
        let (v, s3) = read_iflink_or_ifindex_file k garbage path s2 in
        iflink_by cur s2 e v s3 (read-IsEven k garbage path s2)

  veth_by :
      (s : Os) (p : Option ℤ × Os)
      → Defined (λ _. IsBalanced s) p
      → Leaves s (after_veth k garbage start mntns p.0 p.1)
  veth_by s (none, s1) b = tt
  veth_by s (some iflink, s1) b = elim (Bool-cases (same_ℤ (negsuc 0) iflink)) [
    | inl missing ↦ rw missing (mntns_by s s1 b (enter_ns k mnt mntns s1) refl)
    | inr there ↦
        rw there
          (Leaves-IsEven (find_nic k garbage iflink s1) b (find_nic-IsEven k garbage iflink s1))
  ]

  -- Where open returns a descriptor that is not open, obtain_container_veth leaves the descriptors, and
  -- as many streams and directories, as it found, unless it returns NULL with one more descriptor
  -- open (or writes behind an array).
  pub obtain_container_veth-Leaves :
      (netns : Option Str) (s : Os) → Leaves s (obtain_container_veth k garbage start mntns netns s)
  unfolding obtain_container_veth
  obtain_container_veth-Leaves netns s =
      veth_by s (obtain_veth_with_netns k garbage start netns s)
        (obtain_veth-IsBalanced k law garbage start netns s)

  -- Where open returns a descriptor that is not open, this is the second case: without an interface
  -- index from the network namespace, and with a number that is not positive in the container's
  -- iflink file, obtain_container_veth returns NULL while the process is still in the mount
  -- namespace of the container, and the descriptor of its own one is still open.
  pub obtain_container_veth-leak :
      (netns : Option Str) (s s1 s2 : Os) (cur : ℕ)
      → obtain_veth_with_netns k garbage start netns s ≡ (some (negsuc 0), s1)
      → enter_ns k mnt mntns s1 ≡ (some cur, s2)
      → ltb_ℤ
          (pos 0)
          (read_iflink_or_ifindex_file k garbage (bytes "/sys/class/net/eth0/iflink") s2).0
        ≡ false
      → let (r, t) = obtain_container_veth k garbage start mntns netns s in
        (r ≡ some none)
        × (t.fds ≡ cur ∷ s.fds)
        × (t.mnt_ns ≡ names s1 mntns)
        × (t.refers cur ≡ s1.mnt_ns)
  unfolding obtain_container_veth
  obtain_container_veth-leak netns s s1 s2 cur e1 e2 e3 =
      let path = bytes "/sys/class/net/eth0/iflink" in
      let (v, s3) = read_iflink_or_ifindex_file k garbage path s2 in
      let even = read-IsEven k garbage path s2 in
      let before =
        subst (Defined (λ _. IsBalanced s)) e1
          (obtain_veth-IsBalanced k law garbage start netns s) in
      let (there, back, new) =
        subst (HasEntered mnt mntns s1) e2 (enter_ns-HasEntered k law mnt mntns s1) in
      let run : obtain_container_veth k garbage start mntns netns s ≡ (some none, s3) =
        ap (λ p. after_veth k garbage start mntns p.0 p.1) e1
        ∙ ap (λ p. after_mntns k garbage start p.0 p.1) e2
        ∙ ap (λ b. (if b then restore_mntns k cur >> find_nic k garbage v else pure (some none)) s3)
            e3 in
      rw run (
        refl,
        even.quiet.fds_kept ∙ there.open_fds ∙ ap (λ l. cur ∷ l) before.fds_kept,
        even.quiet.mnt_kept ∙ there.moved,
        ap (λ f. f cur) even.quiet.refers_kept ∙ back,
      )

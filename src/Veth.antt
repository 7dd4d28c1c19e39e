-- ===== src/Veth.antt =====
-- obtain_container_ip/obtain_container_veth.cpp: the interface of the host that is the other end of
-- a container's eth0. An outer `none` is undefined behaviour: a write behind an array. `garbage` is
-- the string that the uninitialised buffer of read_iflink_or_ifindex_file holds, and `start` the
-- value of the uninitialised variable of deal_eth0_ifindex. Every malloc is taken to succeed.
pub mod Parse
pub mod Nic
pub mod Balance
pub mod Leak
mod Tests
use everyday_coding.Base.{
  ℕ, ◌==◌, Bool, true, false, not, ◌&&◌, ◌||◌, Option, none, some, List, [], ◌∷◌, ◌++◌, leb,
  if◌then◌else◌, length,
}
use everyday_coding.Base.Int.{ℤ, pos, negsuc, ltb_ℤ}
use everyday_coding.CString.{
  Str, bytes, is_empty, is_digit, fgets, cut_line, atoi, take, drop, starts_with_dot,
}
use everyday_coding.Os.{
  Kernel, Action, pure, ◌>>=◌, ◌>>◌, fopen, popen, close_stream, malloc, opendir, closedir,
}
use everyday_coding.Netns.{enter_netns, restore_netns, enter_mntns, restore_mntns}

abbrev pub same_ℤ : ℤ → ℤ → Bool
same_ℤ (pos a) (pos b) = a == b
same_ℤ (negsuc a) (negsuc b) = a == b
same_ℤ _ _ = false

-- The loop of deal_eth0_ifindex on the bytes that are left: what it has written to strVal, which has
-- 8 places.
pub scan : Str → (start end : Bool) → (val : Str) → Option Str
scan [] start end val = some val
scan (c ∷ s) start end val =
    let start' = (c == b'@') || start in
    let end' = if c == b'@' then end else (c == b':') || end in
    let taken = start' && not end' && is_digit c in
    let rest = scan s start' end' (if taken then val ++ c ∷ [] else val) in
    if taken && leb 8 (length val) then none else rest

-- The first four bytes are passed over. atoi needs a NUL behind the digits: with 8 of them it reads
-- on behind strVal. `len` is at most the number of bytes of `buffer`.
unfoldable pub deal_eth0_ifindex : (start : Bool) → (buffer : Str) → (len : ℕ) → Option ℤ
deal_eth0_ifindex start buffer len = elim (scan (drop 4 (take len buffer)) start false []) [
  | none ↦ none
  | some val ↦ if leb 8 (length val) then none else some (atoi val)
]

-- What the code makes of a first line that a file holds.
abbrev pub file_value : (garbage : Str) → Str → ℤ
file_value garbage content = atoi (cut_line (fgets garbage 256 content))

module _ (k : Kernel) (garbage : Str) where
  abbrev pub after_fopen : Option Str → Action ℤ
  after_fopen none = pure (negsuc 0)
  after_fopen (some content) = close_stream >> pure (file_value garbage content)

  unfoldable pub read_iflink_or_ifindex_file : Str → Action ℤ
  read_iflink_or_ifindex_file path = fopen k path >>= after_fopen

  -- The loop over the directory with the names that are left. ifindex_path has 256 places.
  pub search : (iflink : ℤ) → List Str → Action (Option Str)
  search iflink [] = pure (some [])
  search iflink (d ∷ ds) =
      let rest = search iflink ds in
      if starts_with_dot d
      then rest
      else (if leb 233 (length d)
          then pure none
          else read_iflink_or_ifindex_file (bytes "/sys/class/net/" ++ d ++ bytes "/ifindex")
            >>= λ ifindex. if same_ℤ iflink ifindex then pure (some d) else rest)

  -- obtain_container_veth from opendir on
  abbrev pub after_search : Option Str → Action (Option (Option Str))
  after_search none = pure none
  after_search (some nic_name) = closedir >> pure (some (some nic_name))

  abbrev pub after_opendir : (iflink : ℤ) → Option (List Str) → Action (Option (Option Str))
  after_opendir iflink none = pure (some none)
  after_opendir iflink (some entries) = malloc >> search iflink entries >>= after_search

  unfoldable pub find_nic : (iflink : ℤ) → Action (Option (Option Str))
  find_nic iflink = opendir k (bytes "/sys/class/net") >>= after_opendir iflink

module _ (k : Kernel) (garbage : Str) (start : Bool) where
  -- the round of the loop over the one command
  abbrev pub after_popen : Option Str → Action (Option ℤ)
  after_popen none = pure (some (negsuc 0))
  after_popen (some output) =
      let buffer = fgets [] 64 output in
      close_stream
      >> pure (
          if is_empty buffer
          then some (negsuc 0)
          else deal_eth0_ifindex start (cut_line buffer ++ 0 ∷ []) (length buffer))

  abbrev pub after_command : (cur_fd : ℕ) → Option ℤ → Action (Option ℤ)
  after_command cur_fd none = pure none
  after_command cur_fd (some result) = restore_netns k cur_fd >> pure (some result)

  abbrev pub after_netns : Option ℕ → Action (Option ℤ)
  after_netns none = pure (some (negsuc 0))
  after_netns (some cur_fd) =
      malloc
      >> popen k (bytes "ip link show eth0 | grep eth0 | awk '{print $2}'")
      >>= after_popen
      >>= after_command cur_fd

  -- `none` as the argument is NULL.
  unfoldable pub obtain_veth_with_netns : Option Str → Action (Option ℤ)
  obtain_veth_with_netns none = pure (some (negsuc 0))
  obtain_veth_with_netns (some netns) =
      if is_empty netns then pure (some (negsuc 0)) else enter_netns k netns >>= after_netns

  abbrev pub after_iflink : (cur_fd : ℕ) → ℤ → Action (Option (Option Str))
  after_iflink cur_fd iflink =
      if ltb_ℤ (pos 0) iflink
      then restore_mntns k cur_fd >> find_nic k garbage iflink
      else pure (some none)

  abbrev pub after_mntns : Option ℕ → Action (Option (Option Str))
  after_mntns none = pure (some none)
  after_mntns (some cur_fd) =
      read_iflink_or_ifindex_file k garbage (bytes "/sys/class/net/eth0/iflink")
      >>= after_iflink cur_fd

  abbrev pub after_veth : (mntns : Str) → Option ℤ → Action (Option (Option Str))
  after_veth mntns none = pure none
  after_veth mntns (some iflink) =
      if same_ℤ (negsuc 0) iflink
      then enter_mntns k mntns >>= after_mntns
      else find_nic k garbage iflink

  unfoldable pub obtain_container_veth : (mntns : Str) → Option Str → Action (Option (Option Str))
  obtain_container_veth mntns netns = obtain_veth_with_netns netns >>= after_veth mntns

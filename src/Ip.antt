-- ===== src/Ip.antt =====
-- obtain_container_ip/obtain_container_ip.cpp: the address of a container, from three shell commands
-- that are run in its network namespace. What inet_pton returns is an argument, and malloc is taken
-- to succeed. The switches of namespaces are those of obtain_container_veth.cpp, word for word.
pub mod Chosen
pub mod Balance
mod Tests
use everyday_coding.Base.{
  ℕ, ◌==◌, Bool, true, false, not, ◌&&◌, Option, none, some, List, [], ◌∷◌, if◌then◌else◌,
}
use everyday_coding.Base.Int.{ℤ}
use everyday_coding.CString.{Str, bytes, is_empty, fgets, cut_line}
use everyday_coding.Os.{Kernel, Action, pure, ◌>>=◌, ◌>>◌, popen, close_stream, malloc}
use everyday_coding.Netns.{enter_netns, restore_netns}
use everyday_coding.Salary.{is_zero}

abbrev pub starts_with_127 : Str → Bool
starts_with_127 (a ∷ b ∷ c ∷ s) = (a == b'1') && (b == b'2') && (c == b'7')
starts_with_127 _ = false

abbrev pub commands : List Str
commands =
    bytes "ifconfig eth0 | grep \"inet \" | awk '{print $2}'"
    ∷ bytes "ip addr show eth0 | grep -Po 'inet \\K[\\d.]+'"
    ∷ bytes "ip route | awk '/scope/ {print $9}'"
    ∷ []

module _ (inet_pton : Str → ℤ) where
  unfoldable pub is_valid_ip : Str → Bool
  is_valid_ip ip = if starts_with_127 ip then false else not (is_zero (inet_pton ip))

module _ (inet_pton : Str → ℤ) (k : Kernel) where
  -- One round of the loop from popen on; `next` is the rest of the loop, by what the buffer holds.
  abbrev pub after_popen : (next : Str → Action Str) → Option Str → Action Str
  after_popen next none = next []
  after_popen next (some output) =
      let buffer = fgets [] 16 output in
      if is_empty buffer
      then close_stream >> next []
      else (let ip = cut_line buffer in
          if is_valid_ip inet_pton ip then close_stream >> pure ip else close_stream >> next ip)

  -- the loop over the commands that are left
  pub try_commands : List Str → (buffer : Str) → Action Str
  try_commands [] buffer = pure buffer
  try_commands (command ∷ later) buffer = popen k command >>= after_popen (try_commands later)

  abbrev pub after_commands : (cur_fd : ℕ) → (buffer : Str) → Action (Option Str)
  after_commands cur_fd buffer =
      restore_netns k cur_fd >> pure (if is_empty buffer then none else some buffer)

  abbrev pub after_netns : Option ℕ → Action (Option Str)
  after_netns none = pure none
  after_netns (some cur_fd) = malloc >> try_commands commands [] >>= after_commands cur_fd

  unfoldable pub obtain_container_ip : (netns : Str) → Action (Option Str)
  obtain_container_ip netns = enter_netns k netns >>= after_netns

-- ===== src/Os/Samples.antt =====
-- Machines to run the programs of obtain_container_ip/ on.
use mathlib.Core.Path.{subst}
use everyday_coding.Base.{
  ℕ, suc, ◌+◌, ◌≤◌, ◌≡◌, refl, Bool, true, false, Option, none, some, List, [], ◌∷◌, if◌then◌else◌,
  has, arith,
}
use everyday_coding.CString.{bytes, same_bytes}
use everyday_coding.Os.{Os, Kernel}
use everyday_coding.Os.Laws.{IsFresh}

-- above every open descriptor
abbrev pub unused : List ℕ → ℕ
unused [] = 3
unused (x ∷ xs) = suc x + unused xs

above : (fd : ℕ) (fds : List ℕ) → unused fds ≤ fd → has fd fds ≡ false
above fd [] le = refl
above fd (x ∷ xs) le = ground (arith, above fd xs)

-- eth0 has the index 4 and is linked to the index 10, which is that of veth7. ifconfig is not there.
abbrev pub machine : Kernel
machine = record {
  open_answer = λ s path. some (unused s.fds);
  setns_answer = λ s fd kind. true;
  popen_answer = λ s command.
      if same_bytes command (bytes "ip link show eth0 | grep eth0 | awk '{print $2}'")
      then some (bytes "eth0@if10:\n")
      else (if same_bytes command (bytes "ip addr show eth0 | grep -Po 'inet \\K[\\d.]+'")
          then some (bytes "10.0.0.5\n")
          else none);
  fopen_answer = λ s path.
      if same_bytes path (bytes "/sys/class/net/veth7/ifindex")
      then some (bytes "10\n")
      else some (bytes "4\n");
  opendir_answer = λ s path. some (bytes "." ∷ bytes "lo" ∷ bytes "veth7" ∷ []);
}

-- As above, but the network namespace of process 5 cannot be opened, and eth0 is not linked.
abbrev pub poor_machine : Kernel
poor_machine = record machine {
  open_answer =
      λ s path. if same_bytes path (bytes "/proc/5/ns/net") then none else some (unused s.fds);
  fopen_answer = λ s path. some (bytes "0\n");
}

-- What an answer says of a descriptor that is above the open ones.
abbrev Answers : List ℕ → Option ℕ → Type 0
Answers fds none = Unit {0}
Answers fds (some fd) = unused fds ≤ fd

either : (b : Bool) (fds : List ℕ) → Answers fds (if b then none else some (unused fds))
either true fds = tt
either false fds = omega arith

pub unused-new :
    (fds : List ℕ) (fd : ℕ) → ◌≡◌ {A = Option ℕ} (some (unused fds)) (some fd) → has fd fds ≡ false
unused-new fds fd e = above fd fds (subst (Answers fds) e (either false fds))

pub machine-IsFresh : IsFresh machine
machine-IsFresh = record {
  open_fresh = λ s path fd e. above fd s.fds (subst (Answers s.fds) e (either false s.fds));
}

pub poor_machine-IsFresh : IsFresh poor_machine
poor_machine-IsFresh = record {
  open_fresh = λ s path fd e.
      above fd s.fds
        (subst (Answers s.fds) e (either (same_bytes path (bytes "/proc/5/ns/net")) s.fds));
}

abbrev pub idle : Os
idle = record {
  fds = 0 ∷ 1 ∷ 2 ∷ [];
  refers = λ fd. [];
  net_ns = bytes "host";
  mnt_ns = bytes "host";
  streams = 3;
  dirs = 0;
  blocks = 0;
  calls = 0;
}

-- ===== src/Fanout.antt =====
-- packet_mmap/packet_mmap.c: a process that reads packets from a socket of a fanout group. What the
-- system calls answer is a record of functions; the messages are left out, but for those that are
-- counted.
pub mod Reads
pub mod Children
mod Tests
use everyday_coding.Base.{
  ℕ, zero, suc, ◌+◌, ◌*◌, ◌^◌, ◌%◌, Bool, true, false, Option, none, some, List, [], ◌∷◌, ◌==◌,
  if◌then◌else◌, update,
}
use everyday_coding.Base.Int.{ℤ, pos, pos_part, ltb_ℤ}
use everyday_coding.CString.{Str, bytes, same_bytes}
use everyday_coding.Os.{remove}

-- The open descriptors, how often each has been read, and how many lines with the process id have
-- been printed. `calls` counts the system calls.
pub record Process : Type 0 where
  pub fds : List ℕ
  pub reads : ℕ → ℕ
  pub printed : ℕ
  pub calls : ℕ

-- What the calls answer: the descriptor of a socket, and whether a call fails.
pub record Answers : Type 0 where
  pub socket_answer : Process → Option ℕ
  pub ioctl_fails : Process → Bool
  pub bind_fails : Process → Bool
  pub setsockopt_fails : Process → Bool
  pub read_fails : Process → ℕ → Bool

-- EXIT_FAILURE
abbrev pub exit_failure : ℤ
exit_failure = pos 1

abbrev pub called : Process → Process
called s = record s { calls = suc s.calls }

module _ (a : Answers) where
  abbrev pub after_bind : (fd : ℕ) → Process → ℤ × Process
  after_bind fd s = (if a.setsockopt_fails s then exit_failure else pos fd, called s)

  abbrev pub after_ioctl : (fd : ℕ) → Process → ℤ × Process
  after_ioctl fd s = if a.bind_fails s then (exit_failure, called s) else after_bind fd (called s)

  abbrev pub after_socket : Option ℕ → Process → ℤ × Process
  after_socket none s = (exit_failure, called s)
  after_socket (some fd) s =
      let s1 = called (record s { fds = fd ∷ s.fds }) in
      if a.ioctl_fails s1 then (exit_failure, called s1) else after_ioctl fd (called s1)

  unfoldable pub setup_socket : Process → ℤ × Process
  setup_socket s = after_socket (a.socket_answer s) s

  -- what a round does when the read succeeds
  abbrev pub after_read : (limit fd : ℕ) → Process → Process
  after_read limit fd s = called (record s {
    reads = update s.reads fd (s.reads fd + 1);
    printed = if limit % 10 == 0 then s.printed + 1 else s.printed;
  })

  -- The loop with the rounds that are left, and what follows it: the exit status, and the process
  -- then.
  pub read_packets : (limit : ℕ) → (fd : ℕ) → Process → ℤ × Process
  read_packets zero fd s =
      (pos 0, called (record s { fds = remove fd s.fds; printed = s.printed + 1 }))
  read_packets (suc limit) fd s =
      let rest = read_packets limit fd (after_read limit fd s) in
      if a.read_fails s fd then (exit_failure, called s) else rest

  unfoldable pub fanout_thread : Process → ℤ × Process
  fanout_thread s =
      let (fd, s1) = setup_socket s in
      if ltb_ℤ fd (pos 0) then (fd, s1) else read_packets 10000 (pos_part fd) s1

pub data Fork : Type 0 where
  child parent failed : Fork

-- How a process of the program ends: a child in fanout_thread, or main with its status, after so many
-- calls of fork that made a child and so many calls of wait.
pub data Ending : Type 0 where
  in_child : (i : ℕ) → ℤ × Process → Ending
  finished : (status : ℤ) → (children waits : ℕ) → Ending

-- PACKET_FANOUT_HASH or PACKET_FANOUT_LB, by argp[2]
abbrev pub fanout_type : Str → Option ℕ
fanout_type argument =
    if same_bytes argument (bytes "hash")
    then some 0
    else (if same_bytes argument (bytes "lb") then some 1 else none)

module _ (a : Answers) (fork : ℕ → Fork) (s : Process) where
  -- what the process does with the answer of fork, and else goes on with
  abbrev pub after_fork : (i : ℕ) → Fork → (rest : Ending) → Ending
  after_fork i child rest = in_child i (fanout_thread a s)
  after_fork i parent rest = rest
  after_fork i failed rest = finished exit_failure i 0

  -- the loop of fork from round `i` on, and the loop of wait
  pub fork_all : (left i : ℕ) → Ending
  fork_all zero i = finished (pos 0) i 4
  fork_all (suc left) i = after_fork i (fork i) (fork_all left (i + 1))

  abbrev after_type : Option ℕ → Ending
  after_type none = finished exit_failure 0 0
  after_type (some type) = fork_all 4 0

  -- `argp` has argc strings.
  unfoldable pub main : (argp : List Str) → Ending
  main (program ∷ interface ∷ argument ∷ []) = after_type (fanout_type argument)
  main _ = finished exit_failure 0 0

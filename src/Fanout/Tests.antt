-- ===== src/Fanout/Tests.antt =====
-- fanout_thread without the right to open a packet socket.
use everyday_coding.Base.{ℕ, zero, suc, ◌≡◌, refl, false, none, ◌∷◌, []}
use everyday_coding.Base.Int.{pos, pos_part}
use everyday_coding.CString.{bytes}
use everyday_coding.Fanout.Children.{Ends, main-Ends}
use everyday_coding.Fanout.{
  Fork, parent, failed, finished, fork_all, main, Process, Answers, setup_socket, fanout_thread,
}
use everyday_coding.Fanout.Reads.{HasRead, IsDescriptor, fanout_thread-HasRead}

abbrev no_rights : Answers
no_rights = record {
  socket_answer = λ s. none;
  ioctl_fails = λ s. false;
  bind_fails = λ s. false;
  setsockopt_fails = λ s. false;
  read_fails = λ s fd. false;
}

abbrev idle : Process
idle = record { fds = 0 ∷ 1 ∷ 2 ∷ []; reads = λ fd. 0; printed = 0; calls = 0 }

standard_output : (setup_socket no_rights idle).0 ≡ pos 1
unfolding setup_socket
standard_output = refl

fanout_thread-HasRead_example :
    let (r, s1) = setup_socket no_rights idle in
    IsDescriptor none r × HasRead 10000 (pos_part r) s1 (fanout_thread no_rights idle)
fanout_thread-HasRead_example = fanout_thread-HasRead no_rights idle

-- The third fork fails.
abbrev two_forks : ℕ → Fork
two_forks zero = parent
two_forks (suc zero) = parent
two_forks _ = failed

children_left : main no_rights two_forks idle ([] ∷ [] ∷ bytes "lb" ∷ []) ≡ finished (pos 1) 2 0
unfolding main fork_all
children_left = refl

main-Ends_example :
    Ends no_rights two_forks idle 4 0 (main no_rights two_forks idle ([] ∷ [] ∷ bytes "lb" ∷ []))
main-Ends_example = main-Ends no_rights two_forks idle [] [] (bytes "lb") 1 refl

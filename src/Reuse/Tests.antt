-- ===== src/Reuse/Tests.antt =====
-- Runs of reuse_addr_option.c.
use everyday_coding.Base.{◌≡◌, refl, true, none, some, [], ◌∷◌}
use everyday_coding.CString.{bytes}
use everyday_coding.Os.Samples.{unused, unused-new}
use everyday_coding.Reuse.{
  World, Network, tcp, udp, main, test_udp_any_addr_same_port_diff_ifs, test_tcp_udp_same_ports,
}
use everyday_coding.Reuse.Closed.{IsFresh, Leaves, main-Leaves}

abbrev idle : World
idle = record { fds = 0 ∷ 1 ∷ 2 ∷ []; printed = []; calls = 0 }

-- Every socket can be made, and no binding is possible.
abbrev busy : Network
busy = record {
  socket_answer = λ s p. some (unused s.fds);
  bind_fails = λ s fd addr. true;
  device_error = λ s fd device. none;
}

-- There are no UDP sockets.
abbrev no_udp : Network
no_udp = record busy { socket_answer = λ s p. elim p [ tcp ↦ some (unused s.fds) | udp ↦ none ] }

tcp_left_open : (main no_udp (λ a. some 5) ([] ∷ [] ∷ []) idle).1.fds ≡ 9 ∷ idle.fds
unfolding main test_tcp_udp_same_ports test_udp_any_addr_same_port_diff_ifs
tcp_left_open = refl

busy-IsFresh : IsFresh busy
busy-IsFresh = record { socket_fresh = λ s p fd e. unused-new s.fds fd e }

main-Leaves_example : Leaves busy idle (main busy (λ a. some 5) ([] ∷ bytes "10.0.0.5" ∷ []) idle).1
main-Leaves_example = main-Leaves busy busy-IsFresh (λ a. some 5) ([] ∷ bytes "10.0.0.5" ∷ []) idle

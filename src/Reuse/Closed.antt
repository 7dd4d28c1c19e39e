-- ===== src/Reuse/Closed.antt =====
-- What the experiments of reuse_addr_option.c leave open, and what they say last.
use everyday_coding.Base.{
  ℕ, ◌≡◌, ◌⊎◌, inl, inr, refl, ap, ◌∙◌, false, Option, none, some, List, [], ◌∷◌, arith, ◌==◌, has,
  Bool-cases,
}
use everyday_coding.CString.{Str, bytes}
use everyday_coding.Os.{remove}
use everyday_coding.Netns.Switch.{remove-head}
use everyday_coding.Reuse.{
  first_any, second_any, first_port, second_port, first_local, second_local, first_eth0,
  second_eth1, fail_33, fail_34, ens33, ens34, World, Protocol, inaddr_any, loopback, tcp, udp,
  Network, close, answer_socket, socket, bind_or_say, say_error, bind_to_device, reuse_addr,
  test_udp_any_addr_same_port_diff_ifs, test_udp_diff_addr_same_port, test_udp_any_addr_same_port,
  test_udp_local_and_any_addr_same_port, test_udp_local_addr_same_port, after_udp, after_tcp,
  test_tcp_udp_same_ports, after_pton, main,
}

-- socket returns a descriptor that is not open.
pub record IsFresh (n : Network) : Type 0 where
  pub socket_fresh :
      (s : World) (p : Protocol) (fd : ℕ) → n.socket_answer s p ≡ some fd → has fd s.fds ≡ false

-- Whatever the answer is, a descriptor in it is not open.
abbrev IsNew : Option ℕ → List ℕ → Type 0
IsNew none fds = Unit {0}
IsNew (some fd) fds = has fd fds ≡ false

remove-other : (f g : ℕ) (fds : List ℕ) → has g (f ∷ fds) ≡ false → remove f (g ∷ f ∷ fds) ≡ g ∷ fds
remove-other f g fds new =
    let other : (f == g) ≡ false = ground (arith, new) in rw (other, remove-head f fds) refl

-- Two sockets that are opened and closed again leave the descriptors as they were.
close_both :
    (o1 o2 : Option ℕ) (s t : World)
    → IsNew o2 (answer_socket o1 s).fds
    → t.fds ≡ (answer_socket o2 (answer_socket o1 s)).fds
    → (close o2 (close o1 t)).fds ≡ s.fds
close_both none none s t new e = e
close_both (some f) none s t new e = ap (remove f) e ∙ remove-head f s.fds
close_both none (some g) s t new e = ap (remove g) e ∙ remove-head g s.fds
close_both (some f) (some g) s t new e =
    ap (λ l. remove g (remove f l)) e
    ∙ ap (remove g) (remove-other f g s.fds new)
    ∙ remove-head g s.fds

module _ (n : Network) where
  bind_or_say-fds :
      (fd : Option ℕ) (addr : ℕ) (m : Str) (s : World) → (bind_or_say n fd addr m s).fds ≡ s.fds
  bind_or_say-fds fd addr m s = elim (Bool-cases (n.bind_fails s fd addr)) [
    | inl e ↦ rw e refl
    | inr e ↦ rw e refl
  ]

  say_error-fds : (m : Str) (o : Option Str) (s : World) → (say_error n m o s).fds ≡ s.fds
  say_error-fds m none s = refl
  say_error-fds m (some error) s = refl

  module _ (law : IsFresh n) where
    answer-IsNew :
        (o : Option ℕ) (s : World) (p : Protocol) → n.socket_answer s p ≡ o → IsNew o s.fds
    answer-IsNew none s p e = tt
    answer-IsNew (some fd) s p e = law.socket_fresh s p fd e

    -- The frame of the experiments with two UDP sockets: opened, some work, closed.
    both_closed :
        (s : World) (work : Option ℕ → Option ℕ → World → World)
        → ((f g : Option ℕ) (t : World) → (work f g t).fds ≡ t.fds)
        → let (f, s1) = socket n udp s in
          let (g, s2) = socket n udp s1 in (close g (close f (work f g s2))).fds ≡ s.fds
    both_closed s work keeps =
        let (f, s1) = socket n udp s in
        let (g, s2) = socket n udp s1 in
        close_both f g s (work f g s2) (answer-IsNew g s1 udp refl) (keeps f g s2)

pub data UdpTest : Type 0 where
  any_addr_diff_ifs diff_addr any_addr local_and_any_addr local_addr : UdpTest

abbrev pub run : Network → UdpTest → (addr : ℕ) → World → World
run n any_addr_diff_ifs addr = test_udp_any_addr_same_port_diff_ifs n
run n diff_addr addr = test_udp_diff_addr_same_port n addr
run n any_addr addr = test_udp_any_addr_same_port n addr
run n local_and_any_addr addr = test_udp_local_and_any_addr_same_port n addr
run n local_addr addr = test_udp_local_addr_same_port n addr

-- The last line that an experiment prints.
abbrev pub Says : UdpTest → List Str → Type 0
Says any_addr_diff_ifs out = Unit {0}
Says diff_addr out =
    (before : List Str) × (out
      ≡ bytes "UDP could bind two different addr with same port without SO_REUSEADDR\n" ∷ before)
Says any_addr out =
    (before : List Str) × (out
      ≡ bytes "UDP could bind two local addrs and port with SO_REUSEADDR" ∷ before)
Says local_and_any_addr out =
    (before : List Str) × (out
      ≡ bytes "UDP could bind one local addr and one any addr with same port with SO_REUSEADDR\n"
        ∷ before)
Says local_addr out =
    (before : List Str) × (out
      ≡ bytes "UDP could bind two local addrs and port with SO_REUSEADDR" ∷ before)

module _ (n : Network) (law : IsFresh n) (addr : ℕ) (s : World) where
  two_binds :
      (f g : Option ℕ) (a b : ℕ) (m m' : Str) (t : World)
      → (bind_or_say n g b m' (bind_or_say n f a m t)).fds ≡ t.fds
  two_binds f g a b m m' t =
      bind_or_say-fds n g b m' (bind_or_say n f a m t) ∙ bind_or_say-fds n f a m t

  -- Where socket returns a descriptor that is not open, each of the experiments with two UDP sockets
  -- leaves the descriptors that it found, whichever calls fail, and four of them end by
  -- printing that the binding was possible, whatever bind has returned.
  pub run-closes : (t : UdpTest) → ((run n t addr s).fds ≡ s.fds) × Says t (run n t addr s).printed
  unfolding test_udp_any_addr_same_port_diff_ifs test_udp_diff_addr_same_port
      test_udp_any_addr_same_port test_udp_local_and_any_addr_same_port
      test_udp_local_addr_same_port
  run-closes diff_addr = (
    both_closed n law s
        (λ f g t. bind_or_say n g loopback second_any (bind_or_say n f addr first_any t))
        (λ f g t. two_binds f g addr loopback first_any second_any t),
    (_, refl),
  )
  run-closes any_addr = (
    both_closed n law s
        (λ f g t.
          bind_or_say n g inaddr_any second_port
            (bind_or_say n f inaddr_any first_port (reuse_addr n g (reuse_addr n f t))))
        (λ f g t.
          two_binds f g inaddr_any inaddr_any first_port second_port
            (reuse_addr n g (reuse_addr n f t))),
    (_, refl),
  )
  run-closes local_and_any_addr = (
    both_closed n law s
        (λ f g t.
          bind_or_say n g addr second_local
            (bind_or_say n f addr first_local (reuse_addr n g (reuse_addr n f t))))
        (λ f g t.
          two_binds f g addr addr first_local second_local (reuse_addr n g (reuse_addr n f t))),
    (_, refl),
  )
  run-closes local_addr = (
    both_closed n law s
        (λ f g t.
          bind_or_say n g addr second_port
            (bind_or_say n f addr first_port (reuse_addr n g (reuse_addr n f t))))
        (λ f g t.
          two_binds f g addr addr first_port second_port (reuse_addr n g (reuse_addr n f t))),
    (_, refl),
  )
  run-closes any_addr_diff_ifs = (
    both_closed n law s
        (λ f g t.
          let t = bind_to_device n g ens34 fail_34 (bind_to_device n f ens33 fail_33 t) in
          bind_or_say n g inaddr_any second_eth1 (bind_or_say n f inaddr_any first_eth0 t))
        (λ f g t.
          let t1 = bind_to_device n f ens33 fail_33 t in
          let t2 = bind_to_device n g ens34 fail_34 t1 in
          two_binds f g inaddr_any inaddr_any first_eth0 second_eth1 t2
          ∙ say_error-fds n fail_34 (n.device_error t1 g ens34) t1
          ∙ say_error-fds n fail_33 (n.device_error t f ens33) t),
    tt,
  )

-- The descriptors are as before; or the TCP socket is still open, because there is no UDP socket.
abbrev pub Leaves : Network → World → World → Type 0
Leaves n s t =
    (t.fds ≡ s.fds)
    ⊎ ((fd : ℕ) × (n.socket_answer s tcp ≡ some fd)
        × (n.socket_answer (answer_socket (some fd) s) udp ≡ none)
        × (t.fds ≡ fd ∷ s.fds))

module _ (n : Network) (law : IsFresh n) where
  udp_by :
      (addr fd : ℕ) (s : World)
      → n.socket_answer s tcp ≡ some fd
      → (o : Option ℕ) → n.socket_answer (answer_socket (some fd) s) udp ≡ o
      → Leaves n s (after_udp n addr fd (o, answer_socket o (answer_socket (some fd) s)))
  udp_by addr fd s e none e2 = inr (fd, e, e2, refl)
  udp_by addr fd s e (some g) e2 =
      let s1 = answer_socket (some fd) s in
      let s2 = answer_socket (some g) s1 in
      let new = law.socket_fresh s1 udp g e2 in
      let tcp_port = bytes "Tcp fail to bind port(12345)\n" in
      let udp_port = bytes "UDP fail to bind port(12345)\n" in
      let t1 = bind_or_say n (some fd) addr tcp_port s2 in
      let t2 = bind_or_say n (some g) addr udp_port t1 in
      inl (
        close_both (some fd) (some g) s t2 new (
          bind_or_say-fds n (some g) addr udp_port t1
          ∙ bind_or_say-fds n (some fd) addr tcp_port s2))

  tcp_by :
      (addr : ℕ) (s : World) (o : Option ℕ)
      → n.socket_answer s tcp ≡ o
      → Leaves n s (after_tcp n addr (o, answer_socket o s))
  tcp_by addr s none e = inl refl
  tcp_by addr s (some fd) e =
      udp_by addr fd s e (n.socket_answer (answer_socket (some fd) s) udp) refl

  tcp_udp-Leaves : (addr : ℕ) (s : World) → Leaves n s (test_tcp_udp_same_ports n addr s)
  unfolding test_tcp_udp_same_ports
  tcp_udp-Leaves addr s = tcp_by addr s (n.socket_answer s tcp) refl

  Leaves-same : (s t u : World) → u.fds ≡ t.fds → Leaves n s t → Leaves n s u
  Leaves-same s t u e (inl f) = inl (e ∙ f)
  Leaves-same s t u e (inr (fd, a, b, f)) = inr (fd, a, b, e ∙ f)

  pton_by : (o : Option ℕ) (s : World) → Leaves n s (after_pton n o s).1
  pton_by none s = inl refl
  pton_by (some addr) s =
      let t = test_tcp_udp_same_ports n addr s in
      Leaves-same s t (test_udp_any_addr_same_port_diff_ifs n t)
        (run-closes n law addr t any_addr_diff_ifs).0 (tcp_udp-Leaves addr s)

  -- Where socket returns a descriptor that is not open, the program leaves the descriptors that it
  -- found, whatever its arguments and whichever calls fail, except that the TCP socket stays
  -- open where there is one and the UDP socket that is to follow it cannot be made.
  pub main-Leaves :
      (inet_pton : Str → Option ℕ) (argv : List Str) (s : World)
      → Leaves n s (main n inet_pton argv s).1
  unfolding main
  main-Leaves inet_pton [] s = inl refl
  main-Leaves inet_pton (program ∷ []) s = inl refl
  main-Leaves inet_pton (program ∷ address ∷ more) s = pton_by (inet_pton address) s

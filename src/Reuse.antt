-- ===== src/Reuse.antt =====
-- networks/reuse_addr_option.c: experiments with two sockets that bind the same port. What the system
-- calls answer is a record of functions.
pub mod Closed
mod Tests
use everyday_coding.Base.{
  ℕ, suc, Bool, true, false, Option, none, some, List, [], ◌∷◌, ◌++◌, ◌==◌, if◌then◌else◌,
}
use everyday_coding.Base.Int.{ℤ, pos, negsuc}
use everyday_coding.CString.{Str, bytes}
use everyday_coding.Os.{remove}

-- The open descriptors and what has been printed, the last first. `calls` counts the system calls.
pub record World : Type 0 where
  pub fds : List ℕ
  pub printed : List Str
  pub calls : ℕ

pub data Protocol : Type 0 where
  tcp udp : Protocol

-- What the calls answer. A descriptor `none` is -1. `bind_fails` is for an address and the port
-- LOCAL_PORT; `device_error` is what the message says of a setsockopt that fails.
pub record Network : Type 0 where
  pub socket_answer : World → Protocol → Option ℕ
  pub bind_fails : World → Option ℕ → (addr : ℕ) → Bool
  pub device_error : World → Option ℕ → (device : Str) → Option Str

abbrev tick : World → World
tick s = record s { calls = suc s.calls }

-- printf
abbrev pub say : Str → World → World
say text s = record s { printed = text ∷ s.printed }

-- close; with -1 it does nothing.
abbrev pub close : Option ℕ → World → World
close none s = tick s
close (some fd) s = tick (record s { fds = remove fd s.fds })

abbrev pub answer_socket : Option ℕ → World → World
answer_socket none s = tick s
answer_socket (some fd) s = tick (record s { fds = fd ∷ s.fds })

abbrev pub inaddr_any : ℕ
inaddr_any = 0

-- 127.0.0.1 as the program writes it
abbrev pub loopback : ℕ
loopback = 0x0100007f

-- the messages
abbrev pub first_any : Str
first_any = bytes "UDP1 fail to bind any addr and port(12345)\n"

abbrev pub second_any : Str
second_any = bytes "UDP2 fail to bind any addr and port(12345)\n"

abbrev pub first_port : Str
first_port = bytes "UDP1 fail to bind port(12345)\n"

abbrev pub second_port : Str
second_port = bytes "UDP2 fail to bind port(12345)\n"

abbrev pub first_local : Str
first_local = bytes "UDP1 fail to bind local addr and  port(12345)\n"

abbrev pub second_local : Str
second_local = bytes "UDP2 fail to bind local addr and  port(12345)\n"

abbrev pub first_eth0 : Str
first_eth0 = bytes "UDP1 fail to bind any addr and port(12345) on eth0\n"

abbrev pub second_eth1 : Str
second_eth1 = bytes "UDP2 fail to bind any addr and port(12345) on eth1\n"

abbrev pub fail_33 : Str
fail_33 = bytes "UDP1 fail to bind eth0. "

abbrev pub fail_34 : Str
fail_34 = bytes "UDP2 fail to bind eth1. "

abbrev pub ens33 : Str
ens33 = bytes "ens33"

abbrev pub ens34 : Str
ens34 = bytes "ens34"

module _ (n : Network) where
  abbrev pub socket : Protocol → World → Option ℕ × World
  socket protocol s = let o = n.socket_answer s protocol in (o, answer_socket o s)

  -- if(bind(...) != 0) printf(message);
  abbrev pub bind_or_say : Option ℕ → (addr : ℕ) → (message : Str) → World → World
  bind_or_say fd addr message s = if n.bind_fails s fd addr then say message (tick s) else tick s

  -- if(setsockopt(fd, SOL_SOCKET, SO_BINDTODEVICE, ...)) printf(...);
  abbrev pub say_error : Str → Option Str → World → World
  say_error message none s = tick s
  say_error message (some error) s = say (message ++ error) (tick s)

  abbrev pub bind_to_device : Option ℕ → (device message : Str) → World → World
  bind_to_device fd device message s = say_error message (n.device_error s fd device) s

  -- setsockopt(fd, SOL_SOCKET, SO_REUSEADDR, ...), whose answer is not looked at
  abbrev pub reuse_addr : Option ℕ → World → World
  reuse_addr fd s = tick s

  unfoldable pub test_udp_any_addr_same_port_diff_ifs : World → World
  test_udp_any_addr_same_port_diff_ifs s =
      let (udp_f1, s) = socket udp s in
      let (udp_f2, s) = socket udp s in
      let s = bind_to_device udp_f1 ens33 fail_33 s in
      let s = bind_to_device udp_f2 ens34 fail_34 s in
      let s = bind_or_say udp_f1 inaddr_any first_eth0 s in
      let s = bind_or_say udp_f2 inaddr_any second_eth1 s in close udp_f2 (close udp_f1 s)

  unfoldable pub test_udp_diff_addr_same_port : (addr : ℕ) → World → World
  test_udp_diff_addr_same_port addr s =
      let (udp_f1, s) = socket udp s in
      let (udp_f2, s) = socket udp s in
      let s = bind_or_say udp_f1 addr first_any s in
      let s = bind_or_say udp_f2 loopback second_any s in
      say (bytes "UDP could bind two different addr with same port without SO_REUSEADDR\n")
        (close udp_f2 (close udp_f1 s))

  unfoldable pub test_udp_any_addr_same_port : (addr : ℕ) → World → World
  test_udp_any_addr_same_port addr s =
      let (udp_fd1, s) = socket udp s in
      let (udp_fd2, s) = socket udp s in
      let s = reuse_addr udp_fd2 (reuse_addr udp_fd1 s) in
      let s = bind_or_say udp_fd1 inaddr_any first_port s in
      let s = bind_or_say udp_fd2 inaddr_any second_port s in
      say (bytes "UDP could bind two local addrs and port with SO_REUSEADDR")
        (close udp_fd2 (close udp_fd1 s))

  unfoldable pub test_udp_local_and_any_addr_same_port : (addr : ℕ) → World → World
  test_udp_local_and_any_addr_same_port addr s =
      let (udp_fd1, s) = socket udp s in
      let (udp_fd2, s) = socket udp s in
      let s = reuse_addr udp_fd2 (reuse_addr udp_fd1 s) in
      let s = bind_or_say udp_fd1 addr first_local s in
      let s = bind_or_say udp_fd2 addr second_local s in
      say
        (bytes "UDP could bind one local addr and one any addr with same port with SO_REUSEADDR\n")
        (close udp_fd2 (close udp_fd1 s))

  unfoldable pub test_udp_local_addr_same_port : (addr : ℕ) → World → World
  test_udp_local_addr_same_port addr s =
      let (udp_fd1, s) = socket udp s in
      let (udp_fd2, s) = socket udp s in
      let s = reuse_addr udp_fd2 (reuse_addr udp_fd1 s) in
      let s = bind_or_say udp_fd1 addr first_port s in
      let s = bind_or_say udp_fd2 addr second_port s in
      say (bytes "UDP could bind two local addrs and port with SO_REUSEADDR")
        (close udp_fd2 (close udp_fd1 s))

  -- test_tcp_udp_same_ports from the second socket on
  abbrev pub after_udp : (addr tcp_fd : ℕ) → Option ℕ × World → World
  after_udp addr tcp_fd (none, s) = say (bytes "Fail to create udp socket\n") s
  after_udp addr tcp_fd (some udp_fd, s) =
      let s = bind_or_say (some tcp_fd) addr (bytes "Tcp fail to bind port(12345)\n") s in
      let s = bind_or_say (some udp_fd) addr (bytes "UDP fail to bind port(12345)\n") s in
      say (bytes "TCP and UDP could bind same port seperately \n")
        (close (some udp_fd) (close (some tcp_fd) s))

  abbrev pub after_tcp : (addr : ℕ) → Option ℕ × World → World
  after_tcp addr (none, s) = say (bytes "Fail to create tcp socket\n") s
  after_tcp addr (some tcp_fd, s) = after_udp addr tcp_fd (socket udp s)

  unfoldable pub test_tcp_udp_same_ports : (addr : ℕ) → World → World
  test_tcp_udp_same_ports addr s = after_tcp addr (socket tcp s)

  -- `inet_pton` gives the address of a text, or `none` where it does not return 1.
  abbrev pub after_pton : Option ℕ → World → ℤ × World
  after_pton none s = (negsuc 0, say (bytes "invalid IP address") s)
  after_pton (some addr) s =
      (pos 0, test_udp_any_addr_same_port_diff_ifs (test_tcp_udp_same_ports addr s))

  unfoldable pub main : (inet_pton : Str → Option ℕ) → (argv : List Str) → World → ℤ × World
  main inet_pton (program ∷ address ∷ more) s = after_pton (inet_pton address) s
  main inet_pton _ s = (negsuc 0, say (bytes "Please specify local ip addresss\n") s)

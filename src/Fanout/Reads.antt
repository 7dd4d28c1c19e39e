-- ===== src/Fanout/Reads.antt =====
-- How often fanout_thread reads, and from what.
use everyday_coding.Base.{
  ℕ, zero, suc, ◌+◌, ◌/◌, ◌%◌, ◌<◌, ◌≡◌, ◌⊎◌, inl, inr, refl, ap, ◌∙◌, false, Option, none, some,
  ◌∷◌, arith, ◌==◌, if◌then◌else◌, update, Bool-cases,
}
use everyday_coding.Base.Int.{ℤ, pos, pos_part, ltb_ℤ}
use everyday_coding.Os.{remove}
use everyday_coding.Fanout.{
  Process, Answers, exit_failure, called, after_read, read_packets, setup_socket, after_socket,
  fanout_thread,
}

-- The exit status is 0, all the rounds have read from the descriptor, every tenth has printed a
-- line, one line has followed, and the descriptor is closed; or it is 1, and fewer have read.
abbrev pub HasRead : (limit fd : ℕ) → Process → ℤ × Process → Type 0
HasRead limit fd s (status, t) =
    ((status ≡ pos 0)
      × (t.reads fd ≡ s.reads fd + limit)
      × (t.printed ≡ s.printed + (limit + 9) / 10 + 1)
      × (t.fds ≡ remove fd s.fds))
    ⊎ ((status ≡ exit_failure) × (t.reads fd < s.reads fd + limit) × (t.fds ≡ s.fds))

tens :
    (limit printed : ℕ)
    → (if limit % 10 == 0 then printed + 1 else printed) + (limit + 9) / 10
      ≡ printed + (suc limit + 9) / 10
tens limit printed = ground arith

bump : (f : ℕ → ℕ) (i : ℕ) → update f i (f i + 1) i ≡ f i + 1
bump f i = ground arith

-- One round more.
round :
    (limit fd : ℕ) (s s2 : Process) (p : ℤ × Process)
    → s2.reads fd ≡ s.reads fd + 1
    → s2.printed ≡ (if limit % 10 == 0 then s.printed + 1 else s.printed)
    → s2.fds ≡ s.fds
    → HasRead limit fd s2 p
    → HasRead (suc limit) fd s p
round limit fd s s2 (status, t) reads printed fds (inl (e, r, q, f)) = inl (
  e,
  omega (arith, r, reads),
  q ∙ ap (λ n. n + (limit + 9) / 10 + 1) printed ∙ ap (λ n. n + 1) (tens limit s.printed),
  f ∙ ap (remove fd) fds,
)
round limit fd s s2 (status, t) reads printed fds (inr (e, r, f)) =
    inr (e, omega (arith, r, reads), f ∙ fds)

module _ (a : Answers) (fd : ℕ) where
  pub read_packets-HasRead :
      (limit : ℕ) (s : Process) → HasRead limit fd s (read_packets a limit fd s)
  unfolding read_packets
  read_packets-HasRead zero s = inl (refl, omega arith, omega arith, refl)
  read_packets-HasRead (suc limit) s = elim (Bool-cases (a.read_fails s fd)) [
    | inl fails ↦ rw fails (inr (refl, omega arith, refl))
    | inr reads ↦
        let s2 = after_read a limit fd s in
        rw reads (
          round limit fd s s2 (read_packets a limit fd s2) (bump s.reads fd) refl refl
            (read_packets-HasRead limit s2))
  ]

-- What setup_socket returns: the descriptor of the socket, or EXIT_FAILURE.
abbrev pub IsDescriptor : Option ℕ → ℤ → Type 0
IsDescriptor o r = ((fd : ℕ) × (o ≡ some fd) × (r ≡ pos fd)) ⊎ (r ≡ exit_failure)

IsDescriptor-nonneg : (o : Option ℕ) (r : ℤ) → IsDescriptor o r → ltb_ℤ r (pos 0) ≡ false
IsDescriptor-nonneg o r (inl (fd, e, at)) = rw at (ground arith)
IsDescriptor-nonneg o r (inr at) = rw at refl

module _ (a : Answers) where
  setup_by : (o : Option ℕ) (s : Process) → IsDescriptor o (after_socket a o s).0
  setup_by none s = inr refl
  setup_by (some fd) s =
      let s1 = called (record s { fds = fd ∷ s.fds }) in
      elim (Bool-cases (a.ioctl_fails s1)) [
        | inl e ↦ rw e (inr refl)
        | inr e ↦ elim (Bool-cases (a.bind_fails (called s1))) [
          | inl e2 ↦ rw (e, e2) (inr refl)
          | inr e2 ↦ elim (Bool-cases (a.setsockopt_fails (called (called s1)))) [
            | inl e3 ↦ rw (e, e2, e3) (inr refl)
            | inr e3 ↦ rw (e, e2, e3) (inl (fd, refl, refl))
          ]
        ]
      ]

  setup_socket-IsDescriptor : (s : Process) → IsDescriptor (a.socket_answer s) (setup_socket a s).0
  unfolding setup_socket
  setup_socket-IsDescriptor s = setup_by (a.socket_answer s) s

  -- fanout_thread terminates with status 0 after 10000 reads, 1001 printed lines and the close of the
  -- descriptor that it read from, or with status 1 after fewer reads. The descriptor is what
  -- setup_socket returns, which is that of the socket or EXIT_FAILURE, and EXIT_FAILURE is 1,
  -- the standard output.
  pub fanout_thread-HasRead :
      (s : Process)
      → let (r, s1) = setup_socket a s in
        IsDescriptor (a.socket_answer s) r × HasRead 10000 (pos_part r) s1 (fanout_thread a s)
  unfolding fanout_thread
  fanout_thread-HasRead s =
      let (r, s1) = setup_socket a s in
      let d = setup_socket-IsDescriptor s in
      let nonneg = IsDescriptor-nonneg (a.socket_answer s) r d in
      (d, rw nonneg (read_packets-HasRead a (pos_part r) 10000 s1))

-- ===== src/Pipe/Counts.antt =====
-- What the two processes of the pipe have counted.
use mathlib.Core.Path.{subst}
use mathlib.Core.Bool.{true≢false}
use mathlib.Core.List.{append_assoc, append-nil}
use everyday_coding.Base.{
  ℕ, suc, zero, ◌+◌, ◌≤◌, ◌<◌, ◌≡◌, ◌⊎◌, inl, inr, refl, sym, ap, ◌∙◌, true, false, [], ◌∷◌, ◌++◌,
  length, length-append, arith,
}
use everyday_coding.Base.Int.{pos, negsuc, ◌+ℤ◌, ◌-ℤ◌, ltb_ℤ, +ℤ-pos}
use everyday_coding.CString.{Str}
use everyday_coding.Pipe.{
  max_size, buf_size, from_buffer, Server, opening, sending, returned, killed, Client, reading,
  finished, failed, server_goes_on, client_read, System, init, writes_on, Step, opens, writes,
  write_fails, write_kills, closes, reads, read_ends, read_fails, Steps, here, next,
}

-- The server has counted what it has sent, and returns with at least MAX_SIZE bytes.
abbrev pub ServerCounts : Server → Str → Type 0
ServerCounts opening sent = sent ≡ []
ServerCounts (sending n) sent = (length sent ≡ n) × (n < max_size + buf_size)
ServerCounts (returned status) sent = max_size ≤ length sent
ServerCounts killed sent = length sent < max_size

-- The client has counted what it has received. At the end it has received all that is ever sent; or
-- it has come to an empty pipe before, and its count is one too small.
abbrev pub ClientCounts : Client → System → Type 0
ClientCounts (reading b) s = b ≡ pos (length s.received)
ClientCounts (finished b) s =
    ((b ≡ pos (length s.received)) × (s.received ≡ s.sent) × (writes_on s.server ≡ false))
    ⊎ (b ≡ pos (length s.received) -ℤ pos 1)
ClientCounts (failed status) s = Unit {0}

pub record Inv (s : System) : Type 0 where
  pub flow : s.sent ≡ s.received ++ s.pipe
  pub server_counts : ServerCounts s.server s.sent
  pub client_counts : ClientCounts s.client s

length-from_buffer : (i size : ℕ) → length (from_buffer i size) ≡ size
length-from_buffer i zero = refl
length-from_buffer i (suc size) = ap suc (length-from_buffer (i + 1) size)

pub init-Inv : Inv init
init-Inv = record { flow = refl; server_counts = refl; client_counts = refl }

-- A server that writes does not change what a client has counted.
frame :
    (c : Client) (s t : System)
    → t.received ≡ s.received
    → writes_on s.server ≡ true
    → ClientCounts c s
    → ClientCounts c t
frame (reading b) s t e on k = k ∙ ap (λ r. pos (length r)) (sym e)
frame (finished b) s t e on (inl (k, all, off)) = absurd (true≢false (sym on ∙ off))
frame (finished b) s t e on (inr k) = inr (k ∙ ap (λ r. pos (length r) -ℤ pos 1) (sym e))
frame (failed status) s t e on k = tt

module _ (s : System) (i : Inv s) where
  server_at : {v : Server} → s.server ≡ v → ServerCounts v s.sent
  server_at e = subst (λ v. ServerCounts v s.sent) e i.server_counts

  pub client_at : {c : Client} → s.client ≡ c → ClientCounts c s
  client_at e = subst (λ c. ClientCounts c s) e i.client_counts

  -- A step of the server that writes.
  server_step :
      {n : ℕ} (t : System)
      → s.server ≡ sending n
      → t.client ≡ s.client
      → t.received ≡ s.received
      → t.sent ≡ t.received ++ t.pipe
      → ServerCounts t.server t.sent
      → Inv t
  server_step t e same kept flow counts = record {
    flow = flow;
    server_counts = counts;
    client_counts =
        subst (λ c. ClientCounts c t) (sym same)
          (frame s.client s t kept (ap writes_on e) i.client_counts);
  }

  -- A step of the client.
  client_step :
      (t : System)
      → t.server ≡ s.server
      → t.sent ≡ s.sent
      → t.sent ≡ t.received ++ t.pipe
      → ClientCounts t.client t
      → Inv t
  client_step t same kept flow counts = record {
    flow = flow;
    server_counts =
        subst (λ v. ServerCounts v t.sent) (sym same)
          (subst (ServerCounts s.server) (sym kept) i.server_counts);
    client_counts = counts;
  }

goes_on : (n size : ℕ) → server_goes_on n ≡ true → size ≤ buf_size → n + size < max_size + buf_size
goes_on n size on le = ground (arith, on, le)

read_more : (m n : ℕ) → client_read (pos (suc n)) (pos m) ≡ reading (pos (m + suc n))
read_more m n =
    let more : ltb_ℤ (pos 0) (pos (suc n)) ≡ true = ground arith in rw (more, +ℤ-pos m (suc n)) refl

pub read_none : (m : ℕ) → client_read (pos 0) (pos m) ≡ finished (pos m)
read_none m = let e : m + 0 ≡ m = omega arith in ap finished (+ℤ-pos m 0 ∙ ap pos e)

read_error : (m : ℕ) → client_read (negsuc 0) (pos m) ≡ finished (pos m -ℤ pos 1)
unfolding ◌+ℤ◌ ◌-ℤ◌
read_error m = refl

pub Step-Inv : (s t : System) → Inv s → Step s t → Inv t
Step-Inv s _ i (opens {b} e c) = record {
  flow = i.flow;
  server_counts = (ap length (server_at s i e), omega arith);
  client_counts =
      subst (λ v. ClientCounts v (record s { server = sending 0 })) (sym c) (client_at s i c);
}
Step-Inv s _ i (writes {n} {b} size e on c le) =
    let more = from_buffer 0 size in
    let t = record s {
      server = sending (n + size);
      pipe = s.pipe ++ more;
      sent = s.sent ++ more;
    } in
    let (count, bound) = server_at s i e in
    server_step s i t e refl refl (ap (λ x. x ++ more) i.flow ∙ append_assoc s.received s.pipe more)
      (
        length-append s.sent more
            ∙ ap (λ x. length s.sent + x) (length-from_buffer 0 size)
            ∙ ap (λ x. x + size) count,
        goes_on n size on le,
      )
Step-Inv s _ i (write_fails {n} e on) =
    server_step s i (record s { server = sending n }) e refl refl i.flow (server_at s i e)
Step-Inv s _ i (write_kills {n} {b} e on c) =
    let (count, bound) = server_at s i e in
    server_step s i (record s { server = killed }) e refl refl i.flow (ground (arith, count, on))
Step-Inv s _ i (closes {n} e off) =
    let (count, bound) = server_at s i e in
    server_step s i (record s { server = returned (pos 0) }) e refl refl i.flow
      (ground (arith, count, off))
Step-Inv s _ i (reads {b} c front back e p le) =
    let more : Str = c ∷ front in
    let t = record s {
      client = client_read (pos (length more)) b;
      pipe = back;
      received = s.received ++ more;
    } in
    let k : b ≡ pos (length s.received) = client_at s i e in
    let now : client_read (pos (length more)) b ≡ reading (pos (length s.received + length more)) =
      ap (client_read (pos (length more))) k ∙ read_more (length s.received) (length front) in
    client_step s i t refl refl
      (i.flow ∙ ap (λ x. s.received ++ x) p ∙ sym (append_assoc s.received more back))
      (subst (λ v. ClientCounts v t) (sym now) (ap pos (sym (length-append s.received more))))
Step-Inv s _ i (read_ends {b} e p off) =
    let t = record s { client = client_read (pos 0) b } in
    let k : b ≡ pos (length s.received) = client_at s i e in
    let now : client_read (pos 0) b ≡ finished (pos (length s.received)) =
      ap (client_read (pos 0)) k ∙ read_none (length s.received) in
    let all : s.received ≡ s.sent =
      sym (i.flow ∙ ap (λ x. s.received ++ x) p ∙ append-nil s.received) in
    client_step s i t refl refl i.flow
      (subst (λ v. ClientCounts v t) (sym now) (inl (refl, all, off)))
Step-Inv s _ i (read_fails {b} e p on) =
    let t = record s { client = client_read (negsuc 0) b } in
    let k : b ≡ pos (length s.received) = client_at s i e in
    let now : client_read (negsuc 0) b ≡ finished (pos (length s.received) -ℤ pos 1) =
      ap (client_read (negsuc 0)) k ∙ read_error (length s.received) in
    client_step s i t refl refl i.flow (subst (λ v. ClientCounts v t) (sym now) (inr refl))

pub keeps : (s t : System) → Inv s → Steps s t → Inv t
keeps s _ i here = i
keeps s t i (next {t = u} before step) = Step-Inv u t (keeps s u i before) step

-- In every state that the steps of the two programs lead to, what the client has received and what is
-- in the pipe is what the server has sent, in this order. The server has counted the bytes that it
-- has sent, fewer than 11264, and returns after at least 10240. The client has counted the bytes
-- that it has received; when it ends it has all that the server has sent or will send, or it has
-- read from an empty pipe before, and prints one byte less than it has received.
pub Steps-Inv : (s : System) → Steps init s → Inv s
Steps-Inv s steps = keeps init s init-Inv steps

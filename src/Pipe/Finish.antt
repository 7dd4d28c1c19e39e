-- ===== src/Pipe/Finish.antt =====
-- That the two programs can always come to their end together.
use mathlib.Core.Path.{subst}
use mathlib.Core.List.{append-nil}
use everyday_coding.Base.{
  ℕ, suc, zero, ◌+◌, ◌≤◌, ◌≡◌, ◌≢◌, ◌⊎◌, inl, inr, refl, sym, ap, ◌∙◌, true, false, [], ◌∷◌, ◌++◌,
  length, arith, Bool-cases,
}
use everyday_coding.Base.Int.{ℤ, pos, ◌+ℤ◌, ltb_ℤ}
use everyday_coding.CString.{Str}
use everyday_coding.Pipe.{
  max_size, buf_size, from_buffer, Server, opening, sending, returned, killed, reading, finished,
  server_goes_on, client_read, System, init, writes_on, Step, opens, writes, closes, reads,
  read_ends, Steps, here, next,
}
use everyday_coding.Pipe.Counts.{
  Inv, ServerCounts, keeps, Step-Inv, Steps-Inv, client_at, read_none,
}

-- What write and read do on a pipe with room: a write sends the whole buffer, and a read takes a
-- whole buffer, or all that is there.
abbrev pub IsWhole : {s t : System} → Step s t → Type 0
IsWhole (writes size e on c le) = size ≡ buf_size
IsWhole (reads c front back e eq le) = (length (c ∷ front) ≡ buf_size) ⊎ (back ≡ [])
IsWhole _ = Unit {0}

abbrev pub AllWhole : {s t : System} → Steps s t → Type 0
AllWhole here = Unit {0}
AllWhole (next steps step) = AllWhole steps × IsWhole step

-- Steps of which each is whole.
abbrev pub WholeSteps : System → System → Type 0
WholeSteps s t = (steps : Steps s t) × AllWhole steps

WholeSteps-trans :
    (s t u : System) (steps : Steps t u) → AllWhole steps → WholeSteps s t → WholeSteps s u
WholeSteps-trans s t _ here w a = a
WholeSteps-trans s t u (next {t = v} b step) (w, last) a =
    let (c, w') = WholeSteps-trans s t v b w a in (next c step, (w', last))

after : (s t u : System) (step : Step s t) → IsWhole step → WholeSteps t u → WholeSteps s u
after s t u step w (steps, ws) = WholeSteps-trans s t u steps ws (next here step, (tt, w))

-- The server has returned, and the client still reads.
abbrev Served : System → Type 0
Served s =
    (t : System) × WholeSteps s t × (t.server ≡ returned (pos 0)) × (b : ℤ) × (t.client ≡ reading b)

served_after : (s t : System) (step : Step s t) → IsWhole step → Served t → Served s
served_after s t step w (u, steps, e, b, c) = (u, after s t u step w steps, e, b, c)

-- The server sends what is left; `m` bounds it.
serve :
    (m n : ℕ) (s : System) (b : ℤ)
    → s.server ≡ sending n
    → max_size ≤ n + m
    → s.client ≡ reading b
    → Served s
serve zero n s b e le c =
    let off : server_goes_on n ≡ false = ground arith in
    (record s { server = returned (pos 0) }, (next here (closes e off), (tt, tt)), refl, b, c)
serve (suc m) n s b e le c = elim (Bool-cases (server_goes_on n)) [
  | inr off ↦
      (record s { server = returned (pos 0) }, (next here (closes e off), (tt, tt)), refl, b, c)
  | inl on ↦
      let more = from_buffer 0 buf_size in
      let t = record s {
        server = sending (n + buf_size);
        pipe = s.pipe ++ more;
        sent = s.sent ++ more;
      } in
      served_after s t (writes buf_size e on c (omega arith)) refl
        (serve m (n + buf_size) t b refl (omega arith) c)
]

-- Both have ended: the client has received all that was sent, and has counted it.
abbrev pub Ended : System → Type 0
Ended t =
    (t.client ≡ finished (pos (length t.received)))
    × (t.received ≡ t.sent)
    × (max_size ≤ length t.sent)
    × ((status : ℤ) × (t.server ≡ returned status))

-- The first `n` bytes, or all.
split :
    (n : ℕ) (p : Str)
    → (front back : Str) × (p ≡ front ++ back)
      × (length front ≤ n)
      × ((length front ≡ n) ⊎ (back ≡ []))
      × (length back ≤ length p)
split zero p = ([], p, refl, omega arith, inl refl, omega arith)
split (suc n) [] = ([], [], refl, omega arith, inr refl, omega arith)
split (suc n) (x ∷ p) =
    let (front, back, e, le, whole, short) = split n p in
    (
      x ∷ front,
      back,
      ap (λ q. x ∷ q) e,
      omega (arith, le),
      elim whole [ inl full ↦ inl (ap suc full) | inr rest ↦ inr rest ],
      omega (arith, short),
    )

read_some : (n : ℕ) (b : ℤ) → client_read (pos (suc n)) b ≡ reading (b +ℤ pos (suc n))
read_some n b = let more : ltb_ℤ (pos 0) (pos (suc n)) ≡ true = ground arith in rw more refl

-- The client reads what is left, and then the end; `m` bounds it.
drain :
    (m : ℕ) (p : Str) (s : System) (b status : ℤ)
    → length p ≤ m
    → Inv s
    → s.pipe ≡ p
    → s.server ≡ returned status
    → s.client ≡ reading b
    → (t : System) × WholeSteps s t × Ended t
drain m [] s b status le i p e c =
    let t = record s { client = client_read (pos 0) b } in
    let off : writes_on s.server ≡ false = ap writes_on e in
    let step : Step s t = read_ends c p off in
    let all : s.received ≡ s.sent =
      sym (i.flow ∙ ap (λ x. s.received ++ x) p ∙ append-nil s.received) in
    (
      t,
      (next here step, (tt, tt)),
      (
        ap (client_read (pos 0)) (client_at s i c) ∙ read_none (length s.received),
        all,
        subst (λ v. ServerCounts v s.sent) e i.server_counts,
        (status, e),
      ),
    )
drain zero (x ∷ p) s b status le i eq e c = absurd (omega arith)
drain (suc m) (x ∷ p) s b status le i eq e c =
    let (front, back, parts, few, whole, short) = split 1023 p in
    let t = record s {
      client = client_read (pos (length (x ∷ front))) b;
      pipe = back;
      received = s.received ++ (x ∷ front);
    } in
    let step : Step s t = reads x front back c (eq ∙ ap (λ q. x ∷ q) parts) (omega (arith, few)) in
    let w : IsWhole step = elim whole [ inl full ↦ inl (ap suc full) | inr rest ↦ inr rest ] in
    let (u, steps, ended) =
      drain m back t (b +ℤ pos (length (x ∷ front))) status (omega (arith, short))
        (Step-Inv s t i step) refl e (read_some (length front) b) in
    (u, after s t u step w steps, ended)

drain_served : (s : System) → Inv s → Served s → (t : System) × WholeSteps s t × Ended t
drain_served s i (t, (steps, w), e, b, c) =
    let (u, (more, w'), ended) =
      drain (length t.pipe) t.pipe t b (pos 0) (omega arith) (keeps s t i steps) refl e c in
    (u, WholeSteps-trans s t u more w' (steps, w), ended)

finish :
    (v : Server) (s : System) (b : ℤ)
    → Inv s
    → s.server ≡ v
    → v ≢ killed
    → s.client ≡ reading b
    → (t : System) × WholeSteps s t × Ended t
finish opening s b i e alive c =
    let t = record s { server = sending 0 } in
    drain_served s i (served_after s t (opens e c) tt (serve max_size 0 t b refl (omega arith) c))
finish (sending n) s b i e alive c = drain_served s i (serve max_size n s b e (omega arith) c)
finish (returned status) s b i e alive c =
    drain (length s.pipe) s.pipe s b status (omega arith) i refl e c
finish killed s b i e alive c = absurd (alive refl)

-- In every state that the steps of the two programs lead to and in which the client still reads and
-- the server has not been killed, the two can go on, by writes of a whole buffer and reads of a whole
-- buffer or all that is there, so that both end, the client has received all that the server has
-- sent, at least 10240 bytes, and has counted them.
pub can_finish :
    (s : System)
    → Steps init s
    → (b : ℤ) → s.client ≡ reading b
    → s.server ≢ killed
    → (t : System) × WholeSteps s t × Ended t
can_finish s steps b c alive = finish s.server s b (Steps-Inv s steps) refl alive c

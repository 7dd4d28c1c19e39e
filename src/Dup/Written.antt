-- ===== src/Dup/Written.antt =====
-- Where dup-dup2-example.cpp writes.
use mathlib.Core.List.{append_assoc, append-nil}
use everyday_coding.Base.{
  ℕ, ◌≡◌, ◌≢◌, refl, sym, ap, ◌∙◌, inl, inr, Bool, Bool-cases, eq-cases, true, false, Option, none,
  some, [], ◌++◌, ◌==◌, length, if◌then◌else◌, update, arith,
}
use everyday_coding.CString.{Str}
use everyday_coding.CString.Laws.{take-all}
use everyday_coding.Dup.{
  dup_txt, terminal, Files, Replies, file_of, append_to, install, dup, dup2, write_fd, printf,
  in_the_file, open_error, buf, dup2_test, main,
}

-- Every write takes all bytes.
pub record IsWhole (k : Replies) : Type 0 where
  pub whole : (call size : ℕ) → k.accepts call size ≡ size

-- A descriptor in an answer is not open, and dup does not answer the one of open.
pub record IsFresh (k : Replies) (w : Files) : Type 0 where
  pub opened : (fd : ℕ) → k.open_answer ≡ some fd → w.fds fd ≡ none
  pub copied : (fd : ℕ) → k.dup_answer ≡ some fd → w.fds fd ≡ none
  pub apart : (fd : ℕ) → k.open_answer ≡ some fd → k.dup_answer ≢ some fd

-- What the file gets, by the answers of open, dup and dup2.
abbrev pub file_gets : Option ℕ → Option ℕ → Bool → Str
file_gets none copy fails = []
file_gets (some fd) none fails = buf ++ (if fails then [] else in_the_file)
file_gets (some fd) (some copy) fails = buf ++ buf ++ (if fails then [] else in_the_file)

abbrev pub terminal_gets : Option ℕ → Bool → Str
terminal_gets none fails = open_error ++ in_the_file
terminal_gets (some fd) fails = if fails then in_the_file else []

-- The file and the terminal after a run.
abbrev pub IsWritten : Replies → Files → Files → Type 0
IsWritten k w w' =
    (w'.in_file ≡ w.in_file ++ file_gets k.open_answer k.dup_answer k.dup2_fails)
    × (w'.on_terminal ≡ w.on_terminal ++ terminal_gets k.open_answer k.dup2_fails)

not_open : (w : Files) (fd : ℕ) → w.fds 1 ≡ some terminal → w.fds fd ≡ none → (1 == fd) ≡ false
not_open w fd t n = elim (Bool-cases (1 == fd)) [
  | inl e ↦ let same : fd ≡ 1 = ground arith in let n' = rw same at n in cc
  | inr ne ↦ ne
]

write_fd-whole :
    (k : Replies) (call : ℕ) (fd : Option ℕ) (text : Str) (w : Files)
    → IsWhole k
    → write_fd k call fd text w ≡ append_to (file_of w fd) text w
unfolding write_fd
write_fd-whole k call fd text w is =
    let all =
      take-all text (k.accepts call (length text)) (omega (arith, is.whole call (length text))) in
    rw (write_fd, all) refl

dup-lem :
    (k : Replies) (fd : ℕ) (w : Files)
    → w.fds fd ≡ some dup_txt
    → dup k (some fd) w ≡ (k.dup_answer, install k.dup_answer dup_txt w)
unfolding dup
dup-lem k fd w at = rw (dup, at) refl

-- The end of the program: its text goes to the file, or where dup2 fails to the terminal.
dup2_test-lem :
    (k : Replies) (fd : ℕ) (w : Files)
    → w.fds fd ≡ some dup_txt
    → w.fds 1 ≡ some terminal
    → ((dup2_test k (some fd) w).in_file ≡ w.in_file ++ (if k.dup2_fails then [] else in_the_file))
      × ((dup2_test k (some fd) w).on_terminal
          ≡ w.on_terminal ++ (if k.dup2_fails then in_the_file else []))
unfolding dup2_test dup2 printf
dup2_test-lem k fd w at t = elim (Bool-cases k.dup2_fails) [
  | inl e ↦ rw (dup2_test, dup2, at, e, printf, t) (sym (append-nil w.in_file), refl)
  | inr e ↦ rw (dup2_test, dup2, at, e, printf) (refl, sym (append-nil w.on_terminal))
]

module _ (accepts : ℕ → ℕ → ℕ) (w : Files) (t : w.fds 1 ≡ some terminal) where
  answers_lem :
      (o d : Option ℕ) (b : Bool)
      → let k : Replies = record {
        open_answer = o;
        dup_answer = d;
        dup2_fails = b;
        accepts = accepts;
      } in
        IsWhole k → IsFresh k w → IsWritten k w (main k w)
  unfolding main dup dup2_test dup2 printf
  answers_lem none d b whole fresh =
      let k : Replies = record {
        open_answer = none;
        dup_answer = d;
        dup2_fails = b;
        accepts = accepts;
      } in
      rw (write_fd-whole k 0 none buf _ whole, write_fd-whole k 1 none buf _ whole, printf, t, t)
        (sym (append-nil w.in_file), append_assoc w.on_terminal open_error in_the_file)
  answers_lem (some fd) none b whole fresh =
      let k : Replies = record {
        open_answer = some fd;
        dup_answer = none;
        dup2_fails = b;
        accepts = accepts;
      } in
      let off = not_open w fd t (fresh.opened fd refl) in
      let self : (fd == fd) ≡ true = ground arith in
      let fds = update w.fds fd (some dup_txt) in
      let w1 : Files = record w { fds = fds } in
      let w2 : Files = record w { fds = fds; in_file = w.in_file ++ buf } in
      let at : fds fd ≡ some dup_txt = rw self refl in
      let one : fds 1 ≡ some terminal = rw off t in
      let first : write_fd k 0 (some fd) buf w1 ≡ w2 =
        write_fd-whole k 0 (some fd) buf w1 whole ∙ rw at refl in
      let end = dup2_test-lem k fd w2 at one in
      let run : main k w ≡ dup2_test k (some fd) w2 =
        rw (main, dup-lem k fd w1 at, first, write_fd-whole k 1 none buf w2 whole) refl in
      rw run (end.0 ∙ append_assoc w.in_file buf _, end.1)
  answers_lem (some fd) (some copy) b whole fresh =
      let k : Replies = record {
        open_answer = some fd;
        dup_answer = some copy;
        dup2_fails = b;
        accepts = accepts;
      } in
      let off = not_open w fd t (fresh.opened fd refl) in
      let off' = not_open w copy t (fresh.copied copy refl) in
      let self : (fd == fd) ≡ true = ground arith in
      let self' : (copy == copy) ≡ true = ground arith in
      let apart : (fd == copy) ≡ false = elim (eq-cases fd copy) [
        | inl e ↦ absurd (fresh.apart fd refl (ap some (sym e)))
        | inr ne ↦ ne
      ] in
      let fds = update w.fds fd (some dup_txt) in
      let fds' = update fds copy (some dup_txt) in
      let w1 : Files = record w { fds = fds } in
      let w2 : Files = record w { fds = fds' } in
      let w3 : Files = record w { fds = fds'; in_file = w.in_file ++ buf } in
      let w4 : Files = record w { fds = fds'; in_file = w.in_file ++ buf ++ buf } in
      let at : fds fd ≡ some dup_txt = rw self refl in
      let at' : fds' fd ≡ some dup_txt = rw (apart, self) refl in
      let copy_at : fds' copy ≡ some dup_txt = rw self' refl in
      let one : fds' 1 ≡ some terminal = rw (off', off) t in
      let first : write_fd k 0 (some fd) buf w2 ≡ w3 =
        write_fd-whole k 0 (some fd) buf w2 whole ∙ rw at' refl in
      let second : write_fd k 1 (some copy) buf w3 ≡ w4 =
        write_fd-whole k 1 (some copy) buf w3 whole ∙ rw copy_at refl in
      let end = dup2_test-lem k fd w4 at' one in
      let run : main k w ≡ dup2_test k (some fd) w4 =
        rw (main, dup-lem k fd w1 at, first, second) refl in
      let last : Str = if b then [] else in_the_file in
      let text = ap (λ s. s ++ last) (append_assoc w.in_file buf buf) in
      rw run (end.0 ∙ text ∙ append_assoc w.in_file (buf ++ buf) last, end.1)

-- Where every write takes all bytes, and open and dup answer descriptors that are not open, the file
-- gets the line once for each of the two descriptors that there are, and the last text is written to
-- it too unless dup2 fails; then that text goes to the terminal. Where open fails the file gets
-- nothing, and the terminal the message and that text.
pub main-Written :
    (k : Replies) (w : Files)
    → w.fds 1 ≡ some terminal
    → IsWhole k
    → IsFresh k w
    → IsWritten k w (main k w)
main-Written k w t whole fresh =
    answers_lem k.accepts w t k.open_answer k.dup_answer k.dup2_fails whole fresh

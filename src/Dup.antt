-- ===== src/Dup.antt =====
-- dup_dup2/dup-dup2-example.cpp: two descriptors of one file, and the file in place of the terminal.
-- The file is opened with O_APPEND, so that what is written goes to its end.
pub mod Written
mod Tests
use everyday_coding.Base.{
  ℕ, Bool, true, false, Option, none, some, [], ◌∷◌, ◌++◌, length, if◌then◌else◌, update,
}
use everyday_coding.CString.{Str, bytes, take}

-- What a descriptor refers to.
pub data File : Type 0 where
  dup_txt terminal : File

pub record Files : Type 0 where
  pub fds : ℕ → Option File
  pub in_file : Str
  pub on_terminal : Str

-- What the system calls answer, each of them called once but for write: the descriptors of open and
-- dup, where `none` is -1, whether dup2 fails, and how many bytes each call of write takes.
pub record Replies : Type 0 where
  pub open_answer : Option ℕ
  pub dup_answer : Option ℕ
  pub dup2_fails : Bool
  pub accepts : (call size : ℕ) → ℕ

abbrev pub file_of : Files → Option ℕ → Option File
file_of w none = none
file_of w (some fd) = w.fds fd

abbrev pub append_to : Option File → Str → Files → Files
append_to none text w = w
append_to (some dup_txt) text w = record w { in_file = w.in_file ++ text }
append_to (some terminal) text w = record w { on_terminal = w.on_terminal ++ text }

-- A call that answers a descriptor for a file.
abbrev pub install : Option ℕ → File → Files → Files
install none f w = w
install (some fd) f w = record w { fds = update w.fds fd (some f) }

-- dup
unfoldable pub dup : Replies → Option ℕ → Files → Option ℕ × Files
dup k fd w = elim (file_of w fd) [
  | none ↦ (none, w)
  | some f ↦ (k.dup_answer, install k.dup_answer f w)
]

-- dup2(fd, 1)
unfoldable pub dup2 : Replies → Option ℕ → Files → Files
dup2 k fd w = elim (file_of w fd) [
  | none ↦ w
  | some f ↦ if k.dup2_fails then w else install (some 1) f w
]

-- write, the call number `call`
unfoldable pub write_fd : Replies → (call : ℕ) → Option ℕ → Str → Files → Files
write_fd k call fd text w = append_to (file_of w fd) (take (k.accepts call (length text)) text) w

-- printf to descriptor 1, which is taken to write the whole text.
unfoldable pub printf : Str → Files → Files
printf text w = append_to (w.fds 1) text w

abbrev pub in_the_file : Str
in_the_file = bytes "I will printed in the file\n"

abbrev pub open_error : Str
open_error = bytes "open file error\n"

-- `buf` with its NUL, which `sizeof` counts.
abbrev pub buf : Str
buf = bytes "this will be output to file dup.txt\n" ++ 0 ∷ []

unfoldable pub dup2_test : Replies → Option ℕ → Files → Files
dup2_test k fd w = printf in_the_file (dup2 k fd w)

abbrev pub report : Option ℕ → Files → Files
report none w = printf open_error w
report (some fd) w = w

unfoldable pub main : Replies → Files → Files
main k w =
    let file_desc = k.open_answer in
    let w1 = report file_desc (install file_desc dup_txt w) in
    let (copy_desc, w2) = dup k file_desc w1 in
    dup2_test k file_desc (write_fd k 1 copy_desc buf (write_fd k 0 file_desc buf w2))

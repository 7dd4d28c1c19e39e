-- ===== src/Getdents.antt =====
-- getdents64/getdents64_test.c: the listing of a directory by the system call getdents64. The answers
-- of the calls are arguments; each is the bytes that the call leaves in the buffer, and `none` is -1.
-- The loops run on fuel, and a result `none` is a loop that runs out of it.
pub mod Bytes
pub mod Records
mod Tests
use everyday_coding.Base.{
  ℕ, zero, suc, ◌+◌, ◌*◌, ◌^◌, Bool, true, false, Option, none, some, List, [], ◌∷◌, ◌++◌, ltb,
  ◌==◌, if◌then◌else◌, length,
}
use everyday_coding.Base.Int.{ℤ, to_signed}
use everyday_coding.CString.{Str, bytes, take, drop, up_to_nul, is_empty}

-- little-endian numbers
abbrev pub le : Str → ℕ
le [] = 0
le (b ∷ bs) = b + 256 * le bs

-- the fields of the struct linux_dirent64 at which the bytes begin
abbrev field : (offset width : ℕ) → Str → ℕ
field offset width d = le (take width (drop offset d))

abbrev pub d_ino : Str → ℤ
d_ino d = to_signed (2 ^ 63) (field 0 8 d)

abbrev pub d_off : Str → ℤ
d_off d = to_signed (2 ^ 63) (field 8 8 d)

abbrev pub d_reclen : Str → ℕ
d_reclen d = field 16 2 d

abbrev pub d_type : Str → ℕ
d_type d = field 18 1 d

abbrev pub d_name : Str → Str
d_name d = up_to_nul (drop 19 d)

pub data FileType : Type 0 where
  regular directory fifo sock symlink block_dev char_dev unknown : FileType

abbrev pub file_type : ℕ → FileType
file_type t =
    if t == 8
    then regular
    else (if t == 4
        then directory
        else (if t == 1
            then fifo
            else (if t == 12
                then sock
                else (if t == 10
                    then symlink
                    else (if t == 6 then block_dev else (if t == 2 then char_dev else unknown))))))

-- what is printed for an entry
pub record Line : Type 0 where
  pub inode : ℤ
  pub kind : FileType
  pub reclen : ℕ
  pub off : ℤ
  pub name : Str

pub data Output : Type 0 where
  heading : (nread : ℕ) → Output
  entry : Line → Output

abbrev pub line_of : Str → Line
line_of d = record {
  inode = d_ino d;
  kind = file_type (d_type d);
  reclen = d_reclen d;
  off = d_off d;
  name = d_name d;
}

abbrev pub prepend {ℓ} : {A : Type ℓ} → A → Option (List A) → Option (List A)
prepend x none = none
prepend x (some xs) = some (x ∷ xs)

-- the inner loop
pub show_entries : (fuel : ℕ) → (buf : Str) → (bpos nread : ℕ) → Option (List Output)
show_entries zero buf bpos nread = none
show_entries (suc fuel) buf bpos nread =
    let d = drop bpos buf in
    let rest = show_entries fuel buf (bpos + d_reclen d) nread in
    if ltb bpos nread then prepend (entry (line_of d)) rest else some []

-- What the program prints, and its exit status.
abbrev pub Run : Type 0
Run = Option (List Output × ℕ)

abbrev pub after_entries : (nread : ℕ) → Option (List Output) → Run → Run
after_entries nread none later = none
after_entries nread (some lines) none = none
after_entries nread (some lines) (some (out, status)) = some (heading nread ∷ lines ++ out, status)

abbrev pub after_getdents : Option Str → (later : Run) → Run
after_getdents none later = some ([], 1)
after_getdents (some buf) later =
    let nread = length buf in
    if nread == 0
    then some ([], 0)
    else after_entries nread (show_entries (suc nread) buf 0 nread) later

-- the outer loop from call `i` on
pub read_all : (fuel : ℕ) → (answers : ℕ → Option Str) → (i : ℕ) → Run
read_all zero answers i = none
read_all (suc fuel) answers i = after_getdents (answers i) (read_all fuel answers (i + 1))

-- argc > 1 ? argv[1] : "."
abbrev pub path_of : (argv : List Str) → Str
path_of (program ∷ argument ∷ more) = argument
path_of _ = bytes "."

-- `open_answer` is whether open succeeds.
unfoldable pub main :
    (open_answer : Str → Bool)
    → (answers : Str → ℕ → Option Str) → (fuel : ℕ) → (argv : List Str) → Run
main open_answer answers fuel argv =
    let path = path_of argv in
    if open_answer path then read_all fuel (answers path) 0 else some ([], 1)

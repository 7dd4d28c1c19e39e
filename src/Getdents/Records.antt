-- ===== src/Getdents/Records.antt =====
-- What is printed for the records of a directory.
use mathlib.Core.Path.{subst}
use mathlib.Core.List.{append_assoc, append-nil}
use everyday_coding.Base.{
  ℕ, zero, suc, ◌+◌, ◌<◌, ◌^◌, ◌≡◌, refl, sym, ap, ◌∙◌, Bool, true, false, Option, some, List, [],
  ◌∷◌, ◌++◌, map, arith, ltb, ◌==◌, has, length, length-append,
}
use everyday_coding.Base.Int.{to_signed}
use everyday_coding.CString.Laws.{up_to_nul-append}
use everyday_coding.CString.{Str, drop}
use everyday_coding.Getdents.{
  d_reclen, file_type, Output, heading, entry, line_of, show_entries, after_getdents, read_all,
  path_of, main,
}
use everyday_coding.Getdents.Bytes.{le_bytes, le-le_bytes_8, le-le_bytes_2}

-- A record of the kernel: the inode, the offset, the type and the name of an entry, and the bytes
-- behind the name's NUL.
pub record Dirent : Type 0 where
  pub ino : ℕ
  pub off : ℕ
  pub type : ℕ
  pub name : Str
  pub padding : Str

abbrev pub reclen_of : Dirent → ℕ
reclen_of e = 20 + length e.name + length e.padding

abbrev pub encode : Dirent → Str
encode e =
    le_bytes 8 e.ino
    ++ le_bytes 8 e.off
    ++ le_bytes 2 (reclen_of e)
    ++ e.type ∷ e.name
    ++ 0 ∷ e.padding

abbrev pub encode_all : List Dirent → Str
encode_all [] = []
encode_all (e ∷ es) = encode e ++ encode_all es

-- The numbers fit in their fields, and the name has no NUL.
abbrev pub IsDirent : Dirent → Type 0
IsDirent e = (e.ino < 2 ^ 64) × (e.off < 2 ^ 64) × (reclen_of e < 2 ^ 16) × (has 0 e.name ≡ false)

abbrev pub AllDirents : List Dirent → Type 0
AllDirents [] = Unit {0}
AllDirents (e ∷ es) = IsDirent e × AllDirents es

-- what is to be printed for a record
abbrev pub shown : Dirent → Output
shown e = entry (record {
  inode = to_signed (2 ^ 63) e.ino;
  kind = file_type e.type;
  reclen = reclen_of e;
  off = to_signed (2 ^ 63) e.off;
  name = e.name;
})

drop-append : (front rest : Str) → drop (length front) (front ++ rest) ≡ rest
drop-append [] rest = refl
drop-append (c ∷ front) rest = drop-append front rest

length-encode : (e : Dirent) → length (encode e) ≡ reclen_of e
length-encode e = omega (arith, length-append e.name (0 ∷ e.padding))

-- Reading a record gives back what it was made of.
line_of-encode :
    (e : Dirent) (rest : Str) → IsDirent e → entry (line_of (encode e ++ rest)) ≡ shown e
line_of-encode e rest (ino, off, reclen, clean) =
    let whole : e.type + 0 ≡ e.type = omega arith in
    rw
      (
        append_assoc e.name (0 ∷ e.padding) rest,
        up_to_nul-append e.name (e.padding ++ rest) clean,
        le-le_bytes_8 e.ino ino,
        le-le_bytes_8 e.off off,
        le-le_bytes_2 (reclen_of e) reclen,
        whole,
      )
      refl

d_reclen-encode : (e : Dirent) (rest : Str) → IsDirent e → d_reclen (encode e ++ rest) ≡ reclen_of e
d_reclen-encode e rest (ino, off, reclen, clean) = le-le_bytes_2 (reclen_of e) reclen

inside : (front d : Str) → 0 < length d → ltb (length front) (length (front ++ d)) ≡ true
inside front d some_bytes = ground (arith, length-append front d)

show_step :
    (k : ℕ) (front d : Str) (out : List Output)
    → 0 < length d
    → show_entries k (front ++ d) (length front + d_reclen d) (length (front ++ d)) ≡ some out
    → show_entries (suc k) (front ++ d) (length front) (length (front ++ d))
      ≡ some (entry (line_of d) ∷ out)
unfolding show_entries
show_step k front d out some_bytes e = rw (drop-append front d, inside front d some_bytes, e) refl

show_entries_lem :
    (es : List Dirent) (fuel : ℕ) (front : Str)
    → AllDirents es
    → length (encode_all es) < fuel
    → show_entries fuel (front ++ encode_all es) (length front) (length (front ++ encode_all es))
      ≡ some (map shown es)
unfolding show_entries
show_entries_lem es zero front all lt = absurd (omega arith)
show_entries_lem [] (suc k) front all lt =
    let over : ltb (length front) (length front) ≡ false = ground arith in
    rw (append-nil front, over) refl
show_entries_lem (e ∷ es) (suc k) front all lt =
    let rest = encode_all es in
    let bytes_of : Str = encode e in
    let more : length (bytes_of ++ rest) ≡ reclen_of e + length rest =
      length-append bytes_of rest ∙ ap (λ n. n + length rest) (length-encode e) in
    let ih = show_entries_lem es k (front ++ bytes_of) all.1 (omega (arith, more, lt)) in
    let at : length (front ++ bytes_of) ≡ length front + d_reclen (bytes_of ++ rest) =
      length-append front bytes_of
      ∙ ap (λ n. length front + n) (length-encode e ∙ sym (d_reclen-encode e rest all.0)) in
    let next =
      subst (λ b. show_entries k b (length (front ++ bytes_of)) (length b) ≡ some (map shown es))
        (append_assoc front bytes_of rest) ih in
    let next' =
      subst
        (λ p.
          show_entries k (front ++ (bytes_of ++ rest)) p (length (front ++ (bytes_of ++ rest)))
          ≡ some (map shown es))
        at next in
    show_step k front (bytes_of ++ rest) (map shown es) (omega (arith, more)) next'
    ∙ ap (λ l. some (l ∷ map shown es)) (line_of-encode e rest all.0)

-- The calls return the batches of records, none of them empty, and then nothing.
abbrev pub Returns : (ℕ → Option Str) → ℕ → List (Dirent × List Dirent) → Type 0
Returns answers i [] = answers i ≡ some []
Returns answers i ((e, es) ∷ batches) =
    (answers i ≡ some (encode_all (e ∷ es))) × AllDirents (e ∷ es) × Returns answers (i + 1) batches

-- The listing of the batches: a heading for each call, and below it a line for each record.
abbrev pub listing : List (Dirent × List Dirent) → List Output
listing [] = []
listing ((e, es) ∷ batches) =
    heading (length (encode_all (e ∷ es))) ∷ map shown (e ∷ es) ++ listing batches

call_by :
    (buf : Str) (lines out : List Output)
    → 0 < length buf
    → show_entries (suc (length buf)) buf 0 (length buf) ≡ some lines
    → after_getdents (some buf) (some (out, 0)) ≡ some (heading (length buf) ∷ lines ++ out, 0)
call_by buf lines out some_bytes e =
    let not_last : (length buf == 0) ≡ false = ground arith in rw (not_last, e) refl

call_lem :
    (e : Dirent) (es : List Dirent) (out : List Output)
    → AllDirents (e ∷ es)
    → after_getdents (some (encode_all (e ∷ es))) (some (out, 0))
      ≡ some (heading (length (encode_all (e ∷ es))) ∷ map shown (e ∷ es) ++ out, 0)
call_lem e es out all =
    let buf : Str = encode_all (e ∷ es) in
    call_by buf (map shown (e ∷ es)) out (omega arith)
      (show_entries_lem (e ∷ es) (suc (length buf)) [] all (omega arith))

read_all_lem :
    (batches : List (Dirent × List Dirent)) (fuel : ℕ) (answers : ℕ → Option Str) (i : ℕ)
    → Returns answers i batches
    → length batches < fuel
    → read_all fuel answers i ≡ some (listing batches, 0)
unfolding read_all
read_all_lem batches zero answers i r lt = absurd (omega arith)
read_all_lem [] (suc fuel) answers i r lt =
    ap (λ a. after_getdents a (read_all fuel answers (i + 1))) r
read_all_lem ((e, es) ∷ batches) (suc fuel) answers i (now, all, later) lt =
    let rest = read_all_lem batches fuel answers (i + 1) later (omega arith) in
    ap (λ a. after_getdents a (read_all fuel answers (i + 1))) now
    ∙ ap (after_getdents (some (encode_all (e ∷ es)))) rest
    ∙ call_lem e es (listing batches) all

-- When open succeeds and the calls of getdents64 return records in batches, none of them empty,
-- and then nothing, where the numbers fit in their fields and no name has a NUL, the program
-- terminates with status 0, with fuel for one call more than there are batches, and has printed
-- every record in order, each once, with its fields as they were encoded, below a heading for its
-- batch.
pub main-listing :
    (open_answer : Str → Bool) (answers : Str → ℕ → Option Str) (fuel : ℕ) (argv : List Str)
    (batches : List (Dirent × List Dirent))
    → open_answer (path_of argv) ≡ true
    → Returns (answers (path_of argv)) 0 batches
    → length batches < fuel
    → main open_answer answers fuel argv ≡ some (listing batches, 0)
unfolding main
main-listing open_answer answers fuel argv batches opens r lt =
    rw opens (read_all_lem batches fuel (answers (path_of argv)) 0 r lt)

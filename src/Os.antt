-- ===== src/Os.antt =====
-- The operating system under obtain_container_ip/: what its calls do to the descriptors, streams and
-- namespaces of the process. What a call answers is a parameter, the record Kernel.
pub mod Laws
pub mod Samples
use everyday_coding.Base.{
  ℕ, suc, ◌+◌, ◌-◌, ◌≡◌, Bool, true, false, Option, none, some, List, [], ◌∷◌, ◌==◌, if◌then◌else◌,
  update, has, count, length,
}
use everyday_coding.CString.{Str, bytes, same_bytes}

pub data Kind : Type 0 where
  net mnt : Kind

-- /proc/self/ns/
abbrev pub self_path : Kind → Str
self_path net = bytes "/proc/self/ns/net"
self_path mnt = bytes "/proc/self/ns/mnt"

abbrev pub remove : ℕ → List ℕ → List ℕ
remove fd [] = []
remove fd (x ∷ xs) = if fd == x then xs else x ∷ remove fd xs

-- The process: its open descriptors, the namespace that each refers to, the namespaces it is in,
-- and how many streams, directories and heap blocks it holds. A namespace has the name by which
-- it was opened. `calls` counts the system calls, so that a call can answer differently later.
pub record Os : Type 0 where
  pub fds : List ℕ
  pub refers : ℕ → Str
  pub net_ns : Str
  pub mnt_ns : Str
  pub streams : ℕ
  pub dirs : ℕ
  pub blocks : ℕ
  pub calls : ℕ

-- What the calls answer. A stream is what can be read from it, a directory its names; `none` is a
-- failure.
pub record Kernel : Type 0 where
  pub open_answer : Os → Str → Option ℕ
  pub setns_answer : Os → ℕ → Kind → Bool
  pub popen_answer : Os → Str → Option Str
  pub fopen_answer : Os → Str → Option Str
  pub opendir_answer : Os → Str → Option (List Str)

abbrev pub Action : Type 0 → Type 0
Action A = Os → A × Os

abbrev pub pure : {A : Type 0} → A → Action A
pure a s = (a, s)

infixl 5 ◌>>=◌ ◌>>◌
abbrev pub ◌>>=◌ : {A B : Type 0} → Action A → (A → Action B) → Action B
◌>>=◌ m f s = f (m s).0 (m s).1

abbrev pub ◌>>◌ : {A B : Type 0} → Action A → Action B → Action B
m >> k = m >>= λ _. k

-- the namespace that a path names
abbrev pub names : Os → Str → Str
names s path =
    if same_bytes path (self_path net)
    then s.net_ns
    else (if same_bytes path (self_path mnt) then s.mnt_ns else path)

abbrev pub tick : Os → Os
tick s = record s { calls = suc s.calls }

abbrev pub close : ℕ → Action Unit
close fd s = (tt, tick (record s { fds = remove fd s.fds }))

abbrev pub opened : Str → ℕ → Os → Os
opened path fd s = tick (record s { fds = fd ∷ s.fds; refers = update s.refers fd (names s path) })

abbrev pub enter : Kind → Str → Os → Os
enter kind n s = record s {
  net_ns = elim kind [ net ↦ n | mnt ↦ s.net_ns ];
  mnt_ns = elim kind [ net ↦ s.mnt_ns | mnt ↦ n ];
}

-- The end of a stream, of a directory, and a call of malloc.
abbrev pub close_stream : Action Unit
close_stream s = (tt, tick (record s { streams = s.streams - 1 }))

abbrev pub closedir : Action Unit
closedir s = (tt, tick (record s { dirs = s.dirs - 1 }))

abbrev pub malloc : Action Unit
malloc s = (tt, tick (record s { blocks = suc s.blocks }))

-- What the answer of a call does.
abbrev pub answer_open : Str → Option ℕ → Action (Option ℕ)
answer_open path none s = (none, tick s)
answer_open path (some fd) s = (some fd, opened path fd s)

abbrev pub answer_setns : ℕ → Kind → Bool → Action Bool
answer_setns fd kind false s = (false, tick s)
answer_setns fd kind true s = (true, tick (enter kind (s.refers fd) s))

abbrev pub answer_stream : Option Str → Action (Option Str)
answer_stream none s = (none, tick s)
answer_stream (some content) s = (some content, tick (record s { streams = suc s.streams }))

abbrev pub answer_opendir : Option (List Str) → Action (Option (List Str))
answer_opendir none s = (none, tick s)
answer_opendir (some entries) s = (some entries, tick (record s { dirs = suc s.dirs }))

module _ (k : Kernel) where
  abbrev pub open_path : Str → Action (Option ℕ)
  open_path path s = answer_open path (k.open_answer s path) s

  -- `true` is success
  abbrev pub setns : ℕ → Kind → Action Bool
  setns fd kind s = answer_setns fd kind (k.setns_answer s fd kind) s

  abbrev pub popen : Str → Action (Option Str)
  popen command s = answer_stream (k.popen_answer s command) s

  abbrev pub fopen : Str → Action (Option Str)
  fopen path s = answer_stream (k.fopen_answer s path) s

  abbrev pub opendir : Str → Action (Option (List Str))
  opendir path s = answer_opendir (k.opendir_answer s path) s

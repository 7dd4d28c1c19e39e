-- ===== src/Veth/Nic.antt =====
-- Which interface find_nic returns, when the files do not change while it runs.
use everyday_coding.Base.{
  ◌≡◌, refl, ap, ◌∙◌, Bool, false, not, ◌&&◌, Option, none, some, List, [], ◌∷◌, ◌++◌, leb,
  if◌then◌else◌, length, Bool-cases, inl, inr,
}
use everyday_coding.Base.Int.{ℤ, negsuc}
use everyday_coding.CString.{Str, bytes, starts_with_dot}
use everyday_coding.Os.{Os, Kernel, answer_stream, answer_opendir, ◌>>=◌, malloc}
use everyday_coding.Veth.{
  same_ℤ, file_value, read_iflink_or_ifindex_file, after_fopen, search, find_nic, after_opendir,
  after_search,
}

-- Opening a file gives its content, whatever happened before.
pub record IsStable (k : Kernel) (content : Str → Option Str) : Type 0 where
  pub reads : (s : Os) (path : Str) → k.fopen_answer s path ≡ content path

abbrev pub AllShort : List Str → Type 0
AllShort [] = Unit {0}
AllShort (d ∷ ds) = (leb 233 (length d) ≡ false) × AllShort ds

abbrev pub ifindex_path : Str → Str
ifindex_path d = bytes "/sys/class/net/" ++ d ++ bytes "/ifindex"

module _ (content : Str → Option Str) (garbage : Str) where
  -- the number in a file, and -1 without it
  abbrev pub number_in : Str → ℤ
  number_in path = elim (content path) [ none ↦ negsuc 0 | some text ↦ file_value garbage text ]

  -- An entry that is not hidden and whose ifindex is the number wanted.
  abbrev pub is_nic : ℤ → Str → Bool
  is_nic iflink d = not (starts_with_dot d) && same_ℤ iflink (number_in (ifindex_path d))

  -- the first such entry, and the empty string if there is none
  abbrev pub first_nic : ℤ → List Str → Str
  first_nic iflink [] = []
  first_nic iflink (d ∷ ds) = let rest = first_nic iflink ds in if is_nic iflink d then d else rest

  module _ (k : Kernel) (law : IsStable k content) where
    by_content :
        (o : Option Str) (s : Os)
        → ((answer_stream o >>= after_fopen k garbage) s).0
          ≡ (elim o [ none ↦ negsuc 0 | some text ↦ file_value garbage text ])
    by_content none s = refl
    by_content (some text) s = refl

    read_lem :
        (path : Str) (s : Os) → (read_iflink_or_ifindex_file k garbage path s).0 ≡ number_in path
    unfolding read_iflink_or_ifindex_file
    read_lem path s =
        ap (λ o. ((answer_stream o >>= after_fopen k garbage) s).0) (law.reads s path)
        ∙ by_content (content path) s

    search_lem :
        (iflink : ℤ) (entries : List Str) (s : Os)
        → AllShort entries
        → (search k garbage iflink entries s).0 ≡ some (first_nic iflink entries)
    unfolding search
    search_lem iflink [] s short = refl
    search_lem iflink (d ∷ ds) s short = elim (Bool-cases (starts_with_dot d)) [
      | inl dot ↦ rw dot (search_lem iflink ds s short.1)
      | inr plain ↦
          let value = read_lem (ifindex_path d) s in
          elim (Bool-cases (same_ℤ iflink (number_in (ifindex_path d)))) [
            | inl same ↦ rw (plain, short.0, value, same) refl
            | inr differ ↦ rw (plain, short.0, value, differ) (search_lem iflink ds _ short.1)
          ]
    ]

    by_entries :
        (iflink : ℤ) (s : Os) (entries : List Str)
        → AllShort entries
        → ((answer_opendir (some entries) >>= after_opendir k garbage iflink) s).0
          ≡ some (some (first_nic iflink entries))
    by_entries iflink s entries short =
        let t = (malloc (answer_opendir (some entries) s).1).1 in
        ap (λ r. (after_search k garbage r (search k garbage iflink entries t).1).0)
          (search_lem iflink entries t short)

    -- When opening a file gives the same content whatever happened before, and /sys/class/net can
    -- be opened and has no name longer than 232 bytes, find_nic returns the first name there that
    -- does not start with a dot and whose ifindex is `iflink`, and the empty string if there is
    -- none.
    pub find_nic-first :
        (iflink : ℤ) (s : Os) (entries : List Str)
        → k.opendir_answer s (bytes "/sys/class/net") ≡ some entries
        → AllShort entries
        → (find_nic k garbage iflink s).0 ≡ some (some (first_nic iflink entries))
    unfolding find_nic
    find_nic-first iflink s entries e short =
        ap (λ o. ((answer_opendir o >>= after_opendir k garbage iflink) s).0) e
        ∙ by_entries iflink s entries short

-- ===== src/Os/Laws.antt =====
-- What the programs rely on in the answers of the calls.
use everyday_coding.Base.{ℕ, ◌≡◌, some, false, has}
use everyday_coding.CString.{Str}
use everyday_coding.Os.{Os, Kernel}

-- open returns a descriptor that is not open.
pub record IsFresh (k : Kernel) : Type 0 where
  pub open_fresh :
      (s : Os) (path : Str) (fd : ℕ) → k.open_answer s path ≡ some fd → has fd s.fds ≡ false

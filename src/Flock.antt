-- ===== src/Flock.antt =====
-- process/child_inherit_flock.c and process/child_share_flock.c: a process that locks a file and
-- forks. The lock belongs to the open file that parent and child share. Steps of the two and of
-- other processes interleave in any order, from where the parent has opened the file.
pub mod Held
mod Tests
use everyday_coding.Base.{◌≡◌, ◌≢◌, Bool, true, false, Option, none, some}

pub data Program : Type 0 where
  inherit share : Program

-- Where the parent stands; `returned` is with status 0, and `failed` with status 1.
pub data Parent : Type 0 where
  locking forking unlocking relocking waiting printing returned failed : Parent

pub data Child : Type 0 where
  unborn sleeping done : Child

-- Who holds the lock of the file: nobody, the open file of the two processes, or another one.
pub data Holder : Type 0 where
  free ours theirs : Holder

-- flock(fd, LOCK_EX); `none` is to wait.
abbrev pub lock_ex : Holder → Option Holder
lock_ex theirs = none
lock_ex _ = some ours

-- flock(fd, LOCK_UN)
abbrev pub lock_un : Holder → Holder
lock_un theirs = theirs
lock_un _ = free

-- The end of a process closes its descriptor; `shared` is whether the other one still has it.
abbrev pub close_at_exit : (shared : Bool) → Holder → Holder
close_at_exit true h = h
close_at_exit false h = lock_un h

abbrev pub child_has_it : Child → Bool
child_has_it sleeping = true
child_has_it _ = false

abbrev pub parent_has_it : Parent → Bool
parent_has_it returned = false
parent_has_it failed = false
parent_has_it _ = true

-- where the parent goes on after fork
abbrev pub after_fork : Program → Parent
after_fork inherit = printing
after_fork share = unlocking

-- The states that the steps lead to.
pub data Reach (p : Program) : Parent → Child → Holder → Type 0 where
  opened : {h : Holder} → h ≢ ours → Reach p locking unborn h
  locked :
      {h h' : Holder} → Reach p locking unborn h → lock_ex h ≡ some h' → Reach p forking unborn h'
  lock_fails :
      {h : Holder} → Reach p locking unborn h → Reach p failed unborn (close_at_exit false h)
  forked : {h : Holder} → Reach p forking unborn h → Reach p (after_fork p) sleeping h
  fork_fails :
      {h : Holder} → Reach p forking unborn h → Reach p failed unborn (close_at_exit false h)
  unlocked : {c : Child} {h : Holder} → Reach p unlocking c h → Reach p relocking c (lock_un h)
  relocked :
      {c : Child} {h h' : Holder}
      → Reach p relocking c h
      → lock_ex h ≡ some h'
      → Reach p waiting c h'
  relock_fails : {c : Child} {h : Holder} → Reach p relocking c h → Reach p waiting c h
  waited : {h : Holder} → Reach p waiting done h → Reach p printing done h
  parent_ends :
      {c : Child} {h : Holder}
      → Reach p printing c h
      → Reach p returned c (close_at_exit (child_has_it c) h)
  child_ends :
      {q : Parent} {h : Holder}
      → Reach p q sleeping h
      → Reach p q done (close_at_exit (parent_has_it q) h)
  other_locks : {q : Parent} {c : Child} → Reach p q c free → Reach p q c theirs
  other_unlocks : {q : Parent} {c : Child} → Reach p q c theirs → Reach p q c free

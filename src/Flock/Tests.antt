-- ===== src/Flock/Tests.antt =====
-- The two programs of process/ at concrete orders of their steps.
use everyday_coding.Base.{refl}
use everyday_coding.Flock.{
  inherit, share, returned, relocking, sleeping, ours, theirs, Reach, opened, locked, forked,
  unlocked, parent_ends, other_locks,
}
use everyday_coding.Flock.Held.{Held, Reach-Held, free-other}

-- child_inherit_flock.c: the parent returns while the child sleeps.
outlived : Reach inherit returned sleeping ours
outlived = parent_ends (forked (locked (opened free-other) refl))

Reach-Held_example : Held inherit returned sleeping ours
Reach-Held_example = Reach-Held inherit returned sleeping ours outlived

-- child_share_flock.c: another process has the lock while the child still has the file open.
taken : Reach share relocking sleeping theirs
taken = other_locks (unlocked (forked (locked (opened free-other) refl)))

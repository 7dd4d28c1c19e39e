-- ===== src/Flock/Held.antt =====
-- Who holds the lock.
use mathlib.Core.Path.{subst}
use everyday_coding.Base.{◌≡◌, ◌≢◌, refl, sym, Option, none, some}
use everyday_coding.Flock.{
  Program, inherit, share, Parent, locking, forking, unlocking, relocking, waiting, printing,
  returned, failed, Child, unborn, sleeping, done, Holder, free, ours, theirs, lock_ex, lock_un,
  close_at_exit, child_has_it, parent_has_it, after_fork, Reach, opened, locked, lock_fails, forked,
  fork_fails, unlocked, relocked, relock_fails, waited, parent_ends, child_ends, other_locks,
  other_unlocks,
}

-- The lock while a child sleeps, and without one, when the parent has returned.
abbrev pub OutlivedBy : Child → Holder → Type 0
OutlivedBy sleeping h = h ≡ ours
OutlivedBy _ h = h ≢ ours

-- Who holds the lock, by where the processes stand. In `inherit` the two hold it from the fork on
-- until both have ended, in `share` until the parent unlocks it, when neither has it; it may then
-- get it again, and it returns after the child. In the end they do not hold it.
abbrev pub Held : Program → Parent → Child → Holder → Type 0
Held p locking c h = (c ≡ unborn) × (h ≢ ours)
Held p forking c h = (c ≡ unborn) × (h ≡ ours)
Held p failed c h = (c ≡ unborn) × (h ≢ ours)
Held inherit printing c h = h ≡ ours
Held inherit returned c h = OutlivedBy c h
Held inherit _ c h = ⊥
Held share unlocking c h = h ≡ ours
Held share relocking c h = h ≢ ours
Held share waiting c h = Unit {0}
Held share printing c h = c ≡ done
Held share returned c h = (c ≡ done) × (h ≢ ours)

abbrev IsOurs : Holder → Type 0
IsOurs ours = Unit {0}
IsOurs _ = ⊥

abbrev IsUnborn : Child → Type 0
IsUnborn unborn = Unit {0}
IsUnborn _ = ⊥

abbrev IsDone : Child → Type 0
IsDone done = Unit {0}
IsDone _ = ⊥

pub free-other : free ≢ ours
free-other e = subst IsOurs (sym e) tt

theirs-other : theirs ≢ ours
theirs-other e = subst IsOurs (sym e) tt

lock_un-other : (h : Holder) → lock_un h ≢ ours
lock_un-other free = free-other
lock_un-other ours = free-other
lock_un-other theirs = theirs-other

abbrev GivesOurs : Option Holder → Type 0
GivesOurs none = Unit {0}
GivesOurs (some h) = h ≡ ours

lock_ex-GivesOurs : (h : Holder) → GivesOurs (lock_ex h)
lock_ex-GivesOurs free = refl
lock_ex-GivesOurs ours = refl
lock_ex-GivesOurs theirs = tt

-- Other processes that take the lock or give it back.
others :
    (p : Program) (q : Parent) (c : Child) (h h' : Holder)
    → h ≢ ours
    → h' ≢ ours
    → Held p q c h
    → Held p q c h'
others p locking c h h' n n' (e, k) = (e, n')
others p forking c h h' n n' (e, k) = absurd (n k)
others p failed c h h' n n' (e, k) = (e, n')
others inherit printing c h h' n n' k = absurd (n k)
others inherit returned unborn h h' n n' k = n'
others inherit returned sleeping h h' n n' k = absurd (n k)
others inherit returned done h h' n n' k = n'
others inherit unlocking c h h' n n' k = k
others inherit relocking c h h' n n' k = k
others inherit waiting c h h' n n' k = k
others share unlocking c h h' n n' k = absurd (n k)
others share relocking c h h' n n' k = n'
others share waiting c h h' n n' k = tt
others share printing c h h' n n' k = k
others share returned c h h' n n' (e, k) = (e, n')

child_lem :
    (p : Program) (q : Parent) (h : Holder)
    → Held p q sleeping h
    → Held p q done (close_at_exit (parent_has_it q) h)
child_lem p locking h (e, k) = absurd (subst IsUnborn (sym e) tt)
child_lem p forking h (e, k) = absurd (subst IsUnborn (sym e) tt)
child_lem p failed h (e, k) = absurd (subst IsUnborn (sym e) tt)
child_lem inherit printing h k = k
child_lem inherit returned h k = lock_un-other h
child_lem inherit unlocking h k = k
child_lem inherit relocking h k = k
child_lem inherit waiting h k = k
child_lem share unlocking h k = k
child_lem share relocking h k = k
child_lem share waiting h k = tt
child_lem share printing h k = refl
child_lem share returned h (e, k) = absurd (subst IsDone (sym e) tt)

parent_lem :
    (p : Program) (c : Child) (h : Holder)
    → Held p printing c h
    → Held p returned c (close_at_exit (child_has_it c) h)
parent_lem inherit unborn h k = lock_un-other h
parent_lem inherit sleeping h k = k
parent_lem inherit done h k = lock_un-other h
parent_lem share unborn h k = absurd (subst IsDone (sym k) tt)
parent_lem share sleeping h k = absurd (subst IsDone (sym k) tt)
parent_lem share done h k = (refl, lock_un-other h)

fork_lem : (p : Program) (h : Holder) → Held p forking unborn h → Held p (after_fork p) sleeping h
fork_lem inherit h (e, k) = k
fork_lem share h (e, k) = k

unlock_lem :
    (p : Program) (c : Child) (h : Holder) → Held p unlocking c h → Held p relocking c (lock_un h)
unlock_lem inherit c h k = k
unlock_lem share c h k = lock_un-other h

relock_lem : (p : Program) (c : Child) (h h' : Holder) → Held p relocking c h → Held p waiting c h'
relock_lem inherit c h h' k = k
relock_lem share c h h' k = tt

wait_lem : (p : Program) (h : Holder) → Held p waiting done h → Held p printing done h
wait_lem inherit h k = absurd k
wait_lem share h k = refl

-- In every state that the steps of parent, child and other processes lead to from where the parent
-- has opened the file, `Held` tells who holds the lock: in child_inherit_flock.c the two processes
-- have it from the fork on until both have ended, though the parent can return before the child; in
-- child_share_flock.c they have it from the fork on until the parent unlocks it, neither has it from
-- then until the parent asks for it again, even while the child lives, and the parent returns
-- after the child; and when both have ended they do not hold it.
pub Reach-Held : (p : Program) (q : Parent) (c : Child) (h : Holder) → Reach p q c h → Held p q c h
Reach-Held p _ _ _ (opened n) = (refl, n)
Reach-Held p _ _ _ (locked {h = h} {h' = h'} r e) = (refl, subst GivesOurs e (lock_ex-GivesOurs h))
Reach-Held p _ _ _ (lock_fails {h = h} r) = (refl, lock_un-other h)
Reach-Held p _ _ _ (forked {h = h} r) = fork_lem p h (Reach-Held p forking unborn h r)
Reach-Held p _ _ _ (fork_fails {h = h} r) = (refl, lock_un-other h)
Reach-Held p _ _ _ (unlocked {c = c} {h = h} r) = unlock_lem p c h (Reach-Held p unlocking c h r)
Reach-Held p _ _ _ (relocked {c = c} {h = h} {h' = h'} r e) =
    relock_lem p c h h' (Reach-Held p relocking c h r)
Reach-Held p _ _ _ (relock_fails {c = c} {h = h} r) =
    relock_lem p c h h (Reach-Held p relocking c h r)
Reach-Held p _ _ _ (waited {h = h} r) = wait_lem p h (Reach-Held p waiting done h r)
Reach-Held p _ _ _ (parent_ends {c = c} {h = h} r) = parent_lem p c h (Reach-Held p printing c h r)
Reach-Held p _ _ _ (child_ends {q = q} {h = h} r) = child_lem p q h (Reach-Held p q sleeping h r)
Reach-Held p _ _ _ (other_locks {q = q} {c = c} r) =
    others p q c free theirs free-other theirs-other (Reach-Held p q c free r)
Reach-Held p _ _ _ (other_unlocks {q = q} {c = c} r) =
    others p q c theirs free theirs-other free-other (Reach-Held p q c theirs r)

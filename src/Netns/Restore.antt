-- ===== src/Netns/Restore.antt =====
-- The way back from a namespace.
use mathlib.Core.Path.{subst}
use everyday_coding.Base.{
  ℕ, ◌≡◌, refl, sym, ap, ◌∙◌, Bool, true, false, some, List, ◌∷◌, arith, if◌then◌else◌, has,
}
use everyday_coding.CString.{Str}
use everyday_coding.Os.{Os, Kind, net, mnt, Kernel, remove, names, answer_setns, ◌>>=◌}
use everyday_coding.Os.Laws.{IsFresh}
use everyday_coding.Netns.{enter_ns, restore_ns, after_restore}
use everyday_coding.Netns.Switch.{
  ns_of, other, IsSameBut, HasEntered, enter_ns-HasEntered, stays, moves, remove-head,
}

-- What the programs do between the two switches: descriptors and namespaces are kept.
pub record IsQuiet (s s' : Os) : Type 0 where
  pub fds_kept : s'.fds ≡ s.fds
  pub refers_kept : s'.refers ≡ s.refers
  pub net_kept : s'.net_ns ≡ s.net_ns
  pub mnt_kept : s'.mnt_ns ≡ s.mnt_ns

pub IsQuiet-refl : (s : Os) → IsQuiet s s
IsQuiet-refl s = record { fds_kept = refl; refers_kept = refl; net_kept = refl; mnt_kept = refl }

pub IsQuiet-trans : {s t u : Os} → IsQuiet s t → IsQuiet t u → IsQuiet s u
IsQuiet-trans p q = record {
  fds_kept = q.fds_kept ∙ p.fds_kept;
  refers_kept = q.refers_kept ∙ p.refers_kept;
  net_kept = q.net_kept ∙ p.net_kept;
  mnt_kept = q.mnt_kept ∙ p.mnt_kept;
}

IsQuiet-ns_of : (kind : Kind) {s s' : Os} → IsQuiet s s' → ns_of kind s' ≡ ns_of kind s
IsQuiet-ns_of net q = q.net_kept
IsQuiet-ns_of mnt q = q.mnt_kept

ns_of-counts :
    (kind : Kind) (s : Os) (streams dirs blocks : ℕ)
    → ns_of kind (record s { streams = streams; dirs = dirs; blocks = blocks }) ≡ ns_of kind s
ns_of-counts net s streams dirs blocks = refl
ns_of-counts mnt s streams dirs blocks = refl

behind : (fd cur : ℕ) (fds : List ℕ) → has fd fds ≡ true → has fd (cur ∷ fds) ≡ true
behind fd cur fds h = ground (arith, h)

choose :
    (b : Bool) {x y x' y' : Str} → x ≡ x' → y ≡ y' → (if b then x else y) ≡ (if b then x' else y')
choose true p q = p
choose false p q = q

module _ (k : Kernel) (kind : Kind) (fd : ℕ) (s : Os) where
  restored_by :
      (b : Bool)
      → let (r, t) = (answer_setns fd kind b >>= after_restore k fd) s in
        IsSameBut (remove fd s.fds) kind (if r then s.refers fd else ns_of kind s) s t
  restored_by false = stays refl λ f h. refl
  restored_by true = moves (s.refers fd) refl λ f h. refl

  -- One descriptor is closed, and the process is in the namespace that it refers to if the call
  -- has succeeded.
  restored :
      let (r, t) = restore_ns k kind fd s in
      IsSameBut (remove fd s.fds) kind (if r then s.refers fd else ns_of kind s) s t
  unfolding restore_ns
  restored = restored_by (k.setns_answer s fd kind)

-- Where open returns a descriptor that is not open, after a switch that succeeded and calls that
-- keep descriptors and namespaces, the way back leaves the descriptors that were open before the
-- switch, and the namespace that the process was in then; if the kernel refuses the way back, the
-- process stays in the namespace that the path names.
pub restore_ns-enter_ns :
    (k : Kernel)
    → IsFresh k
    → (kind : Kind) (ns : Str) (s : Os) (cur : ℕ) (s' : Os) → enter_ns k kind ns s ≡ (some cur, s')
    → (s'' : Os) → IsQuiet s' s''
    → let (ok, t) = restore_ns k kind cur s'' in
      IsSameBut s.fds kind
        (if ok then ns_of kind s else names s ns)
        (record s { streams = s''.streams; dirs = s''.dirs; blocks = s''.blocks })
        t
restore_ns-enter_ns k law kind ns s cur s' e s'' quiet =
    let (there, back, new) = subst (HasEntered kind ns s) e (enter_ns-HasEntered k law kind ns s) in
    let r = restored k kind cur s'' in
    let fds'' : s''.fds ≡ cur ∷ s.fds = quiet.fds_kept ∙ there.open_fds in
    let back'' : s''.refers cur ≡ ns_of kind s = ap (λ f. f cur) quiet.refers_kept ∙ back in
    let ns'' : ns_of kind s'' ≡ names s ns = IsQuiet-ns_of kind quiet ∙ there.moved in
    record {
      open_fds = r.open_fds ∙ ap (remove cur) fds'' ∙ remove-head cur s.fds;
      moved = r.moved ∙ choose (restore_ns k kind cur s'').0 back'' ns'';
      other_kept =
          r.other_kept
          ∙ IsQuiet-ns_of (other kind) quiet
          ∙ there.other_kept
          ∙ sym (ns_of-counts (other kind) s s''.streams s''.dirs s''.blocks);
      kept = λ fd h.
          r.kept fd (ap (has fd) fds'' ∙ behind fd cur s.fds h)
          ∙ ap (λ f. f fd) quiet.refers_kept
          ∙ there.kept fd h;
      streams_kept = r.streams_kept;
      dirs_kept = r.dirs_kept;
      blocks_kept = r.blocks_kept;
    }

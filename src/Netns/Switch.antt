-- ===== src/Netns/Switch.antt =====
-- What the namespace switches do to the process.
use mathlib.Core.Path.{subst}
use mathlib.Core.Bool.{true≢false}
use everyday_coding.Base.{
  sym, ap, ◌∙◌, eq-cases, ℕ, ◌≡◌, ◌⊎◌, refl, inl, inr, Bool, true, false, Option, none, some, List,
  ◌∷◌, arith, ◌==◌, update, has, Bool-cases,
}
use everyday_coding.CString.{Str}
use everyday_coding.Os.{
  Os, Kind, net, mnt, Kernel, remove, names, self_path, enter, opened, close, tick, answer_open,
  answer_setns, ◌>>=◌,
}
use everyday_coding.Os.Laws.{IsFresh}
use everyday_coding.Netns.{enter_ns, after_current, after_target, after_setns}

abbrev pub ns_of : Kind → Os → Str
ns_of net s = s.net_ns
ns_of mnt s = s.mnt_ns

abbrev pub other : Kind → Kind
other net = mnt
other mnt = net

-- The two states differ at most in the count of calls, in the namespace of the kind, and in what
-- descriptors refer to that are not open.
pub record IsSameBut (fds : List ℕ) (kind : Kind) (ns : Str) (s s' : Os) : Type 0 where
  pub open_fds : s'.fds ≡ fds
  pub moved : ns_of kind s' ≡ ns
  pub other_kept : ns_of (other kind) s' ≡ ns_of (other kind) s
  pub kept : (fd : ℕ) → has fd s.fds ≡ true → s'.refers fd ≡ s.refers fd
  pub streams_kept : s'.streams ≡ s.streams
  pub dirs_kept : s'.dirs ≡ s.dirs
  pub blocks_kept : s'.blocks ≡ s.blocks

names_self : (kind : Kind) (s : Os) → names s (self_path kind) ≡ ns_of kind s
names_self net s = refl
names_self mnt s = refl

pub eq_self : (a : ℕ) → (a == a) ≡ true
eq_self a = ground arith

update_self {ℓ} : {A : Type ℓ} (f : ℕ → A) (i : ℕ) (a : A) → update f i a i ≡ a
update_self f i a = rw (eq_self i) refl

pub Option-cases {ℓ} : {A : Type ℓ} → (o : Option A) → (o ≡ none) ⊎ ((a : A) × (o ≡ some a))
Option-cases none = inl refl
Option-cases (some a) = inr (a, refl)

-- enter_ns failed, and descriptors and namespaces are as before; or it left one more descriptor open,
-- which refers to the namespace that the process was in, and the process is in the one that the
-- path names.
abbrev pub HasEntered : Kind → Str → Os → Option ℕ × Os → Type 0
HasEntered kind ns s (none, s') = IsSameBut s.fds kind (ns_of kind s) s s'
HasEntered kind ns s (some cur, s') =
    IsSameBut (cur ∷ s.fds) kind (names s ns) s s'
    × (s'.refers cur ≡ ns_of kind s)
    × (has cur s.fds ≡ false)

ns_of-enter :
    (kind : Kind) (n : Str) (s : Os)
    → (ns_of kind (enter kind n s) ≡ n)
      × (ns_of (other kind) (enter kind n s) ≡ ns_of (other kind) s)
ns_of-enter net n s = (refl, refl)
ns_of-enter mnt n s = (refl, refl)

ns_of-frame :
    (kind : Kind) (s : Os) (fds : List ℕ) (refers : ℕ → Str) (calls : ℕ)
    → ns_of kind (record s { fds = fds; refers = refers; calls = calls }) ≡ ns_of kind s
ns_of-frame net s fds refers calls = refl
ns_of-frame mnt s fds refers calls = refl

module _ {kind : Kind} {s : Os} {fds fds' : List ℕ} {refers : ℕ → Str} {calls : ℕ} where
  pub stays :
      fds' ≡ fds
      → ((fd : ℕ) → has fd s.fds ≡ true → refers fd ≡ s.refers fd)
      → IsSameBut fds kind
          (ns_of kind s)
          s
          (record s { fds = fds'; refers = refers; calls = calls })
  stays e kept = record {
    open_fds = e;
    moved = ns_of-frame kind s fds' refers calls;
    other_kept = ns_of-frame (other kind) s fds' refers calls;
    kept = kept;
    streams_kept = refl;
    dirs_kept = refl;
    blocks_kept = refl;
  }

  pub moves :
      (n : Str)
      → fds' ≡ fds
      → ((fd : ℕ) → has fd s.fds ≡ true → refers fd ≡ s.refers fd)
      → IsSameBut fds kind n s
          (record (enter kind n s) { fds = fds'; refers = refers; calls = calls })
  moves n e kept =
      let s' = enter kind n s in
      record {
        open_fds = e;
        moved = ns_of-frame kind s' fds' refers calls ∙ (ns_of-enter kind n s).0;
        other_kept = ns_of-frame (other kind) s' fds' refers calls ∙ (ns_of-enter kind n s).1;
        kept = kept;
        streams_kept = refl;
        dirs_kept = refl;
        blocks_kept = refl;
      }

pub remove-head : (fd : ℕ) (fds : List ℕ) → remove fd (fd ∷ fds) ≡ fds
remove-head fd fds = rw (eq_self fd) refl

-- What open descriptors refer to does not change with what one refers to that is not open.
update-kept :
    (fds : List ℕ) (refers : ℕ → Str) (new : ℕ) (n : Str) (fd : ℕ)
    → has new fds ≡ false
    → has fd fds ≡ true
    → update refers new n fd ≡ refers fd
update-kept fds refers new n fd fresh h = elim (eq-cases fd new) [
  | inl e ↦ absurd (true≢false (sym h ∙ ap (λ x. has x fds) e ∙ fresh))
  | inr ne ↦ rw ne refl
]

-- The steps of enter_ns by the answers of the calls.
module _ (k : Kernel) (kind : Kind) (ns : Str) (s : Os) where
  first :
      {o : Option ℕ}
      → k.open_answer s (self_path kind) ≡ o
      → enter_ns k kind ns s ≡ (answer_open (self_path kind) o >>= after_current k kind ns) s
  unfolding enter_ns
  first e = ap (λ o. (answer_open (self_path kind) o >>= after_current k kind ns) s) e

  second :
      (cur : ℕ) {o : Option ℕ}
      → k.open_answer s ns ≡ o
      → after_current k kind ns (some cur) s ≡ (answer_open ns o >>= after_target k kind cur) s
  second cur e = ap (λ o. (answer_open ns o >>= after_target k kind cur) s) e

  third :
      (cur fd : ℕ) {b : Bool}
      → k.setns_answer s fd kind ≡ b
      → after_target k kind cur (some fd) s ≡ (answer_setns fd kind b >>= after_setns k cur fd) s
  third cur fd e = ap (λ b. (answer_setns fd kind b >>= after_setns k cur fd) s) e

module _ (k : Kernel) (law : IsFresh k) (kind : Kind) (ns : Str) (s : Os) where
  pub enter_ns-HasEntered : HasEntered kind ns s (enter_ns k kind ns s)
  unfolding enter_ns
  enter_ns-HasEntered =
      let finish : (r : Option ℕ × Os)
          → enter_ns k kind ns s ≡ r
          → HasEntered kind ns s r
          → HasEntered kind ns s (enter_ns k kind ns s) =
        λ r e h. subst (HasEntered kind ns s) (sym e) h in
      elim (Option-cases (k.open_answer s (self_path kind))) [
        | inl e ↦ finish (none, tick s) (first k kind ns s e) (stays refl λ fd h. refl)
        | inr (cur, e) ↦
            let s1 = opened (self_path kind) cur s in
            let new = law.open_fresh s (self_path kind) cur e in
            let kept1 : (fd : ℕ) → has fd s.fds ≡ true → s1.refers fd ≡ s.refers fd =
              λ fd h. update-kept s.fds s.refers cur _ fd new h in
            elim (Option-cases (k.open_answer s1 ns)) [
              | inl e2 ↦
                  finish (none, (close cur (tick s1)).1)
                    (first k kind ns s e ∙ second k kind ns s1 cur e2)
                    (stays (remove-head cur s.fds) kept1)
              | inr (fd, e2) ↦
                  let s2 = opened ns fd s1 in
                  let new2 : has fd (cur ∷ s.fds) ≡ false = law.open_fresh s1 ns fd e2 in
                  let kept2 : (f : ℕ) → has f s.fds ≡ true → s2.refers f ≡ s.refers f = λ f h.
                    update-kept (cur ∷ s.fds) s1.refers fd _ f new2 (ground (arith, h))
                    ∙ kept1 f h in
                  let back : s2.refers cur ≡ ns_of kind s =
                    update-kept (cur ∷ s.fds) s1.refers fd _ cur new2 (ground arith)
                    ∙ update_self s.refers cur (names s (self_path kind))
                    ∙ names_self kind s in
                  let there : s2.refers fd ≡ names s ns = update_self s1.refers fd _ in
                  elim (Bool-cases (k.setns_answer s2 fd kind)) [
                    | inl e3 ↦
                        finish (some cur, (close fd (tick (enter kind (s2.refers fd) s2))).1)
                          (first k kind ns s e
                            ∙ second k kind ns s1 cur e2
                            ∙ third k kind ns s2 cur fd e3)
                          (
                            subst
                                (λ n.
                                  IsSameBut (cur ∷ s.fds) kind (names s ns) s
                                    (close fd (tick (enter kind n s2))).1)
                                (sym there)
                                (moves (names s ns) (remove-head fd (cur ∷ s.fds)) kept2),
                            back,
                            new,
                          )
                    | inr e3 ↦
                        finish (none, (close cur (close fd (tick s2)).1).1)
                          (first k kind ns s e
                            ∙ second k kind ns s1 cur e2
                            ∙ third k kind ns s2 cur fd e3)
                          (stays
                            (ap (remove cur) (remove-head fd (cur ∷ s.fds)) ∙ remove-head cur s.fds)
                            kept2)
                  ]
            ]
      ]

-- ===== src/Ctrl/Process.antt =====
-- tmrProcessList of ttimer/tdengine_old.c: which timers of a list it expires, and what it does to
-- the others.
use mathlib.Core.Path.{fun_ext, subst}
use everyday_coding.Base.{
  ℕ, zero, suc, ◌+◌, ◌%◌, ◌^◌, ◌<◌, ◌≡◌, refl, sym, ap, ◌∙◌, inl, inr, true, false, some, List, [],
  ◌∷◌, ◌++◌, arith, ◌==◌, if◌then◌else◌, update, length, has, Bool-cases,
}
use everyday_coding.Base.Int.{pos}
use everyday_coding.Pool.Owned.{Owned}
use everyday_coding.Ctrl.Memory.{Mem}
use everyday_coding.Ctrl.Chain.{Distinct, Chain, Chain-frame, Chain-nil_inv}
use everyday_coding.Ctrl.Relink.{SameTimer}
use everyday_coding.Ctrl.Order.{AllFrom, IsSorted, AllFrom-mono}
use everyday_coding.Ctrl.Decrement.{stepped, decrement_lem, IsSorted-stepped}
use everyday_coding.Ctrl.Free.{head-eq, expire-Inv, expire_others, expire_place}
use everyday_coding.Ctrl.Invariant.{Lists, Inv, Change, Change-Lists}
use everyday_coding.Ctrl.{Ctrl, live, fires, expire, process_loop, tmr_process_list, decrement}
use everyday_coding.Ctrl.Waiting.{
  is_waiting, due_now, waiting, calls, Processed, update_same, update_twice, same_due,
}

module _ {c : Ctrl} {content : ℕ → List ℕ} (v : Inv c content) (i x : ℕ) (xs : List ℕ)
    (lt : i < c.num_of_periods) (e : content i ≡ x ∷ xs) (late : is_waiting (c.mem x) ≡ true) where
  -- A list with no timer that is due: every cycle is one less.
  wait-Processed :
      (g : Mem)
      → ((a : ℕ) → g a ≡ (if has a (x ∷ xs) then stepped (c.mem a) else c.mem a))
      → Processed c content i (x ∷ xs) (record c { mem = g })
  unfolding waiting
  wait-Processed g all =
      let ls = v.lists in
      let zs : List ℕ = x ∷ xs in
      let w : waiting c.mem zs ≡ zs = rw late in
      let s = subst (IsSorted c.mem) e (ls.sorted i lt) in
      let low : AllFrom c.mem (pos 1) zs =
        (ground arith, AllFrom-mono c.mem (c.mem x).cycle (pos 1) xs (ground arith) s.0) in
      let in_zs = λ (q : ℕ). ap (has q) (sym e) ∙ ls.member i lt q in
      let ch : Change c.num_of_periods c.mem g i (c.tmr_list i) zs = record {
        in_range = lt;
        chain =
            Chain-frame c.mem g 0 (c.tmr_list i).head zs (λ a h. ground (arith, all a))
              (subst (Chain c.mem 0 (c.tmr_list i).head) e (ls.chain i lt));
        counts = omega (arith, ls.counts i lt, ap length e);
        distinct = subst Distinct e (ls.distinct i lt);
        member = λ q. ground (arith, all q, in_zs q);
        sorted = IsSorted-stepped c.mem g zs (λ a h. ground (arith, all a)) low s;
        elsewhere = λ j ne q. ground (arith, all q);
        indexed = λ q h. ground (arith, all q);
        frame = λ j ne q h. ground (arith, all q, in_zs q);
      } in
      let used : live c.mem ≡ live g = fun_ext λ q. ground (arith, all q) in
      let inv : Inv (record c { mem = g }) (update content i zs) = record {
        lists =
            subst (λ t. Lists c.num_of_periods g t (update content i zs)) (update_same c.tmr_list i)
              (Change-Lists ls ch);
        owned = subst (Owned c.pool) used v.owned;
        total = v.total;
      } in
      record {
        inv = subst (λ t. Inv (record c { mem = g }) (update content i t)) (sym w) inv;
        kept = λ q h. ground (arith, all q, ap (has q) w);
        others = λ q h. ground (arith, all q);
        periods = refl;
        now = refl;
      }

has_of_waiting : (m : Mem) (q : ℕ) (xs : List ℕ) → has q (waiting m xs) ≡ true → has q xs ≡ true
unfolding waiting
has_of_waiting m q [] h = h
has_of_waiting m q (x ∷ xs) h = ground (arith, has_of_waiting m q xs)

module _ {c : Ctrl} {content : ℕ → List ℕ} (v : Inv c content) (i x : ℕ) (xs : List ℕ)
    (lt : i < c.num_of_periods) (e : content i ≡ x ∷ xs) (due : is_waiting (c.mem x) ≡ false) where
  abbrev gone : Ctrl
  gone = expire c i x

  left : (q : ℕ) → has q xs ≡ true → SameTimer (c.mem q) (gone.mem q)
  left q h =
      let d = subst Distinct e (v.lists.distinct i lt) in
      expire_others v i x xs lt e q (ground (arith, d.0))

  -- A list whose head is due: the head goes, and the rest is done in the next round.
  expire-Processed :
      {c' : Ctrl} → Processed gone (update content i xs) i xs c' → Processed c content i (x ∷ xs) c'
  unfolding waiting
  expire-Processed {c'} p =
      let (_, wt, _) = same_due c.mem gone.mem xs left in
      let w : waiting c.mem (x ∷ xs) ≡ waiting c.mem xs = rw due in
      let (ns, ts) = expire_place v i x xs lt e in
      let lists : update (update content i xs) i (waiting gone.mem xs)
          ≡ update content i (waiting c.mem (x ∷ xs)) =
        update_twice content i xs (waiting gone.mem xs) ∙ ap (update content i) (wt ∙ sym w) in
      record {
        inv = subst (Inv c') lists p.inv;
        kept = λ q h.
            let in_rest = ap (has q) (sym w) ∙ h in
            let t = left q (has_of_waiting c.mem q xs in_rest) in
            let u = p.kept q (ap (has q) wt ∙ in_rest) in ground (arith, t, u);
        others = λ q h. ground (arith, p.others q, expire_others v i x xs lt e q);
        periods = p.periods ∙ ns;
        now = p.now ∙ ts;
      }

  same_calls : calls gone.mem (due_now gone.mem xs) ≡ calls c.mem (due_now c.mem xs)
  same_calls = let (_, _, f) = same_due c.mem gone.mem xs left in f

module _ (i : ℕ) where
  -- The loop ends, runs the callbacks of the timers that are due and makes the others wait on.
  process_loop-Processed :
      (k : ℕ) (c : Ctrl) (content : ℕ → List ℕ) (zs : List ℕ)
      → Inv c content
      → i < c.num_of_periods
      → content i ≡ zs
      → length zs < k
      → (c' : Ctrl) × (process_loop k i c ≡ some (c', calls c.mem (due_now c.mem zs)))
        × Processed c content i zs c'
  unfolding process_loop due_now waiting calls
  process_loop-Processed zero c content zs v lt e fuel = absurd (omega arith)
  process_loop-Processed (suc k) c content [] v lt e fuel =
      let whole = subst (Chain c.mem 0 (c.tmr_list i).head) e (v.lists.chain i lt) in
      let nil = Chain-nil_inv c.mem 0 (c.tmr_list i).head whole in
      let same : content ≡ update content i [] =
        sym (update_same content i) ∙ ap (update content i) e in
      (
        c,
        rw nil refl,
        record {
          inv = subst (Inv c) same v;
          kept = λ q h. cc;
          others = λ q h. ground arith;
          periods = refl;
          now = refl;
        },
      )
  process_loop-Processed (suc k) c content (x ∷ xs) v lt e fuel =
      let (hd, ne) = head-eq v i x xs lt e in
      let off : (x == 0) ≡ false = ground arith in
      let whole = subst (Chain c.mem 0 (c.tmr_list i).head) e (v.lists.chain i lt) in
      let d = subst Distinct e (v.lists.distinct i lt) in
      elim (Bool-cases (is_waiting (c.mem x))) [
        | inl late ↦
            let (g, done, all) =
              decrement_lem (suc k) c.mem 0 (c.tmr_list i).head (x ∷ xs) whole d (omega arith) in
            (
              record c { mem = g },
              rw (hd, off, late, subst (λ p. decrement (suc k) c.mem p ≡ some g) hd done) refl,
              wait-Processed v i x xs lt e late g all,
            )
        | inr due ↦
            let below : i < (expire c i x).num_of_periods = rw (expire_place v i x xs lt e).0 lt in
            let now : update content i xs i ≡ xs = ground arith in
            let (c', done, p) =
              process_loop-Processed k (expire c i x) (update content i xs) xs
                (expire-Inv v i x xs lt e) below now (omega arith) in
            (
              c',
              rw (hd, off, due, done, hd)
                  (ap (λ f. some (c', fires (c.mem x) x ++ f)) (same_calls v i x xs lt e due)),
              expire-Processed v i x xs lt e due p,
            )
      ]

-- tmrProcessList returns. It runs the callbacks of the timers at the front of the current list whose
-- cycle is used up, in order, and frees them; the cycle of every other timer of that list is one
-- less, the timers of the other lists are as they were, and the count of periods goes up by one.
pub process-Processed :
    {c : Ctrl} {content : ℕ → List ℕ}
    → Inv c content
    → let i = c.periods_from_start % c.num_of_periods in
      (c' : Ctrl) × (tmr_process_list c
        ≡ some (
          record c' { periods_from_start = (c.periods_from_start + 1) % 2 ^ 32 },
          calls c.mem (due_now c.mem (content i)),
        ))
      × Processed c content i (content i) c'
unfolding tmr_process_list
process-Processed {c} {content} v =
    let i = c.periods_from_start % c.num_of_periods in
    let periods = v.lists.periods in
    let lt : i < c.num_of_periods = omega arith in
    let (c', done, p) =
      process_loop-Processed i ((c.tmr_list i).count + 1) c content (content i) v lt refl
        (omega (arith, v.lists.counts i lt)) in
    (c', rw (done, tmr_process_list, p.now) refl, p)

-- ===== src/Proc/Cleanup.antt =====
-- The exit of a process (proc_cleanup of kernel/proc/proc.c).
use avengers.Prelude.{
  ℕ, ◌<◌, ◌≤◌, ◌≡◌, refl, ap, sym, ◌∙◌, ◌≢◌, some, List, [], ◌∷◌, ◌++◌, ==-refl, erase, count, ok,
  arith,
}
use mathlib.Core.List.{append-nil, append_assoc}
use avengers.Proc.{State, World, sign, reparent, cleanup_of, proc_cleanup, set_proc, died}

-- what the loop over the children leaves behind
record Reparented (w w' : World) (p init : ℕ) (cs : List ℕ) : Type 0 where
  given : (w'.proc init).children ≡ (w.proc init).children ++ cs
  left : (w'.proc p).children ≡ []
  parents : (c : ℕ) → 0 < count c cs → (w'.proc c).pproc ≡ some init
  kept : (c : ℕ) → (w.proc c).pproc ≡ some init → (w'.proc c).pproc ≡ some init
  pids : (w'.proc p).pid ≡ (w.proc p).pid

-- one round of that loop
abbrev moved : World → ℕ → ℕ → ℕ → World
moved w p init c =
    let left = set_proc w p (record (w.proc p) { children = erase c (w.proc p).children }) in
    let moved =
      set_proc left init
        (record (left.proc init) { children = (left.proc init).children ++ (c ∷ []) }) in
    set_proc moved c (record (moved.proc c) { pproc = some init })

reparent-Reparented :
    (w : World) (p init : ℕ) (cs : List ℕ)
    → p ≢ init
    → (w.proc p).children ≡ cs
    → count p cs ≡ 0
    → count init cs ≡ 0
    → Reparented w (reparent w p init cs) p init cs
unfolding reparent
reparent-Reparented w p init [] n e a b = record {
  given = sym (append-nil (w.proc init).children);
  left = e;
  parents = λ c h. absurd (omega arith);
  kept = λ c h. h;
  pids = refl;
}
reparent-Reparented w p init (x ∷ cs) n e a b =
    let given_one : ((moved w p init x).proc init).children ≡ (w.proc init).children ++ (x ∷ []) =
      ground (arith, n, b) in
    let r =
      reparent-Reparented (moved w p init x) p init cs n (ground (arith, ==-refl x)) (ground arith)
        (ground arith) in
    record {
      given =
          r.given ∙ (ap (λ l. l ++ cs) given_one ∙ append_assoc (w.proc init).children (x ∷ []) cs);
      left = r.left;
      parents = λ c h. ground (arith, r.parents c, r.kept c);
      kept = λ c h. ground (arith, r.kept c);
      pids = ground (arith, r.pids);
    }

-- A process other than init that exits gives all its children to init, in order, and is dead, with
-- the status 0 whatever status it exits with.
pub proc_cleanup-reparents :
    (w : World) (p init parent status : ℕ)
    → w.curproc ≡ some p
    → w.initproc ≡ some init
    → (w.proc p).pproc ≡ some parent
    → p ≢ init
    → count p (w.proc p).children ≡ 0
    → count init (w.proc p).children ≡ 0
    → 1 ≤ (w.proc p).pid
    → (w.proc p).pid < sign
    → (w' : World) × (proc_cleanup w status ≡ ok w')
      × ((w'.proc init).children ≡ (w.proc init).children ++ (w.proc p).children)
      × ((w'.proc p).children ≡ [])
      × ((c : ℕ) → 0 < count c (w.proc p).children → (w'.proc c).pproc ≡ some init)
      × ((w'.proc p).state ≡ State.dead)
      × ((w'.proc p).status ≡ 0)
unfolding proc_cleanup cleanup_of
proc_cleanup-reparents w p init parent status cur i par n a b pos neg =
    let r = reparent-Reparented w p init (w.proc p).children n refl a b in
    let w1 = reparent w p init (w.proc p).children in
    (
      died w1 p parent,
      ground (arith, cur, i, par),
      ground (arith, r.given),
      ground (arith, r.left),
      λ c h. ground (arith, r.parents c h),
      ground arith,
      ground arith,
    )

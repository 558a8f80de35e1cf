-- ===== src/Sched/Switch.antt =====
-- sched_switch, sched_sleep_on and sched_cancellable_sleep_on (kernel/proc/sched.c): the thread
-- that runs next, and what holds of the kernel when it runs.
use mathlib.Core.Path.{subst}
use avengers.Prelude.{
  ℕ, ◌≡◌, refl, true, false, Option, none, some, List, [], ◌∷◌, ◌≢◌, ◌>>=◌, bind_parts, get_last,
  All, ok, panic, of_if_false, arith, subst_ok, drop_last, count-drop_last,
}
use avengers.Sched.{
  State, Kernel, Handler, runq, ipl_low, ipl_high, eintr, set_state, set_ipl, switch_to, enqueue,
  dequeue, switch, switch_loop, sleep_on, cancellable_sleep_on, cancel,
}
use avengers.Sched.Valid.{
  IsValid, dequeue-Dequeued, dequeue-IsValid, dequeue-nil, set_state-IsValid, set_ipl-IsValid,
  enqueue-IsValid, enqueue-ipl, state_fits,
}

-- A handler keeps the invariant, as one that calls the scheduler's wake-up routines does.
abbrev pub IsHandler : Handler → Type 0
IsHandler h = (k : Kernel) → IsValid k → IsValid (h k)

-- the invariant while a thread runs: it is on no queue
pub record IsRunning (k : Kernel) : Type 0 where
  pub valid : IsValid k
  pub awake : (k.thread k.curthr).wchan ≡ none

-- a thread that was taken off the run queue
record Taken (d : Option ℕ × Kernel) : Type 0 where
  valid : IsValid d.1
  off : (t : ℕ) → d.0 ≡ some t → ((d.1.thread t).wchan ≡ none) × ((d.1.thread t).state ≡ State.run)

dequeue-Taken :
    (k : Kernel) (l : List ℕ) → IsValid k → (k.queue runq).list ≡ l → Taken (dequeue runq k)
dequeue-Taken k [] v e = rw (dequeue-nil runq k e) (record { valid = v; off = λ t h. cc })
dequeue-Taken k (x ∷ xs) v e =
    let d = dequeue-Dequeued runq k x xs e in
    let g = get_last x xs in
    record {
      valid = dequeue-IsValid runq k v;
      off = λ t h. (
        ground (arith, d.taken, d.off),
        ground (arith, d.taken, d.state_same t, v.fits t, v.counted runq g, count-drop_last g x xs),
      );
    }

-- what holds of the kernel when the next thread runs
pub record Switched (ipl : ℕ) (k' : Kernel) : Type 0 where
  pub running : IsRunning k'
  pub state : (k'.thread k'.curthr).state ≡ State.run
  pub curproc : k'.curproc ≡ (k'.thread k'.curthr).proc
  pub ipl_kept : k'.ipl ≡ ipl

switch_to-Switched :
    (ipl t : ℕ) (k : Kernel)
    → IsValid k
    → (k.thread t).wchan ≡ none
    → (k.thread t).state ≡ State.run
    → Switched ipl (switch_to ipl t k)
switch_to-Switched ipl t k v w s = record {
  running = record {
    valid = record { counted = v.counted; linked = v.linked; sized = v.sized; fits = v.fits };
    awake = w;
  };
  state = s;
  curproc = refl;
  ipl_kept = refl;
}

switch_loop-Switched :
    (hs : List Handler) (ipl : ℕ) (d : Option ℕ × Kernel) {k' : Kernel}
    → All IsHandler hs
    → Taken d
    → switch_loop hs ipl d ≡ ok k'
    → Switched ipl k'
unfolding switch_loop
switch_loop-Switched [] ipl (some t, k) a w e =
    subst_ok (Switched ipl) (switch_to-Switched ipl t k w.valid (w.off t refl).0 (w.off t refl).1) e
switch_loop-Switched (h ∷ hs) ipl (some t, k) a w e =
    subst_ok (Switched ipl) (switch_to-Switched ipl t k w.valid (w.off t refl).0 (w.off t refl).1) e
switch_loop-Switched [] ipl (none, k) a w e = cc
switch_loop-Switched (h ∷ hs) ipl (none, k) a w e =
    let k1 = set_ipl (h (set_ipl k ipl_low)) ipl_high in
    let v1 : IsValid k1 =
      set_ipl-IsValid (h (set_ipl k ipl_low)) ipl_high
        (a.0 (set_ipl k ipl_low) (set_ipl-IsValid k ipl_low w.valid)) in
    switch_loop-Switched hs ipl (dequeue runq k1) a.1
      (dequeue-Taken k1 (k1.queue runq).list v1 refl) e

-- Whatever interrupts come while the processor waits, if their handlers keep the queues' invariant,
-- then so does sched_switch; and when it has switched, the thread that runs is on no queue and
-- runnable, curproc is its process, and the interrupt priority is as before.
pub switch-Switched :
    (hs : List Handler) (k : Kernel) {k' : Kernel}
    → All IsHandler hs
    → IsValid k
    → switch hs k ≡ ok k'
    → Switched k.ipl k'
unfolding switch
switch-Switched hs k a v e =
    switch_loop-Switched hs k.ipl (dequeue runq (set_ipl k ipl_high)) a
      (dequeue-Taken (set_ipl k ipl_high) (k.queue runq).list (set_ipl-IsValid k ipl_high v) refl) e

switch_loop-some :
    (hs : List Handler) (ipl t : ℕ) (d : Option ℕ × Kernel)
    → d.0 ≡ some t
    → switch_loop hs ipl d ≡ ok (switch_to ipl t d.1)
unfolding switch_loop
switch_loop-some [] ipl t (none, k) e = cc
switch_loop-some [] ipl t (some u, k) e = ground arith
switch_loop-some (h ∷ hs) ipl t (none, k) e = cc
switch_loop-some (h ∷ hs) ipl t (some u, k) e = ground arith

-- When the run queue holds threads, sched_switch takes no interrupt and returns in the thread that
-- has been runnable longest, the last of the list, which leaves the queue.
switch_next :
    (hs : List Handler) (k : Kernel) (x : ℕ) (xs : List ℕ)
    → (k.queue runq).list ≡ x ∷ xs
    → (k' : Kernel) × (switch hs k ≡ ok k')
      × (k'.curthr ≡ get_last x xs)
      × ((k'.queue runq).list ≡ drop_last x xs)
      × ((p : ℕ) → p ≢ runq → k'.queue p ≡ k.queue p)
unfolding switch
switch_next hs k x xs e =
    let k1 = set_ipl k ipl_high in
    let d = dequeue-Dequeued runq k1 x xs e in
    (
      switch_to k.ipl (get_last x xs) (dequeue runq k1).1,
      switch_loop-some hs k.ipl (get_last x xs) (dequeue runq k1) d.taken,
      refl,
      d.rest,
      d.kept,
    )

blocked-Switched :
    (hs : List Handler) (q : ℕ) (s : State) (k : Kernel) {k2 k' : Kernel}
    → All IsHandler hs
    → IsRunning k
    → state_fits (some q) s ≡ true
    → enqueue q k.curthr (set_state k k.curthr s) ≡ ok k2
    → switch hs k2 ≡ ok k'
    → Switched k.ipl k'
blocked-Switched hs q s k {k2} {k'} a r f e2 e3 =
    let k1 = set_state k k.curthr s in
    let v1 : IsValid k1 = set_state-IsValid k k.curthr s r.valid (ground (arith, r.awake)) in
    let v2 : IsValid k2 = enqueue-IsValid q k.curthr k1 v1 (ground arith) e2 in
    subst (λ i. Switched i k') (enqueue-ipl q k.curthr k1 e2) (switch-Switched hs k2 a v2 e3)

-- Going to sleep on a queue other than the run queue keeps the invariant: the thread that runs next
-- is on no queue, and runnable.
pub sleep_on-Switched :
    (hs : List Handler) (q : ℕ) (k : Kernel) {k' : Kernel}
    → All IsHandler hs
    → IsRunning k
    → q ≢ runq
    → sleep_on hs q k ≡ ok k'
    → Switched k.ipl k'
unfolding sleep_on
sleep_on-Switched hs q k a r n e =
    let k1 = set_state k k.curthr State.sleep in
    let (k2, e2, e3) = bind_parts (enqueue q k.curthr k1) (λ k'. switch hs k') e in
    blocked-Switched hs q State.sleep k a r (ground arith) e2 e3

-- The same for a cancellable sleep of a thread that has not been cancelled, which returns 0.
cancellable_sleep_on-Switched :
    (hs : List Handler) (q : ℕ) (k : Kernel) (r : ℕ) {k' : Kernel}
    → All IsHandler hs
    → IsRunning k
    → q ≢ runq
    → (k.thread k.curthr).cancelled ≡ false
    → cancellable_sleep_on hs q k ≡ ok (r, k')
    → (r ≡ 0) × Switched k.ipl k'
unfolding cancellable_sleep_on
cancellable_sleep_on-Switched hs q k r {k'} a run n c e =
    let k1 = set_state k k.curthr State.sleep_cancellable in
    let (k2, e2, e3) =
      bind_parts (enqueue q k.curthr k1) (λ k2. switch hs k2 >>= λ k3. ok (0, k3))
        (of_if_false (ok (eintr, k1)) c e) in
    let (k3, e4, e5) = bind_parts (switch hs k2) (λ k3. ok (0, k3)) e3 in
    (
      ground arith,
      subst (Switched k.ipl) (ground arith)
          (blocked-Switched hs q State.sleep_cancellable k a run (ground arith) e2 e4),
    )

-- A thread that has been cancelled is refused a cancellable sleep, with EINTR, but is left marked
-- as sleeping cancellably while it runs on no queue: to cancel it once more then fails an
-- assertion.
pub cancel_after_refusal :
    (hs : List Handler) (q : ℕ) (k : Kernel)
    → IsRunning k
    → (k.thread k.curthr).cancelled ≡ true
    → (k' : Kernel) × (cancellable_sleep_on hs q k ≡ ok (eintr, k'))
      × (k'.curthr ≡ k.curthr)
      × (cancel k'.curthr k' ≡ panic)
unfolding cancellable_sleep_on cancel
cancel_after_refusal hs q k r c =
    (set_state k k.curthr State.sleep_cancellable, rw c, refl, ground (arith, r.awake))

-- ===== src/Sched/Frame.antt =====
-- What the routines of kernel/proc/sched.c leave alone on a queue that they are not called with.
use avengers.Prelude.{
  ℕ, ◌<◌, ◌≡◌, refl, true, false, Option, none, some, List, [], ◌∷◌, ◌≢◌, ◌∙◌, bind_parts, All, ok,
  arith, count, subst_ok,
}
use avengers.Sched.{
  State, Kernel, Handler, runq, ipl_low, ipl_high, set_state, set_ipl, switch_to, enqueue, dequeue,
  switch, switch_loop, sleep_on, queue_empty,
}
use avengers.Sched.Valid.{
  IsValid, dequeue-Dequeued, dequeue-IsValid, dequeue-nil, enqueue-IsValid, set_state-IsValid,
  set_ipl-IsValid,
}
use avengers.Sched.Switch.{IsHandler, IsRunning}

-- The queue `q` is as before, and so are the states of the threads on it.
pub record Frame (q : ℕ) (k k' : Kernel) : Type 0 where
  pub queue : k'.queue q ≡ k.queue q
  pub states : (t : ℕ) → 0 < count t (k.queue q).list → (k'.thread t).state ≡ (k.thread t).state

pub Frame-trans : {q : ℕ} {k1 k2 k3 : Kernel} → Frame q k1 k2 → Frame q k2 k3 → Frame q k1 k3
Frame-trans a b = record {
  queue = b.queue ∙ a.queue;
  states = λ t h. b.states t (rw (a.queue) h) ∙ a.states t h;
}

-- A handler that keeps the invariant and leaves the queue `q` alone.
pub record IsHandlerOff (q : ℕ) (h : Handler) : Type 0 where
  pub keeps : IsHandler h
  pub frame : (k : Kernel) → IsValid k → Frame q k (h k)

pub dequeue-Frame :
    (q p : ℕ) (k : Kernel) (l : List ℕ) → q ≢ p → (k.queue p).list ≡ l → Frame q k (dequeue p k).1
dequeue-Frame q p k [] n e = rw (dequeue-nil p k e) (record { queue = refl; states = λ t h. refl })
dequeue-Frame q p k (x ∷ xs) n e =
    let d = dequeue-Dequeued p k x xs e in
    record { queue = d.kept q n; states = λ t h. d.state_same t }

set_ipl-Frame : (q i : ℕ) (k : Kernel) → Frame q k (set_ipl k i)
set_ipl-Frame q i k = record { queue = refl; states = λ t h. refl }

switch_to-Frame : (q ipl t : ℕ) (k : Kernel) → Frame q k (switch_to ipl t k)
switch_to-Frame q ipl t k = record { queue = refl; states = λ u h. refl }

switch_loop-Frame :
    (hs : List Handler) (q ipl : ℕ) (d : Option ℕ × Kernel) {k' : Kernel}
    → All (IsHandlerOff q) hs
    → q ≢ runq
    → IsValid d.1
    → switch_loop hs ipl d ≡ ok k'
    → Frame q d.1 k'
unfolding switch_loop
switch_loop-Frame [] q ipl (some t, k) a n v e = subst_ok (Frame q k) (switch_to-Frame q ipl t k) e
switch_loop-Frame (h ∷ hs) q ipl (some t, k) a n v e =
    subst_ok (Frame q k) (switch_to-Frame q ipl t k) e
switch_loop-Frame [] q ipl (none, k) a n v e = cc
switch_loop-Frame (h ∷ hs) q ipl (none, k) a n v e =
    let k0 = set_ipl k ipl_low in
    let v0 = set_ipl-IsValid k ipl_low v in
    let k1 = set_ipl (h k0) ipl_high in
    let v1 = set_ipl-IsValid (h k0) ipl_high (a.0.keeps k0 v0) in
    let f1 : Frame q k k1 =
      Frame-trans (set_ipl-Frame q ipl_low k)
        (Frame-trans (a.0.frame k0 v0) (set_ipl-Frame q ipl_high (h k0))) in
    let d1 = dequeue runq k1 in
    Frame-trans f1 (
      Frame-trans (dequeue-Frame q runq k1 (k1.queue runq).list n refl)
        (switch_loop-Frame hs q ipl d1 a.1 n (dequeue-IsValid runq k1 v1) e))

pub switch-Frame :
    (hs : List Handler) (q : ℕ) (k : Kernel) {k' : Kernel}
    → All (IsHandlerOff q) hs
    → q ≢ runq
    → IsValid k
    → switch hs k ≡ ok k'
    → Frame q k k'
unfolding switch
switch-Frame hs q k a n v e =
    let k1 = set_ipl k ipl_high in
    let v1 = set_ipl-IsValid k ipl_high v in
    Frame-trans (set_ipl-Frame q ipl_high k) (
      Frame-trans (dequeue-Frame q runq k1 (k1.queue runq).list n refl)
        (switch_loop-Frame hs q k.ipl (dequeue runq k1) a n (dequeue-IsValid runq k1 v1) e))

-- what an enqueue does, in the words of the queue and the thread
pub enqueue-ok :
    (q t : ℕ) (k : Kernel) {k' : Kernel}
    → enqueue q t k ≡ ok k'
    → ((k'.queue q).list ≡ t ∷ (k.queue q).list)
      × ((p : ℕ) → p ≢ q → k'.queue p ≡ k.queue p)
      × ((u : ℕ) → (k'.thread u).state ≡ (k.thread u).state)
unfolding enqueue
enqueue-ok q t k e = (ground arith, λ p n. ground arith, λ u. ground arith)

pub All-keeps : (q : ℕ) (hs : List Handler) → All (IsHandlerOff q) hs → All IsHandler hs
All-keeps q [] a = tt
All-keeps q (h ∷ hs) a = (a.0.keeps, All-keeps q hs a.1)

-- Going to sleep on a queue puts the running thread at its head, before those that slept already.
pub sleep_on-queue :
    (hs : List Handler) (q : ℕ) (k : Kernel) {k' : Kernel}
    → All (IsHandlerOff q) hs
    → IsRunning k
    → q ≢ runq
    → sleep_on hs q k ≡ ok k'
    → (k'.queue q).list ≡ k.curthr ∷ (k.queue q).list
unfolding sleep_on
sleep_on-queue hs q k a r n e =
    let k1 = set_state k k.curthr State.sleep in
    let (k2, e2, e3) = bind_parts (enqueue q k.curthr k1) (λ k'. switch hs k') e in
    let v1 : IsValid k1 =
      set_state-IsValid k k.curthr State.sleep r.valid (ground (arith, r.awake)) in
    let v2 : IsValid k2 = enqueue-IsValid q k.curthr k1 v1 (ground arith) e2 in
    let d = enqueue-ok q k.curthr k1 e2 in
    let f = switch-Frame hs q k2 a n v2 e3 in ground (arith, f.queue, d.0)

pub queue_empty-nil : (q : ℕ) (k : Kernel) → (k.queue q).list ≡ [] → queue_empty q k ≡ true
unfolding queue_empty
queue_empty-nil q k e = ground arith

pub queue_empty-cons :
    (q : ℕ) (k : Kernel) (x : ℕ) (xs : List ℕ) → (k.queue q).list ≡ x ∷ xs → queue_empty q k ≡ false
unfolding queue_empty
queue_empty-cons q k x xs e = ground arith

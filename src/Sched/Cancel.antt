-- ===== src/Sched/Cancel.antt =====
-- sched_cancel and ktqueue_remove (kernel/proc/sched.c).
use avengers.Prelude.{
  ℕ, ◌+◌, ◌-◌, ◌%◌, ◌<◌, ◌≡◌, refl, true, none, some, ◌∷◌, ◌≢◌, erase, count, count-erase,
  length-erase, ok, arith,
}
use avengers.Sched.{State, Thread, Kernel, runq, int_mod, update, set_thread, remove, cancel}
use avengers.Sched.Valid.{IsValid, make_runnable-IsValid, make_runnable-ok}

-- the state after a thread was taken out of the queue `q`
record Removed (q t : ℕ) (k k' : Kernel) : Type 0 where
  returned : remove q t k ≡ ok k'
  rest : (k'.queue q).list ≡ erase t (k.queue q).list
  off : (k'.thread t).wchan ≡ none
  others : (p : ℕ) → p ≢ q → k'.queue p ≡ k.queue p
  same : (u : ℕ) → u ≢ t → k'.thread u ≡ k.thread u
  cancelled : (k'.thread t).cancelled ≡ (k.thread t).cancelled
  valid : IsValid k'

abbrev removed : ℕ → ℕ → Kernel → Kernel
removed q t k = record k {
  thread = update k.thread t (record (k.thread t) { wchan = none; qlink = none });
  queue = update k.queue q (record {
    list = erase t (k.queue q).list;
    size = ((k.queue q).size + int_mod - 1) % int_mod;
  });
}

-- `sched_cancel` has written the thread's state and flag when it takes the thread off its queue.
remove-Removed :
    (q t : ℕ) (k : Kernel) (th : Thread)
    → IsValid k
    → (k.thread t).wchan ≡ some q
    → th.wchan ≡ some q
    → th.qlink ≡ (k.thread t).qlink
    → (k' : Kernel) × Removed q t (set_thread k t th) k'
unfolding remove
remove-Removed q t k th v w w' l =
    let here : 0 < count t (k.queue q).list = ground (arith, v.counted q t) in
    (
      removed q t (set_thread k t th),
      record {
        returned = ground (arith, v.linked t);
        rest = ground arith;
        off = ground arith;
        others = λ p n. ground arith;
        same = λ u n. ground arith;
        cancelled = ground arith;
        valid = record {
          counted = λ p u. ground (arith, v.counted p u, count-erase u t (k.queue q).list);
          linked = λ u. ground (arith, v.linked u);
          sized = λ p. ground (arith, v.sized p, v.sized q, length-erase t (k.queue q).list);
          fits = λ u. ground (arith, v.fits u);
        };
      },
    )

-- Cancelling a thread that sleeps cancellably on a queue takes it out of that queue, marks it
-- cancelled and puts it at the head of the run queue; the invariant holds afterwards.
pub cancel_asleep :
    (q t : ℕ) (k : Kernel)
    → IsValid k
    → (k.thread t).state ≡ State.sleep_cancellable
    → (k.thread t).wchan ≡ some q
    → (k' : Kernel) × (cancel t k ≡ ok k')
      × ((k'.queue q).list ≡ erase t (k.queue q).list)
      × ((k'.queue runq).list ≡ t ∷ (k.queue runq).list)
      × ((k'.thread t).cancelled ≡ true)
      × ((k'.thread t).state ≡ State.run)
      × IsValid k'
unfolding cancel
cancel_asleep q t k v s w =
    let th = record (k.thread t) { cancelled = true; state = State.run } in
    let n : q ≢ runq = λ e. ground (arith, v.fits t) in
    let (k2, m) = remove-Removed q t k th v w w refl in
    let r = make_runnable-ok t k2 m.off in
    (
      r.0,
      ground (arith, m.returned, r.1),
      ground (arith, r.7 q n, m.rest),
      ground (arith, r.2, m.others runq),
      ground (arith, r.9, m.cancelled),
      r.3,
      make_runnable-IsValid t k2 m.valid r.1,
    )

-- Cancelling any other thread only sets its flag, and keeps the invariant.
cancel_awake :
    (t : ℕ) (k : Kernel)
    → IsValid k
    → (k.thread t).state ≢ State.sleep_cancellable
    → (k' : Kernel) × (cancel t k ≡ ok k')
      × (k'.queue ≡ k.queue)
      × (k'.thread t ≡ record (k.thread t) { cancelled = true })
      × ((u : ℕ) → u ≢ t → k'.thread u ≡ k.thread u)
      × IsValid k'
unfolding cancel
cancel_awake t k v s = (
  set_thread k t (record (k.thread t) { cancelled = true }),
  ground arith,
  refl,
  ground arith,
  λ u n. ground arith,
  record {
    counted = λ p u. ground (arith, v.counted p u);
    linked = λ u. ground (arith, v.linked u);
    sized = v.sized;
    fits = λ u. ground (arith, v.fits u);
  },
)

-- ===== src/Sched/Tests.antt =====
-- Runs of kernel/proc/sched.c, and the theorems at concrete inputs.
use avengers.Prelude.{ℕ, ◌≡◌, refl, true, false, none, some, [], ◌∷◌, ok, arith}
use avengers.Sched.{
  State, Thread, Kernel, runq, update, enqueue, dequeue, dequeue_from, switch, switch_loop,
  switch_to, sleep_on, cancellable_sleep_on, broadcast_on, set_ipl,
}
use avengers.Sched.Valid.{IsValid}
use avengers.Sched.Wakeup.{Woken, wakeup_on-Woken, Emptied, broadcast_on-Emptied}
use avengers.Sched.Switch.{IsRunning, Switched, switch-Switched}

abbrev awake : ℕ → Thread
awake t = record { proc = t; cancelled = false; wchan = none; state = State.run; qlink = none }

abbrev on_queue : ℕ → State → ℕ → Thread
on_queue q s t = record { proc = t; cancelled = false; wchan = some q; state = s; qlink = some q }

-- Thread 1 runs, thread 2 is runnable, and threads 3 and 4 sleep on the queue 5, 3 the longer.
abbrev busy : Kernel
busy = record {
  thread =
      update (update (update awake 2 (on_queue runq State.run 2)) 3 (on_queue 5 State.sleep 3)) 4
        (on_queue 5 State.sleep_cancellable 4);
  queue =
      update
        (update (λ q. record { list = []; size = 0 }) 5 (record { list = 4 ∷ 3 ∷ []; size = 2 }))
        runq (record { list = 2 ∷ []; size = 1 });
  curthr = 1;
  curproc = 1;
  ipl = 0;
}

busy-IsValid : IsValid busy
busy-IsValid = record {
  counted = λ q t. ground arith;
  linked = λ t. ground arith;
  sized = λ q. ground arith;
  fits = λ t. ground arith;
}

busy-IsRunning : IsRunning busy
busy-IsRunning = record { valid = busy-IsValid; awake = refl }

wakeup_on-Woken_example : (k : Kernel) × Woken 5 busy 4 (3 ∷ []) k
wakeup_on-Woken_example = wakeup_on-Woken 5 busy 4 (3 ∷ []) busy-IsValid (λ e. omega arith) refl

broadcast_on-Emptied_example : (k : Kernel) × (broadcast_on 5 busy ≡ ok k) × Emptied 5 busy k
broadcast_on-Emptied_example =
    broadcast_on-Emptied 5 busy busy-IsValid (λ e. omega arith) (omega arith)

switch-Switched_example : Switched 0 (switch_to 0 2 (dequeue runq (set_ipl busy 0xff)).1)
unfolding switch switch_loop dequeue dequeue_from
switch-Switched_example = switch-Switched [] busy tt busy-IsValid refl

asleep : (k : Kernel) × (sleep_on [] 6 busy ≡ ok k)
unfolding sleep_on enqueue switch switch_loop dequeue dequeue_from
asleep = (_, refl)

asleep_cancellably : (k : Kernel) × (cancellable_sleep_on [] 6 busy ≡ ok (0, k))
unfolding cancellable_sleep_on enqueue switch switch_loop dequeue dequeue_from
asleep_cancellably = (_, refl)

-- the thread that runs has been cancelled
abbrev doomed : Kernel
doomed = record busy { thread = update busy.thread 1 (record (awake 1) { cancelled = true }) }

doomed-IsRunning : IsRunning doomed
doomed-IsRunning = record {
  valid = record {
    counted = λ q t. ground arith;
    linked = λ t. ground arith;
    sized = λ q. ground arith;
    fits = λ t. ground arith;
  };
  awake = refl;
}

-- ===== src/Mutex/Tests.antt =====
-- Runs of kernel/proc/kmutex.c, and the theorems at concrete inputs.
use avengers.Prelude.{ℕ, ◌≡◌, refl, false, none, some, [], ◌∷◌, ok, arith}
use avengers.Sched.{State, Thread, Ktqueue, Kernel, update, runq, dequeue}
use avengers.Sched.Valid.{IsValid, dequeue-Dequeued, dequeue-IsValid}
use avengers.Sched.Frame.{dequeue-Frame}
use avengers.Mutex.{Mutex, unlock}
use avengers.Mutex.Exclusion.{
  Phase, System, Step, Reach, IsExclusive, Step-IsExclusive, mutual_exclusion,
}
use avengers.Mutex.Handover.{unlock_hands_over}

abbrev awake : ℕ → Thread
awake t = record { proc = t; cancelled = false; wchan = none; state = State.run; qlink = none }

abbrev asleep_on : ℕ → State → ℕ → Thread
asleep_on q s t = record { proc = t; cancelled = false; wchan = some q; state = s; qlink = some q }

abbrev empty_queue : Ktqueue
empty_queue = record { list = []; size = 0 }

-- Thread 1 runs and holds the mutex of the queue 5; thread 2 waits for it.
abbrev held : State → Mutex
held s = record {
  waitq = 5;
  holder = some 1;
  kernel = record {
    thread = update awake 2 (asleep_on 5 s 2);
    queue = update (λ q. empty_queue) 5 (record { list = 2 ∷ []; size = 1 });
    curthr = 1;
    curproc = 1;
    ipl = 0;
  };
}

abbrev phases : ℕ → Phase
phases = update (update (λ t. Phase.outside) 1 Phase.owning) 2 Phase.waiting

abbrev contended : System
contended = record { mutex = held State.sleep; phase = phases }

held-IsValid : IsValid (held State.sleep).kernel
held-IsValid = record {
  counted = λ q t. ground arith;
  linked = λ t. ground arith;
  sized = λ q. ground arith;
  fits = λ t. ground arith;
}

contended-IsExclusive : IsExclusive contended
contended-IsExclusive = record {
  off_runq = λ e. omega arith;
  running = record { valid = held-IsValid; awake = refl };
  owner = λ t h. ground arith;
  served = λ t h. ground arith;
  queued = λ t h. ground arith;
}

unlock_hands_over_example :
    (m : Mutex) × (unlock contended.mutex ≡ ok m)
    × (m.holder ≡ some 2)
    × ((m.kernel.queue m.waitq).list ≡ [])
    × ((m.kernel.queue runq).list ≡ 2 ∷ [])
    × ((m.kernel.thread 2).state ≡ State.run)
unlock_hands_over_example = unlock_hands_over contended 2 [] contended-IsExclusive refl refl

-- Thread 1 unlocks the mutex, which is handed over to thread 2, the scheduler takes thread 2 off
-- the run queue and switches to it, and thread 2 goes on past kmutex_lock.
handed_over :
    (t : System) × Reach contended t × (t.phase 1 ≡ Phase.outside) × (t.phase 2 ≡ Phase.owning)
handed_over =
    let (m, run, given, rest, ready, state) = unlock_hands_over_example in
    let st : Step contended (unlocked m) = Step.unlocks m refl run in
    let v = Step-IsExclusive st contended-IsExclusive in
    let d = dequeue-Dequeued runq m.kernel 2 [] ready in
    let k : Kernel = record (dequeue runq m.kernel).1 { curthr = 2 } in
    let w = dequeue-IsValid runq m.kernel v.running.valid in
    let f = dequeue-Frame m.waitq runq m.kernel (2 ∷ []) v.off_runq ready in
    (
      _,
      Reach.next
          (Reach.next (Reach.next Reach.here st) (
            Step.others k
              (record {
                valid = record {
                  counted = w.counted;
                  linked = w.linked;
                  sized = w.sized;
                  fits = w.fits;
                };
                awake = d.off;
              })
              (record { queue = f.queue; states = f.states })))
          (Step.resumes refl),
      refl,
      refl,
    )
  where
    unlocked : Mutex → System
    unlocked m = record { mutex = m; phase = update phases 1 Phase.outside }

mutual_exclusion_example : ◌≡◌ {A = ℕ} 2 2
mutual_exclusion_example =
    mutual_exclusion 2 2 contended-IsExclusive handed_over.1 handed_over.3 handed_over.3

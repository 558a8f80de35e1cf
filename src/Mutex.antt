-- ===== src/Mutex.antt =====
-- Kernel mutexes (kernel/proc/kmutex.c). A routine that sleeps is cut in two where it sleeps: what
-- runs before the thread is switched away from, and what runs when it has been switched back to.
pub mod Exclusion
pub mod Handover
mod Tests
use avengers.Prelude.{
  ℕ, Bool, true, false, not, Option, none, some, List, ◌==◌, if◌then◌else◌, Outcome, ok, panic,
  waits, ◌>>=◌, ◌>>◌, kassert,
}
use avengers.Sched.{
  Kernel, Handler, is_on, eintr, queue_init, queue_empty, sleep_on, cancellable_sleep_on, wakeup_on,
}

-- `kmutex_t`, with the kernel that it lives in; `waitq` is the queue `km_waitq`.
pub record Mutex : Type 0 where
  pub waitq : ℕ
  pub holder : Option ℕ
  pub kernel : Kernel

-- Has the routine returned, or does its thread sleep in it?
pub data Progress : Type 0 where
  returned : ℕ → Progress
  blocked : Progress

pub init : Mutex → Mutex
init m = record m { holder = none; kernel = queue_init m.waitq m.kernel }

-- the branches of `kmutex_lock` on `km_holder`
lock_from : List Handler → Option ℕ → Mutex → Outcome (Progress × Mutex)
lock_from hs none m = ok (Progress.returned 0, record m { holder = some m.kernel.curthr })
lock_from hs (some h) m = do
  k ← sleep_on hs m.waitq m.kernel
  ok (Progress.blocked, record m { kernel = k })

pub lock : List Handler → Mutex → Outcome (Progress × Mutex)
unfolding lock_from
lock hs m = do kassert (not (is_on m.kernel.curthr m.holder)); lock_from hs m.holder m

-- `kmutex_lock` after `sched_sleep_on` has returned
pub lock_resume : Mutex → Mutex
lock_resume m = record m { holder = some m.kernel.curthr }

-- `kmutex_lock_cancellable` after `sched_cancellable_sleep_on` has returned the error `r`
pub lock_cancellable_resume : ℕ → Mutex → ℕ × Mutex
lock_cancellable_resume r m =
    if r == eintr then (eintr, m) else (0, record m { holder = some m.kernel.curthr })

-- A cancelled thread is refused at once; any other sleeps, and gets 0 when it runs again.
cancellable_from : List Handler → Option ℕ → Mutex → Outcome (Progress × Mutex)
unfolding lock_cancellable_resume
cancellable_from hs none m = ok (Progress.returned 0, record m { holder = some m.kernel.curthr })
cancellable_from hs (some h) m = do
  s ← cancellable_sleep_on hs m.waitq m.kernel
  let m' = record m { kernel = s.1 }
  ok (
      if s.0 == eintr
      then (
        Progress.returned (lock_cancellable_resume s.0 m').0,
        (lock_cancellable_resume s.0 m').1,
      )
      else (Progress.blocked, m'))

pub lock_cancellable : List Handler → Mutex → Outcome (Progress × Mutex)
unfolding cancellable_from
lock_cancellable hs m = do
  kassert (not (is_on m.kernel.curthr m.holder))
  cancellable_from hs m.holder m

-- the branches of `kmutex_unlock` on the wait queue
unlock_from : Bool → Mutex → Outcome Mutex
unlock_from true m = ok (record m { holder = none })
unlock_from false m = do
  r ← wakeup_on m.waitq m.kernel
  ok (record m { holder = r.0; kernel = r.1 })

pub unlock : Mutex → Outcome Mutex
unfolding unlock_from
unlock m = do
  kassert (is_on m.kernel.curthr m.holder)
  m' ← unlock_from (queue_empty m.waitq m.kernel) m
  kassert (not (is_on m'.kernel.curthr m'.holder))
  ok m'

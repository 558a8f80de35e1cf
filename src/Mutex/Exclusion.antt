-- ===== src/Mutex/Exclusion.antt =====
-- Mutual exclusion by kmutex_lock and kmutex_unlock (kernel/proc/kmutex.c), over every interleaving
-- with work of the kernel that leaves the mutex and its wait queue alone: a mutex that no thread
-- locks with kmutex_lock_cancellable, so that nobody has a reason to cancel one of its waiters.
use avengers.Prelude.{
  ℕ, ◌<◌, ◌≡◌, refl, Option, none, some, List, [], ◌∷◌, ◌≢◌, ◌⊎◌, ◌>>=◌, ◌>>◌, bind_parts, subst_ok,
  kassert, not, get_last, All, ok, arith, count, count-drop_last,
}
use avengers.Sched.{Kernel, Handler, runq, is_on, update, queue_empty, sleep_on}
use avengers.Sched.Switch.{IsRunning, sleep_on-Switched}
use avengers.Sched.Wakeup.{Woken, wakeup_on-Woken}
use avengers.Sched.Frame.{
  Frame, IsHandlerOff, All-keeps, sleep_on-queue, queue_empty-nil, queue_empty-cons,
}
use avengers.Mutex.{Mutex, Progress, lock, lock_from, lock_resume, unlock, unlock_from}

-- Where a thread stands with the mutex: outside, asleep in `kmutex_lock`, or past it.
pub data Phase : Type 0 where
  outside waiting owning : Phase

pub record System : Type 0 where
  pub mutex : Mutex
  pub phase : ℕ → Phase

abbrev pub cur : System → ℕ
cur s = s.mutex.kernel.curthr

abbrev after_lock : Progress → Phase
after_lock (Progress.returned r) = owning
after_lock Progress.blocked = waiting

-- One step of the system: the running thread starts or goes on with `kmutex_lock`, or unlocks; or
-- the kernel does something that leaves the mutex and its wait queue alone.
pub data Step (s : System) : System → Type 0 where
  locks :
      (hs : List Handler) (p : Progress) (m : Mutex)
      → All (IsHandlerOff s.mutex.waitq) hs
      → s.phase (cur s) ≡ outside
      → lock hs s.mutex ≡ ok (p, m)
      → Step s (record { mutex = m; phase = update s.phase (cur s) (after_lock p) })
  resumes :
      s.phase (cur s) ≡ waiting
      → Step s (record { mutex = lock_resume s.mutex; phase = update s.phase (cur s) owning })
  unlocks :
      (m : Mutex)
      → s.phase (cur s) ≡ owning
      → unlock s.mutex ≡ ok m
      → Step s (record { mutex = m; phase = update s.phase (cur s) outside })
  others :
      (k : Kernel)
      → IsRunning k
      → Frame s.mutex.waitq s.mutex.kernel k
      → Step s (record s { mutex = record s.mutex { kernel = k } })

pub data Reach (s : System) : System → Type 0 where
  here : Reach s s
  next : {t u : System} → Reach s t → Step t u → Reach s u

abbrev pub waiters : System → List ℕ
waiters s = (s.mutex.kernel.queue s.mutex.waitq).list

pub record IsExclusive (s : System) : Type 0 where
  pub off_runq : s.mutex.waitq ≢ runq
  pub running : IsRunning s.mutex.kernel
  pub owner : (t : ℕ) → s.phase t ≡ owning → s.mutex.holder ≡ some t
  pub served : (t : ℕ) → s.phase t ≡ waiting → (0 < count t (waiters s)) ⊎ (s.mutex.holder ≡ some t)
  pub queued : (t : ℕ) → 0 < count t (waiters s) → s.phase t ≡ waiting

-- The running thread does not wait on the mutex's queue.
pub cur_off : (s : System) → IsExclusive s → count (cur s) (waiters s) ≡ 0
cur_off s v = ground (arith, v.running.valid.counted s.mutex.waitq (cur s), v.running.awake)

resumes-IsExclusive :
    (s : System)
    → s.phase (cur s) ≡ waiting
    → IsExclusive s
    → IsExclusive (record { mutex = lock_resume s.mutex; phase = update s.phase (cur s) owning })
unfolding lock_resume
resumes-IsExclusive s w v = record {
  off_runq = v.off_runq;
  running = v.running;
  owner = λ t h. ground (arith, v.owner t, v.served (cur s) w, cur_off s v);
  served = λ t h. ground (arith, v.served t, v.served (cur s) w, cur_off s v);
  queued = λ t h. ground (arith, v.queued t h, cur_off s v);
}

others-IsExclusive :
    (s : System) (k : Kernel)
    → IsRunning k
    → Frame s.mutex.waitq s.mutex.kernel k
    → IsExclusive s
    → IsExclusive (record s { mutex = record s.mutex { kernel = k } })
others-IsExclusive s k r f v = record {
  off_runq = v.off_runq;
  running = r;
  owner = v.owner;
  served = λ t h. rw f.queue (v.served t h);
  queued = λ t h. v.queued t (rw f.queue at h);
}

acquires-IsExclusive :
    (s : System)
    → s.mutex.holder ≡ none
    → IsExclusive s
    → IsExclusive (record {
      mutex = record s.mutex { holder = some (cur s) };
      phase = update s.phase (cur s) owning;
    })
acquires-IsExclusive s e v = record {
  off_runq = v.off_runq;
  running = v.running;
  owner = λ t h. ground (arith, v.owner t);
  served = λ t h. ground (arith, v.served t);
  queued = λ t h. ground (arith, v.queued t h, cur_off s v);
}

sleeps-IsExclusive :
    (s : System) (hs : List Handler) (k : Kernel)
    → All (IsHandlerOff s.mutex.waitq) hs
    → s.phase (cur s) ≡ outside
    → IsExclusive s
    → sleep_on hs s.mutex.waitq s.mutex.kernel ≡ ok k
    → IsExclusive
        (record { mutex = record s.mutex { kernel = k }; phase = update s.phase (cur s) waiting })
sleeps-IsExclusive s hs k a o v e =
    let q = s.mutex.waitq in
    let k0 = s.mutex.kernel in
    let l : (k.queue q).list ≡ cur s ∷ waiters s =
      sleep_on-queue hs q k0 a v.running v.off_runq e in
    record {
      off_runq = v.off_runq;
      running = (sleep_on-Switched hs q k0 (All-keeps q hs a) v.running v.off_runq e).running;
      owner = λ t h. ground (arith, v.owner t);
      served = λ t h. ground (arith, v.served t, l);
      queued = λ t h. ground (arith, v.queued t, l);
    }

abbrev Entered : System → Progress × Mutex → Type 0
Entered s r = IsExclusive (record { mutex = r.1; phase = update s.phase (cur s) (after_lock r.0) })

lock_from-IsExclusive :
    (s : System) (hs : List Handler) (h : Option ℕ) (p : Progress) (m : Mutex)
    → All (IsHandlerOff s.mutex.waitq) hs
    → s.phase (cur s) ≡ outside
    → s.mutex.holder ≡ h
    → lock_from hs h s.mutex ≡ ok (p, m)
    → IsExclusive s
    → IsExclusive (record { mutex = m; phase = update s.phase (cur s) (after_lock p) })
unfolding lock_from
lock_from-IsExclusive s hs none p m a o f e v = subst_ok (Entered s) (acquires-IsExclusive s f v) e
lock_from-IsExclusive s hs (some h) p m a o f e v =
    let (k, e1, e2) =
      bind_parts (sleep_on hs s.mutex.waitq s.mutex.kernel)
        (λ k. ok (Progress.blocked, record s.mutex { kernel = k })) e in
    subst_ok (Entered s) (sleeps-IsExclusive s hs k a o v e1) e2

locks-IsExclusive :
    (s : System) (hs : List Handler) (p : Progress) (m : Mutex)
    → All (IsHandlerOff s.mutex.waitq) hs
    → s.phase (cur s) ≡ outside
    → lock hs s.mutex ≡ ok (p, m)
    → IsExclusive s
    → IsExclusive (record { mutex = m; phase = update s.phase (cur s) (after_lock p) })
unfolding lock
locks-IsExclusive s hs p m a o e v =
    let (u, e1, e2) =
      bind_parts (kassert (not (is_on s.mutex.kernel.curthr s.mutex.holder)))
        (λ _. lock_from hs s.mutex.holder s.mutex) e in
    lock_from-IsExclusive s hs s.mutex.holder p m a o refl e2 v

abbrev Left : System → Mutex → Type 0
Left s m = IsExclusive (record { mutex = m; phase = update s.phase (cur s) outside })

releases-IsExclusive :
    (s : System)
    → s.phase (cur s) ≡ owning
    → waiters s ≡ []
    → IsExclusive s
    → Left s (record s.mutex { holder = none })
releases-IsExclusive s o l v = record {
  off_runq = v.off_runq;
  running = v.running;
  owner = λ t h. ground (arith, v.owner t, v.owner (cur s) o);
  served = λ t h. ground (arith, v.served t, v.owner (cur s) o, l);
  queued = λ t h. ground (arith, v.queued t h, l);
}

hands_over-IsExclusive :
    (s : System) (x : ℕ) (xs : List ℕ) (k : Kernel)
    → s.phase (cur s) ≡ owning
    → waiters s ≡ x ∷ xs
    → Woken s.mutex.waitq s.mutex.kernel x xs k
    → IsExclusive s
    → Left s (record s.mutex { holder = some (get_last x xs); kernel = k })
hands_over-IsExclusive s x xs k o l w v =
    let g = get_last x xs in
    record {
      off_runq = v.off_runq;
      running = record {
        valid = w.valid;
        awake = ground (
          arith,
          w.curthr,
          w.same (cur s),
          cur_off s v,
          v.running.awake,
          count-drop_last (cur s) x xs,
        );
      };
      owner = λ t h. ground (arith, v.owner t, v.owner (cur s) o);
      served = λ t h. ground (arith, v.served t, v.owner (cur s) o, w.rest, count-drop_last t x xs);
      queued = λ t h. ground (
        arith,
        v.queued t,
        w.rest,
        count-drop_last t x xs,
        cur_off s v,
        count-drop_last (cur s) x xs,
      );
    }

unlock_from-IsExclusive :
    (s : System) (l : List ℕ) (m : Mutex)
    → s.phase (cur s) ≡ owning
    → waiters s ≡ l
    → unlock_from (queue_empty s.mutex.waitq s.mutex.kernel) s.mutex ≡ ok m
    → IsExclusive s
    → Left s m
unfolding unlock_from
unlock_from-IsExclusive s [] m o l e v =
    subst_ok (Left s) (releases-IsExclusive s o l v)
      (rw (queue_empty-nil s.mutex.waitq s.mutex.kernel l, unlock_from) at e)
unlock_from-IsExclusive s (x ∷ xs) m o l e v =
    let (k, w) = wakeup_on-Woken s.mutex.waitq s.mutex.kernel x xs v.running.valid v.off_runq l in
    subst_ok (Left s) (hands_over-IsExclusive s x xs k o l w v)
      (rw (queue_empty-cons s.mutex.waitq s.mutex.kernel x xs l, unlock_from, w.returned) at e)

unlocks-IsExclusive :
    (s : System) (m : Mutex)
    → s.phase (cur s) ≡ owning
    → unlock s.mutex ≡ ok m
    → IsExclusive s
    → IsExclusive (record { mutex = m; phase = update s.phase (cur s) outside })
unfolding unlock
unlocks-IsExclusive s m o e v =
    let (u, _, e1) =
      bind_parts (kassert (is_on s.mutex.kernel.curthr s.mutex.holder))
        (λ _. unlock_from (queue_empty s.mutex.waitq s.mutex.kernel) s.mutex >>= λ m'.
          kassert (not (is_on m'.kernel.curthr m'.holder)) >> ok m')
        e in
    let (m', e2, e3) =
      bind_parts (unlock_from (queue_empty s.mutex.waitq s.mutex.kernel) s.mutex)
        (λ m'. kassert (not (is_on m'.kernel.curthr m'.holder)) >> ok m') e1 in
    let (u', _, e4) =
      bind_parts (kassert (not (is_on m'.kernel.curthr m'.holder))) (λ _. ok m') e3 in
    subst_ok (Left s) (unlock_from-IsExclusive s (waiters s) m' o refl e2 v) e4

pub Step-IsExclusive : {s t : System} → Step s t → IsExclusive s → IsExclusive t
Step-IsExclusive {s} (locks hs p m a o e) v = locks-IsExclusive s hs p m a o e v
Step-IsExclusive {s} (resumes w) v = resumes-IsExclusive s w v
Step-IsExclusive {s} (unlocks m o e) v = unlocks-IsExclusive s m o e v
Step-IsExclusive {s} (others k r f) v = others-IsExclusive s k r f v

pub Reach-IsExclusive : {s t : System} → IsExclusive s → Reach s t → IsExclusive t
Reach-IsExclusive v here = v
Reach-IsExclusive v (next r st) = Step-IsExclusive st (Reach-IsExclusive v r)

-- From an exclusive state, however threads take a mutex with kmutex_lock and release it with
-- kmutex_unlock, in whatever order with other steps of the kernel, which leave the mutex, its wait
-- queue and the states of the waiters alone: no two threads are past kmutex_lock at once.
pub mutual_exclusion :
    {s t : System} (x y : ℕ)
    → IsExclusive s
    → Reach s t
    → t.phase x ≡ owning
    → t.phase y ≡ owning
    → x ≡ y
mutual_exclusion x y v r hx hy =
    let w = Reach-IsExclusive v r in ground (arith, w.owner x hx, w.owner y hy)

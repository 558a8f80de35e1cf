-- ===== src/Sched/Valid.antt =====
-- The invariant of the thread queues of kernel/proc/sched.c: a thread is on exactly the queue that
-- `kt_wchan` names, once, and the sizes are right.
use avengers.Prelude.{
  ℕ, ◌+◌, ◌%◌, ◌≡◌, refl, Bool, true, false, Option, none, some, List, [], ◌∷◌, ◌==◌, ◌≢◌,
  if◌then◌else◌, get_last, drop_last, count, length, count-drop_last, length-drop_last, ok, arith,
}
use avengers.Sched.{
  State, Kernel, runq, int_mod, is_on, is_asleep, update, set_state, enqueue, dequeue, dequeue_from,
  set_ipl, make_runnable,
}

-- A thread on the run queue is runnable, and one on another queue is asleep.
abbrev pub state_fits : Option ℕ → State → Bool
state_fits none s = true
state_fits (some q) s = if q == runq then is_run s else is_asleep s
  where
    is_run : State → Bool
    is_run State.run = true
    is_run _ = false

pub record IsValid (k : Kernel) : Type 0 where
  pub counted : (q t : ℕ) → count t (k.queue q).list ≡ (if is_on q (k.thread t).wchan then 1 else 0)
  pub linked : (t : ℕ) → (k.thread t).qlink ≡ (k.thread t).wchan
  pub sized : (q : ℕ) → (k.queue q).size ≡ length (k.queue q).list % int_mod
  pub fits : (t : ℕ) → state_fits (k.thread t).wchan (k.thread t).state ≡ true

pub enqueue-IsValid :
    (q t : ℕ) (k : Kernel) {k' : Kernel}
    → IsValid k
    → state_fits (some q) (k.thread t).state ≡ true
    → enqueue q t k ≡ ok k'
    → IsValid k'
unfolding enqueue
enqueue-IsValid q t k {k'} v f e = record {
  counted = λ p u. ground (arith, v.counted p u);
  linked = λ u. ground (arith, v.linked u);
  sized = λ p. ground (arith, v.sized p);
  fits = λ u. ground (arith, v.fits u);
}

pub enqueue-ipl : (q t : ℕ) (k : Kernel) {k' : Kernel} → enqueue q t k ≡ ok k' → k'.ipl ≡ k.ipl
unfolding enqueue
enqueue-ipl q t k e = ground arith

-- what taking a thread off a queue does, in the words of the queue it was on
pub record Dequeued (q : ℕ) (k : Kernel) (x : ℕ) (xs : List ℕ) : Type 0 where
  pub taken : (dequeue q k).0 ≡ some (get_last x xs)
  pub rest : ((dequeue q k).1.queue q).list ≡ drop_last x xs
  pub off : ((dequeue q k).1.thread (get_last x xs)).wchan ≡ none
  pub kept : (p : ℕ) → p ≢ q → (dequeue q k).1.queue p ≡ k.queue p
  pub same : (t : ℕ) → t ≢ get_last x xs → (dequeue q k).1.thread t ≡ k.thread t
  pub state_same : (t : ℕ) → ((dequeue q k).1.thread t).state ≡ (k.thread t).state

pub dequeue-Dequeued :
    (q : ℕ) (k : Kernel) (x : ℕ) (xs : List ℕ) → (k.queue q).list ≡ x ∷ xs → Dequeued q k x xs
unfolding dequeue
dequeue-Dequeued q k x xs e = record {
  taken = ground arith;
  rest = ground arith;
  off = ground arith;
  kept = λ p h. ground arith;
  same = λ t h. ground arith;
  state_same = λ t. ground arith;
}

pub dequeue-curthr :
    (q : ℕ) (k : Kernel) → ((dequeue q k).1.curthr ≡ k.curthr) × ((dequeue q k).1.ipl ≡ k.ipl)
unfolding dequeue
dequeue-curthr q k = (ground arith, ground arith)

pub dequeue-IsValid : (q : ℕ) (k : Kernel) → IsValid k → IsValid (dequeue q k).1
unfolding dequeue
dequeue-IsValid q k v = from (k.queue q).list refl
  where
    from : (l : List ℕ) → (k.queue q).list ≡ l → IsValid (dequeue_from q k l).1
    from [] e = v
    from (x ∷ xs) e = record {
      counted = λ p u. ground (
        arith,
        v.counted p u,
        v.counted q (get_last x xs),
        count-drop_last u x xs,
        count-drop_last (get_last x xs) x xs,
      );
      linked = λ u. ground (arith, v.linked u);
      sized = λ p. ground (arith, v.sized p, v.sized q, length-drop_last x xs);
      fits = λ u. ground (arith, v.fits u);
    }

-- A queue from which nothing can be taken is empty, and nothing changes.
pub dequeue-nil : (q : ℕ) (k : Kernel) → (k.queue q).list ≡ [] → dequeue q k ≡ (none, k)
unfolding dequeue
dequeue-nil q k e = ground arith

-- Writing a thread's state keeps the invariant, if the state fits the queue that it is on.
pub set_state-IsValid :
    (k : Kernel) (t : ℕ) (s : State)
    → IsValid k
    → state_fits (k.thread t).wchan s ≡ true
    → IsValid (set_state k t s)
set_state-IsValid k t s v h = record {
  counted = λ p u. ground (arith, v.counted p u);
  linked = λ u. ground (arith, v.linked u);
  sized = v.sized;
  fits = λ u. ground (arith, v.fits u);
}

pub set_ipl-IsValid : (k : Kernel) (i : ℕ) → IsValid k → IsValid (set_ipl k i)
set_ipl-IsValid k i v = record {
  counted = v.counted;
  linked = v.linked;
  sized = v.sized;
  fits = v.fits;
}

pub make_runnable-IsValid :
    (t : ℕ) (k : Kernel) {k' : Kernel} → IsValid k → make_runnable t k ≡ ok k' → IsValid k'
unfolding make_runnable enqueue
make_runnable-IsValid t k v e = record {
  counted = λ p u. ground (arith, v.counted p u);
  linked = λ u. ground (arith, v.linked u);
  sized = λ p. ground (arith, v.sized p);
  fits = λ u. ground (arith, v.fits u);
}

abbrev made_runnable : ℕ → Kernel → Kernel
made_runnable t k =
    let tq = k.queue runq in
    record k {
      thread =
          update k.thread t
            (record (k.thread t) { state = State.run; wchan = some runq; qlink = some runq });
      queue = update k.queue runq (record { list = t ∷ tq.list; size = (tq.size + 1) % int_mod });
    }

-- A thread on no queue becomes runnable, at the head of the run queue.
pub make_runnable-ok :
    (t : ℕ) (k : Kernel)
    → (k.thread t).wchan ≡ none
    → (k' : Kernel) × (make_runnable t k ≡ ok k')
      × ((k'.queue runq).list ≡ t ∷ (k.queue runq).list)
      × ((k'.thread t).state ≡ State.run)
      × ((k'.thread t).wchan ≡ some runq)
      × (k'.curthr ≡ k.curthr)
      × (k'.ipl ≡ k.ipl)
      × ((p : ℕ) → p ≢ runq → k'.queue p ≡ k.queue p)
      × ((u : ℕ) → u ≢ t → k'.thread u ≡ k.thread u)
      × ((k'.thread t).cancelled ≡ (k.thread t).cancelled)
unfolding make_runnable enqueue
make_runnable-ok t k h = (
  made_runnable t k,
  ground arith,
  refl,
  ground arith,
  ground arith,
  refl,
  refl,
  λ p n. ground arith,
  λ u n. ground arith,
  ground arith,
)

-- ===== src/Sched.antt =====
-- Kernel threads, their queues and the scheduler (kernel/proc/sched.c, kernel/include/proc/sched.h,
-- kernel/include/proc/kthread.h). Threads and queues are named by numbers; a routine that changes
-- the kernel's state returns the new state.
pub mod Valid
pub mod Frame
pub mod Cancel
pub mod Switch
pub mod Wakeup
mod Tests
use avengers.Prelude.{
  ℕ, ◌+◌, ◌-◌, ◌%◌, ◌^◌, Bool, true, false, not, Option, none, some, List, [], ◌∷◌, ◌==◌,
  if◌then◌else◌, is_none, get_last, drop_last, erase, Outcome, ok, panic, waits, ◌>>=◌, ◌>>◌,
  kassert,
}

pub data State : Type 0 where
  no_state run sleep sleep_cancellable exited : State

-- `kthread_t`. `qlink` is the queue that `kt_qlink` links the thread into.
pub record Thread : Type 0 where
  pub proc : ℕ
  pub cancelled : Bool
  pub wchan : Option ℕ
  pub state : State
  pub qlink : Option ℕ

-- `ktqueue_t`, the head of the list first; `size` is the bit pattern of the `int`.
pub record Ktqueue : Type 0 where
  pub list : List ℕ
  pub size : ℕ

pub record Kernel : Type 0 where
  pub thread : ℕ → Thread
  pub queue : ℕ → Ktqueue
  pub curthr : ℕ
  pub curproc : ℕ
  pub ipl : ℕ

-- the queue `kt_runq`
abbrev pub runq : ℕ
runq = 0

abbrev pub int_mod : ℕ
int_mod = 2 ^ 32

abbrev pub ipl_low : ℕ
ipl_low = 0

abbrev pub ipl_high : ℕ
ipl_high = 0xff

abbrev pub eintr : ℕ
eintr = 4

abbrev pub update {ℓ} : {A : Type ℓ} → (ℕ → A) → ℕ → A → ℕ → A
update f k v j = if k == j then v else f j

abbrev pub set_thread : Kernel → ℕ → Thread → Kernel
set_thread k t th = record k { thread = update k.thread t th }

abbrev pub set_state : Kernel → ℕ → State → Kernel
set_state k t s = set_thread k t (record (k.thread t) { state = s })

abbrev pub set_ipl : Kernel → ℕ → Kernel
set_ipl k i = record k { ipl = i }

pub queue_init : ℕ → Kernel → Kernel
queue_init q k = record k { queue = update k.queue q (record { list = []; size = 0 }) }

pub queue_empty : ℕ → Kernel → Bool
queue_empty q k = elim ((k.queue q).list) [ [] ↦ true | _ ∷ _ ↦ false ]

pub enqueue : ℕ → ℕ → Kernel → Outcome Kernel
enqueue q t k =
    let th = k.thread t in
    let tq = k.queue q in
    if is_none th.wchan
    then ok (record k {
      thread = update k.thread t (record th { wchan = some q; qlink = some q });
      queue = update k.queue q (record { list = t ∷ tq.list; size = (tq.size + 1) % int_mod });
    })
    else panic

-- what `ktqueue_dequeue` does with a list that is not empty
dequeue_from : ℕ → Kernel → List ℕ → Option ℕ × Kernel
dequeue_from q k [] = (none, k)
dequeue_from q k (x ∷ xs) =
    let t = get_last x xs in
    (
      some t,
      record k {
        thread = update k.thread t (record (k.thread t) { wchan = none; qlink = none });
        queue =
            update k.queue q
              (record { list = drop_last x xs; size = ((k.queue q).size + int_mod - 1) % int_mod });
      },
    )

pub dequeue : ℕ → Kernel → Option ℕ × Kernel
unfolding dequeue_from
dequeue q k = dequeue_from q k (k.queue q).list

-- `list_remove` takes the thread out of the list that it is linked into.
unlink : ℕ → Option ℕ → Kernel → Kernel
unlink t none k = k
unlink t (some p) k = record k {
  queue = update k.queue p (record (k.queue p) { list = erase t (k.queue p).list });
}

pub remove : ℕ → ℕ → Kernel → Outcome Kernel
unfolding unlink
remove q t k =
    let k1 = unlink t (k.thread t).qlink k in
    if is_none (k.thread t).qlink
    then panic
    else ok (record k1 {
      thread = update k.thread t (record (k.thread t) { wchan = none; qlink = none });
      queue =
          update k1.queue q
            (record (k1.queue q) { size = ((k1.queue q).size + int_mod - 1) % int_mod });
    })

-- Is the queue that a thread is on the given one?
abbrev pub is_on : ℕ → Option ℕ → Bool
is_on q none = false
is_on q (some p) = p == q

pub make_runnable : ℕ → Kernel → Outcome Kernel
make_runnable t k = do
  kassert (not (is_on runq (k.thread t).wchan))
  k' ← enqueue runq t (set_state (set_ipl k ipl_high) t State.run)
  ok (set_ipl k' k.ipl)

abbrev pub is_asleep : State → Bool
is_asleep State.sleep = true
is_asleep State.sleep_cancellable = true
is_asleep _ = false

-- what `sched_wakeup_on` does with the thread that it took off the queue
wake : Option ℕ × Kernel → Outcome (Option ℕ × Kernel)
wake (none, k) = ok (none, k)
wake (some t, k) = do
  kassert (is_asleep (k.thread t).state)
  k' ← make_runnable t (set_state k t State.run)
  ok (some t, k')

pub wakeup_on : ℕ → Kernel → Outcome (Option ℕ × Kernel)
unfolding wake
wakeup_on q k = wake (dequeue q k)

-- `while (q->tq_size != 0) sched_wakeup_on(q)`; with no fuel left it is still looping.
pub broadcast_loop : ℕ → ℕ → Kernel → Outcome Kernel
broadcast_loop ℕ.zero q k = waits
broadcast_loop (ℕ.suc fuel) q k =
    let rest = wakeup_on q k >>= λ r. broadcast_loop fuel q r.1 in
    if (k.queue q).size == 0 then ok k else rest

-- Each round takes a thread off the queue, so one more round than its size is enough.
pub broadcast_on : ℕ → Kernel → Outcome Kernel
broadcast_on q k = broadcast_loop (ℕ.suc (k.queue q).size) q k

abbrev is_cancellable : State → Bool
is_cancellable State.sleep_cancellable = true
is_cancellable _ = false

-- `ktqueue_remove` at the pointer `kt_wchan`; a null pointer faults.
remove_at : Option ℕ → ℕ → Kernel → Outcome Kernel
remove_at none t k = panic
remove_at (some q) t k = remove q t k

pub cancel : ℕ → Kernel → Outcome Kernel
unfolding remove_at
cancel t k =
    let th = record (k.thread t) { cancelled = true } in
    if is_cancellable th.state
    then (do
      k' ← remove_at th.wchan t (set_thread k t (record th { state = State.run }))
      make_runnable t k')
    else ok (set_thread k t th)

-- An interrupt handler that runs while the processor waits.
abbrev pub Handler : Type 0
Handler = Kernel → Kernel

-- the switch to the thread that was taken off the run queue
abbrev switch_to : ℕ → ℕ → Kernel → Kernel
switch_to ipl t k = record k { curproc = (k.thread t).proc; curthr = t; ipl = ipl }

-- `intr_wait` runs the next interrupt at low IPL; the list holds those still to come.
pub switch_loop : List Handler → ℕ → Option ℕ × Kernel → Outcome Kernel
switch_loop hs ipl (some t, k) = ok (switch_to ipl t k)
switch_loop [] ipl (none, k) = waits
switch_loop (h ∷ hs) ipl (none, k) =
    switch_loop hs ipl (dequeue runq (set_ipl (h (set_ipl k ipl_low)) ipl_high))

pub switch : List Handler → Kernel → Outcome Kernel
switch hs k = switch_loop hs k.ipl (dequeue runq (set_ipl k ipl_high))

pub sleep_on : List Handler → ℕ → Kernel → Outcome Kernel
sleep_on hs q k = do k' ← enqueue q k.curthr (set_state k k.curthr State.sleep); switch hs k'

-- The number is the error returned: 0, or EINTR for `-EINTR`.
pub cancellable_sleep_on : List Handler → ℕ → Kernel → Outcome (ℕ × Kernel)
cancellable_sleep_on hs q k =
    let k1 = set_state k k.curthr State.sleep_cancellable in
    if (k.thread k.curthr).cancelled
    then ok (eintr, k1)
    else (do k2 ← enqueue q k.curthr k1; k3 ← switch hs k2; ok (0, k3))

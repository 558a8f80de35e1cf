-- ===== src/Proc/Waitpid.antt =====
-- Waiting for children (do_waitpid of kernel/proc/proc.c), cut in two where it sleeps.
pub mod Reaping
use avengers.Prelude.{
  ℕ, Bool, true, false, ◌&&◌, Option, none, some, List, [], ◌∷◌, ◌++◌, ◌==◌, ltb, if◌then◌else◌,
  erase, Outcome, ok, panic, ◌>>=◌, ◌>>◌, kassert,
}
use avengers.Proc.{State, Proc, Call, World, minus_one, sign, no_child, set_proc, note, pid_taken}

-- A call of `do_waitpid` returns its result and what it has written to `*status`, or it sleeps on
-- `p_wait` of the caller.
pub data Wait : Type 0 where
  done : World → ℕ → Option ℕ → Wait
  sleeps : World → Wait

abbrev pub all_exited : World → List ℕ → Bool
all_exited w [] = true
all_exited w (t ∷ ts) = w.exited t && all_exited w ts

abbrev pub destroyed : List ℕ → List Call
destroyed [] = []
destroyed (t ∷ ts) = Call.thread_destroyed t ∷ destroyed ts

abbrev pub is_dead : Proc → Bool
is_dead x = elim x.state [ State.running ↦ false | State.dead ↦ true ]

abbrev pub buried : World → ℕ → ℕ → ℕ → World
buried w me c pagedir =
    let w' = set_proc w c (record (w.proc c) { threads = [] }) in
    let w'' = set_proc w' me (record (w'.proc me) { children = erase c (w'.proc me).children }) in
    note (record w'' { proc_list = erase c w.proc_list })
      (destroyed (w.proc c).threads ++ (Call.pagedir_destroyed pagedir ∷ Call.proc_freed c ∷ []))

-- the disposal of a child: `has_status` tells whether `status` is not NULL
reap : World → ℕ → ℕ → Bool → Option ℕ → Outcome Wait
reap w me c has_status none = panic
reap w me c has_status (some pagedir) = do
  kassert (all_exited w (w.proc c).threads)
  kassert has_status
  ok (Wait.done (buried w me c pagedir) (w.proc c).pid (some (w.proc c).status))

-- one pass over the children for the pid -1
pub wait_any : World → ℕ → List ℕ → Bool → Outcome Wait
unfolding reap
wait_any w me [] has_status = ok (Wait.sleeps w)
wait_any w me (c ∷ cs) has_status =
    let rest = wait_any w me cs has_status in
    if is_dead (w.proc c) then reap w me c has_status (w.proc c).pagedir else rest

-- `do_waitpid` for a pid that is positive, once the caller has woken up
pub wait_resume : World → ℕ → ℕ → Bool → Outcome Wait
unfolding reap
wait_resume w me c has_status = reap w me c has_status (w.proc c).pagedir

wait_of : World → ℕ → List ℕ → ℕ → Bool → Outcome Wait
unfolding wait_any
wait_of w me [] pid has_status = ok (Wait.done w no_child none)
wait_of w me (c ∷ cs) pid has_status =
    let any = wait_any w me (c ∷ cs) has_status in
    if pid == minus_one
    then any
    else if pid_taken w.proc (c ∷ cs) pid && (ltb 0 pid && ltb pid sign)
    then ok (Wait.sleeps w)
    else ok (Wait.done w no_child none)

pub do_waitpid : World → ℕ → Bool → Outcome Wait
unfolding wait_of
do_waitpid w pid has_status = elim w.curproc [
  | none ↦ panic
  | some me ↦ wait_of w me (w.proc me).children pid has_status
]

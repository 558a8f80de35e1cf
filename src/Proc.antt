-- ===== src/Proc.antt =====
-- Processes (kernel/proc/proc.c, kernel/include/proc/proc.h): the processes by address, the list of
-- all processes, and a log of the calls of other parts. Numbers are the bit patterns of 32-bit
-- words.
pub mod Cleanup
pub mod Pids
pub mod Waitpid
mod Tests
use avengers.Prelude.{
  ℕ, zero, suc, ◌+◌, ◌-◌, ◌%◌, ◌^◌, Bool, true, false, not, ◌&&◌, ◌||◌, Option, none, some, List,
  [], ◌∷◌, ◌++◌, ◌==◌, ltb, leb, if◌then◌else◌, is_none, erase, Outcome, ok, panic, waits, ◌>>=◌,
  ◌>>◌, kassert, in_bounds, length,
}

-- PROC_RUNNING and PROC_DEAD
pub data State : Type 0 where
  running : State
  dead : State

-- `proc_t`
pub record Proc : Type 0 where
  pub pid : ℕ
  pub comm : List ℕ
  pub threads : List ℕ
  pub children : List ℕ
  pub pproc : Option ℕ
  pub status : ℕ
  pub state : State
  pub pagedir : Option ℕ
  pub files : List (Option ℕ)
  pub vmmap : Option ℕ

-- `fref` of a file, the puts of all vnodes that the walk from `p_cwd` meets, `sched_wakeup_on` the
-- queue `p_wait` of a process, `kthread_destroy`, `pt_destroy_pagedir` and `slab_obj_free`
pub data Call : Type 0 where
  file_ref : ℕ → Call
  vnodes_put : Call
  wake_waiters : ℕ → Call
  thread_destroyed : ℕ → Call
  pagedir_destroyed : ℕ → Call
  proc_freed : ℕ → Call

-- `exited` tells the threads in the state KT_EXITED.
pub record World : Type 0 where
  pub proc : ℕ → Proc
  pub proc_list : List ℕ
  pub curproc : Option ℕ
  pub initproc : Option ℕ
  pub next_pid : ℕ
  pub exited : ℕ → Bool
  pub log : List Call

abbrev pub max_count : ℕ
max_count = 65536

abbrev pub minus_one : ℕ
minus_one = 0xffffffff

abbrev pub sign : ℕ
sign = 0x80000000

abbrev pub pid_idle : ℕ
pid_idle = 0

abbrev pub pid_init : ℕ
pid_init = 1

-- -ECHILD
abbrev pub no_child : ℕ
no_child = 2 ^ 32 - 10

abbrev pub proc_at : (ℕ → Proc) → ℕ → Proc → ℕ → Proc
proc_at procs p x q = if p == q then x else procs q

abbrev pub set_proc : World → ℕ → Proc → World
set_proc w p x = record w { proc = proc_at w.proc p x }

abbrev pub note : World → List Call → World
note w calls = record w { log = w.log ++ calls }

-- Is a number the pid of a listed process?
abbrev pub pid_taken : (ℕ → Proc) → List ℕ → ℕ → Bool
pid_taken procs [] pid = false
pid_taken procs (p ∷ ps) pid = (procs p).pid == pid || pid_taken procs ps pid

-- The search of `_proc_getid`; with no fuel left it is still going on.
getid_loop : ℕ → (ℕ → Proc) → List ℕ → ℕ → ℕ → Outcome (Option ℕ)
getid_loop zero procs ps next pid = waits
getid_loop (suc fuel) procs ps next pid =
    let pid' = (pid + 1) % max_count in
    let rest = getid_loop fuel procs ps next pid' in
    if pid_taken procs ps pid then if pid' == next then ok none else rest else ok (some pid)

got_pid : World → Option ℕ → World × ℕ
got_pid w none = (w, minus_one)
got_pid w (some pid) = (record w { next_pid = (pid + 1) % max_count }, pid)

-- One round for each pid is enough.
pub getid : World → Outcome (World × ℕ)
unfolding getid_loop
getid w = getid_loop max_count w.proc w.proc_list w.next_pid w.next_pid >>= λ r. ok (got_pid w r)

-- what slab_obj_alloc, pt_create_pagedir and vmmap_create return
pub record Memory : Type 0 where
  pub slab : Option ℕ
  pub pagedir : Option ℕ
  pub vmmap : Option ℕ

abbrev pub listed : World → ℕ → World
listed w p = record w { proc_list = w.proc_list ++ (p ∷ []) }

abbrev pub adopted : World → Option ℕ → ℕ → World
adopted w none p = w
adopted w (some c) p =
    set_proc w c (record (w.proc c) { children = (w.proc c).children ++ (p ∷ []) })

abbrev pub is_idle : World → Option ℕ → Bool
is_idle w none = false
is_idle w (some c) = (w.proc c).pid == pid_idle

abbrev pub is_empty : List ℕ → Bool
is_empty [] = true
is_empty (p ∷ ps) = false

-- `p_files` once cleared, of NFILES entries
abbrev pub nulls : ℕ → List (Option ℕ)
nulls zero = []
nulls (suc n) = none ∷ nulls n

abbrev pub new_proc : Memory → Option ℕ → ℕ → List ℕ → Proc
new_proc memory parent pid name = record {
  pid = pid;
  comm = name;
  threads = [];
  children = [];
  pproc = parent;
  status = 0;
  state = State.running;
  pagedir = memory.pagedir;
  files = nulls 32;
  vmmap = memory.vmmap;
}

-- the size of `p_comm`, which `strcpy` fills without a test
abbrev max_comm : ℕ
max_comm = 256

create_at : Memory → World → ℕ → List ℕ → Option ℕ → Outcome (World × ℕ)
create_at memory w pid name none = panic
create_at memory w pid name (some p) = do
  in_bounds (ltb (length name) max_comm)
  let w' = set_proc w p (new_proc memory w.curproc pid name)
  kassert (not (pid == pid_idle) || is_empty w.proc_list)
  kassert (not (pid == pid_init) || is_idle w w.curproc)
  let w'' = adopted (listed w' p) w.curproc p
  ok (record w'' { initproc = if pid == pid_init then some p else w.initproc }, p)

-- The memory that the slab allocator returns is written without a test.
pub proc_create : Memory → World → List ℕ → Outcome (World × ℕ)
unfolding create_at
proc_create memory w name = getid w >>= λ r. create_at memory r.0 r.1 name memory.slab

pub proc_lookup : World → List ℕ → ℕ → Option ℕ
proc_lookup w [] pid = none
proc_lookup w (p ∷ ps) pid =
    let rest = proc_lookup w ps pid in if (w.proc p).pid == pid then some p else rest

-- the loop of `proc_cleanup` over the children
reparent : World → ℕ → ℕ → List ℕ → World
reparent w p init [] = w
reparent w p init (c ∷ cs) =
    let left = set_proc w p (record (w.proc p) { children = erase c (w.proc p).children }) in
    let moved =
      set_proc left init
        (record (left.proc init) { children = (left.proc init).children ++ (c ∷ []) }) in
    reparent (set_proc moved c (record (moved.proc c) { pproc = some init })) p init cs

abbrev pub file_refs : List (Option ℕ) → List Call
file_refs [] = []
file_refs (none ∷ fs) = file_refs fs
file_refs (some f ∷ fs) = Call.file_ref f ∷ file_refs fs

abbrev pub died : World → ℕ → ℕ → World
died w p parent = note (set_proc w p (record (w.proc p) { state = State.dead; status = 0 })) (
    file_refs (w.proc p).files
    ++ ((if leb (w.proc p).pid pid_init then Call.vnodes_put ∷ [] else [])
        ++ (Call.wake_waiters parent ∷ [])))

cleanup_of : World → ℕ → Option ℕ → Option ℕ → Outcome World
unfolding reparent
cleanup_of w p none parent = panic
cleanup_of w p (some init) none = panic
cleanup_of w p (some init) (some parent) = do
  kassert (leb 1 (w.proc p).pid && ltb (w.proc p).pid sign)
  ok (died (if p == init then w else reparent w p init (w.proc p).children) p parent)

-- `proc_cleanup` up to its `sched_switch`, from which a dead process does not come back
pub proc_cleanup : World → ℕ → Outcome World
unfolding cleanup_of
proc_cleanup w status = elim w.curproc [
  | none ↦ panic
  | some p ↦ cleanup_of w p w.initproc (w.proc p).pproc
]

-- ===== src/Proc/Tests.antt =====
-- Runs of kernel/proc/proc.c, and the theorems at concrete inputs.
use avengers.Prelude.{
  ℕ, ◌+◌, ◌%◌, ◌<◌, ◌≡◌, refl, ◌≢◌, ◌⊎◌, inl, inr, true, false, Option, none, some, List, [], ◌∷◌,
  ◌++◌, ◌==◌, if◌then◌else◌, ok, arith,
}
use avengers.Proc.{
  State, Proc, World, Call, Memory, max_count, minus_one, pid_taken, getid, proc_create, nulls,
}
use avengers.Proc.Waitpid.{Wait, do_waitpid}
use avengers.Proc.Pids.{IsUnique, getid-cases, proc_create-IsUnique}
use avengers.Proc.Waitpid.Reaping.{do_waitpid-reaps}

abbrev process : ℕ → Option ℕ → List ℕ → State → Proc
process pid parent children state = record {
  pid = pid;
  comm = [];
  threads = [];
  children = children;
  pproc = parent;
  status = 5;
  state = state;
  pagedir = some 1;
  files = nulls 32;
  vmmap = none;
}

-- The processes 0 (idle), 1 (init), and 2 with its children 3, which runs, and 4, which is dead;
-- each has its address less 100 as its pid.
abbrev world : World
world = record {
  proc = λ p.
      if p == 100
      then process 0 none (101 ∷ []) State.running
      else if p == 101
      then process 1 (some 100) (102 ∷ []) State.running
      else if p == 102
      then process 2 (some 101) (103 ∷ 104 ∷ []) State.running
      else if p == 103
      then process 3 (some 102) [] State.running
      else process 4 (some 102) [] State.dead;
  proc_list = 100 ∷ 101 ∷ 102 ∷ 103 ∷ 104 ∷ [];
  curproc = some 102;
  initproc = some 101;
  next_pid = 5;
  exited = λ t. true;
  log = [];
}

abbrev memory : Memory
memory = record { slab = some 200; pagedir = some 2; vmmap = some 3 }

world-IsUnique : IsUnique world
world-IsUnique a b ha hb same = ground arith

getid-cases_example :
    ((getid world ≡ ok (world, minus_one))
      × ((pid : ℕ) → pid < max_count → pid_taken world.proc world.proc_list pid ≡ true))
    ⊎ ((pid : ℕ) × (getid world ≡ ok (record world { next_pid = (pid + 1) % max_count }, pid))
        × (pid < max_count)
        × (pid_taken world.proc world.proc_list pid ≡ false))
getid-cases_example = getid-cases world (omega arith)

some_pid_free : getid world ≢ ok (world, minus_one)
some_pid_free e = elim (getid-cases world (omega arith)) [
  | inl (r, all) ↦ absurd (ground (arith, all 5 (omega arith)))
  | inr (pid, r, small, free) ↦ absurd (ground (arith, small))
]

proc_create-IsUnique_example :
    (w' : World) × (proc_create memory world [] ≡ ok (w', 200))
    × IsUnique w'
    × (w'.proc_list ≡ world.proc_list ++ (200 ∷ []))
    × ((w'.proc 102).children ≡ 103 ∷ 104 ∷ 200 ∷ [])
    × ((w'.proc 200).pproc ≡ some 102)
    × ((w'.proc 200).state ≡ State.running)
proc_create-IsUnique_example =
    proc_create-IsUnique memory world [] 102 200 world-IsUnique (omega arith) (omega arith) refl
      refl refl (λ e. omega (arith, e)) refl refl some_pid_free

do_waitpid-reaps_example :
    (w' : World) × (do_waitpid world minus_one true ≡ ok (Wait.done w' 4 (some 5)))
    × (w'.log ≡ Call.pagedir_destroyed 1 ∷ Call.proc_freed 104 ∷ [])
    × (w'.proc_list ≡ 100 ∷ 101 ∷ 102 ∷ 103 ∷ [])
    × ((w'.proc 102).children ≡ 103 ∷ [])
do_waitpid-reaps_example =
    do_waitpid-reaps world 102 104 1 refl (λ e. omega (arith, e)) refl refl refl

-- The only child, 104, of the current process has died.
abbrev bereaved : World
bereaved = record world {
  curproc = some 105;
  proc = λ p. if p == 105 then process 9 none (104 ∷ []) State.running else world.proc p;
}

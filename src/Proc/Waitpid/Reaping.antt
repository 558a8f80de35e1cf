-- ===== src/Proc/Waitpid/Reaping.antt =====
-- Which child do_waitpid of kernel/proc/proc.c disposes of, and when it sleeps.
use avengers.Prelude.{
  ℕ, ◌<◌, ◌≡◌, refl, ◌≢◌, Bool, true, Option, none, some, List, [], ◌∷◌, ◌++◌, if◌then◌else◌, erase,
  ok, arith,
}
use avengers.Proc.{World, Call, minus_one, sign}
use avengers.Proc.Waitpid.{
  Wait, all_exited, is_dead, destroyed, buried, reap, wait_any, wait_of, do_waitpid,
}

-- The first dead child of a list, if there is one.
abbrev pub first_dead : World → List ℕ → Option ℕ
first_dead w [] = none
first_dead w (c ∷ cs) = let rest = first_dead w cs in if is_dead (w.proc c) then some c else rest

wait_any-reaps :
    (w : World) (me c pagedir : ℕ) (cs : List ℕ)
    → first_dead w cs ≡ some c
    → (w.proc c).pagedir ≡ some pagedir
    → all_exited w (w.proc c).threads ≡ true
    → wait_any w me cs true
      ≡ ok (Wait.done (buried w me c pagedir) (w.proc c).pid (some (w.proc c).status))
unfolding wait_any reap
wait_any-reaps w me c pagedir [] f d x = cc
wait_any-reaps w me c pagedir (k ∷ ks) f d x = ground (arith, wait_any-reaps w me c pagedir ks)

wait_any-sleeps :
    (w : World) (me : ℕ) (cs : List ℕ) (has_status : Bool)
    → first_dead w cs ≡ none
    → wait_any w me cs has_status ≡ ok (Wait.sleeps w)
unfolding wait_any
wait_any-sleeps w me [] s f = refl
wait_any-sleeps w me (k ∷ ks) s f = ground (arith, wait_any-sleeps w me ks s)

-- do_waitpid of the pid -1 disposes of the first dead child, if that has a page directory and its
-- threads have exited, and `status` is not NULL: it returns its pid and status, destroys each of its
-- threads, then its page directory, then frees it, and takes it off the list of processes and off
-- its parent's children once.
pub do_waitpid-reaps :
    (w : World) (me c pagedir : ℕ)
    → w.curproc ≡ some me
    → me ≢ c
    → first_dead w (w.proc me).children ≡ some c
    → (w.proc c).pagedir ≡ some pagedir
    → all_exited w (w.proc c).threads ≡ true
    → (w' : World) × (do_waitpid w minus_one true
        ≡ ok (Wait.done w' (w.proc c).pid (some (w.proc c).status)))
      × (w'.log
          ≡ w.log
            ++ (destroyed (w.proc c).threads
                ++ (Call.pagedir_destroyed pagedir ∷ Call.proc_freed c ∷ [])))
      × (w'.proc_list ≡ erase c w.proc_list)
      × ((w'.proc me).children ≡ erase c (w.proc me).children)
unfolding do_waitpid wait_of
do_waitpid-reaps w me c pagedir cur other f d x = (
  buried w me c pagedir,
  ground (arith, cur, f, wait_any-reaps w me c pagedir (w.proc me).children f d x),
  refl,
  refl,
  ground arith,
)

-- With children that all run, do_waitpid of the pid -1 sleeps and changes nothing.
do_waitpid-sleeps :
    (w : World) (me c : ℕ) (cs : List ℕ) (has_status : Bool)
    → w.curproc ≡ some me
    → (w.proc me).children ≡ c ∷ cs
    → first_dead w (c ∷ cs) ≡ none
    → do_waitpid w minus_one has_status ≡ ok (Wait.sleeps w)
unfolding do_waitpid wait_of
do_waitpid-sleeps w me c cs s cur ch f = ground (arith, cur, ch, wait_any-sleeps w me (c ∷ cs) s f)

-- For the pid of a child do_waitpid sleeps even if that child is dead already.
do_waitpid_sleeps_on_dead_child :
    (w : World) (me c : ℕ) (cs : List ℕ)
    → w.curproc ≡ some me
    → (w.proc me).children ≡ c ∷ cs
    → is_dead (w.proc c) ≡ true
    → 0 < (w.proc c).pid
    → (w.proc c).pid < sign
    → do_waitpid w (w.proc c).pid true ≡ ok (Wait.sleeps w)
unfolding do_waitpid wait_of
do_waitpid_sleeps_on_dead_child w me c cs cur ch d p s = ground (arith, cur, ch)

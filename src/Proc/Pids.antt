-- ===== src/Proc/Pids.antt =====
-- Process ids of kernel/proc/proc.c: the search of `_proc_getid` ends, and the pids stay unique.
use avengers.Prelude.{
  ℕ, zero, suc, ◌+◌, ◌-◌, ◌%◌, ◌<◌, ◌≡◌, refl, sym, ap, ◌∙◌, ◌⊎◌, inl, inr, ◌≢◌, true, false,
  Bool-cases, none, some, List, [], ◌∷◌, ◌++◌, ◌==◌, eq_of_==, count, count-append, length, ok,
  ◌>>=◌, arith,
}
use avengers.Proc.{
  State, Proc, World, Memory, max_count, minus_one, pid_taken, getid_loop, got_pid, getid,
  create_at, proc_create, adopted, listed, set_proc, new_proc,
}

-- The search, after `i` pids that are all taken, ends with a free pid or has seen that none is.
getid_loop-cases :
    (fuel i : ℕ) (procs : ℕ → Proc) (ps : List ℕ) (next pid : ℕ)
    → next < max_count
    → fuel + i ≡ max_count
    → 0 < fuel
    → pid ≡ (next + i) % max_count
    → ((j : ℕ) → j < i → pid_taken procs ps ((next + j) % max_count) ≡ true)
    → ((getid_loop fuel procs ps next pid ≡ ok none)
        × ((j : ℕ) → j < max_count → pid_taken procs ps ((next + j) % max_count) ≡ true))
      ⊎ ((r : ℕ) × (getid_loop fuel procs ps next pid ≡ ok (some r))
          × (r < max_count)
          × (pid_taken procs ps r ≡ false))
unfolding getid_loop
getid_loop-cases zero i procs ps next pid n f pos e seen = absurd (omega arith)
getid_loop-cases (suc fuel) i procs ps next pid n f pos e seen =
    elim (Bool-cases (pid_taken procs ps pid)) [
      | inr free ↦ inr (pid, ground arith, omega (arith, e), free)
      | inl taken ↦ elim (Bool-cases ((pid + 1) % max_count == next)) [
        | inl around ↦ inl (
          ground arith,
          λ j h.
              seen_all j (omega (arith, e, n, f, h, eq_of_== ((pid + 1) % max_count) next around))
                taken,
        )
        | inr more ↦
            elim (getid_loop-cases fuel (suc i) procs ps next ((pid + 1) % max_count) n
              (omega (arith, f)) (left more) (omega (arith, e, n)) (λ j h. seen_all j h taken)) [
                | inl (r, all) ↦ inl (ground arith, all)
                | inr (r, found, small, free) ↦ inr (r, ground arith, small, free)
              ]
      ]
    ]
  where
    seen_all :
        (j : ℕ)
        → j < suc i
        → pid_taken procs ps pid ≡ true
        → pid_taken procs ps ((next + j) % max_count) ≡ true
    seen_all j h t = elim (Bool-cases (j == i)) [
      | inl same ↦ ground (arith, e, t)
      | inr other ↦ seen j (ground arith)
    ]

    back : fuel ≡ 0 → (pid + 1) % max_count ≡ next
    back z = omega (arith, e, n, f, z)

    left : ((pid + 1) % max_count == next) ≡ false → 0 < fuel
    left more = ground (arith, back)

-- With next_pid in its range, `_proc_getid` ends: it returns a pid that no process has, or -1 if
-- there is none.
pub getid-cases :
    (w : World)
    → w.next_pid < max_count
    → ((getid w ≡ ok (w, minus_one))
        × ((pid : ℕ) → pid < max_count → pid_taken w.proc w.proc_list pid ≡ true))
      ⊎ ((pid : ℕ) × (getid w ≡ ok (record w { next_pid = (pid + 1) % max_count }, pid))
          × (pid < max_count)
          × (pid_taken w.proc w.proc_list pid ≡ false))
unfolding getid got_pid
getid-cases w n =
    elim (getid_loop-cases max_count 0 w.proc w.proc_list w.next_pid w.next_pid n refl (omega arith)
      (omega (arith, n)) (λ j h. absurd (omega arith))) [
        | inl (e, all) ↦ inl (
          ap (λ r. r >>= λ o. ok (got_pid w o)) e,
          λ pid h.
              ap (λ q. pid_taken w.proc w.proc_list q) (sym (index pid h))
              ∙ all ((pid + max_count - w.next_pid) % max_count) (omega arith),
        )
        | inr (pid, e, small, free) ↦
            inr (pid, ap (λ r. r >>= λ o. ok (got_pid w o)) e, small, free)
      ]
  where
    index :
        (pid : ℕ)
        → pid < max_count
        → (w.next_pid + (pid + max_count - w.next_pid) % max_count) % max_count ≡ pid
    index pid h = omega (arith, h, n)

-- No two listed processes have the same pid.
abbrev pub IsUnique : World → Type 0
IsUnique w =
    (a b : ℕ)
    → 0 < count a w.proc_list
    → 0 < count b w.proc_list
    → (w.proc a).pid ≡ (w.proc b).pid
    → a ≡ b

taken_of_listed :
    (procs : ℕ → Proc) (ps : List ℕ) (a : ℕ)
    → 0 < count a ps
    → pid_taken procs ps (procs a).pid ≡ true
taken_of_listed procs [] a h = absurd (omega arith)
taken_of_listed procs (p ∷ ps) a h = ground (arith, taken_of_listed procs ps a)

-- While the processes 0 and 1 live, a pid is free and the name has at most 255 characters,
-- proc_create fails no assertion: it lists the new process, which runs, makes it a child of the
-- current one, and keeps the pids unique.
pub proc_create-IsUnique :
    (memory : Memory) (w : World) (name : List ℕ) (c p : ℕ)
    → IsUnique w
    → w.next_pid < max_count
    → length name < 256
    → w.curproc ≡ some c
    → memory.slab ≡ some p
    → count p w.proc_list ≡ 0
    → p ≢ c
    → pid_taken w.proc w.proc_list 0 ≡ true
    → pid_taken w.proc w.proc_list 1 ≡ true
    → getid w ≢ ok (w, minus_one)
    → (w' : World) × (proc_create memory w name ≡ ok (w', p))
      × IsUnique w'
      × (w'.proc_list ≡ w.proc_list ++ (p ∷ []))
      × ((w'.proc c).children ≡ (w.proc c).children ++ (p ∷ []))
      × ((w'.proc p).pproc ≡ some c)
      × ((w'.proc p).state ≡ State.running)
unfolding proc_create create_at
proc_create-IsUnique memory w name c p unique n short cur slab new other idle init some_free =
    elim (getid-cases w n) [
      | inl (e, all) ↦ absurd (some_free e)
      | inr (pid, e, small, free) ↦ (
        made pid,
        ground (arith, e, short, cur, slab, fresh0 pid free, fresh1 pid free),
        λ a b ha hb same. ground (
          arith,
          ha,
          hb,
          same,
          unique a b,
          count-append a w.proc_list (p ∷ []),
          count-append b w.proc_list (p ∷ []),
          taken_of_listed w.proc w.proc_list a,
          taken_of_listed w.proc w.proc_list b,
          free,
        ),
        refl,
        ground arith,
        ground arith,
        ground arith,
      )
    ]
  where
    made : ℕ → World
    made pid =
        adopted
          (listed
            (set_proc (record w { next_pid = (pid + 1) % max_count }) p
              (new_proc memory (some c) pid name))
            p)
          (some c) p

    fresh0 : (pid : ℕ) → pid_taken w.proc w.proc_list pid ≡ false → (pid == 0) ≡ false
    fresh0 pid free = ground (arith, idle)

    fresh1 : (pid : ℕ) → pid_taken w.proc w.proc_list pid ≡ false → (pid == 1) ≡ false
    fresh1 pid free = ground (arith, init)

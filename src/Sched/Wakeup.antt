-- ===== src/Sched/Wakeup.antt =====
-- sched_wakeup_on and sched_broadcast_on (kernel/proc/sched.c): who wakes, in which order.
use avengers.Prelude.{
  ℕ, zero, suc, ◌<◌, ◌≡◌, refl, true, Option, none, some, List, [], ◌∷◌, ◌++◌, ◌≢◌, get_last,
  drop_last, length, count-drop_last, length-drop_last, drop_last-append, ◌∙◌, ok, arith,
}
use avengers.Sched.{
  State, Kernel, runq, int_mod, is_on, is_asleep, set_state, dequeue, make_runnable, wake,
  wakeup_on, broadcast_loop, broadcast_on,
}
use avengers.Sched.Valid.{
  IsValid, dequeue-Dequeued, dequeue-IsValid, set_state-IsValid, make_runnable-IsValid,
  make_runnable-ok, dequeue-curthr,
}

-- The last thread of a queue's list is on that queue.
last-on :
    (q : ℕ) (k : Kernel) (x : ℕ) (xs : List ℕ)
    → IsValid k
    → (k.queue q).list ≡ x ∷ xs
    → is_on q (k.thread (get_last x xs)).wchan ≡ true
last-on q k x xs v e =
    ground (arith, v.counted q (get_last x xs), count-drop_last (get_last x xs) x xs)

last-asleep :
    (q : ℕ) (k : Kernel) (x : ℕ) (xs : List ℕ)
    → IsValid k
    → q ≢ runq
    → (k.queue q).list ≡ x ∷ xs
    → is_asleep (k.thread (get_last x xs)).state ≡ true
last-asleep q k x xs v n e = ground (arith, last-on q k x xs v e, v.fits (get_last x xs))

wake-ok :
    (d : Option ℕ × Kernel) (t : ℕ) (k' : Kernel)
    → d.0 ≡ some t
    → is_asleep (d.1.thread t).state ≡ true
    → make_runnable t (set_state d.1 t State.run) ≡ ok k'
    → wake d ≡ ok (some t, k')
unfolding wake
wake-ok (none, k) t k' h a e = cc
wake-ok (some u, k) t k' h a e = ground arith

-- the state after a wake-up on the queue `q`, whose list was `x ∷ xs`
pub record Woken (q : ℕ) (k : Kernel) (x : ℕ) (xs : List ℕ) (k' : Kernel) : Type 0 where
  pub returned : wakeup_on q k ≡ ok (some (get_last x xs), k')
  pub rest : (k'.queue q).list ≡ drop_last x xs
  pub runnable : (k'.queue runq).list ≡ get_last x xs ∷ (k.queue runq).list
  pub state : (k'.thread (get_last x xs)).state ≡ State.run
  pub others : (p : ℕ) → p ≢ q → p ≢ runq → k'.queue p ≡ k.queue p
  pub same : (t : ℕ) → t ≢ get_last x xs → k'.thread t ≡ k.thread t
  pub valid : IsValid k'
  pub curthr : k'.curthr ≡ k.curthr
  pub ipl : k'.ipl ≡ k.ipl

-- Waking up on a valid queue that holds threads (and is not the run queue) takes the thread that
-- has waited longest, the last of the list, marks it runnable and puts it at the head of the run
-- queue; the other queues and threads stay as they were, and so does the invariant.
pub wakeup_on-Woken :
    (q : ℕ) (k : Kernel) (x : ℕ) (xs : List ℕ)
    → IsValid k
    → q ≢ runq
    → (k.queue q).list ≡ x ∷ xs
    → (k' : Kernel) × Woken q k x xs k'
unfolding wakeup_on
wakeup_on-Woken q k x xs v n e =
    let t = get_last x xs in
    let d = dequeue-Dequeued q k x xs e in
    let k1 = (dequeue q k).1 in
    let asleep : is_asleep (k1.thread t).state ≡ true =
      ground (arith, d.state_same t, last-asleep q k x xs v n e) in
    let v2 : IsValid (set_state k1 t State.run) =
      set_state-IsValid k1 t State.run (dequeue-IsValid q k v) (ground (arith, d.off)) in
    let r = make_runnable-ok t (set_state k1 t State.run) (ground (arith, d.off)) in
    (
      r.0,
      record {
        returned = wake-ok (dequeue q k) t r.0 d.taken asleep r.1;
        rest = ground (arith, r.7 q n, d.rest);
        runnable = ground (arith, r.2, d.kept runq);
        state = r.3;
        others = λ p a b. ground (arith, r.7 p b, d.kept p a);
        same = λ u a. ground (arith, r.8 u a, d.same u a);
        valid = make_runnable-IsValid t (set_state k1 t State.run) v2 r.1;
        curthr = ground (arith, r.5, dequeue-curthr q k);
        ipl = ground (arith, r.6, dequeue-curthr q k);
      },
    )

-- the state after a broadcast on the queue `q`
pub record Emptied (q : ℕ) (k k' : Kernel) : Type 0 where
  pub emptied : (k'.queue q).list ≡ []
  pub runnable : (k'.queue runq).list ≡ (k.queue q).list ++ (k.queue runq).list
  pub others : (p : ℕ) → p ≢ q → p ≢ runq → k'.queue p ≡ k.queue p
  pub valid : IsValid k'
  pub curthr : k'.curthr ≡ k.curthr
  pub ipl : k'.ipl ≡ k.ipl

broadcast_done :
    (fuel q : ℕ) (k : Kernel)
    → IsValid k
    → (k.queue q).list ≡ []
    → broadcast_loop (suc fuel) q k ≡ ok k
unfolding broadcast_loop
broadcast_done fuel q k v e = ground (arith, v.sized q)

broadcast_more :
    (fuel q : ℕ) (k : Kernel) (x : ℕ) (xs : List ℕ) {k1 k' : Kernel}
    → IsValid k
    → (k.queue q).list ≡ x ∷ xs
    → length (x ∷ xs) < int_mod
    → wakeup_on q k ≡ ok (some (get_last x xs), k1)
    → broadcast_loop fuel q k1 ≡ ok k'
    → broadcast_loop (suc fuel) q k ≡ ok k'
unfolding broadcast_loop
broadcast_more fuel q k x xs v e b w r = ground (arith, v.sized q)

broadcast_loop-Emptied :
    (fuel q : ℕ) (k : Kernel) (l : List ℕ)
    → IsValid k
    → q ≢ runq
    → (k.queue q).list ≡ l
    → length l < fuel
    → length l < int_mod
    → (k' : Kernel) × (broadcast_loop fuel q k ≡ ok k') × Emptied q k k'
broadcast_loop-Emptied zero q k l v n e h b = absurd (omega arith)
broadcast_loop-Emptied (suc fuel) q k [] v n e h b = (
  k,
  broadcast_done fuel q k v e,
  record {
    emptied = e;
    runnable = rw e;
    others = λ p _ _. refl;
    valid = v;
    curthr = refl;
    ipl = refl;
  },
)
broadcast_loop-Emptied (suc fuel) q k (x ∷ xs) v n e h b =
    let (k1, w) = wakeup_on-Woken q k x xs v n e in
    let (k', returned, m) =
      broadcast_loop-Emptied fuel q k1 (drop_last x xs) w.valid n w.rest
        (omega (arith, length-drop_last x xs)) (omega (arith, length-drop_last x xs)) in
    (
      k',
      broadcast_more fuel q k x xs v e b w.returned returned,
      record {
        emptied = m.emptied;
        runnable =
            m.runnable ∙ rw (w.rest, w.runnable, e) (drop_last-append x xs (k.queue runq).list);
        others = λ p a c. m.others p a c ∙ w.others p a c;
        valid = m.valid;
        curthr = m.curthr ∙ w.curthr;
        ipl = m.ipl ∙ w.ipl;
      },
    )

-- A broadcast on a valid queue of fewer than 2 ^ 32 threads (not the run queue) comes to its end
-- without a failed assertion: the queue is empty, its threads stand before the others in the run
-- queue, those that waited longest last, and the invariant holds.
pub broadcast_on-Emptied :
    (q : ℕ) (k : Kernel)
    → IsValid k
    → q ≢ runq
    → length (k.queue q).list < int_mod
    → (k' : Kernel) × (broadcast_on q k ≡ ok k') × Emptied q k k'
unfolding broadcast_on
broadcast_on-Emptied q k v n b =
    broadcast_loop-Emptied (suc (k.queue q).size) q k (k.queue q).list v n refl
      (ground (arith, v.sized q)) b

-- ===== src/Mutex/Handover.antt =====
-- kmutex_unlock (kernel/proc/kmutex.c) never fails for an owner, and serves the waiters in order.
use avengers.Prelude.{
  ℕ, ◌≡◌, refl, false, none, some, List, [], ◌∷◌, get_last, drop_last, ok, arith, count-drop_last,
}
use avengers.Sched.{State, runq, is_on}
use avengers.Sched.Wakeup.{wakeup_on-Woken}
use avengers.Sched.Frame.{queue_empty-nil, queue_empty-cons}
use avengers.Mutex.{Mutex, unlock, unlock_from}
use avengers.Mutex.Exclusion.{Phase, System, IsExclusive, cur, waiters, cur_off}

-- An owner that unlocks a mutex for which threads wait makes the thread that has waited longest
-- its holder and makes that thread runnable; the other waiters stay in line, and no assertion of
-- kmutex_unlock fails.
pub unlock_hands_over :
    (s : System) (x : ℕ) (xs : List ℕ)
    → IsExclusive s
    → s.phase (cur s) ≡ Phase.owning
    → waiters s ≡ x ∷ xs
    → (m : Mutex) × (unlock s.mutex ≡ ok m)
      × (m.holder ≡ some (get_last x xs))
      × ((m.kernel.queue m.waitq).list ≡ drop_last x xs)
      × ((m.kernel.queue runq).list ≡ get_last x xs ∷ (s.mutex.kernel.queue runq).list)
      × ((m.kernel.thread (get_last x xs)).state ≡ State.run)
unfolding unlock unlock_from
unlock_hands_over s x xs v o l =
    let g = get_last x xs in
    let q = s.mutex.waitq in
    let (k, w) = wakeup_on-Woken q s.mutex.kernel x xs v.running.valid v.off_runq l in
    let ne : is_on (cur s) (some g) ≡ false =
      ground (arith, cur_off s v, count-drop_last (cur s) x xs) in
    (
      record s.mutex { holder = some g; kernel = k },
      ground (
        arith,
        v.owner (cur s) o,
        queue_empty-cons q s.mutex.kernel x xs l,
        w.returned,
        w.curthr,
      ),
      refl,
      w.rest,
      w.runnable,
      w.state,
    )

-- An owner that unlocks a mutex for which no thread waits leaves it free, and the kernel as it was.
pub unlock_frees :
    (s : System)
    → IsExclusive s
    → s.phase (cur s) ≡ Phase.owning
    → waiters s ≡ []
    → unlock s.mutex ≡ ok (record s.mutex { holder = none })
unfolding unlock unlock_from
unlock_frees s v o l =
    ground (arith, v.owner (cur s) o, queue_empty-nil s.mutex.waitq s.mutex.kernel l)

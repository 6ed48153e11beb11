-- ===== src/Condition/Tests.antt =====
-- Threads and a condition variable of model/dce-pthread-cond.cc.
use ns_3_dce.Prelude.{
  ℕ, List, ◌+◌, ◌≡◌, ◌≢◌, ◌<◌, false, true, some, none, [], ◌∷◌, ◌++◌, ltb, arith, refl,
  if◌then◌else◌,
}
use ns_3_dce.ObjectTable.{find}
use ns_3_dce.Mutex
use ns_3_dce.Condition.{
  Condition, Process, success, returns, unlocked, search, cond_timedwait, cond_timedwait_again,
  etimedout, wait_object,
}
use ns_3_dce.Condition.Machine.{
  World, init, asleep, awake, enters, expires, signals, broadcasts, step, Reach, here, next,
  broadcast_rouses_all, signal_rouses_first,
}
use ns_3_dce.Condition.Handlers.{IsTable}
use ns_3_dce.Condition.Timeouts.{timedwait_shifts_deadline}
use ns_3_dce.TaskManager.{Manager, give_up, sleeps_for, time_left}

-- Threads 1 and 2 wait.
abbrev two_wait : World
two_wait = step (enters 2) (step (enters 1) (init 3))

two_wait-Reach : Reach false 3 two_wait
unfolding step init wait_object
two_wait-Reach = next (enters 2) (next (enters 1) here refl) refl

-- The timer of the first has run out.
abbrev one_late : World
one_late = step (expires 1) (step (enters 2) (step (enters 1) (init 3)))

one_late-Reach : Reach true 3 one_late
unfolding step init wait_object
one_late-Reach = next (expires 1) (next (enters 2) (next (enters 1) here refl) refl) refl

signal_rouses_first_example :
    ((t : ℕ) (ts : List ℕ)
      → two_wait.condition.waiting ≡ t ∷ ts
      → (two_wait.status t ≡ asleep)
        × ((u : ℕ) → t ≢ u → two_wait.status u ≡ asleep → two_wait.since t < two_wait.since u)
        × ((step signals two_wait).status t ≡ awake)
        × ((u : ℕ) → t ≢ u → (step signals two_wait).status u ≡ two_wait.status u)
        × ((step signals two_wait).condition.waiting ≡ ts))
    × (two_wait.condition.waiting ≡ [] → (t : ℕ) → two_wait.status t ≢ asleep)
signal_rouses_first_example = signal_rouses_first two_wait-Reach

broadcast_rouses_all_example :
    ((t : ℕ) → (step broadcasts one_late).status t ≢ asleep)
    × ((step broadcasts one_late).condition.waiting ≡ [])
broadcast_rouses_all_example = broadcast_rouses_all one_late-Reach

-- A mutex that thread 1 holds and thread 2 waits for, and a condition.
abbrev owned : Mutex.Mutex
owned = record { mid = 3; type = Mutex.normal; count = 1; waiting = 2 ∷ []; current = some 1 }

abbrev locks : Mutex.Process
locks = record { mutexes = owned ∷ []; next_mid = 4; memory = λ p. 3; kinds = λ p. Mutex.normal }

abbrev idle : Condition
idle = record { cid = 3; waiting = [] }

abbrev one : Process
one = record { conditions = idle ∷ []; next_cid = 4; memory = λ p. 3; locks = locks }

one-IsTable : IsTable one
one-IsTable = record { ids = omega arith; next_first = omega arith; next_fits = omega arith }

one_found : search (some 64) one ≡ (some idle, one)
unfolding search find
one_found = refl

owned_found : Mutex.search (some 72) locks ≡ (some owned, locks)
unfolding Mutex.search find
owned_found = refl

-- The call at 7 with the deadline 9 yields to thread 2, and reaches `Wait` at 8.
timedwait_shifts_deadline_example :
    let (r, _, timeout, _) = cond_timedwait none 9 7 1 (some 64) (some 72) one in
    (r ≡ unlocked 3)
    × (8 + timeout ≡ 10)
    × ((m : Manager)
        → (give_up (sleeps_for timeout) 1 m).wait_queue ≡ m.wait_queue ++ (1, timeout) ∷ [])
    × ((waking : ℕ) (q : Process)
        → (Mutex.mutex_lock 1 (some 72) q.locks).0 ≡ Mutex.returns Mutex.success
        → (cond_timedwait_again (time_left timeout (8 + timeout) waking) 1 (some 72) q).0
          ≡ returns (if ltb waking 10 then success else etimedout))
timedwait_shifts_deadline_example =
    timedwait_shifts_deadline none 9 7 8 1 64 (some 72) one idle (omega arith) (omega arith)
      one_found

-- ===== src/Condition/Timeouts.antt =====
-- `dce_pthread_cond_timedwait` of model/dce-pthread-cond.cc with `Sleep (Time)` of
-- model/task-manager.cc.
use ns_3_dce.Prelude.{
  ℕ, ◌+◌, ◌-◌, ◌≤◌, ◌<◌, ◌≡◌, ◌++◌, ◌∷◌, [], ltb, Option, some, arith, if◌then◌else◌,
}
use ns_3_dce.Mutex
use ns_3_dce.Mutex.{mutex_lock}
use ns_3_dce.Condition.{
  Condition, Process, returns, unlocked, etimedout, success, search, cond_wait, cond_wait_again,
  cond_timedwait, cond_timedwait_again, timeout_of,
}
use ns_3_dce.TaskManager.{Manager, give_up, sleeps_for, time_left}

-- A timed wait whose deadline has passed gives the mutex back and goes to sleep all the same, and
-- without a timer; when something wakes it up, at whatever time, and it gets the mutex, it returns
-- ETIMEDOUT.
pub late_timedwait_sleeps :
    (junk : Option ℕ) (deadline now t ptr : ℕ) (mutex : Option ℕ) (p : Process) (c : Condition)
    → deadline ≤ now
    → search (some ptr) p ≡ (some c, p)
    → let (r, _, timeout, _) = cond_timedwait junk deadline now t (some ptr) mutex p in
      (r ≡ unlocked c.cid)
      × ((m : Manager) → (give_up (sleeps_for timeout) t m).wait_queue ≡ m.wait_queue)
      × ((later waking : ℕ) (q : Process)
          → (mutex_lock t mutex q.locks).0 ≡ Mutex.returns Mutex.success
          → (cond_timedwait_again (time_left timeout (later + timeout) waking) t mutex q).0
            ≡ returns etimedout)
unfolding cond_timedwait cond_wait cond_timedwait_again cond_wait_again timeout_of give_up time_left
late_timedwait_sleeps junk deadline now t ptr mutex p c h s =
    (ground arith, λ m. ground arith, λ later waking q e. ground arith)

-- A timed wait that is called before its deadline, and reaches `Wait` at some later time, since it
-- yields to a thread that waits for the mutex, arms its timer for the time that was left at the call.
-- So the timer ends as much after the deadline as the yield took, and at the deadline if it took none.
-- When the thread runs again, and gets the mutex, it returns 0 before that end and ETIMEDOUT from then
-- on.
pub timedwait_shifts_deadline :
    (junk : Option ℕ) (deadline now later t ptr : ℕ) (mutex : Option ℕ) (p : Process)
    (c : Condition)
    → now < deadline
    → now ≤ later
    → search (some ptr) p ≡ (some c, p)
    → let (r, _, timeout, _) = cond_timedwait junk deadline now t (some ptr) mutex p in
      (r ≡ unlocked c.cid)
      × (later + timeout ≡ deadline + (later - now))
      × ((m : Manager)
          → (give_up (sleeps_for timeout) t m).wait_queue ≡ m.wait_queue ++ (t, timeout) ∷ [])
      × ((waking : ℕ) (q : Process)
          → (mutex_lock t mutex q.locks).0 ≡ Mutex.returns Mutex.success
          → (cond_timedwait_again (time_left timeout (later + timeout) waking) t mutex q).0
            ≡ returns (if ltb waking (deadline + (later - now)) then success else etimedout))
unfolding cond_timedwait cond_wait cond_timedwait_again cond_wait_again timeout_of give_up time_left
timedwait_shifts_deadline junk deadline now later t ptr mutex p c h b s =
    (ground arith, ground arith, λ m. ground arith, λ waking q e. ground arith)

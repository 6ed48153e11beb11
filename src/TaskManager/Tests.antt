-- ===== src/TaskManager/Tests.antt =====
-- Two tasks of a node under model/task-manager.cc.
use ns_3_dce.Prelude.{◌≡◌, none, some, [], ◌∷◌, arith, refl, update, false}
use ns_3_dce.TaskManager.{running, active, blocked, Manager, init, start, enter, quit, sleeps_for}
use ns_3_dce.TaskManager.Valid.{IsValid}
use ns_3_dce.TaskManager.Keeps.{Keeps}
use ns_3_dce.TaskManager.Quits.{GaveUp, quit-GaveUp}
use ns_3_dce.TaskManager.Machine.{
  starts, schedules, quits, apply, Reach, here, next, apply-Keeps, Reach-IsValid,
}
use ns_3_dce.TaskManager.Turns.{Turn, apply-Turn}

-- Task 7 is started, and waits for its turn.
abbrev ready_7 : Manager
ready_7 = record {
  states = update (update (λ t. none) 7 (some blocked)) 7 (some active);
  queue = 7 ∷ [];
  current = none;
  wait_queue = [];
  dead_tasks = [];
  timers = update (λ t. none) 7 none;
  sleeps = update (λ t. none) 7 none;
  next_schedule = some 0;
  delayed = [];
  re_schedule = false;
  re_schedule_time = 0;
  now = 0;
}

started_7 : apply (starts 7) init ≡ some ready_7
unfolding apply start init
started_7 = refl

-- The planned event runs it.
abbrev running_7 : Manager
running_7 = record ready_7 {
  states = update ready_7.states 7 (some running);
  queue = [];
  current = some 7;
  next_schedule = none;
}

entered_7 : apply schedules ready_7 ≡ some running_7
unfolding apply enter
entered_7 = refl

ready_7-Reach : Reach ready_7
unfolding init
ready_7-Reach = next (starts 7) here refl started_7

running_7-Reach : Reach running_7
running_7-Reach = next schedules ready_7-Reach (refl, 0, refl, omega arith) entered_7

-- It sleeps for 30, which the main fiber turns into a timer.
sleeper_timer : (m : Manager) × (quit (sleeps_for 30) 0 running_7 ≡ some m) × (m.timers 7 ≡ some 30)
unfolding quit
sleeper_timer = (_, refl, refl)

apply-Keeps_example : Keeps (apply (quits (sleeps_for 30) 0) running_7)
apply-Keeps_example =
    apply-Keeps (quits (sleeps_for 30) 0) running_7 (Reach-IsValid running_7-Reach) (7, refl)

Reach-IsValid_example : IsValid running_7
Reach-IsValid_example = Reach-IsValid running_7-Reach

quit-GaveUp_example :
    (m : Manager) × (quit (sleeps_for 30) 0 running_7 ≡ some m)
    × IsValid m
    × GaveUp (sleeps_for 30) 7 running_7 m
quit-GaveUp_example = quit-GaveUp (sleeps_for 30) 0 7 running_7 (Reach-IsValid running_7-Reach) refl

apply-Turn_example : Turn ready_7 running_7
apply-Turn_example =
    apply-Turn schedules ready_7 running_7 (Reach-IsValid ready_7-Reach)
      (refl, 0, refl, omega arith) entered_7

-- ===== src/TaskManager.antt =====
-- model/task-manager.cc with model/rr-task-scheduler.cc: the tasks of one node, the round-robin
-- queue, and the simulator events that run them.
--
-- A task is a number, its address. `Schedule` gives up the processor in the middle, so it stands as
-- three functions: `leave` is its second branch, `enter` its first branch up to the switch to the
-- task together with what the task does first (the end of `Sleep (Time)`), and `on_main` what the
-- main fiber does once the task has switched back. `none` is a failed assertion, a task used after
-- it was deleted, or a timer armed over one that is still pending.
pub mod Valid
pub mod Keeps
pub mod Quits
pub mod Machine
pub mod Turns
mod Tests
use ns_3_dce.Prelude.{
  ℕ, ◌+◌, ◌-◌, Bool, true, false, not, ◌&&◌, Option, none, some, List, [], ◌∷◌, ◌++◌, leb, ltb,
  ◌==◌, if◌then◌else◌, update, remove,
}

pub data State : Type 0 where
  running active blocked dead : State

pub record Manager : Type 0 where
  -- The tasks that are allocated.
  pub states : ℕ → Option State
  -- `m_active` of the scheduler, `m_current`, `m_waitQueue`, `m_deadTasks`.
  pub queue : List ℕ
  pub current : Option ℕ
  pub wait_queue : List (ℕ × ℕ)
  pub dead_tasks : List ℕ
  -- For each task: when its pending `m_waitTimer` fires, and `expectedEnd` of its suspended
  -- `Sleep (Time)` with the timeout.
  pub timers : ℕ → Option ℕ
  pub sleeps : ℕ → Option (ℕ × ℕ)
  -- When the pending `m_nextSchedule` fires, and the other events that call `Schedule`.
  pub next_schedule : Option ℕ
  pub delayed : List ℕ
  pub re_schedule : Bool
  pub re_schedule_time : ℕ
  pub now : ℕ

pub init : Manager
init = record {
  states = λ t. none;
  queue = [];
  current = none;
  wait_queue = [];
  dead_tasks = [];
  timers = λ t. none;
  sleeps = λ t. none;
  next_schedule = none;
  delayed = [];
  re_schedule = false;
  re_schedule_time = 0;
  now = 0;
}

pub set_state : ℕ → State → Manager → Manager
set_state t s m = record m { states = update m.states t (some s) }

-- `RrTaskScheduler::Enqueue` and `Dequeue`.
pub enqueue : ℕ → Manager → Manager
enqueue t m = record m { queue = m.queue ++ t ∷ [] }

pub dequeue : ℕ → Manager → Manager
dequeue t m = record m { queue = remove t m.queue }

-- `if ((0 == m_current) && (!m_nextSchedule.IsRunning ()))`.
plan_schedule : Manager → Manager
plan_schedule m = elim m.current [
  | none ↦ elim m.next_schedule [ none ↦ record m { next_schedule = some m.now } | some _ ↦ m ]
  | some _ ↦ m
]

pub make_active : ℕ → Manager → Manager
unfolding set_state enqueue plan_schedule
make_active t m = plan_schedule (enqueue t (set_state t active m))

pub wakeup : ℕ → Manager → Option Manager
unfolding make_active
wakeup t m = elim (m.states t) [
  | none ↦ none
  | some s ↦ elim s [
    | running ↦ some m
    | active ↦ some m
    | blocked ↦ some (make_active t m)
    | dead ↦ some (make_active t m)
  ]
]

-- `t` is the address that `new Task ()` gives.
pub start : ℕ → Manager → Option Manager
unfolding set_state wakeup
start t m = wakeup t (record (set_state t blocked m) {
  timers = update m.timers t none;
  sleeps = update m.sleeps t none;
})

pub free_task : ℕ → Manager → Manager
free_task t m = record m {
  states = update m.states t none;
  timers = update m.timers t none;
  sleeps = update m.sleeps t none;
}

-- `Stop` on oneself is ignored.
pub stop : ℕ → Manager → Option Manager
unfolding dequeue free_task
stop t m = elim (m.states t) [
  | none ↦ none
  | some _ ↦ elim m.current [
    | none ↦ some (free_task t (dequeue t m))
    | some c ↦ if c == t then some m else some (free_task t (dequeue t m))
  ]
]

-- `Schedule` from a task, which goes back to the main fiber.
pub leave : ℕ → Manager → Manager
leave delay m = elim m.queue [
  | [] ↦ record m { current = none }
  | _ ∷ _ ↦ record m { current = none; re_schedule = true; re_schedule_time = delay }
]

pub reschedule : Manager → Manager
reschedule m =
    if m.re_schedule
    then record m {
      re_schedule = false;
      delayed =
          (if ltb 0 m.re_schedule_time then m.now + m.re_schedule_time else m.now) ∷ m.delayed;
    }
    else m

arm : List (ℕ × ℕ) → Manager → Option Manager
arm [] m = some (record m { wait_queue = [] })
arm ((t, timeout) ∷ rest) m = elim (m.timers t) [
  | none ↦ arm rest (record m { timers = update m.timers t (some (m.now + timeout)) })
  | some _ ↦ none
]

collect : List ℕ → Manager → Manager
unfolding free_task
collect [] m = record m { dead_tasks = [] }
collect (t ∷ rest) m = collect rest (free_task t m)

-- The wait queue is armed, and the dead tasks are deleted.
pub settle : Manager → Option Manager
unfolding arm collect
settle m = elim (arm m.wait_queue m) [ none ↦ none | some m' ↦ some (collect m'.dead_tasks m') ]

pub on_main : Manager → Option Manager
unfolding reschedule settle
on_main m = settle (reschedule m)

-- The end of a suspended `Sleep (Time)`: the timer is cancelled.
pub resume : ℕ → Manager → Manager
resume t m = elim (m.sleeps t) [
  | none ↦ m
  | some _ ↦ record m { timers = update m.timers t none; sleeps = update m.sleeps t none }
]

-- What `Sleep (Time)` returns when it ends at `now`.
unfoldable pub time_left : ℕ → ℕ → ℕ → ℕ
time_left timeout expected_end now =
    if not (timeout == 0) && leb now expected_end then expected_end - now else 0

-- The first branch of `Schedule`, up to the switch.
pub enter : Manager → Option Manager
unfolding set_state resume settle
enter m = elim m.queue [
  | [] ↦ settle m
  | t ∷ rest ↦ elim (m.states t) [
    | none ↦ none
    | some s ↦ elim s [
      | active ↦ some (resume t (set_state t running (record m { queue = rest; current = some t })))
      | _ ↦ none
    ]
  ]
]

-- What a running task does to itself, `current` and its state checked by the assertions.
pub data Quit : Type 0 where
  sleeps yields exits : Quit
  sleeps_for : ℕ → Quit

unfoldable pub give_up : Quit → ℕ → Manager → Manager
unfolding set_state enqueue
give_up sleeps c m = set_state c blocked m
give_up (sleeps_for timeout) c m = record (set_state c blocked m) {
  wait_queue = if timeout == 0 then m.wait_queue else m.wait_queue ++ (c, timeout) ∷ [];
  sleeps = update m.sleeps c (some (m.now + timeout, timeout));
}
give_up yields c m = enqueue c (set_state c active m)
give_up exits c m = record (set_state c dead m) {
  timers = update m.timers c none;
  dead_tasks = m.dead_tasks ++ c ∷ [];
}

-- `Sleep`, `Sleep (Time)`, `Yield` and `Exit`, up to the next event of the main fiber. `delay` is
-- what the delay model charges for the run.
pub quit : Quit → ℕ → Manager → Option Manager
unfolding give_up leave on_main
quit q delay m = elim m.current [
  | none ↦ none
  | some c ↦ elim (m.states c) [
    | none ↦ none
    | some s ↦ elim s [ running ↦ on_main (leave delay (give_up q c m)) | _ ↦ none ]
  ]
]

-- The simulator calls `EndWait` of a task whose timer is due.
pub end_wait : ℕ → Manager → Option Manager
unfolding wakeup
end_wait t m = elim (m.states t) [
  | none ↦ none
  | some s ↦ elim s [ blocked ↦ wakeup t m | _ ↦ some m ]
]

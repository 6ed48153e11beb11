-- ===== src/TaskManager/Valid.antt =====
-- The states of the tasks of model/task-manager.cc, the queue and the pending events agree whenever
-- a task or the simulator runs.
use ns_3_dce.Prelude.{
  ℕ, ◌≡◌, ◌≢◌, ◌⊎◌, Bool, true, false, Option, none, some, [], arith, count, count-push, count-nil,
  if◌then◌else◌, refl,
}
use ns_3_dce.TaskManager.{State, running, active, blocked, dead, Manager, init, make_active}

abbrev pub is_active : Option State → Bool
is_active s = elim s [ none ↦ false | some s' ↦ elim s' [ active ↦ true | _ ↦ false ] ]

-- Off the processor, and not finished.
abbrev pub is_waiting : Option State → Bool
is_waiting s = elim s [
  | none ↦ false
  | some s' ↦ elim s' [ active ↦ true | blocked ↦ true | _ ↦ false ]
]

-- What holds whatever events are pending.
pub record IsSound (m : Manager) : Type 0 where
  -- The queue holds the tasks that are ready, once each.
  pub queued : (t : ℕ) → count t m.queue ≡ (if is_active (m.states t) then 1 else 0)
  -- The current task is the one that runs.
  pub alone : (t : ℕ) → m.states t ≡ some running → m.current ≡ some t
  pub present : (c : ℕ) → m.current ≡ some c → m.states c ≡ some running
  pub no_dead : (t : ℕ) → m.states t ≢ some dead
  -- A timer is pending only for a task suspended in `Sleep (Time)`.
  pub timed :
      (t w : ℕ) → m.timers t ≡ some w → (is_waiting (m.states t) ≡ true) × (m.sleeps t ≢ none)
  pub no_waiters : m.wait_queue ≡ []
  pub no_dead_tasks : m.dead_tasks ≡ []
  pub settled : m.re_schedule ≡ false

pub record IsValid (m : Manager) : Type 0 where
  pub sound : IsSound m
  pub open sound use *
  -- While the main fiber runs and a task is ready, an event that runs it is pending.
  pub planned : m.current ≡ none → m.queue ≢ [] → (m.next_schedule ≢ none) ⊎ (m.delayed ≢ [])

pub init-IsValid : IsValid init
unfolding init
init-IsValid = record {
  sound = record {
    queued = λ t. count-nil t;
    alone = λ t h. cc;
    present = λ c h. cc;
    no_dead = λ t h. cc;
    timed = λ t w h. cc;
    no_waiters = refl;
    no_dead_tasks = refl;
    settled = refl;
  };
  planned = λ c h. absurd (h refl);
}

pub make_active-IsValid :
    (t : ℕ) (m : Manager) → m.states t ≡ some blocked → IsValid m → IsValid (make_active t m)
unfolding make_active
make_active-IsValid t m b v = record {
  sound = record {
    queued = λ u. ground (arith, v.queued u, count-push u m.queue t);
    alone = λ u h. ground (arith, v.alone u, v.present t);
    present = λ c h. ground (arith, v.present c);
    no_dead = λ u h. ground (arith, v.no_dead u);
    timed = λ u w h. ground (arith, v.timed u w);
    no_waiters = ground (arith, v.no_waiters);
    no_dead_tasks = ground (arith, v.no_dead_tasks);
    settled = ground (arith, v.settled);
  };
  planned = λ c h. ground arith;
}

-- ===== src/TaskManager/Machine.antt =====
-- The runs of a node's task manager (model/task-manager.cc): what tasks and simulator events do to
-- it, in any order.
use ns_3_dce.Prelude.{
  ℕ, ◌≤◌, ◌≡◌, ◌≢◌, ◌⊎◌, Option, none, some, List, [], ◌∷◌, ◌++◌, arith, count, count-nil, update,
  refl, ap, subst,
}
use ns_3_dce.TaskManager.{
  State, running, active, blocked, dead, Manager, init, wakeup, start, stop, enter, quit, end_wait,
  Quit,
}
use ns_3_dce.TaskManager.Valid.{IsSound, IsValid, init-IsValid}
use ns_3_dce.TaskManager.Keeps.{Keeps, wakeup-Keeps, start-Keeps, stop-Keeps, enter-Keeps}
use ns_3_dce.TaskManager.Quits.{quit-Keeps}

pub data Move : Type 0 where
  -- Calls by the running task, or by an event of the main fiber.
  wakes starts stops : ℕ → Move
  -- The running task gives up the processor, at the delay charged for its run.
  quits : Quit → ℕ → Move
  -- `m_nextSchedule` fires; another event that calls `Schedule` does, the one planned for `w`.
  schedules : Move
  reschedules : List ℕ → (w : ℕ) → List ℕ → Move
  -- The timer of a sleeping task fires.
  times_out : ℕ → Move
  -- An event of another part of the simulation runs at a later time.
  passes : ℕ → Move

unfoldable pub apply : Move → Manager → Option Manager
apply (wakes t) m = wakeup t m
apply (starts t) m = start t m
apply (stops t) m = stop t m
apply (quits q delay) m = quit q delay m
apply schedules m = elim m.next_schedule [
  | none ↦ none
  | some w ↦ enter (record m { next_schedule = none; now = w })
]
apply (reschedules earlier w later) m = enter (record m { delayed = earlier ++ later; now = w })
apply (times_out t) m = elim (m.timers t) [
  | none ↦ none
  | some w ↦ end_wait t (record m { timers = update m.timers t none; now = w })
]
apply (passes w) m = some (record m { now = w })

-- A call names an allocated task, `new` gives a free address, events are pending and run on the
-- main fiber, and time does not go back.
abbrev pub Legal : Manager → Move → Type 0
Legal m (wakes t) = m.states t ≢ none
Legal m (starts t) = m.states t ≡ none
Legal m (stops t) = m.states t ≢ none
Legal m (quits q delay) = (c : ℕ) × (m.current ≡ some c)
Legal m schedules = (m.current ≡ none) × (w : ℕ) × (m.next_schedule ≡ some w) × (m.now ≤ w)
Legal m (reschedules earlier w later) =
    (m.current ≡ none) × (m.delayed ≡ earlier ++ w ∷ later) × (m.now ≤ w)
Legal m (times_out t) = (m.current ≡ none) × (w : ℕ) × (m.timers t ≡ some w) × (m.now ≤ w)
Legal m (passes w) = (m.current ≡ none) × (m.now ≤ w)

pub data Reach : Manager → Type 0 where
  here : Reach init
  next : {m m' : Manager} (mv : Move) → Reach m → Legal m mv → apply mv m ≡ some m' → Reach m'

-- The timer of a task that fires is no longer pending.
fired-IsValid :
    (t w : ℕ) (m : Manager)
    → IsValid m
    → IsValid (record m { timers = update m.timers t none; now = w })
fired-IsValid t w m v = record {
  sound = record {
    queued = v.queued;
    alone = v.alone;
    present = v.present;
    no_dead = v.no_dead;
    timed = λ u x h. ground (arith, v.timed u x);
    no_waiters = v.no_waiters;
    no_dead_tasks = v.no_dead_tasks;
    settled = v.settled;
  };
  planned = v.planned;
}

pub retimed-IsSound :
    (event : Option ℕ) (delayed : List ℕ) (w : ℕ) (m : Manager)
    → IsSound m
    → IsSound (record m { next_schedule = event; delayed = delayed; now = w })
retimed-IsSound event delayed w m v = record {
  queued = v.queued;
  alone = v.alone;
  present = v.present;
  no_dead = v.no_dead;
  timed = v.timed;
  no_waiters = v.no_waiters;
  no_dead_tasks = v.no_dead_tasks;
  settled = v.settled;
}

end_wait-Keeps : (t : ℕ) (m : Manager) → m.states t ≢ none → IsValid m → Keeps (end_wait t m)
unfolding end_wait
end_wait-Keeps t m a v = go (m.states t) refl
  where
    go : (s : Option State) → m.states t ≡ s → Keeps (end_wait t m)
    go none e = absurd (a e)
    go (some blocked) e = rw (e, end_wait) (wakeup-Keeps t m a v)
    go (some running) e = (m, rw (e, end_wait), v)
    go (some active) e = (m, rw (e, end_wait), v)
    go (some dead) e = (m, rw (e, end_wait), v)

-- In a valid state every legal move runs to its end: no assertion fails, no deleted task is used, no
-- timer is armed over a pending one; and the state that it leads to is valid.
pub apply-Keeps : (mv : Move) (m : Manager) → IsValid m → Legal m mv → Keeps (apply mv m)
unfolding apply
apply-Keeps (wakes t) m v l = wakeup-Keeps t m l v
apply-Keeps (starts t) m v l = start-Keeps t m l v
apply-Keeps (stops t) m v l = stop-Keeps t m l v
apply-Keeps (quits q delay) m v (c, k) = quit-Keeps q delay c m k v
apply-Keeps schedules m v (k, w, e, h) =
    rw (e, apply)
      (enter-Keeps (record m { next_schedule = none; now = w }) k
        (retimed-IsSound none m.delayed w m v.sound))
apply-Keeps (reschedules earlier w later) m v (k, e, h) =
    enter-Keeps (record m { delayed = earlier ++ later; now = w }) k
      (retimed-IsSound m.next_schedule (earlier ++ later) w m v.sound)
apply-Keeps (times_out t) m v (k, w, e, h) =
    rw (e, apply)
      (end_wait-Keeps t (record m { timers = update m.timers t none; now = w })
        (λ z. ground (arith, v.timed t w e)) (fired-IsValid t w m v))
apply-Keeps (passes w) m v (k, h) = (
  record m { now = w },
  refl,
  record { sound = retimed-IsSound m.next_schedule m.delayed w m v.sound; planned = v.planned },
)

-- In every state that a node can reach, the invariant holds: the queue holds exactly the ready
-- tasks, once each; only the current task runs; no dead task is left; timers are pending for tasks
-- suspended in `Sleep (Time)` alone; and while the main fiber has the processor and a task is ready,
-- an event that calls `Schedule` is pending.
pub Reach-IsValid : {m : Manager} → Reach m → IsValid m
Reach-IsValid here = init-IsValid
Reach-IsValid (next {m = m} {m' = m'} mv r l e) = keep (apply-Keeps mv m (Reach-IsValid r) l)
  where
    keep : Keeps (apply mv m) → IsValid m'
    keep (m₁, e₁, v) = let p : m₁ ≡ m' = cc in subst IsValid p v

-- No two tasks of a reachable state run.
pub one_runs :
    {m : Manager} (t u : ℕ)
    → Reach m
    → m.states t ≡ some running
    → m.states u ≡ some running
    → t ≡ u
one_runs t u r a b = ground (arith, (Reach-IsValid r).alone t a, (Reach-IsValid r).alone u b)

-- No wakeup is lost: in a reachable state in which the main fiber has the processor and some task is
-- ready, an event that calls `Schedule` is pending.
pub ready_is_planned :
    {m : Manager} (t : ℕ)
    → Reach m
    → m.current ≡ none
    → m.states t ≡ some active
    → (m.next_schedule ≢ none) ⊎ (m.delayed ≢ [])
ready_is_planned {m} t r k a =
    let v : IsValid m = Reach-IsValid r in
    v.planned k (λ e. ground (arith, v.queued t, count-nil t, ap (count t) e))

-- ===== src/TaskManager/Keeps.antt =====
-- No operation of model/task-manager.cc fails in a valid state, and each leads to a valid one.
use ns_3_dce.Prelude.{
  ℕ, ◌≡◌, ◌≢◌, inl, inr, Option, none, some, List, [], ◌∷◌, arith, count, count-remove, count-cons,
  ◌==◌, update, remove, refl, ap, Bool-cases,
}
use ns_3_dce.TaskManager.{
  State, running, active, blocked, dead, Manager, make_active, wakeup, start, stop, enter,
  free_task, settle, resume, set_state, dequeue,
}
use ns_3_dce.TaskManager.Valid.{IsSound, IsValid, make_active-IsValid}

abbrev pub Keeps : Option Manager → Type 0
Keeps o = (m' : Manager) × (o ≡ some m') × IsValid m'

-- `Wakeup` of an allocated task.
pub wakeup-Keeps : (t : ℕ) (m : Manager) → m.states t ≢ none → IsValid m → Keeps (wakeup t m)
unfolding wakeup
wakeup-Keeps t m a v = go (m.states t) refl
  where
    go : (s : Option State) → m.states t ≡ s → Keeps (wakeup t m)
    go none e = absurd (a e)
    go (some running) e = (m, rw (e, wakeup), v)
    go (some active) e = (m, rw (e, wakeup), v)
    go (some blocked) e = (make_active t m, rw (e, wakeup), make_active-IsValid t m e v)
    go (some dead) e = absurd (v.no_dead t e)

-- A task's memory as `Start` sets it, before it wakes it.
fresh : ℕ → Manager → Manager
fresh t m = record (set_state t blocked m) {
  timers = update m.timers t none;
  sleeps = update m.sleeps t none;
}

fresh-IsValid : (t : ℕ) (m : Manager) → m.states t ≡ none → IsValid m → IsValid (fresh t m)
unfolding fresh set_state
fresh-IsValid t m a v = record {
  sound = record {
    queued = λ u. ground (arith, v.queued u, v.queued t);
    alone = λ u h. ground (arith, v.alone u);
    present = λ c h. ground (arith, v.present c);
    no_dead = λ u h. ground (arith, v.no_dead u);
    timed = λ u w h. ground (arith, v.timed u w);
    no_waiters = v.no_waiters;
    no_dead_tasks = v.no_dead_tasks;
    settled = v.settled;
  };
  planned = v.planned;
}

-- `Start` of a task at a new address.
pub start-Keeps : (t : ℕ) (m : Manager) → m.states t ≡ none → IsValid m → Keeps (start t m)
unfolding start fresh set_state
start-Keeps t m a v = wakeup-Keeps t (fresh t m) (λ e. ground arith) (fresh-IsValid t m a v)

freed-IsValid :
    (t : ℕ) (m : Manager) → m.current ≢ some t → IsValid m → IsValid (free_task t (dequeue t m))
unfolding free_task dequeue remove
freed-IsValid t m a v = record {
  sound = record {
    queued = λ u. ground (arith, v.queued u, count-remove u t m.queue);
    alone = λ u h. ground (arith, v.alone u);
    present = λ c h. ground (arith, v.present c);
    no_dead = λ u h. ground (arith, v.no_dead u);
    timed = λ u w h. ground (arith, v.timed u w);
    no_waiters = v.no_waiters;
    no_dead_tasks = v.no_dead_tasks;
    settled = v.settled;
  };
  planned = λ c h. v.planned c (λ e. h (ap (remove t) e));
}

pub settle_plain :
    (m : Manager)
    → m.wait_queue ≡ []
    → m.dead_tasks ≡ []
    → settle m ≡ some (record m { wait_queue = []; dead_tasks = [] })
unfolding settle
settle_plain m a b = ground arith

pub stop-Keeps : (t : ℕ) (m : Manager) → m.states t ≢ none → IsValid m → Keeps (stop t m)
unfolding stop
stop-Keeps t m a v = go (m.states t) refl m.current refl
  where
    go : (s : Option State) → m.states t ≡ s → (c : Option ℕ) → m.current ≡ c → Keeps (stop t m)
    go none e c k = absurd (a e)
    go (some s) e none k = (free_task t (dequeue t m), ground arith, freed-IsValid t m (λ h. cc) v)
    go (some s) e (some c) k = elim (Bool-cases (c == t)) [
      | inl self ↦ (m, ground arith, v)
      | inr other ↦
          (free_task t (dequeue t m), ground arith, freed-IsValid t m (λ h. ground arith) v)
    ]

-- The task that the scheduler picks, running.
entered : ℕ → List ℕ → Manager → Manager
entered t rest m = resume t (set_state t running (record m { queue = rest; current = some t }))

entered-IsValid :
    (t : ℕ) (rest : List ℕ) (m : Manager)
    → m.queue ≡ t ∷ rest
    → m.states t ≡ some active
    → m.current ≡ none
    → IsSound m
    → IsValid (entered t rest m)
unfolding entered resume set_state
entered-IsValid t rest m q s a v = record {
  sound = record {
    queued = λ u. ground (arith, v.queued u, v.queued t, count-cons u t rest, ap (count u) q);
    alone = λ u h. ground (arith, v.alone u);
    present = λ c h. ground (arith, v.present c);
    no_dead = λ u h. ground (arith, v.no_dead u);
    timed = λ u w h. ground (arith, v.timed u w);
    no_waiters = ground (arith, v.no_waiters);
    no_dead_tasks = ground (arith, v.no_dead_tasks);
    settled = ground (arith, v.settled);
  };
  planned = λ c h. ground arith;
}

-- The head of the queue is ready.
head_active :
    (t : ℕ) (rest : List ℕ) (m : Manager)
    → m.queue ≡ t ∷ rest
    → IsSound m
    → m.states t ≡ some active
head_active t rest m q v = ground (arith, v.queued t, count-cons t t rest, ap (count t) q)

-- The simulator runs `Schedule`.
pub enter-Keeps : (m : Manager) → m.current ≡ none → IsSound m → Keeps (enter m)
unfolding enter
enter-Keeps m a v = go m.queue refl
  where
    go : (q : List ℕ) → m.queue ≡ q → Keeps (enter m)
    go [] e =
        rw (e, enter)
          (
            record m { wait_queue = []; dead_tasks = [] },
            settle_plain m v.no_waiters v.no_dead_tasks,
            record {
              sound = record {
                queued = v.queued;
                alone = v.alone;
                present = v.present;
                no_dead = v.no_dead;
                timed = v.timed;
                no_waiters = refl;
                no_dead_tasks = refl;
                settled = v.settled;
              };
              planned = λ c h. absurd (h e);
            },
          )
    go (t ∷ rest) e =
        rw (e, enter, head_active t rest m e v)
          (
            entered t rest m,
            unfold entered in refl,
            entered-IsValid t rest m e (head_active t rest m e v) a v,
          )

-- `Schedule` takes the head of the queue.
pub enter_ready :
    (t : ℕ) (rest : List ℕ) (m : Manager)
    → m.queue ≡ t ∷ rest
    → IsSound m
    → (m' : Manager) × (enter m ≡ some m')
      × (m'.queue ≡ rest)
      × (m'.current ≡ some t)
      × (m'.states t ≡ some running)
unfolding enter entered resume set_state
enter_ready t rest m e v = (
  entered t rest m,
  ground (arith, head_active t rest m e v),
  ground arith,
  ground arith,
  ground arith,
)

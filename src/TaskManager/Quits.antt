-- ===== src/TaskManager/Quits.antt =====
-- A task of model/task-manager.cc that sleeps, yields or exits, up to the next event.
use ns_3_dce.Prelude.{
  ℕ, ◌+◌, ◌≡◌, inl, inr, Option, none, some, [], ◌∷◌, ◌++◌, arith, count-push, if◌then◌else◌, ◌==◌,
  update, refl, Option-cases, ◌∙◌, ap, Bool-cases,
}
use ns_3_dce.TaskManager.{
  State, running, active, blocked, Manager, quit, free_task, Quit, sleeps, sleeps_for, yields,
  exits, give_up, leave, on_main, settle, set_state, reschedule, enqueue,
}
use ns_3_dce.TaskManager.Valid.{IsValid}
use ns_3_dce.TaskManager.Keeps.{Keeps, settle_plain}

settle_sleeper :
    (m : Manager) (t w : ℕ)
    → m.wait_queue ≡ (t, w) ∷ []
    → m.dead_tasks ≡ []
    → m.timers t ≡ none
    → settle m
      ≡ some (record m {
        wait_queue = [];
        dead_tasks = [];
        timers = update m.timers t (some (m.now + w));
      })
unfolding settle
settle_sleeper m t w a b c = ground arith

settle_dead :
    (m : Manager) (t : ℕ)
    → m.wait_queue ≡ []
    → m.dead_tasks ≡ t ∷ []
    → settle m ≡ some (record (free_task t m) { wait_queue = []; dead_tasks = [] })
unfolding settle
settle_dead m t a b = ground arith

-- The main fiber takes over, and plans the next run if a task is ready.
handed : ℕ → Manager → Manager
handed delay m = reschedule (leave delay m)

-- `Sleep`.
slept : ℕ → ℕ → Manager → Manager
slept delay c m = record (handed delay (give_up sleeps c m)) { wait_queue = []; dead_tasks = [] }

slept-IsValid :
    (delay c : ℕ) (m : Manager) → m.current ≡ some c → IsValid m → IsValid (slept delay c m)
unfolding slept handed give_up reschedule leave set_state
slept-IsValid delay c m k v = record {
  sound = record {
    queued = λ u. ground (arith, v.queued u, v.queued c, v.present c);
    alone = λ u h. ground (arith, v.alone u);
    present = λ d h. ground arith;
    no_dead = λ u h. ground (arith, v.no_dead u);
    timed = λ u w h. ground (arith, v.timed u w);
    no_waiters = refl;
    no_dead_tasks = refl;
    settled = ground (arith, v.settled);
  };
  planned = λ d h. ground arith;
}

-- `Yield`.
yielded : ℕ → ℕ → Manager → Manager
yielded delay c m = record (handed delay (give_up yields c m)) { wait_queue = []; dead_tasks = [] }

yielded-IsValid :
    (delay c : ℕ) (m : Manager) → m.current ≡ some c → IsValid m → IsValid (yielded delay c m)
unfolding yielded handed give_up reschedule leave set_state enqueue
yielded-IsValid delay c m k v = record {
  sound = record {
    queued = λ u. ground (arith, v.queued u, v.queued c, v.present c, count-push u m.queue c);
    alone = λ u h. ground (arith, v.alone u);
    present = λ d h. ground arith;
    no_dead = λ u h. ground (arith, v.no_dead u);
    timed = λ u w h. ground (arith, v.timed u w);
    no_waiters = refl;
    no_dead_tasks = refl;
    settled = ground (arith, v.settled);
  };
  planned = λ d h. ground arith;
}

-- `Exit`.
exited : ℕ → ℕ → Manager → Manager
exited delay c m = record (free_task c (handed delay (give_up exits c m))) {
  wait_queue = [];
  dead_tasks = [];
}

exited-IsValid :
    (delay c : ℕ) (m : Manager) → m.current ≡ some c → IsValid m → IsValid (exited delay c m)
unfolding exited handed give_up reschedule leave set_state free_task
exited-IsValid delay c m k v = record {
  sound = record {
    queued = λ u. ground (arith, v.queued u, v.queued c, v.present c);
    alone = λ u h. ground (arith, v.alone u);
    present = λ d h. ground arith;
    no_dead = λ u h. ground (arith, v.no_dead u);
    timed = λ u w h. ground (arith, v.timed u w);
    no_waiters = refl;
    no_dead_tasks = refl;
    settled = ground (arith, v.settled);
  };
  planned = λ d h. ground arith;
}

-- `Sleep (Time)` with a timeout that is not zero.
timed_out : ℕ → ℕ → ℕ → Manager → Manager
timed_out delay timeout c m =
    let h = handed delay (give_up (sleeps_for timeout) c m) in
    record h {
      wait_queue = [];
      dead_tasks = [];
      timers = if timeout == 0 then h.timers else update h.timers c (some (h.now + timeout));
    }

timed_out-IsValid :
    (delay timeout c : ℕ) (m : Manager)
    → m.current ≡ some c
    → IsValid m
    → IsValid (timed_out delay timeout c m)
unfolding timed_out handed give_up reschedule leave set_state
timed_out-IsValid delay timeout c m k v = record {
  sound = record {
    queued = λ u. ground (arith, v.queued u, v.queued c, v.present c);
    alone = λ u h. ground (arith, v.alone u);
    present = λ d h. ground arith;
    no_dead = λ u h. ground (arith, v.no_dead u);
    timed = λ u w h. ground (arith, v.timed u w, v.timed c w, v.present c);
    no_waiters = refl;
    no_dead_tasks = refl;
    settled = ground (arith, v.settled);
  };
  planned = λ d h. ground arith;
}

-- What a running task that gives up the processor leaves behind.
after_quit : Quit → ℕ → ℕ → Manager → Manager
after_quit sleeps delay = slept delay
after_quit (sleeps_for timeout) delay = timed_out delay timeout
after_quit yields delay = yielded delay
after_quit exits delay = exited delay

after_quit-IsValid :
    (q : Quit) (delay c : ℕ) (m : Manager)
    → m.current ≡ some c
    → IsValid m
    → IsValid (after_quit q delay c m)
unfolding after_quit
after_quit-IsValid sleeps delay = slept-IsValid delay
after_quit-IsValid (sleeps_for timeout) delay = timed_out-IsValid delay timeout
after_quit-IsValid yields delay = yielded-IsValid delay
after_quit-IsValid exits delay = exited-IsValid delay

handed_keeps :
    (delay : ℕ) (m : Manager)
    → ((handed delay m).wait_queue ≡ m.wait_queue)
      × ((handed delay m).dead_tasks ≡ m.dead_tasks)
      × ((handed delay m).timers ≡ m.timers)
unfolding handed reschedule leave
handed_keeps delay m = ground arith

-- A task that runs has no timer pending.
running_untimed : (c : ℕ) (m : Manager) → m.current ≡ some c → IsValid m → m.timers c ≡ none
running_untimed c m k v = elim (Option-cases (m.timers c)) [
  | inl e ↦ e
  | inr (w, e) ↦ ground (arith, v.timed c w e, v.present c k)
]

on_main_lem :
    (q : Quit) (delay c : ℕ) (m : Manager)
    → m.current ≡ some c
    → IsValid m
    → settle (handed delay (give_up q c m)) ≡ some (after_quit q delay c m)
unfolding after_quit slept timed_out yielded exited give_up set_state enqueue
on_main_lem sleeps delay c m k v =
    let h = handed_keeps delay (give_up sleeps c m) in
    settle_plain _ (h.0 ∙ v.no_waiters) (h.1 ∙ v.no_dead_tasks)
on_main_lem (sleeps_for timeout) delay c m k v = elim (Bool-cases (timeout == 0)) [
  | inl forever ↦ rw forever (
      settle_plain _ ((handed_keeps delay _).0 ∙ v.no_waiters)
        ((handed_keeps delay _).1 ∙ v.no_dead_tasks))
  | inr limited ↦ rw limited (
      settle_sleeper _ c timeout
        ((handed_keeps delay _).0 ∙ ap (λ l. l ++ (c, timeout) ∷ []) v.no_waiters)
        ((handed_keeps delay _).1 ∙ v.no_dead_tasks)
        (ap (λ f. f c) (handed_keeps delay _).2 ∙ running_untimed c m k v))
]
on_main_lem yields delay c m k v =
    let h = handed_keeps delay (give_up yields c m) in
    settle_plain _ (h.0 ∙ v.no_waiters) (h.1 ∙ v.no_dead_tasks)
on_main_lem exits delay c m k v =
    let h = handed_keeps delay (give_up exits c m) in
    settle_dead _ c (h.0 ∙ v.no_waiters) (h.1 ∙ ap (λ l. l ++ c ∷ []) v.no_dead_tasks)

quit_opens :
    (q : Quit) (delay c : ℕ) (m : Manager)
    → m.current ≡ some c
    → m.states c ≡ some running
    → quit q delay m ≡ on_main (leave delay (give_up q c m))
unfolding quit
quit_opens q delay c m k r = ground arith

on_main-handed : (delay : ℕ) (m : Manager) → on_main (leave delay m) ≡ settle (handed delay m)
unfolding on_main handed
on_main-handed delay m = refl

quit_lem :
    (q : Quit) (delay c : ℕ) (m : Manager)
    → m.current ≡ some c
    → IsValid m
    → quit q delay m ≡ some (after_quit q delay c m)
quit_lem q delay c m k v =
    quit_opens q delay c m k (v.present c k)
    ∙ on_main-handed delay (give_up q c m)
    ∙ on_main_lem q delay c m k v

pub quit-Keeps :
    (q : Quit) (delay c : ℕ) (m : Manager) → m.current ≡ some c → IsValid m → Keeps (quit q delay m)
quit-Keeps q delay c m k v =
    (after_quit q delay c m, quit_lem q delay c m k v, after_quit-IsValid q delay c m k v)

-- The state in which each way of giving up the processor leaves the task; an exited one is deleted.
abbrev pub state_after : Quit → Option State
state_after sleeps = some blocked
state_after (sleeps_for timeout) = some blocked
state_after yields = some active
state_after exits = none

-- What a client may say of a running task `c` that gives up the processor.
pub record GaveUp (q : Quit) (c : ℕ) (m m' : Manager) : Type 0 where
  pub freed : m'.current ≡ none
  pub same_time : m'.now ≡ m.now
  pub new_state : m'.states c ≡ state_after q
  pub new_queue : m'.queue ≡ elim q [ yields ↦ m.queue ++ c ∷ [] | _ ↦ m.queue ]
  pub new_timer : m'.timers c ≡ elim q [
    | sleeps_for timeout ↦ if timeout == 0 then none else some (m.now + timeout)
    | _ ↦ none
  ]

after_quit-GaveUp :
    (q : Quit) (delay c : ℕ) (m : Manager)
    → m.timers c ≡ none
    → GaveUp q c m (after_quit q delay c m)
unfolding after_quit slept timed_out yielded exited handed give_up reschedule leave set_state
    enqueue free_task
after_quit-GaveUp sleeps delay c m n = ground arith
after_quit-GaveUp (sleeps_for timeout) delay c m n = ground arith
after_quit-GaveUp yields delay c m n = ground arith
after_quit-GaveUp exits delay c m n = ground arith

-- In a valid state the running task that gives up the processor leaves it to the main fiber, in the state and at the
-- place in the queue that its call says: blocked, at the end of the queue after `Yield`, deleted
-- after `Exit`. Its timer is pending for `now + timeout` after a `Sleep (Time)` whose timeout is not
-- zero, and for no time otherwise.
pub quit-GaveUp :
    (q : Quit) (delay c : ℕ) (m : Manager)
    → IsValid m
    → m.current ≡ some c
    → (m' : Manager) × (quit q delay m ≡ some m') × IsValid m' × GaveUp q c m m'
quit-GaveUp q delay c m v k = (
  after_quit q delay c m,
  quit_lem q delay c m k v,
  after_quit-IsValid q delay c m k v,
  after_quit-GaveUp q delay c m (running_untimed c m k v),
)

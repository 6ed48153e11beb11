-- ===== src/TaskManager/Turns.antt =====
-- The order in which model/task-manager.cc and model/rr-task-scheduler.cc give out the processor, and
-- how long `Sleep (Time)` takes.
use ns_3_dce.Prelude.{
  ℕ, ◌+◌, ◌-◌, ◌≤◌, ◌≡◌, ◌≢◌, inl, inr, Option, none, some, List, [], ◌∷◌, ◌++◌, arith, ◌==◌,
  update, remove, refl, Bool-cases, ◌∙◌, sym, ap, subst,
}
use ns_3_dce.TaskManager.{
  State, running, active, blocked, dead, Manager, make_active, wakeup, start, stop, enter, quit,
  end_wait, free_task, Quit, sleeps, sleeps_for, yields, exits, time_left, set_state,
}
use ns_3_dce.TaskManager.Valid.{IsSound, IsValid}
use ns_3_dce.TaskManager.Keeps.{settle_plain, enter_ready}
use ns_3_dce.TaskManager.Quits.{GaveUp, quit-GaveUp}
use ns_3_dce.TaskManager.Machine.{
  Move, wakes, starts, stops, quits, schedules, reschedules, times_out, passes, apply, Legal,
  retimed-IsSound,
}

-- What one move does to the queue of ready tasks.
pub data Turn (m m' : Manager) : Type 0 where
  unchanged : m'.queue ≡ m.queue → Turn m m'
  joins : (t : ℕ) → m'.queue ≡ m.queue ++ t ∷ [] → m'.states t ≡ some active → Turn m m'
  runs :
      (t : ℕ)
      → m.queue ≡ t ∷ m'.queue
      → m'.current ≡ some t
      → m'.states t ≡ some running
      → Turn m m'
  removed : (t : ℕ) → m'.queue ≡ remove t m.queue → m'.states t ≡ none → Turn m m'

wakeup-Turn : (t : ℕ) (m m' : Manager) → wakeup t m ≡ some m' → Turn m m'
unfolding wakeup make_active set_state
wakeup-Turn t m m' e = go (m.states t) refl
  where
    go : (s : Option State) → m.states t ≡ s → Turn m m'
    go none k = absurd (ground arith)
    go (some running) k = unchanged (ground arith)
    go (some active) k = unchanged (ground arith)
    go (some blocked) k = joins t (ground arith) (ground arith)
    go (some dead) k = joins t (ground arith) (ground arith)

start-Turn : (t : ℕ) (m m' : Manager) → m.states t ≡ none → start t m ≡ some m' → Turn m m'
unfolding start wakeup make_active set_state
start-Turn t m m' a e = joins t (ground arith) (ground arith)

stop-Turn : (t : ℕ) (m m' : Manager) → stop t m ≡ some m' → Turn m m'
unfolding stop free_task
stop-Turn t m m' e = go (m.states t) refl m.current refl
  where
    go : (s : Option State) → m.states t ≡ s → (c : Option ℕ) → m.current ≡ c → Turn m m'
    go none k c j = absurd (ground arith)
    go (some s) k none j = removed t (ground arith) (ground arith)
    go (some s) k (some c) j = elim (Bool-cases (c == t)) [
      | inl self ↦ unchanged (ground arith)
      | inr other ↦ removed t (ground arith) (ground arith)
    ]

enter-Turn : (m m' : Manager) → IsSound m → enter m ≡ some m' → Turn m m'
unfolding enter
enter-Turn m m' v e = go m.queue refl
  where
    go : (q : List ℕ) → m.queue ≡ q → Turn m m'
    go [] k = unchanged (ground (arith, settle_plain m v.no_waiters v.no_dead_tasks))
    go (t ∷ rest) k =
        let (m₁, e₁, q, c, s) = enter_ready t rest m k v in
        let p : m₁ ≡ m' = cc in subst (λ n. Turn m n) p (runs t (k ∙ ap (◌∷◌ t) (sym q)) c s)

quit-Turn :
    (q : Quit) (delay : ℕ) (m m' : Manager)
    → IsValid m
    → (c : ℕ) × (m.current ≡ some c)
    → quit q delay m ≡ some m'
    → Turn m m'
quit-Turn q delay m m' v (c, k) e =
    let (m₁, e₁, w, g) = quit-GaveUp q delay c m v k in
    let p : m₁ ≡ m' = cc in subst (λ n. Turn m n) p (turn q m₁ g)
  where
    turn : (q : Quit) (n : Manager) → GaveUp q c m n → Turn m n
    turn sleeps n g = unchanged g.new_queue
    turn (sleeps_for timeout) n g = unchanged g.new_queue
    turn yields n g = joins c g.new_queue g.new_state
    turn exits n g = unchanged g.new_queue

end_wait-Turn : (t : ℕ) (m m' : Manager) → end_wait t m ≡ some m' → Turn m m'
unfolding end_wait
end_wait-Turn t m m' e = go (m.states t) refl
  where
    go : (s : Option State) → m.states t ≡ s → Turn m m'
    go none k = absurd (ground arith)
    go (some running) k = unchanged (ground arith)
    go (some active) k = unchanged (ground arith)
    go (some blocked) k = wakeup-Turn t m m' (ground arith)
    go (some dead) k = unchanged (ground arith)

Turn-from : (m n m' : Manager) → n.queue ≡ m.queue → Turn n m' → Turn m m'
Turn-from m n m' p (unchanged q) = unchanged (q ∙ p)
Turn-from m n m' p (joins t q s) = joins t (q ∙ ap (λ l. l ++ t ∷ []) p) s
Turn-from m n m' p (runs t q c s) = runs t (sym p ∙ q) c s
Turn-from m n m' p (removed t q s) = removed t (q ∙ ap (remove t) p) s

-- What one legal move from a valid state does to the queue of ready tasks: it leaves it alone, adds one task at its
-- end, runs the task at its head, or takes out a task that is stopped. So the processor goes round
-- in the order in which tasks became ready.
pub apply-Turn :
    (mv : Move) (m m' : Manager) → IsValid m → Legal m mv → apply mv m ≡ some m' → Turn m m'
unfolding apply
apply-Turn (wakes t) m m' v l e = wakeup-Turn t m m' e
apply-Turn (starts t) m m' v l e = start-Turn t m m' l e
apply-Turn (stops t) m m' v l e = stop-Turn t m m' e
apply-Turn (quits q delay) m m' v l e = quit-Turn q delay m m' v l e
apply-Turn schedules m m' v (k, w, s, h) e =
    let n : Manager = record m { next_schedule = none; now = w } in
    let f : enter n ≡ some m' = ground arith in
    Turn-from m n m' refl (enter-Turn n m' (retimed-IsSound none m.delayed w m v.sound) f)
apply-Turn (reschedules earlier w later) m m' v l e =
    let n : Manager = record m { delayed = earlier ++ later; now = w } in
    Turn-from m n m' refl
      (enter-Turn n m' (retimed-IsSound m.next_schedule (earlier ++ later) w m v.sound) e)
apply-Turn (times_out t) m m' v (k, w, s, h) e =
    let n : Manager = record m { timers = update m.timers t none; now = w } in
    let f : end_wait t n ≡ some m' = ground arith in Turn-from m n m' refl (end_wait-Turn t n m' f)
apply-Turn (passes w) m m' v l e = unchanged (ground arith)

-- `Sleep (Time)` that ends at `now` returns what is left of the timeout, and 0 from then on; with
-- the timeout 0 it returns 0.
pub time_left_bounds :
    (start timeout now : ℕ)
    → start ≤ now
    → (time_left timeout (start + timeout) now ≤ timeout)
      × (timeout ≢ 0 → time_left timeout (start + timeout) now ≡ start + timeout - now)
unfolding time_left
time_left_bounds start timeout now h = ground arith

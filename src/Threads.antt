-- ===== src/Threads.antt =====
-- model/dce-pthread.cc with the thread and process tables of model/dce-manager.cc: handles, ids,
-- creation, exit, join, detach and kill, and the thread-specific values.
--
-- A process is known by its pid in the map of the node's `DceManager`, a thread by its tid in its
-- process; the thread that calls is given by the two, or as the thread itself where a call reads
-- nothing else. Addresses are numbers, 0 is the null pointer. `join` stops in `Wait`: what it does up
-- to there is `join`, what it does once its thread runs again is `join_again`. Destructors of keys
-- are given by their addresses, and called with what the list says; they are taken not to change the
-- keys themselves. `fails` is a failed assertion or the use of a null pointer.
pub mod Tables
pub mod Ids
pub mod Creating
pub mod Joining
pub mod Machine
pub mod Values
pub mod Keys
mod Tests
use ns_3_dce.Prelude.{
  ℕ, zero, suc, ◌+◌, ◌*◌, ◌/◌, ◌%◌, Bool, true, false, not, ◌&&◌, ◌||◌, Option, none, some, List,
  [], ◌∷◌, ◌++◌, map, ltb, ◌==◌, if◌then◌else◌, length, update,
}
use ns_3_dce.ObjectTable.{find, store, erase}

-- 2 ^ 16.
abbrev pub u16_mod : ℕ
u16_mod = 65536

-- `(thread_handle >> 16) & 0xffff`.
pub pthread_to_tid : ℕ → ℕ
pthread_to_tid handle = (handle / u16_mod) % u16_mod

pub pthread_to_pid : ℕ → ℕ
pthread_to_pid handle = handle % u16_mod

-- In 32 bits: the shift leaves the low half 0, so that the `|=` with a pid adds it.
pub pid_tid_to_pthread : ℕ → ℕ → ℕ
pid_tid_to_pthread pid tid = (tid * u16_mod) % (u16_mod * u16_mod) + pid

-- `struct ThreadKeyValue`.
pub record KeyValue : Type 0 where
  pub key : ℕ
  pub destructor : ℕ
  pub value : ℕ

-- `struct Thread`, what these functions use of it. `task` is the null pointer once the task is left
-- to end alone.
pub record Thread : Type 0 where
  pub tid : ℕ
  pub is_detached : Bool
  pub has_exit_value : Bool
  pub exit_value : ℕ
  pub join_waiter : Option ℕ
  pub task : Option ℕ
  pub key_values : List KeyValue
  pub pending : ℕ → Bool
  pub signal_mask : ℕ → Bool

-- `struct Process`, what these functions use of it.
pub record Process : Type 0 where
  pub pid : ℕ
  pub threads : List Thread

pub data Code : Type 0 where
  success eagain edeadlk esrch einval : Code

abbrev pub tid_of : Thread → ℕ
tid_of t = t.tid

abbrev pub pid_of : Process → ℕ
pid_of p = p.pid

abbrev pub key_of : KeyValue → ℕ
key_of v = v.key

-- The first of so many numbers from one on that is not used.
unfoldable pub first_free : (ℕ → Bool) → ℕ → ℕ → Option ℕ
first_free used zero n = none
first_free used (suc fuel) n = if used n then first_free used fuel (suc n) else some n

abbrev pub is_some : {A : Type 0} → Option A → Bool
is_some none = false
is_some (some _) = true

-- `none` is the fatal error.
pub allocate_tid : Process → Option ℕ
allocate_tid p = first_free (λ tid. is_some (find tid_of tid p.threads)) 65535 0

-- The first of so many candidates, in 16 bits, that is over 1 and names no process.
unfoldable pub seek_pid : (ℕ → Bool) → ℕ → ℕ → ℕ → Option ℕ
seek_pid used zero next i = none
seek_pid used (suc fuel) next i =
    let candidate = (next + i) % u16_mod in
    let rest = seek_pid used fuel next (suc i) in
    if ltb 1 candidate && not (used candidate) then some candidate else rest

-- The pid, with the next `m_nextPid`.
pub allocate_pid : ℕ → List Process → Option (ℕ × ℕ)
allocate_pid next_pid ps = elim (seek_pid (λ pid. is_some (find pid_of pid ps)) 65535 next_pid 0) [
  | none ↦ none
  | some pid ↦ some (pid, suc pid % u16_mod)
]

pub clear_value : KeyValue → KeyValue
clear_value v = record v { value = 0 }

-- The keys of the first thread, all without a value.
unfoldable pub copied_keys : List Thread → List KeyValue
unfolding clear_value
copied_keys [] = []
copied_keys (t ∷ ts) = map clear_value t.key_values

unfoldable pub new_thread : ℕ → ℕ → List KeyValue → Thread
new_thread tid task keys = record {
  tid = tid;
  is_detached = false;
  has_exit_value = false;
  exit_value = 0;
  join_waiter = none;
  task = some task;
  key_values = keys;
  pending = λ _. false;
  signal_mask = λ _. false;
}

-- `CreateThread`, with the task that the caller starts for it.
pub create_thread : ℕ → Process → Option (Thread × Process)
unfolding copied_keys
create_thread task p = elim (allocate_tid p) [
  | none ↦ none
  | some tid ↦
      let t = new_thread tid task (copied_keys p.threads) in
      some (t, record p { threads = p.threads ++ t ∷ [] })
]

-- The process with that pid is changed in place.
unfoldable pub on_process : (Process → Process) → ℕ → List Process → List Process
on_process f pid [] = []
on_process f pid (p ∷ ps) = if p.pid == pid then f p ∷ ps else p ∷ on_process f pid ps

pub search_thread : ℕ → ℕ → List Process → Option Thread
search_thread pid tid ps = elim (find pid_of pid ps) [
  | none ↦ none
  | some p ↦ find tid_of tid p.threads
]

-- A thread of a process is changed in place.
pub put_thread : ℕ → Thread → List Process → List Process
put_thread pid t ps = on_process (λ p. record p { threads = store tid_of t p.threads }) pid ps

pub delete_thread : ℕ → ℕ → List Process → List Process
delete_thread pid tid ps =
    on_process (λ p. record p { threads = erase tid_of tid p.threads }) pid ps

-- `threads[0]->task`.
pub first_task : List Thread → Option ℕ
first_task [] = none
first_task (t ∷ ts) = t.task

-- `dce_pthread_create` up to the start of the task: the stack size is read from the task of the
-- first thread.
pub pthread_create : ℕ → ℕ → List Process → Option (ℕ × List Process)
pthread_create task pid ps = elim (find pid_of pid ps) [
  | none ↦ none
  | some p ↦ elim (create_thread task p) [
    | none ↦ none
    | some (t, q) ↦ elim (first_task q.threads) [
      | none ↦ none
      | some _ ↦
          some (
            pid_tid_to_pthread pid t.tid,
            on_process (λ x. record x { threads = q.threads }) pid ps,
          )
    ]
  ]
]

-- `CleanupPthreadKeys`: the calls of destructors, with the values they are given.
unfoldable pub cleanup_calls : List KeyValue → List (ℕ × ℕ)
cleanup_calls [] = []
cleanup_calls (v ∷ vs) =
    let rest = cleanup_calls vs in
    if not (v.destructor == 0) && not (v.value == 0) then (v.destructor, v.value) ∷ rest else rest

-- How `dce_pthread_exit` ends: the process exits, or the thread alone, with the destructors called,
-- and the thread to wake up.
pub data Exit : Type 0 where
  process_exits : Exit
  thread_exits : List (ℕ × ℕ) → Option ℕ → List Process → Exit

pub pthread_exit : ℕ → ℕ → ℕ → List Process → Option Exit
unfolding put_thread delete_thread
pthread_exit pid tid arg ps = elim (find pid_of pid ps) [
  | none ↦ none
  | some p ↦ elim (find tid_of tid p.threads) [
    | none ↦ none
    | some t ↦ some (
        if length p.threads == 1
        then process_exits
        else (let calls = cleanup_calls t.key_values in
            if not t.is_detached
            then thread_exits calls t.join_waiter (
                put_thread pid
                  (record t {
                    key_values = [];
                    has_exit_value = true;
                    exit_value = arg;
                    task = none;
                  })
                  ps)
            else thread_exits calls none (delete_thread pid tid ps)))
  ]
]

-- How a pass of `dce_pthread_join` ends: with its result, and with the exit value when that is
-- `success`; or in `Wait`.
pub data Pass : Type 0 where
  returns : Code → Pass
  joins : ℕ → Pass
  waits : Pass
  fails : Pass

-- The test of the `while` loop, and what follows it.
pub join_or_wait : ℕ → ℕ → Thread → List Process → Pass × List Process
unfolding put_thread delete_thread
join_or_wait pid cur t ps =
    if not t.has_exit_value
    then (waits, put_thread pid (record t { join_waiter = some cur }) ps)
    else if t.is_detached
    then (fails, ps)
    else (joins t.exit_value, delete_thread pid t.tid ps)

-- For the thread `cur` of the process `pid`.
pub pthread_join : ℕ → ℕ → ℕ → List Process → Pass × List Process
unfolding join_or_wait
pthread_join pid cur handle ps =
    if not (pid == pthread_to_pid handle)
    then (fails, ps)
    else if cur == pthread_to_tid handle
    then (returns edeadlk, ps)
    else elim (search_thread (pthread_to_pid handle) (pthread_to_tid handle) ps) [
      | none ↦ (returns esrch, ps)
      | some t ↦
          if t.is_detached || is_some t.join_waiter
          then (returns einval, ps)
          else join_or_wait pid cur t ps
    ]

-- After `Wait`, for the thread waited for: it is the waiter's no more, and the loop tests again.
pub join_again : ℕ → ℕ → ℕ → List Process → Pass × List Process
unfolding join_or_wait
join_again pid cur tid ps = elim (search_thread pid tid ps) [
  | none ↦ (fails, ps)
  | some t ↦ join_or_wait pid cur (record t { join_waiter = none }) ps
]

pub pthread_detach : ℕ → List Process → Code × List Process
unfolding put_thread
pthread_detach handle ps = elim (search_thread (pthread_to_pid handle) (pthread_to_tid handle) ps) [
  | none ↦ (esrch, ps)
  | some t ↦
      if t.is_detached
      then (einval, ps)
      else if is_some t.join_waiter
      then (success, ps)
      else (success, put_thread (pthread_to_pid handle) (record t { is_detached = true }) ps)
]

pub pthread_self : ℕ → Thread → ℕ
pthread_self pid current = pid_tid_to_pthread pid current.tid

-- The code, the routine to call, and the control word; a null pointer is `none`.
pub pthread_once : Option ℕ → ℕ → Code × Option ℕ × Option ℕ
pthread_once none init = (einval, none, none)
pthread_once (some once) init =
    if init == 0
    then (einval, none, some once)
    else if once == 1
    then (success, none, some once)
    else (success, some init, some 1)

-- `pthread_kill`: the code, the thread to wake up, and the threads. `none` is the use of the task of
-- a thread that has none.
pub pthread_kill : (ℕ → Bool) → ℕ → ℕ → List Process → Option (Code × Option ℕ × List Process)
unfolding put_thread
pthread_kill is_blocked handle sig ps =
    elim (search_thread (pthread_to_pid handle) (pthread_to_tid handle) ps) [
      | none ↦ some (esrch, none, ps)
      | some t ↦
          let qs =
            put_thread (pthread_to_pid handle) (record t { pending = update t.pending sig true })
              ps in
          if t.signal_mask sig then some (success, none, qs) else elim t.task [
            | none ↦ none
            | some k ↦ some (success, if is_blocked k then some t.tid else none, qs)
          ]
    ]

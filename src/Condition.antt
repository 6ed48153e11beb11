-- ===== src/Condition.antt =====
-- model/dce-pthread-cond.cc, with `struct Condition` of model/process.h: the condition variables of a
-- process, and the mutex that a thread gives back while it waits.
--
-- Threads and `pthread_cond_t *` are numbers, their addresses; `none` is the null pointer. The two
-- waiting calls come in three parts. `cond_wait` and `cond_timedwait` give the mutex back, in
-- `dce_pthread_mutex_unlock`, which yields after it has woken up a thread, so that others may run
-- then. `cond_wait_sleep` puts the thread into the list of the condition as that is by then, and stops
-- in `Wait`. `cond_wait_again` and `cond_timedwait_again` are what they do once the thread runs again.
-- Times are in nanoseconds. `junk` is that of Mutex.antt.
pub mod Machine
pub mod Handlers
pub mod Timeouts
mod Tests
use ns_3_dce.Prelude.{
  ℕ, ◌-◌, Option, none, some, List, [], ◌∷◌, ◌++◌, ◌==◌, if◌then◌else◌, inc32, update,
}
use ns_3_dce.ObjectTable.{find, store, erase}
use ns_3_dce.Mutex
use ns_3_dce.Mutex.{mutex_lock, mutex_unlock}

-- `struct Condition`.
pub record Condition : Type 0 where
  pub cid : ℕ
  pub waiting : List ℕ

pub data Code : Type 0 where
  success einval etimedout : Code

pub data Pass : Type 0 where
  returns : Code → Pass
  waits : Pass

-- How a waiting call begins: it is refused, or has given the mutex back and goes on with the condition
-- of that id.
pub data Start : Type 0 where
  refused : Code → Start
  unlocked : ℕ → Start

-- The current thread is put at the end of the list.
pub wait_object : ℕ → Condition → Condition
wait_object t c = record c { waiting = c.waiting ++ t ∷ [] }

-- The thread to wake up, and the condition without it.
pub signal_object : Condition → Option ℕ × Condition
signal_object c = elim c.waiting [ [] ↦ (none, c) | t ∷ ts ↦ (some t, record c { waiting = ts }) ]

-- The threads to wake up, in this order, and the condition without them.
pub broadcast_object : Condition → List ℕ × Condition
broadcast_object c = (c.waiting, record c { waiting = [] })

-- The part of `struct Process` and of the user's memory that these functions use.
pub record Process : Type 0 where
  pub conditions : List Condition
  pub next_cid : ℕ
  pub memory : ℕ → ℕ
  pub locks : Mutex.Process

abbrev pub first_cid : ℕ
first_cid = 3

abbrev pub destroyed_cid : ℕ
destroyed_cid = 2

abbrev pub cid_of : Condition → ℕ
cid_of c = c.cid

pub fresh : ℕ → Condition
fresh cid = record { cid = cid; waiting = [] }

pub create : ℕ → Process → Process
unfolding fresh
create ptr p = record p {
  conditions = p.conditions ++ fresh p.next_cid ∷ [];
  next_cid = inc32 p.next_cid;
  memory = update p.memory ptr p.next_cid;
}

pub search : Option ℕ → Process → Option Condition × Process
unfolding create
search none p = (none, p)
search (some ptr) p =
    let q = if p.memory ptr == 0 then create ptr p else p in
    (find cid_of (q.memory ptr) q.conditions, q)

pub cond_init : Option ℕ → Process → Code × Process
cond_init none p = (einval, p)
cond_init (some ptr) p = (success, create ptr p)

-- The condition goes whether or not threads wait.
destroy_found : Option ℕ → Condition → Process → Code × Process
destroy_found none c p = (einval, p)
destroy_found (some ptr) c p = (
  success,
  record p {
    conditions = erase cid_of c.cid p.conditions;
    memory = update p.memory ptr destroyed_cid;
  },
)

pub cond_destroy : Option ℕ → Process → Code × Process
unfolding destroy_found
cond_destroy ptr p =
    let (found, q) = search ptr p in
    elim found [ none ↦ (einval, q) | some c ↦ destroy_found ptr c q ]

put : Condition → Process → Process
put c p = record p { conditions = store cid_of c p.conditions }

pub cond_broadcast : Option ℕ → Process → Code × List ℕ × Process
unfolding put
cond_broadcast ptr p =
    let (found, q) = search ptr p in
    elim found [
      | none ↦ (einval, [], q)
      | some c ↦ let (ts, d) = broadcast_object c in (success, ts, put d q)
    ]

pub cond_signal : Option ℕ → Process → Code × Option ℕ × Process
unfolding put
cond_signal ptr p =
    let (found, q) = search ptr p in
    elim found [
      | none ↦ (einval, none, q)
      | some c ↦ let (t, d) = signal_object c in (success, t, put d q)
    ]

-- The mutex is given back, whatever that returns: if it wakes up a thread, the current one yields. The
-- call keeps the pointer to the condition, which is known here by its id.
pub cond_wait : Option ℕ → ℕ → Option ℕ → Option ℕ → Process → Start × Option ℕ × Process
cond_wait junk t ptr mutex p =
    let (found, q) = search ptr p in
    elim found [
      | none ↦ (refused einval, none, q)
      | some c ↦
          let (_, woken, locks) = mutex_unlock junk t mutex q.locks in
          (unlocked c.cid, woken, record q { locks = locks })
    ]

-- The thread stands in the list, and stops in `Wait`: `none` is the use of a condition that was
-- destroyed meanwhile.
pub cond_wait_sleep : ℕ → ℕ → Process → Option Process
unfolding put wait_object
cond_wait_sleep t cid p = elim (find cid_of cid p.conditions) [
  | none ↦ none
  | some c ↦ some (put (wait_object t c) p)
]

-- The mutex is locked again, and what that call returns is dropped.
pub cond_wait_again : ℕ → Option ℕ → Process → Pass × Process
cond_wait_again t mutex p =
    let (r, locks) = mutex_lock t mutex p.locks in
    (elim r [ Mutex.waits ↦ waits | Mutex.returns _ ↦ returns success ], record p { locks = locks })

-- How long `cond_timedwait` asks to wait, before it gives the mutex back: 0 for a deadline that has passed, which `Wait` takes as
-- no limit at all.
pub timeout_of : ℕ → ℕ → ℕ
timeout_of deadline now = deadline - now

pub cond_timedwait :
    Option ℕ → ℕ → ℕ → ℕ → Option ℕ → Option ℕ → Process → Start × Option ℕ × ℕ × Process
unfolding timeout_of
cond_timedwait junk deadline now t ptr mutex p =
    let (r, woken, q) = cond_wait junk t ptr mutex p in (r, woken, timeout_of deadline now, q)

-- `left` is what `Wait` returned.
pub cond_timedwait_again : ℕ → ℕ → Option ℕ → Process → Pass × Process
cond_timedwait_again left t mutex p =
    let (r, q) = cond_wait_again t mutex p in
    (elim r [ waits ↦ waits | returns _ ↦ returns (if left == 0 then etimedout else success) ], q)

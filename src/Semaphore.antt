-- ===== src/Semaphore.antt =====
-- model/dce-semaphore.cc, with `struct Semaphore` of model/process.h: the semaphores of a process.
--
-- Threads and `sem_t *` are numbers, their addresses; `none` is the null pointer. `fails e` is the
-- result -1 with `current->err` set to `e`, and `fatal` is NS_FATAL_ERROR. `sem_wait` and
-- `sem_timedwait` stop in `Wait`: what they do once the thread runs again is `wait_again` and
-- `timedwait_again`. Times are in nanoseconds.
pub mod Machine
pub mod Wakeups
pub mod Handlers
mod Tests
use ns_3_dce.Prelude.{
  ℕ, ◌+◌, ◌-◌, ◌*◌, ◌≡◌, ◌^◌, Bool, true, false, ◌&&◌, Option, none, some, List, [], ◌∷◌, ◌++◌,
  ◌==◌, leb, if◌then◌else◌, inc32, dec32, remove, update, ℤ, pos, negsuc, ltb, u32_mod,
}
use ns_3_dce.ObjectTable.{find, store, erase}

-- `struct Semaphore`.
pub record Semaphore : Type 0 where
  pub sid : ℕ
  pub count : ℕ
  pub waiting : List ℕ

pub data Errno : Type 0 where
  einval enosys eagain etimedout : Errno

pub data Result : Type 0 where
  success : Result
  fails : Errno → Result
  reads : ℤ → Result
  fatal : Result

-- How a pass of a blocking call ends: with its result, or in `Wait`.
pub data Pass : Type 0 where
  returns : Result → Pass
  waits : Pass

-- The test of the `while` loop, and what follows it.
pub wait_object : ℕ → Semaphore → Pass × Semaphore
wait_object t s =
    if s.count == 0
    then (waits, record s { waiting = s.waiting ++ t ∷ [] })
    else (returns success, record s { count = dec32 s.count })

-- After `Wait`: the thread leaves the list, and the loop tests again.
pub wait_again : ℕ → Semaphore → Pass × Semaphore
unfolding wait_object
wait_again t s = wait_object t (record s { waiting = remove t s.waiting })

-- So in `sem_timedwait`, unless no time is left.
pub timedwait_again : ℕ → ℕ → Semaphore → Pass × Semaphore
unfolding wait_again
timedwait_again left t s =
    if left == 0
    then (returns (fails etimedout), record s { waiting = remove t s.waiting })
    else wait_again t s

-- `sem_timedwait` up to its first `Wait`; `deadline` is the absolute timeout on the clock of the
-- simulation, which shows `now`.
pub timedwait_object : ℕ → ℕ → ℕ → Semaphore → Pass × Semaphore
unfolding wait_object
timedwait_object deadline now t s =
    if s.count == 0 && leb deadline now then (returns (fails etimedout), s) else wait_object t s

pub trywait_object : Semaphore → Result × Semaphore
trywait_object s =
    if s.count == 0 then (fails eagain, s) else (success, record s { count = dec32 s.count })

-- The thread to wake up, before the caller yields, and the semaphore.
pub post_object : Semaphore → Option ℕ × Semaphore
post_object s = (elim s.waiting [ [] ↦ none | t ∷ _ ↦ some t ], record s { count = inc32 s.count })

-- The part of `struct Process` and of the user's memory that these functions use.
pub record Process : Type 0 where
  pub semaphores : List Semaphore
  pub next_sid : ℕ
  pub memory : ℕ → ℕ

abbrev pub first_sid : ℕ
first_sid = 3

abbrev pub destroyed_sid : ℕ
destroyed_sid = 2

abbrev pub sid_of : Semaphore → ℕ
sid_of s = s.sid

pub search : Option ℕ → Process → Option Semaphore
search none p = none
search (some ptr) p = find sid_of (p.memory ptr) p.semaphores

pub sem_init : ℕ → Bool → ℕ → Process → Result × Process
sem_init ptr pshared value p = if pshared then (fails enosys, p) else (
  success,
  record p {
    semaphores = p.semaphores ++ record { sid = p.next_sid; count = value; waiting = [] } ∷ [];
    next_sid = inc32 p.next_sid;
    memory = update p.memory ptr p.next_sid;
  },
)

destroy_found : ℕ → Semaphore → Process → Result × Process
destroy_found ptr s p = elim s.waiting [
  | _ ∷ _ ↦ (fatal, p)
  | [] ↦ (
    success,
    record p {
      semaphores = erase sid_of s.sid p.semaphores;
      memory = update p.memory ptr destroyed_sid;
    },
  )
]

pub sem_destroy : Option ℕ → Process → Result × Process
unfolding destroy_found
sem_destroy none p = (fails einval, p)
sem_destroy (some ptr) p = elim (search (some ptr) p) [
  | none ↦ (fails einval, p)
  | some s ↦ destroy_found ptr s p
]

put : Semaphore → Process → Process
put s p = record p { semaphores = store sid_of s p.semaphores }

pub sem_post : Option ℕ → Process → Result × Option ℕ × Process
unfolding put
sem_post ptr p = elim (search ptr p) [
  | none ↦ (fails einval, none, p)
  | some s ↦ let (u, s') = post_object s in (success, u, put s' p)
]

pub sem_wait : ℕ → Option ℕ → Process → Pass × Process
unfolding put
sem_wait t ptr p = elim (search ptr p) [
  | none ↦ (returns (fails einval), p)
  | some s ↦ let (r, s') = wait_object t s in (r, put s' p)
]

pub sem_trywait : Option ℕ → Process → Result × Process
unfolding put
sem_trywait ptr p = elim (search ptr p) [
  | none ↦ (fails einval, p)
  | some s ↦ let (r, s') = trywait_object s in (r, put s' p)
]

pub sem_timedwait : ℕ → ℕ → ℕ → Option ℕ → Process → Pass × Process
unfolding put
sem_timedwait deadline now t ptr p = elim (search ptr p) [
  | none ↦ (returns (fails einval), p)
  | some s ↦ let (r, s') = timedwait_object deadline now t s in (r, put s' p)
]

-- A `uint32_t` that is stored as an `int`.
pub as_int : ℕ → ℤ
as_int n = if ltb n (2 ^ 31) then pos n else negsuc (u32_mod - 1 - n)

pub sem_getvalue : Option ℕ → Process → Result
sem_getvalue ptr p = elim (search ptr p) [ none ↦ fails einval | some s ↦ reads (as_int s.count) ]

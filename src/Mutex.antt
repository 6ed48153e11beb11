-- ===== src/Mutex.antt =====
-- model/dce-pthread-mutex.cc, with `struct Mutex` of model/process.h: the mutexes of a process.
--
-- A thread is a number, its address; so is a `pthread_mutex_t *`, with `none` for the null pointer.
-- `memory` is the first word of the user's `pthread_mutex_t`, `kinds` tells the recursive ones among
-- those initialised statically. `lock` stops in `Wait`: what it does up to there is `lock`, and what
-- it does once the thread runs again is `lock_again`. `junk` is what `front ()` of an empty list
-- gives, which the C++ standard leaves undefined.
pub mod Machine
pub mod Handlers
mod Tests
use ns_3_dce.Prelude.{
  ℕ, Bool, true, false, not, Option, none, some, List, [], ◌∷◌, ◌++◌, ◌==◌, if◌then◌else◌, inc32,
  dec32, remove, update,
}
use ns_3_dce.ObjectTable.{find, store, erase}

pub data MutexType : Type 0 where
  normal recursive : MutexType

-- `struct Mutex`.
pub record Mutex : Type 0 where
  pub mid : ℕ
  pub type : MutexType
  pub count : ℕ
  pub waiting : List ℕ
  pub current : Option ℕ

pub data Code : Type 0 where
  success einval ebusy edeadlk eperm : Code

-- How a pass of a blocking call ends: with its result, or in `Wait`.
pub data Pass : Type 0 where
  returns : Code → Pass
  waits : Pass

abbrev pub is_held_by : Option ℕ → ℕ → Bool
is_held_by none t = false
is_held_by (some c) t = c == t

-- The test of the `while` loop, and what follows it.
take_or_wait : ℕ → Mutex → Pass × Mutex
take_or_wait t x = elim x.current [
  | none ↦ (returns success, record x { current = some t; count = inc32 x.count })
  | some _ ↦ (waits, record x { waiting = x.waiting ++ t ∷ [] })
]

pub lock_object : ℕ → Mutex → Pass × Mutex
unfolding take_or_wait
lock_object t x =
    if is_held_by x.current t
    then elim x.type [
      | recursive ↦ (returns success, record x { count = inc32 x.count })
      | normal ↦ (returns edeadlk, x)
    ]
    else take_or_wait t x

-- After `Wait`: the thread leaves the list, and the loop tests again.
pub lock_again : ℕ → Mutex → Pass × Mutex
unfolding take_or_wait
lock_again t x = take_or_wait t (record x { waiting = remove t x.waiting })

pub trylock_object : ℕ → Mutex → Code × Mutex
trylock_object t x = elim x.type [
  | recursive ↦ elim x.current [
    | none ↦ (success, record x { current = some t; count = inc32 x.count })
    | some c ↦ if c == t then (success, record x { count = inc32 x.count }) else (ebusy, x)
  ]
  | normal ↦ elim x.current [
    | none ↦ (success, record x { count = inc32 x.count; current = some t })
    | some c ↦ (ebusy, x)
  ]
]

front : Option ℕ → List ℕ → Option ℕ
front junk [] = junk
front junk (t ∷ ts) = some t

-- The code, the thread to wake up before the caller yields, and the mutex.
pub unlock_object : Option ℕ → ℕ → Mutex → Code × Option ℕ × Mutex
unfolding front
unlock_object junk t x =
    if not (is_held_by x.current t)
    then (eperm, none, x)
    else if dec32 x.count == 0
    then (success, front junk x.waiting, record x { count = dec32 x.count; current = none })
    else (success, none, record x { count = dec32 x.count })

-- The part of `struct Process` and of the user's memory that these functions use.
pub record Process : Type 0 where
  pub mutexes : List Mutex
  pub next_mid : ℕ
  pub memory : ℕ → ℕ
  pub kinds : ℕ → MutexType

-- `CreateProcess` starts the ids at 3: 0 is a static initialiser, 2 a destroyed mutex.
abbrev pub first_mid : ℕ
first_mid = 3

abbrev pub destroyed_mid : ℕ
destroyed_mid = 2

abbrev pub mid_of : Mutex → ℕ
mid_of x = x.mid

pub fresh : MutexType → ℕ → Mutex
fresh type mid = record { mid = mid; type = type; count = 0; waiting = []; current = none }

-- A new mutex behind the others, its id in the user's memory.
pub create : MutexType → ℕ → Process → Process
unfolding fresh
create type ptr p = record p {
  mutexes = p.mutexes ++ fresh type p.next_mid ∷ [];
  next_mid = inc32 p.next_mid;
  memory = update p.memory ptr p.next_mid;
}

-- `PthreadMutexInitStatic`, at a pointer whose id is 0.
init_static : ℕ → Process → Process
unfolding create
init_static ptr p = if p.memory ptr == 0 then create (p.kinds ptr) ptr p else p

unfoldable pub search : Option ℕ → Process → Option Mutex × Process
unfolding init_static
search none p = (none, p)
search (some ptr) p = let q = init_static ptr p in (find mid_of (q.memory ptr) q.mutexes, q)

-- `type` of the attribute, `none` when it is neither of the two that are known.
pub data Attribute : Type 0 where
  absent : Attribute
  typed : Option MutexType → Attribute

pub mutex_init : Option ℕ → Attribute → Process → Code × Process
unfolding create
mutex_init none attr p = (einval, p)
mutex_init (some ptr) (typed none) p = (einval, p)
mutex_init (some ptr) absent p = (success, create normal ptr p)
mutex_init (some ptr) (typed (some normal)) p = (success, create normal ptr p)
mutex_init (some ptr) (typed (some recursive)) p = (success, create recursive ptr p)

is_idle : Mutex → Bool
is_idle x = elim x.current [ none ↦ elim x.waiting [ [] ↦ true | _ ∷ _ ↦ false ] | some _ ↦ false ]

destroy_found : Option ℕ → Mutex → Process → Code × Process
unfolding is_idle
destroy_found none x p = (einval, p)
destroy_found (some ptr) x p = if not (is_idle x) then (ebusy, p) else (
  success,
  record p { mutexes = erase mid_of x.mid p.mutexes; memory = update p.memory ptr destroyed_mid },
)

pub mutex_destroy : Option ℕ → Process → Code × Process
unfolding destroy_found
mutex_destroy ptr p =
    let (found, q) = search ptr p in
    elim found [ none ↦ (einval, q) | some x ↦ destroy_found ptr x q ]

pub mutex_lock : ℕ → Option ℕ → Process → Pass × Process
mutex_lock t ptr p =
    let (found, q) = search ptr p in
    elim found [
      | none ↦ (returns einval, q)
      | some x ↦
          let (r, y) = lock_object t x in (r, record q { mutexes = store mid_of y q.mutexes })
    ]

pub mutex_trylock : ℕ → Option ℕ → Process → Code × Process
mutex_trylock t ptr p =
    let (found, q) = search ptr p in
    elim found [
      | none ↦ (einval, q)
      | some x ↦
          let (r, y) = trylock_object t x in (r, record q { mutexes = store mid_of y q.mutexes })
    ]

pub mutex_unlock : Option ℕ → ℕ → Option ℕ → Process → Code × Option ℕ × Process
mutex_unlock junk t ptr p =
    let (found, q) = search ptr p in
    elim found [
      | none ↦ (einval, none, q)
      | some x ↦
          let (r, w, y) = unlock_object junk t x in
          (r, w, record q { mutexes = store mid_of y q.mutexes })
    ]

-- ===== src/Mutex/Tests.antt =====
-- Two threads and a mutex of model/dce-pthread-mutex.cc.
use ns_3_dce.Prelude.{ℕ, ◌≡◌, none, some, [], ◌∷◌, arith, refl}
use ns_3_dce.ObjectTable.{find}
use ns_3_dce.Mutex.{Mutex, normal, Process, search, lock_object, unlock_object}
use ns_3_dce.Mutex.Machine.{
  World, init, awake, locks, unlocks, resumes, step, Reach, here, next, one_holds, free_wakes,
}
use ns_3_dce.Mutex.Handlers.{IsTable}

-- Thread 1 has the mutex, and thread 2 waits for it.
abbrev contended : World
contended = step none (locks 2) (step none (locks 1) (init normal 3))

contended-Reach : Reach none normal 3 contended
unfolding step init lock_object unlock_object
contended-Reach = next (locks 2) (next (locks 1) here (refl, omega arith)) (refl, omega arith)

-- Thread 1 gives it back.
abbrev given_back : World
given_back = step none (unlocks 1) contended

-- Thread 3 asked for it in between, so it waits behind thread 2.
abbrev given_back_later : World
given_back_later = step none (unlocks 1) (step none (locks 3) contended)

waits_for_3 : Reach none normal 3 given_back_later
unfolding step init lock_object unlock_object
waits_for_3 = next (unlocks 1) (next (locks 3) contended-Reach (refl, omega arith)) refl

given_back-Reach : Reach none normal 3 given_back
unfolding step init lock_object unlock_object
given_back-Reach = next (unlocks 1) contended-Reach refl

one_holds_example : ◌≡◌ {A = ℕ} 1 1
unfolding step init lock_object unlock_object
one_holds_example = one_holds 1 1 contended-Reach (omega arith) (omega arith)

free_wakes_example :
    (u : ℕ) × (given_back_later.status u ≡ awake)
    × ((step none (resumes u) given_back_later).mutex.current ≡ some u)
unfolding step init lock_object unlock_object
free_wakes_example = free_wakes 3 waits_for_3 refl refl

abbrev empty : Process
empty = record { mutexes = []; next_mid = 3; memory = λ p. 0; kinds = λ p. normal }

empty-IsTable : IsTable empty
empty-IsTable = omega arith

-- A mutex that thread 1 has locked, and thread 2 waits for.
abbrev owned : Mutex
owned = record { mid = 3; type = normal; count = 1; waiting = 2 ∷ []; current = some 1 }

abbrev one : Process
one = record { mutexes = owned ∷ []; next_mid = 4; memory = λ p. 3; kinds = λ p. normal }

owned_found : search (some 64) one ≡ (some owned, one)
unfolding search find
owned_found = refl

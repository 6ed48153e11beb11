-- ===== src/Semaphore/Tests.antt =====
-- Threads and a semaphore of model/dce-semaphore.cc.
use ns_3_dce.Prelude.{ℕ, ◌+◌, ◌≡◌, [], ◌∷◌, arith, refl, if◌then◌else◌, count}
use ns_3_dce.Semaphore.{Process, wait_object, post_object}
use ns_3_dce.Semaphore.Machine.{World, init, awake, enters, posts, step, is_outside}
use ns_3_dce.Semaphore.Wakeups.{Reach, here, next, units_conserved}

-- Threads 1 and 2 wait for a unit, and a post has woken up the first.
abbrev two_wait : World
two_wait = step (posts 9) (step (enters 2) (step (enters 1) (init 3 0)))

two_wait-Reach : Reach 3 0 two_wait
unfolding step init wait_object post_object
two_wait-Reach =
    next (posts 9) (next (enters 2) (next (enters 1) here refl) refl) (refl, omega arith)

units_conserved_example :
    (two_wait.semaphore.count + two_wait.taken ≡ 0 + two_wait.posted)
    × ((t : ℕ)
        → count t two_wait.semaphore.waiting ≡ (if is_outside (two_wait.status t) then 0 else 1))
units_conserved_example = units_conserved (omega arith) two_wait-Reach

-- Both are still asleep.
abbrev both_asleep : World
both_asleep = step (enters 2) (step (enters 1) (init 3 0))

-- The post of that example left a unit, and woke up thread 1.
post_roused :
    ((step (posts 9) both_asleep).semaphore.count ≡ 1)
    × ((step (posts 9) both_asleep).semaphore.waiting ≡ 1 ∷ 2 ∷ [])
    × ((step (posts 9) both_asleep).status 1 ≡ awake)
unfolding step init wait_object post_object
post_roused = (refl, refl, refl)

abbrev empty : Process
empty = record { semaphores = []; next_sid = 3; memory = λ p. 0 }

abbrev one : Process
one = record {
  semaphores = record { sid = 3; count = 1; waiting = [] } ∷ [];
  next_sid = 4;
  memory = λ p. 3;
}

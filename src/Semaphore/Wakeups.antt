-- ===== src/Semaphore/Wakeups.antt =====
-- Which wakeups of model/dce-semaphore.cc reach a thread, and which do not.
use ns_3_dce.Prelude.{
  ℕ, ◌+◌, ◌≤◌, ◌<◌, ◌≡◌, ◌≢◌, List, [], ◌∷◌, arith, if◌then◌else◌, remove, u32_mod, count,
  remove_of_count, ◌⊎◌,
}
use ns_3_dce.Semaphore.{wait_object, wait_again, timedwait_again, post_object}
use ns_3_dce.Semaphore.Machine.{
  asleep, awake, World, init, Move, posts, resumes, resumes_timed, step, Legal, is_outside, IsValid,
  init-IsValid, step-IsValid,
}

pub data Reach (sid initial : ℕ) : World → Type 0 where
  here : Reach sid initial (init sid initial)
  next : {w : World} (mv : Move) → Reach sid initial w → Legal w mv → Reach sid initial (step mv w)

Reach-IsValid :
    {sid initial : ℕ} {w : World} → initial < u32_mod → Reach sid initial w → IsValid initial w
Reach-IsValid {sid = sid} {initial = initial} h here = init-IsValid sid initial h
Reach-IsValid {initial = initial} h (next {w = w} mv r l) =
    step-IsValid initial mv w (Reach-IsValid h r) l

-- In every world that threads can reach from a semaphore of a 32-bit value, the calls that took a
-- unit and the units left make up the initial value and the posts, and each thread in `Wait` stands
-- in the list exactly once, and no other thread does.
pub units_conserved :
    {sid initial : ℕ} {w : World}
    → initial < u32_mod
    → Reach sid initial w
    → (w.semaphore.count + w.taken ≡ initial + w.posted)
      × ((t : ℕ) → count t w.semaphore.waiting ≡ (if is_outside (w.status t) then 0 else 1))
units_conserved h r = let v = Reach-IsValid h r in (v.conserved, v.listed)

-- While threads wait there is one unit at most, and if there is one the first was woken up.
pub record IsRoused (w : World) : Type 0 where
  pub few : w.semaphore.waiting ≢ [] → w.semaphore.count ≤ 1
  pub first :
      (t : ℕ) (ts : List ℕ)
      → 0 < w.semaphore.count
      → w.semaphore.waiting ≡ t ∷ ts
      → w.status t ≡ awake

-- No post while a unit waits for a thread that was woken up, and no timeout at the very end.
abbrev pub IsPrompt : World → Move → Type 0
IsPrompt w (posts t) = (w.semaphore.count ≡ 0) ⊎ (w.semaphore.waiting ≡ [])
IsPrompt w (resumes_timed left t) = left ≢ 0
IsPrompt w mv = Unit

remove_first :
    (t u : ℕ) (us xs : List ℕ) → xs ≡ t ∷ u ∷ us → t ≢ u → count t us ≡ 0 → remove t xs ≡ u ∷ us
unfolding remove
remove_first t u us xs e d n = rw e (ground (arith, remove_of_count t us n))

-- A post that comes while a unit is free for the thread at the head of the list, which was woken up
-- and has not run yet, wakes nobody else: when that thread then takes its unit, the second in the
-- list is first and still sleeps, though a unit is free.
pub second_post_is_lost :
    (p t u : ℕ) (us : List ℕ) (w : World)
    → w.semaphore.waiting ≡ t ∷ u ∷ us
    → w.status t ≡ awake
    → w.status u ≡ asleep
    → t ≢ u
    → count t us ≡ 0
    → 0 < w.semaphore.count
    → w.semaphore.count + 1 < u32_mod
    → let w' = step (resumes t) (step (posts p) w) in
      (0 < w'.semaphore.count) × (w'.status u ≡ asleep) × (w'.semaphore.waiting ≡ u ∷ us)
unfolding step post_object wait_again wait_object
second_post_is_lost p t u us w e a s d n c b =
    let r = remove_first t u us w.semaphore.waiting e d n in
    (ground (arith, r), ground (arith, r), ground (arith, r))

-- A thread at the head of the list whose timed wait ends with no time left leaves the unit that is
-- free and wakes nobody for it: the next in the list is first and still sleeps, though a unit is free.
pub late_timeout_is_lost :
    (t u : ℕ) (us : List ℕ) (w : World)
    → w.semaphore.waiting ≡ t ∷ u ∷ us
    → w.status u ≡ asleep
    → t ≢ u
    → count t us ≡ 0
    → 0 < w.semaphore.count
    → let w' = step (resumes_timed 0 t) w in
      (0 < w'.semaphore.count) × (w'.status u ≡ asleep) × (w'.semaphore.waiting ≡ u ∷ us)
unfolding step timedwait_again
late_timeout_is_lost t u us w e s d n c =
    let r = remove_first t u us w.semaphore.waiting e d n in
    (ground (arith, r), ground (arith, r), ground (arith, r))

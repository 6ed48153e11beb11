-- ===== src/Semaphore/Machine.antt =====
-- Threads that wait for and post one semaphore of model/dce-semaphore.cc, in any order.
--
-- Threads run one at a time and give the processor up in `Wait` and `Yield` alone, so a pass of a
-- call is one step. A thread in `Wait` is asleep until it is woken up, by `sem_post`, by its timer or
-- by anything else; it goes on when it is scheduled.
use ns_3_dce.Prelude.{
  ℕ, suc, ◌+◌, ◌<◌, ◌≡◌, Bool, true, false, Option, none, some, [], arith, if◌then◌else◌, remove,
  update, u32_mod, count, count-nil, count-push, count-remove,
}
use ns_3_dce.Semaphore.{
  Semaphore, Result, success, Pass, returns, waits, wait_object, wait_again, timedwait_again,
  timedwait_object, trywait_object, post_object,
}

pub data Status : Type 0 where
  outside asleep awake : Status

pub record World : Type 0 where
  pub semaphore : Semaphore
  pub status : ℕ → Status
  -- How often `sem_post` succeeded, and how often a call took a unit.
  pub posted : ℕ
  pub taken : ℕ

unfoldable pub init : ℕ → ℕ → World
init sid value = record {
  semaphore = record { sid = sid; count = value; waiting = [] };
  status = λ t. outside;
  posted = 0;
  taken = 0;
}

pub data Move : Type 0 where
  enters tries posts resumes wakes : ℕ → Move
  -- With the deadline and the time; with the time left.
  enters_timed : ℕ → ℕ → ℕ → Move
  resumes_timed : ℕ → ℕ → Move

passed : ℕ → Pass × Semaphore → World → World
passed t (returns success, s) w = record w {
  semaphore = s;
  status = update w.status t outside;
  taken = suc w.taken;
}
passed t (returns _, s) w = record w { semaphore = s; status = update w.status t outside }
passed t (waits, s) w = record w { semaphore = s; status = update w.status t asleep }

tried : Result × Semaphore → World → World
tried (success, s) w = record w { semaphore = s; taken = suc w.taken }
tried (_, s) w = record w { semaphore = s }

abbrev rouse : Status → Status
rouse outside = outside
rouse asleep = awake
rouse awake = awake

woken : Option ℕ → (ℕ → Status) → ℕ → Status
woken none s = s
woken (some t) s = update s t (rouse (s t))

unfoldable pub step : Move → World → World
unfolding passed tried woken
step (enters t) w = passed t (wait_object t w.semaphore) w
step (tries t) w = tried (trywait_object w.semaphore) w
step (posts t) w = record w {
  semaphore = (post_object w.semaphore).1;
  status = woken (post_object w.semaphore).0 w.status;
  posted = suc w.posted;
}
step (resumes t) w = passed t (wait_again t w.semaphore) w
step (wakes t) w = record w { status = woken (some t) w.status }
step (enters_timed deadline now t) w = passed t (timedwait_object deadline now t w.semaphore) w
step (resumes_timed left t) w = passed t (timedwait_again left t w.semaphore) w

-- A thread in a call makes no other, only a woken thread goes on, and the count stays a 32-bit
-- number.
abbrev pub Legal : World → Move → Type 0
Legal w (enters t) = w.status t ≡ outside
Legal w (tries t) = w.status t ≡ outside
Legal w (posts t) = (w.status t ≡ outside) × (w.semaphore.count + 1 < u32_mod)
Legal w (resumes t) = w.status t ≡ awake
Legal w (wakes t) = Unit
Legal w (enters_timed deadline now t) = w.status t ≡ outside
Legal w (resumes_timed left t) = w.status t ≡ awake

abbrev pub is_outside : Status → Bool
is_outside s = elim s [ outside ↦ true | _ ↦ false ]

pub record IsValid (initial : ℕ) (w : World) : Type 0 where
  -- No unit is lost or made up.
  pub conserved : w.semaphore.count + w.taken ≡ initial + w.posted
  pub bounded : w.semaphore.count < u32_mod
  -- The list holds the threads in `Wait`, once each.
  pub listed : (t : ℕ) → count t w.semaphore.waiting ≡ (if is_outside (w.status t) then 0 else 1)

pub init-IsValid : (sid value : ℕ) → value < u32_mod → IsValid value (init sid value)
unfolding init
init-IsValid sid value h = record {
  conserved = omega arith;
  bounded = h;
  listed = λ t. count-nil t;
}

module _ (initial : ℕ) where
  -- Every legal step keeps the units and the list of those that wait.
  pub step-IsValid :
      (mv : Move) (w : World) → IsValid initial w → Legal w mv → IsValid initial (step mv w)
  unfolding step wait_object wait_again timedwait_again timedwait_object trywait_object post_object
  step-IsValid (enters t) w v l = record {
    conserved = ground (arith, v.conserved, v.bounded);
    bounded = ground (arith, v.bounded);
    listed = λ u. ground (arith, v.listed u, v.listed t, count-push u w.semaphore.waiting t);
  }
  step-IsValid (tries t) w v l = record {
    conserved = ground (arith, v.conserved, v.bounded);
    bounded = ground (arith, v.bounded);
    listed = λ u. ground (arith, v.listed u);
  }
  step-IsValid (posts t) w v l = record {
    conserved = ground (arith, v.conserved, v.bounded);
    bounded = ground (arith, v.bounded);
    listed = λ u. ground (arith, v.listed u);
  }
  step-IsValid (resumes t) w v l = record {
    conserved = ground (arith, v.conserved, v.bounded);
    bounded = ground (arith, v.bounded);
    listed = λ u. ground (
      arith,
      v.listed u,
      count-remove u t w.semaphore.waiting,
      count-push u (remove t w.semaphore.waiting) t,
    );
  }
  step-IsValid (wakes t) w v l = record {
    conserved = v.conserved;
    bounded = v.bounded;
    listed = λ u. ground (arith, v.listed u);
  }
  step-IsValid (enters_timed deadline now t) w v l = record {
    conserved = ground (arith, v.conserved, v.bounded);
    bounded = ground (arith, v.bounded);
    listed = λ u. ground (arith, v.listed u, v.listed t, count-push u w.semaphore.waiting t);
  }
  step-IsValid (resumes_timed left t) w v l = record {
    conserved = ground (arith, v.conserved, v.bounded);
    bounded = ground (arith, v.bounded);
    listed = λ u. ground (
      arith,
      v.listed u,
      count-remove u t w.semaphore.waiting,
      count-push u (remove t w.semaphore.waiting) t,
    );
  }

-- ===== src/Mutex/Machine.antt =====
-- Threads that lock and unlock one mutex of model/dce-pthread-mutex.cc, in any order.
--
-- Threads run one at a time and give the processor up in `Wait` alone, so a pass of a call is one
-- step. A thread in `Wait` is asleep until it is woken up, by `unlock` or by anything else, such as
-- a signal; it goes on when it is scheduled.
use ns_3_dce.Prelude.{
  ℕ, suc, ◌+◌, ◌-◌, ◌≤◌, ◌<◌, ◌≡◌, Bool, true, false, Option, none, some, List, [], ◌∷◌, arith,
  if◌then◌else◌, remove, update, u32_mod, count, count-nil, count-cons, count-push, count-remove,
  refl, ap,
}
use ns_3_dce.Mutex.{
  Mutex, MutexType, normal, Code, success, Pass, returns, waits, is_held_by, lock_object,
  lock_again, trylock_object, unlock_object, fresh,
}

pub data Status : Type 0 where
  outside asleep awake : Status

pub record World : Type 0 where
  pub mutex : Mutex
  -- Where each thread stands.
  pub status : ℕ → Status
  -- How often each thread was told that it got the mutex, less how often that it gave it back.
  pub holds : ℕ → ℕ

unfoldable pub init : MutexType → ℕ → World
unfolding fresh
init type mid = record { mutex = fresh type mid; status = λ t. outside; holds = λ t. 0 }

pub data Move : Type 0 where
  locks trylocks unlocks resumes wakes : ℕ → Move

passed : ℕ → Pass × Mutex → World → World
passed t (returns success, x) w = record {
  mutex = x;
  status = update w.status t outside;
  holds = update w.holds t (suc (w.holds t));
}
passed t (returns _, x) w = record w { mutex = x; status = update w.status t outside }
passed t (waits, x) w = record w { mutex = x; status = update w.status t asleep }

tried : ℕ → Code × Mutex → World → World
tried t (success, x) w = record w { mutex = x; holds = update w.holds t (suc (w.holds t)) }
tried t (_, x) w = record w { mutex = x }

abbrev rouse : Status → Status
rouse outside = outside
rouse asleep = awake
rouse awake = awake

woken : Option ℕ → (ℕ → Status) → ℕ → Status
woken none s = s
woken (some t) s = update s t (rouse (s t))

released : ℕ → Code × Option ℕ × Mutex → World → World
unfolding woken
released t (success, u, x) w = record {
  mutex = x;
  status = woken u w.status;
  holds = update w.holds t (w.holds t - 1);
}
released t (_, u, x) w = record w { mutex = x; status = woken u w.status }

unfoldable pub step : Option ℕ → Move → World → World
unfolding passed tried released woken
step junk (locks t) w = passed t (lock_object t w.mutex) w
step junk (trylocks t) w = tried t (trylock_object t w.mutex) w
step junk (unlocks t) w = released t (unlock_object junk t w.mutex) w
step junk (resumes t) w = passed t (lock_again t w.mutex) w
step junk (wakes t) w = record w { status = woken (some t) w.status }

-- A thread in a call makes no other, only a woken thread goes on, and no thread nests 2 ^ 32 - 1
-- locks.
abbrev pub Legal : World → Move → Type 0
Legal w (locks t) = (w.status t ≡ outside) × (w.mutex.count + 1 < u32_mod)
Legal w (trylocks t) = (w.status t ≡ outside) × (w.mutex.count + 1 < u32_mod)
Legal w (unlocks t) = w.status t ≡ outside
Legal w (resumes t) = w.status t ≡ awake
Legal w (wakes t) = Unit

abbrev pub is_outside : Status → Bool
is_outside s = elim s [ outside ↦ true | _ ↦ false ]

pub record IsValid (w : World) : Type 0 where
  -- A mutex is free or was locked between once and 2 ^ 32 - 1 times, once if it is no recursive one.
  pub free : w.mutex.current ≡ none → w.mutex.count ≡ 0
  pub held : (t : ℕ) → w.mutex.current ≡ some t → 0 < w.mutex.count
  pub bounded : w.mutex.count < u32_mod
  pub single : w.mutex.type ≡ normal → w.mutex.count ≤ 1
  -- The threads that were told that they have the mutex: the owner, as often as it is counted.
  pub exclusive : (t : ℕ) → w.holds t ≡ (if is_held_by w.mutex.current t then w.mutex.count else 0)
  -- The list holds the threads in `Wait`, once each; the owner is not among them.
  pub listed : (t : ℕ) → count t w.mutex.waiting ≡ (if is_outside (w.status t) then 0 else 1)
  pub busy : (t : ℕ) → w.mutex.current ≡ some t → w.status t ≡ outside
  -- While the mutex is free the first that waits was woken up.
  pub roused :
      (t : ℕ) (ts : List ℕ) → w.mutex.current ≡ none → w.mutex.waiting ≡ t ∷ ts → w.status t ≡ awake

init-IsValid : (type : MutexType) (mid : ℕ) → IsValid (init type mid)
unfolding init
init-IsValid type mid = record {
  free = λ h. refl;
  held = λ t h. cc;
  bounded = omega arith;
  single = λ h. omega arith;
  exclusive = λ t. refl;
  listed = λ t. count-nil t;
  busy = λ t h. refl;
  roused = λ t ts h e. cc;
}

locks-IsValid :
    (junk : Option ℕ) (t : ℕ) (w : World)
    → IsValid w
    → Legal w (locks t)
    → IsValid (step junk (locks t) w)
unfolding step lock_object
locks-IsValid junk t w v (o, n) = record {
  free = λ h. ground (arith, v.free);
  held = λ u h. ground (arith, v.held u, v.free);
  bounded = ground (arith, v.free);
  single = λ h. ground (arith, v.free, v.single);
  exclusive = λ u. ground (arith, v.exclusive u, v.exclusive t, v.free);
  listed = λ u. ground (arith, v.listed u, v.listed t, count-push u w.mutex.waiting t);
  busy = λ u h. ground (arith, v.busy u);
  roused = λ u us h e. ground (arith, v.roused u us);
}

trylocks-IsValid :
    (junk : Option ℕ) (t : ℕ) (w : World)
    → IsValid w
    → Legal w (trylocks t)
    → IsValid (step junk (trylocks t) w)
unfolding step trylock_object
trylocks-IsValid junk t w v (o, n) = record {
  free = λ h. ground (arith, v.free);
  held = λ u h. ground (arith, v.held u, v.free);
  bounded = ground (arith, v.free);
  single = λ h. ground (arith, v.free, v.single);
  exclusive = λ u. ground (arith, v.exclusive u, v.exclusive t, v.free);
  listed = λ u. ground (arith, v.listed u);
  busy = λ u h. ground (arith, v.busy u);
  roused = λ u us h e. ground (arith, v.roused u us);
}

-- The first of the list is in `Wait`.
front_waits :
    (u : ℕ) (us : List ℕ) (w : World)
    → IsValid w
    → w.mutex.waiting ≡ u ∷ us
    → is_outside (w.status u) ≡ false
front_waits u us w v e = ground (arith, v.listed u, count-cons u u us, ap (count u) e)

unlocks-IsValid :
    (junk : Option ℕ) (t : ℕ) (w : World)
    → IsValid w
    → Legal w (unlocks t)
    → IsValid (step junk (unlocks t) w)
unfolding step unlock_object
unlocks-IsValid junk t w v o = record {
  free = λ h. ground (arith, v.free, v.held t, v.bounded);
  held = λ u h. ground (arith, v.held u, v.held t, v.bounded);
  bounded = ground (arith, v.free, v.bounded);
  single = λ h. ground (arith, v.free, v.single, v.held t, v.bounded);
  exclusive = λ u. ground (arith, v.exclusive u, v.exclusive t, v.free, v.held t, v.bounded);
  listed = λ u. ground (arith, v.listed u);
  busy = λ u h. ground (arith, v.busy u);
  roused = λ u us h e. ground (arith, v.roused u us, front_waits u us w v);
}

resumes-IsValid :
    (junk : Option ℕ) (t : ℕ) (w : World)
    → IsValid w
    → Legal w (resumes t)
    → IsValid (step junk (resumes t) w)
unfolding step lock_again
resumes-IsValid junk t w v a = record {
  free = λ h. ground (arith, v.free);
  held = λ u h. ground (arith, v.held u, v.free);
  bounded = ground (arith, v.free, v.bounded);
  single = λ h. ground (arith, v.free, v.single);
  exclusive = λ u. ground (arith, v.exclusive u, v.exclusive t, v.free);
  listed = λ u. ground (
    arith,
    v.listed u,
    v.listed t,
    count-remove u t w.mutex.waiting,
    count-push u (remove t w.mutex.waiting) t,
  );
  busy = λ u h. ground (arith, v.busy u);
  roused = λ u us h e. ground arith;
}

wakes-IsValid : (junk : Option ℕ) (t : ℕ) (w : World) → IsValid w → IsValid (step junk (wakes t) w)
unfolding step
wakes-IsValid junk t w v = record {
  free = v.free;
  held = v.held;
  bounded = v.bounded;
  single = v.single;
  exclusive = v.exclusive;
  listed = λ u. ground (arith, v.listed u);
  busy = λ u h. ground (arith, v.busy u);
  roused = λ u us h e. ground (arith, v.roused u us);
}

pub step-IsValid :
    (junk : Option ℕ) (mv : Move) (w : World) → IsValid w → Legal w mv → IsValid (step junk mv w)
step-IsValid junk (locks t) w v l = locks-IsValid junk t w v l
step-IsValid junk (trylocks t) w v l = trylocks-IsValid junk t w v l
step-IsValid junk (unlocks t) w v l = unlocks-IsValid junk t w v l
step-IsValid junk (resumes t) w v l = resumes-IsValid junk t w v l
step-IsValid junk (wakes t) w v l = wakes-IsValid junk t w v

pub data Reach (junk : Option ℕ) (type : MutexType) (mid : ℕ) : World → Type 0 where
  here : Reach junk type mid (init type mid)
  next :
      {w : World} (mv : Move)
      → Reach junk type mid w
      → Legal w mv
      → Reach junk type mid (step junk mv w)

pub Reach-IsValid :
    {junk : Option ℕ} {type : MutexType} {mid : ℕ} {w : World} → Reach junk type mid w → IsValid w
Reach-IsValid {type = type} {mid = mid} here = init-IsValid type mid
Reach-IsValid {junk = junk} (next {w = w} mv r l) = step-IsValid junk mv w (Reach-IsValid r) l

-- Mutual exclusion: in every reachable world, two threads that were told that they got the mutex,
-- and did not give it back as often, are one thread.
pub one_holds :
    {junk : Option ℕ} {type : MutexType} {mid : ℕ} {w : World} (t u : ℕ)
    → Reach junk type mid w
    → 0 < w.holds t
    → 0 < w.holds u
    → t ≡ u
one_holds {w = w} t u r a b =
    let v = Reach-IsValid r in ground (arith, v.exclusive t, v.exclusive u)

-- No wakeup is lost: in every reachable world in which the mutex is free and some thread stands in
-- `Wait` of its `lock`, a thread that waits was woken up, so it gets the mutex when it is scheduled,
-- unless another took it first.
pub free_wakes :
    {junk : Option ℕ} {type : MutexType} {mid : ℕ} {w : World} (t : ℕ)
    → Reach junk type mid w
    → w.mutex.current ≡ none
    → w.status t ≡ asleep
    → (u : ℕ) × (w.status u ≡ awake) × ((step junk (resumes u) w).mutex.current ≡ some u)
unfolding step lock_again
free_wakes {junk = junk} {w = w} t r f a = go w.mutex.waiting refl
  where
    v : IsValid w
    v = Reach-IsValid r

    go :
        (l : List ℕ)
        → w.mutex.waiting ≡ l
        → (u : ℕ) × (w.status u ≡ awake) × ((step junk (resumes u) w).mutex.current ≡ some u)
    go [] e = absurd (ground (arith, v.listed t, count-nil t, ap (count t) e))
    go (u ∷ us) e = (u, v.roused u us f e, ground arith)

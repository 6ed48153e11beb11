-- ===== src/Condition/Machine.antt =====
-- Threads that wait for one condition variable of model/dce-pthread-cond.cc, in any order.
--
-- A thread in `Wait` is asleep until it is woken up: by a call on the condition, or, where `timed`
-- says so, by something else, its timer or a signal of its process, which leaves it in the list. What
-- a call does before it goes to sleep, with the mutex, is not a part of the world: a move `enters` is
-- the step in which the thread is put into the list and falls asleep. The fields `clock` and `since`
-- are not state of the program: they number the moves `enters`, and record for each thread its last.
use ns_3_dce.Prelude.{
  ℕ, suc, subst, ◌≤◌, ◌<◌, ◌≡◌, ◌≢◌, Bool, true, false, List, [], ◌∷◌, ◌++◌, ◌==◌, none, some,
  arith, if◌then◌else◌, update, count, count-nil, count-cons, count-push, ap, refl,
}
use ns_3_dce.Condition.{Condition, fresh, wait_object, signal_object, broadcast_object}

pub data Status : Type 0 where
  outside asleep awake : Status

pub record World : Type 0 where
  pub condition : Condition
  pub status : ℕ → Status
  pub clock : ℕ
  pub since : ℕ → ℕ

abbrev pub rouse : Status → Status
rouse outside = outside
rouse asleep = awake
rouse awake = awake

abbrev pub is_asleep : Status → Bool
is_asleep s = elim s [ asleep ↦ true | _ ↦ false ]

unfoldable pub woken : List ℕ → (ℕ → Status) → ℕ → Status
woken [] s = s
woken (t ∷ ts) s = woken ts (update s t (rouse (s t)))

pub data Move : Type 0 where
  enters goes_on expires : ℕ → Move
  signals broadcasts : Move

unfoldable pub init : ℕ → World
init cid = record { condition = fresh cid; status = λ t. outside; clock = 0; since = λ t. 0 }

unfoldable pub step : Move → World → World
unfolding woken
step (enters t) w = record {
  condition = wait_object t w.condition;
  status = update w.status t asleep;
  clock = suc w.clock;
  since = update w.since t w.clock;
}
step (goes_on t) w = record w { status = update w.status t outside }
step (expires t) w = record w { status = update w.status t (rouse (w.status t)) }
step signals w = record w {
  condition = (signal_object w.condition).1;
  status = elim (signal_object w.condition).0 [
    | none ↦ w.status
    | some t ↦ update w.status t (rouse (w.status t))
  ];
}
step broadcasts w = record w {
  condition = (broadcast_object w.condition).1;
  status = woken (broadcast_object w.condition).0 w.status;
}

abbrev pub Legal : Bool → World → Move → Type 0
Legal timed w (enters t) = w.status t ≡ outside
Legal timed w (goes_on t) = w.status t ≡ awake
Legal timed w (expires t) = timed ≡ true
Legal timed w signals = Unit
Legal timed w broadcasts = Unit

pub data Reach (timed : Bool) (cid : ℕ) : World → Type 0 where
  here : Reach timed cid (init cid)
  next :
      {w : World} (mv : Move) → Reach timed cid w → Legal timed w mv → Reach timed cid (step mv w)

-- Those named are awake, the others as before.
woken-status :
    (ts : List ℕ) (s : ℕ → Status) (u : ℕ)
    → is_asleep (woken ts s u) ≡ (if count u ts == 0 then is_asleep (s u) else false)
unfolding woken count
woken-status [] s u = ground arith
woken-status (t ∷ ts) s u = ground (arith, woken-status ts (update s t (rouse (s t))) u)

-- A thread that sleeps stands in the list.
abbrev IsListed : World → Type 0
IsListed w = (t : ℕ) → (if is_asleep (w.status t) then 1 else 0) ≤ count t w.condition.waiting

step-IsListed :
    (timed : Bool) (mv : Move) (w : World) → IsListed w → Legal timed w mv → IsListed (step mv w)
unfolding step wait_object signal_object broadcast_object
step-IsListed timed (enters t) w v l = λ u. ground (arith, v u, count-push u w.condition.waiting t)
step-IsListed timed (goes_on t) w v l = λ u. ground (arith, v u)
step-IsListed timed (expires t) w v l = λ u. ground (arith, v u)
step-IsListed timed signals w v l = λ u. go w.condition.waiting refl u
  where
    go :
        (ts : List ℕ)
        → w.condition.waiting ≡ ts
        → (u : ℕ)
        → (if is_asleep ((step signals w).status u) then 1 else 0)
          ≤ count u (step signals w).condition.waiting
    go [] e u = ground (arith, v u)
    go (t ∷ ts) e u = ground (arith, v u, count-cons u t ts, ap (count u) e)
step-IsListed timed broadcasts w v l =
    λ u. ground (arith, v u, woken-status w.condition.waiting w.status u, count-nil u)

Reach-IsListed : {timed : Bool} {cid : ℕ} {w : World} → Reach timed cid w → IsListed w
unfolding init fresh
Reach-IsListed here = λ t. ground (arith, count-nil t)
Reach-IsListed {timed = timed} (next {w = w} mv r l) = step-IsListed timed mv w (Reach-IsListed r) l

-- In every reachable world, timers included, a broadcast leaves no thread asleep and none in the
-- list.
pub broadcast_rouses_all :
    {timed : Bool} {cid : ℕ} {w : World}
    → Reach timed cid w
    → ((t : ℕ) → (step broadcasts w).status t ≢ asleep)
      × ((step broadcasts w).condition.waiting ≡ [])
unfolding step broadcast_object
broadcast_rouses_all {w = w} r = (
  λ t e.
      ground
        (arith, Reach-IsListed r t, woken-status w.condition.waiting w.status t, ap is_asleep e),
  refl,
)

-- Without timers the list is the threads that sleep, once each.
abbrev IsExact : World → Type 0
IsExact w = (t : ℕ) → count t w.condition.waiting ≡ (if is_asleep (w.status t) then 1 else 0)

step-IsExact : (mv : Move) (w : World) → IsExact w → Legal false w mv → IsExact (step mv w)
unfolding step wait_object signal_object broadcast_object
step-IsExact (enters t) w v l = λ u. ground (arith, v u, v t, count-push u w.condition.waiting t)
step-IsExact (goes_on t) w v l = λ u. ground (arith, v u)
step-IsExact (expires t) w v l = absurd cc
step-IsExact signals w v l = λ u. go w.condition.waiting refl u
  where
    go :
        (ts : List ℕ)
        → w.condition.waiting ≡ ts
        → (u : ℕ)
        → count u (step signals w).condition.waiting
          ≡ (if is_asleep ((step signals w).status u) then 1 else 0)
    go [] e u = ground (arith, v u)
    go (t ∷ ts) e u = ground (arith, v u, count-cons u t ts, ap (count u) e)
step-IsExact broadcasts w v l =
    λ u. ground (arith, v u, woken-status w.condition.waiting w.status u, count-nil u)

Reach-IsExact : {cid : ℕ} {w : World} → Reach false cid w → IsExact w
unfolding init fresh
Reach-IsExact here = λ t. ground (arith, count-nil t)
Reach-IsExact (next {w = w} mv r l) = step-IsExact mv w (Reach-IsExact r) l

-- Each thread of the list fell asleep before those behind it.
unfoldable IsQueue : (ℕ → ℕ) → List ℕ → Type 0
IsQueue since [] = Unit
IsQueue since (t ∷ ts) = ((u : ℕ) → 0 < count u ts → since t < since u) × IsQueue since ts

IsQueue-push :
    (since : ℕ → ℕ) (k t : ℕ) (ts : List ℕ)
    → IsQueue since ts
    → ((u : ℕ) → 0 < count u ts → since u < k)
    → count t ts ≡ 0
    → IsQueue (update since t k) (ts ++ t ∷ [])
unfolding IsQueue count
IsQueue-push since k t [] q b n = (λ u h. absurd (ground (arith, h)), tt)
IsQueue-push since k t (x ∷ ts) q b n = (
  λ u h. ground (arith, q.0 u, b x, count-push u ts t),
  IsQueue-push since k t ts q.1 (λ u h. b u (ground arith)) (ground arith),
)

-- The list is in the order in which its threads fell asleep, before now.
record IsOrdered (w : World) : Type 0 where
  past : (t : ℕ) → 0 < count t w.condition.waiting → w.since t < w.clock
  queue : IsQueue w.since w.condition.waiting

step-IsOrdered :
    (mv : Move) (w : World) → IsExact w → IsOrdered w → Legal false w mv → IsOrdered (step mv w)
unfolding step wait_object signal_object broadcast_object IsQueue
step-IsOrdered (enters t) w x v l = record {
  past = λ u h. ground (arith, v.past u, count-push u w.condition.waiting t);
  queue = IsQueue-push w.since w.clock t w.condition.waiting v.queue v.past (ground (arith, x t));
}
step-IsOrdered (goes_on t) w x v l = record { past = v.past; queue = v.queue }
step-IsOrdered (expires t) w x v l = absurd cc
step-IsOrdered signals w x v l = go w.condition.waiting refl
  where
    go : (ts : List ℕ) → w.condition.waiting ≡ ts → IsOrdered (step signals w)
    go [] e = record { past = λ u h. ground (arith, v.past u); queue = rw e tt }
    go (t ∷ ts) e =
        let q : IsQueue w.since (t ∷ ts) = subst (IsQueue w.since) e v.queue in
        record {
          past = λ u h. ground (arith, v.past u, count-cons u t ts, ap (count u) e);
          queue = rw e q.1;
        }
step-IsOrdered broadcasts w x v l = record {
  past = λ u h. absurd (ground (arith, h, count-nil u));
  queue = tt;
}

Reach-IsOrdered : {cid : ℕ} {w : World} → Reach false cid w → IsOrdered w
unfolding init fresh IsQueue
Reach-IsOrdered here = record { past = λ t h. absurd (ground (arith, h, count-nil t)); queue = tt }
Reach-IsOrdered (next {w = w} mv r l) = step-IsOrdered mv w (Reach-IsExact r) (Reach-IsOrdered r) l

-- While nothing but calls on the condition wakes up a thread (no timer and no signal of the process):
-- a signal that finds a thread in the list wakes up one that did sleep, and that fell asleep before
-- every other that sleeps, and it wakes up no other; and a signal finds nobody only if nobody sleeps.
pub signal_rouses_first :
    {cid : ℕ} {w : World}
    → Reach false cid w
    → ((t : ℕ) (ts : List ℕ)
        → w.condition.waiting ≡ t ∷ ts
        → (w.status t ≡ asleep)
          × ((u : ℕ) → t ≢ u → w.status u ≡ asleep → w.since t < w.since u)
          × ((step signals w).status t ≡ awake)
          × ((u : ℕ) → t ≢ u → (step signals w).status u ≡ w.status u)
          × ((step signals w).condition.waiting ≡ ts))
      × (w.condition.waiting ≡ [] → (t : ℕ) → w.status t ≢ asleep)
unfolding step signal_object IsQueue
signal_rouses_first {w = w} r = (
  λ t ts e.
      let s : w.status t ≡ asleep =
        ground (arith, Reach-IsExact r t, count-cons t t ts, ap (count t) e) in
      let q : IsQueue w.since (t ∷ ts) = subst (IsQueue w.since) e (Reach-IsOrdered r).queue in
      (
        s,
        λ u n a.
            q.0 u (
              ground (arith, Reach-IsExact r u, ap is_asleep a, count-cons u t ts, ap (count u) e)),
        ground arith,
        λ u n. ground arith,
        ground arith,
      ),
  λ e t s. ground (arith, Reach-IsExact r t, ap (count t) e, count-nil t),
)

-- A thread whose timer ran out stays in the list. While it stands first there, a signal takes it out
-- and reaches no sleeping thread: the next in the list sleeps on.
pub signal_is_lost :
    (t u : ℕ) (us : List ℕ) (w : World)
    → w.condition.waiting ≡ t ∷ u ∷ us
    → w.status t ≢ asleep
    → w.status u ≡ asleep
    → ((step signals w).status u ≡ asleep)
      × ((step signals w).condition.waiting ≡ u ∷ us)
      × ((v : ℕ) → (step signals w).status v ≡ w.status v)
unfolding step signal_object
signal_is_lost t u us w e n a = (ground arith, ground arith, λ v. ground arith)

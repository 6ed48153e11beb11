-- ===== src/WaitQueue.antt =====
-- The wait queues of model/unix-fd.cc, with the entries and events of model/wait-queue.cc.
use ns_3_dce.Prelude.{
  ℕ, ◌<◌, ◌≡◌, Bool, true, false, ◌||◌, List, [], ◌∷◌, ◌++◌, ◌==◌, if◌then◌else◌, arith, count,
  count-append,
}

pub data Event : Type 0 where
  pollin pollout pollhup : Event

-- `WaitQueueEntryTimeout`: the thread that waits, and the events of its mask.
pub record Entry : Type 0 where
  pub thread : ℕ
  pub wants_in : Bool
  pub wants_out : Bool
  pub wants_hup : Bool

-- What `Wait` gives.
pub data Awoken : Type 0 where
  ok interrupted timeout : Awoken

unfoldable pub is_wanted : Event → Entry → Bool
is_wanted pollin e = e.wants_in
is_wanted pollout e = e.wants_out
is_wanted pollhup e = e.wants_hup

-- `WakeWaiters`: the threads that are woken up, in order.
unfoldable pub wake_waiters : Event → List Entry → List ℕ
unfolding is_wanted
wake_waiters event [] = []
wake_waiters event (e ∷ es) =
    let rest = wake_waiters event es in if is_wanted event e then e.thread ∷ rest else rest

-- `WakeWaiters` with two events at once.
unfoldable pub wake_either : Event → Event → List Entry → List ℕ
unfolding is_wanted
wake_either event other [] = []
wake_either event other (e ∷ es) =
    let rest = wake_either event other es in
    if is_wanted event e || is_wanted other e then e.thread ∷ rest else rest

-- `RemoveWaitQueue`: an entry is known by its thread, which waits once.
unfoldable pub remove_waiter : ℕ → List Entry → List Entry
remove_waiter t [] = []
remove_waiter t (e ∷ es) = let rest = remove_waiter t es in if e.thread == t then rest else e ∷ rest

-- The entry of a thread that waits to read, and to write.
abbrev pub read_entry : ℕ → Entry
read_entry t = record { thread = t; wants_in = true; wants_out = false; wants_hup = true }

abbrev pub write_entry : ℕ → Entry
write_entry t = record { thread = t; wants_in = false; wants_out = true; wants_hup = true }

-- The last in a queue is woken up by an event that it wants.
pub wake-append :
    (event : Event) (es : List Entry) (e : Entry)
    → is_wanted event e ≡ true
    → 0 < count e.thread (wake_waiters event (es ++ e ∷ []))
unfolding wake_waiters count
wake-append event [] e h = ground arith
wake-append event (x ∷ es) e h = ground (arith, wake-append event es e h)

pub wake_either-append :
    (event other : Event) (es : List Entry) (e : Entry)
    → is_wanted event e ≡ true
    → 0 < count e.thread (wake_either event other (es ++ e ∷ []))
unfolding wake_either count
wake_either-append event other [] e h = ground arith
wake_either-append event other (x ∷ es) e h = ground (arith, wake_either-append event other es e h)

pub count_left : (t : ℕ) (xs ys : List ℕ) → 0 < count t xs → 0 < count t (xs ++ ys)
count_left t xs ys h = omega (arith, count-append t xs ys)

pub count_right : (t : ℕ) (xs ys : List ℕ) → 0 < count t ys → 0 < count t (xs ++ ys)
count_right t xs ys h = omega (arith, count-append t xs ys)

-- ===== src/Condition/Handlers.antt =====
-- The calls of model/dce-pthread-cond.cc on the condition variables of a process.
use ns_3_dce.Prelude.{
  ℕ, suc, subst, ◌≤◌, ◌<◌, ◌≡◌, ◌≢◌, Option, none, some, List, [], ◌∷◌, ◌==◌, arith, u32_mod, refl,
  ap, sym, inl, inr, Bool-cases, Option-cases, ◌∙◌,
}
use ns_3_dce.ObjectTable.{
  find, store, erase, find-id, find-append, find-append_some, AllWithin, find_below, find_above,
  append-AllWithin, mono-AllWithin, erase-AllWithin,
}
use ns_3_dce.Condition.{
  Condition, success, einval, refused, unlocked, Process, cid_of, fresh, create, first_cid,
  destroyed_cid, search, cond_init, cond_destroy, destroy_found, cond_broadcast, cond_signal,
  cond_wait, cond_wait_sleep, put, wait_object,
}
use ns_3_dce.Mutex
use ns_3_dce.Mutex.{mutex_unlock, unlock_object}
use ns_3_dce.Mutex.Handlers.{mutex_unlock_acts, unlock_object_lem}

-- Ids were given out in order from 3 on, and the next is still a 32-bit number.
pub record IsTable (p : Process) : Type 0 where
  pub ids : AllWithin cid_of first_cid p.next_cid p.conditions
  pub next_first : first_cid ≤ p.next_cid
  pub next_fits : p.next_cid < u32_mod

-- In a process whose condition ids were given out in order, from 3 to a 32-bit number: a condition
-- that was initialised is found at its pointer with nobody waiting, and every other condition of the
-- process is found as before at its id.
pub cond_init_then_search :
    (ptr : ℕ) (p : Process)
    → IsTable p
    → let q = (cond_init (some ptr) p).1 in
      ((cond_init (some ptr) p).0 ≡ success)
      × (search (some ptr) q ≡ (some (fresh p.next_cid), q))
      × ((k : ℕ) → k ≢ p.next_cid → find cid_of k q.conditions ≡ find cid_of k p.conditions)
unfolding cond_init search create fresh
cond_init_then_search ptr p v = (
  refl,
  ground (
    arith,
    find-append cid_of p.next_cid p.conditions (fresh p.next_cid)
        (find_above cid_of first_cid p.next_cid p.next_cid p.conditions v.ids (omega arith)),
  ),
  λ k h. elim (Option-cases (find cid_of k p.conditions)) [
    | inl e ↦ ground (arith, find-append cid_of k p.conditions (fresh p.next_cid) e)
    | inr (x, e) ↦ find-append_some cid_of k p.conditions _ x e ∙ sym e
  ],
)

-- The table that a search leaves, whether or not it made a condition.
search-ids :
    (ptr : ℕ) (p : Process)
    → IsTable p
    → AllWithin cid_of first_cid u32_mod (search (some ptr) p).1.conditions
unfolding search create fresh
search-ids ptr p v = elim (Bool-cases (p.memory ptr == 0)) [
  | inl e ↦ rw e (
      append-AllWithin cid_of first_cid u32_mod p.conditions (fresh p.next_cid) old v.next_first
        v.next_fits)
  | inr e ↦ rw e old
]
  where
    old : AllWithin cid_of first_cid u32_mod p.conditions
    old = mono-AllWithin cid_of first_cid p.next_cid u32_mod p.conditions (omega arith) v.ids

-- The id 2 is in the user's memory, and belongs to no condition.
abbrev IsGone : ℕ → Process → Type 0
IsGone ptr q = (q.memory ptr ≡ destroyed_cid) × (find cid_of destroyed_cid q.conditions ≡ none)

destroy-IsGone :
    (ptr : ℕ) (p : Process)
    → IsTable p
    → (cond_destroy (some ptr) p).0 ≡ success
    → IsGone ptr (cond_destroy (some ptr) p).1
unfolding cond_destroy destroy_found
destroy-IsGone ptr p v e = go (search (some ptr) p).0 refl
  where
    q : Process
    q = (search (some ptr) p).1

    go :
        (o : Option Condition)
        → (search (some ptr) p).0 ≡ o
        → IsGone ptr (cond_destroy (some ptr) p).1
    go none k = absurd (ground arith)
    go (some x) k = ground (
      arith,
      find_below cid_of first_cid u32_mod destroyed_cid (erase cid_of x.cid q.conditions)
          (erase-AllWithin cid_of first_cid u32_mod x.cid q.conditions (search-ids ptr p v))
          (omega arith),
    )

gone_search : (ptr : ℕ) (q : Process) → IsGone ptr q → search (some ptr) q ≡ (none, q)
unfolding search
gone_search ptr q g = ground (arith, g.0, g.1)

-- Each call at a pointer where nothing is found.
module _ (ptr : ℕ) (q : Process) (s : search (some ptr) q ≡ (none, q)) where
  wait_of_none :
      (junk : Option ℕ) (t : ℕ) (mutex : Option ℕ)
      → cond_wait junk t (some ptr) mutex q ≡ (refused einval, none, q)
  unfolding cond_wait
  wait_of_none junk t mutex = ground arith

  signal_of_none : cond_signal (some ptr) q ≡ (einval, none, q)
  unfolding cond_signal
  signal_of_none = ground arith

  broadcast_of_none : cond_broadcast (some ptr) q ≡ (einval, [], q)
  unfolding cond_broadcast
  broadcast_of_none = ground arith

  destroy_of_none : cond_destroy (some ptr) q ≡ (einval, q)
  unfolding cond_destroy
  destroy_of_none = ground arith

-- In a process whose condition ids were given out in order, from 3 to a 32-bit number: once a
-- condition is destroyed each wait, signal, broadcast and destroy at its pointer is refused with
-- EINVAL and changes nothing, so a thread that would wait there keeps its mutex.
pub cond_destroy_then_einval :
    (junk : Option ℕ) (t ptr : ℕ) (mutex : Option ℕ) (p : Process)
    → IsTable p
    → (cond_destroy (some ptr) p).0 ≡ success
    → let q = (cond_destroy (some ptr) p).1 in
      (cond_wait junk t (some ptr) mutex q ≡ (refused einval, none, q))
      × (cond_signal (some ptr) q ≡ (einval, none, q))
      × (cond_broadcast (some ptr) q ≡ (einval, [], q))
      × (cond_destroy (some ptr) q ≡ (einval, q))
cond_destroy_then_einval junk t ptr mutex p v e = (
  wait_of_none ptr q s junk t mutex,
  signal_of_none ptr q s,
  broadcast_of_none ptr q s,
  destroy_of_none ptr q s,
)
  where
    q : Process
    q = (cond_destroy (some ptr) p).1

    s : search (some ptr) q ≡ (none, q)
    s = gone_search ptr q (destroy-IsGone ptr p v e)

search_found :
    (ptr : ℕ) (p : Process) (c : Condition)
    → search (some ptr) p ≡ (some c, p)
    → find cid_of c.cid p.conditions ≡ some c
unfolding search
search_found ptr p c s =
    let q : Process = (search (some ptr) p).1 in
    let e : find cid_of (q.memory ptr) q.conditions ≡ some c = ap (λ r. r.0) s in
    let i : cid_of c ≡ q.memory ptr = find-id cid_of (q.memory ptr) q.conditions c e in
    let m : q ≡ p = ap (λ r. r.1) s in
    subst (λ r. find cid_of c.cid r.conditions ≡ some c) m
      (subst (λ l. find cid_of l q.conditions ≡ some c) (sym i) e)

cond_wait_opens :
    (junk : Option ℕ) (t ptr : ℕ) (mutex : Option ℕ) (p : Process) (c : Condition)
    → search (some ptr) p ≡ (some c, p)
    → cond_wait junk t (some ptr) mutex p ≡ (
      unlocked c.cid,
      (mutex_unlock junk t mutex p.locks).1,
      record p { locks = (mutex_unlock junk t mutex p.locks).2 },
    )
unfolding cond_wait
cond_wait_opens junk t ptr mutex p c s = ground arith

-- A thread that holds a mutex once, which others wait for, and waits on a condition first leaves the
-- mutex free, wakes up the thread that has waited longest for it, and yields while it stands in no
-- list. If the condition is still there when it runs again, it stops in `Wait` at the end of the list
-- that the condition has then.
pub cond_wait_frees_mutex :
    (junk : Option ℕ) (t ptr mptr u : ℕ) (us : List ℕ) (p : Process) (c : Condition)
    (x : Mutex.Mutex)
    → search (some ptr) p ≡ (some c, p)
    → Mutex.search (some mptr) p.locks ≡ (some x, p.locks)
    → x.waiting ≡ u ∷ us
    → x.count ≡ 1
    → x.current ≡ some t
    → let (r, woken, q) = cond_wait junk t (some ptr) (some mptr) p in
      (r ≡ unlocked c.cid)
      × (woken ≡ some u)
      × (q.conditions ≡ p.conditions)
      × (find Mutex.mid_of x.mid q.locks.mutexes ≡ some (record x { count = 0; current = none }))
      × ((later : Process) (d : Condition)
          → find cid_of c.cid later.conditions ≡ some d
          → cond_wait_sleep t c.cid later
            ≡ some (record later { conditions = store cid_of (wait_object t d) later.conditions }))
unfolding cond_wait_sleep put
cond_wait_frees_mutex junk t ptr mptr u us p c x s m w n o =
    let acts = mutex_unlock_acts t mptr (suc x.mid) p.locks x m (λ e. omega arith) junk in
    let freed : unlock_object junk t x
        ≡ (Mutex.success, some u, record x { count = 0; current = none }) =
      (unlock_object_lem junk t u us x w (omega arith) (omega arith)).0 o ∙ rw n refl in
    rw (cond_wait_opens junk t ptr (some mptr) p c s) (
      refl,
      acts.1 ∙ ap (λ r. r.1) freed,
      refl,
      acts.2 ∙ ap (λ r. some r.2) freed,
      λ later d e. ground arith,
    )

-- ===== src/Mutex/Handlers.antt =====
-- The calls of model/dce-pthread-mutex.cc on the mutexes of a process.
use ns_3_dce.Prelude.{
  ℕ, ◌-◌, ◌≤◌, ◌<◌, ◌≡◌, ◌≢◌, Option, none, some, List, ◌∷◌, ◌==◌, arith, if◌then◌else◌, u32_mod,
  refl, ap, sym, inl, inr, subst, Bool-cases, Option-cases, ◌∙◌,
}
use ns_3_dce.ObjectTable.{
  find, store, erase, find-id, find-store_ne, find-store_self, find-append, find-append_some,
  AllWithin, find_below, find_above, append-AllWithin, mono-AllWithin, erase-AllWithin,
}
use ns_3_dce.Mutex.{
  Mutex, MutexType, normal, recursive, success, einval, eperm, returns, Process, Attribute, absent,
  typed, mid_of, fresh, create, first_mid, search, mutex_init, mutex_destroy, mutex_lock,
  mutex_trylock, mutex_unlock, lock_object, trylock_object, unlock_object, destroyed_mid,
  destroy_found, init_static,
}

-- Ids were given out in order from 3 on, and the next is still a 32-bit number.
pub record IsTable (p : Process) : Type 0 where
  pub ids : AllWithin mid_of first_mid p.next_mid p.mutexes
  pub next_first : first_mid ≤ p.next_mid
  pub next_fits : p.next_mid < u32_mod

-- The type that `pthread_mutex_init` gives a mutex.
abbrev pub type_of : Attribute → MutexType
type_of (typed (some recursive)) = recursive
type_of _ = normal

search-create :
    (type : MutexType) (ptr : ℕ) (p : Process)
    → IsTable p
    → let q = create type ptr p in
      (search (some ptr) q ≡ (some (fresh type p.next_mid), q))
      × ((k : ℕ) → k ≢ p.next_mid → find mid_of k q.mutexes ≡ find mid_of k p.mutexes)
unfolding search init_static create fresh
search-create type ptr p v = (
  ground (
    arith,
    find-append mid_of p.next_mid p.mutexes (fresh type p.next_mid)
        (find_above mid_of first_mid p.next_mid p.next_mid p.mutexes v.ids (omega arith)),
  ),
  λ k h. elim (Option-cases (find mid_of k p.mutexes)) [
    | inl e ↦ ground (arith, find-append mid_of k p.mutexes (fresh type p.next_mid) e)
    | inr (x, e) ↦ find-append_some mid_of k p.mutexes _ x e ∙ sym e
  ],
)

-- In a process whose mutex ids were given out in order, from 3 to a 32-bit number: a mutex that was
-- initialised is found at its pointer, free, of the type asked for and with nobody waiting, and every
-- other mutex of the process is found as before at its id.
pub init_then_search :
    (ptr : ℕ) (attr : Attribute) (p : Process)
    → IsTable p
    → (mutex_init (some ptr) attr p).0 ≡ success
    → let q = (mutex_init (some ptr) attr p).1 in
      (search (some ptr) q ≡ (some (fresh (type_of attr) p.next_mid), q))
      × ((k : ℕ) → k ≢ p.next_mid → find mid_of k q.mutexes ≡ find mid_of k p.mutexes)
unfolding mutex_init
init_then_search ptr absent p v e = search-create normal ptr p v
init_then_search ptr (typed none) p v e = cc
init_then_search ptr (typed (some normal)) p v e = search-create normal ptr p v
init_then_search ptr (typed (some recursive)) p v e = search-create recursive ptr p v

-- The table that a search leaves, whether or not it made a mutex.
search-ids :
    (ptr : ℕ) (p : Process)
    → IsTable p
    → AllWithin mid_of first_mid u32_mod (search (some ptr) p).1.mutexes
unfolding search init_static create fresh
search-ids ptr p v = elim (Bool-cases (p.memory ptr == 0)) [
  | inl e ↦ rw e (
      append-AllWithin mid_of first_mid u32_mod p.mutexes (fresh (p.kinds ptr) p.next_mid) old
        v.next_first v.next_fits)
  | inr e ↦ rw e old
]
  where
    old : AllWithin mid_of first_mid u32_mod p.mutexes
    old = mono-AllWithin mid_of first_mid p.next_mid u32_mod p.mutexes (omega arith) v.ids

-- The id 2 is in the user's memory, and belongs to no mutex.
abbrev IsGone : ℕ → Process → Type 0
IsGone ptr q = (q.memory ptr ≡ destroyed_mid) × (find mid_of destroyed_mid q.mutexes ≡ none)

destroy-IsGone :
    (ptr : ℕ) (p : Process)
    → IsTable p
    → (mutex_destroy (some ptr) p).0 ≡ success
    → IsGone ptr (mutex_destroy (some ptr) p).1
unfolding mutex_destroy destroy_found
destroy-IsGone ptr p v e = go (search (some ptr) p).0 refl
  where
    q : Process
    q = (search (some ptr) p).1

    go :
        (o : Option Mutex) → (search (some ptr) p).0 ≡ o → IsGone ptr (mutex_destroy (some ptr) p).1
    go none k = absurd (ground arith)
    go (some x) k = ground (
      arith,
      find_below mid_of first_mid u32_mod destroyed_mid (erase mid_of x.mid q.mutexes)
          (erase-AllWithin mid_of first_mid u32_mod x.mid q.mutexes (search-ids ptr p v))
          (omega arith),
    )

gone_search : (ptr : ℕ) (q : Process) → IsGone ptr q → search (some ptr) q ≡ (none, q)
unfolding search init_static
gone_search ptr q g = ground (arith, g.0, g.1)

destroy_of_none :
    (ptr : ℕ) (q : Process)
    → search (some ptr) q ≡ (none, q)
    → (mutex_destroy (some ptr) q).0 ≡ einval
unfolding mutex_destroy
destroy_of_none ptr q s = rw (s, mutex_destroy)

-- In a process whose mutex ids were given out in order, from 3 to a 32-bit number: once a mutex is
-- destroyed each call at its pointer is refused with EINVAL.
pub destroy_then_einval :
    (junk : Option ℕ) (t ptr : ℕ) (p : Process)
    → IsTable p
    → (mutex_destroy (some ptr) p).0 ≡ success
    → let q = (mutex_destroy (some ptr) p).1 in
      ((mutex_lock t (some ptr) q).0 ≡ returns einval)
      × ((mutex_trylock t (some ptr) q).0 ≡ einval)
      × ((mutex_unlock junk t (some ptr) q).0 ≡ einval)
      × ((mutex_destroy (some ptr) q).0 ≡ einval)
unfolding mutex_lock mutex_trylock mutex_unlock
destroy_then_einval junk t ptr p v e = (
  rw (s, mutex_lock),
  rw (s, mutex_trylock),
  rw (s, mutex_unlock),
  destroy_of_none ptr (mutex_destroy (some ptr) p).1 s,
)
  where
    s : search (some ptr) (mutex_destroy (some ptr) p).1 ≡ (none, (mutex_destroy (some ptr) p).1)
    s = gone_search ptr (mutex_destroy (some ptr) p).1 (destroy-IsGone ptr p v e)

search_found :
    (ptr : ℕ) (p : Process) (x : Mutex)
    → search (some ptr) p ≡ (some x, p)
    → find mid_of x.mid p.mutexes ≡ some x
unfolding search
search_found ptr p x s =
    let q : Process = (search (some ptr) p).1 in
    let e : find mid_of (q.memory ptr) q.mutexes ≡ some x = ap (λ r. r.0) s in
    let i : mid_of x ≡ q.memory ptr = find-id mid_of (q.memory ptr) q.mutexes x e in
    let m : q ≡ p = ap (λ r. r.1) s in
    subst (λ r. find mid_of x.mid r.mutexes ≡ some x) m
      (subst (λ l. find mid_of l q.mutexes ≡ some x) (sym i) e)

stored :
    (p : Process) (x y : Mutex) (k : ℕ)
    → find mid_of x.mid p.mutexes ≡ some x
    → y.mid ≡ x.mid
    → x.mid ≢ k
    → (find mid_of x.mid (store mid_of y p.mutexes) ≡ some y)
      × (find mid_of k (store mid_of y p.mutexes) ≡ find mid_of k p.mutexes)
stored p x y k f e h = (
  subst (λ m. find mid_of m (store mid_of y p.mutexes) ≡ some y) e
      (find-store_self mid_of y x p.mutexes (rw e f)),
  find-store_ne mid_of k y p.mutexes (λ z. h (sym e ∙ z)),
)

mid-lock_object : (t : ℕ) (x : Mutex) → (lock_object t x).1.mid ≡ x.mid
unfolding lock_object
mid-lock_object t x = ground arith

mid-trylock_object : (t : ℕ) (x : Mutex) → (trylock_object t x).1.mid ≡ x.mid
unfolding trylock_object
mid-trylock_object t x = ground arith

mid-unlock_object : (junk : Option ℕ) (t : ℕ) (x : Mutex) → (unlock_object junk t x).2.mid ≡ x.mid
unfolding unlock_object
mid-unlock_object junk t x = ground arith

mutex_lock_opens :
    (t ptr : ℕ) (p : Process) (x : Mutex)
    → search (some ptr) p ≡ (some x, p)
    → mutex_lock t (some ptr) p
      ≡ ((lock_object t x).0, record p { mutexes = store mid_of (lock_object t x).1 p.mutexes })
unfolding mutex_lock
mutex_lock_opens t ptr p x s = ground arith

mutex_unlock_opens :
    (junk : Option ℕ) (t ptr : ℕ) (p : Process) (x : Mutex)
    → search (some ptr) p ≡ (some x, p)
    → mutex_unlock junk t (some ptr) p ≡ (
      (unlock_object junk t x).0,
      (unlock_object junk t x).1,
      record p { mutexes = store mid_of (unlock_object junk t x).2 p.mutexes },
    )
unfolding mutex_unlock
mutex_unlock_opens junk t ptr p x s = ground arith

module _ (t ptr k : ℕ) (p : Process) (x : Mutex) (s : search (some ptr) p ≡ (some x, p))
    (other : x.mid ≢ k) where
  -- What `pthread_mutex_lock` does up to its end or its `Wait`, at a pointer whose mutex is found: it
  -- does to that mutex what its pass says, ends as the pass does, and leaves every other mutex of
  -- the process as it was.
  pub mutex_lock_acts :
      ((mutex_lock t (some ptr) p).0 ≡ (lock_object t x).0)
      × (find mid_of x.mid (mutex_lock t (some ptr) p).1.mutexes ≡ some (lock_object t x).1)
      × (find mid_of k (mutex_lock t (some ptr) p).1.mutexes ≡ find mid_of k p.mutexes)
  mutex_lock_acts =
      let kept =
        stored p x (lock_object t x).1 k (search_found ptr p x s) (mid-lock_object t x) other in
      rw (mutex_lock_opens t ptr p x s) (refl, kept.0, kept.1)

  -- What `pthread_mutex_unlock` does at a pointer whose mutex is found: it does to that mutex what
  -- `unlock_object` says, returns its result, wakes up the thread that it names, and leaves every
  -- other mutex of the process as it was.
  pub mutex_unlock_acts :
      (junk : Option ℕ)
      → ((mutex_unlock junk t (some ptr) p).0 ≡ (unlock_object junk t x).0)
        × ((mutex_unlock junk t (some ptr) p).1 ≡ (unlock_object junk t x).1)
        × (find mid_of x.mid (mutex_unlock junk t (some ptr) p).2.mutexes
            ≡ some (unlock_object junk t x).2)
        × (find mid_of k (mutex_unlock junk t (some ptr) p).2.mutexes ≡ find mid_of k p.mutexes)
  mutex_unlock_acts junk =
      let kept =
        stored p x (unlock_object junk t x).2 k (search_found ptr p x s)
          (mid-unlock_object junk t x) other in
      rw (mutex_unlock_opens junk t ptr p x s) (refl, refl, kept.0, kept.1)

-- `pthread_mutex_unlock` of a mutex that is locked and that some thread waits for: from its owner it
-- takes one off the count, and the last time frees the mutex and wakes up the thread that has waited
-- longest, which stays in the list; from any other thread it gives EPERM and changes nothing.
pub unlock_object_lem :
    (junk : Option ℕ) (t u : ℕ) (us : List ℕ) (x : Mutex)
    → x.waiting ≡ u ∷ us
    → 0 < x.count
    → x.count < u32_mod
    → (x.current ≡ some t
        → unlock_object junk t x ≡ (
            if x.count == 1
            then (success, some u, record x { count = 0; current = none })
            else (success, none, record x { count = x.count - 1 })))
      × (x.current ≢ some t → unlock_object junk t x ≡ (eperm, none, x))
unfolding unlock_object
unlock_object_lem junk t u us x w p b = (λ c. ground arith, λ c. ground arith)

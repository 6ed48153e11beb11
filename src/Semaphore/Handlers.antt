-- ===== src/Semaphore/Handlers.antt =====
-- The calls of model/dce-semaphore.cc on the semaphores of a process.
use ns_3_dce.Prelude.{
  ℕ, pos, ◌≡◌, ◌≢◌, ◌<◌, ◌≤◌, false, Option, none, some, [], arith, refl, sym, ◌∙◌, inl, inr,
  Option-cases,
}
use ns_3_dce.ObjectTable.{
  find, erase, find-append, find-append_some, AllWithin, find_above, find_below, erase-AllWithin,
}
use ns_3_dce.Semaphore.{
  Semaphore, einval, success, fails, reads, returns, Process, sid_of, first_sid, destroyed_sid,
  search, sem_init, sem_destroy, sem_post, sem_wait, sem_trywait, sem_timedwait, sem_getvalue,
  as_int, timedwait_object, trywait_object, wait_object, etimedout,
}

-- Ids were given out in order from 3 on.
pub record IsTable (p : Process) : Type 0 where
  pub ids : AllWithin sid_of first_sid p.next_sid p.semaphores

-- In a process whose semaphore ids were given out in order from 3 on: after `sem_init` the semaphore
-- reads as the value given, taken as an `int`, and every other one is found as before at its id.
pub init_then_getvalue :
    (ptr value : ℕ) (p : Process)
    → IsTable p
    → let q = (sem_init ptr false value p).1 in
      (sem_getvalue (some ptr) q ≡ reads (as_int value))
      × ((k : ℕ) → k ≢ p.next_sid → find sid_of k q.semaphores ≡ find sid_of k p.semaphores)
unfolding sem_init sem_getvalue search
init_then_getvalue ptr v p h = (
  ground (
    arith,
    find-append sid_of p.next_sid p.semaphores
        (record { sid = p.next_sid; count = v; waiting = [] })
        (find_above sid_of first_sid p.next_sid p.next_sid p.semaphores h.ids (omega arith)),
  ),
  λ k n. elim (Option-cases (find sid_of k p.semaphores)) [
    | inl e ↦ ground (
      arith,
      find-append sid_of k p.semaphores (record { sid = p.next_sid; count = v; waiting = [] }) e,
    )
    | inr (x, e) ↦ find-append_some sid_of k p.semaphores _ x e ∙ sym e
  ],
)

destroyed_search :
    (ptr : ℕ) (p : Process)
    → IsTable p
    → (sem_destroy (some ptr) p).0 ≡ success
    → search (some ptr) (sem_destroy (some ptr) p).1 ≡ none
unfolding sem_destroy
destroyed_search ptr p h e = go (search (some ptr) p) refl
  where
    go :
        (o : Option Semaphore)
        → search (some ptr) p ≡ o
        → search (some ptr) (sem_destroy (some ptr) p).1 ≡ none
    go none k = absurd (ground arith)
    go (some s) k =
        unfold search in
        ground (
          arith,
          find_below sid_of first_sid p.next_sid destroyed_sid (erase sid_of s.sid p.semaphores)
              (erase-AllWithin sid_of first_sid p.next_sid s.sid p.semaphores h.ids) (omega arith),
        )

destroy_fails :
    (ptr : ℕ) (q : Process)
    → search (some ptr) q ≡ none
    → (sem_destroy (some ptr) q).0 ≡ fails einval
unfolding sem_destroy
destroy_fails ptr q s = rw (s, sem_destroy)

-- In a process whose semaphore ids were given out in order from 3 on: once a semaphore is destroyed
-- `sem_wait`, `sem_trywait`, `sem_post`, `sem_getvalue` and `sem_destroy` at its pointer fail with
-- EINVAL.
pub destroy_then_fails :
    (t ptr : ℕ) (p : Process)
    → IsTable p
    → (sem_destroy (some ptr) p).0 ≡ success
    → let q = (sem_destroy (some ptr) p).1 in
      ((sem_wait t (some ptr) q).0 ≡ returns (fails einval))
      × ((sem_trywait (some ptr) q).0 ≡ fails einval)
      × ((sem_post (some ptr) q).0 ≡ fails einval)
      × (sem_getvalue (some ptr) q ≡ fails einval)
      × ((sem_destroy (some ptr) q).0 ≡ fails einval)
unfolding sem_wait sem_trywait sem_post sem_getvalue
destroy_then_fails t ptr p h e = (
  rw (s, sem_wait),
  rw (s, sem_trywait),
  rw (s, sem_post),
  rw (s, sem_getvalue),
  destroy_fails ptr q s,
)
  where
    q : Process
    q = (sem_destroy (some ptr) p).1

    s : search (some ptr) q ≡ none
    s = destroyed_search ptr p h e

-- Only 0 reads as 0.
as_int-zero : (n : ℕ) → as_int n ≡ pos 0 → n ≡ 0
unfolding as_int
as_int-zero n e = ground arith

zero-as_int : (n : ℕ) → n ≡ 0 → as_int n ≡ pos 0
unfolding as_int
zero-as_int n e = ground arith

-- `sem_timedwait` up to its end or its first `Wait`: it ends as `sem_trywait` does unless the value is
-- 0, does what `sem_wait` does while the deadline is ahead, and fails with ETIMEDOUT on the value 0
-- once the deadline has passed.
pub timedwait_as_others :
    (deadline now t : ℕ) (ptr : Option ℕ) (p : Process)
    → (sem_getvalue ptr p ≢ reads (pos 0)
        → sem_timedwait deadline now t ptr p
          ≡ (returns (sem_trywait ptr p).0, (sem_trywait ptr p).1))
      × (now < deadline → sem_timedwait deadline now t ptr p ≡ sem_wait t ptr p)
      × (sem_getvalue ptr p ≡ reads (pos 0)
          → deadline ≤ now
          → (sem_timedwait deadline now t ptr p).0 ≡ returns (fails etimedout))
unfolding sem_timedwait sem_trywait sem_wait sem_getvalue timedwait_object trywait_object
    wait_object
timedwait_as_others deadline now t ptr p = elim (Option-cases (search ptr p)) [
  | inl e ↦ (λ v. ground arith, λ h. ground arith, λ v h. cc (unread e))
  | inr (s, e) ↦ (
    λ v. ground (arith, read s e, zero-as_int s.count),
    λ h. ground arith,
    λ v h. ground (arith, read s e, as_int-zero s.count),
  )
]
  where
    read : (s : Semaphore) → search ptr p ≡ some s → sem_getvalue ptr p ≡ reads (as_int s.count)
    read s e = ground arith

    unread : search ptr p ≡ none → sem_getvalue ptr p ≡ fails einval
    unread e = ground arith

-- ===== src/Threads/Joining.antt =====
-- `dce_pthread_exit`, `dce_pthread_join` and `dce_pthread_detach` of model/dce-pthread.cc.
use ns_3_dce.Prelude.{
  ℕ, ◌≡◌, ◌≢◌, true, false, Option, none, some, List, [], ◌==◌, arith, if◌then◌else◌, length, refl,
  subst, sym, inl, inr, ◌∙◌, ap, Option-cases,
}
use ns_3_dce.ObjectTable.{find}
use ns_3_dce.Threads.{
  Process, Thread, success, einval, edeadlk, returns, joins, waits, process_exits, thread_exits,
  pid_of, tid_of, search_thread, put_thread, delete_thread, pthread_exit, pthread_join, join_again,
  join_or_wait, pthread_detach, pthread_to_pid, pthread_to_tid, cleanup_calls,
}
use ns_3_dce.Threads.Tables.{
  process_of_search, process_of_put, search-put_thread, delete-put_thread,
}

-- A thread that is not detached leaves this behind when it exits.
abbrev pub exited : ℕ → Thread → Thread
exited arg t = record t { key_values = []; has_exit_value = true; exit_value = arg; task = none }

-- A thread that another one waits for.
abbrev pub awaited : ℕ → Thread → Thread
awaited cur t = record t { join_waiter = some cur }

-- The process, if it is there, has not one thread alone.
abbrev pub HasOthers : ℕ → List Process → Type 0
HasOthers pid ps = (p : Process) → find pid_of pid ps ≡ some p → length p.threads ≢ 1

put-HasOthers :
    (pid tid : ℕ) (u t : Thread) (ps : List Process)
    → search_thread pid tid ps ≡ some t
    → HasOthers pid ps
    → HasOthers pid (put_thread pid u ps)
put-HasOthers pid tid u t ps f several r g =
    let (p, n, k, i, j) = process_of_search pid tid ps t f in
    let (q, m, l) = process_of_put pid u ps p n in
    let same : some q ≡ some r = sym m ∙ g in ground (arith, same, l, several p n)

module _ (pid tid : ℕ) (ps : List Process) (t : Thread) (found : search_thread pid tid ps ≡ some t)
    (several : HasOthers pid ps) where
  -- The exit of a thread of a process that has others.
  pub pthread_exit_lem :
      (arg : ℕ)
      → pthread_exit pid tid arg ps
        ≡ some (
            if t.is_detached
            then thread_exits (cleanup_calls t.key_values) none (delete_thread pid tid ps)
            else thread_exits
                (cleanup_calls t.key_values)
                t.join_waiter
                (put_thread pid (exited arg t) ps))
  unfolding pthread_exit
  pthread_exit_lem arg =
      let (p, n, k, i, j) = process_of_search pid tid ps t found in
      ground (arith, n, k, several p n)

module _ (pid cur handle : ℕ) (ps : List Process) (t : Thread)
    (same_process : pthread_to_pid handle ≡ pid) (other : cur ≢ pthread_to_tid handle)
    (found : search_thread pid (pthread_to_tid handle) ps ≡ some t)
    (attached : t.is_detached ≡ false) (unawaited : t.join_waiter ≡ none) where
  join_of_exited :
      t.has_exit_value ≡ true
      → pthread_join pid cur handle ps ≡ (joins t.exit_value, delete_thread pid t.tid ps)
  unfolding pthread_join join_or_wait
  join_of_exited x = ground arith

  join_of_running :
      t.has_exit_value ≡ false
      → pthread_join pid cur handle ps ≡ (waits, put_thread pid (awaited cur t) ps)
  unfolding pthread_join join_or_wait
  join_of_running x = ground arith

join_again_of_exited :
    (pid cur tid : ℕ) (ps : List Process) (t : Thread)
    → search_thread pid tid ps ≡ some t
    → t.is_detached ≡ false
    → t.has_exit_value ≡ true
    → join_again pid cur tid ps ≡ (joins t.exit_value, delete_thread pid t.tid ps)
unfolding join_again join_or_wait
join_again_of_exited pid cur tid ps t f d x = ground arith

-- Whether it is joined before it exits or after, a thread that is not detached and that nobody waits
-- for, of a process with other threads, gives its exit value to the thread that joins it, and is
-- deleted, and nothing else of the threads has changed: joined after, the join returns at once;
-- joined before, the join waits, the exit wakes the joining thread up, and the join returns then.
pub join_and_exit_commute :
    (pid cur arg handle : ℕ) (ps : List Process) (t : Thread)
    → pthread_to_pid handle ≡ pid
    → cur ≢ pthread_to_tid handle
    → search_thread pid (pthread_to_tid handle) ps ≡ some t
    → HasOthers pid ps
    → t.is_detached ≡ false
    → t.has_exit_value ≡ false
    → t.join_waiter ≡ none
    → let tid = pthread_to_tid handle in
      let calls = cleanup_calls t.key_values in
      let left = delete_thread pid tid ps in
      ((qs : List Process) × (pthread_exit pid tid arg ps ≡ some (thread_exits calls none qs))
        × (pthread_join pid cur handle qs ≡ (joins arg, left)))
      × ((qs rs : List Process) × (pthread_join pid cur handle ps ≡ (waits, qs))
          × (pthread_exit pid tid arg qs ≡ some (thread_exits calls (some cur) rs))
          × (join_again pid cur tid rs ≡ (joins arg, left)))
join_and_exit_commute pid cur arg handle ps t e h f several d x w =
    let tid : ℕ = pthread_to_tid handle in
    let (p, n, k, i, j) = process_of_search pid tid ps t f in
    let gone : List Process = put_thread pid (exited arg t) ps in
    let held : List Process = put_thread pid (awaited cur t) ps in
    let both : List Process = put_thread pid (exited arg (awaited cur t)) held in
    let found_gone = search-put_thread pid tid ps t f (exited arg t) j in
    let found_held = search-put_thread pid tid ps t f (awaited cur t) j in
    let found_both =
      search-put_thread pid tid held (awaited cur t) found_held (exited arg (awaited cur t)) j in
    let still = put-HasOthers pid tid (awaited cur t) t ps f several in
    let left = ap (λ u. delete_thread pid u ps) j in
    (
      (
        gone,
        ground (arith, pthread_exit_lem pid tid ps t f several arg),
        join_of_exited pid cur handle gone (exited arg t) e h found_gone d w refl
            ∙ ap (λ u. (joins arg, u)) (delete-put_thread pid (exited arg t) ps ∙ left),
      ),
      (
        held,
        both,
        join_of_running pid cur handle ps t e h f d w x,
        ground (arith, pthread_exit_lem pid tid held (awaited cur t) found_held still arg),
        join_again_of_exited pid cur tid both (exited arg (awaited cur t)) found_both d refl
            ∙ ap (λ u. (joins arg, u))
                (delete-put_thread pid (exited arg (awaited cur t)) held
                  ∙ delete-put_thread pid (awaited cur t) ps
                  ∙ left),
      ),
    )

-- What holds when a join waits.
pub join_waits :
    (pid cur handle : ℕ) (ps qs : List Process)
    → pthread_join pid cur handle ps ≡ (waits, qs)
    → (t : Thread) × (pthread_to_pid handle ≡ pid)
      × (search_thread pid (pthread_to_tid handle) ps ≡ some t)
      × (t.is_detached ≡ false)
      × (t.has_exit_value ≡ false)
      × (qs ≡ put_thread pid (awaited cur t) ps)
unfolding pthread_join join_or_wait
join_waits pid cur handle ps qs e =
    let h : pthread_to_pid handle ≡ pid = ground arith in
    elim (Option-cases (search_thread pid (pthread_to_tid handle) ps)) [
      | inl n ↦ absurd (ground (arith, n, h))
      | inr (t, n) ↦ (t, h, n, ground (arith, h, n), ground (arith, h, n), ground (arith, h, n))
    ]

-- While a thread waits for another one of its process, no other join of that one has an effect, and
-- fails with `EINVAL`, or `EDEADLK` for the thread itself; and a detach of it reports success, and
-- has none either.
pub one_joiner :
    (pid cur rival handle : ℕ) (ps qs : List Process)
    → pthread_join pid cur handle ps ≡ (waits, qs)
    → (pthread_join pid rival handle qs
        ≡ (returns (if rival == pthread_to_tid handle then edeadlk else einval), qs))
      × (pthread_detach handle qs ≡ (success, qs))
unfolding pthread_join pthread_detach
one_joiner pid cur rival handle ps qs e =
    let (t, h, f, d, x, g) = join_waits pid cur handle ps qs e in
    let (p, n, k, i, j) = process_of_search pid (pthread_to_tid handle) ps t f in
    let found = search-put_thread pid (pthread_to_tid handle) ps t f (awaited cur t) j in
    let r = ap (search_thread pid (pthread_to_tid handle)) g ∙ found in
    (ground (arith, h, r, d), ground (arith, h, r, d))

exit_with_others :
    (pid tid arg : ℕ) (ps : List Process)
    → HasOthers pid ps
    → pthread_exit pid tid arg ps ≢ some process_exits
unfolding pthread_exit
exit_with_others pid tid arg ps several e = elim (Option-cases (find pid_of pid ps)) [
  | inl n ↦ ground (arith, n)
  | inr (p, n) ↦ elim (Option-cases (find tid_of tid p.threads)) [
    | inl m ↦ ground (arith, n, m)
    | inr (t, m) ↦ ground (arith, n, m, several p n)
  ]
]

-- An exited thread that nobody has joined, or that is detached only then, stays one of its process:
-- after it, the exit of another thread is never the exit of the process, even when all have exited.
pub exited_thread_counts :
    (pid tid last arg other : ℕ) (ps qs : List Process) (t : Thread) (calls : List (ℕ × ℕ))
    (waiter : Option ℕ)
    → search_thread pid tid ps ≡ some t
    → HasOthers pid ps
    → t.is_detached ≡ false
    → pthread_exit pid tid arg ps ≡ some (thread_exits calls waiter qs)
    → pthread_exit pid last other qs ≢ some process_exits
exited_thread_counts pid tid last arg other ps qs t calls waiter f several d e =
    let gone : qs ≡ put_thread pid (exited arg t) ps =
      ground (arith, pthread_exit_lem pid tid ps t f several arg) in
    let still = put-HasOthers pid tid (exited arg t) t ps f several in
    exit_with_others pid last other qs (subst (HasOthers pid) (sym gone) still)

-- ===== src/Threads/Creating.antt =====
-- `dce_pthread_create`, `dce_pthread_self` and `dce_pthread_once` of model/dce-pthread.cc.
use ns_3_dce.Prelude.{
  ℕ, ◌<◌, ◌≡◌, ◌≢◌, false, Option, none, some, List, [], ◌∷◌, ◌++◌, arith, refl, sym, inl, inr, ◌∙◌,
  ap, Option-cases,
}
use ns_3_dce.ObjectTable.{find, find-append, find-id}
use ns_3_dce.Threads.{
  Process, Thread, success, pid_of, tid_of, u16_mod, on_process, search_thread, create_thread,
  new_thread, allocate_tid, first_task, copied_keys, pthread_create, pthread_self, pthread_once,
  pthread_to_pid, pthread_to_tid, pid_tid_to_pthread, first_free, is_some,
}
use ns_3_dce.Threads.Ids.{handle_gives_ids, first_free-some, not_some}
use ns_3_dce.Threads.Tables.{search_found, search-on_process}

-- The handle that the creation of a thread gives, in a process whose pid is a 16-bit number, finds a
-- thread that was not there before, is neither detached nor has an exit value, and that nobody waits
-- for; it is the handle that the thread itself reads; and its tid is a 16-bit number.
pub create_then_search :
    (task pid handle : ℕ) (ps qs : List Process)
    → pid < u16_mod
    → pthread_create task pid ps ≡ some (handle, qs)
    → (t : Thread) × (search_thread (pthread_to_pid handle) (pthread_to_tid handle) qs ≡ some t)
      × (search_thread (pthread_to_pid handle) (pthread_to_tid handle) ps ≡ none)
      × (t.is_detached ≡ false)
      × (t.has_exit_value ≡ false)
      × (t.join_waiter ≡ none)
      × (t.tid < u16_mod)
      × (pthread_self pid t ≡ handle)
unfolding pthread_create create_thread allocate_tid new_thread pthread_self
create_then_search task pid handle ps qs h e = elim (Option-cases (find pid_of pid ps)) [
  | inl n ↦ absurd (ground (arith, n))
  | inr (p, n) ↦
      elim (Option-cases (first_free (λ tid. is_some (find tid_of tid p.threads)) 65535 0)) [
        | inl m ↦ absurd (ground (arith, n, m))
        | inr (tid, m) ↦
            let (free, _, hi, _) =
              first_free-some (λ k. is_some (find tid_of k p.threads)) 65535 0 tid m in
            let t : Thread = new_thread tid task (copied_keys p.threads) in
            let none_before = not_some (find tid_of tid p.threads) free in
            elim (Option-cases (first_task (p.threads ++ t ∷ []))) [
              | inl z ↦ absurd (ground (arith, n, m, z))
              | inr (_, z) ↦
                  let small : tid < u16_mod = omega (arith, hi) in
                  let same : pid_tid_to_pthread pid tid ≡ handle = ground (arith, n, m, z) in
                  let made : qs
                      ≡ on_process (λ x. record x { threads = p.threads ++ t ∷ [] }) pid ps =
                    ground (arith, n, m, z) in
                  let (to_pid, to_tid) = handle_gives_ids pid tid h small in
                  let its_pid : pthread_to_pid handle ≡ pid =
                    ap pthread_to_pid (sym same) ∙ to_pid in
                  let its_tid : pthread_to_tid handle ≡ tid =
                    ap pthread_to_tid (sym same) ∙ to_tid in
                  let at : (rs : List Process)
                      → search_thread (pthread_to_pid handle) (pthread_to_tid handle) rs
                        ≡ search_thread pid tid rs =
                    λ rs.
                      ap (λ x. search_thread x (pthread_to_tid handle) rs) its_pid
                      ∙ ap (λ x. search_thread pid x rs) its_tid in
                  (
                    t,
                    at qs
                        ∙ ap (search_thread pid tid) made
                        ∙ search-on_process (λ x. record x { threads = p.threads ++ t ∷ [] }) pid
                            tid ps p n (find-id pid_of pid ps p n)
                        ∙ ground (arith, find-append tid_of tid p.threads t none_before),
                    at ps ∙ search_found pid tid ps p n ∙ none_before,
                    refl,
                    refl,
                    refl,
                    small,
                    same,
                  )
            ]
      ]
]

-- Two calls of `pthread_once` with the same control word, not 1 before, and routines that are not null:
-- the first has its routine called and sets the word, the second calls nothing; both report success.
pub once_runs_once :
    (once init again : ℕ)
    → once ≢ 1
    → init ≢ 0
    → again ≢ 0
    → (word : Option ℕ) × (pthread_once (some once) init ≡ (success, some init, word))
      × (pthread_once word again ≡ (success, none, word))
unfolding pthread_once
once_runs_once once init again h i a = (some 1, ground arith, ground arith)

-- ===== src/Threads/Tables.antt =====
-- The maps and vectors of model/dce-manager.cc that hold processes and threads.
use ns_3_dce.Prelude.{
  ℕ, ◌≡◌, ◌≢◌, Option, none, some, List, [], ◌∷◌, arith, length, refl, sym, inl, inr, ◌⊎◌, ◌∙◌, ap,
  Option-cases,
}
use ns_3_dce.ObjectTable.{
  find, store, erase, find-id, find-store_ne, find-store_self, find-erase_ne,
}
use ns_3_dce.Threads.{
  Process, Thread, pid_of, tid_of, on_process, search_thread, put_thread, delete_thread,
}

-- What a process becomes, when it is there.
pub find-on_process :
    (f : Process → Process) (pid : ℕ) (ps : List Process) (p : Process)
    → find pid_of pid ps ≡ some p
    → (f p).pid ≡ pid
    → find pid_of pid (on_process f pid ps) ≡ some (f p)
unfolding find on_process
find-on_process f pid [] p e n = cc
find-on_process f pid (x ∷ ps) p e n = ground (arith, find-on_process f pid ps p)

pub find-on_process_ne :
    (f : Process → Process) (pid k : ℕ) (ps : List Process)
    → ((p : Process) → (f p).pid ≡ p.pid)
    → pid ≢ k
    → find pid_of k (on_process f pid ps) ≡ find pid_of k ps
unfolding find on_process
find-on_process_ne f pid k [] n h = refl
find-on_process_ne f pid k (x ∷ ps) n h = ground (arith, n x, find-on_process_ne f pid k ps n h)

abbrev thread_in : ℕ → Option Process → Option Thread
thread_in tid none = none
thread_in tid (some p) = find tid_of tid p.threads

search_in :
    (pid tid : ℕ) (ps : List Process)
    → search_thread pid tid ps ≡ thread_in tid (find pid_of pid ps)
unfolding search_thread
search_in pid tid ps = elim (Option-cases (find pid_of pid ps)) [
  | inl n ↦ ground (arith, n)
  | inr (p, n) ↦ ground (arith, n)
]

pub search_found :
    (pid tid : ℕ) (ps : List Process) (p : Process)
    → find pid_of pid ps ≡ some p
    → search_thread pid tid ps ≡ find tid_of tid p.threads
search_found pid tid ps p e = search_in pid tid ps ∙ ap (thread_in tid) e

module _ (pid tid : ℕ) (ps : List Process) (t : Thread)
    (found : search_thread pid tid ps ≡ some t) where
  -- The process of a thread that was found.
  pub process_of_search :
      (p : Process) × (find pid_of pid ps ≡ some p)
      × (find tid_of tid p.threads ≡ some t)
      × (p.pid ≡ pid)
      × (t.tid ≡ tid)
  process_of_search = elim (Option-cases (find pid_of pid ps)) [
    | inl n ↦ cc (search_in pid tid ps)
    | inr (p, n) ↦
        let e : find tid_of tid p.threads ≡ some t = sym (search_found pid tid ps p n) ∙ found in
        (p, n, e, find-id pid_of pid ps p n, find-id tid_of tid p.threads t e)
  ]

  pub search-put_thread :
      (u : Thread) → u.tid ≡ tid → search_thread pid tid (put_thread pid u ps) ≡ some u
  unfolding put_thread
  search-put_thread u e =
      let (p, n, k, i, j) = process_of_search in
      let f : Process → Process = λ q. record q { threads = store tid_of u q.threads } in
      let s : find tid_of u.tid (store tid_of u p.threads) ≡ some u =
        find-store_self tid_of u t p.threads (ap (λ w. find tid_of w p.threads) e ∙ k) in
      search_found pid tid (on_process f pid ps) (f p) (find-on_process f pid ps p n i)
      ∙ ap (λ w. find tid_of w (store tid_of u p.threads)) (sym e)
      ∙ s

-- The threads of a process after a change of it.
pub search-on_process :
    (f : Process → Process) (pid tid : ℕ) (ps : List Process) (p : Process)
    → find pid_of pid ps ≡ some p
    → (f p).pid ≡ pid
    → search_thread pid tid (on_process f pid ps) ≡ find tid_of tid (f p).threads
search-on_process f pid tid ps p e n =
    search_found pid tid (on_process f pid ps) (f p) (find-on_process f pid ps p e n)

thread_in-on_process :
    (f : Process → Process) (pid k j : ℕ) (ps : List Process)
    → ((p : Process) → (f p).pid ≡ p.pid)
    → ((p : Process) → find tid_of j (f p).threads ≡ find tid_of j p.threads)
    → thread_in j (find pid_of k (on_process f pid ps)) ≡ thread_in j (find pid_of k ps)
unfolding find on_process
thread_in-on_process f pid k j [] n h = refl
thread_in-on_process f pid k j (x ∷ ps) n h =
    ground (arith, n x, h x, thread_in-on_process f pid k j ps n h)

-- Another thread is found as before a change that leaves its process its pid and its threads but one.
pub search-on_process_ne :
    (f : Process → Process) (pid k j : ℕ) (ps : List Process)
    → ((p : Process) → (f p).pid ≡ p.pid)
    → (pid ≢ k) ⊎ ((p : Process) → find tid_of j (f p).threads ≡ find tid_of j p.threads)
    → search_thread k j (on_process f pid ps) ≡ search_thread k j ps
search-on_process_ne f pid k j ps n (inl h) =
    search_in k j (on_process f pid ps)
    ∙ ap (thread_in j) (find-on_process_ne f pid k ps n h)
    ∙ sym (search_in k j ps)
search-on_process_ne f pid k j ps n (inr h) =
    search_in k j (on_process f pid ps)
    ∙ thread_in-on_process f pid k j ps n h
    ∙ sym (search_in k j ps)

-- Other threads are found as before.
pub search-put_thread_ne :
    (pid k j : ℕ) (u : Thread) (ps : List Process)
    → (pid ≢ k) ⊎ (u.tid ≢ j)
    → search_thread k j (put_thread pid u ps) ≡ search_thread k j ps
unfolding put_thread
search-put_thread_ne pid k j u ps h =
    search-on_process_ne (λ q. record q { threads = store tid_of u q.threads }) pid k j ps
      (λ _. refl)
      (elim h [ inl n ↦ inl n | inr n ↦ inr (λ p. find-store_ne tid_of j u p.threads n) ])

pub search-delete_thread_ne :
    (pid tid k j : ℕ) (ps : List Process)
    → (pid ≢ k) ⊎ (tid ≢ j)
    → search_thread k j (delete_thread pid tid ps) ≡ search_thread k j ps
unfolding delete_thread
search-delete_thread_ne pid tid k j ps h =
    search-on_process_ne (λ q. record q { threads = erase tid_of tid q.threads }) pid k j ps
      (λ _. refl)
      (elim h [ inl n ↦ inl n | inr n ↦ inr (λ p. find-erase_ne tid_of j tid p.threads n) ])

-- What is left at a tid after the first thread of that tid goes: nothing when tids are distinct.
pub search-delete_thread :
    (pid tid : ℕ) (ps : List Process) (p : Process)
    → find pid_of pid ps ≡ some p
    → search_thread pid tid (delete_thread pid tid ps)
      ≡ find tid_of tid (erase tid_of tid p.threads)
unfolding delete_thread
search-delete_thread pid tid ps p e =
    search-on_process (λ q. record q { threads = erase tid_of tid q.threads }) pid tid ps p e
      (find-id pid_of pid ps p e)

on_process-on_process :
    (f g h : Process → Process) (pid : ℕ) (ps : List Process)
    → ((p : Process) → (g p).pid ≡ p.pid)
    → ((p : Process) → f (g p) ≡ h p)
    → on_process f pid (on_process g pid ps) ≡ on_process h pid ps
unfolding on_process
on_process-on_process f g h pid [] n e = refl
on_process-on_process f g h pid (x ∷ ps) n e =
    ground (arith, n x, e x, on_process-on_process f g h pid ps n e)

erase-store :
    (k : ℕ) (u : Thread) (ts : List Thread)
    → u.tid ≡ k
    → erase tid_of k (store tid_of u ts) ≡ erase tid_of k ts
unfolding erase store
erase-store k u [] e = refl
erase-store k u (x ∷ ts) e = ground (arith, erase-store k u ts e)

store-store :
    (u v : Thread) (ts : List Thread)
    → u.tid ≡ v.tid
    → store tid_of v (store tid_of u ts) ≡ store tid_of v ts
unfolding store
store-store u v [] e = refl
store-store u v (x ∷ ts) e = ground (arith, store-store u v ts e)

-- A thread that is deleted takes with it what was stored in it.
pub delete-put_thread :
    (pid : ℕ) (u : Thread) (ps : List Process)
    → delete_thread pid u.tid (put_thread pid u ps) ≡ delete_thread pid u.tid ps
unfolding delete_thread put_thread
delete-put_thread pid u ps =
    on_process-on_process (λ q. record q { threads = erase tid_of u.tid q.threads })
      (λ q. record q { threads = store tid_of u q.threads })
      (λ q. record q { threads = erase tid_of u.tid q.threads }) pid ps (λ _. refl)
      (λ p. ap (λ l. record p { threads = l }) (erase-store u.tid u p.threads refl))

-- The later of two changes of a thread stands.
pub put-put_thread :
    (pid : ℕ) (u v : Thread) (ps : List Process)
    → u.tid ≡ v.tid
    → put_thread pid v (put_thread pid u ps) ≡ put_thread pid v ps
unfolding put_thread
put-put_thread pid u v ps e =
    on_process-on_process (λ q. record q { threads = store tid_of v q.threads })
      (λ q. record q { threads = store tid_of u q.threads })
      (λ q. record q { threads = store tid_of v q.threads }) pid ps (λ _. refl)
      (λ p. ap (λ l. record p { threads = l }) (store-store u v p.threads e))

length-store : (u : Thread) (ts : List Thread) → length (store tid_of u ts) ≡ length ts
unfolding store
length-store u [] = refl
length-store u (x ∷ ts) = ground (arith, length-store u ts)

-- Processes keep the number of their threads.
pub process_of_put :
    (pid : ℕ) (u : Thread) (ps : List Process) (p : Process)
    → find pid_of pid ps ≡ some p
    → (q : Process) × (find pid_of pid (put_thread pid u ps) ≡ some q)
      × (length q.threads ≡ length p.threads)
unfolding put_thread
process_of_put pid u ps p e = (
  record p { threads = store tid_of u p.threads },
  find-on_process (λ q. record q { threads = store tid_of u q.threads }) pid ps p e
      (find-id pid_of pid ps p e),
  length-store u p.threads,
)

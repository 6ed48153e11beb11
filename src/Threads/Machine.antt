-- ===== src/Threads/Machine.antt =====
-- The calls of model/dce-pthread.cc as steps on the threads of a node, while one thread waits in
-- `dce_pthread_join` for another.
use ns_3_dce.Prelude.{
  ℕ, ◌≡◌, ◌≢◌, ◌⊎◌, Bool, true, false, ◌||◌, Option, none, some, List, [], ◌∷◌, ◌++◌, ◌==◌, arith,
  if◌then◌else◌, update, refl, subst, sym, inl, inr, ◌∙◌, ap, Bool-cases, Option-cases,
}
use ns_3_dce.ObjectTable.{find, find-append_some, find-id}
use ns_3_dce.Threads.{
  Process, Thread, Code, Pass, waits, thread_exits, pid_of, tid_of, on_process, search_thread,
  put_thread, delete_thread, create_thread, allocate_tid, first_task, pthread_create, pthread_exit,
  pthread_join, join_again, join_or_wait, pthread_detach, pthread_kill, pthread_to_pid,
  pthread_to_tid, is_some, joins,
}
use ns_3_dce.Threads.Tables.{
  search_found, process_of_search, search-put_thread, search-put_thread_ne, search-delete_thread_ne,
  search-on_process, search-on_process_ne,
}
use ns_3_dce.Threads.Joining.{join_waits, awaited}

-- The thread of that pid and tid is there, not detached, and `cur` waits for it.
pub IsAwaited : ℕ → ℕ → ℕ → List Process → Type 0
IsAwaited pid tid cur ps =
    (t : Thread) × (search_thread pid tid ps ≡ some t)
    × (t.join_waiter ≡ some cur)
    × (t.is_detached ≡ false)

-- A call that ends, of any thread of any process, but for the return of the thread that waits for
-- the thread of that pid and tid.
pub data Step (pid tid : ℕ) : List Process → List Process → Type 0 where
  created :
      (k task handle : ℕ) (ps qs : List Process)
      → pthread_create task k ps ≡ some (handle, qs)
      → Step pid tid ps qs
  exits :
      (k j arg : ℕ) (calls : List (ℕ × ℕ)) (woken : Option ℕ) (ps qs : List Process)
      → pthread_exit k j arg ps ≡ some (thread_exits calls woken qs)
      → Step pid tid ps qs
  joined :
      (k c handle : ℕ) (r : Pass) (ps qs : List Process)
      → pthread_join k c handle ps ≡ (r, qs)
      → Step pid tid ps qs
  joined_again :
      (k c j : ℕ) (r : Pass) (ps qs : List Process)
      → (k ≢ pid) ⊎ (j ≢ tid)
      → join_again k c j ps ≡ (r, qs)
      → Step pid tid ps qs
  detached :
      (handle : ℕ) (code : Code) (ps qs : List Process)
      → pthread_detach handle ps ≡ (code, qs)
      → Step pid tid ps qs
  killed :
      (blocked : ℕ → Bool) (handle sig : ℕ) (code : Code) (woken : Option ℕ) (ps qs : List Process)
      → pthread_kill blocked handle sig ps ≡ some (code, woken, qs)
      → Step pid tid ps qs

pub data Steps (pid tid : ℕ) : List Process → List Process → Type 0 where
  stay : (ps : List Process) → Steps pid tid ps ps
  next : (ps qs rs : List Process) → Step pid tid ps qs → Steps pid tid qs rs → Steps pid tid ps rs

same_or_not : (a b k j : ℕ) → ((a ≡ k) × (b ≡ j)) ⊎ ((a ≢ k) ⊎ (b ≢ j))
same_or_not a b k j = ground arith

create_thread-threads :
    (task : ℕ) (p : Process) (t : Thread) (q : Process)
    → create_thread task p ≡ some (t, q)
    → q.threads ≡ p.threads ++ t ∷ []
unfolding create_thread
create_thread-threads task p t q e = elim (Option-cases (allocate_tid p)) [
  | inl n ↦ absurd (ground (arith, n))
  | inr (k, n) ↦ ground (arith, n)
]

module _ (pid tid cur : ℕ) (ps : List Process) (w : IsAwaited pid tid cur ps) where
  -- Another thread is changed, or this one but for its waiter and its state.
  put_other :
      (k j : ℕ) (u : Thread)
      → (u.tid ≡ j)
      → (k ≢ pid) ⊎ (j ≢ tid)
      → IsAwaited pid tid cur (put_thread k u ps)
  unfolding IsAwaited
  put_other k j u e h =
      let (t, f, a, d) = w in
      (
        t,
        search-put_thread_ne k pid tid u ps
              (elim h [ inl n ↦ inl n | inr n ↦ inr (ground (arith, n, e)) ])
            ∙ f,
        a,
        d,
      )

  put_same :
      (k j : ℕ) (s u : Thread)
      → search_thread k j ps ≡ some s
      → u.tid ≡ s.tid
      → u.join_waiter ≡ s.join_waiter
      → u.is_detached ≡ s.is_detached
      → IsAwaited pid tid cur (put_thread k u ps)
  unfolding IsAwaited
  put_same k j s u f e a d = elim (same_or_not k j pid tid) [
    | inl (m, n) ↦
        let (t, g, b, c) = w in
        let (p, x, y, v, z) = process_of_search k j ps s f in
        let r : some s ≡ some t =
          sym f ∙ ap (λ x. search_thread x j ps) m ∙ ap (λ x. search_thread pid x ps) n ∙ g in
        let here : search_thread pid tid (put_thread k u ps) ≡ some u =
          ap (λ x. search_thread x tid (put_thread k u ps)) (sym m)
          ∙ ap (λ x. search_thread k x (put_thread k u ps)) (sym n)
          ∙ search-put_thread k j ps s f u (e ∙ z) in
        (u, here, ground (arith, r), ground (arith, r))
    | inr h ↦ put_other k j u (e ∙ (process_of_search k j ps s f).4) h
  ]

  delete_other : (k j : ℕ) → (k ≢ pid) ⊎ (j ≢ tid) → IsAwaited pid tid cur (delete_thread k j ps)
  unfolding IsAwaited
  delete_other k j h =
      let (t, f, a, d) = w in (t, search-delete_thread_ne k j pid tid ps h ∙ f, a, d)

  -- What is not awaited, or detached, is another thread.
  is_other :
      (k j : ℕ) (s : Thread)
      → search_thread k j ps ≡ some s
      → (s.join_waiter ≡ none) ⊎ (s.is_detached ≡ true)
      → (k ≢ pid) ⊎ (j ≢ tid)
  unfolding IsAwaited
  is_other k j s f h = elim (same_or_not k j pid tid) [
    | inl (m, n) ↦
        let (t, g, a, d) = w in
        let e : some s ≡ some t =
          sym f ∙ ap (λ x. search_thread x j ps) m ∙ ap (λ x. search_thread pid x ps) n ∙ g in
        absurd (ground (arith, e))
    | inr h ↦ h
  ]

  after_exit :
      (k j arg : ℕ) (calls : List (ℕ × ℕ)) (woken : Option ℕ) (qs : List Process)
      → pthread_exit k j arg ps ≡ some (thread_exits calls woken qs)
      → IsAwaited pid tid cur qs
  unfolding pthread_exit
  after_exit k j arg calls woken qs e = elim (Option-cases (find pid_of k ps)) [
    | inl n ↦ absurd (ground (arith, n))
    | inr (p, n) ↦ elim (Option-cases (find tid_of j p.threads)) [
      | inl m ↦ absurd (ground (arith, n, m))
      | inr (t, m) ↦
          let f = search_found k j ps p n ∙ m in
          elim (Bool-cases t.is_detached) [
            | inl d ↦
                let g : qs ≡ delete_thread k j ps = ground (arith, n, m, d) in
                subst (IsAwaited pid tid cur) (sym g) (delete_other k j (is_other k j t f (inr d)))
            | inr d ↦
                let u : Thread = record t {
                  key_values = [];
                  has_exit_value = true;
                  exit_value = arg;
                  task = none;
                } in
                let g : qs ≡ put_thread k u ps = ground (arith, n, m, d) in
                subst (IsAwaited pid tid cur) (sym g) (put_same k j t u f refl refl refl)
          ]
    ]
  ]

  carry : (qs rs : List Process) → qs ≡ rs → IsAwaited pid tid cur rs → IsAwaited pid tid cur qs
  carry qs rs e v = subst (IsAwaited pid tid cur) (sym e) v

  after_loop :
      (k c j : ℕ) (t : Thread)
      → t.tid ≡ j
      → (k ≢ pid) ⊎ (j ≢ tid)
      → IsAwaited pid tid cur (join_or_wait k c t ps).1
  unfolding join_or_wait
  after_loop k c j t e h = elim (Bool-cases t.has_exit_value) [
    | inl x ↦ elim (Bool-cases t.is_detached) [
      | inl y ↦ carry (join_or_wait k c t ps).1 ps (ground (arith, x, y)) w
      | inr y ↦
          carry (join_or_wait k c t ps).1 (delete_thread k t.tid ps) (ground (arith, x, y))
            (delete_other k t.tid (elim h [ inl n ↦ inl n | inr n ↦ inr (λ q. n (sym e ∙ q)) ]))
    ]
    | inr x ↦
        let u : Thread = record t { join_waiter = some c } in
        carry (join_or_wait k c t ps).1 (put_thread k u ps) (ground (arith, x))
          (put_other k j u e h)
  ]

  after_join :
      (k c handle : ℕ) (r : Pass) (qs : List Process)
      → pthread_join k c handle ps ≡ (r, qs)
      → IsAwaited pid tid cur qs
  unfolding pthread_join
  after_join k c handle r qs e = elim (Bool-cases (k == pthread_to_pid handle)) [
    | inr h ↦ carry qs ps (ground (arith, h)) w
    | inl h ↦
        let same : pthread_to_pid handle ≡ k = ground (arith, h) in
        elim (Bool-cases (c == pthread_to_tid handle)) [
          | inl o ↦ carry qs ps (ground (arith, h, o)) w
          | inr o ↦ elim (Option-cases (search_thread k (pthread_to_tid handle) ps)) [
            | inl n ↦ carry qs ps (ground (arith, h, o, n, same)) w
            | inr (t, n) ↦ elim (Bool-cases (t.is_detached || is_some t.join_waiter)) [
              | inl d ↦ carry qs ps (ground (arith, h, o, n, same, d)) w
              | inr d ↦ carry qs (join_or_wait k c t ps).1 (ground (arith, h, o, n, same, d)) (
                  after_loop k c (pthread_to_tid handle) t
                    (process_of_search k (pthread_to_tid handle) ps t n).4
                    (is_other k (pthread_to_tid handle) t n (inl (ground (arith, d)))))
            ]
          ]
        ]
  ]

  after_join_again :
      (k c j : ℕ) (r : Pass) (qs : List Process)
      → (k ≢ pid) ⊎ (j ≢ tid)
      → join_again k c j ps ≡ (r, qs)
      → IsAwaited pid tid cur qs
  unfolding join_again
  after_join_again k c j r qs h e = elim (Option-cases (search_thread k j ps)) [
    | inl n ↦ carry qs ps (ground (arith, n)) w
    | inr (t, n) ↦
        let u : Thread = record t { join_waiter = none } in
        carry qs (join_or_wait k c u ps).1 (ground (arith, n))
          (after_loop k c j u (process_of_search k j ps t n).4 h)
  ]

  after_detach :
      (handle : ℕ) (code : Code) (qs : List Process)
      → pthread_detach handle ps ≡ (code, qs)
      → IsAwaited pid tid cur qs
  unfolding pthread_detach
  after_detach handle code qs e =
      let k : ℕ = pthread_to_pid handle in
      let j : ℕ = pthread_to_tid handle in
      elim (Option-cases (search_thread k j ps)) [
        | inl n ↦ carry qs ps (ground (arith, n)) w
        | inr (t, n) ↦ elim (Bool-cases (t.is_detached || is_some t.join_waiter)) [
          | inl d ↦ carry qs ps (ground (arith, n, d)) w
          | inr d ↦
              let u : Thread = record t { is_detached = true } in
              carry qs (put_thread k u ps) (ground (arith, n, d)) (
                put_other k j u (process_of_search k j ps t n).4
                  (is_other k j t n (inl (ground (arith, d)))))
        ]
      ]

  after_kill :
      (blocked : ℕ → Bool) (handle sig : ℕ) (code : Code) (woken : Option ℕ) (qs : List Process)
      → pthread_kill blocked handle sig ps ≡ some (code, woken, qs)
      → IsAwaited pid tid cur qs
  unfolding pthread_kill
  after_kill blocked handle sig code woken qs e =
      let k : ℕ = pthread_to_pid handle in
      let j : ℕ = pthread_to_tid handle in
      elim (Option-cases (search_thread k j ps)) [
        | inl n ↦ carry qs ps (ground (arith, n)) w
        | inr (t, n) ↦
            let u : Thread = record t { pending = update t.pending sig true } in
            carry qs (put_thread k u ps) (ground (arith, n)) (put_same k j t u n refl refl refl)
      ]

  after_append :
      (k : ℕ) (p : Process) (t : Thread) (q : Process)
      → find pid_of k ps ≡ some p
      → q.threads ≡ p.threads ++ t ∷ []
      → IsAwaited pid tid cur (on_process (λ x. record x { threads = q.threads }) k ps)
  unfolding IsAwaited
  after_append k p t q n m =
      let (u, f, a, d) = w in
      let change : Process → Process = λ x. record x { threads = q.threads } in
      let seen : search_thread pid tid (on_process change k ps) ≡ some u =
        elim (same_or_not k 0 pid 0) [
          | inl (i, _) ↦
              let n' : find pid_of pid ps ≡ some p = ap (λ x. find pid_of x ps) (sym i) ∙ n in
              ap (λ x. search_thread pid tid (on_process change x ps)) i
              ∙ search-on_process change pid tid ps p n' (find-id pid_of pid ps p n')
              ∙ ap (find tid_of tid) m
              ∙ find-append_some tid_of tid p.threads (t ∷ []) u
                  (sym (search_found pid tid ps p n') ∙ f)
          | inr h ↦
              search-on_process_ne change k pid tid ps (λ _. refl)
                (inl (elim h [ inl i ↦ i | inr i ↦ absurd (i refl) ]))
              ∙ f
        ] in
      (u, seen, a, d)

  after_create :
      (k task handle : ℕ) (qs : List Process)
      → pthread_create task k ps ≡ some (handle, qs)
      → IsAwaited pid tid cur qs
  unfolding pthread_create
  after_create k task handle qs e = elim (Option-cases (find pid_of k ps)) [
    | inl n ↦ absurd (ground (arith, n))
    | inr (p, n) ↦ elim (Option-cases (create_thread task p)) [
      | inl m ↦ absurd (ground (arith, n, m))
      | inr ((t, q), m) ↦ elim (Option-cases (first_task q.threads)) [
        | inl z ↦ absurd (ground (arith, n, m, z))
        | inr (_, z) ↦
            carry qs (on_process (λ x. record x { threads = q.threads }) k ps)
              (ground (arith, n, m, z))
              (after_append k p t q n (create_thread-threads task p t q m))
      ]
    ]
  ]

goes_on_after :
    (pid tid cur : ℕ) (ps qs : List Process)
    → Step pid tid ps qs
    → IsAwaited pid tid cur ps
    → IsAwaited pid tid cur qs
goes_on_after pid tid cur ps qs (created k task handle _ _ e) w =
    after_create pid tid cur ps w k task handle qs e
goes_on_after pid tid cur ps qs (exits k j arg calls woken _ _ e) w =
    after_exit pid tid cur ps w k j arg calls woken qs e
goes_on_after pid tid cur ps qs (joined k c handle r _ _ e) w =
    after_join pid tid cur ps w k c handle r qs e
goes_on_after pid tid cur ps qs (joined_again k c j r _ _ h e) w =
    after_join_again pid tid cur ps w k c j r qs h e
goes_on_after pid tid cur ps qs (detached handle code _ _ e) w =
    after_detach pid tid cur ps w handle code qs e
goes_on_after pid tid cur ps qs (killed blocked handle sig code woken _ _ e) w =
    after_kill pid tid cur ps w blocked handle sig code woken qs e

goes_on_waiting :
    (pid tid cur : ℕ) (ps qs : List Process)
    → Steps pid tid ps qs
    → IsAwaited pid tid cur ps
    → IsAwaited pid tid cur qs
goes_on_waiting pid tid cur ps qs (stay _) w = w
goes_on_waiting pid tid cur ps qs (next _ q _ h t) w =
    goes_on_waiting pid tid cur q qs t (goes_on_after pid tid cur ps q h w)

-- A thread that waits in a join, and runs again after any of these calls by the others, finds the thread that
-- it waits for: no assertion fails, and the join either goes on waiting or returns the exit value.
pub awaited_thread_stays :
    (pid cur handle : ℕ) (ps held qs : List Process)
    → pthread_join pid cur handle ps ≡ (waits, held)
    → Steps pid (pthread_to_tid handle) held qs
    → (t : Thread) × (search_thread pid (pthread_to_tid handle) qs ≡ some t)
      × (t.join_waiter ≡ some cur)
      × ((join_again pid cur (pthread_to_tid handle) qs).0
          ≡ (if t.has_exit_value then joins t.exit_value else waits))
unfolding IsAwaited join_again join_or_wait
awaited_thread_stays pid cur handle ps held qs e steps =
    let (t, h, f, d, x, g) = join_waits pid cur handle ps held e in
    let tid : ℕ = pthread_to_tid handle in
    let found =
      search-put_thread pid tid ps t f (awaited cur t) (process_of_search pid tid ps t f).4 in
    let start : IsAwaited pid tid cur held =
      subst (IsAwaited pid tid cur) (sym g) (awaited cur t, found, refl, d) in
    let (u, n, a, b) = goes_on_waiting pid tid cur held qs steps start in
    (u, n, a, ground (arith, n, b))

-- ===== src/Threads/Ids.antt =====
-- Handles, tids and pids of model/dce-pthread.cc and model/dce-manager.cc.
use ns_3_dce.Prelude.{
  ℕ, zero, suc, ◌+◌, ◌%◌, ◌≤◌, ◌<◌, ◌≡◌, ◌≢◌, Bool, true, false, Option, none, some, List, [], ◌∷◌,
  map, arith, length, refl, sym, inl, inr, ◌∙◌, ap, Bool-cases, Option-cases, count, remove,
  count-remove,
}
use ns_3_dce.ObjectTable.{find}
use ns_3_dce.Threads.{
  Process, pid_of, tid_of, pthread_to_tid, pthread_to_pid, pid_tid_to_pthread, u16_mod, first_free,
  seek_pid, allocate_tid, allocate_pid, is_some,
}

-- The handle of a thread gives back its pid and its tid, when both are 16-bit numbers.
pub handle_gives_ids :
    (pid tid : ℕ)
    → pid < u16_mod
    → tid < u16_mod
    → let handle = pid_tid_to_pthread pid tid in
      (pthread_to_pid handle ≡ pid) × (pthread_to_tid handle ≡ tid)
unfolding pthread_to_pid pthread_to_tid pid_tid_to_pthread
handle_gives_ids pid tid p t = (omega arith, omega arith)

-- The number that a search gives is the first that is not used.
pub first_free-some :
    (used : ℕ → Bool) (fuel n k : ℕ)
    → first_free used fuel n ≡ some k
    → (used k ≡ false) × (n ≤ k) × (k < n + fuel) × ((j : ℕ) → n ≤ j → j < k → used j ≡ true)
unfolding first_free
first_free-some used zero n k e = cc
first_free-some used (suc fuel) n k e = elim (Bool-cases (used n)) [
  | inl u ↦
      let (a, b, c, d) = first_free-some used fuel (suc n) k (ground arith) in
      (a, omega (arith, b), omega (arith, c), λ j lo hi. ground (arith, d j))
  | inr u ↦
      let same : n ≡ k = ground arith in
      (ground arith, omega arith, omega arith, λ j lo hi. ground arith)
]

pub first_free-none :
    (used : ℕ → Bool) (fuel n : ℕ)
    → first_free used fuel n ≡ none
    → (j : ℕ) → n ≤ j
    → j < n + fuel
    → used j ≡ true
unfolding first_free
first_free-none used zero n e j lo hi = ground arith
first_free-none used (suc fuel) n e j lo hi = elim (Bool-cases (used n)) [
  | inl u ↦ ground (arith, first_free-none used fuel (suc n) (ground arith) j)
  | inr u ↦ ground arith
]

length-remove_le : (n : ℕ) (ks : List ℕ) → length (remove n ks) ≤ length ks
unfolding remove
length-remove_le n [] = omega arith
length-remove_le n (x ∷ ks) = ground (arith, length-remove_le n ks)

length-remove : (n : ℕ) (ks : List ℕ) → 0 < count n ks → length (remove n ks) < length ks
unfolding remove count
length-remove n [] h = omega arith
length-remove n (x ∷ ks) h = ground (arith, length-remove n ks, length-remove_le n ks)

-- As many numbers in a row stand in a list only if it is as long.
pub row_fits :
    (fuel n : ℕ) (ks : List ℕ)
    → ((j : ℕ) → n ≤ j → j < n + fuel → 0 < count j ks)
    → fuel ≤ length ks
row_fits zero n ks h = omega arith
row_fits (suc fuel) n ks h =
    let shorter = length-remove n ks (h n (omega arith) (omega arith)) in
    let rest =
      row_fits fuel (suc n) (remove n ks)
        (λ j lo hi. ground (arith, count-remove j n ks, h j (omega arith) (omega arith))) in
    omega (arith, shorter, rest)

find-count :
    {A : Type 0}
    → (id : A → ℕ) (k : ℕ) (xs : List A) → is_some (find id k xs) ≡ true
    → 0 < count k (map id xs)
unfolding find count
find-count id k [] h = cc
find-count id k (x ∷ xs) h = ground (arith, find-count id k xs)

length-ids : {A : Type 0} → (id : A → ℕ) (xs : List A) → length (map id xs) ≡ length xs
length-ids id [] = refl
length-ids id (x ∷ xs) = omega (arith, length-ids id xs)

pub not_some : {A : Type 0} → (o : Option A) → is_some o ≡ false → o ≡ none
not_some none h = refl
not_some (some x) h = cc

-- A process with less than 65535 threads has a tid for one more: the least that no thread has.
pub allocate_tid_lem :
    (p : Process)
    → length p.threads < 65535
    → (tid : ℕ) × (allocate_tid p ≡ some tid)
      × (find tid_of tid p.threads ≡ none)
      × (tid < 65535)
      × ((j : ℕ) → j < tid → find tid_of j p.threads ≢ none)
unfolding allocate_tid
allocate_tid_lem p h =
    elim (Option-cases (first_free (λ tid. is_some (find tid_of tid p.threads)) 65535 0)) [
      | inl n ↦
          let f = row_fits 65535 0 (map tid_of p.threads) (λ j lo hi.
            find-count tid_of j p.threads
              (first_free-none (λ tid. is_some (find tid_of tid p.threads)) 65535 0 n j lo hi)) in
          absurd (omega (arith, f, length-ids tid_of p.threads))
      | inr (tid, n) ↦
          let (a, b, c, d) =
            first_free-some (λ tid. is_some (find tid_of tid p.threads)) 65535 0 tid n in
          (
            tid,
            n,
            not_some (find tid_of tid p.threads) a,
            omega (arith, c),
            λ j hi e. some_of j e (d j (omega arith) hi),
          )
    ]
  where
    some_of :
        (j : ℕ) → find tid_of j p.threads ≡ none → ¬ (is_some (find tid_of j p.threads) ≡ true)
    some_of j e h = cc

seek_pid-some :
    (used : ℕ → Bool) (fuel next i pid : ℕ)
    → seek_pid used fuel next i ≡ some pid
    → (used pid ≡ false) × (1 < pid) × (pid < u16_mod)
unfolding seek_pid
seek_pid-some used zero next i pid e = cc
seek_pid-some used (suc fuel) next i pid e =
    ground (arith, seek_pid-some used fuel next (suc i) pid)

-- The pid that is allocated is a 16-bit number from 2 on and no process has it, and the search starts
-- behind it the next time.
pub allocate_pid_lem :
    (next_pid : ℕ) (ps : List Process) (pid after : ℕ)
    → allocate_pid next_pid ps ≡ some (pid, after)
    → (1 < pid) × (pid < u16_mod) × (find pid_of pid ps ≡ none) × (after ≡ suc pid % u16_mod)
unfolding allocate_pid
allocate_pid_lem next_pid ps pid after e =
    elim (Option-cases (seek_pid (λ k. is_some (find pid_of k ps)) 65535 next_pid 0)) [
      | inl n ↦ absurd (ground (arith, n))
      | inr (k, n) ↦
          let (a, b, c) = seek_pid-some (λ j. is_some (find pid_of j ps)) 65535 next_pid 0 k n in
          let same : k ≡ pid = ground (arith, n) in
          let free : find pid_of k ps ≡ none = not_some (find pid_of k ps) a in
          (
            omega (arith, b, same),
            omega (arith, c, same),
            ap (λ j. find pid_of j ps) (sym same) ∙ free,
            ground (arith, n),
          )
    ]

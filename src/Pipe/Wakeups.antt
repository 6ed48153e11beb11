-- ===== src/Pipe/Wakeups.antt =====
-- Threads that call `Read`, `Write` and `Close` of model/pipe-fd.cc on one pipe, in any order.
use ns_3_dce.Prelude.{
  ℕ, ◌<◌, ◌≡◌, ◌≢◌, ◌^◌, ◌⊎◌, inl, inr, Bool, true, false, Option, some, List, [], ltb, arith,
  if◌then◌else◌, update, length, refl, count, Bool-cases, ◌==◌, ◌∷◌, ◌∙◌, subst,
}
use ns_3_dce.WaitQueue.{Awoken, remove_waiter, read_entry, write_entry}
use ns_3_dce.FifoBuffer.Valid.{contents}
use ns_3_dce.Pipe.{
  Side, reading, writing, Pipe, Pass, returns, fails, is_broken, waits, faults, pipe_write,
  write_again, pipe_read, read_again, close,
}
use ns_3_dce.Pipe.Transfer.{room}
use ns_3_dce.Pipe.Serving.{
  IsIn, IsIn-remove, IsSound, HoldsReader, HoldsWriter, Serves, ReadServes, WriteServes,
}
use ns_3_dce.Pipe.Passes.{
  read_pass-serves, read_again-serves, pipe_write-serves, write_again-serves, close-serves,
}

-- Where a thread is: in the `Wait` of a `Read` of so many bytes or of a `Write` of these bytes, woken
-- up or not, or elsewhere.
pub data Status : Type 0 where
  outside : Status
  in_read : Bool → ℕ → Status
  in_write : Bool → List ℕ → Status

pub record World : Type 0 where
  pub pipe : Pipe
  pub status : ℕ → Status

abbrev pub wake : Status → Status
wake outside = outside
wake (in_read awake len) = in_read true len
wake (in_write awake bytes) = in_write true bytes

-- Those named are woken up.
abbrev pub wake_all : List ℕ → (ℕ → Status) → ℕ → Status
wake_all woken s u = if ltb 0 (count u woken) then wake (s u) else s u

abbrev pub after : Pass → Status → Status
after p held = elim p [ waits ↦ held | _ ↦ outside ]

-- A thread's call went so, and the thread is `held` if it waits now.
abbrev pub settle : ℕ → Status → Pass × List ℕ × Pipe → World → World
settle t held r w = record {
  pipe = r.2;
  status = update (wake_all r.1 w.status) t (after r.0 held);
}

module _ (malloc : ℕ → Option (List ℕ)) where
  -- A thread that waits may go on at any time, with or without having been woken up. Reads and writes
  -- are of one byte at least, and of fewer than 2 ^ 63 bytes written.
  pub data Step (w : World) : World → Type 0 where
    reads :
        (t len : ℕ)
        → w.status t ≡ outside
        → 0 < len
        → Step w (settle t (in_read false len) (pipe_read reading t len w.pipe) w)
    writes :
        (t : ℕ) (bytes : List ℕ) (r : Pass × List ℕ × Pipe)
        → w.status t ≡ outside
        → 0 < length bytes
        → length bytes < 2 ^ 63
        → pipe_write malloc writing t bytes w.pipe ≡ some r
        → Step w (settle t (in_write false bytes) r w)
    reads_on :
        (aw : Awoken) (t len : ℕ) (awake : Bool)
        → w.status t ≡ in_read awake len
        → Step w (settle t (in_read false len) (read_again aw t len w.pipe) w)
    writes_on :
        (aw : Awoken) (t : ℕ) (bytes : List ℕ) (awake : Bool) (r : Pass × List ℕ × Pipe)
        → w.status t ≡ in_write awake bytes
        → write_again malloc aw t bytes w.pipe ≡ some r
        → Step w (settle t (in_write false bytes) r w)
    closes :
        (side : Side) (r : Bool × List ℕ × Pipe)
        → close side w.pipe ≡ some r
        → Step w (record { pipe = r.2; status = wake_all r.1 w.status })

  -- From a pipe in order, on which no thread waits.
  pub data Reach (p : Pipe) : World → Type 0 where
    here : IsSound p → Reach p (record { pipe = p; status = λ t. outside })
    next : {v w : World} → Reach p v → Step v w → Reach p w

-- What holds of each thread: it waits in the queue, and with reason unless it was woken up.
abbrev Fits : ℕ → Pipe → Status → Type 0
Fits t p outside = Unit
Fits t p (in_read awake len) =
    (0 < len) × IsIn (read_entry t) p.reader.waiters × ((awake ≡ true) ⊎ HoldsReader p)
Fits t p (in_write awake bytes) =
    (0 < length bytes)
    × (length bytes < 2 ^ 63)
    × IsIn (write_entry t) p.reader.waiters
    × ((awake ≡ true) ⊎ HoldsWriter p)

record IsFit (w : World) : Type 0 where
  sound : IsSound w.pipe
  fits : (t : ℕ) → Fits t w.pipe (w.status t)

-- A thread whom a call of another thread serves.
Fits-served :
    (u : ℕ) (p q : Pipe) (woken : List ℕ) (s : Status)
    → Serves p woken q
    → Fits u p s
    → Fits u q (if ltb 0 (count u woken) then wake s else s)
Fits-served u p q woken s v f = elim (Bool-cases (ltb 0 (count u woken))) [
  | inl b ↦ rw b (woken_up s f)
  | inr b ↦ rw b (left_alone b s f)
]
  where
    woken_up : (x : Status) → Fits u p x → Fits u q (wake x)
    woken_up outside f = tt
    woken_up (in_read awake len) f = (f.0, v.stays (read_entry u) f.1, inl refl)
    woken_up (in_write awake bytes) f = (f.0, f.1, v.stays (write_entry u) f.2, inl refl)

    left_alone : ltb 0 (count u woken) ≡ false → (x : Status) → Fits u p x → Fits u q x
    left_alone b outside f = tt
    left_alone b (in_read awake len) f = (
      f.0,
      v.stays (read_entry u) f.1,
      elim f.2 [
        | inl a ↦ inl a
        | inr h ↦ elim (v.reader u f.1 h) [ inl c ↦ absurd (ground (arith, b, c)) | inr k ↦ inr k ]
      ],
    )
    left_alone b (in_write awake bytes) f = (
      f.0,
      f.1,
      v.stays (write_entry u) f.2,
      elim f.3 [
        | inl a ↦ inl a
        | inr h ↦ elim (v.writer u f.2 h) [ inl c ↦ absurd (ground (arith, b, c)) | inr k ↦ inr k ]
      ],
    )

abbrev without : ℕ → Pipe → Pipe
without t p = record p { reader = record p.reader { waiters = remove_waiter t p.reader.waiters } }

-- The entry of one thread leaves the queue: the others still wait with the same reason.
Fits-without : (u t : ℕ) (p : Pipe) (s : Status) → u ≢ t → Fits u p s → Fits u (without t p) s
Fits-without u t p outside n f = tt
Fits-without u t p (in_read awake len) n f =
    (f.0, IsIn-remove (read_entry u) t p.reader.waiters n f.1, f.2)
Fits-without u t p (in_write awake bytes) n f =
    (f.0, f.1, IsIn-remove (write_entry u) t p.reader.waiters n f.2, f.3)

-- The call of t is settled.
settle-IsFit :
    (t : ℕ) (held : Status) (r : Pass × List ℕ × Pipe) (p : Pipe) (w : World)
    → Serves p r.1 r.2
    → ((u : ℕ) → u ≢ t → Fits u p (w.status u))
    → Fits t r.2 (after r.0 held)
    → IsFit (settle t held r w)
settle-IsFit t held r p w v f own = record {
  sound = v.sound;
  fits = λ u. elim (Bool-cases (t == u)) [
    | inl b ↦
        let e : t ≡ u = ground (arith, b) in rw b (subst (λ x. Fits x r.2 (after r.0 held)) e own)
    | inr b ↦ rw b (Fits-served u p r.2 r.1 (w.status u) v (f u (ground (arith, b))))
  ];
}

after_read :
    (t len : ℕ) (p : Pipe) (r : Pass × List ℕ × Pipe)
    → 0 < len
    → ReadServes t p r
    → Fits t r.2 (after r.0 (in_read false len))
after_read t len p r n v = go r.0 refl
  where
    go : (x : Pass) → r.0 ≡ x → Fits t r.2 (after x (in_read false len))
    go waits e = let (i, h) = v.own e in (n, i, inr h)
    go (returns k bytes) e = tt
    go (fails k) e = tt
    go is_broken e = tt
    go faults e = tt

after_write :
    (t : ℕ) (bytes : List ℕ) (p : Pipe) (r : Pass × List ℕ × Pipe)
    → 0 < length bytes
    → length bytes < 2 ^ 63
    → WriteServes t p r
    → Fits t r.2 (after r.0 (in_write false bytes))
after_write t bytes p r n s v = go r.0 refl
  where
    go : (x : Pass) → r.0 ≡ x → Fits t r.2 (after x (in_write false bytes))
    go waits e = let (i, h) = v.own e in (n, s, i, inr h)
    go (returns k got) e = tt
    go (fails k) e = tt
    go is_broken e = tt
    go faults e = tt

module _ (malloc : ℕ → Option (List ℕ))
    (malloc_gives : (n : ℕ) → (block : List ℕ) × (malloc n ≡ some block))
    (malloc_size : (n : ℕ) (block : List ℕ) → malloc n ≡ some block → length block ≡ n) where
  Step-IsFit : {v w : World} → Step malloc v w → IsFit v → IsFit w
  unfolding pipe_read
  Step-IsFit {v = v} (reads t len o n) f =
      let s = read_pass-serves t len v.pipe f.sound n in
      settle-IsFit t (in_read false len) _ v.pipe v s.others (λ u d. f.fits u)
        (after_read t len v.pipe _ n s)
  Step-IsFit {v = v} (reads_on aw t len awake e) f =
      let here_t : Fits t v.pipe (in_read awake len) = subst (Fits t v.pipe) e (f.fits t) in
      let s = read_again-serves aw t len v.pipe f.sound here_t.0 in
      settle-IsFit t (in_read false len) _ (without t v.pipe) v s.others
        (λ u d. Fits-without u t v.pipe (v.status u) d (f.fits u))
        (after_read t len (without t v.pipe) _ here_t.0 s)
  Step-IsFit {v = v} (writes t bytes r o n b e) f =
      let (r', e', s') =
        pipe_write-serves malloc malloc_gives malloc_size t bytes v.pipe f.sound n b in
      let same : r' ≡ r = ground (arith, e, e') in
      let s : WriteServes t v.pipe r = subst (WriteServes t v.pipe) same s' in
      settle-IsFit t (in_write false bytes) r v.pipe v s.others (λ u d. f.fits u)
        (after_write t bytes v.pipe r n b s)
  Step-IsFit {v = v} (writes_on aw t bytes awake r h e) f =
      let here_t : Fits t v.pipe (in_write awake bytes) = subst (Fits t v.pipe) h (f.fits t) in
      let (r', e', s') =
        write_again-serves malloc malloc_gives malloc_size aw t bytes v.pipe f.sound here_t.0
          here_t.1 in
      let same : r' ≡ r = ground (arith, e, e') in
      let s : WriteServes t (without t v.pipe) r =
        subst (WriteServes t (without t v.pipe)) same s' in
      settle-IsFit t (in_write false bytes) r (without t v.pipe) v s.others
        (λ u d. Fits-without u t v.pipe (v.status u) d (f.fits u))
        (after_write t bytes (without t v.pipe) r here_t.0 here_t.1 s)
  Step-IsFit {v = v} (closes side r e) f =
      let (r', e', s') = close-serves side v.pipe f.sound in
      let same : r' ≡ r = ground (arith, e, e') in
      let s : Serves v.pipe r.1 r.2 =
        subst (λ (x : Bool × List ℕ × Pipe). Serves v.pipe x.1 x.2) same s' in
      record { sound = s.sound; fits = λ u. Fits-served u v.pipe r.2 r.1 (v.status u) s (f.fits u) }

  Reach-IsFit : {p : Pipe} {w : World} → Reach malloc p w → IsFit w
  Reach-IsFit (here v) = record { sound = v; fits = λ t. tt }
  Reach-IsFit (next r s) = Step-IsFit s (Reach-IsFit r)

  -- While memory lasts in blocks of the size asked for: after any reads of a byte or more, writes of a
  -- byte or more and of fewer than 2 ^ 63, and closes of one pipe by any threads, spurious wake-ups,
  -- signals and timers included, a thread that sleeps in `Read` and was not woken up stands in the
  -- queue, no byte waits, and both ends are open; and one that sleeps so in `Write` stands in the
  -- queue, there is no room for a byte, and both ends are open.
  pub sleepers_have_cause :
      {p : Pipe} {w : World}
      → Reach malloc p w
      → (t : ℕ)
      → ((len : ℕ)
          → w.status t ≡ in_read false len
          → IsIn (read_entry t) w.pipe.reader.waiters
            × (contents w.pipe.buf ≡ [])
            × (w.pipe.reader.has_peer ≡ true)
            × (w.pipe.writer.has_peer ≡ true))
        × ((bytes : List ℕ)
            → w.status t ≡ in_write false bytes
            → IsIn (write_entry t) w.pipe.reader.waiters
              × (room w.pipe ≡ 0)
              × (w.pipe.reader.has_peer ≡ true)
              × (w.pipe.writer.has_peer ≡ true))
  sleepers_have_cause {w = w} r t =
      let f = Reach-IsFit r in
      (
        λ len e.
            let (n, i, h) : Fits t w.pipe (in_read false len) =
              subst (Fits t w.pipe) e (f.fits t) in
            elim h [
              | inl b ↦ absurd cc
              | inr k ↦ (i, no_bytes (contents w.pipe.buf) k.0, k.1, f.sound.same_peer ∙ k.1)
            ],
        λ bytes e.
            let (n, b, i, h) : Fits t w.pipe (in_write false bytes) =
              subst (Fits t w.pipe) e (f.fits t) in
            elim h [ inl c ↦ absurd cc | inr k ↦ (i, k.0, k.1, f.sound.same_peer ∙ k.1) ],
      )
    where
      no_bytes : (xs : List ℕ) → length xs ≡ 0 → xs ≡ []
      no_bytes [] h = refl
      no_bytes (x ∷ xs) h = absurd (ground (arith, h))

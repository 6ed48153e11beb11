-- ===== src/Pipe/Serving.antt =====
-- What each call on a pipe of model/pipe-fd.cc does for the threads that wait in the queue of its
-- reading end.
use ns_3_dce.Prelude.{
  ℕ, ◌<◌, ◌≤◌, ◌≡◌, ◌≢◌, ◌⊎◌, inl, inr, true, List, [], ◌∷◌, ◌++◌, arith, length, refl, ap, count,
  count-append, Bool-cases, ◌==◌,
}
use ns_3_dce.FifoBuffer.{FifoBuffer}
use ns_3_dce.FifoBuffer.Valid.{IsValid, contents}
use ns_3_dce.WaitQueue.{
  Event, pollin, pollout, pollhup, Entry, is_wanted, wake_waiters, remove_waiter, read_entry,
  write_entry,
}
use ns_3_dce.Pipe.{Pipe, Pass, waits, wait_on_reader}
use ns_3_dce.Pipe.Transfer.{room, with_buf}

-- An entry stands somewhere in a queue.
abbrev pub IsIn : Entry → List Entry → Type 0
IsIn e [] = ⊥
IsIn e (x ∷ es) = (x ≡ e) ⊎ IsIn e es

pub IsIn-wake :
    (event : Event) (e : Entry) (es : List Entry)
    → IsIn e es
    → is_wanted event e ≡ true
    → 0 < count e.thread (wake_waiters event es)
unfolding wake_waiters count
IsIn-wake event e [] h w = absurd h
IsIn-wake event e (x ∷ es) (inl p) w = ground (arith, ap (λ y. y.thread) p, ap (is_wanted event) p)
IsIn-wake event e (x ∷ es) (inr h) w = ground (arith, IsIn-wake event e es h w)

IsIn-append : (e x : Entry) (es : List Entry) → IsIn e es → IsIn e (es ++ x ∷ [])
IsIn-append e x [] h = absurd h
IsIn-append e x (y ∷ es) (inl p) = inl p
IsIn-append e x (y ∷ es) (inr h) = inr (IsIn-append e x es h)

pub IsIn-push : (e : Entry) (es : List Entry) → IsIn e (es ++ e ∷ [])
IsIn-push e [] = inl refl
IsIn-push e (y ∷ es) = inr (IsIn-push e es)

pub IsIn-remove :
    (e : Entry) (t : ℕ) (es : List Entry) → e.thread ≢ t → IsIn e es → IsIn e (remove_waiter t es)
unfolding remove_waiter
IsIn-remove e t [] n h = h
IsIn-remove e t (x ∷ es) n (inl p) = elim (Bool-cases (x.thread == t)) [
  | inl b ↦ absurd (ground (arith, ap (λ y. y.thread) p))
  | inr b ↦ rw b (inl p)
]
IsIn-remove e t (x ∷ es) n (inr h) = elim (Bool-cases (x.thread == t)) [
  | inl b ↦ rw b (IsIn-remove e t es n h)
  | inr b ↦ rw b (inr (IsIn-remove e t es n h))
]

-- The buffer is in order, and the two ends agree on whether they have each other.
pub record IsSound (p : Pipe) : Type 0 where
  pub valid : IsValid p.buf
  pub same_peer : p.writer.has_peer ≡ p.reader.has_peer

abbrev pub waiting_bytes : Pipe → ℕ
waiting_bytes p = length (contents p.buf)

-- A thread that waits to read has cause to: no byte waits, and the pipe is open. One that waits to
-- write has: there is no room, and the pipe is open.
abbrev pub HoldsReader : Pipe → Type 0
HoldsReader p = (waiting_bytes p ≡ 0) × (p.reader.has_peer ≡ true)

abbrev pub HoldsWriter : Pipe → Type 0
HoldsWriter p = (room p ≡ 0) × (p.reader.has_peer ≡ true)

-- What a call that wakes up `woken` does for the others: who waits stays in the queue, and is woken up
-- unless what held it still does.
pub record Serves (p : Pipe) (woken : List ℕ) (q : Pipe) : Type 0 where
  pub sound : IsSound q
  pub stays : (e : Entry) → IsIn e p.reader.waiters → IsIn e q.reader.waiters
  pub reader :
      (u : ℕ)
      → IsIn (read_entry u) p.reader.waiters
      → HoldsReader p
      → (0 < count u woken) ⊎ HoldsReader q
  pub writer :
      (u : ℕ)
      → IsIn (write_entry u) p.reader.waiters
      → HoldsWriter p
      → (0 < count u woken) ⊎ HoldsWriter q

pub Serves-none : (p : Pipe) (woken : List ℕ) → IsSound p → Serves p woken p
Serves-none p woken v = record {
  sound = v;
  stays = λ e h. h;
  reader = λ u h k. inr k;
  writer = λ u h k. inr k;
}

pub in_left : (u : ℕ) (xs ys : List ℕ) → 0 < count u xs → 0 < count u (xs ++ ys)
in_left u xs ys h = omega (arith, count-append u xs ys)

pub in_right : (u : ℕ) (xs ys : List ℕ) → 0 < count u ys → 0 < count u (xs ++ ys)
in_right u xs ys h = omega (arith, count-append u xs ys)

-- A thread that waits after a pass of `Read`, with reason.
abbrev pub WaitsReader : ℕ → Pass × List ℕ × Pipe → Type 0
WaitsReader t r = r.0 ≡ waits → IsIn (read_entry t) r.2.reader.waiters × HoldsReader r.2

abbrev pub WaitsWriter : ℕ → Pass × List ℕ × Pipe → Type 0
WaitsWriter t r = r.0 ≡ waits → IsIn (write_entry t) r.2.reader.waiters × HoldsWriter r.2

-- The pipe once its buffer was read or written.
with_buf-IsSound : (b : FifoBuffer) (p : Pipe) → IsSound p → IsValid b → IsSound (with_buf b p)
with_buf-IsSound b p v h = record { valid = h; same_peer = v.same_peer }

-- A thread is put at the end of the queue, and nothing is woken up, since nothing went.
pub Serves-wait :
    (x : Entry) (b : FifoBuffer) (p : Pipe)
    → IsSound p
    → IsValid b
    → b.max_size ≡ p.buf.max_size
    → length (contents b) ≡ waiting_bytes p
    → Serves p [] (wait_on_reader x (with_buf b p))
unfolding wait_on_reader
Serves-wait x b p v h m l = record {
  sound = record { valid = h; same_peer = v.same_peer };
  stays = λ e i. IsIn-append e x p.reader.waiters i;
  reader = λ u i k. inr (omega (arith, k.0, l), k.1);
  writer = λ u i k. inr (omega (arith, k.0, l, m), k.1);
}

-- Both kinds of entries want what is waited for, and a hang-up.
pub read_wants :
    (u : ℕ) → (is_wanted pollin (read_entry u) ≡ true) × (is_wanted pollhup (read_entry u) ≡ true)
unfolding is_wanted
read_wants u = (refl, refl)

pub write_wants :
    (u : ℕ)
    → (is_wanted pollout (write_entry u) ≡ true) × (is_wanted pollhup (write_entry u) ≡ true)
unfolding is_wanted
write_wants u = (refl, refl)

-- Bytes were taken: the writers in the queue are woken up.
pub Serves-taken :
    (b : FifoBuffer) (p : Pipe) (first : List ℕ)
    → IsSound p
    → IsValid b
    → length (contents b) ≤ waiting_bytes p
    → Serves p (first ++ wake_waiters pollout p.reader.waiters) (with_buf b p)
Serves-taken b p first v h l = record {
  sound = with_buf-IsSound b p v h;
  stays = λ e i. i;
  reader = λ u i k. inr (omega (arith, k.0, l), k.1);
  writer = λ u i k. inl (
      in_right u first (wake_waiters pollout p.reader.waiters)
        (IsIn-wake pollout (write_entry u) p.reader.waiters i (write_wants u).0));
}

-- Bytes went in: the readers in the queue are woken up.
pub Serves-given :
    (b : FifoBuffer) (p : Pipe) (rest : List ℕ)
    → IsSound p
    → IsValid b
    → b.max_size ≡ p.buf.max_size
    → waiting_bytes p ≤ length (contents b)
    → Serves p (wake_waiters pollin p.reader.waiters ++ rest) (with_buf b p)
Serves-given b p rest v h m l = record {
  sound = with_buf-IsSound b p v h;
  stays = λ e i. i;
  reader = λ u i k. inl (
      in_left u (wake_waiters pollin p.reader.waiters) rest
        (IsIn-wake pollin (read_entry u) p.reader.waiters i (read_wants u).0));
  writer = λ u i k. inr (omega (arith, k.0, l, m), k.1);
}

-- Nothing went, and the call is over.
pub Serves-same :
    (b : FifoBuffer) (p : Pipe) (woken : List ℕ)
    → IsSound p
    → IsValid b
    → b.max_size ≡ p.buf.max_size
    → length (contents b) ≡ waiting_bytes p
    → Serves p woken (with_buf b p)
Serves-same b p woken v h m l = record {
  sound = with_buf-IsSound b p v h;
  stays = λ e i. i;
  reader = λ u i k. inr (omega (arith, k.0, l), k.1);
  writer = λ u i k. inr (omega (arith, k.0, l, m), k.1);
}

-- What a pass of a reader t ends in.
pub record ReadServes (t : ℕ) (p : Pipe) (r : Pass × List ℕ × Pipe) : Type 0 where
  pub others : Serves p r.1 r.2
  pub own : WaitsReader t r

pub record WriteServes (t : ℕ) (p : Pipe) (r : Pass × List ℕ × Pipe) : Type 0 where
  pub others : Serves p r.1 r.2
  pub own : WaitsWriter t r

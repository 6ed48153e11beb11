-- ===== src/Signals/Delivery.antt =====
-- `UtilsSendSignal` and `UtilsDoSignal` of model/utils.cc.
use ns_3_dce.Prelude.{
  ℕ, ◌+◌, ◌≡◌, Bool, true, false, not, ◌&&◌, ◌||◌, Option, none, some, List, [], ◌∷◌, ◌++◌, ◌==◌,
  arith, if◌then◌else◌, refl, inl, inr, Bool-cases, Option-cases, ap, count, update,
}
use ns_3_dce.Threads.{Thread}
use ns_3_dce.Signals.{
  SigSet, SignalHandler, Pending, is_masked, deliver, do_signal, find_receiver, send_signal,
  action_of, set_action, sigaction, signal, sig_ign, sigkill, sigstop,
}

-- Whether some handler is there for the signal, and not masked.
unfoldable pub is_handled : SigSet → List SignalHandler → ℕ → Bool
is_handled mask [] s = false
is_handled mask (h ∷ hs) s =
    (h.signal == s && (not (mask s) || s == sigkill || s == sigstop)) || is_handled mask hs s

handled-nil : (mask : SigSet) (s : ℕ) → is_handled mask [] s ≡ false
unfolding is_handled
handled-nil mask s = refl

-- The test that `UtilsDoSignal` makes.
handled-masked :
    (mask : SigSet) (h : SignalHandler) (hs : List SignalHandler) (s : ℕ)
    → is_handled mask (h ∷ hs) s
      ≡ ((h.signal == s && not (is_masked mask h)) || is_handled mask hs s)
unfolding is_handled is_masked
handled-masked mask h hs s = elim (Bool-cases (h.signal == s)) [
  | inl e ↦
      let same : mask h.signal ≡ mask s = ap mask (ground (arith, e)) in ground (arith, e, same)
  | inr e ↦ ground (arith, e)
]

-- The signals of the deliveries.
unfoldable pub signals : List (ℕ × ℕ) → List ℕ
signals [] = []
signals ((s, _) ∷ calls) = s ∷ signals calls

abbrev pub as_count : Bool → ℕ
as_count b = if b then 1 else 0

signals-append :
    (s : ℕ) (xs ys : List (ℕ × ℕ))
    → count s (signals (xs ++ ys)) ≡ count s (signals xs) + count s (signals ys)
unfolding signals count
signals-append s [] ys = omega arith
signals-append s ((t, c) ∷ xs) ys = omega (arith, signals-append s xs ys)

deliver_lem :
    (h : SignalHandler) (p : Pending) (s : ℕ)
    → let (calls, q) = deliver h p in
      (count s (signals calls)
        ≡ (if h.signal == s then as_count (p.of_thread s) + as_count (p.of_process s) else 0))
      × (q.of_thread s ≡ (p.of_thread s && not (h.signal == s)))
      × (q.of_process s ≡ (p.of_process s && not (h.signal == s)))
unfolding deliver signals count
deliver_lem h p s = elim (Bool-cases (h.signal == s)) [
  | inl e ↦
      let same : h.signal ≡ s = ground (arith, e) in
      let t : p.of_thread h.signal ≡ p.of_thread s = ap p.of_thread same in
      let r : p.of_process h.signal ≡ p.of_process s = ap p.of_process same in
      elim (Bool-cases (p.of_thread s)) [
        | inl x ↦ elim (Bool-cases (p.of_process s)) [
          | inl y ↦ ground (arith, same, t, r, x, y)
          | inr y ↦ ground (arith, same, t, r, x, y)
        ]
        | inr x ↦ elim (Bool-cases (p.of_process s)) [
          | inl y ↦ ground (arith, same, t, r, x, y)
          | inr y ↦ ground (arith, same, t, r, x, y)
        ]
      ]
  | inr e ↦ elim (Bool-cases (p.of_thread h.signal)) [
    | inl x ↦ elim (Bool-cases (p.of_process h.signal)) [
      | inl y ↦ ground (arith, e, x, y)
      | inr y ↦ ground (arith, e, x, y)
    ]
    | inr x ↦ elim (Bool-cases (p.of_process h.signal)) [
      | inl y ↦ ground (arith, e, x, y)
      | inr y ↦ ground (arith, e, x, y)
    ]
  ]
]

-- `UtilsDoSignal` delivers each signal that has a handler and is not masked (SIGKILL and SIGSTOP are
-- not, ever) once if it is pending for the thread and once more if it is for the process, and no
-- signal else; of those that were pending, just the others are left.
pub do_signal_lem :
    (mask : SigSet) (hs : List SignalHandler) (p : Pending) (s : ℕ)
    → let (calls, q) = do_signal mask hs p in
      (count s (signals calls) ≡ (
        if is_handled mask hs s then as_count (p.of_thread s) + as_count (p.of_process s) else 0))
      × (q.of_thread s ≡ (p.of_thread s && not (is_handled mask hs s)))
      × (q.of_process s ≡ (p.of_process s && not (is_handled mask hs s)))
unfolding do_signal signals count
do_signal_lem mask [] p s = ground (arith, handled-nil mask s)
do_signal_lem mask (h ∷ hs) p s = elim (Bool-cases (is_masked mask h)) [
  | inl m ↦ ground (arith, m, handled-masked mask h hs s, do_signal_lem mask hs p s)
  | inr m ↦
      let (a, b, c) = deliver_lem h p s in
      let (x, y, z) = do_signal_lem mask hs (deliver h p).1 s in
      let sum = signals-append s (deliver h p).0 (do_signal mask hs (deliver h p).1).0 in
      let i = handled-masked mask h hs s in
      (
        ground (arith, m, i, a, b, c, x, sum),
        ground (arith, m, i, b, y),
        ground (arith, m, i, c, z),
      )
]

module _ (is_blocked : ℕ → Bool) where
  -- A thread that may take the signal: it does not mask it, and is blocked.
  abbrev pub may_take : ℕ → Thread → Bool
  may_take signum t =
      not (t.signal_mask signum) && elim t.task [ none ↦ false | some k ↦ is_blocked k ]

  -- The first of them.
  unfoldable pub first_taker : ℕ → List Thread → Option ℕ
  first_taker signum [] = none
  first_taker signum (t ∷ ts) = if may_take signum t then some t.tid else first_taker signum ts

  unfoldable pub all_run : List Thread → Bool
  all_run [] = true
  all_run (t ∷ ts) = elim t.task [ none ↦ false | some _ ↦ true ] && all_run ts

  receiver :
      (signum : ℕ) (ts : List Thread)
      → all_run ts ≡ true
      → find_receiver is_blocked signum ts ≡ some (first_taker signum ts)
  unfolding all_run find_receiver first_taker
  receiver signum [] h = refl
  receiver signum (t ∷ ts) h = elim (Option-cases t.task) [
    | inl n ↦ absurd (ground (arith, n))
    | inr (k, n) ↦ ground (arith, n, receiver signum ts)
  ]

  -- In a process all of whose threads have a task, a signal that is sent is pending for the process from
  -- then on, with those that were, and the first thread that is blocked and does not mask the signal
  -- is woken up, none when there is no such thread.
  pub send_signal_lem :
      (signum : ℕ) (ts : List Thread) (pending : SigSet)
      → all_run ts ≡ true
      → send_signal is_blocked signum ts pending
        ≡ some (update pending signum true, first_taker signum ts)
  unfolding send_signal
  send_signal_lem signum ts pending h = ground (arith, receiver signum ts h)

-- A signal that the process set to be ignored, with no other handler, and that is pending for the
-- process alone and not masked is delivered by a call of the function at the address of SIG_IGN.
pub ignored_signal_is_called :
    (junk s : ℕ) (mask : SigSet) (p : Pending)
    → mask s ≡ false
    → p.of_thread s ≡ false
    → p.of_process s ≡ true
    → (do_signal mask (signal junk s sig_ign []).1 p).0 ≡ (s, sig_ign) ∷ []
unfolding signal sigaction do_signal is_masked deliver action_of set_action
ignored_signal_is_called junk s mask p m t r = ground (arith, m, t, r)

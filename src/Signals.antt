-- ===== src/Signals.antt =====
-- model/dce-signal.cc with `UtilsSendSignal` and `UtilsDoSignal` of model/utils.cc: the handlers of a
-- process, the masks of its threads, and the signals that are pending.
--
-- A `sigset_t` is a test of signal numbers, a handler the address of its function. Handlers are taken
-- not to change the sets while `UtilsDoSignal` runs. `junk` is a member of `struct SignalHandler` that
-- no code has set.
pub mod Handlers
pub mod Masks
pub mod Delivery
mod Tests
use ns_3_dce.Prelude.{
  ℕ, zero, suc, ◌-◌, ◌/◌, ◌%◌, Bool, true, false, not, ◌&&◌, ◌||◌, Option, none, some, List, [],
  ◌∷◌, ◌++◌, ◌==◌, if◌then◌else◌, update,
}
use ns_3_dce.Threads.{Thread}

abbrev pub SigSet : Type 0
SigSet = ℕ → Bool

abbrev pub empty_set : SigSet
empty_set s = false

-- `struct sigaction`, whose two functions share their place.
pub record Action : Type 0 where
  pub call : ℕ
  pub mask : SigSet
  pub flags : ℕ

pub record SignalHandler : Type 0 where
  pub signal : ℕ
  pub flags : ℕ
  pub mask : SigSet
  pub handler : ℕ
  pub sigaction : ℕ

-- `flags & SA_SIGINFO`, the third bit.
abbrev pub is_siginfo : ℕ → Bool
is_siginfo flags = (flags / 4) % 2 == 1

abbrev pub sig_ign : ℕ
sig_ign = 1

abbrev pub sigkill : ℕ
sigkill = 9

abbrev pub sigstop : ℕ
sigstop = 19

pub action_of : SignalHandler → Action
action_of h = record {
  call = if is_siginfo h.flags then h.sigaction else h.handler;
  mask = h.mask;
  flags = h.flags;
}

pub set_action : Action → SignalHandler → SignalHandler
set_action a h = record h {
  flags = a.flags;
  mask = a.mask;
  handler = if is_siginfo a.flags then h.handler else a.call;
  sigaction = if is_siginfo a.flags then a.call else h.sigaction;
}

abbrev pub ignored : Action
ignored = record { call = sig_ign; mask = empty_set; flags = 0 }

-- `dce_sigaction`, with the action to set, if any: what is stored as the old one, and the handlers.
unfoldable pub sigaction : ℕ → ℕ → Option Action → List SignalHandler → Action × List SignalHandler
unfolding action_of set_action
sigaction junk signum act [] = (
  ignored,
  elim act [
    | none ↦ []
    | some a ↦
        set_action a (record {
          signal = signum;
          flags = 0;
          mask = empty_set;
          handler = junk;
          sigaction = junk;
        })
        ∷ []
  ],
)
sigaction junk signum act (h ∷ hs) =
    let (old, rest) = sigaction junk signum act hs in
    if h.signal == signum
    then (action_of h, elim act [ none ↦ h ∷ hs | some a ↦ set_action a h ∷ hs ])
    else (old, h ∷ rest)

-- `dce_signal`.
pub signal : ℕ → ℕ → ℕ → List SignalHandler → ℕ × List SignalHandler
signal junk signum handler hs =
    let (old, rest) =
      sigaction junk signum (some (record { call = handler; mask = empty_set; flags = 0 })) hs in
    (old.call, rest)

pub data How : Type 0 where
  block unblock setmask unknown : How

-- The loop of `SIG_UNBLOCK`: so many signals from one on.
unfoldable pub unblock_from : ℕ → ℕ → SigSet → SigSet → SigSet
unblock_from zero s set mask = mask
unblock_from (suc fuel) s set mask =
    unblock_from fuel (suc s) set (if set s then update mask s false else mask)

-- `dce_sigprocmask`: whether it returns 0, or else -1 with `EINVAL`; the old mask; and the new one. The
-- loop is from SIGINT, 2, to SIGRTMAX, which is a parameter.
pub sigprocmask : ℕ → How → Option SigSet → SigSet → Bool × SigSet × SigSet
sigprocmask sigrtmax block (some set) mask = (true, mask, λ s. mask s || set s)
sigprocmask sigrtmax unblock (some set) mask = (true, mask, unblock_from (sigrtmax - 1) 2 set mask)
sigprocmask sigrtmax setmask (some set) mask = (true, mask, set)
sigprocmask sigrtmax unknown set mask = (false, mask, mask)
sigprocmask sigrtmax block none mask = (true, mask, mask)
sigprocmask sigrtmax unblock none mask = (true, mask, mask)
sigprocmask sigrtmax setmask none mask = (true, mask, mask)

-- What the delivery of signals changes, of a process and of the thread that runs.
pub record Pending : Type 0 where
  pub of_thread : SigSet
  pub of_process : SigSet

pub is_masked : SigSet → SignalHandler → Bool
is_masked mask h = mask h.signal && not (h.signal == sigkill) && not (h.signal == sigstop)

-- One handler in the loop of `UtilsDoSignal`: the signals delivered, each with the function called.
pub deliver : SignalHandler → Pending → List (ℕ × ℕ) × Pending
unfolding action_of
deliver h p =
    let one = (h.signal, (action_of h).call) ∷ [] in
    (
      (if p.of_thread h.signal then one else []) ++ (if p.of_process h.signal then one else []),
      record p {
        of_thread = if p.of_thread h.signal then update p.of_thread h.signal false else p.of_thread;
        of_process =
            if p.of_process h.signal then update p.of_process h.signal false else p.of_process;
      },
    )

unfoldable pub do_signal : SigSet → List SignalHandler → Pending → List (ℕ × ℕ) × Pending
do_signal mask [] p = ([], p)
do_signal mask (h ∷ hs) p =
    let (calls, q) = deliver h p in
    let (skipped, r) = do_signal mask hs p in
    let (more, s) = do_signal mask hs q in
    if is_masked mask h then (skipped, r) else (calls ++ more, s)

module _ (is_blocked : ℕ → Bool) where
  -- The loop of `UtilsSendSignal`: the thread to wake up, if any. The outer `none` is the use of the
  -- task of a thread that has none.
  unfoldable pub find_receiver : ℕ → List Thread → Option (Option ℕ)
  find_receiver signum [] = some none
  find_receiver signum (t ∷ ts) =
      let rest = find_receiver signum ts in
      if t.signal_mask signum
      then rest
      else elim t.task [ none ↦ none | some k ↦ if is_blocked k then some (some t.tid) else rest ]

  -- The signals of the process, and the thread to wake up.
  pub send_signal : ℕ → List Thread → SigSet → Option (SigSet × Option ℕ)
  unfolding find_receiver
  send_signal signum ts pending = elim (find_receiver signum ts) [
    | none ↦ none
    | some woken ↦ some (update pending signum true, woken)
  ]

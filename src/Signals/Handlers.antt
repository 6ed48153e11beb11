-- ===== src/Signals/Handlers.antt =====
-- `dce_sigaction` and `dce_signal` of model/dce-signal.cc.
use ns_3_dce.Prelude.{
  ℕ, ◌≡◌, ◌≢◌, none, some, List, [], ◌∷◌, ◌==◌, arith, refl, inl, inr, Bool-cases,
}
use ns_3_dce.Signals.{
  Action, SignalHandler, action_of, set_action, is_siginfo, empty_set, sigaction,
}

-- The action set is the one read.
action_of-set_action : (a : Action) (h : SignalHandler) → action_of (set_action a h) ≡ a
unfolding action_of set_action
action_of-set_action a h = elim (Bool-cases (is_siginfo a.flags)) [
  | inl e ↦ ground (arith, e)
  | inr e ↦ ground (arith, e)
]

signal-set_action : (a : Action) (h : SignalHandler) → (set_action a h).signal ≡ h.signal
unfolding set_action
signal-set_action a h = refl

-- The handler that a first `sigaction` makes.
abbrev made : ℕ → ℕ → Action → SignalHandler
made junk signum a =
    set_action a
      (record { signal = signum; flags = 0; mask = empty_set; handler = junk; sigaction = junk })

read_own :
    (junk signum : ℕ) (a : Action) (hs : List SignalHandler)
    → (sigaction junk signum none (sigaction junk signum (some a) hs).1).0 ≡ a
unfolding sigaction
read_own junk signum a [] = ground (
  arith,
  action_of-set_action a
      (record { signal = signum; flags = 0; mask = empty_set; handler = junk; sigaction = junk }),
)
read_own junk signum a (h ∷ hs) = elim (Bool-cases (h.signal == signum)) [
  | inl e ↦ ground (arith, e, action_of-set_action a h)
  | inr e ↦ ground (arith, e, read_own junk signum a hs)
]

read_keeps : (junk signum : ℕ) (hs : List SignalHandler) → (sigaction junk signum none hs).1 ≡ hs
unfolding sigaction
read_keeps junk signum [] = refl
read_keeps junk signum (h ∷ hs) = elim (Bool-cases (h.signal == signum)) [
  | inl e ↦ ground (arith, e)
  | inr e ↦ ground (arith, e, read_keeps junk signum hs)
]

read_other :
    (junk signum other : ℕ) (a : Action) (hs : List SignalHandler)
    → other ≢ signum
    → (sigaction junk other none (sigaction junk signum (some a) hs).1).0
      ≡ (sigaction junk other none hs).0
unfolding sigaction
read_other junk signum other a [] n = ground (arith, n)
read_other junk signum other a (h ∷ hs) n = elim (Bool-cases (h.signal == signum)) [
  | inl e ↦ ground (arith, e, n, signal-set_action a h)
  | inr e ↦ ground (arith, e, read_other junk signum other a hs n)
]

-- The action that `sigaction` sets for a signal is the one that it gives as the old one after that,
-- function, mask and flags, also where a handler is there for the first time; reading it changes no
-- handler; and the action of every other signal is read as before.
pub sigaction_then_read :
    (junk signum : ℕ) (a : Action) (hs : List SignalHandler)
    → let set = (sigaction junk signum (some a) hs).1 in
      ((sigaction junk signum none set).0 ≡ a)
      × ((sigaction junk signum none set).1 ≡ set)
      × ((other : ℕ)
          → other ≢ signum
          → (sigaction junk other none set).0 ≡ (sigaction junk other none hs).0)
sigaction_then_read junk signum a hs = (
  read_own junk signum a hs,
  read_keeps junk signum (sigaction junk signum (some a) hs).1,
  λ other n. read_other junk signum other a hs n,
)

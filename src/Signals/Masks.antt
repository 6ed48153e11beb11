-- ===== src/Signals/Masks.antt =====
-- `dce_sigprocmask` of model/dce-signal.cc.
use ns_3_dce.Prelude.{
  ℕ, zero, suc, ◌+◌, ◌-◌, ◌≤◌, ◌≡◌, true, false, not, ◌&&◌, ◌||◌, none, some, leb, ltb, arith,
  if◌then◌else◌, refl, update,
}
use ns_3_dce.Signals.{SigSet, How, block, unblock, setmask, unknown, unblock_from, sigprocmask}

unblock_from_lem :
    (fuel s j : ℕ) (set mask : SigSet)
    → unblock_from fuel s set mask j ≡ (mask j && not (set j && leb s j && ltb j (s + fuel)))
unfolding unblock_from
unblock_from_lem zero s j set mask = ground arith
unblock_from_lem (suc fuel) s j set mask =
    ground
      (arith, unblock_from_lem fuel (suc s) j set (if set s then update mask s false else mask))

-- `sigprocmask` with a set: it adds the set to the mask, takes from the mask the signals of the set
-- from 2 up to SIGRTMAX, or takes the set for the mask; with any other request it fails, and a call
-- without a set changes nothing. The old mask is given back in every case.
pub sigprocmask_lem :
    (sigrtmax : ℕ) (set mask : SigSet) (s : ℕ)
    → 2 ≤ sigrtmax
    → ((sigprocmask sigrtmax block (some set) mask).2 s ≡ (mask s || set s))
      × ((sigprocmask sigrtmax unblock (some set) mask).2 s
          ≡ (mask s && not (set s && leb 2 s && leb s sigrtmax)))
      × ((sigprocmask sigrtmax setmask (some set) mask).2 s ≡ set s)
      × ((sigprocmask sigrtmax unknown (some set) mask) ≡ (false, mask, mask))
      × ((how : How)
          → ((sigprocmask sigrtmax how none mask).2 ≡ mask)
            × ((sigprocmask sigrtmax how (some set) mask).1 ≡ mask))
unfolding sigprocmask
sigprocmask_lem sigrtmax set mask s h = (
  refl,
  ground (arith, unblock_from_lem (sigrtmax - 1) 2 s set mask),
  refl,
  refl,
  λ how. keeps how,
)
  where
    keeps :
        (how : How)
        → ((sigprocmask sigrtmax how none mask).2 ≡ mask)
          × ((sigprocmask sigrtmax how (some set) mask).1 ≡ mask)
    keeps block = (refl, refl)
    keeps unblock = (refl, refl)
    keeps setmask = (refl, refl)
    keeps unknown = (refl, refl)

-- The signal 1, SIGHUP, stays blocked once it is, whatever set is unblocked.
pub sighup_stays_blocked :
    (sigrtmax : ℕ) (set mask : SigSet)
    → mask 1 ≡ true
    → (sigprocmask sigrtmax unblock (some set) mask).2 1 ≡ true
unfolding sigprocmask
sighup_stays_blocked sigrtmax set mask h =
    ground (arith, unblock_from_lem (sigrtmax - 1) 2 1 set mask)

-- ===== src/Children.antt =====
-- model/dce-wait.cc with `ChildFinished`, `WakeupChildWaiters` and `FinishChild` of
-- model/dce-manager.cc: the children of a process and how they are waited for.
--
-- `waitpid` stops in `WaitDoSignal`: what it does up to there is `waitpid`, what it does once its
-- thread runs again is `waitpid_again`. The set of children is the list of its members in order.
pub mod Reaping
mod Tests
use ns_3_dce.Prelude.{
  ℕ, suc, Bool, true, false, not, ◌&&◌, ◌||◌, Option, none, some, List, [], ◌∷◌, ltb, ◌==◌,
  if◌then◌else◌, ℤ, pos, negsuc, remove,
}
use ns_3_dce.ObjectTable.{find, erase}

-- What a wait reads of a process; `is_zombie` is `!p->alloc && !p->loader`.
pub record Child : Type 0 where
  pub pid : ℕ
  pub is_zombie : Bool
  pub exit_value : ℕ

abbrev pub child_pid : Child → ℕ
child_pid p = p.pid

-- The children of the process that calls, and the processes of the node.
pub record Family : Type 0 where
  pub children : List ℕ
  pub processes : List Child

pub data Pass : Type 0 where
  reaped : ℕ → ℕ → Pass
  returns_zero einval echild interrupted waits : Pass

pub record Options : Type 0 where
  pub untraced : Bool
  pub continued : Bool
  pub no_hang : Bool

abbrev pub is_asked : ℤ → ℕ → Bool
is_asked z pid = elim z [ pos n ↦ n == pid | negsuc _ ↦ true ]

-- The process of a child that the loop counts, if any.
pub asked_child : ℤ → List Child → ℕ → Option Child
asked_child z ps c =
    if ltb 1 c
    then elim (find child_pid c ps) [
      | none ↦ none
      | some p ↦ if is_asked z p.pid then some p else none
    ]
    else none

-- The loop over the children: how many are counted, and the first of them that has ended.
unfoldable pub seek_ended : ℤ → List Child → List ℕ → ℕ × Option Child
seek_ended z ps [] = (0, none)
seek_ended z ps (c ∷ cs) =
    let (count, found) = seek_ended z ps cs in
    elim (asked_child z ps c) [
      | none ↦ (count, found)
      | some p ↦ if p.is_zombie then (1, some p) else (suc count, found)
    ]

-- `FinishChild`.
pub finish_child : ℕ → List Child → List Child
finish_child pid ps = erase child_pid pid ps

-- A pass of the `while` loop.
pub wait_pass : ℤ → Bool → Family → Pass × Family
unfolding finish_child
wait_pass z no_hang f =
    let (count, found) = seek_ended z f.processes f.children in
    elim found [
      | some p ↦ (
        reaped p.pid p.exit_value,
        record { children = remove p.pid f.children; processes = finish_child p.pid f.processes },
      )
      | none ↦ if count == 0 then (echild, f) else if no_hang then (returns_zero, f) else (waits, f)
    ]

-- Process groups are refused.
abbrev pub is_group : ℤ → Bool
is_group z = elim z [ pos n ↦ n == 0 | negsuc n ↦ not (n == 0) ]

pub waitpid : ℤ → Options → Family → Pass × Family
unfolding wait_pass
waitpid z options f =
    if options.untraced || options.continued
    then (einval, f)
    else if is_group z
    then (einval, f)
    else wait_pass z options.no_hang f

-- After `WaitDoSignal`, which says whether to try again.
pub waitpid_again : Bool → ℤ → Options → Family → Pass × Family
unfolding wait_pass
waitpid_again retry z options f = if retry then wait_pass z options.no_hang f else (interrupted, f)

-- `dce_wait`.
pub wait : Family → Pass × Family
unfolding waitpid
wait f = waitpid (negsuc 0) (record { untraced = false; continued = false; no_hang = false }) f

-- `WakeupChildWaiters`, on the threads of the parent by tid, with whether each has a waiter.
unfoldable pub wakeup_child_waiters : List (ℕ × Bool) → List ℕ
wakeup_child_waiters [] = []
wakeup_child_waiters ((t, has_waiter) ∷ ts) =
    let rest = wakeup_child_waiters ts in if has_waiter then t ∷ rest else rest

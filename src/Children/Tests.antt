-- ===== src/Children/Tests.antt =====
-- Children of model/dce-wait.cc at a concrete family.
use ns_3_dce.Prelude.{
  ℕ, ◌<◌, ◌≡◌, ◌≢◌, true, false, some, [], ◌∷◌, arith, refl, pos, negsuc, remove, count,
}
use ns_3_dce.ObjectTable.{find, erase}
use ns_3_dce.Children.{
  Child, child_pid, Family, reaped, echild, waits, Options, is_asked, asked_child, seek_ended,
  finish_child, wait_pass, waitpid, waitpid_again, wait, wakeup_child_waiters,
}
use ns_3_dce.Children.Reaping.{waitpid_reaps_once, ended_child_is_reaped}

abbrev living : Child
living = record { pid = 4; is_zombie = false; exit_value = 0 }

abbrev dead : Child
dead = record { pid = 5; is_zombie = true; exit_value = 256 }

abbrev plain : Options
plain = record { untraced = false; continued = false; no_hang = false }

abbrev two_children : Family
two_children = record { children = 4 ∷ 5 ∷ []; processes = living ∷ dead ∷ [] }

abbrev one_left : Family
one_left = record { children = 4 ∷ []; processes = living ∷ [] }

waitpid_reaps_once_example :
    (p : Child) × (find child_pid 5 two_children.processes ≡ some p)
    × (p.is_zombie ≡ true)
    × (256 ≡ p.exit_value)
    × (is_asked (negsuc 0) 5 ≡ true)
    × (0 < count 5 two_children.children)
    × (count 5 one_left.children ≡ 0)
    × ((k : ℕ)
        → k ≢ 5
        → (count k one_left.children ≡ count k two_children.children)
          × (find child_pid k one_left.processes ≡ find child_pid k two_children.processes))
    × (waitpid (pos 5) plain one_left ≡ (echild, one_left))
unfolding waitpid wait_pass seek_ended asked_child find finish_child remove erase
waitpid_reaps_once_example = waitpid_reaps_once (negsuc 0) plain two_children one_left 5 256 refl

ended_child_is_reaped_example :
    (q : Child) × (g : Family) × (waitpid (negsuc 0) plain two_children
      ≡ (reaped q.pid q.exit_value, g))
    × (waitpid_again true (negsuc 0) plain two_children ≡ (reaped q.pid q.exit_value, g))
unfolding asked_child find count
ended_child_is_reaped_example =
    ended_child_is_reaped (negsuc 0) plain two_children 5 dead refl refl refl refl refl
      (omega arith)

-- The living child is waited for, by each thread that has a waiter.
living_waits :
    (wait one_left ≡ (waits, one_left))
    × (wakeup_child_waiters ((0, true) ∷ (1, false) ∷ []) ≡ 0 ∷ [])
unfolding wait waitpid wait_pass seek_ended asked_child find wakeup_child_waiters
living_waits = (refl, refl)

-- ===== src/LocalStream/Reach.antt =====
-- Histories of calls of model/local-stream-socket-fd.cc.
use ns_3_dce.Prelude.{ℕ, ◌≡◌, Bool, true, false, Option, some, List, ◌==◌, refl, subst, arith}
use ns_3_dce.WaitQueue.{Awoken}
use ns_3_dce.LocalStream.{new_socket, Node, Errno, Outcome, is_connected, close}
use ns_3_dce.LocalStream.Transfer.{write, write_again, read, read_again}
use ns_3_dce.LocalStream.Calls.{
  is_created, bind, listen, connect, connect_again, accept, accept_again, shutdown,
}
use ns_3_dce.LocalStream.Paired.{mate, needs_factory, IsPaired, IsKept, close-IsKept}
use ns_3_dce.LocalStream.Kept.{
  bind-IsKept, listen-IsKept, connect-IsKept, connect_again-IsKept, shutdown-IsKept,
}
use ns_3_dce.LocalStream.Kept.Accept.{accept-IsKept, accept_again-IsKept}
use ns_3_dce.LocalStream.Ends.{
  IsDone, write-IsDone, write_again-IsDone, read-IsDone, read_again-IsDone,
}

-- A call, or what is left of one that waited.
pub data Call : Type 0 where
  binds : ℕ → Bool → ℕ → Option Errno → Call
  listens : ℕ → Call
  connects : ℕ → ℕ → ℕ → Call
  goes_on_connecting : ℕ → ℕ → ℕ → ℕ → Call
  accepts : ℕ → ℕ → Option ℕ → ℕ → Call
  goes_on_accepting : Awoken → ℕ → ℕ → Option ℕ → ℕ → Call
  writes : ℕ → ℕ → List ℕ → Call
  goes_on_writing : Awoken → ℕ → ℕ → List ℕ → List ℕ → Call
  reads : ℕ → ℕ → ℕ → Call
  goes_on_reading : Awoken → ℕ → ℕ → List ℕ → ℕ → Call
  shuts_down : ℕ → Bool → Bool → Call
  closes : ℕ → Call

unfoldable pub run : (ℕ → Bool) → Call → Node → Option Outcome
run malloc (binds a is_unix path host) n = some (bind a is_unix path host n)
run malloc (listens a) n = some (listen a n)
run malloc (connects t a path) n = some (connect t a path n)
run malloc (goes_on_connecting t a b path) n = some (connect_again t a b path n)
run malloc (accepts t a fd fresh) n = some (accept t a fd fresh n)
run malloc (goes_on_accepting w t a fd fresh) n = some (accept_again w t a fd fresh n)
run malloc (writes t a bytes) n = write malloc t a bytes n
run malloc (goes_on_writing w t a sent rest) n = write_again malloc w t a sent rest n
run malloc (reads t a want) n = read t a want n
run malloc (goes_on_reading w t a got want) n = read_again w t a got want n
run malloc (shuts_down a r w) n = some (shutdown a r w n)
run malloc (closes a) n = some (close a n)

-- What a program keeps to: it connects no connected socket, the address of an accepted socket is new,
-- and `Accept` goes on with a socket that was not closed nor connected meanwhile.
abbrev pub Allowed : Call → Node → Type 0
Allowed (connects t a path) n = is_connected (n.sockets a).state ≡ false
Allowed (accepts t a fd fresh) n = is_created (n.sockets fresh).state ≡ true
Allowed (goes_on_accepting w t a fd fresh) n =
    (is_created (n.sockets fresh).state ≡ true)
    × ((a == fresh) ≡ false)
    × (is_connected (n.sockets a).state ≡ false)
    × ((n.sockets a).has_factory ≡ true)
Allowed _ n = Unit

-- The nodes to which such calls lead from one on which every socket is new.
pub data IsReached (malloc : ℕ → Bool) : Node → Type 0 where
  at_first :
      (binders : ℕ → Option (ℕ × Bool))
      → IsReached malloc (record { sockets = λ a. new_socket; binders = binders })
  later :
      (n : Node) (c : Call) (o : Outcome)
      → IsReached malloc n
      → Allowed c n
      → run malloc c n ≡ some o
      → IsReached malloc o.2

kept-IsDone : (o : Outcome) → IsKept o → IsDone (some o)
kept-IsDone o k = record { outcome = o; gives = refl; keeps = k }

run-IsDone :
    (malloc : ℕ → Bool) (c : Call) (n : Node) → IsPaired n → Allowed c n → IsDone (run malloc c n)
unfolding run
run-IsDone malloc (binds a is_unix path host) n p h =
    kept-IsDone _ (bind-IsKept a is_unix path host n p)
run-IsDone malloc (listens a) n p h = kept-IsDone _ (listen-IsKept a n p)
run-IsDone malloc (connects t a path) n p h = kept-IsDone _ (connect-IsKept t a path n p h)
run-IsDone malloc (goes_on_connecting t a b path) n p h =
    kept-IsDone _ (connect_again-IsKept t a b path n p)
run-IsDone malloc (accepts t a fd fresh) n p h = kept-IsDone _ (accept-IsKept a fresh fd t n p h)
run-IsDone malloc (goes_on_accepting w t a fd fresh) n p (u, d, c, f) =
    kept-IsDone _ (accept_again-IsKept a fresh fd w t n p u d c f)
run-IsDone malloc (writes t a bytes) n p h = write-IsDone malloc t a bytes n p
run-IsDone malloc (goes_on_writing w t a sent rest) n p h =
    write_again-IsDone malloc w t a sent rest n p
run-IsDone malloc (reads t a want) n p h = read-IsDone t a want n p
run-IsDone malloc (goes_on_reading w t a got want) n p h = read_again-IsDone t a w got want n p
run-IsDone malloc (shuts_down a r w) n p h = kept-IsDone _ (shutdown-IsKept a r w n p)
run-IsDone malloc (closes a) n p h = kept-IsDone _ (close-IsKept a n p)

new-IsPaired :
    (binders : ℕ → Option (ℕ × Bool))
    → IsPaired (record { sockets = λ a. new_socket; binders = binders })
unfolding new_socket is_connected mate needs_factory
new-IsPaired binders = record {
  whole = λ a. record { has_peer = λ h. absurd (ground (arith, h)); factory = λ h. refl };
  both_ways = λ a b h. absurd (ground (arith, h));
}

reached-IsPaired : (malloc : ℕ → Bool) (n : Node) → IsReached malloc n → IsPaired n
reached-IsPaired malloc n (at_first binders) = new-IsPaired binders
reached-IsPaired malloc n (later m c o r h e) =
    let d = run-IsDone malloc c m (reached-IsPaired malloc m r) h in
    let same : d.outcome ≡ o = cc (e, d.gives) in
    subst (λ (x : Outcome). IsPaired x.2) same d.keeps.paired

-- From new sockets, in any order of the calls and of what is left of those that waited, when no
-- connected socket is connected once more, a new address is given to an accepted socket, and an
-- `Accept` that goes on finds its socket neither closed nor connected: each call ends within its fuel,
-- at a return, a failure or a wait, and never by an assertion that fails or a null pointer; and after
-- it every connected socket has a peer, which is connected to it.
pub calls_never_assert :
    (malloc : ℕ → Bool) (n : Node) (c : Call)
    → IsReached malloc n
    → Allowed c n
    → IsDone (run malloc c n)
calls_never_assert malloc n c r h = run-IsDone malloc c n (reached-IsPaired malloc n r) h

-- ===== src/LocalStream/Kept.antt =====
-- Every call of model/local-stream-socket-fd.cc keeps connected sockets each other's peers.
pub mod Accept
use ns_3_dce.Prelude.{
  ℕ, ◌≡◌, Bool, true, false, not, ◌&&◌, ◌||◌, Option, none, some, List, [], ◌∷◌, ◌++◌, arith, ◌==◌,
  if◌then◌else◌, update, update_all, if_all, option_all, refl, sym, ◌∙◌, ap, inl, inr, Bool-cases,
  remove,
}
use ns_3_dce.WaitQueue.{
  Awoken, ok, interrupted, timeout, pollin, pollout, read_entry, wake_waiters, wake_either,
}
use ns_3_dce.LocalStream.{
  State, created, binded, listening, accepting, connecting, connected, remote_closed, closed,
  Socket, Node, Errno, einval, enoent, eagain, eintr, emfile, unset, Pass, returns, fails, waits,
  asserts, Outcome, fails_assert, is_connected, is_remote_closed, is_accepting, is_listening,
  is_connecting, put, close, accepted_socket, new_socket, register_binder, find_binder,
}
use ns_3_dce.LocalStream.Transfer.{add_waiter, drop_waiter}
use ns_3_dce.LocalStream.Calls.{
  is_created, is_binded, bind, listen, connect, connect_to, connect_again, accept, accept_queue,
  accept_loop, accept_first, accept_again, shutdown, connection_created, internal_connect,
}
use ns_3_dce.LocalStream.Paired.{
  mate, needs_factory, IsWhole, IsPaired, IsKept, idle-IsWhole, owner-IsWhole, put-IsPaired,
  touch-IsPaired, link-IsPaired, rebind-IsPaired, settle-IsPaired, close-IsKept,
}

-- A call that leaves the node as it is, and one that ends otherwise than by an assertion.
pub kept :
    (r : Pass) (woken : List ℕ) (n : Node)
    → fails_assert r ≡ false
    → IsPaired n
    → IsKept (r, woken, n)
kept r woken n e p = record { no_assert = e; paired = p }

-- The states that `Bind` and `Listen` ask for.
created_owns :
    (s : State) → not (is_created s) ≡ false → (is_connected s ≡ false) × (needs_factory s ≡ true)
unfolding is_created is_connected needs_factory
created_owns s h = (ground (arith, h), ground (arith, h))

binded_owns :
    (s : State) → not (is_binded s) ≡ false → (is_connected s ≡ false) × (needs_factory s ≡ true)
unfolding is_binded is_connected needs_factory
binded_owns s h = (ground (arith, h), ground (arith, h))

pub listening_owns :
    (s : State) → not (is_listening s) ≡ false → (is_connected s ≡ false) × (needs_factory s ≡ true)
unfolding is_listening is_connected needs_factory
listening_owns s h = (ground (arith, h), ground (arith, h))

-- A socket of such a state is registered under a name.
register-IsKept :
    (a path : ℕ) (s : Socket) (n : Node)
    → IsPaired n
    → (is_connected (n.sockets a).state ≡ false) × (needs_factory (n.sockets a).state ≡ true)
    → is_connected s.state ≡ false
    → s.has_factory ≡ (n.sockets a).has_factory
    → IsKept (
        if (n.sockets a).has_factory
        then (returns 0 [], [], register_binder path a (put a s n))
        else (asserts, [], put a s n))
unfolding register_binder fails_assert
register-IsKept a path s n p (c, f) d e =
    let has : (n.sockets a).has_factory ≡ true = (p.whole a).factory f in
    rw has (
      kept (returns 0 []) [] _ refl (
        rebind-IsPaired (put a s n) (update n.binders path (some (a, true)))
          (settle-IsPaired a s n p c d (owner-IsWhole s d (e ∙ has)))))

pub drop_waiter-IsPaired : (a t : ℕ) (n : Node) → IsPaired n → IsPaired (drop_waiter a t n)
drop_waiter-IsPaired a t n p = touch-IsPaired a _ n p refl refl refl

pub bind-IsKept :
    (a : ℕ) (is_unix : Bool) (path : ℕ) (host : Option Errno) (n : Node)
    → IsPaired n
    → IsKept (bind a is_unix path host n)
unfolding bind register_binder fails_assert is_connected
bind-IsKept a is_unix path none n p =
    if_all IsKept (not is_unix) _ _ (λ h. kept (fails einval) [] n refl p)
      (λ h.
        if_all IsKept (not (is_created (n.sockets a).state)) _ _
          (λ c. kept (fails unset) [] n refl p)
          (λ c. register-IsKept a path _ n p (created_owns (n.sockets a).state c) refl refl))
bind-IsKept a is_unix path (some e) n p =
    if_all IsKept (not is_unix) _ _ (λ h. kept (fails einval) [] n refl p)
      (λ h.
        if_all IsKept (not (is_created (n.sockets a).state)) _ _
          (λ c. kept (fails unset) [] n refl p) (λ c. kept (fails e) [] n refl p))

pub listen-IsKept : (a : ℕ) (n : Node) → IsPaired n → IsKept (listen a n)
unfolding listen register_binder fails_assert is_connected
listen-IsKept a n p =
    if_all IsKept (not (is_binded (n.sockets a).state)) _ _ (λ h. kept _ _ n refl p)
      (λ h.
        register-IsKept a (n.sockets a).bind_path _ n p (binded_owns (n.sockets a).state h) refl
          refl)

pub shutdown-IsKept : (a : ℕ) (r w : Bool) (n : Node) → IsPaired n → IsKept (shutdown a r w n)
unfolding shutdown fails_assert
shutdown-IsKept a r w n p =
    if_all IsKept (not (is_connected (n.sockets a).state || is_remote_closed (n.sockets a).state)) _
      _ (λ h. kept _ _ n refl p) (λ h. kept _ _ _ refl (touch-IsPaired a _ n p refl refl refl))

pub connect_again-IsKept :
    (t a b path : ℕ) (n : Node) → IsPaired n → IsKept (connect_again t a b path n)
unfolding connect_again fails_assert
connect_again-IsKept t a b path n p =
    let m = drop_waiter a t n in
    let q = drop_waiter-IsPaired a t n p in
    if_all IsKept (is_connected (m.sockets a).state || is_remote_closed (m.sockets a).state) _ _
      (λ h. kept _ _ _ refl (touch-IsPaired a _ m q refl refl refl))
      (λ h. kept _ _ _ refl (touch-IsPaired b _ m q refl refl refl))

-- A socket that is not connected begins to connect.
connect_to-IsKept :
    (t a b : ℕ) (n : Node)
    → IsPaired n
    → is_connected (n.sockets a).state ≡ false
    → IsKept (connect_to t a b n)
unfolding connect_to connection_created fails_assert is_connected needs_factory
connect_to-IsKept t a b n p c =
    let s : Socket = record (n.sockets a) {
      state = connecting;
      waiters = (n.sockets a).waiters ++ read_entry t ∷ [];
    } in
    let q : IsPaired (put a s n) = settle-IsPaired a s n p c refl (idle-IsWhole s refl refl) in
    if_all IsKept (not (is_accepting (n.sockets b).state || is_listening (n.sockets b).state)) _ _
      (λ h. kept (fails unset) [] n refl p)
      (λ h.
        if_all IsKept (not (is_accepting (n.sockets b).state) && (n.sockets a).non_block) _ _
          (λ k. kept (fails eagain) [] n refl p)
          (λ k. kept (waits [] []) _ _ refl (touch-IsPaired b _ (put a s n) q refl refl refl)))

pub connect-IsKept :
    (t a path : ℕ) (n : Node)
    → IsPaired n
    → is_connected (n.sockets a).state ≡ false
    → IsKept (connect t a path n)
unfolding connect fails_assert
connect-IsKept t a path n p c =
    if_all IsKept (not (n.sockets a).has_factory) _ _ (λ h. kept (fails einval) [] n refl p)
      (λ h.
        option_all IsKept (find_binder path n) _ (λ b. connect_to t a b n)
          (kept (fails enoent) [] n refl p) (λ b e. connect_to-IsKept t a b n p c))

created_free : (s : State) → is_created s ≡ true → is_connected s ≡ false
unfolding is_created is_connected
created_free s h = ground (arith, h)

-- A connection is made: `c` connects, and its peer is the new socket.
pub linked-IsPaired :
    (c fresh path : ℕ) (m : Node)
    → IsPaired m
    → is_created (m.sockets fresh).state ≡ true
    → is_connecting (m.sockets c).state ≡ true
    → IsPaired (
        put c
          (record (m.sockets c) { state = connected; peer = some fresh })
          (put fresh (accepted_socket c path) m))
unfolding accepted_socket new_socket mate is_connecting is_connected needs_factory
linked-IsPaired c fresh path m p u h =
    let d = created_free (m.sockets fresh).state u in
    link-IsPaired m c fresh _ _ p
      (record { has_peer = λ k. (fresh, refl); factory = λ k. absurd (ground (arith, k)) })
      (record { has_peer = λ k. (c, refl); factory = λ k. absurd (ground (arith, k)) })
      (ground (arith, h)) (ground (arith, d)) refl refl

-- ===== src/LocalStream/Calls.antt =====
-- `Bind`, `Listen`, `Connect`, `Accept`, `Shutdown` and `Poll` of model/local-stream-socket-fd.cc.
use ns_3_dce.Prelude.{
  ℕ, Bool, true, false, not, ◌&&◌, ◌||◌, Option, none, some, List, [], ◌∷◌, ◌++◌, ltb,
  if◌then◌else◌, length, remove,
}
use ns_3_dce.WaitQueue.{
  Awoken, ok, interrupted, timeout, pollin, pollout, read_entry, wake_waiters, wake_either,
}
use ns_3_dce.LocalSocket.{max_buffer}
use ns_3_dce.LocalStream.{
  State, created, binded, listening, accepting, connecting, connected, Socket, Node, Errno, eagain,
  eintr, enotconn, einval, enoent, emfile, unset, returns, fails, waits, asserts, Outcome,
  fails_assert, is_connected, is_remote_closed, is_closed, is_accepting, is_listening,
  is_connecting, put, accepted_socket, register_binder, find_binder, close,
}
use ns_3_dce.LocalStream.Transfer.{add_waiter, drop_waiter}

unfoldable pub is_created : State → Bool
is_created created = true
is_created _ = false

unfoldable pub is_binded : State → Bool
is_binded binded = true
is_binded _ = false

abbrev set_state : State → Socket → Socket
set_state state s = record s { state = state }

-- `Bind`, with whether the name is one of this family, and the error of the `bind` of the host.
unfoldable pub bind : ℕ → Bool → ℕ → Option Errno → Node → Outcome
unfolding is_created register_binder
bind a is_unix path host n =
    let s = n.sockets a in
    if not is_unix
    then (fails einval, [], n)
    else if not (is_created s.state)
    then (fails unset, [], n)
    else elim host [
      | some e ↦ (fails e, [], n)
      | none ↦
          let m = put a (record s { state = binded; bind_path = path }) n in
          if s.has_factory then (returns 0 [], [], register_binder path a m) else (asserts, [], m)
    ]

-- `Listen`; nothing reads the length that it stores.
unfoldable pub listen : ℕ → Node → Outcome
unfolding is_binded register_binder
listen a n =
    let s = n.sockets a in
    let m = put a (record s { state = listening }) n in
    if not (is_binded s.state)
    then (fails einval, [], n)
    else if s.has_factory
    then (returns 0 [], [], register_binder s.bind_path a m)
    else (asserts, [], m)

-- `ConnectionCreated` of the listener `b` for the socket `a`.
unfoldable pub connection_created : ℕ → ℕ → Node → List ℕ × Node
connection_created a b n =
    let l = n.sockets b in
    (wake_waiters pollin l.waiters, put b (record l { queue = l.queue ++ a ∷ [] }) n)

-- `Connect` when `b` is bound to the name. A listener takes no connection itself, so that after
-- `ConnectionCreated` it waits.
unfoldable pub connect_to : ℕ → ℕ → ℕ → Node → Outcome
unfolding is_accepting is_listening connection_created
connect_to t a b n =
    let s = n.sockets a in
    let l = n.sockets b in
    let m = put a (record s { state = connecting; waiters = s.waiters ++ read_entry t ∷ [] }) n in
    let (woken, after) = connection_created a b m in
    if not (is_accepting l.state || is_listening l.state)
    then (fails unset, [], n)
    else if not (is_accepting l.state) && s.non_block
    then (fails eagain, [], n)
    else (waits [] [], woken, after)

-- `Connect`.
unfoldable pub connect : ℕ → ℕ → ℕ → Node → Outcome
unfolding find_binder
connect t a path n =
    if not (n.sockets a).has_factory
    then (fails einval, [], n)
    else elim (find_binder path n) [ none ↦ (fails enoent, [], n) | some b ↦ connect_to t a b n ]

-- What `Connect` to the listener `b` does once its thread runs again, however it was woken up.
unfoldable pub connect_again : ℕ → ℕ → ℕ → ℕ → Node → Outcome
unfolding is_connected is_remote_closed
connect_again t a b path n =
    let m = drop_waiter a t n in
    let s = m.sockets a in
    let l = m.sockets b in
    if is_connected s.state || is_remote_closed s.state
    then (returns 0 [], [], put a (record s { connect_path = path }) m)
    else (fails eagain, [], put b (record l { queue = remove a l.queue }) m)

-- `InternalConnect`: whether it connects, and the threads that it wakes up.
unfoldable pub internal_connect : Socket → Bool × List ℕ × Socket
unfolding is_connecting
internal_connect s =
    if is_connecting s.state
    then (true, wake_either pollin pollout s.waiters, record s { state = connected })
    else (false, [], s)

abbrev set_queue : ℕ → List ℕ → Node → Node
set_queue a q n = put a (record (n.sockets a) { queue = q }) n

-- The listener `a` takes the first of its queue, `c`, and `q` remain. With the descriptor that is
-- allocated, and the address of the socket that is made. `next` is the next pass of the loop.
unfoldable pub accept_first :
    (List ℕ → Node → Outcome) → ℕ → Option ℕ → ℕ → ℕ → List ℕ → List ℕ → Node → Outcome
unfolding internal_connect accepted_socket close fails_assert
accept_first next a fd fresh c q woken n =
    let m = set_queue a q n in
    let (connects, w, s) = internal_connect (m.sockets c) in
    let path = (m.sockets a).bind_path in
    let linked = put c (record s { peer = some fresh }) (put fresh (accepted_socket c path) m) in
    let (r, hup, after) = close c m in
    let continued = next (woken ++ w) (put c s m) in
    elim fd [
      | none ↦
          if fails_assert r
          then (asserts, woken ++ hup, after)
          else (fails emfile, woken ++ hup, after)
      | some d ↦ if connects then (returns d [], woken ++ w, linked) else continued
    ]

-- The last loop of `Accept`: over the queue of the listener `a`.
unfoldable pub accept_loop : ℕ → Option ℕ → ℕ → List ℕ → List ℕ → Node → Outcome
accept_loop a fd fresh [] woken n = (fails unset, woken, n)
accept_loop a fd fresh (c ∷ q) woken n =
    accept_first (accept_loop a fd fresh q) a fd fresh c q woken n

-- `Accept` from its first loop on, for the queue of the listener `a`.
unfoldable pub accept_queue : ℕ → ℕ → Option ℕ → ℕ → List ℕ → Node → Outcome
accept_queue t a fd fresh [] n =
    let s = n.sockets a in
    if s.non_block
    then (fails eagain, [], n)
    else (waits [] [], [], add_waiter a (read_entry t) (put a (set_state accepting s) n))
accept_queue t a fd fresh (c ∷ q) n =
    accept_loop a fd fresh (c ∷ q) [] (put a (set_state listening (n.sockets a)) n)

abbrev pub accept_pass : ℕ → ℕ → Option ℕ → ℕ → Node → Outcome
accept_pass t a fd fresh n = accept_queue t a fd fresh (n.sockets a).queue n

-- `Accept`.
unfoldable pub accept : ℕ → ℕ → Option ℕ → ℕ → Node → Outcome
unfolding is_listening
accept t a fd fresh n =
    if not (is_listening (n.sockets a).state)
    then (fails einval, [], n)
    else accept_pass t a fd fresh n

unfoldable pub accept_again : Awoken → ℕ → ℕ → Option ℕ → ℕ → Node → Outcome
accept_again w t a fd fresh n =
    let m = drop_waiter a t n in
    elim w [
      | ok ↦ accept_pass t a fd fresh m
      | interrupted ↦ (fails eintr, [], m)
      | timeout ↦ (fails eagain, [], m)
    ]

-- `Shutdown`: for the reading and the writing side whether they are to be shut.
unfoldable pub shutdown : ℕ → Bool → Bool → Node → Outcome
unfolding is_connected is_remote_closed
shutdown a reading writing n =
    let s = n.sockets a in
    if not (is_connected s.state || is_remote_closed s.state) then (fails enotconn, [], n) else (
      returns 0 [],
      [],
      put a (record s { shut_read = s.shut_read || reading; shut_write = s.shut_write || writing })
          n,
    )

-- `CanRecv` and `CanSend`.
unfoldable pub can_recv : Socket → Bool
unfolding is_connected is_remote_closed is_accepting is_listening
can_recv s =
    if is_connected s.state || is_remote_closed s.state
    then ltb 0 s.buffer.total
    else if is_listening s.state || is_accepting s.state
    then ltb 0 (length s.queue)
    else false

unfoldable pub can_send : ℕ → Node → Bool
unfolding is_connected
can_send a n =
    let s = n.sockets a in
    if is_connected s.state
    then elim s.peer [ none ↦ false | some b ↦ ltb (n.sockets b).buffer.total max_buffer ]
    else true

-- `Poll`: whether there is input, whether there is room for output, and whether it is hung up.
unfoldable pub poll : ℕ → Node → Bool × Bool × Bool
unfolding can_recv can_send is_closed is_remote_closed
poll a n =
    let s = n.sockets a in (can_recv s, can_send a n, is_closed s.state || is_remote_closed s.state)

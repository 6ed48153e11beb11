-- ===== src/LocalStream/Transfer.antt =====
-- `Write`, `Read`, and the sums of `Recvmsg` and `Sendmsg` of model/local-stream-socket-fd.cc.
use ns_3_dce.Prelude.{
  ℕ, zero, suc, ◌+◌, ◌-◌, ◌^◌, ◌%◌, Bool, false, not, ◌&&◌, ◌||◌, Option, none, some, List, [], ◌∷◌,
  ◌++◌, ltb, ◌==◌, if◌then◌else◌, length, take, drop, ℤ, pos, negsuc,
}
use ns_3_dce.WaitQueue.{
  Entry, Awoken, ok, interrupted, timeout, pollout, read_entry, write_entry, wake_waiters,
  remove_waiter,
}
use ns_3_dce.LocalSocket.{do_recv_packet, Received, received, is_shut, no_memory, read_data}
use ns_3_dce.LocalStream.{
  State, Node, Errno, eagain, eintr, epipe, enotconn, einval, enomem, Pass, returns, fails, waits,
  waits_to_read, asserts, Outcome, is_connected, is_remote_closed, is_closed, put,
}

abbrev pub add_waiter : ℕ → Entry → Node → Node
add_waiter a e n = put a (record (n.sockets a) { waiters = (n.sockets a).waiters ++ e ∷ [] }) n

abbrev pub drop_waiter : ℕ → ℕ → Node → Node
drop_waiter a t n =
    put a (record (n.sockets a) { waiters = remove_waiter t (n.sockets a).waiters }) n

-- What follows the loop of `Write`; the bytes of `sent` were transferred.
unfoldable pub finish_write : State → List ℕ → Pass
finish_write state sent =
    if (length sent == 0) && not (is_connected state) then fails epipe else returns (length sent) []

module _ (malloc : ℕ → Bool) where
  -- A pass of the loop of `Write` to the peer `b`, by what `DoRecvPacket` gives; `again` is what
  -- follows a transfer that leaves some of the bytes.
  unfoldable pub write_received :
      (List ℕ → List ℕ → List ℕ → Node → Option Outcome)
      → ℕ
      → ℕ
      → List ℕ
      → List ℕ
      → List ℕ
      → Node
      → Received
      → Option Outcome
  write_received again t a sent rest woken m (received l) =
      let moved = sent ++ take l rest in
      let next = again moved (drop l rest) woken m in
      if l == 0
      then (if (m.sockets a).non_block
          then some (fails eagain, woken, m)
          else some (waits sent rest, woken, add_waiter a (write_entry t) m))
      else if ltb 0 (length (drop l rest)) && is_connected (m.sockets a).state
      then next
      else some (finish_write (m.sockets a).state moved, woken, m)
  write_received again t a sent rest woken m is_shut =
      if length sent == 0
      then some (fails epipe, woken, m)
      else some (finish_write (m.sockets a).state sent, woken, m)
  write_received again t a sent rest woken m no_memory = some (fails enomem, woken, m)

  unfoldable pub write_step :
      (List ℕ → List ℕ → List ℕ → Node → Option Outcome)
      → ℕ
      → ℕ
      → List ℕ
      → List ℕ
      → List ℕ
      → Node
      → Option Outcome
  write_step again t a sent rest woken n = elim (n.sockets a).peer [
    | none ↦ some (asserts, woken, n)
    | some b ↦
        let q = n.sockets b in
        let (r, w, buffer) =
          do_recv_packet malloc q.shut_read (is_closed q.state) q.waiters rest q.buffer in
        write_received again t a sent rest (woken ++ w) (put b (record q { buffer = buffer }) n) r
  ]

  -- `none` when the fuel is used up: after a transfer that leaves some bytes there is no room.
  unfoldable pub write_fuel : ℕ → ℕ → ℕ → List ℕ → List ℕ → List ℕ → Node → Option Outcome
  write_fuel zero t a sent rest woken n = none
  write_fuel (suc fuel) t a sent rest woken n =
      write_step (write_fuel fuel t a) t a sent rest woken n

  -- `Write`.
  unfoldable pub write : ℕ → ℕ → List ℕ → Node → Option Outcome
  write t a bytes n =
      let s = n.sockets a in
      if not (is_connected s.state)
      then (if is_remote_closed s.state
          then some (returns 0 [], [], n)
          else some (fails enotconn, [], n))
      else if s.shut_write
      then some (fails epipe, [], n)
      else write_fuel 2 t a [] bytes [] n

  unfoldable pub write_again : Awoken → ℕ → ℕ → List ℕ → List ℕ → Node → Option Outcome
  write_again w t a sent rest n =
      let m = drop_waiter a t n in
      let short = λ (e : Errno). if length sent == 0 then fails e else returns (length sent) [] in
      elim w [
        | ok ↦
            if ltb 0 (length rest) && is_connected (m.sockets a).state
            then write_fuel 2 t a sent rest [] m
            else some (finish_write (m.sockets a).state sent, [], m)
        | interrupted ↦ some (short eintr, [], m)
        | timeout ↦ some (short eagain, [], m)
      ]

-- Whether the peer, if there still is one, has shut down its writing side.
pub peer_shut_write : ℕ → Node → Bool
peer_shut_write a n = elim (n.sockets a).peer [ none ↦ false | some b ↦ (n.sockets b).shut_write ]

pub wake_peer : ℕ → Node → List ℕ
wake_peer a n = elim (n.sockets a).peer [
  | none ↦ []
  | some b ↦ wake_waiters pollout (n.sockets b).waiters
]

-- A pass of the loop of `Read`; `got` was read before, `want` is still wanted.
unfoldable pub read_step :
    (List ℕ → ℕ → List ℕ → Node → Option Outcome)
    → ℕ
    → ℕ
    → List ℕ
    → ℕ
    → List ℕ
    → Node
    → Option Outcome
read_step again t a got want woken n =
    let s = n.sockets a in
    let (bytes, buffer) = read_data false s.buffer want in
    let m = put a (record s { buffer = buffer }) n in
    let next = again (got ++ bytes) (want - length bytes) (woken ++ wake_peer a m) m in
    if not
      (ltb 0 want && (is_connected s.state || (is_remote_closed s.state && ltb 0 s.buffer.total)))
    then some (returns (length got) got, woken, n)
    else if ltb 0 (length bytes)
    then next
    else if s.non_block
    then (if length got == 0
        then some (fails eagain, woken, m)
        else some (returns (length got) got, woken, m))
    else if peer_shut_write a m
    then some (returns 0 got, woken, m)
    else some (waits_to_read got want, woken, add_waiter a (read_entry t) m)

-- `none` when the fuel is used up: after a pass that reads there is nothing left, or nothing wanted.
unfoldable pub read_fuel : ℕ → ℕ → ℕ → List ℕ → ℕ → List ℕ → Node → Option Outcome
read_fuel zero t a got want woken n = none
read_fuel (suc fuel) t a got want woken n = read_step (read_fuel fuel t a) t a got want woken n

-- `Read`.
unfoldable pub read : ℕ → ℕ → ℕ → Node → Option Outcome
read t a want n =
    let s = n.sockets a in
    if is_connected s.state || is_remote_closed s.state
    then read_fuel 2 t a [] want [] n
    else some (fails einval, [], n)

unfoldable pub read_again : Awoken → ℕ → ℕ → List ℕ → ℕ → Node → Option Outcome
read_again w t a got want n =
    let m = drop_waiter a t n in
    let short = λ (e : Errno). if length got == 0 then fails e else returns (length got) got in
    elim w [
      | ok ↦ read_fuel 2 t a got want [] m
      | interrupted ↦ some (short eintr, [], m)
      | timeout ↦ some (short eagain, [], m)
    ]

-- An `ssize_t` as the `size_t` to which the loops of `Recvmsg` and `Sendmsg` assign it.
abbrev pub as_size : ℤ → ℕ
as_size z = elim z [ pos n ↦ n | negsuc n ↦ 2 ^ 64 - 1 - n ]

-- `Recvmsg` and `Sendmsg`: the sum, from the results of the calls for the parts of the message. A
-- `size_t` is never below 0, so that the loop stops at a result 0 only.
unfoldable pub sum_results : List ℤ → ℕ → ℕ
sum_results [] sum = sum
sum_results (z ∷ zs) sum =
    let rest = sum_results zs ((sum + as_size z) % 2 ^ 64) in if as_size z == 0 then sum else rest

-- ===== src/LocalStream/Tests.antt =====
-- Stream sockets of model/local-stream-socket-fd.cc on a node with a few of them.
use ns_3_dce.Prelude.{
  ℕ, ◌≡◌, ◌<◌, Bool, true, none, some, [], ◌∷◌, count, refl, arith, pos, minus_one,
}
use ns_3_dce.WaitQueue.{pollin, wake_waiters}
use ns_3_dce.LocalSocket.{empty_buffer}
use ns_3_dce.LocalSocket.Bytes.{bytes_of, empty-IsValid}
use ns_3_dce.LocalStream.{
  connected, closed, Node, new_socket, returns, waits, Outcome, is_connected, close, peer_closed,
  clear_all, find_binder, accepted_socket,
}
use ns_3_dce.LocalStream.Transfer.{write, read, sum_results}
use ns_3_dce.LocalStream.Calls.{
  is_created, bind, listen, connect, connect_again, accept, connect_to, accept_queue, accept_loop,
  accept_first, internal_connect,
}
use ns_3_dce.LocalStream.Ends.{IsDone}
use ns_3_dce.LocalStream.Reach.{
  binds, listens, connects, accepts, closes, run, IsReached, at_first, later, calls_never_assert,
}
use ns_3_dce.LocalStream.Handshake.{IsLinked, handshake_lem}
use ns_3_dce.LocalStream.Conversation.{write_then_read}

abbrev gives : ℕ → Bool
gives k = true

-- Socket 1 listens under the name 7, socket 2 connects to it, and socket 3 is made for it.
abbrev at_start : Node
at_start = record { sockets = λ a. new_socket; binders = λ p. none }

abbrev bound : Node
bound = (bind 1 true 7 none at_start).2

abbrev heard : Node
heard = (listen 1 bound).2

abbrev asked : Node
asked = (connect 20 2 7 heard).2

abbrev linked : Node
linked = (accept 10 1 (some 5) 3 asked).2

linked-IsReached : IsReached gives linked
unfolding run bind listen connect connect_to accept accept_queue accept_loop accept_first
    internal_connect is_connected is_created new_socket accepted_socket find_binder wake_waiters
linked-IsReached =
    later asked (accepts 10 1 (some 5) 3) (accept 10 1 (some 5) 3 asked)
      (later heard (connects 20 2 7) (connect 20 2 7 heard)
        (later bound (listens 1) (listen 1 bound)
          (later at_start (binds 1 true 7 none) (bind 1 true 7 none at_start) (at_first (λ p. none))
            tt refl)
          tt refl)
        refl refl)
      refl refl

calls_never_assert_example : IsDone (run gives (closes 2) linked)
calls_never_assert_example = calls_never_assert gives linked (closes 2) linked-IsReached tt

handshake_lem_example :
    (asks : Outcome) × (accepts : Outcome) × (goes_on : Outcome) × (connect 20 2 7 heard ≡ asks)
    × (accept 10 1 (some 5) 3 asks.2 ≡ accepts)
    × (connect_again 20 2 1 7 accepts.2 ≡ goes_on)
    × (asks.0 ≡ waits [] [])
    × (accepts.0 ≡ returns 5 [])
    × (0 < count 20 accepts.1)
    × (goes_on.0 ≡ returns 0 [])
    × IsLinked 2 3 goes_on.2
unfolding bind listen connect connect_to accept accept_queue accept_loop accept_first
    internal_connect is_connected is_created new_socket accepted_socket find_binder wake_waiters
handshake_lem_example = handshake_lem 20 2 1 3 5 7 refl refl refl 10 heard refl refl refl refl refl

linked-IsLinked : IsLinked 2 3 linked
unfolding bind listen connect connect_to accept accept_queue accept_loop accept_first
    internal_connect is_connected is_created new_socket accepted_socket find_binder wake_waiters
linked-IsLinked = record {
  both_connected = (refl, refl);
  peer_of_first = refl;
  peer_of_second = refl;
}

write_then_read_example :
    (sent : Outcome) × (got : Outcome) × (write gives 20 2 (8 ∷ 9 ∷ []) linked ≡ some sent)
    × (sent.0 ≡ returns 2 [])
    × (sent.1 ≡ wake_waiters pollin (linked.sockets 3).waiters)
    × (read 10 3 2 sent.2 ≡ some got)
    × (got.0 ≡ returns 2 (8 ∷ 9 ∷ []))
    × (bytes_of (got.2.sockets 3).buffer.blocks ≡ [])
unfolding bind listen connect connect_to accept accept_queue accept_loop accept_first
    internal_connect is_connected is_created new_socket accepted_socket find_binder wake_waiters
    bytes_of empty_buffer
write_then_read_example =
    write_then_read gives 20 10 2 3 (8 ∷ 9 ∷ []) linked (λ k. refl) linked-IsLinked refl refl refl
      empty-IsValid (omega arith) (omega arith)

-- When the connected client 2 connects once more, and is accepted as socket 4, the first connection's
-- end takes it along: after socket 3 and then 2 are closed, socket 4 still has 2, closed, as its peer.
reconnected : Node
unfolding bind listen connect connect_to accept accept_queue accept_loop accept_first
    internal_connect is_connected is_created new_socket accepted_socket find_binder wake_waiters
    close
reconnected =
    let again = (connect 20 2 7 linked).2 in
    let twice = (accept 10 1 (some 6) 4 again).2 in (close 2 (close 3 twice).2).2

peer_closed_unseen :
    ((reconnected.sockets 4).state ≡ connected)
    × ((reconnected.sockets 4).peer ≡ some 2)
    × ((reconnected.sockets 2).state ≡ closed)
unfolding reconnected close peer_closed clear_all
peer_closed_unseen = (refl, refl, refl)

-- The first part gives 10 bytes, the second fails: the sum is 9.
failed_part : sum_results (pos 10 ∷ minus_one ∷ []) 0 ≡ 9
unfolding sum_results
failed_part = refl

-- ===== src/LocalDatagram/Tests.antt =====
-- Datagram sockets of model/local-datagram-socket-fd.cc on a node with a few of them.
use ns_3_dce.Prelude.{ℕ, ◌≡◌, ◌≢◌, true, false, none, some, [], ◌∷◌, count, remove, refl, arith}
use ns_3_dce.LocalSocket.{empty_buffer, do_recv_packet, read_data, take_blocks}
use ns_3_dce.LocalDatagram.{
  remote_closed, Datagrams, new_datagram, is_binded, bind_datagram, connect_datagram, connect_found,
  close_datagram, clear_datagram, leave_peer, remove_all, remove_connected, write_datagram,
}
use ns_3_dce.LocalDatagram.Pointers.{IsTied}
use ns_3_dce.LocalDatagram.Pointers.Closing.{close_leaves_no_pointer}
use ns_3_dce.LocalDatagram.Connecting.{connect-IsTied}

-- Socket 1 is bound to the name 7, and socket 2 is connected to it.
abbrev bound : Datagrams
bound =
    (bind_datagram 1 true 7 true (record { sockets = λ a. new_datagram; binders = λ p. none })).1

abbrev joined : Datagrams
joined = (connect_datagram 2 7 bound).1

bound-IsTied : IsTied bound
unfolding bind_datagram new_datagram count
bound-IsTied = record {
  kept = λ a b e. absurd (ground (arith, e));
  back = λ a b p. absurd (ground (arith, p));
}

joined-IsTied : IsTied joined
joined-IsTied = connect-IsTied 2 7 bound bound-IsTied

close_leaves_no_pointer_example :
    IsTied (close_datagram 1 joined).1
    × ((x : ℕ)
        → (((close_datagram 1 joined).1.sockets x).peer ≢ some 1)
          × (count 1 ((close_datagram 1 joined).1.sockets x).my_peers ≡ 0))
close_leaves_no_pointer_example = close_leaves_no_pointer 1 joined joined-IsTied

-- The client of a socket that is closed knows it.
client_told : ((close_datagram 1 joined).1.sockets 2).state ≡ remote_closed
unfolding bind_datagram connect_datagram connect_found is_binded new_datagram close_datagram
    clear_datagram leave_peer remove_all remove_connected remove
client_told = refl

-- Two datagrams of one byte are read as one of two bytes.
datagrams_merge :
    let first = (write_datagram (λ k. true) 2 (8 ∷ []) joined).2 in
    let second = (write_datagram (λ k. true) 2 (9 ∷ []) first).2 in
    (read_data false (second.sockets 1).buffer 5).0 ≡ 8 ∷ 9 ∷ []
unfolding bind_datagram connect_datagram connect_found is_binded new_datagram write_datagram
    do_recv_packet read_data take_blocks empty_buffer
datagrams_merge = refl

-- ===== src/LocalSocket/Tests.antt =====
-- The read buffer of model/local-socket-fd.cc on concrete bytes.
use ns_3_dce.Prelude.{◌≡◌, ◌<◌, true, false, [], ◌∷◌, arith, refl}
use ns_3_dce.WaitQueue.{read_entry}
use ns_3_dce.LocalSocket.{
  ReadBuffer, empty_buffer, do_recv_packet, read_data, linger, send_timeout, Settings, setsockopt,
}
use ns_3_dce.LocalSocket.Bytes.{IsValid, bytes_of, DidReceive, read_data_lem, do_recv_packet_lem}
use ns_3_dce.LocalSocket.Stuck.{receive_all, empty_packet_blocks}

abbrev two_blocks : ReadBuffer
two_blocks = record {
  blocks =
      record { bytes = 1 ∷ 2 ∷ []; read_offset = 1 }
      ∷ record { bytes = 3 ∷ 4 ∷ []; read_offset = 0 }
      ∷ [];
  total = 3;
}

two-IsValid : IsValid two_blocks
unfolding bytes_of
two-IsValid = record {
  some_left = (omega arith, (omega arith, tt));
  total_fits = refl;
  total_le = omega arith;
}

read_data_lem_example :
    let (copied, b') = read_data true two_blocks 2 in
    let (bytes, b'') = read_data false two_blocks 2 in
    (copied ≡ bytes)
    × (b' ≡ two_blocks)
    × (bytes ≡ 2 ∷ 3 ∷ [])
    × (bytes_of b''.blocks ≡ 4 ∷ [])
    × IsValid b''
unfolding bytes_of
read_data_lem_example = read_data_lem two_blocks 2 two-IsValid

do_recv_packet_lem_example :
    (0 < 2)
    × DidReceive
        (read_entry 3 ∷ [])
        (5 ∷ 6 ∷ [])
        two_blocks
        2
        (do_recv_packet (λ n. true) false false (read_entry 3 ∷ []) (5 ∷ 6 ∷ []) two_blocks)
do_recv_packet_lem_example =
    do_recv_packet_lem (λ n. true) (read_entry 3 ∷ []) (5 ∷ 6 ∷ []) two_blocks two-IsValid
      (omega arith) (omega arith) refl

empty_packet_blocks_example :
    (read_data false (receive_all (λ n. true) [] ([] ∷ (7 ∷ 8 ∷ []) ∷ []) empty_buffer) 5).0 ≡ []
empty_packet_blocks_example = empty_packet_blocks (λ n. true) [] ((7 ∷ 8 ∷ []) ∷ []) 5 refl

abbrev no_settings : Settings
no_settings = record { linger_time = 0; recv_timeout = 0; send_timeout = 0 }

-- The linger option is stored, and reported as refused.
linger_refused :
    setsockopt true linger (record { is_present = true; on = true; value = 9 }) no_settings
    ≡ (false, record no_settings { linger_time = 9 })
unfolding setsockopt
linger_refused = refl

timeout_taken :
    setsockopt true send_timeout (record { is_present = true; on = true; value = 9 }) no_settings
    ≡ (true, record no_settings { send_timeout = 9 })
unfolding setsockopt
timeout_taken = refl

-- ===== src/LocalStream/Conversation.antt =====
-- Bytes that go from a socket of model/local-stream-socket-fd.cc to the one connected to it.
use ns_3_dce.Prelude.{
  ℕ, ◌+◌, ◌-◌, ◌≤◌, ◌<◌, ◌≡◌, Bool, true, false, some, List, [], ◌∷◌, ◌++◌, ◌==◌, min, refl, ap,
  ◌∙◌, arith, length, take, drop, length-drop, length-append, take_all, subst, zero, suc,
}
use ns_3_dce.WaitQueue.{pollin, wake_waiters}
use ns_3_dce.LocalSocket.{ReadBuffer, max_buffer, do_recv_packet, Received, received, read_data}
use ns_3_dce.LocalSocket.Bytes.{IsValid, bytes_of, DidReceive, do_recv_packet_lem, read_data_lem}
use ns_3_dce.LocalStream.{connected, Node, returns, Outcome, is_connected, is_closed, put}
use ns_3_dce.LocalStream.Transfer.{
  finish_write, write_received, write_step, write_fuel, write, wake_peer, read_step, read_fuel,
  read,
}
use ns_3_dce.LocalStream.Handshake.{IsLinked}

module _ (malloc : ℕ → Bool) (a b : ℕ) (n : Node) where
  -- What `DoRecvPacket` of the peer gives.
  packet : List ℕ → Received × List ℕ × ReadBuffer
  packet bytes =
      let q = n.sockets b in
      do_recv_packet malloc q.shut_read (is_closed q.state) q.waiters bytes q.buffer

  write_whole :
      (t : ℕ) (bytes : List ℕ)
      → (n.sockets a).state ≡ connected
      → (n.sockets a).shut_write ≡ false
      → (n.sockets a).peer ≡ some b
      → (packet bytes).0 ≡ received (length bytes)
      → 0 < length bytes
      → (a == b) ≡ false
      → write malloc t a bytes n
        ≡ some (
          returns (length bytes) [],
          (packet bytes).1,
          put b (record (n.sockets b) { buffer = (packet bytes).2 }) n,
        )
  unfolding write write_fuel write_step write_received finish_write is_connected packet
  write_whole t bytes c s p r l o = ground (
    arith,
    c,
    s,
    p,
    r,
    l,
    o,
    length-drop (length bytes) bytes,
    take_all (length bytes) bytes (omega arith),
  )

-- A read of as many bytes as wait.
read_whole :
    (u b want : ℕ) (m : Node)
    → (m.sockets b).state ≡ connected
    → length (read_data false (m.sockets b).buffer want).0 ≡ want
    → 0 < want
    → let r = read_data false (m.sockets b).buffer want in
      let k = put b (record (m.sockets b) { buffer = r.1 }) m in
      read u b want m ≡ some (returns want r.0, wake_peer b k, k)
unfolding read read_fuel read_step is_connected
read_whole u b want m c e p = ground (arith, c, e, p)

-- The packet takes all the bytes.
packet_whole :
    (malloc : ℕ → Bool) (a b : ℕ) (n : Node) (bytes : List ℕ)
    → ((k : ℕ) → malloc k ≡ true)
    → (n.sockets b).state ≡ connected
    → (n.sockets b).shut_read ≡ false
    → IsValid (n.sockets b).buffer
    → 0 < length bytes
    → (n.sockets b).buffer.total + length bytes ≤ max_buffer
    → DidReceive
        (n.sockets b).waiters
        bytes
        (n.sockets b).buffer
        (length bytes)
        (packet malloc a b n bytes)
unfolding packet is_closed
packet_whole malloc a b n bytes memory c sr v some_bytes fits =
    let q = n.sockets b in
    let o = do_recv_packet malloc false false q.waiters bytes q.buffer in
    let (p, d) =
      do_recv_packet_lem malloc q.waiters bytes q.buffer v some_bytes (omega arith) (memory _) in
    let small : min (max_buffer - q.buffer.total) (length bytes) ≡ length bytes = omega arith in
    rw (sr, c) (subst (λ k. DidReceive q.waiters bytes q.buffer k o) small d)

drop_all : (n : ℕ) (xs : List ℕ) → length xs ≤ n → drop n xs ≡ []
drop_all zero [] h = refl
drop_all (suc n) [] h = refl
drop_all zero (x ∷ xs) h = absurd (omega (arith, h))
drop_all (suc n) (x ∷ xs) h = drop_all n xs (omega (arith, h))

-- A read of the whole of a buffer.
read_all :
    (b : ReadBuffer) (all : List ℕ)
    → IsValid b
    → bytes_of b.blocks ≡ all
    → ((read_data false b (length all)).0 ≡ all)
      × (bytes_of (read_data false b (length all)).1.blocks ≡ [])
read_all b all v e =
    let (x, y, z, w, u) = read_data_lem b (length all) v in
    (
      z ∙ ap (take (length all)) e ∙ take_all (length all) all (omega arith),
      w ∙ ap (drop (length all)) e ∙ drop_all (length all) all (omega arith),
    )

-- On sockets that are connected to each other, where neither the writing side of the one nor the
-- reading side of the other was shut, memory is given, and there is room for all the bytes: `Write` of
-- at least one byte on the one returns the number of the bytes, and wakes up all that wait for input
-- on the other; a `Read` there of as many as then wait gives those that waited before and, behind
-- them, the ones that were written, and leaves none.
pub write_then_read :
    (malloc : ℕ → Bool) (t u a b : ℕ) (bytes : List ℕ) (n : Node)
    → ((k : ℕ) → malloc k ≡ true)
    → IsLinked a b n
    → (a == b) ≡ false
    → (n.sockets a).shut_write ≡ false
    → (n.sockets b).shut_read ≡ false
    → IsValid (n.sockets b).buffer
    → 0 < length bytes
    → (n.sockets b).buffer.total + length bytes ≤ max_buffer
    → let all = bytes_of (n.sockets b).buffer.blocks ++ bytes in
      (sent : Outcome) × (got : Outcome) × (write malloc t a bytes n ≡ some sent)
      × (sent.0 ≡ returns (length bytes) [])
      × (sent.1 ≡ wake_waiters pollin (n.sockets b).waiters)
      × (read u b (length all) sent.2 ≡ some got)
      × (got.0 ≡ returns (length all) all)
      × (bytes_of (got.2.sockets b).buffer.blocks ≡ [])
write_then_read malloc t u a b bytes n memory l o sw sr v some_bytes fits =
    let q = n.sockets b in
    let old = bytes_of q.buffer.blocks in
    let r = packet malloc a b n bytes in
    let d = packet_whole malloc a b n bytes memory l.both_connected.1 sr v some_bytes fits in
    let sent =
      write_whole malloc a b n t bytes l.both_connected.0 sw l.peer_of_first d.count some_bytes o in
    let m = put b (record q { buffer = r.2 }) n in
    let there : (m.sockets b).buffer ≡ r.2 = ground arith in
    let state : (m.sockets b).state ≡ connected = ground (arith, l.both_connected.1) in
    let (given, left) =
      read_all r.2 (old ++ bytes) d.valid
        (d.behind ∙ ap (λ x. old ++ x) (take_all (length bytes) bytes (omega arith))) in
    let many : 0 < length (old ++ bytes) = omega (arith, length-append old bytes) in
    let same =
      ap (λ (x : ReadBuffer). (read_data false x (length (old ++ bytes))).0) there ∙ given in
    let got = read_whole u b (length (old ++ bytes)) m state (ap length same) many in
    (
      _,
      _,
      sent,
      refl,
      d.woken,
      got,
      ap (returns (length (old ++ bytes))) same,
      ground (arith, there, left),
    )

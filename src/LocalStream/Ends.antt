-- ===== src/LocalStream/Ends.antt =====
-- `Write` and `Read` of model/local-stream-socket-fd.cc end, and keep sockets each other's peers.
use ns_3_dce.Prelude.{
  ℕ, ◌-◌, ◌≤◌, ◌<◌, ◌≡◌, Bool, true, false, not, ◌&&◌, ◌||◌, Option, some, List, [], ◌++◌, ltb,
  ◌==◌, arith, length, take, drop, refl, ap, if_all, length-drop,
}
use ns_3_dce.WaitQueue.{Entry, Awoken, ok, interrupted, timeout}
use ns_3_dce.LocalSocket.{
  ReadBuffer, max_buffer, do_recv_packet, Received, received, is_shut, no_memory, read_data,
  take_blocks,
}
use ns_3_dce.LocalSocket.Rest.{read_stops}
use ns_3_dce.LocalStream.{
  Node, eagain, epipe, enotconn, einval, enomem, Pass, returns, fails, waits, Outcome, fails_assert,
  is_connected, is_remote_closed, is_closed, put,
}
use ns_3_dce.LocalStream.Transfer.{
  drop_waiter, finish_write, write_received, write_step, write_fuel, write, write_again,
  peer_shut_write, read_step, read_fuel, read, read_again,
}
use ns_3_dce.LocalStream.Paired.{IsPaired, IsKept, touch-IsPaired}
use ns_3_dce.LocalStream.Kept.{kept, drop_waiter-IsPaired}

-- A call of a node that ends, and keeps it paired.
pub record IsDone (o : Option Outcome) : Type 0 where
  pub outcome : Outcome
  pub gives : o ≡ some outcome
  pub keeps : IsKept outcome

done :
    (r : Pass) (woken : List ℕ) (n : Node)
    → fails_assert r ≡ false
    → IsPaired n
    → IsDone (some (r, woken, n))
done r woken n e p = record { outcome = (r, woken, n); gives = refl; keeps = kept r woken n e p }

finish-kept :
    (sent : List ℕ) (n : Node) (a : ℕ)
    → fails_assert (finish_write (n.sockets a).state sent) ≡ false
unfolding finish_write fails_assert
finish-kept sent n a = ground arith

-- A transfer that leaves bytes leaves no room, and one without room takes none.
packet_fills :
    (malloc : ℕ → Bool) (shut closed : Bool) (ws : List Entry) (bytes : List ℕ) (b : ReadBuffer)
    (l : ℕ)
    → (do_recv_packet malloc shut closed ws bytes b).0 ≡ received l
    → ltb 0 (length (drop l bytes)) ≡ true
    → max_buffer ≤ (do_recv_packet malloc shut closed ws bytes b).2.total
unfolding do_recv_packet
packet_fills malloc shut closed ws bytes b l e h = ground (arith, e, h, length-drop l bytes)

packet_refused :
    (malloc : ℕ → Bool) (shut closed : Bool) (ws : List Entry) (bytes : List ℕ) (b : ReadBuffer)
    (l : ℕ)
    → max_buffer ≤ b.total
    → (do_recv_packet malloc shut closed ws bytes b).0 ≡ received l
    → (l == 0) ≡ true
unfolding do_recv_packet
packet_refused malloc shut closed ws bytes b l full e = ground (arith, e, full)

and_left : (a b : Bool) → (a && b) ≡ true → a ≡ true
and_left a b h = ground (arith, h)

module _ (malloc : ℕ → Bool) where
  -- A pass of `Write`, when the next one ends where there is one.
  write_received-IsDone :
      (again : List ℕ → List ℕ → List ℕ → Node → Option Outcome) (t a : ℕ)
      (sent rest woken : List ℕ) (m : Node) (r : Received)
      → IsPaired m
      → ((l : ℕ)
          → r ≡ received l
          → (l == 0) ≡ false
          → ltb 0 (length (drop l rest)) ≡ true
          → IsDone (again (sent ++ take l rest) (drop l rest) woken m))
      → IsDone (write_received malloc again t a sent rest woken m r)
  unfolding write_received fails_assert
  write_received-IsDone again t a sent rest woken m (received l) p later =
      if_all IsDone (l == 0) _ _
        (λ z.
          if_all IsDone (m.sockets a).non_block _ _ (λ h. done (fails eagain) woken m refl p)
            (λ h. done (waits sent rest) woken _ refl (touch-IsPaired a _ m p refl refl refl)))
        (λ z.
          if_all IsDone (ltb 0 (length (drop l rest)) && is_connected (m.sockets a).state) _ _
            (λ h. later l refl z (and_left _ _ h))
            (λ h. done _ woken m (finish-kept (sent ++ take l rest) m a) p))
  write_received-IsDone again t a sent rest woken m is_shut p later =
      if_all IsDone (length sent == 0) _ _ (λ z. done (fails epipe) woken m refl p)
        (λ z. done _ woken m (finish-kept sent m a) p)
  write_received-IsDone again t a sent rest woken m no_memory p later =
      done (fails enomem) woken m refl p

  module _ (t a b : ℕ) where
    -- The node after a transfer to the peer `b`.
    sent_to : List ℕ → Node → Node
    sent_to rest n =
        let q = n.sockets b in
        put b
          (record q {
            buffer =
                (do_recv_packet malloc q.shut_read (is_closed q.state) q.waiters rest q.buffer).2;
          })
          n

    sent_to-IsPaired : (rest : List ℕ) (n : Node) → IsPaired n → IsPaired (sent_to rest n)
    unfolding sent_to
    sent_to-IsPaired rest n p = touch-IsPaired b _ n p refl refl refl

    -- When there is no room, the pass is the last.
    write_last-IsDone :
        (sent rest woken : List ℕ) (n : Node)
        → IsPaired n
        → (n.sockets a).peer ≡ some b
        → max_buffer ≤ (n.sockets b).buffer.total
        → IsDone (write_fuel malloc 1 t a sent rest woken n)
    unfolding write_fuel write_step sent_to
    write_last-IsDone sent rest woken n p e full =
        let q = n.sockets b in
        rw (e, write_fuel, write_step)
          (write_received-IsDone (write_fuel malloc 0 t a) t a sent rest _ (sent_to rest n) _
            (sent_to-IsPaired rest n p)
            (λ l r z h. absurd (
              cc (
                z,
                packet_refused malloc q.shut_read (is_closed q.state) q.waiters rest q.buffer l full
                    r,
              ))))

    write_fuel-IsDone :
        (sent rest : List ℕ) (n : Node)
        → IsPaired n
        → (n.sockets a).peer ≡ some b
        → IsDone (write_fuel malloc 2 t a sent rest [] n)
    unfolding write_fuel write_step sent_to
    write_fuel-IsDone sent rest n p e =
        let q = n.sockets b in
        rw (e, write_fuel, write_step)
          (write_received-IsDone (write_fuel malloc 1 t a) t a sent rest _ (sent_to rest n) _
            (sent_to-IsPaired rest n p)
            (λ l r z h.
              write_last-IsDone (sent ++ take l rest) (drop l rest) _ (sent_to rest n)
                (sent_to-IsPaired rest n p) (ground (arith, e))
                (ground (
                  arith,
                  packet_fills malloc q.shut_read (is_closed q.state) q.waiters rest q.buffer l r h,
                ))))

  -- On paired sockets `Write` ends, at a return, a failure or a wait, by no assertion, and leaves them
  -- paired.
  pub write-IsDone :
      (t a : ℕ) (bytes : List ℕ) (n : Node) → IsPaired n → IsDone (write malloc t a bytes n)
  unfolding write fails_assert
  write-IsDone t a bytes n p =
      if_all IsDone (not (is_connected (n.sockets a).state)) _ _
        (λ c.
          if_all IsDone (is_remote_closed (n.sockets a).state) _ _
            (λ h. done (returns 0 []) [] n refl p) (λ h. done (fails enotconn) [] n refl p))
        (λ c.
          if_all IsDone (n.sockets a).shut_write _ _ (λ h. done (fails epipe) [] n refl p)
            (λ h.
              let (b, e) = (p.whole a).has_peer (ground (arith, c)) in
              write_fuel-IsDone t a b [] bytes n p e))

  pub write_again-IsDone :
      (w : Awoken) (t a : ℕ) (sent rest : List ℕ) (n : Node)
      → IsPaired n
      → IsDone (write_again malloc w t a sent rest n)
  unfolding write_again fails_assert
  write_again-IsDone ok t a sent rest n p =
      let m = drop_waiter a t n in
      let q = drop_waiter-IsPaired a t n p in
      if_all IsDone (ltb 0 (length rest) && is_connected (m.sockets a).state) _ _
        (λ h.
          let (b, e) = (q.whole a).has_peer (ground (arith, h)) in
          write_fuel-IsDone t a b sent rest m q e)
        (λ h. done _ [] m (finish-kept sent m a) q)
  write_again-IsDone interrupted t a sent rest n p =
      done _ [] _ (ground arith) (drop_waiter-IsPaired a t n p)
  write_again-IsDone timeout t a sent rest n p =
      done _ [] _ (ground arith) (drop_waiter-IsPaired a t n p)

wants_more : (a b : Bool) → not (a && b) ≡ false → a ≡ true
wants_more a b h = ground (arith, h)

-- A pass of `Read`, when the next one ends where there is one.
read_step-IsDone :
    (again : List ℕ → ℕ → List ℕ → Node → Option Outcome) (t a : ℕ) (got : List ℕ) (want : ℕ)
    (woken : List ℕ) (n : Node)
    → IsPaired n
    → (let (bytes, buffer) = read_data false (n.sockets a).buffer want in
        let m = put a (record (n.sockets a) { buffer = buffer }) n in
        ltb 0 want ≡ true
        → ltb 0 (length bytes) ≡ true
        → IsPaired m
        → (w : List ℕ) → IsDone (again (got ++ bytes) (want - length bytes) w m))
    → IsDone (read_step again t a got want woken n)
unfolding read_step fails_assert
read_step-IsDone again t a got want woken n p later =
    let s = n.sockets a in
    let r = read_data false s.buffer want in
    let m = put a (record s { buffer = r.1 }) n in
    let q : IsPaired m = touch-IsPaired a _ n p refl refl refl in
    if_all IsDone
      (not (
        ltb 0 want && (is_connected s.state || (is_remote_closed s.state && ltb 0 s.buffer.total))))
      _ _ (λ h. done _ woken n refl p)
      (λ h.
        if_all IsDone (ltb 0 (length r.0)) _ _ (λ k. later (wants_more _ _ h) k q _)
          (λ k.
            if_all IsDone s.non_block _ _
              (λ b.
                if_all IsDone (length got == 0) _ _ (λ z. done _ woken m refl q)
                  (λ z. done _ woken m refl q))
              (λ b.
                if_all IsDone (peer_shut_write a m) _ _ (λ z. done _ woken m refl q)
                  (λ z. done _ woken _ refl (touch-IsPaired a _ m q refl refl refl)))))

module _ (t a : ℕ) where
  -- When the buffer gives nothing to a pass that wants bytes, the pass is the last.
  read_last-IsDone :
      (got : List ℕ) (want : ℕ) (woken : List ℕ) (n : Node)
      → IsPaired n
      → (0 < want → (take_blocks (n.sockets a).buffer.blocks want).0 ≡ [])
      → IsDone (read_fuel 1 t a got want woken n)
  unfolding read_fuel read_data
  read_last-IsDone got want woken n p nothing =
      read_step-IsDone (read_fuel 0 t a) t a got want woken n p (λ l h q w.
        let size : length (take_blocks (n.sockets a).buffer.blocks want).0 ≡ 0 =
          ap length (nothing (ground (arith, l))) in
        absurd (ground (arith, h, size)))

  read_fuel-IsDone :
      (got : List ℕ) (want : ℕ) (n : Node) → IsPaired n → IsDone (read_fuel 2 t a got want [] n)
  unfolding read_fuel read_data
  read_fuel-IsDone got want n p =
      let b = (n.sockets a).buffer in
      read_step-IsDone (read_fuel 1 t a) t a got want [] n p (λ l h q w.
        read_last-IsDone _ _ w _ q
          (λ left. ground (arith, read_stops b.blocks want (omega (arith, left)))))

  -- On paired sockets `Read` ends, at a return, a failure or a wait, by no assertion, and leaves them
  -- paired.
  pub read-IsDone : (want : ℕ) (n : Node) → IsPaired n → IsDone (read t a want n)
  unfolding read fails_assert
  read-IsDone want n p =
      if_all IsDone (is_connected (n.sockets a).state || is_remote_closed (n.sockets a).state) _ _
        (λ h. read_fuel-IsDone [] want n p) (λ h. done (fails einval) [] n refl p)

  pub read_again-IsDone :
      (w : Awoken) (got : List ℕ) (want : ℕ) (n : Node)
      → IsPaired n
      → IsDone (read_again w t a got want n)
  unfolding read_again fails_assert
  read_again-IsDone ok got want n p =
      read_fuel-IsDone got want (drop_waiter a t n) (drop_waiter-IsPaired a t n p)
  read_again-IsDone interrupted got want n p =
      done _ [] _ (ground arith) (drop_waiter-IsPaired a t n p)
  read_again-IsDone timeout got want n p = done _ [] _ (ground arith) (drop_waiter-IsPaired a t n p)

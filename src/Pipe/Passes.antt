-- ===== src/Pipe/Passes.antt =====
-- The calls on a pipe of model/pipe-fd.cc, each with what it does for the threads in the queue.
use ns_3_dce.Prelude.{
  ℕ, Bool, ◌+◌, ◌<◌, ◌≤◌, ◌≡◌, ◌^◌, inl, inr, true, false, Option, some, List, [], ◌++◌, ltb, arith,
  if◌then◌else◌, pos, min, length, take, refl, sym, ◌∙◌, ap, subst, count, length-take, length-drop,
  length-append, Bool-cases,
}
use ns_3_dce.FifoBuffer.{FifoBuffer, read_bytes}
use ns_3_dce.FifoBuffer.Valid.{contents}
use ns_3_dce.FifoBuffer.Read.{DidRead, read_gives_oldest}
use ns_3_dce.WaitQueue.{
  pollin, pollout, pollhup, Awoken, ok, interrupted, timeout, wake_waiters, remove_waiter,
  read_entry, write_entry,
}
use ns_3_dce.Pipe.{
  Side, reading, writing, Pipe, Pass, epipe, eagain, returns, fails, is_broken, waits, faults,
  wait_on_reader, do_recv_packet, finish_write, pipe_write, write_again, read_pass, read_again,
  close, close_fuel, end_of, other_side,
}
use ns_3_dce.Pipe.Transfer.{room, with_buf, buffer_takes}
use ns_3_dce.Pipe.Closing.{shut, close_lem}
use ns_3_dce.Pipe.Serving.{
  IsSound, waiting_bytes, Serves, Serves-none, Serves-wait, Serves-taken, Serves-given, Serves-same,
  ReadServes, WriteServes, IsIn-wake, IsIn-push, read_wants, write_wants, in_left, in_right,
}

pub read_pass-serves :
    (t len : ℕ) (p : Pipe) → IsSound p → 0 < len → ReadServes t p (read_pass t len p)
unfolding read_pass wait_on_reader
read_pass-serves t len p v n = elim (Bool-cases (ltb 0 (length (take len (contents p.buf))))) [
  | inl some_wait ↦
      let e : read_pass t len p ≡ (
        returns (read_bytes p.buf len).0 (read_bytes p.buf len).1,
        (if p.reader.has_peer then wake_waiters pollout p.writer.waiters else [])
            ++ wake_waiters pollout p.reader.waiters,
        with_buf b p,
      ) =
        ground (arith, d.count, d.oldest, some_wait) in
      subst (ReadServes t p) (sym e)
        (record { others = Serves-taken b p _ v d.valid fewer; own = λ w. absurd cc })
  | inr none_wait ↦
      let zero : waiting_bytes p ≡ 0 = omega (arith, none_wait_le none_wait) in
      let same : length (contents b) ≡ waiting_bytes p = omega (arith, fewer, zero) in
      elim (Bool-cases p.reader.has_peer) [
        | inr c ↦
            let e : read_pass t len p ≡ (fails epipe, [], with_buf b p) =
              ground (arith, d.count, d.oldest, none_wait, c) in
            subst (ReadServes t p) (sym e) (record {
              others = Serves-same b p [] v d.valid d.same_max same;
              own = λ w. absurd cc;
            })
        | inl c ↦ elim (Bool-cases p.reader.non_block) [
          | inl k ↦
              let e : read_pass t len p ≡ (fails eagain, [], with_buf b p) =
                ground (arith, d.count, d.oldest, none_wait, c, k) in
              subst (ReadServes t p) (sym e) (record {
                others = Serves-same b p [] v d.valid d.same_max same;
                own = λ w. absurd cc;
              })
          | inr k ↦
              let e : read_pass t len p
                  ≡ (waits, [], wait_on_reader (read_entry t) (with_buf b p)) =
                ground (arith, d.count, d.oldest, none_wait, c, k) in
              subst (ReadServes t p) (sym e) (record {
                others = Serves-wait (read_entry t) b p v d.valid d.same_max same;
                own = λ w.
                    (IsIn-push (read_entry t) p.reader.waiters, (omega (arith, same, zero), c));
              })
        ]
      ]
]
  where
    b : FifoBuffer
    b = (read_bytes p.buf len).2

    d : DidRead p.buf len (read_bytes p.buf len).0 (read_bytes p.buf len).1 b
    d = read_gives_oldest p.buf len v.valid

    fewer : length (contents b) ≤ waiting_bytes p
    fewer = omega (arith, ap length d.rest, length-drop len (contents p.buf))

    none_wait_le : ltb 0 (length (take len (contents p.buf))) ≡ false → waiting_bytes p ≡ 0
    none_wait_le h = ground (arith, h, n, length-take len (contents p.buf))

pub read_again-serves :
    (aw : Awoken) (t len : ℕ) (p : Pipe)
    → IsSound p
    → 0 < len
    → ReadServes t
        (record p { reader = record p.reader { waiters = remove_waiter t p.reader.waiters } })
        (read_again aw t len p)
unfolding read_again
read_again-serves ok t len p v n =
    read_pass-serves t len
      (record p { reader = record p.reader { waiters = remove_waiter t p.reader.waiters } })
      (record { valid = v.valid; same_peer = v.same_peer }) n
read_again-serves interrupted t len p v n = record {
  others = Serves-none _ [] (record { valid = v.valid; same_peer = v.same_peer });
  own = λ w. absurd cc;
}
read_again-serves timeout t len p v n = record {
  others = Serves-none _ [] (record { valid = v.valid; same_peer = v.same_peer });
  own = λ w. absurd cc;
}

module _ (malloc : ℕ → Option (List ℕ))
    (malloc_gives : (n : ℕ) → (block : List ℕ) × (malloc n ≡ some block))
    (malloc_size : (n : ℕ) (block : List ℕ) → malloc n ≡ some block → length block ≡ n) where
  -- A pass of `DoRecvPacket` and what `Write` does after it: it returns, and serves.
  pub write_pass-serves :
      (t : ℕ) (bytes : List ℕ) (p : Pipe)
      → IsSound p
      → 0 < length bytes
      → length bytes < 2 ^ 63
      → (r : Pass × List ℕ × Pipe) × (do_recv_packet malloc t bytes p ≡ some r)
        × WriteServes t p (finish_write malloc r)
  unfolding do_recv_packet finish_write wait_on_reader
  write_pass-serves t bytes p v n s =
      let (b, e, h, m, c) = buffer_takes malloc malloc_gives malloc_size p bytes v.valid s in
      let grown : length (contents b) ≡ waiting_bytes p + length (take (room p) bytes) =
        ap length c ∙ length-append (contents p.buf) (take (room p) bytes) in
      elim (Bool-cases (ltb 0 (min (length bytes) (room p)))) [
        | inl some_go ↦ (
          (
            returns (pos (min (length bytes) (room p))) [],
            wake_waiters pollin p.reader.waiters,
            with_buf b p,
          ),
          ground (arith, e, some_go),
          record { others = Serves-given b p _ v h m (omega (arith, grown)); own = λ w. absurd cc },
        )
        | inr none_go ↦
            let full : room p ≡ 0 = ground (arith, none_go, n) in
            let same : length (contents b) ≡ waiting_bytes p =
              omega (arith, grown, full, length-take (room p) bytes) in
            elim (Bool-cases p.reader.has_peer) [
              | inr k ↦ (
                (faults, [], with_buf b p),
                ground (arith, e, none_go, k),
                record { others = Serves-same b p _ v h m same; own = λ w. absurd cc },
              )
              | inl k ↦ elim (Bool-cases p.writer.non_block) [
                | inl q ↦ (
                  (fails eagain, [], with_buf b p),
                  ground (arith, e, none_go, k, q),
                  record { others = Serves-same b p _ v h m same; own = λ w. absurd cc },
                )
                | inr q ↦ (
                  (waits, [], wait_on_reader (write_entry t) (with_buf b p)),
                  ground (arith, e, none_go, k, q),
                  record {
                    others = Serves-wait (write_entry t) b p v h m same;
                    own = λ w. (
                      IsIn-push (write_entry t) p.reader.waiters,
                      (omega (arith, full, same, m), k),
                    );
                  },
                )
              ]
            ]
      ]

  pub pipe_write-serves :
      (t : ℕ) (bytes : List ℕ) (p : Pipe)
      → IsSound p
      → 0 < length bytes
      → length bytes < 2 ^ 63
      → (r : Pass × List ℕ × Pipe) × (pipe_write malloc writing t bytes p ≡ some r)
        × WriteServes t p r
  unfolding pipe_write end_of
  pipe_write-serves t bytes p v n s = elim (Bool-cases p.writer.has_peer) [
    | inl c ↦
        let (r, e, w) = write_pass-serves t bytes p v n s in
        (finish_write malloc r, ground (arith, c, e), w)
    | inr c ↦ (
      (is_broken, [], p),
      ground (arith, c),
      record { others = Serves-none p [] v; own = λ w. absurd cc },
    )
  ]

  pub write_again-serves :
      (aw : Awoken) (t : ℕ) (bytes : List ℕ) (p : Pipe)
      → IsSound p
      → 0 < length bytes
      → length bytes < 2 ^ 63
      → (r : Pass × List ℕ × Pipe) × (write_again malloc aw t bytes p ≡ some r)
        × WriteServes t
            (record p { reader = record p.reader { waiters = remove_waiter t p.reader.waiters } })
            r
  unfolding write_again finish_write
  write_again-serves ok t bytes p v n s =
      let (r, e, w) =
        write_pass-serves t bytes
          (record p { reader = record p.reader { waiters = remove_waiter t p.reader.waiters } })
          (record { valid = v.valid; same_peer = v.same_peer }) n s in
      (finish_write malloc r, ground (arith, e), w)
  write_again-serves interrupted t bytes p v n s = (
    _,
    refl,
    record {
      others = Serves-none _ _ (record { valid = v.valid; same_peer = v.same_peer });
      own = λ w. absurd cc;
    },
  )
  write_again-serves timeout t bytes p v n s = (
    _,
    refl,
    record {
      others = Serves-none _ _ (record { valid = v.valid; same_peer = v.same_peer });
      own = λ w. absurd cc;
    },
  )

-- The threads in the queue are woken up by a close, first or second.
close_woken :
    (side : Side) (u : ℕ) (p : Pipe)
    → 0 < count u (wake_waiters pollhup p.reader.waiters)
    → 0
      < count u (
          wake_waiters pollhup (end_of (other_side side) p).waiters
          ++ wake_waiters pollhup (end_of side p).waiters)
unfolding end_of
close_woken reading u p h = in_right u _ (wake_waiters pollhup p.reader.waiters) h
close_woken writing u p h = in_left u (wake_waiters pollhup p.reader.waiters) _ h

pub close-serves :
    (side : Side) (p : Pipe)
    → IsSound p
    → (r : Bool × List ℕ × Pipe) × (close side p ≡ some r) × Serves p r.1 r.2
close-serves side p v = elim (Bool-cases p.reader.has_peer) [
  | inl c ↦
      let e = (close_lem side side p c (v.same_peer ∙ c)).0 in
      (
        (true, _, shut p),
        e,
        record {
          sound = record { valid = v.valid; same_peer = refl };
          stays = λ e i. i;
          reader = λ u i k. inl (
              close_woken side u p
                (IsIn-wake pollhup (read_entry u) p.reader.waiters i (read_wants u).1));
          writer = λ u i k. inl (
              close_woken side u p
                (IsIn-wake pollhup (write_entry u) p.reader.waiters i (write_wants u).1));
        },
      )
  | inr c ↦ ((false, [], p), closed side c, Serves-none p [] v)
]
  where
    closed : (s : Side) → p.reader.has_peer ≡ false → close s p ≡ some (false, [], p)
    closed reading c = unfold close close_fuel end_of in ground (arith, c)
    closed writing c = unfold close close_fuel end_of in ground (arith, c, v.same_peer)

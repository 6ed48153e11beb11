-- ===== src/Pipe/Closing.antt =====
-- `PipeFd::Close` of model/pipe-fd.cc, and who is woken up by the calls on a pipe.
use ns_3_dce.Prelude.{
  ℕ, ◌<◌, ◌≡◌, ◌^◌, true, false, Option, some, List, [], ◌∷◌, ◌++◌, ltb, arith, if◌then◌else◌, pos,
  min, length, take, refl, sym, ◌∙◌, ap, length-take, length-append,
}
use ns_3_dce.FifoBuffer.{FifoBuffer, write, read_bytes}
use ns_3_dce.FifoBuffer.Valid.{contents}
use ns_3_dce.FifoBuffer.Read.{DidRead, read_gives_oldest}
use ns_3_dce.WaitQueue.{pollout, pollhup, ok, wake_waiters, remove_waiter, write_entry}
use ns_3_dce.Pipe.{
  Side, reading, writing, Pipe, epipe, returns, fails, is_broken, waits, faults, wait_on_reader,
  do_recv_packet, finish_write, pipe_write, write_again, read_pass, pipe_read, end_of, put_end,
  other_side, close, close_fuel,
}
use ns_3_dce.Pipe.Transfer.{IsOpen, room, with_buf, buffer_takes, pipe_write_lem}

-- Both ends have lost the other.
abbrev pub shut : Pipe → Pipe
shut p = record p {
  reader = record p.reader { has_peer = false };
  writer = record p.writer { has_peer = false };
}

-- `Close` of either end of an open pipe returns 0, parts both ends for good and wakes up all that wait
-- for a hang-up, on the other end and then on its own; the bytes that wait are kept. The close of
-- either end after that fails with `EBADF` and changes nothing, and a write to either is refused.
pub close_lem :
    (side again : Side) (p : Pipe)
    → p.reader.has_peer ≡ true
    → p.writer.has_peer ≡ true
    → (close side p
        ≡ some (
          true,
          wake_waiters pollhup (end_of (other_side side) p).waiters
              ++ wake_waiters pollhup (end_of side p).waiters,
          shut p,
        ))
      × (close again (shut p) ≡ some (false, [], shut p))
      × ((malloc : ℕ → Option (List ℕ)) (t : ℕ) (bytes : List ℕ)
          → pipe_write malloc again t bytes (shut p) ≡ some (is_broken, [], shut p))
unfolding close close_fuel end_of put_end pipe_write
close_lem reading reading p r w = (ground (arith, r, w), refl, λ m t b. refl)
close_lem reading writing p r w = (ground (arith, r, w), refl, λ m t b. refl)
close_lem writing reading p r w = (ground (arith, r, w), refl, λ m t b. refl)
close_lem writing writing p r w = (ground (arith, r, w), refl, λ m t b. refl)

module _ (malloc : ℕ → Option (List ℕ))
    (malloc_gives : (n : ℕ) → (block : List ℕ) × (malloc n ≡ some block))
    (malloc_size : (n : ℕ) (block : List ℕ) → malloc n ≡ some block → length block ≡ n) where
  -- A thread whose `Write` to an open pipe waits, and that the close of an end wakes up, uses the null
  -- pointer to the closed end, while memory lasts in blocks of the size asked for and for writes of
  -- fewer than 2 ^ 63 bytes.
  pub close_breaks_writer :
      (t : ℕ) (side : Side) (bytes woken lost : List ℕ) (p q s : Pipe)
      → IsOpen p
      → length bytes < 2 ^ 63
      → pipe_write malloc writing t bytes p ≡ some (waits, lost, q)
      → close side q ≡ some (true, woken, s)
      → (again : Pipe) × (write_again malloc ok t bytes s ≡ some (faults, [], again))
  unfolding write_again do_recv_packet finish_write wait_on_reader
  close_breaks_writer t side bytes woken lost p q s o small e f =
      let (b, v, m, c, r) = pipe_write_lem malloc malloc_gives malloc_size t bytes p o small in
      let h : q ≡ wait_on_reader (write_entry t) (with_buf b p) = ground (arith, r) in
      let full : min (length bytes) (room p) ≡ 0 = ground (arith, r) in
      let held : Pipe = wait_on_reader (write_entry t) (with_buf b p) in
      let closed : s ≡ shut held = ground (
        arith,
        (close_lem side side held o.reader_peer o.writer_peer).0,
        ap (close side) (sym h) ∙ f,
      ) in
      let left : length (contents b) ≡ length (contents p.buf) =
        ap length c
        ∙ length-append (contents p.buf) (take (room p) bytes)
        ∙ omega (arith, length-take (room p) bytes, full) in
      let (d, w, _, _, _) =
        buffer_takes malloc malloc_gives malloc_size (shut held) bytes v small in
      let none_goes : min (length bytes) (room (shut held)) ≡ 0 = omega (arith, left, m, full) in
      let nothing : write malloc b bytes ≡ some (pos 0, d) =
        w ∙ ap (λ x. some (pos x, d)) none_goes in
      let tidy : Pipe = record (shut held) {
        buf = d;
        reader = record (shut held).reader {
          waiters = remove_waiter t (p.reader.waiters ++ write_entry t ∷ []);
        };
      } in
      (tidy, ap (write_again malloc ok t bytes) closed ∙ ground (arith, nothing))

-- A `Read` of a pipe that was closed gives what waits, as long as something does, and then fails with
-- `EPIPE`, when at least one byte is asked for.
pub read_after_close :
    (t len : ℕ) (p : Pipe)
    → IsOpen p
    → 0 < len
    → (b : FifoBuffer) × (pipe_read reading t len (shut p) ≡ (
        if ltb 0 (length (contents p.buf))
        then (
          returns (pos (length (take len (contents p.buf)))) (take len (contents p.buf)),
          wake_waiters pollout p.reader.waiters,
          with_buf b (shut p),
        )
        else (fails epipe, [], with_buf b (shut p))))
unfolding pipe_read read_pass
read_after_close t len p o n =
    let d : DidRead p.buf len (read_bytes p.buf len).0 (read_bytes p.buf len).1
        (read_bytes p.buf len).2 =
      read_gives_oldest p.buf len o.valid in
    ((read_bytes p.buf len).2, ground (arith, d.count, d.oldest, length-take len (contents p.buf)))

-- ===== src/Pipe/Transfer.antt =====
-- `PipeFd::Write`, `DoRecvPacket` and `Read` of model/pipe-fd.cc.
use ns_3_dce.Prelude.{
  ℕ, ◌-◌, ◌<◌, ◌≡◌, ◌^◌, true, false, Option, some, List, [], ◌++◌, ltb, arith, if◌then◌else◌, pos,
  min, length, take, inl, inr, ◌∙◌, ap, take-append-drop,
}
use ns_3_dce.FifoBuffer.{FifoBuffer, write, read_bytes}
use ns_3_dce.FifoBuffer.Valid.{IsValid, contents}
use ns_3_dce.FifoBuffer.Write.{write_takes_what_fits}
use ns_3_dce.FifoBuffer.Read.{DidRead, read_gives_oldest, size_and_space}
use ns_3_dce.WaitQueue.{read_entry, write_entry, pollin, pollout, wake_waiters}
use ns_3_dce.Pipe.{
  reading, writing, Pipe, eagain, returns, fails, waits, wait_on_reader, do_recv_packet,
  finish_write, pipe_write, read_pass, pipe_read, end_of, poll,
}

-- Both ends are open, and the buffer is in order.
pub record IsOpen (p : Pipe) : Type 0 where
  pub valid : IsValid p.buf
  pub reader_peer : p.reader.has_peer ≡ true
  pub writer_peer : p.writer.has_peer ≡ true

-- The bytes for which there is room.
abbrev pub room : Pipe → ℕ
room p = p.buf.max_size - length (contents p.buf)

abbrev pub with_buf : FifoBuffer → Pipe → Pipe
with_buf b p = record p { buf = b }

module _ (malloc : ℕ → Option (List ℕ))
    (malloc_gives : (n : ℕ) → (block : List ℕ) × (malloc n ≡ some block))
    (malloc_size : (n : ℕ) (block : List ℕ) → malloc n ≡ some block → length block ≡ n) where
  -- What the buffer does for a pass of `DoRecvPacket`.
  pub buffer_takes :
      (p : Pipe) (bytes : List ℕ)
      → IsValid p.buf
      → length bytes < 2 ^ 63
      → (b : FifoBuffer) × (write malloc p.buf bytes ≡ some (pos (min (length bytes) (room p)), b))
        × IsValid b
        × (b.max_size ≡ p.buf.max_size)
        × (contents b ≡ contents p.buf ++ take (room p) bytes)
  buffer_takes p bytes v s =
      let (r, b, e, w) = write_takes_what_fits malloc malloc_size p.buf bytes v s in
      elim w.effect [
        | inl (er, ec) ↦ (b, e ∙ ap (λ x. some (x, b)) er, w.valid, w.same_max, ec)
        | inr (er, ec, n, refused) ↦ absurd (cc (refused, (malloc_gives n).1))
      ]

  -- On an open pipe, while memory lasts in blocks of the size asked for, for fewer than 2 ^ 63 bytes:
  -- `Write` on the writing end puts as many of the bytes as there is room for behind those that wait,
  -- returns their number and wakes up all that wait for input on the reading end, before those that
  -- wait for output on its own; when none go in it changes no byte that waits, and fails with
  -- `EAGAIN` if the writing end does not block, or else waits in the queue of the reading end.
  pub pipe_write_lem :
      (t : ℕ) (bytes : List ℕ) (p : Pipe)
      → IsOpen p
      → length bytes < 2 ^ 63
      → (b : FifoBuffer) × IsValid b
        × (b.max_size ≡ p.buf.max_size)
        × (contents b ≡ contents p.buf ++ take (room p) bytes)
        × (pipe_write malloc writing t bytes p
            ≡ some (
                if ltb 0 (min (length bytes) (room p))
                then (
                  returns (pos (min (length bytes) (room p))) [],
                  wake_waiters pollin p.reader.waiters ++ wake_waiters pollout p.writer.waiters,
                  with_buf b p,
                )
                else if p.writer.non_block
                then (fails eagain, wake_waiters pollout p.writer.waiters, with_buf b p)
                else (waits, [], wait_on_reader (write_entry t) (with_buf b p))))
  unfolding pipe_write do_recv_packet finish_write end_of
  pipe_write_lem t bytes p o s =
      let (b, e, v, m, c) = buffer_takes p bytes o.valid s in
      (b, v, m, c, ground (arith, e, o.reader_peer, o.writer_peer))

-- On an open pipe: `Read` on the reading end gives the oldest bytes that wait, as many as asked for,
-- leaves the others, and wakes up all that wait for output, on the writing end and then on its own;
-- when none are to give it changes no byte, and fails with `EAGAIN` if the end does not block, or else waits.
pub pipe_read_lem :
    (t len : ℕ) (p : Pipe)
    → IsOpen p
    → (b : FifoBuffer) × IsValid b
      × (b.max_size ≡ p.buf.max_size)
      × (take len (contents p.buf) ++ contents b ≡ contents p.buf)
      × (pipe_read reading t len p ≡ (
          if ltb 0 (length (take len (contents p.buf)))
          then (
            returns (pos (length (take len (contents p.buf)))) (take len (contents p.buf)),
            wake_waiters pollout p.writer.waiters ++ wake_waiters pollout p.reader.waiters,
            with_buf b p,
          )
          else if p.reader.non_block
          then (fails eagain, [], with_buf b p)
          else (waits, [], wait_on_reader (read_entry t) (with_buf b p))))
unfolding pipe_read read_pass
pipe_read_lem t len p o =
    let d : DidRead p.buf len (read_bytes p.buf len).0 (read_bytes p.buf len).1
        (read_bytes p.buf len).2 =
      read_gives_oldest p.buf len o.valid in
    let b : FifoBuffer = (read_bytes p.buf len).2 in
    (
      b,
      d.valid,
      d.same_max,
      ap (λ x. take len (contents p.buf) ++ x) d.rest ∙ take-append-drop len (contents p.buf),
      ground (arith, d.count, d.oldest, o.reader_peer),
    )

-- On an open pipe `poll` finds the reading end ready for input when a byte waits, the writing end
-- ready for output when there is room for a byte, and no end hung up.
pub poll_lem :
    (p : Pipe)
    → IsOpen p
    → ((poll reading p).can_read ≡ ltb 0 (length (contents p.buf)))
      × ((poll writing p).can_write ≡ ltb 0 (room p))
      × ((poll reading p).hung_up ≡ false)
      × ((poll writing p).hung_up ≡ false)
unfolding poll
poll_lem p o =
    let (size, space) = size_and_space p.buf o.valid in
    (
      ground (arith, size),
      ground (arith, space, o.writer_peer),
      ground (arith, o.reader_peer),
      ground (arith, o.writer_peer),
    )

-- ===== src/Pipe/Tests.antt =====
-- Pipes of model/pipe-fd.cc at concrete states.
use ns_3_dce.Prelude.{
  ℕ, ◌≡◌, true, false, Option, some, List, [], ◌∷◌, arith, refl, pos, length, replicate,
  length-replicate, count,
}
use ns_3_dce.FifoBuffer.{FifoBuffer, read_bytes}
use ns_3_dce.FifoBuffer.Valid.{IsValid, contents}
use ns_3_dce.WaitQueue.{Entry, wake_waiters, is_wanted, read_entry, write_entry}
use ns_3_dce.Pipe.{
  Pipe, End, reading, writing, returns, is_broken, pipe_write, pipe_read, read_pass, wait_on_reader,
  close, end_of, fcntl, getfl, setfl, refuse, ioctl, listen, lseek, refused_einval,
  refused_enotsock, refused_ebadf,
}
use ns_3_dce.Pipe.Transfer.{IsOpen, room, with_buf, pipe_write_lem}
use ns_3_dce.Pipe.Closing.{shut, close_lem}
use ns_3_dce.Pipe.Serving.{IsSound, IsIn}
use ns_3_dce.Pipe.Wakeups.{
  World, outside, in_read, in_write, settle, Reach, here, next, reads, sleepers_have_cause,
}

abbrev zeros : ℕ → Option (List ℕ)
zeros n = some (replicate n 0)

zeros_gives : (n : ℕ) → (block : List ℕ) × (zeros n ≡ some block)
zeros_gives n = (replicate n 0, refl)

zeros_size : (n : ℕ) (block : List ℕ) → zeros n ≡ some block → length block ≡ n
zeros_size n block e = ground (arith, length-replicate {A = ℕ} n 0)

-- A pipe of two bytes, full.
abbrev full_buffer : FifoBuffer
full_buffer = record { max_size = 2; buffer = 5 ∷ 6 ∷ []; read = 0; fill = 2; size = 2 }

abbrev empty_buffer : FifoBuffer
empty_buffer = record { max_size = 2; buffer = 5 ∷ 6 ∷ []; read = 0; fill = 0; size = 2 }

abbrev open_end : End
open_end = record { has_peer = true; non_block = false; waiters = [] }

abbrev pipe_of : FifoBuffer → Pipe
pipe_of b = record { buf = b; reader = open_end; writer = open_end }

abbrev waiting_pipe : FifoBuffer → Entry → Pipe
waiting_pipe b e = record {
  buf = b;
  reader = record open_end { waiters = e ∷ [] };
  writer = open_end;
}

full_IsOpen : IsOpen (pipe_of full_buffer)
full_IsOpen = record { valid = omega arith; reader_peer = refl; writer_peer = refl }

empty_IsOpen : IsOpen (pipe_of empty_buffer)
empty_IsOpen = record { valid = omega arith; reader_peer = refl; writer_peer = refl }

pipe_write_lem_example :
    (b : FifoBuffer) × IsValid b
    × (b.max_size ≡ 2)
    × (contents b ≡ 7 ∷ [])
    × (pipe_write zeros writing 3 (7 ∷ []) (pipe_of empty_buffer)
        ≡ some (returns (pos 1) [], [], with_buf b (pipe_of empty_buffer)))
unfolding wake_waiters
pipe_write_lem_example =
    pipe_write_lem zeros zeros_gives zeros_size 3 (7 ∷ []) (pipe_of empty_buffer) empty_IsOpen
      (omega arith)

close_lem_example :
    (close writing (waiting_pipe empty_buffer (read_entry 3))
      ≡ some (true, 3 ∷ [], shut (waiting_pipe empty_buffer (read_entry 3))))
    × (close reading (shut (waiting_pipe empty_buffer (read_entry 3)))
        ≡ some (false, [], shut (waiting_pipe empty_buffer (read_entry 3))))
    × ((malloc : ℕ → Option (List ℕ)) (t : ℕ) (bytes : List ℕ)
        → pipe_write malloc reading t bytes (shut (waiting_pipe empty_buffer (read_entry 3)))
          ≡ some (is_broken, [], shut (waiting_pipe empty_buffer (read_entry 3))))
unfolding wake_waiters end_of is_wanted
close_lem_example = close_lem writing reading (waiting_pipe empty_buffer (read_entry 3)) refl refl

refusals :
    (refuse ioctl ≡ refused_einval)
    × (refuse listen ≡ refused_enotsock)
    × (refuse lseek ≡ refused_ebadf)
unfolding refuse
refusals = (refl, refl, refl)

-- Flags that were set are read.
setfl_then_getfl :
    (arg flags got set : ℕ)
    → fcntl setfl arg flags ≡ some (got, set)
    → fcntl getfl 0 set ≡ some (arg, arg)
unfolding fcntl
setfl_then_getfl arg flags got set e = ground arith

-- Threads 3 and 5 wait to read from the empty pipe.
abbrev start : World
start = record { pipe = pipe_of empty_buffer; status = λ t. outside }

abbrev one_reader : World
one_reader = settle 3 (in_read false 2) (pipe_read reading 3 2 start.pipe) start

abbrev two_readers : World
two_readers = settle 5 (in_read false 1) (pipe_read reading 5 1 one_reader.pipe) one_reader

start-IsSound : IsSound (pipe_of empty_buffer)
start-IsSound = record { valid = omega arith; same_peer = refl }

two_readers-Reach : Reach zeros (pipe_of empty_buffer) two_readers
unfolding pipe_read read_pass read_bytes wait_on_reader count
two_readers-Reach =
    next (next (here start-IsSound) (reads 3 2 refl (omega arith))) (reads 5 1 refl (omega arith))

sleepers_have_cause_example :
    ((len : ℕ)
      → two_readers.status 3 ≡ in_read false len
      → IsIn (read_entry 3) two_readers.pipe.reader.waiters
        × (contents two_readers.pipe.buf ≡ [])
        × (two_readers.pipe.reader.has_peer ≡ true)
        × (two_readers.pipe.writer.has_peer ≡ true))
    × ((bytes : List ℕ)
        → two_readers.status 3 ≡ in_write false bytes
        → IsIn (write_entry 3) two_readers.pipe.reader.waiters
          × (room two_readers.pipe ≡ 0)
          × (two_readers.pipe.reader.has_peer ≡ true)
          × (two_readers.pipe.writer.has_peer ≡ true))
sleepers_have_cause_example = sleepers_have_cause zeros zeros_gives zeros_size two_readers-Reach 3

-- Both sleep there.
both_sleep : (two_readers.status 3 ≡ in_read false 2) × (two_readers.status 5 ≡ in_read false 1)
unfolding pipe_read read_pass read_bytes wait_on_reader count
both_sleep = (refl, refl)

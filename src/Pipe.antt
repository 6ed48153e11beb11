-- ===== src/Pipe.antt =====
-- model/pipe-fd.cc with the wait queues of model/unix-fd.cc and the events of model/wait-queue.cc: the
-- two ends of a pipe over the buffer of `FifoBuffer`.
--
-- The two `PipeFd` objects, which point at each other until one is closed, are the ends of one pipe.
-- A read or a write that waits stops in `Wait`: what it does up to there is `pipe_read` and
-- `pipe_write`, what it does once its thread runs again is `read_again` and `write_again`. A `malloc`
-- is a parameter of the buffer. `faults` is the use of a null pointer.
pub mod Transfer
pub mod Closing
pub mod Serving
pub mod Passes
pub mod Wakeups
mod Tests
use ns_3_dce.Prelude.{
  ℕ, zero, suc, Bool, true, false, not, ◌&&◌, ◌||◌, Option, none, some, List, [], ◌∷◌, ◌++◌, ltb,
  ◌==◌, if◌then◌else◌, ℤ, pos, negsuc,
}
use ns_3_dce.WaitQueue.{
  Event, pollin, pollout, pollhup, Entry, Awoken, ok, interrupted, timeout, wake_waiters,
  remove_waiter,
}
use ns_3_dce.FifoBuffer.{FifoBuffer, init, write, read_bytes, get_size, get_space}

pub data Side : Type 0 where
  reading writing : Side

-- `m_peer != 0`, `O_NONBLOCK` of `m_statusFlags`, and `m_waitQueueList`.
pub record End : Type 0 where
  pub has_peer : Bool
  pub non_block : Bool
  pub waiters : List Entry

pub record Pipe : Type 0 where
  pub buf : FifoBuffer
  pub reader : End
  pub writer : End

pub data Errno : Type 0 where
  ebadf epipe eagain eintr : Errno

-- How a pass of a call ends: `returns` with the count and the bytes read, `fails` with -1 and an
-- error, `is_broken` so with `EPIPE` after `SIGPIPE` was sent; or in `Wait`.
pub data Pass : Type 0 where
  returns : ℤ → List ℕ → Pass
  fails : Errno → Pass
  is_broken : Pass
  waits : Pass
  faults : Pass

abbrev pub pipe_capacity : ℕ
pipe_capacity = 65536

pub new_end : End
new_end = record { has_peer = true; non_block = false; waiters = [] }

-- The two constructors; the buffer of the writing end, of 0 bytes, is never used.
pub new_pipe : Pipe
unfolding new_end
new_pipe = record { buf = init pipe_capacity; reader = new_end; writer = new_end }

pub end_of : Side → Pipe → End
end_of reading p = p.reader
end_of writing p = p.writer

pub put_end : Side → End → Pipe → Pipe
put_end reading e p = record p { reader = e }
put_end writing e p = record p { writer = e }

abbrev pub other_side : Side → Side
other_side reading = writing
other_side writing = reading

-- `Close`, which closes the other end first: whether it returns 0, the threads woken up, and the
-- pipe; -1 comes with `EBADF`. `none` when the fuel is used up.
pub close_fuel : ℕ → Side → Pipe → Option (Bool × List ℕ × Pipe)
unfolding end_of put_end
close_fuel zero side p = none
close_fuel (suc fuel) side p =
    let e = end_of side p in
    let below =
      close_fuel fuel (other_side side) (put_end side (record e { has_peer = false }) p) in
    if e.has_peer
    then elim below [
      | none ↦ none
      | some (_, woken, q) ↦ some (true, woken ++ wake_waiters pollhup (end_of side q).waiters, q)
    ]
    else some (false, [], p)

pub close : Side → Pipe → Option (Bool × List ℕ × Pipe)
unfolding close_fuel
close side p = close_fuel 3 side p

abbrev pub is_positive : ℤ → Bool
is_positive z = elim z [ pos n ↦ ltb 0 n | negsuc _ ↦ false ]

pub wait_on_reader : Entry → Pipe → Pipe
wait_on_reader e p = record p { reader = record p.reader { waiters = p.reader.waiters ++ e ∷ [] } }

module _ (malloc : ℕ → Option (List ℕ)) where
  -- A pass of the loop of `DoRecvPacket`, which runs on the reading end: `none` when the write to the
  -- buffer does not return.
  pub do_recv_packet : ℕ → List ℕ → Pipe → Option (Pass × List ℕ × Pipe)
  unfolding wait_on_reader
  do_recv_packet t bytes p = elim (write malloc p.buf bytes) [
    | none ↦ none
    | some (r, b) ↦ some (
        let q = record p { buf = b } in
        if is_positive r
        then (returns r [], wake_waiters pollin p.reader.waiters, q)
        else if not p.reader.has_peer
        then (faults, [], q)
        else if p.writer.non_block
        then (fails eagain, [], q)
        else (
          waits,
          [],
          wait_on_reader
              (record { thread = t; wants_in = false; wants_out = true; wants_hup = true }) q,
        ))
  ]

  -- What `Write` does when `DoRecvPacket` is back: -1 is positive as a `size_t`, so that only 0 wakes
  -- nobody up, which `DoRecvPacket` does not return.
  pub finish_write : Pass × List ℕ × Pipe → Pass × List ℕ × Pipe
  finish_write (waits, woken, p) = (waits, woken, p)
  finish_write (faults, woken, p) = (faults, woken, p)
  finish_write (r, woken, p) = (r, woken ++ wake_waiters pollout p.writer.waiters, p)

  -- `Write` to an end of the pipe.
  pub pipe_write : Side → ℕ → List ℕ → Pipe → Option (Pass × List ℕ × Pipe)
  unfolding end_of do_recv_packet finish_write
  pipe_write side t bytes p =
      if not (end_of side p).has_peer then some (is_broken, [], p) else elim side [
        | reading ↦ some (fails ebadf, [], p)
        | writing ↦ elim (do_recv_packet t bytes p) [ none ↦ none | some r ↦ some (finish_write r) ]
      ]

  -- After `Wait`: the entry leaves the queue, and the loop goes on unless a signal came in or time ran
  -- out.
  pub write_again : Awoken → ℕ → List ℕ → Pipe → Option (Pass × List ℕ × Pipe)
  unfolding do_recv_packet finish_write
  write_again w t bytes p =
      let q = record p {
        reader = record p.reader { waiters = remove_waiter t p.reader.waiters };
      } in
      elim w [
        | ok ↦ elim (do_recv_packet t bytes q) [ none ↦ none | some r ↦ some (finish_write r) ]
        | interrupted ↦ some (finish_write (fails eintr, [], q))
        | timeout ↦ some (finish_write (fails eagain, [], q))
      ]

-- A pass of the loop of `Read`, on the reading end.
pub read_pass : ℕ → ℕ → Pipe → Pass × List ℕ × Pipe
unfolding wait_on_reader
read_pass t len p =
    let (r, bytes, b) = read_bytes p.buf len in
    let q = record p { buf = b } in
    let peer_woken = if p.reader.has_peer then wake_waiters pollout p.writer.waiters else [] in
    if is_positive r
    then (returns r bytes, peer_woken ++ wake_waiters pollout p.reader.waiters, q)
    else if not p.reader.has_peer
    then (fails epipe, [], q)
    else if p.reader.non_block
    then (fails eagain, [], q)
    else (
      waits,
      [],
      wait_on_reader (record { thread = t; wants_in = true; wants_out = false; wants_hup = true })
          q,
    )

pub pipe_read : Side → ℕ → ℕ → Pipe → Pass × List ℕ × Pipe
unfolding read_pass
pipe_read writing t len p = (fails ebadf, [], p)
pipe_read reading t len p = read_pass t len p

pub read_again : Awoken → ℕ → ℕ → Pipe → Pass × List ℕ × Pipe
unfolding read_pass
read_again w t len p =
    let q = record p { reader = record p.reader { waiters = remove_waiter t p.reader.waiters } } in
    elim w [
      | ok ↦ read_pass t len q
      | interrupted ↦ (fails eintr, [], q)
      | timeout ↦ (fails eagain, [], q)
    ]

pub record Events : Type 0 where
  pub can_read : Bool
  pub can_write : Bool
  pub hung_up : Bool

-- `Poll` without a table.
pub poll : Side → Pipe → Events
poll reading p = record {
  can_read = is_positive (get_size p.buf);
  can_write = false;
  hung_up = not p.reader.has_peer;
}
poll writing p = record {
  can_read = false;
  can_write = p.writer.has_peer && is_positive (get_space p.buf);
  hung_up = not p.writer.has_peer;
}

-- `Fcntl`: a fatal error on any other command.
pub data Command : Type 0 where
  getfl setfl getfd setfd : Command

-- The status flags of an end, as a word.
pub fcntl : Command → ℕ → ℕ → Option (ℕ × ℕ)
fcntl getfl arg flags = some (flags, flags)
fcntl setfl arg flags = some (0, arg)
fcntl getfd arg flags = none
fcntl setfd arg flags = none

-- The calls that a pipe refuses, without an effect but the error.
pub data Refused : Type 0 where
  recvmsg sendmsg setsockopt getsockopt getsockname getpeername ioctl bind connect listen : Refused
  shutdown accept mmap lseek fxstat fxstat64 settime gettime ftruncate : Refused

pub data Refusal : Type 0 where
  refused_enotsock refused_einval refused_ebadf : Refusal

pub refuse : Refused → Refusal
refuse recvmsg = refused_enotsock
refuse sendmsg = refused_enotsock
refuse setsockopt = refused_enotsock
refuse getsockopt = refused_enotsock
refuse getsockname = refused_enotsock
refuse getpeername = refused_enotsock
refuse ioctl = refused_einval
refuse bind = refused_enotsock
refuse connect = refused_enotsock
refuse listen = refused_enotsock
refuse shutdown = refused_enotsock
refuse accept = refused_enotsock
refuse mmap = refused_ebadf
refuse lseek = refused_ebadf
refuse fxstat = refused_ebadf
refuse fxstat64 = refused_ebadf
refuse settime = refused_einval
refuse gettime = refused_einval
refuse ftruncate = refused_einval

-- ===== src/FifoBuffer.antt =====
-- model/fifo-buffer.cc and model/fifo-buffer.h: the byte buffer of a pipe, which grows by steps.
-- `malloc` is a parameter: it gives a block of unknown bytes, or `none` when memory is short.
-- A call's buffer and length are a list of bytes and its length.
pub mod Valid
pub mod Write
pub mod Read
pub mod Refine
mod Tests
use ns_3_dce.Prelude.{
  ℕ, zero, suc, ◌+◌, ◌-◌, ◌≤◌, ◌<◌, ◌≡◌, ◌^◌, Bool, ◌&&◌, Option, none, some, List, [], length,
  take, drop, ltb, leb, ◌==◌, if◌then◌else◌, ℤ, pos, minus_one, to_ssize, add64, sub64, slice,
  memcpy, min,
}

pub record FifoBuffer : Type 0 where
  pub max_size : ℕ
  pub buffer : List ℕ
  pub read : ℕ
  pub fill : ℕ
  pub size : ℕ

abbrev pub min_alloc : ℕ
min_alloc = 1024

pub init : ℕ → FifoBuffer
init mx_sz = record { max_size = mx_sz; buffer = []; read = 0; fill = 0; size = 0 }

-- `memcpy (m_buffer + m_fill, buf, n); m_fill += n`.
unfoldable pub append_bytes : FifoBuffer → List ℕ → FifoBuffer
append_bytes b bytes = record b {
  buffer = memcpy b.buffer b.fill bytes;
  fill = add64 b.fill (length bytes);
}

-- The bytes that wait are moved to the front of the block.
unfoldable pub compact : FifoBuffer → FifoBuffer
compact b = record b {
  buffer =
      if ltb b.read b.fill
      then memcpy b.buffer 0 (slice b.buffer b.read (sub64 b.fill b.read))
      else b.buffer;
  fill = sub64 b.fill b.read;
  read = 0;
}

unfoldable pub new_size : FifoBuffer → ℕ → ℕ
new_size b len =
    let wanted = add64 len b.fill in
    let stepped = if ltb (sub64 wanted b.size) min_alloc then add64 b.size min_alloc else wanted in
    if ltb b.max_size stepped then b.max_size else stepped

-- The waiting bytes are copied to the new block, and the old one is freed.
unfoldable pub grow : FifoBuffer → ℕ → List ℕ → FifoBuffer
grow b n block = record b {
  buffer = memcpy block 0 (slice b.buffer b.read (sub64 b.fill b.read));
  fill = sub64 b.fill b.read;
  read = 0;
  size = n;
}

abbrev pub Outcome : Type 0
Outcome = Option (ℤ × FifoBuffer)

module _ (malloc : ℕ → Option (List ℕ)) where
  -- One pass of `Write`; `again` is its call of itself.
  unfoldable pub write_pass : (FifoBuffer → Outcome) → FifoBuffer → List ℕ → Outcome
  unfolding append_bytes compact new_size grow
  write_pass again b bytes =
      let capa = sub64 b.size b.fill in
      let len = length bytes in
      if leb len capa
      then some (to_ssize len, append_bytes b bytes)
      else if ltb 0 b.read && leb b.size b.max_size
      then again (compact b)
      else if b.size == b.max_size
      then (if ltb 0 capa
          then some (to_ssize capa, append_bytes b (take capa bytes))
          else some (pos 0, b))
      else elim (malloc (new_size b len)) [
        | none ↦ some (minus_one, b)
        | some block ↦ again (grow b (new_size b len) block)
      ]

  -- `none` when the fuel is used up. `Write` calls itself at most twice.
  unfoldable pub write_fuel : ℕ → FifoBuffer → List ℕ → Outcome
  unfolding write_pass
  write_fuel zero b bytes = none
  write_fuel (suc fuel) b bytes = write_pass (λ b'. write_fuel fuel b' bytes) b bytes

  unfoldable pub write : FifoBuffer → List ℕ → Outcome
  unfolding write_fuel
  write b bytes = write_fuel 3 b bytes

-- The value returned, and the bytes stored to the caller's buffer of `len` bytes.
unfoldable pub read_bytes : FifoBuffer → ℕ → ℤ × List ℕ × FifoBuffer
read_bytes b len =
    let capa = sub64 b.fill b.read in
    let l = min len capa in
    if ltb 0 capa
    then (to_ssize l, slice b.buffer b.read l, record b { read = add64 b.read l })
    else (pos 0, [], b)

pub get_size : FifoBuffer → ℤ
get_size b = to_ssize (sub64 b.fill b.read)

-- `GetSize` is converted back to `size_t` for the subtraction.
pub get_space : FifoBuffer → ℤ
get_space b = to_ssize (sub64 b.max_size (sub64 b.fill b.read))

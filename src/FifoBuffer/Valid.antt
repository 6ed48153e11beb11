-- ===== src/FifoBuffer/Valid.antt =====
-- The representation of model/fifo-buffer.cc: marks in order, and a block as long as `m_size`.
use ns_3_dce.Prelude.{
  ℕ, ◌+◌, ◌-◌, ◌≤◌, ◌<◌, ◌≡◌, ◌^◌, List, ◌++◌, length, take, drop, arith, slice, memcpy,
  length-memcpy, take-memcpy, drop-take, drop-append_le, length-take, length-drop, ◌∙◌, sub64,
  add64, sym, ltb, Bool-cases, inl, inr, subst,
}
use ns_3_dce.FifoBuffer.{FifoBuffer, append_bytes, compact, grow}

pub record IsValid (b : FifoBuffer) : Type 0 where
  pub read_le : b.read ≤ b.fill
  pub fill_le : b.fill ≤ b.size
  pub size_le : b.size ≤ b.max_size
  pub block : length b.buffer ≡ b.size
  pub small : b.max_size < 2 ^ 63

-- The bytes written and not read yet, oldest first.
abbrev pub contents : FifoBuffer → List ℕ
contents b = drop b.read (take b.fill b.buffer)

pub length-contents : (b : FifoBuffer) → IsValid b → length (contents b) ≡ b.fill - b.read
length-contents b v =
    omega (arith, length-drop b.read (take b.fill b.buffer), length-take b.fill b.buffer)

pub append_bytes-IsValid :
    (b : FifoBuffer) (bytes : List ℕ)
    → IsValid b
    → b.fill + length bytes ≤ b.size
    → IsValid (append_bytes b bytes)
unfolding append_bytes
append_bytes-IsValid b bytes v h = omega (arith, length-memcpy b.buffer b.fill bytes)

pub contents-append_bytes :
    (b : FifoBuffer) (bytes : List ℕ)
    → IsValid b
    → b.fill + length bytes ≤ b.size
    → contents (append_bytes b bytes) ≡ contents b ++ bytes
unfolding append_bytes
contents-append_bytes b bytes v h =
    let e : add64 b.fill (length bytes) ≡ b.fill + length bytes = omega arith in
    rw (e, take-memcpy b.buffer b.fill bytes (omega arith))
      (drop-append_le b.read (take b.fill b.buffer) bytes
        (omega (arith, length-take b.fill b.buffer)))

-- What a copy of the waiting bytes to the front of another block holds.
moved :
    (b : FifoBuffer) (block : List ℕ)
    → IsValid b
    → take (b.fill - b.read) (memcpy block 0 (slice b.buffer b.read (b.fill - b.read))) ≡ contents b
moved b block v =
    let src : List ℕ = slice b.buffer b.read (b.fill - b.read) in
    let e : 0 + length src ≡ b.fill - b.read =
      omega (
        arith,
        length-take (b.fill - b.read) (drop b.read b.buffer),
        length-drop b.read b.buffer,
      ) in
    subst (λ k. take k (memcpy block 0 src) ≡ contents b) e
      (take-memcpy block 0 src (omega arith) ∙ sym (drop-take b.read b.fill b.buffer v.read_le))

length-moved :
    (b : FifoBuffer) (block : List ℕ)
    → IsValid b
    → b.fill - b.read ≤ length block
    → length (memcpy block 0 (slice b.buffer b.read (b.fill - b.read))) ≡ length block
length-moved b block v h = length-memcpy block 0 (slice b.buffer b.read (b.fill - b.read)) (
    omega
      (arith, length-take (b.fill - b.read) (drop b.read b.buffer), length-drop b.read b.buffer))

sub64-marks : (b : FifoBuffer) → IsValid b → sub64 b.fill b.read ≡ b.fill - b.read
sub64-marks b v = omega arith

-- Nothing is moved when nothing waits.
pub compact-IsValid : (b : FifoBuffer) → IsValid b → IsValid (compact b)
unfolding compact
compact-IsValid b v = rw (sub64-marks b v) (ground (arith, length-moved b b.buffer v))

pub contents-compact : (b : FifoBuffer) → IsValid b → contents (compact b) ≡ contents b
unfolding compact
contents-compact b v = rw (sub64-marks b v) (elim (Bool-cases (ltb b.read b.fill)) [
  | inl some_wait ↦ rw some_wait (moved b b.buffer v)
  | inr none_wait ↦ rw none_wait (none_waiting (ground arith))
])
  where
    none_waiting : b.fill ≡ b.read → take (b.fill - b.read) b.buffer ≡ contents b
    none_waiting e =
        let z : b.fill - b.read ≡ 0 = omega arith in
        rw (drop-take b.read b.fill b.buffer v.read_le, z)

pub grow-IsValid :
    (b : FifoBuffer) (n : ℕ) (block : List ℕ)
    → IsValid b
    → length block ≡ n
    → b.fill - b.read ≤ n
    → n ≤ b.max_size
    → IsValid (grow b n block)
unfolding grow
grow-IsValid b n block v e h m = rw (sub64-marks b v) (omega (arith, length-moved b block v))

pub contents-grow :
    (b : FifoBuffer) (n : ℕ) (block : List ℕ) → IsValid b → contents (grow b n block) ≡ contents b
unfolding grow
contents-grow b n block v = rw (sub64-marks b v) (moved b block v)

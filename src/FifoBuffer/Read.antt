-- ===== src/FifoBuffer/Read.antt =====
-- `FifoBuffer::Read`, `GetSize` and `GetSpace` of model/fifo-buffer.cc.
use ns_3_dce.Prelude.{
  ℕ, ◌+◌, ◌-◌, ◌<◌, ◌≡◌, ◌^◌, List, [], length, take, drop, arith, pos, min, Bool-cases, inl, inr,
  refl, ltb, sub64, slice, length-take, length-drop, drop-drop, drop-take, drop-nil, take-nil,
  take-take, drop-min, nil_of_length, ◌∙◌, ap, sym, ℤ,
}
use ns_3_dce.FifoBuffer.{FifoBuffer, init, read_bytes, get_size, get_space}
use ns_3_dce.FifoBuffer.Valid.{IsValid, contents, length-contents}

-- What a client may say of a call of `Read` for `len` bytes.
pub record DidRead (b : FifoBuffer) (len : ℕ) (r : ℤ) (bytes : List ℕ) (b' : FifoBuffer)
    : Type 0 where
  pub valid : IsValid b'
  pub same_max : b'.max_size ≡ b.max_size
  pub count : r ≡ pos (length bytes)
  pub oldest : bytes ≡ take len (contents b)
  pub rest : contents b' ≡ drop len (contents b)

take-contents :
    (b : FifoBuffer) (len : ℕ)
    → IsValid b
    → slice b.buffer b.read (min len (b.fill - b.read)) ≡ take len (contents b)
take-contents b len v =
    rw (drop-take b.read b.fill b.buffer v.read_le)
      (sym (take-take len (b.fill - b.read) (drop b.read b.buffer)))

drop-contents :
    (b : FifoBuffer) (len : ℕ)
    → IsValid b
    → drop (b.read + min len (b.fill - b.read)) (take b.fill b.buffer) ≡ drop len (contents b)
drop-contents b len v =
    sym (drop-drop b.read (min len (b.fill - b.read)) (take b.fill b.buffer))
    ∙ ap (λ k. drop (min len k) (contents b)) (sym (length-contents b v))
    ∙ drop-min len (contents b)

-- What waits, when anything does.
read_some :
    (b : FifoBuffer) (len : ℕ)
    → IsValid b
    → b.read < b.fill
    → read_bytes b len ≡ (
      pos (min len (b.fill - b.read)),
      slice b.buffer b.read (min len (b.fill - b.read)),
      record b { read = b.read + min len (b.fill - b.read) },
    )
unfolding read_bytes
read_some b len v h =
    let e : sub64 b.fill b.read ≡ b.fill - b.read = omega arith in rw e (ground arith)

read_none :
    (b : FifoBuffer) (len : ℕ) → IsValid b → b.fill ≡ b.read → read_bytes b len ≡ (pos 0, [], b)
unfolding read_bytes
read_none b len v h = ground arith

-- `Read` gives the oldest bytes that wait, as many as the caller has room for, returns their number
-- (0 when none wait), and leaves the others waiting in order, on every valid buffer.
pub read_gives_oldest :
    (b : FifoBuffer) (len : ℕ)
    → IsValid b
    → let (r, bytes, b') = read_bytes b len in DidRead b len r bytes b'
read_gives_oldest b len v = elim (Bool-cases (ltb b.read b.fill)) [
  | inl some_wait ↦ rw (read_some b len v (ground arith)) (record {
    valid = omega arith;
    same_max = refl;
    count = ap pos (
        omega (
          arith,
          length-take (min len (b.fill - b.read)) (drop b.read b.buffer),
          length-drop b.read b.buffer,
        ));
    oldest = take-contents b len v;
    rest = drop-contents b len v;
  })
  | inr none_wait ↦
      let e : b.fill ≡ b.read = ground arith in
      let n : contents b ≡ [] = nil_of_length (contents b) (omega (arith, length-contents b v)) in
      rw (read_none b len v e) (record {
        valid = v;
        same_max = refl;
        count = refl;
        oldest = rw n (sym (take-nil len));
        rest = rw n (sym (drop-nil len));
      })
]

-- A new buffer is valid and empty, if its limit is a positive `ssize_t` at most.
pub init-IsValid : (n : ℕ) → n < 2 ^ 63 → IsValid (init n) × (contents (init n) ≡ [])
unfolding init
init-IsValid n h = (omega arith, refl)

-- `GetSize` counts the bytes that wait, `GetSpace` those that may still be written, and the two
-- make up the limit, on every valid buffer.
pub size_and_space :
    (b : FifoBuffer)
    → IsValid b
    → (get_size b ≡ pos (length (contents b)))
      × (get_space b ≡ pos (b.max_size - length (contents b)))
unfolding get_size get_space
size_and_space b v = ground (arith, length-contents b v)

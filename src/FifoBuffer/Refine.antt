-- ===== src/FifoBuffer/Refine.antt =====
-- The buffer of model/fifo-buffer.cc against a queue of bytes with a limit.
use ns_3_dce.Prelude.{
  ℕ, ◌-◌, ◌<◌, ◌≡◌, ◌^◌, List, [], ◌∷◌, ◌++◌, length, take, drop, Option, none, some, ℤ, pos, min,
  inl, inr, refl,
}
use ns_3_dce.FifoBuffer.{FifoBuffer, write, read_bytes}
use ns_3_dce.FifoBuffer.Valid.{IsValid, contents}
use ns_3_dce.FifoBuffer.Write.{Wrote, write_takes_what_fits}
use ns_3_dce.FifoBuffer.Read.{DidRead, read_gives_oldest}

pub data Call : Type 0 where
  puts : List ℕ → Call
  gets : ℕ → Call

-- What a call returns, and the bytes that it hands out.
abbrev pub Reply : Type 0
Reply = ℤ × List ℕ

-- The specification: a queue of at most `limit` bytes takes what fits, and gives the oldest.
unfoldable pub queue_run : ℕ → List ℕ → List Call → List Reply
queue_run limit q [] = []
queue_run limit q (puts bytes ∷ calls) =
    (pos (min (length bytes) (limit - length q)), [])
    ∷ queue_run limit (q ++ take (limit - length q) bytes) calls
queue_run limit q (gets len ∷ calls) =
    (pos (length (take len q)), take len q) ∷ queue_run limit (drop len q) calls

abbrev IsSsize : Call → Type 0
IsSsize (puts bytes) = length bytes < 2 ^ 63
IsSsize (gets len) = Unit

-- No call writes more bytes than an `ssize_t` counts.
abbrev pub AllSsize : List Call → Type 0
AllSsize [] = Unit
AllSsize (c ∷ calls) = IsSsize c × AllSsize calls

module _ (malloc : ℕ → Option (List ℕ)) where
  -- The replies of a buffer; `none` when a call does not return.
  pub run : FifoBuffer → List Call → Option (List Reply)
  run b [] = some []
  run b (puts bytes ∷ calls) = elim (write malloc b bytes) [
    | none ↦ none
    | some (r, b') ↦ elim (run b' calls) [ none ↦ none | some rs ↦ some ((r, []) ∷ rs) ]
  ]
  run b (gets len ∷ calls) =
      let (r, bytes, b') = read_bytes b len in
      elim (run b' calls) [ none ↦ none | some rs ↦ some ((r, bytes) ∷ rs) ]

module _ (malloc : ℕ → Option (List ℕ))
    (malloc_gives : (n : ℕ) → (block : List ℕ) × (malloc n ≡ some block))
    (malloc_size : (n : ℕ) (block : List ℕ) → malloc n ≡ some block → length block ≡ n) where
  -- While memory lasts, in blocks of the size asked for, no sequence of writes and reads tells a valid buffer from the queue of the
  -- bytes that wait in it: every call returns, with the same count and the same bytes. The writes
  -- are of fewer than 2 ^ 63 bytes each.
  pub run_refines :
      (calls : List Call) (b : FifoBuffer)
      → IsValid b
      → AllSsize calls
      → run malloc b calls ≡ some (queue_run b.max_size (contents b) calls)
  unfolding run queue_run
  run_refines [] b v s = refl
  run_refines (puts bytes ∷ calls) b v s =
      wrote (write_takes_what_fits malloc malloc_size b bytes v s.0)
        (λ b' v'. run_refines calls b' v' s.1)
    where
      wrote :
          ((r : ℤ) × (b' : FifoBuffer) × (write malloc b bytes ≡ some (r, b'))
            × Wrote malloc b bytes r b')
          → ((b' : FifoBuffer)
              → IsValid b'
              → run malloc b' calls ≡ some (queue_run b'.max_size (contents b') calls))
          → run malloc b (puts bytes ∷ calls)
            ≡ some (queue_run b.max_size (contents b) (puts bytes ∷ calls))
      wrote (r, b', e, w) ih = elim w.effect [
        | inl (er, ec) ↦ rw (e, run, ih b' w.valid, w.same_max, ec, er)
        | inr (er, ec, n, refused) ↦ cc (refused, (malloc_gives n).1)
      ]
  run_refines (gets len ∷ calls) b v s =
      let d : DidRead b len (read_bytes b len).0 (read_bytes b len).1 (read_bytes b len).2 =
        read_gives_oldest b len v in
      rw (run_refines calls (read_bytes b len).2 d.valid s.1, d.same_max, d.rest, d.count, d.oldest)

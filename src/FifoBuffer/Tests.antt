-- ===== src/FifoBuffer/Tests.antt =====
-- The buffer of model/fifo-buffer.cc on concrete bytes.
use ns_3_dce.Prelude.{
  ℕ, ◌≡◌, List, [], ◌∷◌, length, arith, Option, some, ℤ, pos, refl, replicate, length-replicate,
  memcpy,
}
use ns_3_dce.FifoBuffer.{FifoBuffer, init, write}
use ns_3_dce.FifoBuffer.Valid.{IsValid}
use ns_3_dce.FifoBuffer.Write.{Wrote, write_takes_what_fits}
use ns_3_dce.FifoBuffer.Refine.{Call, puts, gets, queue_run, run, run_refines}

abbrev zeroed : ℕ → Option (List ℕ)
zeroed n = some (replicate n 0)

zeroed_gives : (n : ℕ) → (block : List ℕ) × (zeroed n ≡ some block)
zeroed_gives n = (replicate n 0, refl)

zeroed_size : (n : ℕ) (block : List ℕ) → zeroed n ≡ some block → length block ≡ n
zeroed_size n block e = ground (arith, length-replicate {A = ℕ} n 0)

-- A buffer of at most four bytes: 7 is read, 8 waits.
abbrev small : FifoBuffer
small = record { max_size = 4; buffer = 7 ∷ 8 ∷ 0 ∷ 0 ∷ []; read = 1; fill = 2; size = 4 }

small-IsValid : IsValid small
small-IsValid = omega arith

-- Two bytes fit behind the first two; a third makes room by the move to the front.
write_moves :
    write zeroed small (1 ∷ 2 ∷ 3 ∷ 4 ∷ [])
    ≡ some (pos 3, record small { buffer = 8 ∷ 1 ∷ 2 ∷ 3 ∷ []; read = 0; fill = 4 })
unfolding write memcpy
write_moves = refl

write_grows : (o : ℤ × FifoBuffer) × (write zeroed (init 65536) (1 ∷ 2 ∷ []) ≡ some o)
unfolding write init
write_grows = (_, refl)

write_takes_what_fits_example :
    (r : ℤ) × (b' : FifoBuffer) × (write zeroed small (1 ∷ 2 ∷ 3 ∷ 4 ∷ []) ≡ some (r, b'))
    × Wrote zeroed small (1 ∷ 2 ∷ 3 ∷ 4 ∷ []) r b'
write_takes_what_fits_example =
    write_takes_what_fits zeroed zeroed_size small (1 ∷ 2 ∷ 3 ∷ 4 ∷ []) small-IsValid (omega arith)

abbrev script : List Call
script = puts (1 ∷ 2 ∷ 3 ∷ 4 ∷ []) ∷ gets 2 ∷ puts (5 ∷ []) ∷ gets 9 ∷ []

run_refines_example : run zeroed small script ≡ some (queue_run 4 (8 ∷ []) script)
run_refines_example =
    run_refines zeroed zeroed_gives zeroed_size script small small-IsValid (omega arith)

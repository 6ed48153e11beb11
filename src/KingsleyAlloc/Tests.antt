-- ===== src/KingsleyAlloc/Tests.antt =====
-- A heap of model/kingsley-alloc.cc with one chunk.
use ns_3_dce.Prelude.{ℕ, ◌≡◌, Option, some, List, [], ◌∷◌, refl}
use ns_3_dce.KingsleyAlloc.{Chunk, Heap, default_mmap_size}

abbrev half_full : Heap
half_full = record {
  chunks = record { buffer = 65536; size = default_mmap_size; brk = 16384 } ∷ [];
  buckets = λ b. [];
}

abbrev far : ℕ → List Chunk → Option ℕ
far n cs = some 1048576

far_gives : (n : ℕ) (cs : List Chunk) → (a : ℕ) × (far n cs ≡ some a)
far_gives n cs = (1048576, refl)

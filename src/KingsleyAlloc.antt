-- ===== src/KingsleyAlloc.antt =====
-- model/kingsley-alloc.cc: the heap of a process, as it stands while the process was not cloned.
--
-- `mmap` gives the address of a new block of the size asked for, or `none` when it fails, which is a
-- failed assertion. The list that `m_buckets[b]` starts, linked through the free blocks, is a list
-- of addresses. Sizes are 32-bit words, addresses numbers.
pub mod Buckets
pub mod Fresh
mod Tests
use ns_3_dce.Prelude.{
  ℕ, zero, suc, ◌+◌, ◌-◌, ◌*◌, ◌/◌, ◌≡◌, ◌^◌, ◌&&◌, Bool, Option, none, some, List, [], ◌∷◌, leb,
  ltb, ◌==◌, if◌then◌else◌, dec32, update,
}

-- `struct MmapChunk` with the `Mmap` that it points to.
pub record Chunk : Type 0 where
  pub buffer : ℕ
  pub size : ℕ
  pub brk : ℕ

pub record Heap : Type 0 where
  pub chunks : List Chunk
  pub buckets : ℕ → List ℕ

abbrev pub default_mmap_size : ℕ
default_mmap_size = 32768

pub init : Heap
init = record { chunks = []; buckets = λ b. [] }

-- The loop of `SizeToBucket`; 32 rounds are enough for a 32-bit size.
pub bucket_fuel : ℕ → ℕ → ℕ
bucket_fuel zero size = 0
bucket_fuel (suc fuel) size =
    let rest = bucket_fuel fuel (size / 2) in if ltb 7 size then suc rest else 0

pub size_to_bucket : ℕ → ℕ
unfolding bucket_fuel
size_to_bucket sz = bucket_fuel 32 (dec32 sz)

-- `1 << n`, below 32 bits.
pub one_shifted : ℕ → ℕ
one_shifted zero = 1
one_shifted (suc n) = 2 * one_shifted n

pub bucket_to_size : ℕ → ℕ
unfolding one_shifted
bucket_to_size bucket = one_shifted (suc (suc (suc bucket)))

-- The first chunk with enough room; an assertion says that no chunk is used beyond its size.
pub take_room : ℕ → List Chunk → Option (ℕ × List Chunk)
take_room needed [] = none
take_room needed (c ∷ cs) =
    let rest = take_room needed cs in
    if leb needed (c.size - c.brk)
    then some (c.buffer + c.brk, record c { brk = c.brk + needed } ∷ cs)
    else elim rest [ none ↦ none | some (p, cs') ↦ some (p, c ∷ cs') ]

module _ (mmap : ℕ → List Chunk → Option ℕ) where
  pub mmap_alloc : ℕ → Heap → Option Heap
  mmap_alloc size h = elim (mmap size h.chunks) [
    | none ↦ none
    | some buffer ↦
        some (record h { chunks = record { buffer = buffer; size = size; brk = 0 } ∷ h.chunks })
  ]

  -- The call of itself finds the new chunk, as `needed` is the default size at most.
  pub brk : ℕ → Heap → Option (ℕ × Heap)
  unfolding mmap_alloc take_room
  brk needed h = elim (take_room needed h.chunks) [
    | some (p, cs) ↦ some (p, record h { chunks = cs })
    | none ↦
        if leb needed default_mmap_size
        then elim (mmap_alloc default_mmap_size h) [
          | none ↦ none
          | some h' ↦ elim (take_room needed h'.chunks) [
            | none ↦ none
            | some (p, cs) ↦ some (p, record h' { chunks = cs })
          ]
        ]
        else none
  ]

  pub malloc : ℕ → Heap → Option (ℕ × Heap)
  unfolding mmap_alloc brk size_to_bucket bucket_to_size
  malloc size h =
      if ltb size default_mmap_size
      then (let b = size_to_bucket size in
          elim (h.buckets b) [
            | p ∷ rest ↦ some (p, record h { buckets = update h.buckets b rest })
            | [] ↦ brk (bucket_to_size b) h
          ])
      else elim (mmap_alloc size h) [ none ↦ none | some h' ↦ brk size h' ]

-- The chunk of a large block is given back.
pub drop_chunk : ℕ → ℕ → List Chunk → List Chunk
drop_chunk buffer size [] = []
drop_chunk buffer size (c ∷ cs) =
    let rest = drop_chunk buffer size cs in
    if (c.buffer == buffer) && (c.size == size) then cs else c ∷ rest

pub free : ℕ → ℕ → Heap → Heap
unfolding drop_chunk size_to_bucket
free buffer size h =
    if ltb size default_mmap_size
    then (let b = size_to_bucket size in
        record h { buckets = update h.buckets b (buffer ∷ h.buckets b) })
    else record h { chunks = drop_chunk buffer size h.chunks }

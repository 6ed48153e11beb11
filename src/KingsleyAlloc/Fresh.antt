-- ===== src/KingsleyAlloc/Fresh.antt =====
-- Where the blocks of model/kingsley-alloc.cc come from.
use ns_3_dce.Prelude.{
  ℕ, ◌+◌, ◌-◌, ◌≡◌, ◌≤◌, ◌<◌, ◌⊎◌, Option, none, some, List, [], ◌∷◌, ◌++◌, leb, arith, refl, ap,
  ◌∙◌, update, inl, inr, Bool-cases, Option-cases,
}
use ns_3_dce.KingsleyAlloc.{
  Chunk, Heap, default_mmap_size, size_to_bucket, take_room, mmap_alloc, brk, malloc, free,
}

-- The block of `needed` bytes at `p` lies in a chunk, behind what was used of it; and nothing else
-- changes.
pub record Carved (needed p : ℕ) (old new : List Chunk) : Type 0 where
  pub before : List Chunk
  pub chunk : Chunk
  pub after : List Chunk
  pub was : old ≡ before ++ chunk ∷ after
  pub is : new ≡ before ++ record chunk { brk = chunk.brk + needed } ∷ after
  pub place : p ≡ chunk.buffer + chunk.brk
  pub fits : needed ≤ chunk.size - chunk.brk

take_room-Carved :
    (needed p : ℕ) (cs cs' : List Chunk)
    → take_room needed cs ≡ some (p, cs')
    → Carved needed p cs cs'
unfolding take_room
take_room-Carved needed p [] cs' e = cc
take_room-Carved needed p (c ∷ cs) cs' e = elim (Bool-cases (leb needed (c.size - c.brk))) [
  | inl b ↦ record {
    before = [];
    chunk = c;
    after = cs;
    was = refl;
    is = ground arith;
    place = ground arith;
    fits = ground arith;
  }
  | inr b ↦ elim (Option-cases (take_room needed cs)) [
    | inl n ↦ absurd (ground arith)
    | inr ((q, ds), n) ↦
        let r : q ≡ p = ground arith in
        let s : c ∷ ds ≡ cs' = ground arith in
        let k = take_room-Carved needed q cs ds n in
        record {
          before = c ∷ k.before;
          chunk = k.chunk;
          after = k.after;
          was = ap (λ l. c ∷ l) k.was;
          is = cc (s, k.is);
          place = cc (r, k.place);
          fits = k.fits;
        }
  ]
]

malloc_reuses :
    (mmap : ℕ → List Chunk → Option ℕ) (q size : ℕ) (rest : List ℕ) (h : Heap)
    → size < default_mmap_size
    → h.buckets (size_to_bucket size) ≡ q ∷ rest
    → malloc mmap size h
      ≡ some (q, record h { buckets = update h.buckets (size_to_bucket size) rest })
unfolding malloc
malloc_reuses mmap q size rest h l e = ground arith

free_opens :
    (p size : ℕ) (h : Heap)
    → size < default_mmap_size
    → let b = size_to_bucket size in
      free p size h ≡ record h { buckets = update h.buckets b (p ∷ h.buckets b) }
unfolding free
free_opens p size h l = ground arith

-- A small block that is freed is the next that `Malloc` gives for its size, and the heap is then as
-- it was before it was freed.
pub free_then_malloc :
    (mmap : ℕ → List Chunk → Option ℕ) (p size : ℕ) (h : Heap)
    → size < default_mmap_size
    → (h' : Heap) × (malloc mmap size (free p size h) ≡ some (p, h'))
      × (h'.chunks ≡ h.chunks)
      × ((b : ℕ) → h'.buckets b ≡ h.buckets b)
free_then_malloc mmap p size h l =
    let b : ℕ = size_to_bucket size in
    let freed : Heap = record h { buckets = update h.buckets b (p ∷ h.buckets b) } in
    (
      record freed { buckets = update freed.buckets b (h.buckets b) },
      ap (malloc mmap size) (free_opens p size h l)
          ∙ malloc_reuses mmap p size (h.buckets b) freed l (ground arith),
      refl,
      λ k. ground arith,
    )

module _ (mmap : ℕ → List Chunk → Option ℕ)
    (mmap_gives : (n : ℕ) (cs : List Chunk) → (a : ℕ) × (mmap n cs ≡ some a)) where
  -- The chunks as `Brk` finds them, or with the new chunk in front.
  pub IsSupply : Heap → List Chunk → Type 0
  IsSupply h cs =
      (cs ≡ h.chunks)
      ⊎ (cs
          ≡ record {
            buffer = (mmap_gives default_mmap_size h.chunks).0;
            size = default_mmap_size;
            brk = 0;
          }
            ∷ h.chunks)

  brk_opens :
      (needed p : ℕ) (cs : List Chunk) (h : Heap)
      → take_room needed h.chunks ≡ some (p, cs)
      → brk mmap needed h ≡ some (p, record h { chunks = cs })
  unfolding brk
  brk_opens needed p cs h e = ground arith

  brk_grows :
      (needed : ℕ) (h : Heap)
      → needed ≤ default_mmap_size
      → take_room needed h.chunks ≡ none
      → let a = (mmap_gives default_mmap_size h.chunks).0 in
        brk mmap needed h
        ≡ some (
          a + 0,
          record h {
            chunks = record { buffer = a; size = default_mmap_size; brk = 0 + needed } ∷ h.chunks;
          },
        )
  unfolding brk mmap_alloc take_room
  brk_grows needed h l e = ground (arith, (mmap_gives default_mmap_size h.chunks).1)

  -- While `mmap` does not fail, `Brk` of the default size at most gives a block: its bytes lie in one
  -- chunk, within its size and behind those used before, and are used from then on; the other chunks
  -- are as they were, or one new chunk is put before them.
  pub brk_gives_room :
      (needed : ℕ) (h : Heap)
      → needed ≤ default_mmap_size
      → (p : ℕ) × (h' : Heap) × (cs : List Chunk) × (brk mmap needed h ≡ some (p, h'))
        × IsSupply h cs
        × Carved needed p cs h'.chunks
        × (h'.buckets ≡ h.buckets)
  unfolding IsSupply
  brk_gives_room needed h l = elim (Option-cases (take_room needed h.chunks)) [
    | inr ((p, cs), e) ↦ (
      p,
      record h { chunks = cs },
      h.chunks,
      brk_opens needed p cs h e,
      inl refl,
      take_room-Carved needed p h.chunks cs e,
      refl,
    )
    | inl e ↦
        let fresh : Chunk = record {
          buffer = (mmap_gives default_mmap_size h.chunks).0;
          size = default_mmap_size;
          brk = 0;
        } in
        (
          fresh.buffer + 0,
          record h { chunks = record fresh { brk = 0 + needed } ∷ h.chunks },
          fresh ∷ h.chunks,
          brk_grows needed h l e,
          inr refl,
          record {
            before = [];
            chunk = fresh;
            after = h.chunks;
            was = refl;
            is = refl;
            place = refl;
            fits = omega arith;
          },
          refl,
        )
  ]

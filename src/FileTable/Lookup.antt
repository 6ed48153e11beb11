-- ===== src/FileTable/Lookup.antt =====
-- The map of descriptors of model/process.h, and the search for a free one in model/utils.cc.
use ns_3_dce.Prelude.{
  ℕ, zero, suc, ◌+◌, ◌≤◌, ◌<◌, ◌≡◌, ◌≢◌, none, some, List, [], ◌∷◌, ◌==◌, arith, if◌then◌else◌,
  Option-cases, inl, inr,
}
use native.Mathlib.Decide.{dec_le}
use ns_3_dce.FileTable.{
  FileUsage, Table, max_fds, lookup, erase, insert, allocate_from, allocate_fd,
}

pub lookup-erase :
    (fd k : ℕ) (es : List (ℕ × FileUsage))
    → lookup k (erase fd es) ≡ (if fd == k then none else lookup k es)
unfolding lookup erase
lookup-erase fd k [] = ground arith
lookup-erase fd k ((j, u) ∷ es) = ground (arith, lookup-erase fd k es)

pub lookup-insert :
    (fd k : ℕ) (u : FileUsage) (es : List (ℕ × FileUsage))
    → lookup k (insert fd u es) ≡ (if fd == k then some u else lookup k es)
unfolding insert lookup
lookup-insert fd k u es = ground (arith, lookup-erase fd k es)

-- What the loop finds from `fd` on.
allocate_from-lowest :
    (left fd : ℕ) (es : List (ℕ × FileUsage)) (n : ℕ)
    → allocate_from left fd es ≡ some n
    → (lookup n es ≡ none)
      × (fd ≤ n)
      × (n < fd + left)
      × ((k : ℕ) → fd ≤ k → k < n → lookup k es ≢ none)
unfolding allocate_from
allocate_from-lowest zero fd es n e = cc
allocate_from-lowest (suc left) fd es n e = elim (Option-cases (lookup fd es)) [
  | inl free ↦
      let p : fd ≡ n = ground arith in
      (rw (← p) free, omega arith, omega arith, λ k a b. absurd (omega arith))
  | inr (u, used) ↦
      let ih = allocate_from-lowest left (suc fd) es n (ground arith) in
      (
        ih.0,
        omega (arith, ih.1),
        omega (arith, ih.2),
        λ k a b. elim (dec_le (suc fd) k) [
          | yes h ↦ ih.3 k h b
          | no h ↦ let p : k ≡ fd = omega arith in rw p (λ z. cc)
        ],
      )
]

allocate_from-none :
    (left fd : ℕ) (es : List (ℕ × FileUsage)) (k : ℕ)
    → allocate_from left fd es ≡ none
    → fd ≤ k
    → k < fd + left
    → lookup k es ≢ none
unfolding allocate_from
allocate_from-none zero fd es k e a b = absurd (omega arith)
allocate_from-none (suc left) fd es k e a b = elim (Option-cases (lookup fd es)) [
  | inl free ↦ cc (outcome free)
  | inr (u, used) ↦ elim (dec_le (suc fd) k) [
    | yes h ↦ allocate_from-none left (suc fd) es k (ground arith) h (omega arith)
    | no h ↦ let p : k ≡ fd = omega arith in rw p (λ z. cc)
  ]
]
  where
    outcome : lookup fd es ≡ none → allocate_from (suc left) fd es ≡ some fd
    outcome free = ground arith

-- A new descriptor is the lowest that is free, and below 1024; none is given only if all 1024 are
-- taken.
pub allocate_fd-lowest :
    (t : Table)
    → ((n : ℕ)
        → allocate_fd t ≡ some n
        → (lookup n t.entries ≡ none)
          × (n < max_fds)
          × ((k : ℕ) → k < n → lookup k t.entries ≢ none))
      × (allocate_fd t ≡ none → (k : ℕ) → k < max_fds → lookup k t.entries ≢ none)
unfolding allocate_fd
allocate_fd-lowest t = (
  λ n e.
      let l = allocate_from-lowest 1024 0 t.entries n e in
      (l.0, omega (arith, l.2), λ k h. l.3 k (omega arith) h),
  λ e k h. allocate_from-none 1024 0 t.entries k e (omega arith) (omega arith),
)

-- ===== src/FileTable/Closing.antt =====
-- What `dce_close`, `dce_dup` and `dce_dup2` of model/dce-fd.cc do, and how a close waits for the calls
-- that are under way.
use ns_3_dce.Prelude.{
  ℕ, suc, ◌+◌, ◌≤◌, ◌<◌, ◌≡◌, ◌≢◌, true, false, none, some, ◌∷◌, ◌==◌, arith, if◌then◌else◌, refl,
  ℤ, pos,
}
use ns_3_dce.FileTable.{
  FileUsage, Table, ebadf, returns, fails, max_fds, lookup, allocate_fd, attach, forget, close,
  close_entry, dup, dup2, dup2_attach, begin_call, end_call, fd_exists,
}
use ns_3_dce.FileTable.Lookup.{lookup-erase, lookup-insert, allocate_fd-lowest}

begin_opens :
    (fd : ℕ) (u : FileUsage) (t : Table)
    → lookup fd t.entries ≡ some u
    → u.closing ≡ false
    → ((begin_call fd t).0 ≡ returns (pos 0))
      × ((k : ℕ)
          → lookup k (begin_call fd t).1.entries
            ≡ (if fd == k then some (record u { calls = suc u.calls }) else lookup k t.entries))
unfolding begin_call
begin_opens fd u t e o = (
  ground arith,
  λ k. ground (arith, lookup-insert fd k (record u { calls = suc u.calls }) t.entries),
)

begin_refused :
    (fd : ℕ) (u : FileUsage) (t : Table)
    → lookup fd t.entries ≡ some u
    → u.closing ≡ true
    → begin_call fd t ≡ (fails ebadf, t)
unfolding begin_call
begin_refused fd u t e o = ground arith

end_frees :
    (fd : ℕ) (u : FileUsage) (t : Table)
    → lookup fd t.entries ≡ some u
    → u.closing ≡ true
    → u.calls ≡ 1
    → (k : ℕ) → lookup k (end_call fd t).entries ≡ (if fd == k then none else lookup k t.entries)
unfolding end_call forget
end_frees fd u t e o c k = ground (arith, lookup-erase fd k t.entries)

module _ (close_result : ℕ → ℤ) where
  close_used :
      (fd : ℕ) (u : FileUsage) (t : Table)
      → lookup fd t.entries ≡ some u
      → u.calls ≢ 0
      → (k : ℕ)
      → lookup k (close close_result fd t).1.entries
        ≡ (if fd == k then some (record u { closing = true }) else lookup k t.entries)
  unfolding close close_entry
  close_used fd u t e c k =
      ground (arith, lookup-insert fd k (record u { closing = true }) t.entries)

  -- `dce_close` of a descriptor that no call uses, and whose file counts it, takes it out and leaves the others. The file's own
  -- `Close` is called, and its result given, if no descriptor of the file is left then; else the
  -- result is 0.
  pub close_frees :
      (fd : ℕ) (u : FileUsage) (t : Table)
      → lookup fd t.entries ≡ some u
      → u.calls ≡ 0
      → 0 < t.fd_count u.file
      → let (r, t') = close close_result fd t in
        ((k : ℕ) → lookup k t'.entries ≡ (if fd == k then none else lookup k t.entries))
        × (t'.fd_count u.file + 1 ≡ t.fd_count u.file)
        × (t'.fd_count u.file ≡ 0
            → (r ≡ returns (close_result u.file)) × (t'.closed ≡ u.file ∷ t.closed))
        × (t'.fd_count u.file ≢ 0 → (r ≡ returns (pos 0)) × (t'.closed ≡ t.closed))
  unfolding close close_entry forget
  close_frees fd u t e c p = (
    λ k. ground (arith, lookup-erase fd k t.entries),
    ground arith,
    λ z. (ground arith, ground arith),
    λ z. (ground arith, ground arith),
  )

  -- An open descriptor that is closed while one call, the first, uses it stays in the table with that
  -- call, marked as closing, beside the others, and takes no further call; it goes when that call ends,
  -- and the others stay.
  pub close_waits_for_call :
      (fd : ℕ) (u : FileUsage) (t : Table)
      → lookup fd t.entries ≡ some u
      → u.calls ≡ 0
      → u.closing ≡ false
      → let t₁ = (begin_call fd t).1 in
        let t₂ = (close close_result fd t₁).1 in
        ((begin_call fd t).0 ≡ returns (pos 0))
        × ((k : ℕ)
            → lookup k t₂.entries ≡ (
                if fd == k
                then some (record u { calls = 1; closing = true })
                else lookup k t.entries))
        × (begin_call fd t₂ ≡ (fails ebadf, t₂))
        × ((k : ℕ)
            → lookup k (end_call fd t₂).entries ≡ (if fd == k then none else lookup k t.entries))
  close_waits_for_call fd u t e c o =
      let begun = begin_opens fd u t e o in
      let used : FileUsage = record u { calls = suc u.calls } in
      let t₁ : Table = (begin_call fd t).1 in
      let t₂ : Table = (close close_result fd t₁).1 in
      let marked : FileUsage = record used { closing = true } in
      let kept = close_used fd used t₁ (ground (arith, begun.1 fd)) (λ z. omega arith) in
      let found : lookup fd t₂.entries ≡ some marked = ground (arith, kept fd) in
      (
        begun.0,
        λ k. ground (arith, kept k, begun.1 k, c),
        begin_refused fd marked t₂ found refl,
        λ k. ground (arith, end_frees fd marked t₂ found refl (rw c refl) k, kept k, begun.1 k),
      )

  -- `dce_dup` of an open descriptor, while one is free, gives the lowest free one for the same file,
  -- which counts one more, and leaves the others.
  pub dup_gives_lowest :
      (oldfd fd : ℕ) (u : FileUsage) (t : Table)
      → lookup oldfd t.entries ≡ some u
      → u.closing ≡ false
      → allocate_fd t ≡ some fd
      → let (r, t') = dup close_result oldfd t in
        (r ≡ returns (pos fd))
        × (lookup fd t.entries ≡ none)
        × ((k : ℕ) → k < fd → lookup k t.entries ≢ none)
        × ((k : ℕ)
            → lookup k t'.entries ≡ (
                if fd == k
                then some (record { file = u.file; calls = 0; closing = false })
                else lookup k t.entries))
        × (t'.fd_count u.file ≡ suc (t.fd_count u.file))
  unfolding dup attach
  dup_gives_lowest oldfd fd u t e o a =
      let l = (allocate_fd-lowest t).0 fd a in
      (
        ground arith,
        l.0,
        l.2,
        λ k. ground (
          arith,
          lookup-insert fd k (record { file = u.file; calls = 0; closing = false }) t.entries,
        ),
        ground arith,
      )

  -- `dce_dup2` of an open descriptor onto a free one, up to 1024 and with 1024, makes it stand for the
  -- same file and leaves the others.
  pub dup2_redirects :
      (oldfd newfd : ℕ) (u : FileUsage) (t : Table)
      → lookup oldfd t.entries ≡ some u
      → u.closing ≡ false
      → oldfd ≢ newfd
      → newfd ≤ max_fds
      → lookup newfd t.entries ≡ none
      → let (r, t') = dup2 close_result oldfd newfd t in
        (r ≡ returns (pos newfd))
        × ((k : ℕ)
            → lookup k t'.entries ≡ (
                if newfd == k
                then some (record { file = u.file; calls = 0; closing = false })
                else lookup k t.entries))
        × (t'.fd_count u.file ≡ suc (t.fd_count u.file))
  unfolding dup2 dup2_attach fd_exists attach
  dup2_redirects oldfd newfd u t e o n b f = (
    ground arith,
    λ k. ground (
      arith,
      lookup-insert newfd k (record { file = u.file; calls = 0; closing = false }) t.entries,
    ),
    ground arith,
  )

  -- `dce_dup2` of an open descriptor gives out the descriptor 1024 if it is free, which the search for
  -- a free descriptor never does, whatever the table.
  pub dup2_takes_limit :
      (oldfd : ℕ) (u : FileUsage) (t : Table)
      → lookup oldfd t.entries ≡ some u
      → u.closing ≡ false
      → oldfd ≢ max_fds
      → lookup max_fds t.entries ≡ none
      → ((dup2 close_result oldfd max_fds t).0 ≡ returns (pos max_fds))
        × ((t' : Table) → allocate_fd t' ≢ some max_fds)
  dup2_takes_limit oldfd u t e o n f = (
    (dup2_redirects oldfd max_fds u t e o n (omega arith) f).0,
    λ t' a. omega (arith, ((allocate_fd-lowest t').0 max_fds a).1),
  )

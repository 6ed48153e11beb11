-- ===== src/FileTable/Calls.antt =====
-- The calls of model/dce-fd.cc that change the descriptors of a process, in any order.
use ns_3_dce.Prelude.{
  ℕ, suc, ◌-◌, ◌≡◌, Bool, true, Option, none, some, ◌∷◌, ◌==◌, arith, if◌then◌else◌, refl, sym,
  Option-cases, Bool-cases, ◌⊎◌, subst, ◌&&◌, inl, inr, ℤ,
}
use ns_3_dce.FileTable.{
  FileUsage, Table, lookup, insert, allocate_fd, attach, forget, open_file, close, close_entry, dup,
  dup2, dup2_attach, begin_call, end_call, fd_exists,
}
use ns_3_dce.FileTable.Lookup.{allocate_fd-lowest}
use ns_3_dce.FileTable.Valid.{IsValid, attach-IsValid, forget-IsValid, retag-IsValid}

pub data Call : Type 0 where
  opens : Bool → Option (Option ℕ) → ℕ → Call
  closes dups begins ends : ℕ → Call
  dup2s : ℕ → ℕ → Call

unfoldable pub call : (ℕ → ℤ) → Call → Table → Table
call close_result (opens empty_path host file) t = (open_file empty_path host file t).1
call close_result (closes fd) t = (close close_result fd t).1
call close_result (dups fd) t = (dup close_result fd t).1
call close_result (begins fd) t = (begin_call fd t).1
call close_result (ends fd) t = end_call fd t
call close_result (dup2s oldfd newfd) t = (dup2 close_result oldfd newfd t).1

-- What `close` leaves behind while a call is still under way, and otherwise.
close_marks :
    (close_result : ℕ → ℤ) (fd : ℕ) (u : FileUsage) (t : Table)
    → lookup fd t.entries ≡ some u
    → let t' = record t {
      closed = if t.fd_count u.file == 1 then u.file ∷ t.closed else t.closed;
    } in
      (close close_result fd t).1 ≡ (
        if u.calls == 0
        then forget fd u t'
        else record t' { entries = insert fd (record u { closing = true }) t.entries })
unfolding close close_entry
close_marks close_result fd u t e = ground arith

module _ (close_result : ℕ → ℤ) (others : ℕ → ℕ) where
  same : {t t' : Table} → t' ≡ t → IsValid others t → IsValid others t'
  same p v = subst (IsValid others) (sym p) v

  open_file-IsValid :
      (empty_path : Bool) (host : Option (Option ℕ)) (file : ℕ) (t : Table)
      → IsValid others t
      → IsValid others (open_file empty_path host file t).1
  unfolding open_file
  open_file-IsValid empty_path host file t v = elim (Option-cases (allocate_fd t)) [
    | inl e ↦ same (ground arith) v
    | inr (fd, e) ↦
        let a = attach-IsValid others fd file t v (((allocate_fd-lowest t).0 fd e).0) in
        go fd e a host
  ]
    where
      go :
          (fd : ℕ)
          → allocate_fd t ≡ some fd
          → IsValid others (attach fd file t)
          → (h : Option (Option ℕ)) → IsValid others (open_file empty_path h file t).1
      go fd e a none = elim (Bool-cases empty_path) [
        | inl b ↦ same (ground arith) v
        | inr b ↦ same (ground arith) a
      ]
      go fd e a (some none) = elim (Bool-cases empty_path) [
        | inl b ↦ same (ground arith) v
        | inr b ↦ same (ground arith) a
      ]
      go fd e a (some (some n)) = same (ground arith) v

  pub close-IsValid :
      (fd : ℕ) (t : Table) → IsValid others t → IsValid others (close close_result fd t).1
  unfolding close
  close-IsValid fd t v = elim (Option-cases (lookup fd t.entries)) [
    | inl e ↦ same (ground arith) v
    | inr (u, e) ↦ same (close_marks close_result fd u t e) (elim (Bool-cases (u.calls == 0)) [
      | inl b ↦ rw b (
          forget-IsValid others fd u (closed_too u)
            (record { unique = v.unique; counted = v.counted }) e)
      | inr b ↦ rw b (
          retag-IsValid others fd u (record u { closing = true }) (closed_too u)
            (record { unique = v.unique; counted = v.counted }) e refl)
    ])
  ]
    where
      closed_too : FileUsage → Table
      closed_too u = record t {
        closed = if t.fd_count u.file == 1 then u.file ∷ t.closed else t.closed;
      }

  dup-IsValid : (fd : ℕ) (t : Table) → IsValid others t → IsValid others (dup close_result fd t).1
  unfolding dup
  dup-IsValid fd t v = elim (Option-cases (lookup fd t.entries)) [
    | inl e ↦ same (ground arith) v
    | inr (u, e) ↦ elim (Bool-cases u.closing) [
      | inl b ↦ same (ground arith) v
      | inr b ↦ elim (Option-cases (allocate_fd t)) [
        | inl n ↦ same (ground arith) v
        | inr (k, n) ↦
            same (ground arith)
              (attach-IsValid others k u.file t v (((allocate_fd-lowest t).0 k n).0))
      ]
    ]
  ]

  begin_call-IsValid : (fd : ℕ) (t : Table) → IsValid others t → IsValid others (begin_call fd t).1
  unfolding begin_call
  begin_call-IsValid fd t v = elim (Option-cases (lookup fd t.entries)) [
    | inl e ↦ same (ground arith) v
    | inr (u, e) ↦ elim (Bool-cases u.closing) [
      | inl b ↦ same (ground arith) v
      | inr b ↦
          same (ground arith)
            (retag-IsValid others fd u (record u { calls = suc u.calls }) t v e refl)
    ]
  ]

  end_call-IsValid : (fd : ℕ) (t : Table) → IsValid others t → IsValid others (end_call fd t)
  unfolding end_call
  end_call-IsValid fd t v = elim (Option-cases (lookup fd t.entries)) [
    | inl e ↦ same (ground arith) v
    | inr (u, e) ↦ elim (Bool-cases ((u.calls - 1 == 0) && u.closing)) [
      | inl b ↦ same (ground arith) (forget-IsValid others fd u t v e)
      | inr b ↦
          same (ground arith)
            (retag-IsValid others fd u (record u { calls = u.calls - 1 }) t v e refl)
    ]
  ]

  dup2_attach-IsValid :
      (oldfd newfd : ℕ) (t : Table)
      → IsValid others t
      → IsValid others (dup2_attach close_result oldfd newfd t).1
  unfolding dup2_attach fd_exists
  dup2_attach-IsValid oldfd newfd t v = elim (Option-cases (lookup newfd t.entries)) [
    | inr (w, n) ↦ same (ground arith) v
    | inl n ↦ elim (Option-cases (lookup oldfd t.entries)) [
      | inl e ↦ same (ground arith) v
      | inr (u, e) ↦ same (ground arith) (attach-IsValid others newfd u.file t v n)
    ]
  ]

  dup2-outcomes :
      (oldfd newfd : ℕ) (t : Table)
      → let c = (close close_result newfd t).1 in
        let r = (dup2 close_result oldfd newfd t).1 in
        (r ≡ t)
        ⊎ (r ≡ c)
        ⊎ (r ≡ (dup2_attach close_result oldfd newfd c).1)
        ⊎ (r ≡ (dup2_attach close_result oldfd newfd t).1)
  unfolding dup2
  dup2-outcomes oldfd newfd t = ground arith

  dup2-IsValid :
      (oldfd newfd : ℕ) (t : Table)
      → IsValid others t
      → IsValid others (dup2 close_result oldfd newfd t).1
  dup2-IsValid oldfd newfd t v =
      let c = close-IsValid newfd t v in
      elim (dup2-outcomes oldfd newfd t) [
        | inl e ↦ same e v
        | inr (inl e) ↦ same e c
        | inr (inr (inl e)) ↦
            same e (dup2_attach-IsValid oldfd newfd (close close_result newfd t).1 c)
        | inr (inr (inr e)) ↦ same e (dup2_attach-IsValid oldfd newfd t v)
      ]

  -- Each call of the following that a process makes, whatever the state it finds, keeps its descriptors
  -- unique and the count of a file the number of its descriptors, those of the other processes
  -- included: an open, a close, a dup, a dup2, and the begin and the end of a call that uses a
  -- descriptor. The calls that make pipes, sockets and children are not among them.
  pub call-IsValid :
      (c : Call) (t : Table) → IsValid others t → IsValid others (call close_result c t)
  unfolding call
  call-IsValid (opens empty_path host file) t v = open_file-IsValid empty_path host file t v
  call-IsValid (closes fd) t v = close-IsValid fd t v
  call-IsValid (dups fd) t v = dup-IsValid fd t v
  call-IsValid (begins fd) t v = begin_call-IsValid fd t v
  call-IsValid (ends fd) t v = end_call-IsValid fd t v
  call-IsValid (dup2s oldfd newfd) t v = dup2-IsValid oldfd newfd t v

-- ===== src/FileTable.antt =====
-- The descriptors of a process: `openFiles` of model/process.h, model/file-usage.cc, the file counts
-- of model/unix-fd.cc, `UtilsAllocateFd`, `CheckFdExists` and OPENED_FD_METHOD of model/utils.cc and
-- model/utils.h, and the calls of model/dce-fd.cc that open, close and duplicate descriptors.
--
-- A file is a number, the address of its `UnixFd`. `close_result` is what the file's own `Close`
-- returns; the files that it was called on are logged. Negative descriptors are left out.
pub mod Valid
pub mod Lookup
pub mod Calls
pub mod Closing
mod Tests
use ns_3_dce.Prelude.{
  ℕ, zero, suc, ◌+◌, ◌-◌, ◌≡◌, Bool, true, false, not, ◌&&◌, ◌||◌, Option, none, some, List, [],
  ◌∷◌, ltb, ◌==◌, if◌then◌else◌, update, ℤ, pos, minus_one,
}

-- `FileUsage`: the calls that use the file through this descriptor, and whether it was closed.
pub record FileUsage : Type 0 where
  pub file : ℕ
  pub calls : ℕ
  pub closing : Bool

pub data Errno : Type 0 where
  ebadf emfile enoent : Errno
  from_host : ℕ → Errno

pub data Result : Type 0 where
  returns : ℤ → Result
  fails : Errno → Result

pub record Table : Type 0 where
  -- The entries of `openFiles`; each descriptor has one at most.
  pub entries : List (ℕ × FileUsage)
  -- `m_fdCount` of each file, and the files that were closed.
  pub fd_count : ℕ → ℕ
  pub closed : List ℕ

abbrev pub max_fds : ℕ
max_fds = 1024

pub lookup : ℕ → List (ℕ × FileUsage) → Option FileUsage
lookup fd [] = none
lookup fd ((k, u) ∷ es) = if k == fd then some u else lookup fd es

pub erase : ℕ → List (ℕ × FileUsage) → List (ℕ × FileUsage)
erase fd [] = []
erase fd ((k, u) ∷ es) = if k == fd then erase fd es else (k, u) ∷ erase fd es

-- `openFiles[fd] = u`.
pub insert : ℕ → FileUsage → List (ℕ × FileUsage) → List (ℕ × FileUsage)
unfolding erase
insert fd u es = (fd, u) ∷ erase fd es

-- The loop of `UtilsAllocateFd` from `fd` on, with `left` rounds to go.
pub allocate_from : ℕ → ℕ → List (ℕ × FileUsage) → Option ℕ
allocate_from zero fd es = none
allocate_from (suc left) fd es =
    let rest = allocate_from left (suc fd) es in
    elim (lookup fd es) [ none ↦ some fd | some _ ↦ rest ]

pub allocate_fd : Table → Option ℕ
unfolding allocate_from
allocate_fd t = allocate_from max_fds 0 t.entries

-- `CheckFdExists (p, fd, opened)`.
pub fd_exists : ℕ → Bool → Table → Bool
fd_exists fd opened t = elim (lookup fd t.entries) [
  | none ↦ false
  | some u ↦ not opened || not u.closing
]

-- A descriptor for a file whose count goes up by one.
pub attach : ℕ → ℕ → Table → Table
attach fd file t = record t {
  entries = insert fd (record { file = file; calls = 0; closing = false }) t.entries;
  fd_count = update t.fd_count file (suc (t.fd_count file));
}

-- `openFiles.erase (fd); delete fu;`.
pub forget : ℕ → FileUsage → Table → Table
forget fd u t = record t {
  entries = erase fd t.entries;
  fd_count = update t.fd_count u.file (t.fd_count u.file - 1);
}

-- `dce_open`: `host` is what the host's `open` gives for the path, or nothing for the devices of
-- random bytes, which are made here; `file` is the address of the new `UnixFd`.
pub open_file : Bool → Option (Option ℕ) → ℕ → Table → Result × Table
unfolding attach
open_file empty_path host file t = if empty_path then (fails enoent, t) else elim (allocate_fd t) [
  | none ↦ (fails emfile, t)
  | some fd ↦ elim host [
    | none ↦ (returns (pos fd), attach fd file t)
    | some failure ↦ elim failure [
      | none ↦ (returns (pos fd), attach fd file t)
      | some e ↦ (fails (from_host e), t)
    ]
  ]
]

module _ (close_result : ℕ → ℤ) where
  close_entry : ℕ → FileUsage → Table → Result × Table
  unfolding forget
  close_entry fd u t =
      let last = t.fd_count u.file == 1 in
      let retval = if last then close_result u.file else pos 0 in
      let t' = record t { closed = if last then u.file ∷ t.closed else t.closed } in
      if u.calls == 0 then (returns retval, forget fd u t') else (
        returns retval,
        record t' { entries = insert fd (record u { closing = true }) t'.entries },
      )

  pub close : ℕ → Table → Result × Table
  unfolding close_entry
  close fd t = elim (lookup fd t.entries) [ none ↦ (fails ebadf, t) | some u ↦ close_entry fd u t ]

  pub dup : ℕ → Table → Result × Table
  unfolding attach
  dup oldfd t = elim (lookup oldfd t.entries) [
    | none ↦ (fails ebadf, t)
    | some u ↦ if u.closing then (fails ebadf, t) else elim (allocate_fd t) [
      | none ↦ (fails emfile, t)
      | some fd ↦ (returns (pos fd), attach fd u.file t)
    ]
  ]

  -- The end of `dce_dup2`, once `newfd` was closed.
  dup2_attach : ℕ → ℕ → Table → Result × Table
  unfolding attach
  dup2_attach oldfd newfd t =
      if fd_exists newfd false t then (fails ebadf, t) else elim (lookup oldfd t.entries) [
        | none ↦ (fails ebadf, t)
        | some u ↦ (returns (pos newfd), attach newfd u.file t)
      ]

  is_zero : Result → Bool
  is_zero (returns (pos n)) = n == 0
  is_zero r = false

  pub dup2 : ℕ → ℕ → Table → Result × Table
  unfolding dup2_attach is_zero
  dup2 oldfd newfd t =
      if not (fd_exists oldfd true t) || ltb max_fds newfd
      then (fails ebadf, t)
      else if oldfd == newfd
      then (returns (pos newfd), t)
      else if fd_exists newfd true t
      then (let (r, t') = close newfd t in
          if is_zero r then dup2_attach oldfd newfd t' else (fails ebadf, t'))
      else dup2_attach oldfd newfd t

-- OPENED_FD_METHOD up to the file's method, and after it.
pub begin_call : ℕ → Table → Result × Table
begin_call fd t = elim (lookup fd t.entries) [
  | none ↦ (fails ebadf, t)
  | some u ↦ if u.closing then (fails ebadf, t) else (
    returns (pos 0),
    record t { entries = insert fd (record u { calls = suc u.calls }) t.entries },
  )
]

pub end_call : ℕ → Table → Table
unfolding forget
end_call fd t = elim (lookup fd t.entries) [
  | none ↦ t
  | some u ↦
      if u.calls - 1 == 0 && u.closing
      then forget fd u t
      else record t { entries = insert fd (record u { calls = u.calls - 1 }) t.entries }
]

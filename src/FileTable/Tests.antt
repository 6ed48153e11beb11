-- ===== src/FileTable/Tests.antt =====
-- A process with the descriptors 0 and 3 of model/process.h.
use ns_3_dce.Prelude.{
  ℕ, ◌+◌, ◌≡◌, false, true, none, some, [], ◌∷◌, ◌==◌, if◌then◌else◌, arith, refl, ℤ, pos,
}
use ns_3_dce.FileTable.{
  FileUsage, Table, ebadf, returns, fails, lookup, close, begin_call, end_call,
}
use ns_3_dce.FileTable.Valid.{uses, IsValid}
use ns_3_dce.FileTable.Calls.{call, dup2s, call-IsValid}
use ns_3_dce.FileTable.Closing.{close_waits_for_call}

abbrev entry : ℕ → FileUsage
entry file = record { file = file; calls = 0; closing = false }

abbrev two : Table
two = record {
  entries = (0, entry 64) ∷ (3, entry 96) ∷ [];
  fd_count = λ f. (if 64 == f then 1 else 0) + (if 96 == f then 1 else 0);
  closed = [];
}

abbrev no_error : ℕ → ℤ
no_error f = pos 0

two-IsValid : IsValid (λ f. 0) two
unfolding lookup uses
two-IsValid = record { unique = (refl, (refl, tt)); counted = λ f. omega arith }

call-IsValid_example : IsValid (λ f. 0) (call no_error (dup2s 0 3) two)
call-IsValid_example = call-IsValid no_error (λ f. 0) (dup2s 0 3) two two-IsValid

close_waits_for_call_example :
    let t₁ = (begin_call 3 two).1 in
    let t₂ = (close no_error 3 t₁).1 in
    ((begin_call 3 two).0 ≡ returns (pos 0))
    × ((k : ℕ)
        → lookup k t₂.entries ≡ (
            if 3 == k
            then some (record { file = 96; calls = 1; closing = true })
            else lookup k two.entries))
    × (begin_call 3 t₂ ≡ (fails ebadf, t₂))
    × ((k : ℕ) → lookup k (end_call 3 t₂).entries ≡ (if 3 == k then none else lookup k two.entries))
unfolding lookup
close_waits_for_call_example = close_waits_for_call no_error 3 (entry 96) two refl refl refl

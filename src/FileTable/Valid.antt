-- ===== src/FileTable/Valid.antt =====
-- The counts of descriptors that model/unix-fd.cc keeps for each file.
use ns_3_dce.Prelude.{
  ℕ, ◌+◌, ◌≡◌, false, none, some, List, [], ◌∷◌, ◌==◌, arith, if◌then◌else◌, refl,
}
use ns_3_dce.FileTable.{FileUsage, Table, lookup, erase, insert, attach, forget}
use ns_3_dce.FileTable.Lookup.{lookup-erase}

-- How many descriptors stand for a file.
unfoldable pub uses : ℕ → List (ℕ × FileUsage) → ℕ
uses f [] = 0
uses f ((k, u) ∷ es) = (if u.file == f then 1 else 0) + uses f es

abbrev pub IsUnique : List (ℕ × FileUsage) → Type 0
IsUnique [] = Unit
IsUnique ((k, u) ∷ es) = (lookup k es ≡ none) × IsUnique es

erase-IsUnique : (fd : ℕ) (es : List (ℕ × FileUsage)) → IsUnique es → IsUnique (erase fd es)
unfolding erase
erase-IsUnique fd [] v = tt
erase-IsUnique fd ((k, u) ∷ es) v = ground (arith, erase-IsUnique fd es v.1, lookup-erase fd k es)

uses-erase_free :
    (f fd : ℕ) (es : List (ℕ × FileUsage)) → lookup fd es ≡ none → uses f (erase fd es) ≡ uses f es
unfolding erase lookup uses
uses-erase_free f fd [] e = refl
uses-erase_free f fd ((k, u) ∷ es) e = ground (arith, uses-erase_free f fd es)

uses-erase :
    (f fd : ℕ) (v : FileUsage) (es : List (ℕ × FileUsage))
    → IsUnique es
    → lookup fd es ≡ some v
    → (if v.file == f then 1 else 0) + uses f (erase fd es) ≡ uses f es
unfolding erase lookup uses
uses-erase f fd v [] q e = cc
uses-erase f fd v ((k, u) ∷ es) q e =
    ground (arith, uses-erase f fd v es q.1, uses-erase_free f fd es, q.0)

-- Descriptors are unique, and a file's count is the number of its descriptors, here and in the other
-- processes.
pub record IsValid (others : ℕ → ℕ) (t : Table) : Type 0 where
  pub unique : IsUnique t.entries
  pub counted : (f : ℕ) → t.fd_count f ≡ others f + uses f t.entries

insert-IsUnique :
    (fd : ℕ) (u : FileUsage) (es : List (ℕ × FileUsage)) → IsUnique es → IsUnique (insert fd u es)
unfolding insert
insert-IsUnique fd u es v = (ground (arith, lookup-erase fd fd es), erase-IsUnique fd es v)

module _ (others : ℕ → ℕ) where
  pub attach-IsValid :
      (fd file : ℕ) (t : Table)
      → IsValid others t
      → lookup fd t.entries ≡ none
      → IsValid others (attach fd file t)
  unfolding attach insert uses
  attach-IsValid fd file t v e = record {
    unique =
        insert-IsUnique fd (record { file = file; calls = 0; closing = false }) t.entries v.unique;
    counted = λ f. ground (arith, v.counted f, uses-erase_free f fd t.entries e);
  }

  pub forget-IsValid :
      (fd : ℕ) (u : FileUsage) (t : Table)
      → IsValid others t
      → lookup fd t.entries ≡ some u
      → IsValid others (forget fd u t)
  unfolding forget
  forget-IsValid fd u t v e = record {
    unique = erase-IsUnique fd t.entries v.unique;
    counted = λ f. ground (arith, v.counted f, uses-erase f fd u t.entries v.unique e);
  }

  -- An entry whose flags or calls change, for the same file.
  pub retag-IsValid :
      (fd : ℕ) (u w : FileUsage) (t : Table)
      → IsValid others t
      → lookup fd t.entries ≡ some u
      → w.file ≡ u.file
      → IsValid others (record t { entries = insert fd w t.entries })
  unfolding insert uses
  retag-IsValid fd u w t v e p = record {
    unique = insert-IsUnique fd w t.entries v.unique;
    counted = λ f. ground (arith, v.counted f, uses-erase f fd u t.entries v.unique e);
  }

-- ===== src/Paths/Tests.antt =====
-- Paths of model/exec-utils.cc.
use ns_3_dce.Prelude.{ℕ, ◌≡◌, Bool, true, false, Option, none, some, List, [], ◌∷◌, arith, refl}
use ns_3_dce.Paths.{
  slash, dot_sign, colon, canonize_path, print_path, two_dots, scan, scan_step, climb, dec_ℤ, inc_ℤ,
  join,
}
use ns_3_dce.Paths.Search.{split, SearchPath, Status}
use ns_3_dce.Paths.Canonical.{segments_from}
use ns_3_dce.Paths.Names.{AllNames, walk}
use ns_3_dce.Paths.Resolved.{Names, canonize_path_resolves}

-- /a/./b/..
abbrev abs_path : List ℕ
abs_path = slash ∷ 97 ∷ slash ∷ dot_sign ∷ slash ∷ 98 ∷ slash ∷ dot_sign ∷ dot_sign ∷ []

canonize_path_resolves_example :
    ((names : List (List ℕ))
      → walk (segments_from [] abs_path) [] ≡ some names
      → AllNames names
        × (text : List ℕ) × (canonize_path abs_path true ≡ some text)
        × Names true names text)
    × (true ≡ false
        → walk (segments_from [] abs_path) [] ≡ none
        → canonize_path abs_path true ≡ none)
canonize_path_resolves_example = canonize_path_resolves abs_path true (omega arith)

-- The walk over `/a/./b/..` leads to `a`, and `/..` is let through.
abs_path-walk : walk (segments_from [] abs_path) [] ≡ some ((97 ∷ []) ∷ [])
unfolding walk segments_from
abs_path-walk = refl

abbrev above_root : List ℕ
above_root = slash ∷ two_dots

above_root-passes : canonize_path above_root true ≡ some above_root
unfolding canonize_path scan scan_step climb dec_ℤ inc_ℤ print_path join
above_root-passes = refl

-- a::b
abbrev two_fields : List ℕ
two_fields = 97 ∷ colon ∷ colon ∷ 98 ∷ []

split_runs : split two_fields colon ≡ (97 ∷ []) ∷ (98 ∷ []) ∷ []
unfolding split
split_runs = refl

abbrev is_long : List ℕ → Bool
is_long s = elim s [
  | [] ↦ false
  | _ ∷ r ↦ elim r [ [] ↦ false | _ ∷ q ↦ elim q [ [] ↦ false | _ ∷ _ ↦ true ] ]
]

abbrev two_paths : SearchPath
two_paths = record { base_path = []; virt = false; paths = (97 ∷ []) ∷ (98 ∷ []) ∷ [] }

abbrev any_file : List ℕ → Option Status
any_file file =
    some (record { uid = 5; gid = 5; others_run = true; group_runs = false; owner_runs = true })

-- ===== src/Paths.antt =====
-- model/exec-utils.cc with `Split` and `CheckExeMode` of model/utils.cc: canonical paths, and the
-- search for the file to run.
--
-- A string is the list of its characters before the final 0. `CanonizePath` reads that 0 as a last
-- character, and `none` is its result false. Files of the host are seen through a parameter: the
-- checker of a search, or `stat`.
pub mod Canonical
pub mod Names
pub mod Resolved
pub mod Search
pub mod Searching
mod Tests
use ns_3_dce.Prelude.{
  ℕ, zero, suc, ◌+◌, ◌≡◌, Bool, true, false, not, ◌&&◌, ◌||◌, Option, none, some, List, [], ◌∷◌,
  ◌++◌, ltb, ◌==◌, if◌then◌else◌, ℤ, pos, negsuc, length,
}

abbrev pub slash : ℕ
slash = 47

abbrev pub dot_sign : ℕ
dot_sign = 46

abbrev pub colon : ℕ
colon = 58

-- The four states of `CanonizePath`.
pub data Mode : Type 0 where
  start dot other dot_dot : Mode

pub record Scan : Type 0 where
  pub profs : List (List ℕ)
  pub cur : List ℕ
  pub level : ℤ
  pub mode : Mode

pub inc_ℤ : ℤ → ℤ
inc_ℤ (pos n) = pos (suc n)
inc_ℤ (negsuc zero) = pos 0
inc_ℤ (negsuc (suc n)) = negsuc n

pub dec_ℤ : ℤ → ℤ
dec_ℤ (pos zero) = negsuc 0
dec_ℤ (pos (suc n)) = pos n
dec_ℤ (negsuc n) = negsuc (suc n)

abbrev pub is_negative : ℤ → Bool
is_negative z = elim z [ pos _ ↦ false | negsuc _ ↦ true ]

-- The null character or a slash.
abbrev pub is_end : ℕ → Bool
is_end c = c == 0 || c == slash

-- `profs.pop_back ()`.
unfoldable pub pop_back : List (List ℕ) → List (List ℕ)
pop_back [] = []
pop_back (x ∷ []) = []
pop_back (x ∷ y ∷ xs) = x ∷ pop_back (y ∷ xs)

abbrev pub two_dots : List ℕ
two_dots = dot_sign ∷ dot_sign ∷ []

-- The end of `..`: one level up. The two flags are `ChRootProtected` and `SlashStart`.
pub climb : Bool → Bool → List (List ℕ) → ℤ → Option (List (List ℕ) × ℤ)
unfolding dec_ℤ pop_back
climb protected slash_start profs level =
    let l = dec_ℤ level in
    if protected && not slash_start && is_negative l
    then none
    else some ((if is_negative l then profs ++ two_dots ∷ [] else pop_back profs), l)

-- One round of the loop, on the character `c`.
pub scan_step : Bool → Bool → ℕ → Scan → Option Scan
unfolding climb inc_ℤ
scan_step protected slash_start c s = elim s.mode [
  | start ↦
      if c == dot_sign
      then some (record s { mode = dot })
      else if is_end c
      then some s
      else some (record s { cur = s.cur ++ c ∷ []; mode = other })
  | dot ↦
      if c == dot_sign
      then some (record s { mode = dot_dot })
      else if is_end c
      then some (record s { mode = start })
      else some (record s { cur = s.cur ++ dot_sign ∷ c ∷ []; mode = other })
  | other ↦
      if is_end c
      then some
          (record { profs = s.profs ++ s.cur ∷ []; cur = []; level = inc_ℤ s.level; mode = start })
      else some (record s { cur = s.cur ++ c ∷ [] })
  | dot_dot ↦
      if is_end c
      then elim (climb protected slash_start s.profs s.level) [
        | none ↦ none
        | some (profs, level) ↦ some (record s { profs = profs; level = level; mode = start })
      ]
      else some (record s { cur = s.cur ++ dot_sign ∷ dot_sign ∷ c ∷ []; mode = other })
]

pub scan : Bool → Bool → List ℕ → Scan → Option Scan
unfolding scan_step
scan protected slash_start [] s = scan_step protected slash_start 0 s
scan protected slash_start (c ∷ cs) s = elim (scan_step protected slash_start c s) [
  | none ↦ none
  | some s' ↦ scan protected slash_start cs s'
]

-- What is written to `result`.
pub join : List (List ℕ) → List ℕ
join [] = []
join (x ∷ []) = x
join (x ∷ y ∷ xs) = x ++ slash ∷ join (y ∷ xs)

pub print_path : Bool → List (List ℕ) → List ℕ
unfolding join
print_path slash_start [] = if slash_start then slash ∷ [] else dot_sign ∷ []
print_path slash_start (x ∷ xs) = if slash_start then slash ∷ join (x ∷ xs) else join (x ∷ xs)

abbrev pub starts_with_slash : List ℕ → Bool
starts_with_slash s = elim s [ [] ↦ false | c ∷ _ ↦ c == slash ]

abbrev pub scan_start : Scan
scan_start = record { profs = []; cur = []; level = pos 0; mode = start }

pub canonize_path : List ℕ → Bool → Option (List ℕ)
unfolding scan print_path
canonize_path path protected =
    let slash_start = starts_with_slash path in
    elim (scan protected slash_start path scan_start) [
      | none ↦ none
      | some s ↦ some (print_path slash_start s.profs)
    ]

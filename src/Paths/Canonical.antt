-- ===== src/Paths/Canonical.antt =====
-- `CanonizePath` of model/exec-utils.cc against a reading of the path by its segments.
use ns_3_dce.Prelude.{
  ℕ, ◌≡◌, ◌≢◌, Bool, true, false, ◌&&◌, ◌||◌, Option, none, some, List, [], ◌∷◌, ◌++◌, ◌==◌, arith,
  if◌then◌else◌, ℤ, pos, refl, Bool-cases, Option-cases, inl, inr,
}
use ns_3_dce.Paths.{
  slash, dot_sign, Mode, start, dot, other, dot_dot, Scan, inc_ℤ, is_end, climb, scan_step, scan,
  print_path, starts_with_slash, canonize_path,
}
use ns_3_dce.Paths.Search.{is_empty}

-- What stands between slashes, the empty segments included; `pre` is read already.
unfoldable pub segments_from : List ℕ → List ℕ → List (List ℕ)
segments_from pre [] = pre ∷ []
segments_from pre (c ∷ s) =
    if c == slash then pre ∷ segments_from [] s else segments_from (pre ++ c ∷ []) s

abbrev pub is_dot : List ℕ → Bool
is_dot [] = false
is_dot (a ∷ []) = a == dot_sign
is_dot (a ∷ b ∷ s) = false

abbrev pub is_dot_dot : List ℕ → Bool
is_dot_dot [] = false
is_dot_dot (a ∷ []) = false
is_dot_dot (a ∷ b ∷ []) = a == dot_sign && b == dot_sign
is_dot_dot (a ∷ b ∷ c ∷ s) = false

-- The names so far, and how many levels they are below where the path starts.
abbrev pub Place : Type 0
Place = List (List ℕ) × ℤ

-- A segment: the empty one and `.` stay, `..` climbs, and each other is a name.
unfoldable pub visit : Bool → Bool → List ℕ → Place → Option Place
visit protected slash_start seg (profs, level) =
    if is_empty seg || is_dot seg
    then some (profs, level)
    else if is_dot_dot seg
    then climb protected slash_start profs level
    else some (profs ++ seg ∷ [], inc_ℤ level)

unfoldable pub visit_all : Bool → Bool → List (List ℕ) → Place → Option Place
unfolding visit
visit_all protected slash_start [] p = some p
visit_all protected slash_start (seg ∷ segs) p = elim (visit protected slash_start seg p) [
  | none ↦ none
  | some q ↦ visit_all protected slash_start segs q
]

-- Where the scan stands when it has read `pre` of a segment.
abbrev mode_of : List ℕ → Mode
mode_of seg =
    if is_empty seg
    then start
    else if is_dot seg
    then dot
    else if is_dot_dot seg
    then dot_dot
    else other

abbrev reading : List ℕ → Place → Scan
reading pre p = record {
  profs = p.0;
  cur = if is_empty pre || is_dot pre || is_dot_dot pre then [] else pre;
  level = p.1;
  mode = mode_of pre;
}

scan_step-goes_on :
    (protected slash_start : Bool) (c : ℕ) (pre : List ℕ) (p : Place)
    → is_end c ≡ false
    → scan_step protected slash_start c (reading pre p) ≡ some (reading (pre ++ c ∷ []) p)
unfolding scan_step
scan_step-goes_on protected slash_start c [] p h = ground arith
scan_step-goes_on protected slash_start c (a ∷ []) p h = ground arith
scan_step-goes_on protected slash_start c (a ∷ b ∷ []) p h = ground arith
scan_step-goes_on protected slash_start c (a ∷ b ∷ d ∷ pre) p h = ground arith

-- The end of a segment.
abbrev at_start : Option Place → Option Scan
at_start o = elim o [ none ↦ none | some p ↦ some (reading [] p) ]

scan_step-ends :
    (protected slash_start : Bool) (c : ℕ) (pre : List ℕ) (p : Place)
    → is_end c ≡ true
    → scan_step protected slash_start c (reading pre p)
      ≡ at_start (visit protected slash_start pre p)
unfolding scan_step visit
scan_step-ends protected slash_start c [] p h = ground arith
scan_step-ends protected slash_start c (a ∷ []) p h = ground arith
scan_step-ends protected slash_start c (a ∷ b ∷ []) p h = ground arith
scan_step-ends protected slash_start c (a ∷ b ∷ d ∷ pre) p h = ground arith

-- No character is the null character.
abbrev pub IsString : List ℕ → Type 0
IsString [] = Unit
IsString (c ∷ s) = (c ≢ 0) × IsString s

scan_lem :
    (protected slash_start : Bool) (pre s : List ℕ) (p : Place)
    → IsString s
    → scan protected slash_start s (reading pre p)
      ≡ at_start (visit_all protected slash_start (segments_from pre s) p)
unfolding scan visit_all segments_from
scan_lem protected slash_start pre [] p h =
    ground (arith, scan_step-ends protected slash_start 0 pre p refl)
scan_lem protected slash_start pre (c ∷ s) p h = elim (Bool-cases (c == slash)) [
  | inl e ↦ elim (Option-cases (visit protected slash_start pre p)) [
    | inl n ↦ ground (arith, scan_step-ends protected slash_start c pre p)
    | inr (q, n) ↦
        ground (
          arith,
          scan_step-ends protected slash_start c pre p,
          scan_lem protected slash_start [] s q,
        )
  ]
  | inr e ↦ ground (
    arith,
    scan_step-goes_on protected slash_start c pre p,
    scan_lem protected slash_start (pre ++ c ∷ []) s p,
  )
]

-- `CanonizePath` of a string reads its segments one after the other, from the first: it skips the
-- empty ones and `.`, climbs at `..`, keeps each other as a name, and fails only where a climb does;
-- and it prints the names that are left.
pub canonize_path_lem :
    (path : List ℕ) (protected : Bool)
    → IsString path
    → let slash_start = starts_with_slash path in
      canonize_path path protected
      ≡ elim (visit_all protected slash_start (segments_from [] path) ([], pos 0)) [
        | none ↦ none
        | some (profs, _) ↦ some (print_path slash_start profs)
      ]
unfolding canonize_path
canonize_path_lem path protected h =
    elim (Option-cases
      (visit_all protected (starts_with_slash path) (segments_from [] path) ([], pos 0))) [
        | inl e ↦ ground (arith, scan_lem protected (starts_with_slash path) [] path ([], pos 0) h)
        | inr (q, e) ↦
            ground (arith, scan_lem protected (starts_with_slash path) [] path ([], pos 0) h)
      ]

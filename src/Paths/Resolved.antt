-- ===== src/Paths/Resolved.antt =====
-- What `CanonizePath` of model/exec-utils.cc makes of a path, in terms of the names it leads through.
use ns_3_dce.Prelude.{
  ℕ, ◌≡◌, ◌≢◌, Bool, true, false, none, some, List, [], ◌∷◌, arith, if◌then◌else◌, pos, refl,
  length, Option-cases, inl, inr,
}
use ns_3_dce.Paths.{slash, dot_sign, dec_ℤ, climb, print_path, starts_with_slash, canonize_path}
use ns_3_dce.Paths.Canonical.{segments_from, visit, visit_all, IsString, canonize_path_lem}
use ns_3_dce.Paths.Names.{
  AllNames, enter, walk, visit-enter, visit_all-walk, segments_from-AllPlain, segments_from-join,
  join-starts, canonize_of_visit,
}

-- A text that stands for these names: they are what its slashes part, after a first slash if the path
-- is absolute; and no name at all is written as `/` or as `.`.
pub record Names (absolute : Bool) (names : List (List ℕ)) (text : List ℕ) : Type 0 where
  pub starts : starts_with_slash text ≡ absolute
  pub parts : names ≢ [] → segments_from [] text ≡ (if absolute then [] ∷ names else names)
  pub nothing : names ≡ [] → text ≡ (if absolute then slash ∷ [] else dot_sign ∷ [])

print_path-Names :
    (absolute : Bool) (names : List (List ℕ))
    → AllNames names
    → Names absolute names (print_path absolute names)
unfolding print_path
print_path-Names true [] h = record {
  starts = refl;
  parts = λ n. absurd (n refl);
  nothing = λ e. refl;
}
print_path-Names false [] h = record {
  starts = refl;
  parts = λ n. absurd (n refl);
  nothing = λ e. refl;
}
print_path-Names true (x ∷ xs) h = record {
  starts = refl;
  parts = λ n. unfold segments_from in ground (arith, segments_from-join x xs h);
  nothing = λ e. absurd cc;
}
print_path-Names false (x ∷ xs) h = record {
  starts = join-starts x xs h.0;
  parts = λ n. segments_from-join x xs h;
  nothing = λ e. absurd cc;
}

-- A segment that climbs above the start of a relative path is refused under protection.
visit-refuses :
    (seg : List ℕ) (names : List (List ℕ))
    → enter seg names ≡ none
    → visit true false seg (names, pos (length names)) ≡ none
unfolding visit climb dec_ℤ
visit-refuses seg [] e = ground arith
visit-refuses seg (x ∷ names) e = absurd (ground arith)

visit_all-refuses :
    (segs names : List (List ℕ))
    → walk segs names ≡ none
    → visit_all true false segs (names, pos (length names)) ≡ none
unfolding visit_all walk
visit_all-refuses [] names e = absurd cc
visit_all-refuses (seg ∷ segs) names e = elim (Option-cases (enter seg names)) [
  | inl n ↦ ground (arith, visit-refuses seg names n)
  | inr (more, n) ↦
      ground (arith, visit-enter true false seg names more n, visit_all-refuses segs more)
]

-- Read a string as a walk over its segments, from no name: the empty segment and `.` stay, `..` takes
-- the last name away, each other adds itself, and `..` with no name left climbs above the start. If
-- the walk never climbs above the start, `CanonizePath` gives, whatever the protection, a text that
-- is absolute if the path is, and whose parts between slashes are the names at the end of the walk,
-- in order (`/` or `.` for none), of which none is empty, `.` or `..`. If the walk climbs above the
-- start of a relative path, a protected `CanonizePath` fails.
pub canonize_path_resolves :
    (path : List ℕ) (protected : Bool)
    → IsString path
    → let absolute = starts_with_slash path in
      ((names : List (List ℕ))
        → walk (segments_from [] path) [] ≡ some names
        → AllNames names
          × (text : List ℕ) × (canonize_path path protected ≡ some text)
          × Names absolute names text)
      × (absolute ≡ false → walk (segments_from [] path) [] ≡ none → canonize_path path true ≡ none)
canonize_path_resolves path protected h = (
  λ names e.
      let w =
        visit_all-walk protected (starts_with_slash path) (segments_from [] path) [] names
          (segments_from-AllPlain [] path tt tt h) tt e in
      (
        w.1,
        print_path (starts_with_slash path) names,
        canonize_of_visit path (starts_with_slash path) protected names (pos (length names)) h refl
            w.0,
        print_path-Names (starts_with_slash path) names w.1,
      ),
  λ a e.
      ground
        (arith, a, canonize_path_lem path true h, visit_all-refuses (segments_from [] path) [] e),
)

-- ===== src/Paths/Searching.antt =====
-- `Split` of model/utils.cc and the search of model/exec-utils.cc.
use ns_3_dce.Prelude.{
  ℕ, zero, suc, ◌<◌, ◌≡◌, ◌≢◌, Bool, true, false, not, ◌&&◌, ◌⊎◌, Option, none, some, List, [], ◌∷◌,
  ◌++◌, ◌==◌, arith, if◌then◌else◌, refl, ap, sym, append_assoc, append-nil, Bool-cases,
  Option-cases, inl, inr, length,
}
use ns_3_dce.Paths.{slash, dot_sign, canonize_path, starts_with_slash}
use ns_3_dce.Paths.Search.{
  find_sep, split_fuel, split, is_empty, SearchPath, candidate, or_empty, seek_in, seek_file,
  search_absolute_file, search_relative_file, search_simple_file, search_file, or_else, search_path,
  Status, check_file_exe, check_exe_mode,
}

-- What stands between the separators, the empty fields included; `pre` is read already.
unfoldable pub fields_from : ℕ → List ℕ → List ℕ → List (List ℕ)
fields_from sep pre [] = pre ∷ []
fields_from sep pre (c ∷ s) =
    if c == sep then pre ∷ fields_from sep [] s else fields_from sep (pre ++ c ∷ []) s

unfoldable pub not_empty : List (List ℕ) → List (List ℕ)
not_empty [] = []
not_empty (x ∷ xs) = if is_empty x then not_empty xs else x ∷ not_empty xs

find_sep-none :
    (sep : ℕ) (pre s : List ℕ) → find_sep sep s ≡ none → fields_from sep pre s ≡ (pre ++ s) ∷ []
unfolding find_sep fields_from
find_sep-none sep pre [] e = ap (λ l. l ∷ []) (sym (append-nil pre))
find_sep-none sep pre (c ∷ s) e =
    ground (arith, find_sep-none sep (pre ++ c ∷ []) s, append_assoc pre (c ∷ []) s)

find_sep-some :
    (sep : ℕ) (pre s word after : List ℕ)
    → find_sep sep s ≡ some (word, after)
    → (fields_from sep pre s ≡ (pre ++ word) ∷ fields_from sep [] after) × (length after < length s)
unfolding find_sep fields_from
find_sep-some sep pre [] word after e = cc
find_sep-some sep pre (c ∷ s) word after e = elim (Bool-cases (c == sep)) [
  | inl q ↦ (ground (arith, append-nil {0} pre), ground arith)
  | inr q ↦ elim (Option-cases (find_sep sep s)) [
    | inl n ↦ absurd (ground arith)
    | inr ((w, a), n) ↦
        let ih = find_sep-some sep (pre ++ c ∷ []) s w a n in
        (ground (arith, ih.0, append_assoc pre (c ∷ []) w), ground (arith, ih.1))
  ]
]

split_fuel_lem :
    (fuel sep : ℕ) (s : List ℕ)
    → length s < fuel
    → split_fuel fuel sep s ≡ not_empty (fields_from sep [] s)
unfolding split_fuel not_empty
split_fuel_lem zero sep s h = absurd (omega arith)
split_fuel_lem (suc fuel) sep s h = elim (Option-cases (find_sep sep s)) [
  | inl n ↦ ground (arith, find_sep-none sep [] s n)
  | inr ((word, after), n) ↦
      let f = find_sep-some sep [] s word after n in
      ground (arith, f.0, f.1, split_fuel_lem fuel sep after)
]

-- `Split` gives the fields between the separators in order, without the empty ones, on every input.
pub split_lem : (s : List ℕ) (sep : ℕ) → split s sep ≡ not_empty (fields_from sep [] s)
unfolding split
split_lem s sep = split_fuel_lem (suc (length s)) sep s (omega arith)

-- The file that a path stands for.
unfoldable pub target : SearchPath → List ℕ → List ℕ → List ℕ → List ℕ
target sp file cwd p = or_empty (canonize_path (candidate sp file cwd p) false)

module _ (checker : List ℕ → Bool) (sp : SearchPath) (file cwd : List ℕ) where
  -- There is no such file, or the checker refuses it.
  abbrev pub Refused : List ℕ → Type 0
  Refused p = (not (is_empty (target sp file cwd p)) && checker (target sp file cwd p)) ≡ false

  abbrev pub AllRefused : List (List ℕ) → Type 0
  AllRefused [] = Unit
  AllRefused (p ∷ ps) = Refused p × AllRefused ps

  pub record Found (ps : List (List ℕ)) (r : List ℕ) : Type 0 where
    pub before : List (List ℕ)
    pub chosen : List ℕ
    pub after : List (List ℕ)
    pub split_at : ps ≡ before ++ chosen ∷ after
    pub refused : AllRefused before
    pub result : r ≡ target sp file cwd chosen
    pub real : is_empty r ≡ false
    pub accepted : checker r ≡ true

  seek_in_lem :
      (ps : List (List ℕ))
      → let r = seek_in checker sp file cwd ps in ((r ≡ []) × AllRefused ps) ⊎ Found ps r
  unfolding seek_in target
  seek_in_lem [] = inl (refl, tt)
  seek_in_lem (p ∷ ps) =
      elim (Bool-cases (not (is_empty (target sp file cwd p)) && checker (target sp file cwd p))) [
        | inl e ↦ inr (
            rw e (record {
              before = [];
              chosen = p;
              after = ps;
              split_at = refl;
              refused = tt;
              result = refl;
              real = ground arith;
              accepted = ground arith;
            }))
        | inr e ↦ rw e (elim (seek_in_lem ps) [
          | inl none_left ↦ inl (none_left.0, (refl, none_left.1))
          | inr f ↦ inr (record {
            before = p ∷ f.before;
            chosen = f.chosen;
            after = f.after;
            split_at = ap (λ l. p ∷ l) f.split_at;
            refused = (e, f.refused);
            result = f.result;
            real = f.real;
            accepted = f.accepted;
          })
        ])
      ]

  -- `SeekFile` gives the file of the first path, in order, whose file the checker accepts; it gives the
  -- empty string, and only then, when the checker refuses the file of each path.
  pub seek_file_lem :
      let r = seek_file checker sp file cwd in ((r ≡ []) × AllRefused sp.paths) ⊎ Found sp.paths r
  unfolding seek_file
  seek_file_lem = seek_in_lem sp.paths

or_else_first : (r o : List ℕ) → r ≢ [] → or_else r o ≡ r
or_else_first [] o n = absurd (n refl)
or_else_first (c ∷ r) o n = refl

or_else_last : (r o : List ℕ) → r ≡ [] → or_else r o ≡ o
or_else_last [] o n = refl
or_else_last (c ∷ r) o n = cc

starts-find_sep : (file : List ℕ) → find_sep slash file ≡ none → starts_with_slash file ≡ false
unfolding find_sep
starts-find_sep [] n = refl
starts-find_sep (c ∷ s) n = ground arith

-- A name with a slash in it that does not start with one is searched for in the directory of the
-- process alone; one that starts with a slash below the root of the node, and then below the other
-- roots; any other along the path of the process, and then along that of the host.
pub search_file_order :
    (checker : List ℕ → Bool) (file vroot vpath dcepath cwd alt_roots : List ℕ)
    → let below = seek_file checker (search_path vroot (dot_sign ∷ []) true) file [] in
      let roots = seek_file checker (search_path [] alt_roots false) file [] in
      let here = seek_file checker (search_path vroot cwd true) file [] in
      let inside = seek_file checker (search_path vroot vpath true) file cwd in
      let outside = seek_file checker (search_path [] dcepath false) file [] in
      let r = search_file checker file vroot vpath dcepath cwd alt_roots in
      (starts_with_slash file ≡ true → (below ≢ [] → r ≡ below) × (below ≡ [] → r ≡ roots))
      × (starts_with_slash file ≡ false → find_sep slash file ≢ none → r ≡ here)
      × (find_sep slash file ≡ none → (inside ≢ [] → r ≡ inside) × (inside ≡ [] → r ≡ outside))
unfolding search_file search_absolute_file search_relative_file search_simple_file
search_file_order checker file vroot vpath dcepath cwd alt_roots = (
  λ s. (λ n. rw s (or_else_first below roots n), λ n. rw s (or_else_last below roots n)),
  λ s f. elim (Option-cases (find_sep slash file)) [
    | inl n ↦ absurd (f n)
    | inr (x, n) ↦ ground arith
  ],
  λ f. (
    λ n. rw (starts-find_sep file f, f) (or_else_first inside outside n),
    λ n. rw (starts-find_sep file f, f) (or_else_last inside outside n),
  ),
)
  where
    below : List ℕ
    below = seek_file checker (search_path vroot (dot_sign ∷ []) true) file []

    roots : List ℕ
    roots = seek_file checker (search_path [] alt_roots false) file []

    inside : List ℕ
    inside = seek_file checker (search_path vroot vpath true) file cwd

    outside : List ℕ
    outside = seek_file checker (search_path [] dcepath false) file []

-- A file that the search gives is there, and may be run by the user: he is root, or owns it and its
-- owner may run it, or is of its group, does not own it and its group may run it, or is neither and
-- others may run it.
pub check_file_exe_lem :
    (stat : List ℕ → Option Status) (uid gid : ℕ) (file : List ℕ)
    → check_file_exe stat uid gid file ≡ true
    → (st : Status) × (stat file ≡ some st)
      × ((uid ≡ 0)
          ⊎ ((uid ≡ st.uid) × (st.owner_runs ≡ true))
          ⊎ ((gid ≡ st.gid) × (uid ≢ st.uid) × (st.group_runs ≡ true))
          ⊎ ((gid ≢ st.gid) × (uid ≢ st.uid) × (st.others_run ≡ true)))
unfolding check_file_exe check_exe_mode
check_file_exe_lem stat uid gid file e = elim (Option-cases (stat file)) [
  | inl n ↦ cc (ground_none n)
  | inr (st, n) ↦ (st, n, ground arith)
]
  where
    ground_none : stat file ≡ none → check_file_exe stat uid gid file ≡ false
    ground_none n = ground arith

-- ===== src/Paths/Search.antt =====
-- The search for files of model/exec-utils.cc, with `Split` and `CheckExeMode` of model/utils.cc.
use ns_3_dce.Prelude.{
  ℕ, zero, suc, Bool, true, false, not, ◌&&◌, ◌||◌, Option, none, some, List, [], ◌∷◌, ◌++◌, ◌==◌,
  if◌then◌else◌, length,
}
use ns_3_dce.Paths.{canonize_path, colon, dot_sign, slash, starts_with_slash}

-- `input.find (sep, cur)` for a separator of one character, on what follows `cur`: what stands before
-- it, and after.
unfoldable pub find_sep : ℕ → List ℕ → Option (List ℕ × List ℕ)
find_sep sep [] = none
find_sep sep (c ∷ s) =
    let rest = find_sep sep s in
    if c == sep
    then some ([], s)
    else elim rest [ none ↦ none | some (word, after) ↦ some (c ∷ word, after) ]

abbrev pub is_empty : List ℕ → Bool
is_empty s = elim s [ [] ↦ true | _ ∷ _ ↦ false ]

unfoldable pub split_fuel : ℕ → ℕ → List ℕ → List (List ℕ)
unfolding find_sep
split_fuel zero sep s = []
split_fuel (suc fuel) sep s = elim (find_sep sep s) [
  | none ↦ if is_empty s then [] else s ∷ []
  | some (word, after) ↦
      let rest = split_fuel fuel sep after in if is_empty word then rest else word ∷ rest
]

-- `Split` goes on past one separator in each round.
unfoldable pub split : List ℕ → ℕ → List (List ℕ)
unfolding split_fuel
split input sep = split_fuel (suc (length input)) sep input

pub record SearchPath : Type 0 where
  pub base_path : List ℕ
  pub virt : Bool
  pub paths : List (List ℕ)

-- The paths that are canonical and not empty.
pub canonized : Bool → List (List ℕ) → List (List ℕ)
canonized protected [] = []
canonized protected (p ∷ ps) =
    let rest = canonized protected ps in
    elim (canonize_path p protected) [
      | none ↦ rest
      | some e ↦ if is_empty e then rest else e ∷ rest
    ]

pub search_path : List ℕ → List ℕ → Bool → SearchPath
unfolding canonized split
search_path base_path paths virt = record {
  base_path = base_path;
  virt = virt;
  paths = canonized (not (is_empty base_path)) (split paths colon);
}

-- The candidate for the path `p`, before it is made canonical.
pub candidate : SearchPath → List ℕ → List ℕ → List ℕ → List ℕ
candidate sp file cwd p =
    if starts_with_slash p
    then (if sp.virt
        then (if is_empty p
            then sp.base_path ++ slash ∷ file
            else sp.base_path ++ slash ∷ p ++ slash ∷ file)
        else p ++ slash ∷ file)
    else if sp.virt
    then (if not (is_empty cwd) && not (is_empty p)
        then sp.base_path ++ slash ∷ cwd ++ slash ∷ p ++ slash ∷ file
        else if not (is_empty cwd)
        then sp.base_path ++ slash ∷ cwd ++ slash ∷ file
        else sp.base_path ++ slash ∷ file)
    else p ++ slash ∷ file

-- A result false of `CanonizePath` leaves the stream empty; it cannot come without protection.
abbrev pub or_empty : Option (List ℕ) → List ℕ
or_empty o = elim o [ none ↦ [] | some s ↦ s ]

-- The first result if there is one, and else the second.
abbrev pub or_else : List ℕ → List ℕ → List ℕ
or_else res other_res = if is_empty res then other_res else res

module _ (checker : List ℕ → Bool) where
  unfoldable pub seek_in : SearchPath → List ℕ → List ℕ → List (List ℕ) → List ℕ
  unfolding candidate
  seek_in sp file cwd [] = []
  seek_in sp file cwd (p ∷ ps) =
      let rest = seek_in sp file cwd ps in
      let pp = or_empty (canonize_path (candidate sp file cwd p) false) in
      if not (is_empty pp) && checker pp then pp else rest

  unfoldable pub seek_file : SearchPath → List ℕ → List ℕ → List ℕ
  unfolding seek_in
  seek_file sp file cwd = seek_in sp file cwd sp.paths

  unfoldable pub search_absolute_file : List ℕ → List ℕ → List ℕ → List ℕ
  unfolding seek_file search_path
  search_absolute_file file vroot alt_roots =
      or_else (seek_file (search_path vroot (dot_sign ∷ []) true) file [])
        (seek_file (search_path [] alt_roots false) file [])

  unfoldable pub search_relative_file : List ℕ → List ℕ → List ℕ → List ℕ
  unfolding seek_file search_path
  search_relative_file file vroot cwd = seek_file (search_path vroot cwd true) file []

  unfoldable pub search_simple_file : List ℕ → List ℕ → List ℕ → List ℕ → List ℕ → List ℕ
  unfolding seek_file search_path
  search_simple_file file vroot vpath cwd dcepath =
      or_else (seek_file (search_path vroot vpath true) file cwd)
        (seek_file (search_path [] dcepath false) file [])

  -- The form with a path of the process, and the form without.
  unfoldable pub search_file : List ℕ → List ℕ → List ℕ → List ℕ → List ℕ → List ℕ → List ℕ
  unfolding search_absolute_file search_relative_file search_simple_file find_sep
  search_file file vroot vpath dcepath cwd alt_roots =
      if starts_with_slash file
      then search_absolute_file file vroot alt_roots
      else elim (find_sep slash file) [
        | some _ ↦ search_relative_file file vroot cwd
        | none ↦ search_simple_file file vroot vpath cwd dcepath
      ]

  pub search_file_here : List ℕ → List ℕ → List ℕ → List ℕ → List ℕ
  unfolding search_absolute_file search_relative_file
  search_file_here file vroot cwd alt_roots =
      if starts_with_slash file
      then search_absolute_file file vroot alt_roots
      else search_relative_file file vroot cwd

-- What `stat` tells of a file: its owner, and whether the two bits for reading and running are set
-- for others, for the group and for the owner.
pub record Status : Type 0 where
  pub uid : ℕ
  pub gid : ℕ
  pub others_run : Bool
  pub group_runs : Bool
  pub owner_runs : Bool

unfoldable pub check_exe_mode : Status → ℕ → ℕ → Bool
check_exe_mode st uid gid =
    (not (gid == st.gid) && not (uid == st.uid) && st.others_run)
    || ((gid == st.gid) && not (uid == st.uid) && st.group_runs)
    || ((uid == st.uid) && st.owner_runs)

-- `CheckFileExe`; the root user 0 may run any file that is there.
unfoldable pub check_file_exe : (List ℕ → Option Status) → ℕ → ℕ → List ℕ → Bool
unfolding check_exe_mode
check_file_exe stat uid gid file = elim (stat file) [
  | none ↦ false
  | some st ↦ if uid == 0 then true else check_exe_mode st uid gid
]

-- `SearchExecFile` with a path of the process; `virtual_path` is that of the manager of the node, and
-- `env` the environment of the host.
pub record Node : Type 0 where
  pub vroot : List ℕ
  pub cwd : List ℕ
  pub virtual_path : List ℕ
  pub dce_path : Option (List ℕ)
  pub dce_root : Option (List ℕ)

pub whole_path : Node → List ℕ → List ℕ
whole_path n vpath =
    if is_empty vpath
    then n.virtual_path
    else if is_empty n.virtual_path
    then vpath
    else vpath ++ colon ∷ n.virtual_path

pub search_exec_file : (List ℕ → Option Status) → Node → List ℕ → List ℕ → ℕ → ℕ → List ℕ
unfolding search_file check_file_exe whole_path
search_exec_file stat n file vpath uid gid =
    search_file (check_file_exe stat uid gid) file n.vroot (whole_path n vpath)
      (or_empty n.dce_path) n.cwd (or_empty n.dce_root)

pub search_exec_file_here : (List ℕ → Option Status) → Node → List ℕ → ℕ → ℕ → List ℕ
unfolding search_file_here check_file_exe
search_exec_file_here stat n file uid gid =
    search_file_here (check_file_exe stat uid gid) file n.vroot n.cwd (or_empty n.dce_root)

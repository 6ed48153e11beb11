-- ===== src/Env.antt =====
-- model/dce-env.cc and `seek_env` of model/utils.cc: the environment of a process.
--
-- A string is the list of its characters before the final 0, and an array of strings the list of
-- those before the null pointer. The array is the one that `penvp` points to.
pub mod Unset
pub mod Lookup
mod Tests
use ns_3_dce.Prelude.{
  ℕ, zero, suc, ◌+◌, ◌≡◌, Bool, true, false, ◌&&◌, Option, none, some, List, [], ◌∷◌, ◌++◌, ◌==◌,
  if◌then◌else◌,
}

abbrev pub equal_sign : ℕ
equal_sign = 61

-- `strchr (s, '=')`, what follows the sign.
pub after_equal : List ℕ → Option (List ℕ)
after_equal [] = none
after_equal (c ∷ s) = let rest = after_equal s in if c == equal_sign then some s else rest

-- The characters up to the sign, and the sign.
pub upto_equal : List ℕ → List ℕ
upto_equal [] = []
upto_equal (c ∷ s) = let rest = upto_equal s in if c == equal_sign then c ∷ [] else c ∷ rest

abbrev pub has_equal : List ℕ → Bool
has_equal s = elim (after_equal s) [ none ↦ false | some _ ↦ true ]

-- `strncmp (s, name, strlen (name)) == 0`.
pub has_prefix : List ℕ → List ℕ → Bool
has_prefix [] s = true
has_prefix (c ∷ name) [] = false
has_prefix (c ∷ name) (d ∷ s) = let rest = has_prefix name s in (c == d) && rest

pub seek_env : List ℕ → List (List ℕ) → Option (List ℕ)
seek_env name [] = none
seek_env name (x ∷ xs) =
    let rest = seek_env name xs in
    elim (after_equal x) [
      | none ↦ rest
      | some value ↦ if has_prefix name x then some value else rest
    ]

-- `none` stands for the null pointer `penvp`.
pub getenv : List ℕ → Option (List (List ℕ)) → Option (List ℕ)
unfolding seek_env
getenv name none = none
getenv name (some xs) = seek_env name xs

-- The strings from `cur` on, which is left out: the first is written over by the second, then each
-- by its successor as long as there is one, and the null pointer is not moved.
pub shift : List (List ℕ) → List (List ℕ)
shift [] = []
shift (x ∷ []) = x ∷ x ∷ []
shift (x ∷ y ∷ xs) = x ∷ shift (y ∷ xs)

-- One round of the loop of `dce_unsetenv` at the strings from `cur` on.
pub data Turn : Type 0 where
  ends : Turn
  passes : List ℕ → List (List ℕ) → Turn
  stays : List (List ℕ) → Turn

pub turn : List ℕ → List (List ℕ) → Turn
unfolding shift
turn name [] = ends
turn name (x ∷ xs) =
    if has_equal x
    then (if has_prefix name x then stays (shift xs) else passes x xs)
    else stays (x ∷ xs)

-- `none` when the rounds are used up.
pub unset_fuel : ℕ → List ℕ → List (List ℕ) → Option (List (List ℕ))
unset_fuel zero name xs = none
unset_fuel (suc fuel) name xs = elim (turn name xs) [
  | ends ↦ some []
  | passes x rest ↦ elim (unset_fuel fuel name rest) [ none ↦ none | some ys ↦ some (x ∷ ys) ]
  | stays rest ↦ unset_fuel fuel name rest
]

-- Each string that starts so is replaced.
pub replace : List ℕ → List ℕ → List (List ℕ) → List (List ℕ)
replace name new [] = []
replace name new (x ∷ xs) = (if has_prefix name x then new else x) ∷ replace name new xs

pub any_prefix : List ℕ → List (List ℕ) → Bool
any_prefix name [] = false
any_prefix name (x ∷ xs) = let rest = any_prefix name xs in if has_prefix name x then true else rest

pub putenv : ℕ → List ℕ → List (List ℕ) → Option (List (List ℕ))
unfolding unset_fuel upto_equal replace any_prefix
putenv fuel string xs = elim (after_equal string) [
  | none ↦ unset_fuel fuel string xs
  | some _ ↦
      let name = upto_equal string in
      if any_prefix name xs then some (replace name string xs) else some (xs ++ string ∷ [])
]

pub setenv : ℕ → List ℕ → List ℕ → Bool → List (List ℕ) → Option (List (List ℕ))
unfolding unset_fuel any_prefix
setenv fuel name value overwrite xs =
    if overwrite
    then elim (unset_fuel fuel name xs) [
      | none ↦ none
      | some ys ↦ some (ys ++ (name ++ equal_sign ∷ value) ∷ [])
    ]
    else if any_prefix name xs
    then some xs
    else some (xs ++ (name ++ equal_sign ∷ value) ∷ [])

pub clearenv : List (List ℕ) → List (List ℕ)
clearenv xs = []

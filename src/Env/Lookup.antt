-- ===== src/Env/Lookup.antt =====
-- `dce_getenv` of model/dce-env.cc after `dce_setenv`, `dce_putenv` and `dce_unsetenv`.
use ns_3_dce.Prelude.{
  ℕ, zero, suc, ◌+◌, ◌<◌, ◌≡◌, ◌≢◌, true, false, none, some, List, [], ◌∷◌, ◌++◌, arith,
  if◌then◌else◌, refl, ap, ◌∙◌, inl, inr, Bool-cases, length, replicate, length-append,
}
use ns_3_dce.Env.{
  equal_sign, after_equal, upto_equal, has_equal, has_prefix, seek_env, getenv, unset_fuel,
  any_prefix, replace, putenv, setenv,
}
use ns_3_dce.Env.Unset.{AllEqual, matches, others, unset_repeats_last}

-- A name has no sign.
abbrev pub IsName : List ℕ → Type 0
IsName [] = Unit
IsName (c ∷ s) = (c ≢ equal_sign) × IsName s

after_equal-named :
    (name value : List ℕ) → IsName name → after_equal (name ++ equal_sign ∷ value) ≡ some value
unfolding after_equal
after_equal-named [] value v = refl
after_equal-named (c ∷ name) value v = ground (arith, after_equal-named name value v.1)

upto_equal-named :
    (name value : List ℕ)
    → IsName name
    → upto_equal (name ++ equal_sign ∷ value) ≡ name ++ equal_sign ∷ []
unfolding upto_equal
upto_equal-named [] value v = refl
upto_equal-named (c ∷ name) value v = ground (arith, upto_equal-named name value v.1)

has_prefix-append : (name s : List ℕ) → has_prefix name (name ++ s) ≡ true
unfolding has_prefix
has_prefix-append [] s = refl
has_prefix-append (c ∷ name) s = ground (arith, has_prefix-append name s)

-- No string before starts with the name: the new one is found.
seek_env-append :
    (name value : List ℕ) (xs : List (List ℕ))
    → IsName name
    → any_prefix name xs ≡ false
    → seek_env name (xs ++ (name ++ equal_sign ∷ value) ∷ []) ≡ some value
unfolding seek_env any_prefix
seek_env-append name value [] v h =
    ground (arith, after_equal-named name value v, has_prefix-append name (equal_sign ∷ value))
seek_env-append name value (x ∷ xs) v h = ground (arith, seek_env-append name value xs v)

seek_env-none :
    (name : List ℕ) (xs : List (List ℕ)) → any_prefix name xs ≡ false → seek_env name xs ≡ none
unfolding seek_env any_prefix
seek_env-none name [] h = refl
seek_env-none name (x ∷ xs) h = ground (arith, seek_env-none name xs)

any_prefix-replicate :
    (name z : List ℕ) (n : ℕ) → has_prefix name z ≡ false → any_prefix name (replicate n z) ≡ false
unfolding any_prefix
any_prefix-replicate name z zero p = refl
any_prefix-replicate name z (suc n) p = ground (arith, any_prefix-replicate name z n p)

-- What `dce_unsetenv` leaves.
any_prefix-others :
    (name z : List ℕ) (xs : List (List ℕ)) (n : ℕ)
    → has_prefix name z ≡ false
    → any_prefix name (others name xs ++ replicate n z) ≡ false
unfolding any_prefix others
any_prefix-others name z [] n p = any_prefix-replicate name z n p
any_prefix-others name z (x ∷ xs) n p = ground (arith, any_prefix-others name z xs n p)

-- Where each string has a sign and the last does not start with the name: once `dce_unsetenv` has
-- returned the name has no value, and once `dce_setenv` that may overwrite has returned it has the
-- new one; and both return.
pub setenv_overwrites :
    (name value z : List ℕ) (xs : List (List ℕ)) (fuel : ℕ)
    → IsName name
    → AllEqual xs
    → has_equal z ≡ true
    → has_prefix name z ≡ false
    → length xs + matches name xs + 1 < fuel
    → (ys : List (List ℕ)) × (unset_fuel fuel name (xs ++ z ∷ []) ≡ some ys)
      × (getenv name (some ys) ≡ none)
      × (setenv fuel name value true (xs ++ z ∷ [])
          ≡ some (ys ++ (name ++ equal_sign ∷ value) ∷ []))
      × (getenv name (some (ys ++ (name ++ equal_sign ∷ value) ∷ [])) ≡ some value)
unfolding setenv getenv
setenv_overwrites name value z xs fuel v a e p h =
    let ys : List (List ℕ) = others name xs ++ replicate (suc (matches name xs)) z in
    let u = unset_repeats_last name z xs fuel a e p h in
    let gone = any_prefix-others name z xs (suc (matches name xs)) p in
    (ys, u, seek_env-none name ys gone, rw u refl, seek_env-append name value ys v gone)

-- Each string that starts with the name goes on with the sign.
abbrev pub IsClean : List ℕ → List (List ℕ) → Type 0
IsClean name [] = Unit
IsClean name (x ∷ xs) =
    (has_prefix name x ≡ has_prefix (name ++ equal_sign ∷ []) x) × IsClean name xs

any_prefix-clean :
    (name : List ℕ) (xs : List (List ℕ))
    → IsClean name xs
    → any_prefix name xs ≡ any_prefix (name ++ equal_sign ∷ []) xs
unfolding any_prefix
any_prefix-clean name [] c = refl
any_prefix-clean name (x ∷ xs) c = ground (arith, any_prefix-clean name xs c.1)

seek_env-replace :
    (name value : List ℕ) (xs : List (List ℕ))
    → IsName name
    → IsClean name xs
    → any_prefix (name ++ equal_sign ∷ []) xs ≡ true
    → seek_env name (replace (name ++ equal_sign ∷ []) (name ++ equal_sign ∷ value) xs) ≡ some value
unfolding seek_env replace any_prefix
seek_env-replace name value [] v c h = cc
seek_env-replace name value (x ∷ xs) v c h = ground (
  arith,
  seek_env-replace name value xs v c.1,
  after_equal-named name value v,
  has_prefix-append name (equal_sign ∷ value),
)

length-replace : (n s : List ℕ) (l : List (List ℕ)) → length (replace n s l) ≡ length l
unfolding replace
length-replace n s [] = refl
length-replace n s (x ∷ l) = ap suc (length-replace n s l)

-- Where no string starts with the name but goes on otherwise than with the sign, `dce_putenv` gives
-- the name its value, in place if it had one and behind the other strings if not.
pub putenv_then_getenv :
    (name value : List ℕ) (xs : List (List ℕ)) (fuel : ℕ)
    → IsName name
    → IsClean name xs
    → (ys : List (List ℕ)) × (putenv fuel (name ++ equal_sign ∷ value) xs ≡ some ys)
      × (getenv name (some ys) ≡ some value)
      × (length ys ≡ (if any_prefix name xs then length xs else length xs + 1))
unfolding putenv getenv
putenv_then_getenv name value xs fuel v c =
    elim (Bool-cases (any_prefix (name ++ equal_sign ∷ []) xs)) [
      | inl h ↦ (
        replace (name ++ equal_sign ∷ []) (name ++ equal_sign ∷ value) xs,
        ground (arith, after_equal-named name value v, upto_equal-named name value v, h),
        seek_env-replace name value xs v c h,
        rw (any_prefix-clean name xs c, h)
            (length-replace (name ++ equal_sign ∷ []) (name ++ equal_sign ∷ value) xs),
      )
      | inr h ↦ (
        xs ++ (name ++ equal_sign ∷ value) ∷ [],
        ground (arith, after_equal-named name value v, upto_equal-named name value v, h),
        seek_env-append name value xs v (any_prefix-clean name xs c ∙ h),
        rw (any_prefix-clean name xs c, h) (length-append xs ((name ++ equal_sign ∷ value) ∷ [])),
      )
    ]

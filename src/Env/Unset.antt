-- ===== src/Env/Unset.antt =====
-- The loop of `dce_unsetenv` of model/dce-env.cc: when it ends, and with what.
use ns_3_dce.Prelude.{
  ℕ, zero, suc, ◌+◌, ◌<◌, ◌≡◌, true, false, none, some, List, [], ◌∷◌, ◌++◌, arith, if◌then◌else◌,
  refl, ap, ◌∙◌, inl, inr, Bool-cases, length, replicate,
}
use ns_3_dce.Env.{has_equal, has_prefix, shift, turn, unset_fuel}

abbrev pub AllEqual : List (List ℕ) → Type 0
AllEqual [] = Unit
AllEqual (x ∷ xs) = (has_equal x ≡ true) × AllEqual xs

-- How many strings start with the name, and the others.
unfoldable pub matches : List ℕ → List (List ℕ) → ℕ
matches name [] = 0
matches name (x ∷ xs) = (if has_prefix name x then 1 else 0) + matches name xs

unfoldable pub others : List ℕ → List (List ℕ) → List (List ℕ)
others name [] = []
others name (x ∷ xs) = if has_prefix name x then others name xs else x ∷ others name xs

shift-replicate :
    (xs : List (List ℕ)) (n : ℕ) (z : List ℕ)
    → shift (xs ++ replicate (suc n) z) ≡ xs ++ replicate (suc (suc n)) z
unfolding shift
shift-replicate [] zero z = refl
shift-replicate [] (suc n) z = ap (λ l. z ∷ l) (shift-replicate [] n z)
shift-replicate (x ∷ []) n z = ap (λ l. x ∷ l) (shift-replicate [] n z)
shift-replicate (x ∷ y ∷ xs) n z = ap (λ l. x ∷ l) (shift-replicate (y ∷ xs) n z)

-- One round.
pass_round :
    (name x : List ℕ) (xs ys : List (List ℕ)) (fuel : ℕ)
    → has_equal x ≡ true
    → has_prefix name x ≡ false
    → unset_fuel fuel name xs ≡ some ys
    → unset_fuel (suc fuel) name (x ∷ xs) ≡ some (x ∷ ys)
unfolding unset_fuel turn
pass_round name x xs ys fuel e p r = ground arith

match_round :
    (name x : List ℕ) (xs : List (List ℕ)) (fuel : ℕ)
    → has_equal x ≡ true
    → has_prefix name x ≡ true
    → unset_fuel (suc fuel) name (x ∷ xs) ≡ unset_fuel fuel name (shift xs)
unfolding unset_fuel turn
match_round name x xs fuel e p = ground arith

-- Past the last string that starts with the name.
unset_none :
    (name z : List ℕ) (n fuel : ℕ)
    → has_equal z ≡ true
    → has_prefix name z ≡ false
    → n < fuel
    → unset_fuel fuel name (replicate n z) ≡ some (replicate n z)
unfolding unset_fuel turn
unset_none name z n zero e p h = absurd (omega arith)
unset_none name z zero (suc fuel) e p h = refl
unset_none name z (suc n) (suc fuel) e p h =
    pass_round name z (replicate n z) (replicate n z) fuel e p
      (unset_none name z n fuel e p (omega arith))

unset_copies :
    (name z : List ℕ) (xs : List (List ℕ)) (n fuel : ℕ)
    → AllEqual xs
    → has_equal z ≡ true
    → has_prefix name z ≡ false
    → length xs + n + matches name xs + 1 < fuel
    → unset_fuel fuel name (xs ++ replicate (suc n) z)
      ≡ some (others name xs ++ replicate (suc (n + matches name xs)) z)
unfolding matches others
unset_copies name z xs n zero a e p h = absurd (omega arith)
unset_copies name z [] n (suc fuel) a e p h =
    unset_none name z (suc n) (suc fuel) e p (omega arith)
    ∙ ap (λ k. some (replicate (suc k) z)) (omega arith)
unset_copies name z (x ∷ xs) n (suc fuel) a e p h = elim (Bool-cases (has_prefix name x)) [
  | inl m ↦
      match_round name x (xs ++ replicate (suc n) z) fuel a.0 m
      ∙ ap (unset_fuel fuel name) (shift-replicate xs n z)
      ∙ unset_copies name z xs (suc n) fuel a.1 e p (ground arith)
      ∙ rw m (ap (λ k. some (others name xs ++ replicate (suc k) z)) (omega arith))
  | inr m ↦
      pass_round name x (xs ++ replicate (suc n) z) _ fuel a.0 m
        (unset_copies name z xs n fuel a.1 e p (ground arith))
      ∙ rw m (ap (λ k. some (x ∷ others name xs ++ replicate (suc k) z)) (omega arith))
]

-- If each string has a sign and the last does not start with the name, the loop ends, within a round
-- for each string, one more for each that starts with the name, and one. It takes those out, keeps
-- the others in order, and leaves one more copy of the last string for each that it took out.
pub unset_repeats_last :
    (name z : List ℕ) (xs : List (List ℕ)) (fuel : ℕ)
    → AllEqual xs
    → has_equal z ≡ true
    → has_prefix name z ≡ false
    → length xs + matches name xs + 1 < fuel
    → unset_fuel fuel name (xs ++ z ∷ [])
      ≡ some (others name xs ++ replicate (suc (matches name xs)) z)
unset_repeats_last name z xs fuel a e p h =
    unset_copies name z xs 0 fuel a e p (omega arith)
    ∙ ap (λ k. some (others name xs ++ replicate (suc k) z)) (omega arith)

-- If the last two strings start with the name, and each before them has a sign and does not, the loop
-- runs for ever.
pub unset_hangs :
    (name y z : List ℕ) (xs : List (List ℕ)) (fuel : ℕ)
    → AllEqual xs
    → matches name xs ≡ 0
    → has_equal y ≡ true
    → has_equal z ≡ true
    → has_prefix name y ≡ true
    → has_prefix name z ≡ true
    → unset_fuel fuel name (xs ++ y ∷ z ∷ []) ≡ none
unfolding unset_fuel turn shift matches
unset_hangs name y z xs zero a m e d p q = refl
unset_hangs name y z [] (suc fuel) a m e d p q =
    match_round name y (z ∷ []) fuel e p ∙ unset_hangs name z z [] fuel a m d d q q
unset_hangs name y z (x ∷ xs) (suc fuel) a m e d p q =
    ground (arith, unset_hangs name y z xs fuel a.1)

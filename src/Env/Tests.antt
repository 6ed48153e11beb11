-- ===== src/Env/Tests.antt =====
-- Environments of model/dce-env.cc.
use ns_3_dce.Prelude.{ℕ, suc, ◌≡◌, some, List, [], ◌∷◌, ◌++◌, arith, refl, replicate}
use ns_3_dce.Env.{after_equal, has_prefix, unset_fuel}
use ns_3_dce.Env.Unset.{matches, others, unset_repeats_last}

-- A=1, B=2 and A=3.
abbrev a1 : List ℕ
a1 = 65 ∷ 61 ∷ 49 ∷ []

abbrev b2 : List ℕ
b2 = 66 ∷ 61 ∷ 50 ∷ []

abbrev a3 : List ℕ
a3 = 65 ∷ 61 ∷ 51 ∷ []

unset_repeats_last_example :
    unset_fuel 9 (65 ∷ []) (a1 ∷ b2 ∷ [])
    ≡ some (others (65 ∷ []) (a1 ∷ []) ++ replicate (suc (matches (65 ∷ []) (a1 ∷ []))) b2)
unfolding after_equal has_prefix matches
unset_repeats_last_example =
    unset_repeats_last (65 ∷ []) b2 (a1 ∷ []) 9 (refl, tt) refl refl (omega arith)

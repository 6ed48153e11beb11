-- ===== src/Prelude/Slices.antt =====
-- Memory blocks as lists of bytes: what `memcpy` and `memmove` read and write.
use Prim.Native.Nat.{ℕ, zero, suc, ◌+◌, ◌-◌, ◌≤◌, min}
use mathlib.Core.Path.{◌≡◌, refl, ap, ◌∙◌, subst, sym}
use mathlib.Core.List.{List, [], ◌∷◌, ◌++◌}
use native.Mathlib.Omega.{arith}
use ns_3_dce.Prelude.Lists.{length, take, drop, length-append, length-take, length-drop}

module _ {ℓ} {A : Type ℓ} where
  -- The `n` bytes from `off` on.
  abbrev pub slice : List A → ℕ → ℕ → List A
  slice mem off n = take n (drop off mem)

  -- The block after a copy of `src` to `off`. A copy past the end makes the block longer, which an
  -- invariant on the block's length excludes.
  unfoldable pub memcpy : List A → ℕ → List A → List A
  memcpy mem off src = take off mem ++ (src ++ drop (off + length src) mem)

  pub length-memcpy :
      (mem : List A) (off : ℕ) (src : List A)
      → off + length src ≤ length mem
      → length (memcpy mem off src) ≡ length mem
  unfolding memcpy
  length-memcpy mem off src h = omega (
    arith,
    length-append (take off mem) (src ++ drop (off + length src) mem),
    length-append src (drop (off + length src) mem),
    length-take off mem,
    length-drop (off + length src) mem,
  )

  pub take-append_self : (xs ys : List A) → take (length xs) (xs ++ ys) ≡ xs
  take-append_self [] ys = refl
  take-append_self (x ∷ xs) ys = ap (◌∷◌ x) (take-append_self xs ys)

  pub take-append_le : (n : ℕ) (xs ys : List A) → n ≤ length xs → take n (xs ++ ys) ≡ take n xs
  take-append_le zero xs ys h = refl
  take-append_le (suc n) [] ys h = elim h [ ]
  take-append_le (suc n) (x ∷ xs) ys h = ap (◌∷◌ x) (take-append_le n xs ys (omega arith))

  pub take-append_add : (n : ℕ) (xs ys : List A) → take (length xs + n) (xs ++ ys) ≡ xs ++ take n ys
  take-append_add n [] ys = ap (λ k. take k ys) (omega arith)
  take-append_add n (x ∷ xs) ys =
      let e : length (x ∷ xs) + n ≡ suc (length xs + n) = omega arith in
      rw e (ap (◌∷◌ x) (take-append_add n xs ys))

  pub drop-append_le :
      (n : ℕ) (xs ys : List A) → n ≤ length xs → drop n (xs ++ ys) ≡ drop n xs ++ ys
  drop-append_le zero xs ys h = refl
  drop-append_le (suc n) [] ys h = elim h [ ]
  drop-append_le (suc n) (x ∷ xs) ys h = drop-append_le n xs ys (omega arith)

  pub take_all : (n : ℕ) (xs : List A) → length xs ≤ n → take n xs ≡ xs
  take_all zero [] h = refl
  take_all zero (x ∷ xs) h = elim h [ ]
  take_all (suc n) [] h = refl
  take_all (suc n) (x ∷ xs) h = ap (◌∷◌ x) (take_all n xs (omega arith))

  pub drop-nil : (n : ℕ) → drop {A = A} n [] ≡ []
  drop-nil zero = refl
  drop-nil (suc n) = refl

  pub take-nil : (n : ℕ) → take {A = A} n [] ≡ []
  take-nil zero = refl
  take-nil (suc n) = refl

  -- A slice is what lies between two marks.
  pub drop-take : (r f : ℕ) (mem : List A) → r ≤ f → drop r (take f mem) ≡ slice mem r (f - r)
  drop-take zero f mem h = ap (λ k. take k mem) (omega arith)
  drop-take (suc r) zero mem h = elim h [ ]
  drop-take (suc r) (suc f) [] h = sym (take-nil (suc f - suc r))
  drop-take (suc r) (suc f) (x ∷ mem) h =
      let e : suc f - suc r ≡ f - r = omega arith in rw e (drop-take r f mem (omega arith))

  pub drop-drop : (m n : ℕ) (xs : List A) → drop n (drop m xs) ≡ drop (m + n) xs
  drop-drop zero n xs = ap (λ k. drop k xs) (omega arith)
  drop-drop (suc m) n [] = let e : suc m + n ≡ suc (m + n) = omega arith in rw e (drop-nil n)
  drop-drop (suc m) n (x ∷ xs) =
      let e : suc m + n ≡ suc (m + n) = omega arith in rw e (drop-drop m n xs)

  -- Reading past a copy made at the end of what is taken.
  pub take-memcpy :
      (mem : List A) (off : ℕ) (src : List A)
      → off ≤ length mem
      → take (off + length src) (memcpy mem off src) ≡ take off mem ++ src
  unfolding memcpy
  take-memcpy mem off src h =
      let rest : List A = drop (off + length src) mem in
      let front : length (take off mem) ≡ off = omega (arith, length-take off mem) in
      subst (λ k. take (k + length src) (take off mem ++ (src ++ rest)) ≡ take off mem ++ src) front
        (take-append_add (length src) (take off mem) (src ++ rest)
          ∙ ap (◌++◌ (take off mem)) (take-append_self src rest))

  pub take-take : (m n : ℕ) (xs : List A) → take m (take n xs) ≡ take (min m n) xs
  take-take zero n xs = let e : min 0 n ≡ 0 = omega arith in rw e
  take-take (suc m) zero xs = let e : min (suc m) 0 ≡ 0 = omega arith in rw e
  take-take (suc m) (suc n) [] = let e : min (suc m) (suc n) ≡ suc (min m n) = omega arith in rw e
  take-take (suc m) (suc n) (x ∷ xs) =
      let e : min (suc m) (suc n) ≡ suc (min m n) = omega arith in rw e (rw (take-take m n xs))

  pub drop-min : (n : ℕ) (xs : List A) → drop (min n (length xs)) xs ≡ drop n xs
  drop-min zero xs = let e : min 0 (length xs) ≡ 0 = omega arith in rw e
  drop-min (suc n) [] = drop-nil (min (suc n) 0)
  drop-min (suc n) (x ∷ xs) =
      let e : min (suc n) (suc (length xs)) ≡ suc (min n (length xs)) = omega arith in
      rw e (drop-min n xs)

  pub nil_of_length : (xs : List A) → length xs ≡ 0 → xs ≡ []
  nil_of_length [] h = refl
  nil_of_length (x ∷ xs) h = absurd (omega arith)

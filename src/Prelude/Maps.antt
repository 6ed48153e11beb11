-- ===== src/Prelude/Maps.antt =====
-- Maps from pointers as functions, and queues of pointers by how often each stands in them.
use Prim.Native.Nat.{ℕ, ◌+◌}
use mathlib.Core.Path.{◌≡◌, refl}
use mathlib.Core.Option.{Option, none, some}
use mathlib.Core.Bool.{Bool, true, false}
use mathlib.Core.List.{List, [], ◌∷◌, ◌++◌}
use native.Mathlib.Omega.{arith}
use ns_3_dce.Prelude.Tests.{◌==◌, if◌then◌else◌}

-- `f[p] = v`.
abbrev pub update {ℓ} : {A : Type ℓ} → (ℕ → A) → ℕ → A → ℕ → A
update f p v q = if p == q then v else f q

unfoldable pub count : ℕ → List ℕ → ℕ
count a [] = 0
count a (x ∷ xs) = (if x == a then 1 else 0) + count a xs

-- `std::list::remove`: every occurrence goes.
unfoldable pub remove : ℕ → List ℕ → List ℕ
remove a [] = []
remove a (x ∷ xs) = if x == a then remove a xs else x ∷ remove a xs

pub count-nil : (a : ℕ) → count a [] ≡ 0
unfolding count
count-nil a = refl

pub count-cons : (a x : ℕ) (xs : List ℕ) → count a (x ∷ xs) ≡ (if x == a then 1 else 0) + count a xs
unfolding count
count-cons a x xs = refl

pub count-append : (a : ℕ) (xs ys : List ℕ) → count a (xs ++ ys) ≡ count a xs + count a ys
unfolding count
count-append a [] ys = omega arith
count-append a (x ∷ xs) ys = omega (arith, count-append a xs ys)

-- One more at the end of the queue.
pub count-push :
    (a : ℕ) (xs : List ℕ) (x : ℕ) → count a (xs ++ x ∷ []) ≡ (if x == a then 1 else 0) + count a xs
unfolding count
count-push a xs x = omega (arith, count-append a xs (x ∷ []))

pub count-remove :
    (a x : ℕ) (xs : List ℕ) → count a (remove x xs) ≡ (if x == a then 0 else count a xs)
unfolding count remove
count-remove a x [] = ground arith
count-remove a x (y ∷ xs) = ground (arith, count-remove a x xs)

-- Nothing goes from a queue in which the pointer does not stand.
pub remove_of_count : (a : ℕ) (xs : List ℕ) → count a xs ≡ 0 → remove a xs ≡ xs
unfolding count remove
remove_of_count a [] h = refl
remove_of_count a (x ∷ xs) h = ground (arith, remove_of_count a xs)

-- What holds of the new value and of the old ones holds of an updated map.
pub update_all {ℓ} :
    {A : Type 0}
    → (P : A → Type ℓ) (f : ℕ → A) (a : ℕ) (v : A) → P v
    → ((x : ℕ) → P (f x))
    → (x : ℕ) → P (update f a v x)
update_all P f a v here there x = pick (a == x)
  where
    pick : (c : Bool) → P (if c then v else f x)
    pick true = here
    pick false = there x

-- What holds of both branches of a test, each where the test leads to it.
pub if_all {ℓ k} :
    {A : Type ℓ}
    → (P : A → Type k) (c : Bool) (x y : A) → (c ≡ true → P x)
    → (c ≡ false → P y)
    → P (if c then x else y)
if_all P true x y f g = f refl
if_all P false x y f g = g refl

pub option_all {ℓ k} :
    {A B : Type ℓ}
    → (P : B → Type k) (o : Option A) (x : B) (f : A → B) → P x
    → ((a : A) → o ≡ some a → P (f a))
    → P (elim o [ none ↦ x | some a ↦ f a ])
option_all P none x f here there = here
option_all P (some a) x f here there = there a refl

-- ===== src/ObjectTable.antt =====
-- The tables of synchronisation objects in `struct Process` of model/process.h: vectors of pointers
-- to objects that carry an id, searched and erased by the loops of model/dce-pthread-mutex.cc,
-- model/dce-semaphore.cc and model/dce-pthread-cond.cc. An object is known by its id, which is
-- unique in its table.
use ns_3_dce.Prelude.{
  ℕ, ◌≡◌, ◌≢◌, Option, none, some, List, [], ◌∷◌, ◌++◌, ◌==◌, if◌then◌else◌, arith, refl, ◌≤◌, ◌<◌,
}

module _ {A : Type 0} (id : A → ℕ) where
  unfoldable pub find : ℕ → List A → Option A
  find k [] = none
  find k (x ∷ xs) = if id x == k then some x else find k xs

  -- The object with that id is changed in place.
  unfoldable pub store : A → List A → List A
  store y [] = []
  store y (x ∷ xs) = if id x == id y then y ∷ xs else x ∷ store y xs

  -- The first with that id goes.
  unfoldable pub erase : ℕ → List A → List A
  erase k [] = []
  erase k (x ∷ xs) = if id x == k then xs else x ∷ erase k xs

  pub find-id : (k : ℕ) (xs : List A) (x : A) → find k xs ≡ some x → id x ≡ k
  unfolding find
  find-id k [] x e = cc
  find-id k (y ∷ xs) x e = ground (arith, find-id k xs x)

  pub find-store_ne : (k : ℕ) (y : A) (xs : List A) → id y ≢ k → find k (store y xs) ≡ find k xs
  unfolding find store
  find-store_ne k y [] h = refl
  find-store_ne k y (x ∷ xs) h = ground (arith, find-store_ne k y xs h)

  pub find-store_self :
      (y x : A) (xs : List A) → find (id y) xs ≡ some x → find (id y) (store y xs) ≡ some y
  unfolding find store
  find-store_self y x [] e = cc
  find-store_self y x (z ∷ xs) e = ground (arith, find-store_self y x xs)

  pub find-append :
      (k : ℕ) (xs : List A) (y : A)
      → find k xs ≡ none
      → find k (xs ++ y ∷ []) ≡ (if id y == k then some y else none)
  unfolding find
  find-append k [] y h = refl
  find-append k (x ∷ xs) y h = ground (arith, find-append k xs y)

  pub find-append_some :
      (k : ℕ) (xs ys : List A) (x : A) → find k xs ≡ some x → find k (xs ++ ys) ≡ some x
  unfolding find
  find-append_some k [] ys x h = cc
  find-append_some k (z ∷ xs) ys x h = ground (arith, find-append_some k xs ys x)

  pub find-erase_ne : (k j : ℕ) (xs : List A) → j ≢ k → find k (erase j xs) ≡ find k xs
  unfolding find erase
  find-erase_ne k j [] h = refl
  find-erase_ne k j (x ∷ xs) h = ground (arith, find-erase_ne k j xs h)

  -- Nothing is found below a bound that all ids keep, nor from one on.
  abbrev pub AllWithin : ℕ → ℕ → List A → Type 0
  AllWithin lo hi [] = Unit
  AllWithin lo hi (x ∷ xs) = (lo ≤ id x) × (id x < hi) × AllWithin lo hi xs

  pub find_below : (lo hi k : ℕ) (xs : List A) → AllWithin lo hi xs → k < lo → find k xs ≡ none
  unfolding find
  find_below lo hi k [] v h = refl
  find_below lo hi k (x ∷ xs) v h = ground (arith, find_below lo hi k xs v.2)

  pub find_above : (lo hi k : ℕ) (xs : List A) → AllWithin lo hi xs → hi ≤ k → find k xs ≡ none
  unfolding find
  find_above lo hi k [] v h = refl
  find_above lo hi k (x ∷ xs) v h = ground (arith, find_above lo hi k xs v.2)

  pub erase-AllWithin :
      (lo hi k : ℕ) (xs : List A) → AllWithin lo hi xs → AllWithin lo hi (erase k xs)
  unfolding erase
  erase-AllWithin lo hi k [] v = tt
  erase-AllWithin lo hi k (x ∷ xs) v = ground (arith, erase-AllWithin lo hi k xs v.2)

  pub append-AllWithin :
      (lo hi : ℕ) (xs : List A) (y : A)
      → AllWithin lo hi xs
      → lo ≤ id y
      → id y < hi
      → AllWithin lo hi (xs ++ y ∷ [])
  append-AllWithin lo hi [] y v a b = (a, b, tt)
  append-AllWithin lo hi (x ∷ xs) y v a b = (v.0, v.1, append-AllWithin lo hi xs y v.2 a b)

  pub mono-AllWithin :
      (lo hi top : ℕ) (xs : List A) → hi ≤ top → AllWithin lo hi xs → AllWithin lo top xs
  mono-AllWithin lo hi top [] h v = tt
  mono-AllWithin lo hi top (x ∷ xs) h v = (v.0, omega arith, mono-AllWithin lo hi top xs h v.2)

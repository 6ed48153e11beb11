-- ===== src/Netlink/Reading.antt =====
-- Reads that give back what was written, and the laws of the iterator of a buffer of ns-3.
use ns_3_dce.Prelude.{
  ℕ, zero, suc, ◌^◌, ◌<◌, ◌≡◌, Option, some, List, [], ◌∷◌, ◌++◌, length, replicate, refl, arith,
  append_assoc, drop, length-append, length-replicate,
}
use ns_3_dce.Netlink.{Reader, then_read, gives, from_table, Wire, get_u8, skip}

-- Whatever follows, the bytes are read as `x`, and all of them.
pub record Reads (A : Type 0) (p : Reader A) (bytes : List ℕ) (x : A) : Type 0 where
  pub reading : (rest : List ℕ) → p (bytes ++ rest) ≡ some (x, rest)

-- What holds of the iterator for numbers within their width.
pub record IsFaithful (w : Wire) : Type 0 where
  pub u16_back : (n : ℕ) → n < 2 ^ 16 → Reads ℕ w.get_u16 (w.put_u16 n) n
  pub u32_back : (n : ℕ) → n < 2 ^ 32 → Reads ℕ w.get_u32 (w.put_u32 n) n
  pub u16_size : (n : ℕ) → length (w.put_u16 n) ≡ 2
  pub u32_size : (n : ℕ) → length (w.put_u32 n) ≡ 4
  pub address_size : (a : List ℕ) → length (w.put_address a) ≡ length a
  pub address_back : (a : List ℕ) → Reads (List ℕ) (w.get_address (length a)) (w.put_address a) a

pub sequence_back :
    {A B : Type 0}
    → (p : Reader A) (f : A → Reader B) (xs ys : List ℕ) (x : A) (y : B) → Reads A p xs x
    → Reads B (f x) ys y
    → Reads B (then_read p f) (xs ++ ys) y
sequence_back p f xs ys x y r s = record {
  reading = λ rest.
      rw (append_assoc xs ys rest) (rw (r.reading (ys ++ rest), then_read) (s.reading rest));
}

pub nothing_back : {A : Type 0} → (x : A) → Reads A (gives x) [] x
nothing_back x = record { reading = λ rest. refl }

-- The last of several reads.
pub final_back :
    {A B : Type 0}
    → (p : Reader A) (f : A → B) (xs : List ℕ) (x : A) → Reads A p xs x
    → Reads B (then_read p (λ z. gives (f z))) xs (f x)
final_back p f xs x r = record { reading = λ rest. rw (r.reading rest, then_read) refl }

pub u8_back : (n : ℕ) → Reads ℕ get_u8 (n ∷ []) n
unfolding get_u8
u8_back n = record { reading = λ rest. refl }

pub table_back : {A : Type 0} → (o : Option A) (x : A) → o ≡ some x → Reads A (from_table o) [] x
table_back o x e = record { reading = λ rest. rw (e, from_table) refl }

drop_zeros : (n : ℕ) (rest : List ℕ) → drop n (replicate n 0 ++ rest) ≡ rest
drop_zeros zero rest = refl
drop_zeros (suc n) rest = drop_zeros n rest

skip_past : (n : ℕ) (rest : List ℕ) → skip n (replicate n 0 ++ rest) ≡ some (tt, rest)
unfolding skip
skip_past n rest =
    ground
      (arith, drop_zeros n rest, length-append (replicate n 0) rest, length-replicate {A = ℕ} n 0)

pub skip_back : (n : ℕ) → Reads Unit (skip n) (replicate n 0) tt
skip_back n = record { reading = skip_past n }

-- ===== src/LocalSocket/Rest.antt =====
-- `LocalSocketFd::ReadData` of model/local-socket-fd.cc, once it gave less than it was asked for.
use ns_3_dce.Prelude.{
  ℕ, ◌+◌, ◌-◌, ◌<◌, ◌≤◌, ◌≡◌, ltb, arith, min, length, drop, List, [], ◌∷◌, ◌++◌, refl, sym, ap,
  ◌∙◌, inl, inr, subst, Bool-cases, length-append, length-take, length-drop, slice,
}
use ns_3_dce.LocalSocket.{Block, left_of, take_blocks}
use ns_3_dce.LocalSocket.Bytes.{take_nothing, take_within, take_to_end}

take_empty :
    (k : Block) (ks : List Block) (len : ℕ)
    → left_of k ≡ 0
    → take_blocks (k ∷ ks) len ≡ ([], k ∷ ks)
unfolding take_blocks
take_empty k ks len e = let z : min len (left_of k) ≡ 0 = omega arith in rw z (ground arith)

slice_size : (k : Block) (m : ℕ) → m ≤ left_of k → length (slice k.bytes k.read_offset m) ≡ m
slice_size k m h =
    omega (arith, h, length-take m (drop k.read_offset k.bytes), length-drop k.read_offset k.bytes)

abbrev pub GivesNoMore : ℕ → List ℕ × List Block → Type 0
GivesNoMore len r = length r.0 < len → (take_blocks r.1 (len - length r.0)).0 ≡ []

-- A read that gave fewer bytes than it was asked for is followed by one that gives none, whatever the
-- buffer holds.
pub read_stops : (ks : List Block) (len : ℕ) → GivesNoMore len (take_blocks ks len)
unfolding take_blocks
read_stops [] len = λ h. refl
read_stops (k ∷ ks) len = elim (Bool-cases (ltb 0 len)) [
  | inr z ↦
      subst (GivesNoMore len) (sym (take_nothing k ks len (ground (arith, z))))
        (λ h. absurd (ground (arith, z, h)))
  | inl p ↦ elim (Bool-cases (ltb 0 (left_of k))) [
    | inr e ↦
        let none_left : left_of k ≡ 0 = ground (arith, e) in
        subst (GivesNoMore len) (sym (take_empty k ks len none_left))
          (λ h. ap (λ r. r.0) (take_empty k ks (len - 0) none_left))
    | inl some_left ↦ elim (Bool-cases (ltb len (left_of k))) [
      | inl few ↦
          subst (GivesNoMore len)
            (sym (take_within k ks len (ground (arith, p)) (ground (arith, few))))
            (λ h. absurd (ground (arith, h, few, slice_size k len (ground (arith, few)))))
      | inr all ↦
          subst (GivesNoMore len)
            (sym (take_to_end k ks len (ground (arith, some_left)) (ground (arith, all))))
            (λ h.
              let more = (take_blocks ks (len - left_of k)).0 in
              let size : length (slice k.bytes k.read_offset (left_of k) ++ more)
                  ≡ left_of k + length more =
                omega (
                  arith,
                  length-append (slice k.bytes k.read_offset (left_of k)) more,
                  slice_size k (left_of k) (omega arith),
                ) in
              let same : len - length (slice k.bytes k.read_offset (left_of k) ++ more)
                  ≡ (len - left_of k) - length more =
                omega (arith, size) in
              ap (λ n. (take_blocks (take_blocks ks (len - left_of k)).1 n).0) same
              ∙ read_stops ks (len - left_of k) (omega (arith, h, size)))
    ]
  ]
]

-- ===== src/Paths/Names.antt =====
-- Canonical paths of model/exec-utils.cc that stay below where they start.
use ns_3_dce.Prelude.{
  ℕ, suc, ◌≡◌, ◌≢◌, Bool, true, false, ◌||◌, Option, none, some, List, [], ◌∷◌, ◌++◌, ◌==◌, arith,
  if◌then◌else◌, ℤ, pos, negsuc, refl, ap, sym, subst, ◌∙◌, append_assoc, append-nil, Bool-cases,
  Option-cases, inl, inr, length, length-append, ◌-◌, take,
}
use ns_3_dce.Paths.{
  slash, dot_sign, two_dots, inc_ℤ, dec_ℤ, pop_back, climb, join, print_path, starts_with_slash,
  canonize_path,
}
use ns_3_dce.Paths.Search.{is_empty}
use ns_3_dce.Paths.Canonical.{
  segments_from, is_dot, is_dot_dot, visit, visit_all, IsString, canonize_path_lem,
}

abbrev pub HasNoSlash : List ℕ → Type 0
HasNoSlash [] = Unit
HasNoSlash (c ∷ s) = (c ≢ slash) × HasNoSlash s

pub record IsName (seg : List ℕ) : Type 0 where
  pub not_empty : is_empty seg ≡ false
  pub not_dot : is_dot seg ≡ false
  pub not_dot_dot : is_dot_dot seg ≡ false
  pub no_slash : HasNoSlash seg
  pub string : IsString seg

abbrev pub AllNames : List (List ℕ) → Type 0
AllNames [] = Unit
AllNames (x ∷ xs) = IsName x × AllNames xs

segments_from-append :
    (pre x s : List ℕ) → HasNoSlash x → segments_from pre (x ++ s) ≡ segments_from (pre ++ x) s
unfolding segments_from
segments_from-append pre [] s h = ap (λ l. segments_from l s) (sym (append-nil pre))
segments_from-append pre (c ∷ x) s h =
    ground (arith, segments_from-append (pre ++ c ∷ []) x s h.1, append_assoc pre (c ∷ []) x)

pub segments_from-join :
    (x : List ℕ) (xs : List (List ℕ))
    → AllNames (x ∷ xs)
    → segments_from [] (join (x ∷ xs)) ≡ x ∷ xs
unfolding segments_from join
segments_from-join x [] h =
    ap (segments_from []) (sym (append-nil x)) ∙ segments_from-append [] x [] h.0.no_slash
segments_from-join x (y ∷ xs) h =
    segments_from-append [] x (slash ∷ join (y ∷ xs)) h.0.no_slash
    ∙ ap (λ l. x ∷ l) (segments_from-join y xs h.1)

add_names : ℕ → List (List ℕ) → ℕ
add_names n [] = n
add_names n (x ∷ xs) = add_names (suc n) xs

visit_all-names :
    (protected slash_start : Bool) (xs profs : List (List ℕ)) (n : ℕ)
    → AllNames xs
    → visit_all protected slash_start xs (profs, pos n) ≡ some (profs ++ xs, pos (add_names n xs))
unfolding visit_all visit inc_ℤ add_names
visit_all-names protected slash_start [] profs n h =
    ap (λ l. some (l, pos n)) (sym (append-nil profs))
visit_all-names protected slash_start (x ∷ xs) profs n h = ground (
  arith,
  visit_all-names protected slash_start xs (profs ++ x ∷ []) (suc n) h.1,
  append_assoc profs (x ∷ []) xs,
)

IsString-append : (x s : List ℕ) → IsString x → IsString s → IsString (x ++ s)
IsString-append [] s h k = k
IsString-append (c ∷ x) s h k = (h.0, IsString-append x s h.1 k)

IsString-join : (xs : List (List ℕ)) → AllNames xs → IsString (join xs)
unfolding join
IsString-join [] h = tt
IsString-join (x ∷ []) h = h.0.string
IsString-join (x ∷ y ∷ xs) h =
    IsString-append x (slash ∷ join (y ∷ xs)) h.0.string (omega arith, IsString-join (y ∷ xs) h.1)

pub canonize_of_visit :
    (path : List ℕ) (slash_start protected : Bool) (profs : List (List ℕ)) (l : ℤ)
    → IsString path
    → starts_with_slash path ≡ slash_start
    → visit_all protected slash_start (segments_from [] path) ([], pos 0) ≡ some (profs, l)
    → canonize_path path protected ≡ some (print_path slash_start profs)
canonize_of_visit path slash_start protected profs l h e v =
    ground (arith, canonize_path_lem path protected h)

pub join-starts :
    (x : List ℕ) (xs : List (List ℕ)) → IsName x → starts_with_slash (join (x ∷ xs)) ≡ false
unfolding join
join-starts [] xs h = cc h.not_empty
join-starts (c ∷ x) [] h = ground (arith, h.no_slash)
join-starts (c ∷ x) (y ∷ xs) h = ground (arith, h.no_slash)

-- A list of names, printed, is canonical.
pub canonize-print :
    (slash_start protected : Bool) (xs : List (List ℕ))
    → AllNames xs
    → canonize_path (print_path slash_start xs) protected ≡ some (print_path slash_start xs)
unfolding print_path join
canonize-print true protected [] h =
    canonize_of_visit (slash ∷ []) true protected [] (pos 0) (omega arith, tt) refl
      (unfold segments_from visit_all visit in refl)
canonize-print false protected [] h =
    canonize_of_visit (dot_sign ∷ []) false protected [] (pos 0) (omega arith, tt) refl
      (unfold segments_from visit_all visit in refl)
canonize-print true protected (x ∷ xs) h =
    canonize_of_visit (slash ∷ join (x ∷ xs)) true protected (x ∷ xs) (pos (add_names 0 (x ∷ xs)))
      (omega arith, IsString-join (x ∷ xs) h) refl
      (after_slash ∙ visit_all-names protected true (x ∷ xs) [] 0 h)
  where
    after_slash :
        visit_all protected true (segments_from [] (slash ∷ join (x ∷ xs))) ([], pos 0)
        ≡ visit_all protected true (x ∷ xs) ([], pos 0)
    after_slash =
        unfold segments_from visit_all visit in
        ap (λ l. visit_all protected true l ([], pos 0)) (segments_from-join x xs h)
canonize-print false protected (x ∷ xs) h =
    canonize_of_visit (join (x ∷ xs)) false protected (x ∷ xs) (pos (add_names 0 (x ∷ xs)))
      (IsString-join (x ∷ xs) h) (join-starts x xs h.0)
      (ap (λ l. visit_all protected false l ([], pos 0)) (segments_from-join x xs h)
        ∙ visit_all-names protected false (x ∷ xs) [] 0 h)

pop_back_lem : (xs : List (List ℕ)) → pop_back xs ≡ take (length xs - 1) xs
unfolding pop_back
pop_back_lem [] = refl
pop_back_lem (x ∷ []) = refl
pop_back_lem (x ∷ y ∷ xs) = ground (arith, pop_back_lem (y ∷ xs))

abbrev pub is_top : List (List ℕ) → Bool
is_top names = elim names [ [] ↦ true | _ ∷ _ ↦ false ]

-- The names below the start, or `none` when the path climbs above it.
abbrev pub enter : List ℕ → List (List ℕ) → Option (List (List ℕ))
enter seg names =
    if is_empty seg || is_dot seg
    then some names
    else if is_dot_dot seg
    then (if is_top names then none else some (take (length names - 1) names))
    else some (names ++ seg ∷ [])

unfoldable pub walk : List (List ℕ) → List (List ℕ) → Option (List (List ℕ))
walk [] names = some names
walk (seg ∷ segs) names = elim (enter seg names) [ none ↦ none | some more ↦ walk segs more ]

-- Segments of a string.
abbrev pub AllPlain : List (List ℕ) → Type 0
AllPlain [] = Unit
AllPlain (x ∷ xs) = HasNoSlash x × IsString x × AllPlain xs

HasNoSlash-append : (x s : List ℕ) → HasNoSlash x → HasNoSlash s → HasNoSlash (x ++ s)
HasNoSlash-append [] s h k = k
HasNoSlash-append (c ∷ x) s h k = (h.0, HasNoSlash-append x s h.1 k)

pub segments_from-AllPlain :
    (pre s : List ℕ) → HasNoSlash pre → IsString pre → IsString s → AllPlain (segments_from pre s)
unfolding segments_from
segments_from-AllPlain pre [] n p h = (n, p, tt)
segments_from-AllPlain pre (c ∷ s) n p h = elim (Bool-cases (c == slash)) [
  | inl e ↦ rw e (n, p, segments_from-AllPlain [] s tt tt h.1)
  | inr e ↦ rw e (
      segments_from-AllPlain (pre ++ c ∷ []) s (HasNoSlash-append pre (c ∷ []) n (ground arith, tt))
        (IsString-append pre (c ∷ []) p (h.0, tt)) h.1)
]

AllNames-append : (xs ys : List (List ℕ)) → AllNames xs → AllNames ys → AllNames (xs ++ ys)
AllNames-append [] ys h k = k
AllNames-append (x ∷ xs) ys h k = (h.0, AllNames-append xs ys h.1 k)

pop_back-AllNames : (xs : List (List ℕ)) → AllNames xs → AllNames (pop_back xs)
unfolding pop_back
pop_back-AllNames [] h = tt
pop_back-AllNames (x ∷ []) h = tt
pop_back-AllNames (x ∷ y ∷ xs) h = (h.0, pop_back-AllNames (y ∷ xs) h.1)

length-pop_back : (x : List ℕ) (xs : List (List ℕ)) → length (pop_back (x ∷ xs)) ≡ length xs
unfolding pop_back
length-pop_back x [] = refl
length-pop_back x (y ∷ xs) = ap suc (length-pop_back y xs)

-- One segment of a path that stays below its start.
pub visit-enter :
    (protected slash_start : Bool) (seg : List ℕ) (names more : List (List ℕ))
    → enter seg names ≡ some more
    → visit protected slash_start seg (names, pos (length names)) ≡ some (more, pos (length more))
unfolding visit climb inc_ℤ dec_ℤ
visit-enter protected slash_start seg [] more e = ground (arith, length-append {0} [] (seg ∷ []))
visit-enter protected slash_start seg (x ∷ names) more e = ground (
  arith,
  length-append {0} (x ∷ names) (seg ∷ []),
  length-pop_back x names,
  pop_back_lem (x ∷ names),
)

enter-AllNames :
    (seg : List ℕ) (names more : List (List ℕ))
    → HasNoSlash seg
    → IsString seg
    → AllNames names
    → enter seg names ≡ some more
    → AllNames more
enter-AllNames seg names more n s v e = elim (Bool-cases (is_empty seg || is_dot seg)) [
  | inl a ↦ let p : names ≡ more = ground arith in subst AllNames p v
  | inr a ↦ elim (Bool-cases (is_dot_dot seg)) [
    | inl b ↦
        let p : pop_back names ≡ more = ground (arith, pop_back_lem names) in
        subst AllNames p (pop_back-AllNames names v)
    | inr b ↦
        let p : names ++ seg ∷ [] ≡ more = ground arith in
        subst AllNames p (AllNames-append names (seg ∷ []) v (named a b, tt))
  ]
]
  where
    named : is_empty seg || is_dot seg ≡ false → is_dot_dot seg ≡ false → IsName seg
    named a b = record {
      not_empty = ground arith;
      not_dot = ground arith;
      not_dot_dot = b;
      no_slash = n;
      string = s;
    }

pub visit_all-walk :
    (protected slash_start : Bool) (segs names out : List (List ℕ))
    → AllPlain segs
    → AllNames names
    → walk segs names ≡ some out
    → (visit_all protected slash_start segs (names, pos (length names))
        ≡ some (out, pos (length out)))
      × AllNames out
unfolding visit_all walk
visit_all-walk protected slash_start [] names out p v e =
    (ground arith, let q : names ≡ out = ground arith in subst AllNames q v)
visit_all-walk protected slash_start (seg ∷ segs) names out p v e =
    elim (Option-cases (enter seg names)) [
      | inl n ↦ absurd (ground arith)
      | inr (more, n) ↦
          let ih =
            visit_all-walk protected slash_start segs more out p.2
              (enter-AllNames seg names more p.0 p.1 v n) (ground arith) in
          (ground (arith, visit-enter protected slash_start seg names more n, ih.0), ih.1)
    ]

-- A path that nowhere climbs above where it starts has a canonical path, whatever the protection: it
-- is printed from the names to which its segments lead, none of them empty, `.` or `..`; and the
-- canonical path of that is itself.
pub canonize_path_twice :
    (path : List ℕ) (protected again : Bool) (out : List (List ℕ))
    → IsString path
    → walk (segments_from [] path) [] ≡ some out
    → let r = print_path (starts_with_slash path) out in
      (canonize_path path protected ≡ some r) × AllNames out × (canonize_path r again ≡ some r)
canonize_path_twice path protected again out h e =
    let w =
      visit_all-walk protected (starts_with_slash path) (segments_from [] path) [] out
        (segments_from-AllPlain [] path tt tt h) tt e in
    (
      canonize_of_visit path (starts_with_slash path) protected out (pos (length out)) h refl w.0,
      w.1,
      canonize-print (starts_with_slash path) again out w.1,
    )

climbing_segments :
    (x : List ℕ)
    → HasNoSlash x
    → segments_from [] (two_dots ++ slash ∷ x ++ slash ∷ two_dots) ≡ two_dots ∷ x ∷ two_dots ∷ []
unfolding segments_from
climbing_segments x h = ap (λ l. two_dots ∷ l) (segments_from-append [] x (slash ∷ two_dots) h)

climbing_visits :
    (x : List ℕ)
    → IsName x
    → visit_all false false (two_dots ∷ x ∷ two_dots ∷ []) ([], pos 0)
      ≡ some (two_dots ∷ x ∷ two_dots ∷ [], negsuc 0)
unfolding visit_all visit climb inc_ℤ dec_ℤ
climbing_visits x v = ground arith

-- A path that climbs above where it starts keeps the names that it leaves again: the canonical path
-- of `../x/..` is itself, for each name `x`.
pub climbing_keeps_name :
    (x : List ℕ)
    → IsName x
    → let path = two_dots ++ slash ∷ x ++ slash ∷ two_dots in canonize_path path false ≡ some path
unfolding print_path join
climbing_keeps_name x v =
    canonize_of_visit (two_dots ++ slash ∷ x ++ slash ∷ two_dots) false false
      (two_dots ∷ x ∷ two_dots ∷ []) (negsuc 0)
      (
        omega arith,
        (omega arith, (omega arith, IsString-append x (slash ∷ two_dots) v.string (omega arith))),
      )
      refl
      (ap (λ l. visit_all false false l ([], pos 0)) (climbing_segments x v.no_slash)
        ∙ climbing_visits x v)

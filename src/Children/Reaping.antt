-- ===== src/Children/Reaping.antt =====
-- `dce_waitpid` of model/dce-wait.cc.
use ns_3_dce.Prelude.{
  ℕ, ◌<◌, ◌≡◌, ◌≢◌, true, false, ◌||◌, none, some, List, [], ◌∷◌, arith, ℤ, pos, remove, count,
  count-remove, refl, sym, inl, inr, ◌∙◌, ap, subst, Bool-cases, Option-cases,
}
use ns_3_dce.ObjectTable.{find, erase, find-erase_ne, find-id}
use ns_3_dce.Children.{
  Child, child_pid, Family, reaped, echild, Options, is_asked, asked_child, seek_ended,
  finish_child, wait_pass, waitpid, waitpid_again, is_group,
}

-- What is counted is a process of the node with the pid of the child.
asked_child-some :
    (z : ℤ) (ps : List Child) (c : ℕ) (p : Child)
    → asked_child z ps c ≡ some p
    → (1 < c) × (find child_pid c ps ≡ some p) × (is_asked z p.pid ≡ true) × (p.pid ≡ c)
unfolding asked_child
asked_child-some z ps c p e = elim (Option-cases (find child_pid c ps)) [
  | inl n ↦ absurd (ground (arith, n))
  | inr (q, n) ↦
      let same : some q ≡ some p = ground (arith, n) in
      let f : find child_pid c ps ≡ some p = n ∙ same in
      (ground (arith, n), f, ground (arith, f), find-id child_pid c ps p f)
]

-- The child that is found has ended, is asked for, and is one of the children.
seek_ended-some :
    (z : ℤ) (ps : List Child) (cs : List ℕ) (p : Child)
    → (seek_ended z ps cs).1 ≡ some p
    → (p.is_zombie ≡ true)
      × (find child_pid p.pid ps ≡ some p)
      × (is_asked z p.pid ≡ true)
      × (0 < count p.pid cs)
      × (1 < p.pid)
unfolding seek_ended count
seek_ended-some z ps [] p e = cc
seek_ended-some z ps (c ∷ cs) p e = elim (Option-cases (asked_child z ps c)) [
  | inl n ↦
      let (a, b, d, k, l) = seek_ended-some z ps cs p (ground (arith, n)) in
      (a, b, d, omega (arith, k), l)
  | inr (q, n) ↦ elim (Bool-cases q.is_zombie) [
    | inl y ↦
        let same : some q ≡ some p = ground (arith, n, y) in
        let (lo, f, k, i) = asked_child-some z ps c p (n ∙ same) in
        (
          ground (arith, same, y),
          ap (λ x. find child_pid x ps) i ∙ f,
          k,
          ground (arith, i),
          omega (arith, lo, i),
        )
    | inr y ↦
        let (a, b, d, k, l) = seek_ended-some z ps cs p (ground (arith, n, y)) in
        (a, b, d, omega (arith, k), l)
  ]
]

-- A child that has ended and is asked for is found, or one before it.
seek_ended_finds :
    (z : ℤ) (ps : List Child) (cs : List ℕ) (p : Child) (c : ℕ)
    → asked_child z ps c ≡ some p
    → p.is_zombie ≡ true
    → 0 < count c cs
    → (q : Child) × ((seek_ended z ps cs).1 ≡ some q)
unfolding seek_ended count
seek_ended_finds z ps [] p c a y k = absurd (omega (arith, k))
seek_ended_finds z ps (d ∷ cs) p c a y k = elim (Option-cases (asked_child z ps d)) [
  | inl n ↦
      let other : d ≢ c = λ e. no_child (ap (asked_child z ps) (sym e) ∙ n) in
      let (q, r) = seek_ended_finds z ps cs p c a y (ground (arith, k, other)) in
      (q, ground (arith, n, r))
  | inr (q, n) ↦ elim (Bool-cases q.is_zombie) [
    | inl w ↦ (q, ground (arith, n, w))
    | inr w ↦
        let other : d ≢ c = λ e. alive q (ap (asked_child z ps) (sym e) ∙ n) w in
        let (r, g) = seek_ended_finds z ps cs p c a y (ground (arith, k, other)) in
        (r, ground (arith, n, w, g))
  ]
]
  where
    no_child : ¬ (asked_child z ps c ≡ none)
    no_child e = cc

    alive : (q : Child) → asked_child z ps c ≡ some q → ¬ (q.is_zombie ≡ false)
    alive q e w = let same : some p ≡ some q = sym a ∙ e in ground (arith, same, y, w)

-- A pid that is none of the children is not found.
seek_ended-none :
    (id : ℕ) (ps : List Child) (cs : List ℕ)
    → count id cs ≡ 0
    → seek_ended (pos id) ps cs ≡ (0, none)
unfolding seek_ended count
seek_ended-none id ps [] h = refl
seek_ended-none id ps (c ∷ cs) h = elim (Option-cases (asked_child (pos id) ps c)) [
  | inl n ↦ ground (arith, n, seek_ended-none id ps cs)
  | inr (q, n) ↦
      let (lo, f, k, i) = asked_child-some (pos id) ps c q n in absurd (ground (arith, k, i, h))
]

-- A child that `waitpid` reaps was one of the children, with an ended process that the call asks for,
-- and its exit value is given; it is none of the children after that, and the other children and the
-- processes of other pids are as before. A second wait for it fails with `ECHILD`.
pub waitpid_reaps_once :
    (z : ℤ) (options : Options) (f g : Family) (id v : ℕ)
    → waitpid z options f ≡ (reaped id v, g)
    → (p : Child) × (find child_pid id f.processes ≡ some p)
      × (p.is_zombie ≡ true)
      × (v ≡ p.exit_value)
      × (is_asked z id ≡ true)
      × (0 < count id f.children)
      × (count id g.children ≡ 0)
      × ((k : ℕ)
          → k ≢ id
          → (count k g.children ≡ count k f.children)
            × (find child_pid k g.processes ≡ find child_pid k f.processes))
      × (waitpid (pos id) options g ≡ (echild, g))
unfolding waitpid wait_pass finish_child
waitpid_reaps_once z options f g id v e =
    elim (Option-cases (seek_ended z f.processes f.children).1) [
      | inl n ↦ absurd (ground (arith, n))
      | inr (p, n) ↦
          let (y, h, k, m, l) = seek_ended-some z f.processes f.children p n in
          let made : Family = record {
            children = remove p.pid f.children;
            processes = erase child_pid p.pid f.processes;
          } in
          let same : p.pid ≡ id = ground (arith, n) in
          let value : v ≡ p.exit_value = ground (arith, n) in
          let after : g ≡ made = ground (arith, n) in
          let gone : count id g.children ≡ 0 =
            ap (λ x. count id x.children) after
            ∙ ground (arith, same, count-remove id p.pid f.children) in
          let none_left = seek_ended-none id g.processes g.children gone in
          let plain : (options.untraced || options.continued) ≡ false = ground arith in
          (
            p,
            ap (λ x. find child_pid x f.processes) (sym same) ∙ h,
            y,
            value,
            ap (is_asked z) (sym same) ∙ k,
            subst (λ x. 0 < count x f.children) same m,
            gone,
            λ j o. (
              ap (λ x. count j x.children) after
                  ∙ ground (arith, o, same, count-remove j p.pid f.children),
              ap (λ x. find child_pid j x.processes) after
                  ∙ find-erase_ne child_pid j p.pid f.processes (λ q. o (sym q ∙ same)),
            ),
            ground (arith, plain, none_left, same, l),
          )
    ]

-- As long as a child that the call asks for has ended, neither `waitpid` nor its next pass waits, but
-- reaps a child; the options and the pid are ones that it supports.
pub ended_child_is_reaped :
    (z : ℤ) (options : Options) (f : Family) (c : ℕ) (p : Child)
    → options.untraced ≡ false
    → options.continued ≡ false
    → is_group z ≡ false
    → asked_child z f.processes c ≡ some p
    → p.is_zombie ≡ true
    → 0 < count c f.children
    → (q : Child) × (g : Family) × (waitpid z options f ≡ (reaped q.pid q.exit_value, g))
      × (waitpid_again true z options f ≡ (reaped q.pid q.exit_value, g))
unfolding waitpid waitpid_again wait_pass
ended_child_is_reaped z options f c p u t i a y k =
    let (q, n) = seek_ended_finds z f.processes f.children p c a y k in
    (
      q,
      record { children = remove q.pid f.children; processes = finish_child q.pid f.processes },
      ground (arith, u, t, i, n),
      ground (arith, n),
    )

-- ===== src/LocalDatagram/Pointers/Closing.antt =====
-- `Close` of model/local-datagram-socket-fd.cc leaves the other sockets tied.
use ns_3_dce.Prelude.{
  ℕ, ◌≡◌, ◌≢◌, ◌<◌, Bool, true, false, none, some, ◌==◌, ltb, arith, count, count-nil, refl, sym,
  ap, ◌∙◌, inl, inr, Bool-cases, subst,
}
use ns_3_dce.LocalDatagram.{
  DatagramState, created, binded, connected, remote_closed, closed, Datagram, Datagrams,
  remove_connected, clear_datagram, close_datagram,
}
use ns_3_dce.LocalDatagram.Pointers.{
  IsFree, IsTied, removed, remove_all_lem, left, emptied, told, leave_peer-HasLeft, cleared-IsFree,
}

module _ (a : ℕ) (n : Datagrams) (t : IsTied n) where
  -- A socket but `a` after the loop: one that was connected to `a` has lost its peer, another is as
  -- before, but that `a` may be removed from it.
  record IsSame (x : ℕ) (s : Datagram) : Type 0 where
    peer_kept : s.peer ≡ (n.sockets x).peer
    state_kept : s.state ≡ (n.sockets x).state
    counts_kept : (c : ℕ) → (a == c) ≡ false → count c s.my_peers ≡ count c (n.sockets x).my_peers

  module _ (wake : Bool) where
    after : ℕ → Datagram
    after x = (clear_datagram a wake n).1.sockets x

    after-told : (x : ℕ) → (a == x) ≡ false → after x ≡ (told a n t wake).sockets x
    unfolding after clear_datagram told emptied left
    after-told x h = ground (arith, h)

    same_test :
        (x : ℕ)
        → ltb 0 (count x ((left a n t wake).sockets a).my_peers)
          ≡ ltb 0 (count x (n.sockets a).my_peers)
    unfolding left
    same_test x = ap (λ l. ltb 0 (count x l)) (leave_peer-HasLeft a n t wake).same_clients

    stranger_after :
        (x : ℕ)
        → (a == x) ≡ false
        → ltb 0 (count x (n.sockets a).my_peers) ≡ false
        → after x ≡ (left a n t wake).sockets x
    unfolding told emptied
    stranger_after x h c =
        after-told x h
        ∙ remove_all_lem a wake ((left a n t wake).sockets a).my_peers (emptied a n t wake) x
        ∙ ground (arith, h, same_test x ∙ c)

    client_after :
        (x : ℕ)
        → (a == x) ≡ false
        → ltb 0 (count x (n.sockets a).my_peers) ≡ true
        → after x ≡ removed a ((left a n t wake).sockets x)
    unfolding told emptied
    client_after x h c =
        after-told x h
        ∙ remove_all_lem a wake ((left a n t wake).sockets a).my_peers (emptied a n t wake) x
        ∙ ground (arith, h, same_test x ∙ c)

    stranger_unchanged :
        (x : ℕ)
        → (a == x) ≡ false
        → ltb 0 (count x (n.sockets a).my_peers) ≡ false
        → IsSame x (after x)
    unfolding left
    stranger_unchanged x h c =
        let l = leave_peer-HasLeft a n t wake in
        subst (IsSame x) (sym (stranger_after x h c)) (record {
          peer_kept = l.same_peer x h;
          state_kept = l.same_state x h;
          counts_kept = λ k d. l.same_counts k x d;
        })

    lone_client :
        (x : ℕ) → (n.sockets x).state ≡ connected → (c : ℕ) → count c (n.sockets x).my_peers ≡ 0
    lone_client x e c = elim (Bool-cases (ltb 0 (count c (n.sockets x).my_peers))) [
      | inl p ↦ let (s, b, q) = t.kept c x (t.back c x (ground (arith, p))) in absurd (cc (e, b))
      | inr z ↦ ground (arith, z)
    ]

    client_alone :
        (x : ℕ)
        → (a == x) ≡ false
        → ltb 0 (count x (n.sockets a).my_peers) ≡ true
        → ((after x).peer ≡ none) × ((c : ℕ) → (a == c) ≡ false → count c (after x).my_peers ≡ 0)
    unfolding removed remove_connected left
    client_alone x h c =
        let l = leave_peer-HasLeft a n t wake in
        let (s, b, q) = t.kept x a (t.back x a (ground (arith, c))) in
        let s' : ((left a n t wake).sockets x).state ≡ connected = l.same_state x h ∙ s in
        let e = client_after x h c in
        (
          ap (λ (d : Datagram). d.peer) e ∙ ground (arith, s'),
          λ k d.
              ap (λ (r : Datagram). count k r.my_peers) e
              ∙ ground (arith, s', l.same_counts k x d, lone_client x s k),
        )

    self_alone : ((after a).peer ≡ none) × ((c : ℕ) → count c (after a).my_peers ≡ 0)
    unfolding after clear_datagram told emptied left removed remove_connected
    self_alone =
        let l = leave_peer-HasLeft a n t wake in
        let r =
          remove_all_lem a wake ((left a n t wake).sockets a).my_peers (emptied a n t wake) a in
        (ground (arith, r, l.gone), λ c. ground (arith, r, count-nil c))

    -- A socket with a peer, or with a client, is not `a`, and none that was connected to `a`.
    others_kept :
        (x y : ℕ)
        → (a == x) ≡ false
        → (a == y) ≡ false
        → ltb 0 (count x (n.sockets a).my_peers) ≡ false
        → (n.sockets x).peer ≡ some y
        → ((after x).state ≡ connected)
          × ((after y).state ≡ binded)
          × (0 < count x (after y).my_peers)
    others_kept x y h k c e =
        let (s, b, q) = t.kept x y e in
        let i = stranger_unchanged x h c in
        let j = stranger_unchanged y k (stranger y b) in
        (i.state_kept ∙ s, j.state_kept ∙ b, omega (arith, q, j.counts_kept x h))
      where
        stranger :
            (z : ℕ) → (n.sockets z).state ≡ binded → ltb 0 (count z (n.sockets a).my_peers) ≡ false
        stranger z b = elim (Bool-cases (ltb 0 (count z (n.sockets a).my_peers))) [
          | inr f ↦ f
          | inl g ↦
              let (s, w, q) = t.kept z a (t.back z a (ground (arith, g))) in absurd (cc (s, b))
        ]

    not_self : (x y : ℕ) → (after x).peer ≡ some y → (a == x) ≡ false
    not_self x y e = elim (Bool-cases (a == x)) [
      | inr h ↦ h
      | inl h ↦
          let same : a ≡ x = ground (arith, h) in
          absurd (cc (e, self_alone.0, ap (λ z. (after z).peer) same))
    ]

    not_told :
        (x y : ℕ)
        → (a == x) ≡ false
        → (after x).peer ≡ some y
        → ltb 0 (count x (n.sockets a).my_peers) ≡ false
    not_told x y h e = elim (Bool-cases (ltb 0 (count x (n.sockets a).my_peers))) [
      | inr c ↦ c
      | inl c ↦ absurd (cc (e, (client_alone x h c).0))
    ]

    not_peer : (x y : ℕ) → (after x).peer ≡ some y → (a == y) ≡ false
    unfolding after IsFree
    not_peer x y e = elim (Bool-cases (a == y)) [
      | inr h ↦ h
      | inl h ↦
          let same : y ≡ a = ground (arith, h) in
          absurd ((cleared-IsFree a n t wake x).0 (e ∙ ap some same))
    ]

    still_kept :
        (x y : ℕ)
        → (after x).peer ≡ some y
        → ((after x).state ≡ connected)
          × ((after y).state ≡ binded)
          × (0 < count x (after y).my_peers)
    still_kept x y e =
        let h = not_self x y e in
        let c = not_told x y h e in
        others_kept x y h (not_peer x y e) c (sym (stranger_unchanged x h c).peer_kept ∙ e)

    keeper_not_self : (x y : ℕ) → 0 < count x (after y).my_peers → (a == y) ≡ false
    keeper_not_self x y p = elim (Bool-cases (a == y)) [
      | inr h ↦ h
      | inl h ↦
          let same : a ≡ y = ground (arith, h) in
          absurd (omega (arith, p, self_alone.1 x, ap (λ z. count x (after z).my_peers) same))
    ]

    kept_not_self : (x y : ℕ) → 0 < count x (after y).my_peers → (a == x) ≡ false
    unfolding after IsFree
    kept_not_self x y p = elim (Bool-cases (a == x)) [
      | inr h ↦ h
      | inl h ↦
          let same : a ≡ x = ground (arith, h) in
          absurd (
            omega (
              arith,
              p,
              (cleared-IsFree a n t wake y).1,
              ap (λ z. count z (after y).my_peers) same,
            ))
    ]

    keeper_not_told :
        (x y : ℕ)
        → (a == x) ≡ false
        → (a == y) ≡ false
        → 0 < count x (after y).my_peers
        → ltb 0 (count y (n.sockets a).my_peers) ≡ false
    keeper_not_told x y h k p = elim (Bool-cases (ltb 0 (count y (n.sockets a).my_peers))) [
      | inr c ↦ c
      | inl c ↦ absurd (omega (arith, p, (client_alone y k c).1 x h))
    ]

    not_of :
        (x y : ℕ)
        → (a == y) ≡ false
        → (n.sockets x).peer ≡ some y
        → ltb 0 (count x (n.sockets a).my_peers) ≡ false
    not_of x y k e = elim (Bool-cases (ltb 0 (count x (n.sockets a).my_peers))) [
      | inr c ↦ c
      | inl c ↦
          let same : a ≡ y = cc (e, t.back x a (ground (arith, c))) in
          absurd (ground (arith, k, same))
    ]

    still_back : (x y : ℕ) → 0 < count x (after y).my_peers → (after x).peer ≡ some y
    still_back x y p =
        let k = keeper_not_self x y p in
        let h = kept_not_self x y p in
        let c = keeper_not_told x y h k p in
        let e = t.back x y (omega (arith, p, (stranger_unchanged y k c).counts_kept x h)) in
        (stranger_unchanged x h (not_of x y k e)).peer_kept ∙ e

    cleared-IsTied : IsTied (clear_datagram a wake n).1
    unfolding after
    cleared-IsTied = record { kept = λ x y e. still_kept x y e; back = λ x y p. still_back x y p }

-- When every socket with a peer is connected to one that is bound and keeps it, and the other way
-- round, then it is so too after `Close` of a socket, which deletes it, and then no socket has that one
-- as its peer or keeps it as one that is connected to it.
pub close_leaves_no_pointer :
    (a : ℕ) (n : Datagrams)
    → IsTied n
    → let m = (close_datagram a n).1 in
      IsTied m × ((x : ℕ) → ((m.sockets x).peer ≢ some a) × (count a (m.sockets x).my_peers ≡ 0))
unfolding close_datagram IsFree
close_leaves_no_pointer a n t = go (n.sockets a).state refl
  where
    Result : Datagrams → Type 0
    Result m = IsTied m × ((x : ℕ) → IsFree a n t (m.sockets x))

    cleared : (wake : Bool) → Result (clear_datagram a wake n).1
    cleared wake = (cleared-IsTied a n t wake, cleared-IsFree a n t wake)

    go : (st : DatagramState) → (n.sockets a).state ≡ st → Result (close_datagram a n).1
    go created e = rw (e, close_datagram) (cleared false)
    go binded e = rw (e, close_datagram) (cleared true)
    go connected e = rw (e, close_datagram) (cleared true)
    go remote_closed e = rw (e, close_datagram) (cleared false)
    go closed e = rw (e, close_datagram) (cleared false)

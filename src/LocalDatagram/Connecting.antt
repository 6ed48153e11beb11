-- ===== src/LocalDatagram/Connecting.antt =====
-- `Connect` of model/local-datagram-socket-fd.cc ties the two sockets.
use ns_3_dce.Prelude.{
  ℕ, ◌≡◌, ◌≢◌, not, ℤ, option_all, if_all, false, Option, none, some, ◌∷◌, ◌==◌, ltb, arith, count,
  count-cons, count-remove, remove, refl, ap, ◌∙◌, inl, inr, Bool-cases,
}
use ns_3_dce.LocalDatagram.{
  DatagramState, created, binded, connected, remote_closed, closed, is_binded, Datagrams, place,
  connect_found, connect_datagram,
}
use ns_3_dce.LocalDatagram.Pointers.{IsTied}

-- A socket of which nothing points to another, or back.
module _ (a b path : ℕ) (n : Datagrams) (t : IsTied n) (alone : (n.sockets a).peer ≡ none)
    (unbound : (c : ℕ) → count c (n.sockets a).my_peers ≡ 0) (there : (n.sockets b).state ≡ binded)
    (other : (a == b) ≡ false) where
  tied_to : Datagrams
  tied_to =
      let m =
        place a (record (n.sockets a) { state = connected; connect_path = path; peer = some b })
          n in
      place b (record (m.sockets b) { my_peers = a ∷ remove a (m.sockets b).my_peers }) m

  tied_to-IsTied : IsTied tied_to
  unfolding tied_to
  tied_to-IsTied = record {
    kept = λ x y e. grind (
      arith,
      e,
      other,
      alone,
      there,
      t.kept x y,
      t.kept b y,
      count-cons x a (remove a (n.sockets b).my_peers),
      count-remove x a (n.sockets b).my_peers,
      unbound x,
    );
    back = λ x y p. grind (
      arith,
      p,
      other,
      alone,
      there,
      t.back x y,
      t.kept x y,
      t.kept b y,
      count-cons x a (remove a (n.sockets b).my_peers),
      count-remove x a (n.sockets b).my_peers,
      unbound x,
    );
  }

binded_lem : (s : DatagramState) → not (is_binded s) ≡ false → s ≡ binded
unfolding is_binded
binded_lem s h = ground (arith, h)

-- The state of a socket that `Connect` does not refuse.
module _ (a path : ℕ) (n : Datagrams) (t : IsTied n) where
  found-IsTied :
      (n.sockets a).state ≢ connected
      → (n.sockets a).state ≢ binded
      → IsTied (connect_found a path n).1
  unfolding connect_found is_binded tied_to
  found-IsTied c d =
      option_all (λ (r : ℤ × Datagrams). IsTied r.1) (n.binders path) _ _ t
        (λ b e.
          if_all (λ (r : ℤ × Datagrams). IsTied r.1) (not (is_binded (n.sockets b).state)) _ _
            (λ h. t)
            (λ h.
              let there : (n.sockets b).state ≡ binded = binded_lem (n.sockets b).state h in
              let alone : (n.sockets a).peer ≡ none = no_peer (n.sockets a).peer refl in
              (tied_to-IsTied a b path n t alone no_client there (distinct b there))))
    where
      no_peer : (o : Option ℕ) → (n.sockets a).peer ≡ o → o ≡ none
      no_peer none e = refl
      no_peer (some b) e = absurd (c (t.kept a b e).0)

      no_client : (x : ℕ) → count x (n.sockets a).my_peers ≡ 0
      no_client x = elim (Bool-cases (ltb 0 (count x (n.sockets a).my_peers))) [
        | inl p ↦ absurd (d (t.kept x a (t.back x a (ground (arith, p)))).1)
        | inr z ↦ ground (arith, z)
      ]

      distinct : (b : ℕ) → (n.sockets b).state ≡ binded → (a == b) ≡ false
      distinct b e = elim (Bool-cases (a == b)) [
        | inr h ↦ h
        | inl h ↦
            let same : a ≡ b = ground (arith, h) in
            absurd (d (ap (λ x. (n.sockets x).state) same ∙ e))
      ]

  -- `Connect` ties, whatever the state of the socket.
  pub connect-IsTied : IsTied (connect_datagram a path n).1
  unfolding connect_datagram
  connect-IsTied = go (n.sockets a).state refl
    where
      go : (st : DatagramState) → (n.sockets a).state ≡ st → IsTied (connect_datagram a path n).1
      go created e = rw (e, connect_datagram) (found-IsTied (λ h. cc (e, h)) (λ h. cc (e, h)))
      go binded e = rw (e, connect_datagram) t
      go connected e = rw (e, connect_datagram) t
      go remote_closed e = rw (e, connect_datagram) (found-IsTied (λ h. cc (e, h)) (λ h. cc (e, h)))
      go closed e = rw (e, connect_datagram) (found-IsTied (λ h. cc (e, h)) (λ h. cc (e, h)))

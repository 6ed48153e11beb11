-- ===== src/LocalDatagram/Pointers.antt =====
-- Sockets of model/local-datagram-socket-fd.cc that are closed leave no pointer to them behind.
pub mod Closing
use ns_3_dce.Prelude.{
  ℕ, ◌≡◌, ◌≢◌, ◌⊎◌, ◌<◌, Bool, true, false, Option, none, some, List, [], ◌∷◌, ◌==◌, ltb, arith,
  if◌then◌else◌, count, count-remove, count-nil, if_all, update_all, remove, remove_of_count, refl,
  sym, ap, ◌∙◌, inl, inr, Bool-cases, subst,
}
use ns_3_dce.LocalSocket.{empty_buffer}
use ns_3_dce.LocalDatagram.{
  DatagramState, created, binded, connected, remote_closed, closed, Datagram, Datagrams, place,
  remove_connected, remove_all, leave_peer, clear_datagram, close_datagram,
}

-- A socket with a peer is connected, to one that is bound and keeps it among those connected to it.
pub record IsTied (n : Datagrams) : Type 0 where
  pub kept :
      (a b : ℕ)
      → (n.sockets a).peer ≡ some b
      → ((n.sockets a).state ≡ connected)
        × ((n.sockets b).state ≡ binded)
        × (0 < count a (n.sockets b).my_peers)
  pub back : (a b : ℕ) → 0 < count a (n.sockets b).my_peers → (n.sockets a).peer ≡ some b

removed : ℕ → Datagram → Datagram
removed a s = (remove_connected a false s).1

remove_twice : (a : ℕ) (l : List ℕ) → remove a (remove a l) ≡ remove a l
remove_twice a l = remove_of_count a (remove a l) (ground (arith, count-remove a a l))

removed_wake : (a : ℕ) (wake : Bool) (s : Datagram) → (remove_connected a wake s).1 ≡ removed a s
unfolding removed remove_connected
removed_wake a wake s = ground arith

removed_twice : (a : ℕ) (s : Datagram) → removed a (removed a s) ≡ removed a s
unfolding removed remove_connected
removed_twice a s = ground (arith, remove_twice a s.my_peers)

remove_all_lem :
    (a : ℕ) (wake : Bool) (l : List ℕ) (n : Datagrams) (x : ℕ)
    → ((remove_all a wake l n).1.sockets x)
      ≡ (if ltb 0 (count x l) then removed a (n.sockets x) else n.sockets x)
unfolding remove_all count
remove_all_lem a wake [] n x = refl
remove_all_lem a wake (c ∷ cs) n x =
    remove_all_lem a wake cs (place c (remove_connected a wake (n.sockets c)).1 n) x
    ∙ ground (arith, removed_wake a wake (n.sockets c), removed_twice a (n.sockets x))

-- What the socket `a` leaves once its peer is told.
record HasLeft (a : ℕ) (n m : Datagrams) : Type 0 where
  gone : (m.sockets a).peer ≡ none
  same_peer : (x : ℕ) → (a == x) ≡ false → (m.sockets x).peer ≡ (n.sockets x).peer
  same_state : (x : ℕ) → (a == x) ≡ false → (m.sockets x).state ≡ (n.sockets x).state
  same_clients : (m.sockets a).my_peers ≡ (n.sockets a).my_peers
  forgotten : (x : ℕ) → count a (m.sockets x).my_peers ≡ 0
  same_counts :
      (c x : ℕ) → (a == c) ≡ false → count c (m.sockets x).my_peers ≡ count c (n.sockets x).my_peers

module _ (a : ℕ) (n : Datagrams) (t : IsTied n) where
  not_client : (x : ℕ) → (n.sockets a).peer ≢ some x → count a (n.sockets x).my_peers ≡ 0
  not_client x h = elim (Bool-cases (ltb 0 (count a (n.sockets x).my_peers))) [
    | inl p ↦ absurd (h (t.back a x (ground (arith, p))))
    | inr z ↦ ground (arith, z)
  ]

  distinct : (b : ℕ) → (n.sockets a).peer ≡ some b → (a == b) ≡ false
  distinct b e = elim (Bool-cases (a == b)) [
    | inr h ↦ h
    | inl h ↦
        let (c, d, p) = t.kept a b e in
        let same : a ≡ b = ground (arith, h) in
        absurd (cc (ap (λ x. (n.sockets x).state) same, c, d))
  ]

  other_forgets :
      (b x : ℕ)
      → (n.sockets a).peer ≡ some b
      → (b == x) ≡ false
      → count a (n.sockets x).my_peers ≡ 0
  other_forgets b x e h =
      not_client x (λ k. let same : b ≡ x = cc (e, k) in absurd (ground (arith, h, same)))

  leave_peer-HasLeft : (wake : Bool) → HasLeft a n (leave_peer a wake n).1
  unfolding leave_peer remove_connected
  leave_peer-HasLeft wake = go (n.sockets a).peer refl
    where
      go : (o : Option ℕ) → (n.sockets a).peer ≡ o → HasLeft a n (leave_peer a wake n).1
      go none e =
          rw (e, leave_peer)
            (record {
              gone = ground arith;
              same_peer = λ x h. ground (arith, h);
              same_state = λ x h. ground (arith, h);
              same_clients = ground arith;
              forgotten = λ x. ground (arith, not_client x (λ h. cc (h, e)));
              same_counts = λ c x h. ground (arith, h);
            })
      go (some b) e =
          let (c, d, p) = t.kept a b e in
          let other = distinct b e in
          let after : Datagrams =
            place b (record (n.sockets b) { my_peers = remove a (n.sockets b).my_peers })
              (place a (record (n.sockets a) { state = closed; peer = none }) n) in
          let same : (leave_peer a wake n).1 ≡ after = ground (arith, e, d, other) in
          subst (HasLeft a n) (sym same) (record {
            gone = ground (arith, other);
            same_peer = λ x h. ground (arith, h, other);
            same_state = λ x h. ground (arith, h, other);
            same_clients = ground (arith, other);
            forgotten =
                λ x. ground (arith, count-remove a a (n.sockets b).my_peers, other_forgets b x e);
            same_counts = λ c x h. ground (arith, h, count-remove c a (n.sockets b).my_peers);
          })

  -- No pointer to `a` is left in a socket.
  IsFree : Datagram → Type 0
  IsFree s = (s.peer ≢ some a) × (count a s.my_peers ≡ 0)

  peerless_lem : (s : Datagram) → s.peer ≡ none → count a s.my_peers ≡ 0 → IsFree s
  unfolding IsFree
  peerless_lem s e c = (λ h. cc (h, e), c)

  -- `RemoveConnected` on a socket that is connected, or has no peer.
  removed-IsFree :
      (s : Datagram)
      → (s.state ≡ connected) ⊎ (s.peer ≡ none)
      → count a s.my_peers ≡ 0
      → IsFree (removed a s)
  unfolding removed remove_connected
  removed-IsFree s (inl c) z = peerless_lem (removed a s) (ground (arith, c)) (ground (arith, c, z))
  removed-IsFree s (inr p) z =
      peerless_lem (removed a s) (ground (arith, p))
        (ground (arith, z, count-remove a a s.my_peers))

  module _ (wake : Bool) where
    left : Datagrams
    left = (leave_peer a wake n).1

    emptied : Datagrams
    emptied = place a (record (left.sockets a) { my_peers = [] }) left

    client_in_loop :
        (x : ℕ) → 0 < count x (n.sockets a).my_peers → IsFree (removed a (emptied.sockets x))
    unfolding emptied left
    client_in_loop x c =
        let h = leave_peer-HasLeft wake in
        let e = t.back x a c in
        let (s, b, p) = t.kept x a e in
        elim (Bool-cases (a == x)) [
          | inl same ↦
              let i : a ≡ x = ground (arith, same) in
              removed-IsFree (emptied.sockets x) (inr (ground (arith, same, h.gone)))
                (ground (arith, same))
          | inr other ↦
              removed-IsFree (emptied.sockets x)
                (inl (ground (arith, other, h.same_state x other, s)))
                (ground (arith, other, h.forgotten x))
        ]

    stranger_in_loop :
        (x : ℕ) → ltb 0 (count x (n.sockets a).my_peers) ≡ false → IsFree (emptied.sockets x)
    unfolding emptied left IsFree
    stranger_in_loop x c =
        let h = leave_peer-HasLeft wake in
        elim (Bool-cases (a == x)) [
          | inl same ↦
              peerless_lem (emptied.sockets x) (ground (arith, same, h.gone))
                (ground (arith, same, count-nil a))
          | inr other ↦
              let same_p : (left.sockets x).peer ≡ (emptied.sockets x).peer =
                ground (arith, other) in
              (
                λ e.
                    let (s, b, p) = t.kept x a (sym (h.same_peer x other) ∙ same_p ∙ e) in
                    absurd (ground (arith, c, p)),
                ground (arith, other, h.forgotten x),
              )
        ]

    told : Datagrams
    told = (remove_all a wake (left.sockets a).my_peers emptied).1

    told-IsFree : (x : ℕ) → IsFree (told.sockets x)
    unfolding told left
    told-IsFree x =
        let same_l : (left.sockets a).my_peers ≡ (n.sockets a).my_peers =
          (leave_peer-HasLeft wake).same_clients in
        let same = ap (λ l. ltb 0 (count x l)) (sym same_l) in
        subst IsFree (sym (remove_all_lem a wake (left.sockets a).my_peers emptied x)) (
          if_all IsFree (ltb 0 (count x (left.sockets a).my_peers)) _ _
            (λ h. client_in_loop x (ground (arith, same ∙ h))) (λ h. stranger_in_loop x (same ∙ h)))

    cleared-IsFree : (x : ℕ) → IsFree ((clear_datagram a wake n).1.sockets x)
    unfolding clear_datagram IsFree told emptied left
    cleared-IsFree x =
        let s = told.sockets a in
        let cleared = place a (record s { bind_path = 0; buffer = empty_buffer }) told in
        let free : IsFree (cleared.sockets x) =
          update_all IsFree told.sockets a (record s { bind_path = 0; buffer = empty_buffer })
            (told-IsFree a) told-IsFree x in
        if_all (λ (m : Datagrams). IsFree (m.sockets x)) (ltb 0 s.bind_path) _ _ (λ h. free)
          (λ h. free)

-- ===== src/LocalStream/Kept/Accept.antt =====
-- `Accept` of model/local-stream-socket-fd.cc keeps connected sockets each other's peers.
use ns_3_dce.Prelude.{
  ℕ, ◌≡◌, true, false, not, Option, none, some, List, [], ◌∷◌, arith, ◌==◌, if_all, refl, ◌∙◌, ap,
  inl, inr, Bool-cases,
}
use ns_3_dce.WaitQueue.{Awoken, ok, interrupted, timeout, remove_waiter}
use ns_3_dce.LocalStream.{
  listening, accepting, Socket, Node, einval, eagain, eintr, emfile, unset, returns, fails, waits,
  Outcome, fails_assert, is_connected, is_listening, is_connecting, put, close,
}
use ns_3_dce.LocalStream.Transfer.{drop_waiter}
use ns_3_dce.LocalStream.Calls.{
  is_created, accept, accept_queue, accept_pass, accept_loop, accept_first, accept_again,
  internal_connect,
}
use ns_3_dce.LocalStream.Paired.{
  IsPaired, IsKept, owner-IsWhole, touch-IsPaired, settle-IsPaired, close-IsKept,
}
use ns_3_dce.LocalStream.Kept.{kept, listening_owns, linked-IsPaired, drop_waiter-IsPaired}

-- A change of a socket that keeps its state keeps every state.
same_state :
    (a : ℕ) (s : Socket) (n : Node) (x : ℕ)
    → s.state ≡ (n.sockets a).state
    → ((put a s n).sockets x).state ≡ (n.sockets x).state
same_state a s n x e = ground (arith, e)

-- The listener `a` takes a client, where `fresh` is a socket that was not used.
module _ (a fresh : ℕ) (fd : Option ℕ) where
  accept_first-IsKept :
      (next : List ℕ → Node → Outcome) (c : ℕ) (q woken : List ℕ) (n : Node)
      → IsPaired n
      → is_created (n.sockets fresh).state ≡ true
      → ((w : List ℕ) (m : Node)
          → IsPaired m
          → is_created (m.sockets fresh).state ≡ true
          → IsKept (next w m))
      → IsKept (accept_first next a fd fresh c q woken n)
  unfolding accept_first internal_connect fails_assert
  accept_first-IsKept next c q woken n p u later = pick fd
    where
      m : Node
      m = put a (record (n.sockets a) { queue = q }) n

      paired : IsPaired m
      paired = touch-IsPaired a _ n p refl refl refl

      unused : is_created (m.sockets fresh).state ≡ true
      unused = ap is_created (same_state a (record (n.sockets a) { queue = q }) n fresh refl) ∙ u

      closes : IsKept (close c m)
      closes = close-IsKept c m paired

      pick : (d : Option ℕ) → IsKept (accept_first next a d fresh c q woken n)
      pick none = rw closes.no_assert (kept (fails emfile) _ _ refl closes.paired)
      pick (some d) = elim (Bool-cases (is_connecting (m.sockets c).state)) [
        | inl h ↦ rw h (kept (returns d []) _ _ refl (linked-IsPaired c fresh _ m paired unused h))
        | inr h ↦ rw h (
            later _ _ (touch-IsPaired c _ m paired refl refl refl)
              (ap is_created (same_state c (m.sockets c) m fresh refl) ∙ unused))
      ]

  accept_loop-IsKept :
      (q woken : List ℕ) (n : Node)
      → IsPaired n
      → is_created (n.sockets fresh).state ≡ true
      → IsKept (accept_loop a fd fresh q woken n)
  unfolding accept_loop fails_assert
  accept_loop-IsKept [] woken n p u = kept (fails unset) woken n refl p
  accept_loop-IsKept (c ∷ q) woken n p u =
      accept_first-IsKept (accept_loop a fd fresh q) c q woken n p u
        (λ w m. accept_loop-IsKept q w m)

  accept_queue-IsKept :
      (t : ℕ) (q : List ℕ) (n : Node)
      → IsPaired n
      → is_created (n.sockets fresh).state ≡ true
      → (a == fresh) ≡ false
      → is_connected (n.sockets a).state ≡ false
      → (n.sockets a).has_factory ≡ true
      → IsKept (accept_queue t a fd fresh q n)
  unfolding accept_queue fails_assert is_connected
  accept_queue-IsKept t [] n p u other c f =
      let s = record (n.sockets a) { state = accepting } in
      let r : IsPaired (put a s n) = settle-IsPaired a s n p c refl (owner-IsWhole s refl f) in
      if_all IsKept (n.sockets a).non_block _ _ (λ h. kept (fails eagain) [] n refl p)
        (λ h. kept (waits [] []) [] _ refl (touch-IsPaired a _ (put a s n) r refl refl refl))
  accept_queue-IsKept t (x ∷ q) n p u other c f =
      let s = record (n.sockets a) { state = listening } in
      let r : IsPaired (put a s n) = settle-IsPaired a s n p c refl (owner-IsWhole s refl f) in
      let v : is_created ((put a s n).sockets fresh).state ≡ true = rw other u in
      accept_loop-IsKept (x ∷ q) [] (put a s n) r v

  -- A listener is no unused socket.
  distinct :
      (n : Node)
      → is_created (n.sockets fresh).state ≡ true
      → not (is_listening (n.sockets a).state) ≡ false
      → (a == fresh) ≡ false
  unfolding is_created is_listening
  distinct n u h = elim (Bool-cases (a == fresh)) [
    | inr e ↦ e
    | inl e ↦
        let same : a ≡ fresh = ground (arith, e) in
        let v : is_created (n.sockets a).state ≡ true = rw same u in absurd (ground (arith, v, h))
  ]

  pub accept-IsKept :
      (t : ℕ) (n : Node)
      → IsPaired n
      → is_created (n.sockets fresh).state ≡ true
      → IsKept (accept t a fd fresh n)
  unfolding accept fails_assert
  accept-IsKept t n p u =
      if_all IsKept (not (is_listening (n.sockets a).state)) _ _
        (λ h. kept (fails einval) [] n refl p)
        (λ h.
          let (c, f) = listening_owns (n.sockets a).state h in
          accept_queue-IsKept t (n.sockets a).queue n p u (distinct n u h) c
            ((p.whole a).factory f))

  pub accept_again-IsKept :
      (w : Awoken) (t : ℕ) (n : Node)
      → IsPaired n
      → is_created (n.sockets fresh).state ≡ true
      → (a == fresh) ≡ false
      → is_connected (n.sockets a).state ≡ false
      → (n.sockets a).has_factory ≡ true
      → IsKept (accept_again w t a fd fresh n)
  unfolding accept_again fails_assert
  accept_again-IsKept w t n p u other c f =
      let m = drop_waiter a t n in
      let q = drop_waiter-IsPaired a t n p in
      let same = λ (x : ℕ).
        same_state a (record (n.sockets a) { waiters = remove_waiter t (n.sockets a).waiters }) n x
          refl in
      woken w
        (accept_queue-IsKept t (m.sockets a).queue m q (ap is_created (same fresh) ∙ u) other
          (ap is_connected (same a) ∙ c) (ground (arith, f)))
        q
    where
      woken :
          (x : Awoken)
          → IsKept (accept_pass t a fd fresh (drop_waiter a t n))
          → IsPaired (drop_waiter a t n)
          → IsKept (accept_again x t a fd fresh n)
      woken ok k q = k
      woken interrupted k q = kept (fails eintr) [] _ refl q
      woken timeout k q = kept (fails eagain) [] _ refl q

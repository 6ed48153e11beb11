-- ===== src/LocalStream/Paired.antt =====
-- Connected sockets of model/local-stream-socket-fd.cc are each other's peers: what keeps it.
use ns_3_dce.Prelude.{
  ℕ, ◌≡◌, Bool, true, false, Option, none, some, arith, if◌then◌else◌, update, update_all, refl,
  sym, ◌∙◌, ap,
}
use ns_3_dce.LocalStream.{
  State, created, binded, listening, accepting, connecting, connected, remote_closed, closed,
  Socket, Node, Outcome, is_connected, put, fails_assert, close, clear_all, peer_closed,
  unregister_binder,
}

-- The peer of a connected socket.
unfoldable pub mate : Socket → Option ℕ
unfolding is_connected
mate s = if is_connected s.state then s.peer else none

-- The states in which a call uses `m_factory` with no test.
unfoldable pub needs_factory : State → Bool
needs_factory created = true
needs_factory binded = true
needs_factory listening = true
needs_factory accepting = true
needs_factory _ = false

pub record IsWhole (s : Socket) : Type 0 where
  pub has_peer : is_connected s.state ≡ true → (b : ℕ) × (s.peer ≡ some b)
  pub factory : needs_factory s.state ≡ true → s.has_factory ≡ true

pub record IsPaired (n : Node) : Type 0 where
  pub whole : (a : ℕ) → IsWhole (n.sockets a)
  pub both_ways : (a b : ℕ) → mate (n.sockets a) ≡ some b → mate (n.sockets b) ≡ some a

-- No assertion fails in a call, and the sockets stay paired.
pub record IsKept (o : Outcome) : Type 0 where
  pub no_assert : fails_assert o.0 ≡ false
  pub paired : IsPaired o.2

-- A socket that is neither connected nor of a state that needs the factory is whole.
pub idle-IsWhole :
    (s : Socket) → is_connected s.state ≡ false → needs_factory s.state ≡ false → IsWhole s
idle-IsWhole s c f = record {
  has_peer = λ h. absurd (cc (h, c));
  factory = λ h. absurd (cc (h, f));
}

-- One with its factory that is not connected is whole.
pub owner-IsWhole : (s : Socket) → is_connected s.state ≡ false → s.has_factory ≡ true → IsWhole s
owner-IsWhole s c f = record { has_peer = λ h. absurd (cc (h, c)); factory = λ h. f }

-- A socket changes, and keeps its mate.
pub put-IsPaired :
    (a : ℕ) (s : Socket) (n : Node)
    → IsPaired n
    → IsWhole s
    → mate s ≡ mate (n.sockets a)
    → IsPaired (put a s n)
put-IsPaired a s n p w e =
    let same : (x : ℕ) → mate ((put a s n).sockets x) ≡ mate (n.sockets x) =
      λ x. ground (arith, e) in
    record {
      whole = update_all IsWhole n.sockets a s w p.whole;
      both_ways = λ x y h. same y ∙ p.both_ways x y (sym (same x) ∙ h);
    }

-- A socket that keeps its state, its peer and its factory.
pub touch-IsPaired :
    (a : ℕ) (s : Socket) (n : Node)
    → IsPaired n
    → s.state ≡ (n.sockets a).state
    → s.peer ≡ (n.sockets a).peer
    → s.has_factory ≡ (n.sockets a).has_factory
    → IsPaired (put a s n)
unfolding mate
touch-IsPaired a s n p st pe fa =
    let w = p.whole a in
    let w' : IsWhole s = record {
      has_peer = λ h. let (b, e) = w.has_peer (ap is_connected (sym st) ∙ h) in (b, pe ∙ e);
      factory = λ h. fa ∙ w.factory (ap needs_factory (sym st) ∙ h);
    } in
    put-IsPaired a s n p w' (rw st (rw pe refl))

-- No socket is a mate any more, and two sockets become mates.
BothWays : (ℕ → Option ℕ) → Type 0
BothWays m = (a b : ℕ) → m a ≡ some b → m b ≡ some a

unlink_lem :
    (m : ℕ → Option ℕ) (a b : ℕ)
    → BothWays m
    → m a ≡ some b
    → BothWays (update (update m b none) a none)
unfolding BothWays
unlink_lem m a b p e x y h = grind (arith, p, e, h)

link_lem :
    (m : ℕ → Option ℕ) (a b : ℕ)
    → BothWays m
    → m a ≡ none
    → m b ≡ none
    → BothWays (update (update m b (some a)) a (some b))
unfolding BothWays
link_lem m a b p e f x y h = grind (arith, p, e, f, h)

-- The sockets `a` and `b` change so that their mates do as in `m`.
pair-IsPaired :
    (n : Node) (a b : ℕ) (s t : Socket) (m : ℕ → Option ℕ)
    → IsPaired n
    → IsWhole s
    → IsWhole t
    → BothWays m
    → ((x : ℕ) → mate ((put a s (put b t n)).sockets x) ≡ m x)
    → IsPaired (put a s (put b t n))
unfolding BothWays
pair-IsPaired n a b s t m p v w both same = record {
  whole = update_all IsWhole (put b t n).sockets a s v (update_all IsWhole n.sockets b t w p.whole);
  both_ways = λ x y h. same y ∙ both x y (sym (same x) ∙ h);
}

pub unlink-IsPaired :
    (n : Node) (a b : ℕ) (s t : Socket)
    → IsPaired n
    → IsWhole s
    → IsWhole t
    → mate (n.sockets a) ≡ some b
    → mate s ≡ none
    → mate t ≡ none
    → IsPaired (put a s (put b t n))
unfolding BothWays
unlink-IsPaired n a b s t p v w e f g =
    let m = λ (x : ℕ). mate (n.sockets x) in
    pair-IsPaired n a b s t (update (update m b none) a none) p v w (unlink_lem m a b p.both_ways e)
      (λ x. ground (arith, f, g))

pub link-IsPaired :
    (n : Node) (a b : ℕ) (s t : Socket)
    → IsPaired n
    → IsWhole s
    → IsWhole t
    → mate (n.sockets a) ≡ none
    → mate (n.sockets b) ≡ none
    → mate s ≡ some b
    → mate t ≡ some a
    → IsPaired (put a s (put b t n))
unfolding BothWays
link-IsPaired n a b s t p v w e f g h =
    let m = λ (x : ℕ). mate (n.sockets x) in
    pair-IsPaired n a b s t (update (update m b (some a)) a (some b)) p v w
      (link_lem m a b p.both_ways e f) (λ x. ground (arith, g, h))

-- Whom a name stands for is not part of it.
pub rebind-IsPaired :
    (n : Node) (binders : ℕ → Option (ℕ × Bool))
    → IsPaired n
    → IsPaired (record n { binders = binders })
rebind-IsPaired n binders p = record { whole = p.whole; both_ways = p.both_ways }

-- A socket that is not connected changes, and still is not.
pub settle-IsPaired :
    (a : ℕ) (s : Socket) (n : Node)
    → IsPaired n
    → is_connected (n.sockets a).state ≡ false
    → is_connected s.state ≡ false
    → IsWhole s
    → IsPaired (put a s n)
unfolding mate
settle-IsPaired a s n p c d w = put-IsPaired a s n p w (rw c (rw d refl))

cleared-IsWhole : (s : Socket) → IsWhole (clear_all s)
unfolding clear_all is_connected needs_factory
cleared-IsWhole s = idle-IsWhole (clear_all s) refl refl

pub mate_connected : (s : Socket) (a : ℕ) → mate s ≡ some a → is_connected s.state ≡ true
unfolding mate is_connected
mate_connected s a h = ground (arith, h)

-- A socket without a peer is cleared.
clear-IsPaired :
    (a : ℕ) (n : Node)
    → IsPaired n
    → is_connected (n.sockets a).state ≡ false
    → IsPaired (put a (clear_all (n.sockets a)) n)
unfolding clear_all is_connected
clear-IsPaired a n p c =
    settle-IsPaired a (clear_all (n.sockets a)) n p c refl (cleared-IsWhole (n.sockets a))

-- `Close` of any socket.
pub close-IsKept : (a : ℕ) (n : Node) → IsPaired n → IsKept (close a n)
unfolding close peer_closed unregister_binder is_connected needs_factory mate fails_assert clear_all
close-IsKept a n p = go (n.sockets a).state refl
  where
    free : is_connected (n.sockets a).state ≡ false → IsPaired (put a (clear_all (n.sockets a)) n)
    free = clear-IsPaired a n p

    unbound :
        is_connected (n.sockets a).state ≡ false
        → IsPaired (unregister_binder (n.sockets a).bind_path (put a (clear_all (n.sockets a)) n))
    unbound c =
        rebind-IsPaired (put a (clear_all (n.sockets a)) n)
          (update n.binders (n.sockets a).bind_path none) (free c)

    owns :
        (st : State)
        → (n.sockets a).state ≡ st
        → needs_factory st ≡ true
        → (n.sockets a).has_factory ≡ true
    owns st e f = (p.whole a).factory (ap needs_factory e ∙ f)

    go : (st : State) → (n.sockets a).state ≡ st → IsKept (close a n)
    go created e = rw (e, close) (record { no_assert = refl; paired = free (ap is_connected e) })
    go connecting e = rw (e, close) (record { no_assert = refl; paired = free (ap is_connected e) })
    go remote_closed e =
        rw (e, close) (record { no_assert = refl; paired = free (ap is_connected e) })
    go closed e = rw (e, close) (record { no_assert = refl; paired = p })
    go binded e =
        rw (e, close)
          (rw (owns binded e refl)
            (record { no_assert = refl; paired = unbound (ap is_connected e) }))
    go listening e =
        rw (e, close)
          (rw (owns listening e refl)
            (record { no_assert = refl; paired = unbound (ap is_connected e) }))
    go accepting e =
        rw (e, close)
          (rw (owns accepting e refl)
            (record { no_assert = refl; paired = unbound (ap is_connected e) }))
    go connected e =
        let (b, f) = (p.whole a).has_peer (ap is_connected e) in
        let here : mate (n.sockets a) ≡ some b = rw (e, mate) f in
        let there : mate (n.sockets b) ≡ some a = p.both_ways a b here in
        let c : is_connected (n.sockets b).state ≡ true = mate_connected (n.sockets b) a there in
        rw (e, close)
          (rw f (
            rw c (record {
              no_assert = refl;
              paired =
                  unlink-IsPaired n a b (clear_all (n.sockets a))
                    (record (n.sockets b) { peer = none; state = remote_closed }) p
                    (cleared-IsWhole (n.sockets a))
                    (idle-IsWhole (record (n.sockets b) { peer = none; state = remote_closed }) refl
                      refl)
                    here refl refl;
            })))

-- ===== src/LocalStream/Handshake.antt =====
-- `Connect` meets `Accept` of model/local-stream-socket-fd.cc.
use ns_3_dce.Prelude.{
  ℕ, ◌≡◌, ◌<◌, true, false, some, List, [], ◌∷◌, ◌++◌, ◌==◌, refl, ap, ◌∙◌, arith, count,
}
use ns_3_dce.WaitQueue.{
  pollin, pollout, is_wanted, read_entry, wake_waiters, wake_either, wake_either-append,
}
use ns_3_dce.LocalStream.{
  listening, connecting, connected, Socket, Node, returns, waits, Outcome, is_connected, put,
  find_binder, accepted_socket,
}
use ns_3_dce.LocalStream.Calls.{
  connect, connect_to, connect_again, accept, accept_queue, accept_loop, accept_first,
  internal_connect,
}

-- The sockets `a` and `b` are connected to each other.
pub record IsLinked (a b : ℕ) (n : Node) : Type 0 where
  pub both_connected : ((n.sockets a).state ≡ connected) × ((n.sockets b).state ≡ connected)
  pub peer_of_first : (n.sockets a).peer ≡ some b
  pub peer_of_second : (n.sockets b).peer ≡ some a

module _ (t a b fresh d path : ℕ) (other : (a == b) ≡ false) (new_a : (fresh == a) ≡ false)
    (new_b : (fresh == b) ≡ false) where
  client : Node → Socket
  client n = record (n.sockets a) {
    state = connecting;
    waiters = (n.sockets a).waiters ++ read_entry t ∷ [];
  }

  -- The node once the client waits in the queue of the listener.
  asked : Node → Node
  asked n =
      put b (record (n.sockets b) { queue = (n.sockets b).queue ++ a ∷ [] }) (put a (client n) n)

  connect_asks :
      (n : Node)
      → (n.sockets a).has_factory ≡ true
      → (n.sockets a).non_block ≡ false
      → find_binder path n ≡ some b
      → (n.sockets b).state ≡ listening
      → connect t a path n ≡ (waits [] [], wake_waiters pollin (n.sockets b).waiters, asked n)
  unfolding connect connect_to asked client
  connect_asks n f nb e s = ground (arith, other, f, nb, e, s)

  -- The node once the listener took the client from the head of its queue, before `q`.
  linked : List ℕ → Node → Node
  linked q m =
      put a (record (m.sockets a) { state = connected; peer = some fresh })
        (put fresh (accepted_socket a (m.sockets b).bind_path)
          (put b (record (m.sockets b) { queue = q }) m))

  first_links :
      (q : List ℕ) (m : Node)
      → (m.sockets a).state ≡ connecting
      → accept_first (accept_loop b (some d) fresh q) b (some d) fresh a q [] m
        ≡ (returns d [], wake_either pollin pollout (m.sockets a).waiters, linked q m)
  unfolding accept_first internal_connect linked
  first_links q m c = ground (arith, c, other)

  linked-IsLinked : (q : List ℕ) (m : Node) → IsLinked a fresh (linked q m)
  unfolding linked accepted_socket
  linked-IsLinked q m = record {
    both_connected = (ground arith, ground (arith, new_a));
    peer_of_first = ground arith;
    peer_of_second = ground (arith, new_a);
  }

  -- The listener sets its state, and takes the client.
  accept_links :
      (u : ℕ) (q : List ℕ) (m : Node)
      → (m.sockets a).state ≡ connecting
      → let k = put b (record (m.sockets b) { state = listening }) m in
        accept_queue u b (some d) fresh (a ∷ q) m
        ≡ (returns d [], wake_either pollin pollout (m.sockets a).waiters, linked q k)
  unfolding accept_queue accept_loop
  accept_links u q m c =
      let k = put b (record (m.sockets b) { state = listening }) m in
      let same : k.sockets a ≡ m.sockets a = ground (arith, other) in
      first_links q k (ap (λ (s : Socket). s.state) same ∙ c)
      ∙ ap (λ (s : Socket). (returns d [], wake_either pollin pollout s.waiters, linked q k)) same

  -- The client goes on.
  again_links :
      (m : Node)
      → IsLinked a fresh m
      → (o : Outcome) × (connect_again t a b path m ≡ o)
        × (o.0 ≡ returns 0 [])
        × IsLinked a fresh o.2
  unfolding connect_again is_connected
  again_links m l = (
    connect_again t a b path m,
    refl,
    ground (arith, l.both_connected.0),
    record {
      both_connected = (
        ground (arith, l.both_connected.0),
        ground (arith, l.both_connected.0, l.both_connected.1, new_a),
      );
      peer_of_first = ground (arith, l.both_connected.0, l.peer_of_first);
      peer_of_second = ground (arith, l.both_connected.0, l.peer_of_second, new_a);
    },
  )

  accept_takes :
      (u : ℕ) (n : Node)
      → (n.sockets b).state ≡ listening
      → (n.sockets b).queue ≡ []
      → accept u b (some d) fresh (asked n) ≡ accept_queue u b (some d) fresh (a ∷ []) (asked n)
  unfolding accept asked
  accept_takes u n s q = ground (arith, s, q)

  asked-waiters :
      (n : Node)
      → (((asked n).sockets a).state ≡ connecting)
        × (((asked n).sockets a).waiters ≡ (n.sockets a).waiters ++ read_entry t ∷ [])
  unfolding asked client
  asked-waiters n =
      let same : (asked n).sockets a ≡ client n = ground (arith, other) in
      (ap (λ (s : Socket). s.state) same, ap (λ (s : Socket). s.waiters) same)

  -- When a blocking socket that `Accept` did not make connects by its name to another, which listens
  -- and has no client yet, it waits; an `Accept` that is given a descriptor and the address of a third
  -- socket then returns the descriptor, and wakes the client up; and the client's `Connect` returns 0.
  -- Then the client and the third socket are connected to each other.
  pub handshake_lem :
      (u : ℕ) (n : Node)
      → (n.sockets a).has_factory ≡ true
      → (n.sockets a).non_block ≡ false
      → find_binder path n ≡ some b
      → (n.sockets b).state ≡ listening
      → (n.sockets b).queue ≡ []
      → (asks : Outcome) × (accepts : Outcome) × (goes_on : Outcome) × (connect t a path n ≡ asks)
        × (accept u b (some d) fresh asks.2 ≡ accepts)
        × (connect_again t a b path accepts.2 ≡ goes_on)
        × (asks.0 ≡ waits [] [])
        × (accepts.0 ≡ returns d [])
        × (0 < count t accepts.1)
        × (goes_on.0 ≡ returns 0 [])
        × IsLinked a fresh goes_on.2
  unfolding is_wanted
  handshake_lem u n f nb e s q =
      let (c, ws) = asked-waiters n in
      let m = asked n in
      let k = put b (record (m.sockets b) { state = listening }) m in
      let second = accept_takes u n s q ∙ accept_links u [] m c in
      let (o, eo, r, l) = again_links (linked [] k) (linked-IsLinked [] k) in
      (
        (waits [] [], wake_waiters pollin (n.sockets b).waiters, m),
        (returns d [], wake_either pollin pollout (m.sockets a).waiters, linked [] k),
        o,
        connect_asks n f nb e s,
        second,
        eo,
        refl,
        refl,
        rw ws (wake_either-append pollin pollout (n.sockets a).waiters (read_entry t) refl),
        r,
        l,
      )

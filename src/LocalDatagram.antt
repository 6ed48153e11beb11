-- ===== src/LocalDatagram.antt =====
-- model/local-datagram-socket-fd.cc: datagram sockets between the processes of a node.
--
-- As in `LocalStream`, a socket and the real path of a name are numbers, and what `bind` of the host
-- gives is an argument. A call gives its result, the threads that it wakes up and the node. A set of
-- sockets is a list.
pub mod Pointers
pub mod Connecting
mod Tests
use ns_3_dce.Prelude.{
  ℕ, ◌+◌, Bool, true, false, not, ◌&&◌, ◌||◌, Option, none, some, List, [], ◌∷◌, ◌++◌, ltb, ◌==◌,
  if◌then◌else◌, length, update, remove, ℤ, pos, minus_one,
}
use ns_3_dce.WaitQueue.{Entry, pollout, pollhup, read_entry, wake_waiters}
use ns_3_dce.LocalSocket.{
  ReadBuffer, empty_buffer, max_buffer, do_recv_packet, received, is_shut, no_memory, read_data,
}

pub data DatagramState : Type 0 where
  created binded connected remote_closed closed : DatagramState

pub record Datagram : Type 0 where
  pub state : DatagramState
  pub peer : Option ℕ
  pub my_peers : List ℕ
  pub buffer : ReadBuffer
  pub shut_read : Bool
  pub shut_write : Bool
  pub non_block : Bool
  pub bind_path : ℕ
  pub connect_path : ℕ
  pub waiters : List Entry

-- The sockets, and the part of `m_bindByPath` that holds datagram sockets.
pub record Datagrams : Type 0 where
  pub sockets : ℕ → Datagram
  pub binders : ℕ → Option ℕ

pub new_datagram : Datagram
new_datagram = record {
  state = created;
  peer = none;
  my_peers = [];
  buffer = empty_buffer;
  shut_read = false;
  shut_write = false;
  non_block = false;
  bind_path = 0;
  connect_path = 0;
  waiters = [];
}

abbrev pub place : ℕ → Datagram → Datagrams → Datagrams
place a s n = record n { sockets = update n.sockets a s }

abbrev pub woken_if : Bool → Datagram → List ℕ
woken_if wake s = if wake then wake_waiters pollhup s.waiters else []

-- `RemoveConnected`.
unfoldable pub remove_connected : ℕ → Bool → Datagram → List ℕ × Datagram
remove_connected a wake s = elim s.state [
  | binded ↦ (woken_if wake s, record s { my_peers = remove a s.my_peers })
  | connected ↦ (woken_if wake s, record s { peer = none; state = remote_closed })
  | created ↦ ([], s)
  | remote_closed ↦ ([], s)
  | closed ↦ ([], s)
]

-- The loop of `ClearAll` over the sockets that are connected to `a`.
unfoldable pub remove_all : ℕ → Bool → List ℕ → Datagrams → List ℕ × Datagrams
remove_all a wake [] n = ([], n)
remove_all a wake (c ∷ cs) n =
    let (w, s) = remove_connected a wake (n.sockets c) in
    let (more, after) = remove_all a wake cs (place c s n) in (w ++ more, after)

-- `ClearAll` up to that loop: the peer is told.
unfoldable pub leave_peer : ℕ → Bool → Datagrams → List ℕ × Datagrams
unfolding remove_connected
leave_peer a wake n =
    let s = n.sockets a in
    let m = place a (record s { state = closed; peer = none }) n in
    elim s.peer [
      | none ↦ ([], m)
      | some b ↦ let (w, t) = remove_connected a wake (m.sockets b) in (w, place b t m)
    ]

unfoldable pub clear_datagram : ℕ → Bool → Datagrams → List ℕ × Datagrams
unfolding leave_peer remove_all
clear_datagram a wake n =
    let (w, m) = leave_peer a wake n in
    let k = place a (record (m.sockets a) { my_peers = [] }) m in
    let (more, l) = remove_all a wake (m.sockets a).my_peers k in
    let s = l.sockets a in
    let cleared = place a (record s { bind_path = 0; buffer = empty_buffer }) l in
    let unbound =
      if ltb 0 s.bind_path
      then record cleared { binders = update cleared.binders s.bind_path none }
      else cleared in
    (w ++ more ++ woken_if wake s, unbound)

-- `Close`, which returns 0.
unfoldable pub close_datagram : ℕ → Datagrams → List ℕ × Datagrams
unfolding clear_datagram
close_datagram a n = elim (n.sockets a).state [
  | connected ↦ clear_datagram a true n
  | binded ↦ clear_datagram a true n
  | created ↦ clear_datagram a false n
  | remote_closed ↦ clear_datagram a false n
  | closed ↦ clear_datagram a false n
]

-- `Bind`, with whether the name is one of this family and whether the `bind` of the host succeeds.
unfoldable pub bind_datagram : ℕ → Bool → ℕ → Bool → Datagrams → ℤ × Datagrams
bind_datagram a is_unix path host n =
    let s = n.sockets a in
    let m = place a (record s { state = binded; bind_path = path }) n in
    if not is_unix then (minus_one, n) else elim s.state [
      | created ↦
          if host
          then (pos 0, record m { binders = update m.binders path (some a) })
          else (minus_one, n)
      | binded ↦ (minus_one, n)
      | connected ↦ (minus_one, n)
      | remote_closed ↦ (minus_one, n)
      | closed ↦ (minus_one, n)
    ]

pub is_binded : DatagramState → Bool
is_binded binded = true
is_binded _ = false

-- `Connect` in a state that allows it, and `AddConnected`.
unfoldable pub connect_found : ℕ → ℕ → Datagrams → ℤ × Datagrams
unfolding is_binded
connect_found a path n = elim (n.binders path) [
  | none ↦ (minus_one, n)
  | some b ↦
      let m =
        place a (record (n.sockets a) { state = connected; connect_path = path; peer = some b })
          n in
      let l = m.sockets b in
      if not (is_binded (n.sockets b).state)
      then (minus_one, n)
      else (pos 0, place b (record l { my_peers = a ∷ remove a l.my_peers }) m)
]

unfoldable pub connect_datagram : ℕ → ℕ → Datagrams → ℤ × Datagrams
unfolding connect_found
connect_datagram a path n = elim (n.sockets a).state [
  | binded ↦ (minus_one, n)
  | connected ↦ (minus_one, n)
  | created ↦ connect_found a path n
  | remote_closed ↦ connect_found a path n
  | closed ↦ connect_found a path n
]

-- `Write2Peer`: the result, and -1 where it fails.
unfoldable pub write_to_peer : (ℕ → Bool) → ℕ → List ℕ → Datagrams → ℤ × List ℕ × Datagrams
unfolding is_binded
write_to_peer malloc b bytes n =
    let q = n.sockets b in
    let (r, w, buffer) = do_recv_packet malloc q.shut_read false q.waiters bytes q.buffer in
    if not (is_binded q.state) then (minus_one, [], n) else (
      elim r [ received l ↦ pos l | is_shut ↦ minus_one | no_memory ↦ minus_one ],
      w,
      place b (record q { buffer = buffer }) n,
    )

-- `Write`.
unfoldable pub write_datagram : (ℕ → Bool) → ℕ → List ℕ → Datagrams → ℤ × List ℕ × Datagrams
unfolding write_to_peer
write_datagram malloc a bytes n = elim (n.sockets a).state [
  | connected ↦ elim (n.sockets a).peer [
    | none ↦ (minus_one, [], n)
    | some b ↦ write_to_peer malloc b bytes n
  ]
  | created ↦ (minus_one, [], n)
  | binded ↦ (minus_one, [], n)
  | remote_closed ↦ (minus_one, [], n)
  | closed ↦ (minus_one, [], n)
]

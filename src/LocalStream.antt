-- ===== src/LocalStream.antt =====
-- model/local-stream-socket-fd.cc with the table of model/local-socket-fd-factory.cc: stream sockets
-- between the processes of a node.
--
-- A socket is a number, its address; so is the real path of its name, 0 for the empty one. What
-- `bind` of the host and `UtilsAllocateFd` give is an argument, and so is the address of a socket that
-- `Accept` makes. A call that waits is split where it waits, as in `Pipe`: what it does up to there,
-- and, called `_again`, what it does once its thread runs again. A call gives the threads that it wakes
-- up and the node. `asserts` is a failed assertion or the use of a null pointer.
pub mod Transfer
pub mod Calls
pub mod Paired
pub mod Kept
pub mod Ends
pub mod Reach
pub mod Handshake
pub mod Conversation
mod Tests
use ns_3_dce.Prelude.{
  ℕ, zero, suc, ◌+◌, ◌-◌, Bool, true, false, not, ◌&&◌, ◌||◌, Option, none, some, List, [], ◌∷◌,
  ◌++◌, ltb, ◌==◌, if◌then◌else◌, length, drop, update, remove,
}
use ns_3_dce.WaitQueue.{
  Entry, Awoken, ok, interrupted, timeout, pollin, pollout, pollhup, read_entry, write_entry,
  wake_waiters, wake_either, remove_waiter,
}
use ns_3_dce.LocalSocket.{
  ReadBuffer, empty_buffer, max_buffer, do_recv_packet, received, is_shut, no_memory, read_data,
}

pub data State : Type 0 where
  created binded listening accepting connecting connected remote_closed closed : State

pub record Socket : Type 0 where
  pub state : State
  pub peer : Option ℕ
  pub queue : List ℕ
  pub buffer : ReadBuffer
  pub shut_read : Bool
  pub shut_write : Bool
  pub non_block : Bool
  pub has_factory : Bool
  pub bind_path : ℕ
  pub connect_path : ℕ
  pub waiters : List Entry

-- The sockets, and `m_bindByPath` with whether a socket is a stream.
pub record Node : Type 0 where
  pub sockets : ℕ → Socket
  pub binders : ℕ → Option (ℕ × Bool)

pub data Errno : Type 0 where
  eagain eintr epipe enotconn einval enoent enomem emfile unset : Errno

-- How a pass of a call ends: with a count, and the bytes copied to the caller; with -1; or in `Wait`,
-- with what was transferred and what is still to be.
pub data Pass : Type 0 where
  returns : ℕ → List ℕ → Pass
  fails : Errno → Pass
  waits : List ℕ → List ℕ → Pass
  waits_to_read : List ℕ → ℕ → Pass
  asserts : Pass

abbrev pub Outcome : Type 0
Outcome = Pass × List ℕ × Node

-- Whether a call ends by a failed assertion.
unfoldable pub fails_assert : Pass → Bool
fails_assert asserts = true
fails_assert _ = false

pub is_connected : State → Bool
is_connected connected = true
is_connected _ = false

pub is_remote_closed : State → Bool
is_remote_closed remote_closed = true
is_remote_closed _ = false

pub is_closed : State → Bool
is_closed closed = true
is_closed _ = false

pub is_accepting : State → Bool
is_accepting accepting = true
is_accepting _ = false

pub is_listening : State → Bool
is_listening listening = true
is_listening _ = false

pub is_connecting : State → Bool
is_connecting connecting = true
is_connecting _ = false

abbrev pub put : ℕ → Socket → Node → Node
put a s n = record n { sockets = update n.sockets a s }

-- `new LocalStreamSocketFd (factory)` and `new LocalStreamSocketFd (peer, path)`.
pub new_socket : Socket
new_socket = record {
  state = created;
  peer = none;
  queue = [];
  buffer = empty_buffer;
  shut_read = false;
  shut_write = false;
  non_block = false;
  has_factory = true;
  bind_path = 0;
  connect_path = 0;
  waiters = [];
}

unfoldable pub accepted_socket : ℕ → ℕ → Socket
unfolding new_socket
accepted_socket peer path = record new_socket {
  state = connected;
  peer = some peer;
  has_factory = false;
  bind_path = path;
}

-- `UnRegisterBinder`.
pub unregister_binder : ℕ → Node → Node
unregister_binder path n = record n { binders = update n.binders path none }

pub register_binder : ℕ → ℕ → Node → Node
register_binder path a n = record n { binders = update n.binders path (some (a, true)) }

-- `FindBinder` of a stream.
pub find_binder : ℕ → Node → Option ℕ
find_binder path n = elim (n.binders path) [
  | none ↦ none
  | some (a, is_stream) ↦ if is_stream then some a else none
]

-- `ClearAll`, but for the wake-up.
unfoldable pub clear_all : Socket → Socket
clear_all s = record s {
  state = closed;
  peer = none;
  has_factory = false;
  bind_path = 0;
  connect_path = 0;
  queue = [];
  buffer = empty_buffer;
}

-- `PeerClosed`, with the threads that it wakes up.
unfoldable pub peer_closed : Socket → List ℕ × Socket
unfolding is_connected
peer_closed s =
    if is_connected s.state
    then (wake_waiters pollhup s.waiters, record s { peer = none; state = remote_closed })
    else ([], record s { peer = none })

-- `Close`.
unfoldable pub close : ℕ → Node → Outcome
close a n =
    let s = n.sockets a in
    let cleared = put a (clear_all s) n in
    let unbound = unregister_binder s.bind_path cleared in
    let woken = wake_waiters pollhup s.waiters in
    elim s.state [
      | created ↦ (returns 0 [], [], cleared)
      | binded ↦ if s.has_factory then (returns 0 [], [], unbound) else (asserts, [], n)
      | listening ↦ if s.has_factory then (returns 0 [], [], unbound) else (asserts, [], n)
      | accepting ↦ if s.has_factory then (returns 0 [], woken, unbound) else (asserts, [], n)
      | connecting ↦ (returns 0 [], woken, cleared)
      | connected ↦ elim s.peer [
        | none ↦ (asserts, [], n)
        | some b ↦
            let (hup, t) = peer_closed (n.sockets b) in
            (returns 0 [], hup ++ woken, put a (clear_all s) (put b t n))
      ]
      | remote_closed ↦ (returns 0 [], [], cleared)
      | closed ↦ (returns 0 [], [], n)
    ]

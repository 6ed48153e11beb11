-- ===== src/LocalSocket.antt =====
-- model/local-socket-fd.cc: the read buffer that stream and datagram sockets of the same node share.
--
-- `m_readBuffer` is a list of blocks, each with the offset up to which it was read; a block's size is
-- the length of its bytes. `malloc` is a parameter that says whether memory is given.
pub mod Bytes
pub mod Rest
pub mod Stuck
mod Tests
use ns_3_dce.Prelude.{
  ℕ, zero, suc, ◌+◌, ◌-◌, Bool, true, false, not, ◌||◌, List, [], ◌∷◌, ◌++◌, ltb, leb,
  if◌then◌else◌, min, length, take, drop, slice,
}
use ns_3_dce.WaitQueue.{Entry, pollin, wake_waiters}

-- `struct Buffer`.
pub record Block : Type 0 where
  pub bytes : List ℕ
  pub read_offset : ℕ

pub record ReadBuffer : Type 0 where
  pub blocks : List Block
  pub total : ℕ

-- LOCAL_SOCKET_MAX_BUFFER.
abbrev pub max_buffer : ℕ
max_buffer = 131072

unfoldable pub empty_buffer : ReadBuffer
empty_buffer = record { blocks = []; total = 0 }

-- The result of `DoRecvPacket`: a count, -2 or -1.
pub data Received : Type 0 where
  received : ℕ → Received
  is_shut no_memory : Received

-- `DoRecvPacket`, with the threads that it wakes up.
unfoldable pub do_recv_packet :
    (ℕ → Bool) → Bool → Bool → List Entry → List ℕ → ReadBuffer → Received × List ℕ × ReadBuffer
do_recv_packet malloc shut_read closed waiters bytes b =
    let l = min (max_buffer - b.total) (length bytes) in
    if shut_read || closed
    then (is_shut, [], b)
    else if leb max_buffer b.total
    then (received 0, [], b)
    else if not (malloc l)
    then (no_memory, [], b)
    else (
      received l,
      wake_waiters pollin waiters,
      record {
        blocks = b.blocks ++ record { bytes = take l bytes; read_offset = 0 } ∷ [];
        total = b.total + l;
      },
    )

-- What of a block was not read.
abbrev pub left_of : Block → ℕ
left_of k = length k.bytes - k.read_offset

-- The loop of `ReadData` that takes the bytes: what is copied, and the blocks.
unfoldable pub take_blocks : List Block → ℕ → List ℕ × List Block
take_blocks [] len = ([], [])
take_blocks (k ∷ ks) len =
    let avail = min len (left_of k) in
    let (more, rest) = take_blocks ks (len - avail) in
    if not (ltb 0 len)
    then ([], k ∷ ks)
    else if not (ltb 0 avail)
    then ([], k ∷ ks)
    else if leb (length k.bytes) (k.read_offset + avail)
    then (slice k.bytes k.read_offset avail ++ more, rest)
    else (slice k.bytes k.read_offset avail, record k { read_offset = k.read_offset + avail } ∷ ks)

-- The loop that leaves them.
unfoldable pub peek_blocks : List Block → ℕ → List ℕ
peek_blocks [] len = []
peek_blocks (k ∷ ks) len =
    let avail = min len (left_of k) in
    let more = peek_blocks ks (len - avail) in
    if not (ltb 0 len)
    then []
    else if ltb 0 avail
    then slice k.bytes k.read_offset avail ++ more
    else more

-- `ReadData`.
unfoldable pub read_data : Bool → ReadBuffer → ℕ → List ℕ × ReadBuffer
read_data peek b len =
    let (bytes, rest) = take_blocks b.blocks len in
    if peek
    then (peek_blocks b.blocks len, b)
    else (bytes, record { blocks = rest; total = b.total - length bytes })

-- The options of a socket: `setsockopt` on the level of sockets, by the name of the option.
pub data OptionName : Type 0 where
  linger passcred buffer_size low_water receive_timeout send_timeout unknown : OptionName

-- What the socket keeps of them.
pub record Settings : Type 0 where
  pub linger_time : ℕ
  pub recv_timeout : ℕ
  pub send_timeout : ℕ

-- The argument: whether it is there and long enough; its first word, which only the linger option
-- tests, and its value.
pub record Argument : Type 0 where
  pub is_present : Bool
  pub on : Bool
  pub value : ℕ

-- `Setsockopt`: whether it returns 0, or else -1 with `EINVAL`.
unfoldable pub setsockopt : Bool → OptionName → Argument → Settings → Bool × Settings
setsockopt false name a s = (false, s)
setsockopt true linger a s =
    if a.is_present
    then (false, record s { linger_time = if a.on then a.value else 0 })
    else (false, s)
setsockopt true passcred a s = (false, s)
setsockopt true buffer_size a s = (true, s)
setsockopt true low_water a s = (true, s)
setsockopt true receive_timeout a s =
    if a.is_present then (true, record s { recv_timeout = a.value }) else (false, s)
setsockopt true send_timeout a s =
    if a.is_present then (true, record s { send_timeout = a.value }) else (false, s)
setsockopt true unknown a s = (false, s)

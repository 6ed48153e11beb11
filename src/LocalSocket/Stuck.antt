-- ===== src/LocalSocket/Stuck.antt =====
-- A packet of no bytes in the read buffer of model/local-socket-fd.cc.
use ns_3_dce.Prelude.{
  ℕ, ◌≡◌, Bool, true, false, List, [], ◌∷◌, ◌++◌, ◌-◌, min, length, arith, refl, ap, inl, inr,
  Bool-cases, leb,
}
use ns_3_dce.WaitQueue.{Entry}
use ns_3_dce.LocalSocket.{
  Block, ReadBuffer, empty_buffer, max_buffer, do_recv_packet, take_blocks, read_data,
}

-- The buffer after packets that are received one after the other.
unfoldable pub receive_all : (ℕ → Bool) → List Entry → List (List ℕ) → ReadBuffer → ReadBuffer
receive_all malloc waiters [] b = b
receive_all malloc waiters (p ∷ ps) b =
    receive_all malloc waiters ps (do_recv_packet malloc false false waiters p b).2

-- The first block holds no bytes.
abbrev StartsEmpty : List Block → Type 0
StartsEmpty [] = ⊥
StartsEmpty (k ∷ ks) = (k.bytes ≡ [])

append-StartsEmpty : (ks : List Block) (k : Block) → StartsEmpty ks → StartsEmpty (ks ++ k ∷ [])
append-StartsEmpty [] k h = elim h [ ]
append-StartsEmpty (x ∷ ks) k h = h

recv-StartsEmpty :
    (malloc : ℕ → Bool) (waiters : List Entry) (bytes : List ℕ) (b : ReadBuffer)
    → StartsEmpty b.blocks
    → StartsEmpty (do_recv_packet malloc false false waiters bytes b).2.blocks
unfolding do_recv_packet
recv-StartsEmpty malloc waiters bytes b h = elim (Bool-cases (leb max_buffer b.total)) [
  | inl f ↦ rw f h
  | inr f ↦ elim (Bool-cases (malloc (min (max_buffer - b.total) (length bytes)))) [
    | inl m ↦ rw f (rw m (append-StartsEmpty b.blocks _ h))
    | inr m ↦ rw f (rw m h)
  ]
]

all-StartsEmpty :
    (malloc : ℕ → Bool) (waiters : List Entry) (ps : List (List ℕ)) (b : ReadBuffer)
    → StartsEmpty b.blocks
    → StartsEmpty (receive_all malloc waiters ps b).blocks
unfolding receive_all
all-StartsEmpty malloc waiters [] b h = h
all-StartsEmpty malloc waiters (p ∷ ps) b h =
    all-StartsEmpty malloc waiters ps (do_recv_packet malloc false false waiters p b).2
      (recv-StartsEmpty malloc waiters p b h)

take-StartsEmpty : (ks : List Block) (len : ℕ) → StartsEmpty ks → take_blocks ks len ≡ ([], ks)
unfolding take_blocks
take-StartsEmpty [] len h = elim h [ ]
take-StartsEmpty (k ∷ ks) len h =
    let none_left : length k.bytes ≡ 0 = ap length h in ground (arith, none_left)

-- Once a packet of no bytes was received by an open socket with nothing to read, when memory is given,
-- a `ReadData` that is not a peek gives nothing, whatever packets are received after it.
pub empty_packet_blocks :
    (malloc : ℕ → Bool) (waiters : List Entry) (ps : List (List ℕ)) (len : ℕ)
    → malloc 0 ≡ true
    → let b = receive_all malloc waiters ([] ∷ ps) empty_buffer in (read_data false b len).0 ≡ []
unfolding read_data receive_all do_recv_packet empty_buffer
empty_packet_blocks malloc waiters ps len m =
    let b : ReadBuffer =
      receive_all malloc waiters ps (do_recv_packet malloc false false waiters [] empty_buffer).2 in
    let s : StartsEmpty b.blocks =
      all-StartsEmpty malloc waiters ps
        (do_recv_packet malloc false false waiters [] empty_buffer).2 (rw m refl) in
    ap (λ r. r.0) (take-StartsEmpty b.blocks len s)

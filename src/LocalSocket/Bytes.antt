-- ===== src/LocalSocket/Bytes.antt =====
-- `LocalSocketFd::DoRecvPacket` and `ReadData` of model/local-socket-fd.cc.
use ns_3_dce.Prelude.{
  ℕ, zero, suc, ◌+◌, ◌-◌, ◌≤◌, ◌<◌, ◌≡◌, Bool, true, false, List, [], ◌∷◌, ◌++◌, ltb, arith, min,
  length, take, drop, slice, refl, sym, ap, inl, inr, ◌∙◌, Bool-cases, length-append, length-take,
  length-drop, take-append_le, take-append_add, take_all, drop-append_le, append-nil, append_assoc,
  drop-drop, take-nil, drop-nil, subst, ap₂,
}
use ns_3_dce.WaitQueue.{Entry, pollin, wake_waiters}
use ns_3_dce.LocalSocket.{
  Block, ReadBuffer, empty_buffer, max_buffer, Received, received, do_recv_packet, left_of,
  take_blocks, peek_blocks, read_data,
}

-- The bytes that wait, oldest first.
unfoldable pub bytes_of : List Block → List ℕ
bytes_of [] = []
bytes_of (k ∷ ks) = drop k.read_offset k.bytes ++ bytes_of ks

-- No block was read to its end, or is empty.
abbrev pub AllLeft : List Block → Type 0
AllLeft [] = Unit
AllLeft (k ∷ ks) = (k.read_offset < length k.bytes) × AllLeft ks

pub record IsValid (b : ReadBuffer) : Type 0 where
  pub some_left : AllLeft b.blocks
  pub total_fits : b.total ≡ length (bytes_of b.blocks)
  pub total_le : b.total ≤ max_buffer

append-AllLeft :
    (ks : List Block) (k : Block)
    → AllLeft ks
    → k.read_offset < length k.bytes
    → AllLeft (ks ++ k ∷ [])
append-AllLeft [] k v h = (h, tt)
append-AllLeft (x ∷ ks) k v h = (v.0, append-AllLeft ks k v.1 h)

bytes_of-append :
    (ks : List Block) (k : Block)
    → bytes_of (ks ++ k ∷ []) ≡ bytes_of ks ++ drop k.read_offset k.bytes
unfolding bytes_of
bytes_of-append [] k = append-nil (drop k.read_offset k.bytes)
bytes_of-append (x ∷ ks) k =
    ap (λ l. drop x.read_offset x.bytes ++ l) (bytes_of-append ks k)
    ∙ sym (append_assoc (drop x.read_offset x.bytes) (bytes_of ks) (drop k.read_offset k.bytes))

-- The two parts of a list at a length beyond its first part, or within it.
take_past :
    {A : Type 0}
    → (n : ℕ) (xs ys : List A) → length xs ≤ n
    → take n (xs ++ ys) ≡ xs ++ take (n - length xs) ys
take_past n xs ys h =
    let e : length xs + (n - length xs) ≡ n = omega arith in
    ap (λ m. take m (xs ++ ys)) (sym e) ∙ take-append_add (n - length xs) xs ys

drop_past :
    {A : Type 0}
    → (n : ℕ) (xs ys : List A) → length xs ≤ n
    → drop n (xs ++ ys) ≡ drop (n - length xs) ys
drop_past n [] ys h = let e : n - 0 ≡ n = omega arith in ap (λ m. drop m ys) (sym e)
drop_past zero (x ∷ xs) ys h = absurd (omega (arith, h))
drop_past (suc n) (x ∷ xs) ys h =
    let e : suc n - suc (length xs) ≡ n - length xs = omega arith in
    drop_past n xs ys (omega (arith, h)) ∙ ap (λ m. drop m ys) (sym e)

module _ (k : Block) (ks : List Block) (len : ℕ) where
  -- A pass of the loop: nothing is asked for; the block has more; the block is read to its end.
  pub take_nothing : len ≡ 0 → take_blocks (k ∷ ks) len ≡ ([], k ∷ ks)
  unfolding take_blocks
  take_nothing z = ground arith

  pub take_within :
      0 < len
      → len < left_of k
      → take_blocks (k ∷ ks) len
        ≡ (slice k.bytes k.read_offset len, record k { read_offset = k.read_offset + len } ∷ ks)
  unfolding take_blocks
  take_within p few = let e : min len (left_of k) ≡ len = omega arith in rw e (ground arith)

  pub take_to_end :
      0 < left_of k
      → left_of k ≤ len
      → take_blocks (k ∷ ks) len ≡ (
        slice k.bytes k.read_offset (left_of k) ++ (take_blocks ks (len - left_of k)).0,
        (take_blocks ks (len - left_of k)).1,
      )
  unfolding take_blocks
  take_to_end p all = let e : min len (left_of k) ≡ left_of k = omega arith in rw e (ground arith)

-- The blocks give the oldest bytes.
Taken : List Block → ℕ → List ℕ × List Block → Type 0
Taken ks len r =
    (r.0 ≡ take len (bytes_of ks)) × (bytes_of r.1 ≡ drop len (bytes_of ks)) × AllLeft r.1

take_blocks_lem : (ks : List Block) (len : ℕ) → AllLeft ks → Taken ks len (take_blocks ks len)
unfolding take_blocks bytes_of Taken
take_blocks_lem [] len v = (sym (take-nil len), sym (drop-nil len), tt)
take_blocks_lem (k ∷ ks) len v =
    let size : length (drop k.read_offset k.bytes) ≡ left_of k =
      length-drop k.read_offset k.bytes in
    let here : List ℕ = drop k.read_offset k.bytes in
    elim (Bool-cases (ltb 0 len)) [
      | inr z ↦
          let n : len ≡ 0 = ground (arith, z) in
          subst (Taken (k ∷ ks) len) (sym (take_nothing k ks len n)) (
            sym (ap (λ m. take m (bytes_of (k ∷ ks))) n),
            sym (ap (λ m. drop m (bytes_of (k ∷ ks))) n),
            v,
          )
      | inl p ↦ elim (Bool-cases (ltb len (left_of k))) [
        | inl few ↦
            subst (Taken (k ∷ ks) len)
              (sym (take_within k ks len (ground (arith, p)) (ground (arith, few))))
              (
                sym (take-append_le len here (bytes_of ks) (ground (arith, few, size))),
                sym (
                    drop-append_le len here (bytes_of ks) (ground (arith, few, size))
                    ∙ ap (λ l. l ++ bytes_of ks) (drop-drop k.read_offset len k.bytes)),
                (ground (arith, few), v.1),
              )
        | inr all ↦
            let (a, b, c) = take_blocks_lem ks (len - left_of k) v.1 in
            let past : length here ≤ len = ground (arith, all, size) in
            let whole : take (left_of k) here ≡ here =
              take_all (left_of k) here (omega (arith, size)) in
            subst (Taken (k ∷ ks) len)
              (sym (take_to_end k ks len (omega (arith, v.0)) (ground (arith, all))))
              (
                ap₂ (λ x y. x ++ y) whole (a ∙ ap (λ m. take (len - m) (bytes_of ks)) (sym size))
                    ∙ sym (take_past len here (bytes_of ks) past),
                b
                    ∙ ap (λ m. drop (len - m) (bytes_of ks)) (sym size)
                    ∙ sym (drop_past len here (bytes_of ks) past),
                c,
              )
      ]
    ]

peek_nothing : (ks : List Block) → peek_blocks ks 0 ≡ []
unfolding peek_blocks
peek_nothing [] = refl
peek_nothing (k ∷ ks) = refl

-- A pass of the loop of a peek, in the two cases in which it copies.
module _ (k : Block) (ks : List Block) (len : ℕ) where
  peek_within :
      0 < len → len < left_of k → peek_blocks (k ∷ ks) len ≡ slice k.bytes k.read_offset len
  unfolding peek_blocks
  peek_within p few =
      let e : min len (left_of k) ≡ len = omega arith in
      let z : len - len ≡ 0 = omega arith in
      rw e (rw z (ground (arith, peek_nothing ks, append-nil (slice k.bytes k.read_offset len))))

  peek_to_end :
      0 < left_of k
      → left_of k ≤ len
      → peek_blocks (k ∷ ks) len
        ≡ slice k.bytes k.read_offset (left_of k) ++ peek_blocks ks (len - left_of k)
  unfolding peek_blocks
  peek_to_end p all = let e : min len (left_of k) ≡ left_of k = omega arith in rw e (ground arith)

-- A peek copies the bytes that a read takes.
peek_blocks_lem :
    (ks : List Block) (len : ℕ) → AllLeft ks → peek_blocks ks len ≡ (take_blocks ks len).0
unfolding peek_blocks take_blocks
peek_blocks_lem [] len v = refl
peek_blocks_lem (k ∷ ks) len v = elim (Bool-cases (ltb 0 len)) [
  | inr z ↦
      let n : len ≡ 0 = ground (arith, z) in
      ap (peek_blocks (k ∷ ks)) n
      ∙ peek_nothing (k ∷ ks)
      ∙ ap (λ r. r.0) (sym (take_nothing k ks len n))
  | inl p ↦ elim (Bool-cases (ltb len (left_of k))) [
    | inl few ↦
        peek_within k ks len (ground (arith, p)) (ground (arith, few))
        ∙ ap (λ r. r.0) (sym (take_within k ks len (ground (arith, p)) (ground (arith, few))))
    | inr all ↦
        peek_to_end k ks len (omega (arith, v.0)) (ground (arith, all))
        ∙ ap (λ l. slice k.bytes k.read_offset (left_of k) ++ l)
            (peek_blocks_lem ks (len - left_of k) v.1)
        ∙ ap (λ r. r.0) (sym (take_to_end k ks len (omega (arith, v.0)) (ground (arith, all))))
  ]
]

-- On a valid buffer `ReadData` gives the oldest bytes that wait, as many as asked for: with `peek` it
-- leaves the buffer as it is; without, it leaves the bytes that it did not give, in order, and the
-- buffer stays valid.
pub read_data_lem :
    (b : ReadBuffer) (len : ℕ)
    → IsValid b
    → let (copied, b') = read_data true b len in
      let (bytes, b'') = read_data false b len in
      (copied ≡ bytes)
      × (b' ≡ b)
      × (bytes ≡ take len (bytes_of b.blocks))
      × (bytes_of b''.blocks ≡ drop len (bytes_of b.blocks))
      × IsValid b''
unfolding read_data Taken
read_data_lem b len v =
    let (x, y, z) = take_blocks_lem b.blocks len v.some_left in
    (
      peek_blocks_lem b.blocks len v.some_left,
      refl,
      x,
      y,
      record {
        some_left = z;
        total_fits = omega (
          arith,
          v.total_fits,
          ap length x,
          ap length y,
          length-take len (bytes_of b.blocks),
          length-drop len (bytes_of b.blocks),
        );
        total_le = omega (arith, v.total_le);
      },
    )

-- What a client may say of `DoRecvPacket` when it takes the first `l` of the bytes.
pub record DidReceive (waiters : List Entry) (bytes : List ℕ) (b : ReadBuffer) (l : ℕ)
    (o : Received × List ℕ × ReadBuffer) : Type 0 where
  pub count : o.0 ≡ received l
  pub woken : o.1 ≡ wake_waiters pollin waiters
  pub behind : bytes_of o.2.blocks ≡ bytes_of b.blocks ++ take l bytes
  pub more : o.2.total ≡ b.total + l
  pub valid : IsValid o.2

-- `DoRecvPacket` of at least one byte into a valid buffer of an open socket with room, when memory is
-- given, takes as many of the bytes from the first on as there is room for, at least one: it puts them
-- behind those that wait, wakes up all that wait for input, and the buffer stays valid.
pub do_recv_packet_lem :
    (malloc : ℕ → Bool) (waiters : List Entry) (bytes : List ℕ) (b : ReadBuffer)
    → IsValid b
    → 0 < length bytes
    → b.total < max_buffer
    → malloc (min (max_buffer - b.total) (length bytes)) ≡ true
    → let l = min (max_buffer - b.total) (length bytes) in
      (0 < l) × DidReceive waiters bytes b l (do_recv_packet malloc false false waiters bytes b)
unfolding do_recv_packet
do_recv_packet_lem malloc waiters bytes b v p q m =
    let l : ℕ = min (max_buffer - b.total) (length bytes) in
    let k : Block = record { bytes = take l bytes; read_offset = 0 } in
    let after : ReadBuffer = record { blocks = b.blocks ++ k ∷ []; total = b.total + l } in
    let e : do_recv_packet malloc false false waiters bytes b
        ≡ (received l, wake_waiters pollin waiters, after) =
      ground (arith, m, q) in
    let size : length (take l bytes) ≡ l = length-take l bytes ∙ omega arith in
    let behind = bytes_of-append b.blocks k in
    (
      omega arith,
      subst (DidReceive waiters bytes b l) (sym e) (record {
        count = refl;
        woken = refl;
        behind = behind;
        more = refl;
        valid = record {
          some_left = append-AllLeft b.blocks k v.some_left (omega (arith, size));
          total_fits = omega (
            arith,
            v.total_fits,
            size,
            ap length behind,
            length-append (bytes_of b.blocks) (take l bytes),
          );
          total_le = omega arith;
        };
      }),
    )

pub empty-IsValid : IsValid empty_buffer
unfolding empty_buffer bytes_of
empty-IsValid = record { some_left = tt; total_fits = refl; total_le = omega arith }

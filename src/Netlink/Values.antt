-- ===== src/Netlink/Values.antt =====
-- Attributes of netlink/netlink-attribute.cc are read back as they were written.
use ns_3_dce.Prelude.{
  ℕ, zero, suc, ◌+◌, ◌-◌, ◌%◌, ◌^◌, ◌<◌, ◌≤◌, ◌≡◌, Option, none, some, List, [], ◌∷◌, ◌++◌, length,
  refl, arith,
}
use ns_3_dce.Netlink.{
  from_table, Wire, get_u8, skip, align, Kind, Value, no_value, of_u8, of_u16, of_u32, of_u64,
  of_string, of_address, kind_of, value_size, get_string, Attribute, new_attribute, value_bytes,
  put_value, get_payload, get_value, put_attribute, get_attribute,
}
use ns_3_dce.Netlink.Reading.{
  Reads, IsFaithful, sequence_back, nothing_back, final_back, u8_back, table_back, skip_back,
}

-- No character of a string is 0.
abbrev pub AllSet : List ℕ → Type 0
AllSet [] = Unit
AllSet (x ∷ s) = (0 < x) × AllSet s

-- A value within its width; a string fits the buffer with which it is read. There is none of 64 bits.
abbrev pub IsSound : Value → Type 0
IsSound no_value = Unit
IsSound (of_u8 n) = Unit
IsSound (of_u16 n) = n < 2 ^ 16
IsSound (of_u32 n) = n < 2 ^ 32
IsSound (of_u64 n) = ⊥
IsSound (of_string s) = AllSet s × (length s < 512)
IsSound (of_address a) = length a < 2 ^ 8

string_back :
    (room : ℕ) (s : List ℕ) (rest : List ℕ)
    → AllSet s
    → length s < room
    → get_string room ((s ++ 0 ∷ []) ++ rest) ≡ some (s, rest)
unfolding get_string
string_back zero s rest v h = absurd (omega (arith, h))
string_back (suc room) [] rest v h = refl
string_back (suc room) (x ∷ s) rest v h =
    rw (string_back room s rest v.1 (omega (arith, h))) (ground (arith, v.0))

module _ (w : Wire) (laws : IsFaithful w) where
  payload_back :
      (v : Value) (len : ℕ)
      → IsSound v
      → (len ≡ value_size v)
      → Reads Value (get_payload w (kind_of v) len) (value_bytes w v) v
  unfolding get_payload value_bytes kind_of value_size
  payload_back no_value len s e = nothing_back no_value
  payload_back (of_u8 n) len s e = final_back get_u8 of_u8 (n ∷ []) n (u8_back n)
  payload_back (of_u16 n) len s e = final_back w.get_u16 of_u16 (w.put_u16 n) n (laws.u16_back n s)
  payload_back (of_u32 n) len s e = final_back w.get_u32 of_u32 (w.put_u32 n) n (laws.u32_back n s)
  payload_back (of_u64 n) len s e = absurd s
  payload_back (of_string b) len s e =
      final_back (get_string 512) of_string (b ++ 0 ∷ []) b
        (record { reading = λ rest. string_back 512 b rest s.0 s.1 })
  payload_back (of_address a) len s e =
      final_back (w.get_address len) of_address (w.put_address a) a (rw e (laws.address_back a))

  value_back :
      (v : Value) (len : ℕ)
      → IsSound v
      → len ≡ value_size v
      → Reads Value (get_value w (kind_of v) len) (put_value w v) v
  unfolding get_value put_value
  value_back v len s e =
      sequence_back (get_payload w (kind_of v) len) _ (value_bytes w v) _ v v
        (payload_back v len s e)
        (final_back (skip (align (value_size v) - value_size v)) (λ u. v) _ tt
          (skip_back (align (value_size v) - value_size v)))

-- The attribute is within its widths, its length is that of its payload, and its type stands for the
-- kind of it.
pub record IsWell (kinds : ℕ → Option Kind) (a : Attribute) : Type 0 where
  pub sound : IsSound a.payload
  pub len_fits : a.attr_len ≡ 4 + value_size a.payload
  pub type_fits : a.attr_type < 2 ^ 16
  pub kind_fits : kinds a.attr_type ≡ some (kind_of a.payload)

pub value_size_lt : (v : Value) → IsSound v → value_size v ≤ 512
unfolding value_size
value_size_lt no_value s = omega arith
value_size_lt (of_u8 n) s = omega arith
value_size_lt (of_u16 n) s = omega arith
value_size_lt (of_u32 n) s = omega arith
value_size_lt (of_u64 n) s = absurd s
value_size_lt (of_string b) s = omega (arith, s.1)
value_size_lt (of_address a) s = omega (arith, s)

pub attribute_back :
    (w : Wire) (kinds : ℕ → Option Kind) (a : Attribute)
    → IsFaithful w
    → IsWell kinds a
    → Reads Attribute (get_attribute w kinds) (put_attribute w a) a
unfolding get_attribute put_attribute
attribute_back w kinds a laws v =
    let small = value_size_lt a.payload v.sound in
    let left : (a.attr_len + 2 ^ 16 - 4) % 2 ^ 16 ≡ value_size a.payload =
      omega (arith, v.len_fits, small) in
    sequence_back w.get_u16 _ (w.put_u16 a.attr_len) _ a.attr_len a
      (laws.u16_back a.attr_len (omega (arith, v.len_fits, small)))
      (sequence_back w.get_u16 _ (w.put_u16 a.attr_type) _ a.attr_type a
        (laws.u16_back a.attr_type v.type_fits)
        (sequence_back (from_table (kinds a.attr_type)) _ [] _ (kind_of a.payload) a
          (table_back (kinds a.attr_type) (kind_of a.payload) v.kind_fits)
          (final_back _
            (λ x. record { attr_len = a.attr_len; attr_type = a.attr_type; payload = x })
            (put_value w a.payload) a.payload (value_back w laws a.payload _ v.sound left))))

-- An attribute that is made for a value within its width, of the kind that the table has for its type,
-- is read back, whatever follows, as it was written, and no further.
pub attribute_round_trip :
    (w : Wire) (kinds : ℕ → Option Kind) (type : ℕ) (v : Value) (rest : List ℕ)
    → IsFaithful w
    → IsSound v
    → type < 2 ^ 16
    → kinds type ≡ some (kind_of v)
    → get_attribute w kinds (put_attribute w (new_attribute type v) ++ rest)
      ≡ some (new_attribute type v, rest)
unfolding new_attribute
attribute_round_trip w kinds type v rest laws s t k =
    (attribute_back w kinds (new_attribute type v) laws (record {
      sound = s;
      len_fits = omega (arith, value_size_lt v s);
      type_fits = t;
      kind_fits = k;
    })).reading
      rest

-- A string of 512 characters or more, none of them 0, is not read back: the reader writes past its buffer.
pub long_string :
    (room : ℕ) (s rest : List ℕ) → AllSet s → room ≤ length s → get_string room (s ++ rest) ≡ none
unfolding get_string
long_string zero s rest v h = refl
long_string (suc room) [] rest v h = absurd (omega (arith, h))
long_string (suc room) (x ∷ s) rest v h =
    rw (long_string room s rest v.1 (omega (arith, h))) (ground (arith, v.0))

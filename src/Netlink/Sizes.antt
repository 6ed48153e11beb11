-- ===== src/Netlink/Sizes.antt =====
-- `Serialize` of netlink/netlink-message.cc writes as many bytes as `GetSerializedSize` says.
use ns_3_dce.Prelude.{
  ℕ, ◌+◌, ◌-◌, ◌≡◌, Option, List, [], ◌∷◌, ◌++◌, length, length-append, length-replicate, refl,
  arith, replicate,
}
use ns_3_dce.Netlink.{
  Wire, align, Kind, Value, no_value, of_u8, of_u16, of_u32, of_u64, of_string, of_address,
  value_size, value_bytes, put_value, Attribute, attribute_size, put_attribute,
}
use ns_3_dce.Netlink.Reading.{IsFaithful}
use ns_3_dce.Netlink.Values.{IsSound, value_size_lt}
use ns_3_dce.Netlink.Message.{
  interface_kinds, address_kinds, route_kinds, attributes_size, Header, Message, Part, no_part,
  error_part, general_part, route_part, address_part, interface_part, part_size,
}
use ns_3_dce.Netlink.Bodies.{
  put_attributes, put_header, put_error, put_general, put_interface, put_interface_address,
  put_route, put_part, put_message,
}
use ns_3_dce.Netlink.RoundTrip.{AllWell}
use ns_3_dce.Netlink.RoundTrip.Messages.{IsPart, IsMessage, part, part_aligned}

module _ (w : Wire) (laws : IsFaithful w) where
  length-value_bytes : (v : Value) → IsSound v → length (value_bytes w v) ≡ value_size v
  unfolding value_bytes value_size
  length-value_bytes no_value s = refl
  length-value_bytes (of_u8 n) s = refl
  length-value_bytes (of_u16 n) s = laws.u16_size n
  length-value_bytes (of_u32 n) s = laws.u32_size n
  length-value_bytes (of_u64 n) s = absurd s
  length-value_bytes (of_string b) s = omega (arith, length-append b (0 ∷ []), s.1)
  length-value_bytes (of_address a) s = laws.address_size a

  length-put_attribute :
      (a : Attribute) → IsSound a.payload → length (put_attribute w a) ≡ attribute_size a
  unfolding put_attribute put_value
  length-put_attribute a s =
      let n = align (value_size a.payload) - value_size a.payload in
      omega (
        arith,
        value_size_lt a.payload s,
        length-value_bytes a.payload s,
        length-append (value_bytes w a.payload) (replicate n 0),
        length-replicate {A = ℕ} n 0,
        length-append (w.put_u16 a.attr_type) (put_value w a.payload),
        length-append (w.put_u16 a.attr_len) (w.put_u16 a.attr_type ++ put_value w a.payload),
        laws.u16_size a.attr_type,
        laws.u16_size a.attr_len,
      )

  length-put_attributes :
      (kinds : ℕ → Option Kind) (l : List Attribute)
      → AllWell kinds l
      → length (put_attributes w l) ≡ attributes_size l
  unfolding put_attributes attributes_size
  length-put_attributes kinds [] v = refl
  length-put_attributes kinds (a ∷ more) v = omega (
    arith,
    length-append (put_attribute w a) (put_attributes w more),
    length-put_attribute a v.0.sound,
    length-put_attributes kinds more v.1,
  )

  after_u32 : (n : ℕ) (l : List ℕ) → length (w.put_u32 n ++ l) ≡ 4 + length l
  after_u32 n l = omega (arith, length-append (w.put_u32 n) l, laws.u32_size n)

  after_u16 : (n : ℕ) (l : List ℕ) → length (w.put_u16 n ++ l) ≡ 2 + length l
  after_u16 n l = omega (arith, length-append (w.put_u16 n) l, laws.u16_size n)

  length-put_header : (h : Header) → length (put_header w h) ≡ 16
  unfolding put_header
  length-put_header h = simp (after_u32, after_u16, laws.u32_size) refl

  length-put_part : (p : Part) (m : Message) → IsPart p m → length (put_part w p m) ≡ part_size p m
  unfolding put_part part_size IsPart put_error put_general put_route put_interface
      put_interface_address
  length-put_part no_part m h = refl
  length-put_part error_part m h = omega (
    arith,
    after_u32 m.error_message.error (put_header w m.error_message.failed),
    length-put_header m.error_message.failed,
  )
  length-put_part general_part m h = refl
  length-put_part route_part m h = omega (
    arith,
    after_u32 m.route.flags (put_attributes w m.route.attributes),
    length-put_attributes route_kinds m.route.attributes h.all_well,
  )
  length-put_part address_part m h =
      let v = m.address_message in
      omega (
        arith,
        after_u32 v.index (put_attributes w v.attributes),
        length-put_attributes address_kinds v.attributes h.all_well,
      )
  length-put_part interface_part m h =
      let v = m.interface in
      simp (after_u32, after_u16)
        (omega (arith, length-put_attributes interface_kinds v.attributes h.all_well))

-- A message within its widths, with the length of its selected part in its header, takes as many bytes
-- as `GetSerializedSize` says, and as its header says, which is a multiple of 4.
pub message_takes_its_size :
    (w : Wire) (m : Message)
    → IsFaithful w
    → IsMessage m
    → (length (put_message w m) ≡ align m.header.msg_len)
      × (align m.header.msg_len ≡ m.header.msg_len)
unfolding put_message
message_takes_its_size w m laws h =
    let same : align m.header.msg_len ≡ m.header.msg_len =
      omega (arith, h.len_fits, h.small, part_aligned (part m) m) in
    (
      omega (
        arith,
        same,
        h.len_fits,
        length-append (put_header w m.header) (put_part w (part m) m),
        length-put_header w laws m.header,
        length-put_part w laws (part m) m h.part_fits,
      ),
      same,
    )

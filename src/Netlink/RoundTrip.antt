-- ===== src/Netlink/RoundTrip.antt =====
-- Netlink messages of netlink/netlink-message.cc are read back as they were written.
pub mod Messages
use ns_3_dce.Prelude.{
  ℕ, zero, suc, ◌+◌, ◌-◌, ◌*◌, ◌/◌, ◌%◌, ◌^◌, ◌<◌, ◌≤◌, ◌≡◌, Bool, true, false, Option, none, some,
  List, [], ◌∷◌, ◌++◌, ◌==◌, if◌then◌else◌, refl, sym, ap, ◌∙◌, subst, arith,
}
use ns_3_dce.Netlink.{
  Reader, then_read, gives, Wire, get_u8, skip, align, Kind, Attribute, attribute_size,
  put_attribute, get_attribute, value_size,
}
use ns_3_dce.Netlink.Reading.{
  Reads, IsFaithful, sequence_back, nothing_back, final_back, u8_back, skip_back,
}
use ns_3_dce.Netlink.Values.{IsWell, attribute_back}
use ns_3_dce.Netlink.Message.{
  interface_kinds, address_kinds, route_kinds, attributes_size, Header, ErrorMessage, InterfaceInfo,
  InterfaceAddress, Route,
}
use ns_3_dce.Netlink.Bodies.{
  put_attributes, get_attributes, put_header, get_header, put_error, get_error, put_general,
  get_general, put_interface, get_interface, put_interface_address, get_interface_address,
  put_route, get_route,
}

abbrev pub AllWell : (ℕ → Option Kind) → List Attribute → Type 0
AllWell kinds [] = Unit
AllWell kinds (a ∷ more) = IsWell kinds a × AllWell kinds more

-- Attributes take multiples of 4 bytes.
pub attributes_size_aligned : (l : List Attribute) → attributes_size l % 4 ≡ 0
unfolding attributes_size
attributes_size_aligned [] = refl
attributes_size_aligned (a ∷ more) = omega (arith, attributes_size_aligned more)

-- The fields of a header are within their widths.
pub record IsHeader (h : Header) : Type 0 where
  pub len_fits : h.msg_len < 2 ^ 32
  pub type_fits : h.msg_type < 2 ^ 16
  pub flags_fit : h.msg_flags < 2 ^ 16
  pub seq_fits : h.msg_seq < 2 ^ 32
  pub pid_fits : h.msg_pid < 2 ^ 32

pub record IsInterface (v : InterfaceInfo) : Type 0 where
  pub type_fits : v.device_type < 2 ^ 16
  pub index_fits : v.interface_index < 2 ^ 32
  pub flags_fit : v.device_flags < 2 ^ 32
  pub mask_fits : v.change_mask < 2 ^ 32
  pub all_well : AllWell interface_kinds v.attributes

module _ (w : Wire) (laws : IsFaithful w) where
  pub attributes_back :
      (kinds : ℕ → Option Kind) (fuel len : ℕ) (l : List Attribute)
      → AllWell kinds l
      → len ≡ attributes_size l
      → len ≤ fuel
      → len < 2 ^ 32
      → Reads (List Attribute) (get_attributes w fuel kinds len) (put_attributes w l) l
  unfolding get_attributes put_attributes attributes_size
  attributes_back kinds zero len [] v e h k = rw e (nothing_back [])
  attributes_back kinds (suc fuel) len [] v e h k = rw e (nothing_back [])
  attributes_back kinds zero len (a ∷ more) v e h k = absurd (omega (arith, e, h))
  attributes_back kinds (suc fuel) len (a ∷ more) v e h k =
      let some_left : (len == 0) ≡ false = ground (arith, e) in
      let left : (len + 2 ^ 32 - attribute_size a) % 2 ^ 32 ≡ attributes_size more =
        omega (arith, e, k) in
      rw some_left (
        sequence_back (get_attribute w kinds) _ (put_attribute w a) (put_attributes w more) a
          (a ∷ more) (attribute_back w kinds a laws v.0)
          (final_back (get_attributes w fuel kinds _) (λ l. a ∷ l) (put_attributes w more) more
            (attributes_back kinds fuel _ more v.1 left (omega (arith, e, h, left))
              (omega (arith, left, e, k)))))

  pub header_back : (h : Header) → IsHeader h → Reads Header (get_header w) (put_header w h) h
  unfolding get_header put_header
  header_back h v =
      sequence_back w.get_u32 _ (w.put_u32 h.msg_len) _ h.msg_len h
        (laws.u32_back h.msg_len v.len_fits)
        (sequence_back w.get_u16 _ (w.put_u16 h.msg_type) _ h.msg_type h
          (laws.u16_back h.msg_type v.type_fits)
          (sequence_back w.get_u16 _ (w.put_u16 h.msg_flags) _ h.msg_flags h
            (laws.u16_back h.msg_flags v.flags_fit)
            (sequence_back w.get_u32 _ (w.put_u32 h.msg_seq) _ h.msg_seq h
              (laws.u32_back h.msg_seq v.seq_fits)
              (final_back w.get_u32
                (λ pid. record {
                  msg_len = h.msg_len;
                  msg_type = h.msg_type;
                  msg_flags = h.msg_flags;
                  msg_seq = h.msg_seq;
                  msg_pid = pid;
                })
                (w.put_u32 h.msg_pid) h.msg_pid (laws.u32_back h.msg_pid v.pid_fits)))))

  pub error_back :
      (e : ErrorMessage)
      → e.error < 2 ^ 32
      → IsHeader e.failed
      → Reads ErrorMessage (get_error w) (put_error w e) e
  unfolding get_error put_error
  error_back e h v =
      sequence_back w.get_u32 _ (w.put_u32 e.error) _ e.error e (laws.u32_back e.error h) (
        final_back (get_header w) (λ x. record { error = e.error; failed = x }) _ e.failed
          (header_back e.failed v))

  pub general_back : (family : ℕ) → Reads ℕ (get_general w) (put_general w family) family
  unfolding get_general put_general
  general_back family =
      sequence_back get_u8 _ (family ∷ []) _ family family (u8_back family)
        (final_back (skip 3) (λ u. family) _ tt (skip_back 3))

  pub interface_back :
      (v : InterfaceInfo) (len : ℕ)
      → IsInterface v
      → len ≡ 16 + attributes_size v.attributes
      → len < 2 ^ 32
      → Reads InterfaceInfo (get_interface w len len) (put_interface w v) v
  unfolding get_interface put_interface
  interface_back v len h e k =
      let left : (len + 2 ^ 32 - 16) % 2 ^ 32 ≡ attributes_size v.attributes =
        omega (arith, e, k) in
      sequence_back get_u8 _ (v.family ∷ []) _ v.family v (u8_back v.family) (
        sequence_back get_u8 _ (v.reserved ∷ []) _ v.reserved v (u8_back v.reserved) (
          sequence_back w.get_u16 _ (w.put_u16 v.device_type) _ v.device_type v
            (laws.u16_back v.device_type h.type_fits)
            (sequence_back w.get_u32 _ (w.put_u32 v.interface_index) _ v.interface_index v
              (laws.u32_back v.interface_index h.index_fits)
              (sequence_back w.get_u32 _ (w.put_u32 v.device_flags) _ v.device_flags v
                (laws.u32_back v.device_flags h.flags_fit)
                (sequence_back w.get_u32 _ (w.put_u32 v.change_mask) _ v.change_mask v
                  (laws.u32_back v.change_mask h.mask_fits)
                  (final_back (get_attributes w len interface_kinds _)
                    (λ l. record v { attributes = l }) (put_attributes w v.attributes) v.attributes
                    (attributes_back interface_kinds len _ v.attributes h.all_well left
                      (omega (arith, left, e)) (omega (arith, left, e, k)))))))))

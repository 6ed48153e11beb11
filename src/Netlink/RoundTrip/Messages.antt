-- ===== src/Netlink/RoundTrip/Messages.antt =====
-- Whole messages and multipart messages of netlink/netlink-message.cc are read back as they were written.
use ns_3_dce.Prelude.{
  ℕ, zero, suc, ◌+◌, ◌-◌, ◌%◌, ◌^◌, ◌<◌, ◌≤◌, ◌≡◌, true, false, ◌⊎◌, inl, inr, some, List, [], ◌∷◌,
  ◌++◌, ◌==◌, map, length, refl, ap, ◌∙◌, Bool-cases, arith,
}
use ns_3_dce.Netlink.{Wire, get_u8, align}
use ns_3_dce.Netlink.Reading.{Reads, IsFaithful, sequence_back, nothing_back, final_back, u8_back}
use ns_3_dce.Netlink.Message.{
  address_kinds, route_kinds, attributes_size, Header, InterfaceAddress, Route, Message,
  new_message, is_multi, Part, no_part, error_part, general_part, route_part, address_part,
  interface_part, part_of, part_size,
}
use ns_3_dce.Netlink.Bodies.{
  put_attributes, get_attributes, get_header, put_header, get_error, get_general, get_interface,
  put_interface_address, get_interface_address, put_route, get_route, put_part, get_part,
  put_message, get_message, put_messages, get_messages,
}
use ns_3_dce.Netlink.RoundTrip.{
  AllWell, attributes_size_aligned, IsHeader, attributes_back, header_back, error_back,
  general_back, IsInterface, interface_back,
}

pub record IsAddress (v : InterfaceAddress) : Type 0 where
  pub index_fits : v.index < 2 ^ 32
  pub all_well : AllWell address_kinds v.attributes

pub record IsRoute (v : Route) : Type 0 where
  pub flags_fit : v.flags < 2 ^ 32
  pub all_well : AllWell route_kinds v.attributes

-- The part of a message that is selected is within its widths.
unfoldable pub IsPart : Part → Message → Type 0
IsPart no_part m = Unit
IsPart error_part m = (m.error_message.error < 2 ^ 32) × IsHeader m.error_message.failed
IsPart general_part m = Unit
IsPart route_part m = IsRoute m.route
IsPart address_part m = IsAddress m.address_message
IsPart interface_part m = IsInterface m.interface

-- A message that holds the part and its header, and is otherwise new.
unfoldable pub only : Part → Message → Message
only no_part m = record new_message { header = m.header }
only error_part m = record new_message { header = m.header; error_message = m.error_message }
only general_part m = record new_message { header = m.header; general = m.general }
only route_part m = record new_message { header = m.header; route = m.route }
only address_part m = record new_message { header = m.header; address_message = m.address_message }
only interface_part m = record new_message { header = m.header; interface = m.interface }

abbrev pub part : Message → Part
part m = part_of m.header.msg_type m.header.msg_flags

-- What a reader finds of a message.
abbrev pub seen : Message → Message
seen m = only (part m) m

-- A message within its widths, with the length of its part in its header.
pub record IsMessage (m : Message) : Type 0 where
  pub header_fits : IsHeader m.header
  pub part_fits : IsPart (part m) m
  pub len_fits : m.header.msg_len ≡ 16 + part_size (part m) m
  pub small : part_size (part m) m < 2 ^ 31

-- Of several messages all but the last say that others follow.
abbrev pub IsSeries : List Message → Type 0
IsSeries [] = ⊥
IsSeries (m ∷ []) =
    IsMessage m × ((is_multi m.header.msg_flags ≡ false) ⊎ ((m.header.msg_type == 3) ≡ true))
IsSeries (m ∷ x ∷ more) =
    IsMessage m
    × (is_multi m.header.msg_flags ≡ true)
    × ((m.header.msg_type == 3) ≡ false)
    × IsSeries (x ∷ more)

pub part_aligned : (p : Part) (m : Message) → part_size p m % 4 ≡ 0
unfolding part_size
part_aligned no_part m = refl
part_aligned error_part m = refl
part_aligned general_part m = refl
part_aligned route_part m = omega (arith, attributes_size_aligned m.route.attributes)
part_aligned address_part m = omega (arith, attributes_size_aligned m.address_message.attributes)
part_aligned interface_part m = omega (arith, attributes_size_aligned m.interface.attributes)

module _ (w : Wire) (laws : IsFaithful w) where
  address_back :
      (v : InterfaceAddress) (len : ℕ)
      → IsAddress v
      → len ≡ 8 + attributes_size v.attributes
      → len < 2 ^ 32
      → Reads InterfaceAddress (get_interface_address w len len) (put_interface_address w v) v
  unfolding get_interface_address put_interface_address
  address_back v len h e k =
      let left : (len + 2 ^ 32 - 8) % 2 ^ 32 ≡ attributes_size v.attributes = omega (arith, e, k) in
      sequence_back get_u8 _ (v.family ∷ []) _ v.family v (u8_back v.family) (
        sequence_back get_u8 _ (v.prefix_length ∷ []) _ v.prefix_length v (u8_back v.prefix_length)
          (sequence_back get_u8 _ (v.flags ∷ []) _ v.flags v (u8_back v.flags) (
            sequence_back get_u8 _ (v.scope ∷ []) _ v.scope v (u8_back v.scope) (
              sequence_back w.get_u32 _ (w.put_u32 v.index) _ v.index v
                (laws.u32_back v.index h.index_fits)
                (final_back (get_attributes w len address_kinds _)
                  (λ l. record v { attributes = l }) (put_attributes w v.attributes) v.attributes
                  (attributes_back w laws address_kinds len _ v.attributes h.all_well left
                    (omega (arith, left, e)) (omega (arith, left, e, k))))))))

  route_back :
      (v : Route) (len : ℕ)
      → IsRoute v
      → len ≡ 12 + attributes_size v.attributes
      → len < 2 ^ 32
      → Reads Route (get_route w len len) (put_route w v) v
  unfolding get_route put_route
  route_back v len h e k =
      let left : (len + 2 ^ 32 - 12) % 2 ^ 32 ≡ attributes_size v.attributes =
        omega (arith, e, k) in
      sequence_back get_u8 _ (v.family ∷ []) _ v.family v (u8_back v.family) (
        sequence_back get_u8 _ (v.dst_len ∷ []) _ v.dst_len v (u8_back v.dst_len) (
          sequence_back get_u8 _ (v.src_len ∷ []) _ v.src_len v (u8_back v.src_len) (
            sequence_back get_u8 _ (v.tos ∷ []) _ v.tos v (u8_back v.tos) (
              sequence_back get_u8 _ (v.table_id ∷ []) _ v.table_id v (u8_back v.table_id) (
                sequence_back get_u8 _ (v.protocol ∷ []) _ v.protocol v (u8_back v.protocol) (
                  sequence_back get_u8 _ (v.scope ∷ []) _ v.scope v (u8_back v.scope) (
                    sequence_back get_u8 _ (v.route_type ∷ []) _ v.route_type v
                      (u8_back v.route_type)
                      (sequence_back w.get_u32 _ (w.put_u32 v.flags) _ v.flags v
                        (laws.u32_back v.flags h.flags_fit)
                        (final_back (get_attributes w len route_kinds _)
                          (λ l. record v { attributes = l }) (put_attributes w v.attributes)
                          v.attributes
                          (attributes_back w laws route_kinds len _ v.attributes h.all_well left
                            (omega (arith, left, e)) (omega (arith, left, e, k))))))))))))

  part_back :
      (p : Part) (m : Message) (len : ℕ)
      → IsPart p m
      → len ≡ part_size p m
      → len < 2 ^ 32
      → Reads Message
          (get_part w p len (record new_message { header = m.header }))
          (put_part w p m)
          (only p m)
  unfolding get_part put_part only IsPart part_size
  part_back no_part m len h e k = nothing_back (only no_part m)
  part_back error_part m len h e k =
      final_back (get_error w) (λ v. record new_message { header = m.header; error_message = v }) _
        m.error_message (error_back w laws m.error_message h.0 h.1)
  part_back general_part m len h e k =
      final_back (get_general w) (λ v. record new_message { header = m.header; general = v }) _
        m.general (general_back w laws m.general)
  part_back route_part m len h e k =
      final_back (get_route w len len) (λ v. record new_message { header = m.header; route = v }) _
        m.route (route_back m.route len h e k)
  part_back address_part m len h e k =
      final_back (get_interface_address w len len)
        (λ v. record new_message { header = m.header; address_message = v }) _ m.address_message
        (address_back m.address_message len h e k)
  part_back interface_part m len h e k =
      final_back (get_interface w len len)
        (λ v. record new_message { header = m.header; interface = v }) _ m.interface
        (interface_back w laws m.interface len h e k)

  empty_part :
      (p : Part) (m : Message)
      → part_size p m ≡ 0
      → (put_part w p m ≡ []) × (only p m ≡ record new_message { header = m.header })
  unfolding part_size put_part only
  empty_part no_part m e = (refl, refl)
  empty_part error_part m e = absurd (omega (arith, e))
  empty_part general_part m e = absurd (omega (arith, e))
  empty_part route_part m e = absurd (omega (arith, e))
  empty_part address_part m e = absurd (omega (arith, e))
  empty_part interface_part m e = absurd (omega (arith, e))

  pub message_back :
      (m : Message) → IsMessage m → Reads Message (get_message w) (put_message w m) (seen m)
  unfolding get_message put_message
  message_back m h =
      sequence_back (get_header w) _ (put_header w m.header) _ m.header (seen m)
        (header_back w laws m.header h.header_fits)
        (elim (Bool-cases (len == 0)) [
          | inl z ↦
              let (e, f) = empty_part (part m) m (ground (arith, z, remains)) in
              rw z (rw e (rw f (nothing_back _)))
          | inr z ↦
              rw z (part_back (part m) m len h.part_fits remains (omega (arith, h.small, remains)))
        ])
    where
      len : ℕ
      len = (align m.header.msg_len + 2 ^ 32 - 16) % 2 ^ 32

      remains : len ≡ part_size (part m) m
      remains = omega (arith, h.small, h.len_fits, part_aligned (part m) m)

  header_seen : (p : Part) (m : Message) → (only p m).header ≡ m.header
  unfolding only
  header_seen no_part m = refl
  header_seen error_part m = refl
  header_seen general_part m = refl
  header_seen route_part m = refl
  header_seen address_part m = refl
  header_seen interface_part m = refl

  ends :
      {h k : Header}
      → h ≡ k
      → is_multi h.msg_flags ≡ true
      → (is_multi k.msg_flags ≡ false) ⊎ ((k.msg_type == 3) ≡ true)
      → (h.msg_type == 3) ≡ true
  ends same t (inl f) = absurd (cc (ap (λ (h : Header). is_multi h.msg_flags) same, t, f))
  ends same t (inr d) = ap (λ (h : Header). h.msg_type == 3) same ∙ d

  messages_back :
      (fuel : ℕ) (l : List Message)
      → IsSeries l
      → length l ≤ fuel
      → Reads (List Message) (get_messages w fuel) (put_messages w l) (map seen l)
  unfolding get_messages put_messages
  messages_back fuel [] s h = absurd s
  messages_back zero (m ∷ more) s h = absurd (omega (arith, h))
  messages_back (suc fuel) (m ∷ []) (v, e) h =
      let same = header_seen (part m) m in
      sequence_back (get_message w) _ (put_message w m) [] (seen m) (seen m ∷ []) (message_back m v)
        (elim (Bool-cases (is_multi (seen m).header.msg_flags)) [
          | inr f ↦ rw f (nothing_back _)
          | inl t ↦
              let done : ((seen m).header.msg_type == 3) ≡ true = ends same t e in
              rw t (rw done (nothing_back _))
        ])
  messages_back (suc fuel) (m ∷ x ∷ more) (v, a, b, s) h =
      let same = header_seen (part m) m in
      sequence_back (get_message w) _ (put_message w m) _ (seen m) _ (message_back m v) (
        rw (ap (λ (h : Header). is_multi h.msg_flags) same ∙ a) (
          rw (ap (λ (h : Header). h.msg_type == 3) same ∙ b) (
            final_back (get_messages w fuel) (λ l. seen m ∷ l) (put_messages w (x ∷ more)) _
              (messages_back fuel (x ∷ more) s (omega (arith, h))))))

-- Over an iterator that reads numbers and addresses back: when messages, each within its widths, with
-- the length of the part that its type selects in its header and attributes that fit the tables, are
-- written one after another as a multipart message, where all but the last are marked as such and none
-- of these ends it, then reading gives as many messages, in order, each with its header and its
-- selected part, and otherwise new, and leaves exactly the bytes behind them.
pub multipart_round_trip :
    (w : Wire) (l : List Message) (rest : List ℕ)
    → IsFaithful w
    → IsSeries l
    → get_messages w (length l) (put_messages w l ++ rest) ≡ some (map seen l, rest)
multipart_round_trip w l rest laws s =
    (messages_back w laws (length l) l s (omega arith)).reading rest

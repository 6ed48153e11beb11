-- ===== src/Netlink/Bodies.antt =====
-- `Serialize` and `Deserialize` of netlink/netlink-message.cc and netlink-message-route.cc.
use ns_3_dce.Prelude.{
  ℕ, zero, suc, ◌+◌, ◌-◌, ◌%◌, ◌^◌, not, Option, none, List, [], ◌∷◌, ◌++◌, ◌==◌, if◌then◌else◌,
}
use ns_3_dce.Netlink.{
  Reader, then_read, gives, Wire, get_u8, skip, align, Kind, Attribute, attribute_size,
  put_attribute, get_attribute,
}
use ns_3_dce.Netlink.Message.{
  interface_kinds, address_kinds, route_kinds, Header, ErrorMessage, InterfaceInfo,
  InterfaceAddress, Route, Message, new_message, is_multi, Part, no_part, error_part, general_part,
  route_part, address_part, interface_part, part_of,
}

-- A loop that ran out of fuel.
abbrev stops : {A : Type 0} → Reader A
stops bytes = none

module _ (w : Wire) where
  -- `SerializeAttribute`, and the loop that reads attributes while `len`, a `uint32_t`, is not 0.
  unfoldable pub put_attributes : List Attribute → List ℕ
  put_attributes [] = []
  put_attributes (a ∷ more) = put_attribute w a ++ put_attributes more

  unfoldable pub get_attributes : ℕ → (ℕ → Option Kind) → ℕ → Reader (List Attribute)
  get_attributes zero kinds len = if len == 0 then gives [] else stops
  get_attributes (suc fuel) kinds len =
      if len == 0
      then gives []
      else then_read (get_attribute w kinds) (λ a.
        then_read (get_attributes fuel kinds ((len + 2 ^ 32 - attribute_size a) % 2 ^ 32))
          (λ more. gives (a ∷ more)))

  unfoldable pub put_header : Header → List ℕ
  put_header h =
      w.put_u32 h.msg_len
      ++ (w.put_u16 h.msg_type
          ++ (w.put_u16 h.msg_flags ++ (w.put_u32 h.msg_seq ++ w.put_u32 h.msg_pid)))

  unfoldable pub get_header : Reader Header
  get_header = then_read w.get_u32 (λ len. then_read w.get_u16 (λ type.
      then_read w.get_u16 (λ flags. then_read w.get_u32 (λ seq. then_read w.get_u32 (λ pid.
        gives (record {
          msg_len = len;
          msg_type = type;
          msg_flags = flags;
          msg_seq = seq;
          msg_pid = pid;
        }))))))

  unfoldable pub put_error : ErrorMessage → List ℕ
  put_error e = w.put_u32 e.error ++ put_header e.failed

  unfoldable pub get_error : Reader ErrorMessage
  get_error =
      then_read w.get_u32
        (λ code. then_read get_header (λ h. gives (record { error = code; failed = h })))

  unfoldable pub put_general : ℕ → List ℕ
  put_general family = family ∷ 0 ∷ 0 ∷ 0 ∷ []

  unfoldable pub get_general : Reader ℕ
  get_general = then_read get_u8 (λ family. then_read (skip 3) (λ u. gives family))

  unfoldable pub put_interface : InterfaceInfo → List ℕ
  put_interface v =
      (v.family ∷ [])
      ++ ((v.reserved ∷ [])
          ++ (w.put_u16 v.device_type
              ++ (w.put_u32 v.interface_index
                  ++ (w.put_u32 v.device_flags
                      ++ (w.put_u32 v.change_mask ++ put_attributes v.attributes)))))

  unfoldable pub get_interface : ℕ → ℕ → Reader InterfaceInfo
  get_interface fuel len = then_read get_u8 (λ family. then_read get_u8 (λ reserved.
      then_read w.get_u16 (λ device_type. then_read w.get_u32 (λ index.
        then_read w.get_u32 (λ flags. then_read w.get_u32 (λ mask.
          then_read (get_attributes fuel interface_kinds ((len + 2 ^ 32 - 16) % 2 ^ 32)) (λ more.
            gives (record {
              family = family;
              reserved = reserved;
              device_type = device_type;
              interface_index = index;
              device_flags = flags;
              change_mask = mask;
              attributes = more;
            }))))))))

  unfoldable pub put_interface_address : InterfaceAddress → List ℕ
  put_interface_address v =
      (v.family ∷ [])
      ++ ((v.prefix_length ∷ [])
          ++ ((v.flags ∷ [])
              ++ ((v.scope ∷ []) ++ (w.put_u32 v.index ++ put_attributes v.attributes))))

  unfoldable pub get_interface_address : ℕ → ℕ → Reader InterfaceAddress
  get_interface_address fuel len = then_read get_u8 (λ family. then_read get_u8 (λ prefix.
      then_read get_u8 (λ flags. then_read get_u8 (λ scope. then_read w.get_u32 (λ index.
        then_read (get_attributes fuel address_kinds ((len + 2 ^ 32 - 8) % 2 ^ 32)) (λ more.
          gives (record {
            family = family;
            prefix_length = prefix;
            flags = flags;
            scope = scope;
            index = index;
            attributes = more;
          })))))))

  unfoldable pub put_route : Route → List ℕ
  put_route v =
      (v.family ∷ [])
      ++ ((v.dst_len ∷ [])
          ++ ((v.src_len ∷ [])
              ++ ((v.tos ∷ [])
                  ++ ((v.table_id ∷ [])
                      ++ ((v.protocol ∷ [])
                          ++ ((v.scope ∷ [])
                              ++ ((v.route_type ∷ [])
                                  ++ (w.put_u32 v.flags ++ put_attributes v.attributes))))))))

  unfoldable pub get_route : ℕ → ℕ → Reader Route
  get_route fuel len = then_read get_u8 (λ family. then_read get_u8 (λ dst. then_read get_u8 (λ src.
      then_read get_u8 (λ tos. then_read get_u8 (λ table. then_read get_u8 (λ protocol.
        then_read get_u8 (λ scope. then_read get_u8 (λ type. then_read w.get_u32 (λ flags.
          then_read (get_attributes fuel route_kinds ((len + 2 ^ 32 - 12) % 2 ^ 32)) (λ more.
            gives (record {
              family = family;
              dst_len = dst;
              src_len = src;
              tos = tos;
              table_id = table;
              protocol = protocol;
              scope = scope;
              route_type = type;
              flags = flags;
              attributes = more;
            })))))))))))

  -- The part of `NetlinkMessage::Serialize`, and of `Deserialize` when bytes remain.
  unfoldable pub put_part : Part → Message → List ℕ
  put_part no_part m = []
  put_part error_part m = put_error m.error_message
  put_part general_part m = put_general m.general
  put_part route_part m = put_route m.route
  put_part address_part m = put_interface_address m.address_message
  put_part interface_part m = put_interface m.interface

  unfoldable pub get_part : Part → ℕ → Message → Reader Message
  get_part no_part remaining m = gives m
  get_part error_part remaining m =
      then_read get_error (λ v. gives (record m { error_message = v }))
  get_part general_part remaining m = then_read get_general (λ v. gives (record m { general = v }))
  get_part route_part remaining m =
      then_read (get_route remaining remaining) (λ v. gives (record m { route = v }))
  get_part address_part remaining m =
      then_read (get_interface_address remaining remaining)
        (λ v. gives (record m { address_message = v }))
  get_part interface_part remaining m =
      then_read (get_interface remaining remaining) (λ v. gives (record m { interface = v }))

  unfoldable pub put_message : Message → List ℕ
  put_message m = put_header m.header ++ put_part (part_of m.header.msg_type m.header.msg_flags) m

  unfoldable pub get_message : Reader Message
  get_message = then_read get_header (λ h.
      let m = record new_message { header = h } in
      let remaining = (align h.msg_len + 2 ^ 32 - 16) % 2 ^ 32 in
      if remaining == 0 then gives m else get_part (part_of h.msg_type h.msg_flags) remaining m)

  -- `MultipartNetlinkMessage::Serialize` and `Deserialize`.
  unfoldable pub put_messages : List Message → List ℕ
  put_messages [] = []
  put_messages (m ∷ more) = put_message m ++ put_messages more

  unfoldable pub get_messages : ℕ → Reader (List Message)
  get_messages zero = stops
  get_messages (suc fuel) = then_read get_message (λ m.
      if not (is_multi m.header.msg_flags)
      then gives (m ∷ [])
      else if m.header.msg_type == 3
      then gives (m ∷ [])
      else then_read (get_messages fuel) (λ more. gives (m ∷ more)))

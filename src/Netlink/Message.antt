-- ===== src/Netlink/Message.antt =====
-- netlink/netlink-message.cc and netlink-message-route.cc: netlink messages, as bytes and back.
--
-- A signed 32-bit field is the word that is written for it. The number of the passes of a loop that
-- reads is bounded by fuel: the bytes that remain for the attributes, the messages at most for a
-- multipart message.
use ns_3_dce.Prelude.{
  ℕ, ◌+◌, ◌/◌, ◌%◌, Bool, not, ◌&&◌, ◌||◌, Option, none, some, List, [], ◌∷◌, ◌==◌, ltb,
  if◌then◌else◌,
}
use ns_3_dce.Netlink.{Kind, unspec, u8, u32, string, address, Attribute, attribute_size}

-- `m_attributeTypes` of the messages on interfaces, on addresses and on routes.
unfoldable pub interface_kinds : ℕ → Option Kind
interface_kinds type =
    if (type == 1) || (type == 2)
    then some address
    else if type == 3
    then some string
    else if (type == 4) || (type == 5)
    then some u32
    else if type == 6
    then some u8
    else if ltb type 18
    then some unspec
    else none

unfoldable pub address_kinds : ℕ → Option Kind
address_kinds type =
    if (type == 1) || (type == 2) || (type == 4) || (type == 5) || (type == 7)
    then some address
    else if type == 3
    then some string
    else if ltb type 8
    then some unspec
    else none

unfoldable pub route_kinds : ℕ → Option Kind
route_kinds type =
    if (type == 1) || (type == 2) || (type == 5) || (type == 7)
    then some address
    else if (type == 3) || (type == 4) || (type == 6)
    then some u32
    else if ltb type 16
    then some unspec
    else none

-- `GetAttributeSerializedSize`.
unfoldable pub attributes_size : List Attribute → ℕ
attributes_size [] = 0
attributes_size (a ∷ more) = attribute_size a + attributes_size more

-- `GetAttributeByType`.
unfoldable pub attribute_by_type : ℕ → List Attribute → Option Attribute
attribute_by_type type [] = none
attribute_by_type type (a ∷ more) =
    let later = attribute_by_type type more in if type == a.attr_type then some a else later

-- `NetlinkMessageHeader`.
pub record Header : Type 0 where
  pub msg_len : ℕ
  pub msg_type : ℕ
  pub msg_flags : ℕ
  pub msg_seq : ℕ
  pub msg_pid : ℕ

-- `NetlinkMessageError`.
pub record ErrorMessage : Type 0 where
  pub error : ℕ
  pub failed : Header

-- `InterfaceInfoMessage`, `InterfaceAddressMessage` and `RouteMessage`.
pub record InterfaceInfo : Type 0 where
  pub family : ℕ
  pub reserved : ℕ
  pub device_type : ℕ
  pub interface_index : ℕ
  pub device_flags : ℕ
  pub change_mask : ℕ
  pub attributes : List Attribute

pub record InterfaceAddress : Type 0 where
  pub family : ℕ
  pub prefix_length : ℕ
  pub flags : ℕ
  pub scope : ℕ
  pub index : ℕ
  pub attributes : List Attribute

pub record Route : Type 0 where
  pub family : ℕ
  pub dst_len : ℕ
  pub src_len : ℕ
  pub tos : ℕ
  pub table_id : ℕ
  pub protocol : ℕ
  pub scope : ℕ
  pub route_type : ℕ
  pub flags : ℕ
  pub attributes : List Attribute

-- `NetlinkMessage`: of a general message there is the family.
pub record Message : Type 0 where
  pub header : Header
  pub error_message : ErrorMessage
  pub general : ℕ
  pub interface : InterfaceInfo
  pub address_message : InterfaceAddress
  pub route : Route

abbrev pub new_header : Header
new_header = record { msg_len = 16; msg_type = 0; msg_flags = 0; msg_seq = 0; msg_pid = 0 }

-- `NetlinkMessage ()`.
abbrev pub new_message : Message
new_message = record {
  header = new_header;
  error_message = record { error = 0; failed = new_header };
  general = 0;
  interface = record {
    family = 0;
    reserved = 0;
    device_type = 0;
    interface_index = 0;
    device_flags = 0;
    change_mask = 0;
    attributes = [];
  };
  address_message = record {
    family = 0;
    prefix_length = 0;
    flags = 0;
    scope = 0;
    index = 0;
    attributes = [];
  };
  route = record {
    family = 0;
    dst_len = 0;
    src_len = 0;
    tos = 0;
    table_id = 0;
    protocol = 0;
    scope = 0;
    route_type = 0;
    flags = 0;
    attributes = [];
  };
}

-- `IsMessageFlagsDump`, and the test for NETLINK_MSG_F_MULTI.
abbrev pub is_dump : ℕ → Bool
is_dump flags = not (flags / 256 % 4 == 0)

abbrev pub is_multi : ℕ → Bool
is_multi flags = flags / 2 % 2 == 1

-- The part that the type and the flags of a message select.
pub data Part : Type 0 where
  no_part error_part general_part route_part address_part interface_part : Part

-- The tests of `Serialize`, and of `Deserialize` in the same order.
unfoldable pub part_of : ℕ → ℕ → Part
part_of type flags =
    if type == 3
    then no_part
    else if type == 2
    then error_part
    else if is_dump flags && ((type == 26) || (type == 22) || (type == 18))
    then general_part
    else if (type == 24) || (type == 25) || (type == 26)
    then route_part
    else if (type == 20) || (type == 21)
    then address_part
    else if (type == 16) || (type == 19)
    then interface_part
    else no_part

-- `GetSerializedSize` of a part.
unfoldable pub part_size : Part → Message → ℕ
part_size no_part m = 0
part_size error_part m = 20
part_size general_part m = 4
part_size route_part m = 12 + attributes_size m.route.attributes
part_size address_part m = 8 + attributes_size m.address_message.attributes
part_size interface_part m = 16 + attributes_size m.interface.attributes

-- `SetErrorMessage`, `SetGeneralMessage`, `SetRouteMessage`, `SetInterfaceAddressMessage` and
-- `SetInterfaceInfoMessage` store the part, and set the length of the message to fit it.
abbrev with_size : ℕ → Message → Message
with_size size m = record m { header = record m.header { msg_len = 16 + size } }

unfoldable pub set_error_message : ErrorMessage → Message → Message
set_error_message v m = with_size 20 (record m { error_message = v })

unfoldable pub set_general_message : ℕ → Message → Message
set_general_message v m = with_size 4 (record m { general = v })

unfoldable pub set_route_message : Route → Message → Message
unfolding attributes_size
set_route_message v m = with_size (12 + attributes_size v.attributes) (record m { route = v })

unfoldable pub set_interface_address_message : InterfaceAddress → Message → Message
unfolding attributes_size
set_interface_address_message v m =
    with_size (8 + attributes_size v.attributes) (record m { address_message = v })

unfoldable pub set_interface_info_message : InterfaceInfo → Message → Message
unfolding attributes_size
set_interface_info_message v m =
    with_size (16 + attributes_size v.attributes) (record m { interface = v })

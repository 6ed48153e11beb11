-- ===== src/Netlink/Tests.antt =====
-- Netlink messages over an iterator that puts the lowest byte first.
use ns_3_dce.Prelude.{
  ℕ, zero, suc, ◌+◌, ◌*◌, ◌/◌, ◌%◌, ◌≡◌, inr, none, some, List, [], ◌∷◌, ◌++◌, length, refl, ap,
  arith,
}
use ns_3_dce.Netlink.{
  Reader, Wire, align, of_u32, of_u64, kind_of, new_attribute, value_size, put_attribute,
  get_attribute, value_bytes, put_value,
}
use ns_3_dce.Netlink.Reading.{IsFaithful}
use ns_3_dce.Netlink.Values.{attribute_round_trip}
use ns_3_dce.Netlink.Message.{
  route_kinds, attributes_size, Route, Message, new_header, new_message, part_of, part_size,
  set_route_message, set_interface_info_message,
}
use ns_3_dce.Netlink.Bodies.{put_message, put_header, put_part, put_messages, get_messages}
use ns_3_dce.Netlink.RoundTrip.Messages.{IsPart, IsMessage, seen, multipart_round_trip}
use ns_3_dce.Netlink.Sizes.{message_takes_its_size}

-- The number of bytes that are read, lowest first.
low_first : ℕ → Reader ℕ
low_first zero bytes = some (0, bytes)
low_first (suc k) [] = none
low_first (suc k) (x ∷ bytes) = elim (low_first k bytes) [
  | none ↦ none
  | some (n, rest) ↦ some (x + 256 * n, rest)
]

take_bytes : ℕ → Reader (List ℕ)
take_bytes zero bytes = some ([], bytes)
take_bytes (suc k) [] = none
take_bytes (suc k) (x ∷ bytes) = elim (take_bytes k bytes) [
  | none ↦ none
  | some (l, rest) ↦ some (x ∷ l, rest)
]

abbrev wire : Wire
wire = record {
  put_u16 = λ n. n % 256 ∷ n / 256 % 256 ∷ [];
  put_u32 = λ n. n % 256 ∷ n / 256 % 256 ∷ n / 65536 % 256 ∷ n / 16777216 % 256 ∷ [];
  get_u16 = low_first 2;
  get_u32 = low_first 4;
  get_u64 = low_first 8;
  put_address = λ a. a;
  get_address = take_bytes;
}

take_bytes-append : (a rest : List ℕ) → take_bytes (length a) (a ++ rest) ≡ some (a, rest)
unfolding take_bytes
take_bytes-append [] rest = refl
take_bytes-append (x ∷ a) rest = rw (take_bytes-append a rest) refl

wire-IsFaithful : IsFaithful wire
unfolding low_first
wire-IsFaithful = record {
  u16_back = λ n h. record { reading = λ rest. ap (λ x. some (x, rest)) (omega (arith, h)) };
  u32_back = λ n h. record { reading = λ rest. ap (λ x. some (x, rest)) (omega (arith, h)) };
  u16_size = λ n. refl;
  u32_size = λ n. refl;
  address_size = λ a. refl;
  address_back = λ a. record { reading = take_bytes-append a };
}

attribute_round_trip_example :
    get_attribute wire route_kinds (put_attribute wire (new_attribute 4 (of_u32 7)) ++ 5 ∷ [])
    ≡ some (new_attribute 4 (of_u32 7), 5 ∷ [])
unfolding route_kinds kind_of
attribute_round_trip_example =
    attribute_round_trip wire route_kinds 4 (of_u32 7) (5 ∷ []) wire-IsFaithful (omega arith)
      (omega arith) refl

-- A route over the interface 7, and the end of the dump that it is part of.
abbrev a_route : Route
a_route = record new_message.route {
  family = 2;
  dst_len = 24;
  attributes = record { attr_len = 8; attr_type = 4; payload = of_u32 7 } ∷ [];
}

abbrev route_message : Message
route_message = record new_message {
  header = record new_header { msg_len = 36; msg_type = 24; msg_flags = 2 };
  route = a_route;
}

abbrev done_message : Message
done_message = record new_message { header = record new_header { msg_type = 3; msg_flags = 2 } }

route-IsMessage : IsMessage route_message
unfolding part_of part_size attributes_size value_size IsPart route_kinds kind_of
route-IsMessage = record {
  header_fits = record {
    len_fits = omega arith;
    type_fits = omega arith;
    flags_fit = omega arith;
    seq_fits = omega arith;
    pid_fits = omega arith;
  };
  part_fits = record {
    flags_fit = omega arith;
    all_well = (
      record { sound = omega arith; len_fits = refl; type_fits = omega arith; kind_fits = refl },
      tt,
    );
  };
  len_fits = refl;
  small = omega arith;
}

done-IsMessage : IsMessage done_message
unfolding part_of part_size IsPart
done-IsMessage = record {
  header_fits = record {
    len_fits = omega arith;
    type_fits = omega arith;
    flags_fit = omega arith;
    seq_fits = omega arith;
    pid_fits = omega arith;
  };
  part_fits = tt;
  len_fits = refl;
  small = omega arith;
}

-- `SetRouteMessage` sets the length.
set_length :
    set_route_message a_route
      (record new_message { header = record new_header { msg_type = 24; msg_flags = 2 } })
    ≡ route_message
unfolding set_route_message attributes_size value_size
set_length = refl

multipart_round_trip_example :
    get_messages wire 2 (put_messages wire (route_message ∷ done_message ∷ []) ++ 9 ∷ [])
    ≡ some (seen route_message ∷ seen done_message ∷ [], 9 ∷ [])
multipart_round_trip_example =
    multipart_round_trip wire (route_message ∷ done_message ∷ []) (9 ∷ []) wire-IsFaithful
      (route-IsMessage, refl, refl, (done-IsMessage, inr refl))

message_takes_its_size_example :
    (length (put_message wire route_message) ≡ 36) × (align route_message.header.msg_len ≡ 36)
message_takes_its_size_example =
    message_takes_its_size wire route_message wire-IsFaithful route-IsMessage

-- The value of an attribute of 64 bits is not written.
value_unwritten : put_attribute wire (new_attribute 9 (of_u64 5)) ≡ 4 ∷ 0 ∷ 9 ∷ 0 ∷ []
unfolding put_attribute put_value value_bytes value_size new_attribute
value_unwritten = refl

-- The part of a message that says that an interface is gone is not written, though its header counts it.
part_unwritten :
    length (
      put_message wire (
        set_interface_info_message new_message.interface
          (record new_message { header = record new_header { msg_type = 17 } })))
    ≡ 16
unfolding put_message put_header put_part part_of set_interface_info_message attributes_size
part_unwritten = refl

header_counts : (set_interface_info_message new_message.interface new_message).header.msg_len ≡ 32
unfolding set_interface_info_message attributes_size
header_counts = refl

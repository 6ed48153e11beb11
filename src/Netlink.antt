-- ===== src/Netlink.antt =====
-- netlink/netlink-attribute.cc: the attributes of netlink messages, as bytes and back.
--
-- A `Buffer::Iterator` of ns-3 stands for the list of the bytes from its place on: `WriteU8` and
-- `Write` put bytes there, `ReadU8` and `Read` take them, and a read past the end, which ns-3 asserts
-- against, gives `none`. How ns-3 orders the bytes of a wider number, and how it writes an `Address`,
-- is the parameter `Wire`. An `Address` is the list of its bytes, as long as its `GetLength`.
pub mod Reading
pub mod Message
pub mod Values
pub mod Bodies
pub mod RoundTrip
pub mod Sizes
mod Tests
use ns_3_dce.Prelude.{
  ℕ, zero, suc, ◌+◌, ◌-◌, ◌*◌, ◌/◌, ◌%◌, ◌^◌, ◌≡◌, Bool, true, false, Option, none, some, List, [],
  ◌∷◌, ◌++◌, ◌==◌, leb, if◌then◌else◌, length, take, drop, replicate,
}

-- A read: what is read, and the bytes that follow.
abbrev pub Reader : Type 0 → Type 0
Reader A = List ℕ → Option (A × List ℕ)

abbrev pub then_read : {A B : Type 0} → Reader A → (A → Reader B) → Reader B
then_read p f bytes = elim (p bytes) [ none ↦ none | some (x, rest) ↦ f x rest ]

abbrev pub gives : {A : Type 0} → A → Reader A
gives x bytes = some (x, bytes)

abbrev pub from_table : {A : Type 0} → Option A → Reader A
from_table o bytes = elim o [ none ↦ none | some x ↦ some (x, bytes) ]

-- `WriteU16`, `WriteU32`, `ReadU16`, `ReadU32`, `ReadU64`, and `WriteTo` and `ReadFrom` of an address.
pub record Wire : Type 0 where
  pub put_u16 : ℕ → List ℕ
  pub put_u32 : ℕ → List ℕ
  pub get_u16 : Reader ℕ
  pub get_u32 : Reader ℕ
  pub get_u64 : Reader ℕ
  pub put_address : List ℕ → List ℕ
  pub get_address : ℕ → Reader (List ℕ)

-- `ReadU8`, and `Read` of bytes that nothing looks at.
unfoldable pub get_u8 : Reader ℕ
get_u8 [] = none
get_u8 (x ∷ bytes) = some (x, bytes)

unfoldable pub skip : ℕ → Reader Unit
skip n bytes = if leb n (length bytes) then some (tt, drop n bytes) else none

-- NETLINK_MSG_ALIGN of a `uint32_t`.
abbrev pub align : ℕ → ℕ
align n = (n + 3) % 2 ^ 32 / 4 * 4

-- `NetlinkAttributeValueType`.
pub data Kind : Type 0 where
  unspec u8 u16 u32 u64 string address : Kind

-- `NetlinkAttributeValue`: what `m_type` says is there.
pub data Value : Type 0 where
  no_value : Value
  of_u8 of_u16 of_u32 of_u64 : ℕ → Value
  of_string of_address : List ℕ → Value

pub kind_of : Value → Kind
kind_of no_value = unspec
kind_of (of_u8 n) = u8
kind_of (of_u16 n) = u16
kind_of (of_u32 n) = u32
kind_of (of_u64 n) = u64
kind_of (of_string s) = string
kind_of (of_address a) = address

-- `GetSize`.
unfoldable pub value_size : Value → ℕ
value_size no_value = 0
value_size (of_u8 n) = 1
value_size (of_u16 n) = 2
value_size (of_u32 n) = 4
value_size (of_u64 n) = 0
value_size (of_string s) = (length s + 1) % 2 ^ 32
value_size (of_address a) = length a

-- The loop of the case of a string, with what is left of its buffer of 512 bytes, past which it writes.
unfoldable pub get_string : ℕ → Reader (List ℕ)
get_string zero bytes = none
get_string (suc room) [] = none
get_string (suc room) (x ∷ bytes) =
    let more = get_string room bytes in
    if x == 0
    then some ([], bytes)
    else elim more [ none ↦ none | some (s, rest) ↦ some (x ∷ s, rest) ]

-- `NetlinkAttribute`.
pub record Attribute : Type 0 where
  pub attr_len : ℕ
  pub attr_type : ℕ
  pub payload : Value

-- Its constructor for a payload.
unfoldable pub new_attribute : ℕ → Value → Attribute
new_attribute type v = record {
  attr_len = (4 + value_size v) % 2 ^ 16;
  attr_type = type;
  payload = v;
}

-- `GetSerializedSize`.
abbrev pub attribute_size : Attribute → ℕ
attribute_size a = 4 + align (value_size a.payload)

module _ (w : Wire) where
  -- `NetlinkAttributeValue::Serialize`, before it aligns.
  unfoldable pub value_bytes : Value → List ℕ
  value_bytes no_value = []
  value_bytes (of_u8 n) = n ∷ []
  value_bytes (of_u16 n) = w.put_u16 n
  value_bytes (of_u32 n) = w.put_u32 n
  value_bytes (of_u64 n) = []
  value_bytes (of_string s) = s ++ 0 ∷ []
  value_bytes (of_address a) = w.put_address a

  unfoldable pub put_value : Value → List ℕ
  put_value v = value_bytes v ++ replicate (align (value_size v) - value_size v) 0

  -- `DeserializeWithType`, before it aligns.
  unfoldable pub get_payload : Kind → ℕ → Reader Value
  get_payload unspec remaining = gives no_value
  get_payload u8 remaining = then_read get_u8 (λ n. gives (of_u8 n))
  get_payload u16 remaining = then_read w.get_u16 (λ n. gives (of_u16 n))
  get_payload u32 remaining = then_read w.get_u32 (λ n. gives (of_u32 n))
  get_payload u64 remaining = then_read w.get_u64 (λ n. gives (of_u64 n))
  get_payload string remaining = then_read (get_string 512) (λ s. gives (of_string s))
  get_payload address remaining = then_read (w.get_address remaining) (λ a. gives (of_address a))

  unfoldable pub get_value : Kind → ℕ → Reader Value
  get_value kind remaining =
      then_read (get_payload kind remaining)
        (λ v. then_read (skip (align (value_size v) - value_size v)) (λ u. gives v))

  -- `NetlinkAttribute::Serialize` and `Deserialize`, with the table of the kinds by the types of
  -- attributes; a read past the table is `none` as well.
  unfoldable pub put_attribute : Attribute → List ℕ
  put_attribute a = w.put_u16 a.attr_len ++ (w.put_u16 a.attr_type ++ put_value a.payload)

  unfoldable pub get_attribute : (ℕ → Option Kind) → Reader Attribute
  get_attribute kinds = then_read w.get_u16 (λ len. then_read w.get_u16 (λ type.
      then_read (from_table (kinds type)) (λ kind.
        then_read (get_value kind ((len + 2 ^ 16 - 4) % 2 ^ 16))
          (λ v. gives (record { attr_len = len; attr_type = type; payload = v })))))

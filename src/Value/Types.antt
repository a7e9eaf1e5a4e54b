-- ===== src/Value/Types.antt =====
-- The data of native/include/wotex_matter/value.hpp. The numbers of an element and of a native value
-- are as wide as the source's: a reader may take them for plain integers.
use wotex_matter.Base.{ℕ, ℤ, pos, Bool, false, List, [], ◌∷◌, Option, ◌==◌}

pub data MemberKind : Type 0 where
  attribute command event : MemberKind

pub data Operation : Type 0 where
  read write invoke subscribe : Operation

pub data Schema : Type 0 where
  nullable_i16 i16 u8 boolean empty_structure device_type_list cluster_list parts_list : Schema
  reachable_event access_control_list window_status : Schema
  nullable_fabric_index nullable_vendor_id : Schema

pub data ElementType : Type 0 where
  null i16 u8 u16 u32 u64 boolean structure array : ElementType

pub data TagKind : Type 0 where
  anonymous context : TagKind

pub record Tag : Type 0 where
  pub kind : TagKind
  pub id : ℕ

-- An element: its tag and type, its signed, unsigned and Boolean values, and its children.
mutual
  pub data Element : Type 0 where
    element_of : Tag → ElementType → ℤ → ℕ → Bool → Elements → Element

  pub data Elements : Type 0 where
    nil : Elements
    cons : Element → Elements → Elements

abbrev pub tag : Element → Tag
tag (element_of t ty s u b c) = t

abbrev pub type : Element → ElementType
type (element_of t ty s u b c) = ty

abbrev pub signed_value : Element → ℤ
signed_value (element_of t ty s u b c) = s

abbrev pub unsigned_value : Element → ℕ
unsigned_value (element_of t ty s u b c) = u

abbrev pub boolean_value : Element → Bool
boolean_value (element_of t ty s u b c) = b

abbrev pub to_list : Elements → List Element
to_list nil = []
to_list (cons e es) = e ∷ to_list es

abbrev pub of_list : List Element → Elements
of_list [] = nil
of_list (e ∷ es) = cons e (of_list es)

abbrev pub children : Element → List Element
children (element_of t ty s u b c) = to_list c

pub record DeviceType : Type 0 where
  pub id : ℕ
  pub revision : ℕ

pub data NativeValueKind : Type 0 where
  null signed unsigned boolean empty_structure device_types identifiers reachable : NativeValueKind

pub record NativeValue : Type 0 where
  pub kind : NativeValueKind
  pub signed_value : ℤ
  pub unsigned_value : ℕ
  pub boolean_value : Bool
  pub device_types : List DeviceType
  pub identifiers : List ℕ

pub record Descriptor : Type 0 where
  pub kind : MemberKind
  pub cluster : ℕ
  pub member : ℕ
  pub schema : Schema
  pub operations : ℕ

-- `none` is the absence of an error.
pub data ConversionError : Type 0 where
  none unsupported_schema unsupported_operation not_writable invalid_value : ConversionError

pub record Conversion : Type 0 where
  pub error : ConversionError
  pub element : Option Element

-- The enumerators' values, by which they are compared.
abbrev pub kind_code : MemberKind → ℕ
kind_code attribute = 0
kind_code command = 1
kind_code event = 2

abbrev pub type_code : ElementType → ℕ
type_code ElementType.null = 0
type_code ElementType.i16 = 1
type_code ElementType.u8 = 2
type_code u16 = 3
type_code u32 = 4
type_code u64 = 5
type_code ElementType.boolean = 6
type_code structure = 7
type_code array = 8

abbrev pub has_type : ElementType → Element → Bool
has_type t e = type_code (type e) == type_code t

abbrev pub tag_code : TagKind → ℕ
tag_code anonymous = 0
tag_code context = 1

abbrev pub is_anonymous : Element → Bool
is_anonymous e = tag_code (tag e).kind == 0

-- Whether the tag is a context tag.
abbrev pub is_context : Element → Bool
is_context e = tag_code (tag e).kind == 1

-- The constructors of NativeValue.
pub default_value : NativeValue
default_value = record {
  kind = NativeValueKind.null;
  signed_value = pos 0;
  unsigned_value = 0;
  boolean_value = false;
  device_types = [];
  identifiers = [];
}

unfoldable pub null_value : NativeValue
unfolding default_value
null_value = default_value

unfoldable pub signed_integer : ℤ → NativeValue
unfolding default_value
signed_integer v = record default_value { kind = signed; signed_value = v }

unfoldable pub unsigned_integer : ℕ → NativeValue
unfolding default_value
unsigned_integer v = record default_value { kind = unsigned; unsigned_value = v }

unfoldable pub boolean_native : Bool → NativeValue
unfolding default_value
boolean_native v = record default_value { kind = NativeValueKind.boolean; boolean_value = v }

unfoldable pub empty_structure_value : NativeValue
unfolding default_value
empty_structure_value = record default_value { kind = NativeValueKind.empty_structure }

unfoldable pub device_type_values : List DeviceType → NativeValue
unfolding default_value
device_type_values v = record default_value { kind = device_types; device_types = v }

unfoldable pub identifier_values : List ℕ → NativeValue
unfolding default_value
identifier_values v = record default_value { kind = identifiers; identifiers = v }

unfoldable pub reachable_value : Bool → NativeValue
unfolding default_value
reachable_value v = record default_value { kind = reachable; boolean_value = v }

-- ===== src/Value/Validate.antt =====
-- `validate_element` of native/src/value.cpp.
use wotex_matter.Base.{
  ℕ, Bool, true, false, not, ◌&&◌, ◌||◌, List, [], ◌∷◌, none, some, ◌==◌, leb, ◌%◌, ◌^◌,
  if◌then◌else◌, length, all_of, is_empty,
}
use wotex_matter.Value.Types.{
  MemberKind, Element, ElementType, Operation, Schema, ConversionError, tag, signed_value,
  unsigned_value, children, has_type, is_anonymous, is_context,
}
use wotex_matter.Value.Registry.{valid_cluster, lookup_descriptor, lacks_operation}
use wotex_matter.Value.Convert.{in_i16, refused_operation}
use wotex_matter.Value.AccessControl.{valid_access_control_list}

abbrev pub verdict : Bool → ConversionError
verdict true = ConversionError.none
verdict false = ConversionError.invalid_value

abbrev pub is_i16 : Element → Bool
is_i16 e = has_type ElementType.i16 e && in_i16 (signed_value e)

abbrev pub is_unsigned : ElementType → ℕ → ℕ → Element → Bool
is_unsigned ty low high e =
    has_type ty e && leb low (unsigned_value e) && leb (unsigned_value e) high

abbrev pub is_null : Element → Bool
is_null e = has_type ElementType.null e

abbrev is_field : ℕ → ElementType → Element → Bool
is_field id ty e = is_context e && (tag e).id == id && has_type ty e

abbrev two_fields : List Element → Bool
two_fields (a ∷ b ∷ []) = is_field 0 ElementType.u32 a && is_field 1 ElementType.u16 b
two_fields _ = false

abbrev pub is_device_type : Element → Bool
is_device_type e = is_anonymous e && has_type ElementType.structure e && two_fields (children e)

abbrev pub is_cluster : Element → Bool
is_cluster e =
    is_anonymous e && has_type ElementType.u32 e && valid_cluster (unsigned_value e % 2 ^ 32)

abbrev pub is_part : Element → Bool
is_part e = is_anonymous e && has_type ElementType.u16 e && leb (unsigned_value e) 0xFFFE

abbrev pub is_list_of : (Element → Bool) → Element → Bool
is_list_of test e =
    has_type ElementType.array e && leb (length (children e)) 1023 && all_of test (children e)

abbrev one_field : List Element → Bool
one_field (a ∷ []) = is_field 0 ElementType.boolean a
one_field _ = false

abbrev pub is_reachable : Element → Bool
is_reachable e = has_type ElementType.structure e && one_field (children e)

-- The switch over the schema, for an element with an anonymous tag.
unfoldable pub conforms : Schema → Operation → Element → Bool
conforms Schema.nullable_i16 operation e = is_null e || is_i16 e
conforms Schema.i16 operation e = is_i16 e
conforms Schema.u8 operation e = is_unsigned ElementType.u8 0 0xFF e
conforms Schema.boolean operation e = has_type ElementType.boolean e
conforms Schema.empty_structure operation e =
    has_type ElementType.structure e && is_empty (children e)
conforms Schema.device_type_list operation e = is_list_of is_device_type e
conforms Schema.cluster_list operation e = is_list_of is_cluster e
conforms Schema.parts_list operation e = is_list_of is_part e
conforms Schema.reachable_event operation e = is_reachable e
conforms Schema.window_status operation e = is_unsigned ElementType.u8 0 2 e
conforms Schema.nullable_fabric_index operation e = is_null e || is_unsigned ElementType.u8 1 254 e
conforms Schema.nullable_vendor_id operation e = is_null e || is_unsigned ElementType.u16 1 0xFFFE e
conforms Schema.access_control_list operation e = valid_access_control_list e operation

unfoldable pub validate_element : MemberKind → ℕ → ℕ → Operation → Element → ConversionError
unfolding conforms
validate_element kind cluster member operation e = elim (lookup_descriptor kind cluster member) [
  | none ↦ ConversionError.unsupported_schema
  | some d ↦
      if lacks_operation d operation
      then refused_operation operation
      else if not (is_anonymous e)
      then ConversionError.invalid_value
      else verdict (conforms d.schema operation e)
]

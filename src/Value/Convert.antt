-- ===== src/Value/Convert.antt =====
-- `convert` and `convert_value` of native/src/value.cpp.
use wotex_matter.Base.{
  ℕ, ℤ, pos, negsuc, leb_ℤ, Bool, false, ◌&&◌, List, [], ◌∷◌, none, some, leb, if◌then◌else◌,
  length, all_of, map,
}
use wotex_matter.Value.Types.{
  MemberKind, Element, ElementType, Operation, Schema, NativeValue, NativeValueKind, DeviceType,
  Descriptor, Tag, TagKind, Conversion, ConversionError, element_of, of_list, nil,
}
use wotex_matter.Value.Registry.{valid_cluster, lookup_descriptor, lacks_operation}

-- `element`, `context_element` and the assignment of one member of the result.
abbrev pub anonymous_tag : Tag
anonymous_tag = record { kind = TagKind.anonymous; id = 0 }

abbrev pub context_tag : ℕ → Tag
context_tag id = record { kind = TagKind.context; id = id }

abbrev pub plain : ElementType → Element
plain ty = element_of anonymous_tag ty (pos 0) 0 false nil

abbrev pub unsigned_element : Tag → ElementType → ℕ → Element
unsigned_element t ty v = element_of t ty (pos 0) v false nil

abbrev pub boolean_element : Tag → Bool → Element
boolean_element t v = element_of t ElementType.boolean (pos 0) 0 v nil

abbrev pub container : ElementType → List Element → Element
container ty es = element_of anonymous_tag ty (pos 0) 0 false (of_list es)

abbrev pub success : Element → Conversion
success e = record { error = ConversionError.none; element = some e }

abbrev pub failure : ConversionError → Conversion
failure e = record { error = e; element = none }

-- The range of std::int16_t.
abbrev pub in_i16 : ℤ → Bool
in_i16 v = leb_ℤ (negsuc 32767) v && leb_ℤ v (pos 32767)

abbrev pub device_type_element : DeviceType → Element
device_type_element d = container ElementType.structure (
    unsigned_element (context_tag 0) ElementType.u32 d.id
    ∷ unsigned_element (context_tag 1) ElementType.u16 d.revision
    ∷ [])

unfoldable pub convert_i16 : NativeValue → Conversion
convert_i16 v = elim v.kind [
  | NativeValueKind.signed ↦
      if in_i16 v.signed_value
      then success (element_of anonymous_tag ElementType.i16 v.signed_value 0 false nil)
      else failure ConversionError.invalid_value
  | _ ↦ failure ConversionError.invalid_value
]

-- An unsigned value between two bounds.
unfoldable pub convert_unsigned : ElementType → ℕ → ℕ → NativeValue → Conversion
convert_unsigned ty low high v = elim v.kind [
  | NativeValueKind.unsigned ↦
      if leb low v.unsigned_value && leb v.unsigned_value high
      then success (unsigned_element anonymous_tag ty v.unsigned_value)
      else failure ConversionError.invalid_value
  | _ ↦ failure ConversionError.invalid_value
]

-- A list of at most 1023 identifiers that pass a test.
unfoldable pub convert_identifiers : ElementType → (ℕ → Bool) → NativeValue → Conversion
convert_identifiers ty test v = elim v.kind [
  | NativeValueKind.identifiers ↦
      if leb (length v.identifiers) 1023 && all_of test v.identifiers
      then success
          (container ElementType.array (map (unsigned_element anonymous_tag ty) v.identifiers))
      else failure ConversionError.invalid_value
  | _ ↦ failure ConversionError.invalid_value
]

unfoldable pub convert_device_types : NativeValue → Conversion
convert_device_types v = elim v.kind [
  | NativeValueKind.device_types ↦
      if leb (length v.device_types) 1023
      then success (container ElementType.array (map device_type_element v.device_types))
      else failure ConversionError.invalid_value
  | _ ↦ failure ConversionError.invalid_value
]

-- Null, or what the other conversion gives.
unfoldable pub convert_nullable : Conversion → NativeValue → Conversion
convert_nullable other v = elim v.kind [
  | NativeValueKind.null ↦ success (plain ElementType.null)
  | _ ↦ other
]

-- The switch of `convert` over the schema.
unfoldable pub convert_by : Schema → NativeValue → Conversion
unfolding convert_i16 convert_unsigned convert_identifiers convert_device_types convert_nullable
convert_by Schema.nullable_i16 v = convert_nullable (convert_i16 v) v
convert_by Schema.i16 v = convert_i16 v
convert_by Schema.u8 v = convert_unsigned ElementType.u8 0 0xFF v
convert_by Schema.boolean v = elim v.kind [
  | NativeValueKind.boolean ↦ success (boolean_element anonymous_tag v.boolean_value)
  | _ ↦ failure ConversionError.invalid_value
]
convert_by Schema.empty_structure v = elim v.kind [
  | NativeValueKind.empty_structure ↦ success (plain ElementType.structure)
  | _ ↦ failure ConversionError.invalid_value
]
convert_by Schema.device_type_list v = convert_device_types v
convert_by Schema.cluster_list v = convert_identifiers ElementType.u32 valid_cluster v
convert_by Schema.parts_list v = convert_identifiers ElementType.u16 (λ i. leb i 0xFFFE) v
convert_by Schema.reachable_event v = elim v.kind [
  | NativeValueKind.reachable ↦
      success
        (container ElementType.structure (boolean_element (context_tag 0) v.boolean_value ∷ []))
  | _ ↦ failure ConversionError.invalid_value
]
convert_by Schema.window_status v = convert_unsigned ElementType.u8 0 2 v
convert_by Schema.nullable_fabric_index v =
    convert_nullable (convert_unsigned ElementType.u8 1 254 v) v
convert_by Schema.nullable_vendor_id v =
    convert_nullable (convert_unsigned ElementType.u16 1 0xFFFE v) v
convert_by Schema.access_control_list v = failure ConversionError.invalid_value

unfoldable pub convert : Descriptor → NativeValue → Conversion
unfolding convert_by
convert d v = convert_by d.schema v

-- The answer for an operation that the member does not have.
abbrev pub refused_operation : Operation → ConversionError
refused_operation Operation.write = ConversionError.not_writable
refused_operation _ = ConversionError.unsupported_operation

unfoldable pub convert_value : MemberKind → ℕ → ℕ → Operation → NativeValue → Conversion
convert_value kind cluster member operation v = elim (lookup_descriptor kind cluster member) [
  | none ↦ failure ConversionError.unsupported_schema
  | some d ↦
      if lacks_operation d operation then failure (refused_operation operation) else convert d v
]

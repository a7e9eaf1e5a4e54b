-- ===== src/Value/AccessControl.antt =====
-- The checks of an access control list in native/src/value.cpp. A null pointer to a field is `none`.
use wotex_matter.Base.{
  ℕ, Bool, true, false, not, ◌&&◌, ◌||◌, List, [], ◌∷◌, Option, none, some, ◌==◌, leb, ◌%◌, ◌^◌,
  if◌then◌else◌, length, all_of, has_value,
}
use wotex_matter.Value.Types.{
  Element, ElementType, Operation, tag, unsigned_value, children, has_type, is_anonymous,
  is_context,
}
use wotex_matter.Value.Registry.{valid_cluster}

-- The loop of ContextField, with the field found so far.
unfoldable pub context_field_loop : ℕ → List Element → Option Element → Option Element
context_field_loop id [] result = result
context_field_loop id (field ∷ fields) result =
    let rest = context_field_loop id fields in
    if not (is_context field)
    then none
    else if (tag field).id == id
    then (if has_value result then none else rest (some field))
    else rest result

unfoldable pub context_field : Element → ℕ → Option Element
unfolding context_field_loop
context_field structure id = context_field_loop id (children structure) none

unfoldable pub nullable_target_field : Option Element → ElementType → ℕ → Bool → Bool
nullable_target_field none ty maximum cluster = false
nullable_target_field (some field) ty maximum cluster =
    has_type ElementType.null field
    || (has_type ty field
        && leb (unsigned_value field) maximum
        && (not cluster || valid_cluster (unsigned_value field % 2 ^ 32)))

-- `field->type != ElementType::Null`, of a field that has passed the test above.
abbrev pub given : Option Element → Bool
given none = false
given (some field) = not (has_type ElementType.null field)

unfoldable pub valid_target : Element → Bool
unfolding nullable_target_field context_field
valid_target target =
    let cluster = context_field target 0 in
    let endpoint = context_field target 1 in
    let device_type = context_field target 2 in
    (is_anonymous target && has_type ElementType.structure target && length (children target) == 3)
    && nullable_target_field cluster ElementType.u32 0xFFFFFFFF true
    && nullable_target_field endpoint ElementType.u16 0xFFFE false
    && nullable_target_field device_type ElementType.u32 0xFFFFFFFF false
    && (given cluster || given endpoint || given device_type)
    && (not (given endpoint) || not (given device_type))

abbrev pub is_subject : Element → Bool
is_subject subject = is_anonymous subject && has_type ElementType.u64 subject

unfoldable pub valid_nullable_subjects : Option Element → Bool
valid_nullable_subjects none = false
valid_nullable_subjects (some subjects) =
    is_context subjects
    && (tag subjects).id == 3
    && (has_type ElementType.null subjects
        || (has_type ElementType.array subjects
            && leb (length (children subjects)) 64
            && all_of is_subject (children subjects)))

unfoldable pub valid_nullable_targets : Option Element → Bool
unfolding valid_target
valid_nullable_targets none = false
valid_nullable_targets (some targets) =
    is_context targets
    && (tag targets).id == 4
    && (has_type ElementType.null targets
        || (has_type ElementType.array targets
            && leb (length (children targets)) 64
            && all_of valid_target (children targets)))

abbrev pub entry_field : Element → Bool
entry_field field =
    is_context field
    && ((tag field).id == 1
        || (tag field).id == 2
        || (tag field).id == 3
        || (tag field).id == 4
        || (tag field).id == 5
        || (tag field).id == 254)

-- A field that is there is a U8 in the range.
abbrev pub required_u8 : ℕ → ℕ → Option Element → Bool
required_u8 low high none = false
required_u8 low high (some field) =
    has_type ElementType.u8 field
    && leb low (unsigned_value field)
    && leb (unsigned_value field) high

abbrev pub optional_u8 : ℕ → ℕ → Option Element → Bool
optional_u8 low high none = true
optional_u8 low high (some field) = required_u8 low high (some field)

abbrev pub is_read : Operation → Bool
is_read Operation.read = true
is_read _ = false

unfoldable pub valid_fabric_field : Operation → Option Element → Bool
valid_fabric_field operation none = true
valid_fabric_field operation (some fabric) = is_read operation && required_u8 1 254 (some fabric)

-- The body of the loop over the entries.
unfoldable pub valid_entry : Operation → Element → Bool
unfolding valid_fabric_field
valid_entry operation entry =
    (is_anonymous entry
      && has_type ElementType.structure entry
      && leb 4 (length (children entry))
      && leb (length (children entry)) 6)
    && all_of entry_field (children entry)
    && required_u8 1 5 (context_field entry 1)
    && required_u8 2 3 (context_field entry 2)
    && valid_nullable_subjects (context_field entry 3)
    && valid_nullable_targets (context_field entry 4)
    && optional_u8 0 1 (context_field entry 5)
    && valid_fabric_field operation (context_field entry 254)

unfoldable pub valid_access_control_list : Element → Operation → Bool
valid_access_control_list element operation =
    (has_type ElementType.array element
      && is_anonymous element
      && leb (length (children element)) 64)
    && all_of (valid_entry operation) (children element)

-- ===== src/Examples/Values.antt =====
-- The checks of values and of access control lists on concrete elements.
use wotex_matter.Base.{ℕ, ◌≤◌, ◌<◌, ◌≡◌, refl, true, false, List, [], ◌∷◌, length, All, arith, pos}
use wotex_matter.Value.Types.{
  MemberKind, Operation, Element, ElementType, Tag, TagKind, element_of, nil, cons, of_list,
  children, ConversionError, NativeValue, identifier_values,
}
use wotex_matter.Value.Convert.{convert_value, convert, convert_by, convert_identifiers, success}
use wotex_matter.Value.Validate.{validate_element}
use wotex_matter.Value.Registry.{
  lookup_descriptor, lookup_in, descriptors, lacks_operation, operation_flag, valid_cluster,
}
use wotex_matter.Value.AccessControl.{
  valid_access_control_list, valid_entry, context_field, context_field_loop,
  valid_nullable_subjects, valid_nullable_targets, valid_fabric_field,
}
use wotex_matter.Value.Agreement.{validate_element-convert_value}
use wotex_matter.Value.EntryFields.{IsOperational, valid_access_control_list-IsOperational}
use wotex_matter.Value.FabricField.{doubled, doubled_fabric-accepted}

-- Values.
abbrev clusters : NativeValue
clusters = identifier_values (6 ∷ 0x0001FC00 ∷ [])

abbrev identifier : ℕ → Element
identifier n =
    element_of (record { kind = TagKind.anonymous; id = 0 }) ElementType.u32 (pos 0) n false nil

abbrev cluster_elements : Element
cluster_elements =
    element_of (record { kind = TagKind.anonymous; id = 0 }) ElementType.array (pos 0) 0 false
      (cons (identifier 6) (cons (identifier 0x0001FC00) nil))

clusters-converted :
    convert_value MemberKind.attribute 0x001D 1 Operation.read clusters ≡ success cluster_elements
unfolding convert_value convert convert_by convert_identifiers lookup_descriptor lookup_in
    descriptors lacks_operation operation_flag valid_cluster identifier_values
clusters-converted = refl

clusters-wide : All (λ i. i < 4294967296) clusters.identifiers
unfolding identifier_values
clusters-wide = (ground arith, (ground arith, tt))

validate_element-convert_value_example :
    validate_element MemberKind.attribute 0x001D 1 Operation.read cluster_elements
    ≡ ConversionError.none
validate_element-convert_value_example =
    validate_element-convert_value MemberKind.attribute 0x001D 1 Operation.read clusters
      cluster_elements clusters-wide clusters-converted

-- Access control.
abbrev field : ℕ → ElementType → ℕ → Element
field id ty u = element_of (record { kind = TagKind.context; id = id }) ty (pos 0) u false nil

abbrev anonymous_tag : Tag
anonymous_tag = record { kind = TagKind.anonymous; id = 0 }

abbrev admin_fields : List Element
admin_fields =
    field 1 ElementType.u8 5
    ∷ field 2 ElementType.u8 2
    ∷ field 3 ElementType.null 0
    ∷ field 4 ElementType.null 0
    ∷ []

abbrev admin_entry : Element
admin_entry = element_of anonymous_tag ElementType.structure (pos 0) 0 false (of_list admin_fields)

abbrev admin_list : Element
admin_list = element_of anonymous_tag ElementType.array (pos 0) 0 false (cons admin_entry nil)

admin_entry-valid : valid_entry Operation.write admin_entry ≡ true
unfolding valid_entry context_field context_field_loop valid_nullable_subjects
    valid_nullable_targets valid_fabric_field
admin_entry-valid = refl

admin_list-valid : valid_access_control_list admin_list Operation.write ≡ true
unfolding valid_access_control_list valid_entry context_field context_field_loop
    valid_nullable_subjects valid_nullable_targets valid_fabric_field
admin_list-valid = refl

valid_access_control_list-IsOperational_example :
    (length (children admin_list) ≤ 64) × All IsOperational (children admin_list)
valid_access_control_list-IsOperational_example =
    valid_access_control_list-IsOperational admin_list Operation.write admin_list-valid

abbrev fabric : ℕ → Element
fabric n = field 254 ElementType.u8 n

doubled_fabric-accepted_example :
    valid_entry Operation.write
      (doubled anonymous_tag (pos 0) 0 false admin_fields (fabric 1) (fabric 2) refl refl refl refl)
    ≡ true
doubled_fabric-accepted_example =
    doubled_fabric-accepted anonymous_tag (pos 0) 0 false admin_fields (fabric 1) (fabric 2) refl
      refl refl refl (omega arith) admin_entry-valid

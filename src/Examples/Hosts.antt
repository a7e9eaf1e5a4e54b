-- ===== src/Examples/Hosts.antt =====
-- Requests of the host as JSON.
use wotex_matter.Base.{
  [], none, ◌-◌, ◌≡◌, refl, negsuc, pos, true, false, some, has_value, eq_bytes, to_string, arith,
}
use wotex_matter.Json.{Json, member, no_members, at, find}
use wotex_matter.Value.Types.{TagKind, Tag, ElementType, Element, element_of, nil, cons}
use wotex_matter.Value.Registry.{
  lookup_descriptor, lookup_in, descriptors, lacks_operation, operation_flag, valid_cluster,
}
use wotex_matter.Value.Validate.{validate_element, conforms}
use wotex_matter.Interaction.Validity.{
  valid_interaction_request, valid_mutation, valid_mutation_value, valid_selector,
}
use wotex_matter.Interaction.Admission.{Target}
use wotex_matter.Protocol.Texts
use wotex_matter.Protocol.Words
use wotex_matter.Protocol.Elements.{
  exact_keys, tag_value, type_of, parts_value, body_value, unsigned_value, shape, element_value,
  element_json,
}
use wotex_matter.Protocol.Elements.RoundTrip.{
  IsWire, element_value-element_json, element_value-wraps,
}
use wotex_matter.Protocol.Envelopes.{canonical_request_id}
use wotex_matter.Protocol.Envelopes.RequestIds.{canonical_request_id-to_string}
use wotex_matter.Protocol.Parameters.{
  interaction_parameters, interaction_kind, interaction_paths, own_path, selector, selectors,
  unsigned, path_component, optional_uint, interaction_input,
}
use wotex_matter.Protocol.Parameters.Given.{IsRead}
use wotex_matter.Protocol.Parameters.Admitted.{interaction_parameters-IsRead}
use wotex_matter.Protocol.Responses.{interaction_json}
use wotex_matter.Protocol.Responses.Defined.{is_defined, interaction_json-defined}
use wotex_matter.Interaction.Types.{InteractionResponse}
use wotex_matter.Examples.Requests.{set_mode}

abbrev anonymous_tag : Tag
anonymous_tag = record { kind = TagKind.anonymous; id = 0 }

-- A structure with a number and a list.
abbrev nested : Element
nested = element_of anonymous_tag ElementType.structure (pos 0) 0 false (
    cons
      (element_of (record { kind = TagKind.context; id = 1 }) ElementType.i16 (negsuc 4) 0 false
        nil)
      (cons
        (element_of (record { kind = TagKind.context; id = 2 }) ElementType.array (pos 0) 0 false
          (cons (element_of anonymous_tag ElementType.u8 (pos 0) 200 false nil) nil))
        nil))

nested-IsWire : IsWire 9 nested
unfolding IsWire
nested-IsWire = (
  refl,
  (omega arith, refl, refl, refl),
  (
    (omega arith, (refl, refl, refl, (refl, refl)), tt),
    (
      (
        omega arith,
        (omega arith, refl, refl, refl),
        ((refl, (omega arith, refl, (refl, refl)), tt), tt),
      ),
      tt,
    ),
  ),
)

element_value-element_json_example : element_value 9 0 (element_json nested) ≡ some (nested, 4)
element_value-element_json_example = element_value-element_json nested nested-IsWire (omega arith)

element_value-wraps_example :
    element_value 9 0 (
      shape
        (Json.string Texts.anonymous)
        ElementType.i16
        (Json.number_unsigned (0xFFFF_FFFF_FFFF_FFFF - 0)))
    ≡ some (element_of anonymous_tag ElementType.i16 (negsuc 0) 0 false nil, 1)
element_value-wraps_example = element_value-wraps 0 (omega arith)

canonical_request_id-to_string_example : canonical_request_id (some (to_string 1200)) ≡ some 1200
canonical_request_id-to_string_example =
    canonical_request_id-to_string 1200 (omega arith) (omega arith)

-- The parameters of a write as the host receives them.
abbrev set_mode_json : Json
set_mode_json = Json.object (
    member Words.cluster (Json.number_unsigned 0x0201) (
      member Words.endpoint (Json.number_unsigned 1) (
        member Words.fabric_id (Json.number_unsigned 1) (
          member Words.member (Json.number_unsigned 0x001C) (
            member Words.node_id (Json.number_unsigned 7) (
              member Words.timed_request_timeout_ms (Json.number_unsigned 500) (
                member Words.value
                  (shape (Json.string Texts.anonymous) ElementType.u8 (Json.number_unsigned 4))
                  no_members)))))))

read_back : interaction_parameters Words.write set_mode_json 5000 ≡ some set_mode
unfolding interaction_parameters interaction_kind interaction_paths own_path selector exact_keys
    unsigned path_component optional_uint interaction_input at find eq_bytes element_value tag_value
    type_of parts_value body_value unsigned_value valid_interaction_request valid_mutation
    valid_mutation_value valid_selector valid_cluster validate_element conforms lookup_descriptor
    lookup_in descriptors lacks_operation operation_flag mathlib.Core.Bool.xor selectors
read_back = refl

interaction_parameters-IsRead_example :
    IsRead Words.write set_mode_json 5000 set_mode × Target set_mode
interaction_parameters-IsRead_example =
    interaction_parameters-IsRead Words.write set_mode_json 5000 set_mode read_back refl

-- A read whose parameters have a "value", which is not looked at.
abbrev stray_json : Json
stray_json = Json.object (
    member Words.cluster (Json.number_unsigned 0x0201) (
      member Words.endpoint (Json.number_unsigned 1) (
        member Words.fabric_id (Json.number_unsigned 1) (
          member Words.member (Json.number_unsigned 0x001C) (
            member Words.node_id (Json.number_unsigned 7)
              (member Words.value Json.null no_members))))))

stray_value_read : has_value (interaction_parameters Words.read stray_json 5000) ≡ true
unfolding interaction_parameters interaction_kind interaction_paths own_path selector exact_keys
    unsigned path_component optional_uint interaction_input at find eq_bytes
    valid_interaction_request valid_selector valid_cluster mathlib.Core.Bool.xor
stray_value_read = refl

-- The answer to a write, with the path that was written.
abbrev mode_set : InteractionResponse
mode_set = record {
  is_ok = true;
  error = none;
  results = [];
  response_path =
      some (record { fabric_id = 1; node_id = 7; endpoint = 1; cluster = 0x0201; member = 0x001C });
  response_value = none;
  status = 0;
  cluster_status = none;
}

interaction_json-defined_example : is_defined (interaction_json set_mode mode_set) ≡ true
interaction_json-defined_example = interaction_json-defined set_mode mode_set

-- ===== src/Examples/Requests.antt =====
-- Requests, passcodes and the completion of a mutation on concrete data.
use wotex_matter.Base.{◌≡◌, ◌↔◌, refl, true, false, List, [], ◌∷◌, none, some, pos}
use wotex_matter.Value.Types.{TagKind, Element, ElementType, element_of, nil}
use wotex_matter.Value.Registry.{
  lookup_descriptor, lookup_in, descriptors, lacks_operation, operation_flag, valid_cluster,
}
use wotex_matter.Value.Validate.{validate_element, conforms}
use wotex_matter.Interaction.Types.{write, PathSelector, InteractionRequest}
use wotex_matter.Interaction.Validity.{
  valid_interaction_request, valid_mutation, valid_mutation_value, valid_selector,
}
use wotex_matter.Interaction.Admission.{Target, valid_interaction_request-Target}
use wotex_matter.Interaction.Completion.{
  Step, submits, completes, times_out, grants, one_if, submits_first, finishes, grants_once,
}
use wotex_matter.Commissioning.{valid_setup_pin}
use wotex_matter.Commissioning.Passcodes.{IsPasscode, valid_setup_pin_iff}

abbrev thermostat : PathSelector
thermostat = record {
  fabric_id = 1;
  node_id = 7;
  endpoint = some 1;
  cluster = some 0x0201;
  member = some 0x001C;
}

abbrev pub system_mode : Element
system_mode =
    element_of (record { kind = TagKind.anonymous; id = 0 }) ElementType.u8 (pos 0) 4 false nil

abbrev pub set_mode : InteractionRequest
set_mode = record {
  kind = write;
  fabric_id = 1;
  node_id = 7;
  paths = thermostat ∷ [];
  value = some system_mode;
  expected_data_version = none;
  timed_request_timeout_ms = some 500;
  minimum_event_number = none;
  timeout_ms = 5000;
}

pub set_mode-valid : valid_interaction_request set_mode ≡ true
unfolding valid_interaction_request valid_mutation valid_mutation_value valid_selector valid_cluster
    validate_element conforms lookup_descriptor lookup_in descriptors lacks_operation operation_flag
    mathlib.Core.Bool.xor
set_mode-valid = refl

valid_interaction_request-Target_example : Target set_mode
valid_interaction_request-Target_example =
    valid_interaction_request-Target set_mode set_mode-valid refl

-- A timeout races with the completion, after the submission.
abbrev race : List Step
race = submits ∷ times_out ∷ completes ∷ []

grants_once_example :
    ((grants 0 race).0 ≡ one_if (submits_first race)) × ((grants 0 race).1 ≡ one_if (finishes race))
grants_once_example = grants_once race

valid_setup_pin_iff_example : (valid_setup_pin 20202021 ≡ true) ↔ IsPasscode 20202021
valid_setup_pin_iff_example = valid_setup_pin_iff 20202021

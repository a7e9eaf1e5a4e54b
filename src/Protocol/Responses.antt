-- ===== src/Protocol/Responses.antt =====
-- The results of interactions as JSON (native/src/protocol.cpp). The members of an object stand in the order of
-- their keys, as the JSON library keeps them. Reading an absent optional value is `undefined`.
pub mod Defined
use wotex_matter.Base.{
  ℕ, Bool, true, false, not, ◌||◌, List, [], ◌∷◌, Option, none, some, if◌then◌else◌, has_value,
}
use wotex_matter.Json.{Json, Items, no_items, item, Members, no_members, member}
use wotex_matter.Interaction.Types.{
  InteractionKind, InteractionEffect, ConcretePath, InteractionRequest, InteractionError,
  AttributeData, TimestampKind, EventData, PathResult, InteractionResponse,
}
use wotex_matter.Interaction.Validity.{valid_interaction_response}
use wotex_matter.Protocol.Words
use wotex_matter.Protocol.Elements.{element_json}

-- PathJson.
abbrev pub path_json : ConcretePath → Json
path_json path = Json.object (
    member Words.cluster (Json.number_unsigned path.cluster) (
      member Words.endpoint (Json.number_unsigned path.endpoint) (
        member Words.fabric_id (Json.number_unsigned path.fabric_id) (
          member Words.member (Json.number_unsigned path.member)
            (member Words.node_id (Json.number_unsigned path.node_id) no_members)))))

abbrev pub effect_json : InteractionEffect → Json
effect_json InteractionEffect.unknown = Json.string Words.unknown
effect_json InteractionEffect.none = Json.string Words.none

-- A member that is there if the number is.
abbrev pub member_if : Option ℕ → (Json → Members → Members) → Members → Members
member_if none add fs = fs
member_if (some n) add fs = add (Json.number_unsigned n) fs

-- ErrorJson.
abbrev pub error_json : InteractionError → Json
error_json error = Json.object (
    member_if error.cluster_status (member Words.cluster_status) (
      member Words.code (Json.string error.code) (
        member Words.effect (effect_json error.effect)
          (member_if error.status (member Words.status) no_members))))

abbrev pub number_or_null : Option ℕ → Json
number_or_null none = Json.null
number_or_null (some n) = Json.number_unsigned n

-- AttributeJson.
unfoldable pub attribute_json : AttributeData → Json
unfolding element_json
attribute_json attribute = Json.object (
    member Words.data_version (number_or_null attribute.data_version) (
      member Words.path (path_json attribute.path)
        (member Words.value (element_json attribute.value) no_members)))

abbrev pub timestamp_json : TimestampKind → ℕ → Json
timestamp_json kind time = Json.object (
    member Words.kind
      (elim kind [
        | TimestampKind.epoch ↦ Json.string Words.epoch
        | TimestampKind.system ↦ Json.string Words.system
      ])
      (member Words.value (Json.number_unsigned time) no_members))

-- EventJson.
unfoldable pub event_json : EventData → Json
unfolding element_json
event_json event = Json.object (
    member Words.event_number (Json.number_unsigned event.event_number) (
      member Words.path (path_json event.path) (
        member Words.priority (Json.number_unsigned event.priority) (
          member Words.status (Json.number_unsigned 0) (
            member Words.timestamp (timestamp_json event.timestamp_kind event.timestamp_value)
              (member Words.value (element_json event.value) no_members))))))

-- What InteractionJson returns: nothing, or a document; or it reads an optional value that is absent.
pub data Encoded : Type 0 where
  undefined refused : Encoded
  encoded : Json → Encoded

abbrev pub single : Json → Json → Json
single path outcome = Json.object (member Words.path path (member Words.result outcome no_members))

-- The outcome of one path: its error, its attribute, or else its event.
unfoldable pub outcome_json :
    Option InteractionError → Option AttributeData → Option EventData → Option Json
unfolding attribute_json event_json
outcome_json (some error) attribute event =
    some (Json.object (member Words.error (error_json error) no_members))
outcome_json none (some attribute) event =
    some (Json.object (member Words.ok (attribute_json attribute) no_members))
outcome_json none none (some event) =
    some (Json.object (member Words.ok (event_json event) no_members))
outcome_json none none none = none

abbrev pub item_of : ConcretePath → Option Json → Option Items → Option Items
item_of path (some outcome) (some rest) = some (item (single (path_json path) outcome) rest)
item_of path _ _ = none

-- The loop over the results, which has no value where it reads an absent one.
unfoldable pub results_json : List PathResult → Option Items
unfolding outcome_json
results_json [] = some no_items
results_json (r ∷ rs) = item_of r.path (outcome_json r.error r.attribute r.event) (results_json rs)

abbrev pub encoded_items : Option Items → Encoded
encoded_items none = Encoded.undefined
encoded_items (some xs) = Encoded.encoded (Json.array xs)

-- The attribute of a read of one path.
unfoldable pub attribute_result : Option InteractionError → Option AttributeData → Encoded
unfolding attribute_json
attribute_result (some error) attribute = Encoded.refused
attribute_result none none = Encoded.undefined
attribute_result none (some attribute) = Encoded.encoded (attribute_json attribute)

unfoldable pub single_result : List PathResult → Encoded
unfolding attribute_result
single_result (r ∷ []) = attribute_result r.error r.attribute
single_result _ = Encoded.refused

abbrev pub written_path : Option ConcretePath → Encoded
written_path none = Encoded.undefined
written_path (some path) = Encoded.encoded (
    Json.object (
      member Words.path (path_json path) (member Words.status (Json.number_unsigned 0) no_members)))

unfoldable pub invoked : InteractionResponse → Encoded
unfolding element_json
invoked response = Encoded.encoded (
    Json.object (
      member Words.path
        (elim response.response_path [ none ↦ Json.null | some path ↦ path_json path ])
        (member Words.status (Json.number_unsigned 0) (
          member Words.value
            (elim response.response_value [ none ↦ Json.null | some e ↦ element_json e ])
            no_members))))

unfoldable pub valid_result : InteractionKind → InteractionResponse → Encoded
unfolding single_result results_json invoked
valid_result InteractionKind.read_attribute response = single_result response.results
valid_result InteractionKind.read_attributes response =
    encoded_items (results_json response.results)
valid_result InteractionKind.read_events response = encoded_items (results_json response.results)
valid_result InteractionKind.write response = written_path response.response_path
valid_result InteractionKind.invoke response = invoked response

-- InteractionJson.
unfoldable pub interaction_json : InteractionRequest → InteractionResponse → Encoded
unfolding valid_result valid_interaction_response
interaction_json request response =
    if not (valid_interaction_response request response) || not response.is_ok
    then Encoded.refused
    else valid_result request.kind response

-- ===== src/Interaction/Validity.antt =====
-- The checks of requests and responses in native/src/interaction.cpp.
use wotex_matter.Base.{
  ℕ, Bool, true, false, not, ◌&&◌, ◌||◌, List, [], ◌∷◌, Option, none, some, ◌==◌, ltb, leb, ◌-◌,
  if◌then◌else◌, length, all_of, any_of, is_empty, has_value, xor,
}
use wotex_matter.Value.Types.{MemberKind, Operation, Element, ConversionError}
use wotex_matter.Value.Registry.{valid_cluster}
use wotex_matter.Value.Validate.{validate_element}
use wotex_matter.Interaction.Types.{
  InteractionKind, read_attributes, read_events, write, invoke, InteractionEffect,
  InteractionRequest, InteractionResponse, InteractionError, PathSelector, ConcretePath, PathResult,
  same_path, AttributeData, EventData,
}

abbrev pub maximum_interaction_paths : ℕ
maximum_interaction_paths = 64

abbrev pub maximum_interaction_reports : ℕ
maximum_interaction_reports = 1024

abbrev pub maximum_interaction_result_bytes : ℕ
maximum_interaction_result_bytes = 98304

abbrev pub maximum_operational_node : ℕ
maximum_operational_node = 0xFFFF_FFEF_FFFF_FFFF

-- A test of an optional number that holds where there is none.
abbrev pub unless_given : (ℕ → Bool) → Option ℕ → Bool
unless_given test none = true
unless_given test (some n) = test n

abbrev pub accepted : ConversionError → Bool
accepted ConversionError.none = true
accepted _ = false

unfoldable pub valid_selector : PathSelector → Bool → Bool
valid_selector path concrete =
    not (path.fabric_id == 0 || path.node_id == 0 || ltb maximum_operational_node path.node_id)
    && not (
        concrete
        && (not (has_value path.endpoint)
            || not (has_value path.cluster)
            || not (has_value path.member)))
    && unless_given (λ e. leb e 0xFFFE) path.endpoint
    && unless_given valid_cluster path.cluster
    && unless_given (λ m. leb m 0xFFFF_FFFE) path.member

unfoldable pub selected : PathSelector → ConcretePath → Bool
selected selector path =
    selector.fabric_id == path.fabric_id
    && selector.node_id == path.node_id
    && unless_given (λ e. e == path.endpoint) selector.endpoint
    && unless_given (λ c. c == path.cluster) selector.cluster
    && unless_given (λ m. m == path.member) selector.member

abbrev pub is_mutation : InteractionKind → Bool
is_mutation write = true
is_mutation invoke = true
is_mutation _ = false

abbrev pub is_kind_read_attributes : InteractionKind → Bool
is_kind_read_attributes read_attributes = true
is_kind_read_attributes _ = false

abbrev pub is_kind_read_events : InteractionKind → Bool
is_kind_read_events read_events = true
is_kind_read_events _ = false

abbrev pub is_kind_write : InteractionKind → Bool
is_kind_write write = true
is_kind_write _ = false

-- The member kind and the operation of a mutation.
abbrev pub mutation_member : InteractionKind → MemberKind
mutation_member write = MemberKind.attribute
mutation_member _ = MemberKind.command

abbrev pub mutation_operation : InteractionKind → Operation
mutation_operation write = Operation.write
mutation_operation _ = Operation.invoke

unfoldable pub valid_attribute_result : InteractionRequest → PathResult → AttributeData → Bool
valid_attribute_result request result attribute =
    not (is_kind_read_events request.kind)
    && same_path result.path attribute.path
    && accepted (
        validate_element MemberKind.attribute result.path.cluster result.path.member Operation.read
          attribute.value)

unfoldable pub valid_event_result : InteractionRequest → PathResult → EventData → Bool
valid_event_result request result event =
    is_kind_read_events request.kind
    && same_path result.path event.path
    && accepted (
        validate_element MemberKind.event result.path.cluster result.path.member Operation.read
          event.value)

abbrev pub has_no_effect : InteractionEffect → Bool
has_no_effect InteractionEffect.none = true
has_no_effect InteractionEffect.unknown = false

-- One alternative of attribute, event and error is given.
unfoldable pub valid_alternative :
    InteractionRequest
    → PathResult
    → Option AttributeData
    → Option EventData
    → Option InteractionError
    → Bool
unfolding valid_attribute_result valid_event_result
valid_alternative request result (some attribute) none none =
    valid_attribute_result request result attribute
valid_alternative request result none (some event) none = valid_event_result request result event
valid_alternative request result none none (some error) =
    not (is_empty error.code) && has_no_effect error.effect
valid_alternative _ _ _ _ _ = false

unfoldable pub valid_path_result : InteractionRequest → PathResult → Bool
unfolding valid_alternative
valid_path_result request result =
    any_of (λ path. selected path result.path) request.paths
    && valid_alternative request result result.attribute result.event result.error

unfoldable pub valid_encoded_result_size : ℕ → Bool
valid_encoded_result_size bytes = leb bytes maximum_interaction_result_bytes

-- The last check of a mutation: one path, and a value that its member accepts. The source reads the
-- components of the first path before it counts the paths; they are there by the checks before.
unfoldable pub valid_mutation_value : InteractionKind → Option ℕ → Option ℕ → Option Element → Bool
valid_mutation_value kind (some cluster) (some member) (some value) =
    accepted
      (validate_element (mutation_member kind) cluster member (mutation_operation kind) value)
valid_mutation_value kind _ _ _ = false

unfoldable pub valid_mutation : InteractionRequest → List PathSelector → Bool
unfolding valid_mutation_value
valid_mutation request (path ∷ []) =
    valid_mutation_value request.kind path.cluster path.member request.value
valid_mutation request _ = false

unfoldable pub valid_interaction_request : InteractionRequest → Bool
unfolding valid_mutation
valid_interaction_request request =
    let mutation = is_mutation request.kind in
    let concrete = not (is_kind_read_attributes request.kind) in
    not (
      request.timeout_ms == 0
      || ltb 60000 request.timeout_ms
      || request.fabric_id == 0
      || request.node_id == 0
      || ltb maximum_operational_node request.node_id
      || is_empty request.paths
      || ltb maximum_interaction_paths (length request.paths))
    && all_of
        (λ path.
          path.fabric_id == request.fabric_id
          && path.node_id == request.node_id
          && valid_selector path concrete)
        request.paths
    && not (xor mutation (has_value request.value))
    && not (has_value request.expected_data_version && not (is_kind_write request.kind))
    && unless_given (λ t. not (not mutation || t == 0 || ltb request.timeout_ms t))
        request.timed_request_timeout_ms
    && not (has_value request.minimum_event_number && not (is_kind_read_events request.kind))
    && (if mutation
        then valid_mutation request request.paths
        else (not (has_value request.value)
            && not (has_value request.expected_data_version)
            && not (has_value request.timed_request_timeout_ms)))

-- A response that reports an error.
unfoldable pub valid_error_response : InteractionResponse → Bool
valid_error_response response =
    (elim response.error [ none ↦ false | some error ↦ not (is_empty error.code) ])
    && is_empty response.results
    && not (has_value response.response_path)
    && not (has_value response.response_value)

unfoldable pub valid_read_response : InteractionRequest → InteractionResponse → Bool
valid_read_response request response =
    let all_wildcard =
      is_kind_read_attributes request.kind
      && all_of
          (λ path.
            not (has_value path.endpoint)
            || not (has_value path.cluster)
            || not (has_value path.member))
          request.paths in
    (not (is_empty response.results) || all_wildcard || is_kind_read_events request.kind)
    && all_of (valid_path_result request) response.results

unfoldable pub valid_write_response : PathSelector → InteractionResponse → Bool
valid_write_response target response =
    is_empty response.results
    && response.status == 0
    && (elim response.response_path [ none ↦ false | some path ↦ selected target path ])
    && not (has_value response.response_value)

abbrev pub given_as : Option ℕ → ℕ → Bool
given_as none n = false
given_as (some m) n = m == n

-- The path and the value that an invoke gives back.
unfoldable pub valid_invoke_data : PathSelector → Option ConcretePath → Option Element → Bool
valid_invoke_data target none none = true
valid_invoke_data target (some path) (some value) =
    path.fabric_id == target.fabric_id
    && path.node_id == target.node_id
    && given_as target.endpoint path.endpoint
    && given_as target.cluster path.cluster
    && accepted
        (validate_element MemberKind.command path.cluster path.member Operation.invoke value)
valid_invoke_data target _ _ = false

unfoldable pub valid_mutation_response :
    InteractionRequest → List PathSelector → InteractionResponse → Bool
unfolding valid_write_response valid_invoke_data
valid_mutation_response request (target ∷ []) response =
    if is_kind_write request.kind
    then valid_write_response target response
    else (is_empty response.results
        && response.status == 0
        && valid_invoke_data target response.response_path response.response_value)
valid_mutation_response request _ response = false

unfoldable pub valid_interaction_response : InteractionRequest → InteractionResponse → Bool
unfolding valid_error_response valid_read_response valid_mutation_response
valid_interaction_response request response =
    if not response.is_ok
    then valid_error_response response
    else if has_value response.error || ltb maximum_interaction_reports (length response.results)
    then false
    else if not (is_mutation request.kind)
    then valid_read_response request response
    else valid_mutation_response request request.paths response

unfoldable pub remaining_timeout_ms : ℕ → ℕ → ℕ
remaining_timeout_ms timeout_ms elapsed_ms =
    if leb timeout_ms elapsed_ms then 0 else timeout_ms - elapsed_ms

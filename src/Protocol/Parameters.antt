-- ===== src/Protocol/Parameters.antt =====
-- The parameters of the host's requests (native/src/protocol.cpp).
pub mod Given
pub mod Selecting
pub mod Admitted
use wotex_matter.Base.{
  ℕ, zero, suc, ◌+◌, ◌%◌, Bool, true, false, not, ◌&&◌, ◌||◌, List, [], ◌∷◌, Option, none, some,
  length, ◌==◌, leb, ltb, if◌then◌else◌, Bytes, eq_bytes, has_value, is_empty,
}
use wotex_matter.Json.{
  Json, Items, no_items, item, Members, no_members, member, count, at, get_string, get_unsigned,
  get_object,
}
use wotex_matter.Value.Types.{Element}
use wotex_matter.Interaction.Types.{InteractionKind, PathSelector, InteractionRequest}
use wotex_matter.Interaction.Validity.{valid_interaction_request}
use wotex_matter.Subscription.Types.{
  SubscriptionKind, SubscriptionRequest, valid_subscription_request,
}
use wotex_matter.Commissioning.{
  CommissioningRequest, CommissioningWindowRequest, valid_commissioning_request,
  valid_commissioning_window_request,
}
use wotex_matter.Protocol.Words
use wotex_matter.Protocol.Elements.{exact_keys, is_string, element_value, count_items}
use wotex_matter.Protocol.Envelopes.{◌>>=◌, canonical_generation}

-- Unsigned.
abbrev pub at_most : ℕ → ℕ → Option ℕ
at_most maximum n = if leb n maximum then some n else none

unfoldable pub unsigned : ℕ → Option Json → Option ℕ
unsigned maximum j = get_unsigned j >>= at_most maximum

-- PathComponent: `some none` for "any".
abbrev pub given : Option ℕ → Option (Option ℕ)
given none = none
given (some n) = some (some n)

unfoldable pub path_component : ℕ → Option Json → Option (Option ℕ)
unfolding unsigned
path_component maximum j = if is_string Words.any j then some none else given (unsigned maximum j)

-- ValidCluster.
abbrev pub valid_cluster_id : ℕ → Bool
valid_cluster_id cluster =
    leb cluster 0x7FFF
    || (leb 0x0001_FC00 cluster
        && leb cluster 0xFFF4_FFFE
        && leb 0xFC00 (cluster % 65536)
        && leb (cluster % 65536) 0xFFFE)

abbrev pub selector_keys : List Bytes
selector_keys = Words.fabric_id ∷ Words.node_id ∷ Words.endpoint ∷ Words.cluster ∷ Words.member ∷ []

abbrev pub valid_cluster_or_any : Option ℕ → Bool
valid_cluster_or_any none = true
valid_cluster_or_any (some cluster) = valid_cluster_id cluster

abbrev pub admits : Bool → PathSelector → Bool
admits wildcards s =
    ltb 0 s.fabric_id
    && ltb 0 s.node_id
    && (wildcards || (has_value s.endpoint && has_value s.cluster && has_value s.member))
    && valid_cluster_or_any s.cluster

-- Selector. The narrowing casts keep every number, which is in range.
unfoldable pub selector : Bool → Json → Option PathSelector
unfolding exact_keys at unsigned path_component
selector wildcards j = do
  fabric_id ← unsigned 0xFFFF_FFFF_FFFF_FFFF (at Words.fabric_id j)
  node_id ← unsigned 0xFFFF_FFEF_FFFF_FFFF (at Words.node_id j)
  endpoint ← path_component 0xFFFE (at Words.endpoint j)
  cluster ← path_component 0xFFF4_FFFE (at Words.cluster j)
  path_member ← path_component 0xFFFF_FFFE (at Words.member j)
  let path : PathSelector = record {
    fabric_id = fabric_id;
    node_id = node_id;
    endpoint = endpoint;
    cluster = cluster;
    member = path_member;
  } in
      if exact_keys selector_keys j && admits wildcards path then some path else none

-- The loop over "paths".
unfoldable pub selectors : Bool → Items → Option (List PathSelector)
unfolding selector
selectors wildcards no_items = some []
selectors wildcards (item x xs) = do
  path ← selector wildcards x
  paths ← selectors wildcards xs
  some (path ∷ paths)

abbrev pub get_array : Option Json → Option Items
get_array (some (Json.array xs)) = some xs
get_array _ = none

-- Between 1 and so many paths.
abbrev pub bounded_items : ℕ → Items → Option Items
bounded_items maximum xs =
    if leb 1 (count_items xs) && leb (count_items xs) maximum then some xs else none

-- The path of a request that has its components beside its other parameters.
unfoldable pub own_path : Json → Option Json
unfolding at
own_path parameters = do
  fabric_id ← at Words.fabric_id parameters
  node_id ← at Words.node_id parameters
  endpoint ← at Words.endpoint parameters
  cluster ← at Words.cluster parameters
  path_member ← at Words.member parameters
  some (
      Json.object (
        member Words.fabric_id fabric_id (
          member Words.node_id node_id (
            member Words.endpoint endpoint
              (member Words.cluster cluster (member Words.member path_member no_members))))))

-- OptionalUint: `some none` where the key is missing.
unfoldable pub optional_uint : ℕ → Option Json → Option (Option ℕ)
unfolding unsigned
optional_uint maximum none = some none
optional_uint maximum (some j) = given (unsigned maximum (some j))

abbrev pub is_single : InteractionKind → Bool
is_single InteractionKind.read_attribute = true
is_single InteractionKind.write = true
is_single InteractionKind.invoke = true
is_single _ = false

abbrev pub is_read_attributes : InteractionKind → Bool
is_read_attributes InteractionKind.read_attributes = true
is_read_attributes _ = false

abbrev pub has_input : InteractionKind → Bool
has_input InteractionKind.write = true
has_input InteractionKind.invoke = true
has_input _ = false

unfoldable pub interaction_kind : Bytes → Option InteractionKind
interaction_kind operation =
    if eq_bytes operation Words.read
    then some InteractionKind.read_attribute
    else if eq_bytes operation Words.read_paths
    then some InteractionKind.read_attributes
    else if eq_bytes operation Words.read_events
    then some InteractionKind.read_events
    else if eq_bytes operation Words.write
    then some InteractionKind.write
    else if eq_bytes operation Words.invoke
    then some InteractionKind.invoke
    else none

unfoldable pub interaction_paths : InteractionKind → Json → Option (List PathSelector)
unfolding own_path selectors at
interaction_paths kind parameters =
    if is_single kind
    then (own_path parameters >>= λ path. selector false path >>= λ s. some (s ∷ []))
    else (get_array (at Words.paths parameters) >>= λ xs.
        bounded_items 64 xs >>= selectors (is_read_attributes kind))

abbrev pub element_read : Option Json → Option (Option Element)
element_read none = none
element_read (some j) = element_value 9 0 j >>= λ read. some (some read.0)

unfoldable pub interaction_input : InteractionKind → Json → Option (Option Element)
unfolding at element_value
interaction_input kind parameters =
    if has_input kind then element_read (at Words.value parameters) else some none

abbrev pub one_if_given : Option Json → ℕ
one_if_given none = 0
one_if_given (some j) = 1

-- The keys of the parameters are the path's and the options that are given.
abbrev pub key_count : InteractionKind → Json → ℕ
key_count kind parameters =
    (if is_single kind then 5 else 1)
    + one_if_given (at Words.value parameters)
    + one_if_given (at Words.expected_data_version parameters)
    + one_if_given (at Words.timed_request_timeout_ms parameters)
    + one_if_given (at Words.min_event_number parameters)

-- A timed request without time is refused.
abbrev pub not_zero : Option ℕ → Option (Option ℕ)
not_zero none = some none
not_zero (some n) = if ltb 0 n then some (some n) else none

abbrev pub first_path : List PathSelector → Option PathSelector
first_path [] = none
first_path (path ∷ paths) = some path

abbrev pub has_count : ℕ → Option Members → Bool
has_count n none = false
has_count n (some fs) = count fs == n

-- InteractionParameters.
unfoldable pub interaction_parameters : Bytes → Json → ℕ → Option InteractionRequest
unfolding interaction_kind interaction_paths interaction_input optional_uint at
    valid_interaction_request
interaction_parameters operation parameters timeout_ms = do
  kind ← interaction_kind operation
  paths ← interaction_paths kind parameters
  front ← first_path paths
  expected ← optional_uint 0xFFFF_FFFF (at Words.expected_data_version parameters)
  timed ← optional_uint 65535 (at Words.timed_request_timeout_ms parameters)
  minimum_event ← optional_uint 0xFFFF_FFFF_FFFF_FFFF (at Words.min_event_number parameters)
  timed_request ← not_zero timed
  input ← interaction_input kind parameters
  let request : InteractionRequest = record {
    kind = kind;
    fabric_id = front.fabric_id;
    node_id = front.node_id;
    paths = paths;
    value = input;
    expected_data_version = expected;
    timed_request_timeout_ms = timed_request;
    minimum_event_number = minimum_event;
    timeout_ms = timeout_ms;
  } in
      if has_count (key_count kind parameters) (get_object (some parameters))
        && valid_interaction_request request
      then some request
      else none

-- ===== src/Protocol/Services.antt =====
-- The parameters of subscriptions and of commissioning (native/src/protocol.cpp).
use wotex_matter.Base.{
  ℕ, Bool, false, ◌&&◌, List, [], ◌∷◌, Option, none, some, ltb, if◌then◌else◌, Bytes, eq_bytes,
}
use wotex_matter.Json.{Json, at, get_string}
use wotex_matter.Subscription.Types.{
  SubscriptionKind, SubscriptionRequest, valid_subscription_request,
}
use wotex_matter.Commissioning.{
  CommissioningRequest, CommissioningWindowRequest, valid_commissioning_request,
  valid_commissioning_window_request,
}
use wotex_matter.Protocol.Words
use wotex_matter.Protocol.Elements.{exact_keys}
use wotex_matter.Protocol.Envelopes.{◌>>=◌, canonical_generation}
use wotex_matter.Protocol.Parameters.{unsigned, get_array, bounded_items, selectors, first_path}

abbrev pub get_boolean : Option Json → Option Bool
get_boolean (some (Json.boolean b)) = some b
get_boolean _ = none

unfoldable pub subscription_kind : Option Bytes → Option SubscriptionKind
subscription_kind none = none
subscription_kind (some kind) =
    if eq_bytes kind Words.attribute
    then some SubscriptionKind.attribute
    else if eq_bytes kind Words.event
    then some SubscriptionKind.event
    else none

abbrev pub positive_number : ℕ → Option ℕ
positive_number n = if ltb 0 n then some n else none

abbrev pub subscription_keys : List Bytes
subscription_keys =
    Words.subscription_id ∷ Words.kind ∷ Words.paths ∷ Words.min_interval_s ∷ Words.max_interval_s
    ∷ Words.resubscribe ∷ Words.queue_limit ∷ []

-- SubscriptionParameters.
unfoldable pub subscription_parameters : Json → ℕ → Option SubscriptionRequest
unfolding exact_keys at canonical_generation subscription_kind unsigned selectors
subscription_parameters parameters timeout_ms = do
  subscription_id ← canonical_generation (get_string (at Words.subscription_id parameters))
  kind ← subscription_kind (get_string (at Words.kind parameters))
  items ← get_array (at Words.paths parameters)
  bounded ← bounded_items 64 items
  resubscribe ← get_boolean (at Words.resubscribe parameters)
  minimum ← unsigned 65535 (at Words.min_interval_s parameters)
  maximum ← unsigned 65535 (at Words.max_interval_s parameters)
  positive_maximum ← positive_number maximum
  queue_limit ← unsigned 10000 (at Words.queue_limit parameters)
  positive_limit ← positive_number queue_limit
  paths ← selectors false bounded
  front ← first_path paths
  let request : SubscriptionRequest = record {
    subscription_id = subscription_id;
    kind = kind;
    fabric_id = front.fabric_id;
    node_id = front.node_id;
    paths = paths;
    min_interval_s = minimum;
    max_interval_s = positive_maximum;
    resubscribe = resubscribe;
    queue_limit = positive_limit;
    timeout_ms = timeout_ms;
  } in
      if exact_keys subscription_keys parameters && valid_subscription_request request
      then some request
      else none

-- UnsubscribeParameters: the subscription and its generation.
unfoldable pub unsubscribe_parameters : Json → Option (Bytes × ℕ)
unfolding exact_keys at canonical_generation unsigned
unsubscribe_parameters parameters = do
  subscription_id ← canonical_generation (get_string (at Words.subscription_id parameters))
  generation ← unsigned 0xFFFF_FFFF_FFFF_FFFF (at Words.generation parameters)
  positive_generation ← positive_number generation
  (if exact_keys (Words.subscription_id ∷ Words.generation ∷ []) parameters
      then some (subscription_id, positive_generation)
      else none)

-- CommissioningParameters.
unfoldable pub commissioning_parameters : Json → ℕ → Option CommissioningRequest
unfolding exact_keys at unsigned
commissioning_parameters parameters timeout_ms = do
  node_id ← unsigned 0xFFFF_FFEF_FFFF_FFFF (at Words.node_id parameters)
  setup_pin ← unsigned 99999998 (at Words.setup_pin parameters)
  discriminator ← unsigned 4095 (at Words.discriminator parameters)
  let request : CommissioningRequest = record {
    node_id = node_id;
    setup_pin = setup_pin;
    discriminator = discriminator;
    timeout_ms = timeout_ms;
  } in
      if exact_keys (Words.node_id ∷ Words.setup_pin ∷ Words.discriminator ∷ []) parameters
        && valid_commissioning_request request
      then some request
      else none

-- CommissioningWindowParameters.
unfoldable pub commissioning_window_parameters : Json → ℕ → Option CommissioningWindowRequest
unfolding exact_keys at unsigned
commissioning_window_parameters parameters timeout_ms = do
  node_id ← unsigned 0xFFFF_FFEF_FFFF_FFFF (at Words.node_id parameters)
  timeout_s ← unsigned 900 (at Words.timeout_s parameters)
  iteration_count ← unsigned 100000 (at Words.iteration_count parameters)
  discriminator ← unsigned 4095 (at Words.discriminator parameters)
  let request : CommissioningWindowRequest = record {
    node_id = node_id;
    timeout_s = timeout_s;
    iteration_count = iteration_count;
    discriminator = discriminator;
    timeout_ms = timeout_ms;
  } in
      if exact_keys
          (Words.node_id ∷ Words.timeout_s ∷ Words.iteration_count ∷ Words.discriminator ∷ [])
          parameters
        && valid_commissioning_window_request request
      then some request
      else none

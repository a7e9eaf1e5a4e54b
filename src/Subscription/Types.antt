-- ===== src/Subscription/Types.antt =====
-- Requests and reports: native/include/wotex_matter/subscription.hpp and the checks of
-- native/src/subscription.cpp.
use wotex_matter.Base.{
  ℕ, Bool, true, false, not, ◌&&◌, ◌||◌, List, [], ◌∷◌, Option, none, some, ◌==◌, ltb, leb, length,
  all_of, any_of, is_empty, has_value, Bytes, eq_bytes, if◌then◌else◌,
}
use wotex_matter.Interaction.Types.{PathSelector, ConcretePath, PathResult}

pub data SubscriptionKind : Type 0 where
  attribute event : SubscriptionKind

pub record SubscriptionRequest : Type 0 where
  pub subscription_id : Bytes
  pub kind : SubscriptionKind
  pub fabric_id : ℕ
  pub node_id : ℕ
  pub paths : List PathSelector
  pub min_interval_s : ℕ
  pub max_interval_s : ℕ
  pub resubscribe : Bool
  pub queue_limit : ℕ
  pub timeout_ms : ℕ

pub record SubscriptionReport : Type 0 where
  pub subscription_id : Bytes
  pub generation : ℕ
  pub kind : SubscriptionKind
  pub result : PathResult
  pub initial : Bool
  pub report_id : ℕ
  pub min_interval_s : ℕ
  pub max_interval_s : ℕ
  pub sdk_subscription_id : ℕ

abbrev pub kind_code : SubscriptionKind → ℕ
kind_code attribute = 0
kind_code event = 1

abbrev pub is_given : Option ℕ → ℕ → Bool
is_given none n = false
is_given (some m) n = m == n

unfoldable pub path_matches : PathSelector → ConcretePath → Bool
path_matches selector path =
    selector.fabric_id == path.fabric_id
    && selector.node_id == path.node_id
    && is_given selector.endpoint path.endpoint
    && is_given selector.cluster path.cluster
    && is_given selector.member path.member

unfoldable pub admitted_recipe : SubscriptionKind → ℕ → ℕ → Bool
admitted_recipe event cluster member = cluster == 0x0039 && member == 0x0003
admitted_recipe attribute cluster member =
    (cluster == 0x0201 && member == 0x0000)
    || (cluster == 0x0006 && member == 0x0000)
    || (cluster == 0x0039 && member == 0x0011)
    || (cluster == 0x0402 && member == 0x0000)

abbrev pub is_hex_byte : ℕ → Bool
is_hex_byte byte = (leb b'0' byte && leb byte b'9') || (leb b'a' byte && leb byte b'f')

-- A path as the set of the request holds it: endpoint, cluster, member.
abbrev pub Triple : Type 0
Triple = ℕ × ℕ × ℕ

abbrev pub eq_triple : Triple → Triple → Bool
eq_triple (a, b, c) (x, y, z) = a == x && b == y && c == z

-- The triple of a path that passes the checks of the loop.
unfoldable pub admitted_path : SubscriptionRequest → PathSelector → Option Triple
unfolding admitted_recipe
admitted_path request path = elim path.endpoint [
  | none ↦ none
  | some endpoint ↦ elim path.cluster [
    | none ↦ none
    | some cluster ↦ elim path.member [
      | none ↦ none
      | some member ↦
          if path.fabric_id == request.fabric_id
            && path.node_id == request.node_id
            && admitted_recipe request.kind cluster member
          then some (endpoint, cluster, member)
          else none
    ]
  ]
]

-- The loop over the paths, with the set of those seen.
unfoldable pub admitted_paths : SubscriptionRequest → List Triple → List PathSelector → Bool
admitted_paths request seen [] = true
admitted_paths request seen (path ∷ paths) = elim (admitted_path request path) [
  | none ↦ false
  | some t ↦ if any_of (eq_triple t) seen then false else admitted_paths request (t ∷ seen) paths
]

unfoldable pub valid_subscription_request : SubscriptionRequest → Bool
unfolding admitted_paths
valid_subscription_request request =
    not (
      not (length request.subscription_id == 32)
      || request.fabric_id == 0
      || request.node_id == 0
      || is_empty request.paths
      || ltb 64 (length request.paths)
      || ltb request.max_interval_s request.min_interval_s
      || request.max_interval_s == 0
      || request.queue_limit == 0
      || ltb 10000 request.queue_limit
      || request.timeout_ms == 0
      || ltb 60000 request.timeout_ms)
    && all_of is_hex_byte request.subscription_id
    && admitted_paths request [] request.paths

-- The alternative of the result that the subscription's kind calls for.
unfoldable pub right_alternative : SubscriptionKind → PathResult → Bool
right_alternative attribute result =
    has_value result.attribute && not (has_value result.event) && not (has_value result.error)
right_alternative event result =
    has_value result.event && not (has_value result.attribute) && not (has_value result.error)

unfoldable pub valid_subscription_report : SubscriptionRequest → SubscriptionReport → Bool
unfolding right_alternative path_matches
valid_subscription_report request report =
    not (
      not (eq_bytes report.subscription_id request.subscription_id)
      || report.generation == 0
      || not (kind_code report.kind == kind_code request.kind)
      || report.report_id == 0
      || report.max_interval_s == 0
      || ltb report.max_interval_s report.min_interval_s)
    && right_alternative request.kind report.result
    && any_of (λ path. path_matches path report.result.path) request.paths

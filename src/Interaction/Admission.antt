-- ===== src/Interaction/Admission.antt =====
-- What the checks of native/src/interaction.cpp admit.
use wotex_matter.Base.{
  ℕ, ◌≡◌, refl, true, not, ◌&&◌, List, [], ◌∷◌, Option, some, arith, all_of, has_value, ◌==◌,
}
use wotex_matter.Value.Types.{Element, ConversionError}
use wotex_matter.Value.Validate.{validate_element}
use wotex_matter.Interaction.Types.{InteractionKind, InteractionRequest, PathSelector}
use wotex_matter.Interaction.Validity.{
  valid_interaction_request, valid_mutation, valid_mutation_value, valid_selector,
  is_kind_read_attributes, is_mutation, mutation_member, mutation_operation, accepted,
}

accepted→none : (e : ConversionError) → accepted e ≡ true → e ≡ ConversionError.none
accepted→none ConversionError.none h = refl
accepted→none ConversionError.unsupported_schema h = cc
accepted→none ConversionError.unsupported_operation h = cc
accepted→none ConversionError.not_writable h = cc
accepted→none ConversionError.invalid_value h = cc

valid_mutation_value_sound :
    (kind : InteractionKind) (c m : Option ℕ) (v : Option Element)
    → valid_mutation_value kind c m v ≡ true
    → (cluster : ℕ) × (member : ℕ) × (value : Element) × (c ≡ some cluster)
      × (m ≡ some member)
      × (v ≡ some value)
      × (validate_element (mutation_member kind) cluster member (mutation_operation kind) value
          ≡ ConversionError.none)
unfolding valid_mutation_value
valid_mutation_value_sound kind (some c) (some m) (some v) h =
    (c, m, v, refl, refl, refl, accepted→none _ h)
valid_mutation_value_sound kind _ _ _ h = cc

-- The one target of a mutation: a path of the request's node with an endpoint, the cluster and the
-- member, and the value, which the registry accepts for that member and the request's operation.
abbrev pub Target : InteractionRequest → Type 0
Target request =
    (path : PathSelector) × (cluster : ℕ) × (member : ℕ) × (value : Element) × (request.paths
      ≡ path ∷ [])
    × (path.fabric_id ≡ request.fabric_id)
    × (path.node_id ≡ request.node_id)
    × (has_value path.endpoint ≡ true)
    × (path.cluster ≡ some cluster)
    × (path.member ≡ some member)
    × (request.value ≡ some value)
    × (validate_element (mutation_member request.kind) cluster member
          (mutation_operation request.kind) value
        ≡ ConversionError.none)

singleton-Target :
    (request : InteractionRequest) (paths : List PathSelector)
    → request.paths ≡ paths
    → all_of
        (λ path.
          path.fabric_id == request.fabric_id
          && path.node_id == request.node_id
          && valid_selector path (not (is_kind_read_attributes request.kind)))
        paths
      ≡ true
    → is_mutation request.kind ≡ true
    → valid_mutation request paths ≡ true
    → Target request
unfolding valid_mutation valid_selector
singleton-Target request [] same each mutates h = cc
singleton-Target request (path ∷ other ∷ rest) same each mutates h = cc
singleton-Target request (path ∷ []) same each mutates h =
    let (cluster, member, value, hc, hm, hv, fits) =
      valid_mutation_value_sound request.kind path.cluster path.member request.value h in
    (path, cluster, member, value, same, ground arith, ground arith, ground arith, hc, hm, hv, fits)

-- An admitted write or invoke has exactly one path; it is in the request's fabric and node, it names an
-- endpoint, a cluster and a member, and the registry accepts the request's value for that member and
-- that operation.
pub valid_interaction_request-Target :
    (request : InteractionRequest)
    → valid_interaction_request request ≡ true
    → is_mutation request.kind ≡ true
    → Target request
unfolding valid_interaction_request
valid_interaction_request-Target request h mutates =
    singleton-Target request request.paths refl (ground arith) mutates (ground arith)

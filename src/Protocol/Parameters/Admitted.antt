-- ===== src/Protocol/Parameters/Admitted.antt =====
-- What InteractionParameters lets through.
use wotex_matter.Base.{
  ℕ, ◌+◌, ◌≡◌, refl, sym, ap, ◌∙◌, true, List, [], ◌∷◌, Option, none, some, and_true, Bytes,
  has_value,
}
use mathlib.Core.Path.{subst}
use wotex_matter.Json.{Json, at, get_object}
use wotex_matter.Value.Types.{Element}
use wotex_matter.Interaction.Types.{InteractionKind, PathSelector, InteractionRequest}
use wotex_matter.Interaction.Validity.{valid_interaction_request, is_mutation}
use wotex_matter.Interaction.Admission.{Target, valid_interaction_request-Target}
use wotex_matter.Protocol.Words
use wotex_matter.Protocol.Parameters.{
  one_if_given, key_count, has_count, interaction_kind, interaction_paths, interaction_input,
  first_path, optional_uint, not_zero, interaction_parameters,
}
use wotex_matter.Protocol.Parameters.Given.{
  some_injective, bind_some, if_some, operation-Named, path_component-some, optional_uint-Given,
  not_zero_same, Given, IsRead,
}
use wotex_matter.Protocol.Parameters.Selecting.{
  Selected, single_of, input_of, interaction_paths-OnePath, interaction_input-ValueRead,
  has_count-some,
}

has_some : {A : Type 0} (o : Option A) → has_value o ≡ true → (x : A) × (o ≡ some x)
has_some none e = cc e
has_some (some x) e = (x, refl)

first_of :
    (paths : List PathSelector) (s front : PathSelector)
    → paths ≡ s ∷ []
    → first_path paths ≡ some front
    → s ≡ front
first_of paths s front e f = some_injective (sym (ap first_path e) ∙ f)

same_path_of : (s t : PathSelector) → s ∷ [] ≡ t ∷ [] → s ≡ t
same_path_of s t e = cc e

path_of :
    (s : PathSelector) (e c m : ℕ)
    → s.endpoint ≡ some e
    → s.cluster ≡ some c
    → s.member ≡ some m
    → s ≡ record {
      fabric_id = s.fabric_id;
      node_id = s.node_id;
      endpoint = some e;
      cluster = some c;
      member = some m;
    }
path_of s e c m he hc hm = cc (he, hc, hm)

key_count-mutation :
    (kind : InteractionKind) (parameters j : Json)
    → is_mutation kind ≡ true
    → at Words.value parameters ≡ some j
    → key_count kind parameters
      ≡ 6
        + one_if_given (at Words.expected_data_version parameters)
        + one_if_given (at Words.timed_request_timeout_ms parameters)
        + one_if_given (at Words.min_event_number parameters)
key_count-mutation kind parameters j h e = rw (single_of kind h, e) refl

IsAdmitted : Bytes → Json → ℕ → InteractionRequest → Type 0
IsAdmitted operation parameters timeout_ms request =
    is_mutation request.kind ≡ true
    → IsRead operation parameters timeout_ms request × Target request

module _ (operation : Bytes) (parameters : Json) (timeout_ms : ℕ) (kind : InteractionKind)
    (paths : List PathSelector) (front : PathSelector) (expected timed after timed' : Option ℕ)
    (input : Option Element) where
  abbrev R : InteractionRequest
  R = record {
    kind = kind;
    fabric_id = front.fabric_id;
    node_id = front.node_id;
    paths = paths;
    value = input;
    expected_data_version = expected;
    timed_request_timeout_ms = timed';
    minimum_event_number = after;
    timeout_ms = timeout_ms;
  }

  -- The request that InteractionParameters has built.
  built-IsAdmitted :
      interaction_kind operation ≡ some kind
      → interaction_paths kind parameters ≡ some paths
      → first_path paths ≡ some front
      → optional_uint 0xFFFF_FFFF (at Words.expected_data_version parameters) ≡ some expected
      → optional_uint 65535 (at Words.timed_request_timeout_ms parameters) ≡ some timed
      → optional_uint 0xFFFF_FFFF_FFFF_FFFF (at Words.min_event_number parameters) ≡ some after
      → not_zero timed ≡ some timed'
      → interaction_input kind parameters ≡ some input
      → has_count (key_count kind parameters) (get_object (some parameters)) ≡ true
      → valid_interaction_request R ≡ true
      → IsAdmitted operation parameters timeout_ms R
  unfolding IsAdmitted
  built-IsAdmitted named read first he ht ha nonzero valued counts valid mutates =
      let target : Target R = valid_interaction_request-Target R valid mutates in
      let (path, cluster, path_member, value, one, _, _, he', hc, hm, hv, _) = target in
      let (s, single, chosen) =
        interaction_paths-OnePath kind parameters paths (single_of kind mutates) read in
      let to_front : s ≡ front = first_of paths s front single first in
      let from_path : path ≡ front = same_path_of path s (sym one ∙ single) ∙ to_front in
      let (f, n, p, c, m) = subst (Selected parameters) to_front chosen in
      let (endpoint, fe) =
        has_some front.endpoint (subst (λ x. has_value x.endpoint ≡ true) from_path he') in
      let fc : front.cluster ≡ some cluster = subst (λ x. x.cluster ≡ some cluster) from_path hc in
      let fm : front.member ≡ some path_member =
        subst (λ x. x.member ≡ some path_member) from_path hm in
      let (j, nodes, at_j, read_j) =
        interaction_input-ValueRead kind parameters value (input_of kind mutates)
          (valued ∙ ap (λ x. some x) hv) in
      let (fields, whole, counted) = has_count-some _ parameters counts in
      (
        record {
          endpoint = endpoint;
          cluster = cluster;
          path_member = path_member;
          value_json = j;
          value = value;
          nodes = nodes;
          fields = fields;
          named = operation-Named operation kind named;
          fabric = f;
          node = n;
          at_endpoint = path_component-some 0xFFFE endpoint _ (p ∙ ap (λ x. some x) fe);
          at_cluster = path_component-some 0xFFF4_FFFE cluster _ (c ∙ ap (λ x. some x) fc);
          at_member = path_component-some 0xFFFF_FFFE path_member _ (m ∙ ap (λ x. some x) fm);
          one_path =
              one
              ∙ ap (λ x. x ∷ []) (from_path ∙ path_of front endpoint cluster path_member fe fc fm);
          at_value = at_j;
          value_read = read_j;
          valued = hv;
          expected = optional_uint-Given 0xFFFF_FFFF _ expected he;
          timed =
              subst (Given (at Words.timed_request_timeout_ms parameters))
                (sym (not_zero_same timed timed' nonzero)) (optional_uint-Given 65535 _ timed ht);
          after = optional_uint-Given 0xFFFF_FFFF_FFFF_FFFF _ after ha;
          members = whole;
          counted = counted ∙ key_count-mutation kind parameters j mutates at_j;
          timeout = refl;
        },
        target,
      )

interaction_parameters-IsAdmitted :
    (operation : Bytes) (parameters : Json) (timeout_ms : ℕ) (request : InteractionRequest)
    → interaction_parameters operation parameters timeout_ms ≡ some request
    → IsAdmitted operation parameters timeout_ms request
unfolding interaction_parameters
interaction_parameters-IsAdmitted operation parameters timeout_ms request e =
    let (kind, n, e1) = bind_some (interaction_kind operation) _ request e in
    let (paths, p, e2) = bind_some (interaction_paths kind parameters) _ request e1 in
    let (front, f, e3) = bind_some (first_path paths) _ request e2 in
    let (expected, x, e4) =
      bind_some (optional_uint 0xFFFF_FFFF (at Words.expected_data_version parameters)) _ request
        e3 in
    let (timed, t, e5) =
      bind_some (optional_uint 65535 (at Words.timed_request_timeout_ms parameters)) _ request e4 in
    let (after, a, e6) =
      bind_some (optional_uint 0xFFFF_FFFF_FFFF_FFFF (at Words.min_event_number parameters)) _
        request e5 in
    let (timed', z, e7) = bind_some (not_zero timed) _ request e6 in
    let (input, v, e8) = bind_some (interaction_input kind parameters) _ request e7 in
    let (tests, same) = if_some _ _ request e8 in
    let (counts, valid) = and_true _ _ tests in
    subst (IsAdmitted operation parameters timeout_ms) same (
      built-IsAdmitted operation parameters timeout_ms kind paths front expected timed after timed'
        input n p f x t a z v counts valid)

-- Whatever JSON the parameters are: a write or an invoke that InteractionParameters accepts is what they say.
-- The operation is the request's; the fabric, the node, the endpoint, the cluster and the member of its one
-- path are the unsigned numbers at their keys; its value is the element that is read at "value"; each of the
-- three options is the number at its key, or missing in both; the timeout is the given one; and the
-- parameters have no other member. The registry accepts the value for that member and that operation.
pub interaction_parameters-IsRead :
    (operation : Bytes) (parameters : Json) (timeout_ms : ℕ) (request : InteractionRequest)
    → interaction_parameters operation parameters timeout_ms ≡ some request
    → is_mutation request.kind ≡ true
    → IsRead operation parameters timeout_ms request × Target request
unfolding IsAdmitted
interaction_parameters-IsRead operation parameters timeout_ms request e mutates =
    interaction_parameters-IsAdmitted operation parameters timeout_ms request e mutates

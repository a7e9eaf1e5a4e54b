-- ===== src/Protocol/Responses/Defined.antt =====
-- InteractionJson reads no absent value.
use wotex_matter.Base.{
  ◌≡◌, refl, ap, Bool, true, false, not, ◌||◌, List, [], ◌∷◌, Option, none, some, if_cases,
  and_true, all_of, has_value, arith,
}
use wotex_matter.Json.{Json, Items}
use wotex_matter.Interaction.Types.{
  InteractionKind, PathSelector, InteractionRequest, InteractionError, AttributeData, EventData,
  PathResult, InteractionResponse, ConcretePath,
}
use wotex_matter.Interaction.Validity.{
  selected, valid_interaction_response, valid_read_response, valid_mutation_response,
  valid_write_response, valid_path_result, valid_alternative, valid_event_result, is_kind_write,
  is_mutation, is_kind_read_events,
}
use wotex_matter.Protocol.Responses.{
  Encoded, undefined, outcome_json, item_of, results_json, attribute_result, encoded_items,
  single_result, written_path, invoked, valid_result, interaction_json,
}

abbrev pub is_defined : Encoded → Bool
is_defined undefined = false
is_defined _ = true

outcome_given :
    (request : InteractionRequest) (r : PathResult) (a : Option AttributeData)
    (e : Option EventData) (x : Option InteractionError)
    → valid_alternative request r a e x ≡ true
    → has_value (outcome_json x a e) ≡ true
unfolding valid_alternative outcome_json
outcome_given request r (some a) e (some x) h = refl
outcome_given request r (some a) e none h = refl
outcome_given request r none (some e) (some x) h = refl
outcome_given request r none (some e) none h = refl
outcome_given request r none none (some x) h = refl
outcome_given request r none none none h = cc h

item_given :
    (path : ConcretePath) (o : Option Json) (rest : Option Items)
    → has_value o ≡ true
    → has_value rest ≡ true
    → has_value (item_of path o rest) ≡ true
item_given path none rest h k = cc h
item_given path (some o) none h k = cc k
item_given path (some o) (some rest) h k = refl

results_given :
    (request : InteractionRequest) (rs : List PathResult)
    → all_of (valid_path_result request) rs ≡ true
    → has_value (results_json rs) ≡ true
unfolding results_json valid_path_result
results_given request [] h = refl
results_given request (r ∷ rs) h =
    let (first, rest) = and_true _ _ h in
    let (selected, alternative) = and_true _ _ first in
    item_given r.path _ _ (outcome_given request r r.attribute r.event r.error alternative)
      (results_given request rs rest)

encoded_items-defined :
    (xs : Option Items) → has_value xs ≡ true → is_defined (encoded_items xs) ≡ true
encoded_items-defined none h = cc h
encoded_items-defined (some xs) h = refl

attribute_given :
    (request : InteractionRequest) (r : PathResult) (a : Option AttributeData)
    (e : Option EventData) (x : Option InteractionError)
    → is_kind_read_events request.kind ≡ false
    → valid_alternative request r a e x ≡ true
    → is_defined (attribute_result x a) ≡ true
unfolding valid_alternative valid_event_result attribute_result
attribute_given request r a e (some x) k h = refl
attribute_given request r (some a) e none k h = refl
attribute_given request r none (some e) none k h = ground (arith, h, k)
attribute_given request r none none none k h = cc h

single_result-defined :
    (request : InteractionRequest) (rs : List PathResult)
    → is_kind_read_events request.kind ≡ false
    → all_of (valid_path_result request) rs ≡ true
    → is_defined (single_result rs) ≡ true
unfolding single_result valid_path_result
single_result-defined request [] k h = refl
single_result-defined request (r ∷ s ∷ rs) k h = refl
single_result-defined request (r ∷ []) k h =
    attribute_given request r r.attribute r.event r.error k (and_true _ _ (and_true _ _ h).0).1

path_given :
    (o : Option ConcretePath) (test : ConcretePath → Bool)
    → elim o [ none ↦ false | some path ↦ test path ] ≡ true
    → is_defined (written_path o) ≡ true
path_given none test h = cc h
path_given (some path) test h = refl

written_given :
    (request : InteractionRequest) (targets : List PathSelector) (response : InteractionResponse)
    → is_kind_write request.kind ≡ true
    → valid_mutation_response request targets response ≡ true
    → is_defined (written_path response.response_path) ≡ true
unfolding valid_mutation_response valid_write_response
written_given request [] response k h = cc h
written_given request (t ∷ u ∷ targets) response k h = cc h
written_given request (t ∷ []) response k h =
    path_given response.response_path (selected t) (ground (arith, h, k))

results_valid :
    (request : InteractionRequest) (response : InteractionResponse)
    → is_mutation request.kind ≡ false
    → valid_interaction_response request response ≡ true
    → response.is_ok ≡ true
    → all_of (valid_path_result request) response.results ≡ true
unfolding valid_interaction_response valid_read_response
results_valid request response k h ok = ground (arith, k, h, ok)

mutation_valid :
    (request : InteractionRequest) (response : InteractionResponse)
    → is_mutation request.kind ≡ true
    → valid_interaction_response request response ≡ true
    → response.is_ok ≡ true
    → valid_mutation_response request request.paths response ≡ true
unfolding valid_interaction_response
mutation_valid request response k h ok = ground (arith, k, h, ok)

valid_result-defined :
    (kind : InteractionKind) (request : InteractionRequest) (response : InteractionResponse)
    → request.kind ≡ kind
    → valid_interaction_response request response ≡ true
    → response.is_ok ≡ true
    → is_defined (valid_result kind response) ≡ true
unfolding valid_result invoked
valid_result-defined InteractionKind.read_attribute request response e h ok =
    single_result-defined request response.results (ap is_kind_read_events e)
      (results_valid request response (ap is_mutation e) h ok)
valid_result-defined InteractionKind.read_attributes request response e h ok =
    encoded_items-defined (results_json response.results) (
      results_given request response.results
        (results_valid request response (ap is_mutation e) h ok))
valid_result-defined InteractionKind.read_events request response e h ok =
    encoded_items-defined (results_json response.results) (
      results_given request response.results
        (results_valid request response (ap is_mutation e) h ok))
valid_result-defined InteractionKind.write request response e h ok =
    written_given request request.paths response (ap is_kind_write e)
      (mutation_valid request response (ap is_mutation e) h ok)
valid_result-defined InteractionKind.invoke request response e h ok = refl

-- InteractionJson reads no absent optional value, whatever the request and the response.
pub interaction_json-defined :
    (request : InteractionRequest) (response : InteractionResponse)
    → is_defined (interaction_json request response) ≡ true
unfolding interaction_json
interaction_json-defined request response =
    if_cases (λ r. is_defined r ≡ true)
      (not (valid_interaction_response request response) || not response.is_ok) (λ _. refl)
      λ e.
        valid_result-defined request.kind request response refl (ground (arith, e))
          (ground (arith, e))

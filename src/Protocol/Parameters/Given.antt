-- ===== src/Protocol/Parameters/Given.antt =====
-- What a write or an invoke has to do with the JSON of its parameters (InteractionParameters of
-- native/src/protocol.cpp), and how its numbers and options are read.
use wotex_matter.Base.{
  ℕ, ◌+◌, ◌≡◌, refl, sym, ap, ◌∙◌, Bool, true, false, [], ◌∷◌, Option, none, some, leb, ltb,
  if◌then◌else◌, if_cases, Bytes, eq_bytes, eq_bytes→eq,
}
use wotex_matter.Json.{Json, Members, count, at}
use wotex_matter.Value.Types.{Element}
use wotex_matter.Interaction.Types.{InteractionKind, InteractionRequest}
use wotex_matter.Protocol.Words
use wotex_matter.Protocol.Elements.{element_value, is_string}
use wotex_matter.Protocol.Envelopes.{◌>>=◌}
use wotex_matter.Protocol.Parameters.{
  unsigned, given, path_component, one_if_given, interaction_kind, optional_uint, not_zero,
}

pub some_injective : {A : Type 0} {x y : A} → some x ≡ some y → x ≡ y
some_injective e = cc e

pub bind_some :
    {A B : Type 0} (o : Option A) (f : A → Option B) (b : B)
    → (o >>= f) ≡ some b
    → (a : A) × (o ≡ some a) × (f a ≡ some b)
bind_some none f b e = cc e
bind_some (some a) f b e = (a, refl, e)

pub if_some :
    {A : Type 0} (test : Bool) (x y : A)
    → (if test then some x else none) ≡ some y
    → (test ≡ true) × (x ≡ y)
if_some true x y e = (refl, cc e)
if_some false x y e = cc e

-- The operation of each kind of request.
abbrev pub name_of : InteractionKind → Bytes
name_of InteractionKind.read_attribute = Words.read
name_of InteractionKind.read_attributes = Words.read_paths
name_of InteractionKind.read_events = Words.read_events
name_of InteractionKind.write = Words.write
name_of InteractionKind.invoke = Words.invoke

-- The parameters have this number at the key.
abbrev pub Number : Bytes → Json → ℕ → Type 0
Number key parameters n = at key parameters ≡ some (Json.number_unsigned n)

-- An option is missing in the parameters and in the request, or it is the same number in both.
abbrev pub Given : Option Json → Option ℕ → Type 0
Given none o = o ≡ none
Given (some j) o = (n : ℕ) × (j ≡ Json.number_unsigned n) × (o ≡ some n)

-- A write or an invoke is what its parameters say: the operation, the numbers of its one path, the value, the
-- options and the timeout; and the parameters have no other member.
pub record IsRead (operation : Bytes) (parameters : Json) (timeout_ms : ℕ)
    (request : InteractionRequest) : Type 0 where
  pub endpoint : ℕ
  pub cluster : ℕ
  pub path_member : ℕ
  pub value_json : Json
  pub value : Element
  pub nodes : ℕ
  pub fields : Members
  pub named : operation ≡ name_of request.kind
  pub fabric : Number Words.fabric_id parameters request.fabric_id
  pub node : Number Words.node_id parameters request.node_id
  pub at_endpoint : Number Words.endpoint parameters endpoint
  pub at_cluster : Number Words.cluster parameters cluster
  pub at_member : Number Words.member parameters path_member
  pub one_path :
      request.paths
      ≡ record {
        fabric_id = request.fabric_id;
        node_id = request.node_id;
        endpoint = some endpoint;
        cluster = some cluster;
        member = some path_member;
      }
        ∷ []
  pub at_value : at Words.value parameters ≡ some value_json
  pub value_read : element_value 9 0 value_json ≡ some (value, nodes)
  pub valued : request.value ≡ some value
  pub expected : Given (at Words.expected_data_version parameters) request.expected_data_version
  pub timed : Given (at Words.timed_request_timeout_ms parameters) request.timed_request_timeout_ms
  pub after : Given (at Words.min_event_number parameters) request.minimum_event_number
  pub members : parameters ≡ Json.object fields
  pub counted :
      count fields
      ≡ 6
        + one_if_given (at Words.expected_data_version parameters)
        + one_if_given (at Words.timed_request_timeout_ms parameters)
        + one_if_given (at Words.min_event_number parameters)
  pub timeout : request.timeout_ms ≡ timeout_ms

abbrev Named : Bytes → InteractionKind → Option InteractionKind → Type 0
Named operation kind o = o ≡ some kind → operation ≡ name_of kind

operation_of_word :
    (operation word : Bytes) (kind kind' : InteractionKind)
    → name_of kind' ≡ word
    → eq_bytes operation word ≡ true
    → Named operation kind (some kind')
operation_of_word operation word kind kind' e t same =
    eq_bytes→eq operation word t ∙ sym e ∙ ap name_of (some_injective same)

pub operation-Named :
    (operation : Bytes) (kind : InteractionKind) → Named operation kind (interaction_kind operation)
unfolding interaction_kind
operation-Named operation kind =
    if_cases N (eq_bytes operation Words.read)
      (operation_of_word operation Words.read kind InteractionKind.read_attribute refl)
      λ _.
        if_cases N (eq_bytes operation Words.read_paths)
          (operation_of_word operation Words.read_paths kind InteractionKind.read_attributes refl)
          λ _.
            if_cases N (eq_bytes operation Words.read_events)
              (operation_of_word operation Words.read_events kind InteractionKind.read_events refl)
              λ _.
                if_cases N (eq_bytes operation Words.write)
                  (operation_of_word operation Words.write kind InteractionKind.write refl)
                  λ _.
                    if_cases N (eq_bytes operation Words.invoke)
                      (operation_of_word operation Words.invoke kind InteractionKind.invoke refl)
                      λ _ e. cc e
  where
    N : Option InteractionKind → Type 0
    N = Named operation kind

pub unsigned-some :
    (maximum n : ℕ) (j : Option Json)
    → unsigned maximum j ≡ some n
    → j ≡ some (Json.number_unsigned n)
unfolding unsigned
unsigned-some maximum n (some (Json.number_unsigned m)) e =
    let (_, same) = if_some (leb m maximum) m n e in ap (λ x. some (Json.number_unsigned x)) same
unsigned-some maximum n none e = cc e
unsigned-some maximum n (some (Json.null)) e = cc e
unsigned-some maximum n (some (Json.number_float)) e = cc e
unsigned-some maximum n (some (Json.boolean b)) e = cc e
unsigned-some maximum n (some (Json.number_negative m)) e = cc e
unsigned-some maximum n (some (Json.string t)) e = cc e
unsigned-some maximum n (some (Json.array xs)) e = cc e
unsigned-some maximum n (some (Json.object fs)) e = cc e

given-some : (o : Option ℕ) (n : ℕ) → given o ≡ some (some n) → o ≡ some n
given-some none n e = cc e
given-some (some m) n e = some_injective e

pub path_component-some :
    (maximum n : ℕ) (j : Option Json)
    → path_component maximum j ≡ some (some n)
    → j ≡ some (Json.number_unsigned n)
unfolding path_component
path_component-some maximum n j =
    if_cases (λ (o : Option (Option ℕ)). o ≡ some (some n) → j ≡ some (Json.number_unsigned n))
      (is_string Words.any j) (λ _ e. cc e)
      λ _ e. unsigned-some maximum n j (given-some (unsigned maximum j) n e)

pub optional_uint-Given :
    (maximum : ℕ) (j : Option Json) (o : Option ℕ) → optional_uint maximum j ≡ some o → Given j o
unfolding optional_uint
optional_uint-Given maximum none o e = sym (some_injective e)
optional_uint-Given maximum (some j) none e = absurd_given (unsigned maximum (some j)) e
  where
    absurd_given : (u : Option ℕ) → given u ≡ some none → Given (some j) none
    absurd_given none e' = cc e'
    absurd_given (some n) e' = cc e'
optional_uint-Given maximum (some j) (some n) e = (
  n,
  some_injective (unsigned-some maximum n (some j) (given-some (unsigned maximum (some j)) n e)),
  refl,
)

pub not_zero_same : (o r : Option ℕ) → not_zero o ≡ some r → r ≡ o
not_zero_same none r e = cc e
not_zero_same (some n) r e = let (_, same) = if_some (ltb 0 n) (some n) r e in sym same

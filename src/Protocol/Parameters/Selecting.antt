-- ===== src/Protocol/Parameters/Selecting.antt =====
-- How the path and the value of a write or an invoke are read (Selector and InteractionParameters of
-- native/src/protocol.cpp).
use wotex_matter.Base.{
  ℕ, ◌≡◌, refl, sym, ap, ◌∙◌, Bool, true, false, List, [], ◌∷◌, Option, none, some, eq_bytes, arith,
}
use mathlib.Core.Path.{subst}
use wotex_matter.Json.{Json, Members, count, at, find, get_object}
use wotex_matter.Value.Types.{Element}
use wotex_matter.Interaction.Types.{InteractionKind, PathSelector}
use wotex_matter.Interaction.Validity.{is_mutation}
use wotex_matter.Protocol.Words
use wotex_matter.Protocol.Elements.{element_value}
use wotex_matter.Protocol.Envelopes.{◌>>=◌}
use wotex_matter.Protocol.Parameters.{
  unsigned, path_component, selector, own_path, is_single, has_input, element_read, has_count,
  interaction_paths, interaction_input,
}
use wotex_matter.Protocol.Parameters.Given.{
  some_injective, bind_some, if_some, unsigned-some, Number,
}

-- What Selector reads.
abbrev pub Selected : Json → PathSelector → Type 0
Selected j s =
    Number Words.fabric_id j s.fabric_id
    × Number Words.node_id j s.node_id
    × (path_component 0xFFFE (at Words.endpoint j) ≡ some s.endpoint)
    × (path_component 0xFFF4_FFFE (at Words.cluster j) ≡ some s.cluster)
    × (path_component 0xFFFF_FFFE (at Words.member j) ≡ some s.member)

pub selector-some :
    (wildcards : Bool) (j : Json) (s : PathSelector) → selector wildcards j ≡ some s → Selected j s
unfolding selector
selector-some wildcards j s e =
    let (fabric_id, f, e1) =
      bind_some (unsigned 0xFFFF_FFFF_FFFF_FFFF (at Words.fabric_id j)) _ s e in
    let (node_id, n, e2) = bind_some (unsigned 0xFFFF_FFEF_FFFF_FFFF (at Words.node_id j)) _ s e1 in
    let (endpoint, p, e3) = bind_some (path_component 0xFFFE (at Words.endpoint j)) _ s e2 in
    let (cluster, c, e4) = bind_some (path_component 0xFFF4_FFFE (at Words.cluster j)) _ s e3 in
    let (path_member, m, e5) = bind_some (path_component 0xFFFF_FFFE (at Words.member j)) _ s e4 in
    let (_, same) = if_some _ _ s e5 in
    subst (Selected j) same (
      unsigned-some _ fabric_id (at Words.fabric_id j) f,
      unsigned-some _ node_id (at Words.node_id j) n,
      p,
      c,
      m,
    )

-- The path's object has the components of the parameters.
abbrev SamePath : Json → Json → Type 0
SamePath parameters j =
    (at Words.fabric_id j ≡ at Words.fabric_id parameters)
    × (at Words.node_id j ≡ at Words.node_id parameters)
    × (at Words.endpoint j ≡ at Words.endpoint parameters)
    × (at Words.cluster j ≡ at Words.cluster parameters)
    × (at Words.member j ≡ at Words.member parameters)

own_path_same : (parameters j : Json) → own_path parameters ≡ some j → SamePath parameters j
unfolding own_path at find eq_bytes
own_path_same parameters j e =
    let (fabric_id, f, e1) = bind_some (at Words.fabric_id parameters) _ j e in
    let (node_id, n, e2) = bind_some (at Words.node_id parameters) _ j e1 in
    let (endpoint, p, e3) = bind_some (at Words.endpoint parameters) _ j e2 in
    let (cluster, c, e4) = bind_some (at Words.cluster parameters) _ j e3 in
    let (path_member, m, e5) = bind_some (at Words.member parameters) _ j e4 in
    subst (SamePath parameters) (some_injective e5) (sym f, sym n, sym p, sym c, sym m)

pub single_of : (kind : InteractionKind) → is_mutation kind ≡ true → is_single kind ≡ true
single_of InteractionKind.write h = refl
single_of InteractionKind.invoke h = refl
single_of InteractionKind.read_attribute h = refl
single_of InteractionKind.read_attributes h = cc h
single_of InteractionKind.read_events h = cc h

pub input_of : (kind : InteractionKind) → is_mutation kind ≡ true → has_input kind ≡ true
input_of InteractionKind.write h = refl
input_of InteractionKind.invoke h = refl
input_of InteractionKind.read_attribute h = cc h
input_of InteractionKind.read_attributes h = cc h
input_of InteractionKind.read_events h = cc h

-- The one path of a mutation.
abbrev pub OnePath : Json → List PathSelector → Type 0
OnePath parameters paths = (s : PathSelector) × (paths ≡ s ∷ []) × Selected parameters s

pub interaction_paths-OnePath :
    (kind : InteractionKind) (parameters : Json) (paths : List PathSelector)
    → is_single kind ≡ true
    → interaction_paths kind parameters ≡ some paths
    → OnePath parameters paths
unfolding interaction_paths
interaction_paths-OnePath kind parameters paths single e =
    let e0 : (own_path parameters >>= λ path. selector false path >>= λ s. some (s ∷ []))
        ≡ some paths =
      ground (arith, e, single) in
    let (j, own, e1) = bind_some (own_path parameters) _ paths e0 in
    let (s, chosen, e2) = bind_some (selector false j) _ paths e1 in
    let (f, n, p, c, m) = own_path_same parameters j own in
    let read = selector-some false j s chosen in
    (
      s,
      sym (some_injective e2),
      (
        sym f ∙ read.0,
        sym n ∙ read.1,
        ap (path_component 0xFFFE) (sym p) ∙ read.2,
        ap (path_component 0xFFF4_FFFE) (sym c) ∙ read.3,
        ap (path_component 0xFFFF_FFFE) (sym m) ∙ read.4,
      ),
    )

-- The value of a mutation.
abbrev pub ValueRead : Json → Element → Type 0
ValueRead parameters value =
    (j : Json) × (nodes : ℕ) × (at Words.value parameters ≡ some j)
    × (element_value 9 0 j ≡ some (value, nodes))

element_read-ValueRead :
    (o : Option Json) (value : Element)
    → element_read o ≡ some (some value)
    → (j : Json) × (nodes : ℕ) × (o ≡ some j) × (element_value 9 0 j ≡ some (value, nodes))
element_read-ValueRead none value e = cc e
element_read-ValueRead (some j) value e =
    let (read, r, e1) = bind_some (element_value 9 0 j) _ (some value) e in
    (j, read.1, refl, r ∙ ap (λ x. some (x, read.1)) (some_injective (some_injective e1)))

pub interaction_input-ValueRead :
    (kind : InteractionKind) (parameters : Json) (value : Element)
    → has_input kind ≡ true
    → interaction_input kind parameters ≡ some (some value)
    → ValueRead parameters value
unfolding interaction_input
interaction_input-ValueRead kind parameters value h e =
    element_read-ValueRead (at Words.value parameters) value (ground (arith, e, h))

pub has_count-some :
    (n : ℕ) (parameters : Json)
    → has_count n (get_object (some parameters)) ≡ true
    → (fs : Members) × (parameters ≡ Json.object fs) × (count fs ≡ n)
has_count-some n (Json.object fs) e = (fs, refl, ground (arith, e))
has_count-some n (Json.null) e = cc e
has_count-some n (Json.number_float) e = cc e
has_count-some n (Json.boolean b) e = cc e
has_count-some n (Json.number_unsigned m) e = cc e
has_count-some n (Json.number_negative m) e = cc e
has_count-some n (Json.string t) e = cc e
has_count-some n (Json.array xs) e = cc e

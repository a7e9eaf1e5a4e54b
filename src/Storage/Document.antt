-- ===== src/Storage/Document.antt =====
-- ParseState and SerializeState of native/src/storage.cpp. The JSON library is a parameter: `dump` is
-- absent where it throws, and `parse` answers with the events that it reports to the callback, each with
-- its depth, and with the document, or not at all.
pub mod Duplicates
pub mod RoundTrip
pub mod Loaded
use wotex_matter.Base.{
  ℕ, ◌+◌, Bool, true, false, not, ◌&&◌, ◌||◌, List, [], ◌∷◌, ◌++◌, Option, none, some, length,
  all_of, any_of, ◌==◌, leb, ltb, if◌then◌else◌, Bytes, eq_bytes, has_value, is_empty,
}
use wotex_matter.Json.{
  Json, string, number_unsigned, object, Members, no_members, member, count, keys, at, find,
  get_string, get_unsigned, get_object,
}
use wotex_matter.Storage.Base64.{base64_encode, base64_decode}
use wotex_matter.Storage.Utf8.{valid_utf8, maximum_key_bytes}
use wotex_matter.Storage.Names
use wotex_matter.Storage.Values.{Values, emplace}

abbrev pub maximum_file_bytes : ℕ
maximum_file_bytes = 16777216

abbrev pub maximum_keys : ℕ
maximum_keys = 4096

abbrev pub maximum_operational_node : ℕ
maximum_operational_node = 0xFFFF_FFEF_FFFF_FFFF

pub record ControllerIdentity : Type 0 where
  pub fabric_id : ℕ
  pub controller_node_id : ℕ
  pub vendor_id : ℕ

unfoldable pub same_identity : ControllerIdentity → ControllerIdentity → Bool
same_identity a b =
    a.fabric_id == b.fabric_id
    && a.controller_node_id == b.controller_node_id
    && a.vendor_id == b.vendor_id

unfoldable pub valid_identity : ControllerIdentity → Bool
valid_identity identity =
    ltb 0 identity.fabric_id
    && ltb 0 identity.controller_node_id
    && leb identity.controller_node_id maximum_operational_node
    && ltb 0 identity.vendor_id
    && ltb identity.vendor_id 65535

-- The events of the parser that the callback looks at, each with its depth.
pub data ParseEvent : Type 0 where
  object_start : ParseEvent
  key : Bytes → ParseEvent
  other : ParseEvent

abbrev pub Events : Type 0
Events = List (ℕ × ParseEvent)

-- `keys[depth]`, for all depths, as pairs of a depth and a key.
abbrev pub SeenKeys : Type 0
SeenKeys = List (ℕ × Bytes)

abbrev pub seen : ℕ → Bytes → SeenKeys → Bool
seen depth k = any_of (λ e. e.0 == depth && eq_bytes e.1 k)

unfoldable pub cleared : ℕ → SeenKeys → SeenKeys
cleared depth [] = []
cleared depth (e ∷ es) = let rest = cleared depth es in if e.0 == depth then rest else e ∷ rest

-- The callback over the events: was a key inserted that its set already had?
unfoldable pub saw_duplicate : SeenKeys → Events → Bool
unfolding cleared
saw_duplicate keys [] = false
saw_duplicate keys ((depth, object_start) ∷ events) = saw_duplicate (cleared depth keys) events
saw_duplicate keys ((depth, key k) ∷ events) =
    seen depth k keys || saw_duplicate ((depth, k) ∷ keys) events
saw_duplicate keys ((depth, other) ∷ events) = saw_duplicate keys events

abbrev pub expected_keys : List Bytes
expected_keys =
    Names.authority ∷ Names.controller_node_id ∷ Names.fabric_id ∷ Names.schema ∷ Names.values
    ∷ Names.vendor_id ∷ Names.version ∷ []

abbrev pub is_one_of : List Bytes → Bytes → Bool
is_one_of ks k = any_of (λ j. eq_bytes j k) ks

-- The sets of the document's keys and of the expected ones are equal, and so are their sizes.
unfoldable pub exact_keys : Json → Bool
exact_keys (object fs) =
    count fs == 7
    && all_of (is_one_of expected_keys) (keys fs)
    && all_of (is_one_of (keys fs)) expected_keys
exact_keys _ = false

abbrev pub is_text : Bytes → Option Bytes → Bool
is_text t none = false
is_text t (some s) = eq_bytes s t

-- The tests on the document up to the vendor.
unfoldable pub valid_header : Json → Bool
unfolding exact_keys
valid_header document =
    exact_keys document
    && is_text Names.store_schema (get_string (at Names.schema document))
    && (elim (get_unsigned (at Names.version document)) [ none ↦ false | some n ↦ n == 1 ])
    && is_text Names.generate_root (get_string (at Names.authority document))

-- The identity in the document, where its numbers are there and the vendor fits.
unfoldable pub identity_from : Option ℕ → Option ℕ → Option ℕ → Option ControllerIdentity
identity_from (some fabric_id) (some controller_node_id) (some vendor_id) =
    if vendor_id == 0 || leb 65535 vendor_id
    then none
    else some (record {
      fabric_id = fabric_id;
      controller_node_id = controller_node_id;
      vendor_id = vendor_id;
    })
identity_from _ _ _ = none

unfoldable pub identity_of : Json → Option ControllerIdentity
unfolding identity_from
identity_of document =
    identity_from (get_unsigned (at Names.fabric_id document))
      (get_unsigned (at Names.controller_node_id document))
      (get_unsigned (at Names.vendor_id document))

unfoldable pub valid_entry_key : Bytes → Bool
valid_entry_key k = not (is_empty k) && leb (length k) maximum_key_bytes && valid_utf8 k

unfoldable pub decoded_entry : Bytes → Json → Option Bytes
unfolding valid_entry_key
decoded_entry k (string encoded) = if valid_entry_key k then base64_decode encoded else none
decoded_entry k _ = none

-- The loop over the entries of "values".
unfoldable pub load_values : Members → Values → Option Values
load_values no_members loaded = some loaded
load_values (member k v fs) loaded = elim (decoded_entry k v) [
  | none ↦ none
  | some bytes ↦ load_values fs (emplace k bytes loaded)
]

unfoldable pub load_entries : Option Members → Option Values
unfolding load_values
load_entries none = none
load_entries (some fs) = if ltb maximum_keys (count fs) then none else load_values fs []

unfoldable pub accepts_identity : ControllerIdentity → Option ControllerIdentity → Bool
accepts_identity expected none = false
accepts_identity expected (some identity) =
    valid_identity identity && same_identity identity expected

unfoldable pub parse_document : ControllerIdentity → Events → Json → Option Values
unfolding valid_header identity_of load_entries accepts_identity
parse_document expected events document =
    if saw_duplicate [] events
      || not (valid_header document)
      || not (accepts_identity expected (identity_of document))
    then none
    else load_entries (get_object (at Names.values document))

unfoldable pub parse_state :
    (Bytes → Option (Events × Json)) → ControllerIdentity → Bytes → Option Values
unfolding parse_document
parse_state parse expected contents = elim (parse contents) [
  | none ↦ none
  | some (events, document) ↦ parse_document expected events document
]

abbrev pub encoded_members : Values → Members
encoded_members [] = no_members
encoded_members ((k, v) ∷ values) = member k (string (base64_encode v)) (encoded_members values)

-- The document that is written, its members in this order.
unfoldable pub document_of : ControllerIdentity → Values → Json
document_of identity values = object (
    member Names.schema (string Names.store_schema) (
      member Names.version (number_unsigned 1) (
        member Names.fabric_id (number_unsigned identity.fabric_id) (
          member Names.controller_node_id (number_unsigned identity.controller_node_id) (
            member Names.vendor_id (number_unsigned identity.vendor_id) (
              member Names.authority (string Names.generate_root)
                (member Names.values (object (encoded_members values)) no_members)))))))

unfoldable pub finished_text : Option Bytes → Option Bytes
finished_text none = none
finished_text (some text) =
    let contents = text ++ 10 ∷ [] in
    if leb (length contents) maximum_file_bytes then some contents else none

unfoldable pub serialize_state : (Json → Option Bytes) → ControllerIdentity → Values → Option Bytes
unfolding document_of finished_text
serialize_state dump identity values = finished_text (dump (document_of identity values))

-- ===== src/Storage/Document/RoundTrip.antt =====
-- ParseState reads back what SerializeState writes.
use wotex_matter.Base.{
  ◌≤◌, ◌≡◌, refl, ◌∙◌, true, false, [], ◌∷◌, ◌++◌, Option, none, some, length, if◌then◌else◌, Bytes,
  eq_bytes, eq_bytes→eq, has_value, All, All-map_of, arith,
}
use wotex_matter.Json.{
  Json, string, number_unsigned, object, get_object, no_members, member, count, at, find,
}
use wotex_matter.Storage.Base64.{base64_encode}
use wotex_matter.Storage.Base64.RoundTrip.{IsByte, base64_decode-base64_encode}
use wotex_matter.Storage.Values.{Values, lookup, emplace, lookup-emplace}
use wotex_matter.Storage.Values.{before_bytes}
use wotex_matter.Storage.Values.Order.{SortedKeys, before_irrefl}
use wotex_matter.Storage.Names
use wotex_matter.Storage.Document.{
  ControllerIdentity, same_identity, valid_identity, Events, valid_header, identity_of,
  valid_entry_key, decoded_entry, load_values, load_entries, accepts_identity, parse_document,
  parse_state, encoded_members, document_of, finished_text, serialize_state,
}
use wotex_matter.Storage.Document.Duplicates.{events_of, DistinctKeys, saw_duplicate-document_of}

-- Values that the store holds: valid keys in their order, at most 4096, and at most 65535 bytes for each.
abbrev pub IsEntry : Bytes × Bytes → Type 0
IsEntry e = (valid_entry_key e.0 ≡ true) × All IsByte e.1 × (length e.1 ≤ 65535)

pub record IsStored (values : Values) : Type 0 where
  pub sorted : SortedKeys values
  pub entries : All IsEntry values
  pub few : length values ≤ 4096

DistinctKeys-of_sorted : (values : Values) → SortedKeys values → DistinctKeys values
DistinctKeys-of_sorted [] h = tt
DistinctKeys-of_sorted ((k, v) ∷ values) h =
    (All-map_of _ _ values (λ e b. different k e.0 b) h.0, DistinctKeys-of_sorted values h.1)
  where
    different : (j k : Bytes) → before_bytes j k ≡ true → eq_bytes j k ≡ false
    different j k b = ground (arith, before_irrefl k, eq_bytes→eq j k)

-- The document as the library holds it once it is parsed: the members in the order of their keys. The
-- values are in that order already.
abbrev pub document_read : ControllerIdentity → Values → Json
document_read identity values = object (
    member Names.authority (string Names.generate_root) (
      member Names.controller_node_id (number_unsigned identity.controller_node_id) (
        member Names.fabric_id (number_unsigned identity.fabric_id) (
          member Names.schema (string Names.store_schema) (
            member Names.values (object (encoded_members values)) (
              member Names.vendor_id (number_unsigned identity.vendor_id)
                (member Names.version (number_unsigned 1) no_members)))))))

abbrev emplaced : Values → Values → Values
emplaced [] loaded = loaded
emplaced ((k, v) ∷ values) loaded = emplaced values (emplace k v loaded)

decoded_entry-base64_encode :
    (k v : Bytes) → IsEntry (k, v) → decoded_entry k (string (base64_encode v)) ≡ some v
unfolding decoded_entry
decoded_entry-base64_encode k v h = rw (h.0) (base64_decode-base64_encode v h.1 h.2)

load_values-encoded_members :
    (values loaded : Values)
    → All IsEntry values
    → load_values (encoded_members values) loaded ≡ some (emplaced values loaded)
unfolding load_values
load_values-encoded_members [] loaded h = refl
load_values-encoded_members ((k, v) ∷ values) loaded h =
    rw (load_values, decoded_entry-base64_encode k v h.0)
      (load_values-encoded_members values (emplace k v loaded) h.1)

lookup-emplaced :
    (k : Bytes) (values loaded : Values)
    → lookup k (emplaced values loaded)
      ≡ (if has_value (lookup k loaded) then lookup k loaded else lookup k values)
unfolding lookup
lookup-emplaced k [] loaded = ground arith
lookup-emplaced k ((j, v) ∷ values) loaded =
    ground (arith, lookup-emplaced k values (emplace j v loaded), lookup-emplace j k v loaded)

count-encoded_members : (values : Values) → count (encoded_members values) ≡ length values
count-encoded_members [] = refl
count-encoded_members (e ∷ values) = omega (arith, count-encoded_members values)

header :
    (identity : ControllerIdentity) (values : Values)
    → valid_header (document_read identity values) ≡ true
unfolding valid_header at find eq_bytes
header identity values = refl

identity_read :
    (identity : ControllerIdentity) (values : Values)
    → valid_identity identity ≡ true
    → accepts_identity identity (identity_of (document_read identity values)) ≡ true
unfolding accepts_identity identity_of at find eq_bytes valid_identity same_identity
identity_read identity values v = ground arith

load_entries-encoded_members :
    (values : Values)
    → IsStored values
    → load_entries (some (encoded_members values)) ≡ some (emplaced values [])
unfolding load_entries
load_entries-encoded_members values stored = ground (
  arith,
  load_values-encoded_members values [] stored.entries,
  count-encoded_members values,
  stored.few,
)

finished :
    (written : Option Bytes) (contents : Bytes)
    → finished_text written ≡ some contents
    → (text : Bytes) × (written ≡ some text) × (contents ≡ text ++ 10 ∷ [])
unfolding finished_text
finished none contents e = cc e
finished (some text) contents e = (text, refl, ground (arith, e))

values_read :
    (identity : ControllerIdentity) (values : Values)
    → get_object (at Names.values (document_read identity values)) ≡ some (encoded_members values)
unfolding at find eq_bytes
values_read identity values = refl

parse_document-document_read :
    (identity : ControllerIdentity) (values : Values)
    → valid_identity identity ≡ true
    → IsStored values
    → parse_document identity
        (events_of 0 (document_of identity values))
        (document_read identity values)
      ≡ some (emplaced values [])
unfolding parse_document
parse_document-document_read identity values v stored =
    rw
      (
        saw_duplicate-document_of identity values (DistinctKeys-of_sorted values stored.sorted),
        header identity values,
        identity_read identity values v,
        values_read identity values,
      )
      (load_entries-encoded_members values stored)

parse_state-parsed :
    (parse : Bytes → Option (Events × Json)) (identity : ControllerIdentity) (contents : Bytes)
    (events : Events) (document : Json)
    → parse contents ≡ some (events, document)
    → parse_state parse identity contents ≡ parse_document identity events document
unfolding parse_state
parse_state-parsed parse identity contents events document e = rw (parse_state, e) refl

-- Let `dump` write the document of an identity and of values that are stored, and let `parse` read that text with
-- its newline: it reports the events of the document and returns it. Then ParseState of what
-- SerializeState has written, for the same identity, loads values that are the same under every key.
pub parse_state-serialize_state :
    (dump : Json → Option Bytes) (parse : Bytes → Option (Events × Json))
    (identity : ControllerIdentity) (values : Values) (contents : Bytes)
    → valid_identity identity ≡ true
    → IsStored values
    → ((text : Bytes)
        → dump (document_of identity values) ≡ some text
        → parse (text ++ 10 ∷ [])
          ≡ some (events_of 0 (document_of identity values), document_read identity values))
    → serialize_state dump identity values ≡ some contents
    → (loaded : Values) × (parse_state parse identity contents ≡ some loaded)
      × ((k : Bytes) → lookup k loaded ≡ lookup k values)
unfolding serialize_state lookup
parse_state-serialize_state dump parse identity values contents v stored law e =
    let (text, written, is_text) = finished (dump (document_of identity values)) contents e in
    let parsed : parse_state parse identity contents ≡ some (emplaced values []) = rw is_text (
      parse_state-parsed parse identity _ _ _ (law text written)
      ∙ parse_document-document_read identity values v stored) in
    (emplaced values [], parsed, λ k. lookup-emplaced k values [])

-- ===== src/Storage/Document/Loaded.antt =====
-- What ParseState accepts is fit for the store, and so is what the map's operations make of it.
use wotex_matter.Base.{
  suc, ◌+◌, ◌≤◌, ◌≡◌, refl, sym, true, false, [], Option, none, some, length, if_cases, Bytes,
  eq_bytes→eq, has_value, arith,
}
use mathlib.Core.Path.{subst}
use wotex_matter.Json.{
  Json, null, number_float, boolean, string, number_unsigned, number_negative, array, object,
  Members, no_members, member, count, at, get_object,
}
use wotex_matter.Storage.Base64.{base64_decode}
use wotex_matter.Storage.Base64.RoundTrip.{base64_decode_iff}
use wotex_matter.Storage.Values.{Values, lookup, insert, erase, emplace}
use wotex_matter.Storage.Values.Order.{
  SortedKeys, All-insert, All-erase, insert-SortedKeys, erase-SortedKeys, length-insert,
  length-erase,
}
use wotex_matter.Storage.Names
use wotex_matter.Storage.Document.{
  ControllerIdentity, Events, valid_entry_key, decoded_entry, load_values, load_entries,
  parse_document, parse_state,
}
use wotex_matter.Storage.Document.RoundTrip.{IsEntry, IsStored}

pub insert-IsStored :
    (k v : Bytes) (values : Values)
    → IsEntry (k, v)
    → (has_value (lookup k values) ≡ false → suc (length values) ≤ 4096)
    → IsStored values
    → IsStored (insert k v values)
insert-IsStored k v values h room stored = record {
  sorted = insert-SortedKeys k v values stored.sorted;
  entries =
      All-insert IsEntry k v values h
        (λ j w e. subst (λ i. IsEntry (i, v)) (sym (eq_bytes→eq j k e)) h) stored.entries;
  few = ground (arith, length-insert k v values stored.sorted, room, stored.few);
}

pub erase-IsStored : (k : Bytes) (values : Values) → IsStored values → IsStored (erase k values)
erase-IsStored k values stored = record {
  sorted = erase-SortedKeys k values stored.sorted;
  entries = All-erase IsEntry k values stored.entries;
  few = omega (arith, length-erase k values, stored.few);
}

emplace-IsStored :
    (k v : Bytes) (values : Values)
    → IsEntry (k, v)
    → suc (length values) ≤ 4096
    → IsStored values
    → IsStored (emplace k v values)
unfolding emplace
emplace-IsStored k v values h room stored =
    if_cases IsStored (has_value (lookup k values)) (λ _. stored)
      (λ _. insert-IsStored k v values h (λ _. room) stored)

length-emplace :
    (k v : Bytes) (values : Values)
    → SortedKeys values
    → length (emplace k v values) ≤ suc (length values)
unfolding emplace
length-emplace k v values h = ground (arith, length-insert k v values h)

decoded_entry-IsEntry :
    (k : Bytes) (j : Json) (v : Bytes) → decoded_entry k j ≡ some v → IsEntry (k, v)
unfolding decoded_entry
decoded_entry-IsEntry k (string encoded) v e =
    let valid : valid_entry_key k ≡ true = ground (arith, e) in
    let decoded : base64_decode encoded ≡ some v = ground (arith, e) in
    let (same, short, bytes) = (base64_decode_iff encoded v).0 decoded in (valid, bytes, short)
decoded_entry-IsEntry k null v e = cc e
decoded_entry-IsEntry k number_float v e = cc e
decoded_entry-IsEntry k (boolean b) v e = cc e
decoded_entry-IsEntry k (number_unsigned n) v e = cc e
decoded_entry-IsEntry k (number_negative n) v e = cc e
decoded_entry-IsEntry k (array xs) v e = cc e
decoded_entry-IsEntry k (object fs) v e = cc e

absurd_none : {P : Type 0} {x : Values} → none ≡ some x → P
absurd_none e = cc e

some-injective : {x y : Values} → some x ≡ some y → x ≡ y
some-injective e = cc e

chained :
    {values : Values} (o : Option Bytes) (f : Bytes → Option Values)
    → elim o [ none ↦ none | some b ↦ f b ] ≡ some values
    → (b : Bytes) × (o ≡ some b) × (f b ≡ some values)
chained none f e = absurd_none e
chained (some b) f e = (b, refl, e)

load_values-IsStored :
    (fs : Members) (loaded values : Values)
    → IsStored loaded
    → count fs + length loaded ≤ 4096
    → load_values fs loaded ≡ some values
    → IsStored values
unfolding load_values
load_values-IsStored no_members loaded values stored room e =
    subst IsStored (some-injective e) stored
load_values-IsStored (member k v fs) loaded values stored room e =
    let (bytes, d, rest) =
      chained (decoded_entry k v) (λ b. load_values fs (emplace k b loaded)) e in
    load_values-IsStored fs (emplace k bytes loaded) values
      (emplace-IsStored k bytes loaded (decoded_entry-IsEntry k v bytes d) (omega arith) stored)
      (omega (arith, length-emplace k bytes loaded stored.sorted)) rest

load_entries-IsStored :
    (o : Option Members) (values : Values) → load_entries o ≡ some values → IsStored values
unfolding load_entries
load_entries-IsStored none values e = absurd_none e
load_entries-IsStored (some fs) values e =
    load_values-IsStored fs [] values (record { sorted = tt; entries = tt; few = omega arith })
      (ground (arith, e)) (ground (arith, e))

parse_document-IsStored :
    (expected : ControllerIdentity) (events : Events) (document : Json) (values : Values)
    → parse_document expected events document ≡ some values
    → IsStored values
unfolding parse_document
parse_document-IsStored expected events document values e =
    load_entries-IsStored (get_object (at Names.values document)) values (ground (arith, e))

-- Whatever the JSON library makes of a file: what ParseState accepts has at most 4096 keys, in the
-- order of the map, each of 1 to 255 bytes of UTF-8 with a value of at most 65535 bytes.
pub parse_state-IsStored :
    (parse : Bytes → Option (Events × Json)) (expected : ControllerIdentity) (contents : Bytes)
    (values : Values)
    → parse_state parse expected contents ≡ some values
    → IsStored values
unfolding parse_state
parse_state-IsStored parse expected contents values = parsed (parse contents)
  where
    parsed :
        (o : Option (Events × Json))
        → elim o [ none ↦ none | some (events, document) ↦ parse_document expected events document ]
          ≡ some values
        → IsStored values
    parsed none e = absurd_none e
    parsed (some (events, document)) e = parse_document-IsStored expected events document values e

-- ===== src/Examples/Stores.antt =====
-- Witnesses for the durable store, and the tests of its definitions.
use wotex_matter.Base.{
  ℕ, ◌≤◌, ◌≡◌, refl, sym, ap, ◌∙◌, true, ◌&&◌, List, [], ◌∷◌, ◌++◌, Option, none, some, length,
  if◌then◌else◌, Bytes, eq_bytes, eq_bytes→eq, All, arith,
}
use mathlib.Core.Path.{subst}
use wotex_matter.Json.{Json, string, Members, no_members, member, at, find, get_object}
use wotex_matter.Storage.Names
use wotex_matter.Storage.Base64.{
  base64_encode, base64_decode, decode_groups, decode_group, decode_values, unpack,
  value_or_padding, base64_value, checked, alphabet,
}
use wotex_matter.Storage.Base64.RoundTrip.{IsByte, base64_decode-base64_encode}
use wotex_matter.Storage.Utf8.{
  valid_utf8, valid_key, valid_from, lead, continuation_bytes, refused_codepoint, key_bytes,
}
use wotex_matter.Storage.Files.{
  Directory, Answer, failure, returned, call, touch, is_missing, create_new, write_all,
  clean_commit_state, rename_temporary, unlink_intent,
}
use wotex_matter.Storage.Commit.{
  write_temporary, write_intent, replace_state, commit_contents, pending_text,
}
use wotex_matter.Storage.Values.{Values, lookup, insert}
use wotex_matter.Storage.Document.{
  ControllerIdentity, valid_identity, Events, parse_state, serialize_state, finished_text,
  document_of, encoded_members, valid_entry_key,
}
use wotex_matter.Storage.Document.Duplicates.{events_of}
use wotex_matter.Storage.Document.RoundTrip.{IsStored, document_read, parse_state-serialize_state}
use wotex_matter.Storage.Commit.Completes.{successes}
use wotex_matter.Storage.Store.{
  no_error, persisted_storage_failed, Store, poison, opened_store, set_key_value, set_normalized,
  replace_values, commit, commit_text, keep,
}
use wotex_matter.Storage.Store.Durable.{
  View, view_of, Command, set, execute, apply, ReadsBack, Held,
}
use wotex_matter.Storage.Store.Session.{
  Session, opened, acknowledged, unacknowledged, Durable, healthy,
}
use wotex_matter.Storage.Store.Failure.{Follows, Session-Follows}
use wotex_matter.Storage.Store.Calls.{set_key_value-completes}

abbrev pub identity : ControllerIdentity
identity = record { fabric_id = 1; controller_node_id = 2; vendor_id = 0xFFF1 }

pub identity-valid : valid_identity identity ≡ true
unfolding valid_identity
identity-valid = refl

-- The key "k" with the value 7, whose text is "Bw==".
abbrev pub key : Bytes
key = b'k' ∷ []

abbrev pub value : Bytes
value = 7 ∷ []

abbrev value_text : Bytes
value_text = b'B' ∷ b'w' ∷ b'=' ∷ b'=' ∷ []

abbrev pub one_value : Values
one_value = (key, value) ∷ []

-- A JSON library for two documents, the one without a value and the one with that value.
abbrev text_of : Option Members → Option Bytes
text_of (some no_members) = some (b'0' ∷ [])
text_of (some (member k (string s) no_members)) =
    if eq_bytes k key && eq_bytes s value_text then some (b'1' ∷ []) else none
text_of _ = none

abbrev pub dump : Json → Option Bytes
dump document = text_of (get_object (at Names.values document))

abbrev document_with : Values → Option (Events × Json)
document_with values =
    some (events_of 0 (document_of identity values), document_read identity values)

abbrev pub parse : Bytes → Option (Events × Json)
parse contents =
    if eq_bytes contents (b'0' ∷ 10 ∷ [])
    then document_with []
    else if eq_bytes contents (b'1' ∷ 10 ∷ [])
    then document_with one_value
    else none

members_dumped :
    (values : Values) → dump (document_of identity values) ≡ text_of (some (encoded_members values))
unfolding document_of at find eq_bytes
members_dumped values = refl

decoded : base64_decode value_text ≡ some value
unfolding base64_decode decode_groups decode_group decode_values unpack value_or_padding
    base64_value checked base64_encode eq_bytes alphabet
decoded = refl

some_injective : {A : Type 0} {x y : A} → some x ≡ some y → x ≡ y
some_injective e = cc e

value_of_text :
    (v : Bytes) → All IsByte v → length v ≤ 65535 → base64_encode v ≡ value_text → v ≡ value
value_of_text v h short e =
    some_injective (sym (base64_decode-base64_encode v h short) ∙ ap base64_decode e ∙ decoded)

absurd : {P : Type 0} {A : Type 0} {x : A} → none ≡ some x → P
absurd e = cc e

read_one :
    (k v text : Bytes)
    → IsStored ((k, v) ∷ [])
    → eq_bytes k key ≡ true
    → eq_bytes (base64_encode v) value_text ≡ true
    → some (b'1' ∷ []) ≡ some text
    → parse (text ++ 10 ∷ []) ≡ document_with ((k, v) ∷ [])
unfolding eq_bytes
read_one k v text stored ek ev e =
    let (valid, bytes, short) = stored.entries.0 in
    rw
      (
        sym (some_injective e),
        eq_bytes→eq k key ek,
        value_of_text v bytes short (eq_bytes→eq _ _ ev),
      )
      refl

one_dumped :
    (k s text : Bytes)
    → text_of (some (member k (string s) no_members)) ≡ some text
    → (eq_bytes k key ≡ true) × (eq_bytes s value_text ≡ true) × (some (b'1' ∷ []) ≡ some text)
one_dumped k s text e = ground (arith, e)

read_values :
    (values : Values) (text : Bytes)
    → IsStored values
    → text_of (some (encoded_members values)) ≡ some text
    → parse (text ++ 10 ∷ []) ≡ document_with values
unfolding eq_bytes
read_values [] text stored e =
    subst (λ t. parse (t ++ 10 ∷ []) ≡ document_with []) (some_injective e) refl
read_values ((k, v) ∷ []) text stored e =
    let (ek, ev, et) = one_dumped k (base64_encode v) text e in read_one k v text stored ek ev et
read_values (a ∷ b ∷ values) text stored e = absurd e

pub law : ReadsBack dump parse identity
law values text stored e = read_values values text stored (sym (members_dumped values) ∙ e)

pub one_value-IsStored : IsStored one_value
unfolding valid_entry_key valid_utf8 valid_from lead continuation_bytes refused_codepoint
one_value-IsStored = record {
  sorted = (tt, tt);
  entries = ((refl, (omega arith, tt), omega arith), tt);
  few = omega arith;
}

no_values-IsStored : IsStored []
no_values-IsStored = record { sorted = tt; entries = tt; few = omega arith }

pub one_written : serialize_state dump identity one_value ≡ some (b'1' ∷ 10 ∷ [])
unfolding serialize_state finished_text document_of at find eq_bytes base64_encode alphabet
one_written = refl

-- The round trip of that value.
parse_state-serialize_state_example :
    (loaded : Values) × (parse_state parse identity (b'1' ∷ 10 ∷ []) ≡ some loaded)
    × ((k : Bytes) → lookup k loaded ≡ lookup k one_value)
parse_state-serialize_state_example =
    parse_state-serialize_state dump parse identity one_value (b'1' ∷ 10 ∷ []) identity-valid
      one_value-IsStored (λ text e. law one_value text one_value-IsStored e) one_written

empty_written : serialize_state dump identity [] ≡ some (b'0' ∷ 10 ∷ [])
unfolding serialize_state finished_text document_of at find eq_bytes
empty_written = refl

abbrev pub files : ℕ → Directory
files digit = record { state = some (digit ∷ 10 ∷ []); temporary = none; intent = none }

pub empty_held : Held dump parse identity (view_of []) (files b'0')
empty_held =
    let (loaded, p, l) =
      parse_state-serialize_state dump parse identity [] (b'0' ∷ 10 ∷ []) identity-valid
        no_values-IsStored (λ text e. law [] text no_values-IsStored e) empty_written in
    (b'0' ∷ 10 ∷ [], loaded, refl, p, l)

abbrev D : View → Store → Directory → Type 0
D = Durable dump parse identity law identity-valid

pub empty_durable : D (view_of []) (opened_store identity []) (files b'0')
empty_durable = healthy [] refl no_values-IsStored (λ k. refl) empty_held refl

pub key_accepted : valid_key (some key) ≡ some key
unfolding valid_key key_bytes valid_utf8 valid_from lead continuation_bytes refused_codepoint
key_accepted = refl

inserted : insert key value [] ≡ one_value
unfolding insert
inserted = refl

abbrev pub setting : Command
setting = set (some key) (some value) 1

set_once :
    execute dump setting (opened_store identity []) (successes 17 []) (files b'0')
    ≡ returned (no_error, opened_store identity one_value) (files b'1') []
unfolding insert lookup
set_once =
    set_key_value-completes dump identity [] (some key) key value 1 b'1' (10 ∷ [])
      (some (b'0' ∷ 10 ∷ [])) [] key_accepted (λ e. omega arith) one_written

set_key_value-completes_example :
    set_key_value dump
      (some key)
      (some value)
      1
      (opened_store identity [])
      (successes 17 [])
      (files b'0')
    ≡ returned (no_error, opened_store identity (insert key value [])) (files b'1') []
set_key_value-completes_example =
    set_key_value-completes dump identity [] (some key) key value 1 b'1' (10 ∷ [])
      (some (b'0' ∷ 10 ∷ [])) [] key_accepted (λ e. omega arith) (rw inserted one_written)

-- A session that has set the value.
pub session :
    Session dump
      (opened_store identity [])
      (files b'0')
      (apply setting (view_of []))
      (opened_store identity one_value)
      (files b'1')
session = acknowledged (successes 17 []) [] setting opened (omega arith, (omega arith, tt)) set_once

-- The intent file cannot be removed after the value has been set in the file.
abbrev half_committed : Directory
half_committed = record {
  state = some (b'1' ∷ 10 ∷ []);
  temporary = none;
  intent = some pending_text;
}

fails_after :
    (o : Option Bytes) (rest : List Answer)
    → o ≡ some (b'1' ∷ 10 ∷ [])
    → commit_text (opened_store identity []) o (successes 15 (failure ∷ rest)) (files b'0')
      ≡ returned (persisted_storage_failed, poison (opened_store identity [])) half_committed rest
unfolding commit_text commit_contents write_temporary write_intent replace_state touch is_missing
    create_new write_all clean_commit_state rename_temporary unlink_intent call
fails_after o rest e = rw e refl

set_fails :
    execute dump setting (opened_store identity []) (successes 15 (failure ∷ [])) (files b'0')
    ≡ returned (persisted_storage_failed, poison (opened_store identity [])) half_committed []
unfolding set_key_value set_normalized replace_values commit keep insert lookup
set_fails =
    rw (key_accepted, fails_after (serialize_state dump identity one_value) [] one_written) refl

broken_session :
    Session dump
      (opened_store identity [])
      (files b'0')
      (view_of [])
      (poison (opened_store identity []))
      half_committed
broken_session =
    unacknowledged (successes 15 (failure ∷ [])) [] setting persisted_storage_failed opened
      (omega arith, (omega arith, tt)) refl set_fails

Session-Follows_example :
    Follows dump parse identity
      (opened_store identity [])
      (files b'0')
      (view_of [])
      (poison (opened_store identity []))
      half_committed
Session-Follows_example =
    Session-Follows dump parse identity law identity-valid (opened_store identity []) (files b'0')
      (view_of []) (poison (opened_store identity [])) half_committed
      ([], refl, no_values-IsStored, (λ k. refl), empty_held, refl) broken_session

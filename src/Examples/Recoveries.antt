-- ===== src/Examples/Recoveries.antt =====
-- Witnesses for crashes of the store, and for its files, texts and keys.
use wotex_matter.Base.{
  ◌++◌, ℕ, ◌≤◌, ◌≡◌, refl, true, false, List, [], ◌∷◌, none, some, length, Bytes, eq_bytes, All,
  ◌⊎◌, ◌↔◌, arith,
}
use wotex_matter.Json.{string, object, no_members, member, at, find}
use wotex_matter.Storage.Base64.{base64_encode, base64_decode}
use wotex_matter.Storage.Base64.RoundTrip.{IsByte, base64_decode_iff}
use wotex_matter.Storage.Utf8.{valid_utf8, valid_key, valid_from, lead, key_bytes}
use wotex_matter.Storage.Files.{
  Directory, Answer, success, failure, interrupted, moved, stopped, returned, temporary_file, put,
  ◌and_then◌, call, touch, is_missing, create_new, write_all, clean_commit_state, rename_temporary,
  unlink_intent,
}
use wotex_matter.Storage.Files.Progress.{write_all-ends}
use wotex_matter.Storage.Commit.{write_temporary, write_intent, replace_state, commit_contents}
use wotex_matter.Storage.Commit.Phases.{Marks, commit_contents-Marks}
use wotex_matter.Storage.Commit.Marking.{marking}
use wotex_matter.Storage.Commit.Completes.{successes, commit_contents-completes}
use wotex_matter.Storage.Values.{lookup, erase}
use wotex_matter.Storage.Document.{
  valid_identity, parse_state, parse_document, saw_duplicate, cleared, valid_header, exact_keys,
  identity_of, identity_from, load_entries, load_values, accepts_identity, same_identity,
  serialize_state, finished_text, document_of,
}
use wotex_matter.Storage.Document.Duplicates.{events_of, saw_duplicate-repeated}
use wotex_matter.Storage.Document.RoundTrip.{IsStored}
use wotex_matter.Storage.Document.Loaded.{parse_state-IsStored}
use wotex_matter.Storage.Names
use wotex_matter.Storage.Store.{
  no_error, opened_store, read_all, get_key_value, delete_key_value, delete_normalized,
  replace_values, commit, commit_text, keep, open_store, open_directory, open_clean, load_or_create,
  load_store, loaded_store, read_state, read_opened, open_state, make_directory, StorageMode,
  open_existing, stored, generate_root,
}
use wotex_matter.Storage.Store.Durable.{View, view_of, Command, delete, execute, apply}
use wotex_matter.Storage.Store.Session.{Durable}
use wotex_matter.Storage.Utf8.Scalars.{IsScalar, utf8_text, valid_utf8_iff}
use wotex_matter.Storage.Store.Reading.{Reads, read_state-Reads}
use wotex_matter.Storage.Store.Calls.{get_key_value-Session}
use wotex_matter.Storage.Store.Creation.{open_store-creates}
use wotex_matter.Storage.Store.Recovery.{recovery}
use wotex_matter.Examples.Stores.{
  identity, key, value, one_value, dump, parse, files, setting, identity-valid, law, empty_durable,
  session, key_accepted,
}

abbrev M0 : View
M0 = apply setting (view_of [])

M0_value : M0 key ≡ some value
unfolding valid_key key_bytes valid_utf8 valid_from lead eq_bytes
M0_value = refl

key_known : lookup key one_value ≡ some value
unfolding lookup eq_bytes
key_known = refl

erased : erase key one_value ≡ []
unfolding erase eq_bytes
erased = refl

abbrev erasing : Command
erasing = delete (some key)

committed_to_disk :
    commit_contents (b'0' ∷ 10 ∷ []) (successes 16 []) (files b'1') ≡ stopped (files b'0')
unfolding commit_contents write_temporary write_intent replace_state touch is_missing create_new
    write_all clean_commit_state rename_temporary unlink_intent call
committed_to_disk = refl

empty_text : serialize_state dump identity [] ≡ some (b'0' ∷ 10 ∷ [])
unfolding serialize_state finished_text document_of at find eq_bytes
empty_text = refl

-- The process stops before the last call of the commit that erases the value.
erased_on_disk :
    execute dump erasing (opened_store identity one_value) (successes 16 []) (files b'1')
    ≡ stopped (files b'0')
unfolding delete_key_value delete_normalized replace_values commit commit_text keep
erased_on_disk = rw (key_accepted, key_known, erased, empty_text, committed_to_disk) refl

empty_parsed : parse_state parse identity (b'0' ∷ 10 ∷ []) ≡ some []
unfolding parse_state parse_document eq_bytes saw_duplicate cleared events_of document_of
    valid_header exact_keys identity_of identity_from load_entries load_values accepts_identity at
    find valid_identity same_identity
empty_parsed = refl

opened_again :
    open_store
      (λ p. true)
      parse
      dump
      (b'/' ∷ [])
      open_existing
      stored
      identity
      (successes 12 [])
      (files b'0')
    ≡ returned (no_error, some (opened_store identity [])) (files b'0') []
unfolding open_store open_directory open_clean load_or_create load_store loaded_store read_state
    read_opened open_state read_all clean_commit_state is_missing touch call valid_identity
opened_again = rw empty_parsed refl

recovery_example :
    ((k : Bytes) → lookup k [] ≡ M0 k) ⊎ ((k : Bytes) → lookup k [] ≡ apply erasing M0 k)
recovery_example =
    recovery dump parse identity law identity-valid (opened_store identity []) (files b'0') M0
      (opened_store identity one_value) (files b'1') erasing (successes 16 []) (files b'0')
      (λ p. true) (b'/' ∷ []) (successes 12 []) [] no_error (opened_store identity []) (files b'0')
      empty_durable session tt erased_on_disk opened_again

get_key_value-Session_example :
    get_key_value (some key) (some (0 ∷ 0 ∷ 9 ∷ [])) 2 (opened_store identity one_value)
    ≡ record { status = no_error; buffer = some (7 ∷ 0 ∷ 9 ∷ []); size = 1 }
get_key_value-Session_example =
    get_key_value-Session dump parse identity law identity-valid (opened_store identity [])
      (files b'0') M0 (opened_store identity one_value) (files b'1') (some key) key value
      (0 ∷ 0 ∷ 9 ∷ []) 2 empty_durable session refl key_accepted M0_value (omega arith)

abbrev value_text : Bytes
value_text = 7 ∷ 8 ∷ []

abbrev no_files : Directory
no_files = record { state = none; temporary = none; intent = none }

made :
    open_store
      (λ p. true)
      parse
      dump
      (b'/' ∷ [])
      StorageMode.create_new
      generate_root
      identity
      (successes 26 [])
      no_files
    ≡ returned (no_error, some (opened_store identity [])) (files b'0') []
unfolding open_store open_directory make_directory open_clean load_or_create commit commit_text
    clean_commit_state is_missing touch call valid_identity commit_contents write_temporary
    write_intent replace_state create_new write_all rename_temporary unlink_intent
made = rw empty_text refl

open_store-creates_example :
    (opened_store identity [] ≡ opened_store identity [])
    × Durable dump parse identity law identity-valid
        (λ k. none)
        (opened_store identity [])
        (files b'0')
open_store-creates_example =
    open_store-creates dump parse identity law identity-valid (λ p. true) (b'/' ∷ [])
      (successes 26 []) [] no_files (files b'0') no_error (opened_store identity []) made

commit_contents-completes_example :
    commit_contents (b'0' ∷ 10 ∷ []) (successes 17 []) (files b'1') ≡ returned true (files b'0') []
commit_contents-completes_example =
    commit_contents-completes b'0' (10 ∷ []) (some (b'1' ∷ 10 ∷ [])) []

-- The intent file cannot be removed.
commit_contents-Marks_example :
    (commit_contents (b'0' ∷ 10 ∷ []) (successes 15 (failure ∷ [])) (files b'1')
      ≡ (marking (b'0' ∷ 10 ∷ []) and_then replace_state)
          (successes 15 (failure ∷ []))
          (files b'1'))
    × Marks
        (some (b'1' ∷ 10 ∷ []))
        (b'0' ∷ 10 ∷ [])
        (marking (b'0' ∷ 10 ∷ []) (successes 15 (failure ∷ [])) (files b'1'))
commit_contents-Marks_example =
    commit_contents-Marks (some (b'1' ∷ 10 ∷ [])) (b'0' ∷ 10 ∷ []) (successes 15 (failure ∷ []))
      (files b'1') refl refl

-- One byte is in the file already, and the two of the text are written in two calls.
write_all-ends_example :
    (rest : List Answer) × (write_all
        (moved 1 ∷ interrupted ∷ moved 1 ∷ [])
        temporary_file
        value_text
        (record no_files { temporary = some (6 ∷ []) })
      ≡ returned true
          (put temporary_file
            (some (6 ∷ [] ++ value_text))
            (record no_files { temporary = some (6 ∷ []) }))
          rest)
write_all-ends_example =
    write_all-ends (moved 1 ∷ interrupted ∷ moved 1 ∷ []) temporary_file value_text
      (record no_files { temporary = some (6 ∷ []) }) (6 ∷ []) refl
      (omega arith, (tt, (omega arith, tt))) (omega arith)

base64_decode_iff_example : (base64_decode (b'B' ∷ b'w' ∷ b'=' ∷ b'=' ∷ []) ≡ some value) ↔ (
    (base64_encode value ≡ b'B' ∷ b'w' ∷ b'=' ∷ b'=' ∷ [])
    × (length value ≤ 65535)
    × All IsByte value)
base64_decode_iff_example = base64_decode_iff (b'B' ∷ b'w' ∷ b'=' ∷ b'=' ∷ []) value

valid_utf8_iff_example :
    (valid_utf8 (0xE2 ∷ 0x82 ∷ 0xAC ∷ []) ≡ true)
    ↔ ((cs : List ℕ) × All IsScalar cs × (0xE2 ∷ 0x82 ∷ 0xAC ∷ [] ≡ utf8_text cs))
valid_utf8_iff_example = valid_utf8_iff (0xE2 ∷ 0x82 ∷ 0xAC ∷ [])

read_state-Reads_example :
    Reads
      (files b'1')
      (λ o. (bytes : Bytes) → o ≡ some bytes → bytes ≡ b'1' ∷ 10 ∷ [])
      (read_state
        (success ∷ success ∷ success ∷ moved 1 ∷ interrupted ∷ moved 1 ∷ success ∷ [])
        (files b'1'))
read_state-Reads_example =
    read_state-Reads (success ∷ success ∷ success ∷ moved 1 ∷ interrupted ∷ moved 1 ∷ success ∷ [])
      (files b'1')

parse_state-IsStored_example : IsStored []
parse_state-IsStored_example = parse_state-IsStored parse identity (b'0' ∷ 10 ∷ []) [] empty_parsed

schema_apart : eq_bytes Names.schema Names.values ≡ false
unfolding eq_bytes
schema_apart = refl

-- Two schemas, around no values.
saw_duplicate-repeated_example :
    saw_duplicate [] (
      events_of 0 (
        object (
          member Names.schema (string []) (
            member Names.values
              (object no_members)
              (member Names.schema (string Names.store_schema) no_members)))))
    ≡ false
saw_duplicate-repeated_example =
    saw_duplicate-repeated Names.schema [] Names.store_schema [] schema_apart tt

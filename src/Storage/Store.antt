-- ===== src/Storage/Store.antt =====
-- DurableStorage of native/src/storage.cpp: its operations over the files of its directory. The parameters
-- `dump` and `parse` are the JSON library's, as in Storage/Document. An operation is a run of system calls;
-- what it returns is its status and the store as it is then in memory.
pub mod Durable
pub mod Session
pub mod Failure
pub mod Reading
pub mod Recovery
pub mod Calls
pub mod Creation
use wotex_matter.Base.{
  ℕ, zero, suc, ◌+◌, Bool, true, false, not, ◌&&◌, ◌||◌, List, [], ◌∷◌, ◌++◌, Option, none, some,
  length, ◌==◌, leb, ltb, if◌then◌else◌, Bytes, has_value, is_empty, any_of,
}
use wotex_matter.Json.{Json}
use wotex_matter.Storage.Utf8.{valid_key}
use wotex_matter.Storage.Files.{
  File, state_file, Directory, Answer, success, failure, interrupted, moved, Run, stopped, returned,
  M, pure, ◌>>=◌, ◌and_then◌, call, touch, take, drop, contents_of, clean_commit_state,
}
use wotex_matter.Storage.Commit.{commit_contents}
use wotex_matter.Storage.Values.{Values, lookup, insert, erase}
use wotex_matter.Storage.Document.{
  maximum_file_bytes, maximum_keys, ControllerIdentity, valid_identity, Events, parse_state,
  serialize_state,
}

-- The error codes of the SDK that the store returns.
pub data Status : Type 0 where
  no_error invalid_argument open_failed persisted_storage_failed value_not_found buffer_too_small :
      Status

-- The members of DurableStorage; its descriptors stand for the directory that its calls read and write.
pub record Store : Type 0 where
  pub identity : ControllerIdentity
  pub values : Values
  pub poisoned : Bool

unfoldable pub poison : Store → Store
poison store = record store { poisoned = true }

-- Commit, once the values are serialized.
unfoldable pub commit_text : Store → Option Bytes → M (Status × Store)
unfolding poison
commit_text store none = pure (persisted_storage_failed, poison store)
commit_text store (some contents) = commit_contents contents >>= λ ok.
    pure (if ok then (no_error, store) else (persisted_storage_failed, poison store))

-- Commit.
unfoldable pub commit : (Json → Option Bytes) → Store → Values → M (Status × Store)
unfolding commit_text
commit dump store values =
    if store.poisoned
    then pure (persisted_storage_failed, poison store)
    else commit_text store (serialize_state dump store.identity values)

-- `values_ = std::move(next)` if the commit has succeeded.
unfoldable pub keep : Values → Status × Store → Status × Store
keep next (no_error, store) = (no_error, record store { values = next })
keep next (status, store) = (status, store)

unfoldable pub replace_values : (Json → Option Bytes) → Store → Values → M (Status × Store)
unfolding commit keep
replace_values dump store next = commit dump store next >>= λ reply. pure (keep next reply)

-- SyncSetKeyValue, from its test of the key. A pointer is its bytes, or `none` for a null pointer; `size`
-- of them are read.
unfoldable pub set_normalized :
    (Json → Option Bytes) → Option Bytes → ℕ → Store → Option Bytes → M (Status × Store)
unfolding replace_values
set_normalized dump value size store none = pure (invalid_argument, store)
set_normalized dump value size store (some normalized) =
    if not (has_value value) && ltb 0 size
    then pure (invalid_argument, store)
    else if not (has_value (lookup normalized store.values))
        && leb maximum_keys (length store.values)
    then pure (persisted_storage_failed, store)
    else replace_values dump store (insert normalized (take size (contents_of value)) store.values)

-- SyncSetKeyValue.
unfoldable pub set_key_value :
    (Json → Option Bytes) → Option Bytes → Option Bytes → ℕ → Store → M (Status × Store)
unfolding set_normalized
set_key_value dump key value size store =
    if store.poisoned
    then pure (persisted_storage_failed, store)
    else set_normalized dump value size store (valid_key key)

-- SyncDeleteKeyValue, from its test of the key.
unfoldable pub delete_normalized : (Json → Option Bytes) → Store → Option Bytes → M (Status × Store)
unfolding replace_values
delete_normalized dump store none = pure (invalid_argument, store)
delete_normalized dump store (some normalized) =
    if not (has_value (lookup normalized store.values))
    then pure (value_not_found, store)
    else replace_values dump store (erase normalized store.values)

-- SyncDeleteKeyValue.
unfoldable pub delete_key_value : (Json → Option Bytes) → Option Bytes → Store → M (Status × Store)
unfolding delete_normalized
delete_key_value dump key store =
    if store.poisoned
    then pure (persisted_storage_failed, store)
    else delete_normalized dump store (valid_key key)

-- What SyncGetKeyValue leaves: its status, the caller's buffer and its size.
pub record Got : Type 0 where
  pub status : Status
  pub buffer : Option Bytes
  pub size : ℕ

-- `std::min(available, value.size())` bytes are copied to the front of the buffer.
unfoldable pub copy_value : Bytes → Option Bytes → ℕ → Got
copy_value value buffer size = record {
  status = if ltb size (length value) then buffer_too_small else no_error;
  buffer = elim buffer [
    | none ↦ none
    | some bytes ↦ some (take size value ++ drop (length (take size value)) bytes)
  ];
  size = length (take size value);
}

-- SyncGetKeyValue.
unfoldable pub get_key_value : Option Bytes → Option Bytes → ℕ → Store → Got
unfolding copy_value
get_key_value key buffer size store =
    if store.poisoned
    then record { status = persisted_storage_failed; buffer = buffer; size = size }
    else elim (valid_key key) [
      | none ↦ record { status = invalid_argument; buffer = buffer; size = size }
      | some normalized ↦
          if not (has_value buffer) && ltb 0 size
          then record { status = invalid_argument; buffer = buffer; size = size }
          else elim (lookup normalized store.values) [
            | none ↦ record { status = value_not_found; buffer = buffer; size = size }
            | some value ↦ copy_value value buffer size
          ]
    ]

-- The loop of ReadState: what is left of the file, and what is read.
unfoldable pub read_all : List Answer → Bytes → Bytes → Directory → Run (Option Bytes)
read_all [] rest contents d = if is_empty rest then returned (some contents) d [] else stopped d
read_all (answer ∷ answers) rest contents d =
    let round : Run (Option Bytes) = elim answer [
      | success ↦ returned (some (contents ++ rest)) d answers
      | failure ↦ returned none d answers
      | interrupted ↦ read_all answers rest contents d
      | moved n ↦
          let more = read_all answers (drop n rest) (contents ++ take n rest) d in
          if n == 0 then returned none d answers else more
    ] in
    if is_empty rest then returned (some contents) d (answer ∷ answers) else round

abbrev pub kept_if : Bool → Option Bytes → Option Bytes
kept_if closed read = if closed then read else none

-- ReadState, of a file that is open: the size, the loop, close.
unfoldable pub read_opened : Bytes → M (Option Bytes)
unfolding read_all
read_opened contents =
    if is_empty contents || ltb maximum_file_bytes (length contents)
    then pure none
    else (λ answers d. read_all answers contents [] d) >>= λ read.
        touch >>= λ closed. pure (kept_if closed read)

unfoldable pub open_state : M Bool
open_state = call (λ d. has_value d.state) (λ d. d) and_then touch and_then touch

-- ReadState: openat, ExactRegularFile and fstat come first.
unfoldable pub read_state : M (Option Bytes)
unfolding read_opened open_state
read_state = open_state >>= λ opened answers d.
    (if opened then read_opened (contents_of d.state) else pure none) answers d

pub data StorageMode : Type 0 where
  create_new open_existing : StorageMode

pub data AuthorityMode : Type 0 where
  generate_root stored : AuthorityMode

abbrev pub modes_agree : StorageMode → AuthorityMode → Bool
modes_agree create_new generate_root = true
modes_agree open_existing stored = true
modes_agree _ _ = false

abbrev pub is_create : StorageMode → Bool
is_create create_new = true
is_create open_existing = false

abbrev pub opened_store : ControllerIdentity → Values → Store
opened_store identity values = record { identity = identity; values = values; poisoned = false }

-- The store is handed out only after it is committed once.
abbrev pub handed_out : Status × Store → Status × Option Store
handed_out (no_error, store) = (no_error, some store)
handed_out (status, store) = (status, none)

-- lstat says that nothing is at the path, and mkdir makes the directory there, with no files.
unfoldable pub make_directory : M Bool
make_directory =
    let absent : Directory → Bool =
      λ d. not (has_value d.state) && not (has_value d.temporary) && not (has_value d.intent) in
    call absent (λ d. d) and_then call absent (λ d. d)

-- ValidDirectory, OpenDirectory and OpenLock, after a new directory is made. The lock file holds nothing.
unfoldable pub open_directory : Bool → M Bool
unfolding make_directory
open_directory create =
    (if create then make_directory else pure true)
    and_then touch
    and_then touch
    and_then touch
    and_then touch
    and_then touch

-- A store from what the file holds.
unfoldable pub loaded_store : ControllerIdentity → Option Values → Status × Option Store
loaded_store identity none = (persisted_storage_failed, none)
loaded_store identity (some values) = (no_error, some (opened_store identity values))

unfoldable pub load_store :
    (Bytes → Option (Events × Json)) → ControllerIdentity → Option Bytes → Status × Option Store
unfolding loaded_store
load_store parse identity none = (persisted_storage_failed, none)
load_store parse identity (some contents) =
    loaded_store identity (parse_state parse identity contents)

-- Open, from CleanCommitState and from what follows it.
unfoldable pub load_or_create :
    (Bytes → Option (Events × Json))
    → (Json → Option Bytes)
    → StorageMode
    → ControllerIdentity
    → M (Status × Option Store)
unfolding load_store read_state commit
load_or_create parse dump create_new identity =
    commit dump (opened_store identity []) [] >>= λ reply. pure (handed_out reply)
load_or_create parse dump open_existing identity =
    read_state >>= λ contents. pure (load_store parse identity contents)

unfoldable pub open_clean :
    (Bytes → Option (Events × Json))
    → (Json → Option Bytes)
    → StorageMode
    → ControllerIdentity
    → M (Status × Option Store)
unfolding load_or_create
open_clean parse dump storage_mode identity = clean_commit_state >>= λ clean.
    if clean
    then load_or_create parse dump storage_mode identity
    else pure (persisted_storage_failed, none)

-- Open.
unfoldable pub open_store :
    (Bytes → Bool)
    → (Bytes → Option (Events × Json))
    → (Json → Option Bytes)
    → Bytes
    → StorageMode
    → AuthorityMode
    → ControllerIdentity
    → M (Status × Option Store)
unfolding open_directory open_clean
open_store is_absolute parse dump path storage_mode authority_mode identity =
    if not (is_absolute path)
      || any_of (λ b. b == 0) path
      || not (valid_identity identity)
      || not (modes_agree storage_mode authority_mode)
    then pure (invalid_argument, none)
    else open_directory (is_create storage_mode) >>= λ opened.
        if opened then open_clean parse dump storage_mode identity else pure (open_failed, none)

-- EnterProcessDirectory.
unfoldable pub enter_process_directory : M Status
enter_process_directory = touch >>= λ entered. pure (if entered then no_error else open_failed)

-- ===== src/Storage/Store/Durable.antt =====
-- What the calls that change the store leave in the directory, and the map that they implement.
use wotex_matter.Base.{
  ℕ, ◌≤◌, ◌≡◌, refl, ◌∙◌, Bool, true, false, List, [], ◌∷◌, ◌++◌, Option, none, some, if◌then◌else◌,
  Bytes, eq_bytes, All,
}
use wotex_matter.Json.{Json}
use wotex_matter.Storage.Utf8.{valid_key}
use wotex_matter.Storage.Base64.RoundTrip.{IsByte}
use wotex_matter.Storage.Files.{
  Directory, Answer, Run, stopped, returned, M, pure, continue, take, contents_of,
}
use wotex_matter.Storage.Files.Rules.{Ends}
use wotex_matter.Storage.Commit.{commit_contents}
use wotex_matter.Storage.Commit.Marking.{Is}
use wotex_matter.Storage.Commit.Phases.{
  Phase, before, marked, renamed, finished, commit_contents-Ends,
}
use wotex_matter.Storage.Values.{Values, lookup}
use wotex_matter.Storage.Document.{
  ControllerIdentity, valid_identity, Events, parse_state, serialize_state, document_of,
}
use wotex_matter.Storage.Document.Duplicates.{events_of}
use wotex_matter.Storage.Document.RoundTrip.{IsStored, document_read, parse_state-serialize_state}
use wotex_matter.Storage.Store.{
  Status, no_error, persisted_storage_failed, Store, opened_store, poison, commit_text, commit,
  keep, replace_values, set_key_value, delete_key_value,
}

-- The abstract store: a finite map.
abbrev pub View : Type 0
View = Bytes → Option Bytes

abbrev pub view_of : Values → View
view_of values k = lookup k values

-- The calls that change the store, and what each does to the map when it succeeds.
pub data Command : Type 0 where
  set : Option Bytes → Option Bytes → ℕ → Command
  delete : Option Bytes → Command

abbrev pub execute : (Json → Option Bytes) → Command → Store → M (Status × Store)
execute dump (set key value size) = set_key_value dump key value size
execute dump (delete key) = delete_key_value dump key

abbrev pub update_key : Option Bytes → Option Bytes → View → View
update_key none v m = m
update_key (some k) v m = λ j. if eq_bytes k j then v else m j

abbrev pub apply : Command → View → View
apply (set key value size) = update_key (valid_key key) (some (take size (contents_of value)))
apply (delete key) = update_key (valid_key key) none

-- A value has at most 65535 bytes, since its size is a uint16_t.
abbrev pub IsCommand : Command → Type 0
IsCommand (set key value size) = (size ≤ 65535) × All IsByte (contents_of value)
IsCommand (delete key) = Unit

abbrev pub is_error : Status → Bool
is_error no_error = false
is_error _ = true

-- What holds where a run stops, and what holds of its result.
abbrev pub EndsIn : {A : Type 0} → (Directory → Type 0) → (A → Directory → Type 0) → Run A → Type 0
EndsIn P Q (stopped d) = P d
EndsIn P Q (returned a d answers) = Q a d

-- The law of the JSON library that the store relies on: a document of stored values that `dump` has written
-- is read back, with its newline, as the same document, with the keys of each object in their order.
abbrev pub ReadsBack :
    (Json → Option Bytes) → (Bytes → Option (Events × Json)) → ControllerIdentity → Type 0
ReadsBack dump parse identity =
    (values : Values) (text : Bytes)
    → IsStored values
    → dump (document_of identity values) ≡ some text
    → parse (text ++ 10 ∷ [])
      ≡ some (events_of 0 (document_of identity values), document_read identity values)

module _ (dump : Json → Option Bytes) (parse : Bytes → Option (Events × Json))
    (identity : ControllerIdentity) where
  -- The state file is read by ParseState, as the map m.
  abbrev pub Held : View → Directory → Type 0
  Held m d =
      (contents : Bytes) × (loaded : Values) × (d.state ≡ some contents)
      × (parse_state parse identity contents ≡ some loaded)
      × ((k : Bytes) → lookup k loaded ≡ m k)

  -- The state file holds the map as it was, or as the command makes it.
  pub data Leaves (c : Command) (m : View) (d : Directory) : Type 0 where
    kept : Held m d → Leaves c m d
    applied : Held (apply c m) d → Leaves c m d

  -- What a command makes of the store and the directory.
  pub data Outcome (c : Command) (store : Store) (d : Directory) (reply : Status × Store)
      (d' : Directory) : Type 0 where
    refused : is_error reply.0 ≡ true → reply.1 ≡ store → d' ≡ d → Outcome c store d reply d'
    done :
        (next : Values)
        → reply.0 ≡ no_error
        → reply.1 ≡ record store { values = next }
        → IsStored next
        → ((k : Bytes) → lookup k next ≡ apply c (view_of store.values) k)
        → Held (view_of next) d'
        → d'.intent ≡ none
        → Outcome c store d reply d'
    broken :
        is_error reply.0 ≡ true
        → reply.1 ≡ poison store
        → Leaves c (view_of store.values) d'
        → Outcome c store d reply d'

  abbrev pub Ended : Command → Store → Directory → Run (Status × Store) → Type 0
  Ended c store d = EndsIn (Leaves c (view_of store.values)) (Outcome c store d)

  pub held_state : (m : View) (d d' : Directory) → d'.state ≡ d.state → Held m d → Held m d'
  held_state m d d' e (contents, loaded, s, p, l) = (contents, loaded, e ∙ s, p, l)

  pub held_view : (m m' : View) (d : Directory) → ((k : Bytes) → m k ≡ m' k) → Held m d → Held m' d
  held_view m m' d e (contents, loaded, s, p, l) = (contents, loaded, s, p, λ k. l k ∙ e k)

  module _ (law : ReadsBack dump parse identity) (v : valid_identity identity ≡ true) (c : Command)
      (values next : Values) (stored : IsStored next) (d : Directory)
      (changed : (k : Bytes) → lookup k next ≡ apply c (view_of values) k)
      (held : Held (view_of values) d) where
    abbrev S : Store
    S = opened_store identity values

    pub written :
        (contents : Bytes) (d' : Directory)
        → serialize_state dump identity next ≡ some contents
        → d'.state ≡ some contents
        → Held (view_of next) d'
    written contents d' e s =
        let (loaded, p, l) =
          parse_state-serialize_state dump parse identity next contents v stored
            (λ text w. law next text stored w) e in
        (contents, loaded, s, p, l)

    phase-Leaves :
        (contents : Bytes) (d' : Directory)
        → serialize_state dump identity next ≡ some contents
        → Phase d.state contents d'
        → Leaves c (view_of values) d'
    phase-Leaves contents d' e (before s i) = kept (held_state _ d d' s held)
    phase-Leaves contents d' e (marked s t i) = kept (held_state _ d d' s held)
    phase-Leaves contents d' e (renamed s t i) =
        applied (held_view _ _ d' changed (written contents d' e s))
    phase-Leaves contents d' e (finished s t i) =
        applied (held_view _ _ d' changed (written contents d' e s))

    committed :
        (contents : Bytes) (r : Run Bool)
        → serialize_state dump identity next ≡ some contents
        → Ends (Phase d.state contents) (Is (some contents) none none) r
        → Ended c S d (
            continue
              (continue r
                (λ ok. pure (if ok then (no_error, S) else (persisted_storage_failed, poison S))))
              (λ reply. pure (keep next reply)))
    unfolding keep
    committed contents (stopped d') e h = phase-Leaves contents d' e h
    committed contents (returned true d' answers) e h =
        done next refl refl stored changed (written contents d' e h.0) h.2
    committed contents (returned false d' answers) e h =
        broken refl refl (phase-Leaves contents d' e h)

    committed_text :
        (answers : List Answer) (o : Option Bytes)
        → serialize_state dump identity next ≡ o
        → d.intent ≡ none
        → Ended c S d (continue (commit_text S o answers d) (λ reply. pure (keep next reply)))
    unfolding commit_text keep
    committed_text answers none e i = broken refl refl (kept held)
    committed_text answers (some contents) e i =
        committed contents (commit_contents contents answers d) e
          (commit_contents-Ends d.state contents answers d refl i)

    pub replaced :
        d.intent ≡ none
        → (answers : List Answer) → Ended c S d (replace_values dump S next answers d)
    unfolding replace_values commit
    replaced i answers = committed_text answers (serialize_state dump identity next) refl i

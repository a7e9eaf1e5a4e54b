-- ===== src/Storage/Store/Recovery.antt =====
-- Opening the store again, after a session has ended or after a crash.
use wotex_matter.Base.{
  ◌≡◌, refl, sym, ap, ◌∙◌, Bool, true, false, not, ◌||◌, List, Option, none, some, ◌==◌, if_cases,
  any_of, ◌⊎◌, inl, inr, Bytes,
}
use mathlib.Core.Path.{subst}
use wotex_matter.Json.{Json}
use wotex_matter.Storage.Files.{
  Directory, Answer, Run, stopped, returned, M, pure, clean_commit_state, contents_of,
}
use wotex_matter.Storage.Values.{Values, lookup}
use wotex_matter.Storage.Document.{ControllerIdentity, valid_identity, Events, parse_state}
use wotex_matter.Storage.Document.RoundTrip.{IsStored}
use wotex_matter.Storage.Document.Loaded.{parse_state-IsStored}
use wotex_matter.Storage.Store.{
  Status, no_error, persisted_storage_failed, Store, opened_store, read_state, open_directory,
  loaded_store, load_store, load_or_create, open_clean, open_store, open_existing, stored,
}
use wotex_matter.Storage.Store.Reading.{
  Reads, Reads-bind, clean_commit_state-Shows, open_directory-Reads, read_state-Reads,
}
use wotex_matter.Storage.Store.Durable.{
  View, view_of, Command, execute, apply, IsCommand, ReadsBack, Held, kept, applied,
}
use wotex_matter.Storage.Store.Session.{Session, Durable, Session-crash}

module _ (dump : Json → Option Bytes) (parse : Bytes → Option (Events × Json))
    (identity : ControllerIdentity) where
  -- The store that Open hands out, if any, is this map, and it is not poisoned.
  abbrev pub Opens : View → Directory → Status × Option Store → Type 0
  Opens m d reply =
      (s : Store)
      → reply.1 ≡ some s
      → (values : Values) × (s ≡ opened_store identity values)
        × IsStored values
        × ((k : Bytes) → lookup k values ≡ m k)
        × (d.intent ≡ none)

  nothing_opened : (m : View) (d : Directory) (status : Status) → Opens m d (status, none)
  nothing_opened m d status s e = cc e

  loaded :
      (m : View) (d : Directory) (status : Status) (values : Values)
      → IsStored values
      → ((k : Bytes) → lookup k values ≡ m k)
      → d.intent ≡ none
      → Opens m d (status, some (opened_store identity values))
  loaded m d status values h same i s e = (values, cc e, h, same, i)

  load_store-Opens :
      (m : View) (d : Directory) (o : Option Bytes)
      → Held dump parse identity m d
      → d.intent ≡ none
      → ((bytes : Bytes) → o ≡ some bytes → bytes ≡ contents_of d.state)
      → Opens m d (load_store parse identity o)
  unfolding load_store loaded_store
  load_store-Opens m d none held i h = nothing_opened m d persisted_storage_failed
  load_store-Opens m d (some bytes) (contents, values, s, p, same) i h =
      let e : bytes ≡ contents = h bytes refl ∙ ap contents_of s in
      subst (λ o. Opens m d (loaded_store identity o)) (sym (ap (parse_state parse identity) e ∙ p))
        (loaded m d no_error values (parse_state-IsStored parse identity contents values p) same i)

  open_clean-Opens :
      (m : View) (answers : List Answer) (d : Directory)
      → Held dump parse identity m d
      → Reads d (Opens m d) (open_clean parse dump open_existing identity answers d)
  unfolding open_clean load_or_create
  open_clean-Opens m answers d held =
      Reads-bind (λ ok. ok ≡ true → (d.temporary ≡ none) × (d.intent ≡ none)) (Opens m d)
        clean_commit_state _ answers d (clean_commit_state-Shows answers d)
        λ ok answers1 clean.
          if_cases (λ (r : M (Status × Option Store)). Reads d (Opens m d) (r answers1 d)) ok
            (λ e.
              Reads-bind (λ o. (bytes : Bytes) → o ≡ some bytes → bytes ≡ contents_of d.state)
                (Opens m d) read_state (λ o. pure (load_store parse identity o)) answers1 d
                (read_state-Reads answers1 d)
                λ o answers2 h. (refl, load_store-Opens m d o held (clean e).1 h))
            (λ _. (refl, nothing_opened m d persisted_storage_failed))

  -- Open of an existing store whose state file holds a map: it changes no file, and the store that it hands
  -- out, if it does, is that map.
  pub open_store-Opens :
      (is_absolute : Bytes → Bool) (path : Bytes) (m : View) (answers : List Answer) (d : Directory)
      → Held dump parse identity m d
      → Reads d
          (Opens m d)
          (open_store is_absolute parse dump path open_existing stored identity answers d)
  unfolding open_store
  open_store-Opens is_absolute path m answers d held =
      if_cases (λ (r : M (Status × Option Store)). Reads d (Opens m d) (r answers d))
        (not (is_absolute path)
          || any_of (λ b. b == 0) path
          || not (valid_identity identity)
          || false)
        (λ _. (refl, nothing_opened m d persisted_storage_failed))
        λ _.
          Reads-bind (λ ok. Unit) (Opens m d) (open_directory false) _ answers d
            (open_directory-Reads answers d)
            λ opened answers1 _.
              if_cases (λ (r : M (Status × Option Store)). Reads d (Opens m d) (r answers1 d))
                opened (λ _. open_clean-Opens m answers1 d held)
                (λ _. (refl, nothing_opened m d persisted_storage_failed))

  opened_view :
      (m : View) (d d' : Directory) (r : Run (Status × Option Store)) (status : Status) (s : Store)
      (rest : List Answer)
      → r ≡ returned (status, some s) d' rest
      → Reads d (Opens m d) r
      → (k : Bytes) → lookup k s.values ≡ m k
  opened_view m d d' r status s rest e h k =
      let (values, same_s, w, same, i) = (subst (Reads d (Opens m d)) e h).1 s refl in
      ap (λ x. lookup k x.values) same_s ∙ same k

  -- Let the identity be valid and the JSON library read back what it writes, let a session start from a durable
  -- store, and let the process stop at any point of one more command.
  -- If Open then hands out a store, its map is the one of the commands that were acknowledged, or that one
  -- with the last command applied: no acknowledged command is lost, and none is applied in part.
  pub recovery :
      (law : ReadsBack dump parse identity) (v : valid_identity identity ≡ true) (start : Store)
      (d0 : Directory) (m : View) (s : Store) (d : Directory) (c : Command) (answers : List Answer)
      (d' : Directory) (is_absolute : Bytes → Bool) (path : Bytes) (answers' rest : List Answer)
      (status : Status) (s' : Store) (d'' : Directory)
      → Durable dump parse identity law v (view_of start.values) start d0
      → Session dump start d0 m s d
      → IsCommand c
      → execute dump c s answers d ≡ stopped d'
      → open_store is_absolute parse dump path open_existing stored identity answers' d'
        ≡ returned (status, some s') d'' rest
      → ((k : Bytes) → lookup k s'.values ≡ m k) ⊎ ((k : Bytes) → lookup k s'.values ≡ apply c m k)
  recovery law v start d0 m s d c answers d' is_absolute path answers' rest status s' d'' h session
        command e e' =
      elim (Session-crash dump parse identity law v start d0 m s d d' c answers h session command
        e) [
          | kept held ↦ inl (
              opened_view m d' d'' _ status s' rest e'
                (open_store-Opens is_absolute path m answers' d' held))
          | applied held ↦ inr (
              opened_view (apply c m) d' d'' _ status s' rest e'
                (open_store-Opens is_absolute path (apply c m) answers' d' held))
        ]

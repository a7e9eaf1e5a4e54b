-- ===== src/Storage/Store/Creation.antt =====
-- Open with StorageMode::CreateNew.
use wotex_matter.Base.{
  ◌≡◌, refl, sym, ap, ◌∙◌, Bool, true, false, not, ◌||◌, List, [], Option, none, some, ◌==◌,
  if◌then◌else◌, if_cases, any_of, Bytes, arith,
}
use mathlib.Core.Path.{subst}
use wotex_matter.Json.{Json}
use wotex_matter.Storage.Files.{
  Directory, Answer, Run, stopped, returned, M, pure, continue, clean_commit_state,
}
use wotex_matter.Storage.Files.Rules.{Ends}
use wotex_matter.Storage.Commit.{commit_contents}
use wotex_matter.Storage.Commit.Marking.{Is}
use wotex_matter.Storage.Commit.Phases.{Phase, commit_contents-Ends}
use wotex_matter.Storage.Values.{lookup}
use wotex_matter.Storage.Document.{ControllerIdentity, valid_identity, Events, serialize_state}
use wotex_matter.Storage.Document.RoundTrip.{IsStored, parse_state-serialize_state}
use wotex_matter.Storage.Store.{
  Status, no_error, invalid_argument, open_failed, persisted_storage_failed, value_not_found,
  buffer_too_small, Store, poison, opened_store, commit_text, commit, handed_out, open_directory,
  load_or_create, open_clean, open_store, create_new, generate_root,
}
use wotex_matter.Storage.Store.Reading.{Reads, clean_commit_state-Shows}
use wotex_matter.Storage.Store.Durable.{view_of, ReadsBack, Held}
use wotex_matter.Storage.Store.Session.{Durable, healthy}

-- What holds of the result, if the run returns one.
abbrev Gives : {A : Type 0} → (A → Directory → Type 0) → Run A → Type 0
Gives Q (stopped d) = Unit
Gives Q (returned a d answers) = Q a d

Gives-continue :
    {A B : Type 0} (Q : A → Directory → Type 0) (R : B → Directory → Type 0) (r : Run A)
    (k : A → M B)
    → Gives Q r
    → ((a : A) (answers : List Answer) (d : Directory) → Q a d → Gives R (k a answers d))
    → Gives R (continue r k)
Gives-continue Q R (stopped d) k h next = tt
Gives-continue Q R (returned a d answers) k h next = next a answers d h

anything : {A : Type 0} (r : Run A) → Gives (λ a d. Unit) r
anything (stopped d) = tt
anything (returned a d answers) = tt

-- A clean directory is found clean.
unmarked :
    (answers : List Answer) (d : Directory)
    → Gives (λ ok d'. ok ≡ true → d'.intent ≡ none) (clean_commit_state answers d)
unmarked answers d = from_Reads (clean_commit_state answers d) (clean_commit_state-Shows answers d)
  where
    from_Reads :
        (r : Run Bool)
        → Reads d (λ ok. ok ≡ true → (d.temporary ≡ none) × (d.intent ≡ none)) r
        → Gives (λ ok d'. ok ≡ true → d'.intent ≡ none) r
    from_Reads (stopped d') h = tt
    from_Reads (returned ok d' answers') h = λ e. ap (λ x. x.intent) h.0 ∙ (h.1 e).1

module _ (dump : Json → Option Bytes) (parse : Bytes → Option (Events × Json))
    (identity : ControllerIdentity) (law : ReadsBack dump parse identity)
    (v : valid_identity identity ≡ true) where
  abbrev S : Store
  S = opened_store identity []

  -- The new store, if the first commit succeeds.
  Created : Status × Store → Directory → Type 0
  Created reply d =
      reply.0 ≡ no_error
      → (reply.1 ≡ S) × Held dump parse identity (view_of []) d × (d.intent ≡ none)

  -- A store that Open hands out is durable and empty.
  abbrev Empty : Status × Option Store → Directory → Type 0
  Empty reply d =
      (s : Store) → reply.1 ≡ some s → (s ≡ S) × Durable dump parse identity law v (view_of []) s d

  no_values : IsStored []
  no_values = record { sorted = tt; entries = tt; few = omega arith }

  refused : (status : Status) (d : Directory) → Empty (status, none) d
  refused status d s e = cc e

  written :
      (contents : Bytes) (d : Directory)
      → serialize_state dump identity [] ≡ some contents
      → d.state ≡ some contents
      → Held dump parse identity (view_of []) d
  written contents d e s =
      let (loaded, p, l) =
        parse_state-serialize_state dump parse identity [] contents v no_values
          (λ text w. law [] text no_values w) e in
      (contents, loaded, s, p, l)

  committed :
      (old : Option Bytes) (contents : Bytes) (r : Run Bool)
      → serialize_state dump identity [] ≡ some contents
      → Ends (Phase old contents) (Is (some contents) none none) r
      → Gives Created (
          continue r
            (λ ok. pure (if ok then (no_error, S) else (persisted_storage_failed, poison S))))
  unfolding Created
  committed old contents (stopped d) e h = tt
  committed old contents (returned true d answers) e h = λ _. (refl, written contents d e h.0, h.2)
  committed old contents (returned false d answers) e h = λ e'. cc e'

  commit_text-Created :
      (answers : List Answer) (d : Directory) (o : Option Bytes)
      → serialize_state dump identity [] ≡ o
      → d.intent ≡ none
      → Gives Created (commit_text S o answers d)
  unfolding commit_text Created
  commit_text-Created answers d none e i = λ e'. cc e'
  commit_text-Created answers d (some contents) e i =
      committed d.state contents (commit_contents contents answers d) e
        (commit_contents-Ends d.state contents answers d refl i)

  same_store : (s s' : Store) → some s ≡ some s' → s ≡ s'
  same_store s s' e' = cc e'

  handed_out-Empty :
      (reply : Status × Store) (d : Directory) → Created reply d → Empty (handed_out reply) d
  unfolding Created
  handed_out-Empty (no_error, s) d h =
      let (same, held, i) = h refl in
      λ s' e.
        let e' : s' ≡ S = sym (same_store s s' e) ∙ same in
        (e', healthy [] e' no_values (λ k. refl) held i)
  handed_out-Empty (invalid_argument, s) d h = refused invalid_argument d
  handed_out-Empty (open_failed, s) d h = refused open_failed d
  handed_out-Empty (persisted_storage_failed, s) d h = refused persisted_storage_failed d
  handed_out-Empty (value_not_found, s) d h = refused value_not_found d
  handed_out-Empty (buffer_too_small, s) d h = refused buffer_too_small d

  open_clean-Empty :
      (answers : List Answer) (d : Directory)
      → Gives Empty (open_clean parse dump create_new identity answers d)
  unfolding open_clean load_or_create commit
  open_clean-Empty answers d =
      Gives-continue (λ ok d'. ok ≡ true → d'.intent ≡ none) Empty (clean_commit_state answers d) _
        (unmarked answers d)
        λ ok answers1 d1 clean.
          if_cases (λ (m : M (Status × Option Store)). Gives Empty (m answers1 d1)) ok
            (λ e.
              Gives-continue Created Empty
                (commit_text S (serialize_state dump identity []) answers1 d1) _
                (commit_text-Created answers1 d1 (serialize_state dump identity []) refl (clean e))
                λ reply answers2 d2 h. handed_out-Empty reply d2 h)
            (λ _. refused persisted_storage_failed d1)

  open_store-Gives :
      (is_absolute : Bytes → Bool) (path : Bytes) (answers : List Answer) (d : Directory)
      → Gives Empty
          (open_store is_absolute parse dump path create_new generate_root identity answers d)
  unfolding open_store
  open_store-Gives is_absolute path answers d =
      if_cases (λ (m : M (Status × Option Store)). Gives Empty (m answers d))
        (not (is_absolute path)
          || any_of (λ b. b == 0) path
          || not (valid_identity identity)
          || false)
        (λ _. refused invalid_argument d)
        λ _.
          Gives-continue (λ ok d'. Unit) Empty (open_directory true answers d) _
            (anything (open_directory true answers d))
            λ opened answers1 d1 _.
              if_cases (λ (m : M (Status × Option Store)). Gives Empty (m answers1 d1)) opened
                (λ _. open_clean-Empty answers1 d1) (λ _. refused open_failed d1)

  -- For a valid identity and a JSON library that reads back what it writes: a store that Open creates, if it
  -- hands one out, is not poisoned and empty, its file holds the empty map, and no intent file is there.
  pub open_store-creates :
      (is_absolute : Bytes → Bool) (path : Bytes) (answers rest : List Answer) (d d' : Directory)
      (status : Status) (s : Store)
      → open_store is_absolute parse dump path create_new generate_root identity answers d
        ≡ returned (status, some s) d' rest
      → (s ≡ opened_store identity []) × Durable dump parse identity law v (λ k. none) s d'
  unfolding lookup
  open_store-creates is_absolute path answers rest d d' status s e =
      subst (Gives Empty) e (open_store-Gives is_absolute path answers d) s refl

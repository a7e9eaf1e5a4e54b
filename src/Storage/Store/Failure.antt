-- ===== src/Storage/Store/Failure.antt =====
-- What a failed commit leaves of a session of the store: the commands of set_key_value and delete_key_value
-- (native/src/storage.cpp) before it and after it.
use wotex_matter.Base.{◌≡◌, sym, ap, ◌∙◌, true, List, Option, none, Bytes}
use mathlib.Core.Path.{subst}
use wotex_matter.Json.{Json}
use wotex_matter.Storage.Files.{Directory, Answer, Run, stopped, returned}
use wotex_matter.Storage.Values.{Values, lookup}
use wotex_matter.Storage.Document.{ControllerIdentity, valid_identity, Events}
use wotex_matter.Storage.Document.RoundTrip.{IsStored}
use wotex_matter.Storage.Store.{Status, no_error, Store, poison, opened_store}
use wotex_matter.Storage.Store.Durable.{
  View, view_of, Command, execute, apply, IsCommand, is_error, ReadsBack, Held, Leaves, Outcome,
  refused, done, broken, Ended, held_view,
}
use wotex_matter.Storage.Store.Session.{
  Session, opened, acknowledged, unacknowledged, execute-Ended, poisoned-execute, apply-ext,
  Leaves_view,
}

abbrev status_of : Status → Run (Status × Store) → Status
status_of default (stopped d) = default
status_of default (returned reply d answers) = reply.0

abbrev store_of : Store → Run (Status × Store) → Store
store_of default (stopped d) = default
store_of default (returned reply d answers) = reply.1

abbrev directory_of : Directory → Run (Status × Store) → Directory
directory_of default (stopped d) = default
directory_of default (returned reply d' answers) = d'

module _ (dump : Json → Option Bytes) (parse : Bytes → Option (Events × Json))
    (identity : ControllerIdentity) where
  -- The store is not poisoned, its map is m in memory and in the file, and no commit is under way.
  abbrev pub IsHealthy : View → Store → Directory → Type 0
  IsHealthy m s d =
      (values : Values) × (s ≡ opened_store identity values)
      × IsStored values
      × ((k : Bytes) → lookup k values ≡ m k)
      × Held dump parse identity m d
      × (d.intent ≡ none)

  -- A session over which no commit has failed; or one that was healthy until a command, whose commit
  -- failed: since that command the store is poisoned and neither it nor the directory has changed, and the
  -- file holds the map that was acknowledged, as it was before that very command or with it applied.
  pub data Follows (start : Store) (d0 : Directory) (m : View) (s : Store) (d : Directory)
      : Type 0 where
    unbroken : IsHealthy m s d → Follows start d0 m s d
    failed :
        (c : Command) (s1 : Store) (d1 : Directory) (answers rest : List Answer) (status : Status)
        → Session dump start d0 m s1 d1
        → IsHealthy m s1 d1
        → execute dump c s1 answers d1 ≡ returned (status, s) d rest
        → is_error status ≡ true
        → s ≡ poison s1
        → Leaves dump parse identity c m d
        → Follows start d0 m s d

  -- One command on a healthy store.
  data Answered (m : View) (c : Command) (s1 : Store) (status : Status) (s : Store) (d : Directory)
      : Type 0 where
    steady : is_error status ≡ true → IsHealthy m s d → Answered m c s1 status s d
    advanced : status ≡ no_error → IsHealthy (apply c m) s d → Answered m c s1 status s d
    stuck :
        is_error status ≡ true
        → s ≡ poison s1
        → Leaves dump parse identity c m d
        → Answered m c s1 status s d

module _ (dump : Json → Option Bytes) (parse : Bytes → Option (Events × Json))
    (identity : ControllerIdentity) (law : ReadsBack dump parse identity)
    (v : valid_identity identity ≡ true) where
  abbrev Healthy : View → Store → Directory → Type 0
  Healthy = IsHealthy dump parse identity

  abbrev OneStep : View → Command → Store → Status → Store → Directory → Type 0
  OneStep = Answered dump parse identity

  Outcome-Answered :
      (m : View) (c : Command) (s1 s : Store) (d1 d : Directory) (status : Status)
      (h : Healthy m s1 d1)
      → Outcome dump parse identity c (opened_store identity h.0) d1 (status, s) d
      → OneStep m c s1 status s d
  Outcome-Answered m c s1 s d1 d status (values, opens, stored, same, held, i) (refused e s' d') =
      steady e (
        values,
        s',
        stored,
        same,
        subst (Held dump parse identity m) (sym d') held,
        ap (λ x. x.intent) d' ∙ i,
      )
  Outcome-Answered m c s1 s d1 d status (values, opens, stored, same, held, i)
        (done next e s' stored' changed held' i') =
      let now : (k : Bytes) → lookup k next ≡ apply c m k =
        λ k. changed k ∙ apply-ext c _ m same k in
      advanced e (next, s', stored', now, held_view dump parse identity _ _ d now held', i')
  Outcome-Answered m c s1 s d1 d status (values, opens, stored, same, held, i) (broken e s' left) =
      stuck e (s' ∙ ap poison (sym opens)) (Leaves_view dump parse identity law v c _ m d same left)

  execute-Answered :
      (m : View) (c : Command) (s1 s : Store) (d1 d : Directory) (answers rest : List Answer)
      (status : Status)
      → Healthy m s1 d1
      → IsCommand c
      → execute dump c s1 answers d1 ≡ returned (status, s) d rest
      → OneStep m c s1 status s d
  execute-Answered m c s1 s d1 d answers rest status h command e =
      let values : Values = h.0 in
      let runs : execute dump c (opened_store identity values) answers d1
          ≡ returned (status, s) d rest =
        subst (λ x. execute dump c x answers d1 ≡ returned (status, s) d rest) h.1 e in
      let held : Held dump parse identity (view_of values) d1 =
        held_view dump parse identity _ _ d1 (λ k. sym (h.3 k)) h.4 in
      Outcome-Answered m c s1 s d1 d status h (
        subst (Ended dump parse identity c (opened_store identity values) d1) runs
          (execute-Ended dump parse identity law v values h.2 d1 held h.5 c answers command))

  module _ (start : Store) (d0 : Directory) where
    abbrev F : View → Store → Directory → Type 0
    F = Follows dump parse identity start d0

    acknowledged-Follows :
        (m : View) (s1 s : Store) (d1 d : Directory) (c : Command) (answers rest : List Answer)
        → F m s1 d1
        → IsCommand c
        → execute dump c s1 answers d1 ≡ returned (no_error, s) d rest
        → F (apply c m) s d
    unfolding poison
    acknowledged-Follows m s1 s d1 d c answers rest (unbroken h) command e =
        success_of (execute-Answered m c s1 s d1 d answers rest no_error h command e)
      where
        success_of : OneStep m c s1 no_error s d → F (apply c m) s d
        success_of (steady error h') = cc error
        success_of (advanced none_wrong h') = unbroken h'
        success_of (stuck error s' left) = cc error
    acknowledged-Follows m s1 s d1 d c answers rest
          (failed c' s0 d0' answers' rest' status session h e' error poisoned left) command e =
        cc (
          ap (status_of no_error) (
            sym (
              poisoned-execute dump parse identity law v c s1 answers d1
                (ap (λ x. x.poisoned) poisoned))
            ∙ e))

    unacknowledged-Follows :
        (m : View) (s1 s : Store) (d1 d : Directory) (c : Command) (answers rest : List Answer)
        (status : Status)
        → Session dump start d0 m s1 d1
        → F m s1 d1
        → IsCommand c
        → is_error status ≡ true
        → execute dump c s1 answers d1 ≡ returned (status, s) d rest
        → F m s d
    unfolding poison
    unacknowledged-Follows m s1 s d1 d c answers rest status session (unbroken h) command error e =
        failure_of (execute-Answered m c s1 s d1 d answers rest status h command e)
      where
        failure_of : OneStep m c s1 status s d → F m s d
        failure_of (steady _ h') = unbroken h'
        failure_of (advanced none_wrong h') = cc (error, none_wrong)
        failure_of (stuck _ s' left) = failed c s1 d1 answers rest status session h e error s' left
    unacknowledged-Follows m s1 s d1 d c answers rest status session
          (failed c' s0 d0' answers' rest' status' before h e' error' poisoned left) command error
          e =
        subst (λ r. F m (store_of s1 r) (directory_of d1 r))
          (sym (
              poisoned-execute dump parse identity law v c s1 answers d1
                (ap (λ x. x.poisoned) poisoned))
            ∙ e)
          (failed c' s0 d0' answers' rest' status' before h e' error' poisoned left)

  -- Let the identity be valid and the JSON library read back what it writes. From a healthy store, where the
  -- file and the memory hold the same map, a session leads to one of two ends. Either the store is healthy,
  -- and its map in memory and in the file is the one that the acknowledged commands make. Or the session was
  -- healthy until one command, whose commit failed; the store has been poisoned since, and neither it nor
  -- the directory has changed after that command; and the file holds the map of the acknowledged commands
  -- as it was before that very command, or with that command applied.
  pub Session-Follows :
      (start : Store) (d0 : Directory) (m : View) (s : Store) (d : Directory)
      → Healthy (view_of start.values) start d0
      → Session dump start d0 m s d
      → Follows dump parse identity start d0 m s d
  Session-Follows start d0 m s d h opened = unbroken h
  Session-Follows start d0 m s d h (acknowledged answers rest c before command e) =
      acknowledged-Follows start d0 _ _ s _ d c answers rest
        (Session-Follows start d0 _ _ _ h before) command e
  Session-Follows start d0 m s d h (unacknowledged answers rest c status before command error e) =
      unacknowledged-Follows start d0 m _ s _ d c answers rest status before
        (Session-Follows start d0 m _ _ h before) command error e

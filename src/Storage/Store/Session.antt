-- ===== src/Storage/Store/Session.antt =====
-- Sessions of the store: commands, one after another, and what a crash leaves.
use wotex_matter.Base.{
  ℕ, zero, suc, ◌≤◌, ◌≡◌, refl, sym, ap, ◌∙◌, true, not, ◌&&◌, List, [], ◌∷◌, Option, none, some,
  length, leb, ltb, if◌then◌else◌, if_cases, Bytes, has_value, All, arith,
}
use mathlib.Core.Path.{subst}
use wotex_matter.Json.{Json}
use wotex_matter.Storage.Utf8.{valid_key}
use wotex_matter.Storage.Base64.RoundTrip.{IsByte}
use wotex_matter.Storage.Files.{Directory, Answer, Run, stopped, returned, M, take, contents_of}
use wotex_matter.Storage.Values.{Values, lookup, insert, erase, lookup-insert, lookup-erase}
use wotex_matter.Storage.Document.{ControllerIdentity, valid_identity, Events, valid_entry_key}
use wotex_matter.Storage.Document.RoundTrip.{IsEntry, IsStored}
use wotex_matter.Storage.Document.Loaded.{insert-IsStored, erase-IsStored}
use wotex_matter.Storage.Store.{
  Status, no_error, persisted_storage_failed, Store, poison, opened_store, set_normalized,
  set_key_value, delete_normalized, delete_key_value,
}
use wotex_matter.Storage.Store.Durable.{
  View, view_of, Command, set, delete, execute, update_key, apply, IsCommand, is_error, EndsIn,
  ReadsBack, Held, Leaves, kept, applied, Outcome, refused, done, broken, Ended, replaced,
  held_view,
}

-- Sessions from a store and its directory: the map that the acknowledged commands make, the store and the
-- directory. A command that is refused changes nothing in the map.
pub data Session (dump : Json → Option Bytes) (start : Store) (d0 : Directory)
    : View → Store → Directory → Type 0 where
  opened : Session dump start d0 (view_of start.values) start d0
  acknowledged :
      {m : View} {s s' : Store} {d d' : Directory} (answers rest : List Answer) (c : Command)
      → Session dump start d0 m s d
      → IsCommand c
      → execute dump c s answers d ≡ returned (no_error, s') d' rest
      → Session dump start d0 (apply c m) s' d'
  unacknowledged :
      {m : View} {s s' : Store} {d d' : Directory} (answers rest : List Answer) (c : Command)
      (status : Status)
      → Session dump start d0 m s d
      → IsCommand c
      → is_error status ≡ true
      → execute dump c s answers d ≡ returned (status, s') d' rest
      → Session dump start d0 m s' d'

key_ext :
    (o : Option Bytes) (v : Option Bytes) (m m' : View)
    → ((k : Bytes) → m k ≡ m' k)
    → (k : Bytes) → update_key o v m k ≡ update_key o v m' k
key_ext none v m m' e k = e k
key_ext (some j) v m m' e k = rw (e k) refl

pub apply-ext :
    (c : Command) (m m' : View)
    → ((k : Bytes) → m k ≡ m' k)
    → (k : Bytes) → apply c m k ≡ apply c m' k
apply-ext (set key value size) m m' e k =
    key_ext (valid_key key) (some (take size (contents_of value))) m m' e k
apply-ext (delete key) m m' e k = key_ext (valid_key key) none m m' e k

valid_key-valid_entry_key :
    (key : Option Bytes) (k : Bytes) → valid_key key ≡ some k → valid_entry_key k ≡ true
unfolding valid_key valid_entry_key
valid_key-valid_entry_key none k e = cc e
valid_key-valid_entry_key (some bytes) k e = ground (arith, e)

All-take : {A : Type 0} (P : A → Type 0) (n : ℕ) (xs : List A) → All P xs → All P (take n xs)
All-take P zero xs h = tt
All-take P (suc n) [] h = tt
All-take P (suc n) (x ∷ xs) h = (h.0, All-take P n xs h.1)

length-take : {A : Type 0} (n : ℕ) (xs : List A) → length (take n xs) ≤ n
length-take zero xs = omega arith
length-take (suc n) [] = omega arith
length-take (suc n) (x ∷ xs) = omega (arith, length-take n xs)

new-IsEntry :
    (key value : Option Bytes) (k : Bytes) (size : ℕ)
    → IsCommand (set key value size)
    → valid_key key ≡ some k
    → IsEntry (k, take size (contents_of value))
new-IsEntry key value k size h e = (
  valid_key-valid_entry_key key k e,
  All-take IsByte size _ h.1,
  omega (arith, length-take size (contents_of value), h.0),
)

module _ (dump : Json → Option Bytes) (parse : Bytes → Option (Events × Json))
    (identity : ControllerIdentity) (law : ReadsBack dump parse identity)
    (v : valid_identity identity ≡ true) where
  abbrev H : View → Directory → Type 0
  H = Held dump parse identity

  module _ (values : Values) (stored : IsStored values) (d : Directory)
      (held : H (view_of values) d) (i : d.intent ≡ none) where
    abbrev S : Store
    S = opened_store identity values

    set_normalized-Ended :
        (key value : Option Bytes) (size : ℕ) (answers : List Answer) (o : Option Bytes)
        → IsCommand (set key value size)
        → valid_key key ≡ o
        → Ended dump parse identity
            (set key value size)
            S
            d
            (set_normalized dump value size S o answers d)
    unfolding set_normalized
    set_normalized-Ended key value size answers none h e = refused refl refl refl
    set_normalized-Ended key value size answers (some k) h e =
        if_cases
          (λ (m : M (Status × Store)).
            Ended dump parse identity (set key value size) S d (m answers d))
          (not (has_value value) && ltb 0 size) (λ _. refused refl refl refl)
          λ _.
            if_cases
              (λ (m : M (Status × Store)).
                Ended dump parse identity (set key value size) S d (m answers d))
              (not (has_value (lookup k values)) && leb 4096 (length values))
              (λ _. refused refl refl refl)
              λ room.
                replaced dump parse identity law v (set key value size) values
                  (insert k (take size (contents_of value)) values)
                  (insert-IsStored k _ values (new-IsEntry key value k size h e)
                    (λ e'. ground (arith, e', room)) stored)
                  d (λ j. rw e (lookup-insert k j (take size (contents_of value)) values)) held i
                  answers

    delete_normalized-Ended :
        (key : Option Bytes) (answers : List Answer) (o : Option Bytes)
        → valid_key key ≡ o
        → Ended dump parse identity (delete key) S d (delete_normalized dump S o answers d)
    unfolding delete_normalized
    delete_normalized-Ended key answers none e = refused refl refl refl
    delete_normalized-Ended key answers (some k) e =
        if_cases
          (λ (m : M (Status × Store)). Ended dump parse identity (delete key) S d (m answers d))
          (not (has_value (lookup k values))) (λ _. refused refl refl refl)
          λ _.
            replaced dump parse identity law v (delete key) values (erase k values)
              (erase-IsStored k values stored) d (λ j. rw e (lookup-erase k j values)) held i
              answers

    -- A command, on a store that is not poisoned.
    pub execute-Ended :
        (c : Command) (answers : List Answer)
        → IsCommand c
        → Ended dump parse identity c S d (execute dump c S answers d)
    unfolding set_key_value delete_key_value
    execute-Ended (set key value size) answers h =
        set_normalized-Ended key value size answers (valid_key key) h refl
    execute-Ended (delete key) answers h = delete_normalized-Ended key answers (valid_key key) refl

  -- A poisoned store refuses every command.
  pub poisoned-execute :
      (c : Command) (s : Store) (answers : List Answer) (d : Directory)
      → s.poisoned ≡ true
      → execute dump c s answers d ≡ returned (persisted_storage_failed, s) d answers
  unfolding set_key_value delete_key_value
  poisoned-execute (set key value size) s answers d e = rw e refl
  poisoned-execute (delete key) s answers d e = rw e refl

  -- The store in memory is the map, and the directory holds it; or the store is poisoned, and the directory
  -- holds the map, or the map with a command applied.
  pub data Durable (m : View) (s : Store) (d : Directory) : Type 0 where
    healthy :
        (values : Values)
        → s ≡ opened_store identity values
        → IsStored values
        → ((k : Bytes) → lookup k values ≡ m k)
        → H m d
        → d.intent ≡ none
        → Durable m s d
    poisoned :
        (c : Command)
        → s.poisoned ≡ true
        → ((k : Bytes) → lookup k s.values ≡ m k)
        → Leaves dump parse identity c m d
        → Durable m s d

  pub Leaves_view :
      (c : Command) (m m' : View) (d : Directory)
      → ((k : Bytes) → m k ≡ m' k)
      → Leaves dump parse identity c m d
      → Leaves dump parse identity c m' d
  Leaves_view c m m' d e (kept h) = kept (held_view dump parse identity m m' d e h)
  Leaves_view c m m' d e (applied h) =
      applied (held_view dump parse identity _ _ d (apply-ext c m m' e) h)

  -- One command from a durable store.
  Step : View → Command → Run (Status × Store) → Type 0
  Step m c =
      EndsIn (Leaves dump parse identity c m)
        (λ reply d. Durable (if is_error reply.0 then m else apply c m) reply.1 d)

  Outcome-Durable :
      (values : Values) (m : View) (c : Command) (d d' : Directory) (reply : Status × Store)
      → IsStored values
      → ((k : Bytes) → lookup k values ≡ m k)
      → H m d
      → d.intent ≡ none
      → Outcome dump parse identity c (opened_store identity values) d reply d'
      → Durable (if is_error reply.0 then m else apply c m) reply.1 d'
  unfolding poison
  Outcome-Durable values m c d d' reply stored same held i (refused e s same_d) =
      rw e (
        healthy values s stored same (subst (H m) (sym same_d) held)
          (ap (λ x. x.intent) same_d ∙ i))
  Outcome-Durable values m c d d' reply stored same held i
        (done next e s stored' changed held' i') =
      let now : (k : Bytes) → lookup k next ≡ apply c m k =
        λ k. changed k ∙ apply-ext c _ m same k in
      rw e (healthy next s stored' now (held_view dump parse identity _ _ d' now held') i')
  Outcome-Durable values m c d d' reply stored same held i (broken e s left) = rw e (
      poisoned c (ap (λ x. x.poisoned) s) (λ k. ap (λ x. lookup k x.values) s ∙ same k)
        (Leaves_view c _ m d' same left))

  step_of :
      (values : Values) (m : View) (c : Command) (d : Directory) (r : Run (Status × Store))
      → IsStored values
      → ((k : Bytes) → lookup k values ≡ m k)
      → H m d
      → d.intent ≡ none
      → Ended dump parse identity c (opened_store identity values) d r
      → Step m c r
  unfolding Step
  step_of values m c d (stopped d') stored same held i h = Leaves_view c _ m d' same h
  step_of values m c d (returned reply d' answers) stored same held i h =
      Outcome-Durable values m c d d' reply stored same held i h

  execute-Step :
      (m : View) (s : Store) (d : Directory) (c : Command) (answers : List Answer)
      → Durable m s d
      → IsCommand c
      → Step m c (execute dump c s answers d)
  unfolding Step
  execute-Step m s d c answers (healthy values e stored same held i) h =
      subst (λ x. Step m c (execute dump c x answers d)) (sym e)
        (step_of values m c d (execute dump c (opened_store identity values) answers d) stored same
          held i
          (execute-Ended values stored d
            (held_view dump parse identity _ _ d (λ k. sym (same k)) held) i c answers h))
  execute-Step m s d c answers (poisoned c' p same left) h =
      subst (Step m c) (sym (poisoned-execute c s answers d p)) (poisoned c' p same left)

  step_returned :
      (m : View) (c : Command) (r : Run (Status × Store)) (status : Status) (s : Store)
      (d : Directory) (rest : List Answer)
      → r ≡ returned (status, s) d rest
      → Step m c r
      → Durable (if is_error status then m else apply c m) s d
  unfolding Step
  step_returned m c r status s d rest e h = subst (Step m c) e h

  -- Let the identity be valid and the JSON library read back what it writes. From a durable store every session
  -- leads to a durable one: the map that the acknowledged commands make is the one in memory, and the file
  -- holds it; or the store is poisoned, and the file holds that map, or that map with one command applied.
  pub Session-Durable :
      (start : Store) (d0 : Directory) (m : View) (s : Store) (d : Directory)
      → Durable (view_of start.values) start d0
      → Session dump start d0 m s d
      → Durable m s d
  Session-Durable start d0 m s d h opened = h
  Session-Durable start d0 m s d h (acknowledged answers rest c before command e) =
      step_returned _ c _ no_error s d rest e
        (execute-Step _ _ _ c answers (Session-Durable start d0 _ _ _ h before) command)
  Session-Durable start d0 m s d h (unacknowledged answers rest c status before command error e) =
      let after : Durable (if is_error status then m else apply c m) s d =
        step_returned m c _ status s d rest e
          (execute-Step m _ _ c answers (Session-Durable start d0 m _ _ h before) command) in
      subst (λ b. Durable (if b then m else apply c m) s d) error after

  -- Where the process stops in one more command, the file holds the map as it was or with the command applied.
  pub Session-crash :
      (start : Store) (d0 : Directory) (m : View) (s : Store) (d d' : Directory) (c : Command)
      (answers : List Answer)
      → Durable (view_of start.values) start d0
      → Session dump start d0 m s d
      → IsCommand c
      → execute dump c s answers d ≡ stopped d'
      → Leaves dump parse identity c m d'
  unfolding Step
  Session-crash start d0 m s d d' c answers h session command e =
      subst (Step m c) e
        (execute-Step m s d c answers (Session-Durable start d0 m s d h session) command)

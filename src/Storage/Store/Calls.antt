-- ===== src/Storage/Store/Calls.antt =====
-- The calls of the storage interface, one by one.
use wotex_matter.Base.{
  ℕ, zero, suc, ◌≤◌, ◌<◌, ◌≡◌, refl, ap, ◌∙◌, true, false, not, ◌&&◌, List, [], ◌∷◌, ◌++◌, Option,
  none, some, length, leb, ltb, Bytes, has_value, arith,
}
use wotex_matter.Json.{Json}
use wotex_matter.Storage.Utf8.{valid_key}
use wotex_matter.Storage.Files.{Directory, Answer, returned, take, drop}
use wotex_matter.Storage.Commit.Completes.{successes, commit_contents-completes}
use wotex_matter.Storage.Values.{Values, lookup, insert}
use wotex_matter.Storage.Document.{ControllerIdentity, valid_identity, Events, serialize_state}
use wotex_matter.Storage.Store.Durable.{View, view_of, ReadsBack}
use wotex_matter.Storage.Store.Session.{Session, Durable, healthy, poisoned, Session-Durable}
use wotex_matter.Storage.Store.{
  no_error, Store, opened_store, commit_text, commit, keep, replace_values, set_normalized,
  set_key_value, copy_value, get_key_value,
}

absurd : {P : Type 0} → false ≡ true → P
absurd e = cc e

module _ (dump : Json → Option Bytes) (identity : ControllerIdentity) (values next : Values) (b : ℕ)
    (bytes : Bytes) (old : Option Bytes) (rest : List Answer) where
  abbrev start : Directory
  start = record { state = old; temporary = none; intent = none }

  replace_values-completes :
      serialize_state dump identity next ≡ some (b ∷ bytes)
      → replace_values dump (opened_store identity values) next (successes 17 rest) start
        ≡ returned
            (no_error, opened_store identity next)
            (record start { state = some (b ∷ bytes) })
            rest
  unfolding replace_values commit commit_text keep
  replace_values-completes e = rw (e, commit_contents-completes b bytes old rest) refl

-- SyncSetKeyValue of a valid key, with room for it and a document that fits in the file: where every system
-- call succeeds, it returns without an error, the store has the value, and the file has the document.
pub set_key_value-completes :
    (dump : Json → Option Bytes) (identity : ControllerIdentity) (values : Values)
    (key : Option Bytes) (k value : Bytes) (size b : ℕ) (bytes : Bytes) (old : Option Bytes)
    (rest : List Answer)
    → valid_key key ≡ some k
    → (has_value (lookup k values) ≡ false → length values < 4096)
    → serialize_state dump identity (insert k (take size value) values) ≡ some (b ∷ bytes)
    → set_key_value dump key
        (some value)
        size
        (opened_store identity values)
        (successes 17 rest)
        (record { state = old; temporary = none; intent = none })
      ≡ returned
          (no_error, opened_store identity (insert k (take size value) values))
          (record { state = some (b ∷ bytes); temporary = none; intent = none })
          rest
unfolding set_key_value set_normalized
set_key_value-completes dump identity values key k value size b bytes old rest e room fits =
    let open_room : (not (has_value (lookup k values)) && leb 4096 (length values)) ≡ false =
      ground (arith, room) in
    rw (e, open_room)
      (replace_values-completes dump identity values (insert k (take size value) values) b bytes old
        rest fits)

take_all : (n : ℕ) (bs : Bytes) → length bs ≤ n → take n bs ≡ bs
take_all zero [] h = refl
take_all zero (b ∷ bs) h = absurd (ground (arith, h))
take_all (suc n) [] h = refl
take_all (suc n) (b ∷ bs) h = ap (λ r. b ∷ r) (take_all n bs (omega (arith, h)))

copy_value-fits :
    (value buffer : Bytes) (size : ℕ)
    → length value ≤ size
    → copy_value value (some buffer) size ≡ record {
      status = no_error;
      buffer = some (value ++ drop (length value) buffer);
      size = length value;
    }
unfolding copy_value
copy_value-fits value buffer size h =
    let fits : ltb size (length value) ≡ false = ground (arith, h) in
    rw (fits, take_all size value h) refl

found_lem :
    (key : Option Bytes) (k value buffer : Bytes) (size : ℕ) (s : Store)
    → s.poisoned ≡ false
    → valid_key key ≡ some k
    → lookup k s.values ≡ some value
    → get_key_value key (some buffer) size s ≡ copy_value value (some buffer) size
unfolding get_key_value
found_lem key k value buffer size s p e f = rw (p, e, f) refl

module _ (dump : Json → Option Bytes) (parse : Bytes → Option (Events × Json))
    (identity : ControllerIdentity) (law : ReadsBack dump parse identity)
    (v : valid_identity identity ≡ true) where
  Durable-lookup :
      (m : View) (s : Store) (d : Directory)
      → Durable dump parse identity law v m s d
      → (k : Bytes) → lookup k s.values ≡ m k
  Durable-lookup m s d (healthy values e stored same held i) k =
      ap (λ x. lookup k x.values) e ∙ same k
  Durable-lookup m s d (poisoned c p same left) k = same k

  -- Let the identity be valid and the JSON library read back what it writes. After any session from a durable
  -- store, a store that is not poisoned answers SyncGetKeyValue with the value
  -- of the acknowledged commands: with room for it, the buffer begins with that value and keeps what is behind it.
  pub get_key_value-Session :
      (start : Store) (d0 : Directory) (m : View) (s : Store) (d : Directory) (key : Option Bytes)
      (k value buffer : Bytes) (size : ℕ)
      → Durable dump parse identity law v (view_of start.values) start d0
      → Session dump start d0 m s d
      → s.poisoned ≡ false
      → valid_key key ≡ some k
      → m k ≡ some value
      → length value ≤ size
      → get_key_value key (some buffer) size s ≡ record {
        status = no_error;
        buffer = some (value ++ drop (length value) buffer);
        size = length value;
      }
  get_key_value-Session start d0 m s d key k value buffer size h session p e f fits =
      let known : lookup k s.values ≡ some value =
        Durable-lookup m s d (Session-Durable dump parse identity law v start d0 m s d h session) k
        ∙ f in
      found_lem key k value buffer size s p e known ∙ copy_value-fits value buffer size fits

-- ===== src/Credit/Table.antt =====
-- The table of report streams of native/src/subscription.cpp: std::unordered_map keyed by
-- `Key(subscription_id, generation)`, as an association list with one entry for a key.
use mathlib.Core.Path.{subst}
use wotex_matter.Base.{
  Bool-cases, inl, inr, false, ℕ, ◌+◌, ◌≡◌, Bool, Option, none, some, List, [], ◌∷◌, ◌++◌, arith,
  if◌then◌else◌, Bytes, eq_bytes, eq_bytes→eq, eq_bytes_refl, has_value,
}

pub record Stream : Type 0 where
  pub generation : ℕ
  pub queue_limit : ℕ
  pub outstanding : ℕ
  pub queued : ℕ
  pub last_transmitted : ℕ
  pub live : Bool

abbrev pub Streams : Type 0
Streams = List (Bytes × Stream)

unfoldable pub find : Bytes → Streams → Option Stream
find k [] = none
find k ((j, s) ∷ m) = if eq_bytes j k then some s else find k m

-- A write through an iterator or a reference to the entry of `k`.
unfoldable pub update : Bytes → Stream → Streams → Streams
update k v [] = []
update k v ((j, s) ∷ m) = if eq_bytes j k then (j, v) ∷ m else (j, s) ∷ update k v m

unfoldable pub erase : Bytes → Streams → Streams
erase k [] = []
erase k ((j, s) ∷ m) = let rest = erase k m in if eq_bytes j k then rest else (j, s) ∷ rest

-- std::count_if over the live entries.
unfoldable pub live_count : Streams → ℕ
live_count [] = 0
live_count ((j, s) ∷ m) = (if s.live then 1 else 0) + live_count m

module _ (k j : Bytes) where
  pub find-update :
      (v : Stream) (m : Streams)
      → find j (update k v m)
        ≡ (if eq_bytes k j then (if has_value (find j m) then some v else none) else find j m)
  unfolding find update
  find-update v [] = ground arith
  find-update v ((i, s) ∷ m) = ground (
    arith,
    find-update v m,
    eq_bytes→eq i k,
    eq_bytes→eq i j,
    eq_bytes→eq k j,
    eq_bytes_refl i,
    eq_bytes_refl j,
  )

  pub find-erase : (m : Streams) → find j (erase k m) ≡ (if eq_bytes k j then none else find j m)
  unfolding find erase
  find-erase [] = ground arith
  find-erase ((i, s) ∷ m) = ground (
    arith,
    find-erase m,
    eq_bytes→eq i k,
    eq_bytes→eq i j,
    eq_bytes→eq k j,
    eq_bytes_refl i,
    eq_bytes_refl j,
  )

pub find-append :
    (j k : Bytes) (v : Stream) (m : Streams)
    → find j (m ++ (k, v) ∷ [])
      ≡ (if has_value (find j m) then find j m else if eq_bytes k j then some v else none)
unfolding find
find-append j k v [] = ground arith
find-append j k v ((i, s) ∷ m) = ground (arith, find-append j k v m)

-- A property of every entry, after a write to the entry of a key that is there, or its removal.
module _ {ℓ} (A : Bytes → Option Stream → Type ℓ) (k : Bytes) (m : Streams) where
  pub update_cases :
      (s v : Stream)
      → find k m ≡ some s
      → A k (some v)
      → ((j : Bytes) → eq_bytes k j ≡ false → A j (find j m))
      → (j : Bytes) → A j (find j (update k v m))
  update_cases s v found here other j = elim (Bool-cases (eq_bytes k j)) [
    | inl e ↦
        subst (λ i. A i (find i (update k v m))) (eq_bytes→eq k j e)
          (rw (find-update, found, eq_bytes_refl k) here)
    | inr e ↦ rw (find-update, e) (other j e)
  ]

  pub erase_cases :
      A k none
      → ((j : Bytes) → eq_bytes k j ≡ false → A j (find j m))
      → (j : Bytes) → A j (find j (erase k m))
  erase_cases here other j = elim (Bool-cases (eq_bytes k j)) [
    | inl e ↦
        subst (λ i. A i (find i (erase k m))) (eq_bytes→eq k j e)
          (rw (find-erase, eq_bytes_refl k) here)
    | inr e ↦ rw (find-erase, e) (other j e)
  ]

  pub append_cases :
      (v : Stream)
      → find k m ≡ none
      → A k (some v)
      → ((j : Bytes) → eq_bytes k j ≡ false → A j (find j m))
      → (j : Bytes) → A j (find j (m ++ (k, v) ∷ []))
  append_cases v missing here other j = elim (Bool-cases (eq_bytes k j)) [
    | inl e ↦
        subst (λ i. A i (find i (m ++ (k, v) ∷ []))) (eq_bytes→eq k j e)
          (rw (find-append, missing, eq_bytes_refl k) here)
    | inr e ↦
        let same : find j (m ++ (k, v) ∷ []) ≡ find j m = ground (arith, find-append j k v m) in
        rw same (other j e)
  ]

-- ===== src/Storage/Values.antt =====
-- The values of the store: std::map from keys to byte strings, as a list in the order of its keys.
pub mod Order
use wotex_matter.Base.{
  ℕ, ◌≡◌, ◌≢◌, Bool, true, false, ◌&&◌, ◌||◌, List, [], ◌∷◌, Option, none, some, ◌==◌, ltb,
  if◌then◌else◌, Bytes, eq_bytes, eq_bytes→eq, eq_bytes_refl, has_value, arith,
}

abbrev pub Values : Type 0
Values = List (Bytes × Bytes)

-- The order of std::string.
unfoldable pub before_bytes : Bytes → Bytes → Bool
before_bytes [] [] = false
before_bytes [] (y ∷ ys) = true
before_bytes (x ∷ xs) [] = false
before_bytes (x ∷ xs) (y ∷ ys) = ltb x y || (x == y && before_bytes xs ys)

unfoldable pub lookup : Bytes → Values → Option Bytes
lookup k [] = none
lookup k ((j, v) ∷ m) = if eq_bytes j k then some v else lookup k m

-- `next[key] = value`.
unfoldable pub insert : Bytes → Bytes → Values → Values
insert k v [] = (k, v) ∷ []
insert k v ((j, w) ∷ m) =
    let rest = insert k v m in
    if eq_bytes j k
    then (j, v) ∷ m
    else if before_bytes k j
    then (k, v) ∷ (j, w) ∷ m
    else (j, w) ∷ rest

unfoldable pub erase : Bytes → Values → Values
erase k [] = []
erase k ((j, v) ∷ m) = let rest = erase k m in if eq_bytes j k then rest else (j, v) ∷ rest

-- emplace: a key that is there keeps its value.
unfoldable pub emplace : Bytes → Bytes → Values → Values
emplace k v m = if has_value (lookup k m) then m else insert k v m

module _ (k j : Bytes) where
  pub lookup-insert :
      (v : Bytes) (m : Values)
      → lookup j (insert k v m) ≡ (if eq_bytes k j then some v else lookup j m)
  unfolding lookup insert
  lookup-insert v [] = ground arith
  lookup-insert v ((i, w) ∷ m) = ground (
    arith,
    lookup-insert v m,
    eq_bytes→eq i k,
    eq_bytes→eq i j,
    eq_bytes→eq k j,
    eq_bytes_refl i,
    eq_bytes_refl j,
  )

  pub lookup-erase :
      (m : Values) → lookup j (erase k m) ≡ (if eq_bytes k j then none else lookup j m)
  unfolding lookup erase
  lookup-erase [] = ground arith
  lookup-erase ((i, w) ∷ m) = ground (
    arith,
    lookup-erase m,
    eq_bytes→eq i k,
    eq_bytes→eq i j,
    eq_bytes→eq k j,
    eq_bytes_refl i,
    eq_bytes_refl j,
  )

  pub lookup-emplace :
      (v : Bytes) (m : Values)
      → lookup j (emplace k v m)
        ≡ (if has_value (lookup j m) then lookup j m else if eq_bytes k j then some v else none)
  unfolding emplace
  lookup-emplace v m = ground (arith, lookup-insert v m, eq_bytes→eq k j)

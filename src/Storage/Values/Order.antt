-- ===== src/Storage/Values/Order.antt =====
-- The order of the keys in the store's map, and what the map's operations keep.
use wotex_matter.Base.{
  ℕ, suc, ◌≤◌, ◌≡◌, true, false, [], ◌∷◌, Option, none, some, length, if◌then◌else◌, if_cases,
  Bool-cases, inl, inr, Bytes, eq_bytes, eq_bytes→eq, has_value, All, All-map_of, refl, arith,
}
use wotex_matter.Storage.Values.{Values, before_bytes, lookup, insert, erase}

pub before_irrefl : (k : Bytes) → before_bytes k k ≡ false
unfolding before_bytes
before_irrefl [] = refl
before_irrefl (x ∷ k) = ground (arith, before_irrefl k)

pub before_trans :
    (i j k : Bytes) → before_bytes i j ≡ true → before_bytes j k ≡ true → before_bytes i k ≡ true
unfolding before_bytes
before_trans [] [] k p q = cc
before_trans [] (y ∷ j) [] p q = cc q
before_trans [] (y ∷ j) (z ∷ k) p q = refl
before_trans (x ∷ i) [] k p q = cc p
before_trans (x ∷ i) (y ∷ j) [] p q = cc q
before_trans (x ∷ i) (y ∷ j) (z ∷ k) p q = ground (arith, before_trans i j k)

pub before_total :
    (j k : Bytes) → eq_bytes j k ≡ false → before_bytes k j ≡ false → before_bytes j k ≡ true
unfolding before_bytes eq_bytes
before_total [] [] p q = cc p
before_total [] (y ∷ k) p q = refl
before_total (x ∷ j) [] p q = cc q
before_total (x ∷ j) (y ∷ k) p q = ground (arith, before_total j k)

-- The keys ascend, as in every std::map.
abbrev pub SortedKeys : Values → Type 0
SortedKeys [] = Unit
SortedKeys ((k, v) ∷ m) = All (λ e. before_bytes k e.0 ≡ true) m × SortedKeys m

module _ {κ} (P : Bytes × Bytes → Type κ) (k : Bytes) where
  pub All-insert :
      (v : Bytes) (m : Values)
      → P (k, v)
      → ((j w : Bytes) → eq_bytes j k ≡ true → P (j, v))
      → All P m
      → All P (insert k v m)
  unfolding insert
  All-insert v [] p same h = (p, tt)
  All-insert v ((j, w) ∷ m) p same h =
      if_cases (All P) (eq_bytes j k) (λ e. (same j w e, h.1))
        λ _.
          if_cases (All P) (before_bytes k j) (λ _. (p, h)) (λ _. (h.0, All-insert v m p same h.1))

  pub All-erase : (m : Values) → All P m → All P (erase k m)
  unfolding erase
  All-erase [] h = tt
  All-erase ((j, w) ∷ m) h =
      if_cases (All P) (eq_bytes j k) (λ _. All-erase m h.1) (λ _. (h.0, All-erase m h.1))

module _ (k : Bytes) where
  pub insert-SortedKeys : (v : Bytes) (m : Values) → SortedKeys m → SortedKeys (insert k v m)
  unfolding insert
  insert-SortedKeys v [] h = (tt, tt)
  insert-SortedKeys v ((j, w) ∷ m) h =
      if_cases SortedKeys (eq_bytes j k) (λ _. h)
        λ different.
          if_cases SortedKeys (before_bytes k j)
            (λ b. ((b, All-map_of _ _ m (λ e p. before_trans k j e.0 b p) h.0), h))
            λ not_before.
              let b : before_bytes j k ≡ true = before_total j k different not_before in
              (
                All-insert (λ e. before_bytes j e.0 ≡ true) k v m b
                    (λ i u same. rw (eq_bytes→eq i k same) b) h.0,
                insert-SortedKeys v m h.1,
              )

  pub erase-SortedKeys : (m : Values) → SortedKeys m → SortedKeys (erase k m)
  unfolding erase
  erase-SortedKeys [] h = tt
  erase-SortedKeys ((j, w) ∷ m) h =
      if_cases SortedKeys (eq_bytes j k) (λ _. erase-SortedKeys m h.1)
        λ _. (All-erase (λ e. before_bytes j e.0 ≡ true) k m h.0, erase-SortedKeys m h.1)

  lookup-before : (m : Values) → All (λ e. before_bytes k e.0 ≡ true) m → lookup k m ≡ none
  unfolding lookup
  lookup-before [] h = refl
  lookup-before ((j, w) ∷ m) h =
      ground (arith, lookup-before m h.1, eq_bytes→eq j k, before_irrefl k, h.0)

  -- A key that is there is replaced, and a new one adds an entry.
  pub length-insert :
      (v : Bytes) (m : Values)
      → SortedKeys m
      → length (insert k v m) ≡ (if has_value (lookup k m) then length m else suc (length m))
  unfolding insert lookup
  length-insert v [] h = refl
  length-insert v ((j, w) ∷ m) h =
      let later : before_bytes k j ≡ true → lookup k m ≡ none =
        λ b. lookup-before m (All-map_of _ _ m (λ e p. before_trans k j e.0 b p) h.0) in
      elim (Bool-cases (eq_bytes j k)) [
        | inl e ↦ rw (insert, lookup, e) refl
        | inr e ↦ elim (Bool-cases (before_bytes k j)) [
          | inl b ↦ rw (insert, lookup, e, b, later b) refl
          | inr b ↦
              rw (insert, lookup, e, b)
                (added (length (insert k v m)) (length m) (lookup k m) (length-insert v m h.1))
        ]
      ]
    where
      added :
          (n l : ℕ) (o : Option Bytes)
          → n ≡ (if has_value o then l else suc l)
          → suc n ≡ (if has_value o then suc l else suc (suc l))
      added n l none e = omega (arith, e)
      added n l (some x) e = omega (arith, e)

  pub length-erase : (m : Values) → length (erase k m) ≤ length m
  unfolding erase
  length-erase [] = omega arith
  length-erase ((j, w) ∷ m) = ground (arith, length-erase m)

-- ===== src/Value/FabricField.antt =====
-- The fabric index field (number 254) of an access control entry in a write.
use wotex_matter.Base.{
  ℕ, ◌≤◌, ◌≡◌, ◌≢◌, Bool, true, List, [], ◌∷◌, ◌++◌, none, arith, length, length-append,
  all_of-append, ℤ,
}
use wotex_matter.Value.Types.{
  Element, ElementType, Operation, Tag, element_of, tag, of_list, is_context,
}
use wotex_matter.Value.AccessControl.{context_field, valid_entry, entry_field}
use wotex_matter.Value.EntryFields.{loop-append_other, loop-append_twice}
use wotex_matter.Value.Agreement.{to_list-of_list}

abbrev pub entry_with : Tag → ℤ → ℕ → Bool → List Element → Element
entry_with t s u b fields = element_of t ElementType.structure s u b (of_list fields)

module _ (t : Tag) (s : ℤ) (u : ℕ) (b : Bool) (fields : List Element) (x y : Element)
    (cx : is_context x ≡ true) (cy : is_context y ≡ true) (hx : (tag x).id ≡ 254)
    (hy : (tag y).id ≡ 254) where
  abbrev pub doubled : Element
  doubled = entry_with t s u b (fields ++ x ∷ y ∷ [])

  other_field :
      (id : ℕ) → id ≢ 254 → context_field doubled id ≡ context_field (entry_with t s u b fields) id
  unfolding context_field
  other_field id ne =
      rw (to_list-of_list (fields ++ x ∷ y ∷ []), to_list-of_list fields)
        (loop-append_other x y cx cy id fields none (omega arith) (omega arith))

  fabric_field : context_field doubled 254 ≡ none
  unfolding context_field
  fabric_field =
      rw (to_list-of_list (fields ++ x ∷ y ∷ []))
        (loop-append_twice x y cx cy 254 fields none hx hy)

  -- ContextField answers null for a number that stands twice: an entry of at most four fields that
  -- a write may hold is still accepted with two context fields of number 254 added, of any type
  -- and value.
  pub doubled_fabric-accepted :
      length fields ≤ 4
      → valid_entry Operation.write (entry_with t s u b fields) ≡ true
      → valid_entry Operation.write doubled ≡ true
  unfolding valid_entry
  doubled_fabric-accepted short v = ground (
    arith,
    fabric_field,
    other_field 1,
    other_field 2,
    other_field 3,
    other_field 4,
    other_field 5,
    to_list-of_list (fields ++ x ∷ y ∷ []),
    to_list-of_list fields,
    all_of-append entry_field fields (x ∷ y ∷ []),
    length-append fields (x ∷ y ∷ []),
  )

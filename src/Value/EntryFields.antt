-- ===== src/Value/EntryFields.antt =====
-- What an accepted access control entry holds, field by field.
use mathlib.Core.Path.{subst}
use wotex_matter.Base.{
  ℕ, ◌≤◌, ◌≡◌, ◌≢◌, ap, true, false, List, [], ◌∷◌, ◌++◌, Option, none, some, arith, length, all_of,
  All, All-map_of, ◌==◌, Bool-cases, and_true, inl, inr, sym, Option-cases,
}
use wotex_matter.Value.Types.{
  Element, ElementType, Operation, tag, unsigned_value, children, is_context, has_type,
}
use wotex_matter.Value.AccessControl.{
  context_field_loop, context_field, valid_entry, valid_access_control_list, required_u8,
}

-- Every field of that number is the given one.
abbrev Only : ℕ → Element → List Element → Type 0
Only id f fields = All (λ g. (tag g).id ≡ id → g ≡ f) fields

context_field_loop-some :
    (id : ℕ) (fields : List Element) (r f : Element)
    → context_field_loop id fields (some r) ≡ some f
    → (r ≡ f) × All (λ g. (tag g).id ≢ id) fields
unfolding context_field_loop
context_field_loop-some id [] r f e = (cc, tt)
context_field_loop-some id (g ∷ fields) r f e =
    ground (arith, context_field_loop-some id fields r f)

==_ne : {a b : ℕ} → (a == b) ≡ false → a ≢ b
==_ne e h = ground arith

context_field_loop-Only :
    (id : ℕ) (fields : List Element) (f : Element)
    → context_field_loop id fields none ≡ some f
    → Only id f fields
unfolding context_field_loop
context_field_loop-Only id [] f e = tt
context_field_loop-Only id (g ∷ fields) f e = elim (Bool-cases ((tag g).id == id)) [
  | inl hit ↦
      let (same, others) = context_field_loop-some id fields g f (ground arith) in
      (λ h. same, All-map_of _ _ fields (λ x ne h. absurd (ne h)) others)
  | inr miss ↦ (λ h. absurd (==_ne miss h), context_field_loop-Only id fields f (ground arith))
]

-- A field that ContextField finds is the only one of its number.
pub context_field-Only :
    (e : Element) (id : ℕ) (f : Element) → context_field e id ≡ some f → Only id f (children e)
unfolding context_field
context_field-Only e id f h = context_field_loop-Only id (children e) f h

-- A U8 field in a range.
abbrev InRange : ℕ → ℕ → Element → Type 0
InRange low high f =
    (has_type ElementType.u8 f ≡ true) × (low ≤ unsigned_value f) × (unsigned_value f ≤ high)

-- The operational limits of one entry: every privilege field is a U8 from 1 to 5, and every
-- authentication mode is a U8 that is 2 (CASE) or 3 (group), never 1 (PASE).
abbrev pub IsOperational : Element → Type 0
IsOperational entry =
    All (λ f. ((tag f).id ≡ 1 → InRange 1 5 f) × ((tag f).id ≡ 2 → InRange 2 3 f)) (children entry)

-- A required U8 bounds every field of its number.
required_u8-InRange :
    (entry : Element) (id low high : ℕ)
    → required_u8 low high (context_field entry id) ≡ true
    → All (λ f. (tag f).id ≡ id → InRange low high f) (children entry)
required_u8-InRange entry id low high h = elim (Option-cases (context_field entry id)) [
  | inl e ↦ cc (e, ap (required_u8 low high) e)
  | inr (f, e) ↦
      let good : required_u8 low high (some f) ≡ true = rw e at h in
      let bounds : InRange low high f = ground arith in
      All-map_of _ _ (children entry) (λ g same i. subst (InRange low high) (sym (same i)) bounds)
        (context_field-Only entry id f e)
]

All-both {ℓ} :
    {A : Type ℓ} (P Q : A → Type 0) (xs : List A) → All P xs → All Q xs → All (λ x. P x × Q x) xs
All-both P Q [] h k = tt
All-both P Q (x ∷ xs) h k = ((h.0, k.0), All-both P Q xs h.1 k.1)

valid_entry-IsOperational :
    (operation : Operation) (entry : Element)
    → valid_entry operation entry ≡ true
    → IsOperational entry
unfolding valid_entry
valid_entry-IsOperational operation entry v =
    All-both _ _ (children entry) (required_u8-InRange entry 1 1 5 (ground arith))
      (required_u8-InRange entry 2 2 3 (ground arith))

entries-IsOperational :
    (operation : Operation) (entries : List Element)
    → all_of (valid_entry operation) entries ≡ true
    → All IsOperational entries
entries-IsOperational operation [] v = tt
entries-IsOperational operation (entry ∷ entries) v =
    let (here, rest) = and_true (valid_entry operation entry) _ v in
    (valid_entry-IsOperational operation entry here, entries-IsOperational operation entries rest)

-- An accepted access control list has at most 64 entries, and in each of them every privilege field
-- (number 1) is a U8 from 1 to 5 and every authentication mode (number 2) is a U8 that is 2 or 3.
pub valid_access_control_list-IsOperational :
    (e : Element) (operation : Operation)
    → valid_access_control_list e operation ≡ true
    → (length (children e) ≤ 64) × All IsOperational (children e)
unfolding valid_access_control_list
valid_access_control_list-IsOperational e operation v =
    (ground arith, entries-IsOperational operation (children e) (ground arith))

-- Two more fields of a number: another number is read as before, and their own is not read.
module _ (x y : Element) (cx : is_context x ≡ true) (cy : is_context y ≡ true) where
  pub loop-append_other :
      (id : ℕ) (fields : List Element) (r : Option Element)
      → (tag x).id ≢ id
      → (tag y).id ≢ id
      → context_field_loop id (fields ++ x ∷ y ∷ []) r ≡ context_field_loop id fields r
  unfolding context_field_loop
  loop-append_other id [] r hx hy = ground arith
  loop-append_other id (f ∷ fields) r hx hy =
      ground (arith, loop-append_other id fields r, loop-append_other id fields (some f))

  pub loop-append_twice :
      (id : ℕ) (fields : List Element) (r : Option Element)
      → (tag x).id ≡ id
      → (tag y).id ≡ id
      → context_field_loop id (fields ++ x ∷ y ∷ []) r ≡ none
  unfolding context_field_loop
  loop-append_twice id [] r hx hy = ground arith
  loop-append_twice id (f ∷ fields) r hx hy =
      ground (arith, loop-append_twice id fields r, loop-append_twice id fields (some f))

-- ===== src/Value/Agreement.antt =====
-- The two gates agree: what `convert_value` produces, `validate_element` accepts.
use mathlib.Core.Path.{subst}
use wotex_matter.Base.{
  ℕ, ◌≤◌, ◌<◌, ◌≡◌, ◌≢◌, ap, le→leb, leb→le, ◌^◌, ◌%◌, refl, Bool, true, ◌&&◌, List, [], ◌∷◌, arith,
  length, length-map, all_of, All, map, leb, if◌then◌else◌, if_cases, Option-cases, and_true, inl,
  inr,
}
use wotex_matter.Value.Types.{
  MemberKind, Element, ElementType, Operation, Schema, NativeValue, NativeValueKind, Conversion,
  ConversionError, DeviceType, to_list, of_list, is_anonymous,
}
use wotex_matter.Value.Registry.{lookup_descriptor, valid_cluster}
use wotex_matter.Value.Convert.{
  success, failure, container, convert_value, convert_by, convert, convert_identifiers,
  unsigned_element, anonymous_tag, device_type_element,
}
use wotex_matter.Value.Validate.{
  validate_element, conforms, is_cluster, is_part, is_device_type, is_list_of,
}

pub to_list-of_list : (es : List Element) → to_list (of_list es) ≡ es
to_list-of_list [] = refl
to_list-of_list (e ∷ es) = rw (to_list-of_list es)

-- What a result of `convert` must be, to be accepted.
abbrev Acceptable : Schema → Operation → Conversion → Type 0
Acceptable s operation c =
    (e : Element) → c ≡ success e → (is_anonymous e ≡ true) × (conforms s operation e ≡ true)

device_types_conform :
    (ds : List DeviceType) → all_of is_device_type (map device_type_element ds) ≡ true
device_types_conform [] = refl
device_types_conform (d ∷ ds) = device_types_conform ds

clusters_conform :
    (is : List ℕ)
    → All (λ i. i < 2 ^ 32) is
    → all_of valid_cluster is ≡ true
    → all_of is_cluster (map (unsigned_element anonymous_tag ElementType.u32) is) ≡ true
clusters_conform [] h e = refl
clusters_conform (i ∷ is) h e =
    let (valid, rest) = and_true (valid_cluster i) _ e in
    let same : i % 2 ^ 32 ≡ i = omega (arith, h.0) in
    rw (same, valid) (clusters_conform is h.1 rest)

parts_conform :
    (is : List ℕ)
    → all_of (λ i. leb i 0xFFFE) is ≡ true
    → all_of is_part (map (unsigned_element anonymous_tag ElementType.u16) is) ≡ true
parts_conform [] e = refl
parts_conform (i ∷ is) e = ground (arith, parts_conform is)

failure-ne-success :
    {A : Type 0} {x : ConversionError} {e : Element}
    → x ≢ ConversionError.none
    → failure x ≡ success e
    → A
failure-ne-success h p = absurd (h (ap (λ c. c.error) p))

-- A conversion that failed meets every demand on its result.
failure-Acceptable :
    (s : Schema) (operation : Operation)
    → Acceptable s operation (failure ConversionError.invalid_value)
failure-Acceptable s operation e p = failure-ne-success (λ q. cc) p

-- A list of converted items, each of which passes its test.
identifiers_cases :
    (P : Conversion → Type 0) (ty : ElementType) (test : ℕ → Bool) (v : NativeValue)
    → P (failure ConversionError.invalid_value)
    → ((leb (length v.identifiers) 1023 && all_of test v.identifiers) ≡ true
        → P (
            success (
              container ElementType.array (map (unsigned_element anonymous_tag ty) v.identifiers))))
    → P (convert_identifiers ty test v)
unfolding convert_identifiers
identifiers_cases P ty test v fail pass = by_kind v.kind
  where
    by_kind :
        (k : NativeValueKind)
        → P (elim k as (λ x. Conversion) [
          | NativeValueKind.identifiers ↦
              if leb (length v.identifiers) 1023 && all_of test v.identifiers
              then success (
                  container ElementType.array
                    (map (unsigned_element anonymous_tag ty) v.identifiers))
              else failure ConversionError.invalid_value
          | _ ↦ failure ConversionError.invalid_value
        ])
    by_kind NativeValueKind.identifiers = if_cases P _ pass (λ e. fail)
    by_kind _ = fail

success-injective : {x e : Element} → success x ≡ success e → x ≡ e
success-injective p = cc

-- Lists of at most 1023 items that pass the reader's test are accepted.
list-Acceptable :
    (s : Schema) (operation : Operation) (test : Element → Bool) (es : List Element)
    → ((e : Element) → conforms s operation e ≡ is_list_of test e)
    → length es ≤ 1023
    → all_of test es ≡ true
    → Acceptable s operation (success (container ElementType.array es))
list-Acceptable s operation test es reads short pass e p =
    let same : container ElementType.array es ≡ e = success-injective p in
    subst (λ x. (is_anonymous x ≡ true) × (conforms s operation x ≡ true)) same
      (refl, rw (reads, to_list-of_list es, pass, le→leb _ _ short) refl)

module _ (operation : Operation) (v : NativeValue)
    (wide : All (λ i. i < 2 ^ 32) v.identifiers) where
  convert_by-Acceptable : (s : Schema) → Acceptable s operation (convert_by s v)
  unfolding convert_by conforms
  convert_by-Acceptable Schema.device_type_list = device_types-Acceptable v.kind
    where
      device_types-Acceptable :
          (k : NativeValueKind)
          → Acceptable Schema.device_type_list operation (elim k as (λ x. Conversion) [
            | NativeValueKind.device_types ↦
                if leb (length v.device_types) 1023
                then success (container ElementType.array (map device_type_element v.device_types))
                else failure ConversionError.invalid_value
            | _ ↦ failure ConversionError.invalid_value
          ])
      device_types-Acceptable NativeValueKind.device_types =
          if_cases (Acceptable Schema.device_type_list operation) (leb (length v.device_types) 1023)
            (λ short.
              list-Acceptable Schema.device_type_list operation is_device_type
                (map device_type_element v.device_types) (λ e. refl)
                (omega (arith, length-map device_type_element v.device_types, leb→le _ _ short))
                (device_types_conform v.device_types))
            (λ long. failure-Acceptable Schema.device_type_list operation)
      device_types-Acceptable _ = failure-Acceptable Schema.device_type_list operation
  convert_by-Acceptable Schema.cluster_list =
      identifiers_cases (Acceptable Schema.cluster_list operation) ElementType.u32 valid_cluster v
        (failure-Acceptable Schema.cluster_list operation)
        λ good.
          let (short, pass) = and_true (leb (length v.identifiers) 1023) _ good in
          list-Acceptable Schema.cluster_list operation is_cluster _ (λ e. refl)
            (omega (
              arith,
              length-map (unsigned_element anonymous_tag ElementType.u32) v.identifiers,
              leb→le _ _ short,
            ))
            (clusters_conform v.identifiers wide pass)
  convert_by-Acceptable Schema.parts_list =
      identifiers_cases (Acceptable Schema.parts_list operation) ElementType.u16 (λ i. leb i 0xFFFE)
        v (failure-Acceptable Schema.parts_list operation)
        λ good.
          let (short, pass) = and_true (leb (length v.identifiers) 1023) _ good in
          list-Acceptable Schema.parts_list operation is_part _ (λ e. refl)
            (omega (
              arith,
              length-map (unsigned_element anonymous_tag ElementType.u16) v.identifiers,
              leb→le _ _ short,
            ))
            (parts_conform v.identifiers pass)
  convert_by-Acceptable _ = λ e p. ground arith

-- Whatever `convert_value` produces for a member and an operation, from identifiers that fit 32 bits,
-- `validate_element` accepts for the same member and the same operation.
pub validate_element-convert_value :
    (kind : MemberKind) (cluster member : ℕ) (operation : Operation) (v : NativeValue) (e : Element)
    → All (λ i. i < 2 ^ 32) v.identifiers
    → convert_value kind cluster member operation v ≡ success e
    → validate_element kind cluster member operation e ≡ ConversionError.none
unfolding convert_value validate_element convert
validate_element-convert_value kind cluster member operation v e wide p =
    elim (Option-cases (lookup_descriptor kind cluster member)) [
      | inl q ↦ failure-ne-success (λ r. cc) (rw (q, convert_value) at p)
      | inr (d, q) ↦ ground (arith, q, convert_by-Acceptable operation v wide d.schema e)
    ]

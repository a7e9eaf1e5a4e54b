-- ===== src/Protocol/Elements/RoundTrip.antt =====
-- ElementValue reads what ElementJson writes.
use wotex_matter.Base.{
  ℕ, zero, suc, ◌+◌, ◌-◌, ◌≤◌, ◌<◌, ◌≡◌, refl, ap, ◌∙◌, ℤ, pos, negsuc, leb_ℤ, Bool, true, false,
  Option, some, leb, ltb, eq_bytes, arith,
}
use wotex_matter.Json.{Json, Items, item, at, find}
use wotex_matter.Value.Types.{TagKind, Tag, ElementType, Element, element_of, Elements, nil, cons}
use wotex_matter.Protocol.Texts
use wotex_matter.Protocol.Elements.{
  exact_keys, tag_value, context_tag, type_of, as_int64, get_integer, Read, i16_value,
  unsigned_value, count_items, collection_value, body_value, parts_value, children_value,
  element_value, type_text, integer_json, tag_json, scalar_json, shape, element_json, children_json,
}

abbrev mutual
  pub size : Element → ℕ
  size (element_of tag type s u b es) = suc (sizes es)

  pub sizes : Elements → ℕ
  sizes nil = 0
  sizes (cons e es) = size e + sizes es

abbrev pub count_elements : Elements → ℕ
count_elements nil = 0
count_elements (cons e es) = suc (count_elements es)

abbrev pub TagFits : TagKind → ℕ → Type 0
TagFits TagKind.anonymous id = id ≡ 0
TagFits TagKind.context id = id ≤ 255

-- The fields that a type does not use have their default values.
abbrev pub NoChildren : Bool → Elements → Type 0
NoChildren b es = (b ≡ false) × (es ≡ nil)

abbrev pub ValueFits : ElementType → ℤ → ℕ → Bool → Elements → Type 0
ValueFits ElementType.null s u b es = (s ≡ pos 0) × (u ≡ 0) × NoChildren b es
ValueFits ElementType.i16 s u b es =
    (leb_ℤ (negsuc 32767) s ≡ true) × (leb_ℤ s (pos 32767) ≡ true) × (u ≡ 0) × NoChildren b es
ValueFits ElementType.u8 s u b es = (u ≤ 0xFF) × (s ≡ pos 0) × NoChildren b es
ValueFits ElementType.u16 s u b es = (u ≤ 0xFFFF) × (s ≡ pos 0) × NoChildren b es
ValueFits ElementType.u32 s u b es = (u ≤ 0xFFFF_FFFF) × (s ≡ pos 0) × NoChildren b es
ValueFits ElementType.u64 s u b es = (u ≤ 0xFFFF_FFFF_FFFF_FFFF) × (s ≡ pos 0) × NoChildren b es
ValueFits ElementType.boolean s u b es = (s ≡ pos 0) × (u ≡ 0) × (es ≡ nil)
ValueFits ElementType.structure s u b es =
    (count_elements es ≤ 1023) × (s ≡ pos 0) × (u ≡ 0) × (b ≡ false)
ValueFits ElementType.array s u b es =
    (count_elements es ≤ 1023) × (s ≡ pos 0) × (u ≡ 0) × (b ≡ false)

-- An element as the SDK's reader makes it, with at most so many levels.
unfoldable mutual
  pub IsWire : ℕ → Element → Type 0
  IsWire zero e = false ≡ true
  IsWire (suc levels) (element_of tag type s u b es) =
      TagFits tag.kind tag.id × ValueFits type s u b es × AreWire levels es

  pub AreWire : ℕ → Elements → Type 0
  AreWire levels nil = Unit
  AreWire levels (cons e es) = IsWire levels e × AreWire levels es

type_of-type_text : (type : ElementType) → type_of (type_text type) ≡ some type
unfolding type_of eq_bytes
type_of-type_text ElementType.null = refl
type_of-type_text ElementType.i16 = refl
type_of-type_text ElementType.u8 = refl
type_of-type_text ElementType.u16 = refl
type_of-type_text ElementType.u32 = refl
type_of-type_text ElementType.u64 = refl
type_of-type_text ElementType.boolean = refl
type_of-type_text ElementType.structure = refl
type_of-type_text ElementType.array = refl

tag_value-tag_json :
    (kind : TagKind) (id : ℕ)
    → TagFits kind id
    → tag_value (some (tag_json kind id)) ≡ some (record { kind = kind; id = id })
unfolding tag_value context_tag eq_bytes
tag_value-tag_json TagKind.anonymous id h = rw h refl
tag_value-tag_json TagKind.context id h =
    let fits : leb id 255 ≡ true = ground (arith, h) in rw fits refl

-- The keys of a shape, and its parts.
element_value-shape :
    (levels nodes : ℕ) (tag : Tag) (t v : Json) (type : ElementType)
    → nodes < 1024
    → tag_value (some t) ≡ some tag
    → element_value (suc levels) nodes (shape t type v)
      ≡ body_value (children_value (element_value levels)) tag (suc nodes) type v
unfolding element_value exact_keys at find eq_bytes parts_value
element_value-shape levels nodes tag t v type room e =
    let counted : leb 1024 nodes ≡ false = ground (arith, room) in
    rw (counted, e, type_of-type_text type) refl

get_integer-integer_json :
    (s : ℤ)
    → leb_ℤ (negsuc 32767) s ≡ true
    → leb_ℤ s (pos 32767) ≡ true
    → get_integer (integer_json s) ≡ some s
unfolding get_integer as_int64
get_integer-integer_json (pos n) h k =
    let small : ltb n 0x8000_0000_0000_0000 ≡ true = ground (arith, k) in rw small refl
get_integer-integer_json (negsuc n) h k = refl

count_items-children_json : (es : Elements) → count_items (children_json es) ≡ count_elements es
unfolding children_json
count_items-children_json nil = refl
count_items-children_json (cons e es) = ap suc (count_items-children_json es)

plus_zero : (n : ℕ) → n ≡ n + 0
plus_zero n = omega arith

module _ (children : ℕ → Items → Option (Elements × ℕ)) (tag : Tag) (nodes : ℕ) where
  unsigned_lem :
      (type : ElementType) (maximum : ℕ) (s : ℤ) (u : ℕ) (b : Bool) (es : Elements)
      → (u ≤ maximum) × (s ≡ pos 0) × NoChildren b es
      → unsigned_value type maximum tag nodes (some u)
        ≡ some (element_of tag type s u b es, nodes + sizes es)
  unfolding unsigned_value
  unsigned_lem type maximum s u b es h =
      let fits : leb u maximum ≡ true = ground (arith, h.0) in
      rw (fits, h.1, h.2.0, h.2.1)
        (ap (λ n. some (element_of tag type (pos 0) u false nil, n)) (plus_zero nodes))

  i16_lem :
      (s : ℤ) (u : ℕ) (b : Bool) (es : Elements)
      → ValueFits ElementType.i16 s u b es
      → i16_value tag nodes (some s)
        ≡ some (element_of tag ElementType.i16 s u b es, nodes + sizes es)
  unfolding i16_value
  i16_lem s u b es h =
      rw (h.0, h.1, h.2, h.3.0, h.3.1)
        (ap (λ n. some (element_of tag ElementType.i16 s 0 false nil, n)) (plus_zero nodes))

  collection_lem :
      (type : ElementType) (s : ℤ) (u : ℕ) (b : Bool) (es : Elements)
      → (count_elements es ≤ 1023) × (s ≡ pos 0) × (u ≡ 0) × (b ≡ false)
      → children nodes (children_json es) ≡ some (es, nodes + sizes es)
      → collection_value children type tag nodes (Json.array (children_json es))
        ≡ some (element_of tag type s u b es, nodes + sizes es)
  unfolding collection_value
  collection_lem type s u b es h e =
      let fits : leb (count_items (children_json es)) 1023 ≡ true =
        ground (arith, count_items-children_json es, h.0) in
      rw (fits, e, h.1, h.2, h.3) refl

  body_value_lem :
      (type : ElementType) (s : ℤ) (u : ℕ) (b : Bool) (es : Elements)
      → ValueFits type s u b es
      → children nodes (children_json es) ≡ some (es, nodes + sizes es)
      → body_value children tag nodes type (scalar_json type s u b (children_json es))
        ≡ some (element_of tag type s u b es, nodes + sizes es)
  unfolding body_value
  body_value_lem ElementType.null s u b es h e =
      rw (h.0, h.1, h.2.0, h.2.1)
        (ap (λ n. some (element_of tag ElementType.null (pos 0) 0 false nil, n)) (plus_zero nodes))
  body_value_lem ElementType.i16 s u b es h e =
      rw (get_integer-integer_json s h.0 h.1) (i16_lem s u b es h)
  body_value_lem ElementType.u8 s u b es h e = unsigned_lem ElementType.u8 0xFF s u b es h
  body_value_lem ElementType.u16 s u b es h e = unsigned_lem ElementType.u16 0xFFFF s u b es h
  body_value_lem ElementType.u32 s u b es h e = unsigned_lem ElementType.u32 0xFFFF_FFFF s u b es h
  body_value_lem ElementType.u64 s u b es h e =
      unsigned_lem ElementType.u64 0xFFFF_FFFF_FFFF_FFFF s u b es h
  body_value_lem ElementType.boolean s u b es h e =
      rw (h.0, h.1, h.2)
        (ap (λ n. some (element_of tag ElementType.boolean (pos 0) 0 b nil, n)) (plus_zero nodes))
  body_value_lem ElementType.structure s u b es h e =
      collection_lem ElementType.structure s u b es h e
  body_value_lem ElementType.array s u b es h e = collection_lem ElementType.array s u b es h e

absurd : {P : Type 0} → false ≡ true → P
absurd e = cc e

children_value-item :
    (child : ℕ → Json → Read) (nodes nodes' nodes'' : ℕ) (x : Json) (xs : Items) (e : Element)
    (es : Elements)
    → child nodes x ≡ some (e, nodes')
    → children_value child nodes' xs ≡ some (es, nodes'')
    → children_value child nodes (item x xs) ≡ some (cons e es, nodes'')
unfolding children_value
children_value-item child nodes nodes' nodes'' x xs e es p q = rw (p, q) refl

mutual
  unfolding IsWire AreWire element_json children_json children_value

  element_value_lem :
      (e : Element) (levels nodes : ℕ)
      → IsWire levels e
      → nodes + size e ≤ 1024
      → element_value levels nodes (element_json e) ≡ some (e, nodes + size e)
  element_value_lem (element_of tag type s u b es) zero nodes h room = absurd h
  element_value_lem (element_of tag type s u b es) (suc levels) nodes h room =
      element_value-shape levels nodes tag _ _ type (omega (arith, room))
        (tag_value-tag_json tag.kind tag.id h.0)
      ∙ body_value_lem (children_value (element_value levels)) tag (suc nodes) type s u b es h.1
          (children_value_lem es levels (suc nodes) h.2 (omega (arith, room)))
      ∙ ap (λ n. some (element_of tag type s u b es, n)) (omega arith)

  children_value_lem :
      (es : Elements) (levels nodes : ℕ)
      → AreWire levels es
      → nodes + sizes es ≤ 1024
      → children_value (element_value levels) nodes (children_json es) ≡ some (es, nodes + sizes es)
  children_value_lem nil levels nodes h room = ap (λ n. some (nil, n)) (plus_zero nodes)
  children_value_lem (cons e es) levels nodes h room =
      children_value-item (element_value levels) nodes (nodes + size e) (nodes + size e + sizes es)
        (element_json e) (children_json es) e es
        (element_value_lem e levels nodes h.0 (omega (arith, room)))
        (children_value_lem es levels (nodes + size e) h.1 (omega (arith, room)))
      ∙ ap (λ n. some (cons e es, n)) (omega arith)

-- The reader of ElementValue starts at depth 0 without a node: a valid element of at most nine levels and 1024
-- nodes is read as it was written.
pub element_value-element_json :
    (e : Element)
    → IsWire 9 e
    → size e ≤ 1024
    → element_value 9 0 (element_json e) ≡ some (e, size e)
element_value-element_json e h room =
    element_value_lem e 9 0 h (omega (arith, room)) ∙ ap (λ n. some (e, n)) (omega arith)

get_integer-wraps :
    (n : ℕ)
    → n ≤ 32767
    → get_integer (Json.number_unsigned (0xFFFF_FFFF_FFFF_FFFF - n)) ≡ some (negsuc n)
unfolding get_integer as_int64
get_integer-wraps n h =
    let large : ltb (0xFFFF_FFFF_FFFF_FFFF - n) 0x8000_0000_0000_0000 ≡ false = ground (arith, h) in
    let back : 0xFFFF_FFFF_FFFF_FFFF - (0xFFFF_FFFF_FFFF_FFFF - n) ≡ n = omega (arith, h) in
    rw (large, back) refl

-- An i16 whose number is not negative is read through int64_t without a test: 2^64 - 1 - n, for n up to 32767,
-- is taken for -(n + 1).
pub element_value-wraps :
    (n : ℕ)
    → n ≤ 32767
    → element_value 9 0 (
        shape
          (Json.string Texts.anonymous)
          ElementType.i16
          (Json.number_unsigned (0xFFFF_FFFF_FFFF_FFFF - n)))
      ≡ some (
        element_of
            (record { kind = TagKind.anonymous; id = 0 })
            ElementType.i16
            (negsuc n)
            0
            false
            nil,
        1,
      )
unfolding body_value
element_value-wraps n h =
    let anonymous_tag : Tag = record { kind = TagKind.anonymous; id = 0 } in
    element_value-shape 8 0 anonymous_tag (Json.string Texts.anonymous)
      (Json.number_unsigned (0xFFFF_FFFF_FFFF_FFFF - n)) ElementType.i16 (omega arith)
      (tag_value-tag_json TagKind.anonymous 0 refl)
    ∙ ap (i16_value anonymous_tag 1) (get_integer-wraps n h)
    ∙ i16_lem (children_value (element_value 8)) anonymous_tag 1 (negsuc n) 0 false nil
        (ground (arith, h), ground arith, refl, (refl, refl))

-- ===== src/Protocol/Elements.antt =====
-- ElementValue and ElementJson of native/src/protocol.cpp: elements as JSON. The depth of ElementValue
-- is bounded by 8, so that the recursion is on the levels that are left: `zero` is a depth above 8.
pub mod RoundTrip
use wotex_matter.Base.{
  ℕ, zero, suc, ◌+◌, ◌-◌, ℤ, pos, negsuc, leb_ℤ, Bool, true, false, not, ◌&&◌, ◌||◌, List, [], ◌∷◌,
  Option, none, some, length, all_of, ◌==◌, leb, ltb, if◌then◌else◌, Bytes, eq_bytes, has_value,
}
use wotex_matter.Json.{
  Json, Items, no_items, item, Members, no_members, member, count, at, find, get_string,
  get_unsigned,
}
use wotex_matter.Value.Types.{TagKind, Tag, ElementType, Element, element_of, Elements, nil, cons}
use wotex_matter.Protocol.Texts

-- ExactKeys: as many members as keys, and a member for each.
unfoldable pub exact_keys : List Bytes → Json → Bool
unfolding at find
exact_keys expected (Json.object fs) =
    count fs == length expected && all_of (λ k. has_value (find k fs)) expected
exact_keys expected _ = false

abbrev pub is_string : Bytes → Option Json → Bool
is_string text j = elim (get_string j) [ none ↦ false | some s ↦ eq_bytes s text ]

-- The two entries of an array of two.
abbrev pub two_items : Option Json → Option (Json × Json)
two_items (some (Json.array (item x (item y no_items)))) = some (x, y)
two_items _ = none

unfoldable pub context_tag : Option (Json × Json) → Option Tag
context_tag none = none
context_tag (some (name, id)) = elim (get_unsigned (some id)) [
  | none ↦ none
  | some n ↦
      if is_string Texts.context (some name) && leb n 255
      then some (record { kind = TagKind.context; id = n })
      else none
]

-- TagValue.
unfoldable pub tag_value : Option Json → Option Tag
unfolding context_tag
tag_value j =
    if is_string Texts.anonymous j
    then some (record { kind = TagKind.anonymous; id = 0 })
    else context_tag (two_items j)

-- The type of the name, with which each branch of ElementValue begins.
unfoldable pub type_of : Bytes → Option ElementType
type_of name =
    if eq_bytes name Texts.null
    then some ElementType.null
    else if eq_bytes name Texts.i16
    then some ElementType.i16
    else if eq_bytes name Texts.u8
    then some ElementType.u8
    else if eq_bytes name Texts.u16
    then some ElementType.u16
    else if eq_bytes name Texts.u32
    then some ElementType.u32
    else if eq_bytes name Texts.u64
    then some ElementType.u64
    else if eq_bytes name Texts.boolean
    then some ElementType.boolean
    else if eq_bytes name Texts.structure
    then some ElementType.structure
    else if eq_bytes name Texts.array
    then some ElementType.array
    else none

-- `get<std::int64_t>` of an unsigned number: the same 64 bits.
unfoldable pub as_int64 : ℕ → ℤ
as_int64 n = if ltb n 0x8000_0000_0000_0000 then pos n else negsuc (0xFFFF_FFFF_FFFF_FFFF - n)

-- is_number_integer, which unsigned numbers satisfy too, with what `get<std::int64_t>` then returns.
unfoldable pub get_integer : Json → Option ℤ
unfolding as_int64
get_integer (Json.number_unsigned n) = some (as_int64 n)
get_integer (Json.number_negative n) = some (negsuc n)
get_integer _ = none

abbrev pub Read : Type 0
Read = Option (Element × ℕ)

unfoldable pub i16_value : Tag → ℕ → Option ℤ → Read
i16_value tag nodes none = none
i16_value tag nodes (some n) =
    if leb_ℤ (negsuc 32767) n && leb_ℤ n (pos 32767)
    then some (element_of tag ElementType.i16 n 0 false nil, nodes)
    else none

unfoldable pub unsigned_value : ElementType → ℕ → Tag → ℕ → Option ℕ → Read
unsigned_value type maximum tag nodes none = none
unsigned_value type maximum tag nodes (some n) =
    if leb n maximum then some (element_of tag type (pos 0) n false nil, nodes) else none

abbrev pub count_items : Items → ℕ
count_items no_items = 0
count_items (item x xs) = suc (count_items xs)

abbrev pub with_children : ElementType → Tag → Option (Elements × ℕ) → Read
with_children type tag none = none
with_children type tag (some (es, nodes)) = some (element_of tag type (pos 0) 0 false es, nodes)

unfoldable pub collection_value :
    (ℕ → Items → Option (Elements × ℕ)) → ElementType → Tag → ℕ → Json → Read
collection_value children type tag nodes (Json.array xs) =
    if leb (count_items xs) 1023 then with_children type tag (children nodes xs) else none
collection_value children type tag nodes _ = none

-- The branches of ElementValue, on the type and the value.
unfoldable pub body_value :
    (ℕ → Items → Option (Elements × ℕ)) → Tag → ℕ → ElementType → Json → Read
unfolding i16_value unsigned_value collection_value get_integer
body_value children tag nodes ElementType.null Json.null =
    some (element_of tag ElementType.null (pos 0) 0 false nil, nodes)
body_value children tag nodes ElementType.null _ = none
body_value children tag nodes ElementType.i16 body = i16_value tag nodes (get_integer body)
body_value children tag nodes ElementType.u8 body =
    unsigned_value ElementType.u8 0xFF tag nodes (get_unsigned (some body))
body_value children tag nodes ElementType.u16 body =
    unsigned_value ElementType.u16 0xFFFF tag nodes (get_unsigned (some body))
body_value children tag nodes ElementType.u32 body =
    unsigned_value ElementType.u32 0xFFFF_FFFF tag nodes (get_unsigned (some body))
body_value children tag nodes ElementType.u64 body =
    unsigned_value ElementType.u64 0xFFFF_FFFF_FFFF_FFFF tag nodes (get_unsigned (some body))
body_value children tag nodes ElementType.boolean (Json.boolean b) =
    some (element_of tag ElementType.boolean (pos 0) 0 b nil, nodes)
body_value children tag nodes ElementType.boolean _ = none
body_value children tag nodes ElementType.structure body =
    collection_value children ElementType.structure tag nodes body
body_value children tag nodes ElementType.array body =
    collection_value children ElementType.array tag nodes body

abbrev pub type_at : Option Bytes → Option ElementType
type_at none = none
type_at (some name) = type_of name

unfoldable pub parts_value :
    (ℕ → Items → Option (Elements × ℕ)) → ℕ → Option Tag → Option ElementType → Option Json → Read
unfolding body_value
parts_value children nodes (some tag) (some type) (some body) =
    body_value children tag nodes type body
parts_value children nodes _ _ _ = none

abbrev pub with_rest : Element → Option (Elements × ℕ) → Option (Elements × ℕ)
with_rest e none = none
with_rest e (some (es, nodes)) = some (cons e es, nodes)

abbrev pub with_first : Read → (ℕ → Option (Elements × ℕ)) → Option (Elements × ℕ)
with_first none rest = none
with_first (some (e, nodes)) rest = with_rest e (rest nodes)

-- The loop over the children.
unfoldable pub children_value : (ℕ → Json → Read) → ℕ → Items → Option (Elements × ℕ)
children_value child nodes no_items = some (nil, nodes)
children_value child nodes (item x xs) = with_first (child nodes x) (λ n. children_value child n xs)

abbrev pub element_keys : List Bytes
element_keys = Texts.tag ∷ Texts.type ∷ Texts.value ∷ []

-- ElementValue. `nodes` is the counter, before it is incremented, and what it is afterwards.
unfoldable pub element_value : ℕ → ℕ → Json → Read
unfolding exact_keys tag_value type_of parts_value children_value
element_value zero nodes j = none
element_value (suc levels) nodes j =
    let parts =
      parts_value (children_value (element_value levels)) (suc nodes) (tag_value (at Texts.tag j))
        (type_at (get_string (at Texts.type j))) (at Texts.value j) in
    if leb 1024 nodes || not (exact_keys element_keys j) then none else parts

-- ElementJson.
abbrev pub type_text : ElementType → Bytes
type_text ElementType.null = Texts.null
type_text ElementType.i16 = Texts.i16
type_text ElementType.u8 = Texts.u8
type_text ElementType.u16 = Texts.u16
type_text ElementType.u32 = Texts.u32
type_text ElementType.u64 = Texts.u64
type_text ElementType.boolean = Texts.boolean
type_text ElementType.structure = Texts.structure
type_text ElementType.array = Texts.array

abbrev pub integer_json : ℤ → Json
integer_json (pos n) = Json.number_unsigned n
integer_json (negsuc n) = Json.number_negative n

abbrev pub tag_json : TagKind → ℕ → Json
tag_json TagKind.anonymous id = Json.string Texts.anonymous
tag_json TagKind.context id =
    Json.array (item (Json.string Texts.context) (item (Json.number_unsigned id) no_items))

abbrev pub scalar_json : ElementType → ℤ → ℕ → Bool → Items → Json
scalar_json ElementType.null s u b xs = Json.null
scalar_json ElementType.i16 s u b xs = integer_json s
scalar_json ElementType.boolean s u b xs = Json.boolean b
scalar_json ElementType.structure s u b xs = Json.array xs
scalar_json ElementType.array s u b xs = Json.array xs
scalar_json _ s u b xs = Json.number_unsigned u

abbrev pub shape : Json → ElementType → Json → Json
shape tag type value = Json.object (
    member Texts.tag tag
      (member Texts.type (Json.string (type_text type)) (member Texts.value value no_members)))

unfoldable mutual
  pub element_json : Element → Json
  element_json (element_of tag type s u b es) =
      shape (tag_json tag.kind tag.id) type (scalar_json type s u b (children_json es))

  pub children_json : Elements → Items
  children_json nil = no_items
  children_json (cons e es) = item (element_json e) (children_json es)

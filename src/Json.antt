-- ===== src/Json.antt =====
-- JSON documents as nlohmann::json hands them to native/src: its kinds of values, with the members of an
-- object in the order of its iteration. `number_unsigned` is a number that is_number_unsigned accepts;
-- a negative integer n is `number_negative (-n - 1)`; a float's value is never read.
use wotex_matter.Base.{
  ℕ, suc, Bool, Option, none, some, List, [], ◌∷◌, Bytes, eq_bytes, if◌then◌else◌,
}

mutual
  pub data Json : Type 0 where
    null number_float : Json
    boolean : Bool → Json
    number_unsigned number_negative : ℕ → Json
    string : Bytes → Json
    array : Items → Json
    object : Members → Json

  pub data Items : Type 0 where
    no_items : Items
    item : Json → Items → Items

  pub data Members : Type 0 where
    no_members : Members
    member : Bytes → Json → Members → Members

-- `size()` of an object, `find` of a key, and the keys of `items()`.
abbrev pub count : Members → ℕ
count no_members = 0
count (member k v fs) = suc (count fs)

unfoldable pub find : Bytes → Members → Option Json
find k no_members = none
find k (member j v fs) = if eq_bytes j k then some v else find k fs

abbrev pub keys : Members → List Bytes
keys no_members = []
keys (member k v fs) = k ∷ keys fs

-- `document[key]` of an object that may have the key.
unfoldable pub at : Bytes → Json → Option Json
unfolding find
at k (object fs) = find k fs
at k _ = none

-- The tests of a value's kind, with the value that `get` then returns.
abbrev pub get_string : Option Json → Option Bytes
get_string (some (string s)) = some s
get_string _ = none

abbrev pub get_unsigned : Option Json → Option ℕ
get_unsigned (some (number_unsigned n)) = some n
get_unsigned _ = none

abbrev pub get_object : Option Json → Option Members
get_object (some (object fs)) = some fs
get_object _ = none

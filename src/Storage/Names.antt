-- ===== src/Storage/Names.antt =====
-- The texts of the store's document (native/src/storage.cpp).
use wotex_matter.Base.{[], ◌∷◌, Bytes}

abbrev pub schema : Bytes
schema = b's' ∷ b'c' ∷ b'h' ∷ b'e' ∷ b'm' ∷ b'a' ∷ []

abbrev pub version : Bytes
version = b'v' ∷ b'e' ∷ b'r' ∷ b's' ∷ b'i' ∷ b'o' ∷ b'n' ∷ []

abbrev pub fabric_id : Bytes
fabric_id = b'f' ∷ b'a' ∷ b'b' ∷ b'r' ∷ b'i' ∷ b'c' ∷ b'_' ∷ b'i' ∷ b'd' ∷ []

abbrev pub controller_node_id : Bytes
controller_node_id =
    b'c' ∷ b'o' ∷ b'n' ∷ b't' ∷ b'r' ∷ b'o' ∷ b'l' ∷ b'l' ∷ b'e' ∷ b'r' ∷ b'_' ∷ b'n' ∷ b'o' ∷ b'd'
    ∷ b'e' ∷ b'_' ∷ b'i' ∷ b'd' ∷ []

abbrev pub vendor_id : Bytes
vendor_id = b'v' ∷ b'e' ∷ b'n' ∷ b'd' ∷ b'o' ∷ b'r' ∷ b'_' ∷ b'i' ∷ b'd' ∷ []

abbrev pub authority : Bytes
authority = b'a' ∷ b'u' ∷ b't' ∷ b'h' ∷ b'o' ∷ b'r' ∷ b'i' ∷ b't' ∷ b'y' ∷ []

abbrev pub values : Bytes
values = b'v' ∷ b'a' ∷ b'l' ∷ b'u' ∷ b'e' ∷ b's' ∷ []

abbrev pub generate_root : Bytes
generate_root =
    b'g' ∷ b'e' ∷ b'n' ∷ b'e' ∷ b'r' ∷ b'a' ∷ b't' ∷ b'e' ∷ b'_' ∷ b'r' ∷ b'o' ∷ b'o' ∷ b't' ∷ []

-- "wotex.matter.store".
abbrev pub store_schema : Bytes
store_schema =
    b'w' ∷ b'o' ∷ b't' ∷ b'e' ∷ b'x' ∷ b'.' ∷ b'm' ∷ b'a' ∷ b't' ∷ b't' ∷ b'e' ∷ b'r' ∷ b'.' ∷ b's'
    ∷ b't' ∷ b'o' ∷ b'r' ∷ b'e' ∷ []

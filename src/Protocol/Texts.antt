-- ===== src/Protocol/Texts.antt =====
-- The texts of the shapes of elements (native/src/protocol.cpp).
use wotex_matter.Base.{[], ◌∷◌, Bytes}

abbrev pub tag : Bytes
tag = b't' ∷ b'a' ∷ b'g' ∷ []

abbrev pub type : Bytes
type = b't' ∷ b'y' ∷ b'p' ∷ b'e' ∷ []

abbrev pub value : Bytes
value = b'v' ∷ b'a' ∷ b'l' ∷ b'u' ∷ b'e' ∷ []

abbrev pub anonymous : Bytes
anonymous = b'a' ∷ b'n' ∷ b'o' ∷ b'n' ∷ b'y' ∷ b'm' ∷ b'o' ∷ b'u' ∷ b's' ∷ []

abbrev pub context : Bytes
context = b'c' ∷ b'o' ∷ b'n' ∷ b't' ∷ b'e' ∷ b'x' ∷ b't' ∷ []

abbrev pub null : Bytes
null = b'n' ∷ b'u' ∷ b'l' ∷ b'l' ∷ []

abbrev pub i16 : Bytes
i16 = b'i' ∷ b'1' ∷ b'6' ∷ []

abbrev pub u8 : Bytes
u8 = b'u' ∷ b'8' ∷ []

abbrev pub u16 : Bytes
u16 = b'u' ∷ b'1' ∷ b'6' ∷ []

abbrev pub u32 : Bytes
u32 = b'u' ∷ b'3' ∷ b'2' ∷ []

abbrev pub u64 : Bytes
u64 = b'u' ∷ b'6' ∷ b'4' ∷ []

abbrev pub boolean : Bytes
boolean = b'b' ∷ b'o' ∷ b'o' ∷ b'l' ∷ b'e' ∷ b'a' ∷ b'n' ∷ []

abbrev pub structure : Bytes
structure = b's' ∷ b't' ∷ b'r' ∷ b'u' ∷ b'c' ∷ b't' ∷ b'u' ∷ b'r' ∷ b'e' ∷ []

abbrev pub array : Bytes
array = b'a' ∷ b'r' ∷ b'r' ∷ b'a' ∷ b'y' ∷ []

-- ===== src/Storage/Base64.antt =====
-- Base64Encode and Base64Decode of native/src/storage.cpp. The three bytes of a group are disjoint
-- fields of a 24-bit value, so `|` of the shifted bytes is their sum; `>> k` is `/ 2 ^ k` and `& 0x3F` is
-- `% 64`. The decoder's result is absent where the code returns false.
pub mod RoundTrip
use wotex_matter.Base.{
  ℕ, ◌+◌, ◌-◌, ◌*◌, ◌/◌, ◌%◌, Bool, true, false, not, ◌&&◌, ◌||◌, List, [], ◌∷◌, ◌++◌, Option, none,
  some, length, ◌==◌, leb, ltb, if◌then◌else◌, Bytes, eq_bytes, is_empty, has_value,
}

abbrev pub padding : ℕ
padding = b'='

abbrev pub maximum_value_bytes : ℕ
maximum_value_bytes = 65535

-- `alphabet[n]`, read off the 64 characters of the literal in its four runs and two single ones.
unfoldable pub alphabet : ℕ → ℕ
alphabet n =
    if ltb n 26
    then b'A' + n
    else if ltb n 52
    then b'a' + (n - 26)
    else if ltb n 62
    then b'0' + (n - 52)
    else if n == 62
    then b'+'
    else b'/'

abbrev pub packed : ℕ → ℕ → ℕ → ℕ
packed first second third = first * 65536 + second * 256 + third

-- The character for the sextet of the value that starts at bit `shift`, with `unit = 2 ^ shift`.
abbrev pub sextet : ℕ → ℕ → ℕ
sextet unit value = value / unit % 64

unfoldable pub base64_encode : Bytes → Bytes
base64_encode [] = []
base64_encode (first ∷ []) =
    let value = packed first 0 0 in
    alphabet (sextet 262144 value) ∷ alphabet (sextet 4096 value) ∷ padding ∷ padding ∷ []
base64_encode (first ∷ second ∷ []) =
    let value = packed first second 0 in
    alphabet (sextet 262144 value)
    ∷ alphabet (sextet 4096 value)
    ∷ alphabet (sextet 64 value)
    ∷ padding
    ∷ []
base64_encode (first ∷ second ∷ third ∷ rest) =
    let value = packed first second third in
    alphabet (sextet 262144 value)
    ∷ alphabet (sextet 4096 value)
    ∷ alphabet (sextet 64 value)
    ∷ alphabet (sextet 1 value)
    ∷ base64_encode rest

-- The source's -1 is `none`.
unfoldable pub base64_value : ℕ → Option ℕ
base64_value value =
    if leb b'A' value && leb value b'Z'
    then some (value - b'A')
    else if leb b'a' value && leb value b'z'
    then some (value - b'a' + 26)
    else if leb b'0' value && leb value b'9'
    then some (value - b'0' + 52)
    else if value == b'+'
    then some 62
    else if value == b'/'
    then some 63
    else none

-- `pad ? 0 : Base64Value(byte)`.
unfoldable pub value_or_padding : ℕ → Option ℕ
unfolding base64_value
value_or_padding byte = if byte == padding then some 0 else base64_value byte

-- The bytes of a group from its sextets; padding holds the last ones back.
unfoldable pub unpack : Bool → Bool → ℕ → Bytes
unpack pad_c pad_d value =
    value / 65536 % 256 ∷ (if pad_c then [] else value / 256 % 256 ∷ [])
    ++ (if pad_d then [] else value % 256 ∷ [])

unfoldable pub decode_values :
    Bool → Bool → Option ℕ → Option ℕ → Option ℕ → Option ℕ → Option Bytes
decode_values pad_c pad_d (some a) (some b) (some c) (some d) =
    some (unpack pad_c pad_d (a * 262144 + b * 4096 + c * 64 + d))
decode_values pad_c pad_d _ _ _ _ = none

unfoldable pub decode_group : Bool → ℕ → ℕ → ℕ → ℕ → Option Bytes
decode_group last w x y z =
    let pad_c = y == padding in
    let pad_d = z == padding in
    if (not last && (pad_c || pad_d)) || (pad_c && not pad_d)
    then none
    else decode_values pad_c pad_d (base64_value w) (base64_value x) (value_or_padding y)
        (value_or_padding z)

abbrev pub joined : Option Bytes → Option Bytes → Option Bytes
joined (some bytes) (some rest) = some (bytes ++ rest)
joined _ _ = none

-- The loop, over a text whose length is a multiple of four.
unfoldable pub decode_groups : Bytes → Option Bytes
decode_groups (w ∷ x ∷ y ∷ z ∷ rest) =
    joined (decode_group (is_empty rest) w x y z) (decode_groups rest)
decode_groups [] = some []
decode_groups _ = none

unfoldable pub checked : Bytes → Option Bytes → Option Bytes
checked encoded none = none
checked encoded (some bytes) =
    if leb (length bytes) maximum_value_bytes && eq_bytes (base64_encode bytes) encoded
    then some bytes
    else none

unfoldable pub base64_decode : Bytes → Option Bytes
base64_decode encoded =
    if not (length encoded % 4 == 0) then none else checked encoded (decode_groups encoded)

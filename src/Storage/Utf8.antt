-- ===== src/Storage/Utf8.antt =====
-- ValidUtf8 and ValidKey of native/src/storage.cpp. `x & 0x1F` is `x % 32` and so on, `(x & 0xC0) == 0x80`
-- of a byte is `x / 64 == 2`, and `x << 6 | y` with six bits in `y` is `x * 64 + y`. The loop runs on fuel: a
-- round takes at least one byte, so the length of the text is enough.
pub mod Scalars
use wotex_matter.Base.{
  ℕ, zero, suc, ◌+◌, ◌*◌, ◌/◌, ◌%◌, Bool, true, false, not, ◌&&◌, ◌||◌, [], ◌∷◌, Option, none, some,
  length, ◌==◌, leb, ltb, if◌then◌else◌, Bytes, is_empty,
}

-- The number of continuation bytes after a lead byte, and the bits that the lead byte gives.
unfoldable pub lead : ℕ → Option (ℕ × ℕ)
lead first =
    if leb 0xC2 first && leb first 0xDF
    then some (1, first % 32)
    else if leb 0xE0 first && leb first 0xEF
    then some (2, first % 16)
    else if leb 0xF0 first && leb first 0xF4
    then some (3, first % 8)
    else none

-- The loop over the continuation bytes, and what follows them.
unfoldable pub continuation_bytes : ℕ → ℕ → Bytes → Option (ℕ × Bytes)
continuation_bytes zero codepoint rest = some (codepoint, rest)
continuation_bytes (suc count) codepoint [] = none
continuation_bytes (suc count) codepoint (byte ∷ rest) =
    let more = continuation_bytes count (codepoint * 64 + byte % 64) rest in
    if byte / 64 == 2 then more else none

unfoldable pub refused_codepoint : ℕ → ℕ → Bool
refused_codepoint continuation codepoint =
    (continuation == 2 && ltb codepoint 0x800)
    || (continuation == 3 && ltb codepoint 0x10000)
    || (leb 0xD800 codepoint && leb codepoint 0xDFFF)
    || ltb 0x10FFFF codepoint

unfoldable pub after_sequence : (Bytes → Bool) → ℕ → Option (ℕ × Bytes) → Bool
after_sequence more continuation none = false
after_sequence more continuation (some (codepoint, rest)) =
    if refused_codepoint continuation codepoint then false else more rest

unfoldable pub after_lead : (Bytes → Bool) → Option (ℕ × ℕ) → Bytes → Bool
after_lead more none rest = false
after_lead more (some (continuation, codepoint)) rest =
    after_sequence more continuation (continuation_bytes continuation codepoint rest)

unfoldable pub valid_from : ℕ → Bytes → Bool
valid_from zero text = is_empty text
valid_from (suc fuel) [] = true
valid_from (suc fuel) (first ∷ rest) =
    let next = valid_from fuel rest in
    let sequence = after_lead (valid_from fuel) (lead first) rest in
    if first == 0 then false else if leb first 0x7F then next else sequence

unfoldable pub valid_utf8 : Bytes → Bool
valid_utf8 text = valid_from (length text) text

abbrev pub maximum_key_bytes : ℕ
maximum_key_bytes = 255

-- strnlen: the bytes before the terminating zero, and at most the given number of them.
unfoldable pub key_bytes : ℕ → Bytes → Bytes
key_bytes zero key = []
key_bytes (suc limit) [] = []
key_bytes (suc limit) (byte ∷ rest) =
    let more = key_bytes limit rest in if byte == 0 then [] else byte ∷ more

-- ValidKey, with the normalized key; a null pointer is `none`.
unfoldable pub valid_key : Option Bytes → Option Bytes
valid_key none = none
valid_key (some key) =
    let normalized = key_bytes (maximum_key_bytes + 1) key in
    if length normalized == 0 || ltb maximum_key_bytes (length normalized)
    then none
    else if valid_utf8 normalized
    then some normalized
    else none

-- ===== src/Storage/Base64/RoundTrip.antt =====
-- Decoding undoes encoding, and accepts nothing else.
use wotex_matter.Base.{
  ℕ, ◌+◌, ◌*◌, ◌/◌, ◌%◌, ◌≤◌, ◌<◌, ◌≡◌, ◌↔◌, refl, sym, ap, ◌∙◌, Bool, true, false, not, ◌&&◌, ◌||◌,
  [], ◌∷◌, Option, none, some, length, ◌==◌, leb, if◌then◌else◌, if_cases, Bytes, eq_bytes,
  eq_bytes→eq, eq_bytes_refl, is_empty, All, All-append, arith,
}
use mathlib.Core.Path.{subst}
use wotex_matter.Storage.Base64.{
  maximum_value_bytes, padding, alphabet, packed, sextet, base64_encode, base64_value,
  value_or_padding, unpack, decode_values, decode_group, joined, decode_groups, checked,
  base64_decode,
}

base64_value-alphabet : (n : ℕ) → n < 64 → base64_value (alphabet n) ≡ some n
unfolding base64_value alphabet
base64_value-alphabet n h = ground arith

alphabet-ne-padding : (n : ℕ) → (alphabet n == padding) ≡ false
unfolding alphabet
alphabet-ne-padding n = ground arith

value_or_padding-alphabet : (n : ℕ) → n < 64 → value_or_padding (alphabet n) ≡ some n
unfolding value_or_padding
value_or_padding-alphabet n h = rw (alphabet-ne-padding n) (base64_value-alphabet n h)

module _ (p q r s : ℕ) (hp : p < 64) (hq : q < 64) (hr : r < 64) (hs : s < 64) (last : Bool) where
  decode-whole :
      decode_group last (alphabet p) (alphabet q) (alphabet r) (alphabet s)
      ≡ some (unpack false false (p * 262144 + q * 4096 + r * 64 + s))
  unfolding decode_group decode_values
  decode-whole =
      rw
        (
          alphabet-ne-padding r,
          alphabet-ne-padding s,
          base64_value-alphabet p hp,
          base64_value-alphabet q hq,
          value_or_padding-alphabet r hr,
          value_or_padding-alphabet s hs,
        )
        (elim last
          as (λ b.
            (if (not b && false) || false
              then none
              else some (unpack false false (p * 262144 + q * 4096 + r * 64 + s)))
            ≡ some (unpack false false (p * 262144 + q * 4096 + r * 64 + s))) [
              | true ↦ refl
              | false ↦ refl
            ])

  decode-two :
      decode_group true (alphabet p) (alphabet q) (alphabet r) padding
      ≡ some (unpack false true (p * 262144 + q * 4096 + r * 64 + 0))
  unfolding decode_group decode_values value_or_padding
  decode-two =
      rw
        (
          alphabet-ne-padding r,
          base64_value-alphabet p hp,
          base64_value-alphabet q hq,
          base64_value-alphabet r hr,
        )
        refl

  decode-one :
      decode_group true (alphabet p) (alphabet q) padding padding
      ≡ some (unpack true true (p * 262144 + q * 4096 + 0 * 64 + 0))
  unfolding decode_group decode_values value_or_padding
  decode-one = rw (base64_value-alphabet p hp, base64_value-alphabet q hq) refl

-- The sextets of a packed group give its bytes back.
abbrev repacked : ℕ → ℕ
repacked v = sextet 262144 v * 262144 + sextet 4096 v * 4096 + sextet 64 v * 64 + sextet 1 v

unpack-packed :
    (a b c : ℕ)
    → a < 256
    → b < 256
    → c < 256
    → unpack false false (repacked (packed a b c)) ≡ a ∷ b ∷ c ∷ []
unfolding unpack
unpack-packed a b c ha hb hc =
    let same : repacked (packed a b c) ≡ packed a b c = omega arith in
    let one : packed a b c / 65536 % 256 ≡ a = omega arith in
    let two : packed a b c / 256 % 256 ≡ b = omega arith in
    let three : packed a b c % 256 ≡ c = omega arith in rw (same, one, two, three) refl

unpack-packed_two :
    (a b : ℕ)
    → a < 256
    → b < 256
    → unpack false true (
        sextet 262144 (packed a b 0) * 262144
        + sextet 4096 (packed a b 0) * 4096
        + sextet 64 (packed a b 0) * 64
        + 0)
      ≡ a ∷ b ∷ []
unfolding unpack
unpack-packed_two a b ha hb =
    let v : ℕ =
      sextet 262144 (packed a b 0) * 262144
      + sextet 4096 (packed a b 0) * 4096
      + sextet 64 (packed a b 0) * 64
      + 0 in
    let one : v / 65536 % 256 ≡ a = omega arith in
    let two : v / 256 % 256 ≡ b = omega arith in rw (one, two) refl

unpack-packed_one :
    (a : ℕ)
    → a < 256
    → unpack true true
        (sextet 262144 (packed a 0 0) * 262144 + sextet 4096 (packed a 0 0) * 4096 + 0 * 64 + 0)
      ≡ a ∷ []
unfolding unpack
unpack-packed_one a ha =
    let v : ℕ =
      sextet 262144 (packed a 0 0) * 262144 + sextet 4096 (packed a 0 0) * 4096 + 0 * 64 + 0 in
    let one : v / 65536 % 256 ≡ a = omega arith in rw one refl

abbrev pub IsByte : ℕ → Type 0
IsByte b = b < 256

decode_groups-base64_encode :
    (bs : Bytes) → All IsByte bs → decode_groups (base64_encode bs) ≡ some bs
unfolding decode_groups base64_encode
decode_groups-base64_encode [] h = refl
decode_groups-base64_encode (a ∷ []) h =
    rw
      (
        decode-one (sextet 262144 (packed a 0 0)) (sextet 4096 (packed a 0 0)) 0 0 (omega arith)
            (omega arith) (omega arith) (omega arith) true,
        unpack-packed_one a h.0,
      )
      refl
decode_groups-base64_encode (a ∷ b ∷ []) h =
    rw
      (
        decode-two (sextet 262144 (packed a b 0)) (sextet 4096 (packed a b 0))
            (sextet 64 (packed a b 0)) 0 (omega arith) (omega arith) (omega arith) (omega arith)
            true,
        unpack-packed_two a b h.0 h.1.0,
      )
      refl
decode_groups-base64_encode (a ∷ b ∷ c ∷ rest) h =
    rw
      (
        decode-whole (sextet 262144 (packed a b c)) (sextet 4096 (packed a b c))
            (sextet 64 (packed a b c)) (sextet 1 (packed a b c)) (omega arith) (omega arith)
            (omega arith) (omega arith) (is_empty (base64_encode rest)),
        unpack-packed a b c h.0 h.1.0 h.1.1.0,
        decode_groups-base64_encode rest h.1.1.1,
      )
      refl

length-base64_encode : (bs : Bytes) → length (base64_encode bs) % 4 ≡ 0
unfolding base64_encode
length-base64_encode [] = refl
length-base64_encode (a ∷ []) = refl
length-base64_encode (a ∷ b ∷ []) = refl
length-base64_encode (a ∷ b ∷ c ∷ rest) = omega (arith, length-base64_encode rest)

-- A byte string of at most 65535 bytes is decoded from its encoding.
pub base64_decode-base64_encode :
    (bs : Bytes) → All IsByte bs → length bs ≤ 65535 → base64_decode (base64_encode bs) ≡ some bs
unfolding base64_decode checked
base64_decode-base64_encode bs h short = ground (
  arith,
  length-base64_encode bs,
  decode_groups-base64_encode bs h,
  eq_bytes_refl (base64_encode bs),
)

checked_sound :
    (encoded : Bytes) (o : Option Bytes) (bs : Bytes)
    → checked encoded o ≡ some bs
    → (base64_encode bs ≡ encoded) × (length bs ≤ 65535)
unfolding checked
checked_sound encoded none bs e = cc e
checked_sound encoded (some bytes) bs e =
    let same : bytes ≡ bs = ground arith in
    let fits : eq_bytes (base64_encode bytes) encoded ≡ true = ground arith in
    (ap base64_encode (sym same) ∙ eq_bytes→eq _ _ fits, ground arith)

base64_decode-checked :
    (encoded bs : Bytes)
    → base64_decode encoded ≡ some bs
    → (base64_encode bs ≡ encoded) × (length bs ≤ 65535)
unfolding base64_decode
base64_decode-checked encoded bs e = checked_sound encoded (decode_groups encoded) bs (ground arith)

unpack-IsByte : (pad_c pad_d : Bool) (value : ℕ) → All IsByte (unpack pad_c pad_d value)
unfolding unpack
unpack-IsByte true true value = (omega arith, tt)
unpack-IsByte true false value = (omega arith, (omega arith, tt))
unpack-IsByte false true value = (omega arith, (omega arith, tt))
unpack-IsByte false false value = (omega arith, (omega arith, (omega arith, tt)))

unfoldable AreBytes : Option Bytes → Type 0
AreBytes none = Unit
AreBytes (some bs) = All IsByte bs

none_bytes : AreBytes none
unfolding AreBytes
none_bytes = tt

decode_values-AreBytes :
    (pad_c pad_d : Bool) (a b c d : Option ℕ) → AreBytes (decode_values pad_c pad_d a b c d)
unfolding decode_values AreBytes
decode_values-AreBytes pad_c pad_d none b c d = none_bytes
decode_values-AreBytes pad_c pad_d (some a) none c d = none_bytes
decode_values-AreBytes pad_c pad_d (some a) (some b) none d = none_bytes
decode_values-AreBytes pad_c pad_d (some a) (some b) (some c) none = none_bytes
decode_values-AreBytes pad_c pad_d (some a) (some b) (some c) (some d) = unpack-IsByte pad_c pad_d _

decode_group-AreBytes : (last : Bool) (w x y z : ℕ) → AreBytes (decode_group last w x y z)
unfolding decode_group
decode_group-AreBytes last w x y z =
    if_cases AreBytes
      (not last && (y == padding || z == padding) || y == padding && not (z == padding))
      (λ _. none_bytes)
      λ _.
        decode_values-AreBytes (y == padding) (z == padding) (base64_value w) (base64_value x)
          (value_or_padding y) (value_or_padding z)

joined-AreBytes :
    (first rest : Option Bytes) → AreBytes first → AreBytes rest → AreBytes (joined first rest)
unfolding AreBytes
joined-AreBytes none rest h k = none_bytes
joined-AreBytes (some bytes) none h k = none_bytes
joined-AreBytes (some bytes) (some bytes') h k = All-append IsByte bytes bytes' h k

no_bytes : AreBytes (some [])
unfolding AreBytes
no_bytes = tt

decode_groups-AreBytes : (encoded : Bytes) → AreBytes (decode_groups encoded)
unfolding decode_groups
decode_groups-AreBytes [] = no_bytes
decode_groups-AreBytes (w ∷ []) = none_bytes
decode_groups-AreBytes (w ∷ x ∷ []) = none_bytes
decode_groups-AreBytes (w ∷ x ∷ y ∷ []) = none_bytes
decode_groups-AreBytes (w ∷ x ∷ y ∷ z ∷ rest) =
    joined-AreBytes _ _ (decode_group-AreBytes (is_empty rest) w x y z)
      (decode_groups-AreBytes rest)

checked-AreBytes : (encoded : Bytes) (o : Option Bytes) → AreBytes o → AreBytes (checked encoded o)
unfolding checked
checked-AreBytes encoded none h = none_bytes
checked-AreBytes encoded (some bytes) h =
    if_cases AreBytes
      (leb (length bytes) maximum_value_bytes && eq_bytes (base64_encode bytes) encoded) (λ _. h)
      (λ _. none_bytes)

base64_decode-AreBytes : (encoded : Bytes) → AreBytes (base64_decode encoded)
unfolding base64_decode
base64_decode-AreBytes encoded =
    if_cases AreBytes (not (length encoded % 4 == 0)) (λ _. none_bytes)
      (λ _. checked-AreBytes encoded (decode_groups encoded) (decode_groups-AreBytes encoded))

-- A text is decoded to some bytes exactly when it is their encoding and they are at most 65535 bytes: each
-- value has one text.
pub base64_decode_iff :
    (encoded bs : Bytes)
    → (base64_decode encoded ≡ some bs)
      ↔ ((base64_encode bs ≡ encoded) × (length bs ≤ 65535) × All IsByte bs)
unfolding AreBytes
base64_decode_iff encoded bs = (
  (λ e.
      let (same, short) = base64_decode-checked encoded bs e in
      (same, short, subst AreBytes e (base64_decode-AreBytes encoded))),
  λ g. subst (λ t. base64_decode t ≡ some bs) g.0 (base64_decode-base64_encode bs g.2 g.1),
)

-- ===== src/Protocol/Envelopes/RequestIds.antt =====
-- Request identifiers are decimal texts.
use wotex_matter.Base.{
  ℕ, zero, suc, ◌+◌, ◌-◌, ◌*◌, ◌/◌, ◌%◌, ◌≤◌, ◌<◌, ◌≡◌, refl, ap, ◌∙◌, Bool, true, false, ◌||◌, [],
  ◌∷◌, ◌++◌, some, ltb, if_cases, Bytes, decimal, to_string, is_empty, arith,
}
use wotex_matter.Protocol.Envelopes.{from_digits, starts_with, canonical_request_id}

-- A last digit.
from_digits-snoc :
    (acc : ℕ) (text : Bytes) (value digit : ℕ)
    → from_digits acc text ≡ some value
    → digit < 10
    → value * 10 + digit ≤ 0xFFFF_FFFF_FFFF_FFFF
    → from_digits acc (text ++ (digit + 48) ∷ []) ≡ some (value * 10 + digit)
unfolding from_digits
from_digits-snoc acc [] value digit e h k = ground (arith, e, h, k)
from_digits-snoc acc (byte ∷ text) value digit e h k =
    ground (arith, e, h, k, from_digits-snoc (acc * 10 + (byte - 48)) text value digit)

from_digits-decimal :
    (fuel n : ℕ) → n ≤ fuel → n ≤ 0xFFFF_FFFF_FFFF_FFFF → from_digits 0 (decimal fuel n) ≡ some n
unfolding decimal from_digits
from_digits-decimal zero n h k = ground (arith, h)
from_digits-decimal (suc fuel) n h k =
    if_cases (λ t. from_digits 0 t ≡ some n) (ltb n 10) (λ small. ground (arith, small))
      λ large.
        from_digits-snoc 0 (decimal fuel (n / 10)) (n / 10) (n % 10)
          (from_digits-decimal fuel (n / 10) (ground (arith, large, h)) (omega (arith, k)))
          (omega arith) (omega (arith, k))
        ∙ ap some (omega arith)

-- No identifier, by its first byte.
abbrev refused_front : Bytes → Bool
refused_front text = is_empty text || starts_with b'0' text

refused_front-append :
    (text : Bytes) (d : ℕ) → refused_front text ≡ false → refused_front (text ++ d ∷ []) ≡ false
refused_front-append [] d e = cc e
refused_front-append (b ∷ text) d e = e

refused_front-decimal : (fuel n : ℕ) → 0 < n → n ≤ fuel → refused_front (decimal fuel n) ≡ false
unfolding decimal
refused_front-decimal zero n h k = ground (arith, h, k)
refused_front-decimal (suc fuel) n h k =
    if_cases (λ t. refused_front t ≡ false) (ltb n 10) (λ small. ground (arith, h, small))
      λ large.
        refused_front-append (decimal fuel (n / 10)) (n % 10 + 48)
          (refused_front-decimal fuel (n / 10) (ground (arith, large)) (ground (arith, large, k)))

-- The decimal text of a positive number of 64 bits is its request identifier.
pub canonical_request_id-to_string :
    (n : ℕ) → 0 < n → n ≤ 0xFFFF_FFFF_FFFF_FFFF → canonical_request_id (some (to_string n)) ≡ some n
unfolding canonical_request_id to_string
canonical_request_id-to_string n h k =
    let positive_n : ltb 0 n ≡ true = ground (arith, h) in
    rw
      (
        refused_front-decimal n n h (omega arith),
        from_digits-decimal n n (omega arith) k,
        positive_n,
      )
      refl

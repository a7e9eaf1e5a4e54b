-- ===== src/Commissioning/Passcodes.antt =====
-- Which setup passcodes `valid_setup_pin` lets through.
use wotex_matter.Base.{ℕ, ◌*◌, ◌%◌, ◌≤◌, ◌≡◌, ◌≢◌, ◌↔◌, true, arith, Bool-cases, inl, inr}
use wotex_matter.Commissioning.{valid_setup_pin, repeated_digit}

repeated_digit-multiple :
    (pin : ℕ) → pin ≤ 99999999 → repeated_digit pin ≡ true → pin ≡ pin % 10 * 11111111
unfolding repeated_digit
repeated_digit-multiple pin h e = ground arith

multiple-repeated_digit : (pin : ℕ) → pin ≡ pin % 10 * 11111111 → repeated_digit pin ≡ true
unfolding repeated_digit
multiple-repeated_digit pin e = ground arith

-- The passcodes of the Matter specification: eight digits, and none of the trivial ones.
abbrev pub IsPasscode : ℕ → Type 0
IsPasscode pin =
    (1 ≤ pin)
    × (pin ≤ 99999998)
    × (pin ≢ 12345678)
    × (pin ≢ 87654321)
    × ((digit : ℕ) → pin ≢ digit * 11111111)

valid→IsPasscode : (pin : ℕ) → valid_setup_pin pin ≡ true → IsPasscode pin
unfolding valid_setup_pin
valid→IsPasscode pin h = (
  ground arith,
  ground arith,
  ground arith,
  ground arith,
  λ digit e.
      let short : digit ≤ 9 = ground arith in
      ground (arith, multiple-repeated_digit pin (omega arith)),
)

IsPasscode→valid : (pin : ℕ) → IsPasscode pin → valid_setup_pin pin ≡ true
unfolding valid_setup_pin
IsPasscode→valid pin (low, high, up, down, varied) = elim (Bool-cases (repeated_digit pin)) [
  | inl e ↦ absurd (varied (pin % 10) (repeated_digit-multiple pin (omega arith) e))
  | inr e ↦ rw e (ground arith)
]

-- A setup passcode is let through exactly when it lies in 1 to 99999998, is neither 12345678 nor
-- 87654321, and is not one digit repeated eight times.
pub valid_setup_pin_iff : (pin : ℕ) → (valid_setup_pin pin ≡ true) ↔ IsPasscode pin
valid_setup_pin_iff pin = (valid→IsPasscode pin, IsPasscode→valid pin)

-- ===== src/Commissioning.antt =====
-- native/include/wotex_matter/commissioning.hpp and native/src/commissioning.cpp.
pub mod Passcodes
use wotex_matter.Base.{
  ℕ, zero, suc, ◌/◌, ◌%◌, Bool, true, false, not, ◌&&◌, ◌||◌, List, [], ◌∷◌, Option, none, some,
  ◌==◌, ltb, leb, length, all_of, is_empty, has_value, Bytes, if◌then◌else◌,
}
use wotex_matter.Interaction.Types.{InteractionEffect}

abbrev pub maximum_operational_node : ℕ
maximum_operational_node = 0xFFFF_FFEF_FFFF_FFFF

pub record CommissioningError : Type 0 where
  pub code : Bytes
  pub sdk_status : Option ℕ
  pub effect : InteractionEffect

pub record CommissioningRequest : Type 0 where
  pub node_id : ℕ
  pub setup_pin : ℕ
  pub discriminator : ℕ
  pub timeout_ms : ℕ

pub record CommissioningResponse : Type 0 where
  pub is_ok : Bool
  pub error : Option CommissioningError
  pub node_id : ℕ
  pub fabric_id : ℕ
  pub case_established : Bool

pub record CommissioningWindowRequest : Type 0 where
  pub node_id : ℕ
  pub timeout_s : ℕ
  pub iteration_count : ℕ
  pub discriminator : ℕ
  pub timeout_ms : ℕ

pub record CommissioningWindowResponse : Type 0 where
  pub is_ok : Bool
  pub error : Option CommissioningError
  pub node_id : ℕ
  pub setup_pin : ℕ
  pub discriminator : ℕ
  pub expires_in_s : ℕ
  pub manual_code : Bytes
  pub qr_code : Bytes

unfoldable pub valid_failure : Option CommissioningError → Bool
valid_failure none = false
valid_failure (some error) = not (is_empty error.code) && leb (length error.code) 64

-- The first loop of RepeatedDigit: the lowest `count` digits, lowest first.
unfoldable pub low_digits : ℕ → ℕ → List ℕ
low_digits zero setup_pin = []
low_digits (suc count) setup_pin = setup_pin % 10 ∷ low_digits count (setup_pin / 10)

-- The second loop, against the first digit.
unfoldable pub all_same : List ℕ → Bool
all_same [] = true
all_same (digit ∷ digits) = all_of (λ d. d == digit) digits

unfoldable pub repeated_digit : ℕ → Bool
unfolding low_digits all_same
repeated_digit setup_pin = all_same (low_digits 8 setup_pin)

unfoldable pub valid_setup_pin : ℕ → Bool
unfolding repeated_digit
valid_setup_pin setup_pin =
    leb 1 setup_pin
    && leb setup_pin 99999998
    && not (setup_pin == 12345678)
    && not (setup_pin == 87654321)
    && not (repeated_digit setup_pin)

unfoldable pub valid_commissioning_request : CommissioningRequest → Bool
valid_commissioning_request request =
    leb 1 request.node_id
    && leb request.node_id maximum_operational_node
    && valid_setup_pin request.setup_pin
    && leb request.discriminator 4095
    && leb 1 request.timeout_ms
    && leb request.timeout_ms 60000

unfoldable pub valid_commissioning_response : CommissioningRequest → CommissioningResponse → Bool
unfolding valid_failure
valid_commissioning_response request response =
    if not response.is_ok
    then (valid_failure response.error
        && response.node_id == 0
        && response.fabric_id == 0
        && not response.case_established)
    else (not (has_value response.error)
        && response.node_id == request.node_id
        && ltb 0 response.fabric_id
        && response.case_established)

unfoldable pub valid_commissioning_window_request : CommissioningWindowRequest → Bool
valid_commissioning_window_request request =
    leb 1 request.node_id
    && leb request.node_id maximum_operational_node
    && leb 180 request.timeout_s
    && leb request.timeout_s 900
    && leb 1000 request.iteration_count
    && leb request.iteration_count 100000
    && leb request.discriminator 4095
    && leb 1 request.timeout_ms
    && leb request.timeout_ms 60000

-- `rfind("MT:", 0) == 0`: the text begins with "MT:".
unfoldable pub has_qr_prefix : Bytes → Bool
has_qr_prefix (a ∷ b ∷ c ∷ rest) = a == b'M' && b == b'T' && c == b':'
has_qr_prefix _ = false

unfoldable pub valid_commissioning_window_response :
    CommissioningWindowRequest → CommissioningWindowResponse → Bool
unfolding valid_failure has_qr_prefix
valid_commissioning_window_response request response =
    if not response.is_ok
    then (valid_failure response.error
        && response.node_id == 0
        && response.setup_pin == 0
        && response.discriminator == 0
        && response.expires_in_s == 0
        && is_empty response.manual_code
        && is_empty response.qr_code)
    else (not (has_value response.error)
        && response.node_id == request.node_id
        && valid_setup_pin response.setup_pin
        && response.discriminator == request.discriminator
        && response.expires_in_s == request.timeout_s
        && leb 10 (length response.manual_code)
        && leb (length response.manual_code) 21
        && leb 4 (length response.qr_code)
        && leb (length response.qr_code) 512
        && has_qr_prefix response.qr_code)

-- ===== src/Protocol/Envelopes.antt =====
-- The envelopes of the host's requests, and its options (native/src/protocol.cpp). A member that a request
-- does not have is `none`; the source reads a member only after ExactKeys has found it.
pub mod RequestIds
use wotex_matter.Base.{
  ℕ, zero, suc, ◌+◌, ◌-◌, ◌*◌, Bool, true, false, not, ◌&&◌, ◌||◌, List, [], ◌∷◌, Option, none,
  some, length, all_of, any_of, ◌==◌, leb, ltb, if◌then◌else◌, Bytes, eq_bytes, has_value, is_empty,
}
use wotex_matter.Json.{Json, Members, count, at, get_string, get_unsigned, get_object}
use wotex_matter.Protocol.Words
use wotex_matter.Protocol.Elements.{exact_keys, is_string}

infixl 5 ◌>>=◌
abbrev pub ◌>>=◌ : {A B : Type 0} → Option A → (A → Option B) → Option B
none >>= f = none
some a >>= f = f a

-- CanonicalGeneration and CanonicalSubscriptionId.
abbrev pub is_lower_hex : ℕ → Bool
is_lower_hex byte = (leb b'0' byte && leb byte b'9') || (leb b'a' byte && leb byte b'f')

unfoldable pub canonical_generation : Option Bytes → Option Bytes
canonical_generation none = none
canonical_generation (some generation) =
    if length generation == 32 && all_of is_lower_hex generation then some generation else none

-- std::from_chars on a whole text of decimal digits: its value, or nothing where a byte is no digit or the
-- value does not fit 64 bits.
unfoldable pub from_digits : ℕ → Bytes → Option ℕ
from_digits value [] = some value
from_digits value (byte ∷ text) =
    let next = value * 10 + (byte - b'0') in
    let rest = from_digits next text in
    if leb b'0' byte && leb byte b'9' && leb next 0xFFFF_FFFF_FFFF_FFFF then rest else none

abbrev pub starts_with : ℕ → Bytes → Bool
starts_with byte [] = false
starts_with byte (c ∷ text) = c == byte

abbrev pub positive : Option ℕ → Option ℕ
positive none = none
positive (some n) = if ltb 0 n then some n else none

-- CanonicalRequestId.
unfoldable pub canonical_request_id : Option Bytes → Option ℕ
unfolding from_digits
canonical_request_id none = none
canonical_request_id (some text) =
    if is_empty text || starts_with b'0' text then none else positive (from_digits 0 text)

abbrev pub envelope_keys : List Bytes
envelope_keys =
    Words.version ∷ Words.id ∷ Words.operation ∷ Words.parameters ∷ Words.timeout_ms ∷ []

abbrev pub holds : (ℕ → Bool) → Option ℕ → Bool
holds test none = false
holds test (some n) = test n

abbrev pub is_empty_object : Option Members → Bool
is_empty_object none = false
is_empty_object (some fs) = count fs == 0

-- ValidRequestEnvelope.
unfoldable pub valid_request_envelope : Json → Bool
unfolding exact_keys canonical_request_id at
valid_request_envelope request =
    exact_keys envelope_keys request
    && holds (λ n. n == 1) (get_unsigned (at Words.version request))
    && has_value (get_string (at Words.operation request))
    && has_value (get_object (at Words.parameters request))
    && (has_value (canonical_request_id (get_string (at Words.id request)))
        || (is_string Words.close (at Words.id request)
            && is_string Words.close (at Words.operation request)
            && is_empty_object (get_object (at Words.parameters request))))
    && holds (λ n. leb 1 n && leb n 60000) (get_unsigned (at Words.timeout_ms request))

-- AbsolutePath.
unfoldable pub absolute_path : Option Bytes → Option Bytes
absolute_path none = none
absolute_path (some path) =
    if starts_with b'/' path && not (any_of (λ b. b == 0) path) then some path else none

pub record NativeOpenOptions : Type 0 where
  pub lifecycle : Bytes
  pub storage_path : Bytes
  pub storage_mode : Bytes
  pub authority : Bytes
  pub vendor_id : ℕ
  pub fabric_id : ℕ
  pub controller_node_id : ℕ
  pub paa_trust_store : Bytes
  pub timeout_ms : ℕ

abbrev pub option_keys : List Bytes
option_keys =
    Words.lifecycle ∷ Words.storage_path ∷ Words.storage_mode ∷ Words.authority ∷ Words.vendor_id
    ∷ Words.fabric_id ∷ Words.controller_node_id ∷ Words.paa_trust_store ∷ []

abbrev pub valid_mode : Bytes → Bytes → Bool
valid_mode storage_mode authority =
    (eq_bytes storage_mode Words.create_new && eq_bytes authority Words.generate_root)
    || (eq_bytes storage_mode Words.open_existing && eq_bytes authority Words.stored)

unfoldable pub valid_options : NativeOpenOptions → Bool
valid_options o =
    eq_bytes o.lifecycle Words.persistent
    && valid_mode o.storage_mode o.authority
    && ltb 0 o.vendor_id
    && ltb o.vendor_id 65535
    && ltb 0 o.fabric_id
    && ltb 0 o.controller_node_id
    && leb o.controller_node_id 0xFFFF_FFEF_FFFF_FFFF

-- OpenOptions.
unfoldable pub open_options : Json → Option NativeOpenOptions
unfolding exact_keys at absolute_path valid_options
open_options parameters = do
  lifecycle ← get_string (at Words.lifecycle parameters)
  storage_mode ← get_string (at Words.storage_mode parameters)
  authority ← get_string (at Words.authority parameters)
  vendor_id ← get_unsigned (at Words.vendor_id parameters)
  fabric_id ← get_unsigned (at Words.fabric_id parameters)
  controller_node_id ← get_unsigned (at Words.controller_node_id parameters)
  storage_path ← absolute_path (get_string (at Words.storage_path parameters))
  paa_trust_store ← absolute_path (get_string (at Words.paa_trust_store parameters))
  let options : NativeOpenOptions = record {
    lifecycle = lifecycle;
    storage_path = storage_path;
    storage_mode = storage_mode;
    authority = authority;
    vendor_id = vendor_id;
    fabric_id = fabric_id;
    controller_node_id = controller_node_id;
    paa_trust_store = paa_trust_store;
    timeout_ms = 0;
  } in
      if exact_keys option_keys parameters && valid_options options then some options else none

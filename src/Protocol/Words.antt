-- ===== src/Protocol/Words.antt =====
-- The keys and words of the host's requests (native/src/protocol.cpp).
use wotex_matter.Base.{[], ◌∷◌, Bytes}

abbrev pub version : Bytes
version = b'v' ∷ b'e' ∷ b'r' ∷ b's' ∷ b'i' ∷ b'o' ∷ b'n' ∷ []

abbrev pub id : Bytes
id = b'i' ∷ b'd' ∷ []

abbrev pub operation : Bytes
operation = b'o' ∷ b'p' ∷ b'e' ∷ b'r' ∷ b'a' ∷ b't' ∷ b'i' ∷ b'o' ∷ b'n' ∷ []

abbrev pub parameters : Bytes
parameters = b'p' ∷ b'a' ∷ b'r' ∷ b'a' ∷ b'm' ∷ b'e' ∷ b't' ∷ b'e' ∷ b'r' ∷ b's' ∷ []

abbrev pub timeout_ms : Bytes
timeout_ms = b't' ∷ b'i' ∷ b'm' ∷ b'e' ∷ b'o' ∷ b'u' ∷ b't' ∷ b'_' ∷ b'm' ∷ b's' ∷ []

abbrev pub close : Bytes
close = b'c' ∷ b'l' ∷ b'o' ∷ b's' ∷ b'e' ∷ []

abbrev pub lifecycle : Bytes
lifecycle = b'l' ∷ b'i' ∷ b'f' ∷ b'e' ∷ b'c' ∷ b'y' ∷ b'c' ∷ b'l' ∷ b'e' ∷ []

abbrev pub storage_path : Bytes
storage_path =
    b's' ∷ b't' ∷ b'o' ∷ b'r' ∷ b'a' ∷ b'g' ∷ b'e' ∷ b'_' ∷ b'p' ∷ b'a' ∷ b't' ∷ b'h' ∷ []

abbrev pub storage_mode : Bytes
storage_mode =
    b's' ∷ b't' ∷ b'o' ∷ b'r' ∷ b'a' ∷ b'g' ∷ b'e' ∷ b'_' ∷ b'm' ∷ b'o' ∷ b'd' ∷ b'e' ∷ []

abbrev pub authority : Bytes
authority = b'a' ∷ b'u' ∷ b't' ∷ b'h' ∷ b'o' ∷ b'r' ∷ b'i' ∷ b't' ∷ b'y' ∷ []

abbrev pub vendor_id : Bytes
vendor_id = b'v' ∷ b'e' ∷ b'n' ∷ b'd' ∷ b'o' ∷ b'r' ∷ b'_' ∷ b'i' ∷ b'd' ∷ []

abbrev pub fabric_id : Bytes
fabric_id = b'f' ∷ b'a' ∷ b'b' ∷ b'r' ∷ b'i' ∷ b'c' ∷ b'_' ∷ b'i' ∷ b'd' ∷ []

abbrev pub controller_node_id : Bytes
controller_node_id =
    b'c' ∷ b'o' ∷ b'n' ∷ b't' ∷ b'r' ∷ b'o' ∷ b'l' ∷ b'l' ∷ b'e' ∷ b'r' ∷ b'_' ∷ b'n' ∷ b'o' ∷ b'd'
    ∷ b'e' ∷ b'_' ∷ b'i' ∷ b'd' ∷ []

abbrev pub paa_trust_store : Bytes
paa_trust_store =
    b'p' ∷ b'a' ∷ b'a' ∷ b'_' ∷ b't' ∷ b'r' ∷ b'u' ∷ b's' ∷ b't' ∷ b'_' ∷ b's' ∷ b't' ∷ b'o' ∷ b'r'
    ∷ b'e' ∷ []

abbrev pub create_new : Bytes
create_new = b'c' ∷ b'r' ∷ b'e' ∷ b'a' ∷ b't' ∷ b'e' ∷ b'_' ∷ b'n' ∷ b'e' ∷ b'w' ∷ []

abbrev pub generate_root : Bytes
generate_root =
    b'g' ∷ b'e' ∷ b'n' ∷ b'e' ∷ b'r' ∷ b'a' ∷ b't' ∷ b'e' ∷ b'_' ∷ b'r' ∷ b'o' ∷ b'o' ∷ b't' ∷ []

abbrev pub open_existing : Bytes
open_existing =
    b'o' ∷ b'p' ∷ b'e' ∷ b'n' ∷ b'_' ∷ b'e' ∷ b'x' ∷ b'i' ∷ b's' ∷ b't' ∷ b'i' ∷ b'n' ∷ b'g' ∷ []

abbrev pub stored : Bytes
stored = b's' ∷ b't' ∷ b'o' ∷ b'r' ∷ b'e' ∷ b'd' ∷ []

abbrev pub persistent : Bytes
persistent = b'p' ∷ b'e' ∷ b'r' ∷ b's' ∷ b'i' ∷ b's' ∷ b't' ∷ b'e' ∷ b'n' ∷ b't' ∷ []

abbrev pub any : Bytes
any = b'a' ∷ b'n' ∷ b'y' ∷ []

abbrev pub node_id : Bytes
node_id = b'n' ∷ b'o' ∷ b'd' ∷ b'e' ∷ b'_' ∷ b'i' ∷ b'd' ∷ []

abbrev pub endpoint : Bytes
endpoint = b'e' ∷ b'n' ∷ b'd' ∷ b'p' ∷ b'o' ∷ b'i' ∷ b'n' ∷ b't' ∷ []

abbrev pub cluster : Bytes
cluster = b'c' ∷ b'l' ∷ b'u' ∷ b's' ∷ b't' ∷ b'e' ∷ b'r' ∷ []

abbrev pub member : Bytes
member = b'm' ∷ b'e' ∷ b'm' ∷ b'b' ∷ b'e' ∷ b'r' ∷ []

abbrev pub paths : Bytes
paths = b'p' ∷ b'a' ∷ b't' ∷ b'h' ∷ b's' ∷ []

abbrev pub read : Bytes
read = b'r' ∷ b'e' ∷ b'a' ∷ b'd' ∷ []

abbrev pub write : Bytes
write = b'w' ∷ b'r' ∷ b'i' ∷ b't' ∷ b'e' ∷ []

abbrev pub invoke : Bytes
invoke = b'i' ∷ b'n' ∷ b'v' ∷ b'o' ∷ b'k' ∷ b'e' ∷ []

abbrev pub read_paths : Bytes
read_paths = b'r' ∷ b'e' ∷ b'a' ∷ b'd' ∷ b'_' ∷ b'p' ∷ b'a' ∷ b't' ∷ b'h' ∷ b's' ∷ []

abbrev pub read_events : Bytes
read_events = b'r' ∷ b'e' ∷ b'a' ∷ b'd' ∷ b'_' ∷ b'e' ∷ b'v' ∷ b'e' ∷ b'n' ∷ b't' ∷ b's' ∷ []

abbrev pub expected_data_version : Bytes
expected_data_version =
    b'e' ∷ b'x' ∷ b'p' ∷ b'e' ∷ b'c' ∷ b't' ∷ b'e' ∷ b'd' ∷ b'_' ∷ b'd' ∷ b'a' ∷ b't' ∷ b'a' ∷ b'_'
    ∷ b'v' ∷ b'e' ∷ b'r' ∷ b's' ∷ b'i' ∷ b'o' ∷ b'n' ∷ []

abbrev pub timed_request_timeout_ms : Bytes
timed_request_timeout_ms =
    b't' ∷ b'i' ∷ b'm' ∷ b'e' ∷ b'd' ∷ b'_' ∷ b'r' ∷ b'e' ∷ b'q' ∷ b'u' ∷ b'e' ∷ b's' ∷ b't' ∷ b'_'
    ∷ b't' ∷ b'i' ∷ b'm' ∷ b'e' ∷ b'o' ∷ b'u' ∷ b't' ∷ b'_' ∷ b'm' ∷ b's' ∷ []

abbrev pub min_event_number : Bytes
min_event_number =
    b'm' ∷ b'i' ∷ b'n' ∷ b'_' ∷ b'e' ∷ b'v' ∷ b'e' ∷ b'n' ∷ b't' ∷ b'_' ∷ b'n' ∷ b'u' ∷ b'm' ∷ b'b'
    ∷ b'e' ∷ b'r' ∷ []

abbrev pub subscription_id : Bytes
subscription_id =
    b's' ∷ b'u' ∷ b'b' ∷ b's' ∷ b'c' ∷ b'r' ∷ b'i' ∷ b'p' ∷ b't' ∷ b'i' ∷ b'o' ∷ b'n' ∷ b'_' ∷ b'i'
    ∷ b'd' ∷ []

abbrev pub kind : Bytes
kind = b'k' ∷ b'i' ∷ b'n' ∷ b'd' ∷ []

abbrev pub min_interval_s : Bytes
min_interval_s =
    b'm' ∷ b'i' ∷ b'n' ∷ b'_' ∷ b'i' ∷ b'n' ∷ b't' ∷ b'e' ∷ b'r' ∷ b'v' ∷ b'a' ∷ b'l' ∷ b'_' ∷ b's'
    ∷ []

abbrev pub max_interval_s : Bytes
max_interval_s =
    b'm' ∷ b'a' ∷ b'x' ∷ b'_' ∷ b'i' ∷ b'n' ∷ b't' ∷ b'e' ∷ b'r' ∷ b'v' ∷ b'a' ∷ b'l' ∷ b'_' ∷ b's'
    ∷ []

abbrev pub resubscribe : Bytes
resubscribe = b'r' ∷ b'e' ∷ b's' ∷ b'u' ∷ b'b' ∷ b's' ∷ b'c' ∷ b'r' ∷ b'i' ∷ b'b' ∷ b'e' ∷ []

abbrev pub queue_limit : Bytes
queue_limit = b'q' ∷ b'u' ∷ b'e' ∷ b'u' ∷ b'e' ∷ b'_' ∷ b'l' ∷ b'i' ∷ b'm' ∷ b'i' ∷ b't' ∷ []

abbrev pub attribute : Bytes
attribute = b'a' ∷ b't' ∷ b't' ∷ b'r' ∷ b'i' ∷ b'b' ∷ b'u' ∷ b't' ∷ b'e' ∷ []

abbrev pub event : Bytes
event = b'e' ∷ b'v' ∷ b'e' ∷ b'n' ∷ b't' ∷ []

abbrev pub generation : Bytes
generation = b'g' ∷ b'e' ∷ b'n' ∷ b'e' ∷ b'r' ∷ b'a' ∷ b't' ∷ b'i' ∷ b'o' ∷ b'n' ∷ []

abbrev pub setup_pin : Bytes
setup_pin = b's' ∷ b'e' ∷ b't' ∷ b'u' ∷ b'p' ∷ b'_' ∷ b'p' ∷ b'i' ∷ b'n' ∷ []

abbrev pub discriminator : Bytes
discriminator =
    b'd' ∷ b'i' ∷ b's' ∷ b'c' ∷ b'r' ∷ b'i' ∷ b'm' ∷ b'i' ∷ b'n' ∷ b'a' ∷ b't' ∷ b'o' ∷ b'r' ∷ []

abbrev pub timeout_s : Bytes
timeout_s = b't' ∷ b'i' ∷ b'm' ∷ b'e' ∷ b'o' ∷ b'u' ∷ b't' ∷ b'_' ∷ b's' ∷ []

abbrev pub iteration_count : Bytes
iteration_count =
    b'i' ∷ b't' ∷ b'e' ∷ b'r' ∷ b'a' ∷ b't' ∷ b'i' ∷ b'o' ∷ b'n' ∷ b'_' ∷ b'c' ∷ b'o' ∷ b'u' ∷ b'n'
    ∷ b't' ∷ []

abbrev pub value : Bytes
value = b'v' ∷ b'a' ∷ b'l' ∷ b'u' ∷ b'e' ∷ []

abbrev pub path : Bytes
path = b'p' ∷ b'a' ∷ b't' ∷ b'h' ∷ []

abbrev pub code : Bytes
code = b'c' ∷ b'o' ∷ b'd' ∷ b'e' ∷ []

abbrev pub effect : Bytes
effect = b'e' ∷ b'f' ∷ b'f' ∷ b'e' ∷ b'c' ∷ b't' ∷ []

abbrev pub unknown : Bytes
unknown = b'u' ∷ b'n' ∷ b'k' ∷ b'n' ∷ b'o' ∷ b'w' ∷ b'n' ∷ []

abbrev pub none : Bytes
none = b'n' ∷ b'o' ∷ b'n' ∷ b'e' ∷ []

abbrev pub status : Bytes
status = b's' ∷ b't' ∷ b'a' ∷ b't' ∷ b'u' ∷ b's' ∷ []

abbrev pub cluster_status : Bytes
cluster_status =
    b'c' ∷ b'l' ∷ b'u' ∷ b's' ∷ b't' ∷ b'e' ∷ b'r' ∷ b'_' ∷ b's' ∷ b't' ∷ b'a' ∷ b't' ∷ b'u' ∷ b's'
    ∷ []

abbrev pub data_version : Bytes
data_version =
    b'd' ∷ b'a' ∷ b't' ∷ b'a' ∷ b'_' ∷ b'v' ∷ b'e' ∷ b'r' ∷ b's' ∷ b'i' ∷ b'o' ∷ b'n' ∷ []

abbrev pub event_number : Bytes
event_number =
    b'e' ∷ b'v' ∷ b'e' ∷ b'n' ∷ b't' ∷ b'_' ∷ b'n' ∷ b'u' ∷ b'm' ∷ b'b' ∷ b'e' ∷ b'r' ∷ []

abbrev pub priority : Bytes
priority = b'p' ∷ b'r' ∷ b'i' ∷ b'o' ∷ b'r' ∷ b'i' ∷ b't' ∷ b'y' ∷ []

abbrev pub timestamp : Bytes
timestamp = b't' ∷ b'i' ∷ b'm' ∷ b'e' ∷ b's' ∷ b't' ∷ b'a' ∷ b'm' ∷ b'p' ∷ []

abbrev pub epoch : Bytes
epoch = b'e' ∷ b'p' ∷ b'o' ∷ b'c' ∷ b'h' ∷ []

abbrev pub system : Bytes
system = b's' ∷ b'y' ∷ b's' ∷ b't' ∷ b'e' ∷ b'm' ∷ []

abbrev pub error : Bytes
error = b'e' ∷ b'r' ∷ b'r' ∷ b'o' ∷ b'r' ∷ []

abbrev pub ok : Bytes
ok = b'o' ∷ b'k' ∷ []

abbrev pub result : Bytes
result = b'r' ∷ b'e' ∷ b's' ∷ b'u' ∷ b'l' ∷ b't' ∷ []

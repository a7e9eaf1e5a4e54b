-- ===== src/Examples/Reports.antt =====
-- A session of ReportCreditManager, a subscription and its recovery on concrete data.
use wotex_matter.Base.{
  ℕ, ◌+◌, ◌-◌, ◌≤◌, ◌≡◌, refl, Bool, true, List, [], ◌∷◌, ◌++◌, none, some, length, pos, u64_max,
  leb, if◌then◌else◌, Bytes, arith,
}
use wotex_matter.Value.Types.{TagKind, Element, ElementType, element_of, nil}
use wotex_matter.Interaction.Types.{PathSelector, ConcretePath, PathResult, same_path}
use wotex_matter.Credit.State.{new_manager, snapshot, next_report_byte_count}
use wotex_matter.Credit.Cases.{next_report_byte_count-exact}
use wotex_matter.Credit.Accounting.{IsBalanced, total_bytes}
use wotex_matter.Credit.Accounting.Retirement
use wotex_matter.Credit.StreamCounts.Keys.{key-injective}
use wotex_matter.Subscription.Types.{
  attribute, SubscriptionRequest, valid_subscription_report, right_alternative, path_matches,
}
use wotex_matter.Subscription.Buffer.{
  new_buffer, begin_report, has_path, report_of, remember, place, add_new, add, end_report,
  establish, activate, duplicate_in_current_report, suppressed_duplicate,
}
use wotex_matter.Subscription.Buffer.Orderly.{IsOrderly}
use wotex_matter.Subscription.Buffer.Runs
use wotex_matter.Subscription.Buffer.Taken.{history}
use wotex_matter.Subscription.Recovery.{
  Recovery, next, next_attempt, retry, decisions, retries, retries-decisions-le, next_retry,
}

abbrev lamp : Bytes
lamp = b'a' ∷ []

abbrev encode_pair : ℕ → Bytes
encode_pair n = b'r' ∷ b'1' ∷ []

abbrev accept_all : List (Bytes × Bool) → Bytes → Bool
accept_all calls frame = true

abbrev session : List Retirement.Call
session =
    Retirement.Call.adds lamp 1 2
    ∷ Retirement.Call.submits lamp 1 encode_pair
    ∷ Retirement.Call.submits lamp 1 encode_pair
    ∷ Retirement.Call.submits lamp 1 encode_pair
    ∷ Retirement.Call.acknowledges 1 3
    ∷ Retirement.Call.recovers lamp 1 2 2 (b'b' ∷ [])
    ∷ []

run-new_manager-IsBalanced_example :
    IsBalanced (Retirement.run (new_manager (b'g' ∷ []) accept_all) session)
run-new_manager-IsBalanced_example =
    Retirement.run-new_manager-IsBalanced (b'g' ∷ []) accept_all session

snapshot-run_example :
    let m = Retirement.run (new_manager (b'g' ∷ []) accept_all) session in
    ((snapshot m).frame_credit + length m.outstanding ≡ 64)
    × ((snapshot m).byte_credit + total_bytes m.outstanding ≡ 1048576)
    × ((snapshot m).queued_bytes ≡ total_bytes m.queued)
snapshot-run_example = Retirement.snapshot-run (b'g' ∷ []) accept_all session

next_report_byte_count-exact_example :
    next_report_byte_count (u64_max - 2) 3
    ≡ (if leb ((u64_max - 2) + 3) u64_max then some ((u64_max - 2) + 3) else none)
next_report_byte_count-exact_example =
    next_report_byte_count-exact (u64_max - 2) 3 (omega arith) (omega arith)

key-injective_example : (lamp ≡ lamp) × (◌≡◌ {A = ℕ} 12 12)
key-injective_example = key-injective lamp lamp 12 12 refl

-- A subscription to the state of a light.
abbrev light : PathSelector
light = record { fabric_id = 1; node_id = 7; endpoint = some 1; cluster = some 6; member = some 0 }

abbrev light_path : ConcretePath
light_path = record { fabric_id = 1; node_id = 7; endpoint = 1; cluster = 6; member = 0 }

abbrev is_on : Element
is_on =
    element_of (record { kind = TagKind.anonymous; id = 0 }) ElementType.boolean (pos 0) 0 true nil

abbrev light_on : PathResult
light_on = record {
  path = light_path;
  attribute = some (record { path = light_path; value = is_on; data_version = some 3 });
  event = none;
  error = none;
}

abbrev light_request : SubscriptionRequest
light_request = record {
  subscription_id = lamp;
  kind = attribute;
  fabric_id = 1;
  node_id = 7;
  paths = light ∷ [];
  min_interval_s = 1;
  max_interval_s = 60;
  resubscribe = true;
  queue_limit = 8;
  timeout_ms = 5000;
}

abbrev light_calls : List Runs.Call
light_calls =
    Runs.Call.begins
    ∷ Runs.Call.adds light_on
    ∷ Runs.Call.adds light_on
    ∷ Runs.Call.ends
    ∷ Runs.Call.establishes 77 2 30
    ∷ Runs.Call.activates
    ∷ []

-- A report of the same attribute after the establishment.
abbrev later_calls : List Runs.Call
later_calls =
    Runs.Call.begins ∷ Runs.Call.adds light_on ∷ Runs.Call.adds light_on ∷ Runs.Call.ends ∷ []

run-new_buffer-IsOrderly_example : IsOrderly (Runs.run (new_buffer light_request) light_calls)
run-new_buffer-IsOrderly_example = Runs.run-new_buffer-IsOrderly light_request light_calls

-- The attribute is added twice in the first report and once in the next one: two reports are taken.
two_taken : length (history (new_buffer light_request) (light_calls ++ later_calls) []) ≡ 2
unfolding history Runs.step new_buffer begin_report has_path report_of remember place add_new add
    end_report establish activate duplicate_in_current_report suppressed_duplicate
    valid_subscription_report right_alternative path_matches same_path wotex_matter.Base.eq_bytes
two_taken = refl

-- Recovery.
abbrev second_attempt : Recovery
second_attempt = record {
  enabled = true;
  recovering = true;
  started_ms = 1000;
  generation = 2;
  attempts = 1;
}

retries-decisions-le_example : retries (decisions second_attempt (1500 ∷ 2500 ∷ 70000 ∷ [])) ≤ 5
retries-decisions-le_example =
    retries-decisions-le second_attempt (1500 ∷ 2500 ∷ 70000 ∷ []) (omega arith)

second_attempt-retries : (next second_attempt 1500).1.action ≡ retry
unfolding next next_attempt
second_attempt-retries = refl

next_retry_example :
    let d = (next second_attempt 1500).1 in
    (1 ≤ d.attempt)
    × (d.attempt ≤ 5)
    × (1 ≤ d.remaining_ms)
    × (d.remaining_ms ≤ 60000)
    × (d.generation ≡ (if true then 2 else 3))
    × ((next second_attempt 1500).0.generation ≡ d.generation)
    × ((next second_attempt 1500).0.attempts ≡ d.attempt)
next_retry_example =
    next_retry second_attempt 1500 (omega arith) (ground arith) second_attempt-retries

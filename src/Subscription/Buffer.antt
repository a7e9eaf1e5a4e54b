-- ===== src/Subscription/Buffer.antt =====
-- SubscriptionBuffer of native/src/subscription.cpp: reports wait until the subscription is
-- established and activated, without duplicates, under the queue limit of the request.
pub mod Orderly
pub mod Adding
pub mod Runs
pub mod Taken
pub mod Fresh
pub mod Histories
use wotex_matter.Base.{
  ℕ, ◌+◌, ◌≤◌, ◌<◌, ◌≡◌, Bool, true, false, not, ◌&&◌, ◌||◌, List, [], ◌∷◌, ◌++◌, Option, none,
  some, map, length, any_of, ◌==◌, ltb, leb, u64_max, add64, if◌then◌else◌, has_value,
}
use wotex_matter.Interaction.Types.{PathResult, ConcretePath, EventData, same_path}
use wotex_matter.Subscription.Types.{
  SubscriptionRequest, SubscriptionReport, SubscriptionKind, attribute, event,
  valid_subscription_report,
}

abbrev pub EventId : Type 0
EventId = ConcretePath × ℕ

pub record Buffer : Type 0 where
  pub request : SubscriptionRequest
  pub buffered : List SubscriptionReport
  pub ready : List SubscriptionReport
  pub current_attribute_paths : List ConcretePath
  pub current_event_ids : List EventId
  pub initial_attribute_paths : List ConcretePath
  pub event_id_cache : List EventId
  pub generation : ℕ
  pub report_id : ℕ
  pub sdk_subscription_id : ℕ
  pub revised_min_interval_s : ℕ
  pub revised_max_interval_s : ℕ
  pub in_report : Bool
  pub is_established : Bool
  pub is_activated : Bool
  pub is_active : Bool

unfoldable pub new_buffer : SubscriptionRequest → Buffer
new_buffer request = record {
  request = request;
  buffered = [];
  ready = [];
  current_attribute_paths = [];
  current_event_ids = [];
  initial_attribute_paths = [];
  event_id_cache = [];
  generation = 1;
  report_id = 0;
  sdk_subscription_id = 0;
  revised_min_interval_s = 0;
  revised_max_interval_s = 0;
  in_report = false;
  is_established = false;
  is_activated = false;
  is_active = true;
}

unfoldable pub begin_report : Buffer → Buffer
begin_report b =
    if not b.is_active || b.in_report || b.report_id == u64_max
    then record b { is_active = false }
    else record b {
      report_id = add64 b.report_id 1;
      in_report = true;
      current_attribute_paths = [];
      current_event_ids = [];
    }

unfoldable pub has_path : ConcretePath → List ConcretePath → Bool
has_path path paths = any_of (λ p. same_path p path) paths

unfoldable pub has_event : ConcretePath → Option EventData → List EventId → Bool
has_event path none ids = false
has_event path (some e) ids = any_of (λ i. same_path i.0 path && i.1 == e.event_number) ids

unfoldable pub duplicate_in_current_report : Buffer → SubscriptionKind → PathResult → Bool
unfolding has_path has_event
duplicate_in_current_report b attribute result = has_path result.path b.current_attribute_paths
duplicate_in_current_report b event result = has_event result.path result.event b.current_event_ids

unfoldable pub suppressed_duplicate : Buffer → SubscriptionKind → PathResult → Bool
unfolding has_path has_event
suppressed_duplicate b attribute result =
    not b.is_established && has_path result.path b.initial_attribute_paths
suppressed_duplicate b event result = has_event result.path result.event b.event_id_cache

-- The report that Add builds.
unfoldable pub report_of : Buffer → PathResult → SubscriptionReport
report_of b result = record {
  subscription_id = b.request.subscription_id;
  generation = b.generation;
  kind = b.request.kind;
  result = result;
  initial = not b.is_established;
  report_id = b.report_id;
  min_interval_s = if b.is_established then b.revised_min_interval_s else b.request.min_interval_s;
  max_interval_s = if b.is_established then b.revised_max_interval_s else b.request.max_interval_s;
  sdk_subscription_id = b.sdk_subscription_id;
}

abbrev pub pop_front {ℓ} : {A : Type ℓ} → List A → List A
pop_front [] = []
pop_front (x ∷ xs) = xs

-- The cache of event identities holds the last 1024.
unfoldable pub cache_event : List EventId → EventId → List EventId
cache_event cache i =
    let longer = cache ++ i ∷ [] in if ltb 1024 (length longer) then pop_front longer else longer

-- What Add remembers of an accepted result; an accepted event report has its event.
unfoldable pub remember : Buffer → SubscriptionKind → PathResult → Option EventData → Buffer
unfolding cache_event
remember b attribute result _ = record b {
  current_attribute_paths = b.current_attribute_paths ++ result.path ∷ [];
  initial_attribute_paths =
      if b.is_established
      then b.initial_attribute_paths
      else b.initial_attribute_paths ++ result.path ∷ [];
}
remember b event result none = b
remember b event result (some e) = record b {
  current_event_ids = b.current_event_ids ++ (result.path, e.event_number) ∷ [];
  event_id_cache = cache_event b.event_id_cache (result.path, e.event_number);
}

-- The accepted report goes to the reports that are ready, or waits.
unfoldable pub place : Buffer → SubscriptionReport → Buffer
place b report =
    if b.is_activated
    then record b { ready = b.ready ++ report ∷ [] }
    else record b { buffered = b.buffered ++ report ∷ [] }

-- The end of Add, for a result that is no duplicate.
unfoldable pub add_new : Buffer → PathResult → Buffer × Bool
unfolding report_of remember place
add_new b result =
    let report = report_of b result in
    if not (valid_subscription_report b.request report)
      || leb b.request.queue_limit (length b.buffered + length b.ready)
    then (record b { is_active = false }, false)
    else (place (remember b b.request.kind result result.event) report, true)

unfoldable pub add : Buffer → PathResult → Buffer × Bool
unfolding duplicate_in_current_report suppressed_duplicate add_new
add b result =
    if not b.is_active || not b.in_report
    then (b, false)
    else if duplicate_in_current_report b b.request.kind result
        || suppressed_duplicate b b.request.kind result
    then (b, true)
    else add_new b result

unfoldable pub end_report : Buffer → Buffer
end_report b = record b { in_report = false }

-- The revised terms, in a report that waited for them.
unfoldable pub revise : ℕ → ℕ → ℕ → SubscriptionReport → SubscriptionReport
revise sdk_id low high report = record report {
  sdk_subscription_id = sdk_id;
  min_interval_s = low;
  max_interval_s = high;
}

unfoldable pub establish : Buffer → ℕ → ℕ → ℕ → Buffer × Bool
unfolding revise
establish b sdk_id low high =
    if not b.is_active || b.is_established || high == 0 || ltb high low
    then (record b { is_active = false }, false)
    else (
      record b {
        sdk_subscription_id = sdk_id;
        revised_min_interval_s = low;
        revised_max_interval_s = high;
        is_established = true;
        buffered = map (revise sdk_id low high) b.buffered;
      },
      true,
    )

unfoldable pub prepare_recovery : Buffer → ℕ → Buffer × Bool
prepare_recovery b generation =
    if not b.is_active
      || generation == 0
      || b.generation == u64_max
      || not (generation == add64 b.generation 1)
    then (record b { is_active = false }, false)
    else (
      record b {
        generation = generation;
        report_id = 0;
        sdk_subscription_id = 0;
        revised_min_interval_s = 0;
        revised_max_interval_s = 0;
        in_report = false;
        is_established = false;
        is_activated = false;
        buffered = [];
        ready = [];
        current_attribute_paths = [];
        current_event_ids = [];
        initial_attribute_paths = [];
      },
      true,
    )

unfoldable pub activate : Buffer → Buffer
activate b =
    if not b.is_active || not b.is_established || b.is_activated
    then b
    else record b { is_activated = true; ready = b.ready ++ b.buffered; buffered = [] }

unfoldable pub cancel_buffer : Buffer → Buffer
cancel_buffer b = record b { is_active = false; buffered = []; ready = [] }

unfoldable pub take_ready : Buffer → Buffer × List SubscriptionReport
take_ready b = (record b { ready = [] }, b.ready)

-- ===== src/Credit/State.antt =====
-- The state of ReportCreditManager (native/src/subscription.cpp), AddStream and CanTransmit.
use wotex_matter.Base.{
  ℕ, Bool, true, false, ◌&&◌, ◌||◌, Option, none, some, List, [], ◌∷◌, ◌++◌, min, ltb, leb, ◌==◌,
  if◌then◌else◌, Bytes, to_string, has_value, is_empty, length, add64, sub64, u64_max,
}
use wotex_matter.Credit.Table.{Stream, Streams, find, live_count}

abbrev pub session_report_credit : ℕ
session_report_credit = 64

abbrev pub session_byte_credit : ℕ
session_byte_credit = 1048576

abbrev pub stream_report_credit : ℕ
stream_report_credit = 16

abbrev pub maximum_queued_reports : ℕ
maximum_queued_reports = 64

abbrev pub maximum_queued_bytes : ℕ
maximum_queued_bytes = 1048576

pub record Frame : Type 0 where
  pub subscription_id : Bytes
  pub generation : ℕ
  pub sequence : ℕ
  pub encoded : Bytes
  pub encode : ℕ → Bytes
  pub cumulative_bytes : ℕ

pub record Manager : Type 0 where
  pub session_generation : Bytes
  pub transmit : List (Bytes × Bool) → Bytes → Bool
  pub calls : List (Bytes × Bool)
  pub streams : Streams
  pub queued : List Frame
  pub outstanding : List Frame
  pub next_sequence : ℕ
  pub cumulative_transmitted_bytes : ℕ
  pub acknowledged_sequence : ℕ
  pub acknowledged_bytes : ℕ
  pub queued_bytes : ℕ
  pub outstanding_bytes : ℕ

pub data SubmitResult : Type 0 where
  transmitted queued stream_overflow invalid : SubmitResult

pub record CreditSnapshot : Type 0 where
  pub queued : ℕ
  pub frame_credit : ℕ
  pub byte_credit : ℕ
  pub queued_bytes : ℕ

unfoldable pub new_manager : Bytes → (List (Bytes × Bool) → Bytes → Bool) → Manager
new_manager generation transmit = record {
  session_generation = generation;
  transmit = transmit;
  calls = [];
  streams = [];
  queued = [];
  outstanding = [];
  next_sequence = 1;
  cumulative_transmitted_bytes = 0;
  acknowledged_sequence = 0;
  acknowledged_bytes = 0;
  queued_bytes = 0;
  outstanding_bytes = 0;
}

unfoldable pub next_report_byte_count : ℕ → ℕ → Option ℕ
next_report_byte_count current encoded_bytes =
    if ltb (sub64 u64_max current) encoded_bytes then none else some (add64 current encoded_bytes)

unfoldable pub snapshot : Manager → CreditSnapshot
snapshot m = record {
  queued = length m.queued;
  frame_credit = sub64 session_report_credit (length m.outstanding);
  byte_credit = sub64 session_byte_credit m.outstanding_bytes;
  queued_bytes = m.queued_bytes;
}

-- `subscription_id + ":" + std::to_string(generation)`.
unfoldable pub key : Bytes → ℕ → Bytes
key subscription_id generation = subscription_id ++ b':' ∷ to_string generation

-- The guards of AddStream.
unfoldable pub refuses_stream : Manager → Bytes → ℕ → ℕ → Bool
refuses_stream m subscription_id generation queue_limit =
    is_empty subscription_id
    || generation == 0
    || queue_limit == 0
    || ltb 10000 queue_limit
    || leb 64 (live_count m.streams)
    || leb 128 (length m.streams)
    || has_value (find (key subscription_id generation) m.streams)

-- The stream that AddStream puts into the table.
unfoldable pub new_stream : ℕ → ℕ → Stream
new_stream generation queue_limit = record {
  generation = generation;
  queue_limit = queue_limit;
  outstanding = 0;
  queued = 0;
  last_transmitted = 0;
  live = true;
}

unfoldable pub add_stream : Manager → Bytes → ℕ → ℕ → Manager × Bool
add_stream m subscription_id generation queue_limit =
    if refuses_stream m subscription_id generation queue_limit then (m, false) else (
      record m {
        streams =
            m.streams ++ (key subscription_id generation, new_stream generation queue_limit) ∷ [];
      },
      true,
    )

unfoldable pub can_transmit : Manager → Stream → ℕ → Bool
can_transmit m stream bytes =
    ltb (length m.outstanding) session_report_credit
    && leb m.outstanding_bytes session_byte_credit
    && leb bytes (sub64 session_byte_credit m.outstanding_bytes)
    && ltb stream.outstanding (min stream_report_credit stream.queue_limit)

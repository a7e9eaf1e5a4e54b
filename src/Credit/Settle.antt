-- ===== src/Credit/Settle.antt =====
-- ReportCreditManager::Acknowledge and Drain (native/src/subscription.cpp).
use wotex_matter.Base.{
  ℕ, ◌+◌, ◌-◌, Bool, true, false, not, ◌&&◌, ◌||◌, Option, none, some, List, [], ◌∷◌, ltb, leb,
  ◌==◌, if◌then◌else◌, Bytes, is_empty, length, sub64,
}
use wotex_matter.Credit.Table.{Stream, Streams, find, update, erase}
use wotex_matter.Credit.State.{Frame, Manager, key, can_transmit}
use wotex_matter.Credit.Send.{transmit_frame}

-- How one round of the loop of Drain ends.
pub data DrainStep : Type 0 where
  continues stops fails : DrainStep

-- The round for a frame whose stream is gone or retired.
unfoldable pub drop_pending : Manager → Frame → List Frame → Manager
drop_pending m pending rest = record m {
  queued_bytes = sub64 m.queued_bytes (length pending.encoded + 1);
  queued = rest;
}

unfoldable pub drain_result : Manager × Bool → Manager × DrainStep
drain_result (m, true) = (m, continues)
drain_result (m, false) = (m, fails)

-- The front of the queue is taken, and its reservation and its place in the stream are given back.
unfoldable pub take_pending : Manager → Frame → List Frame → Bytes → Stream → Manager
take_pending m pending rest k stream = record m {
  queued_bytes = sub64 m.queued_bytes (length pending.encoded + 1);
  streams = update k (record stream { queued = sub64 stream.queued 1 }) m.streams;
  queued = rest;
}

-- The round for a frame of a live stream.
unfoldable pub drain_live : Manager → Frame → List Frame → Bytes → Stream → Manager × DrainStep
unfolding drain_result take_pending
drain_live m pending rest k stream =
    if can_transmit m stream (length (pending.encode m.next_sequence) + 1)
    then drain_result (transmit_frame (take_pending m pending rest k stream) pending)
    else (m, stops)

unfoldable pub drain_step : Manager → Frame → List Frame → Manager × DrainStep
unfolding drop_pending drain_live
drain_step m pending rest = elim (find (key pending.subscription_id pending.generation) m.streams) [
  | none ↦ (drop_pending m pending rest, continues)
  | some stream ↦
      if not stream.live
      then (drop_pending m pending rest, continues)
      else drain_live m pending rest (key pending.subscription_id pending.generation) stream
]

-- The list is `queued_` of the state: each round that goes on takes its front off.
unfoldable pub drain_loop : List Frame → Manager → Manager × Bool
drain_loop [] m = (m, true)
drain_loop (pending ∷ rest) m =
    let (m', step) = drain_step m pending rest in
    elim step [ continues ↦ drain_loop rest m' | stops ↦ (m', true) | fails ↦ (m', false) ]

unfoldable pub drain : Manager → Manager × Bool
unfolding drain_loop
drain m = drain_loop m.queued m

-- std::find_if over the outstanding frames.
unfoldable pub find_sequence : ℕ → List Frame → Option Frame
find_sequence n [] = none
find_sequence n (f ∷ fs) = if f.sequence == n then some f else find_sequence n fs

-- What an acknowledged frame changes in the table.
unfoldable pub credit_stream : Bytes → Streams → Streams
credit_stream k streams = elim (find k streams) [
  | none ↦ streams
  | some stream ↦
      if ltb 0 stream.outstanding
      then (if not stream.live && stream.outstanding == 1 && stream.queued == 0
          then erase k streams
          else update k (record stream { outstanding = stream.outstanding - 1 }) streams)
      else streams
]

unfoldable pub acknowledge_frame : Manager → Frame → List Frame → Manager
unfolding credit_stream
acknowledge_frame m frame rest = record m {
  outstanding = rest;
  outstanding_bytes = sub64 m.outstanding_bytes (length frame.encoded + 1);
  streams = credit_stream (key frame.subscription_id frame.generation) m.streams;
}

-- The list is `outstanding_` of the state, from its front.
unfoldable pub acknowledge_loop : ℕ → List Frame → Manager → Manager
unfolding acknowledge_frame
acknowledge_loop report_sequence [] m = m
acknowledge_loop report_sequence (frame ∷ rest) m =
    let next = acknowledge_loop report_sequence rest (acknowledge_frame m frame rest) in
    if leb frame.sequence report_sequence then next else m

-- The end of Acknowledge, once the target frame is confirmed.
unfoldable pub acknowledge_through : Manager → ℕ → ℕ → Manager
unfolding acknowledge_loop
acknowledge_through m report_sequence acknowledged_bytes =
    record (acknowledge_loop report_sequence m.outstanding m) {
      acknowledged_sequence = report_sequence;
      acknowledged_bytes = acknowledged_bytes;
    }

-- Acknowledge for a number that is not yet acknowledged.
unfoldable pub acknowledge_target : Manager → ℕ → ℕ → Manager × Bool
acknowledge_target m report_sequence acknowledged_bytes =
    elim (find_sequence report_sequence m.outstanding) [
      | none ↦ (m, false)
      | some target ↦
          if not (target.cumulative_bytes == acknowledged_bytes)
          then (m, false)
          else drain (acknowledge_through m report_sequence acknowledged_bytes)
    ]

unfoldable pub acknowledge : Manager → ℕ → ℕ → Manager × Bool
acknowledge m report_sequence acknowledged_bytes =
    if leb report_sequence m.acknowledged_sequence || is_empty m.outstanding
    then (m, false)
    else acknowledge_target m report_sequence acknowledged_bytes

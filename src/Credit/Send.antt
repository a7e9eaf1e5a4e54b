-- ===== src/Credit/Send.antt =====
-- ReportCreditManager::Submit and TransmitFrame (native/src/subscription.cpp).
use wotex_matter.Base.{
  ℕ, ◌+◌, Bool, true, false, not, ◌&&◌, ◌||◌, none, some, [], ◌∷◌, ◌++◌, ltb, leb, ◌==◌,
  if◌then◌else◌, Bytes, is_empty, length, add64, sub64, u64_max,
}
use wotex_matter.Credit.Table.{Stream, find, update}
use wotex_matter.Credit.State.{
  Frame, Manager, SubmitResult, key, can_transmit, next_report_byte_count, session_byte_credit,
  maximum_queued_reports, maximum_queued_bytes,
}

-- The end of TransmitFrame, after `transmit_` has accepted the bytes.
unfoldable pub record_transmitted : Manager → Frame → Bytes → Stream → Bytes → ℕ → Manager
record_transmitted m frame k stream encoded cumulative = record m {
  next_sequence = add64 m.next_sequence 1;
  cumulative_transmitted_bytes = cumulative;
  outstanding_bytes = add64 m.outstanding_bytes (length encoded + 1);
  streams =
      update k
        (record stream {
          outstanding = add64 stream.outstanding 1;
          last_transmitted = m.next_sequence;
        })
        m.streams;
  outstanding =
      m.outstanding
      ++ (record frame {
        sequence = m.next_sequence;
        encoded = encoded;
        cumulative_bytes = cumulative;
      })
        ∷ [];
}

-- The call of `transmit_`, and what follows it.
unfoldable pub transmit_encoded : Manager → Frame → Bytes → Stream → Bytes → ℕ → Manager × Bool
unfolding record_transmitted
transmit_encoded m frame k stream encoded cumulative =
    let sent = m.transmit m.calls encoded in
    let called = record m { calls = m.calls ++ (encoded, sent) ∷ [] } in
    if sent
    then (record_transmitted called frame k stream encoded cumulative, true)
    else (called, false)

-- TransmitFrame for a stream that was found.
unfoldable pub transmit_on : Manager → Frame → Bytes → Stream → Manager × Bool
unfolding transmit_encoded
transmit_on m frame k stream =
    let encoded = frame.encode m.next_sequence in
    if not stream.live || m.next_sequence == u64_max
    then (m, false)
    else if is_empty encoded || leb session_byte_credit (length encoded)
    then (m, false)
    else elim (next_report_byte_count m.cumulative_transmitted_bytes (length encoded + 1)) [
      | none ↦ (m, false)
      | some cumulative ↦ transmit_encoded m frame k stream encoded cumulative
    ]

unfoldable pub transmit_frame : Manager → Frame → Manager × Bool
unfolding transmit_on
transmit_frame m frame = elim (find (key frame.subscription_id frame.generation) m.streams) [
  | none ↦ (m, false)
  | some stream ↦ transmit_on m frame (key frame.subscription_id frame.generation) stream
]

unfoldable pub transmit_result : Manager × Bool → Manager × SubmitResult
transmit_result (m, true) = (m, SubmitResult.transmitted)
transmit_result (m, false) = (m, SubmitResult.invalid)

-- The frame that Submit builds; the copy that waits holds its longest encoding and no number.
unfoldable pub new_frame : Bytes → ℕ → ℕ → (ℕ → Bytes) → Bytes → Frame
new_frame subscription_id generation sequence encode encoded = record {
  subscription_id = subscription_id;
  generation = generation;
  sequence = sequence;
  encoded = encoded;
  encode = encode;
  cumulative_bytes = 0;
}

-- The end of Submit: the frame waits.
unfoldable pub record_queued : Manager → Bytes → ℕ → Stream → (ℕ → Bytes) → Manager
unfolding new_frame
record_queued m subscription_id generation stream encode =
    let encoded = encode u64_max in
    record m {
      queued_bytes = add64 m.queued_bytes (length encoded + 1);
      streams =
          update (key subscription_id generation) (record stream { queued = add64 stream.queued 1 })
            m.streams;
      queued = m.queued ++ new_frame subscription_id generation 0 encode encoded ∷ [];
    }

-- Submit where the frame cannot go out at once.
unfoldable pub enqueue : Manager → Bytes → ℕ → Stream → (ℕ → Bytes) → Manager × SubmitResult
unfolding record_queued
enqueue m subscription_id generation stream encode =
    let bytes = length (encode u64_max) + 1 in
    if leb maximum_queued_reports (length m.queued)
      || ltb maximum_queued_bytes m.queued_bytes
      || ltb (sub64 maximum_queued_bytes m.queued_bytes) bytes
      || leb stream.queue_limit stream.queued
    then (m, SubmitResult.stream_overflow)
    else (record_queued m subscription_id generation stream encode, SubmitResult.queued)

-- Submit for a stream that was found.
unfoldable pub submit_on : Manager → Bytes → ℕ → Stream → (ℕ → Bytes) → Manager × SubmitResult
unfolding new_frame
submit_on m subscription_id generation stream encode =
    let encoded = encode m.next_sequence in
    let bytes = length encoded + 1 in
    if not stream.live || m.next_sequence == u64_max
    then (m, SubmitResult.invalid)
    else if is_empty encoded || ltb session_byte_credit bytes
    then (m, SubmitResult.stream_overflow)
    else if can_transmit m stream bytes && is_empty m.queued
    then transmit_result
        (transmit_frame m (new_frame subscription_id generation m.next_sequence encode encoded))
    else enqueue m subscription_id generation stream encode

unfoldable pub submit : Manager → Bytes → ℕ → (ℕ → Bytes) → Manager × SubmitResult
submit m subscription_id generation encode =
    elim (find (key subscription_id generation) m.streams) [
      | none ↦ (m, SubmitResult.invalid)
      | some stream ↦ submit_on m subscription_id generation stream encode
    ]

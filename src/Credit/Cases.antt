-- ===== src/Credit/Cases.antt =====
-- The ways in which a transmission ends, as a rule for proofs about every caller of TransmitFrame.
use wotex_matter.Base.{
  ℕ, ◌+◌, ◌≤◌, ◌<◌, ◌≡◌, Bool, true, false, none, some, List, arith, Bytes, length, u64_max,
  Bool-cases, Option-cases, inl, inr, leb, if◌then◌else◌, not, ◌||◌, ◌==◌, ◌++◌, [], ◌∷◌, is_empty,
  length_pos, ltb, sub64, and_true, ◌&&◌,
}
use wotex_matter.Credit.Table.{Stream, find}
use wotex_matter.Credit.State.{
  session_byte_credit, maximum_queued_reports, maximum_queued_bytes, SubmitResult, can_transmit,
  Frame, Manager, key, next_report_byte_count,
}
use wotex_matter.Credit.Send.{
  record_transmitted, transmit_encoded, transmit_on, transmit_frame, transmit_result, new_frame,
  record_queued, enqueue, submit_on, submit,
}

-- For a count and a size of 64 bits, the next byte count is their sum where it fits 64 bits, and
-- is refused where it does not.
pub next_report_byte_count-exact :
    (current bytes : ℕ)
    → current ≤ u64_max
    → bytes ≤ u64_max
    → next_report_byte_count current bytes
      ≡ (if leb (current + bytes) u64_max then some (current + bytes) else none)
unfolding next_report_byte_count
next_report_byte_count-exact current bytes h k = ground arith

next_report_byte_count-some :
    {current bytes cumulative : ℕ}
    → current ≤ u64_max
    → bytes ≤ u64_max
    → next_report_byte_count current bytes ≡ some cumulative
    → (cumulative ≡ current + bytes) × (cumulative ≤ u64_max)
unfolding next_report_byte_count
next_report_byte_count-some h k e = ground arith

-- What TransmitFrame has checked when it commits the frame to the wire.
pub record Sendable (m : Manager) (f : Frame) (stream : Stream) (cumulative : ℕ) : Type 0 where
  pub is_live : stream.live ≡ true
  pub sequence_left : m.next_sequence < u64_max
  pub size : length (f.encode m.next_sequence) < 1048576
  pub nonempty : 1 ≤ length (f.encode m.next_sequence)
  pub counted :
      cumulative ≡ m.cumulative_transmitted_bytes + (length (f.encode m.next_sequence) + 1)
  pub counts_fit : cumulative ≤ u64_max

-- The guards of TransmitFrame, read off their tests.
fits :
    (m : Manager) (f : Frame) (stream : Stream) (c : ℕ)
    → m.next_sequence ≤ u64_max
    → m.cumulative_transmitted_bytes ≤ u64_max
    → (not stream.live || m.next_sequence == u64_max) ≡ false
    → (is_empty (f.encode m.next_sequence)
        || leb session_byte_credit (length (f.encode m.next_sequence)))
      ≡ false
    → next_report_byte_count m.cumulative_transmitted_bytes (length (f.encode m.next_sequence) + 1)
      ≡ some c
    → Sendable m f stream c
fits m f stream c hs hc e u n =
    let encoded = f.encode m.next_sequence in
    let small : length encoded < 1048576 = ground arith in
    let (counted, counts_fit) = next_report_byte_count-some hc (omega arith) n in
    record {
      is_live = ground arith;
      sequence_left = ground arith;
      size = small;
      nonempty = length_pos encoded (ground arith);
      counted = counted;
      counts_fit = counts_fit;
    }

module _ {ℓ} (P : Manager × Bool → Type ℓ) (m : Manager) (f : Frame) where
  abbrev Refused : Type ℓ
  Refused = (calls : List (Bytes × Bool)) → P (record m { calls = calls }, false)

  abbrev Sent : Bytes → Stream → Type ℓ
  Sent k stream =
      (calls : List (Bytes × Bool)) (cumulative : ℕ)
      → Sendable m f stream cumulative
      → P (
        record_transmitted (record m { calls = calls }) f k stream (f.encode m.next_sequence)
            cumulative,
        true,
      )

  encoded_cases :
      (k : Bytes) (stream : Stream) (encoded : Bytes) (c : ℕ)
      → Refused
      → ((calls : List (Bytes × Bool))
          → P (record_transmitted (record m { calls = calls }) f k stream encoded c, true))
      → P (transmit_encoded m f k stream encoded c)
  unfolding transmit_encoded
  encoded_cases k stream encoded c refused sent = elim (Bool-cases (m.transmit m.calls encoded)) [
    | inl a ↦ rw (a, transmit_encoded) (sent (m.calls ++ (encoded, true) ∷ []))
    | inr a ↦ rw (a, transmit_encoded) (refused (m.calls ++ (encoded, false) ∷ []))
  ]

  counted_cases :
      (k : Bytes) (stream : Stream) (encoded : Bytes)
      → Refused
      → ((calls : List (Bytes × Bool)) (c : ℕ)
          → next_report_byte_count m.cumulative_transmitted_bytes (length encoded + 1) ≡ some c
          → P (record_transmitted (record m { calls = calls }) f k stream encoded c, true))
      → P (elim (next_report_byte_count m.cumulative_transmitted_bytes (length encoded + 1)) [
        | none ↦ (m, false)
        | some c ↦ transmit_encoded m f k stream encoded c
      ])
  counted_cases k stream encoded refused sent =
      elim (Option-cases
        (next_report_byte_count m.cumulative_transmitted_bytes (length encoded + 1))) [
          | inl n ↦ rw n (refused m.calls)
          | inr (c, n) ↦ rw n (encoded_cases k stream encoded c refused (λ calls. sent calls c n))
        ]

  transmit_on_cases :
      (k : Bytes) (stream : Stream)
      → m.next_sequence ≤ u64_max
      → m.cumulative_transmitted_bytes ≤ u64_max
      → Refused
      → Sent k stream
      → P (transmit_on m f k stream)
  unfolding transmit_on transmit_encoded
  transmit_on_cases k stream hs hc refused sent =
      let encoded = f.encode m.next_sequence in
      let stops = not stream.live || m.next_sequence == u64_max in
      let unfit = is_empty encoded || leb session_byte_credit (length encoded) in
      elim (Bool-cases stops) [
        | inl e ↦ rw e (refused m.calls)
        | inr e ↦ elim (Bool-cases unfit) [
          | inl u ↦ rw (e, u) (refused m.calls)
          | inr u ↦
              rw (e, u)
                (counted_cases k stream encoded refused
                  (λ calls c n. sent calls c (fits m f stream c hs hc e u n)))
        ]
      ]

  pub transmit_frame_cases :
      m.next_sequence ≤ u64_max
      → m.cumulative_transmitted_bytes ≤ u64_max
      → Refused
      → ((stream : Stream)
          → find (key f.subscription_id f.generation) m.streams ≡ some stream
          → Sent (key f.subscription_id f.generation) stream)
      → P (transmit_frame m f)
  unfolding transmit_frame
  transmit_frame_cases hs hc refused sent =
      elim (Option-cases (find (key f.subscription_id f.generation) m.streams)) [
        | inl e ↦ rw (e, transmit_frame) (refused m.calls)
        | inr (stream, e) ↦
            rw (e, transmit_frame) (transmit_on_cases _ stream hs hc refused (sent stream e))
      ]

-- What Submit has checked when it lets a frame wait.
pub record Queueable (m : Manager) (stream : Stream) (encode : ℕ → Bytes) : Type 0 where
  pub is_live : stream.live ≡ true
  pub room : length m.queued < 64
  pub bytes : m.queued_bytes + (length (encode u64_max) + 1) ≤ 1048576
  pub within : stream.queued < stream.queue_limit

can_queue :
    (m : Manager) (stream : Stream) (encode : ℕ → Bytes)
    → (not stream.live || m.next_sequence == u64_max) ≡ false
    → (leb maximum_queued_reports (length m.queued)
        || ltb maximum_queued_bytes m.queued_bytes
        || ltb (sub64 maximum_queued_bytes m.queued_bytes) (length (encode u64_max) + 1)
        || leb stream.queue_limit stream.queued)
      ≡ false
    → Queueable m stream encode
can_queue m stream encode e q = record {
  is_live = ground arith;
  room = ground arith;
  bytes = ground arith;
  within = ground arith;
}

module _ {ℓ} (P : Manager × SubmitResult → Type ℓ) (m : Manager) (id : Bytes) (generation : ℕ)
    (encode : ℕ → Bytes) where
  abbrev Unsent : Type ℓ
  Unsent = (r : SubmitResult) → P (m, r)

  abbrev Direct : Stream → Type ℓ
  Direct stream =
      stream.live ≡ true
      → can_transmit m stream (length (encode m.next_sequence) + 1) ≡ true
      → is_empty m.queued ≡ true
      → P (
          transmit_result (
            transmit_frame m
              (new_frame id generation m.next_sequence encode (encode m.next_sequence))))

  abbrev Waits : Stream → Type ℓ
  Waits stream =
      Queueable m stream encode
      → P (record_queued m id generation stream encode, SubmitResult.queued)

  enqueue_cases :
      (stream : Stream)
      → (not stream.live || m.next_sequence == u64_max) ≡ false
      → Unsent
      → Waits stream
      → P (enqueue m id generation stream encode)
  unfolding enqueue
  enqueue_cases stream e unsent waits =
      let full =
        leb maximum_queued_reports (length m.queued)
        || ltb maximum_queued_bytes m.queued_bytes
        || ltb (sub64 maximum_queued_bytes m.queued_bytes) (length (encode u64_max) + 1)
        || leb stream.queue_limit stream.queued in
      elim (Bool-cases full) [
        | inl q ↦ rw q (unsent SubmitResult.stream_overflow)
        | inr q ↦ rw q (waits (can_queue m stream encode e q))
      ]

  submit_on_cases :
      (stream : Stream)
      → Unsent
      → Direct stream
      → Waits stream
      → P (submit_on m id generation stream encode)
  unfolding submit_on
  submit_on_cases stream unsent direct waits =
      let encoded = encode m.next_sequence in
      let bytes = length encoded + 1 in
      let stops = not stream.live || m.next_sequence == u64_max in
      let unfit = is_empty encoded || ltb session_byte_credit bytes in
      let ready = can_transmit m stream bytes in
      elim (Bool-cases stops) [
        | inl e ↦ rw e (unsent SubmitResult.invalid)
        | inr e ↦ elim (Bool-cases unfit) [
          | inl u ↦ rw (e, u) (unsent SubmitResult.stream_overflow)
          | inr u ↦ elim (Bool-cases (ready && is_empty m.queued)) [
            | inl c ↦
                rw (e, u, c) (direct (ground arith) (and_true ready _ c).0 (and_true ready _ c).1)
            | inr c ↦ rw (e, u, c) (enqueue_cases stream e unsent waits)
          ]
        ]
      ]

  pub submit_cases :
      Unsent
      → ((stream : Stream)
          → find (key id generation) m.streams ≡ some stream
          → Direct stream × Waits stream)
      → P (submit m id generation encode)
  unfolding submit
  submit_cases unsent found = elim (Option-cases (find (key id generation) m.streams)) [
    | inl e ↦ rw (e, submit) (unsent SubmitResult.invalid)
    | inr (stream, e) ↦
        rw (e, submit) (submit_on_cases stream unsent (found stream e).0 (found stream e).1)
  ]

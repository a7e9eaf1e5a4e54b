-- ===== src/Credit/Accounting.antt =====
-- The books of ReportCreditManager: the byte counters are the sizes of the frames held, the credit
-- limits hold, and the outstanding frames are numbered one after the other.
pub mod Settlement
pub mod Retirement
use wotex_matter.Base.{
  ℕ, zero, suc, ◌+◌, ◌-◌, ◌≤◌, ◌<◌, ◌≡◌, refl, sym, ◌^◌, Bool, true, false, Option, none, some,
  List, [], ◌∷◌, ◌++◌, arith, Bytes, length, length-append, u64_max, min, Bool-cases, Option-cases,
  inl, inr, add64, sub64, leb, if◌then◌else◌,
}
use mathlib.Core.Path.{subst}
use wotex_matter.Credit.Table.{Stream, Streams, find, update, erase}
use wotex_matter.Credit.State.{
  Frame, Manager, SubmitResult, key, can_transmit, next_report_byte_count, new_manager, add_stream,
}
use wotex_matter.Credit.Cases.{transmit_frame_cases, Sendable, Queueable, submit_cases}
use wotex_matter.Credit.Send.{
  record_transmitted, transmit_encoded, transmit_on, transmit_frame, transmit_result, record_queued,
  new_frame, submit_on, submit,
}

-- A frame takes its bytes and the newline.
abbrev pub frame_bytes : Frame → ℕ
frame_bytes f = length f.encoded + 1

abbrev pub total_bytes : List Frame → ℕ
total_bytes [] = 0
total_bytes (f ∷ fs) = frame_bytes f + total_bytes fs

-- From sequence `s` and byte count `b` the frames lead to `s'` and `b'`, without a gap.
abbrev pub Chain : ℕ → ℕ → List Frame → ℕ → ℕ → Type 0
Chain s b [] s' b' = (s ≡ s') × (b ≡ b')
Chain s b (f ∷ fs) s' b' =
    (f.sequence ≡ s + 1)
    × (f.cumulative_bytes ≡ b + frame_bytes f)
    × Chain f.sequence f.cumulative_bytes fs s' b'

pub record IsBalanced (m : Manager) : Type 0 where
  pub frames : length m.outstanding ≤ 64
  pub bytes : m.outstanding_bytes ≡ total_bytes m.outstanding
  pub byte_limit : m.outstanding_bytes ≤ 1048576
  pub waiting : length m.queued ≤ 64
  pub waiting_bytes : m.queued_bytes ≡ total_bytes m.queued
  pub waiting_limit : m.queued_bytes ≤ 1048576
  pub started : 1 ≤ m.next_sequence
  pub sequence_limit : m.next_sequence ≤ u64_max
  pub byte_count_limit : m.cumulative_transmitted_bytes ≤ u64_max
  pub chain :
      Chain m.acknowledged_sequence m.acknowledged_bytes m.outstanding
        (m.next_sequence - 1)
        m.cumulative_transmitted_bytes

pub table-IsBalanced :
    (m : Manager) (calls : List (Bytes × Bool)) (streams : Streams)
    → IsBalanced m
    → IsBalanced (record m { calls = calls; streams = streams })
table-IsBalanced m calls streams v = assumption

-- The books do not depend on the calls made or on the table.
pub calls-IsBalanced :
    (m : Manager) (calls : List (Bytes × Bool))
    → IsBalanced m
    → IsBalanced (record m { calls = calls })
calls-IsBalanced m calls v = table-IsBalanced m calls m.streams v

pub total_bytes-append :
    (xs : List Frame) (f : Frame) → total_bytes (xs ++ f ∷ []) ≡ total_bytes xs + frame_bytes f
total_bytes-append [] f = omega arith
total_bytes-append (x ∷ xs) f = omega (arith, total_bytes-append xs f)

Chain-extend :
    (s b : ℕ) (fs : List Frame) (s' b' : ℕ) (f : Frame) {s'' b'' : ℕ}
    → Chain s b fs s' b'
    → f.sequence ≡ s' + 1
    → f.cumulative_bytes ≡ b' + frame_bytes f
    → f.sequence ≡ s''
    → f.cumulative_bytes ≡ b''
    → Chain s b (fs ++ f ∷ []) s'' b''
Chain-extend s b [] s' b' f c hs hb hs' hb' = (omega arith, omega arith, (hs', hb'))
Chain-extend s b (x ∷ fs) s' b' f c hs hb hs' hb' =
    (c.0, c.1, Chain-extend x.sequence x.cumulative_bytes fs s' b' f c.2 hs hb hs' hb')

-- What a successful transmission does to the books.
record_transmitted-IsBalanced :
    (m : Manager) (f : Frame) (k : Bytes) (stream : Stream) (encoded : Bytes) (cumulative : ℕ)
    → IsBalanced m
    → length m.outstanding < 64
    → m.next_sequence < u64_max
    → m.outstanding_bytes + (length encoded + 1) ≤ 1048576
    → cumulative ≡ m.cumulative_transmitted_bytes + (length encoded + 1)
    → cumulative ≤ u64_max
    → IsBalanced (record_transmitted m f k stream encoded cumulative)
unfolding record_transmitted
record_transmitted-IsBalanced m f k stream encoded cumulative v room seq fits counted limit =
    record {
      frames = omega (arith, length-append {0} m.outstanding);
      bytes = omega (arith, total_bytes-append m.outstanding _, v.bytes);
      byte_limit = omega arith;
      waiting = v.waiting;
      waiting_bytes = v.waiting_bytes;
      waiting_limit = v.waiting_limit;
      started = omega arith;
      sequence_limit = omega arith;
      byte_count_limit = omega arith;
      chain =
          Chain-extend m.acknowledged_sequence m.acknowledged_bytes m.outstanding
            (m.next_sequence - 1) m.cumulative_transmitted_bytes _ v.chain (omega arith)
            (omega arith) (omega arith) refl;
    }

-- Where there is credit, a transmission keeps the books, whether or not it succeeds.
pub transmit_frame-IsBalanced :
    (m : Manager) (f : Frame)
    → IsBalanced m
    → length m.outstanding < 64
    → m.outstanding_bytes + (length (f.encode m.next_sequence) + 1) ≤ 1048576
    → IsBalanced (transmit_frame m f).0
transmit_frame-IsBalanced m f v room fits =
    transmit_frame_cases (λ r. IsBalanced r.0) m f v.sequence_limit v.byte_count_limit
      (λ calls. calls-IsBalanced m calls v)
      (λ stream e calls cumulative s.
        record_transmitted-IsBalanced (record m { calls = calls }) f _ stream _ cumulative
          (calls-IsBalanced m calls v) room s.sequence_left fits s.counted s.counts_fit)

-- What CanTransmit grants.
pub can_transmit-grants :
    (m : Manager) (stream : Stream) (bytes : ℕ)
    → m.outstanding_bytes ≤ 1048576
    → can_transmit m stream bytes ≡ true
    → (length m.outstanding < 64)
      × (m.outstanding_bytes + bytes ≤ 1048576)
      × (stream.outstanding < min 16 stream.queue_limit)
unfolding can_transmit
can_transmit-grants m stream bytes h e = ground arith

record_queued-IsBalanced :
    (m : Manager) (id : Bytes) (generation : ℕ) (stream : Stream) (encode : ℕ → Bytes)
    → Queueable m stream encode
    → IsBalanced m
    → IsBalanced (record_queued m id generation stream encode)
unfolding record_queued
record_queued-IsBalanced m id generation stream encode q v = record {
  frames = v.frames;
  bytes = v.bytes;
  byte_limit = v.byte_limit;
  waiting = omega (arith, length-append {0} m.queued, q.room);
  waiting_bytes = omega (arith, total_bytes-append m.queued _, q.bytes, v.waiting_bytes);
  waiting_limit = omega (arith, q.bytes);
  started = v.started;
  sequence_limit = v.sequence_limit;
  byte_count_limit = v.byte_count_limit;
  chain = v.chain;
}

transmit_result-IsBalanced :
    (r : Manager × Bool) → IsBalanced r.0 → IsBalanced (transmit_result r).0
unfolding transmit_result
transmit_result-IsBalanced (m, true) v = v
transmit_result-IsBalanced (m, false) v = v

-- Submit keeps the books, whatever it answers.
pub submit-IsBalanced :
    (m : Manager) (id : Bytes) (generation : ℕ) (encode : ℕ → Bytes)
    → IsBalanced m
    → IsBalanced (submit m id generation encode).0
unfolding new_frame
submit-IsBalanced m id generation encode v =
    submit_cases (λ r. IsBalanced r.0) m id generation encode (λ r. v)
      (λ stream e. (
        λ live c q.
            let (room, fits, within) = can_transmit-grants m stream _ v.byte_limit c in
            transmit_result-IsBalanced _ (transmit_frame-IsBalanced m _ v room fits),
        λ q. record_queued-IsBalanced m id generation stream encode q v,
      ))

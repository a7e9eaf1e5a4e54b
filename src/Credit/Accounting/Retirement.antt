-- ===== src/Credit/Accounting/Retirement.antt =====
-- Retiring and recovering keep the books of ReportCreditManager, and so does any history of calls.
use wotex_matter.Base.{
  ℕ, ◌+◌, ◌≤◌, ◌≡◌, Bool, true, false, not, ◌||◌, List, [], ◌∷◌, arith, Bytes, length, has_value,
  u64_max, ◌==◌, if_cases, sub64, Bool-cases, Option-cases, inl, inr,
}
use wotex_matter.Credit.Table.{Stream, find}
use wotex_matter.Credit.State.{
  Frame, Manager, key, add_stream, refuses_stream, new_manager, snapshot,
}
use wotex_matter.Credit.Send.{submit}
use wotex_matter.Credit.Settle.{acknowledge}
use wotex_matter.Credit.Retire.{
  belongs, kept, bytes_after, discard_queued, retire_on, retire, reopen, begin_recovery,
}
use wotex_matter.Credit.Accounting.{
  IsBalanced, total_bytes, frame_bytes, calls-IsBalanced, table-IsBalanced, submit-IsBalanced,
}
use wotex_matter.Credit.Accounting.Settlement.{drain-IsBalanced, acknowledge-IsBalanced}

abbrev KeepsBooks : Manager × Bool → Type 0
KeepsBooks r = IsBalanced r.0

module _ (id : Bytes) (generation : ℕ) where
  length-kept-le : (fs : List Frame) → length (kept id generation fs) ≤ length fs
  unfolding kept
  length-kept-le [] = omega arith
  length-kept-le (f ∷ fs) = ground (arith, length-kept-le fs)

  total_bytes-kept-le : (fs : List Frame) → total_bytes (kept id generation fs) ≤ total_bytes fs
  unfolding kept
  total_bytes-kept-le [] = omega arith
  total_bytes-kept-le (f ∷ fs) = ground (arith, total_bytes-kept-le fs)

  -- The reservations that Retire gives back are those of the frames that it erases.
  bytes_after-kept :
      (fs : List Frame) (x bytes : ℕ)
      → bytes ≡ x + total_bytes fs
      → bytes ≤ u64_max
      → bytes_after id generation fs bytes ≡ x + total_bytes (kept id generation fs)
  unfolding bytes_after kept
  bytes_after-kept [] x bytes e h = omega arith
  bytes_after-kept (f ∷ fs) x bytes e h = elim (Bool-cases (belongs id generation f)) [
    | inl b ↦ rw b (bytes_after-kept fs x (sub64 bytes (frame_bytes f)) (omega arith) (omega arith))
    | inr b ↦ rw b (omega (arith, bytes_after-kept fs (x + frame_bytes f) bytes (omega arith) h))
  ]

  discard_queued-IsBalanced :
      (m : Manager) (stream : Stream)
      → IsBalanced m
      → IsBalanced (discard_queued m id generation stream)
  unfolding discard_queued
  discard_queued-IsBalanced m stream v = record {
    frames = v.frames;
    bytes = v.bytes;
    byte_limit = v.byte_limit;
    waiting = omega (arith, length-kept-le m.queued, v.waiting);
    waiting_bytes =
        omega (arith, bytes_after-kept m.queued 0 m.queued_bytes, v.waiting_bytes, v.waiting_limit);
    waiting_limit = omega (
      arith,
      bytes_after-kept m.queued 0 m.queued_bytes,
      v.waiting_bytes,
      v.waiting_limit,
      total_bytes-kept-le m.queued,
    );
    started = v.started;
    sequence_limit = v.sequence_limit;
    byte_count_limit = v.byte_count_limit;
    chain = v.chain;
  }

  retire_on-IsBalanced :
      (m : Manager) (stream : Stream) (barrier : Bytes)
      → IsBalanced m
      → IsBalanced (retire_on m id generation stream barrier).0
  unfolding retire_on
  retire_on-IsBalanced m stream barrier v =
      let discarded = discard_queued m id generation stream in
      let w = discard_queued-IsBalanced m stream v in
      if_cases KeepsBooks (not (m.transmit m.calls barrier)) (λ e. calls-IsBalanced discarded _ w)
        (λ e. drain-IsBalanced _ (
          if_cases IsBalanced (stream.outstanding == 0) (λ z. table-IsBalanced discarded _ _ w)
            (λ z. calls-IsBalanced discarded _ w)))

  pub retire-IsBalanced :
      (m : Manager) (barrier : Bytes) → IsBalanced m → IsBalanced (retire m id generation barrier).0
  unfolding retire
  retire-IsBalanced m barrier v = elim (Option-cases (find (key id generation) m.streams)) [
    | inl e ↦ rw (e, retire) v
    | inr (stream, e) ↦
        rw (e, retire)
          (if_cases KeepsBooks (not stream.live) (λ d. v)
            (λ d. retire_on-IsBalanced m stream barrier v))
  ]

add_stream-IsBalanced :
    (m : Manager) (id : Bytes) (generation queue_limit : ℕ)
    → IsBalanced m
    → IsBalanced (add_stream m id generation queue_limit).0
unfolding add_stream
add_stream-IsBalanced m id generation queue_limit v =
    if_cases KeepsBooks (refuses_stream m id generation queue_limit) (λ e. v)
      (λ e. table-IsBalanced m m.calls _ v)

reopen-IsBalanced :
    (r : Manager × Bool) (id : Bytes) (generation queue_limit : ℕ)
    → IsBalanced r.0
    → IsBalanced (reopen r id generation queue_limit).0
unfolding reopen
reopen-IsBalanced (m, true) id generation queue_limit v =
    add_stream-IsBalanced m id generation queue_limit v
reopen-IsBalanced (m, false) id generation queue_limit v = v

begin_recovery-IsBalanced :
    (m : Manager) (id : Bytes) (previous next queue_limit : ℕ) (barrier : Bytes)
    → IsBalanced m
    → IsBalanced (begin_recovery m id previous next queue_limit barrier).0
unfolding begin_recovery
begin_recovery-IsBalanced m id previous next queue_limit barrier v =
    if_cases KeepsBooks (next == 0 || previous == next || has_value (find (key id next) m.streams))
      (λ e. v)
      (λ e.
        reopen-IsBalanced (retire m id previous barrier) id next queue_limit
          (retire-IsBalanced id previous m barrier v))

-- The calls that the host makes of the manager.
pub data Call : Type 0 where
  adds : Bytes → ℕ → ℕ → Call
  submits : Bytes → ℕ → (ℕ → Bytes) → Call
  acknowledges : ℕ → ℕ → Call
  retires : Bytes → ℕ → Bytes → Call
  recovers : Bytes → ℕ → ℕ → ℕ → Bytes → Call

pub step : Manager → Call → Manager
step m (adds id generation queue_limit) = (add_stream m id generation queue_limit).0
step m (submits id generation encode) = (submit m id generation encode).0
step m (acknowledges sequence bytes) = (acknowledge m sequence bytes).0
step m (retires id generation barrier) = (retire m id generation barrier).0
step m (recovers id previous next queue_limit barrier) =
    (begin_recovery m id previous next queue_limit barrier).0

pub run : Manager → List Call → Manager
run m [] = m
run m (c ∷ cs) = run (step m c) cs

pub step-IsBalanced : (m : Manager) (c : Call) → IsBalanced m → IsBalanced (step m c)
unfolding step
step-IsBalanced m (adds id generation queue_limit) v =
    add_stream-IsBalanced m id generation queue_limit v
step-IsBalanced m (submits id generation encode) v = submit-IsBalanced m id generation encode v
step-IsBalanced m (acknowledges sequence bytes) v = acknowledge-IsBalanced m sequence bytes v
step-IsBalanced m (retires id generation barrier) v = retire-IsBalanced id generation m barrier v
step-IsBalanced m (recovers id previous next queue_limit barrier) v =
    begin_recovery-IsBalanced m id previous next queue_limit barrier v

run-IsBalanced : (m : Manager) (cs : List Call) → IsBalanced m → IsBalanced (run m cs)
unfolding run
run-IsBalanced m [] v = v
run-IsBalanced m (c ∷ cs) v = run-IsBalanced (step m c) cs (step-IsBalanced m c v)

pub new_manager-IsBalanced :
    (generation : Bytes) (transmit : List (Bytes × Bool) → Bytes → Bool)
    → IsBalanced (new_manager generation transmit)
unfolding new_manager
new_manager-IsBalanced generation transmit = omega arith

-- After any calls on a new manager, whatever the reports encode to and whichever frames the channel
-- accepts: at most 64 frames and 1 MiB are outstanding and at most 64 frames and 1 MiB wait, both
-- byte counters are the exact sizes of the frames held, and the outstanding frames are numbered
-- without a gap from the last acknowledged sequence and byte count to the last transmitted ones.
pub run-new_manager-IsBalanced :
    (generation : Bytes) (transmit : List (Bytes × Bool) → Bytes → Bool) (cs : List Call)
    → IsBalanced (run (new_manager generation transmit) cs)
run-new_manager-IsBalanced generation transmit cs =
    run-IsBalanced _ cs (new_manager-IsBalanced generation transmit)

-- After any calls on a new manager, the frame credit and the byte credit of `snapshot` are what
-- the outstanding frames leave of 64 frames and 1 MiB, without a wrap, and its queued bytes are
-- the sizes of the frames that wait.
pub snapshot-run :
    (generation : Bytes) (transmit : List (Bytes × Bool) → Bytes → Bool) (cs : List Call)
    → let m = run (new_manager generation transmit) cs in
      ((snapshot m).frame_credit + length m.outstanding ≡ 64)
      × ((snapshot m).byte_credit + total_bytes m.outstanding ≡ 1048576)
      × ((snapshot m).queued_bytes ≡ total_bytes m.queued)
unfolding snapshot
snapshot-run generation transmit cs =
    let v = run-new_manager-IsBalanced generation transmit cs in
    (omega (arith, v.frames), omega (arith, v.bytes, v.byte_limit), v.waiting_bytes)

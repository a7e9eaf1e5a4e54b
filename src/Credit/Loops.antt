-- ===== src/Credit/Loops.antt =====
-- Rules for proofs about the loops of Drain and Acknowledge.
use wotex_matter.Base.{
  ◌+◌, ◌≤◌, ◌≡◌, ◌≢◌, refl, Bool, true, false, not, some, List, [], ◌∷◌, arith, Bytes, length,
  Bool-cases, Option-cases, inl, inr, if◌then◌else◌, if_cases, u64_max,
}
use wotex_matter.Credit.Table.{Stream, find}
use wotex_matter.Credit.State.{Frame, Manager, key, can_transmit}
use wotex_matter.Credit.Send.{transmit_frame, record_transmitted}
use wotex_matter.Credit.Cases.{transmit_frame_cases}
use wotex_matter.Credit.Settle.{
  DrainStep, continues, stops, fails, drop_pending, drain_result, take_pending, drain_live,
  drain_step, drain_loop, drain,
}

module _ {ℓ} (P : Manager × DrainStep → Type ℓ) (m : Manager) (pending : Frame)
    (rest : List Frame) where
  abbrev pending_key : Bytes
  pending_key = key pending.subscription_id pending.generation

  abbrev Taken : Stream → Type ℓ
  Taken stream =
      stream.live ≡ true
      → can_transmit m stream (length (pending.encode m.next_sequence) + 1) ≡ true
      → P (drain_result (transmit_frame (take_pending m pending rest pending_key stream) pending))

  live_cases :
      (stream : Stream)
      → stream.live ≡ true
      → P (m, stops)
      → Taken stream
      → P (drain_live m pending rest pending_key stream)
  unfolding drain_live
  live_cases stream live stopped taken =
      elim (Bool-cases (can_transmit m stream (length (pending.encode m.next_sequence) + 1))) [
        | inl c ↦ rw c (taken live c)
        | inr c ↦ rw c stopped
      ]

  found_cases :
      (stream : Stream)
      → P (drop_pending m pending rest, continues)
      → P (m, stops)
      → Taken stream
      → P (
          if not stream.live
          then (drop_pending m pending rest, continues)
          else drain_live m pending rest pending_key stream)
  found_cases stream dropped stopped taken =
      if_cases P (not stream.live) (λ dead. dropped)
        (λ live. live_cases stream (ground arith) stopped taken)

  pub drain_step_cases :
      P (drop_pending m pending rest, continues)
      → P (m, stops)
      → ((stream : Stream) → find pending_key m.streams ≡ some stream → Taken stream)
      → P (drain_step m pending rest)
  unfolding drain_step
  drain_step_cases dropped stopped taken = elim (Option-cases (find pending_key m.streams)) [
    | inl e ↦ rw (e, drain_step) dropped
    | inr (stream, e) ↦ rw (e, drain_step) (found_cases stream dropped stopped (taken stream e))
  ]

drain_result-queued :
    (r : Manager × Bool) (rest : List Frame) → r.0.queued ≡ rest → (drain_result r).0.queued ≡ rest
unfolding drain_result
drain_result-queued (m, true) rest h = h
drain_result-queued (m, false) rest h = h

stops-ne-continues : stops ≢ continues
stops-ne-continues e = cc

-- A transmission leaves the queue alone.
pub transmit_frame-queued :
    (m : Manager) (f : Frame)
    → m.next_sequence ≤ u64_max
    → m.cumulative_transmitted_bytes ≤ u64_max
    → (transmit_frame m f).0.queued ≡ m.queued
unfolding record_transmitted
transmit_frame-queued m f hs hc =
    transmit_frame_cases (λ r. r.0.queued ≡ m.queued) m f hs hc (λ calls. refl)
      (λ stream e calls cumulative s. refl)

-- A property that every round keeps, and that bounds the counters, holds when the loop ends.
module _ {ℓ} (Q : Manager → Type ℓ)
    (bounds : (m : Manager)
      → Q m
      → (m.next_sequence ≤ u64_max) × (m.cumulative_transmitted_bytes ≤ u64_max))
    (keeps : (m : Manager) (pending : Frame) (rest : List Frame)
      → m.queued ≡ pending ∷ rest
      → Q m
      → Q (drain_step m pending rest).0) where
  step-queued :
      (m : Manager) (pending : Frame) (rest : List Frame)
      → Q m
      → (drain_step m pending rest).1 ≡ continues
      → (drain_step m pending rest).0.queued ≡ rest
  unfolding take_pending drop_pending
  step-queued m pending rest q =
      drain_step_cases (λ r. r.1 ≡ continues → r.0.queued ≡ rest) m pending rest (λ e. refl)
        (λ e. absurd (stops-ne-continues e))
        (λ stream found live c e.
          drain_result-queued _ rest
            (transmit_frame-queued _ pending (bounds m q).0 (bounds m q).1))

  drain_loop_inv :
      (queue : List Frame) (m : Manager) → m.queued ≡ queue → Q m → Q (drain_loop queue m).0
  unfolding drain_loop
  drain_loop_inv [] m e q = q
  drain_loop_inv (pending ∷ rest) m e q =
      round (drain_loop_inv rest (drain_step m pending rest).0) (drain_step m pending rest).1 refl
    where
      next : Manager
      next = (drain_step m pending rest).0

      round :
          (next.queued ≡ rest → Q next → Q (drain_loop rest next).0)
          → (s : DrainStep) → (drain_step m pending rest).1 ≡ s
          → Q
              (elim s as (λ x. Manager × Bool) [
                | continues ↦ drain_loop rest next
                | stops ↦ (next, true)
                | fails ↦ (next, false)
              ]).0
      round ih continues h = ih (step-queued m pending rest q h) (keeps m pending rest e q)
      round ih stops h = keeps m pending rest e q
      round ih fails h = keeps m pending rest e q

  pub drain_inv : (m : Manager) → Q m → Q (drain m).0
  unfolding drain
  drain_inv m q = drain_loop_inv m.queued m refl q

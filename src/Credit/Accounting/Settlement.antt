-- ===== src/Credit/Accounting/Settlement.antt =====
-- Draining and acknowledging keep the books of ReportCreditManager.
use mathlib.Core.Path.{subst}
use wotex_matter.Base.{
  ℕ, ◌+◌, ◌≤◌, ◌<◌, ◌≡◌, refl, ap, Bool, true, false, none, some, List, [], ◌∷◌, arith, length, leb,
  ◌==◌, ◌||◌, not, is_empty, if◌then◌else◌, if_cases, sub64, Bool-cases, Option-cases, inl, inr,
}
use wotex_matter.Credit.Table.{Streams}
use wotex_matter.Credit.State.{Frame, Manager}
use wotex_matter.Credit.Settle.{
  drop_pending, drain_result, take_pending, drain_step, drain, find_sequence, acknowledge_frame,
  acknowledge_loop, acknowledge_through, acknowledge_target, acknowledge,
}
use wotex_matter.Credit.Loops.{drain_step_cases, drain_inv}
use wotex_matter.Credit.Accounting.{
  IsBalanced, Chain, total_bytes, frame_bytes, can_transmit-grants, transmit_frame-IsBalanced,
}

-- The front of the queue leaves with its reservation.
shorter-IsBalanced :
    (m : Manager) (streams : Streams) (pending : Frame) (rest : List Frame)
    → m.queued ≡ pending ∷ rest
    → IsBalanced m
    → IsBalanced (record m {
      streams = streams;
      queued = rest;
      queued_bytes = sub64 m.queued_bytes (frame_bytes pending);
    })
shorter-IsBalanced m streams pending rest e v =
    let total : total_bytes m.queued ≡ frame_bytes pending + total_bytes rest = ap total_bytes e in
    record {
      frames = v.frames;
      bytes = v.bytes;
      byte_limit = v.byte_limit;
      waiting = omega (arith, ap length e, v.waiting);
      waiting_bytes = omega (arith, total, v.waiting_bytes, v.waiting_limit);
      waiting_limit = omega (arith, total, v.waiting_bytes, v.waiting_limit);
      started = v.started;
      sequence_limit = v.sequence_limit;
      byte_count_limit = v.byte_count_limit;
      chain = v.chain;
    }

drain_result-IsBalanced : (r : Manager × Bool) → IsBalanced r.0 → IsBalanced (drain_result r).0
unfolding drain_result
drain_result-IsBalanced (m, true) v = v
drain_result-IsBalanced (m, false) v = v

drain_step-IsBalanced :
    (m : Manager) (pending : Frame) (rest : List Frame)
    → m.queued ≡ pending ∷ rest
    → IsBalanced m
    → IsBalanced (drain_step m pending rest).0
unfolding drop_pending take_pending
drain_step-IsBalanced m pending rest e v =
    drain_step_cases (λ r. IsBalanced r.0) m pending rest
      (shorter-IsBalanced m m.streams pending rest e v) v
      (λ stream found live c.
        let (room, fits, within) = can_transmit-grants m stream _ v.byte_limit c in
        drain_result-IsBalanced _
          (transmit_frame-IsBalanced _ pending (shorter-IsBalanced m _ pending rest e v) room fits))

pub drain-IsBalanced : (m : Manager) → IsBalanced m → IsBalanced (drain m).0
drain-IsBalanced =
    drain_inv IsBalanced (λ m v. (v.sequence_limit, v.byte_count_limit)) drain_step-IsBalanced

-- What is left of the outstanding frames after an acknowledgement.
abbrev pub drop_through : ℕ → List Frame → List Frame
drop_through n [] = []
drop_through n (f ∷ fs) = let rest = drop_through n fs in if leb f.sequence n then rest else f ∷ fs

length-drop_through-le : (n : ℕ) (fs : List Frame) → length (drop_through n fs) ≤ length fs
length-drop_through-le n [] = omega arith
length-drop_through-le n (f ∷ fs) = ground (arith, length-drop_through-le n fs)

total_bytes-drop_through-le :
    (n : ℕ) (fs : List Frame) → total_bytes (drop_through n fs) ≤ total_bytes fs
total_bytes-drop_through-le n [] = omega arith
total_bytes-drop_through-le n (f ∷ fs) = ground (arith, total_bytes-drop_through-le n fs)

-- Frames that follow an acknowledged number all stay, and none of them has it.
module _ (k s' b' : ℕ) where
  drop_through_later :
      (n b : ℕ) (fs : List Frame) → Chain n b fs s' b' → k ≤ n → drop_through k fs ≡ fs
  drop_through_later n b [] c h = refl
  drop_through_later n b (f ∷ fs) c h =
      ground (arith, drop_through_later f.sequence f.cumulative_bytes fs c.2 (omega arith))

  find_sequence_later :
      (n b : ℕ) (fs : List Frame) → Chain n b fs s' b' → k ≤ n → find_sequence k fs ≡ none
  unfolding find_sequence
  find_sequence_later n b [] c h = refl
  find_sequence_later n b (f ∷ fs) c h =
      ground (arith, find_sequence_later f.sequence f.cumulative_bytes fs c.2 (omega arith))

  -- Frames numbered in a row: those up to the target go, and the rest is numbered on from it.
  pub Chain-drop_through :
      (s b : ℕ) (fs : List Frame) (target : Frame)
      → Chain s b fs s' b'
      → find_sequence k fs ≡ some target
      → Chain k target.cumulative_bytes (drop_through k fs) s' b'
  unfolding find_sequence
  Chain-drop_through s b [] target c e = cc
  Chain-drop_through s b (f ∷ fs) target c e = elim (Bool-cases (f.sequence == k)) [
    | inl h ↦
        let here : f.sequence ≡ k = ground arith in
        let same : f ≡ target = ground arith in
        let stay : drop_through k (f ∷ fs) ≡ fs =
          ground (arith, drop_through_later f.sequence f.cumulative_bytes fs c.2 (omega arith)) in
        rw (stay, ← same, ← here) c.2
    | inr h ↦
        let before : leb f.sequence k ≡ true =
          ground (arith, find_sequence_later f.sequence f.cumulative_bytes fs c.2) in
        rw before (Chain-drop_through f.sequence f.cumulative_bytes fs target c.2 (ground arith))
  ]

-- What the loop of Acknowledge leaves.
abbrev Settled : Manager → Manager → ℕ → Type 0
Settled m n k =
    (n.outstanding ≡ drop_through k m.outstanding)
    × (n.outstanding_bytes ≡ total_bytes n.outstanding)
    × (n.queued ≡ m.queued)
    × (n.queued_bytes ≡ m.queued_bytes)
    × (n.next_sequence ≡ m.next_sequence)
    × (n.cumulative_transmitted_bytes ≡ m.cumulative_transmitted_bytes)

acknowledge_loop_settles :
    (k : ℕ) (fs : List Frame) (m : Manager)
    → m.outstanding ≡ fs
    → m.outstanding_bytes ≡ total_bytes fs
    → total_bytes fs ≤ 1048576
    → Settled m (acknowledge_loop k fs m) k
unfolding acknowledge_loop acknowledge_frame
acknowledge_loop_settles k [] m e b h = ground arith
acknowledge_loop_settles k (f ∷ fs) m e b h = ground (
  arith,
  acknowledge_loop_settles k fs (acknowledge_frame m f fs) refl (omega arith) (omega arith),
)

acknowledge_through-IsBalanced :
    (m : Manager) (k : ℕ) (target : Frame)
    → IsBalanced m
    → find_sequence k m.outstanding ≡ some target
    → IsBalanced (acknowledge_through m k target.cumulative_bytes)
unfolding acknowledge_through
acknowledge_through-IsBalanced m k target v e =
    let (left, bytes, queued, queued_bytes, next, cumulative) =
      acknowledge_loop_settles k m.outstanding m refl v.bytes (omega arith) in
    let chain = Chain-drop_through k _ _ _ _ m.outstanding target v.chain e in
    record {
      frames = rw left (omega (arith, length-drop_through-le k m.outstanding, v.frames));
      bytes = bytes;
      byte_limit = rw (bytes, left) (omega (arith, total_bytes-drop_through-le k m.outstanding));
      waiting = rw queued v.waiting;
      waiting_bytes = rw (queued, queued_bytes) v.waiting_bytes;
      waiting_limit = rw queued_bytes v.waiting_limit;
      started = rw next v.started;
      sequence_limit = rw next v.sequence_limit;
      byte_count_limit = rw cumulative v.byte_count_limit;
      chain = rw (left, next, cumulative) chain;
    }

-- How Acknowledge ends: refused with the state unchanged, or settled up to its target and drained.
pub acknowledge_cases {ℓ} :
    (P : Manager × Bool → Type ℓ) (m : Manager) (k bytes : ℕ)
    → P (m, false)
    → ((target : Frame)
        → m.acknowledged_sequence < k
        → find_sequence k m.outstanding ≡ some target
        → target.cumulative_bytes ≡ bytes
        → P (drain (acknowledge_through m k bytes)))
    → P (acknowledge m k bytes)
unfolding acknowledge acknowledge_target
acknowledge_cases P m k bytes refused accepted =
    if_cases P (leb k m.acknowledged_sequence || is_empty m.outstanding)
      {y = acknowledge_target m k bytes} (λ e. refused)
      λ e. elim (Option-cases (find_sequence k m.outstanding)) [
        | inl n ↦ rw (n, acknowledge_target) refused
        | inr (target, n) ↦
            rw (n, acknowledge_target)
              (if_cases P (not (target.cumulative_bytes == bytes)) (λ w. refused)
                (λ w. accepted target (ground arith) n (ground arith)))
      ]

-- Acknowledge keeps the books, whatever it answers.
pub acknowledge-IsBalanced :
    (m : Manager) (k bytes : ℕ) → IsBalanced m → IsBalanced (acknowledge m k bytes).0
acknowledge-IsBalanced m k bytes v =
    acknowledge_cases (λ r. IsBalanced r.0) m k bytes v
      λ target later found same. drain-IsBalanced _ (
        subst (λ b. IsBalanced (acknowledge_through m k b)) same
          (acknowledge_through-IsBalanced m k target v found))

-- ===== src/Credit/Retire.antt =====
-- ReportCreditManager::Retire, BeginRecovery and the queries (native/src/subscription.cpp).
use wotex_matter.Base.{
  ℕ, ◌+◌, Bool, true, false, not, ◌&&◌, ◌||◌, none, some, List, [], ◌∷◌, ◌++◌, ◌==◌, if◌then◌else◌,
  Bytes, eq_bytes, has_value, length, sub64,
}
use wotex_matter.Credit.Table.{Stream, find, update, erase}
use wotex_matter.Credit.State.{Frame, Manager, key, add_stream}
use wotex_matter.Credit.Settle.{drain}

-- The loop of Retire over `queued_`: the frames of the stream are erased, and each gives its
-- reservation and its place in the stream back.
unfoldable pub belongs : Bytes → ℕ → Frame → Bool
belongs subscription_id generation frame =
    eq_bytes frame.subscription_id subscription_id && frame.generation == generation

unfoldable pub kept : Bytes → ℕ → List Frame → List Frame
kept subscription_id generation [] = []
kept subscription_id generation (f ∷ fs) =
    let rest = kept subscription_id generation fs in
    if belongs subscription_id generation f then rest else f ∷ rest

unfoldable pub bytes_after : Bytes → ℕ → List Frame → ℕ → ℕ
bytes_after subscription_id generation [] bytes = bytes
bytes_after subscription_id generation (f ∷ fs) bytes =
    bytes_after subscription_id generation fs
      (if belongs subscription_id generation f then sub64 bytes (length f.encoded + 1) else bytes)

unfoldable pub queued_after : Bytes → ℕ → List Frame → ℕ → ℕ
queued_after subscription_id generation [] count = count
queued_after subscription_id generation (f ∷ fs) count =
    queued_after subscription_id generation fs
      (if belongs subscription_id generation f then sub64 count 1 else count)

-- Retire up to the transmission of the barrier.
unfoldable pub discard_queued : Manager → Bytes → ℕ → Stream → Manager
unfolding belongs kept bytes_after queued_after
discard_queued m subscription_id generation stream = record m {
  queued = kept subscription_id generation m.queued;
  queued_bytes = bytes_after subscription_id generation m.queued m.queued_bytes;
  streams =
      update (key subscription_id generation)
        (record stream {
          live = false;
          queued = queued_after subscription_id generation m.queued stream.queued;
        })
        m.streams;
}

unfoldable pub retire_on : Manager → Bytes → ℕ → Stream → Bytes → Manager × Bool
unfolding discard_queued
retire_on m subscription_id generation stream barrier =
    let discarded = discard_queued m subscription_id generation stream in
    let sent = m.transmit m.calls barrier in
    let called = record discarded { calls = m.calls ++ (barrier, sent) ∷ [] } in
    if not sent
    then (called, false)
    else drain (
        if stream.outstanding == 0
        then record called { streams = erase (key subscription_id generation) called.streams }
        else called)

unfoldable pub retire : Manager → Bytes → ℕ → Bytes → Manager × Bool
unfolding retire_on
retire m subscription_id generation barrier =
    elim (find (key subscription_id generation) m.streams) [
      | none ↦ (m, false)
      | some stream ↦
          if not stream.live
          then (m, false)
          else retire_on m subscription_id generation stream barrier
    ]

-- AddStream runs only if Retire succeeded.
unfoldable pub reopen : Manager × Bool → Bytes → ℕ → ℕ → Manager × Bool
unfolding add_stream
reopen (m, true) subscription_id generation queue_limit =
    add_stream m subscription_id generation queue_limit
reopen (m, false) subscription_id generation queue_limit = (m, false)

unfoldable pub begin_recovery : Manager → Bytes → ℕ → ℕ → ℕ → Bytes → Manager × Bool
unfolding reopen
begin_recovery m subscription_id previous_generation next_generation queue_limit barrier =
    if next_generation == 0
      || previous_generation == next_generation
      || has_value (find (key subscription_id next_generation) m.streams)
    then (m, false)
    else reopen (retire m subscription_id previous_generation barrier) subscription_id
        next_generation queue_limit

unfoldable pub is_live : Manager → Bytes → ℕ → Bool
is_live m subscription_id generation = elim (find (key subscription_id generation) m.streams) [
  | none ↦ false
  | some stream ↦ stream.live
]

unfoldable pub is_retired : Manager → Bytes → ℕ → Bool
is_retired m subscription_id generation = elim (find (key subscription_id generation) m.streams) [
  | none ↦ false
  | some stream ↦ not stream.live
]

unfoldable pub last_transmitted : Manager → Bytes → ℕ → ℕ
last_transmitted m subscription_id generation =
    elim (find (key subscription_id generation) m.streams) [
      | none ↦ 0
      | some stream ↦ stream.last_transmitted
    ]

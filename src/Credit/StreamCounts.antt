-- ===== src/Credit/StreamCounts.antt =====
-- The table of ReportCreditManager agrees with the frames held, stream by stream.
pub mod Keys
use mathlib.Core.Path.{subst}
use native.Mathlib.Nat.{add-zero}
use wotex_matter.Base.{
  ℕ, zero, suc, ◌+◌, ◌-◌, ◌*◌, ◌≤◌, ◌<◌, ◌≡◌, ◌⊎◌, refl, sym, ap, Bool, true, false, not, ◌||◌,
  Option, none, some, List, [], ◌∷◌, ◌++◌, arith, Bytes, length, eq_bytes, eq_bytes→eq,
  eq_bytes_refl, min, u64_max, ltb, leb, ◌==◌, if◌then◌else◌, if_cases, sub64, Bool-cases,
  Option-cases, inl, inr,
}
use wotex_matter.Credit.Table.{
  Stream, Streams, find, update, erase, update_cases, erase_cases, append_cases,
}
use wotex_matter.Credit.State.{Frame, Manager, key}
use wotex_matter.Credit.Send.{record_transmitted, record_queued, new_frame}
pub use Keys.{frame_key, key-injective}

-- How many of the frames belong to the stream of a key.
abbrev pub count : Bytes → List Frame → ℕ
count k [] = 0
count k (f ∷ fs) = (if eq_bytes (frame_key f) k then 1 else 0) + count k fs

-- The entry of a key against the frames that it has outstanding and waiting: the counters are
-- exact, the limits hold, and a retired stream has nothing waiting.
abbrev pub Agrees : Option Stream → ℕ → ℕ → Type 0
Agrees none outstanding queued = (outstanding ≡ 0) × (queued ≡ 0)
Agrees (some s) outstanding queued =
    (s.outstanding ≡ outstanding)
    × (s.queued ≡ queued)
    × (outstanding ≤ min 16 s.queue_limit)
    × (queued ≤ s.queue_limit)
    × (s.queue_limit ≤ 10000)
    × ((s.live ≡ true) ⊎ (queued ≡ 0))

abbrev pub Accounted : Manager → Type 0
Accounted m = (k : Bytes) → Agrees (find k m.streams) (count k m.outstanding) (count k m.queued)

pub count-append :
    (k : Bytes) (fs : List Frame) (f : Frame)
    → count k (fs ++ f ∷ []) ≡ count k fs + (if eq_bytes (frame_key f) k then 1 else 0)
count-append k [] f = omega arith
count-append k (x ∷ fs) f = omega (arith, count-append k fs f)

pub record_transmitted-Accounted :
    (m : Manager) (f : Frame) (stream : Stream) (encoded : Bytes) (cumulative : ℕ)
    → find (frame_key f) m.streams ≡ some stream
    → stream.outstanding < min 16 stream.queue_limit
    → Accounted m
    → Accounted (record_transmitted m f (frame_key f) stream encoded cumulative)
unfolding record_transmitted
record_transmitted-Accounted m f stream encoded cumulative found room a =
    let k = frame_key f in
    let sent =
      m.outstanding
      ++ (record f { sequence = m.next_sequence; encoded = encoded; cumulative_bytes = cumulative })
        ∷ [] in
    let old : Agrees (some stream) (count k m.outstanding) (count k m.queued) =
      subst (λ o. Agrees o (count k m.outstanding) (count k m.queued)) found (a k) in
    update_cases (λ j o. Agrees o (count j sent) (count j m.queued)) k m.streams stream _ found
      (rw (count-append, eq_bytes_refl k) (ground arith))
      (λ j e. rw (count-append, e, add-zero) (a j))

-- ===== src/Input/Stream.antt =====
-- BoundedInput neither loses nor makes up a byte.
use wotex_matter.Base.{
  ℕ, ◌≤◌, ◌<◌, ◌≡◌, ◌≢◌, ◌⊎◌, inl, inr, refl, sym, ◌∙◌, true, false, [], ◌∷◌, ◌++◌, ◌==◌, leb,
  leb→le, if_cases, length, length-append, All, All-append, Bytes, arith,
}
use mathlib.Core.List.{append_assoc, append-nil}
use mathlib.Core.Path.{subst}
use wotex_matter.Input.{
  Input, InputResult, line, waiting, end, invalid, Wake, nothing, failure, finished, bytes, Scan,
  found, too_long, exhausted, scan, scanned_again, scanned, refill, next, newline,
}

abbrev pub IsLine : Bytes → Type 0
IsLine l = All (λ b. b ≢ 10) l × (length l ≤ 131071)

-- The scan splits what was held and what was unread at the first newline, or keeps it whole.
abbrev Splits : Bytes → Scan → Type 0
Splits all (found l rest) = (all ≡ l ++ 10 ∷ rest) × IsLine l
Splits all (too_long partial rest) = length partial ≡ 131071
Splits all (exhausted partial) = (all ≡ partial) × IsLine partial

short_of : (n : ℕ) → leb 131071 n ≡ false → n < 131071
short_of n e = ground arith

scan-Splits :
    (unread partial : Bytes) → IsLine partial → Splits (partial ++ unread) (scan unread partial)
unfolding scan
scan-Splits [] partial h = (append-nil partial, h)
scan-Splits (b ∷ rest) partial h =
    if_cases (Splits (partial ++ b ∷ rest)) (b == newline)
      (λ e. let same : b ≡ 10 = ground arith in (rw same, h))
      λ e.
        if_cases (Splits (partial ++ b ∷ rest)) (leb 131071 (length partial))
          (λ long. omega (arith, leb→le _ _ long, h.1))
          λ short.
            let whole : partial ++ b ∷ rest ≡ (partial ++ b ∷ []) ++ rest =
              sym (append_assoc partial (b ∷ []) rest) in
            subst (λ x. Splits x (scan rest (partial ++ b ∷ []))) (sym whole)
              (scan-Splits rest (partial ++ b ∷ []) (
                All-append _ partial (b ∷ []) h.0 (ground arith, tt),
                omega (arith, length-append partial (b ∷ []), short_of _ short),
              ))

abbrev pub content : Input → Bytes
content i = i.partial ++ i.unread

abbrev pub delivered : Wake → Bytes
delivered (bytes b bs) = b ∷ bs
delivered nothing = []
delivered failure = []
delivered finished = []

-- The bytes that a call reads: none where the buffer already decides it.
abbrev pub read_after : Scan → Wake → Bytes
read_after (exhausted partial) wake = delivered wake
read_after (found l rest) wake = []
read_after (too_long partial rest) wake = []

abbrev pub read_by : Input → Wake → Bytes
read_by i wake = read_after (scan i.unread i.partial) wake

-- A valid input whose frame so far may begin a line.
abbrev pub IsReady : Input → Type 0
IsReady i = (i.is_valid ≡ true) × IsLine i.partial

-- What `next` leaves and answers, by the answer, from all the bytes it had.
abbrev pub Keeps : Bytes → Wake → Input → InputResult → Type 0
Keeps all wake i (line l) = IsReady i × IsLine l × (all ≡ l ++ 10 ∷ content i)
Keeps all wake i waiting = IsReady i × (all ≡ content i)
Keeps all wake i end = IsReady i × (all ≡ content i) × (all ≡ []) × (wake ≡ finished)
Keeps all wake i invalid = (length i.partial ≡ 131071) ⊎ ((wake ≡ failure) ⊎ (wake ≡ finished))

scanned_again-Keeps :
    (all : Bytes) (wake : Wake) (s : Scan)
    → Splits all s
    → Keeps all wake (scanned_again s).0 (scanned_again s).1
unfolding scanned_again
scanned_again-Keeps all wake (found l rest) h = ((refl, (tt, omega arith)), h.1, h.0)
scanned_again-Keeps all wake (too_long partial rest) h = inl h
scanned_again-Keeps all wake (exhausted partial) h = ((refl, h.1), h.0 ∙ sym (append-nil partial))

refill-Keeps :
    (partial : Bytes) (wake : Wake)
    → IsLine partial
    → Keeps (partial ++ delivered wake) wake (refill partial wake).0 (refill partial wake).1
unfolding refill
refill-Keeps partial nothing h = ((refl, h), refl)
refill-Keeps partial failure h = inr (inl refl)
refill-Keeps [] finished h = ((refl, h), refl, refl, refl)
refill-Keeps (b ∷ bs) finished h = inr (inr refl)
refill-Keeps partial (bytes b bs) h =
    scanned_again-Keeps _ (bytes b bs) _ (scan-Splits (b ∷ bs) partial h)

scanned-Keeps :
    (before : Bytes) (wake : Wake) (s : Scan)
    → Splits before s
    → Keeps (before ++ read_after s wake) wake (scanned s wake).0 (scanned s wake).1
unfolding scanned
scanned-Keeps before wake (found l rest) h =
    subst (λ all. Keeps all wake (scanned_again (found l rest)).0 (scanned_again (found l rest)).1)
      (sym (append-nil before)) (scanned_again-Keeps before wake (found l rest) h)
scanned-Keeps before wake (too_long partial rest) h =
    scanned_again-Keeps before wake (too_long partial rest) h
scanned-Keeps before wake (exhausted partial) h =
    subst (λ x. Keeps (x ++ delivered wake) wake (refill partial wake).0 (refill partial wake).1)
      (sym h.0) (refill-Keeps partial wake h.1)

-- Let the input be valid, and the frame held so far have no newline and at most 131071 bytes.
-- However poll and read answer, `next` loses and makes up no byte: a line that it returns has no
-- newline and at most 131071 bytes, and line, newline and what is left are together what was held
-- and what the call read; when it waits, it keeps all of that. It answers `end` only when nothing
-- was held and the stream is finished, and `invalid` only when the frame is 131071 bytes long, the
-- system reports an error, or the stream is finished. Unless it answers `invalid`, the input stays
-- valid with such a frame.
pub next-Keeps :
    (i : Input) (wake : Wake)
    → IsReady i
    → Keeps (content i ++ read_by i wake) wake (next i wake).0 (next i wake).1
unfolding next
next-Keeps i wake (v, h) =
    rw v (scanned-Keeps (content i) wake _ (scan-Splits i.unread i.partial h))

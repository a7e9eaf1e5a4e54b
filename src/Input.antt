-- ===== src/Input.antt =====
-- BoundedInput of native/include/wotex_matter/input.hpp: lines of a byte stream, read in chunks. The
-- bytes of `buffer_` from `offset_` to `size_` are the list `unread`; poll and read are the operating
-- system's, and their answer is an argument.
pub mod Stream
pub mod Session
use wotex_matter.Base.{
  ℕ, Bool, true, false, not, List, [], ◌∷◌, ◌++◌, ◌==◌, leb, ◌-◌, if◌then◌else◌, length, is_empty,
  Bytes,
}

abbrev pub maximum_frame_bytes : ℕ
maximum_frame_bytes = 131072

abbrev pub newline : ℕ
newline = 10

pub record Input : Type 0 where
  pub is_valid : Bool
  pub unread : Bytes
  pub partial : Bytes

pub data InputResult : Type 0 where
  line : Bytes → InputResult
  waiting end invalid : InputResult

-- What poll and read answer: nothing yet (a timeout, an interruption, a read that would block), an
-- error, the end of the stream, or one or more bytes.
pub data Wake : Type 0 where
  nothing failure finished : Wake
  bytes : ℕ → Bytes → Wake

-- How the inner loop over the buffer ends: a line and the rest, a frame that is too long and the rest,
-- or an empty buffer; with the frame so far.
pub data Scan : Type 0 where
  found : Bytes → Bytes → Scan
  too_long : Bytes → Bytes → Scan
  exhausted : Bytes → Scan

unfoldable pub scan : Bytes → Bytes → Scan
scan [] partial = exhausted partial
scan (byte ∷ rest) partial =
    let more = scan rest (partial ++ byte ∷ []) in
    if byte == newline
    then found partial rest
    else if leb (maximum_frame_bytes - 1) (length partial)
    then too_long partial rest
    else more

unfoldable pub scanned_again : Scan → Input × InputResult
scanned_again (found l rest) = (record { is_valid = true; unread = rest; partial = [] }, line l)
scanned_again (too_long partial rest) =
    (record { is_valid = false; unread = rest; partial = partial }, invalid)
scanned_again (exhausted partial) =
    (record { is_valid = true; unread = []; partial = partial }, waiting)

-- The buffer is empty: poll, read, and scan once more.
unfoldable pub refill : Bytes → Wake → Input × InputResult
unfolding scanned_again scan
refill partial nothing = (record { is_valid = true; unread = []; partial = partial }, waiting)
refill partial failure = (record { is_valid = true; unread = []; partial = partial }, invalid)
refill partial finished = (
  record { is_valid = true; unread = []; partial = partial },
  (if is_empty partial then end else invalid),
)
refill partial (bytes b bs) = scanned_again (scan (b ∷ bs) partial)

unfoldable pub scanned : Scan → Wake → Input × InputResult
unfolding refill scanned_again
scanned (found l rest) wake = scanned_again (found l rest)
scanned (too_long partial rest) wake = scanned_again (too_long partial rest)
scanned (exhausted partial) wake = refill partial wake

unfoldable pub next : Input → Wake → Input × InputResult
unfolding scanned
next i wake = if i.is_valid then scanned (scan i.unread i.partial) wake else (i, invalid)

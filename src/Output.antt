-- ===== src/Output.antt =====
-- BoundedOutput of native/src/protocol.cpp: frames of three classes wait for one writer thread,
-- within limits on the frames and the bytes retained per class. Each operation is one section
-- under the mutex; the writer's are `take_pending` and `finish_write`. What the stream answers to a
-- write is an argument, and `failures` counts the calls of the callback failure_.
pub mod Limits
pub mod Order
use wotex_matter.Base.{
  ℕ, ◌+◌, ◌-◌, ◌*◌, Bool, true, false, not, ◌||◌, List, [], ◌∷◌, ◌++◌, Option, none, some, length,
  is_empty, has_value, ltb, leb, if◌then◌else◌, Bytes,
}

pub data Class : Type 0 where
  report control reply : Class

pub record PendingOutput : Type 0 where
  pub frame : Bytes
  pub classification : Class

-- Frames and bytes retained.
pub record Usage : Type 0 where
  pub frames : ℕ
  pub retained : ℕ

pub record Output : Type 0 where
  pub pending : List PendingOutput
  pub in_flight : Option PendingOutput
  pub reports : Usage
  pub controls : Usage
  pub replies : Usage
  pub is_healthy : Bool
  pub is_stopping : Bool
  pub failures : ℕ

abbrev pub no_usage : Usage
no_usage = record { frames = 0; retained = 0 }

unfoldable pub new_output : Output
new_output = record {
  pending = [];
  in_flight = none;
  reports = no_usage;
  controls = no_usage;
  replies = no_usage;
  is_healthy = true;
  is_stopping = false;
  failures = 0;
}

abbrev pub maximum_frames : Class → ℕ
maximum_frames report = 64
maximum_frames control = 256
maximum_frames reply = 64

abbrev pub maximum_bytes : Class → ℕ
maximum_bytes report = 1048576
maximum_bytes control = 1048576
maximum_bytes reply = 8388608

abbrev pub maximum_frame_bytes : Class → ℕ
maximum_frame_bytes report = 131072
maximum_frame_bytes control = 4096
maximum_frame_bytes reply = 131072

abbrev pub select {ℓ} : {A : Type ℓ} → Class → A → A → A → A
select report x y z = x
select control x y z = y
select reply x y z = z

abbrev pub usage : Class → Output → Usage
usage c o = select c o.reports o.controls o.replies

abbrev pub set_usage : Class → Usage → Output → Output
set_usage c u o = record o {
  reports = select c u o.reports o.reports;
  controls = select c o.controls u o.controls;
  replies = select c o.replies o.replies u;
}

unfoldable pub fail : Output → Output
fail o = if not o.is_healthy then o else record o {
  is_healthy = false;
  is_stopping = true;
  pending = [];
  failures = o.failures + 1;
}

-- The counters of a class with one more frame.
unfoldable pub charge : PendingOutput → Output → Output
charge p o =
    let u = usage p.classification o in
    set_usage p.classification
      (record { frames = u.frames + 1; retained = u.retained + (length p.frame + 1) }) o

-- The limits that a new frame would break.
unfoldable pub exceeds : PendingOutput → Output → Bool
exceeds p o =
    let u = usage p.classification o in
    let limit = maximum_bytes p.classification in
    leb (maximum_frames p.classification) u.frames
    || ltb limit u.retained
    || ltb (limit - u.retained) (length p.frame + 1)

unfoldable pub enqueue : PendingOutput → Output → Output × Bool
unfolding fail charge exceeds
enqueue p o =
    if not o.is_healthy || o.is_stopping
    then (o, false)
    else if (is_empty p.frame || leb (maximum_frame_bytes p.classification) (length p.frame))
        || exceeds p o
    then (fail o, false)
    else (charge p (record o { pending = o.pending ++ p ∷ [] }), true)

unfoldable pub stop : Output → Output
stop o = record o { is_stopping = true }

unfoldable pub take_front : List PendingOutput → Output → Output
take_front [] o = o
take_front (p ∷ ps) o = record o { pending = ps; in_flight = some p }

-- The writer moves the front of the queue to its local variable, unless it is writing; with an empty
-- queue it waits or returns.
unfoldable pub take_pending : Output → Output
unfolding take_front
take_pending o = if has_value o.in_flight then o else take_front o.pending o

unfoldable pub release : PendingOutput → Output → Output
release p o =
    let u = usage p.classification o in
    set_usage p.classification
      (record { frames = u.frames - 1; retained = u.retained - (length p.frame + 1) }) o

unfoldable pub settle : Option PendingOutput → Bool → Output → Output
unfolding fail release
settle none written o = o
settle (some p) written o =
    let settled = release p (record o { in_flight = none }) in
    if written then settled else fail settled

-- The writer has written its frame, or has failed to.
unfoldable pub finish_write : Bool → Output → Output
unfolding settle
finish_write written o = settle o.in_flight written o

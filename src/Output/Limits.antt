-- ===== src/Output/Limits.antt =====
-- The counters of BoundedOutput and its limits.
use wotex_matter.Base.{
  ℕ, ◌+◌, ◌*◌, ◌≤◌, ◌≡◌, refl, Bool, true, false, not, ◌||◌, List, [], ◌∷◌, ◌++◌, Option, none,
  some, length, is_empty, has_value, leb, if_cases, Bytes, arith,
}
use mathlib.Core.Path.{subst, sym, ap, ◌∙◌}
use mathlib.Core.List.{append_assoc}
use wotex_matter.Output.{
  Class, report, control, reply, PendingOutput, Usage, Output, new_output, maximum_frames,
  maximum_bytes, maximum_frame_bytes, usage, fail, charge, exceeds, enqueue, stop, take_front,
  take_pending, release, settle, finish_write,
}

-- A call of one of the operations; the two of the writer stand for its steps.
pub data Call : Type 0 where
  enqueue_frame : PendingOutput → Call
  stop_output writer_takes : Call
  writer_finishes : Bool → Call

abbrev pub step : Call → Output → Output
step (enqueue_frame p) o = (enqueue p o).0
step stop_output o = stop o
step writer_takes o = take_pending o
step (writer_finishes written) o = finish_write written o

abbrev pub run : List Call → Output → Output
run [] o = o
run (c ∷ cs) o = run cs (step c o)

abbrev pub frames_in : Class → PendingOutput → ℕ
frames_in report p = elim p.classification [ report ↦ 1 | _ ↦ 0 ]
frames_in control p = elim p.classification [ control ↦ 1 | _ ↦ 0 ]
frames_in reply p = elim p.classification [ reply ↦ 1 | _ ↦ 0 ]

abbrev pub frames_of : Class → List PendingOutput → ℕ
frames_of c [] = 0
frames_of c (p ∷ ps) = frames_in c p + frames_of c ps

abbrev pub bytes_of : Class → List PendingOutput → ℕ
bytes_of c [] = 0
bytes_of c (p ∷ ps) = frames_in c p * (length p.frame + 1) + bytes_of c ps

-- The frames that were accepted and are not written: the writer's, then the queue.
abbrev pub in_writer : Option PendingOutput → List PendingOutput
in_writer none = []
in_writer (some p) = p ∷ []

abbrev pub held : Output → List PendingOutput
held o = in_writer o.in_flight ++ o.pending

frames_of-append :
    (c : Class) (xs ys : List PendingOutput)
    → frames_of c (xs ++ ys) ≡ frames_of c xs + frames_of c ys
frames_of-append c [] ys = omega arith
frames_of-append c (x ∷ xs) ys = omega (arith, frames_of-append c xs ys)

bytes_of-append :
    (c : Class) (xs ys : List PendingOutput) → bytes_of c (xs ++ ys) ≡ bytes_of c xs + bytes_of c ys
bytes_of-append c [] ys = omega arith
bytes_of-append c (x ∷ xs) ys = omega (arith, bytes_of-append c xs ys)

-- The counters cover what is held, are what is held while the output is healthy, and are in limits.
abbrev pub Fits : Bool → Usage → ℕ → ℕ → Class → Type 0
Fits healthy u frames bytes c =
    (frames ≤ u.frames)
    × (bytes ≤ u.retained)
    × (u.frames ≤ maximum_frames c)
    × (u.retained ≤ maximum_bytes c)
    × (healthy ≡ true → (u.frames ≡ frames) × (u.retained ≡ bytes))

abbrev pub IsWithin : Output → Type 0
IsWithin o =
    (c : Class) → Fits o.is_healthy (usage c o) (frames_of c (held o)) (bytes_of c (held o)) c

abbrev of : Class → Bytes → PendingOutput
of k f = record { frame = f; classification = k }

-- A frame more in the counters of its class, where it breaks no limit.
charge-Fits :
    (k : Class) (f : Bytes) (o : Output) (c : Class) (frames bytes : ℕ)
    → exceeds (of k f) o ≡ false
    → Fits true (usage c o) frames bytes c
    → Fits true
        (usage c (charge (of k f) o))
        (frames + (frames_in c (of k f) + 0))
        (bytes + (frames_in c (of k f) * (length f + 1) + 0))
        c
unfolding charge exceeds
charge-Fits report f o report n m e h = ground arith
charge-Fits report f o control n m e h = ground arith
charge-Fits report f o reply n m e h = ground arith
charge-Fits control f o report n m e h = ground arith
charge-Fits control f o control n m e h = ground arith
charge-Fits control f o reply n m e h = ground arith
charge-Fits reply f o report n m e h = ground arith
charge-Fits reply f o control n m e h = ground arith
charge-Fits reply f o reply n m e h = ground arith

-- A frame less.
release-Fits :
    (k : Class) (f : Bytes) (o : Output) (c : Class) (healthy : Bool) (frames bytes : ℕ)
    → Fits healthy
        (usage c o)
        (frames_in c (of k f) + frames)
        (frames_in c (of k f) * (length f + 1) + bytes)
        c
    → Fits healthy (usage c (release (of k f) o)) frames bytes c
unfolding release
release-Fits report f o report healthy n m h = ground arith
release-Fits report f o control healthy n m h = ground arith
release-Fits report f o reply healthy n m h = ground arith
release-Fits control f o report healthy n m h = ground arith
release-Fits control f o control healthy n m h = ground arith
release-Fits control f o reply healthy n m h = ground arith
release-Fits reply f o report healthy n m h = ground arith
release-Fits reply f o control healthy n m h = ground arith
release-Fits reply f o reply healthy n m h = ground arith

fail-IsWithin : (o : Output) → IsWithin o → IsWithin (fail o)
unfolding fail
fail-IsWithin o h =
    if_cases IsWithin (not o.is_healthy) (λ _. h)
      λ _. λ c.
        let f = frames_of-append c (in_writer o.in_flight) o.pending in
        let b = bytes_of-append c (in_writer o.in_flight) o.pending in
        let f0 = frames_of-append c (in_writer o.in_flight) [] in
        let b0 = bytes_of-append c (in_writer o.in_flight) [] in
        (omega (arith, f, f0, (h c).0), omega (arith, b, b0, (h c).1), (h c).2, (h c).3, λ e. cc e)

enqueue_held :
    (o : Output) (p : PendingOutput)
    → in_writer o.in_flight ++ (o.pending ++ p ∷ []) ≡ held o ++ p ∷ []
enqueue_held o p = sym (append_assoc (in_writer o.in_flight) o.pending (p ∷ []))

enqueue-IsWithin : (p : PendingOutput) (o : Output) → IsWithin o → IsWithin (enqueue p o).0
unfolding enqueue
enqueue-IsWithin p o h =
    if_cases (λ (r : Output × Bool). IsWithin r.0) (not o.is_healthy || o.is_stopping) (λ _. h)
      λ live.
        if_cases (λ (r : Output × Bool). IsWithin r.0)
          ((is_empty p.frame || leb (maximum_frame_bytes p.classification) (length p.frame))
            || exceeds p o)
          (λ _. fail-IsWithin o h)
          λ fits c.
            let healthy : o.is_healthy ≡ true = ground arith in
            let in_limits : exceeds p o ≡ false = ground arith in
            let more =
              charge-Fits p.classification p.frame (record o { pending = o.pending ++ p ∷ [] }) c _
                _ in_limits
                (subst (λ b. Fits b (usage c o) (frames_of c (held o)) (bytes_of c (held o)) c)
                  healthy (h c)) in
            let held_more = enqueue_held o p in
            let frames_more = frames_of-append c (held o) (p ∷ []) in
            let bytes_more = bytes_of-append c (held o) (p ∷ []) in
            rw (held_more, frames_more, bytes_more, healthy) more

take_front-IsWithin :
    (ps : List PendingOutput) (o : Output)
    → o.pending ≡ ps
    → o.in_flight ≡ none
    → IsWithin o
    → IsWithin (take_front ps o)
unfolding take_front
take_front-IsWithin [] o e f h c = h c
take_front-IsWithin (p ∷ ps) o e f h c =
    let same : held o ≡ p ∷ ps = ap (λ x. in_writer x ++ o.pending) f ∙ e in
    subst (λ xs. Fits o.is_healthy (usage c o) (frames_of c xs) (bytes_of c xs) c) same (h c)

pub none_of : (x : Option PendingOutput) → has_value x ≡ false → x ≡ none
none_of none e = refl
none_of (some p) e = cc e

take_pending-IsWithin : (o : Output) → IsWithin o → IsWithin (take_pending o)
unfolding take_pending
take_pending-IsWithin o h =
    if_cases IsWithin (has_value o.in_flight) (λ _. h)
      λ idle. take_front-IsWithin o.pending o refl (none_of o.in_flight idle) h

release-IsWithin :
    (p : PendingOutput) (o : Output)
    → o.in_flight ≡ some p
    → IsWithin o
    → IsWithin (release p (record o { in_flight = none }))
unfolding release
release-IsWithin p o e h c =
    release-Fits p.classification p.frame (record o { in_flight = none }) c o.is_healthy
      (frames_of c o.pending) (bytes_of c o.pending)
      (subst
        (λ x.
          Fits o.is_healthy (usage c o) (frames_of c (in_writer x ++ o.pending))
            (bytes_of c (in_writer x ++ o.pending)) c)
        e (h c))

settle-IsWithin :
    (x : Option PendingOutput) (written : Bool) (o : Output)
    → o.in_flight ≡ x
    → IsWithin o
    → IsWithin (settle x written o)
unfolding settle
settle-IsWithin none written o e h = h
settle-IsWithin (some p) written o e h =
    if_cases IsWithin written (λ _. release-IsWithin p o e h)
      λ _. fail-IsWithin _ (release-IsWithin p o e h)

step-IsWithin : (c : Call) (o : Output) → IsWithin o → IsWithin (step c o)
unfolding stop finish_write
step-IsWithin (enqueue_frame p) o h = enqueue-IsWithin p o h
step-IsWithin stop_output o h = h
step-IsWithin writer_takes o h = take_pending-IsWithin o h
step-IsWithin (writer_finishes written) o h = settle-IsWithin o.in_flight written o refl h

run-IsWithin : (cs : List Call) (o : Output) → IsWithin o → IsWithin (run cs o)
run-IsWithin [] o h = h
run-IsWithin (c ∷ cs) o h = run-IsWithin cs (step c o) (step-IsWithin c o h)

new_output-IsWithin : IsWithin new_output
unfolding new_output
new_output-IsWithin report = ground arith
new_output-IsWithin control = ground arith
new_output-IsWithin reply = ground arith

-- After any sequence of enqueued frames, steps of the writer and `stop`, from a new output: for each
-- class, the counters of frames and of bytes are at least what the queue and the writer hold (so
-- the writer's subtractions do not wrap), are exactly that while the output is healthy, and are at
-- most the limits of the class.
pub run-new_output-IsWithin : (cs : List Call) → IsWithin (run cs new_output)
run-new_output-IsWithin cs = run-IsWithin cs new_output new_output-IsWithin

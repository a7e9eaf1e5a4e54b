-- ===== src/Output/Order.antt =====
-- The order in which BoundedOutput writes what it accepted.
use wotex_matter.Base.{
  ◌≡◌, refl, sym, ap, ◌∙◌, Bool, true, false, not, ◌||◌, List, [], ◌∷◌, ◌++◌, Option, none, some,
  length, is_empty, has_value, leb, if◌then◌else◌, if_cases, arith,
}
use mathlib.Core.Path.{subst}
use mathlib.Core.List.{append_assoc, append-nil}
use wotex_matter.Output.{
  PendingOutput, Output, new_output, maximum_frame_bytes, fail, charge, exceeds, enqueue, stop,
  take_front, take_pending, release, settle, finish_write,
}
use wotex_matter.Output.Limits.{
  Call, enqueue_frame, stop_output, writer_takes, writer_finishes, step, in_writer, held, none_of,
}

-- The state with what the calls so far accepted and what the writer wrote.
pub record Trace : Type 0 where
  pub output : Output
  pub accepted : List PendingOutput
  pub written : List PendingOutput

abbrev pub newly_accepted : Call → Output → List PendingOutput
newly_accepted (enqueue_frame p) o = if (enqueue p o).1 then p ∷ [] else []
newly_accepted stop_output o = []
newly_accepted writer_takes o = []
newly_accepted (writer_finishes w) o = []

abbrev pub newly_written : Call → Output → List PendingOutput
newly_written (enqueue_frame p) o = []
newly_written stop_output o = []
newly_written writer_takes o = []
newly_written (writer_finishes w) o = if w then in_writer o.in_flight else []

abbrev pub observe : List Call → Trace → Trace
observe [] t = t
observe (c ∷ cs) t = observe cs (record {
  output = step c t.output;
  accepted = t.accepted ++ newly_accepted c t.output;
  written = t.written ++ newly_written c t.output;
})

abbrev InOrder : Output → List PendingOutput → List PendingOutput → Type 0
InOrder o accepted written =
    (dropped : List PendingOutput) × (accepted ≡ written ++ (held o ++ dropped))
    × (o.is_healthy ≡ true → dropped ≡ [])
    × (o.is_healthy ≡ false → o.pending ≡ [])

fail-InOrder : (o : Output) (a w : List PendingOutput) → InOrder o a w → InOrder (fail o) a w
unfolding fail
fail-InOrder o a w h =
    if_cases (λ x. InOrder x a w) (not o.is_healthy) (λ _. h)
      λ _. (o.pending ++ h.0, h.1 ∙ simp (append_assoc, append-nil), λ e. cc e, λ _. refl)

enqueue-InOrder :
    (p : PendingOutput) (o : Output) (a w : List PendingOutput)
    → InOrder o a w
    → InOrder (enqueue p o).0 (a ++ (if (enqueue p o).1 then p ∷ [] else [])) w
unfolding enqueue charge
enqueue-InOrder p o a w h =
    let as_before : InOrder o (a ++ []) w = subst (λ x. InOrder o x w) (sym (append-nil a)) h in
    let Good : Output × Bool → Type 0 = λ r. InOrder r.0 (a ++ (if r.1 then p ∷ [] else [])) w in
    if_cases Good (not o.is_healthy || o.is_stopping) (λ _. as_before)
      λ live.
        if_cases Good
          ((is_empty p.frame || leb (maximum_frame_bytes p.classification) (length p.frame))
            || exceeds p o)
          (λ _. fail-InOrder o (a ++ []) w as_before)
          λ _.
            let healthy : o.is_healthy ≡ true = ground arith in
            let all : a ≡ w ++ (held o ++ []) =
              subst (λ d. a ≡ w ++ (held o ++ d)) (h.2 healthy) h.1 in
            (
              [],
              rw all (simp (append_assoc, append-nil)),
              λ _. refl,
              λ unhealthy. cc (healthy, unhealthy),
            )

take_front-InOrder :
    (ps : List PendingOutput) (o : Output) (a w : List PendingOutput)
    → o.pending ≡ ps
    → o.in_flight ≡ none
    → InOrder o a w
    → InOrder (take_front ps o) a w
unfolding take_front
take_front-InOrder [] o a w e f h = h
take_front-InOrder (p ∷ ps) o a w e f h =
    let same : held o ≡ p ∷ ps = ap (λ x. in_writer x ++ o.pending) f ∙ e in
    (h.0, subst (λ xs. a ≡ w ++ (xs ++ h.0)) same h.1, h.2, λ unhealthy. cc (sym e ∙ h.3 unhealthy))

settle-InOrder :
    (x : Option PendingOutput) (written : Bool) (o : Output) (a w : List PendingOutput)
    → o.in_flight ≡ x
    → InOrder o a w
    → InOrder (settle x written o) a (w ++ (if written then in_writer x else []))
unfolding settle release fail
settle-InOrder none true o a w e h = subst (λ y. InOrder o a y) (sym (append-nil w)) h
settle-InOrder none false o a w e h = subst (λ y. InOrder o a y) (sym (append-nil w)) h
settle-InOrder (some p) true o a w e h =
    let same : held o ≡ p ∷ o.pending = ap (λ y. in_writer y ++ o.pending) e in
    (h.0, h.1 ∙ rw same (simp append_assoc), h.2, h.3)
settle-InOrder (some p) false o a w e h =
    let same : held o ≡ p ∷ o.pending = ap (λ y. in_writer y ++ o.pending) e in
    let kept : a ≡ (w ++ []) ++ (p ∷ (o.pending ++ h.0)) =
      subst (λ xs. a ≡ w ++ (xs ++ h.0)) same h.1 ∙ simp append-nil in
    if_cases (λ x. InOrder x a (w ++ [])) (not o.is_healthy)
      (λ unhealthy.
        let empty : o.pending ≡ [] = h.3 (ground arith) in
        (
          p ∷ h.0,
          subst (λ xs. a ≡ (w ++ []) ++ (p ∷ (xs ++ h.0))) empty kept ∙ simp empty refl,
          λ healthy. cc (unhealthy, healthy),
          λ _. empty,
        ))
      λ _. (p ∷ (o.pending ++ h.0), kept, λ never. cc never, λ _. refl)

step-InOrder :
    (c : Call) (o : Output) (a w : List PendingOutput)
    → InOrder o a w
    → InOrder (step c o) (a ++ newly_accepted c o) (w ++ newly_written c o)
unfolding stop take_pending finish_write
step-InOrder (enqueue_frame p) o a w h =
    subst (λ y. InOrder (enqueue p o).0 (a ++ newly_accepted (enqueue_frame p) o) y)
      (sym (append-nil w)) (enqueue-InOrder p o a w h)
step-InOrder stop_output o a w h = rw (append-nil a, append-nil w) h
step-InOrder writer_takes o a w h =
    rw (append-nil a, append-nil w)
      (if_cases (λ x. InOrder x a w) (has_value o.in_flight) (λ _. h)
        λ idle. take_front-InOrder o.pending o a w refl (none_of o.in_flight idle) h)
step-InOrder (writer_finishes written) o a w h =
    rw (append-nil a) (settle-InOrder o.in_flight written o a w refl h)

observe-InOrder :
    (cs : List Call) (t : Trace)
    → InOrder t.output t.accepted t.written
    → InOrder (observe cs t).output (observe cs t).accepted (observe cs t).written
observe-InOrder [] t h = h
observe-InOrder (c ∷ cs) t h = observe-InOrder cs _ (step-InOrder c t.output t.accepted t.written h)

abbrev pub new_trace : Trace
new_trace = record { output = new_output; accepted = []; written = [] }

-- After any sequence of enqueued frames, steps of the writer and `stop`, from a new output: the
-- frames written, those the writer and the queue hold, and the dropped ones are together the frames
-- accepted, in the order of acceptance; while the output is healthy none is dropped.
pub observe-new_trace-order :
    (cs : List Call)
    → let t = observe cs new_trace in
      (dropped : List PendingOutput) × (t.accepted ≡ t.written ++ (held t.output ++ dropped))
      × (t.output.is_healthy ≡ true → dropped ≡ [])
unfolding new_output
observe-new_trace-order cs =
    let h = observe-InOrder cs new_trace ([], refl, λ _. refl, λ _. refl) in (h.0, h.1, h.2)

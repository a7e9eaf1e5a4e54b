-- ===== src/Examples/Channel.antt =====
-- The channel to the host on concrete data: lines that arrive, JSON events, and frames that go out.
use wotex_matter.Base.{
  ℕ, ◌+◌, ◌≤◌, ◌≡◌, ◌≢◌, refl, Bool, true, false, List, [], ◌∷◌, ◌++◌, none, some, length, All,
  Bytes, arith,
}
use wotex_matter.Input.{Input, Wake, next}
use wotex_matter.Input.Stream.{Keeps, content, read_by, IsReady, next-Keeps}
use wotex_matter.Input.Session.{Conserves, serve, serve-Conserves}
use wotex_matter.Sax.{
  Event, start_object, end_object, start_array, end_array, scalar, key, on_events, on_event, value,
  start_collection, end_collection, on_key, new_sax,
}
use wotex_matter.Sax.Levels.{
  array_level, object_level, levels, node_count, IsSmall, on_events-IsWithin,
}
use wotex_matter.Output.{Class, PendingOutput, new_output}
use wotex_matter.Output.Limits
use wotex_matter.Output.Order

-- Half a line is held, and the rest of it arrives with the start of another.
abbrev half_read : Input
half_read = record { is_valid = true; unread = []; partial = b'a' ∷ b'b' ∷ [] }

abbrev arrival : Wake
arrival = Wake.bytes b'c' (10 ∷ b'd' ∷ [])

half_read-IsReady : IsReady half_read
half_read-IsReady = (refl, ((ground arith, (ground arith, tt)), omega arith))

next-Keeps_example :
    Keeps
      (content half_read ++ read_by half_read arrival)
      arrival
      (next half_read arrival).0
      (next half_read arrival).1
next-Keeps_example = next-Keeps half_read arrival half_read-IsReady

abbrev wakes : List Wake
wakes = arrival ∷ Wake.nothing ∷ Wake.bytes 10 [] ∷ Wake.finished ∷ []

serve-Conserves_example : Conserves half_read (serve wakes half_read)
serve-Conserves_example = serve-Conserves wakes half_read half_read-IsReady

abbrev document : List Event
document =
    start_object ∷ key (b'a' ∷ []) ∷ scalar ∷ key (b'b' ∷ []) ∷ start_array ∷ scalar ∷ scalar ∷ []

-- The events after which the document is closed.
abbrev document_end : List Event
document_end = end_array ∷ end_object ∷ []

document-accepted : (on_events (document ++ document_end) new_sax).1 ≡ true
unfolding on_events on_event value start_collection end_collection on_key wotex_matter.Base.eq_bytes
document-accepted = refl

on_events-IsWithin_example :
    (node_count document ≤ 4096)
    × (length (levels document []) ≤ 24)
    × All IsSmall (levels document [])
on_events-IsWithin_example = on_events-IsWithin document document_end document-accepted

-- At that moment an array with two entries stands in an object with two keys.
levels_of_document :
    levels document [] ≡ array_level 2 ∷ object_level ((b'b' ∷ []) ∷ (b'a' ∷ []) ∷ []) ∷ []
unfolding levels
levels_of_document = refl

abbrev reply_frame : PendingOutput
reply_frame = record { frame = b'{' ∷ b'}' ∷ []; classification = Class.reply }

abbrev report_frame : PendingOutput
report_frame = record { frame = b'r' ∷ []; classification = Class.report }

abbrev output_calls : List Limits.Call
output_calls =
    Limits.Call.enqueue_frame reply_frame
    ∷ Limits.Call.enqueue_frame report_frame
    ∷ Limits.Call.writer_takes
    ∷ Limits.Call.writer_finishes true
    ∷ Limits.Call.writer_takes
    ∷ Limits.Call.writer_finishes false
    ∷ []

run-new_output-IsWithin_example : Limits.IsWithin (Limits.run output_calls new_output)
run-new_output-IsWithin_example = Limits.run-new_output-IsWithin output_calls

observe-new_trace-order_example :
    let t = Order.observe output_calls Order.new_trace in
    (dropped : List PendingOutput) × (t.accepted ≡ t.written ++ (Limits.held t.output ++ dropped))
    × (t.output.is_healthy ≡ true → dropped ≡ [])
observe-new_trace-order_example = Order.observe-new_trace-order output_calls

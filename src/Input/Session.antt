-- ===== src/Input/Session.antt =====
-- A session of BoundedInput: Next called again and again, until it answers `invalid`.
use wotex_matter.Base.{◌≡◌, sym, ◌∙◌, List, [], ◌∷◌, ◌++◌, All, Bytes}
use mathlib.Core.List.{append_assoc, append-nil}
use wotex_matter.Input.{Input, InputResult, line, waiting, end, invalid, Wake, next}
use wotex_matter.Input.Stream.{IsLine, content, read_by, IsReady, Keeps, next-Keeps}

-- The lines, each with its newline.
abbrev pub joined : List Bytes → Bytes
joined [] = []
joined (l ∷ ls) = l ++ 10 ∷ joined ls

-- What a session leaves: the input before the first `invalid`, the lines returned, the bytes read.
pub record Session : Type 0 where
  pub input : Input
  pub lines : List Bytes
  pub read : Bytes

-- A call that read `bytes`, before the rest of the session.
abbrev pub extend : Input → Bytes → InputResult → Session → Session
extend i bytes (line l) s = record s { lines = l ∷ s.lines; read = bytes ++ s.read }
extend i bytes waiting s = record s { read = bytes ++ s.read }
extend i bytes end s = record s { read = bytes ++ s.read }
extend i bytes invalid s = record { input = i; lines = []; read = [] }

abbrev pub serve : List Wake → Input → Session
serve [] i = record { input = i; lines = []; read = [] }
serve (wake ∷ wakes) i =
    let rest = serve wakes (next i wake).0 in extend i (read_by i wake) (next i wake).1 rest

abbrev pub Conserves : Input → Session → Type 0
Conserves i s =
    (content i ++ s.read ≡ joined s.lines ++ content s.input) × All IsLine s.lines × IsReady s.input

-- A call that hands everything on, and then the rest.
moved :
    (i i' : Input) (bytes : Bytes) (s : Session)
    → content i ++ bytes ≡ content i'
    → content i' ++ s.read ≡ joined s.lines ++ content s.input
    → content i ++ (bytes ++ s.read) ≡ joined s.lines ++ content s.input
moved i i' bytes s e h = sym (append_assoc (content i) bytes s.read) ∙ (rw e h)

extend-Conserves :
    (i i' : Input) (bytes : Bytes) (wake : Wake) (r : InputResult) (s : Session)
    → IsReady i
    → Keeps (content i ++ bytes) wake i' r
    → (IsReady i' → Conserves i' s)
    → Conserves i (extend i bytes r s)
extend-Conserves i i' bytes wake (line l) s ready k h =
    let later = h k.0 in
    (
      sym (append_assoc (content i) bytes s.read)
          ∙ rw k.2 (
              append_assoc l (10 ∷ content i') s.read
              ∙ rw later.0 (sym (append_assoc l (10 ∷ joined s.lines) (content s.input)))),
      (k.1, later.1),
      later.2,
    )
extend-Conserves i i' bytes wake waiting s ready k h =
    let later = h k.0 in (moved i i' bytes s k.1 later.0, later.1, later.2)
extend-Conserves i i' bytes wake end s ready k h =
    let later = h k.0 in (moved i i' bytes s k.1 later.0, later.1, later.2)
extend-Conserves i i' bytes wake invalid s ready k h = (append-nil (content i), tt, ready)

-- Let the input be valid, and the frame held have no newline and at most 131071 bytes. Call `next` any
-- number of times, however poll and read answer, until it answers `invalid`. Then what was held and the bytes
-- read are together exactly the lines returned, each with its newline, and what is left; and no line
-- returned has a newline or more than 131071 bytes.
pub serve-Conserves : (wakes : List Wake) (i : Input) → IsReady i → Conserves i (serve wakes i)
serve-Conserves [] i ready = (append-nil (content i), tt, ready)
serve-Conserves (wake ∷ wakes) i ready =
    extend-Conserves i (next i wake).0 (read_by i wake) wake (next i wake).1 _ ready
      (next-Keeps i wake ready) (serve-Conserves wakes (next i wake).0)

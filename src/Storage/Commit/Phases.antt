-- ===== src/Storage/Commit/Phases.antt =====
-- What a commit leaves in the directory, wherever it fails or the process stops.
use wotex_matter.Base.{
  ◌≡◌, refl, sym, ap, ◌∙◌, Bool, true, false, List, Option, none, some, if◌then◌else◌, Bytes,
  has_value,
}
use mathlib.Core.Path.{subst}
use wotex_matter.Storage.Files.{
  Directory, Answer, Run, stopped, returned, M, pure, continue, ◌and_then◌, rename_temporary,
  unlink_intent, clean_commit_state,
}
use wotex_matter.Storage.Files.Rules.{Ends, and_then-Ends, Ends-weaken, call-Ends}
use wotex_matter.Storage.Commit.{
  write_temporary, write_intent, replace_state, commit_contents, pending_text,
}
use wotex_matter.Storage.Commit.Marking.{Is, Unreplaced, touch-Ends, touched, marking, marking-Ends}

-- The replacement: the complete intent file is there until the state file is the new one.
pub data Replacing (old : Option Bytes) (contents : Bytes) (d : Directory) : Type 0 where
  ready : Is old (some contents) (some pending_text) d → Replacing old contents d
  renamed : Is (some contents) none (some pending_text) d → Replacing old contents d
  finished : Is (some contents) none none d → Replacing old contents d

-- The phases of a commit of `contents` over the state `old`.
pub data Phase (old : Option Bytes) (contents : Bytes) (d : Directory) : Type 0 where
  before : d.state ≡ old → d.intent ≡ none → Phase old contents d
  marked :
      d.state ≡ old → d.temporary ≡ some contents → has_value d.intent ≡ true → Phase old contents d
  renamed :
      d.state ≡ some contents
      → d.temporary ≡ none
      → has_value d.intent ≡ true
      → Phase old contents d
  finished : d.state ≡ some contents → d.temporary ≡ none → d.intent ≡ none → Phase old contents d

-- The first part of a commit and, where it has succeeded, the replacement that follows it.
abbrev pub Marks : Option Bytes → Bytes → Run Bool → Type 0
Marks old contents (stopped d) = Unreplaced old contents d
Marks old contents (returned false d answers) = Unreplaced old contents d
Marks old contents (returned true d answers) =
    Is old (some contents) (some pending_text) d
    × Ends (Replacing old contents) (Is (some contents) none none) (replace_state answers d)

module _ (old : Option Bytes) (contents : Bytes) where
  abbrev P : Directory → Type 0
  P = Replacing old contents

  replace_state-Ends :
      (answers : List Answer) (d : Directory)
      → Is old (some contents) (some pending_text) d
      → Ends P (Is (some contents) none none) (replace_state answers d)
  unfolding replace_state rename_temporary unlink_intent
  replace_state-Ends answers d q =
      and_then-Ends P (Is (some contents) none (some pending_text)) _ rename_temporary _ answers d
        (call-Ends P _ _ _ answers d (Replacing.ready q) (λ _. (q.1, refl, q.2)))
        λ a1 d1 q1.
          touched P (Is (some contents) none (some pending_text)) _ _ a1 d1
            (λ d'. Replacing.renamed) q1
            λ a2 d2 q2.
              and_then-Ends P (Is (some contents) none none) _ unlink_intent _ a2 d2
                (call-Ends P _ _ _ a2 d2 (Replacing.renamed q2) (λ _. (q2.0, q2.1, refl)))
                λ a3 d3 q3.
                  touch-Ends P (Is (some contents) none none) a3 d3 (Replacing.finished q3) q3

  Ends-Marks :
      (r : Run Bool)
      → Ends (Unreplaced old contents) (Is old (some contents) (some pending_text)) r
      → Marks old contents r
  Ends-Marks (stopped d) h = h
  Ends-Marks (returned false d answers) h = h
  Ends-Marks (returned true d answers) h = (h, replace_state-Ends answers d h)

  unreplaced : (d : Directory) → Unreplaced old contents d → Phase old contents d
  unreplaced d (Unreplaced.before s i) = Phase.before s i
  unreplaced d (Unreplaced.marked s t i) = Phase.marked s t i

  replacing : (d : Directory) → P d → Phase old contents d
  replacing d (Replacing.ready (s, t, i)) = Phase.marked s t (ap has_value i)
  replacing d (Replacing.renamed (s, t, i)) = Phase.renamed s t (ap has_value i)
  replacing d (Replacing.finished (s, t, i)) = Phase.finished s t i

  and_then_assoc :
      (m k l : M Bool) (answers : List Answer) (d : Directory)
      → (m and_then k and_then l) answers d ≡ ((m and_then k) and_then l) answers d
  and_then_assoc m k l answers d = regroup (m answers d)
    where
      regroup :
          (r : Run Bool)
          → continue r (λ ok. if ok then k and_then l else pure false)
            ≡ continue
                (continue r (λ ok. if ok then k else pure false))
                (λ ok. if ok then l else pure false)
      regroup (stopped d') = refl
      regroup (returned true d' rest) = refl
      regroup (returned false d' rest) = refl

  then-ext :
      (k l : M Bool) (r : Run Bool)
      → ((answers : List Answer) (d : Directory) → k answers d ≡ l answers d)
      → continue r (λ ok. if ok then k else pure false)
        ≡ continue r (λ ok. if ok then l else pure false)
  then-ext k l (stopped d) e = refl
  then-ext k l (returned true d rest) e = e rest d
  then-ext k l (returned false d rest) e = refl

  commit_contents-marking :
      (answers : List Answer) (d : Directory)
      → commit_contents contents answers d ≡ (marking contents and_then replace_state) answers d
  unfolding commit_contents
  commit_contents-marking answers d =
      then-ext _ _ (clean_commit_state answers d)
        (λ a d'. and_then_assoc (write_temporary contents) write_intent replace_state a d')
      ∙ and_then_assoc clean_commit_state (write_temporary contents and_then write_intent)
          replace_state answers d

  -- Start a commit in a directory with no intent file. The commit is a first part and then, where that has
  -- succeeded, the replacement. Wherever the first part fails or the process stops in it, the state file is
  -- the old one, and where the intent file is there the new contents are complete in the temporary file.
  -- Where it succeeds, the state file is still the old one and both files are there and complete. Wherever
  -- the replacement then fails or the process stops in it, the intent file is there and complete, with the
  -- new contents in the temporary file or as the state file, or the new contents are the state file and
  -- nothing else is there. Where it succeeds, this last is so.
  pub commit_contents-Marks :
      (answers : List Answer) (d : Directory)
      → d.state ≡ old
      → d.intent ≡ none
      → (commit_contents contents answers d ≡ (marking contents and_then replace_state) answers d)
        × Marks old contents (marking contents answers d)
  commit_contents-Marks answers d s i = (
    commit_contents-marking answers d,
    Ends-Marks (marking contents answers d) (marking-Ends old contents answers d s i),
  )

  -- So a commit ends in one of its phases.
  pub commit_contents-Ends :
      (answers : List Answer) (d : Directory)
      → d.state ≡ old
      → d.intent ≡ none
      → Ends
          (Phase old contents)
          (Is (some contents) none none)
          (commit_contents contents answers d)
  commit_contents-Ends answers d s i =
      subst (Ends (Phase old contents) (Is (some contents) none none))
        (sym (commit_contents-marking answers d))
        (and_then-Ends (Phase old contents) (Is old (some contents) (some pending_text)) _
          (marking contents) replace_state answers d
          (Ends-weaken (Unreplaced old contents) (Phase old contents)
            (Is old (some contents) (some pending_text))
            (Is old (some contents) (some pending_text)) (marking contents answers d) unreplaced
            (λ _ q. q) (marking-Ends old contents answers d s i))
          λ a d' q.
            Ends-weaken P (Phase old contents) (Is (some contents) none none)
              (Is (some contents) none none) (replace_state a d') replacing (λ _ h. h)
              (replace_state-Ends a d' q))

-- ===== src/Storage/Store/Reading.antt =====
-- The calls that only read the directory, and what ReadState returns.
use wotex_matter.Base.{
  ◌≡◌, refl, sym, ap, ◌∙◌, Bool, true, false, not, ◌&&◌, ◌||◌, List, [], ◌∷◌, ◌++◌, Option, none,
  some, length, ◌==◌, ltb, if◌then◌else◌, if_cases, and_true, Bytes, has_value, is_empty,
}
use mathlib.Core.Path.{subst}
use mathlib.Core.List.{append_assoc, append-nil}
use wotex_matter.Storage.Files.{
  Directory, Answer, success, failure, interrupted, moved, Run, stopped, returned, M, pure, ◌>>=◌,
  continue, ◌and_then◌, call, touch, is_missing, temporary_file, intent_file, get, is_success,
  clean_commit_state, take, drop, contents_of,
}
use wotex_matter.Storage.Files.Rules.{take-drop, empty_only}
use wotex_matter.Storage.Commit.Marking.{missing}
use wotex_matter.Storage.Store.{
  read_all, kept_if, read_opened, open_state, read_state, open_directory,
}

-- The directory stays as it is, and the result has Q.
abbrev pub Reads : {A : Type 0} → Directory → (A → Type 0) → Run A → Type 0
Reads d Q (stopped d') = d' ≡ d
Reads d Q (returned a d' answers) = (d' ≡ d) × Q a

Reads-continue :
    {A B : Type 0} (Q : A → Type 0) (R : B → Type 0) (d : Directory) (r : Run A) (k : A → M B)
    → Reads d Q r
    → ((a : A) (answers : List Answer) → Q a → Reads d R (k a answers d))
    → Reads d R (continue r k)
Reads-continue Q R d (stopped d') k h next = h
Reads-continue Q R d (returned a d' answers) k h next =
    subst (λ x. Reads d R (k a answers x)) (sym h.0) (next a answers h.1)

pub Reads-bind :
    {A B : Type 0} (Q : A → Type 0) (R : B → Type 0) (m : M A) (k : A → M B) (answers : List Answer)
    (d : Directory)
    → Reads d Q (m answers d)
    → ((a : A) (answers' : List Answer) → Q a → Reads d R (k a answers' d))
    → Reads d R ((m >>= k) answers d)
Reads-bind Q R m k answers d = Reads-continue Q R d (m answers d) k

-- A call without an effect: what made it possible holds if it succeeds.
Reads-call :
    (possible : Directory → Bool) (answers : List Answer) (d : Directory)
    → Reads d (λ ok. ok ≡ true → possible d ≡ true) (call possible (λ d'. d') answers d)
unfolding call
Reads-call possible [] d = refl
Reads-call possible (answer ∷ answers) d =
    if_cases (Reads d (λ ok. ok ≡ true → possible d ≡ true)) (is_success answer && possible d)
      (λ e. (refl, λ _. (and_true (is_success answer) (possible d) e).1)) (λ _. (refl, λ e. cc e))

-- A test: what it has shown if its answer is true.
abbrev Shows : Directory → Type 0 → Run Bool → Type 0
Shows d X = Reads d (λ ok. ok ≡ true → X)

both :
    (X Y : Type 0) (d : Directory) (ok : Bool) (k : M Bool) (answers : List Answer)
    → (ok ≡ true → X)
    → Shows d Y (k answers d)
    → Shows d (X × Y) ((if ok then k else pure false) answers d)
both X Y d false k answers x h = (refl, λ e. cc e)
both X Y d true k answers x h = paired (k answers d) h
  where
    paired : (r : Run Bool) → Shows d Y r → Shows d (X × Y) r
    paired (stopped d') h' = h'
    paired (returned ok' d' answers') h' = (h'.0, λ e. (x refl, h'.1 e))

Shows-then :
    (X Y : Type 0) (m k : M Bool) (answers : List Answer) (d : Directory)
    → Shows d X (m answers d)
    → ((answers' : List Answer) → Shows d Y (k answers' d))
    → Shows d (X × Y) ((m and_then k) answers d)
Shows-then X Y m k answers d h next =
    Reads-bind (λ ok. ok ≡ true → X) (λ ok. ok ≡ true → X × Y) m
      (λ ok. if ok then k else pure false) answers d h
      λ ok answers' x. both X Y d ok k answers' x (next answers')

touch-Shows : (answers : List Answer) (d : Directory) → Shows d (true ≡ true) (touch answers d)
unfolding touch
touch-Shows answers d = Reads-call (λ d'. true) answers d

-- CleanCommitState finds that no file of an earlier commit is there.
pub clean_commit_state-Shows :
    (answers : List Answer) (d : Directory)
    → Reads d
        (λ ok. ok ≡ true → (d.temporary ≡ none) × (d.intent ≡ none))
        (clean_commit_state answers d)
unfolding clean_commit_state is_missing
clean_commit_state-Shows answers d = weaken (clean_commit_state answers d) (
    Shows-then (not (has_value d.temporary) ≡ true) (not (has_value d.intent) ≡ true)
      (is_missing temporary_file) (is_missing intent_file) answers d
      (Reads-call (λ d'. not (has_value (get temporary_file d'))) answers d)
      λ answers'. Reads-call (λ d'. not (has_value (get intent_file d'))) answers' d)
  where
    weaken :
        (r : Run Bool)
        → Shows d ((not (has_value d.temporary) ≡ true) × (not (has_value d.intent) ≡ true)) r
        → Shows d ((d.temporary ≡ none) × (d.intent ≡ none)) r
    weaken (stopped d') h = h
    weaken (returned ok d' answers') h = (h.0, λ e. (missing _ (h.1 e).0, missing _ (h.1 e).1))

-- Opening a directory that exists changes nothing.
pub open_directory-Reads :
    (answers : List Answer) (d : Directory) → Reads d (λ ok. Unit) (open_directory false answers d)
unfolding open_directory
open_directory-Reads answers d = forget _ (open_directory false answers d) (
    Shows-then _ _ touch _ answers d (touch-Shows answers d) λ a1.
      Shows-then _ _ touch _ a1 d (touch-Shows a1 d) λ a2.
        Shows-then _ _ touch _ a2 d (touch-Shows a2 d)
          λ a3. Shows-then _ _ touch touch a3 d (touch-Shows a3 d) (λ a4. touch-Shows a4 d))
  where
    forget : (X : Type 0) (r : Run Bool) → Shows d X r → Reads d (λ ok. Unit) r
    forget X (stopped d') h = h
    forget X (returned ok d' answers') h = (h.0, tt)

-- A read returns the whole, if it returns anything.
abbrev pub IsRead : Bytes → Option Bytes → Type 0
IsRead whole o = (bytes : Bytes) → o ≡ some bytes → bytes ≡ whole

nothing-IsRead : (whole : Bytes) → IsRead whole none
nothing-IsRead whole bytes e = cc e

whole-IsRead : (whole : Bytes) → IsRead whole (some whole)
whole-IsRead whole bytes e = cc e

unless-IsRead :
    (contents rest : Bytes) (d : Directory) (answers : List Answer) (r : Run (Option Bytes))
    → Reads d (IsRead (contents ++ rest)) r
    → Reads d
        (IsRead (contents ++ rest))
        (if is_empty rest then returned (some contents) d answers else r)
unless-IsRead contents rest d answers r h =
    if_cases (Reads d (IsRead (contents ++ rest))) (is_empty rest)
      (λ e. (refl, λ bytes e'. rw (empty_only rest e, append-nil contents) (cc e'))) (λ _. h)

-- The loop of ReadState.
read_all-Reads :
    (answers : List Answer) (rest contents : Bytes) (d : Directory)
    → Reads d (IsRead (contents ++ rest)) (read_all answers rest contents d)
unfolding read_all
read_all-Reads [] rest contents d = unless-IsRead contents rest d [] _ refl
read_all-Reads (success ∷ answers) rest contents d =
    unless-IsRead contents rest d (success ∷ answers) _ (refl, whole-IsRead (contents ++ rest))
read_all-Reads (failure ∷ answers) rest contents d =
    unless-IsRead contents rest d (failure ∷ answers) _ (refl, nothing-IsRead (contents ++ rest))
read_all-Reads (interrupted ∷ answers) rest contents d =
    unless-IsRead contents rest d (interrupted ∷ answers) _ (read_all-Reads answers rest contents d)
read_all-Reads (moved n ∷ answers) rest contents d =
    unless-IsRead contents rest d (moved n ∷ answers) _ (
      if_cases (Reads d (IsRead (contents ++ rest))) (n == 0)
        (λ _. (refl, nothing-IsRead (contents ++ rest)))
        λ _.
          subst
            (λ w. Reads d (IsRead w) (read_all answers (drop n rest) (contents ++ take n rest) d))
            (append_assoc contents (take n rest) (drop n rest)
              ∙ ap (λ x. contents ++ x) (take-drop n rest))
            (read_all-Reads answers (drop n rest) (contents ++ take n rest) d))

kept_if-IsRead :
    (whole : Bytes) (closed : Bool) (read : Option Bytes)
    → IsRead whole read
    → IsRead whole (kept_if closed read)
kept_if-IsRead whole true read h = h
kept_if-IsRead whole false read h = nothing-IsRead whole

read_opened-Reads :
    (contents : Bytes) (answers : List Answer) (d : Directory)
    → Reads d (IsRead contents) (read_opened contents answers d)
unfolding read_opened
read_opened-Reads contents answers d =
    if_cases (λ (m : M (Option Bytes)). Reads d (IsRead contents) (m answers d))
      (is_empty contents || ltb 16777216 (length contents)) (λ _. (refl, nothing-IsRead contents))
      λ _.
        Reads-bind (IsRead contents) (IsRead contents) (λ a d'. read_all a contents [] d')
          (λ read. touch >>= λ closed. pure (kept_if closed read)) answers d
          (read_all-Reads answers contents [] d)
          λ read answers1 h.
            Reads-bind (λ closed. closed ≡ true → true ≡ true) (IsRead contents) touch
              (λ closed. pure (kept_if closed read)) answers1 d (touch-Shows answers1 d)
              λ closed answers2 _. (refl, kept_if-IsRead contents closed read h)

-- Whatever the system answers, in whatever pieces a read comes and wherever a signal interrupts it: ReadState
-- changes no file, and what it returns, if it returns anything, is the whole state file.
pub read_state-Reads :
    (answers : List Answer) (d : Directory)
    → Reads d
        (λ o. (bytes : Bytes) → o ≡ some bytes → bytes ≡ contents_of d.state)
        (read_state answers d)
unfolding read_state open_state
read_state-Reads answers d =
    Reads-bind (λ ok. ok ≡ true → _) (IsRead (contents_of d.state)) open_state _ answers d
      (Shows-then (has_value d.state ≡ true) _ (call (λ d'. has_value d'.state) (λ d'. d'))
        (touch and_then touch) answers d (Reads-call (λ d'. has_value d'.state) answers d)
        λ a1. Shows-then _ _ touch touch a1 d (touch-Shows a1 d) (λ a2. touch-Shows a2 d))
      λ ok answers1 h.
        if_cases (λ (m : M (Option Bytes)). Reads d (IsRead (contents_of d.state)) (m answers1 d))
          ok (λ _. read_opened-Reads (contents_of d.state) answers1 d)
          (λ _. (refl, nothing-IsRead (contents_of d.state)))

-- ===== src/Storage/Commit/Marking.antt =====
-- What the first part of a commit leaves in the directory: the temporary file and the intent file are written.
use wotex_matter.Base.{
  ◌≡◌, refl, ap, ◌∙◌, Bool, true, not, List, [], Option, none, some, Bytes, has_value,
}
use wotex_matter.Storage.Files.{
  File, temporary_file, intent_file, Directory, Answer, M, ◌and_then◌, get, put, touch, is_missing,
  create_new, write_all, clean_commit_state,
}
use wotex_matter.Storage.Files.Rules.{Ends, and_then-Ends, Ends-weaken, call-Ends, write_all-Ends}
use wotex_matter.Storage.Commit.{write_temporary, write_intent, pending_text}

abbrev pub Is : Option Bytes → Option Bytes → Option Bytes → Directory → Type 0
Is s t i d = (d.state ≡ s) × (d.temporary ≡ t) × (d.intent ≡ i)

-- The state file is the old one: the intent file is not there, or it is and the new contents are complete in
-- the temporary file.
pub data Unreplaced (old : Option Bytes) (contents : Bytes) (d : Directory) : Type 0 where
  before : d.state ≡ old → d.intent ≡ none → Unreplaced old contents d
  marked :
      d.state ≡ old
      → d.temporary ≡ some contents
      → has_value d.intent ≡ true
      → Unreplaced old contents d

pub missing : (o : Option Bytes) → not (has_value o) ≡ true → o ≡ none
missing none e = refl
missing (some x) e = cc e

module _ (P : Directory → Type 0) where
  pub touch-Ends :
      (Q : Directory → Type 0) (answers : List Answer) (d : Directory)
      → P d
      → Q d
      → Ends P Q (touch answers d)
  unfolding touch
  touch-Ends Q answers d p q = call-Ends P Q (λ d'. true) (λ d'. d') answers d p (λ _. q)

  is_missing-Ends :
      (file : File) (Q : Directory → Type 0) (answers : List Answer) (d : Directory)
      → P d
      → (get file d ≡ none → Q d)
      → Ends P Q (is_missing file answers d)
  unfolding is_missing
  is_missing-Ends file Q answers d p q =
      call-Ends P Q (λ d'. not (has_value (get file d'))) (λ d'. d') answers d p
        (λ e. q (missing _ e))

  create-Ends :
      (file : File) (Q : Directory → Type 0) (answers : List Answer) (d : Directory)
      → P d
      → Q (put file (some []) d)
      → Ends P Q (create_new file answers d)
  unfolding create_new
  create-Ends file Q answers d p q =
      call-Ends P Q (λ d'. not (has_value (get file d'))) (put file (some [])) answers d p (λ _. q)

  -- A step that leaves the directory as it is, before the rest.
  pub touched :
      (Q R : Directory → Type 0) (k : M Bool) (answers : List Answer) (d : Directory)
      → ((d' : Directory) → Q d' → P d')
      → Q d
      → ((answers' : List Answer) (d' : Directory) → Q d' → Ends P R (k answers' d'))
      → Ends P R ((touch and_then k) answers d)
  touched Q R k answers d safe q next =
      and_then-Ends P Q R touch k answers d (touch-Ends Q answers d (safe d q) q) next

-- The part of a commit before the replacement.
abbrev pub marking : Bytes → M Bool
marking contents = clean_commit_state and_then write_temporary contents and_then write_intent

module _ (old : Option Bytes) (contents : Bytes) where
  abbrev P : Directory → Type 0
  P = Unreplaced old contents

  clean-Ends :
      (answers : List Answer) (d : Directory)
      → d.state ≡ old
      → P d
      → Ends P (Is old none none) (clean_commit_state answers d)
  unfolding clean_commit_state
  clean-Ends answers d s p =
      and_then-Ends P (λ d'. (d'.state ≡ old) × (d'.temporary ≡ none) × P d') (Is old none none)
        (is_missing temporary_file) (is_missing intent_file) answers d
        (is_missing-Ends P temporary_file _ answers d p (λ t. (s, t, p)))
        λ answers' d' (s', t', p').
          is_missing-Ends P intent_file _ answers' d' p' (λ i'. (s', t', i'))

  unmarked : (t : Option Bytes) (d : Directory) → Is old t none d → P d
  unmarked t d (s, t', i) = Unreplaced.before s i

  ready : (x : Bytes) (d : Directory) → Is old (some contents) (some x) d → P d
  ready x d (s, t, i) = Unreplaced.marked s t (ap has_value i)

  write_temporary-Ends :
      (answers : List Answer) (d : Directory)
      → Is old none none d
      → Ends P (Is old (some contents) none) (write_temporary contents answers d)
  unfolding write_temporary
  write_temporary-Ends answers d (s, t, i) =
      and_then-Ends P (Is old (some []) none) _ (create_new temporary_file) _ answers d
        (create-Ends P temporary_file _ answers d (Unreplaced.before s i) (s, refl, i))
        λ a1 d1 q1.
          touched P (Is old (some []) none) _ _ a1 d1 (unmarked (some [])) q1 λ a2 d2 (s2, t2, i2).
            and_then-Ends P (Is old (some contents) none) _
              (λ a d'. write_all a temporary_file contents d') _ a2 d2
              (Ends-weaken _ P _ (Is old (some contents) none) _
                (λ d' (x, e).
                  Unreplaced.before (ap (λ z. z.state) e ∙ s2) (ap (λ z. z.intent) e ∙ i2))
                (λ d' e.
                  (ap (λ z. z.state) e ∙ s2, ap (λ z. z.temporary) e, ap (λ z. z.intent) e ∙ i2))
                (write_all-Ends a2 temporary_file contents d2 [] t2))
              λ a3 d3 q3.
                touched P (Is old (some contents) none) _ _ a3 d3 (unmarked (some contents)) q3
                  λ a4 d4 q4.
                    touch-Ends P (Is old (some contents) none) a4 d4
                      (unmarked (some contents) d4 q4) q4

  write_intent-Ends :
      (answers : List Answer) (d : Directory)
      → Is old (some contents) none d
      → Ends P (Is old (some contents) (some pending_text)) (write_intent answers d)
  unfolding write_intent
  write_intent-Ends answers d (s, t, i) =
      and_then-Ends P (Is old (some contents) (some [])) _ (create_new intent_file) _ answers d
        (create-Ends P intent_file _ answers d (Unreplaced.before s i) (s, t, refl))
        λ a1 d1 q1.
          touched P (Is old (some contents) (some [])) _ _ a1 d1 (ready []) q1 λ a2 d2 (s2, t2, i2).
            and_then-Ends P (Is old (some contents) (some pending_text)) _
              (λ a d'. write_all a intent_file pending_text d') _ a2 d2
              (Ends-weaken _ P _ (Is old (some contents) (some pending_text)) _
                (λ d' (x, e).
                  ready x d'
                    (ap (λ z. z.state) e ∙ s2, ap (λ z. z.temporary) e ∙ t2, ap (λ z. z.intent) e))
                (λ d' e.
                  (ap (λ z. z.state) e ∙ s2, ap (λ z. z.temporary) e ∙ t2, ap (λ z. z.intent) e))
                (write_all-Ends a2 intent_file pending_text d2 [] i2))
              λ a3 d3 q3.
                touched P (Is old (some contents) (some pending_text)) _ _ a3 d3
                  (ready pending_text) q3
                  λ a4 d4 q4.
                    touched P (Is old (some contents) (some pending_text)) _ _ a4 d4
                      (ready pending_text) q4
                      λ a5 d5 q5.
                        touch-Ends P (Is old (some contents) (some pending_text)) a5 d5
                          (ready pending_text d5 q5) q5

  pub marking-Ends :
      (answers : List Answer) (d : Directory)
      → d.state ≡ old
      → d.intent ≡ none
      → Ends P (Is old (some contents) (some pending_text)) (marking contents answers d)
  marking-Ends answers d s i =
      and_then-Ends P (Is old none none) _ clean_commit_state _ answers d
        (clean-Ends answers d s (Unreplaced.before s i))
        λ a1 d1 q1.
          and_then-Ends P (Is old (some contents) none) _ (write_temporary contents) _ a1 d1
            (write_temporary-Ends a1 d1 q1) λ a2 d2 q2. write_intent-Ends a2 d2 q2

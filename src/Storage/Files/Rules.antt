-- ===== src/Storage/Files/Rules.antt =====
-- Proof rules for sequences of system calls.
use wotex_matter.Base.{
  ℕ, zero, suc, ◌≡◌, refl, sym, ap, ◌∙◌, Bool, true, false, ◌&&◌, List, [], ◌∷◌, ◌++◌, Option, some,
  ◌==◌, if◌then◌else◌, if_cases, Bytes, is_empty, arith,
}
use mathlib.Core.List.{append_assoc, append-nil}
use wotex_matter.Storage.Files.{
  File, state_file, temporary_file, intent_file, Directory, Answer, success, failure, interrupted,
  moved, Run, stopped, returned, M, pure, continue, ◌and_then◌, get, put, is_success, call, take,
  drop, contents_of, append, write_all,
}

-- After true, Q holds; after false, or where the process stops, P.
abbrev pub Ends : (Directory → Type 0) → (Directory → Type 0) → Run Bool → Type 0
Ends P Q (stopped d) = P d
Ends P Q (returned true d answers) = Q d
Ends P Q (returned false d answers) = P d

Ends-continue :
    (P Q R : Directory → Type 0) (k : M Bool) (r : Run Bool)
    → Ends P Q r
    → ((answers : List Answer) (d : Directory) → Q d → Ends P R (k answers d))
    → Ends P R (continue r (λ ok. if ok then k else pure false))
Ends-continue P Q R k (stopped d) h next = h
Ends-continue P Q R k (returned true d answers) h next = next answers d h
Ends-continue P Q R k (returned false d answers) h next = h

-- A sequence: what the first call leaves is where the rest starts.
pub and_then-Ends :
    (P Q R : Directory → Type 0) (m k : M Bool) (answers : List Answer) (d : Directory)
    → Ends P Q (m answers d)
    → ((answers' : List Answer) (d' : Directory) → Q d' → Ends P R (k answers' d'))
    → Ends P R ((m and_then k) answers d)
and_then-Ends P Q R m k answers d = Ends-continue P Q R k (m answers d)

pub Ends-weaken :
    (P P' Q Q' : Directory → Type 0) (r : Run Bool)
    → ((d : Directory) → P d → P' d)
    → ((d : Directory) → Q d → Q' d)
    → Ends P Q r
    → Ends P' Q' r
Ends-weaken P P' Q Q' (stopped d) p q h = p d h
Ends-weaken P P' Q Q' (returned true d answers) p q h = q d h
Ends-weaken P P' Q Q' (returned false d answers) p q h = p d h

-- A single call.
pub call-Ends :
    (P Q : Directory → Type 0) (possible : Directory → Bool) (effect : Directory → Directory)
    (answers : List Answer) (d : Directory)
    → P d
    → (possible d ≡ true → Q (effect d))
    → Ends P Q (call possible effect answers d)
unfolding call
call-Ends P Q possible effect [] d p q = p
call-Ends P Q possible effect (answer ∷ answers) d p q =
    if_cases (Ends P Q) (is_success answer && possible d) (λ e. q (ground arith)) λ _. p

pub take-drop : (n : ℕ) (bs : Bytes) → take n bs ++ drop n bs ≡ bs
take-drop zero bs = refl
take-drop (suc n) [] = refl
take-drop (suc n) (b ∷ bs) = ap (λ r. b ∷ r) (take-drop n bs)

put_same :
    (file : File) (d : Directory) (contents : Option Bytes)
    → get file d ≡ contents
    → put file contents d ≡ d
put_same state_file d contents e = cc e
put_same temporary_file d contents e = cc e
put_same intent_file d contents e = cc e

put-put :
    (file : File) (d : Directory) (x y : Option Bytes) → put file x (put file y d) ≡ put file x d
put-put state_file d x y = refl
put-put temporary_file d x y = refl
put-put intent_file d x y = refl

get-put : (file : File) (d : Directory) (x : Option Bytes) → get file (put file x d) ≡ x
get-put state_file d x = refl
get-put temporary_file d x = refl
get-put intent_file d x = refl

abbrev pub HasSome : File → Directory → Directory → Type 0
HasSome file d d' = (x : Bytes) × (d' ≡ put file (some x) d)

pub empty_only : (bytes : Bytes) → is_empty bytes ≡ true → bytes ≡ []
empty_only [] e = refl
empty_only (b ∷ bytes) e = cc e

abbrev pub Written : File → Directory → Bytes → Bytes → Directory → Type 0
Written file d done bytes d' = d' ≡ put file (some (done ++ bytes)) d

module _ (file : File) (bytes : Bytes) (d : Directory) (done : Bytes)
    (e : get file d ≡ some done) where
  unchanged : HasSome file d d
  unchanged = (done, sym (put_same file d (some done) e))

  nothing_left : is_empty bytes ≡ true → Written file d done bytes d
  nothing_left none_left =
      rw (empty_only bytes none_left, append-nil done) (sym (put_same file d (some done) e))

  all-Written : Written file d done bytes (append file bytes d)
  all-Written = ap (λ x. put file (some (contents_of x ++ bytes)) d) e

  -- The test of the loop.
  unless_empty :
      (answers : List Answer) (r : Run Bool)
      → Ends (HasSome file d) (Written file d done bytes) r
      → Ends
          (HasSome file d)
          (Written file d done bytes)
          (if is_empty bytes then returned true d answers else r)
  unless_empty answers r h =
      if_cases (Ends (HasSome file d) (Written file d done bytes)) (is_empty bytes) nothing_left
        (λ _. h)

-- A part of the bytes is written.
part_written :
    (file : File) (bytes : Bytes) (d : Directory) (done : Bytes) (n : ℕ)
    → get file d ≡ some done
    → append file (take n bytes) d ≡ put file (some (done ++ take n bytes)) d
part_written file bytes d done n e = all-Written file (take n bytes) d done e

resumed :
    (file : File) (bytes : Bytes) (d : Directory) (done : Bytes) (n : ℕ) (r : Run Bool)
    → get file d ≡ some done
    → Ends
        (HasSome file (append file (take n bytes) d))
        (Written file (append file (take n bytes) d) (done ++ take n bytes) (drop n bytes))
        r
    → Ends (HasSome file d) (Written file d done bytes) r
resumed file bytes d done n r e =
    let d1 : Directory = append file (take n bytes) d in
    let whole : (done ++ take n bytes) ++ drop n bytes ≡ done ++ bytes =
      append_assoc done (take n bytes) (drop n bytes) ∙ ap (λ x. done ++ x) (take-drop n bytes) in
    Ends-weaken (HasSome file d1) (HasSome file d)
      (Written file d1 (done ++ take n bytes) (drop n bytes)) (Written file d done bytes) r
      (λ d' (x, same). (x, same ∙ put-put file d (some x) _))
      λ d' same. same ∙ put-put file d _ _ ∙ ap (λ x. put file (some x) d) whole

-- WriteAll changes its file only, and when it returns true it has written everything.
pub write_all-Ends :
    (answers : List Answer) (file : File) (bytes : Bytes) (d : Directory) (done : Bytes)
    → get file d ≡ some done
    → Ends
        (HasSome file d)
        (λ d'. d' ≡ put file (some (done ++ bytes)) d)
        (write_all answers file bytes d)
unfolding write_all
write_all-Ends [] file bytes d done e =
    unless_empty file bytes d done e [] _ (unchanged file bytes d done e)
write_all-Ends (success ∷ answers) file bytes d done e =
    unless_empty file bytes d done e (success ∷ answers) _ (all-Written file bytes d done e)
write_all-Ends (failure ∷ answers) file bytes d done e =
    unless_empty file bytes d done e (failure ∷ answers) _ (unchanged file bytes d done e)
write_all-Ends (interrupted ∷ answers) file bytes d done e =
    unless_empty file bytes d done e (interrupted ∷ answers) _
      (write_all-Ends answers file bytes d done e)
write_all-Ends (moved n ∷ answers) file bytes d done e =
    unless_empty file bytes d done e (moved n ∷ answers) _ (
      if_cases (Ends (HasSome file d) (Written file d done bytes)) (n == 0)
        (λ _. unchanged file bytes d done e)
        λ _. resumed file bytes d done n _ e (
          write_all-Ends answers file (drop n bytes) (append file (take n bytes) d)
            (done ++ take n bytes)
            (ap (get file) (part_written file bytes d done n e) ∙ get-put file d _)))

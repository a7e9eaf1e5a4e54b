-- ===== src/Storage/Files.antt =====
-- The files of the store's directory and the system calls on them (native/src/storage.cpp). What the
-- operating system answers to each call is a list of answers; where the list ends, the process stops
-- (a crash), and the directory stays as it is. A call that fails changes nothing.
pub mod Rules
pub mod Progress
use wotex_matter.Base.{
  ℕ, zero, suc, ◌+◌, ◌≤◌, Bool, true, false, not, ◌&&◌, ◌||◌, List, [], ◌∷◌, ◌++◌, Option, none,
  some, length, ◌==◌, ltb, leb, if◌then◌else◌, Bytes, is_empty, has_value,
}

-- store.json, store.tmp and store.pending.
pub data File : Type 0 where
  state_file temporary_file intent_file : File

pub record Directory : Type 0 where
  pub state : Option Bytes
  pub temporary : Option Bytes
  pub intent : Option Bytes

-- `moved n`: a write or a read of n bytes.
pub data Answer : Type 0 where
  success failure interrupted : Answer
  moved : ℕ → Answer

pub data Run (A : Type 0) : Type 0 where
  stopped : Directory → Run A
  returned : A → Directory → List Answer → Run A

abbrev pub M : Type 0 → Type 0
M A = List Answer → Directory → Run A

abbrev pub pure : {A : Type 0} → A → M A
pure a answers d = returned a d answers

abbrev pub continue : {A B : Type 0} → Run A → (A → M B) → Run B
continue (stopped d) k = stopped d
continue (returned a d answers) k = k a answers d

infixl 5 ◌>>=◌
abbrev pub ◌>>=◌ : {A B : Type 0} → M A → (A → M B) → M B
◌>>=◌ m k answers d = continue (m answers d) k

-- A call and, if it succeeds, what follows; otherwise the early return of false.
infixr 5 ◌and_then◌
abbrev pub ◌and_then◌ : M Bool → M Bool → M Bool
m and_then k = m >>= λ ok. if ok then k else pure false

abbrev pub get : File → Directory → Option Bytes
get state_file d = d.state
get temporary_file d = d.temporary
get intent_file d = d.intent

abbrev pub put : File → Option Bytes → Directory → Directory
put state_file contents d = record d { state = contents }
put temporary_file contents d = record d { temporary = contents }
put intent_file contents d = record d { intent = contents }

abbrev pub is_success : Answer → Bool
is_success success = true
is_success _ = false

-- One call, whose effect is `effect` if it succeeds; it can succeed only if `possible`.
unfoldable pub call : (Directory → Bool) → (Directory → Directory) → M Bool
call possible effect [] d = stopped d
call possible effect (answer ∷ answers) d =
    if is_success answer && possible d
    then returned true (effect d) answers
    else returned false d answers

-- fsync, close, fchmod, fstat: nothing changes in the directory.
unfoldable pub touch : M Bool
unfolding call
touch = call (λ d. true) (λ d. d)

-- `fstatat(...) == 0 || errno != ENOENT` is false: the file is not there.
unfoldable pub is_missing : File → M Bool
unfolding call
is_missing file = call (λ d. not (has_value (get file d))) (λ d. d)

-- openat with O_CREAT | O_EXCL.
unfoldable pub create_new : File → M Bool
unfolding call
create_new file = call (λ d. not (has_value (get file d))) (put file (some []))

-- renameat of the temporary file to the state file, and unlinkat of the intent file.
unfoldable pub rename_temporary : M Bool
unfolding call
rename_temporary =
    call (λ d. has_value d.temporary) (λ d. record d { state = d.temporary; temporary = none })

unfoldable pub unlink_intent : M Bool
unfolding call
unlink_intent = call (λ d. has_value d.intent) (λ d. record d { intent = none })

abbrev pub take {ℓ} : {A : Type ℓ} → ℕ → List A → List A
take zero xs = []
take (suc n) [] = []
take (suc n) (x ∷ xs) = x ∷ take n xs

abbrev pub drop {ℓ} : {A : Type ℓ} → ℕ → List A → List A
drop zero xs = xs
drop (suc n) [] = []
drop (suc n) (x ∷ xs) = drop n xs

abbrev pub contents_of : Option Bytes → Bytes
contents_of none = []
contents_of (some bytes) = bytes

abbrev pub append : File → Bytes → Directory → Directory
append file bytes d = put file (some (contents_of (get file d) ++ bytes)) d

-- WriteAll. `success` answers for a write of all the bytes that are left.
unfoldable pub write_all : List Answer → File → Bytes → Directory → Run Bool
write_all [] file bytes d = if is_empty bytes then returned true d [] else stopped d
write_all (answer ∷ answers) file bytes d =
    let round : Run Bool = elim answer [
      | success ↦ returned true (append file bytes d) answers
      | failure ↦ returned false d answers
      | interrupted ↦ write_all answers file bytes d
      | moved n ↦
          let more = write_all answers file (drop n bytes) (append file (take n bytes) d) in
          if n == 0 then returned false d answers else more
    ] in
    if is_empty bytes then returned true d (answer ∷ answers) else round

-- CleanCommitState.
unfoldable pub clean_commit_state : M Bool
unfolding is_missing
clean_commit_state = is_missing temporary_file and_then is_missing intent_file

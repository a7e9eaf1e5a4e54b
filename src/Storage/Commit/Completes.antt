-- ===== src/Storage/Commit/Completes.antt =====
-- A commit that meets no failure.
use wotex_matter.Base.{ℕ, zero, suc, ◌≡◌, refl, true, List, ◌∷◌, Option, none, some, Bytes}
use wotex_matter.Storage.Files.{
  Answer, success, returned, call, touch, is_missing, create_new, write_all, clean_commit_state,
  rename_temporary, unlink_intent,
}
use wotex_matter.Storage.Commit.{write_temporary, write_intent, replace_state, commit_contents}

abbrev pub successes : ℕ → List Answer → List Answer
successes zero answers = answers
successes (suc n) answers = success ∷ successes n answers

-- In a directory without the files of an earlier commit, seventeen calls that succeed are a whole commit: it
-- returns true, the new contents are the state file, and no other file is left.
pub commit_contents-completes :
    (b : ℕ) (bytes : Bytes) (old : Option Bytes) (rest : List Answer)
    → commit_contents
        (b ∷ bytes)
        (successes 17 rest)
        (record { state = old; temporary = none; intent = none })
      ≡ returned true (record { state = some (b ∷ bytes); temporary = none; intent = none }) rest
unfolding commit_contents write_temporary write_intent replace_state touch is_missing create_new
    write_all clean_commit_state rename_temporary unlink_intent call
commit_contents-completes b bytes old rest = refl

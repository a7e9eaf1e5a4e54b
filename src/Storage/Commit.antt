-- ===== src/Storage/Commit.antt =====
-- The file steps of DurableStorage::Commit (native/src/storage.cpp). The descriptors that a failing
-- step closes are not modelled: closing them changes no file.
pub mod Marking
pub mod Phases
pub mod Completes
use wotex_matter.Base.{Bool, true, [], ◌∷◌, Bytes}
use wotex_matter.Storage.Files.{
  M, pure, ◌and_then◌, temporary_file, intent_file, touch, create_new, write_all,
  clean_commit_state, rename_temporary, unlink_intent,
}

-- "pending\n".
abbrev pub pending_text : Bytes
pending_text = b'p' ∷ b'e' ∷ b'n' ∷ b'd' ∷ b'i' ∷ b'n' ∷ b'g' ∷ 10 ∷ []

-- The temporary file: created, written and synced.
unfoldable pub write_temporary : Bytes → M Bool
write_temporary contents =
    create_new temporary_file
    and_then touch
    and_then (λ answers d. write_all answers temporary_file contents d)
    and_then touch
    and_then touch

-- The intent file, and the directory that now has both.
unfoldable pub write_intent : M Bool
write_intent =
    create_new intent_file
    and_then touch
    and_then (λ answers d. write_all answers intent_file pending_text d)
    and_then touch
    and_then touch
    and_then touch

unfoldable pub replace_state : M Bool
replace_state = rename_temporary and_then touch and_then unlink_intent and_then touch

unfoldable pub commit_contents : Bytes → M Bool
commit_contents contents =
    clean_commit_state
    and_then write_temporary contents
    and_then write_intent
    and_then replace_state

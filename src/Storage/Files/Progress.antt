-- ===== src/Storage/Files/Progress.antt =====
-- WriteAll and the read loop end, and a commit that meets no failure succeeds.
use wotex_matter.Base.{
  ℕ, zero, suc, ◌≤◌, ◌<◌, ◌≡◌, refl, ap, ◌∙◌, Bool, true, false, List, [], ◌∷◌, ◌++◌, some, length,
  ◌==◌, Bytes, All, arith,
}
use mathlib.Core.Path.{subst}
use wotex_matter.Storage.Files.{
  File, Directory, Answer, success, failure, interrupted, moved, Run, returned, get, put, append,
  take, drop, write_all,
}
use wotex_matter.Storage.Files.Rules.{Ends, HasSome, Written, write_all-Ends}

-- An answer that is no error: a signal has interrupted the call, or at least one byte was moved.
abbrev pub IsProgress : Answer → Type 0
IsProgress interrupted = Unit
IsProgress (moved n) = 0 < n
IsProgress _ = false ≡ true

abbrev pub moves : List Answer → ℕ
moves [] = 0
moves (moved n ∷ answers) = suc (moves answers)
moves (_ ∷ answers) = moves answers

length-drop : (n : ℕ) (bs : Bytes) → 0 < n → 0 < length bs → length (drop n bs) < length bs
length-drop zero bs h k = omega (arith, h)
length-drop (suc n) [] h k = omega (arith, k)
length-drop (suc n) (b ∷ bs) h k = shorter n bs
  where
    shorter : (n : ℕ) (bs : Bytes) → length (drop n bs) < suc (length bs)
    shorter zero bs = omega arith
    shorter (suc n) [] = omega arith
    shorter (suc n) (b ∷ bs) = omega (arith, shorter n bs)

abbrev ReturnsTrue : Run Bool → Type 0
ReturnsTrue r = (d : Directory) × (rest : List Answer) × (r ≡ returned true d rest)

absurd : {P : Type 0} → false ≡ true → P
absurd e = cc e

-- It returns true.
write_all-returns :
    (answers : List Answer) (file : File) (bytes : Bytes) (d : Directory)
    → All IsProgress answers
    → length bytes ≤ moves answers
    → (d' : Directory) × (rest : List Answer) × (write_all answers file bytes d
        ≡ returned true d' rest)
unfolding write_all
write_all-returns [] file [] d h enough = (d, [], refl)
write_all-returns [] file (b ∷ bytes) d h enough = absurd (ground (arith, enough))
write_all-returns (answer ∷ answers) file [] d h enough = (d, answer ∷ answers, refl)
write_all-returns (interrupted ∷ answers) file (b ∷ bytes) d h enough =
    write_all-returns answers file (b ∷ bytes) d h.1 enough
write_all-returns (success ∷ answers) file (b ∷ bytes) d h enough = absurd h.0
write_all-returns (failure ∷ answers) file (b ∷ bytes) d h enough = absurd h.0
write_all-returns (moved n ∷ answers) file (b ∷ bytes) d h enough =
    let more : ReturnsTrue
        (write_all answers file (drop n (b ∷ bytes)) (append file (take n (b ∷ bytes)) d)) =
      write_all-returns answers file (drop n (b ∷ bytes)) (append file (take n (b ∷ bytes)) d) h.1
        (omega (arith, length-drop n (b ∷ bytes) h.0 (omega arith), enough)) in
    let moving : (n == 0) ≡ false = ground (arith, h.0) in rw moving more

-- Let the file be there. WriteAll ends, and has then written everything: where every call moves at least one
-- byte or is interrupted, as many calls that move bytes as there are bytes are enough, whatever the number of
-- interruptions. It returns true, and the directory is the one before with exactly the bytes appended to the
-- file.
pub write_all-ends :
    (answers : List Answer) (file : File) (bytes : Bytes) (d : Directory) (done : Bytes)
    → get file d ≡ some done
    → All IsProgress answers
    → length bytes ≤ moves answers
    → (rest : List Answer) × (write_all answers file bytes d
        ≡ returned true (put file (some (done ++ bytes)) d) rest)
write_all-ends answers file bytes d done e h enough =
    let (d', rest, same) = write_all-returns answers file bytes d h enough in
    let written : d' ≡ put file (some (done ++ bytes)) d =
      subst (Ends (HasSome file d) (Written file d done bytes)) same
        (write_all-Ends answers file bytes d done e) in
    (rest, same ∙ ap (λ x. returned true x rest) written)

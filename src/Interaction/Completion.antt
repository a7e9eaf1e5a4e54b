-- ===== src/Interaction/Completion.antt =====
-- MutationCompletion of native/src/interaction.cpp: an atomic byte, with bit 0 for a submitted and
-- bit 1 for a completed mutation. Each operation is one atomic step, so that any interleaving of the
-- threads is a sequence of these steps.
use Prim.Native.Nat.{bit_and, bit_or}
use wotex_matter.Base.{
  ◌≡◌, refl, arith, ℕ, ◌+◌, Bool, true, false, not, List, [], ◌∷◌, ◌==◌, if◌then◌else◌,
}

unfoldable pub submit : ℕ → ℕ × Bool
submit state = if state == 0 then (1, true) else (state, false)

unfoldable pub complete : ℕ → ℕ × Bool
complete state = (bit_or state 2, bit_and state 2 == 0)

unfoldable pub timeout : ℕ → ℕ × Bool
unfolding complete
timeout state = complete state

unfoldable pub completed : ℕ → Bool
completed state = not (bit_and state 2 == 0)

unfoldable pub submitted : ℕ → Bool
submitted state = not (bit_and state 1 == 0)

pub data Step : Type 0 where
  submits completes times_out : Step

-- The steps of all threads in their order, and what was granted so far: submissions, completions.
abbrev pub one_if : Bool → ℕ
one_if true = 1
one_if false = 0

unfoldable pub grants : ℕ → List Step → ℕ × ℕ
grants state [] = (0, 0)
grants state (submits ∷ steps) =
    let r = submit state in let rest = grants r.0 steps in (one_if r.1 + rest.0, rest.1)
grants state (completes ∷ steps) =
    let r = complete state in let rest = grants r.0 steps in (rest.0, one_if r.1 + rest.1)
grants state (times_out ∷ steps) =
    let r = timeout state in let rest = grants r.0 steps in (rest.0, one_if r.1 + rest.1)

-- Some step ends the mutation; the first step of all submits it.
abbrev pub finishes : List Step → Bool
finishes [] = false
finishes (submits ∷ steps) = finishes steps
finishes (_ ∷ steps) = true

abbrev pub submits_first : List Step → Bool
submits_first (submits ∷ steps) = true
submits_first _ = false

-- Once the mutation is completed nothing more is granted.
grants_completed :
    (steps : List Step)
    → ((grants 2 steps).0 ≡ 0)
      × ((grants 2 steps).1 ≡ 0)
      × ((grants 3 steps).0 ≡ 0)
      × ((grants 3 steps).1 ≡ 0)
unfolding grants submit complete timeout
grants_completed [] = (refl, refl, refl, refl)
grants_completed (submits ∷ steps) = omega (arith, grants_completed steps)
grants_completed (completes ∷ steps) = omega (arith, grants_completed steps)
grants_completed (times_out ∷ steps) = omega (arith, grants_completed steps)

grants_submitted :
    (steps : List Step) → ((grants 1 steps).0 ≡ 0) × ((grants 1 steps).1 ≡ one_if (finishes steps))
unfolding grants submit complete timeout
grants_submitted [] = (refl, refl)
grants_submitted (submits ∷ steps) = omega (arith, grants_submitted steps)
grants_submitted (completes ∷ steps) = omega (arith, grants_completed steps)
grants_submitted (times_out ∷ steps) = omega (arith, grants_completed steps)

-- In every interleaving of submitting, completing and timing out, the submission is granted
-- exactly once if it comes before everything else and never otherwise, and exactly one of the
-- steps that end the mutation is told that it ended it, if there is such a step.
pub grants_once :
    (steps : List Step)
    → ((grants 0 steps).0 ≡ one_if (submits_first steps))
      × ((grants 0 steps).1 ≡ one_if (finishes steps))
unfolding grants submit complete timeout
grants_once [] = (refl, refl)
grants_once (submits ∷ steps) = omega (arith, grants_submitted steps)
grants_once (completes ∷ steps) = omega (arith, grants_completed steps)
grants_once (times_out ∷ steps) = omega (arith, grants_completed steps)

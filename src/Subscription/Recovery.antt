-- ===== src/Subscription/Recovery.antt =====
-- SubscriptionRecovery of native/src/subscription.cpp: at most five attempts within 60 seconds after
-- the loss of a subscription, under a generation of their own.
use wotex_matter.Base.{
  ℕ, ◌+◌, ◌-◌, ◌≤◌, ◌≡◌, refl, Bool, true, false, not, ◌||◌, List, [], ◌∷◌, ◌==◌, leb, u64_max,
  add64, if◌then◌else◌, arith,
}

abbrev pub maximum_attempts : ℕ
maximum_attempts = 5

abbrev pub maximum_duration_ms : ℕ
maximum_duration_ms = 60000

pub data Action : Type 0 where
  disabled retry exhausted : Action

pub record Decision : Type 0 where
  pub action : Action
  pub generation : ℕ
  pub attempt : ℕ
  pub remaining_ms : ℕ

pub record Recovery : Type 0 where
  pub enabled : Bool
  pub recovering : Bool
  pub started_ms : ℕ
  pub generation : ℕ
  pub attempts : ℕ

unfoldable pub new_recovery : Bool → Recovery
new_recovery enabled = record {
  enabled = enabled;
  recovering = false;
  started_ms = 0;
  generation = 1;
  attempts = 0;
}

abbrev decision : Action → ℕ → ℕ → ℕ → Decision
decision a g t r = record { action = a; generation = g; attempt = t; remaining_ms = r }

-- Next within a recovery window. `attempts` is a byte, which stays below six.
unfoldable pub next_attempt : Recovery → ℕ → Recovery × Decision
next_attempt r now_ms =
    let elapsed = if leb r.started_ms now_ms then now_ms - r.started_ms else 0 in
    if leb maximum_duration_ms elapsed || leb maximum_attempts r.attempts
    then (r, decision exhausted r.generation r.attempts 0)
    else (
      record r { attempts = r.attempts + 1 },
      decision retry r.generation (r.attempts + 1) (maximum_duration_ms - elapsed),
    )

-- The start of a window: the generation advances.
unfoldable pub open_window : Recovery → ℕ → Recovery
open_window r now_ms = record r {
  recovering = true;
  started_ms = now_ms;
  attempts = 0;
  generation = add64 r.generation 1;
}

unfoldable pub next : Recovery → ℕ → Recovery × Decision
unfolding next_attempt open_window
next r now_ms =
    if not r.enabled
    then (r, decision disabled r.generation 0 0)
    else if r.recovering
    then next_attempt r now_ms
    else if r.generation == u64_max
    then (r, decision exhausted r.generation 0 0)
    else next_attempt (open_window r now_ms) now_ms

unfoldable pub established : Recovery → Recovery
established r = record r { recovering = false; started_ms = 0; attempts = 0 }

unfoldable pub cancel : Recovery → Recovery
unfolding established
cancel r = established (record r { enabled = false })

-- Calls of Next at the given times, with the decisions.
unfoldable pub decisions : Recovery → List ℕ → List Decision
decisions r [] = []
decisions r (now ∷ times) =
    let step = next r now in let rest = decisions step.0 times in step.1 ∷ rest

abbrev pub is_retry : Action → Bool
is_retry retry = true
is_retry _ = false

abbrev pub retries : List Decision → ℕ
retries [] = 0
retries (d ∷ ds) = (if is_retry d.action then 1 else 0) + retries ds

-- Inside a window: the attempts left bound the retries to come, and all of them are of its generation.
window_retries :
    (r : Recovery) (times : List ℕ)
    → r.recovering ≡ true
    → r.attempts ≤ 5
    → retries (decisions r times) + r.attempts ≤ 5
unfolding decisions next
window_retries r [] h k = omega arith
window_retries r (now ∷ times) h k = ground (
  arith,
  window_retries r times h k,
  window_retries (record r { attempts = r.attempts + 1 }) times h,
)

-- From a state with at most five attempts made, however often and whenever Next is called without
-- an establishment in between, at most five of the calls are granted an attempt.
pub retries-decisions-le :
    (r : Recovery) (times : List ℕ) → r.attempts ≤ 5 → retries (decisions r times) ≤ 5
unfolding decisions next
retries-decisions-le r [] h = omega arith
retries-decisions-le r (now ∷ times) h = ground (
  arith,
  retries-decisions-le r times h,
  window_retries r times,
  window_retries (record r { attempts = r.attempts + 1 }) times,
  window_retries (record (open_window r now) { attempts = 1 }) times refl (omega arith),
)

-- From a state with at most five attempts made and a generation of 64 bits, an attempt that Next
-- grants is numbered from 1 to 5 and has 1 to 60000 milliseconds left; its generation is the
-- current one inside a window and the one after it where the attempt opens a window; and the new
-- state keeps its number and its generation.
pub next_retry :
    (r : Recovery) (now : ℕ)
    → r.attempts ≤ 5
    → r.generation ≤ u64_max
    → (next r now).1.action ≡ retry
    → let d = (next r now).1 in
      (1 ≤ d.attempt)
      × (d.attempt ≤ 5)
      × (1 ≤ d.remaining_ms)
      × (d.remaining_ms ≤ 60000)
      × (d.generation ≡ (if r.recovering then r.generation else r.generation + 1))
      × ((next r now).0.generation ≡ d.generation)
      × ((next r now).0.attempts ≡ d.attempt)
unfolding next
next_retry r now h g e = ground arith

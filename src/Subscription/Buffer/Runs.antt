-- ===== src/Subscription/Buffer/Runs.antt =====
-- Any calls keep the invariant of SubscriptionBuffer.
use wotex_matter.Base.{ℕ, refl, List, [], ◌∷◌, arith, inl, inr}
use wotex_matter.Interaction.Types.{PathResult}
use wotex_matter.Subscription.Types.{SubscriptionRequest}
use wotex_matter.Subscription.Buffer.{
  Buffer, new_buffer, begin_report, add, end_report, establish, prepare_recovery, activate,
  cancel_buffer, take_ready,
}
use wotex_matter.Subscription.Buffer.Orderly.{
  IsOrderly, begin_report-IsOrderly, end_report-IsOrderly, activate-IsOrderly,
  cancel_buffer-IsOrderly, take_ready-IsOrderly, prepare_recovery-IsOrderly, establish-IsOrderly,
}
use wotex_matter.Subscription.Buffer.Adding.{add-IsOrderly}

-- The calls of a subscription's owner and of the SDK.
pub data Call : Type 0 where
  begins ends activates cancels takes : Call
  adds : PathResult → Call
  establishes : ℕ → ℕ → ℕ → Call
  prepares : ℕ → Call

unfoldable pub step : Buffer → Call → Buffer
step b begins = begin_report b
step b ends = end_report b
step b activates = activate b
step b cancels = cancel_buffer b
step b takes = (take_ready b).0
step b (adds result) = (add b result).0
step b (establishes sdk_id low high) = (establish b sdk_id low high).0
step b (prepares generation) = (prepare_recovery b generation).0

unfoldable pub run : Buffer → List Call → Buffer
run b [] = b
run b (c ∷ cs) = run (step b c) cs

pub step-IsOrderly : (b : Buffer) (c : Call) → IsOrderly b → IsOrderly (step b c)
unfolding step
step-IsOrderly b begins v = begin_report-IsOrderly b v
step-IsOrderly b ends v = end_report-IsOrderly b v
step-IsOrderly b activates v = activate-IsOrderly b v
step-IsOrderly b cancels v = cancel_buffer-IsOrderly b v
step-IsOrderly b takes v = take_ready-IsOrderly b v
step-IsOrderly b (adds result) v = add-IsOrderly b result v
step-IsOrderly b (establishes sdk_id low high) v = establish-IsOrderly b sdk_id low high v
step-IsOrderly b (prepares generation) v = prepare_recovery-IsOrderly b generation v

run-IsOrderly : (b : Buffer) (cs : List Call) → IsOrderly b → IsOrderly (run b cs)
unfolding run
run-IsOrderly b [] v = v
run-IsOrderly b (c ∷ cs) v = run-IsOrderly (step b c) cs (step-IsOrderly b c v)

-- After any calls on a new buffer: the reports held never exceed the request's queue limit, nor the
-- event identities 1024; nothing is ready before the activation, which follows the establishment, and
-- nothing waits after it; every report held is valid for the request, of the current generation and
-- of a report begun in it; and once the subscription is established each carries its identity and the
-- intervals that the establishment has given.
pub run-new_buffer-IsOrderly :
    (request : SubscriptionRequest) (cs : List Call) → IsOrderly (run (new_buffer request) cs)
unfolding new_buffer
run-new_buffer-IsOrderly request cs = run-IsOrderly _ cs (record {
  within = omega arith;
  cached = omega arith;
  numbered = omega arith;
  first = inr refl;
  later = inr refl;
  in_turn = inl refl;
  waiting = tt;
  delivered = tt;
  waiting_terms = inr tt;
  ready_terms = inr tt;
})

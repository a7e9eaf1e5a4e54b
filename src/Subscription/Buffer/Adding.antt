-- ===== src/Subscription/Buffer/Adding.antt =====
-- Add keeps the invariant of SubscriptionBuffer.
use wotex_matter.Base.{
  ◌+◌, ◌≤◌, ◌<◌, ◌≡◌, refl, true, false, not, if◌then◌else◌, ◌||◌, List, [], ◌∷◌, ◌++◌, Option,
  none, some, length, length-append, All, All-append, leb, if_cases, arith, ◌⊎◌, inl, inr,
}
use wotex_matter.Interaction.Types.{PathResult, EventData}
use wotex_matter.Subscription.Types.{
  SubscriptionReport, SubscriptionKind, attribute, event, valid_subscription_report,
}
use wotex_matter.Subscription.Buffer.{
  Buffer, EventId, report_of, cache_event, remember, place, add_new, add,
  duplicate_in_current_report, suppressed_duplicate, pop_front,
}
use wotex_matter.Subscription.Buffer.Orderly.{
  both_terms, Fits, Carries, HasTerms, IsOrderly, KeepsOrder,
}

one_more {ℓ} :
    {A : Type 0} {P : Type 0} (Q : A → Type ℓ) (xs : List A) (x : A)
    → P ⊎ Q x
    → P ⊎ All Q xs
    → P ⊎ All Q (xs ++ x ∷ [])
one_more Q xs x (inl p) h = inl p
one_more Q xs x (inr q) h = both_terms Q xs (x ∷ []) h (inr (q, tt))

pub place-IsOrderly :
    (b : Buffer) (r : SubscriptionReport)
    → length b.buffered + length b.ready < b.request.queue_limit
    → Fits b.request b.generation b.report_id r
    → (b.is_established ≡ false) ⊎ HasTerms b r
    → IsOrderly b
    → IsOrderly (place b r)
unfolding place
place-IsOrderly b r room f c v =
    if_cases IsOrderly b.is_activated
      (λ e. record {
        within = omega (arith, length-append b.ready (r ∷ []), room);
        cached = v.cached;
        numbered = v.numbered;
        first = inl e;
        later = v.later;
        in_turn = v.in_turn;
        waiting = v.waiting;
        delivered = All-append _ b.ready (r ∷ []) v.delivered (f, tt);
        waiting_terms = v.waiting_terms;
        ready_terms = one_more (HasTerms b) b.ready r c v.ready_terms;
      })
      (λ e. record {
        within = omega (arith, length-append b.buffered (r ∷ []), room);
        cached = v.cached;
        numbered = v.numbered;
        first = v.first;
        later = inl e;
        in_turn = v.in_turn;
        waiting = All-append _ b.buffered (r ∷ []) v.waiting (f, tt);
        delivered = v.delivered;
        waiting_terms = one_more (HasTerms b) b.buffered r c v.waiting_terms;
        ready_terms = v.ready_terms;
      })

length-pop_front : (ids : List EventId) → 1 ≤ length ids → length (pop_front ids) + 1 ≡ length ids
length-pop_front [] h = absurd (omega arith)
length-pop_front (i ∷ ids) h = omega arith

cache_event-le :
    (cache : List EventId) (i : EventId) → length cache ≤ 1024 → length (cache_event cache i) ≤ 1024
unfolding cache_event
cache_event-le cache i h =
    ground (arith, length-append cache (i ∷ []), length-pop_front (cache ++ i ∷ []))

pub stored-IsOrderly :
    (b : Buffer) (kind : SubscriptionKind) (result : PathResult) (e : Option EventData)
    (r : SubscriptionReport)
    → length b.buffered + length b.ready < b.request.queue_limit
    → Fits b.request b.generation b.report_id r
    → (b.is_established ≡ false) ⊎ HasTerms b r
    → IsOrderly b
    → IsOrderly (place (remember b kind result e) r)
unfolding remember
stored-IsOrderly b attribute result e r room f c v = place-IsOrderly _ r room f c (assumption)
stored-IsOrderly b event result none r room f c v = place-IsOrderly b r room f c v
stored-IsOrderly b event result (some e) r room f c v = place-IsOrderly _ r room f c (record {
  within = v.within;
  cached = cache_event-le b.event_id_cache _ v.cached;
  numbered = v.numbered;
  first = v.first;
  later = v.later;
  in_turn = v.in_turn;
  waiting = v.waiting;
  delivered = v.delivered;
  waiting_terms = v.waiting_terms;
  ready_terms = v.ready_terms;
})

report_of-HasTerms :
    (b : Buffer) (result : PathResult)
    → (b.is_established ≡ false) ⊎ HasTerms b (report_of b result)
unfolding report_of
report_of-HasTerms b result =
    elim b.is_established
      as (λ x.
        (x ≡ false)
        ⊎ Carries b.sdk_subscription_id b.revised_min_interval_s b.revised_max_interval_s
            (record (report_of b result) {
              min_interval_s = if x then b.revised_min_interval_s else b.request.min_interval_s;
              max_interval_s = if x then b.revised_max_interval_s else b.request.max_interval_s;
            })) [ true ↦ inr (refl, refl, refl) | false ↦ inl refl ]

pub add_new-IsOrderly :
    (b : Buffer) (result : PathResult) → IsOrderly b → IsOrderly (add_new b result).0
unfolding add_new
add_new-IsOrderly b result v =
    let report = report_of b result in
    if_cases KeepsOrder
      (not (valid_subscription_report b.request report)
        || leb b.request.queue_limit (length b.buffered + length b.ready))
      (λ e. assumption)
      (λ e.
        stored-IsOrderly b b.request.kind result result.event report (ground arith)
          (ground arith, refl, omega arith) (report_of-HasTerms b result) v)

pub add-IsOrderly : (b : Buffer) (result : PathResult) → IsOrderly b → IsOrderly (add b result).0
unfolding add
add-IsOrderly b result v =
    if_cases KeepsOrder (not b.is_active || not b.in_report) (λ e. v)
      λ e.
        if_cases KeepsOrder
          (duplicate_in_current_report b b.request.kind result
            || suppressed_duplicate b b.request.kind result)
          (λ d. v) (λ d. add_new-IsOrderly b result v)

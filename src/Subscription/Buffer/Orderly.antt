-- ===== src/Subscription/Buffer/Orderly.antt =====
-- The invariant of SubscriptionBuffer.
use wotex_matter.Base.{
  ℕ, ◌+◌, ◌≤◌, ◌≡◌, refl, Bool, true, false, not, ◌||◌, List, [], ◌∷◌, ◌++◌, map, length,
  length-append, length-map, All, All-append, All-map_of, ◌==◌, ltb, u64_max, add64, if_cases,
  arith, ◌⊎◌, inl, inr,
}
use wotex_matter.Subscription.Types.{
  SubscriptionRequest, SubscriptionReport, valid_subscription_report,
}
use wotex_matter.Subscription.Buffer.{
  Buffer, begin_report, end_report, revise, establish, prepare_recovery, activate, cancel_buffer,
  take_ready,
}

-- A report that is held is valid, of the current generation, and of a report begun in it.
abbrev pub Fits : SubscriptionRequest → ℕ → ℕ → SubscriptionReport → Type 0
Fits request generation report_id r =
    (valid_subscription_report request r ≡ true)
    × (r.generation ≡ generation)
    × (r.report_id ≤ report_id)

-- A held report of an established subscription has its terms.
abbrev pub Carries : ℕ → ℕ → ℕ → SubscriptionReport → Type 0
Carries sdk_id low high r =
    (r.sdk_subscription_id ≡ sdk_id) × (r.min_interval_s ≡ low) × (r.max_interval_s ≡ high)

-- The terms of the subscription: its identity, and the intervals as the SDK has revised them.
abbrev pub HasTerms : Buffer → SubscriptionReport → Type 0
HasTerms b = Carries b.sdk_subscription_id b.revised_min_interval_s b.revised_max_interval_s

pub record IsOrderly (b : Buffer) : Type 0 where
  pub within : length b.buffered + length b.ready ≤ b.request.queue_limit
  pub cached : length b.event_id_cache ≤ 1024
  pub numbered : b.report_id ≤ u64_max
  pub first : (b.is_activated ≡ true) ⊎ (b.ready ≡ [])
  pub later : (b.is_activated ≡ false) ⊎ (b.buffered ≡ [])
  pub in_turn : (b.is_activated ≡ false) ⊎ (b.is_established ≡ true)
  pub waiting : All (Fits b.request b.generation b.report_id) b.buffered
  pub delivered : All (Fits b.request b.generation b.report_id) b.ready
  pub waiting_terms : (b.is_established ≡ false) ⊎ All (HasTerms b) b.buffered
  pub ready_terms : (b.is_established ≡ false) ⊎ All (HasTerms b) b.ready

pub Fits-later :
    (request : SubscriptionRequest) (generation n m : ℕ) (rs : List SubscriptionReport)
    → n ≤ m
    → All (Fits request generation n) rs
    → All (Fits request generation m) rs
Fits-later request generation n m rs h = All-map_of _ _ rs (λ r f. (f.0, f.1, omega (arith, f.2)))

pub begin_report-IsOrderly : (b : Buffer) → IsOrderly b → IsOrderly (begin_report b)
unfolding begin_report
begin_report-IsOrderly b v =
    if_cases IsOrderly (not b.is_active || b.in_report || b.report_id == u64_max) (λ e. assumption)
      λ e.
        let more : b.report_id ≤ add64 b.report_id 1 = ground arith in
        record {
          within = v.within;
          cached = v.cached;
          numbered = omega arith;
          first = v.first;
          later = v.later;
          in_turn = v.in_turn;
          waiting = Fits-later b.request b.generation b.report_id _ b.buffered more v.waiting;
          delivered = Fits-later b.request b.generation b.report_id _ b.ready more v.delivered;
          waiting_terms = v.waiting_terms;
          ready_terms = v.ready_terms;
        }

pub end_report-IsOrderly : (b : Buffer) → IsOrderly b → IsOrderly (end_report b)
unfolding end_report
end_report-IsOrderly b v = assumption

pub both_terms {ℓ} :
    {A : Type 0} {P : Type 0} (Q : A → Type ℓ) (xs ys : List A)
    → P ⊎ All Q xs
    → P ⊎ All Q ys
    → P ⊎ All Q (xs ++ ys)
both_terms Q xs ys (inl p) h = inl p
both_terms Q xs ys (inr a) (inl p) = inl p
both_terms Q xs ys (inr a) (inr c) = inr (All-append Q xs ys a c)

pub activate-IsOrderly : (b : Buffer) → IsOrderly b → IsOrderly (activate b)
unfolding activate
activate-IsOrderly b v =
    if_cases IsOrderly (not b.is_active || not b.is_established || b.is_activated) (λ e. v)
      λ e. record {
        within = omega (arith, length-append b.ready b.buffered, v.within);
        cached = v.cached;
        numbered = v.numbered;
        first = inl refl;
        later = inr refl;
        in_turn = inr (ground arith);
        waiting = tt;
        delivered = All-append _ b.ready b.buffered v.delivered v.waiting;
        waiting_terms = inr tt;
        ready_terms = both_terms (HasTerms b) b.ready b.buffered v.ready_terms v.waiting_terms;
      }

pub cancel_buffer-IsOrderly : (b : Buffer) → IsOrderly b → IsOrderly (cancel_buffer b)
unfolding cancel_buffer
cancel_buffer-IsOrderly b v = record {
  within = omega arith;
  cached = v.cached;
  numbered = v.numbered;
  first = inr refl;
  later = inr refl;
  in_turn = v.in_turn;
  waiting = tt;
  delivered = tt;
  waiting_terms = inr tt;
  ready_terms = inr tt;
}

pub take_ready-IsOrderly : (b : Buffer) → IsOrderly b → IsOrderly (take_ready b).0
unfolding take_ready
take_ready-IsOrderly b v = record {
  within = omega (arith, v.within);
  cached = v.cached;
  numbered = v.numbered;
  first = inr refl;
  later = v.later;
  in_turn = v.in_turn;
  waiting = v.waiting;
  delivered = tt;
  waiting_terms = v.waiting_terms;
  ready_terms = inr tt;
}

-- Orderly with the activity flag as it may be: no part of the invariant reads it.
abbrev pub KeepsOrder : Buffer × Bool → Type 0
KeepsOrder r = IsOrderly r.0

pub prepare_recovery-IsOrderly :
    (b : Buffer) (generation : ℕ) → IsOrderly b → IsOrderly (prepare_recovery b generation).0
unfolding prepare_recovery
prepare_recovery-IsOrderly b generation v =
    if_cases KeepsOrder
      (not b.is_active
        || generation == 0
        || b.generation == u64_max
        || not (generation == add64 b.generation 1))
      (λ e. assumption)
      λ e. record {
        within = omega arith;
        cached = v.cached;
        numbered = omega arith;
        first = inr refl;
        later = inr refl;
        in_turn = inl refl;
        waiting = tt;
        delivered = tt;
        waiting_terms = inr tt;
        ready_terms = inr tt;
      }

pub revise-Fits :
    (request : SubscriptionRequest) (generation id sdk_id low high : ℕ)
    (rs : List SubscriptionReport)
    → (high == 0) ≡ false
    → ltb high low ≡ false
    → All (Fits request generation id) rs
    → All (Fits request generation id) (map (revise sdk_id low high) rs)
unfolding revise valid_subscription_report
revise-Fits request generation id sdk_id low high [] h k v = tt
revise-Fits request generation id sdk_id low high (r ∷ rs) h k v =
    ((ground arith, v.0.1, v.0.2), revise-Fits request generation id sdk_id low high rs h k v.1)

pub revise-Carries :
    (sdk_id low high : ℕ) (rs : List SubscriptionReport)
    → All (Carries sdk_id low high) (map (revise sdk_id low high) rs)
unfolding revise
revise-Carries sdk_id low high [] = tt
revise-Carries sdk_id low high (r ∷ rs) = ((refl, refl, refl), revise-Carries sdk_id low high rs)

pub establish-IsOrderly :
    (b : Buffer) (sdk_id low high : ℕ) → IsOrderly b → IsOrderly (establish b sdk_id low high).0
unfolding establish
establish-IsOrderly b sdk_id low high v =
    if_cases KeepsOrder (not b.is_active || b.is_established || high == 0 || ltb high low)
      (λ e. assumption)
      λ e.
        let idle : b.ready ≡ [] = ground arith in
        record {
          within = omega (arith, length-map (revise sdk_id low high) b.buffered, v.within);
          cached = v.cached;
          numbered = v.numbered;
          first = v.first;
          later = inl (ground arith);
          in_turn = inr refl;
          waiting =
              revise-Fits b.request b.generation b.report_id sdk_id low high b.buffered
                (ground arith) (ground arith) v.waiting;
          delivered = v.delivered;
          waiting_terms = inr (revise-Carries sdk_id low high b.buffered);
          ready_terms = inr (rw idle tt);
        }

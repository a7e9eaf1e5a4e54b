-- ===== src/Subscription/Buffer/Fresh.antt =====
-- Add (SubscriptionBuffer of native/src/subscription.cpp) takes nothing that it has recorded, and records what
-- it takes.
use wotex_matter.Base.{
  ◌≡◌, refl, sym, ap, ◌∙◌, Bool, true, false, not, ◌&&◌, ◌||◌, List, [], ◌∷◌, ◌++◌, Option, none,
  some, any_of, All-map_of, ◌==◌, if_cases, arith, ◌⊎◌, inl, inr,
}
use mathlib.Core.Path.{subst}
use wotex_matter.Interaction.Types.{ConcretePath, PathResult, EventData, same_path}
use wotex_matter.Subscription.Types.{SubscriptionReport, SubscriptionKind, attribute, event}
use wotex_matter.Subscription.Buffer.{
  Buffer, EventId, has_path, has_event, report_of, remember, duplicate_in_current_report,
  suppressed_duplicate,
}
use wotex_matter.Subscription.Buffer.Taken.{same_number, clash, numbers_in, Past, Traced}

equal_parts :
    (p q : ConcretePath)
    → same_path p q ≡ true
    → (p.fabric_id ≡ q.fabric_id)
      × (p.node_id ≡ q.node_id)
      × (p.endpoint ≡ q.endpoint)
      × (p.cluster ≡ q.cluster)
      × (p.member ≡ q.member)
unfolding same_path
equal_parts p q e = ground (arith, e)

same_path→eq : (p q : ConcretePath) → same_path p q ≡ true → p ≡ q
same_path→eq p q e = let (f, n, t, c, m) = equal_parts p q e in cc (f, n, t, c, m)

same_path_refl : (p : ConcretePath) → same_path p p ≡ true
unfolding same_path
same_path_refl p = ground arith

any_of_left :
    {A : Type 0} (p : A → Bool) (xs : List A) (y : A)
    → any_of p xs ≡ true
    → any_of p (xs ++ y ∷ []) ≡ true
any_of_left p [] y h = cc h
any_of_left p (x ∷ xs) y h = ground (arith, any_of_left p xs y)

any_of_last :
    {A : Type 0} (p : A → Bool) (xs : List A) (y : A) → p y ≡ true → any_of p (xs ++ y ∷ []) ≡ true
any_of_last p [] y h = ground (arith, h)
any_of_last p (x ∷ xs) y h = ground (arith, any_of_last p xs y h)

if_true : (x : Bool) → (x ≡ true → x ≡ false) → x ≡ false
if_true true h = h refl
if_true false h = refl

or_true : (x y : Bool) → (x || y) ≡ true → (x ≡ true) ⊎ (y ≡ true)
or_true true y e = inl refl
or_true false y e = inr e

not_found :
    {P : Type 0} (p q : ConcretePath) (paths : List ConcretePath)
    → p ≡ q
    → has_path p paths ≡ false
    → has_path q paths ≡ true
    → P
not_found p q paths e h k = absurd_true (sym (subst (λ x. has_path x paths ≡ false) e h) ∙ k)
  where
    absurd_true : {P : Type 0} → false ≡ true → P
    absurd_true x = cc x

fresh_path :
    (b : Buffer) (result : PathResult) (y : SubscriptionReport)
    → has_path result.path b.current_attribute_paths ≡ false
    → (not b.is_established && has_path result.path b.initial_attribute_paths) ≡ false
    → Past attribute b.generation b.report_id b.current_attribute_paths b.current_event_ids
        b.initial_attribute_paths y
    → clash attribute (report_of b result) y ≡ true
    → true ≡ false
unfolding report_of
fresh_path b result y d s p e =
    let same : result.path ≡ y.result.path = same_path→eq _ _ (ground (arith, e)) in
    let current : y.generation ≡ b.generation = ground (arith, e) in
    elim (or_true (b.report_id == y.report_id) (not b.is_established && y.initial)
      (ground (arith, e))) [
        | inl i ↦
            not_found result.path y.result.path b.current_attribute_paths same d
              (p.2 current (ground (arith, i)))
        | inr i ↦
            not_found result.path y.result.path b.initial_attribute_paths same
              (ground (arith, s, i)) (p.3 current (ground (arith, i)))
      ]

numbers_agree :
    (p q : ConcretePath) (e f : Option EventData) (ids : List EventId)
    → p ≡ q
    → same_number e f ≡ true
    → has_event p e ids ≡ false
    → numbers_in q f ids ≡ true
    → true ≡ false
unfolding has_event
numbers_agree p q none f ids s n h k = cc n
numbers_agree p q (some e) none ids s n h k = cc n
numbers_agree p q (some e) (some f) ids s n h k =
    let number : e.event_number ≡ f.event_number = ground (arith, n) in
    sym k
    ∙ ap (λ x. any_of (λ i. same_path i.0 x && i.1 == f.event_number) ids) (sym s)
    ∙ ap (λ x. any_of (λ i. same_path i.0 p && i.1 == x) ids) (sym number)
    ∙ h

fresh_event :
    (b : Buffer) (result : PathResult) (y : SubscriptionReport)
    → has_event result.path result.event b.current_event_ids ≡ false
    → Past event b.generation b.report_id b.current_attribute_paths b.current_event_ids
        b.initial_attribute_paths y
    → clash event (report_of b result) y ≡ true
    → true ≡ false
unfolding report_of
fresh_event b result y d p e =
    let same : result.path ≡ y.result.path = same_path→eq _ _ (ground (arith, e)) in
    numbers_agree result.path y.result.path result.event y.result.event b.current_event_ids same
      (ground (arith, e)) d (p.2 (ground (arith, e)) (ground (arith, e)))

-- A result that Add takes clashes with no report taken before.
fresh :
    (kind : SubscriptionKind) (b : Buffer) (result : PathResult) (y : SubscriptionReport)
    → duplicate_in_current_report b kind result ≡ false
    → suppressed_duplicate b kind result ≡ false
    → Past kind b.generation b.report_id b.current_attribute_paths b.current_event_ids
        b.initial_attribute_paths y
    → clash kind (report_of b result) y ≡ false
unfolding duplicate_in_current_report suppressed_duplicate
fresh attribute b result y d s p = if_true _ (λ e. e ∙ fresh_path b result y d s p e)
fresh event b result y d s p = if_true _ (λ e. e ∙ fresh_event b result y d p e)

-- Add records what it takes, and keeps what it has recorded.
records_path : (paths : List ConcretePath) (p : ConcretePath) → has_path p (paths ++ p ∷ []) ≡ true
unfolding has_path
records_path paths p = any_of_last _ paths p (same_path_refl p)

keeps_path :
    (paths : List ConcretePath) (p q : ConcretePath)
    → has_path q paths ≡ true
    → has_path q (paths ++ p ∷ []) ≡ true
unfolding has_path
keeps_path paths p q h = any_of_left _ paths p h

records_event :
    (ids : List EventId) (p : ConcretePath) (e : EventData)
    → numbers_in p (some e) (ids ++ (p, e.event_number) ∷ []) ≡ true
unfolding has_event
records_event ids p e = any_of_last _ ids (p, e.event_number) (ground (arith, same_path_refl p))

keeps_event :
    (ids : List EventId) (i : EventId) (p : ConcretePath) (e : Option EventData)
    → numbers_in p e ids ≡ true
    → numbers_in p e (ids ++ i ∷ []) ≡ true
unfolding has_event
keeps_event ids i p none h = refl
keeps_event ids i p (some e) h = any_of_left _ ids i h

module _ (b : Buffer) (h : List SubscriptionReport) where
  -- What is taken stands before what was taken, once Add has recorded it.
  pub recorded :
      (kind : SubscriptionKind) (result : PathResult) (ev : Option EventData)
      → result.event ≡ ev
      → duplicate_in_current_report b kind result ≡ false
      → suppressed_duplicate b kind result ≡ false
      → Traced kind b h
      → Traced kind (remember b kind result ev) (report_of b result ∷ h)
  unfolding remember report_of
  recorded attribute result ev e d s v = record {
    same_kind = v.same_kind;
    counted = v.counted;
    numbered = v.numbered;
    past = (
      (
        omega arith,
        λ g. omega arith,
        λ g i. records_path b.current_attribute_paths result.path,
        λ g i.
            if_cases (λ ps. has_path result.path ps ≡ true) b.is_established
              (λ t. absurd (ground (arith, t, i)))
              λ _. records_path b.initial_attribute_paths result.path,
      ),
      All-map_of _ _ h
          (λ r p. (
            p.0,
            p.1,
            λ g i. keeps_path b.current_attribute_paths result.path r.result.path (p.2 g i),
            λ g i.
                if_cases (λ ps. has_path r.result.path ps ≡ true) b.is_established (λ _. p.3 g i)
                  λ _. keeps_path b.initial_attribute_paths result.path r.result.path (p.3 g i),
          ))
          v.past,
    );
    apart = (All-map_of _ _ h (λ y p. fresh attribute b result y d s p) v.past, v.apart);
  }
  recorded event result none e d s v = record {
    same_kind = v.same_kind;
    counted = v.counted;
    numbered = v.numbered;
    past = ((omega arith, λ g. omega arith, λ g i. rw e refl, λ g i. refl), v.past);
    apart = (All-map_of _ _ h (λ y p. fresh event b result y d s p) v.past, v.apart);
  }
  recorded event result (some x) e d s v = record {
    same_kind = v.same_kind;
    counted = v.counted;
    numbered = v.numbered;
    past = (
      (
        omega arith,
        λ g. omega arith,
        λ g i. rw e (records_event b.current_event_ids result.path x),
        λ g i. refl,
      ),
      All-map_of _ _ h
          (λ r p. (
            p.0,
            p.1,
            λ g i.
                keeps_event b.current_event_ids (result.path, x.event_number) r.result.path
                  r.result.event (p.2 g i),
            λ g i. refl,
          ))
          v.past,
    );
    apart = (All-map_of _ _ h (λ y p. fresh event b result y d s p) v.past, v.apart);
  }

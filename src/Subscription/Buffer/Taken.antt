-- ===== src/Subscription/Buffer/Taken.antt =====
-- What SubscriptionBuffer (native/src/subscription.cpp) takes over its calls: the reports that its Add puts
-- among those that are held, without duplicates.
use wotex_matter.Base.{
  ℕ, ◌+◌, ◌≤◌, ◌≡◌, Bool, true, false, ◌&&◌, ◌||◌, List, [], ◌∷◌, ◌++◌, Option, none, some, length,
  All, ◌==◌, ltb, u64_max, if◌then◌else◌,
}
use wotex_matter.Interaction.Types.{ConcretePath, PathResult, EventData, same_path}
use wotex_matter.Subscription.Types.{SubscriptionReport, SubscriptionKind, attribute, event}
use wotex_matter.Subscription.Buffer.{Buffer, EventId, has_path, has_event, report_of, add}
use wotex_matter.Subscription.Buffer.Runs.{Call, adds, step}

-- No two elements clash.
abbrev pub Distinct {ℓ} : {A : Type ℓ} → (A → A → Bool) → List A → Type 0
Distinct clash [] = Unit
Distinct clash (x ∷ xs) = All (λ y. clash x y ≡ false) xs × Distinct clash xs

abbrev pub held_count : Buffer → ℕ
held_count b = length b.buffered + length b.ready

-- A report is taken where an Add has made the reports that are held longer.
abbrev pub taken_by : Buffer → PathResult → Buffer → List SubscriptionReport
taken_by b result b' = if ltb (held_count b) (held_count b') then report_of b result ∷ [] else []

abbrev pub taken : Buffer → Call → List SubscriptionReport
taken b (adds result) = taken_by b result (add b result).0
taken b _ = []

-- All that has been taken over the calls, the latest first.
unfoldable pub history : Buffer → List Call → List SubscriptionReport → List SubscriptionReport
history b [] h = h
history b (c ∷ cs) h = history (step b c) cs (taken b c ++ h)

abbrev pub same_number : Option EventData → Option EventData → Bool
same_number (some e) (some f) = e.event_number == f.event_number
same_number _ _ = false

-- Two reports of the same thing: of one attribute, in one report or both before the establishment; or of one
-- event, in one report.
abbrev pub clash : SubscriptionKind → SubscriptionReport → SubscriptionReport → Bool
clash attribute r s =
    same_path r.result.path s.result.path
    && r.generation == s.generation
    && (r.report_id == s.report_id || (r.initial && s.initial))
clash event r s =
    same_path r.result.path s.result.path
    && same_number r.result.event s.result.event
    && r.generation == s.generation
    && r.report_id == s.report_id

abbrev pub numbers_in : ConcretePath → Option EventData → List EventId → Bool
numbers_in path none ids = true
numbers_in path (some e) ids = has_event path (some e) ids

-- A result among those of the current report, and among those before the establishment; a result without an
-- event has no identity.
abbrev pub in_report : SubscriptionKind → List ConcretePath → List EventId → PathResult → Bool
in_report attribute paths ids result = has_path result.path paths
in_report event paths ids result = numbers_in result.path result.event ids

abbrev pub in_initial : SubscriptionKind → List ConcretePath → PathResult → Bool
in_initial attribute paths result = has_path result.path paths
in_initial event paths result = true

-- A report that was taken, and what the state records later.
abbrev pub Past :
    SubscriptionKind
    → ℕ
    → ℕ
    → List ConcretePath
    → List EventId
    → List ConcretePath
    → SubscriptionReport
    → Type 0
Past kind generation report_id paths ids initial_paths r =
    (r.generation ≤ generation)
    × (r.generation ≡ generation → r.report_id ≤ report_id)
    × (r.generation ≡ generation
        → r.report_id ≡ report_id
        → in_report kind paths ids r.result ≡ true)
    × (r.generation ≡ generation → r.initial ≡ true → in_initial kind initial_paths r.result ≡ true)

-- What has been taken is recorded, and no two reports of it clash.
pub record Traced (kind : SubscriptionKind) (b : Buffer) (h : List SubscriptionReport)
    : Type 0 where
  pub same_kind : b.request.kind ≡ kind
  pub counted : b.generation ≤ u64_max
  pub numbered : b.report_id ≤ u64_max
  pub past :
      All
        (Past kind b.generation b.report_id b.current_attribute_paths b.current_event_ids
          b.initial_attribute_paths)
        h
  pub apart : Distinct (clash kind) h

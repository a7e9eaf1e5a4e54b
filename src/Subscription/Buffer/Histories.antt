-- ===== src/Subscription/Buffer/Histories.antt =====
-- Any calls of SubscriptionBuffer (native/src/subscription.cpp), and what has been taken over them.
use wotex_matter.Base.{Bool, List, ◌++◌}
use wotex_matter.Interaction.Types.{PathResult}
use wotex_matter.Subscription.Types.{SubscriptionReport, SubscriptionKind}
use wotex_matter.Subscription.Buffer.{Buffer}
use wotex_matter.Subscription.Buffer.Taken.{taken_by, Traced}

-- The state after an Add, with what it has taken.
abbrev AddTraced :
    SubscriptionKind → Buffer → PathResult → List SubscriptionReport → Buffer × Bool → Type 0
AddTraced kind b result h r = Traced kind r.0 (taken_by b result r.0 ++ h)

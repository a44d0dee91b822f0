-- ===== src/Registry/Skipped/Tally.antt =====
-- The ring and the counters against the whole history of rejections.
use clawndom.Common.{
  ℕ, ◌+◌, ◌≡◌, refl, sym, Option, none, some, List, [], ◌∷◌, arith, ℤ, take, take-nil, take-take_le,
  length, get_or,
}
use clawndom.Common.Ring.{unshift-take}
use clawndom.Event.{
  ClawndomEvent, webhook_rejected, RejectReason, invalid_signature, missing_signature,
  no_routing_match, duplicate, sender_gate_refusal,
}
use clawndom.Registry.Skipped.{
  SkippedWebhook, SkippedWebhookCounts, SkippedWebhooks, create, clamp, list_recent, count_reason,
  skipped, handle_event,
}

-- The registry after a history, newest event first.
pub after : Option ℕ → List ClawndomEvent → SkippedWebhooks
after capacity [] = create capacity
after capacity (event ∷ history) = handle_event event (after capacity history)

-- Every rejection of a history, newest first.
abbrev pub rejections : List ClawndomEvent → List SkippedWebhook
rejections [] = []
rejections (webhook_rejected e ∷ history) = skipped e ∷ rejections history
rejections (event ∷ history) = rejections history

-- How often a reason stands in a list of rejections.
abbrev pub is : RejectReason → RejectReason → ℕ
is invalid_signature invalid_signature = 1
is missing_signature missing_signature = 1
is no_routing_match no_routing_match = 1
is duplicate duplicate = 1
is sender_gate_refusal sender_gate_refusal = 1
is reason other = 0

abbrev pub tally : RejectReason → List SkippedWebhook → ℕ
tally reason [] = 0
tally reason (s ∷ rest) = is reason s.reason + tally reason rest

abbrev pub capacity_of : Option ℕ → ℕ
capacity_of capacity = get_or capacity 100

after-capacity :
    (capacity : Option ℕ) (history : List ClawndomEvent)
    → (after capacity history).capacity ≡ capacity_of capacity
unfolding after create handle_event
after-capacity none [] = refl
after-capacity (some n) [] = refl
after-capacity capacity (webhook_rejected e ∷ history) = after-capacity capacity history
after-capacity capacity (event ∷ history) = after-capacity capacity history

after-ring :
    (capacity : Option ℕ) (history : List ClawndomEvent)
    → (after capacity history).ring ≡ take (capacity_of capacity) (rejections history)
unfolding after create handle_event
after-ring none [] = refl
after-ring (some n) [] = sym (take-nil n)
after-ring capacity (webhook_rejected e ∷ history) =
    rw (after-capacity capacity history, after-ring capacity history)
      (unshift-take (capacity_of capacity) (skipped e) (rejections history))
after-ring capacity (event ∷ history) = after-ring capacity history

-- `list_recent` answers, after any history, with the newest rejections: as many as the limit asks
-- for, but no more than the capacity, and none for a negative limit.
pub list_recent-after :
    (capacity : Option ℕ) (history : List ClawndomEvent) (limit : ℤ)
    → list_recent limit (after capacity history)
      ≡ take (clamp (capacity_of capacity) limit) (rejections history)
unfolding list_recent
list_recent-after capacity history limit =
    rw (after-capacity capacity history, after-ring capacity history)
      (take-take_le (clamp (capacity_of capacity) limit) (capacity_of capacity) (rejections history)
        (omega arith))

pub record Counted (c : SkippedWebhookCounts) (all : List SkippedWebhook) : Type 0 where
  pub no_match : c.no_match ≡ tally no_routing_match all
  pub duplicates : c.duplicate ≡ tally duplicate all
  pub signature : c.signature_failure ≡ tally invalid_signature all + tally missing_signature all
  pub gate : c.sender_gate_refusal ≡ tally sender_gate_refusal all
  pub total : c.no_match + c.duplicate + c.signature_failure + c.sender_gate_refusal ≡ length all

count_reason-Counted :
    (reason : RejectReason) (c : SkippedWebhookCounts) (s : SkippedWebhook)
    (all : List SkippedWebhook)
    → s.reason ≡ reason
    → Counted c all
    → Counted (count_reason reason c) (s ∷ all)
unfolding count_reason
count_reason-Counted invalid_signature c s all e k = ground arith
count_reason-Counted reason c s all e k = ground arith

-- The counters are cumulative: each counts the rejections of its reason in the whole history, also
-- those that the ring has dropped, the two signature reasons together, and nothing goes uncounted.
pub after-Counted :
    (capacity : Option ℕ) (history : List ClawndomEvent)
    → Counted (after capacity history).counts (rejections history)
unfolding after create handle_event
after-Counted none [] = omega arith
after-Counted (some n) [] = omega arith
after-Counted capacity (webhook_rejected e ∷ history) =
    count_reason-Counted e.reason (after capacity history).counts (skipped e) (rejections history)
      refl (after-Counted capacity history)
after-Counted capacity (event ∷ history) = after-Counted capacity history

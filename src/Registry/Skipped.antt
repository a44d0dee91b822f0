-- ===== src/Registry/Skipped.antt =====
-- services/skipped-webhooks.service.ts: the newest rejected webhooks, and how many of each kind.
pub mod Tally
use clawndom.Common.{
  ℕ, ◌+◌, String, Option, none, some, List, [], ◌∷◌, min, ℤ, max_zero, take, length,
}
use clawndom.Common.Ring.{unshift}
use clawndom.Event.{
  ClawndomEvent, webhook_rejected, WebhookRejected, RejectReason, invalid_signature,
  missing_signature, no_routing_match, duplicate, sender_gate_refusal,
}

pub record SkippedWebhook : Type 0 where
  pub timestamp : ℕ
  pub trace_id : String
  pub provider : String
  pub reason : RejectReason
  pub context_id : Option String
  pub context_status : Option String
  pub context_title : Option String

pub record SkippedWebhookCounts : Type 0 where
  pub no_match : ℕ
  pub duplicate : ℕ
  pub signature_failure : ℕ
  pub sender_gate_refusal : ℕ

abbrev pub zero_counts : SkippedWebhookCounts
zero_counts = record { no_match = 0; duplicate = 0; signature_failure = 0; sender_gate_refusal = 0 }

pub record SkippedWebhooks : Type 0 where
  pub capacity : ℕ
  pub ring : List SkippedWebhook
  pub counts : SkippedWebhookCounts

abbrev default_capacity : ℕ
default_capacity = 100

unfoldable pub create : Option ℕ → SkippedWebhooks
create none = record { capacity = default_capacity; ring = []; counts = zero_counts }
create (some capacity) = record { capacity = capacity; ring = []; counts = zero_counts }

-- `Math.max(0, Math.min(this.capacity, limit))`, at a whole number.
abbrev pub clamp : ℕ → ℤ → ℕ
clamp capacity limit = min capacity (max_zero limit)

unfoldable pub list_recent : ℤ → SkippedWebhooks → List SkippedWebhook
list_recent limit r = take (clamp r.capacity limit) r.ring

unfoldable pub count_reason : RejectReason → SkippedWebhookCounts → SkippedWebhookCounts
count_reason no_routing_match c = record c { no_match = c.no_match + 1 }
count_reason duplicate c = record c { duplicate = c.duplicate + 1 }
count_reason invalid_signature c = record c { signature_failure = c.signature_failure + 1 }
count_reason missing_signature c = record c { signature_failure = c.signature_failure + 1 }
count_reason sender_gate_refusal c = record c { sender_gate_refusal = c.sender_gate_refusal + 1 }

abbrev pub skipped : WebhookRejected → SkippedWebhook
skipped e = record {
  timestamp = e.timestamp;
  trace_id = e.trace_id;
  provider = e.provider;
  reason = e.reason;
  context_id = e.context_id;
  context_status = e.context_status;
  context_title = e.context_title;
}

pub add : WebhookRejected → SkippedWebhooks → SkippedWebhooks
add e r = record r {
  ring = unshift r.capacity (skipped e) r.ring;
  counts = count_reason e.reason r.counts;
}

unfoldable pub handle_event : ClawndomEvent → SkippedWebhooks → SkippedWebhooks
unfolding add
handle_event (webhook_rejected e) r = add e r
handle_event event r = r

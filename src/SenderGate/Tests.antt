-- ===== src/SenderGate/Tests.antt =====
-- A dispatch by an agent with an allowlist.
use clawndom.Common.{some, [], ◌∷◌, ◌≡◌, ◌↔◌}
use clawndom.Routing.Json.{str}
use clawndom.Routing.Resolve.{ResolvedAgent}
use clawndom.SenderGate.{BuilderDispatchPayload, allowed, validate_builder_dispatch_sender_gate}
use clawndom.SenderGate.Verdict.{IsPermitted, validate_builder_dispatch_sender_gate-allowed}

abbrev agent : ResolvedAgent
agent = record {
  name = "patch";
  dir = "/agents/patch";
  routing = [];
  operator_allowlist = some ("op@example.com" ∷ []);
}

abbrev payload : BuilderDispatchPayload
payload = record { agent_name = "patch"; sender_email = "op@example.com"; raw = str "dispatch" }

validate_builder_dispatch_sender_gate-allowed_example :
    (validate_builder_dispatch_sender_gate (λ raw. some payload) (str "dispatch") (agent ∷ [])
      ≡ allowed payload)
    ↔ ((some payload ≡ some payload) × IsPermitted payload (agent ∷ []))
validate_builder_dispatch_sender_gate-allowed_example =
    validate_builder_dispatch_sender_gate-allowed (λ raw. some payload) (str "dispatch")
      (agent ∷ []) payload

-- ===== src/SenderGate.antt =====
-- system-agents/builder/sender-gate.ts: the gate before a dispatch to the builder. The schema of the
-- payload is a parameter: `none` is a payload that it refuses.
pub mod Verdict
pub mod Tests
use clawndom.Common.{
  ℕ, String, Bool, true, false, Option, none, some, List, [], ◌∷◌, ◌==◌, any, if◌then◌else◌,
}
use clawndom.Routing.Json.{Json}
use clawndom.Routing.Resolve.{ResolvedAgent}

-- `BuilderDispatchPayload`, by the fields that the gate reads, with the whole payload.
pub record BuilderDispatchPayload : Type 0 where
  pub agent_name : String
  pub sender_email : String
  pub raw : Json

pub data SenderGateOutcome : Type 0 where
  allowed : BuilderDispatchPayload → SenderGateOutcome
  refused : (status : ℕ) → (error : String) → SenderGateOutcome

-- `agents.find((agent) => agent.name === name)`.
unfoldable pub find_agent : String → List ResolvedAgent → Option ResolvedAgent
find_agent name [] = none
find_agent name (agent ∷ agents) =
    let rest = find_agent name agents in if agent.name == name then some agent else rest

-- The allowlist of the agent found; an agent without one lets the payload pass.
unfoldable pub check_allowlist : BuilderDispatchPayload → Option ResolvedAgent → SenderGateOutcome
check_allowlist payload none = refused 403 "Dispatch not allowed."
check_allowlist payload (some agent) = elim agent.operator_allowlist [
  | none ↦ allowed payload
  | some allowlist ↦
      if any (λ email. email == payload.sender_email) allowlist
      then allowed payload
      else refused 403 "Dispatch not allowed."
]

unfoldable pub check_parsed : Option BuilderDispatchPayload → List ResolvedAgent → SenderGateOutcome
unfolding find_agent check_allowlist
check_parsed none agents = refused 400 "Invalid dispatch payload."
check_parsed (some payload) agents = check_allowlist payload (find_agent payload.agent_name agents)

unfoldable pub validate_builder_dispatch_sender_gate :
    (Json → Option BuilderDispatchPayload) → Json → List ResolvedAgent → SenderGateOutcome
unfolding check_parsed
validate_builder_dispatch_sender_gate parse raw_payload agents =
    check_parsed (parse raw_payload) agents

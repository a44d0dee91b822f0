-- ===== src/SenderGate/Verdict.antt =====
-- Who passes the gate.
use clawndom.Common.{
  String, Bool, true, false, Option, none, some, List, [], ◌∷◌, ◌++◌, ◌==◌, ◌≡◌, ◌↔◌, refl, sym,
  ◌∙◌, ap, any, all, not, if◌then◌else◌, arith, inl, inr, Bool-cases, eq_iff,
}
use clawndom.Routing.Json.{Json}
use clawndom.Routing.Resolve.{ResolvedAgent}
use clawndom.SenderGate.{
  BuilderDispatchPayload, SenderGateOutcome, allowed, refused, find_agent, check_allowlist,
  check_parsed, validate_builder_dispatch_sender_gate,
}

-- The sender is on the allowlist, or there is none.
abbrev pub permits : BuilderDispatchPayload → Option (List String) → Bool
permits payload none = true
permits payload (some allowlist) = any (λ email. email == payload.sender_email) allowlist

-- The first agent of the name permits the sender; no agent of the name, no.
abbrev pub first_permits : BuilderDispatchPayload → List ResolvedAgent → Bool
first_permits payload [] = false
first_permits payload (agent ∷ agents) =
    if agent.name == payload.agent_name
    then permits payload agent.operator_allowlist
    else first_permits payload agents

abbrev pub verdict : Option BuilderDispatchPayload → List ResolvedAgent → SenderGateOutcome
verdict none agents = refused 400 "Invalid dispatch payload."
verdict (some payload) agents =
    if first_permits payload agents then allowed payload else refused 403 "Dispatch not allowed."

check_allowlist-permits :
    (payload : BuilderDispatchPayload) (agent : ResolvedAgent)
    → check_allowlist payload (some agent) ≡ (
        if permits payload agent.operator_allowlist
        then allowed payload
        else refused 403 "Dispatch not allowed.")
unfolding check_allowlist
check_allowlist-permits payload agent = by_list agent.operator_allowlist refl
  where
    by_list :
        (allowlist : Option (List String))
        → agent.operator_allowlist ≡ allowlist
        → check_allowlist payload (some agent) ≡ (
            if permits payload agent.operator_allowlist
            then allowed payload
            else refused 403 "Dispatch not allowed.")
    by_list none e = rw e
    by_list (some allowlist) e = rw e

find_agent-permits :
    (payload : BuilderDispatchPayload) (agents : List ResolvedAgent)
    → check_allowlist payload (find_agent payload.agent_name agents) ≡ (
        if first_permits payload agents
        then allowed payload
        else refused 403 "Dispatch not allowed.")
unfolding find_agent check_allowlist
find_agent-permits payload [] = refl
find_agent-permits payload (agent ∷ agents) = elim (Bool-cases (agent.name == payload.agent_name)) [
  | inl e ↦ rw e (check_allowlist-permits payload agent)
  | inr e ↦ rw e (find_agent-permits payload agents)
]

-- The first agent with the payload's name, and that it permits the sender.
abbrev pub IsPermitted : BuilderDispatchPayload → List ResolvedAgent → Type 0
IsPermitted payload agents =
    (before : List ResolvedAgent) × (agent : ResolvedAgent) × (after : List ResolvedAgent) × (agents
      ≡ before ++ agent ∷ after)
    × (all (λ other. not (other.name == payload.agent_name)) before ≡ true)
    × (agent.name ≡ payload.agent_name)
    × (permits payload agent.operator_allowlist ≡ true)

first_permits-IsPermitted :
    (payload : BuilderDispatchPayload) (agents : List ResolvedAgent)
    → first_permits payload agents ≡ true
    → IsPermitted payload agents
first_permits-IsPermitted payload [] h = absurd (ground (arith, h))
first_permits-IsPermitted payload (agent ∷ agents) h =
    elim (Bool-cases (agent.name == payload.agent_name)) [
      | inl e ↦
          ([], agent, agents, refl, refl, (eq_iff agent.name payload.agent_name).0 e, rw e at h)
      | inr e ↦
          let (before, found, after, split, others, same, permitted) =
            first_permits-IsPermitted payload agents (rw e at h) in
          (agent ∷ before, found, after, ap (◌∷◌ agent) split, rw e others, same, permitted)
    ]

first_permits-append :
    (payload : BuilderDispatchPayload) (before : List ResolvedAgent) (agent : ResolvedAgent)
    (after : List ResolvedAgent)
    → all (λ other. not (other.name == payload.agent_name)) before ≡ true
    → agent.name ≡ payload.agent_name
    → permits payload agent.operator_allowlist ≡ true
    → first_permits payload (before ++ agent ∷ after) ≡ true
first_permits-append payload [] agent after others same permitted =
    ground (arith, eq_iff agent.name payload.agent_name, permitted)
first_permits-append payload (x ∷ before) agent after others same permitted =
    elim (Bool-cases (x.name == payload.agent_name)) [
      | inl e ↦ absurd (ground (arith, rw e at others))
      | inr e ↦
          rw e (first_permits-append payload before agent after (rw e at others) same permitted)
    ]

is_allowed : SenderGateOutcome → Bool
is_allowed (allowed payload) = true
is_allowed (refused status error) = false

payload_of : SenderGateOutcome → BuilderDispatchPayload → BuilderDispatchPayload
payload_of (allowed payload) other = payload
payload_of (refused status error) other = other

check_parsed-allowed :
    (parsed : Option BuilderDispatchPayload) (agents : List ResolvedAgent)
    (payload : BuilderDispatchPayload)
    → check_parsed parsed agents ≡ allowed payload
    → (parsed ≡ some payload) × (first_permits payload agents ≡ true)
unfolding check_parsed is_allowed payload_of
check_parsed-allowed none agents payload h = absurd (ground (arith, ap is_allowed h))
check_parsed-allowed (some p) agents payload h =
    let split = sym (find_agent-permits p agents) ∙ h in
    elim (Bool-cases (first_permits p agents)) [
      | inl e ↦
          let same : p ≡ payload = ap (λ o. payload_of o p) (rw e at split) in
          (ap some same, ap (λ q. first_permits q agents) (sym same) ∙ e)
      | inr e ↦ absurd (ground (arith, ap is_allowed (rw e at split)))
    ]

allowed-check_parsed :
    (payload : BuilderDispatchPayload) (agents : List ResolvedAgent)
    → first_permits payload agents ≡ true
    → check_parsed (some payload) agents ≡ allowed payload
unfolding check_parsed
allowed-check_parsed payload agents h = find_agent-permits payload agents ∙ rw h

-- A dispatch passes the gate exactly when it satisfies the schema, an agent has the name that it
-- gives, and the first such agent has no allowlist or has the sender on it.
pub validate_builder_dispatch_sender_gate-allowed :
    (parse : Json → Option BuilderDispatchPayload) (raw_payload : Json)
    (agents : List ResolvedAgent) (payload : BuilderDispatchPayload)
    → (validate_builder_dispatch_sender_gate parse raw_payload agents ≡ allowed payload)
      ↔ ((parse raw_payload ≡ some payload) × IsPermitted payload agents)
unfolding validate_builder_dispatch_sender_gate
validate_builder_dispatch_sender_gate-allowed parse raw_payload agents payload = (
  λ h.
      let (parsed, permitted) = check_parsed-allowed (parse raw_payload) agents payload h in
      (parsed, first_permits-IsPermitted payload agents permitted),
  λ (parsed, (before, agent, after, split, others, same, permitted)). rw parsed (
      allowed-check_parsed payload agents (
        ap (first_permits payload) split
        ∙ first_permits-append payload before agent after others same permitted)),
)

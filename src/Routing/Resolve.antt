-- ===== src/Routing/Resolve.antt =====
-- strategies/routing/resolve.ts: the first rule of the first agent whose condition is true.
pub mod FirstMatch
use clawndom.Common.{String, Bool, true, false, Option, none, some, List, [], ◌∷◌, ◌++◌, map}
use clawndom.Common.Result.{Result, ok, err}
use clawndom.Common.Dict.{Dict}
use clawndom.Common.Dict
use clawndom.Routing.Json.{Json}
use clawndom.Routing.Condition.{Condition, EvalError, Runtime, evaluate}

-- `AgentRule`, by the fields that routing and the scheduler read.
pub record AgentRule : Type 0 where
  pub id : Option String
  pub name : Option String
  pub condition : Option Condition
  pub message_template : Option String

-- `ResolvedAgent`, with its routing: the rules of each provider.
pub record ResolvedAgent : Type 0 where
  pub name : String
  pub dir : String
  pub routing : Dict (List AgentRule)
  pub operator_allowlist : Option (List String)

pub record ResolvedRoute : Type 0 where
  pub agent_id : String
  pub agent_dir : String
  pub message_template : Option String
  pub rule : AgentRule

abbrev pub route : ResolvedAgent → AgentRule → ResolvedRoute
route agent rule = record {
  agent_id = agent.name;
  agent_dir = agent.dir;
  message_template = rule.message_template;
  rule = rule;
}

abbrev pub rules_for : String → ResolvedAgent → List AgentRule
rules_for provider agent = elim (Dict.get provider agent.routing) [ none ↦ [] | some rules ↦ rules ]

module _ (runtime : Runtime) (payload : Json) where
  -- Whether a rule matches; one without a condition never does.
  pub rule_matches : Option Condition → Result EvalError Bool
  rule_matches none = ok false
  rule_matches (some condition) = evaluate runtime condition payload

  -- The inner loop: the first rule of one agent.
  pub match_rules : ResolvedAgent → List AgentRule → Result EvalError (Option ResolvedRoute)
  unfolding rule_matches
  match_rules agent [] = ok none
  match_rules agent (rule ∷ rules) = elim (rule_matches rule.condition) [
    | ok true ↦ ok (some (route agent rule))
    | ok false ↦ match_rules agent rules
    | err e ↦ err e
  ]

  unfoldable pub resolve_agent_from_agents :
      String → List ResolvedAgent → Result EvalError (Option ResolvedRoute)
  unfolding match_rules
  resolve_agent_from_agents provider [] = ok none
  resolve_agent_from_agents provider (agent ∷ agents) =
      elim (match_rules agent (rules_for provider agent)) [
        | ok (some found) ↦ ok (some found)
        | ok none ↦ resolve_agent_from_agents provider agents
        | err e ↦ err e
      ]

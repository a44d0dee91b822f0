-- ===== src/Routing/Tests.antt =====
-- Routing on small payloads.
use clawndom.Common.{
  String, Bool, true, false, ◌≡◌, refl, ◌↔◌, Option, none, some, List, [], ◌∷◌, ◌==◌,
}
use clawndom.Common.Result.{ok, err}
use clawndom.Common.Dict
use clawndom.Routing.Json.{Json, str, arr, obj, nil, cons, end, field, stringify}
use clawndom.Routing.FieldPath.{split, array_index, read_indexed, walk, resolve_field_path}
use clawndom.Routing.Condition.{
  listed, placeholder, Condition, equals, is_in, exists, any_item, all_of, negated, Conditions,
  unresolved_placeholder, Runtime, stringify_resolved, evaluate_equals, evaluate_in,
  evaluate_matches, evaluate_exists, evaluate,
}
use clawndom.Routing.Condition.Meaning.{Holds, IsResolved}
use clawndom.Routing.Condition.Decision.{evaluate-Holds}
use clawndom.Routing.Resolve.{AgentRule, ResolvedAgent, route, resolve_agent_from_agents}
use clawndom.Routing.Resolve.FirstMatch.{
  IsFirstMatch, candidates, resolve_agent_from_agents-IsFirstMatch,
}

routing_code : Unit {0}
unfolding resolve_agent_from_agents evaluate evaluate_equals evaluate_in evaluate_matches
    evaluate_exists resolve_field_path split array_index read_indexed walk stringify_resolved
    stringify Dict.get
routing_code = tt

-- No inherited members; the one pattern is a literal text.
abbrev runtime : Runtime
runtime = record {
  inherited = λ v key. none;
  regexp = λ pattern flags. some (λ text. text == pattern);
}

-- {"issue": {"status": "Todo", "labels": ["ai", "ui"]}}
abbrev payload : Json
payload = obj (
    field "issue"
      (obj (
        field "status" (str "Todo")
          (field "labels" (arr (cons (str "ai") (cons (str "ui") nil))) end)))
      end)

abbrev todo : Condition
todo = all_of (
    Conditions.cons (equals "issue.status" "Todo")
      (Conditions.cons (negated (equals "issue.labels.1" "ai")) Conditions.nil))

abbrev labelled : Condition
labelled = any_item "issue.labels" (negated (exists "x"))

routing_tests :
    (evaluate runtime todo payload ≡ ok true)
    × (evaluate runtime (is_in "issue.labels" (listed ("ui" ∷ []))) payload ≡ ok true)
    × (evaluate runtime (is_in "a" (placeholder "p")) payload ≡ err (unresolved_placeholder "p"))
    × (evaluate runtime (equals "issue.labels" "web") payload ≡ ok false)
    × (evaluate runtime labelled payload ≡ ok true)
    × (stringify payload ≡ "{\"issue\":{\"status\":\"Todo\",\"labels\":[\"ai\",\"ui\"]}}")
unfolding routing_code
routing_tests = (refl, refl, refl, refl, refl, refl)

todo-IsResolved : IsResolved runtime todo
unfolding IsResolved
todo-IsResolved = (tt, (tt, tt))

evaluate-Holds_example :
    (b : Bool) × (evaluate runtime todo payload ≡ ok b) × ((b ≡ true) ↔ Holds runtime todo payload)
evaluate-Holds_example = evaluate-Holds runtime todo payload todo-IsResolved

abbrev rule : Option Condition → AgentRule
rule condition = record { id = none; name = none; condition = condition; message_template = none }

abbrev agent : String → List AgentRule → ResolvedAgent
agent name rules = record {
  name = name;
  dir = "/agents";
  routing = ("jira", rules) ∷ [];
  operator_allowlist = none;
}

abbrev two_agents : List ResolvedAgent
two_agents =
    agent "patch" (rule none ∷ rule (some (equals "issue.status" "Done")) ∷ [])
    ∷ agent "scarlett" (rule (some todo) ∷ [])
    ∷ []

resolve_tests :
    (resolve_agent_from_agents runtime payload "jira" two_agents
      ≡ ok (some (route (agent "scarlett" (rule (some todo) ∷ [])) (rule (some todo)))))
    × (resolve_agent_from_agents runtime payload "slack" two_agents ≡ ok none)
unfolding routing_code
resolve_tests = (refl, refl)

resolve_agent_from_agents-IsFirstMatch_example :
    IsFirstMatch runtime payload
      (candidates runtime payload "jira" two_agents)
      (resolve_agent_from_agents runtime payload "jira" two_agents)
resolve_agent_from_agents-IsFirstMatch_example =
    resolve_agent_from_agents-IsFirstMatch runtime payload "jira" two_agents

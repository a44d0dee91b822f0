-- ===== src/Routing/Resolve/FirstMatch.antt =====
-- Routing picks the first match among the rules of all agents in order.
use clawndom.Common.{
  String, Bool, true, false, ◌≡◌, refl, sym, ap, ◌∙◌, Option, none, some, List, [], ◌∷◌, ◌++◌,
  append_assoc,
}
use clawndom.Common.Result.{Result, ok, err}
use clawndom.Routing.Json.{Json}
use clawndom.Routing.Condition.{Condition, EvalError, Runtime, evaluate}
use clawndom.Routing.Resolve.{
  AgentRule, ResolvedAgent, ResolvedRoute, route, rule_matches, match_rules, rules_for,
  resolve_agent_from_agents,
}

module _ (runtime : Runtime) (payload : Json) where
  -- The rules for a provider, agent by agent in order, each with its agent.
  abbrev pub pairs : ResolvedAgent → List AgentRule → List (ResolvedAgent × AgentRule)
  pairs agent [] = []
  pairs agent (rule ∷ rules) = (agent, rule) ∷ pairs agent rules

  abbrev pub candidates : String → List ResolvedAgent → List (ResolvedAgent × AgentRule)
  candidates provider [] = []
  candidates provider (agent ∷ agents) =
      pairs agent (rules_for provider agent) ++ candidates provider agents

  -- The outcome of a rule is that of its condition; a rule without one does not match.
  abbrev pub IsOutcome : Option Condition → Result EvalError Bool → Type 0
  IsOutcome none r = r ≡ ok false
  IsOutcome (some condition) r = evaluate runtime condition payload ≡ r

  rule_matches-IsOutcome :
      (condition : Option Condition) (r : Result EvalError Bool)
      → rule_matches runtime payload condition ≡ r
      → IsOutcome condition r
  unfolding rule_matches
  rule_matches-IsOutcome none r h = sym h
  rule_matches-IsOutcome (some condition) r h = h

  abbrev pub Verdict : Bool → ResolvedAgent × AgentRule → Type 0
  Verdict b (agent, rule) = IsOutcome rule.condition (ok b)

  abbrev pub NoneMatch : List (ResolvedAgent × AgentRule) → Type 0
  NoneMatch [] = Unit
  NoneMatch (c ∷ cs) = Verdict false c × NoneMatch cs

  NoneMatch-append :
      (xs ys : List (ResolvedAgent × AgentRule))
      → NoneMatch xs
      → NoneMatch ys
      → NoneMatch (xs ++ ys)
  NoneMatch-append [] ys h k = k
  NoneMatch-append (x ∷ xs) ys h k = (h.0, NoneMatch-append xs ys h.1 k)

  -- What a result says of the candidates: the route is that of a candidate that matches, after
  -- candidates that do not; no route, that none matches; an error, that a condition threw after
  -- candidates that do not match.
  abbrev pub IsFirstMatch :
      List (ResolvedAgent × AgentRule) → Result EvalError (Option ResolvedRoute) → Type 0
  IsFirstMatch all (ok none) = NoneMatch all
  IsFirstMatch all (ok (some found)) =
      (before : List (ResolvedAgent × AgentRule)) × (agent : ResolvedAgent) × (rule : AgentRule)
      × (after : List (ResolvedAgent × AgentRule)) × (all ≡ before ++ (agent, rule) ∷ after)
      × NoneMatch before
      × Verdict true (agent, rule)
      × (found ≡ route agent rule)
  IsFirstMatch all (err e) =
      (before : List (ResolvedAgent × AgentRule)) × (agent : ResolvedAgent) × (rule : AgentRule)
      × (after : List (ResolvedAgent × AgentRule)) × (all ≡ before ++ (agent, rule) ∷ after)
      × NoneMatch before
      × IsOutcome rule.condition (err e)

  -- More candidates in front that do not match.
  IsFirstMatch-skip :
      (front all : List (ResolvedAgent × AgentRule)) (r : Result EvalError (Option ResolvedRoute))
      → NoneMatch front
      → IsFirstMatch all r
      → IsFirstMatch (front ++ all) r
  IsFirstMatch-skip front all (ok none) h m = NoneMatch-append front all h m
  IsFirstMatch-skip front all (ok (some found)) h (before, agent, rule, after, e, n, v, f) = (
    front ++ before,
    agent,
    rule,
    after,
    ap (◌++◌ front) e ∙ sym (append_assoc front before ((agent, rule) ∷ after)),
    NoneMatch-append front before h n,
    v,
    f,
  )
  IsFirstMatch-skip front all (err x) h (before, agent, rule, after, e, n, v) = (
    front ++ before,
    agent,
    rule,
    after,
    ap (◌++◌ front) e ∙ sym (append_assoc front before ((agent, rule) ∷ after)),
    NoneMatch-append front before h n,
    v,
  )

  -- Candidates behind do not matter once there is a match or an error.
  IsFirstMatch-found :
      (all more : List (ResolvedAgent × AgentRule)) (found : ResolvedRoute)
      → IsFirstMatch all (ok (some found))
      → IsFirstMatch (all ++ more) (ok (some found))
  IsFirstMatch-found all more found (before, agent, rule, after, e, n, v, f) = (
    before,
    agent,
    rule,
    after ++ more,
    ap (λ l. l ++ more) e ∙ append_assoc before ((agent, rule) ∷ after) more,
    n,
    v,
    f,
  )

  IsFirstMatch-err :
      (all more : List (ResolvedAgent × AgentRule)) (x : EvalError)
      → IsFirstMatch all (err x)
      → IsFirstMatch (all ++ more) (err x)
  IsFirstMatch-err all more x (before, agent, rule, after, e, n, v) = (
    before,
    agent,
    rule,
    after ++ more,
    ap (λ l. l ++ more) e ∙ append_assoc before ((agent, rule) ∷ after) more,
    n,
    v,
  )

  match_rules-IsFirstMatch :
      (agent : ResolvedAgent) (rules : List AgentRule)
      → IsFirstMatch (pairs agent rules) (match_rules runtime payload agent rules)
  unfolding match_rules
  match_rules-IsFirstMatch agent [] = tt
  match_rules-IsFirstMatch agent (rule ∷ rules) =
      step (rule_matches runtime payload rule.condition) refl (match_rules-IsFirstMatch agent rules)
    where
      step :
          (r : Result EvalError Bool)
          → rule_matches runtime payload rule.condition ≡ r
          → IsFirstMatch (pairs agent rules) (match_rules runtime payload agent rules)
          → IsFirstMatch
              ((agent, rule) ∷ pairs agent rules)
              (match_rules runtime payload agent (rule ∷ rules))
      step (ok true) e later =
          rw (e, match_rules)
            ([], agent, rule, pairs agent rules, refl, tt, rule_matches-IsOutcome _ _ e, refl)
      step (ok false) e later =
          rw (e, match_rules)
            (IsFirstMatch-skip ((agent, rule) ∷ []) (pairs agent rules)
              (match_rules runtime payload agent rules) (rule_matches-IsOutcome _ _ e, tt) later)
      step (err x) e later =
          rw (e, match_rules)
            ([], agent, rule, pairs agent rules, refl, tt, rule_matches-IsOutcome _ _ e)

  -- Routing goes to the first match: over the rules for the provider, agent by agent in order, the
  -- result is the route of the first rule whose condition is true, or none exactly when no
  -- condition is true, and an evaluation that throws before that is passed on. A rule without a
  -- condition never matches.
  pub resolve_agent_from_agents-IsFirstMatch :
      (provider : String) (agents : List ResolvedAgent)
      → IsFirstMatch
          (candidates provider agents)
          (resolve_agent_from_agents runtime payload provider agents)
  unfolding resolve_agent_from_agents
  resolve_agent_from_agents-IsFirstMatch provider [] = tt
  resolve_agent_from_agents-IsFirstMatch provider (agent ∷ agents) =
      step (match_rules runtime payload agent own) refl (match_rules-IsFirstMatch agent own)
        (resolve_agent_from_agents-IsFirstMatch provider agents)
    where
      own : List AgentRule
      own = rules_for provider agent

      step :
          (r : Result EvalError (Option ResolvedRoute))
          → match_rules runtime payload agent own ≡ r
          → IsFirstMatch (pairs agent own) r
          → IsFirstMatch
              (candidates provider agents)
              (resolve_agent_from_agents runtime payload provider agents)
          → IsFirstMatch
              (pairs agent own ++ candidates provider agents)
              (resolve_agent_from_agents runtime payload provider (agent ∷ agents))
      step (ok none) e here later =
          rw (e, resolve_agent_from_agents)
            (IsFirstMatch-skip (pairs agent own) (candidates provider agents)
              (resolve_agent_from_agents runtime payload provider agents) here later)
      step (ok (some found)) e here later =
          rw (e, resolve_agent_from_agents)
            (IsFirstMatch-found (pairs agent own) (candidates provider agents) found here)
      step (err x) e here later =
          rw (e, resolve_agent_from_agents)
            (IsFirstMatch-err (pairs agent own) (candidates provider agents) x here)

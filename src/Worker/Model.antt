-- ===== src/Worker/Model.antt =====
-- services/worker.service.ts: the model that a rule of the agent selects for a payload.
use clawndom.Common.{
  String, Bool, false, Option, none, some, List, [], ◌∷◌, ◌==◌, any, if◌then◌else◌,
}
use clawndom.Routing.Json.{Json, str, arr, items}
use clawndom.Routing.FieldPath.{resolve_field_path}

-- `ModelRule`; a single string in `matches` is a list of one.
pub record ModelRule : Type 0 where
  pub field : String
  pub matches : List String
  pub model : String

abbrev pub is_target : List String → Json → Bool
is_target targets (str s) = any (λ target. target == s) targets
is_target targets value = false

abbrev pub field_values : Json → List Json
field_values (arr vs) = items vs
field_values value = value ∷ []

abbrev pub is_matched : List String → Option Json → Bool
is_matched targets none = false
is_matched targets (some value) = any (is_target targets) (field_values value)

-- `resolveModel`; absent rules are the empty list.
unfoldable pub resolve_model : (Json → String → Option Json) → Json → List ModelRule → Option String
unfolding resolve_field_path
resolve_model inherited payload [] = none
resolve_model inherited payload (rule ∷ rules) =
    let rest = resolve_model inherited payload rules in
    if is_matched rule.matches (resolve_field_path inherited payload rule.field)
    then some rule.model
    else rest

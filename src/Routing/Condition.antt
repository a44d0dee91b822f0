-- ===== src/Routing/Condition.antt =====
-- strategies/routing/condition.ts: the condition of a rule and its evaluation. An evaluation that
-- throws is an `err`.
pub mod Meaning
pub mod Decides
pub mod Leaves
pub mod Decision
use clawndom.Common.{
  String, Bool, true, false, not, Option, none, some, List, [], ◌∷◌, if◌then◌else◌, ◌==◌, any,
}
use clawndom.Common.Result.{Result, ok, err}
use clawndom.Routing.Json.{Json, null, bool, num, str, arr, obj, items, stringify}
use clawndom.Routing.FieldPath.{resolve_field_path}

-- `values` of an `in` leaf: the strings, or a `${shared.X}` placeholder.
pub data Values : Type 0 where
  listed : List String → Values
  placeholder : String → Values

mutual
  pub data Condition : Type 0 where
    equals : String → String → Condition
    is_in : String → Values → Condition
    matches : String → String → Option String → Condition
    exists : String → Condition
    any_item : String → Condition → Condition
    all_of : Conditions → Condition
    any_of : Conditions → Condition
    negated : Condition → Condition

  pub data Conditions : Type 0 where
    nil : Conditions
    cons : Condition → Conditions → Conditions

pub data EvalError : Type 0 where
  unresolved_placeholder : String → EvalError
  invalid_regex : EvalError

-- `value !== undefined && value !== null`.
abbrev pub present : Option Json → Option Json
present none = none
present (some null) = none
present (some v) = some v

unfoldable pub stringify_resolved : Json → String
unfolding stringify
stringify_resolved null = ""
stringify_resolved (bool true) = "true"
stringify_resolved (bool false) = "false"
stringify_resolved (num n) = n
stringify_resolved (str s) = s
stringify_resolved value = stringify value

-- Whether the value passes, or one of its elements if it is an array.
pub some_text : (String → Bool) → Json → Bool
some_text test (arr vs) = any (λ element. test (stringify_resolved element)) (items vs)
some_text test value = test (stringify_resolved value)

-- `xs.some(test)` and `xs.every(test)` for a test that may throw.
abbrev pub some_result {ℓ} :
    {A : Type ℓ} → (A → Result EvalError Bool) → List A → Result EvalError Bool
some_result test [] = ok false
some_result test (x ∷ xs) = elim (test x) [
  | ok true ↦ ok true
  | ok false ↦ some_result test xs
  | err e ↦ err e
]

-- The built-in `RegExp`: `none` where `new RegExp(pattern, flags)` throws.
pub record Runtime : Type 0 where
  pub inherited : Json → String → Option Json
  pub regexp : String → Option String → Option (String → Bool)

abbrev pub is_present : Option Json → Bool
is_present none = false
is_present (some v) = true

-- The elements of an array at a path; nothing if there is no array.
abbrev pub elements : Option Json → List Json
elements (some (arr vs)) = items vs
elements other = []

abbrev pub negate : Result EvalError Bool → Result EvalError Bool
negate (ok b) = ok (not b)
negate (err e) = err e

module _ (runtime : Runtime) where
  open runtime use {inherited, regexp}

  unfoldable pub evaluate_equals : Json → String → String → Bool
  unfolding some_text
  evaluate_equals payload field target =
      elim (present (resolve_field_path inherited payload field)) [
        | none ↦ false
        | some resolved ↦ some_text (λ text. text == target) resolved
      ]

  unfoldable pub evaluate_in : Json → String → Values → Result EvalError Bool
  unfolding some_text
  evaluate_in payload field (placeholder name) = err (unresolved_placeholder name)
  evaluate_in payload field (listed values) =
      elim (present (resolve_field_path inherited payload field)) [
        | none ↦ ok false
        | some resolved ↦ ok (some_text (λ text. any (λ value. value == text) values) resolved)
      ]

  pub test_with : Option (String → Bool) → Json → Result EvalError Bool
  unfolding some_text
  test_with none resolved = err invalid_regex
  test_with (some regex) resolved = ok (some_text regex resolved)

  unfoldable pub evaluate_matches : Json → String → String → Option String → Result EvalError Bool
  unfolding test_with
  evaluate_matches payload field pattern flags =
      elim (present (resolve_field_path inherited payload field)) [
        | none ↦ ok false
        | some resolved ↦ test_with (regexp pattern flags) resolved
      ]

  unfoldable pub evaluate_exists : Json → String → Bool
  evaluate_exists payload field = is_present (present (resolve_field_path inherited payload field))

  unfoldable mutual
    pub evaluate : Condition → Json → Result EvalError Bool
    evaluate (equals field target) payload = ok (evaluate_equals payload field target)
    evaluate (is_in field values) payload = evaluate_in payload field values
    evaluate (matches field pattern flags) payload = evaluate_matches payload field pattern flags
    evaluate (exists field) payload = ok (evaluate_exists payload field)
    evaluate (any_item path inner) payload =
        some_result (evaluate inner) (elements (resolve_field_path inherited payload path))
    evaluate (all_of cs) payload = evaluate_all cs payload
    evaluate (any_of cs) payload = evaluate_any cs payload
    evaluate (negated c) payload = negate (evaluate c payload)

    pub evaluate_all : Conditions → Json → Result EvalError Bool
    evaluate_all nil payload = ok true
    evaluate_all (cons c cs) payload = elim (evaluate c payload) [
      | ok true ↦ evaluate_all cs payload
      | ok false ↦ ok false
      | err e ↦ err e
    ]

    pub evaluate_any : Conditions → Json → Result EvalError Bool
    evaluate_any nil payload = ok false
    evaluate_any (cons c cs) payload = elim (evaluate c payload) [
      | ok true ↦ ok true
      | ok false ↦ evaluate_any cs payload
      | err e ↦ err e
    ]

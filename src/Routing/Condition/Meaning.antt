-- ===== src/Routing/Condition/Meaning.antt =====
-- What a condition says of a payload, stated without the evaluator.
use mathlib.Core.List.{Memᴰ}
use clawndom.Common.{String, Bool, true, ◌≡◌, ◌≢◌, ◌⊎◌, Option, some, List, [], ◌∷◌, map}
use clawndom.Routing.Json.{Json, null, arr, items}
use clawndom.Routing.FieldPath.{resolve_field_path}
use clawndom.Routing.Condition.{
  listed, placeholder, Condition, equals, is_in, matches, exists, any_item, all_of, any_of, negated,
  Conditions, nil, cons, stringify_resolved, Runtime, elements,
}

-- The texts that a leaf looks at: of each element of an array, or of the value itself.
abbrev pub texts : Json → List String
texts (arr vs) = map stringify_resolved (items vs)
texts value = stringify_resolved value ∷ []

-- The text of a value that is neither missing nor null.
abbrev pub TextOf : Option Json → String → Type 0
TextOf r text = (v : Json) × (r ≡ some v) × (v ≢ null) × Memᴰ text (texts v)

module _ (runtime : Runtime) where
  open runtime use {inherited, regexp}

  -- The value at a field, which is neither missing nor null, has a text.
  abbrev pub HasText : Json → String → String → Type 0
  HasText payload field text = TextOf (resolve_field_path inherited payload field) text

  -- `not` and the lists make this a definition by recursion.
  unfoldable mutual
    pub Holds : Condition → Json → Type 0
    Holds (equals field target) payload = HasText payload field target
    Holds (is_in field (placeholder name)) payload = ⊥
    Holds (is_in field (listed values)) payload =
        (text : String) × Memᴰ text values × HasText payload field text
    Holds (matches field pattern flags) payload =
        (regex : (String → Bool)) × (text : String) × (regexp pattern flags ≡ some regex)
        × (regex text ≡ true)
        × HasText payload field text
    Holds (exists field) payload =
        (v : Json) × (resolve_field_path inherited payload field ≡ some v) × (v ≢ null)
    Holds (any_item path inner) payload =
        (item : Json) × Memᴰ item (elements (resolve_field_path inherited payload path))
        × Holds inner item
    Holds (all_of cs) payload = HoldAll cs payload
    Holds (any_of cs) payload = HoldsAny cs payload
    Holds (negated c) payload = ¬ Holds c payload

    pub HoldAll : Conditions → Json → Type 0
    HoldAll nil payload = Unit
    HoldAll (cons c cs) payload = Holds c payload × HoldAll cs payload

    pub HoldsAny : Conditions → Json → Type 0
    HoldsAny nil payload = ⊥
    HoldsAny (cons c cs) payload = Holds c payload ⊎ HoldsAny cs payload

  -- No placeholder is left in the condition, and its patterns are valid.
  unfoldable mutual
    pub IsResolved : Condition → Type 0
    IsResolved (is_in field (placeholder name)) = ⊥
    IsResolved (matches field pattern flags) =
        (regex : (String → Bool)) × (regexp pattern flags ≡ some regex)
    IsResolved (any_item path inner) = IsResolved inner
    IsResolved (all_of cs) = AreResolved cs
    IsResolved (any_of cs) = AreResolved cs
    IsResolved (negated c) = IsResolved c
    IsResolved other = Unit

    pub AreResolved : Conditions → Type 0
    AreResolved nil = Unit
    AreResolved (cons c cs) = IsResolved c × AreResolved cs

-- ===== src/Routing/Condition/Decision.antt =====
-- The evaluator decides the meaning of a condition.
use clawndom.Common.{Bool, true, false, ◌≡◌, refl, ◌↔◌, ◌⊎◌, inl, inr}
use clawndom.Common.Result.{Result, ok, err}
use clawndom.Routing.Json.{Json}
use clawndom.Routing.FieldPath.{resolve_field_path}
use clawndom.Routing.Condition.{
  listed, placeholder, Condition, equals, is_in, matches, exists, any_item, all_of, any_of, negated,
  Conditions, nil, cons, EvalError, Runtime, elements, evaluate, evaluate_all, evaluate_any,
}
use clawndom.Routing.Condition.Meaning.{Holds, HoldAll, HoldsAny, IsResolved, AreResolved}
use clawndom.Routing.Condition.Decides.{
  Decides, Decides-negate, Decides-iff, Decides-some_result, Decides-total,
}
use clawndom.Routing.Condition.Leaves.{
  evaluate_equals-Decides, evaluate_in-Decides, evaluate_matches-Decides, evaluate_exists-Decides,
}

module _ (runtime : Runtime) where
  open runtime use {inherited, regexp}

  Decides-all :
      (r : Result EvalError Bool) (c : Condition) (cs : Conditions) (payload : Json)
      → evaluate runtime c payload ≡ r
      → Decides r (Holds runtime c payload)
      → Decides (evaluate_all runtime cs payload) (HoldAll runtime cs payload)
      → Decides (evaluate_all runtime (cons c cs) payload) (HoldAll runtime (cons c cs) payload)
  unfolding evaluate HoldAll
  Decides-all (ok true) c cs payload e here later =
      rw (e, evaluate_all)
        (Decides-iff (evaluate_all runtime cs payload) (HoldAll runtime cs payload)
          (Holds runtime c payload × HoldAll runtime cs payload) (λ q. (here, q)) (λ q. q.1) later)
  Decides-all (ok false) c cs payload e here later = rw (e, evaluate_all) (λ q. here q.0)
  Decides-all (err error) c cs payload e here later = absurd here

  Decides-any :
      (r : Result EvalError Bool) (c : Condition) (cs : Conditions) (payload : Json)
      → evaluate runtime c payload ≡ r
      → Decides r (Holds runtime c payload)
      → Decides (evaluate_any runtime cs payload) (HoldsAny runtime cs payload)
      → Decides (evaluate_any runtime (cons c cs) payload) (HoldsAny runtime (cons c cs) payload)
  unfolding evaluate HoldsAny
  Decides-any (ok true) c cs payload e here later = rw (e, evaluate_any) (inl here)
  Decides-any (ok false) c cs payload e here later =
      rw (e, evaluate_any)
        (Decides-iff (evaluate_any runtime cs payload) (HoldsAny runtime cs payload)
          (Holds runtime c payload ⊎ HoldsAny runtime cs payload) inr
          (λ q. elim q [ inl h ↦ absurd (here h) | inr h ↦ h ]) later)
  Decides-any (err error) c cs payload e here later = absurd here

  mutual
    unfolding evaluate Holds IsResolved

    decides :
        (c : Condition)
        → IsResolved runtime c
        → (payload : Json) → Decides (evaluate runtime c payload) (Holds runtime c payload)
    decides (equals field target) w payload = evaluate_equals-Decides runtime payload field target
    decides (is_in field (listed values)) w payload =
        evaluate_in-Decides runtime payload field values
    decides (is_in field (placeholder name)) w payload = absurd w
    decides (matches field pattern flags) w payload =
        evaluate_matches-Decides runtime payload field pattern flags w.0 w.1
    decides (exists field) w payload = evaluate_exists-Decides runtime payload field
    decides (any_item path inner) w payload =
        Decides-some_result (evaluate runtime inner) (Holds runtime inner) (decides inner w)
          (elements (resolve_field_path inherited payload path))
    decides (all_of cs) w payload = decides_all cs w payload
    decides (any_of cs) w payload = decides_any cs w payload
    decides (negated c) w payload =
        Decides-negate (evaluate runtime c payload) (Holds runtime c payload) (decides c w payload)

    decides_all :
        (cs : Conditions)
        → AreResolved runtime cs
        → (payload : Json) → Decides (evaluate_all runtime cs payload) (HoldAll runtime cs payload)
    decides_all nil w payload = tt
    decides_all (cons c cs) w payload =
        Decides-all (evaluate runtime c payload) c cs payload refl (decides c w.0 payload)
          (decides_all cs w.1 payload)

    decides_any :
        (cs : Conditions)
        → AreResolved runtime cs
        → (payload : Json) → Decides (evaluate_any runtime cs payload) (HoldsAny runtime cs payload)
    decides_any nil w payload = λ h. h
    decides_any (cons c cs) w payload =
        Decides-any (evaluate runtime c payload) c cs payload refl (decides c w.0 payload)
          (decides_any cs w.1 payload)

  -- On a condition with no placeholder left and valid patterns the evaluation never throws, and it
  -- answers true exactly when the condition holds of the payload.
  pub evaluate-Holds :
      (c : Condition) (payload : Json)
      → IsResolved runtime c
      → (b : Bool) × (evaluate runtime c payload ≡ ok b) × ((b ≡ true) ↔ Holds runtime c payload)
  evaluate-Holds c payload w =
      Decides-total (evaluate runtime c payload) (Holds runtime c payload) (decides c w payload)

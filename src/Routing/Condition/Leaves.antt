-- ===== src/Routing/Condition/Leaves.antt =====
-- The four leaf conditions decide their meaning.
use mathlib.Core.List.{Memᴰ}
use mathlib.Core.Path.{subst}
use mathlib.Core.Option.{some-injective}
use clawndom.Common.{
  String, Bool, true, false, ◌≡◌, ◌≢◌, refl, sym, ap, ◌∙◌, inl, inr, Option, none, some, List, [],
  ◌∷◌, map, arith, ◌==◌, eq_iff, eq_refl, any, Bool-cases,
}
use clawndom.Common.Result.{Result, ok}
use clawndom.Routing.Json.{Json, null, arr, items}
use clawndom.Routing.FieldPath.{resolve_field_path}
use clawndom.Routing.Condition.{
  listed, matches, exists, EvalError, present, stringify_resolved, some_text, Runtime,
  evaluate_equals, evaluate_in, evaluate_matches, evaluate_exists, test_with, is_present,
}
use clawndom.Routing.Condition.Meaning.{texts, TextOf, HasText, Holds}
use clawndom.Routing.Condition.Decides.{Decides, Decides-bool}

module _ {ℓ} {A : Type ℓ} (p : A → Bool) where
  any_of_mem : {x : A} {xs : List A} → Memᴰ x xs → p x ≡ true → any p xs ≡ true
  any_of_mem (Memᴰ.head e) h = ground arith
  any_of_mem (Memᴰ.tail m) h = ground (arith, any_of_mem m h)

  mem_of_any : (xs : List A) → any p xs ≡ true → (x : A) × Memᴰ x xs × (p x ≡ true)
  mem_of_any [] h = cc
  mem_of_any (x ∷ xs) h = elim (Bool-cases (p x)) [
    | inl e ↦ (x, Memᴰ.head refl, e)
    | inr e ↦ let (y, m, q) = mem_of_any xs (rw e at h) in (y, Memᴰ.tail m, q)
  ]

any-map {ℓ κ} :
    {A : Type ℓ} {B : Type κ} (f : A → B) (p : B → Bool) (xs : List A)
    → any p (map f xs) ≡ any (λ x. p (f x)) xs
any-map f p [] = refl
any-map f p (x ∷ xs) = rw (any-map f p xs)

some_text-any : (test : String → Bool) (v : Json) → some_text test v ≡ any test (texts v)
unfolding some_text
some_text-any test (arr vs) = sym (any-map stringify_resolved test (items vs))
some_text-any test v = ground arith

-- The test that the leaves make.
abbrev tested : Option Json → (String → Bool) → Bool
tested r test = elim (present r) [ none ↦ false | some v ↦ some_text test v ]

tested_sound :
    (r : Option Json) (test : String → Bool)
    → tested r test ≡ true
    → (text : String) × TextOf r text × (test text ≡ true)
tested_sound none test h = cc
tested_sound (some null) test h = cc
tested_sound (some v) test h =
    let (text, m, q) = mem_of_any test (texts v) (sym (some_text-any test v) ∙ h) in
    (text, (v, refl, λ e. cc, m), q)

tested_complete :
    (r : Option Json) (test : String → Bool) (text : String)
    → TextOf r text
    → test text ≡ true
    → tested r test ≡ true
tested_complete none test text h q = cc (h.1)
tested_complete (some null) test text h q = let e : h.0 ≡ null = cc (h.1) in absurd (h.2 e)
tested_complete (some w) test text h q =
    let e : texts w ≡ texts h.0 = cc (h.1) in
    some_text-any test w ∙ ap (any test) e ∙ any_of_mem test h.3 q

module _ (runtime : Runtime) where
  open runtime use {inherited, regexp}

  pub evaluate_equals-Decides :
      (payload : Json) (field target : String)
      → Decides
          (ok (evaluate_equals runtime payload field target))
          (HasText runtime payload field target)
  unfolding evaluate_equals
  evaluate_equals-Decides payload field target =
      let r = resolve_field_path inherited payload field in
      let test = λ (text : String). text == target in
      Decides-bool (tested r test) (TextOf r target)
        (λ h.
          let (text, has, q) = tested_sound r test h in
          subst (TextOf r) ((eq_iff text target).0 q) has)
        (λ h. tested_complete r test target h (eq_refl target))

  pub evaluate_in-Decides :
      (payload : Json) (field : String) (values : List String)
      → Decides
          (evaluate_in runtime payload field (listed values))
          ((text : String) × Memᴰ text values × HasText runtime payload field text)
  unfolding evaluate_in
  evaluate_in-Decides payload field values =
      let r = resolve_field_path inherited payload field in
      let test = λ (text : String). any (λ value. value == text) values in
      rw (in-tested (present r) test) (
        Decides-bool (tested r test) ((text : String) × Memᴰ text values × TextOf r text)
          (λ h.
            let (text, has, q) = tested_sound r test h in
            let (value, m, same) = mem_of_any (λ value. value == text) values q in
            (value, m, subst (TextOf r) (sym ((eq_iff value text).0 same)) has))
          (λ h.
            tested_complete r test h.0 h.2 (any_of_mem (λ value. value == h.0) h.1 (eq_refl h.0))))
    where
      in-tested :
          (o : Option Json) (test : String → Bool)
          → elim o as (λ x. Result EvalError Bool) [
            | none ↦ ok false
            | some v ↦ ok (some_text test v)
          ]
            ≡ ok (elim o [ none ↦ false | some v ↦ some_text test v ])
      in-tested none test = refl
      in-tested (some v) test = refl

  pub evaluate_matches-Decides :
      (payload : Json) (field pattern : String) (flags : Option String) (regex : String → Bool)
      → regexp pattern flags ≡ some regex
      → Decides
          (evaluate_matches runtime payload field pattern flags)
          (Holds runtime (matches field pattern flags) payload)
  unfolding evaluate_matches test_with Holds
  evaluate_matches-Decides payload field pattern flags regex e =
      let r = resolve_field_path inherited payload field in
      rw (with-tested (present r) (regexp pattern flags) e) (
        Decides-bool (tested r regex)
          ((f : (String → Bool)) × (text : String) × (regexp pattern flags ≡ some f)
            × (f text ≡ true)
            × TextOf r text)
          (λ h. let (text, has, q) = tested_sound r regex h in (regex, text, e, q, has))
          (λ h.
            let same : h.0 ≡ regex = some-injective h.0 regex (sym h.2 ∙ e) in
            tested_complete r regex h.1 h.4 (ap (λ (f : String → Bool). f h.1) (sym same) ∙ h.3)))
    where
      with-tested :
          (o : Option Json) (x : Option (String → Bool))
          → x ≡ some regex
          → elim o as (λ y. Result EvalError Bool) [
            | none ↦ ok false
            | some v ↦ test_with runtime x v
          ]
            ≡ ok (elim o [ none ↦ false | some v ↦ some_text regex v ])
      with-tested none x q = refl
      with-tested (some v) x q = rw q

  pub evaluate_exists-Decides :
      (payload : Json) (field : String)
      → Decides (ok (evaluate_exists runtime payload field)) (Holds runtime (exists field) payload)
  unfolding evaluate_exists Holds
  evaluate_exists-Decides payload field = go (resolve_field_path inherited payload field)
    where
      go :
          (r : Option Json)
          → Decides (ok (is_present (present r))) ((v : Json) × (r ≡ some v) × (v ≢ null))
      go none = λ h. cc (h.1)
      go (some null) = λ h. let e : h.0 ≡ null = cc (h.1) in h.2 e
      go (some v) = (v, refl, λ e. cc)

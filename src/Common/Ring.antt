-- ===== src/Common/Ring.antt =====
-- The bounded newest-first list of the dashboard registries:
-- `ring.unshift(entry); if (ring.length > capacity) ring.length = capacity`.
use Prim.Native.Nat.{ℕ, zero, suc}
use mathlib.Core.Path.{◌≡◌, refl, ap, ◌∙◌}
use mathlib.Core.List.{List, ◌∷◌}
use native.Mathlib.Omega.{arith}
use clawndom.Common.Tests.{ltb, if◌then◌else◌}
use clawndom.Common.Lists.{length, take, take-take_le, take_all}

module _ {ℓ} {A : Type ℓ} where
  unfoldable pub unshift : ℕ → A → List A → List A
  unshift capacity entry ring =
      let longer = entry ∷ ring in
      if ltb capacity (length longer) then take capacity longer else longer

  pub unshift-eq-take :
      (capacity : ℕ) (entry : A) (ring : List A)
      → unshift capacity entry ring ≡ take capacity (entry ∷ ring)
  unfolding unshift
  unshift-eq-take capacity entry ring = ground (arith, take_all capacity (entry ∷ ring))

  take-cons-take : (n : ℕ) (x : A) (xs : List A) → take n (x ∷ take n xs) ≡ take n (x ∷ xs)
  take-cons-take zero x xs = refl
  take-cons-take (suc n) x xs = ap (◌∷◌ x) (take-take_le n (suc n) xs (omega arith))

  -- A ring that holds the newest entries of a log still does after one more entry.
  pub unshift-take :
      (capacity : ℕ) (entry : A) (log : List A)
      → unshift capacity entry (take capacity log) ≡ take capacity (entry ∷ log)
  unshift-take capacity entry log =
      unshift-eq-take capacity entry (take capacity log) ∙ take-cons-take capacity entry log

-- ===== src/Routing/Condition/Decides.antt =====
-- Results that decide a proposition.
use mathlib.Core.List.{Memᴰ}
use mathlib.Core.Path.{subst}
use clawndom.Common.{Bool, true, false, ◌≡◌, refl, ◌↔◌, List, [], ◌∷◌}
use clawndom.Common.Result.{Result, ok, err}
use clawndom.Routing.Condition.{EvalError, some_result, negate}

-- A result says truly whether the proposition holds.
abbrev pub Decides : Result EvalError Bool → Type 0 → Type 0
Decides (ok true) P = P
Decides (ok false) P = ¬ P
Decides (err e) P = ⊥

pub Decides-bool : (b : Bool) (P : Type 0) → (b ≡ true → P) → (P → b ≡ true) → Decides (ok b) P
Decides-bool true P sound complete = sound refl
Decides-bool false P sound complete = λ h. let e = complete h in cc

pub Decides-negate :
    (r : Result EvalError Bool) (P : Type 0) → Decides r P → Decides (negate r) (¬ P)
Decides-negate (ok true) P d = λ n. n d
Decides-negate (ok false) P d = d
Decides-negate (err e) P d = d

pub Decides-iff :
    (r : Result EvalError Bool) (P Q : Type 0) → (P → Q) → (Q → P) → Decides r P → Decides r Q
Decides-iff (ok true) P Q f g d = f d
Decides-iff (ok false) P Q f g d = λ q. d (g q)
Decides-iff (err e) P Q f g d = d

module _ {A : Type 0} (test : A → Result EvalError Bool) (P : A → Type 0) where
  Decides-some_cons :
      (x : A) (xs : List A) (r : Result EvalError Bool)
      → test x ≡ r
      → Decides r (P x)
      → Decides (some_result test xs) ((y : A) × Memᴰ y xs × P y)
      → Decides (some_result test (x ∷ xs)) ((y : A) × Memᴰ y (x ∷ xs) × P y)
  Decides-some_cons x xs (ok true) e here later = rw (e, some_result) (x, Memᴰ.head refl, here)
  Decides-some_cons x xs (ok false) e here later =
      rw (e, some_result)
        (Decides-iff (some_result test xs) ((y : A) × Memᴰ y xs × P y)
          ((y : A) × Memᴰ y (x ∷ xs) × P y) (λ q. (q.0, Memᴰ.tail q.1, q.2)) (λ q. pass q.0 q.1 q.2)
          later)
    where
      pass : (y : A) → Memᴰ y (x ∷ xs) → P y → (z : A) × Memᴰ z xs × P z
      pass y (Memᴰ.head same) h = absurd (here (subst P same h))
      pass y (Memᴰ.tail m) h = (y, m, h)
  Decides-some_cons x xs (err error) e here later = absurd here

  pub Decides-some_result :
      ((x : A) → Decides (test x) (P x))
      → (xs : List A) → Decides (some_result test xs) ((x : A) × Memᴰ x xs × P x)
  Decides-some_result d [] = λ h. elim h.1 [ ]
  Decides-some_result d (x ∷ xs) =
      Decides-some_cons x xs (test x) refl (d x) (Decides-some_result d xs)

pub Decides-total :
    (r : Result EvalError Bool) (P : Type 0)
    → Decides r P
    → (b : Bool) × (r ≡ ok b) × ((b ≡ true) ↔ P)
Decides-total (ok true) P d = (true, refl, (λ e. d, λ p. refl))
Decides-total (ok false) P d = (false, refl, (λ e. cc, λ p. absurd (d p)))
Decides-total (err e) P d = absurd d

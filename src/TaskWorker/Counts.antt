-- ===== src/TaskWorker/Counts.antt =====
-- What the log of the worker says: runs, and bundles built and cleaned up.
use clawndom.Common.{ℕ, suc, ◌+◌, List, [], ◌∷◌, ◌++◌, ◌≡◌, arith}
use clawndom.TaskWorker.{Action, built, ran, cleaned}

-- How often a runner was called.
unfoldable pub count_runs : List Action → ℕ
count_runs [] = 0
count_runs (built request ∷ actions) = count_runs actions
count_runs (ran request ∷ actions) = suc (count_runs actions)
count_runs (cleaned request ∷ actions) = count_runs actions

-- How many bundles were built, and how many were cleaned up.
unfoldable pub count_built : List Action → ℕ
count_built [] = 0
count_built (built request ∷ actions) = suc (count_built actions)
count_built (ran request ∷ actions) = count_built actions
count_built (cleaned request ∷ actions) = count_built actions

unfoldable pub count_cleaned : List Action → ℕ
count_cleaned [] = 0
count_cleaned (built request ∷ actions) = count_cleaned actions
count_cleaned (ran request ∷ actions) = count_cleaned actions
count_cleaned (cleaned request ∷ actions) = suc (count_cleaned actions)

pub count_runs-append :
    (xs ys : List Action) → count_runs (xs ++ ys) ≡ count_runs xs + count_runs ys
unfolding count_runs
count_runs-append [] ys = omega arith
count_runs-append (built request ∷ xs) ys = omega (arith, count_runs-append xs ys)
count_runs-append (ran request ∷ xs) ys = omega (arith, count_runs-append xs ys)
count_runs-append (cleaned request ∷ xs) ys = omega (arith, count_runs-append xs ys)

pub count_built-append :
    (xs ys : List Action) → count_built (xs ++ ys) ≡ count_built xs + count_built ys
unfolding count_built
count_built-append [] ys = omega arith
count_built-append (built request ∷ xs) ys = omega (arith, count_built-append xs ys)
count_built-append (ran request ∷ xs) ys = omega (arith, count_built-append xs ys)
count_built-append (cleaned request ∷ xs) ys = omega (arith, count_built-append xs ys)

pub count_cleaned-append :
    (xs ys : List Action) → count_cleaned (xs ++ ys) ≡ count_cleaned xs + count_cleaned ys
unfolding count_cleaned
count_cleaned-append [] ys = omega arith
count_cleaned-append (built request ∷ xs) ys = omega (arith, count_cleaned-append xs ys)
count_cleaned-append (ran request ∷ xs) ys = omega (arith, count_cleaned-append xs ys)
count_cleaned-append (cleaned request ∷ xs) ys = omega (arith, count_cleaned-append xs ys)

-- ===== src/ScheduledTasks/Collisions.antt =====
-- Which ids of agents' tasks are the same.
use clawndom.Common.{ℕ, suc, String}

-- The number of characters of a text.
unfoldable pub size : String → ℕ
size String.[] = 0
size (String.◌∷◌ c text) = suc (size text)

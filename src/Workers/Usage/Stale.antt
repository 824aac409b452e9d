-- ===== src/Workers/Usage/Stale.antt =====
-- src/workers/manager.cpp, `merge_usage`: the total of reports that name no total.
use laso.Base.{ℕ, ◌+◌, ◌≤◌, ◌≡◌, refl, Bool, none, some, List, [], ◌∷◌, arith}
use laso.Workers.Usage.{WorkerUsage, max_uint, merge_usage, total_tokens}

module _ {Json Cost : Type 0} (is_object : Json → Bool) (update : Json → Json → Json) where
  unfoldable pub merge_all :
      WorkerUsage Json Cost → List (WorkerUsage Json Cost) → WorkerUsage Json Cost
  unfolding merge_usage
  merge_all u [] = u
  merge_all u (report ∷ rest) = merge_all (merge_usage is_object update u report) rest

  -- No report names a total.
  unfoldable pub OnlyCounts : List (WorkerUsage Json Cost) → Type 0
  OnlyCounts [] = Unit {0}
  OnlyCounts (report ∷ rest) = (report.total_tokens ≡ none) × OnlyCounts rest

  total_stays :
      (u : WorkerUsage Json Cost) (t : ℕ) (reports : List (WorkerUsage Json Cost))
      → u.total_tokens ≡ some t
      → OnlyCounts reports
      → total_tokens (merge_all u reports) ≡ some t
  unfolding merge_all merge_usage OnlyCounts total_tokens
  total_stays u t [] h only = rw h refl
  total_stays u t (report ∷ rest) h (no_total, only) =
      total_stays (merge_usage is_object update u report) t rest (rw (no_total, h) refl) only

  -- Once a job without a total has reported counts of input and output tokens `a` and `b`, whose sum is
  -- at most 2^64 - 1, and no total, its total is their sum; and it stays so whatever counts are reported
  -- later without a total.
  pub first_total_stays :
      (u first : WorkerUsage Json Cost) (a b : ℕ) (later : List (WorkerUsage Json Cost))
      → u.total_tokens ≡ none
      → first.total_tokens ≡ none
      → first.input_tokens ≡ some a
      → first.output_tokens ≡ some b
      → a + b ≤ max_uint
      → OnlyCounts later
      → total_tokens (merge_all u (first ∷ later)) ≡ some (a + b)
  unfolding merge_all merge_usage
  first_total_stays u first a b later old none_named input output small only =
      total_stays (merge_usage is_object update u first) (a + b) later
        (rw (none_named, old, input, output) (ground (arith, small))) only

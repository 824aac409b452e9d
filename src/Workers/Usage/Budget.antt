-- ===== src/Workers/Usage/Budget.antt =====
-- src/workers/manager.cpp, `budget_violation`: what a job without a violation has used.
use laso.Base.{
  ℕ, String, ◌+◌, ◌*◌, ◌≤◌, ◌≡◌, refl, sym, ==_iff, ◌⊎◌, Bool, true, false, ◌&&◌, ◌||◌, Option,
  none, some, List, [], ◌∷◌, arith, codes, ltb, ◌==◌, Bool-cases, Option-cases, inl, inr,
  if◌then◌else◌,
}
use laso.Pipeline.Reference.{Bytes}
use laso.Security.{bytes_eq}
use laso.Tables.{first_rows}
use laso.Workers.{WorkerJob}
use laso.Workers.Usage.{
  WorkerUsage, JobBody, CostOps, WorkerLimits, total_tokens, prior_usage, add_tokens, above,
  tokens_exceed, metrics_exceed, long_identity, bad_cost, run_violation, budget_violation,
}

abbrev pub reported : Option ℕ → ℕ
reported none = 0
reported (some n) = n

-- A limit that is set holds for what a job reports on top of `prior`.
abbrev pub Within : ℕ → ℕ → Option ℕ → Type 0
Within limit prior o = (limit ≡ 0) ⊎ (o ≡ none) ⊎ (prior + reported o ≤ limit)

tokens_exceed-false :
    (limit prior : ℕ) (o : Option ℕ) → tokens_exceed limit prior o ≡ false → Within limit prior o
tokens_exceed-false limit prior none h = inr (inl refl)
tokens_exceed-false limit prior (some k) h = elim (Bool-cases (limit == 0)) [
  | inl h0 ↦ inl ((==_iff limit 0).0 h0)
  | inr h0 ↦ inr (inr (ground (arith, h0)))
]

above-false : (limit : ℕ) (o : Option ℕ) → above limit o ≡ false → Within limit 0 o
above-false limit none h = inr (inl refl)
above-false limit (some n) h = ground arith

add_tokens-sum :
    {Cost : Type 0} (c : CostOps Cost) (k : Option ℕ) (cost : Option Cost) (sums sums' : ℕ × Cost)
    → add_tokens c k cost sums ≡ some sums'
    → sums'.0 ≡ sums.0 + reported k
add_tokens-sum c none cost sums sums' h = ground arith
add_tokens-sum c (some k) cost sums sums' h = ground arith

-- What follows a test that has found nothing.
past_none :
    (b : Bool) (text : String) {rest : Option String}
    → (if b then some text else rest) ≡ none
    → (b ≡ false) × (rest ≡ none)
past_none true text h = cc h
past_none false text h = (refl, h)

module _ {Json Cost : Type 0} (c : CostOps Cost) where
  -- The tokens that the jobs but one have reported, as an unbounded sum.
  unfoldable pub spent_tokens : Bytes → List (Bytes × WorkerJob (JobBody Json Cost)) → ℕ
  spent_tokens id [] = 0
  spent_tokens id ((key, prior) ∷ rest) =
      (if bytes_eq (codes prior.id) id then 0 else reported (total_tokens prior.body.usage))
      + spent_tokens id rest

  prior_usage-sum :
      (id : Bytes) (rows : List (Bytes × WorkerJob (JobBody Json Cost))) (sums sums' : ℕ × Cost)
      → prior_usage c id rows sums ≡ some sums'
      → sums'.0 ≡ sums.0 + spent_tokens id rows
  unfolding prior_usage spent_tokens
  prior_usage-sum id [] sums sums' h = ground arith
  prior_usage-sum id ((key, prior) ∷ rest) sums sums' h =
      let k = total_tokens prior.body.usage in
      elim (Bool-cases (bytes_eq (codes prior.id) id)) [
        | inl same ↦
            rw same
              (omega (arith, prior_usage-sum id rest sums sums' (rw (same, prior_usage) at h)))
        | inr other ↦ elim (Option-cases (add_tokens c k prior.body.usage.cost_units sums)) [
          | inl too_much ↦ cc (rw (other, too_much, prior_usage) at h)
          | inr (mid, added) ↦ rw other (
              omega (
                arith,
                add_tokens-sum c k prior.body.usage.cost_units sums mid added,
                prior_usage-sum id rest mid sums' (rw (other, added, prior_usage) at h),
              ))
        ]
      ]

  run_violation-none :
      (m : WorkerLimits Cost) (u : WorkerUsage Json Cost) (o : Option (ℕ × Cost)) (spent : ℕ)
      → ((sums : ℕ × Cost) → o ≡ some sums → (m.max_tokens_per_run ≡ 0) ⊎ (sums.0 ≡ spent))
      → run_violation c m u o ≡ none
      → Within m.max_tokens_per_run spent (total_tokens u)
  run_violation-none m u none spent sum h = cc h
  run_violation-none m u (some sums) spent sum h =
      let (fits, _) =
        past_none (tokens_exceed m.max_tokens_per_run sums.0 (total_tokens u))
          "worker token budget exceeded" h in
      elim (sum sums refl) [
        | inl off ↦ inl off
        | inr same ↦
            rw (sym same) (tokens_exceed-false m.max_tokens_per_run sums.0 (total_tokens u) fits)
      ]

  module _ (dump_size : Json → ℕ) (m : WorkerLimits Cost)
      (rows : List (Bytes × WorkerJob (JobBody Json Cost))) where
    run_sums :
        (id : Bytes) (sums : ℕ × Cost)
        → (if m.max_tokens_per_run == 0 && c.off m.max_cost_units_per_run
            then some (0, c.zero_cost)
            else prior_usage c id (first_rows 10000 rows) (0, c.zero_cost))
          ≡ some sums
        → (m.max_tokens_per_run ≡ 0) ⊎ (sums.0 ≡ spent_tokens id (first_rows 10000 rows))
    run_sums id sums h = elim (Bool-cases (m.max_tokens_per_run == 0)) [
      | inl off ↦ inl ((==_iff m.max_tokens_per_run 0).0 off)
      | inr on ↦ inr (
          omega
            (arith, prior_usage-sum id (first_rows 10000 rows) (0, c.zero_cost) sums (rw on at h)))
    ]

    -- A job without a violation is within the budgets that are set: with the tokens that the other listed
    -- jobs of its run have reported, summed up without a bound, its own tokens are at most
    -- max_tokens_per_run, and its wall time is at most max_wall_time_ms.
    pub no_violation_within :
        (value : WorkerJob (JobBody Json Cost))
        → budget_violation c dump_size m rows value ≡ none
        → Within m.max_tokens_per_run
            (spent_tokens (codes value.id) (first_rows 10000 rows))
            (total_tokens value.body.usage)
          × Within m.max_wall_time_ms 0 value.body.usage.wall_duration_ms
    unfolding budget_violation
    no_violation_within value h =
        let u = value.body.usage in
        let (_, h1) =
          past_none (metrics_exceed u) "reported worker usage exceeds the representable limit" h in
        let (_, h2) =
          past_none (ltb (64 * 1024) (dump_size u.metadata))
            "worker usage metadata exceeds the limit" h1 in
        let (_, h3) =
          past_none (long_identity u.provider || long_identity u.model || long_identity u.executor)
            "worker usage identity exceeds the limit" h2 in
        let (_, h4) =
          past_none (bad_cost c u.cost_units) "reported worker cost_units is invalid" h3 in
        let (wall, h5) =
          past_none (above m.max_wall_time_ms u.wall_duration_ms) "worker wall-time budget exceeded"
            h4 in
        (
          run_violation-none m u _ _ (run_sums (codes value.id)) h5,
          above-false m.max_wall_time_ms u.wall_duration_ms wall,
        )

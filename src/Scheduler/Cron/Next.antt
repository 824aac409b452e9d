-- ===== src/Scheduler/Cron/Next.antt =====
-- src/scheduler/scheduler.cpp, `cron_next`: the search finds the first occurrence.
use laso.Base.{
  ℕ, zero, suc, ◌+◌, ◌≤◌, ◌<◌, ◌≡◌, sym, ◌∙◌, ap, subst, ◌⊎◌, inl, inr, ◌↔◌, true, false, Option,
  none, some, arith, Bool-cases, Option-cases, eq_cases,
}
use laso.Core.Errors.{ErrorCode, ok, throw}
use laso.Scheduler.Cron.{Cron, Tm, cron_match, cron_search}

module _ (gmtime : ℕ → Option Tm) (cron : Cron) where
  -- The expression matches at the minute `m`, and does not.
  abbrev Occurs : ℕ → Type 0
  Occurs m = (utc : Tm) × (gmtime m ≡ some utc) × (cron_match cron utc ≡ true)

  abbrev Passes : ℕ → Type 0
  Passes m = (utc : Tm) × (gmtime m ≡ some utc) × (cron_match cron utc ≡ false)

  -- The three ways of one round.
  search_stop :
      (left m : ℕ)
      → gmtime m ≡ none
      → cron_search gmtime cron (suc left) m
        ≡ throw ErrorCode.validation "Cannot evaluate cron timestamp"
  unfolding cron_search
  search_stop left m h = rw (h, cron_search)

  search_hit : (left m : ℕ) → Occurs m → cron_search gmtime cron (suc left) m ≡ ok m
  unfolding cron_search
  search_hit left m (utc, h, e) = rw (h, e, cron_search)

  search_miss :
      (left m : ℕ)
      → Passes m
      → cron_search gmtime cron (suc left) m ≡ cron_search gmtime cron left (m + 1)
  unfolding cron_search
  search_miss left m (utc, h, e) = rw (h, e, cron_search)

  minute_cases : (m : ℕ) → (gmtime m ≡ none) ⊎ (Occurs m ⊎ Passes m)
  minute_cases m = elim (Option-cases (gmtime m)) [
    | inl e ↦ inl e
    | inr (utc, e) ↦ elim (Bool-cases (cron_match cron utc)) [
      | inl yes_match ↦ inr (inl (utc, e, yes_match))
      | inr no_match ↦ inr (inr (utc, e, no_match))
    ]
  ]

  -- Every minute from one to another, the second left out, is passed.
  abbrev AllPass : ℕ → ℕ → Type 0
  AllPass from to = (i : ℕ) → from ≤ i → i < to → Passes i

  AllPass-step : (m to : ℕ) → Passes m → AllPass (m + 1) to → AllPass m to
  AllPass-step m to p h i low high = elim (eq_cases m i) [
    | inl same ↦ rw (sym same) p
    | inr other ↦ h i (omega (arith, low, other)) high
  ]

  nothing_left : (start m : ℕ) → cron_search gmtime cron 0 start ≡ ok m → ⊥
  unfolding cron_search
  nothing_left start m h = cc h

  -- The search over `left` minutes from `start` on returns the minute `m` exactly if `m` is the first
  -- of them at which the expression matches: it is among them and matches, and every minute
  -- before it has a calendar time that does not match.
  pub cron_search_first :
      (left start m : ℕ)
      → (cron_search gmtime cron left start ≡ ok m) ↔ (
          (start ≤ m)
          × (m < start + left)
          × ((utc : Tm) × (gmtime m ≡ some utc) × (cron_match cron utc ≡ true))
          × ((i : ℕ)
              → start ≤ i
              → i < m
              → (utc : Tm) × (gmtime i ≡ some utc) × (cron_match cron utc ≡ false)))
  cron_search_first zero start m =
      (λ h. absurd (nothing_left start m h), λ (low, high, _, _). absurd (omega (arith, low, high)))
  cron_search_first (suc left) start m = elim (minute_cases start) [
    | inl e ↦ (
      λ h. cc (search_stop left start e, h),
      λ (low, high, (utc, t, _), before). elim (eq_cases start m) [
        | inl same ↦ cc (same, e, t)
        | inr other ↦
            let (utc', t', _) = before start (omega arith) (omega (arith, low, other)) in cc (e, t')
      ],
    )
    | inr (inl hit) ↦ (
      λ h.
          let same : start ≡ m = cc (search_hit left start hit, h) in
          (
            omega (arith, same),
            omega (arith, same),
            subst Occurs same hit,
            λ i low high. absurd (omega (arith, same, low, high)),
          ),
      λ (low, high, occurs, before). elim (eq_cases start m) [
        | inl same ↦ search_hit left start hit ∙ ap ok same
        | inr other ↦
            absurd (not_both start hit (before start (omega arith) (omega (arith, low, other))))
      ],
    )
    | inr (inr miss) ↦
        let rest = cron_search_first left (start + 1) m in
        (
          λ h.
              let (low, high, occurs, before) = rest.0 (sym (search_miss left start miss) ∙ h) in
              (omega (arith, low), omega (arith, high), occurs, AllPass-step start m miss before),
          λ (low, high, occurs, before). elim (eq_cases start m) [
            | inl same ↦ absurd (not_both m occurs (subst Passes same miss))
            | inr other ↦
                search_miss left start miss
                ∙ rest.1 (
                  omega (arith, low, other),
                  omega (arith, high),
                  occurs,
                  λ i l u. before i (omega (arith, l)) u,
                )
          ],
        )
  ]
    where
      not_both : (i : ℕ) → Occurs i → Passes i → ⊥
      not_both i (u, t, e) (u', t', e') = let same : u ≡ u' = cc (t, t') in cc (e, e', same)

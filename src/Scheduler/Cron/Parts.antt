-- ===== src/Scheduler/Cron/Parts.antt =====
-- src/scheduler/scheduler.cpp, `cron_field`: the parts of a field's list.
use laso.Base.{
  ℕ, zero, suc, ◌+◌, ◌-◌, ◌*◌, ◌≤◌, ◌≡◌, refl, sym, ◌∙◌, ap, subst, ◌⊎◌, inl, inr, ◌↔◌, Bool, true,
  false, not, ◌||◌, Option, none, some, List, [], ◌∷◌, arith, ltb, all, length, Bool-cases, In,
  here, there, In-nil, In-cons,
}
use laso.Core.Errors.{ErrorCode, Result, ok, guard-eq-ok, bind-eq-ok}
use laso.Pipeline.Reference.{Bytes, is_digit, stoul}
use laso.Scheduler.Cron.{
  CronField, bit, no_bits, normalized, Range, number, in_range, is_nil, is_star, range_ends,
  part_range, step_range, cron_part, add_range, add_parts, cron_field, split,
}
use laso.Scheduler.Cron.Fields.{Reaches, bit-fill, length-fill}

in_range-bounds :
    (low high n : ℕ) (o : Option (ℕ × Bytes)) → in_range low high o ≡ ok n → (low ≤ n) × (n ≤ high)
in_range-bounds low high n none h = cc h
in_range-bounds low high n (some (v, rest)) h = ground arith

number-bounds :
    (value : Bytes) (low high n : ℕ) → number value low high ≡ ok n → (low ≤ n) × (n ≤ high)
unfolding number
number-bounds value low high n h =
    elim (Bool-cases (is_nil value || ltb 6 (length value) || not (all is_digit value))) [
      | inl bad ↦ cc (rw bad at h)
      | inr good ↦ in_range-bounds low high n (stoul value) (rw good at h)
    ]

abbrev Within : ℕ → ℕ → ℕ → ℕ → Type 0
Within low high first last = (low ≤ first) × (first ≤ last) × (last ≤ high)

ends :
    (low high first last : ℕ) (e : ℕ × ℕ)
    → ◌≡◌ {A = Result (ℕ × ℕ)} (ok (first, last)) (ok e)
    → Within low high first last
    → Within low high e.0 e.1
ends low high first last e h w =
    let same : (first, last) ≡ e = cc h in subst (λ p. Within low high p.0 p.1) same w

range_ends-Within :
    (low high : ℕ) (pieces : List Bytes) (e : ℕ × ℕ)
    → range_ends low high pieces ≡ ok e
    → Within low high e.0 e.1
unfolding range_ends
range_ends-Within low high [] e h = cc h
range_ends-Within low high (a ∷ []) e h =
    let (_, h') = guard-eq-ok (is_nil a) ErrorCode.validation _ _ h in
    let (first, is_first, done) = bind-eq-ok (number a low high) _ h' in
    let b = number-bounds a low high first is_first in
    ends low high first first e done (b.0, omega arith, b.1)
range_ends-Within low high (a ∷ b ∷ []) e h =
    let (_, h') = guard-eq-ok (is_nil a) ErrorCode.validation _ _ h in
    let (first, is_first, h'') = bind-eq-ok (number a low high) _ h' in
    let (last, is_last, h3) = bind-eq-ok (number b low high) _ h'' in
    let (ordered, done) = guard-eq-ok (ltb last first) ErrorCode.validation _ _ h3 in
    let lo = number-bounds a low high first is_first in
    let hi = number-bounds b low high last is_last in
    ends low high first last e done (lo.0, ground (arith, ordered), hi.1)
range_ends-Within low high (a ∷ b ∷ c ∷ rest) e h = cc h

-- A range of values between two bounds, and a step that goes on.
abbrev pub IsRange : ℕ → ℕ → Range → Type 0
IsRange low high r = (low ≤ r.first) × (r.first ≤ r.last) × (r.last ≤ high) × (1 ≤ r.step)

as_range : (low high : ℕ) (r r' : Range) → ok r ≡ ok r' → IsRange low high r → IsRange low high r'
as_range low high r r' h w = let same : r ≡ r' = cc h in subst (IsRange low high) same w

part_range-IsRange :
    (low high : ℕ) (base : Bytes) (step : ℕ) (r : Range)
    → low ≤ high
    → 1 ≤ step
    → part_range low high base step ≡ ok r
    → IsRange low high r
unfolding part_range
part_range-IsRange low high base step r le positive h = elim (Bool-cases (is_star base)) [
  | inl star ↦
      as_range low high (record { first = low; last = high; step = step; star = true }) r
        (rw star at h) (omega arith, le, omega arith, positive)
  | inr range ↦
      let (e, read, done) = bind-eq-ok (range_ends low high (split base 45)) _ (rw range at h) in
      let w = range_ends-Within low high (split base 45) e read in
      as_range low high (record { first = e.0; last = e.1; step = step; star = false }) r done
        (w.0, w.1, w.2, positive)
]

step_range-IsRange :
    (low high : ℕ) (pieces : List Bytes) (r : Range)
    → low ≤ high
    → step_range low high pieces ≡ ok r
    → IsRange low high r
unfolding step_range
step_range-IsRange low high [] r le h = cc h
step_range-IsRange low high (base ∷ []) r le h =
    part_range-IsRange low high base 1 r le (omega arith)
      (guard-eq-ok (is_nil base) ErrorCode.validation _ _ h).1
step_range-IsRange low high (base ∷ every ∷ []) r le h =
    let (_, h') = guard-eq-ok (is_nil base || is_nil every) ErrorCode.validation _ _ h in
    let (step, is_step, done) = bind-eq-ok (number every 1 (high - low + 1)) _ h' in
    part_range-IsRange low high base step r le
      (number-bounds every 1 (high - low + 1) step is_step).0 done
step_range-IsRange low high (a ∷ b ∷ c ∷ rest) r le h = cc h

pub cron_part-IsRange :
    (low high : ℕ) (part : Bytes) (r : Range)
    → low ≤ high
    → cron_part low high part ≡ ok r
    → IsRange low high r
unfolding cron_part
cron_part-IsRange low high part r le h =
    step_range-IsRange low high (split part 47) r le
      (guard-eq-ok (is_nil part) ErrorCode.validation _ _ h).1

module _ (low high : ℕ) (alias : Bool) (le : low ≤ high) where
  -- The value is one of a part of the list.
  abbrev pub Asked : List Bytes → ℕ → Type 0
  Asked parts v =
      (part : Bytes) × (r : Range) × In part parts
      × (cron_part low high part ≡ ok r)
      × Reaches alias r.first r.last r.step v

  add_range-bit :
      (f : CronField) (r : Range) (v : ℕ)
      → IsRange low high r
      → length f.values ≡ suc high
      → (bit v (add_range alias f r).values ≡ true)
        ↔ ((bit v f.values ≡ true) ⊎ Reaches alias r.first r.last r.step v)
  add_range-bit f r v (lo, mid, hi, positive) size =
      bit-fill alias (suc (r.last - r.first)) r.first r.last r.step v f.values positive mid
        (omega (arith, size, hi)) (omega arith)

  add_range-size :
      (f : CronField) (r : Range)
      → length f.values ≡ suc high
      → length (add_range alias f r).values ≡ suc high
  add_range-size f r size =
      length-fill alias (suc (r.last - r.first)) r.first r.last r.step f.values ∙ size

  pub add_parts-bits :
      (parts : List Bytes) (f f' : CronField) (v : ℕ)
      → length f.values ≡ suc high
      → add_parts low high alias f parts ≡ ok f'
      → (length f'.values ≡ suc high)
        × ((bit v f'.values ≡ true) ↔ ((bit v f.values ≡ true) ⊎ Asked parts v))
  unfolding add_parts
  add_parts-bits [] f f' v size h =
      let same : f ≡ f' = cc h in
      (
        subst (λ g. length g.values ≡ suc high) same size,
        subst (λ g. (bit v g.values ≡ true) ↔ ((bit v f.values ≡ true) ⊎ Asked [] v)) same
            (λ b. inl b, λ b. elim b [ inl c ↦ c | inr (part, r, i, _, _) ↦ absurd (In-nil i) ]),
      )
  add_parts-bits (part ∷ parts) f f' v size h =
      let (r, read, rest) = bind-eq-ok (cron_part low high part) _ h in
      let range = cron_part-IsRange low high part r le read in
      let (size', later) =
        add_parts-bits parts (add_range alias f r) f' v (add_range-size f r size) rest in
      let here_bit = add_range-bit f r v range size in
      (
        size',
        (
          λ b. elim (later.0 b) [
            | inl c ↦ elim (here_bit.0 c) [
              | inl old ↦ inl old
              | inr new ↦ inr (part, r, here refl, read, new)
            ]
            | inr (p, q, i, e, w) ↦ inr (p, q, there i, e, w)
          ],
          λ b. later.1 (elim b [
            | inl old ↦ inl (here_bit.1 (inl old))
            | inr (p, q, i, e, w) ↦ elim (In-cons i) [
              | inl same ↦ inl (here_bit.1 (inr (same_range part p r q (sym same) read e w)))
              | inr j ↦ inr (p, q, j, e, w)
            ]
          ]),
        ),
      )
    where
      same_range :
          (a b : Bytes) (q q' : Range)
          → a ≡ b
          → cron_part low high a ≡ ok q
          → cron_part low high b ≡ ok q'
          → Reaches alias q'.first q'.last q'.step v
          → Reaches alias q.first q.last q.step v
      same_range a b q q' same is is' w =
          let equal : q' ≡ q = cc (same, is, is') in
          subst (λ x. Reaches alias x.first x.last x.step v) equal w

  no_bits-size : (n : ℕ) → length (no_bits n) ≡ n
  no_bits-size zero = refl
  no_bits-size (suc n) = ap suc (no_bits-size n)

  no_bits-bit : (n v : ℕ) → bit v (no_bits n) ≡ true → ⊥
  no_bits-bit zero v h = cc h
  no_bits-bit (suc n) zero h = cc h
  no_bits-bit (suc n) (suc v) h = no_bits-bit n v h

  -- Between bounds in order, a cron field that is read has one bit for each value from 0 to the
  -- upper bound, and the bit of a value is set exactly if a part of the comma-separated list asks
  -- for it: the part denotes a range with a step, and the value is met on the way from the range's
  -- first to its last value, 7 being met as 0 for weekdays.
  pub cron_field_values :
      (text : Bytes) (f : CronField)
      → cron_field text low high alias ≡ ok f
      → (length f.values ≡ suc high)
        × ((v : ℕ)
            → (bit v f.values ≡ true) ↔ (
                (part : Bytes) × (r : Range) × In part (split text 44)
                × (cron_part low high part ≡ ok r)
                × ((k : ℕ) × (r.first + k * r.step ≤ r.last)
                    × (normalized alias (r.first + k * r.step) ≡ v))))
  unfolding cron_field
  cron_field_values text f h =
      let (_, read) =
        guard-eq-ok (is_nil text || ltb 64 (length text)) ErrorCode.validation _ _ h in
      let start : CronField = record { values = no_bits (suc high); wildcard = false } in
      let size : length start.values ≡ suc high = no_bits-size (suc high) in
      (
        (add_parts-bits (split text 44) start f 0 size read).0,
        λ v.
            let bits = (add_parts-bits (split text 44) start f v size read).1 in
            (
              λ b. elim (bits.0 b) [
                | inl none_set ↦ absurd (no_bits-bit (suc high) v none_set)
                | inr asked ↦ asked
              ],
              λ asked. bits.1 (inr asked),
            ),
      )

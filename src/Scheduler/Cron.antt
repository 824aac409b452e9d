-- ===== src/Scheduler/Cron.antt =====
-- src/scheduler/scheduler.cpp: `split`, `number`, `cron_field`, `parse_cron`, `cron_match` and the
-- search loop of `cron_next`. A std::string is the list of its bytes, a std::vector<bool> is a list.
-- gmtime_r is the parameter `gmtime`, from minutes since the epoch.
pub mod Fields
pub mod Parts
pub mod Next
use laso.Base.{
  ℕ, zero, suc, ◌+◌, ◌-◌, Bool, true, false, not, ◌&&◌, ◌||◌, Option, none, some, List, [], ◌∷◌,
  map, ltb, leb, ◌==◌, all, length, drop, if◌then◌else◌,
}
use laso.Core.Errors.{ErrorCode, Result, ok, err, throw, throw_if, ◌>>=◌, ◌>>◌}
use laso.Pipeline.Reference.{Bytes, is_digit, stoul}

abbrev pub put_front : ℕ → List Bytes → List Bytes
put_front c [] = (c ∷ []) ∷ []
put_front c (w ∷ ws) = (c ∷ w) ∷ ws

unfoldable pub split : Bytes → ℕ → List Bytes
split [] delimiter = [] ∷ []
split (c ∷ cs) delimiter =
    let rest = split cs delimiter in if c == delimiter then [] ∷ rest else put_front c rest

abbrev pub bad_field : {A : Type 0} → Result A
bad_field = throw ErrorCode.validation "Invalid numeric schedule field"

abbrev pub in_range : ℕ → ℕ → Option (ℕ × Bytes) → Result ℕ
in_range low high none = bad_field
in_range low high (some (v, rest)) =
    if ltb v low || ltb high v
    then throw ErrorCode.validation "Schedule field is outside its allowed range"
    else ok v

abbrev pub is_nil : Bytes → Bool
is_nil [] = true
is_nil (c ∷ cs) = false

unfoldable pub number : Bytes → ℕ → ℕ → Result ℕ
number value low high =
    if is_nil value || ltb 6 (length value) || not (all is_digit value)
    then bad_field
    else in_range low high (stoul value)

pub record CronField : Type 0 where
  pub values : List Bool
  pub wildcard : Bool

-- `values[i]` and `values[i] = true`
abbrev pub bit : ℕ → List Bool → Bool
bit i [] = false
bit zero (b ∷ bs) = b
bit (suc i) (b ∷ bs) = bit i bs

abbrev pub set_bit : ℕ → List Bool → List Bool
set_bit i [] = []
set_bit zero (b ∷ bs) = true ∷ bs
set_bit (suc i) (b ∷ bs) = b ∷ set_bit i bs

abbrev pub no_bits : ℕ → List Bool
no_bits zero = []
no_bits (suc n) = false ∷ no_bits n

abbrev pub normalized : Bool → ℕ → ℕ
normalized sunday_alias value = if sunday_alias && value == 7 then 0 else value

-- The loop from `first` to `last`, on fuel.
unfoldable pub fill : Bool → ℕ → ℕ → ℕ → ℕ → List Bool → List Bool
fill alias zero value last step bits = bits
fill alias (suc fuel) value last step bits =
    let bits' = set_bit (normalized alias value) bits in
    let rest = fill alias fuel (value + step) last step bits' in
    if leb value last then (if ltb (last - value) step then bits' else rest) else bits

-- What one part of a list asks for: the first and the last value, the step, and whether it is `*`.
pub record Range : Type 0 where
  pub first : ℕ
  pub last : ℕ
  pub step : ℕ
  pub star : Bool

abbrev pub is_star : Bytes → Bool
is_star (c ∷ []) = c == 42
is_star _ = false

unfoldable pub range_ends : ℕ → ℕ → List Bytes → Result (ℕ × ℕ)
range_ends low high (a ∷ []) = do
  throw_if (is_nil a) ErrorCode.validation "Invalid cron range"
  first ← number a low high
  ok (first, first)
range_ends low high (a ∷ b ∷ []) = do
  throw_if (is_nil a) ErrorCode.validation "Invalid cron range"
  first ← number a low high
  last ← number b low high
  throw_if (ltb last first) ErrorCode.validation "Cron range is reversed"
  ok (first, last)
range_ends low high _ = throw ErrorCode.validation "Invalid cron range"

unfoldable pub part_range : ℕ → ℕ → Bytes → ℕ → Result Range
part_range low high base step =
    if is_star base
    then ok (record { first = low; last = high; step = step; star = true })
    else (range_ends low high (split base 45) >>= λ e.
        ok (record { first = e.0; last = e.1; step = step; star = false }))

unfoldable pub step_range : ℕ → ℕ → List Bytes → Result Range
step_range low high (base ∷ []) = do
  throw_if (is_nil base) ErrorCode.validation "Invalid cron step"
  part_range low high base 1
step_range low high (base ∷ every ∷ []) = do
  throw_if (is_nil base || is_nil every) ErrorCode.validation "Invalid cron step"
  step ← number every 1 (high - low + 1)
  part_range low high base step
step_range low high _ = throw ErrorCode.validation "Invalid cron step"

unfoldable pub cron_part : ℕ → ℕ → Bytes → Result Range
cron_part low high part = do
  throw_if (is_nil part) ErrorCode.validation "Invalid cron list"
  step_range low high (split part 47)

abbrev pub add_range : Bool → CronField → Range → CronField
add_range alias f r = record {
  values = fill alias (suc (r.last - r.first)) r.first r.last r.step f.values;
  wildcard = f.wildcard || r.star;
}

-- The loop over the parts of the list.
unfoldable pub add_parts : ℕ → ℕ → Bool → CronField → List Bytes → Result CronField
add_parts low high alias f [] = ok f
add_parts low high alias f (part ∷ parts) =
    cron_part low high part >>= λ r. add_parts low high alias (add_range alias f r) parts

unfoldable pub cron_field : Bytes → ℕ → ℕ → Bool → Result CronField
cron_field text low high alias = do
  throw_if (is_nil text || ltb 64 (length text)) ErrorCode.validation "Invalid cron field"
  add_parts low high alias (record { values = no_bits (suc high); wildcard = false })
      (split text 44)

pub record Cron : Type 0 where
  pub minute : CronField
  pub hour : CronField
  pub day : CronField
  pub month : CronField
  pub weekday : CronField

unfoldable pub nonempty : List Bytes → List Bytes
nonempty [] = []
nonempty (f ∷ fs) = if is_nil f then nonempty fs else f ∷ nonempty fs

unfoldable pub five_fields : List Bytes → Result Cron
five_fields (a ∷ b ∷ c ∷ d ∷ e ∷ []) = do
  minute ← cron_field a 0 59 false
  hour ← cron_field b 0 23 false
  day ← cron_field c 1 31 false
  month ← cron_field d 1 12 false
  weekday ← cron_field e 0 7 true
  ok (record { minute = minute; hour = hour; day = day; month = month; weekday = weekday })
five_fields _ = throw ErrorCode.validation "Cron must use exactly five UTC fields"

unfoldable pub parse_cron : Bytes → Result Cron
unfolding five_fields nonempty
parse_cron expression = five_fields (nonempty (split expression 32))

-- The members of std::tm that are read.
pub record Tm : Type 0 where
  pub tm_min : ℕ
  pub tm_hour : ℕ
  pub tm_mday : ℕ
  pub tm_mon : ℕ
  pub tm_wday : ℕ

unfoldable pub cron_match : Cron → Tm → Bool
cron_match cron tm =
    if not (bit tm.tm_min cron.minute.values)
      || not (bit tm.tm_hour cron.hour.values)
      || not (bit (tm.tm_mon + 1) cron.month.values)
    then false
    else if not cron.day.wildcard && not cron.weekday.wildcard
    then bit tm.tm_mday cron.day.values || bit tm.tm_wday cron.weekday.values
    else bit tm.tm_mday cron.day.values && bit tm.tm_wday cron.weekday.values

-- The loop of `cron_next`, over the minutes from `candidate` on; `left` of them may be tried.
unfoldable pub cron_search : (ℕ → Option Tm) → Cron → ℕ → ℕ → Result ℕ
cron_search gmtime cron zero candidate =
    throw ErrorCode.validation "Cron expression has no occurrence in its search bound"
cron_search gmtime cron (suc left) candidate = elim (gmtime candidate) [
  | none ↦ throw ErrorCode.validation "Cannot evaluate cron timestamp"
  | some utc ↦ elim (cron_match cron utc) [
    | true ↦ ok candidate
    | false ↦ cron_search gmtime cron left (candidate + 1)
  ]
]

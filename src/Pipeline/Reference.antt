-- ===== src/Pipeline/Reference.antt =====
-- src/pipeline/parser.cpp: `identifier`, `parse_pipeline_reference` and `pipeline_reference`. A
-- std::string is the list of its bytes.
pub mod RoundTrip
use laso.Base.{
  ℕ, zero, suc, ◌+◌, ◌-◌, ◌*◌, ◌/◌, ◌%◌, ◌^◌, String, Bool, true, false, not, ◌&&◌, ◌||◌, Option,
  none, some, List, [], ◌∷◌, ◌++◌, ltb, leb, ◌==◌, all, any, length, codes, if◌then◌else◌,
}
use laso.Core.Errors.{ErrorCode, Result, ok, throw, throw_if, ◌>>=◌, ◌>>◌}

abbrev pub Bytes : Type 0
Bytes = List ℕ

abbrev pub alnum : ℕ → Bool
alnum c = (leb 65 c && leb c 90) || (leb 97 c && leb c 122) || (leb 48 c && leb c 57)

abbrev pub name_char : ℕ → Bool
name_char c = alnum c || c == 95 || c == 46 || c == 45

-- [A-Za-z0-9][A-Za-z0-9_.-]{0,127}
unfoldable pub identifier : Bytes → Bool
identifier [] = false
identifier (c ∷ cs) = alnum c && leb (length cs) 127 && all name_char cs

pub record PipelineReference : Type 0 where
  pub name : Bytes
  pub version : ℕ
  pub explicit_version : Bool

abbrev pub at_sign : ℕ
at_sign = 64

-- `text.find('@')`: what stands before and behind the first one.
unfoldable pub split_at_sign : Bytes → Option (Bytes × Bytes)
split_at_sign [] = none
split_at_sign (c ∷ cs) = elim (c == at_sign) [
  | true ↦ some ([], cs)
  | false ↦ elim (split_at_sign cs) [ none ↦ none | some (a, b) ↦ some (c ∷ a, b) ]
]

abbrev pub is_digit : ℕ → Bool
is_digit c = leb 48 c && leb c 57

-- isspace of the "C" locale
abbrev pub is_space : ℕ → Bool
is_space c = c == 32 || (leb 9 c && leb c 13)

-- The digits of strtoul: the value of the longest run of digits, and what follows it.
unfoldable pub read_digits : ℕ → Bytes → ℕ × Bytes
read_digits v [] = (v, [])
read_digits v (c ∷ cs) =
    let rest = read_digits (v * 10 + (c - 48)) cs in if is_digit c then rest else (v, c ∷ cs)

abbrev pub ulong_mod : ℕ
ulong_mod = 2 ^ 64

-- `none`: std::stoul throws, for want of a digit or because the value is out of range.
unfoldable pub unsigned_digits : Bool → Bytes → Option (ℕ × Bytes)
unsigned_digits negative [] = none
unsigned_digits negative (c ∷ cs) =
    if not (is_digit c)
    then none
    else let (v, rest) = read_digits 0 (c ∷ cs) in
      if leb ulong_mod v
      then none
      else some (if negative then (ulong_mod - v) % ulong_mod else v, rest)

unfoldable pub signed_digits : Bytes → Option (ℕ × Bytes)
unfolding unsigned_digits
signed_digits [] = none
signed_digits (c ∷ cs) =
    if c == 43
    then unsigned_digits false cs
    else if c == 45
    then unsigned_digits true cs
    else unsigned_digits false (c ∷ cs)

-- std::stoul, base 10: the value and the characters that it leaves.
unfoldable pub stoul : Bytes → Option (ℕ × Bytes)
unfolding signed_digits
stoul [] = none
stoul (c ∷ cs) = let rest = stoul cs in if is_space c then rest else signed_digits (c ∷ cs)

-- The `try` block: the whole text is a number from 1 to 1000000.
unfoldable pub version_number : Option (ℕ × Bytes) → Option ℕ
version_number none = none
version_number (some (v, c ∷ cs)) = none
version_number (some (v, [])) = if v == 0 || ltb 1000000 v then none else some v

pinned_reference : Bytes → Option ℕ → Result PipelineReference
pinned_reference name none = throw ErrorCode.validation "Invalid pipeline reference version"
pinned_reference name (some v) = ok (record { name = name; version = v; explicit_version = true })

abbrev pub is_nil : Bytes → Bool
is_nil [] = true
is_nil (c ∷ cs) = false

reference_parts : Bytes → Option (Bytes × Bytes) → Result PipelineReference
unfolding pinned_reference stoul version_number
reference_parts text none = do
  throw_if (not (identifier text)) ErrorCode.validation "Invalid pipeline reference"
  ok (record { name = text; version = 0; explicit_version = false })
reference_parts text (some (name, digits)) = do
  throw_if (is_nil name || is_nil digits || any (λ c. c == at_sign) digits || not (identifier name))
      ErrorCode.validation "Invalid versioned pipeline reference"
  pinned_reference name (version_number (stoul digits))

unfoldable pub parse_pipeline_reference : Bytes → Result PipelineReference
unfolding reference_parts split_at_sign
parse_pipeline_reference text = reference_parts text (split_at_sign text)

-- std::to_string of an `unsigned`, which has ten digits at most: `fuel` of them.
unfoldable pub decimal : ℕ → ℕ → Bytes → Bytes
decimal zero n acc = acc
decimal (suc f) n acc =
    let rest = decimal f (n / 10) ((48 + n % 10) ∷ acc) in if ltb n 10 then (48 + n) ∷ acc else rest

abbrev pub to_string : ℕ → Bytes
to_string n = decimal 10 n []

unfoldable pub pipeline_reference : Bytes → ℕ → Bytes
unfolding decimal
pipeline_reference name version = name ++ at_sign ∷ to_string version

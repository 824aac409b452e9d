-- ===== src/Pipeline/Reference/RoundTrip.antt =====
-- src/pipeline/parser.cpp: what `pipeline_reference` prints, `parse_pipeline_reference` reads back.
use native.Mathlib.Nat.{pow-suc}
use laso.Base.{
  ℕ, zero, suc, ◌+◌, ◌*◌, ◌/◌, ◌%◌, ◌^◌, ◌≤◌, ◌<◌, ◌≡◌, ◌≢◌, inl, inr, refl, ap, ◌∙◌, true, false,
  some, [], ◌∷◌, ◌++◌, arith, ltb, ◌==◌, all, any, Bool-cases,
}
use laso.Core.Errors.{ok}
use laso.Pipeline.Reference.{
  Bytes, identifier, name_char, at_sign, split_at_sign, read_digits, stoul, version_number,
  is_digit, decimal, to_string, pipeline_reference, parse_pipeline_reference,
}

read_digit :
    (v d : ℕ) (acc : Bytes) (n : ℕ)
    → d < 10
    → v * 10 + d ≡ n
    → read_digits v ((48 + d) ∷ acc) ≡ read_digits n acc
unfolding read_digits
read_digit v d acc n h e = ground arith

-- Reading what was printed for `n`, before `acc`, goes on as if `n` had been read.
read_digits-decimal :
    (f n : ℕ) (acc : Bytes) → n < 10 ^ f → read_digits 0 (decimal f n acc) ≡ read_digits n acc
unfolding decimal
read_digits-decimal zero n acc h = ap (λ (v : ℕ). read_digits v acc) (omega arith)
read_digits-decimal (suc f) n acc h =
    let smaller : n / 10 < 10 ^ f = omega (arith, pow-suc 10 f) in
    let shorter = read_digits-decimal f (n / 10) ((48 + n % 10) ∷ acc) smaller in
    elim (Bool-cases (ltb n 10)) [
      | inl small ↦ rw small (read_digit 0 n acc n (ground arith) (omega arith))
      | inr big ↦ rw big (shorter ∙ read_digit (n / 10) (n % 10) acc n (omega arith) (omega arith))
    ]

all_digits-decimal :
    (f n : ℕ) (acc : Bytes) → all is_digit acc ≡ true → all is_digit (decimal f n acc) ≡ true
unfolding decimal
all_digits-decimal zero n acc h = h
all_digits-decimal (suc f) n acc h =
    ground (arith, all_digits-decimal f (n / 10) ((48 + n % 10) ∷ acc))

decimal-ne-nil : (f n : ℕ) (c : ℕ) (acc : Bytes) → decimal f n (c ∷ acc) ≢ []
unfolding decimal
decimal-ne-nil zero n c acc = λ e. cc
decimal-ne-nil (suc f) n c acc = ground (arith, decimal-ne-nil f (n / 10) (48 + n % 10) (c ∷ acc))

to_string-ne-nil : (n : ℕ) → to_string n ≢ []
unfolding decimal
to_string-ne-nil n = ground (arith, decimal-ne-nil 9 (n / 10) (48 + n % 10) [])

no_at_sign : (xs : Bytes) → all is_digit xs ≡ true → any (λ c. c == at_sign) xs ≡ false
no_at_sign [] h = refl
no_at_sign (x ∷ xs) h = ground (arith, no_at_sign xs)

name_no_at_sign : (xs : Bytes) → all name_char xs ≡ true → any (λ c. c == at_sign) xs ≡ false
name_no_at_sign [] h = refl
name_no_at_sign (x ∷ xs) h = ground (arith, name_no_at_sign xs)

identifier-no_at_sign :
    (name : Bytes) → identifier name ≡ true → any (λ c. c == at_sign) name ≡ false
unfolding identifier
identifier-no_at_sign [] h = cc
identifier-no_at_sign (c ∷ cs) h = ground (arith, name_no_at_sign cs)

split_at_sign-append :
    (name digits : Bytes)
    → any (λ c. c == at_sign) name ≡ false
    → split_at_sign (name ++ at_sign ∷ digits) ≡ some (name, digits)
unfolding split_at_sign
split_at_sign-append [] digits h = refl
split_at_sign-append (c ∷ cs) digits h = ground (arith, split_at_sign-append cs digits)

-- A text of digits goes through `stoul` as its value, unless that is too large.
stoul-digits :
    (xs : Bytes) (v : ℕ)
    → xs ≢ []
    → all is_digit xs ≡ true
    → read_digits 0 xs ≡ (v, [])
    → v < 2 ^ 64
    → stoul xs ≡ some (v, [])
unfolding stoul
stoul-digits [] v e h r l = absurd (e refl)
stoul-digits (c ∷ cs) v e h r l = ground arith

version-to_string :
    (version : ℕ)
    → 1 ≤ version
    → version ≤ 1000000
    → version_number (stoul (to_string version)) ≡ some version
unfolding version_number
version-to_string version low high =
    let read = read_digits-decimal 10 version [] (omega arith) in
    let parsed =
      stoul-digits (to_string version) version (to_string-ne-nil version)
        (all_digits-decimal 10 version [] refl) (read ∙ (unfold read_digits in refl))
        (omega arith) in
    rw parsed (ground arith)

identifier-nil : identifier [] ≡ false
unfolding identifier
identifier-nil = refl

parse_parts :
    (text name digits : Bytes) (version : ℕ)
    → split_at_sign text ≡ some (name, digits)
    → digits ≢ []
    → any (λ c. c == at_sign) digits ≡ false
    → identifier name ≡ true
    → version_number (stoul digits) ≡ some version
    → parse_pipeline_reference text
      ≡ ok (record { name = name; version = version; explicit_version = true })
unfolding parse_pipeline_reference
parse_parts text [] digits version s d a i v = cc identifier-nil
parse_parts text (n ∷ name) [] version s d a i v = absurd (d refl)
parse_parts text (n ∷ name) (c ∷ digits) version s d a i v = rw (s, a, i, v)

-- The reference printed for a pipeline's identifier and a version from 1 to 1000000 is read back
-- as that name and that version, given explicitly.
pub parse-pipeline_reference :
    (name : Bytes) (version : ℕ)
    → identifier name ≡ true
    → 1 ≤ version
    → version ≤ 1000000
    → parse_pipeline_reference (pipeline_reference name version)
      ≡ ok (record { name = name; version = version; explicit_version = true })
unfolding pipeline_reference
parse-pipeline_reference name version good low high =
    let digits = all_digits-decimal 10 version [] refl in
    parse_parts (name ++ at_sign ∷ to_string version) name (to_string version) version
      (split_at_sign-append name (to_string version) (identifier-no_at_sign name good))
      (to_string-ne-nil version) (no_at_sign (to_string version) digits) good
      (version-to_string version low high)

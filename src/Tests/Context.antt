-- ===== src/Tests/Context.antt =====
-- Tests of src/context/reducer.cpp.
use laso.Base.{ℕ, ◌≡◌, refl, Option, none, some, List, [], ◌∷◌, ◌++◌, map, length}
use laso.Core.Errors.{ErrorCode, Result, ok, throw}
use laso.Context.{
  ContextReductionRequest, ContextReductionResult, append_turns, fit, previous_turns, reduce,
}
use laso.Context.Budget.{InOrder, back, Suffix, reduce_keeps_longest}

-- A turn is the list of its number, and a list of turns the list of their numbers.
abbrev turns : List ℕ → Option (List (List ℕ))
turns ns = some (map (λ n. n ∷ []) ns)

abbrev number_of : List ℕ → Option ℕ
number_of [] = none
number_of (n ∷ ns) = some n

abbrev number_at : List ℕ → Result ℕ
number_at [] = throw ErrorCode.validation "no number"
number_at (n ∷ ns) = ok n

abbrev joined : List (List ℕ) → List ℕ
joined [] = []
joined (t ∷ ts) = t ++ joined ts

abbrev in_time : ℕ → Result (Unit {0})
in_time i = ok tt

-- Three turns, of which two fit.
abbrev request : ContextReductionRequest (List ℕ)
request = record {
  session_id = "s";
  previous_generation = none;
  eligible_turns = 4 ∷ 7 ∷ 9 ∷ [];
  through_turn_sequence = 9;
  target_payload_bytes = 2;
}

abbrev reduced : ContextReductionResult (List ℕ)
reduced = record {
  representation_kind = "laso.recent-turns";
  representation_version = "1";
  through_turn_sequence = 9;
  payload = 7 ∷ 9 ∷ [];
}

reduces : reduce turns turns number_of number_at joined length in_time request ≡ ok reduced
unfolding reduce append_turns fit
reduces = refl

reduce_keeps_longest_example :
    (old : List (List ℕ)) × (new : List (List ℕ)) × (previous_turns turns turns number_of number_at
        joined length in_time none
      ≡ ok old)
    × (turns (4 ∷ 7 ∷ 9 ∷ []) ≡ some new)
    × InOrder turns turns number_of number_at joined length in_time
        (back turns turns number_of number_at joined length in_time old)
        new
    × Suffix turns turns number_of number_at joined length in_time request (old ++ new) reduced
reduce_keeps_longest_example =
    reduce_keeps_longest turns turns number_of number_at joined length in_time request reduced
      reduces

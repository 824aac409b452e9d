-- ===== src/Context.antt =====
-- include/laso/context/reducer.hpp and src/context/reducer.cpp: the recent turns that fit a budget. The
-- JSON library is the parameters: `array` reads an array, `turns_of` the array under "turns" of an
-- object, `sequence` an unsigned number under "sequence" of an object, `at_sequence` the same member by
-- `at` and `get`, which throw; `payload` builds the result and `dump_size` is the size of its text.
-- `check i` is the answer of the i-th call of `check_reduction`, which reads the clock and the token.
pub mod Budget
use laso.Base.{
  ℕ, suc, ◌+◌, String, Bool, true, false, not, ◌&&◌, ◌||◌, Option, none, some, List, [], ◌∷◌, ◌++◌,
  ltb, leb, ◌==◌, str_eq, is_some, if◌then◌else◌,
}
use laso.Core.Errors.{ErrorCode, Result, ok, err, throw, throw_if, ◌>>=◌, ◌>>◌}

-- The fields of `SessionContextGeneration` that a reducer reads.
pub record SessionContextGeneration (Json : Type 0) : Type 0 where
  pub representation_kind : String
  pub representation_version : String
  pub payload : Json

pub record ContextReductionRequest (Json : Type 0) : Type 0 where
  pub session_id : String
  pub previous_generation : Option (SessionContextGeneration Json)
  pub eligible_turns : Json
  pub through_turn_sequence : ℕ
  pub target_payload_bytes : ℕ

pub record ContextReductionResult (Json : Type 0) : Type 0 where
  pub representation_kind : String
  pub representation_version : String
  pub through_turn_sequence : ℕ
  pub payload : Json

module _ {Json : Type 0} (array turns_of : Json → Option (List Json)) (sequence : Json → Option ℕ)
    (at_sequence : Json → Result ℕ) (payload : List Json → Json) (dump_size : Json → ℕ)
    (check : ℕ → Result (Unit {0})) where
  -- `turns.back()`
  abbrev pub back_turn : List Json → Option Json
  back_turn [] = none
  back_turn (t ∷ []) = some t
  back_turn (t ∷ u ∷ ts) = back_turn (u ∷ ts)

  abbrev pub check_order : ℕ → Option Json → Result (Unit {0})
  check_order n none = ok tt
  check_order n (some last) = at_sequence last >>= λ m.
      throw_if (leb n m) ErrorCode.validation "Context reducer input is not ordered"

  abbrev pub check_turn : Option ℕ → Option Json → Result (Unit {0})
  check_turn none last =
      throw ErrorCode.validation "Malformed durable turn supplied to context reducer"
  check_turn (some n) last = check_order n last

  -- The loop over the eligible turns, from number `i` on.
  unfoldable pub append_turns : ℕ → List Json → List Json → Result (List Json)
  append_turns i turns [] = ok turns
  append_turns i turns (t ∷ ts) =
      check i
      >> (check_turn (sequence t) (back_turn turns) >> append_turns (suc i) (turns ++ t ∷ []) ts)

  abbrev pub usable : SessionContextGeneration Json → Option (List Json) → Bool
  usable g turns =
      str_eq g.representation_kind "laso.recent-turns"
      && str_eq g.representation_version "1"
      && is_some turns

  abbrev pub or_none : Option (List Json) → List Json
  or_none none = []
  or_none (some ts) = ts

  abbrev pub previous_turns : Option (SessionContextGeneration Json) → Result (List Json)
  previous_turns none = ok []
  previous_turns (some g) = do
    throw_if (not (usable g (turns_of g.payload))) ErrorCode.validation
        "Reference reducer cannot interpret the previous context representation"
    ok (or_none (turns_of g.payload))

  abbrev pub eligible : Option (List Json) → ℕ → Result (List Json)
  eligible none target = throw ErrorCode.validation "Invalid context reduction request"
  eligible (some ts) target = do
    throw_if (target == 0) ErrorCode.validation "Invalid context reduction request"
    ok ts

  abbrev pub result_of : ContextReductionRequest Json → List Json → ContextReductionResult Json
  result_of request turns = record {
    representation_kind = "laso.recent-turns";
    representation_version = "1";
    through_turn_sequence = request.through_turn_sequence;
    payload = payload turns;
  }

  -- The loop that drops the oldest turn while the text is too long.
  unfoldable pub fit :
      ContextReductionRequest Json → List Json → Result (ContextReductionResult Json)
  fit request [] = throw ErrorCode.capacity "A durable turn exceeds the context reduction budget"
  fit request (t ∷ ts) =
      let rest = fit request ts in
      if leb (dump_size (payload (t ∷ ts))) request.target_payload_bytes
      then ok (result_of request (t ∷ ts))
      else rest

  unfoldable pub reduce : ContextReductionRequest Json → Result (ContextReductionResult Json)
  reduce request = do
    check 0
    new ← eligible (array request.eligible_turns) request.target_payload_bytes
    old ← previous_turns request.previous_generation
    turns ← append_turns 1 old new
    fit request turns

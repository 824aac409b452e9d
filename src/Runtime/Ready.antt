-- ===== src/Runtime/Ready.antt =====
-- src/runtime/graph.cpp: `next_ready`, and the frames of a parallel branch. In a vector of frames
-- the last one is the innermost. A member function returns the run as it leaves it.
use laso.Base.{ℕ, ◌%◌, ◌^◌, Bool, true, false, Option, none, some, List, [], ◌∷◌}
use laso.Core.Data.{BranchFrame, ExecutionToken, Run}

-- `unsigned`
abbrev pub u32 : ℕ → ℕ
u32 n = n % 2 ^ 32

abbrev pub is_empty {ℓ} : {A : Type ℓ} → List A → Bool
is_empty [] = true
is_empty (x ∷ xs) = false

abbrev pub or_else {ℓ} : {A : Type ℓ} → A → Option A → A
or_else d none = d
or_else d (some a) = a

-- `frames.back()` and `frames.pop_back()`
unfoldable pub back : List BranchFrame → Option BranchFrame
back [] = none
back (f ∷ []) = some f
back (f ∷ g ∷ fs) = back (g ∷ fs)

unfoldable pub pop_back : List BranchFrame → List BranchFrame
pop_back [] = []
pop_back (f ∷ []) = []
pop_back (f ∷ g ∷ fs) = f ∷ pop_back (g ∷ fs)

module _ {M : Type 0} where
  take_token : Run M → List (ExecutionToken M) → Run M × Bool
  take_token r [] = (r, false)
  take_token r (token ∷ rest) = (
    record r {
      ready = rest;
      active_node = token.node_id;
      message = token.message;
      frames = token.frames;
      prepared_join = "";
    },
    true,
  )

  unfoldable pub next_ready : Run M → Run M × Bool
  unfolding take_token
  next_ready r = take_token r r.ready
